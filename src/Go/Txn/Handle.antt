-- ===== src/Go/Txn/Handle.antt =====
-- The handle behind a Go `Txn`: it is there until the method that frees it.
use go_regolith.Base.{
  ℕ, ◌≡◌, refl, sym, ap, ◌∙◌, inl, inr, Bool-cases, Option, none, some, Bool, true, false, List, [],
  ◌∷◌, if◌then◌else◌, length,
}
use mathlib.Core.Path.{subst}
use go_regolith.Failure.{Bytes}
use go_regolith.Exec.{Exec}
use go_regolith.Guard.{Host, Lent, guard}
use go_regolith.Iter.Bounds.{RegolithIterOptions}
use go_regolith.Iter.Machine.{Scans}
use go_regolith.Txn
use go_regolith.Txn.{Transactions}
use go_regolith.Txn.Calls.{
  regolith_txn_get_borrowed, regolith_txn_has, regolith_txn_set, regolith_txn_delete,
  regolith_txn_iter, regolith_txn_commit, regolith_txn_free,
}
use go_regolith.Go.Errors.{GoError}
use go_regolith.Go.Store.{finish, byte_ptr}
use go_regolith.Go.Txn as GoSide
use go_regolith.Go.Txn.Keeps
use go_regolith.Go.Txn.Keeps.{
  guard-inner, finish-inner, get_borrowed-Keeps, has-Keeps, set-Keeps, delete-Keeps, iter-Keeps,
  commit-handle, free_txn-handle,
}

pub data Request : Type 0 where
  get has delete : Bytes → Request
  set : Bytes → Bytes → Request
  new_iter : Option RegolithIterOptions → Request
  commit discard : Request

module _ (scans : Scans) (api : Transactions scans.Txn) where
  abbrev Seat : Type 0
  Seat = Txn.Seat scans api

  abbrev GoTxn : Type 0
  GoTxn = GoSide.GoTxn scans api

  -- A call of a method, and what `t.db.closed` holds then.
  unfoldable pub step : Request × Bool → GoTxn → GoTxn
  step (get k, c) t = (GoSide.get scans api k c t).1
  step (has k, c) t = (GoSide.has scans api k c t).1
  step (delete k, c) t = (GoSide.delete scans api k c t).1
  step (set k v, c) t = (GoSide.set scans api k v c t).1
  step (new_iter o, c) t = (GoSide.new_iter scans api o c t).1
  step (commit, c) t = (GoSide.commit scans api c t).1
  step (discard, c) t = GoSide.discard scans api t

  unfoldable pub step_all : List (Request × Bool) → GoTxn → GoTxn
  unfolding step
  step_all [] t = t
  step_all (q ∷ qs) t = step_all qs (step q t)

  -- The handle is alive exactly as long as the transaction is not resolved.
  pub record IsOwner (id : ℕ) (t : GoTxn) : Type 0 where
    pub handle_is : t.host.inner.handle ≡ (if t.resolved then none else some id)

  finish-Keeps :
      {A : Type 0} (body : Exec Seat A) (host : Host Seat)
      → Keeps.Keeps scans api body
      → (finish (guard true body host)).1.inner.handle ≡ host.inner.handle
  finish-Keeps body host k = ap (λ s. s.handle) (finish-inner body host) ∙ k.same host.inner

  released-handle :
      (out : Option Lent) (host : Host Seat)
      → (GoSide.released scans api out host).inner.handle ≡ host.inner.handle
  unfolding GoSide.released
  released-handle none host = refl
  released-handle (some lent) host = refl

  -- What a method that begins leaves: the transaction as it was, or its host as the call left it.
  begun-IsOwner :
      {A : Type 0} (id : ℕ) (c : Bool) (t : GoTxn) (refused : Option GoError → A) (a : A)
      (host : Host Seat)
      → IsOwner id t
      → host.inner.handle ≡ t.host.inner.handle
      → IsOwner id (GoSide.begun scans api c t refused (a, record t { host = host })).1
  begun-IsOwner {A = A} id c t refused a host o h = ended (GoSide.begin scans api c t)
    where
      ended :
          (v : Option GoError)
          → (let left : A × GoTxn = elim v [
            | none ↦ (a, record t { host = host })
            | some e ↦ (refused (some e), t)
          ] in
              IsOwner id left.1)
      ended none = record { handle_is = h ∙ o.handle_is }
      ended (some e) = o

  commit-IsOwner :
      (id : ℕ) (c : Bool) (t : GoTxn) → IsOwner id t → IsOwner id (GoSide.commit scans api c t).1
  unfolding GoSide.commit regolith_txn_commit
  commit-IsOwner id c t o = elim (Bool-cases t.resolved) [
    | inl y ↦ subst (λ r. IsOwner id r.1) (sym (GoSide.commit-resolved scans api c t y)) o
    | inr n ↦ elim (Bool-cases c) [
      | inl y ↦ subst (λ r. IsOwner id r.1) (sym (GoSide.commit-closed scans api c t n y)) o
      | inr m ↦
          subst (λ r. IsOwner id r.1) (sym (GoSide.commit-committed scans api c t n m))
            (record {
              handle_is =
                  ap (λ s. s.handle) (finish-inner (Txn.commit scans api) t.host)
                  ∙ commit-handle scans api t.host.inner;
            })
    ]
  ]

  discard-IsOwner : (id : ℕ) (t : GoTxn) → IsOwner id t → IsOwner id (GoSide.discard scans api t)
  discard-IsOwner id t o = elim (Bool-cases t.resolved) [
    | inl y ↦ subst (IsOwner id) (sym (GoSide.discard-resolved scans api t y)) o
    | inr n ↦ subst (IsOwner id) (sym (GoSide.discard-freed scans api t n)) (record {
      handle_is =
          ap (λ s. s.handle) (guard-inner (Txn.free_txn scans api) t.host false)
          ∙ free_txn-handle scans api t.host.inner;
    })
  ]

  step-IsOwner : (id : ℕ) (q : Request × Bool) (t : GoTxn) → IsOwner id t → IsOwner id (step q t)
  unfolding step GoSide.get GoSide.has GoSide.set GoSide.delete GoSide.new_iter GoSide.commit
      GoSide.discard regolith_txn_get_borrowed regolith_txn_has regolith_txn_set regolith_txn_delete
      regolith_txn_iter regolith_txn_commit regolith_txn_free
  step-IsOwner id (get k, c) t o =
      begun-IsOwner id c t (λ e. ([], e)) _ _ o
        (released-handle _ _
          ∙ finish-Keeps _ t.host (get_borrowed-Keeps scans api (byte_ptr k) (length k)))
  step-IsOwner id (has k, c) t o =
      begun-IsOwner id c t (λ e. (false, e)) _ _ o
        (finish-Keeps _ t.host (has-Keeps scans api (byte_ptr k) (length k)))
  step-IsOwner id (delete k, c) t o =
      begun-IsOwner id c t (λ e. e) _ _ o
        (finish-Keeps _ t.host (delete-Keeps scans api (byte_ptr k) (length k)))
  step-IsOwner id (set k v, c) t o =
      begun-IsOwner id c t (λ e. e) _ _ o
        (finish-Keeps _ t.host
          (set-Keeps scans api (byte_ptr k) (length k) (byte_ptr v) (length v)))
  step-IsOwner id (new_iter opts, c) t o =
      begun-IsOwner id c t (λ e. (none, e)) _ _ o
        (finish-Keeps _ t.host (iter-Keeps scans api opts))
  step-IsOwner id (commit, c) t o = commit-IsOwner id c t o
  step-IsOwner id (discard, c) t o = discard-IsOwner id t o

  -- Whatever methods are called on a Go transaction, with the store open or closed at each, and however
  -- the engine's calls end: the handle is alive as long as the transaction is not resolved, and is gone
  -- when it is.
  pub step_all-IsOwner :
      (id : ℕ) (qs : List (Request × Bool)) (t : GoTxn) → IsOwner id t → IsOwner id (step_all qs t)
  unfolding step_all
  step_all-IsOwner id [] t o = o
  step_all-IsOwner id (q ∷ qs) t o = step_all-IsOwner id qs (step q t) (step-IsOwner id q t o)
