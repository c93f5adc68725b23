-- ===== src/Go/Txn.antt =====
-- regolith.go: the methods of `Txn`, over the entry points of ffi/src/txn.rs. The lock `lk` makes each method
-- one step; `db_closed` is what `t.db.closed` holds at the call.
pub mod Keeps
pub mod Handle
pub mod Overlay
pub mod Bodies
pub mod Serve
pub mod Steps
pub mod Refine
mod Runs
use go_regolith.Base.{
  ◌≡◌, ℕ, Option, none, some, Bool, true, false, not, List, [], ◌∷◌, ◌==◌, if◌then◌else◌, length,
}
use go_regolith.Failure.{Bytes}
use go_regolith.Guard.{guard, Host, Reply, Lent, regolith_release_value}
use go_regolith.Iter.Bounds.{RegolithIterOptions}
use go_regolith.Iter.Machine.{Scans, RegolithIter}
use go_regolith.Txn.{Transactions}
use go_regolith.Txn
use go_regolith.Txn.Calls.{
  regolith_txn_get_borrowed, regolith_txn_has, regolith_txn_set, regolith_txn_delete,
  regolith_txn_iter, regolith_txn_commit, regolith_txn_free,
}
use go_regolith.Go.Errors.{GoError, bare, err_closed, err_discarded}
use go_regolith.Go.Store.{finish, byte_ptr, go_bytes}

module _ (scans : Scans) (api : Transactions scans.Txn) where
  abbrev pub Seat : Type 0
  Seat = Txn.Seat scans api

  pub record GoTxn : Type 0 where
    pub resolved : Bool
    pub host : Host Seat

  unfoldable pub begin : Bool → GoTxn → Option GoError
  begin db_closed t =
      if db_closed then bare err_closed else if t.resolved then bare err_discarded else none

  -- A method whose `begin` lets it through.
  abbrev pub begun : {A : Type 0} → Bool → GoTxn → (Option GoError → A) → A × GoTxn → A × GoTxn
  begun db_closed t refused served = elim (begin db_closed t) [
    | none ↦ served
    | some e ↦ (refused (some e), t)
  ]

  unfoldable pub released : Option Lent → Host Seat → Host Seat
  unfolding regolith_release_value
  released none host = host
  released (some lent) host = record host {
    inner = record (host.inner) { pins = regolith_release_value lent.handle host.inner.pins };
  }

  unfoldable pub copied : Option Lent → Option GoError → Bytes
  unfolding go_bytes
  copied (some lent) none = go_bytes lent
  copied _ _ = []

  unfoldable pub get : Bytes → Bool → GoTxn → (Bytes × Option GoError) × GoTxn
  unfolding begin released copied regolith_txn_get_borrowed
  get key db_closed t =
      let ((out, e), host) = finish (
        regolith_txn_get_borrowed scans api (byte_ptr key) (length key) (true, true, true) true
          t.host) in
      begun db_closed t (λ e. ([], e)) ((copied out e, e), record t { host = released out host })

  abbrev pub flag : Option ℕ → Option GoError → Bool
  flag (some found) none = not (found == 0)
  flag _ _ = false

  unfoldable pub has : Bytes → Bool → GoTxn → (Bool × Option GoError) × GoTxn
  unfolding begin regolith_txn_has
  has key db_closed t =
      let ((found, e), host) =
        finish (regolith_txn_has scans api (byte_ptr key) (length key) true true t.host) in
      begun db_closed t (λ e. (false, e)) ((flag found e, e), record t { host = host })

  unfoldable pub set : Bytes → Bytes → Bool → GoTxn → Option GoError × GoTxn
  unfolding begin regolith_txn_set
  set key value db_closed t =
      let ((out, e), host) = finish (
        regolith_txn_set scans api (byte_ptr key) (length key) (byte_ptr value) (length value) true
          t.host) in
      begun db_closed t (λ e. e) (e, record t { host = host })

  unfoldable pub delete : Bytes → Bool → GoTxn → Option GoError × GoTxn
  unfolding begin regolith_txn_delete
  delete key db_closed t =
      let ((out, e), host) =
        finish (regolith_txn_delete scans api (byte_ptr key) (length key) true t.host) in
      begun db_closed t (λ e. e) (e, record t { host = host })

  -- The handle that a new `Iter` keeps, if there is no error. `opts` is the C options that `newIterOptions`
  -- makes of the caller's, which Go/Ranges models with their release.
  unfoldable pub new_iter :
      Option RegolithIterOptions
      → Bool
      → GoTxn
      → (Option (RegolithIter scans) × Option GoError) × GoTxn
  unfolding begin regolith_txn_iter
  new_iter opts db_closed t =
      let ((out, e), host) = finish (regolith_txn_iter scans api opts true true t.host) in
      begun db_closed t (λ e. (none, e))
        ((elim e [ none ↦ out | some failure ↦ none ], e), record t { host = host })

  unfoldable pub commit : Bool → GoTxn → Option GoError × GoTxn
  unfolding regolith_txn_commit
  commit db_closed t =
      if t.resolved
      then (bare err_discarded, t)
      else if db_closed
      then (bare err_closed, t)
      else let ((out, e), host) = finish (regolith_txn_commit scans api true t.host) in
        (e, record { resolved = true; host = host })

  unfoldable pub discard : GoTxn → GoTxn
  unfolding regolith_txn_free
  discard t =
      if t.resolved
      then t
      else record { resolved = true; host = (regolith_txn_free scans api false t.host).1 }

  pub commit-resolved :
      (c : Bool) (t : GoTxn) → t.resolved ≡ true → commit c t ≡ (bare err_discarded, t)
  unfolding commit
  commit-resolved c t y = rw y

  pub commit-closed :
      (c : Bool) (t : GoTxn) → t.resolved ≡ false → c ≡ true → commit c t ≡ (bare err_closed, t)
  unfolding commit
  commit-closed c t n y = rw (n, y)

  pub commit-committed :
      (c : Bool) (t : GoTxn)
      → t.resolved ≡ false
      → c ≡ false
      → commit c t ≡ (
          let ((out, e), host) = finish (regolith_txn_commit scans api true t.host) in
          (e, record { resolved = true; host = host }))
  unfolding commit
  commit-committed c t n m = rw (n, m)

  pub discard-resolved : (t : GoTxn) → t.resolved ≡ true → discard t ≡ t
  unfolding discard
  discard-resolved t y = rw y

  pub discard-freed :
      (t : GoTxn)
      → t.resolved ≡ false
      → discard t
        ≡ record { resolved = true; host = (guard false (Txn.free_txn scans api) t.host).1 }
  unfolding discard regolith_txn_free
  discard-freed t n = rw n
