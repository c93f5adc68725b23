-- ===== src/Go/Txn/Steps/Reads.antt =====
-- Get, Has and NewIter of a Go `Txn` that is not resolved.
use go_regolith.Base.{
  ℕ, ◌≡◌, refl, ap, ◌∙◌, inl, inr, Option, none, some, Bool, true, false, not, ◌==◌, if◌then◌else◌,
  Option-cases, length,
}
use go_regolith.Failure.{Bytes}
use go_regolith.Exec.{Exec}
use go_regolith.Guard.{Heap, Host, Lent, guard}
use go_regolith.Iter.Bounds.{RegolithIterOptions}
use go_regolith.Iter.Machine.{Scans, RegolithIter}
use go_regolith.Txn
use go_regolith.Txn.{Transactions, Call, returned, transaction_error}
use go_regolith.Txn.Calls.{regolith_txn_get_borrowed, regolith_txn_has, regolith_txn_iter}
use go_regolith.Go.Errors.{GoError, error_of, classify, err_not_found}
use go_regolith.Go.Store.{finish, byte_ptr}
use go_regolith.Go.Tidy.{finish-Tidy, Lends-Tidy}
use go_regolith.Go.Model.{Answer, value, found, done, failed, has_value, read}
use go_regolith.Go.Perform.{as_value, as_found}
use go_regolith.Go.Txn as GoSide
use go_regolith.Go.Txn.Handle.{get, has, new_iter}
use go_regolith.Go.Txn.Overlay.{Event, call, Overlay, overlay, seen}
use go_regolith.Go.Txn.Bodies
use go_regolith.Go.Txn.Bodies.{KeepsWrites}
use go_regolith.Go.Txn.Serve
use go_regolith.Go.Txn.Serve.{is_live, is_resolved}
use go_regolith.Go.Txn.Steps
use go_regolith.Go.Txn.Steps.{Found, lands, kept}

module _ (scans : Scans) (api : Transactions scans.Txn) (laws : KeepsWrites scans api)
    (e₀ p₀ : Heap Bytes) (at : Found scans api e₀ p₀) where
  open at use {id, cells, errors, pins, db, t, ro, cell, tidy}

  abbrev Seat : Type 0
  Seat = Bodies.Seat scans api

  abbrev GoTxn : Type 0
  GoTxn = Serve.GoTxn scans api

  abbrev here : Seat
  here = Steps.here scans api laws e₀ p₀ at

  abbrev host : Host Seat
  host = Steps.host scans api laws e₀ p₀ at

  abbrev g : GoTxn
  g = Steps.g scans api laws e₀ p₀ at

  abbrev s : Overlay
  s = Steps.s scans api laws e₀ p₀ at

  abbrev perform : Event api.Db → GoTxn → Answer × GoTxn
  perform = Serve.perform scans api

  abbrev Meets : Event api.Db → Type 0
  Meets = Steps.Meets scans api laws e₀ p₀ at

  abbrev get_call : Bytes → Exec Seat Lent
  get_call k = Txn.get_borrowed scans api (byte_ptr k) (length k) (true, true, true)

  abbrev got : (Option Lent × Option GoError) × Host Seat → Answer × GoTxn
  got ((out, e), host) = (
    as_value (GoSide.copied scans api out e, e),
    record { resolved = false; host = GoSide.released scans api out host },
  )

  perform-get :
      (k : Bytes) → perform (call (get k) false) g ≡ got (finish (guard true (get_call k) host))
  unfolding Serve.perform GoSide.get GoSide.begin regolith_txn_get_borrowed
  perform-get k = refl

  pub get-Meets : (k : Bytes) → Meets (call (get k) false)
  unfolding overlay seen read GoSide.copied GoSide.released error_of classify
  get-Meets k =
      let (reads, eb, ew) = laws.get_slice_is k t in
      elim (Option-cases (seen s k)) [
        | inl e ↦
            let (errors', q, tidy') =
              finish-Tidy tidy (get_call k) here _ _
                (Bodies.get_none scans api id cells pins db t ro cell k (reads ∙ ap returned e)) in
            lands scans api laws e₀ p₀ at true (call (get k) false) (failed err_not_found) _ s
              (perform-get k ∙ ap got q) (rw e refl)
              (kept scans api laws e₀ p₀ at _ errors' pins _ eb ew tidy')
        | inr (v, e) ↦
            let (lent, pins', b, l) =
              Bodies.get_value scans api id cells pins db t ro cell k v tidy.pins_ordered
                (reads ∙ ap returned e) in
            let (errors', q, tidy') = finish-Tidy tidy (get_call k) here _ _ b in
            lands scans api laws e₀ p₀ at true (call (get k) false) (value v) _ s
              (perform-get k ∙ ap got q ∙ rw l.bytes refl) (rw e refl)
              (kept scans api laws e₀ p₀ at _ errors' _ _ eb ew (Lends-Tidy tidy' lent l))
      ]

  abbrev has_call : Bytes → Exec Seat ℕ
  has_call k = Txn.has scans api (byte_ptr k) (length k) true

  abbrev told : (Option ℕ × Option GoError) × Host Seat → Answer × GoTxn
  told ((out, e), host) =
      (as_found (GoSide.flag scans api out e, e), record { resolved = false; host = host })

  perform-has :
      (k : Bytes) → perform (call (has k) false) g ≡ told (finish (guard true (has_call k) host))
  unfolding Serve.perform GoSide.has GoSide.begin regolith_txn_has
  perform-has k = refl

  flag_read : (b : Bool) → not ((if b then 1 else 0) == 0) ≡ b
  flag_read true = refl
  flag_read false = refl

  pub has-Meets : (k : Bytes) → Meets (call (has k) false)
  unfolding overlay error_of classify
  has-Meets k =
      let (reads, eb, ew) = laws.get_slice_is k t in
      let (errors', q, tidy') =
        finish-Tidy tidy (has_call k) here _ _
          (Bodies.has_body scans api id cells pins db t ro cell k (seen s k) reads) in
      lands scans api laws e₀ p₀ at true (call (has k) false) (found (has_value (seen s k))) _ s
        (perform-has k ∙ ap told q ∙ rw (flag_read (has_value (seen s k))) refl) refl
        (kept scans api laws e₀ p₀ at _ errors' pins _ eb ew tidy')

  abbrev iter_call : Option RegolithIterOptions → Exec Seat (RegolithIter scans)
  iter_call o = Txn.iter scans api o true

  abbrev opened : (Option (RegolithIter scans) × Option GoError) × Host Seat → Answer × GoTxn
  opened ((out, e), host) = (
    Serve.as_iter scans api (elim e [ none ↦ out | some failure ↦ none ], e),
    record { resolved = false; host = host },
  )

  perform-new_iter :
      (o : Option RegolithIterOptions)
      → perform (call (new_iter o) false) g ≡ opened (finish (guard true (iter_call o) host))
  unfolding Serve.perform GoSide.new_iter GoSide.begin regolith_txn_iter
  perform-new_iter o = refl

  pub new_iter-Meets : (o : Option RegolithIterOptions) → Meets (call (new_iter o) false)
  unfolding overlay error_of classify
  new_iter-Meets o =
      let (it, b) = Bodies.iter_body scans api id cells pins db t ro cell o in
      let (errors', q, tidy') = finish-Tidy tidy (iter_call o) here _ _ b in
      lands scans api laws e₀ p₀ at true (call (new_iter o) false) done _ s
        (perform-new_iter o ∙ ap opened q) refl
        (is_live id cells errors' pins db t ro refl cell refl tidy')
