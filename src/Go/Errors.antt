-- ===== src/Go/Errors.antt =====
-- errors.go: a status and its error object become a Go error, and the object is released.
pub mod Meant
use go_regolith.Base.{
  sym, ap, ◌∙◌, ℕ, ◌≡◌, refl, inl, inr, Option-cases, Option, none, some, true, [], ◌==◌,
  if◌then◌else◌, arith,
}
use go_regolith.Failure.{
  Bytes, success, not_found, db_closed, txn_conflict, read_only_txn, discarded, invalid_argument,
  panicked, Result,
}
use go_regolith.Exec.{Exec}
use go_regolith.Guard.{
  Heap, free, strip_nuls, ErrorSlot, object, Reply, Host, guard, regolith_error_message,
  regolith_error_free,
}
use go_regolith.Guard.Report.{
  IsOrdered, outcome_detail, outcome_status, guard_without_detail, guard-regolith_error_message,
  strip_nuls-eq-filter,
}

-- The package's errors, as `errors.Is` tells them apart.
pub data Sentinel : Type 0 where
  err_not_found err_closed err_conflict err_read_only err_discarded : Sentinel
  err_invalid_argument err_panic err_unexpected : Sentinel

-- An error of the package and the message that it wraps, none being empty.
pub record GoError : Type 0 where
  pub sentinel : Sentinel
  pub message : Bytes

abbrev pub bare : Sentinel → Option GoError
bare s = some (record { sentinel = s; message = [] })

abbrev pub with_detail : Sentinel → Bytes → Option GoError
with_detail s message = some (record { sentinel = s; message = message })

-- The `switch` of `statusToErr`; nil is `none`.
unfoldable pub classify : ℕ → Bytes → Option GoError
classify status message =
    if status == success
    then none
    else if status == not_found
    then bare err_not_found
    else if status == db_closed
    then bare err_closed
    else if status == txn_conflict
    then bare err_conflict
    else if status == read_only_txn
    then bare err_read_only
    else if status == discarded
    then bare err_discarded
    else if status == invalid_argument
    then with_detail err_invalid_argument message
    else if status == panicked
    then with_detail err_panic message
    else with_detail err_unexpected message

abbrev pub go_string : Option Bytes → Bytes
go_string none = []
go_string (some message) = message

unfoldable pub status_to_err : ℕ → ErrorSlot → Heap Bytes → Option GoError × Heap Bytes
unfolding classify regolith_error_message regolith_error_free
status_to_err status (object p) errors = (
  classify status (go_string (regolith_error_message (some p) errors)),
  regolith_error_free (some p) errors,
)
status_to_err status _ errors = (classify status [], errors)

-- The error that a body's outcome is meant to be, in Go.
abbrev pub message_of : Option Bytes → Bytes
message_of none = []
message_of (some detail) = strip_nuls detail

unfoldable pub error_of {ℓ} : {A : Type ℓ} → Result A → Option GoError
unfolding classify outcome_status outcome_detail
error_of r = classify (outcome_status r) (message_of (outcome_detail r))

pub IsOrdered-free {ℓ} : {A : Type ℓ} (p : ℕ) (h : Heap A) → IsOrdered h → IsOrdered (free p h)
unfolding free
IsOrdered-free p h o = record { ahead = λ q l. ground (arith, o.ahead q) }

-- The error objects that are alive are the same.
abbrev pub SameCells : Heap Bytes → Heap Bytes → Type 0
SameCells h h' = (p : ℕ) → h'.cell p ≡ h.cell p

module _ {ℓ κ} {S : Type ℓ} {A : Type κ} (body : Exec S A) (host : Host S) where
  abbrev replied : Reply A
  replied = (guard true body host).0

  abbrev left : Host S
  left = (guard true body host).1

  -- Where no error object is numbered from the heap's next number on: a Go caller that passes an error slot
  -- to an entry point and hands both to `statusToErr` gets exactly the error of the body's outcome, a panic
  -- included, with the detail less its nul bytes as its message; and no error object is left behind, nor
  -- one of another call released.
  pub status_to_err-guard :
      IsOrdered host.errors
      → ((status_to_err replied.status replied.slot left.errors).0 ≡ error_of (body host.inner).0)
        × SameCells host.errors (status_to_err replied.status replied.slot left.errors).1
        × IsOrdered (status_to_err replied.status replied.slot left.errors).1
  unfolding status_to_err error_of
  status_to_err-guard o = elim (Option-cases (outcome_detail (body host.inner).0)) [
    | inl e ↦
        let (status, slot, after) = guard_without_detail body host e in
        rw (status, slot, after, e) (refl, λ p. refl, o)
    | inr (detail, e) ↦
        let (status, slot, unused, message, nuls, cells, ordered) =
          guard-regolith_error_message body host detail o e in
        rw (status, slot, message ∙ ap some (sym (strip_nuls-eq-filter detail)), e)
          (refl, cells, IsOrdered-free _ _ ordered)
  ]
