-- ===== src/Go/Finish.antt =====
-- What a Go method gets of an entry point: its body's outcome, and the arguments as they were passed.
use go_regolith.Base.{
  ◌≡◌, refl, ap, ◌∙◌, inl, inr, Option-cases, Option, none, some, true, [], ◌∷◌, length, take,
  arith,
}
use go_regolith.Failure.{Bytes, Result, ok, err, panic}
use go_regolith.Exec.{Exec}
use go_regolith.Guard.{Heap, Host, guard, settle, report}
use go_regolith.Guard.Report.{IsOrdered}
use go_regolith.Iter.Bounds.{in_bytes}
use go_regolith.Go.Errors.{status_to_err-guard, error_of, classify, SameCells}
use go_regolith.Go.Store.{finish, byte_ptr}

abbrev pub out_of {ℓ} : {A : Type ℓ} → Result A → Option A
out_of (ok a) = some a
out_of (err f) = none
out_of (panic p) = none

settle-out_of {ℓ κ} :
    {S : Type ℓ} {A : Type κ} (errors : Heap Bytes) (r : Result A) (s : S)
    → ((settle true errors r s).0.out ≡ out_of r) × ((settle true errors r s).1.inner ≡ s)
unfolding settle report
settle-out_of errors (ok a) s = (refl, refl)
settle-out_of errors (err f) s = elim (Option-cases f.detail) [
  | inl e ↦ rw e (refl, refl)
  | inr (detail, e) ↦ rw e (refl, refl)
]
settle-out_of errors (panic p) s = (refl, refl)

module _ {ℓ κ} {S : Type ℓ} {A : Type κ} (body : Exec S A) (host : Host S) where
  settled :
      ((guard true body host).0.out ≡ out_of (body host.inner).0)
      × ((guard true body host).1.inner ≡ (body host.inner).1)
  unfolding guard
  settled = settle-out_of host.errors (body host.inner).0 (body host.inner).1

  -- What a Go method gets of an entry point's body.
  pub finish-guard :
      IsOrdered host.errors
      → (errors : Heap Bytes) × (finish (guard true body host) ≡ (
        (out_of (body host.inner).0, error_of (body host.inner).0),
        record { errors = errors; inner = (body host.inner).1 },
      ))
        × SameCells host.errors errors
        × IsOrdered errors
  unfolding finish
  finish-guard o =
      let (e, same, ordered) = status_to_err-guard body host o in
      let (out, inner) = settled in (_, rw (e, out, inner), same, ordered)

  -- A body that succeeds.
  pub finish-ok :
      (a : A) (s : S)
      → IsOrdered host.errors
      → body host.inner ≡ (ok a, s)
      → (errors : Heap Bytes) × (finish (guard true body host)
          ≡ ((some a, none), record { errors = errors; inner = s }))
        × SameCells host.errors errors
        × IsOrdered errors
  unfolding error_of classify
  finish-ok a s o e =
      let (errors, q, same, ordered) = finish-guard o in (errors, q ∙ rw e, same, ordered)

pub take-length : (bs : Bytes) → take (length bs) bs ≡ bs
take-length [] = refl
take-length (b ∷ bs) = ap (λ t. b ∷ t) (take-length bs)

pub in_bytes-byte_ptr : (bs : Bytes) → in_bytes (byte_ptr bs) (length bs) ≡ some bs
unfolding in_bytes byte_ptr
in_bytes-byte_ptr [] = refl
in_bytes-byte_ptr (b ∷ bs) = ground (arith, take-length bs)
