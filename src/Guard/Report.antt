-- ===== src/Guard/Report.antt =====
-- What a caller reads of a failed call.
use go_regolith.Base.{
  filter, not, ap, ◌∙◌, ◌⊎◌, ℕ, ◌≤◌, Bool-cases, inl, inr, length, ◌≡◌, ◌≢◌, refl, Option, none,
  some, true, [], ◌∷◌, arith, ◌==◌, All,
}
use mathlib.Core.Path.{subst}
use go_regolith.Failure.{Bytes, success, panicked, panic_detail, Result, ok, err, panic}
use go_regolith.Exec.{Exec}
use go_regolith.Guard.{
  Heap, alloc, strip_nuls, null, object, Host, guard, settle, regolith_error_message,
  regolith_error_free, out_borrowed, Lent, regolith_release_value,
}

-- Every live object was handed out before, under a number below `next`.
pub record IsOrdered {ℓ} {A : Type ℓ} (h : Heap A) : Type ℓ where
  pub ahead : (p : ℕ) → (h.next ≤ p) → h.cell p ≡ none

-- The detail that a body's outcome carries, and the status.
unfoldable pub outcome_detail {ℓ} : {A : Type ℓ} → Result A → Option Bytes
unfolding panic_detail
outcome_detail (ok a) = none
outcome_detail (err f) = f.detail
outcome_detail (panic p) = some (panic_detail p)

unfoldable pub outcome_status {ℓ} : {A : Type ℓ} → Result A → ℕ
outcome_status (ok a) = success
outcome_status (err f) = f.status
outcome_status (panic p) = panicked

module _ {ℓ κ} {S : Type ℓ} {A : Type κ} where
  settle_detail :
      (errors : Heap Bytes) (r : Result A) (s : S) (detail : Bytes)
      → outcome_detail r ≡ some detail
      → settle true errors r s ≡ (
        record { status = outcome_status r; slot = object errors.next; out = none },
        record { errors = alloc (strip_nuls detail) errors; inner = s },
      )
  unfolding settle outcome_detail outcome_status
  settle_detail errors (ok a) s detail h = cc
  settle_detail errors (err f) s detail h = rw h
  settle_detail errors (panic p) s detail h = ground arith

  settle_no_detail :
      (errors : Heap Bytes) (r : Result A) (s : S)
      → outcome_detail r ≡ none
      → ((settle true errors r s).0.status ≡ outcome_status r)
        × ((settle true errors r s).0.slot ≡ null)
        × ((settle true errors r s).1 ≡ record { errors = errors; inner = s })
  unfolding settle outcome_detail outcome_status
  settle_no_detail errors (ok a) s h = (refl, refl, refl)
  settle_no_detail errors (err f) s h = rw h (refl, refl, refl)
  settle_no_detail errors (panic p) s h = cc

-- A byte of a C string.
abbrev pub IsNonZero : ℕ → Type 0
IsNonZero b = b ≢ 0

pub strip_nuls-eq-filter : (bs : Bytes) → strip_nuls bs ≡ filter (λ b. not (b == 0)) bs
unfolding strip_nuls
strip_nuls-eq-filter [] = refl
strip_nuls-eq-filter (b ∷ bs) = elim (Bool-cases (b == 0)) [
  | inl e ↦ rw e (strip_nuls-eq-filter bs)
  | inr e ↦ rw e (ap (λ t. b ∷ t) (strip_nuls-eq-filter bs))
]

strip_nuls-IsNonZero : (bs : Bytes) → All IsNonZero (strip_nuls bs)
unfolding strip_nuls
strip_nuls-IsNonZero [] = tt
strip_nuls-IsNonZero (b ∷ bs) = elim (Bool-cases (b == 0)) [
  | inl e ↦ rw e (strip_nuls-IsNonZero bs)
  | inr e ↦ rw e (ground arith, strip_nuls-IsNonZero bs)
]

module _ {ℓ κ} {S : Type ℓ} {A : Type κ} (body : Exec S A) (host : Host S) where
  -- A call whose outcome carries no detail writes null into the error slot, boxes nothing, and leaves
  -- the state that the body left.
  pub guard_without_detail :
      outcome_detail (body host.inner).0 ≡ none
      → ((guard true body host).0.status ≡ outcome_status (body host.inner).0)
        × ((guard true body host).0.slot ≡ null)
        × ((guard true body host).1 ≡ record { errors = host.errors; inner = (body host.inner).1 })
  unfolding guard
  guard_without_detail h = settle_no_detail host.errors (body host.inner).0 (body host.inner).1 h

  -- Where no error object is numbered from the heap's next number on: a call whose outcome carries a detail,
  -- a caught panic included, returns its status and hands out one fresh error object. Its message is the
  -- detail's bytes that are not nul, in their order, so a C string, and freeing it once leaves exactly the
  -- objects that were alive before the call.
  pub guard-regolith_error_message :
      (detail : Bytes)
      → IsOrdered host.errors
      → outcome_detail (body host.inner).0 ≡ some detail
      → ((guard true body host).0.status ≡ outcome_status (body host.inner).0)
        × ((guard true body host).0.slot ≡ object host.errors.next)
        × (host.errors.cell host.errors.next ≡ none)
        × (regolith_error_message (some host.errors.next) (guard true body host).1.errors
            ≡ some (filter (λ b. not (b == 0)) detail))
        × All IsNonZero (filter (λ b. not (b == 0)) detail)
        × ((p : ℕ)
            → (regolith_error_free (some host.errors.next) (guard true body host).1.errors).cell p
              ≡ host.errors.cell p)
        × IsOrdered (guard true body host).1.errors
  unfolding guard regolith_error_message regolith_error_free alloc
  guard-regolith_error_message detail o h =
      rw (settle_detail host.errors (body host.inner).0 (body host.inner).1 detail h) (
        refl,
        refl,
        o.ahead host.errors.next (omega arith),
        ground arith ∙ ap some (strip_nuls-eq-filter detail),
        subst (All IsNonZero) (strip_nuls-eq-filter detail) (strip_nuls-IsNonZero detail),
        λ p. ground (arith, o.ahead p),
        record { ahead = λ p l. ground (arith, o.ahead p) },
      )

-- Where no handle is numbered from the heap's next number on, a read lends a value's bytes with their
-- length: of an empty value null, without a handle; of any other value its bytes, with a fresh handle that pins exactly these bytes. Releasing what was handed out restores
-- the pins that were there before, whatever the value.
pub regolith_release_value-out_borrowed :
    (slice : Bytes) (pins : Heap Bytes)
    → IsOrdered pins
    → (lent : Lent) × ((out_borrowed slice true true true pins).0 ≡ ok lent)
      × (lent.len ≡ length slice)
      × (((slice ≡ []) × (lent.pointer ≡ none) × (lent.handle ≡ none))
          ⊎ ((p : ℕ) × (lent.handle ≡ some p)
              × (pins.cell p ≡ none)
              × (lent.pointer ≡ some slice)
              × ((out_borrowed slice true true true pins).1.cell p ≡ some slice)))
      × ((p : ℕ)
          → (regolith_release_value lent.handle (out_borrowed slice true true true pins).1).cell p
            ≡ pins.cell p)
unfolding out_borrowed regolith_release_value
regolith_release_value-out_borrowed [] pins o = (
  record { pointer = none; len = 0; handle = none },
  refl,
  refl,
  inl (refl, refl, refl),
  λ p. refl,
)
regolith_release_value-out_borrowed (b ∷ bs) pins o = (
  record { pointer = some (b ∷ bs); len = length (b ∷ bs); handle = some pins.next },
  refl,
  refl,
  inr (pins.next, refl, o.ahead pins.next (omega arith), refl, ground arith),
  λ p. ground (arith, o.ahead p),
)
