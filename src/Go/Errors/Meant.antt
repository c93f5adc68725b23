-- ===== src/Go/Errors/Meant.antt =====
-- Which Go error a call's outcome becomes, against the table of statuses in regolith_ffi.h and the comments on
-- the errors in errors.go.
use go_regolith.Base.{
  ℕ, ◌≡◌, ◌≢◌, refl, sym, inl, inr, Bool-cases, Option, none, some, Bool, true, false, not, [], ◌∷◌,
  ◌==◌, if◌then◌else◌, All, filter, arith,
}
use mathlib.Core.Path.{subst}
use go_regolith.Failure.{Bytes, Result}
use go_regolith.Exec.{Exec}
use go_regolith.Guard.{Host, guard}
use go_regolith.Guard.Report.{IsOrdered, outcome_detail, outcome_status, strip_nuls-eq-filter}
use go_regolith.Go.Errors.{
  Sentinel, err_not_found, err_closed, err_conflict, err_read_only, err_discarded,
  err_invalid_argument, err_panic, err_unexpected, GoError, classify, status_to_err, error_of,
  message_of, SameCells, status_to_err-guard,
}

-- The status that an error stands for; any other status is unexpected.
abbrev pub status_of : Sentinel → Option ℕ
status_of err_not_found = some 1
status_of err_closed = some 2
status_of err_conflict = some 3
status_of err_read_only = some 4
status_of err_discarded = some 5
status_of err_invalid_argument = some 6
status_of err_panic = some 7
status_of err_unexpected = none

-- The errors that the detail is wrapped into.
abbrev pub wraps : Sentinel → Bool
wraps err_invalid_argument = true
wraps err_panic = true
wraps err_unexpected = true
wraps _ = false

-- `e` is what Go makes of a status and its message: nothing of 0, and otherwise the error that stands for
-- the status, or the unexpected one where none does.
abbrev pub IsMeant : ℕ → Bytes → Option GoError → Type 0
IsMeant status message none = status ≡ 0
IsMeant status message (some e) =
    (elim (status_of e.sentinel) [
      | some n ↦ status ≡ n
      | none ↦ All (λ n. status ≢ n) (0 ∷ 1 ∷ 2 ∷ 3 ∷ 4 ∷ 5 ∷ 6 ∷ 7 ∷ [])
    ])
    × (e.message ≡ (if wraps e.sentinel then message else []))

classify-IsMeant : (status : ℕ) (message : Bytes) → IsMeant status message (classify status message)
unfolding classify
classify-IsMeant status message = elim (Bool-cases (status == 0)) [
  | inl y ↦ rw y (ground arith)
  | inr n0 ↦ elim (Bool-cases (status == 1)) [
    | inl y ↦ rw (n0, y) ((ground arith, refl))
    | inr n1 ↦ elim (Bool-cases (status == 2)) [
      | inl y ↦ rw (n0, n1, y) ((ground arith, refl))
      | inr n2 ↦ elim (Bool-cases (status == 3)) [
        | inl y ↦ rw (n0, n1, n2, y) ((ground arith, refl))
        | inr n3 ↦ elim (Bool-cases (status == 4)) [
          | inl y ↦ rw (n0, n1, n2, n3, y) ((ground arith, refl))
          | inr n4 ↦ elim (Bool-cases (status == 5)) [
            | inl y ↦ rw (n0, n1, n2, n3, n4, y) ((ground arith, refl))
            | inr n5 ↦ elim (Bool-cases (status == 6)) [
              | inl y ↦ rw (n0, n1, n2, n3, n4, n5, y) ((ground arith, refl))
              | inr n6 ↦ elim (Bool-cases (status == 7)) [
                | inl y ↦ rw (n0, n1, n2, n3, n4, n5, n6, y) ((ground arith, refl))
                | inr n7 ↦
                    rw (n0, n1, n2, n3, n4, n5, n6, n7)
                      (
                        (
                          ground arith,
                          (
                            ground arith,
                            (
                              ground arith,
                              (
                                ground arith,
                                (ground arith, (ground arith, (ground arith, (ground arith, tt)))),
                              ),
                            ),
                          ),
                        ),
                        refl,
                      )
              ]
            ]
          ]
        ]
      ]
    ]
  ]
]

-- The detail's bytes that are not nul, none without a detail.
abbrev pub told : Option Bytes → Bytes
told none = []
told (some detail) = filter (λ b. not (b == 0)) detail

told-eq-message_of : (d : Option Bytes) → message_of d ≡ told d
told-eq-message_of none = refl
told-eq-message_of (some detail) = strip_nuls-eq-filter detail

error_of-IsMeant {ℓ} :
    {A : Type ℓ} (r : Result A) → IsMeant (outcome_status r) (told (outcome_detail r)) (error_of r)
unfolding error_of
error_of-IsMeant r =
    subst (λ m. IsMeant (outcome_status r) m (error_of r)) (told-eq-message_of (outcome_detail r))
      (classify-IsMeant (outcome_status r) (message_of (outcome_detail r)))

module _ {ℓ κ} {S : Type ℓ} {A : Type κ} (body : Exec S A) (host : Host S) where
  -- Where no error object is numbered from the heap's next number on: a Go caller that passes an error slot
  -- to an entry point and hands both to `statusToErr` gets no error if the body succeeds, and otherwise the
  -- error of errors.go that stands for the status of the body's outcome, a panic included, or ErrUnexpected
  -- where none does; an invalid argument, a panic and an unexpected error carry the detail's bytes that are
  -- not nul, the others no message. No error object is left behind, nor one of another call released.
  pub status_to_err-IsMeant :
      IsOrdered host.errors
      → IsMeant
          (outcome_status (body host.inner).0)
          (told (outcome_detail (body host.inner).0))
          (status_to_err
            (guard true body host).0.status
            (guard true body host).0.slot
            (guard true body host).1.errors).0
        × SameCells host.errors
            (status_to_err
              (guard true body host).0.status
              (guard true body host).0.slot
              (guard true body host).1.errors).1
        × IsOrdered
            (status_to_err
              (guard true body host).0.status
              (guard true body host).0.slot
              (guard true body host).1.errors).1
  status_to_err-IsMeant o =
      let (e, same, ordered) = status_to_err-guard body host o in
      (
        subst
            (IsMeant (outcome_status (body host.inner).0)
              (told (outcome_detail (body host.inner).0)))
            (sym e) (error_of-IsMeant (body host.inner).0),
        same,
        ordered,
      )
