-- ===== src/Guard/Runs.antt =====
-- Calls through `guard` at concrete bodies, and its theorems at concrete inputs.
use go_regolith.Base.{
  filter, not, ◌==◌, ◌⊎◌, All, ℕ, ◌+◌, ◌≡◌, refl, none, some, true, [], ◌∷◌, length, arith,
}
use go_regolith.Failure.{Bytes, invalid_arg, ok, err}
use go_regolith.Exec.{Exec}
use go_regolith.Guard.{
  Heap, alloc, object, Host, guard, regolith_error_message, regolith_error_free, out_borrowed, Lent,
  regolith_release_value,
}
use go_regolith.Guard.Report.{
  IsOrdered, IsNonZero, outcome_detail, outcome_status, guard-regolith_error_message,
  regolith_release_value-out_borrowed,
}

abbrev empty : Heap Bytes
empty = record { next = 0; cell = λ p. none }

abbrev two_bytes : Bytes
two_bytes = 1 ∷ 2 ∷ []

abbrev one_pin : Heap Bytes
one_pin = alloc (7 ∷ []) empty

empty-IsOrdered : IsOrdered empty
empty-IsOrdered = record { ahead = λ p l. refl }

one_pin-IsOrdered : IsOrdered one_pin
unfolding alloc
one_pin-IsOrdered = record { ahead = λ p l. ground arith }

-- A body that counts its calls and then fails.
abbrev fails : Exec ℕ (Unit {0})
fails n = (err (invalid_arg (65 ∷ 0 ∷ 66 ∷ [])), n + 1)

abbrev host : Host ℕ
host = record { errors = empty; inner = 0 }

the_nul_is_gone :
    regolith_error_message (some 0) (guard true fails host).1.errors ≡ some (65 ∷ 66 ∷ [])
unfolding regolith_error_message guard
the_nul_is_gone = refl

guard-regolith_error_message_example :
    ((guard true fails host).0.status ≡ outcome_status (fails 0).0)
    × ((guard true fails host).0.slot ≡ object 0)
    × (empty.cell 0 ≡ none)
    × (regolith_error_message (some 0) (guard true fails host).1.errors
        ≡ some (filter (λ b. not (b == 0)) (65 ∷ 0 ∷ 66 ∷ [])))
    × All IsNonZero (filter (λ b. not (b == 0)) (65 ∷ 0 ∷ 66 ∷ []))
    × ((p : ℕ) → (regolith_error_free (some 0) (guard true fails host).1.errors).cell p ≡ none)
    × IsOrdered (guard true fails host).1.errors
unfolding outcome_detail
guard-regolith_error_message_example =
    guard-regolith_error_message fails host (65 ∷ 0 ∷ 66 ∷ []) empty-IsOrdered refl

regolith_release_value-out_borrowed_example :
    (lent : Lent) × ((out_borrowed two_bytes true true true one_pin).0 ≡ ok lent)
    × (lent.len ≡ length two_bytes)
    × (((two_bytes ≡ []) × (lent.pointer ≡ none) × (lent.handle ≡ none))
        ⊎ ((p : ℕ) × (lent.handle ≡ some p)
            × (one_pin.cell p ≡ none)
            × (lent.pointer ≡ some two_bytes)
            × ((out_borrowed two_bytes true true true one_pin).1.cell p ≡ some two_bytes)))
    × ((p : ℕ)
        → (regolith_release_value lent.handle
              (out_borrowed two_bytes true true true one_pin).1).cell
            p
          ≡ one_pin.cell p)
regolith_release_value-out_borrowed_example =
    regolith_release_value-out_borrowed two_bytes one_pin one_pin-IsOrdered
