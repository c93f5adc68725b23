-- ===== src/Go/Tidy.antt =====
-- Calls of the C ABI that leave nothing behind: error objects are released, and so are value handles.
use go_regolith.Base.{ℕ, ◌≡◌, refl, ◌∙◌, none, some, true, [], ◌∷◌, length, arith}
use go_regolith.Failure.{Bytes, Result, ok}
use go_regolith.Exec.{Exec}
use go_regolith.Guard.{Heap, Lent, alloc, guard, out_borrowed, regolith_release_value}
use go_regolith.Guard.Report.{IsOrdered}
use go_regolith.Go.Errors.{SameCells, error_of}
use go_regolith.Go.Store.{finish, go_bytes}
use go_regolith.Go.Finish.{finish-guard, out_of, take-length}

-- The error objects and the value handles that are alive are those of `e₀` and `p₀`.
pub record Tidy (e₀ p₀ errors pins : Heap Bytes) : Type 0 where
  pub errors_same : SameCells e₀ errors
  pub errors_ordered : IsOrdered errors
  pub pins_same : SameCells p₀ pins
  pub pins_ordered : IsOrdered pins

-- What was lent reads as the value, and releasing it leaves the pins that there were.
pub record Lends (pins : Heap Bytes) (v : Bytes) (lent : Lent) (pins' : Heap Bytes) : Type 0 where
  pub bytes : go_bytes lent ≡ v
  pub same : (p : ℕ) → (regolith_release_value lent.handle pins').cell p ≡ pins.cell p
  pub ordered : IsOrdered (regolith_release_value lent.handle pins')

pub out_borrowed-Lends :
    (v : Bytes) (pins : Heap Bytes)
    → IsOrdered pins
    → (lent : Lent) × (pins' : Heap Bytes) × (out_borrowed v true true true pins ≡ (ok lent, pins'))
      × Lends pins v lent pins'
unfolding out_borrowed go_bytes regolith_release_value alloc
out_borrowed-Lends [] pins o = (
  record { pointer = none; len = 0; handle = none },
  pins,
  refl,
  record { bytes = refl; same = λ p. refl; ordered = o },
)
out_borrowed-Lends (b ∷ bs) pins o = (
  record { pointer = some (b ∷ bs); len = length (b ∷ bs); handle = some pins.next },
  alloc (b ∷ bs) pins,
  refl,
  record {
    bytes = ground (arith, take-length bs);
    same = λ p. ground (arith, o.ahead p);
    ordered = record { ahead = λ p l. ground (arith, o.ahead p) };
  },
)

module _ {e₀ p₀ errors pins : Heap Bytes} (t : Tidy e₀ p₀ errors pins) where
  -- What a Go method gets of a call whose body ends in `r`, in the state `s`.
  pub finish-Tidy {ℓ κ} :
      {S : Type ℓ} {A : Type κ} (body : Exec S A) (s₀ s : S) (r : Result A)
      → body s₀ ≡ (r, s)
      → (errors' : Heap Bytes) × (finish (guard true body (record { errors = errors; inner = s₀ }))
          ≡ ((out_of r, error_of r), record { errors = errors'; inner = s }))
        × Tidy e₀ p₀ errors' pins
  finish-Tidy body s₀ s r e =
      let (errors', q, same, ordered) =
        finish-guard body (record { errors = errors; inner = s₀ }) t.errors_ordered in
      (
        errors',
        q ∙ rw e refl,
        record {
          errors_same = λ p. same p ∙ t.errors_same p;
          errors_ordered = ordered;
          pins_same = t.pins_same;
          pins_ordered = t.pins_ordered;
        },
      )

  -- A value that was lent has been released.
  pub Lends-Tidy :
      {v : Bytes} (lent : Lent) {pins' : Heap Bytes}
      → Lends pins v lent pins'
      → Tidy e₀ p₀ errors (regolith_release_value lent.handle pins')
  Lends-Tidy lent l = record {
    errors_same = t.errors_same;
    errors_ordered = t.errors_ordered;
    pins_same = λ p. l.same p ∙ t.pins_same p;
    pins_ordered = l.ordered;
  }
