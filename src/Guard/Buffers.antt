-- ===== src/Guard/Buffers.antt =====
-- ffi/src/lib.rs: a buffer that the caller owns, by what `out_bytes` boxes and `regolith_free_buf` takes back;
-- and `regolith_noop`.
use go_regolith.Base.{ℕ, Option, none, some, Bool, true, [], ◌∷◌, ◌==◌, if◌then◌else◌, length}
use go_regolith.Base.Text.{codes}
use go_regolith.Failure.{Bytes, invalid_arg, ok, err}
use go_regolith.Exec.{Exec}
use go_regolith.Guard.{Heap, alloc, free}

-- A pointer to bytes: null, the aligned one that an empty box has, or that of a box.
pub data Pointer : Type 0 where
  null dangling : Pointer
  boxed : ℕ → Pointer

-- `out_bytes`, on the buffers that are alive.
unfoldable pub out_boxed : Bytes → Bool → Bool → Exec (Heap Bytes) (Pointer × ℕ)
unfolding alloc
out_boxed [] true true buffers = (ok (dangling, 0), buffers)
out_boxed (b ∷ bs) true true buffers =
    (ok (boxed buffers.next, length (b ∷ bs)), alloc (b ∷ bs) buffers)
out_boxed bytes _ _ buffers = (err (invalid_arg (codes "null out-param")), buffers)

-- `Box::from_raw` of a box with a length; none is undefined behaviour: no box is alive there, or it has
-- another length.
unfoldable pub dropped : Pointer → ℕ → Heap Bytes → Option (Heap Bytes)
unfolding free
dropped (boxed p) len buffers = elim (buffers.cell p) [
  | none ↦ none
  | some bytes ↦ if length bytes == len then some (free p buffers) else none
]
dropped _ len buffers = none

unfoldable pub regolith_free_buf : Pointer → ℕ → Heap Bytes → Option (Heap Bytes)
unfolding dropped
regolith_free_buf null len buffers = some buffers
regolith_free_buf ptr len buffers =
    let rest = dropped ptr len buffers in if len == 0 then some buffers else rest

unfoldable pub regolith_noop {ℓ} : {S : Type ℓ} → S → S
regolith_noop s = s
