-- ===== src/Go/Buffers.antt =====
-- regolith.go: `takeBuf`, which copies a buffer that it was handed and gives it back.
use go_regolith.Base.{
  ℕ, ◌%◌, ◌^◌, ◌<◌, ◌≡◌, refl, ap, Option, none, some, true, false, [], ◌∷◌, ◌==◌, leb,
  if◌then◌else◌, length, take, arith,
}
use go_regolith.Failure.{Bytes, ok}
use go_regolith.Guard.{Heap, alloc, free}
use go_regolith.Guard.Report.{IsOrdered}
use go_regolith.Guard.Buffers.{Pointer, dangling, boxed, out_boxed, dropped, regolith_free_buf}
use go_regolith.Go.Errors.{GoError, SameCells}
use go_regolith.Go.Finish.{take-length}

-- `C.GoBytes` with the length as a `C.int`, which wraps it to 32 bits, negative from 2 ^ 31 on: none is a
-- panic, or a read of what is no live buffer.
unfoldable pub copied_buf : Pointer → ℕ → Heap Bytes → Option Bytes
copied_buf (boxed p) len buffers = elim (buffers.cell p) [
  | none ↦ none
  | some bytes ↦ if leb (2 ^ 31) (len % 2 ^ 32) then none else some (take (len % 2 ^ 32) bytes)
]
copied_buf _ len buffers = none

copied_buf-whole :
    (bytes : Bytes) (p : ℕ) (buffers : Heap Bytes)
    → length bytes < 2 ^ 31
    → buffers.cell p ≡ some bytes
    → copied_buf (boxed p) (length bytes) buffers ≡ some bytes
unfolding copied_buf
copied_buf-whole bytes p buffers h alive =
    let kept : length bytes % 2 ^ 32 ≡ length bytes = omega (arith, h) in
    let small : leb (2 ^ 31) (length bytes) ≡ false = ground arith in
    rw (copied_buf, alive, kept, small) (ap some (take-length bytes))

abbrev both : Option Bytes → Option (Heap Bytes) → Option ((Bytes × Option GoError) × Heap Bytes)
both (some bytes) (some buffers) = some ((bytes, none), buffers)
both _ _ = none

-- The deferred release comes after the copy; the error is that of `statusToErr`.
unfoldable pub take_buf :
    Pointer → ℕ → Option GoError → Heap Bytes → Option ((Bytes × Option GoError) × Heap Bytes)
unfolding copied_buf regolith_free_buf
take_buf ptr len (some e) buffers = some (([], some e), buffers)
take_buf ptr len none buffers =
    let copied = both (copied_buf ptr len buffers) (regolith_free_buf ptr len buffers) in
    if len == 0 then some (([], none), buffers) else copied

-- A buffer of less than 2 GiB that `out_bytes` hands over, where none is numbered from the heap's next number
-- on, and that `takeBuf` takes: its bytes are what was handed over, its release is of a live box of
-- exactly its length, and the buffers that are alive are those of before.
pub take_buf-out_boxed :
    (bytes : Bytes) (buffers : Heap Bytes)
    → IsOrdered buffers
    → length bytes < 2 ^ 31
    → (ptr : Pointer) × (len : ℕ) × (lent left : Heap Bytes) × (out_boxed bytes true true buffers
        ≡ (ok (ptr, len), lent))
      × (take_buf ptr len none lent ≡ some ((bytes, none), left))
      × SameCells buffers left
unfolding out_boxed take_buf dropped alloc free
take_buf-out_boxed [] buffers o h = (dangling, 0, buffers, buffers, refl, refl, λ p. refl)
take_buf-out_boxed (b ∷ bs) buffers o h = (
  boxed buffers.next,
  length (b ∷ bs),
  alloc (b ∷ bs) buffers,
  free buffers.next (alloc (b ∷ bs) buffers),
  refl,
  rw (take_buf, copied_buf-whole (b ∷ bs) buffers.next (alloc (b ∷ bs) buffers) h (ground arith))
      (ground arith),
  λ p. ground (arith, o.ahead p),
)
