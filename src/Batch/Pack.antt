-- ===== src/Batch/Pack.antt =====
-- batch.go: the Go binding's `WriteBatch`, which packs the frame that `decode` reads.
use go_regolith.Base.{ℕ, ◌+◌, ◌≡◌, sym, ◌∙◌, List, [], ◌∷◌, ◌++◌, length, length-append, arith}
use go_regolith.Base.Le.{to_le_bytes, length-to_le_bytes}
use go_regolith.Failure.{Bytes}
use go_regolith.Batch.{RawOp, set, delete, op_set, op_delete}
use mathlib.Core.List.{append_assoc, append-nil}

-- The spare capacity of the buffer is not modelled.
pub record Packed : Type 0 where
  pub buf : Bytes
  pub n : ℕ

abbrev pub new_write_batch : Packed
new_write_batch = record { buf = []; n = 0 }

abbrev pub append_field : Bytes → Bytes → Bytes
append_field buf field = (buf ++ to_le_bytes 8 (length field)) ++ field

-- `Set` and `Delete`.
unfoldable pub pack_set : Packed → Bytes → Bytes → Packed
pack_set b k v = record {
  buf = append_field (append_field (b.buf ++ (op_set ∷ [])) k) v;
  n = b.n + 1;
}

unfoldable pub pack_delete : Packed → Bytes → Packed
pack_delete b k = record { buf = append_field (b.buf ++ (op_delete ∷ [])) k; n = b.n + 1 }

-- `Len`, `Size` and `Reset`.
abbrev pub len : Packed → ℕ
len b = b.n

abbrev pub size : Packed → ℕ
size b = length b.buf

unfoldable pub reset : Packed → Packed
reset b = record { buf = []; n = 0 }

-- The calls that fill a batch, one after the other.
unfoldable pub pack : Packed → List RawOp → Packed
unfolding pack_set pack_delete
pack b [] = b
pack b (set k v ∷ ops) = pack (pack_set b k v) ops
pack b (delete k ∷ ops) = pack (pack_delete b k) ops

-- The frame written back to front: one op's bytes before the bytes of those that follow.
unfoldable pub op_before : RawOp → Bytes → Bytes
op_before (set k v) rest =
    op_set ∷ (to_le_bytes 8 (length k) ++ (k ++ (to_le_bytes 8 (length v) ++ (v ++ rest))))
op_before (delete k) rest = op_delete ∷ (to_le_bytes 8 (length k) ++ (k ++ rest))

unfoldable pub frame : List RawOp → Bytes
unfolding op_before
frame [] = []
frame (op ∷ ops) = op_before op (frame ops)

ruleset regroup = (append_assoc, append-nil)

pack_set-buf :
    (b : Packed) (k v rest : Bytes)
    → (pack_set b k v).buf ++ rest ≡ b.buf ++ op_before (set k v) rest
unfolding pack_set op_before
pack_set-buf b k v rest = simp regroup

pack_delete-buf :
    (b : Packed) (k rest : Bytes)
    → (pack_delete b k).buf ++ rest ≡ b.buf ++ op_before (delete k) rest
unfolding pack_delete op_before
pack_delete-buf b k rest = simp regroup

pub buf-pack : (b : Packed) (ops : List RawOp) → (pack b ops).buf ≡ b.buf ++ frame ops
unfolding pack frame
buf-pack b [] = sym (append-nil b.buf)
buf-pack b (set k v ∷ ops) = buf-pack (pack_set b k v) ops ∙ pack_set-buf b k v (frame ops)
buf-pack b (delete k ∷ ops) = buf-pack (pack_delete b k) ops ∙ pack_delete-buf b k (frame ops)

pub n-pack : (b : Packed) (ops : List RawOp) → (pack b ops).n ≡ b.n + length ops
unfolding pack
n-pack b [] = omega arith
n-pack b (set k v ∷ ops) = unfold pack_set in omega (arith, n-pack (pack_set b k v) ops)
n-pack b (delete k ∷ ops) = unfold pack_delete in omega (arith, n-pack (pack_delete b k) ops)

-- What an op adds to the frame.
unfoldable pub op_size : RawOp → ℕ
op_size (set k v) = 17 + length k + length v
op_size (delete k) = 9 + length k

pub length-op_before :
    (op : RawOp) (rest : Bytes) → length (op_before op rest) ≡ op_size op + length rest
unfolding op_before op_size
length-op_before (set k v) rest = simp (length-append, length-to_le_bytes) (omega arith)
length-op_before (delete k) rest = simp (length-append, length-to_le_bytes) (omega arith)
