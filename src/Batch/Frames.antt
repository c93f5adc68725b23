-- ===== src/Batch/Frames.antt =====
-- `parse` on whole frames.
use go_regolith.Base.{
  ℕ, zero, suc, ◌+◌, ◌≤◌, ◌<◌, ◌≡◌, refl, ap, ◌∙◌, inl, inr, List, [], ◌∷◌, length, All, arith,
}
use mathlib.Core.Path.{subst}
use go_regolith.Base.Le.{IsByte}
use go_regolith.Failure.{Bytes, ok, Result-cases}
use go_regolith.Batch.{RawOp, set, delete, key, value, raw_op, op_set, op_delete, u64_max}
use go_regolith.Batch.Pack.{op_before, frame, op_size, length-op_before}
use go_regolith.Batch.Parse.{prepend, parse, parse-ok, parse-err, parse-panic, field-to_le_bytes}
use go_regolith.Failure.Checked.{IsChecked}
use go_regolith.Batch.Ops.{raw_op-IsChecked, length-raw_op, raw_op-eq-op_before}

-- The op's fields have lengths that the decoder's platform can hold, as those of every slice do.
abbrev pub IsAddressable : ℕ → RawOp → Type 0
IsAddressable usize_max (set k v) = (length k ≤ usize_max) × (length v ≤ usize_max)
IsAddressable usize_max (delete k) = length k ≤ usize_max

-- The bytes of a list of ops in a frame.
unfoldable pub frame_size : List RawOp → ℕ
frame_size [] = 0
frame_size (op ∷ ops) = op_size op + frame_size ops

pub length-frame : (ops : List RawOp) → length (frame ops) ≡ frame_size ops
unfolding frame frame_size
length-frame [] = refl
length-frame (op ∷ ops) = omega (arith, length-op_before op (frame ops), length-frame ops)

op_size_pos : (op : RawOp) → 0 < op_size op
unfolding op_size
op_size_pos (set k v) = omega arith
op_size_pos (delete k) = omega arith

frame_shorter : (op : RawOp) (ops : List RawOp) → length (frame ops) < length (frame (op ∷ ops))
unfolding frame
frame_shorter op ops = omega (arith, length-op_before op (frame ops), op_size_pos op)

module _ (usize_max : ℕ) where
  parse_op :
      (fuel : ℕ) (op : RawOp) (rest : Bytes) (index : ℕ)
      → usize_max ≤ u64_max
      → IsAddressable usize_max op
      → parse usize_max (suc fuel) (op_before op rest) index ≡ record {
        ops = op ∷ (parse usize_max fuel rest (index + 1)).ops;
        end = (parse usize_max fuel rest (index + 1)).end;
      }
  unfolding op_before raw_op
  parse_op fuel (set k v) rest index u (hk, hv) =
      parse-ok usize_max fuel op_set _ index (set k v) rest (
        rw (
          field-to_le_bytes usize_max k _ index key hk u,
          field-to_le_bytes usize_max v rest index value hv u,
        ))
  parse_op fuel (delete k) rest index u hk =
      parse-ok usize_max fuel op_delete _ index (delete k) rest
        (rw (field-to_le_bytes usize_max k rest index key hk u))

  parse-frame_step :
      (fuel : ℕ) (op : RawOp) (ops : List RawOp) (index : ℕ)
      → usize_max ≤ u64_max
      → IsAddressable usize_max op
      → parse usize_max fuel (frame ops) (index + 1) ≡ record { ops = ops; end = ok tt }
      → parse usize_max (suc fuel) (frame (op ∷ ops)) index ≡ record { ops = op ∷ ops; end = ok tt }
  parse-frame_step fuel op ops index u a h =
      unfold frame in parse_op fuel op (frame ops) index u a ∙ ap (prepend op) h

  -- A frame that was packed is parsed back into its ops.
  pub parse-frame :
      (fuel : ℕ) (ops : List RawOp) (index : ℕ)
      → usize_max ≤ u64_max
      → All (IsAddressable usize_max) ops
      → length (frame ops) ≤ fuel
      → parse usize_max fuel (frame ops) index ≡ record { ops = ops; end = ok tt }
  parse-frame zero [] index u h f = unfold frame parse in refl
  parse-frame (suc fuel) [] index u h f = unfold frame parse in refl
  parse-frame zero (op ∷ ops) index u h f = absurd (omega (arith, frame_shorter op ops))
  parse-frame (suc fuel) (op ∷ ops) index u (a, h) f =
      parse-frame_step fuel op ops index u a
        (parse-frame fuel ops (index + 1) u h (omega (arith, frame_shorter op ops)))

  -- Fuel for the frame's length is enough, and every end is a success or an invalid argument.
  pub end-parse-IsChecked :
      (fuel : ℕ) (rest : Bytes) (index : ℕ)
      → length rest ≤ fuel
      → IsChecked (parse usize_max fuel rest index).end
  unfolding parse
  end-parse-IsChecked fuel [] index h = tt
  end-parse-IsChecked zero (tag ∷ tail) index h = absurd (omega arith)
  end-parse-IsChecked (suc fuel) (tag ∷ tail) index h =
      elim (Result-cases (raw_op usize_max tag tail index)) [
        | inl ((op, rest), e) ↦ rw (parse-ok usize_max fuel tag tail index op rest e) (
            end-parse-IsChecked fuel rest (index + 1)
              (omega (arith, length-raw_op usize_max tag tail index op rest e, op_size_pos op)))
        | inr (inl (f, e)) ↦
            rw (parse-err usize_max fuel tag tail index f e)
              (subst IsChecked e (raw_op-IsChecked usize_max tag tail index))
        | inr (inr (p, e)) ↦ absurd (subst IsChecked e (raw_op-IsChecked usize_max tag tail index))
      ]

  -- The ops take no more bytes than the frame has.
  pub frame_size-parse :
      (fuel : ℕ) (rest : Bytes) (index : ℕ)
      → frame_size (parse usize_max fuel rest index).ops ≤ length rest
  unfolding frame_size
  frame_size-parse fuel [] index = unfold parse in omega arith
  frame_size-parse zero (tag ∷ tail) index = unfold parse in omega arith
  frame_size-parse (suc fuel) (tag ∷ tail) index =
      elim (Result-cases (raw_op usize_max tag tail index)) [
        | inl ((op, rest), e) ↦ rw (parse-ok usize_max fuel tag tail index op rest e) (
            omega (
              arith,
              frame_size-parse fuel rest (index + 1),
              length-raw_op usize_max tag tail index op rest e,
            ))
        | inr (inl (f, e)) ↦ rw (parse-err usize_max fuel tag tail index f e) (omega arith)
        | inr (inr (p, e)) ↦ rw (parse-panic usize_max fuel tag tail index p e) (omega arith)
      ]

  -- A frame that is taken whole is the packed form of its ops.
  pub parse-eq-frame :
      (fuel : ℕ) (rest : Bytes) (index : ℕ)
      → All IsByte rest
      → (parse usize_max fuel rest index).end ≡ ok tt
      → rest ≡ frame (parse usize_max fuel rest index).ops
  unfolding frame
  parse-eq-frame fuel [] index b h = unfold parse in refl
  parse-eq-frame zero (tag ∷ tail) index b h = unfold parse in cc
  parse-eq-frame (suc fuel) (tag ∷ tail) index (p, b) h =
      elim (Result-cases (raw_op usize_max tag tail index)) [
        | inl ((op, rest), e) ↦
            let (q, b') = raw_op-eq-op_before usize_max tag tail index op rest b e in
            let step = parse-ok usize_max fuel tag tail index op rest e in
            rw step (q ∙ ap (op_before op) (parse-eq-frame fuel rest (index + 1) b' (rw step at h)))
        | inr (inl (f, e)) ↦ cc (parse-err usize_max fuel tag tail index f e)
        | inr (inr (r, e)) ↦ cc (parse-panic usize_max fuel tag tail index r e)
      ]
