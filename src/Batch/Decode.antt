-- ===== src/Batch/Decode.antt =====
-- What `decode` promises, on any frame and on the frames that batch.go packs.
use go_regolith.Base.{
  ℕ, suc, ◌+◌, ◌*◌, ◌≤◌, ◌<◌, ◌≡◌, refl, sym, ap, ◌∙◌, inl, inr, List, [], ◌∷◌, length, All, arith,
  ltb, Bool-cases,
}
use go_regolith.Base.Le.{IsByte}
use native.Mathlib.Nat.{zero-add}
use native.Mathlib.Decide.{dec_le}
use go_regolith.Failure.{Bytes, Result, ok, err, panic, invalid_arg, ◌>>=◌, ◌>>◌, >>=-eq-ok}
use go_regolith.Batch.{
  RawOp, set, delete, charge_op, add_op, walk, decode, max_batch_record_len, WriteBatch,
  batch_count_len, max_frame_without_sizing, past_limit, u64_max,
}
use go_regolith.Batch.Pack.{frame, pack, buf-pack, new_write_batch, size, len, n-pack, op_size}
use go_regolith.Batch.Parse.{Parsed, parse, run, walk_from-eq-run}
use go_regolith.Failure.Checked.{IsChecked, IsChecked-bind, refusal}
use go_regolith.Batch.Frames.{
  IsAddressable, frame_size, frame_size-parse, length-frame, parse-frame, parse-eq-frame,
  end-parse-IsChecked,
}
use go_regolith.Batch.Sizing.{
  record_len, op_record_len, run-charge_op, run-charge_op_over, Crosses, short_frame_within,
}

module _ (api : WriteBatch) where
  open api use {Batch, new, put, remove}

  -- The calls of the engine's `WriteBatch` that a list of ops stands for, in their order.
  unfoldable pub build : List RawOp → Batch → Batch
  build [] batch = batch
  build (set k v ∷ ops) batch = build ops (put k v batch)
  build (delete k ∷ ops) batch = build ops (remove k batch)

module _ (usize_max : ℕ) (api : WriteBatch) where
  run-add_op :
      (index : ℕ) (ops : List RawOp) (batch : api.Batch)
      → run (add_op usize_max api) index ops batch ≡ ok (build api ops batch)
  unfolding run add_op build
  run-add_op index [] batch = refl
  run-add_op index (set k v ∷ ops) batch = run-add_op (index + 1) ops (api.put k v batch)
  run-add_op index (delete k ∷ ops) batch = run-add_op (index + 1) ops (api.remove k batch)

  -- The sizing pass made on every frame, however short.
  unfoldable pub decode_sized : Bytes → Result api.Batch
  decode_sized bytes = do
    walk usize_max charge_op bytes batch_count_len
    walk usize_max (add_op usize_max api) bytes api.new

  abbrev pub parsed : Bytes → Parsed
  parsed bytes = parse usize_max (length bytes) bytes 0

  walk-add_op :
      (bytes : Bytes)
      → walk usize_max (add_op usize_max api) bytes api.new
        ≡ ((parsed bytes).end >>= λ _. ok (build api (parsed bytes).ops api.new))
  unfolding walk
  walk-add_op bytes = rw (
    walk_from-eq-run usize_max (add_op usize_max api) (length bytes) bytes 0 api.new,
    run-add_op 0 (parsed bytes).ops api.new,
  )

  both_ends :
      {A B : Type 0} (end : Result (Unit {0})) (a : A) (b : B)
      → ((end >>= λ _. ok a) >>= λ _. (end >>= λ _. ok b)) ≡ (end >>= λ _. ok b)
  both_ends (ok t) a b = refl
  both_ends (err e) a b = refl
  both_ends (panic p) a b = refl

  short_within :
      (bytes : Bytes)
      → length bytes ≤ max_frame_without_sizing
      → batch_count_len + record_len (parsed bytes).ops ≤ max_batch_record_len
  short_within bytes h =
      short_frame_within (parsed bytes).ops
        (omega (arith, frame_size-parse usize_max (length bytes) bytes 0))

  decode_sized_within :
      (bytes : Bytes)
      → batch_count_len + record_len (parsed bytes).ops ≤ max_batch_record_len
      → decode_sized bytes ≡ ((parsed bytes).end >>= λ _. ok (build api (parsed bytes).ops api.new))
  unfolding decode_sized walk
  decode_sized_within bytes h =
      rw
        (
          walk_from-eq-run usize_max charge_op (length bytes) bytes 0 batch_count_len,
          run-charge_op 0 batch_count_len (parsed bytes).ops h,
          walk-add_op bytes,
        )
        (both_ends (parsed bytes).end _ _)

  decode_sized_over :
      (bytes : Bytes)
      → max_batch_record_len < batch_count_len + record_len (parsed bytes).ops
      → (j : ℕ) × Crosses batch_count_len (parsed bytes).ops j
        × (decode_sized bytes ≡ err (invalid_arg (past_limit j)))
  unfolding decode_sized walk
  decode_sized_over bytes h =
      let (j, c, e) = run-charge_op_over 0 batch_count_len (parsed bytes).ops (omega arith) h in
      (
        j,
        c,
        rw (walk_from-eq-run usize_max charge_op (length bytes) bytes 0 batch_count_len, e)
            (ap (λ i. err (invalid_arg (past_limit i))) (zero-add j)),
      )

  -- Skipping the sizing pass on short frames never changes the result, on any frame, well formed or not.
  pub decode-eq-decode_sized : (bytes : Bytes) → decode usize_max api bytes ≡ decode_sized bytes
  unfolding decode
  decode-eq-decode_sized bytes = elim (Bool-cases (ltb max_frame_without_sizing (length bytes))) [
    | inl long ↦ rw long (unfold decode_sized in refl)
    | inr short ↦
        rw short
          (walk-add_op bytes ∙ sym (decode_sized_within bytes (short_within bytes (ground arith))))
  ]

  decode_within :
      (bytes : Bytes)
      → batch_count_len + record_len (parsed bytes).ops ≤ max_batch_record_len
      → decode usize_max api bytes
        ≡ ((parsed bytes).end >>= λ _. ok (build api (parsed bytes).ops api.new))
  decode_within bytes h = decode-eq-decode_sized bytes ∙ decode_sized_within bytes h

  -- Every result is a batch or an invalid argument with a reason: never a panic, so the model's loop never
  -- runs out of fuel either.
  pub decode-IsChecked : (bytes : Bytes) → IsChecked (decode usize_max api bytes)
  decode-IsChecked bytes =
      elim (dec_le (batch_count_len + record_len (parsed bytes).ops) max_batch_record_len) [
        | yes h ↦ rw (decode_within bytes h) (
            IsChecked-bind (parsed bytes).end _
              (end-parse-IsChecked usize_max (length bytes) bytes 0 (omega arith)) (λ _. tt))
        | no h ↦
            let (j, c, e) = decode_sized_over bytes (omega arith) in
            rw (decode-eq-decode_sized bytes, e) (refusal (past_limit j))
      ]

  -- Whatever bytes are accepted are the frame that packing some ops gives; the batch holds those ops in
  -- their order, and its record is within the limit.
  pub decode-eq-pack :
      (bytes : Bytes) (batch : api.Batch)
      → All IsByte bytes
      → decode usize_max api bytes ≡ ok batch
      → (ops : List RawOp) × (bytes ≡ (pack new_write_batch ops).buf)
        × (batch ≡ build api ops api.new)
        × (batch_count_len + record_len ops ≤ max_batch_record_len)
  decode-eq-pack bytes batch b h =
      elim (dec_le (batch_count_len + record_len (parsed bytes).ops) max_batch_record_len) [
        | yes fits ↦
            let (t, q, r) = >>=-eq-ok (parsed bytes).end _ (sym (decode_within bytes fits) ∙ h) in
            (
              (parsed bytes).ops,
              rw (buf-pack new_write_batch (parsed bytes).ops)
                  (parse-eq-frame usize_max (length bytes) bytes 0 b q),
              cc,
              fits,
            )
        | no over ↦
            let (j, c, e) = decode_sized_over bytes (omega arith) in
            cc (decode-eq-decode_sized bytes)
      ]

  module _ (ops : List RawOp) (u : usize_max ≤ u64_max)
      (a : All (IsAddressable usize_max) ops) where
    parsed-pack : parsed (pack new_write_batch ops).buf ≡ record { ops = ops; end = ok tt }
    parsed-pack =
        rw (buf-pack new_write_batch ops)
          (parse-frame usize_max (length (frame ops)) ops 0 u a (omega arith))

    -- Decoding a packed batch gives back its ops in their order, if their record is within the limit.
    pub decode-pack :
        batch_count_len + record_len ops ≤ max_batch_record_len
        → decode usize_max api (pack new_write_batch ops).buf ≡ ok (build api ops api.new)
    decode-pack h = decode_within (pack new_write_batch ops).buf (rw parsed-pack h) ∙ rw parsed-pack

    -- A packed batch whose record is over the limit is refused, and the refusal names the first op that
    -- takes the record past it.
    pub decode-pack_over :
        max_batch_record_len < batch_count_len + record_len ops
        → (j : ℕ) × Crosses batch_count_len ops j
          × (decode usize_max api (pack new_write_batch ops).buf ≡ err (invalid_arg (past_limit j)))
    decode-pack_over h =
        let (j, c, e) = decode_sized_over (pack new_write_batch ops).buf (rw parsed-pack h) in
        (j, rw parsed-pack at c, decode-eq-decode_sized (pack new_write_batch ops).buf ∙ e)

-- `Size` as batch.go explains it: the record is the frame, 8 bytes more for each set, 12 for each delete,
-- and 4.
abbrev pub sets : List RawOp → ℕ
sets [] = 0
sets (set k v ∷ ops) = suc (sets ops)
sets (delete k ∷ ops) = sets ops

abbrev pub deletes : List RawOp → ℕ
deletes [] = 0
deletes (set k v ∷ ops) = deletes ops
deletes (delete k ∷ ops) = suc (deletes ops)

record_len-frame_size :
    (ops : List RawOp) → record_len ops ≡ frame_size ops + 8 * sets ops + 12 * deletes ops
unfolding record_len op_record_len frame_size op_size
record_len-frame_size [] = omega arith
record_len-frame_size (set k v ∷ ops) = omega (arith, record_len-frame_size ops)
record_len-frame_size (delete k ∷ ops) = omega (arith, record_len-frame_size ops)

length-ops : (ops : List RawOp) → length ops ≡ sets ops + deletes ops
length-ops [] = omega arith
length-ops (set k v ∷ ops) = omega (arith, length-ops ops)
length-ops (delete k ∷ ops) = omega (arith, length-ops ops)

-- The record that a packed batch takes is its `Size`, 8 bytes for every set, 12 for every delete, and 4;
-- and its `Len` is the number of ops.
pub record_len-size :
    (ops : List RawOp)
    → (batch_count_len + record_len ops
        ≡ size (pack new_write_batch ops) + 8 * sets ops + 12 * deletes ops + 4)
      × (len (pack new_write_batch ops) ≡ sets ops + deletes ops)
record_len-size ops = rw (buf-pack new_write_batch ops) (
    omega (
      arith,
      record_len-frame_size ops,
      length-frame ops,
      n-pack new_write_batch ops,
      length-ops ops,
    ))
