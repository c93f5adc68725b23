-- ===== src/Batch/Sizing.antt =====
-- The sizing pass: what a batch's ops add to the engine's log record, the op at which a batch that is too
-- large is refused, and why a short frame needs no sizing.
use go_regolith.Base.{
  ℕ, suc, ◌+◌, ◌*◌, ◌≤◌, ◌<◌, ◌≡◌, refl, ap, inl, inr, List, [], ◌∷◌, length, take, arith, ltb,
  Bool-cases,
}
use native.Mathlib.Nat.{add_assoc, add-zero}
use go_regolith.Failure.{ok, err, invalid_arg}
use go_regolith.Batch.{
  RawOp, set, delete, charge, charge_op, set_record_len, delete_record_len, max_batch_record_len,
  batch_count_len, max_frame_without_sizing, past_limit,
}
use go_regolith.Batch.Pack.{op_size}
use go_regolith.Batch.Parse.{run}
use go_regolith.Batch.Frames.{frame_size}

unfoldable pub op_record_len : RawOp → ℕ
op_record_len (set k v) = set_record_len (length k) (length v)
op_record_len (delete k) = delete_record_len (length k)

-- What the ops add to the record, without its count of ops.
unfoldable pub record_len : List RawOp → ℕ
record_len [] = 0
record_len (op ∷ ops) = op_record_len op + record_len ops

charge_op-eq-charge :
    (index total : ℕ) (op : RawOp)
    → charge_op index op total ≡ charge total (op_record_len op) index
unfolding charge_op op_record_len
charge_op-eq-charge index total (set k v) = refl
charge_op-eq-charge index total (delete k) = refl

charge_within :
    (total add index : ℕ)
    → total + add ≤ max_batch_record_len
    → charge total add index ≡ ok (total + add)
unfolding charge
charge_within total add index h = ground arith

charge_over :
    (total add index : ℕ)
    → max_batch_record_len < total + add
    → charge total add index ≡ err (invalid_arg (past_limit index))
unfolding charge
charge_over total add index h = ground arith

pub run-charge_op :
    (index total : ℕ) (ops : List RawOp)
    → total + record_len ops ≤ max_batch_record_len
    → run charge_op index ops total ≡ ok (total + record_len ops)
unfolding run record_len
run-charge_op index total [] h = ap ok (omega arith)
run-charge_op index total (op ∷ ops) h = rw (
  charge_op-eq-charge index total op,
  charge_within total (op_record_len op) index (omega arith),
  run-charge_op (index + 1) (total + op_record_len op) ops (omega arith),
  add_assoc,
)

-- The op `j` is the first that takes the record past the limit.
pub record Crosses (total : ℕ) (ops : List RawOp) (j : ℕ) : Type 0 where
  pub in_range : j < length ops
  pub before : total + record_len (take j ops) ≤ max_batch_record_len
  pub after : max_batch_record_len < total + record_len (take (suc j) ops)

pub run-charge_op_over :
    (index total : ℕ) (ops : List RawOp)
    → total ≤ max_batch_record_len
    → max_batch_record_len < total + record_len ops
    → (j : ℕ) × Crosses total ops j
      × (run charge_op index ops total ≡ err (invalid_arg (past_limit (index + j))))
unfolding run record_len
run-charge_op_over index total [] b h = absurd (omega arith)
run-charge_op_over index total (op ∷ ops) b h =
    elim (Bool-cases (ltb max_batch_record_len (total + op_record_len op))) [
      | inl over ↦ (
        0,
        record { in_range = omega arith; before = omega arith; after = ground arith },
        rw (
          charge_op-eq-charge index total op,
          charge_over total (op_record_len op) index (ground arith),
          add-zero,
        ),
      )
      | inr within ↦
          let (j, c, e) =
            run-charge_op_over (index + 1) (total + op_record_len op) ops (ground arith)
              (omega arith) in
          let fits : total + op_record_len op ≤ max_batch_record_len = ground arith in
          let same : index + 1 + j ≡ index + suc j = omega arith in
          (
            suc j,
            record {
              in_range = omega (arith, c.in_range);
              before = omega (arith, c.before);
              after = omega (arith, c.after);
            },
            rw
                (
                  charge_op-eq-charge index total op,
                  charge_within total (op_record_len op) index fits,
                )
                (rw same at e),
          )
    ]

op_record_len-op_size : (op : RawOp) → 3 * op_record_len op ≤ 7 * op_size op
unfolding op_record_len op_size
op_record_len-op_size (set k v) = omega arith
op_record_len-op_size (delete k) = omega arith

record_len-frame_size : (ops : List RawOp) → 3 * record_len ops ≤ 7 * frame_size ops
unfolding record_len frame_size
record_len-frame_size [] = omega arith
record_len-frame_size (op ∷ ops) =
    omega (arith, op_record_len-op_size op, record_len-frame_size ops)

-- A frame that skips the sizing pass cannot hold too large a batch.
pub short_frame_within :
    (ops : List RawOp)
    → frame_size ops ≤ max_frame_without_sizing
    → batch_count_len + record_len ops ≤ max_batch_record_len
short_frame_within ops h = omega (arith, record_len-frame_size ops)

-- What an engine takes of a key and of a value, by its options.
pub record Limits : Type 0 where
  pub max_key_size : ℕ
  pub max_value_size : ℕ

abbrev pub IsTaken : Limits → RawOp → Type 0
IsTaken l (set k v) = (length k ≤ l.max_key_size) × (length v ≤ l.max_value_size)
IsTaken l (delete k) = length k ≤ l.max_key_size
