-- ===== src/Batch.antt =====
-- ffi/src/batch.rs: the decoder of the write-batch frame, and batch.go, which packs it.
pub mod Pack
pub mod Parse
pub mod Ops
pub mod Frames
pub mod Sizing
pub mod Decode
mod Runs
use go_regolith.Base.{
  ℕ, zero, suc, ◌+◌, ◌-◌, ◌*◌, ◌/◌, ◌^◌, Option, none, some, [], ◌∷◌, ◌++◌, ltb, leb, ◌==◌,
  if◌then◌else◌, length, take, drop,
}
use Prim.Native.Nat.{min}
use go_regolith.Base.Text.{codes, decimal}
use go_regolith.Base.Le.{from_le_bytes}
use go_regolith.Failure.{Bytes, Result, ok, err, panic, opaque, invalid_arg, ◌>>=◌, ◌>>◌}

abbrev pub op_set : ℕ
op_set = 1

abbrev pub op_delete : ℕ
op_delete = 2

abbrev pub max_batch_record_len : ℕ
max_batch_record_len = 2 ^ 30

abbrev pub batch_count_len : ℕ
batch_count_len = 4

abbrev pub set_record_overhead : ℕ
set_record_overhead = 5 + 4 + 4 + 4 + 8

abbrev pub delete_record_overhead : ℕ
delete_record_overhead = 5 + 4 + 4 + 8

abbrev pub max_frame_without_sizing : ℕ
max_frame_without_sizing = (max_batch_record_len - batch_count_len) * 3 / 7

abbrev pub u64_max : ℕ
u64_max = 2 ^ 64 - 1

abbrev pub set_record_len : ℕ → ℕ → ℕ
set_record_len key_len value_len = set_record_overhead + key_len + value_len

abbrev pub delete_record_len : ℕ → ℕ
delete_record_len key_len = delete_record_overhead + key_len

unfoldable pub past_limit : ℕ → Bytes
unfolding codes decimal
past_limit index =
    codes "write batch op "
    ++ decimal index
    ++ codes " would push this write batch past its "
    ++ decimal max_batch_record_len
    ++ codes "-byte limit; split it into smaller batches"

-- `RecordLen::charge`: the new total, or the refusal of the op with this index.
unfoldable pub charge : ℕ → ℕ → ℕ → Result ℕ
charge total add index =
    let next = min u64_max (total + add) in
    if ltb max_batch_record_len next then err (invalid_arg (past_limit index)) else ok next

-- One op's fields. The slices that `walk` lends are the bytes themselves.
pub data RawOp : Type 0 where
  set : Bytes → Bytes → RawOp
  delete : Bytes → RawOp

pub data Field : Type 0 where
  key value : Field

unfoldable pub field_name : Field → Bytes
unfolding codes
field_name key = codes "key"
field_name value = codes "value"

unfoldable pub cut_in_length : ℕ → Field → Bytes
unfolding codes decimal field_name
cut_in_length index what =
    codes "write batch op "
    ++ decimal index
    ++ codes " is cut off in its "
    ++ field_name what
    ++ codes " length"

unfoldable pub length_too_large : ℕ → Field → Bytes
unfolding codes decimal field_name
length_too_large index what =
    codes "write batch op "
    ++ decimal index
    ++ codes " has a "
    ++ field_name what
    ++ codes " length that does not fit in memory"

unfoldable pub cut_inside : ℕ → Field → Bytes
unfolding codes decimal field_name
cut_inside index what =
    codes "write batch op " ++ decimal index ++ codes " is cut off inside its " ++ field_name what

unfoldable pub unknown_tag : ℕ → ℕ → Bytes
unfolding codes decimal
unknown_tag index tag =
    codes "write batch op " ++ decimal index ++ codes " has unknown tag " ++ decimal tag

-- `split_first_chunk::<8>` and `split_at_checked`.
unfoldable pub split_at_checked : Bytes → ℕ → Option (Bytes × Bytes)
split_at_checked bytes n = if leb n (length bytes) then some (take n bytes, drop n bytes) else none

-- `usize_max` is the platform's `usize::MAX`.
module _ (usize_max : ℕ) where
  -- The field's bytes and what `rest` points at afterwards.
  unfoldable pub field : Bytes → ℕ → Field → Result (Bytes × Bytes)
  field rest index what = elim (split_at_checked rest 8) [
    | none ↦ err (invalid_arg (cut_in_length index what))
    | some (len, tail) ↦
        if ltb usize_max (from_le_bytes len)
        then err (invalid_arg (length_too_large index what))
        else elim (split_at_checked tail (from_le_bytes len)) [
          | none ↦ err (invalid_arg (cut_inside index what))
          | some (bytes, tail') ↦ ok (bytes, tail')
        ]
  ]

  -- The arms of the `match tag` in `walk`: one op and the rest of the frame.
  unfoldable pub raw_op : ℕ → Bytes → ℕ → Result (RawOp × Bytes)
  raw_op tag rest index =
      if tag == op_set
      then (do
        (k, rest') ← field rest index key
        (v, rest'') ← field rest' index value
        ok (set k v, rest''))
      else if tag == op_delete
      then (do (k, rest') ← field rest index key; ok (delete k, rest'))
      else err (invalid_arg (unknown_tag index tag))

  -- `on_op` is a closure: it takes the state that it captures and returns it. A round takes a byte at
  -- least, so the frame's length is enough fuel; without fuel the model stops, as by a panic.
  module _ {S : Type 0} (on_op : ℕ → RawOp → S → Result S) where
    unfoldable pub walk_from : ℕ → Bytes → ℕ → S → Result S
    walk_from fuel [] index s = ok s
    walk_from zero (tag ∷ tail) index s = panic opaque
    walk_from (suc fuel) (tag ∷ tail) index s = do
      (op, rest) ← raw_op tag tail index
      s' ← on_op index op s
      walk_from fuel rest (index + 1) s'

    unfoldable pub walk : Bytes → S → Result S
    walk frame s = walk_from (length frame) frame 0 s

-- The closure of the sizing pass.
unfoldable pub charge_op : ℕ → RawOp → ℕ → Result ℕ
unfolding charge
charge_op index (set k v) total = charge total (set_record_len (length k) (length v)) index
charge_op index (delete k) total = charge total (delete_record_len (length k)) index

-- `regolith::WriteBatch`, as far as the decoder uses it.
pub record WriteBatch : Type 1 where
  pub Batch : Type 0
  pub new : Batch
  pub put : Bytes → Bytes → Batch → Batch
  pub remove : Bytes → Batch → Batch

module _ (usize_max : ℕ) (api : WriteBatch) where
  open api use {Batch, new, put, remove}

  -- The closure of the build pass.
  unfoldable pub add_op : ℕ → RawOp → Batch → Result Batch
  add_op index (set k v) batch = ok (put k v batch)
  add_op index (delete k) batch = ok (remove k batch)

  unfoldable pub decode : Bytes → Result Batch
  unfolding add_op charge_op walk walk_from raw_op field split_at_checked
  decode frame =
      if ltb max_frame_without_sizing (length frame)
      then (do walk usize_max charge_op frame batch_count_len; walk usize_max add_op frame new)
      else walk usize_max add_op frame new
