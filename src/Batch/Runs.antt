-- ===== src/Batch/Runs.antt =====
-- Concrete runs of the decoder and of the packer, and the theorems at concrete inputs.
use go_regolith.Base.{
  ℕ, zero, suc, ◌+◌, ◌*◌, ◌^◌, ap, ◌≤◌, ◌≡◌, refl, List, [], ◌∷◌, ◌++◌, length, arith,
}
use go_regolith.Base.Text.{codes}
use go_regolith.Base.Le.{from_le_bytes, to_le_bytes}
use go_regolith.Failure.{Bytes, ok, err, invalid_arg}
use go_regolith.Batch.{
  RawOp, set, delete, key, value, decode, WriteBatch, u64_max, cut_inside, cut_in_length,
  unknown_tag, past_limit, length_too_large, batch_count_len, max_batch_record_len, charge,
}
use go_regolith.Batch.Pack.{pack, new_write_batch, size, len, reset}
use go_regolith.Batch.Sizing.{record_len, op_record_len, Crosses}
use go_regolith.Batch.Decode.{
  build, decode-pack, decode-pack_over, decode-eq-pack, decode-IsChecked, decode-eq-decode_sized,
  decode_sized, record_len-size, sets, deletes,
}
use go_regolith.Failure.Checked.{IsChecked}

-- A `WriteBatch` that is the list of its calls.
abbrev recorded : WriteBatch
recorded = record {
  Batch = List RawOp;
  new = [];
  put = λ k v b. b ++ (set k v ∷ []);
  remove = λ k b. b ++ (delete k ∷ []);
}

abbrev two_ops : List RawOp
two_ops = set (b'a' ∷ []) (b'1' ∷ b'2' ∷ []) ∷ delete (b'b' ∷ []) ∷ []

abbrev two_ops_frame : Bytes
two_ops_frame =
    1 ∷ 1 ∷ 0 ∷ 0 ∷ 0 ∷ 0 ∷ 0 ∷ 0 ∷ 0 ∷ b'a' ∷ 2 ∷ 0 ∷ 0 ∷ 0 ∷ 0 ∷ 0 ∷ 0 ∷ 0 ∷ b'1' ∷ b'2' ∷ 2 ∷ 1
    ∷ 0 ∷ 0 ∷ 0 ∷ 0 ∷ 0 ∷ 0 ∷ 0 ∷ b'b' ∷ []

pack-two_ops : (pack new_write_batch two_ops).buf ≡ two_ops_frame
unfolding pack to_le_bytes
pack-two_ops = refl

reset_two_ops : reset (pack new_write_batch two_ops) ≡ new_write_batch
unfolding reset
reset_two_ops = refl

decode-two_ops : decode u64_max recorded two_ops_frame ≡ ok two_ops
unfolding decode from_le_bytes
decode-two_ops = refl

-- `decode_rejects_unknown_tag`: the second op's tag.
decode-unknown_tag :
    decode u64_max recorded (two_ops_frame ++ (9 ∷ [])) ≡ err (invalid_arg (unknown_tag 2 9))
unfolding decode from_le_bytes
decode-unknown_tag = refl

decode-cut_inside :
    decode u64_max recorded (1 ∷ 5 ∷ 0 ∷ 0 ∷ 0 ∷ 0 ∷ 0 ∷ 0 ∷ 0 ∷ b'a' ∷ b'b' ∷ [])
    ≡ err (invalid_arg (cut_inside 0 key))
unfolding decode from_le_bytes
decode-cut_inside = refl

decode-cut_in_length :
    decode u64_max recorded (2 ∷ 0 ∷ []) ≡ err (invalid_arg (cut_in_length 0 key))
unfolding decode from_le_bytes
decode-cut_in_length = refl

-- On a 32-bit host.
decode_too_large :
    decode 0xffff_ffff recorded (2 ∷ 0 ∷ 0 ∷ 0 ∷ 0 ∷ 1 ∷ 0 ∷ 0 ∷ 0 ∷ [])
    ≡ err (invalid_arg (length_too_large 0 key))
unfolding decode from_le_bytes
decode_too_large = refl

unknown_tag_text : unknown_tag 1 9 ≡ codes "write batch op 1 has unknown tag 9"
unfolding unknown_tag
unknown_tag_text = refl

cut_inside_text : cut_inside 0 value ≡ codes "write batch op 0 is cut off inside its value"
unfolding cut_inside
cut_inside_text = refl

cut_in_length_text : cut_in_length 12 key ≡ codes "write batch op 12 is cut off in its key length"
unfolding cut_in_length
cut_in_length_text = refl

length_too_large_text :
    length_too_large 3 key ≡ codes "write batch op 3 has a key length that does not fit in memory"
unfolding length_too_large
length_too_large_text = refl

past_limit_text :
    past_limit 15
    ≡ codes
        "write batch op 15 would push this write batch past its 1073741824-byte limit; split it into smaller batches"
unfolding past_limit
past_limit_text = refl

-- The sets of `boundary_batch_of_sets_lands_exactly_and_rejects_one_byte_over`, one charge each.
charge_at_limit :
    (charge (4 + 15 * (25 + 5 + 67_108_864)) (25 + 5 + 67_108_380) 15 ≡ ok max_batch_record_len)
unfolding charge
charge_at_limit = refl

charge-past_limit :
    charge (4 + 15 * (25 + 5 + 67_108_864)) (25 + 5 + 67_108_381) 15
    ≡ err (invalid_arg (past_limit 15))
unfolding charge
charge-past_limit = refl

decode-pack_example :
    decode u64_max recorded (pack new_write_batch two_ops).buf ≡ ok (build recorded two_ops [])
decode-pack_example =
    decode-pack u64_max recorded two_ops (omega arith) (omega arith)
      (unfold record_len op_record_len in omega arith)

decode-eq-pack_example :
    (ops : List RawOp) × (two_ops_frame ≡ (pack new_write_batch ops).buf)
    × (two_ops ≡ build recorded ops [])
    × (batch_count_len + record_len ops ≤ max_batch_record_len)
decode-eq-pack_example =
    decode-eq-pack u64_max recorded two_ops_frame two_ops (omega arith) decode-two_ops

decode-IsChecked_example : IsChecked (decode u64_max recorded (1 ∷ 2 ∷ []))
decode-IsChecked_example = decode-IsChecked u64_max recorded (1 ∷ 2 ∷ [])

decode-eq-decode_sized_example :
    decode u64_max recorded two_ops_frame ≡ decode_sized u64_max recorded two_ops_frame
decode-eq-decode_sized_example = decode-eq-decode_sized u64_max recorded two_ops_frame

record_len-size_example :
    (batch_count_len + record_len two_ops
      ≡ size (pack new_write_batch two_ops) + 8 * sets two_ops + 12 * deletes two_ops + 4)
    × (len (pack new_write_batch two_ops) ≡ sets two_ops + deletes two_ops)
record_len-size_example = record_len-size two_ops

-- A key of `n` zero bytes, kept shut: the record limit needs a gigabyte of them.
zeros : ℕ → Bytes
zeros zero = []
zeros (suc n) = 0 ∷ zeros n

length-zeros : (n : ℕ) → length (zeros n) ≡ n
unfolding zeros
length-zeros zero = refl
length-zeros (suc n) = ap suc (length-zeros n)

abbrev oversized : List RawOp
oversized = set [] [] ∷ delete (zeros (2 ^ 30)) ∷ []

decode-pack_over_example :
    (j : ℕ) × Crosses batch_count_len oversized j
    × (decode u64_max recorded (pack new_write_batch oversized).buf
        ≡ err (invalid_arg (past_limit j)))
decode-pack_over_example =
    decode-pack_over u64_max recorded oversized (omega arith) (omega (arith, length-zeros (2 ^ 30)))
      (unfold record_len op_record_len in omega (arith, length-zeros (2 ^ 30)))
