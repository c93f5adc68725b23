-- ===== src/Batch/Ops.antt =====
-- What `parse` makes of a frame: it reads back the ops that were packed, a frame that it takes whole is
-- the packed form of its ops, and every refusal is an invalid argument.
use go_regolith.Base.{
  ℕ, suc, ◌+◌, ◌≤◌, ◌≡◌, inl, inr, Bool-cases, Option-cases, ==_iff, none, some, ◌∷◌, ◌++◌, length,
  take, drop, length-take, take-append-drop, All, arith, ltb, ◌==◌, All-take, All-drop,
}
use go_regolith.Base.Le.{IsByte, to_le_bytes, from_le_bytes, to_le_bytes-from_le_bytes}
use go_regolith.Failure.{Bytes, ok, err, invalid_arg, >>=-eq-ok}
use go_regolith.Batch.{
  RawOp, set, delete, Field, key, value, field, raw_op, split_at_checked, cut_inside,
  length_too_large, op_set, op_delete,
}
use go_regolith.Batch.Pack.{op_before, op_size}
use go_regolith.Batch.Parse.{length-field}
use go_regolith.Failure.Checked.{IsChecked, IsChecked-bind, IsChecked-if, refusal}

-- The first 8 bytes of a frame are the length that they spell.
split_at_checked-eq :
    (rest : Bytes) (n : ℕ) (front back : Bytes)
    → split_at_checked rest n ≡ some (front, back)
    → (rest ≡ front ++ back) × (length front ≡ n)
unfolding split_at_checked
split_at_checked-eq rest n front back h =
    ground (arith, take-append-drop n rest, length-take n rest)

module _ (usize_max : ℕ) where
  field-IsChecked :
      (rest : Bytes) (index : ℕ) (what : Field) → IsChecked (field usize_max rest index what)
  unfolding field
  field-IsChecked rest index what = elim (Option-cases (split_at_checked rest 8)) [
    | inl e ↦ rw (e, field, IsChecked) (refusal _)
    | inr ((len, tail), e) ↦
        rw (e, field, IsChecked)
          (IsChecked-if (ltb usize_max (from_le_bytes len))
            (err (invalid_arg (length_too_large index what))) _ (refusal _) (inner len tail))
  ]
    where
      inner :
          (len tail : Bytes)
          → IsChecked {A = Bytes × Bytes} (elim (split_at_checked tail (from_le_bytes len)) [
            | none ↦ err (invalid_arg (cut_inside index what))
            | some (bytes, tail') ↦ ok (bytes, tail')
          ])
      inner len tail = elim (Option-cases (split_at_checked tail (from_le_bytes len))) [
        | inl e ↦ rw (e, IsChecked) (refusal _)
        | inr (p, e) ↦ rw (e, IsChecked) tt
      ]

  pub raw_op-IsChecked :
      (tag : ℕ) (rest : Bytes) (index : ℕ) → IsChecked (raw_op usize_max tag rest index)
  unfolding raw_op
  raw_op-IsChecked tag rest index =
      IsChecked-if (tag == op_set) _ _
        (IsChecked-bind _ _ (field-IsChecked rest index key)
          (λ p. IsChecked-bind _ _ (field-IsChecked p.1 index value) (λ q. tt)))
        (IsChecked-if (tag == op_delete) _ _
          (IsChecked-bind _ _ (field-IsChecked rest index key) (λ p. tt)) (refusal _))

  -- What a successful `raw_op` has read.
  data RawOpRead (tag : ℕ) (tail : Bytes) (index : ℕ) (op : RawOp) (rest : Bytes) : Type 0 where
    read_set :
        (k v rest' : Bytes)
        → tag ≡ op_set
        → field usize_max tail index key ≡ ok (k, rest')
        → field usize_max rest' index value ≡ ok (v, rest)
        → op ≡ set k v
        → RawOpRead tag tail index op rest
    read_delete :
        (k : Bytes)
        → tag ≡ op_delete
        → field usize_max tail index key ≡ ok (k, rest)
        → op ≡ delete k
        → RawOpRead tag tail index op rest

  raw_op-RawOpRead :
      (tag : ℕ) (tail : Bytes) (index : ℕ) (op : RawOp) (rest : Bytes)
      → raw_op usize_max tag tail index ≡ ok (op, rest)
      → RawOpRead tag tail index op rest
  unfolding raw_op
  raw_op-RawOpRead tag tail index op rest h = elim (Bool-cases (tag == op_set)) [
    | inl s ↦
        let ((k, r), e, h') = >>=-eq-ok (field usize_max tail index key) _ (rw s at h) in
        let ((v, r'), e', h'') = >>=-eq-ok (field usize_max r index value) _ h' in
        read_set k v r ((==_iff tag op_set).0 s) e (cc) (cc)
    | inr s ↦ elim (Bool-cases (tag == op_delete)) [
      | inl d ↦
          let ((k, r), e, h') = >>=-eq-ok (field usize_max tail index key) _ (rw (s, d) at h) in
          read_delete k ((==_iff tag op_delete).0 d) (cc) (cc)
      | inr d ↦ cc (rw (s, d) at h)
    ]
  ]

  length-RawOpRead :
      {tag : ℕ} {tail : Bytes} {index : ℕ} {op : RawOp} {rest : Bytes}
      → RawOpRead tag tail index op rest
      → suc (length tail) ≡ op_size op + length rest
  unfolding op_size
  length-RawOpRead {tail = tail} {index = index} {rest = rest} (read_set k v r t e e' o) = rw o (
      omega (
        arith,
        length-field usize_max tail index key k r e,
        length-field usize_max r index value v rest e',
      ))
  length-RawOpRead {tail = tail} {index = index} {rest = rest} (read_delete k t e o) =
      rw o (omega (arith, length-field usize_max tail index key k rest e))

  pub length-raw_op :
      (tag : ℕ) (tail : Bytes) (index : ℕ) (op : RawOp) (rest : Bytes)
      → raw_op usize_max tag tail index ≡ ok (op, rest)
      → suc (length tail) ≡ op_size op + length rest
  length-raw_op tag tail index op rest h =
      length-RawOpRead (raw_op-RawOpRead tag tail index op rest h)

  field-cuts :
      (rest : Bytes) (index : ℕ) (what : Field) (bytes tail : Bytes)
      → field usize_max rest index what ≡ ok (bytes, tail)
      → (8 ≤ length rest)
        × (from_le_bytes (take 8 rest) ≤ length (drop 8 rest))
        × (bytes ≡ take (from_le_bytes (take 8 rest)) (drop 8 rest))
        × (tail ≡ drop (from_le_bytes (take 8 rest)) (drop 8 rest))
  unfolding field split_at_checked
  field-cuts rest index what bytes tail h = ground arith

  field-eq-to_le_bytes :
      (rest : Bytes) (index : ℕ) (what : Field) (bytes tail : Bytes)
      → All IsByte rest
      → field usize_max rest index what ≡ ok (bytes, tail)
      → (rest ≡ to_le_bytes 8 (length bytes) ++ (bytes ++ tail)) × All IsByte tail
  field-eq-to_le_bytes rest index what bytes tail b h =
      let n = from_le_bytes (take 8 rest) in
      let (h8, hn, hb, ht) = field-cuts rest index what bytes tail h in
      let full : length (take 8 rest) ≡ 8 = omega (arith, length-take 8 rest) in
      let word : to_le_bytes 8 n ≡ take 8 rest =
        rw full at (to_le_bytes-from_le_bytes (take 8 rest) (All-take IsByte 8 rest b)) in
      let size : length bytes ≡ n = rw hb (omega (arith, length-take n (drop 8 rest))) in
      (
        rw (size, word, hb, ht, take-append-drop n (drop 8 rest), take-append-drop 8 rest),
        rw ht (All-drop IsByte n (drop 8 rest) (All-drop IsByte 8 rest b)),
      )

  RawOpRead-op_before :
      {tag : ℕ} {tail : Bytes} {index : ℕ} {op : RawOp} {rest : Bytes}
      → All IsByte tail
      → RawOpRead tag tail index op rest
      → (tag ∷ tail ≡ op_before op rest) × All IsByte rest
  unfolding op_before
  RawOpRead-op_before {tail = tail} {index = index} {rest = rest} b (read_set k v r t e e' o) =
      let (p, b') = field-eq-to_le_bytes tail index key k r b e in
      let (q, b'') = field-eq-to_le_bytes r index value v rest b' e' in (rw (o, t, p, q), b'')
  RawOpRead-op_before {tail = tail} {index = index} {rest = rest} b (read_delete k t e o) =
      let (p, b') = field-eq-to_le_bytes tail index key k rest b e in (rw (o, t, p), b')

  pub raw_op-eq-op_before :
      (tag : ℕ) (tail : Bytes) (index : ℕ) (op : RawOp) (rest : Bytes)
      → All IsByte tail
      → raw_op usize_max tag tail index ≡ ok (op, rest)
      → (tag ∷ tail ≡ op_before op rest) × All IsByte rest
  unfolding raw_op op_before
  raw_op-eq-op_before tag tail index op rest b h =
      RawOpRead-op_before b (raw_op-RawOpRead tag tail index op rest h)
