-- ===== src/Batch/Parse.antt =====
-- `walk` taken apart: what a frame spells, whatever the closure does with it, and the closure run over
-- those ops. Both passes of `decode` see the same ops.
use go_regolith.Base.{
  ℕ, zero, suc, ◌+◌, ◌≤◌, ◌≡◌, refl, inl, inr, some, List, [], ◌∷◌, ◌++◌, length, take, drop,
  length-drop, length-append, length-take, arith, le→leb, take-append, drop-append,
}
use go_regolith.Base.Le.{to_le_bytes, from_le_bytes, length-to_le_bytes, from_le_bytes-to_le_bytes}
use go_regolith.Failure.{
  Failure, Payload, Bytes, Result, ok, err, panic, opaque, ◌>>=◌, Result-cases,
}
use go_regolith.Batch.{RawOp, Field, field, raw_op, walk_from, split_at_checked, u64_max}

-- The ops before the first bad one, and how the frame ends.
pub record Parsed : Type 0 where
  pub ops : List RawOp
  pub end : Result (Unit {0})

abbrev pub prepend : RawOp → Parsed → Parsed
prepend op p = record { ops = op ∷ p.ops; end = p.end }

-- The closure over a list of ops, from an index on.
unfoldable pub run {ℓ} : {S : Type ℓ} → (ℕ → RawOp → S → Result S) → ℕ → List RawOp → S → Result S
run on_op index [] s = ok s
run on_op index (op ∷ ops) s = do s' ← on_op index op s; run on_op (index + 1) ops s'

pub split_at_checked-append :
    (xs ys : Bytes) (n : ℕ) → length xs ≡ n → split_at_checked (xs ++ ys) n ≡ some (xs, ys)
unfolding split_at_checked
split_at_checked-append xs ys n h = rw (
  ← h,
  le→leb (length xs) (length (xs ++ ys)) (omega (arith, length-append xs ys)),
  take-append xs ys,
  drop-append xs ys,
)

module _ (usize_max : ℕ) where
  unfoldable pub parse : ℕ → Bytes → ℕ → Parsed
  parse fuel [] index = record { ops = []; end = ok tt }
  parse zero (tag ∷ tail) index = record { ops = []; end = panic opaque }
  parse (suc fuel) (tag ∷ tail) index = elim (raw_op usize_max tag tail index) [
    | ok (op, rest) ↦ prepend op (parse fuel rest (index + 1))
    | err e ↦ record { ops = []; end = err e }
    | panic p ↦ record { ops = []; end = panic p }
  ]

  pub parse-ok :
      (fuel tag : ℕ) (tail : Bytes) (index : ℕ) (op : RawOp) (rest : Bytes)
      → raw_op usize_max tag tail index ≡ ok (op, rest)
      → parse (suc fuel) (tag ∷ tail) index ≡ prepend op (parse fuel rest (index + 1))
  unfolding parse
  parse-ok fuel tag tail index op rest e = rw (e, parse)

  pub parse-err :
      (fuel tag : ℕ) (tail : Bytes) (index : ℕ) (f : Failure)
      → raw_op usize_max tag tail index ≡ err f
      → parse (suc fuel) (tag ∷ tail) index ≡ record { ops = []; end = err f }
  unfolding parse
  parse-err fuel tag tail index f e = rw (e, parse)

  pub parse-panic :
      (fuel tag : ℕ) (tail : Bytes) (index : ℕ) (p : Payload)
      → raw_op usize_max tag tail index ≡ panic p
      → parse (suc fuel) (tag ∷ tail) index ≡ record { ops = []; end = panic p }
  unfolding parse
  parse-panic fuel tag tail index p e = rw (e, parse)

  -- One round: the op, and then whatever the rest of the loop does.
  step :
      {S : Type 0} (r : Result S) (go : S → Result S) (runs : S → Result S)
      (end : Result (Unit {0}))
      → ((s : S) → go s ≡ (do s' ← runs s; end >>= (λ _. ok s')))
      → (r >>= go) ≡ (do s' ← (do s' ← r; runs s'); end >>= (λ _. ok s'))
  step (ok s) go runs end h = h s
  step (err e) go runs end h = refl
  step (panic p) go runs end h = refl

  pub walk_from-eq-run :
      {S : Type 0} (on_op : ℕ → RawOp → S → Result S) (fuel : ℕ) (rest : Bytes) (index : ℕ) (s : S)
      → walk_from usize_max on_op fuel rest index s ≡ (do
        s' ← run on_op index (parse fuel rest index).ops s
        (parse fuel rest index).end >>= (λ _. ok s'))
  unfolding walk_from parse run
  walk_from-eq-run on_op fuel [] index s = refl
  walk_from-eq-run on_op zero (tag ∷ tail) index s = refl
  walk_from-eq-run on_op (suc fuel) (tag ∷ tail) index s =
      elim (Result-cases (raw_op usize_max tag tail index)) [
        | inl ((op, rest), e) ↦
            rw (e, parse)
              (step (on_op index op s) (walk_from usize_max on_op fuel rest (index + 1))
                (run on_op (index + 1) (parse fuel rest (index + 1)).ops)
                (parse fuel rest (index + 1)).end
                (λ s'. walk_from-eq-run on_op fuel rest (index + 1) s'))
        | inr (inl (f, e)) ↦ rw (e, parse)
        | inr (inr (p, e)) ↦ rw (e, parse)
      ]

  -- A field takes its length's 8 bytes and itself off the front.
  pub length-field :
      (rest : Bytes) (index : ℕ) (what : Field) (bytes tail : Bytes)
      → field usize_max rest index what ≡ ok (bytes, tail)
      → length rest ≡ 8 + length bytes + length tail
  unfolding field split_at_checked
  length-field rest index what bytes tail h = ground (
    arith,
    length-drop 8 rest,
    length-take (from_le_bytes (take 8 rest)) (drop 8 rest),
    length-drop (from_le_bytes (take 8 rest)) (drop 8 rest),
  )

  -- A field that was packed is read back, whatever follows it.
  pub field-to_le_bytes :
      (bytes rest : Bytes) (index : ℕ) (what : Field)
      → length bytes ≤ usize_max
      → usize_max ≤ u64_max
      → field usize_max (to_le_bytes 8 (length bytes) ++ (bytes ++ rest)) index what
        ≡ ok (bytes, rest)
  unfolding field
  field-to_le_bytes bytes rest index what h u =
      rw
        (
          split_at_checked-append _ _ 8 (length-to_le_bytes 8 (length bytes)),
          field,
          from_le_bytes-to_le_bytes 8 (length bytes) (omega arith),
        )
        (ground (arith, split_at_checked-append bytes rest (length bytes) refl))
