-- ===== src/Go/Iter/Frame.antt =====
-- The frame of `regolith_iter_next_batch`, as the loop of `refill` in iter.go reads it.
use go_regolith.Base.{
  ℕ, zero, suc, ◌+◌, ◌*◌, ◌^◌, ◌≤◌, ◌<◌, ◌≡◌, refl, sym, ap, ◌∙◌, none, some, false, List, [], ◌∷◌,
  ◌++◌, ltb, leb, length, take, drop, get_elem?, All, arith, length-append, take-append,
  drop-append,
}
use mathlib.Core.Path.{subst}
use go_regolith.Base.Le.{to_le_bytes, from_le_bytes, from_le_bytes-to_le_bytes, length-to_le_bytes}
use go_regolith.Failure.{Bytes}
use go_regolith.Iter.Walk.Spans.{Pair}
use go_regolith.Iter.Batches.{framed}
use go_regolith.Iter.Batches.Fill.{append_assoc}
use go_regolith.Go.Iter.{Spot, locate}

-- Where the keys stand in a frame that begins at `offset`.
unfoldable pub spots : ℕ → List Pair → List Spot
spots offset [] = []
spots offset ((k, v) ∷ es) =
    record { k_off = offset + 4; k_len = length k } ∷ spots (offset + 4 + length k) es

abbrev pub IsShort : Pair → Type 0
IsShort e = length e.0 ≤ 2 ^ 22

-- One round of the loop.
abbrev word : Bytes → ℕ
word bytes = from_le_bytes (take 4 bytes)

locate-word :
    (fuel offset : ℕ) (bytes rest : Bytes) (found : List Spot)
    → 4 ≤ length bytes
    → word bytes < 2 ^ 31
    → drop (word bytes) (drop 4 bytes) ≡ rest
    → locate fuel (offset + 4 + word bytes) rest ≡ some found
    → locate (suc fuel) offset bytes
      ≡ some (record { k_off = offset + 4; k_len = word bytes } ∷ found)
unfolding locate
locate-word fuel offset [] rest found l h d e = absurd (omega arith)
locate-word fuel offset (x ∷ xs) rest found l h d e =
    let enough : ltb (length (x ∷ xs)) 4 ≡ false = ground arith in
    let fits : leb (2 ^ 31) (word (x ∷ xs)) ≡ false = ground arith in rw (enough, fits, d, e) refl

locate_round :
    (fuel offset : ℕ) (bytes : Bytes) (n : ℕ) (rest : Bytes) (found : List Spot)
    → 4 ≤ length bytes
    → word bytes ≡ n
    → n < 2 ^ 31
    → drop n (drop 4 bytes) ≡ rest
    → locate fuel (offset + 4 + n) rest ≡ some found
    → locate (suc fuel) offset bytes ≡ some (record { k_off = offset + 4; k_len = n } ∷ found)
locate_round fuel offset bytes n rest found l w h d e = rw (sym w) (
    locate-word fuel offset bytes rest found l (rw (sym w) at h) (rw (sym w) at d)
      (rw (sym w) at e))

abbrev prefix : Bytes → Bytes
prefix k = to_le_bytes 4 (length k)

take_prefix : (k rest : Bytes) → take 4 (prefix k ++ rest) ≡ prefix k
take_prefix k rest = rw (length-to_le_bytes 4 (length k)) at (take-append (prefix k) rest)

drop_prefix : (k rest : Bytes) → drop 4 (prefix k ++ rest) ≡ rest
drop_prefix k rest = rw (length-to_le_bytes 4 (length k)) at (drop-append (prefix k) rest)

locate-next :
    (fuel offset : ℕ) (k rest : Bytes)
    → length k < 2 ^ 31
    → (found : List Spot) → locate fuel (offset + 4 + length k) rest ≡ some found
    → locate (suc fuel) offset ((prefix k ++ k) ++ rest)
      ≡ some (record { k_off = offset + 4; k_len = length k } ∷ found)
locate-next fuel offset k rest h found e = rw (append_assoc (prefix k) k rest) (
    locate_round fuel offset (prefix k ++ (k ++ rest)) (length k) rest found
      (omega (arith, length-append (prefix k) (k ++ rest), length-to_le_bytes 4 (length k)))
      (rw (take_prefix k (k ++ rest)) (from_le_bytes-to_le_bytes 4 (length k) (omega arith))) h
      (rw (drop_prefix k (k ++ rest)) (drop-append k rest)) e)

pub locate-framed :
    (fuel offset : ℕ) (es : List Pair)
    → All IsShort es
    → length es ≤ fuel
    → locate fuel offset (framed es) ≡ some (spots offset es)
unfolding framed spots
locate-framed fuel offset [] h l = unfold locate in refl
locate-framed zero offset (e ∷ es) h l = absurd (omega arith)
locate-framed (suc fuel) offset ((k, v) ∷ es) (s, h) l =
    locate-next fuel offset k (framed es) (omega arith) _ (locate-framed fuel _ es h (omega arith))

pub length-framed :
    (es : List Pair) → All IsShort es → length (framed es) ≤ length es * (2 ^ 22 + 4)
unfolding framed
length-framed [] h = omega arith
length-framed ((k, v) ∷ es) (s, h) = omega (
  arith,
  length-append (to_le_bytes 4 (length k) ++ k) (framed es),
  length-append (to_le_bytes 4 (length k)) k,
  length-to_le_bytes 4 (length k),
  length-framed es h,
)

pub length-framed_fuel : (es : List Pair) → length es ≤ length (framed es)
unfolding framed
length-framed_fuel [] = omega arith
length-framed_fuel ((k, v) ∷ es) = omega (
  arith,
  length-append (to_le_bytes 4 (length k) ++ k) (framed es),
  length-append (to_le_bytes 4 (length k)) k,
  length-to_le_bytes 4 (length k),
  length-framed_fuel es,
)

-- What `Key` reads at a spot.
pub record Reads (buf : Bytes) (s : Spot) (k : Bytes) : Type 0 where
  pub within : s.k_off + s.k_len ≤ length buf
  pub bytes : take s.k_len (drop s.k_off buf) ≡ k

middle-Reads :
    (a k c buf : Bytes) (o : ℕ)
    → buf ≡ a ++ (k ++ c)
    → o ≡ length a
    → Reads buf (record { k_off = o; k_len = length k }) k
middle-Reads a k c buf o e h =
    rw (e, h)
      (record {
        within = omega (arith, length-append a (k ++ c), length-append k c);
        bytes = rw (drop-append a (k ++ c)) (take-append k c);
      })

length_entry : (front k : Bytes) → length (front ++ (prefix k ++ k)) ≡ length front + 4 + length k
length_entry front k = omega (
  arith,
  length-append front (prefix k ++ k),
  length-append (prefix k) k,
  length-to_le_bytes 4 (length k),
)

-- The key at index `i`.
pub spots-Reads :
    (front : Bytes) (es : List Pair) (i : ℕ) (e : Pair)
    → get_elem? es i ≡ some e
    → (s : Spot) × (get_elem? (spots (length front) es) i ≡ some s)
      × Reads (front ++ framed es) s e.0
unfolding framed spots
spots-Reads front [] i e h = absurd cc
spots-Reads front ((k, v) ∷ es) zero e h =
    let same : k ≡ e.0 = ap (λ o. elim o [ none ↦ [] | some x ↦ x.0 ]) h in
    (
      record { k_off = length front + 4; k_len = length k },
      refl,
      subst
          (Reads (front ++ ((prefix k ++ k) ++ framed es))
            (record { k_off = length front + 4; k_len = length k }))
          same
          (middle-Reads (front ++ prefix k) k (framed es) _ _
            (ap (λ z. front ++ z) (append_assoc (prefix k) k (framed es))
              ∙ sym (append_assoc front (prefix k) (k ++ framed es)))
            (omega (arith, length-append front (prefix k), length-to_le_bytes 4 (length k)))),
    )
spots-Reads front ((k, v) ∷ es) (suc i) e h =
    let (s, at, reads) = spots-Reads (front ++ (prefix k ++ k)) es i e h in
    (
      s,
      ap (λ o. get_elem? (spots o es) i) (sym (length_entry front k)) ∙ at,
      subst (λ buf. Reads buf s e.0) (append_assoc front (prefix k ++ k) (framed es)) reads,
    )
