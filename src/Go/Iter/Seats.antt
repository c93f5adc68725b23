-- ===== src/Go/Iter/Seats.antt =====
-- An iterator of iter.go on an entry of its batch, whatever is behind it, and one call of `Next`, `Key` and
-- `Value` from there.
use go_regolith.Base.{
  ℕ, zero, suc, ◌+◌, ◌^◌, ◌<◌, ◌≤◌, ◌≡◌, refl, sym, ap, ◌∙◌, inl, inr, Bool-cases, Option, none,
  some, Bool, true, false, ◌||◌, List, [], ◌∷◌, ◌==◌, ltb, leb, if◌then◌else◌, length, get_elem?,
  arith,
}
use go_regolith.Failure.{Bytes, ok}
use go_regolith.Exec.{Exec}
use go_regolith.Guard.{Heap, Host, guard}
use go_regolith.Guard.Report.{IsOrdered}
use go_regolith.Iter.Machine.{Scans, TxnInner, RegolithIter}
use go_regolith.Iter.Calls.{
  Handle, on_iter, batch_value, next_batch, regolith_iter_batch_value, regolith_iter_next_batch,
}
use go_regolith.Iter.Walk.Spans.{Pair}
use go_regolith.Iter.Batches.{framed}
use go_regolith.Iter.Batches.Fill.{kept}
use go_regolith.Go.Errors.{GoError}
use go_regolith.Go.Store.{finish}
use go_regolith.Go.Finish.{finish-ok, take-length}
use go_regolith.Go.Iter.{
  GoIter, Spot, locate, go_copy, batch_entries, next, refill, refilled, key, value, copied_value,
}
use go_regolith.Go.Iter.Frame.{spots, Reads, spots-Reads}

length-spots : (o : ℕ) (es : List Pair) → length (spots o es) ≡ length es
unfolding spots
length-spots o [] = refl
length-spots o ((k, v) ∷ es) = omega (arith, length-spots (o + 4 + length k) es)

get_elem-kept :
    (es : List Pair) (i : ℕ) (e : Pair)
    → get_elem? es i ≡ some e
    → get_elem? (kept false es) i ≡ some e.1
unfolding kept
get_elem-kept [] i e h = absurd cc
get_elem-kept (x ∷ es) zero e h = ap (λ o. elim o [ none ↦ none | some y ↦ some y.1 ]) h
get_elem-kept (x ∷ es) (suc i) e h = get_elem-kept es i e h

get_elem-length :
    {A : Type 0} (es : List A) (i : ℕ) (e : A) → get_elem? es i ≡ some e → i < length es
get_elem-length [] i e h = absurd cc
get_elem-length (x ∷ es) zero e h = omega arith
get_elem-length (x ∷ es) (suc i) e h = omega (arith, get_elem-length es i e h)

module _ (scans : Scans) (cells : ℕ → TxnInner scans.Txn) where
  -- The batch after the one that it is on.
  abbrev pub next_body : Exec (Handle scans) (Bytes × ℕ)
  next_body = on_iter scans (next_batch scans cells batch_entries true)

  pub refill-refilled :
      (it : GoIter scans)
      → refill scans cells it ≡ (
          let (r, host) = finish (guard true next_body it.host) in
          refilled scans cells r (record it { ents = []; pos = 0; host = host }))
  unfolding refill regolith_iter_next_batch
  refill-refilled it = refl

  pub refilled-located :
      (it : GoIter scans) (bytes : Bytes) (n : ℕ) (found : List Spot)
      → length bytes < 2 ^ 31
      → 1 ≤ n
      → locate (length bytes) 0 bytes ≡ some found
      → refilled scans cells (some (bytes, n), none) it
        ≡ some ((true, none), record it { buf = bytes; ents = found })
  unfolding refilled go_copy
  refilled-located it bytes n found h l e =
      let fits : leb (2 ^ 31) (length bytes) ≡ false = ground arith in
      let some_entries : (n == 0) ≡ false = ground arith in
      rw (refilled, fits, some_entries, e) refl

module _ (scans : Scans) (cells : ℕ → TxnInner scans.Txn) (keys_only : Bool) where
  -- The iterator behind the handle, with the batch `t`.
  abbrev pub with_batch : RegolithIter scans → List Pair → RegolithIter scans
  with_batch it t = record it { batch_values = kept keys_only t; batch_count = length t }

  -- On the entry `i` of the batch `t`.
  abbrev pub seated : Heap Bytes → RegolithIter scans → List Pair → ℕ → GoIter scans
  seated errors it t i = record {
    keys_only = keys_only;
    buf = framed t;
    ents = spots 0 t;
    pos = i;
    done = false;
    closed = false;
    host = record { errors = errors; inner = some (with_batch it t) };
  }

  pub next_within :
      (errors : Heap Bytes) (it : RegolithIter scans) (t : List Pair) (i : ℕ)
      → suc i < length t
      → next scans cells false (seated errors it t i)
        ≡ some ((true, none), seated errors it t (suc i))
  unfolding next
  next_within errors it t i h =
      let more : ltb (i + 1) (length (spots 0 t)) ≡ true = ground (arith, length-spots 0 t) in
      rw more (ap (λ j. some ((true, none), seated errors it t j)) (omega arith))

  pub key-seated :
      (errors : Heap Bytes) (it : RegolithIter scans) (t : List Pair) (i : ℕ) (e : Pair)
      → get_elem? t i ≡ some e
      → key scans (seated errors it t i) ≡ some e.0
  unfolding key
  key-seated errors it t i e h =
      let found : (s : Spot) × (get_elem? (spots 0 t) i ≡ some s) × Reads (framed t) s e.0 =
        spots-Reads [] t i e h in
      let (s, at, reads) = found in
      let fits : ltb (length (framed t)) (s.k_off + s.k_len) ≡ false =
        ground (arith, reads.within) in
      rw (key, at, fits, reads.bytes) refl

  abbrev read_as : Pair → Bytes
  read_as e = if keys_only then [] else e.1

  value_call :
      (it : RegolithIter scans) (t : List Pair) (i : ℕ) (e : Pair)
      → keys_only ≡ false
      → get_elem? t i ≡ some e
      → batch_value scans i (with_batch it t) ≡ ok (some e.1, length e.1)
  unfolding batch_value
  value_call it t i e o h =
      let short : leb (length t) i ≡ false = ground (arith, get_elem-length t i e h) in
      rw (short, o, get_elem-kept t i e h) refl

  abbrev value_body : ℕ → Exec (Handle scans) (Option Bytes × ℕ)
  value_body i = on_iter scans (λ it. (batch_value scans i it, it))

  value_body-with_batch :
      (it : RegolithIter scans) (t : List Pair) (i : ℕ) (e : Pair)
      → keys_only ≡ false
      → get_elem? t i ≡ some e
      → value_body i (some (with_batch it t)) ≡ (ok (some e.1, length e.1), some (with_batch it t))
  unfolding on_iter
  value_body-with_batch it t i e o h =
      ap (λ r. (r, some (with_batch it t))) (value_call it t i e o h)

  -- What `Value` makes of its call.
  abbrev valued :
      GoIter scans
      → (Option (Option Bytes × ℕ) × Option GoError) × Host (Handle scans)
      → (Bytes × Option GoError) × GoIter scans
  valued it ((out, e), host) =
      ((elim e [ none ↦ copied_value scans out | some failure ↦ [] ], e), record it { host = host })

  value-none :
      (it : GoIter scans)
      → (it.keys_only || leb (length it.ents) it.pos) ≡ true
      → value scans it ≡ (([], none), it)
  unfolding value
  value-none it h = rw h

  value-valued :
      (it : GoIter scans)
      → (it.keys_only || leb (length it.ents) it.pos) ≡ false
      → value scans it ≡ valued it (finish (guard true (value_body it.pos) it.host))
  unfolding value regolith_iter_batch_value
  value-valued it h = rw h refl

  has_value :
      (t : List Pair) (i : ℕ)
      → keys_only ≡ false
      → i < length t
      → (keys_only || leb (length (spots 0 t)) i) ≡ false
  has_value t i o h = rw o (ground (arith, length-spots 0 t))

  copied_whole : (v : Bytes) → copied_value scans (some (some v, length v)) ≡ v
  copied_whole [] = refl
  copied_whole (y ∷ v) = ground (arith, take-length (y ∷ v))

  pub value-seated :
      (errors : Heap Bytes) (it : RegolithIter scans) (t : List Pair) (i : ℕ) (e : Pair)
      → IsOrdered errors
      → get_elem? t i ≡ some e
      → (errors' : Heap Bytes) × (value scans (seated errors it t i)
          ≡ ((read_as e, none), seated errors' it t i))
        × IsOrdered errors'
  value-seated errors it t i e ordered h = elim (Bool-cases (keys_only)) [
    | inl y ↦ (
      errors,
      value-none (seated errors it t i) (rw y refl)
          ∙ ap (λ k. ((if k then [] else e.1, none), seated errors it t i)) (sym y),
      ordered,
    )
    | inr n ↦
        let (errors', q, same, ordered') =
          finish-ok (value_body i) (seated errors it t i).host (some e.1, length e.1)
            (some (with_batch it t)) ordered (value_body-with_batch it t i e n h) in
        (
          errors',
          value-valued (seated errors it t i) (has_value t i n (get_elem-length t i e h))
              ∙ ap (valued (seated errors it t i)) q
              ∙ ap (λ v. ((v, none), seated errors' it t i))
                  (copied_whole e.1 ∙ ap (λ k. if k then [] else e.1) (sym n)),
          ordered',
        )
  ]

  pub next-refill :
      (errors : Heap Bytes) (it : RegolithIter scans) (t : List Pair) (i : ℕ)
      → length t ≤ suc i
      → next scans cells false (seated errors it t i) ≡ refill scans cells (seated errors it t i)
  unfolding next
  next-refill errors it t i h =
      let no_more : ltb (i + 1) (length (spots 0 t)) ≡ false = ground (arith, length-spots 0 t) in
      rw no_more refl
