-- ===== src/Iter/Batches/Failing.antt =====
-- Walks on which a read fails, by `regolith_iter_next_batch` against by `regolith_iter_next`.
use go_regolith.Base.{
  ℕ, zero, suc, ◌+◌, ◌^◌, ◌≤◌, ◌<◌, ◌≡◌, ◌⊎◌, refl, sym, ap, ◌∙◌, inl, inr, Bool-cases, Option,
  none, some, true, false, List, [], ◌∷◌, ◌++◌, leb, ◌==◌, if◌then◌else◌, length, All, arith,
}
use go_regolith.Base.Le.{to_le_bytes}
use go_regolith.Failure.{Bytes, Failure, Result, ok, err}
use go_regolith.Iter.Machine.{
  Scans, TxnInner, RegolithIter, Source, snapshot, scan, current_key, current_value,
  current_value_slice, source_value, in_range, advance_in_batch, max_batch_value_bytes,
}
use go_regolith.Iter.Calls.{next_step, fill}
use go_regolith.Iter.Batches.Moves.{move, standing, next_step-move, advance-move}
use go_regolith.Iter.Batches.Fill.{
  fill-key, fill-full, fill-value, append_nil, append_assoc, framed_next,
}

-- A key, and the value if there is one.
abbrev pub Visit : Type 0
Visit = Bytes × Option Bytes

unfoldable pub keys_framed : List Visit → Bytes
keys_framed [] = []
keys_framed ((k, v) ∷ es) = (to_le_bytes 4 (length k) ++ k) ++ keys_framed es

abbrev as_list : Option Bytes → List Bytes
as_list none = []
as_list (some v) = v ∷ []

-- The values that are there.
unfoldable pub present : List Visit → List Bytes
present [] = []
present ((k, v) ∷ es) = as_list v ++ present es

-- A key's length fits the four bytes of its frame.
abbrev pub Short : List Visit → Type 0
Short es = All (λ e. length e.0 < 2 ^ 32) es

module _ (scans : Scans) (cells : ℕ → TxnInner scans.Txn) where
  abbrev Iter : Type 0
  Iter = RegolithIter scans

  -- `next` gives the entries one by one, and then fails.
  unfoldable pub FailsAfter : List Visit → Failure → Iter → Type 0
  FailsAfter [] f it = (next_step scans cells it).0 ≡ err f
  FailsAfter ((k, v) ∷ es) f it =
      let q = next_step scans cells it in
      (q.0 ≡ ok true)
      × (current_key scans q.1 ≡ some k)
      × (current_value scans q.1 ≡ v)
      × FailsAfter es f q.1

  abbrev now : Iter → Iter
  now it = standing scans cells (move scans cells it).1 it

  moves_on :
      (k : Bytes) (v : Option Bytes) (es : List Visit) (f : Failure) (it : Iter)
      → FailsAfter ((k, v) ∷ es) f it
      → ((move scans cells it).0 ≡ ok true)
        × (current_key scans (now it) ≡ some k)
        × (current_value scans (now it) ≡ v)
        × FailsAfter es f (now it)
  unfolding FailsAfter
  moves_on k v es f it h = rw (next_step-move scans cells it) at h

  fails : (f : Failure) (it : Iter) → FailsAfter [] f it → (move scans cells it).0 ≡ err f
  unfolding FailsAfter
  fails f it h = rw (next_step-move scans cells it) at h

  -- An iterator in a batch.
  abbrev pub pinning : List Bytes → ℕ → Iter → Iter
  pinning values count it = record it {
    batch_values = values;
    batch_count = count;
    pending = none;
    include_current = false;
  }

  abbrev pub held : Failure → Iter → Iter
  held f it = record it { pending = some f }

  abbrev pub stop_failed : Failure → Bytes → ℕ → List Bytes → ℕ → Iter → Result (Bytes × ℕ) × Iter
  stop_failed f frame count values c it =
      if count == 0
      then (err f, pinning values c it)
      else (ok (frame, count), held f (pinning values c it))

  abbrev stop_full : Bytes → ℕ → List Bytes → ℕ → Iter → Result (Bytes × ℕ) × Iter
  stop_full frame count values c it = (ok (frame, count), pinning values c it)

  -- How a batch of `n` at most ends that goes into `es`: at the failure, or with some of them, at least one
  -- if it may.
  abbrev Stops :
      List Visit → Failure → ℕ → Bytes → ℕ → List Bytes → ℕ → Result (Bytes × ℕ) × Iter → Type 0
  Stops es f n frame count values c r =
      ((it : Iter) × (length es < n)
        × (r
            ≡ stop_failed f (frame ++ keys_framed es) (count + length es) (values ++ present es) c
                it))
      ⊎ ((given : List Visit) × (left : List Visit) × (it : Iter) × (given ++ left ≡ es)
          × (1 ≤ n → 1 ≤ length given)
          × (length given ≤ n)
          × FailsAfter left f it
          × (r
              ≡ stop_full (frame ++ keys_framed given) (count + length given)
                  (values ++ present given) c it))

  same_stop :
      {frame frame' : Bytes} {count count' : ℕ} {values values' : List Bytes}
      → frame ≡ frame'
      → count ≡ count'
      → values ≡ values'
      → (stop : Bytes → ℕ → List Bytes → Result (Bytes × ℕ) × Iter)
      → stop frame count values ≡ stop frame' count' values'
  same_stop e e' e'' stop = rw (e, e', e'') refl

  extended :
      (k : Bytes) (v : Option Bytes) (es : List Visit) (f : Failure) (n m : ℕ) (frame : Bytes)
      (count : ℕ) (values : List Bytes) (c : ℕ) (r : Result (Bytes × ℕ) × Iter)
      → n < m
      → Stops es f n
          ((frame ++ to_le_bytes 4 (length k)) ++ k)
          (count + 1)
          (values ++ as_list v)
          c
          r
      → Stops ((k, v) ∷ es) f m frame count values c r
  unfolding keys_framed present
  extended k v es f n m frame count values c r up (inl (it, l, e)) = inl (
    it,
    omega arith,
    e
        ∙ same_stop (framed_next frame k _) (omega arith) (append_assoc values (as_list v) _)
            (λ a b d. stop_failed f a b d c it),
  )
  extended k v es f n m frame count values c r up (inr (given, left, it, split, _, l, h, e)) = inr (
    (k, v) ∷ given,
    left,
    it,
    ap (λ t. (k, v) ∷ t) split,
    (λ _. omega arith),
    omega arith,
    h,
    e
        ∙ same_stop (framed_next frame k _) (omega arith) (append_assoc values (as_list v) _)
            (λ a b d. stop_full a b d c it),
  )

  fill-failed :
      (f : Failure) (n : ℕ) (frame : Bytes) (count retained : ℕ) (it it' : Iter)
      → advance_in_batch scans cells it ≡ (err f, it')
      → fill scans cells (suc n) frame count retained it
        ≡ (if count == 0 then (err f, it') else (ok (frame, count), held f it'))
  unfolding fill
  fill-failed f n frame count retained it it' a = rw (fill, ap (λ q. q.0) a, ap (λ q. q.1) a) refl

  module _ (slices : (c : scans.Cursor) → scans.value_slice c ≡ scans.value c) where
    source_slices :
        (s : Source scans)
        → source_value scans scans.value_slice s ≡ source_value scans scans.value s
    unfolding source_value
    source_slices (snapshot c) = slices c
    source_slices (scan id stream none) = refl
    source_slices (scan id stream (some e)) = refl

    slice-value : (it : Iter) → current_value_slice scans it ≡ current_value scans it
    unfolding current_value_slice current_value
    slice-value it = rw (source_slices it.source) refl

    fill-zero :
        (frame : Bytes) (count retained : ℕ) (it : Iter)
        → fill scans cells zero frame count retained it ≡ (ok (frame, count), it)
    unfolding fill
    fill-zero frame count retained it = refl

    -- From an entry that is framed, to the next.
    module _ (k : Bytes) (v : Option Bytes) (es : List Visit) (f : Failure) (n : ℕ) (frame : Bytes)
        (count retained : ℕ) (values : List Bytes) (c : ℕ) (it : Iter)
        (h : FailsAfter ((k, v) ∷ es) f it) (short : length k < 2 ^ 32) where
      abbrev here : Iter
      here = pinning values c it

      abbrev after : Iter
      after = pinning values c (now it)

      abbrev frame' : Bytes
      frame' = (frame ++ to_le_bytes 4 (length k)) ++ k

      advanced : advance_in_batch scans cells here ≡ (ok true, after)
      advanced = advance-move scans cells here ∙ ap (λ r. (r, after)) (moves_on k v es f it h).0

      is_key : current_key scans (advance_in_batch scans cells here).1 ≡ some k
      unfolding current_key in_range
      is_key = ap (λ q. current_key scans q.1) advanced ∙ (moves_on k v es f it h).1

      is_value : current_value_slice scans (advance_in_batch scans cells here).1 ≡ v
      unfolding current_value in_range
      is_value =
          ap (λ q. current_value_slice scans q.1) advanced
          ∙ slice-value after
          ∙ (moves_on k v es f it h).2

      onward :
          (x : Bytes)
          → v ≡ some x
          → (fill scans cells (suc n) frame count retained here
              ≡ stop_full frame' (count + 1) (values ++ (x ∷ [])) c (now it))
            ⊎ (fill scans cells (suc n) frame count retained here
                ≡ fill scans cells n frame'
                    (count + 1)
                    (retained + length x)
                    (pinning (values ++ (x ∷ [])) c (now it)))
      onward x e =
          let pin : Iter → Iter = λ y. record y { batch_values = y.batch_values ++ (x ∷ []) } in
          elim (Bool-cases (leb max_batch_value_bytes (retained + length x))) [
            | inl full ↦ inl (
                fill-full scans cells n frame count retained here k (ap (λ q. q.0) advanced) is_key
                  short x (is_value ∙ e) full
                ∙ ap (λ q. (ok (frame', count + 1), pin q.1)) advanced)
            | inr more ↦ inr (
                fill-value scans cells n frame count retained here k (ap (λ q. q.0) advanced) is_key
                  short x (is_value ∙ e) more
                ∙ ap (λ q. fill scans cells n frame' (count + 1) (retained + length x) (pin q.1))
                    advanced)
          ]

      onward_key :
          v ≡ none
          → fill scans cells (suc n) frame count retained here
            ≡ fill scans cells n frame' (count + 1) retained after
      onward_key e =
          fill-key scans cells n frame count retained here k (ap (λ q. q.0) advanced) is_key short
            (is_value ∙ e)
          ∙ ap (λ q. fill scans cells n frame' (count + 1) retained q.1) advanced

    pub fill-stops :
        (es : List Visit) (f : Failure) (n : ℕ) (frame : Bytes) (count retained : ℕ)
        (values : List Bytes) (c : ℕ) (it : Iter)
        → FailsAfter es f it
        → Short es
        → Stops es f n frame count values c
            (fill scans cells n frame count retained (pinning values c it))
    unfolding keys_framed present
    fill-stops es f zero frame count retained values c it h s = inr (
      [],
      es,
      it,
      refl,
      (λ z. z),
      omega arith,
      h,
      fill-zero frame count retained (pinning values c it)
          ∙ same_stop (sym (append_nil frame)) (omega arith) (sym (append_nil values))
              (λ a b d. stop_full a b d c it),
    )
    fill-stops [] f (suc n) frame count retained values c it h s = inl (
      now it,
      omega arith,
      fill-failed f n frame count retained (pinning values c it) (pinning values c (now it)) (
            advance-move scans cells (pinning values c it)
            ∙ ap (λ r. (r, pinning values c (now it))) (fails f it h))
          ∙ same_stop (sym (append_nil frame)) (omega arith) (sym (append_nil values))
              (λ a b d. stop_failed f a b d c (now it)),
    )
    fill-stops ((k, none) ∷ es) f (suc n) frame count retained values c it h (short, s) =
        let h' = (moves_on k none es f it h).3 in
        let r = fill-stops es f n _ (count + 1) retained (values ++ []) c (now it) h' s in
        let e =
          onward_key k none es f n frame count retained values c it h short refl
          ∙ ap (λ z. fill scans cells n _ (count + 1) retained (pinning z c (now it)))
              (sym (append_nil values)) in
        rw e (extended k none es f n (suc n) frame count values c _ (omega arith) r)
    fill-stops ((k, some x) ∷ es) f (suc n) frame count retained values c it h (short, s) =
        let h' = (moves_on k (some x) es f it h).3 in
        let frame' = (frame ++ to_le_bytes 4 (length k)) ++ k in
        let r =
          fill-stops es f n frame' (count + 1) (retained + length x) (values ++ (x ∷ [])) c (now it)
            h' s in
        elim (onward k (some x) es f n frame count retained values c it h short x refl) [
          | inl e ↦ extended k (some x) es f zero (suc n) frame count values c _ (omega arith) (
              inr (
                [],
                es,
                now it,
                refl,
                (λ z. z),
                omega arith,
                h',
                e
                    ∙ same_stop (sym (append_nil frame')) (omega arith)
                        (sym (append_nil (values ++ (x ∷ []))))
                        (λ a b d. stop_full a b d c (now it)),
              ))
          | inr e ↦ rw e (extended k (some x) es f n (suc n) frame count values c _ (omega arith) r)
        ]
