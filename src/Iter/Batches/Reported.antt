-- ===== src/Iter/Batches/Reported.antt =====
-- A whole walk by batches on which a read fails.
use go_regolith.Base.{
  ℕ, zero, suc, ◌+◌, ◌≤◌, ◌<◌, ◌≡◌, refl, sym, ap, ◌∙◌, inl, inr, Option, none, some, true, false,
  List, [], ◌∷◌, ◌++◌, ◌==◌, if◌then◌else◌, length, length-append, arith,
}
use mathlib.Core.Path.{subst}
use go_regolith.Failure.{Bytes, Failure, ok, err, panic}
use go_regolith.Iter.Machine.{Scans, TxnInner, RegolithIter}
use go_regolith.Iter.Calls.{fill, next_batch}
use go_regolith.Iter.Batches.Failing.{
  Visit, Short, keys_framed, present, FailsAfter, pinning, held, stop_failed, fill-stops,
}
use go_regolith.Iter.Batches.Fill.{append_nil, append_assoc}

keys_framed-append :
    (xs ys : List Visit) → keys_framed (xs ++ ys) ≡ keys_framed xs ++ keys_framed ys
unfolding keys_framed
keys_framed-append [] ys = refl
keys_framed-append ((k, v) ∷ xs) ys =
    rw (keys_framed-append xs ys) (sym (append_assoc _ (keys_framed xs) (keys_framed ys)))

present-append : (xs ys : List Visit) → present (xs ++ ys) ≡ present xs ++ present ys
unfolding present
present-append [] ys = refl
present-append ((k, v) ∷ xs) ys =
    rw (present-append xs ys) (sym (append_assoc _ (present xs) (present ys)))

Short-back : (xs ys : List Visit) → Short (xs ++ ys) → Short ys
Short-back [] ys s = s
Short-back (x ∷ xs) ys (_, s) = Short-back xs ys s

module _ (scans : Scans) (cells : ℕ → TxnInner scans.Txn) where
  abbrev Iter : Type 0
  Iter = RegolithIter scans

  abbrev pub Gathered : Type 0
  Gathered = (Bytes × List Bytes × Option Failure) × Iter

  abbrev pub joined : Bytes → List Bytes → Gathered → Gathered
  joined frame values ((frames, more, failure), last) =
      ((frame ++ frames, values ++ more, failure), last)

  -- What a caller gathers that asks for batches of `max` until one is empty or fails, `rounds` times at
  -- most: the frames, the values, the failure, and the iterator that is left.
  unfoldable pub batches : ℕ → ℕ → Iter → Gathered
  unfolding next_batch
  batches max zero it = (([], [], none), it)
  batches max (suc rounds) it =
      let (r, it') = next_batch scans cells max true it in
      elim r [
        | err f ↦ (([], [], some f), it')
        | panic p ↦ (([], [], none), it')
        | ok (frame, count) ↦
            let more = batches max rounds it' in
            if count == 0 then (([], [], none), it') else joined frame it'.batch_values more
      ]

  module _ (max : ℕ) (positive : 1 ≤ max) (values : List Bytes) (c : ℕ) (it : Iter) where
    abbrev here : Iter
    here = pinning scans cells values c it

    abbrev emptied : Iter
    emptied = pinning scans cells [] 0 it

    pub next_batch-ok :
        (frame : Bytes) (n : ℕ) (it' : Iter)
        → fill scans cells max [] 0 0 emptied ≡ (ok (frame, n), it')
        → next_batch scans cells max true here ≡ (ok (frame, n), record it' { batch_count = n })
    unfolding next_batch
    next_batch-ok frame n it' e =
        let some_rounds : (max == 0) ≡ false = ground arith in rw (some_rounds, e)

    pub next_batch-err :
        (f : Failure) (it' : Iter)
        → fill scans cells max [] 0 0 emptied ≡ (err f, it')
        → next_batch scans cells max true here ≡ (err f, it')
    unfolding next_batch
    next_batch-err f it' e =
        let some_rounds : (max == 0) ≡ false = ground arith in rw (some_rounds, e)

    -- The failure that was held back, and only now.
    pub next_batch-held :
        (f : Failure) → next_batch scans cells max true (held scans cells f here) ≡ (err f, emptied)
    unfolding next_batch
    next_batch-held f = let some_rounds : (max == 0) ≡ false = ground arith in rw some_rounds refl

  batches-err :
      (max rounds : ℕ) (f : Failure) (it it' : Iter)
      → next_batch scans cells max true it ≡ (err f, it')
      → batches max (suc rounds) it ≡ (([], [], some f), it')
  unfolding batches
  batches-err max rounds f it it' e = rw (batches, ap (λ q. q.0) e, ap (λ q. q.1) e) refl

  batches-ok :
      (max rounds : ℕ) (frame : Bytes) (n : ℕ) (it it' : Iter)
      → next_batch scans cells max true it ≡ (ok (frame, n), it')
      → 1 ≤ n
      → batches max (suc rounds) it ≡ joined frame it'.batch_values (batches max rounds it')
  unfolding batches
  batches-ok max rounds frame n it it' e some_entries =
      let not_empty : (n == 0) ≡ false = ground arith in
      rw (batches, ap (λ q. q.0) e, ap (λ q. q.1) e, not_empty) refl

  -- The walk gave `es` and then the failure, and the iterator holds nothing of it.
  abbrev Reports : List Visit → Failure → Gathered → Type 0
  Reports es f r =
      (last : Iter) × (r ≡ ((keys_framed es, present es, some f), last))
      × (last.pending ≡ none)
      × (last.batch_values ≡ [])

  -- A batch that holds the failure back, and the call that reports it.
  reported_next :
      (max rounds : ℕ) (l : List Visit) (f : Failure) (values : List Bytes) (c : ℕ) (it it' : Iter)
      → 1 ≤ max
      → 1 ≤ length l
      → length l < suc rounds
      → fill scans cells max [] 0 0 (pinning scans cells [] 0 it)
        ≡ stop_failed scans cells f (keys_framed l) (0 + length l) (present l) 0 it'
      → Reports l f (batches max (suc rounds) (pinning scans cells values c it))
  reported_next max zero l f values c it it' positive some_entries enough e = absurd (omega arith)
  reported_next max (suc rounds) l f values c it it' positive some_entries enough e =
      let not_empty : (0 + length l == 0) ≡ false = ground arith in
      let pinned = pinning scans cells (present l) (0 + length l) it' in
      let q =
        batches-ok max (suc rounds) (keys_framed l) (0 + length l) _ (held scans cells f pinned)
          (next_batch-ok max positive values c it _ _ _ (rw not_empty at e)) (omega arith) in
      let last = pinning scans cells [] 0 it' in
      let next =
        batches-err max rounds f (held scans cells f pinned) last
          (next_batch-held max positive (present l) (0 + length l) it' f) in
      (
        last,
        q
            ∙ ap (joined (keys_framed l) (present l)) next
            ∙ ap (λ z. ((z, present l ++ [], some f), last)) (append_nil (keys_framed l))
            ∙ ap (λ z. ((keys_framed l, z, some f), last)) (append_nil (present l)),
        refl,
        refl,
      )

  reported_now :
      (max : ℕ) (l : List Visit) (f : Failure) (rounds : ℕ) (values : List Bytes) (c : ℕ)
      (it it' : Iter)
      → 1 ≤ max
      → length l < suc rounds
      → fill scans cells max [] 0 0 (pinning scans cells [] 0 it)
        ≡ stop_failed scans cells f (keys_framed l) (0 + length l) (present l) 0 it'
      → Reports l f (batches max (suc rounds) (pinning scans cells values c it))
  unfolding keys_framed present
  reported_now max [] f rounds values c it it' positive enough e = (
    pinning scans cells [] 0 it',
    batches-err max rounds f _ _ (next_batch-err max positive values c it f _ e),
    refl,
    refl,
  )
  reported_now max (x ∷ es) f rounds values c it it' positive enough e =
      reported_next max rounds (x ∷ es) f values c it it' positive (omega arith) enough e

  reported_later :
      (given left : List Visit) (f : Failure) (r : Gathered)
      → Reports left f r
      → Reports (given ++ left) f (joined (keys_framed given) (present given) r)
  reported_later given left f r (last, e, no_failure, no_values) = (
    last,
    ap (joined (keys_framed given) (present given)) e
        ∙ ap (λ z. ((z, present given ++ present left, some f), last))
            (sym (keys_framed-append given left))
        ∙ ap (λ z. ((keys_framed (given ++ left), z, some f), last))
            (sym (present-append given left)),
    no_failure,
    no_values,
  )

  batches-pinning :
      (max : ℕ) (es : List Visit) (f : Failure) (rounds : ℕ) (values : List Bytes) (c : ℕ)
      (it : Iter)
      → ((d : scans.Cursor) → scans.value_slice d ≡ scans.value d)
      → 1 ≤ max
      → FailsAfter scans cells es f it
      → Short es
      → length es < rounds
      → Reports es f (batches max rounds (pinning scans cells values c it))
  batches-pinning max es f zero values c it slices positive h s enough = absurd (omega arith)
  batches-pinning max es f (suc rounds) values c it slices positive h s enough =
      elim (fill-stops scans cells slices es f max [] 0 0 [] 0 it h s) [
        | inl (it', _, e) ↦ reported_now max es f rounds values c it it' positive enough e
        | inr (given, left, it', split, progress, _, h', e) ↦
            let lengths : length left < rounds =
              omega (arith, progress positive, length-append given left, ap length split) in
            let q =
              batches-ok max rounds (keys_framed given) (0 + length given) _ _
                (next_batch-ok max positive values c it _ _ _ e)
                (omega (arith, progress positive)) in
            let r =
              batches-pinning max left f rounds (present given) (0 + length given) it' slices
                positive h' (Short-back given left (rw split s)) lengths in
            rw (sym split, q) (reported_later given left f _ r)
      ]

  -- Where `next` gives some entries and then fails, whatever the iterator stands on: a walk by batches of at
  -- least one, from where it has not just sought and holds no failure back, gives exactly the keys and the
  -- values of those entries and then the same failure, once; afterwards nothing is held or pinned.
  pub batches-FailsAfter :
      (max : ℕ) (es : List Visit) (f : Failure) (rounds : ℕ) (it : Iter)
      → ((d : scans.Cursor) → scans.value_slice d ≡ scans.value d)
      → 1 ≤ max
      → it.pending ≡ none
      → it.include_current ≡ false
      → FailsAfter scans cells es f it
      → Short es
      → length es < rounds
      → (last : Iter) × (batches max rounds it ≡ ((keys_framed es, present es, some f), last))
        × (last.pending ≡ none)
        × (last.batch_values ≡ [])
  batches-FailsAfter max es f rounds it slices positive none_held not_sought h s enough =
      let same : pinning scans cells it.batch_values it.batch_count it ≡ it =
        ap (λ z. record it { pending = z; include_current = false }) (sym none_held)
        ∙ ap (λ z. record it { include_current = z }) (sym not_sought) in
      subst (λ z. Reports es f (batches max rounds z)) same
        (batches-pinning max es f rounds it.batch_values it.batch_count it slices positive h s
          enough)
