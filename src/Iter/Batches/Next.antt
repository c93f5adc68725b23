-- ===== src/Iter/Batches/Next.antt =====
-- One call of `regolith_iter_next_batch`, on an iterator over a snapshot.
use go_regolith.Base.{
  ℕ, zero, suc, ◌+◌, ◌^◌, ◌≤◌, ◌<◌, ◌≡◌, refl, sym, ap, ◌∙◌, inl, inr, Bool-cases, none, Bool, true,
  false, not, List, [], ◌∷◌, ◌++◌, leb, if◌then◌else◌, length, drop, ◌&&◌, All, arith, ◌==◌,
}
use go_regolith.Failure.{Bytes, Result, ok}
use go_regolith.Iter.Bounds.{Bounds}
use go_regolith.Iter.Machine.{Scans, TxnInner, RegolithIter, max_batch_value_bytes}
use go_regolith.Iter.Calls.{fill, next_batch}
use go_regolith.Iter.Walk.Ways.{WalksBothWays}
use go_regolith.Iter.Walk.Spans.{Pair}
use go_regolith.Iter.Batches
use go_regolith.Iter.Batches.{framed}
use go_regolith.Iter.Batches.Fill.{taken, kept, fill-placed}

-- The bytes of values together.
unfoldable pub pinned : List Bytes → ℕ
pinned [] = 0
pinned (v ∷ vs) = length v + pinned vs

pub taken-append-drop :
    (k : Bool) (n r : ℕ) (l : List Pair) → taken k n r l ++ drop (length (taken k n r l)) l ≡ l
unfolding taken
taken-append-drop k zero r l = refl
taken-append-drop k (suc n) r [] = refl
taken-append-drop k (suc n) r (e ∷ es) =
    elim (Bool-cases (not k && leb max_batch_value_bytes (if k then r else r + length e.1))) [
      | inl full ↦ rw full
      | inr more ↦
          rw more (ap (λ t. e ∷ t) (taken-append-drop k n (if k then r else r + length e.1) es))
    ]

pub length-taken : (k : Bool) (n r : ℕ) (l : List Pair) → length (taken k n r l) ≤ n
unfolding taken
length-taken k zero r l = omega arith
length-taken k (suc n) r [] = omega arith
length-taken k (suc n) r (e ∷ es) =
    elim (Bool-cases (not k && leb max_batch_value_bytes (if k then r else r + length e.1))) [
      | inl full ↦ rw full (omega arith)
      | inr more ↦ rw more (omega (arith, length-taken k n (if k then r else r + length e.1) es))
    ]

not_longer : {x y : Pair} (front : List Pair) (e : Pair) → x ∷ [] ≡ y ∷ (front ++ (e ∷ [])) → ⊥
not_longer [] e h = cc
not_longer (x ∷ front) e h = cc

cons_tail {ℓ} : {A : Type ℓ} {x y : A} {xs ys : List A} → x ∷ xs ≡ y ∷ ys → xs ≡ ys
cons_tail h = cc

-- Before the last entry of a batch the cap is not reached.
pub pinned-taken :
    (k : Bool) (n r : ℕ) (l front : List Pair) (e : Pair)
    → r < max_batch_value_bytes
    → taken k n r l ≡ front ++ (e ∷ [])
    → r + pinned (kept k front) < max_batch_value_bytes
unfolding taken kept pinned
pinned-taken k n r l [] e h t = omega arith
pinned-taken k zero r l (x ∷ front) e h t = absurd cc
pinned-taken k (suc n) r [] (x ∷ front) e h t = absurd cc
pinned-taken true (suc n) r (y ∷ l) (x ∷ front) e h t =
    pinned-taken true n r l front e h (cons_tail t)
pinned-taken false (suc n) r (y ∷ l) (x ∷ front) e h t =
    elim (Bool-cases (leb max_batch_value_bytes (r + length y.1))) [
      | inl full ↦ absurd (not_longer front e (rw full at t))
      | inr more ↦
          let t' : y ∷ taken false n (r + length y.1) l ≡ x ∷ (front ++ (e ∷ [])) = rw more at t in
          let same : y ≡ x = cc in
          let within : r + length y.1 < max_batch_value_bytes = ground arith in
          let others = pinned-taken false n (r + length y.1) l front e within (cons_tail t') in
          rw (sym same) (omega (arith, others))
    ]

module _ (scans : Scans) (cells : ℕ → TxnInner scans.Txn) (entries : List Pair)
    (laws : WalksBothWays scans entries)
    (slices : (c : scans.Cursor) → scans.value_slice c ≡ scans.value c) (b : Bounds) where
  abbrev Place : Type 0
  Place = Batches.Place scans cells entries laws slices b

  abbrev placed : Place → RegolithIter scans → RegolithIter scans
  placed = Batches.placed scans cells entries laws slices b

  abbrev rest : Place → List Pair
  rest = Batches.rest scans cells entries laws slices b

  abbrev batch : ℕ → List Pair → List Pair
  batch n l = taken b.keys_only n 0 l

  -- What is left after the previous batch.
  abbrev emptied : RegolithIter scans → RegolithIter scans
  emptied x = record x { batch_values = []; batch_count = 0; pending = none }

  next_batch-fill :
      (n : ℕ) (p p' : Place) (x : RegolithIter scans) (frame : Bytes) (count : ℕ)
      (values : List Bytes)
      → 1 ≤ n
      → fill scans cells n [] 0 0 (placed p (emptied x))
        ≡ (ok (frame, count), placed p' (record (emptied x) { batch_values = values }))
      → next_batch scans cells n true (placed p (record x { pending = none })) ≡ (
        ok (frame, count),
        placed p' (record x { batch_values = values; batch_count = count; pending = none }),
      )
  unfolding next_batch
  next_batch-fill n p p' x frame count values positive e =
      let some_rounds : (n == 0) ≡ false = ground arith in rw (some_rounds, e)

  pub next_batch-placed :
      (n : ℕ) (p : Place) (x : RegolithIter scans)
      → 1 ≤ n
      → All (λ e. length e.0 < 2 ^ 32) (rest p)
      → (p' : Place) × (next_batch scans cells n true (placed p (record x { pending = none })) ≡ (
        ok (framed (batch n (rest p)), length (batch n (rest p))),
        placed p' (record x {
          batch_values = kept b.keys_only (batch n (rest p));
          batch_count = length (batch n (rest p));
          pending = none;
        }),
      ))
        × (rest p' ≡ drop (length (batch n (rest p))) (rest p))
  next_batch-placed n p x positive s =
      let t = batch n (rest p) in
      let z : 0 + length t ≡ length t = omega arith in
      let (p', filled, left) =
        fill-placed scans cells entries laws slices b b.keys_only n [] 0 0 p (emptied x) (rest p)
          refl refl s in
      (
        p',
        next_batch-fill n p p' x _ _ _ positive (
            filled
            ∙ ap
                (λ count. (
                  ok (framed t, count),
                  placed p' (record (emptied x) { batch_values = kept b.keys_only t }),
                ))
                z),
        left,
      )

  -- What one batch hands out of `l`: its first entries, none only if there are none, `n` at most, of which
  -- those before the last pin less than the cap. The iterator keeps their values, and goes on after them.
  pub record IsBatch (n : ℕ) (l : List Pair) (r : Result (Bytes × ℕ) × RegolithIter scans)
      : Type 0 where
    pub given : List Pair
    pub left : List Pair
    pub is_split : given ++ left ≡ l
    pub result : r.0 ≡ ok (framed given, length given)
    pub at_most : length given ≤ n
    pub none_only_at_the_end : given ≡ [] → l ≡ []
    pub few_bytes :
        (front : List Pair) (e : Pair)
        → given ≡ front ++ (e ∷ [])
        → pinned (kept b.keys_only front) < max_batch_value_bytes
    pub values : r.1.batch_values ≡ kept b.keys_only given
    pub count : r.1.batch_count ≡ length given
    pub next_place : Place
    pub stands : r.1 ≡ placed next_place r.1
    pub goes_on : rest next_place ≡ left

  taken-empty : (k : Bool) (n r : ℕ) (l : List Pair) → 1 ≤ n → taken k n r l ≡ [] → l ≡ []
  unfolding taken
  taken-empty k zero r l h e = absurd (omega arith)
  taken-empty k (suc n) r [] h e = refl
  taken-empty k (suc n) r (x ∷ l) h e = absurd cc

  placed_fields :
      (p : Place) (x : RegolithIter scans)
      → ((placed p x).batch_values ≡ x.batch_values)
        × ((placed p x).batch_count ≡ x.batch_count)
        × (placed p x ≡ placed p (placed p x))
  placed_fields p x = (refl, refl, refl)

  taken-IsBatch :
      (n : ℕ) (p : Place) (x : RegolithIter scans) (l : List Pair)
      → 1 ≤ n
      → rest p ≡ drop (length (batch n l)) l
      → x.batch_values ≡ kept b.keys_only (batch n l)
      → x.batch_count ≡ length (batch n l)
      → IsBatch n l (ok (framed (batch n l), length (batch n l)), placed p x)
  taken-IsBatch n p x l positive e values count =
      let (same_values, same_count, again) = placed_fields p x in
      record {
        given = batch n l;
        left = drop (length (batch n l)) l;
        is_split = taken-append-drop b.keys_only n 0 l;
        result = refl;
        at_most = length-taken b.keys_only n 0 l;
        none_only_at_the_end = taken-empty b.keys_only n 0 l positive;
        few_bytes =
            λ front e t. omega (arith, pinned-taken b.keys_only n 0 l front e (omega arith) t);
        values = same_values ∙ values;
        count = same_count ∙ count;
        next_place = p;
        stands = again;
        goes_on = e;
      }

  -- An iterator over a snapshot, forward or in reverse, that holds no failure back, before its walk, on an
  -- entry or where a seek left it, gives with `regolith_iter_next_batch` a batch of what is left of its
  -- walk, if `max_entries` is not 0, the keys are shorter than 4 GiB and the cursor behaves as
  -- `WalksBothWays` says, its slices being its values.
  pub next_batch-IsBatch :
      (n : ℕ) (p : Place) (x : RegolithIter scans)
      → 1 ≤ n
      → All (λ e. length e.0 < 2 ^ 32) (rest p)
      → IsBatch n (rest p) (next_batch scans cells n true (placed p (record x { pending = none })))
  next_batch-IsBatch n p x positive s =
      let (p', q, left) = next_batch-placed n p x positive s in
      let x' = record x {
        batch_values = kept b.keys_only (batch n (rest p));
        batch_count = length (batch n (rest p));
        pending = none;
      } in
      rw q (taken-IsBatch n p' x' (rest p) positive left refl refl)
