-- ===== src/Iter/Batches.antt =====
-- What `regolith_iter_next_batch` hands out of an iterator over a snapshot.
pub mod Moves
pub mod Fill
pub mod Next
pub mod Sought
pub mod Failing
pub mod Reported
pub mod Renewed
mod Runs
use go_regolith.Base.{
  ℕ, zero, suc, ◌+◌, ◌*◌, ◌^◌, ◌⊎◌, ◌≤◌, ◌<◌, ◌≡◌, refl, sym, ap, ◌∙◌, inl, inr, Bool-cases, Option,
  none, some, Bool, true, false, not, List, [], ◌∷◌, ◌++◌, leb, if◌then◌else◌, length, All, arith,
}
use go_regolith.Base.Le.{to_le_bytes}
use go_regolith.Failure.{Bytes, ok}
use go_regolith.Iter.Bounds.{Bounds, bytes_lt, contains, from_start, below_end}
use go_regolith.Iter.Machine.{
  Scans, TxnInner, RegolithIter, snapshot, moved_to, in_range, current_key, current_value_slice,
  seek_to_start, advance_in_batch, max_batch_value_bytes, over_snapshot, source_value,
  source_in_range, invalidate_batch,
}
use go_regolith.Iter.Calls.{fill, next_batch, take_pending, reset_iter}
use go_regolith.Iter.Walk
use go_regolith.Iter.Walk.Ways.{
  WalksBothWays, begun, stepped, moved_to-begun, moved_to-stepped, ahead-stepped, ahead-begun,
}
use go_regolith.Iter.Walk.Order.{walk_order, past_first}
use go_regolith.Iter.Walk.Spans.{Pair, take_while, drop_while}
use mathlib.Core.List.{map}

-- `[u32 key_len][key bytes]`, one after the other.
unfoldable pub framed : List Pair → Bytes
framed [] = []
framed ((k, v) ∷ es) = to_le_bytes 4 (length k) ++ k ++ framed es

module _ (scans : Scans) (cells : ℕ → TxnInner scans.Txn) (entries : List Pair)
    (laws : WalksBothWays scans entries)
    (slices : (c : scans.Cursor) → scans.value_slice c ≡ scans.value c) (b : Bounds) where
  abbrev r : Bool
  r = b.reverse

  abbrev inside : Pair → Bool
  inside e = contains b e.0

  abbrev kept : List Pair → List Bytes
  kept es = if b.keys_only then [] else map (λ e. e.1) es

  -- Where an iterator stands: before its walk, on what its cursor is at, or on what it has just sought.
  pub data Place : Type 0 where
    start entry sought : scans.Cursor → Place

  abbrev pub cursor_of : Place → scans.Cursor
  cursor_of (start c) = c
  cursor_of (entry c) = c
  cursor_of (sought c) = c

  abbrev pub before_walk : Place → Bool
  before_walk (start c) = true
  before_walk (entry c) = false
  before_walk (sought c) = false

  abbrev pub just_sought : Place → Bool
  just_sought (start c) = false
  just_sought (entry c) = false
  just_sought (sought c) = true

  abbrev pub placed : Place → RegolithIter scans → RegolithIter scans
  placed p x = record x {
    bounds = b;
    source = snapshot (cursor_of p);
    reset = before_walk p;
    include_current = just_sought p;
  }

  abbrev after : List Pair → List Pair
  after [] = []
  after (e ∷ es) = if inside e then take_while inside es else []

  -- What is still to be walked.
  abbrev pub rest : Place → List Pair
  rest (start c) =
      take_while inside (drop_while (λ e. not (past_first r b e.0)) (walk_order r entries))
  rest (entry c) = after (laws.ahead r c)
  rest (sought c) = take_while inside (laws.ahead r c)

  move_none :
      (c c' : scans.Cursor) (x : RegolithIter scans) (l : List Pair)
      → laws.ahead r c ≡ l
      → take_while inside l ≡ []
      → (moved_to scans c (placed (entry c') x) ≡ (ok false, placed (entry c) x))
        × (after (laws.ahead r c) ≡ [])
  move_none c c' x [] h t = (Walk.moved_to-nil scans cells entries laws b c c' x h, rw h refl)
  move_none c c' x (e ∷ l) h t = elim (Bool-cases (inside e)) [
    | inl y ↦ absurd (cc (rw y at t))
    | inr n ↦ (rw n at (Walk.moved_to-cons scans cells entries laws b c c' x e l h), rw (h, n) refl)
  ]

  -- `e` is the entry that the cursor is at, and `es` is walked after it.
  pub record At (c : scans.Cursor) (e : Pair) (es : List Pair) : Type 0 where
    pub beyond : List Pair
    pub ahead_is : laws.ahead r c ≡ e ∷ beyond
    pub is_inside : inside e ≡ true
    pub beyond_is : take_while inside beyond ≡ es

  move_some :
      (c c' : scans.Cursor) (x : RegolithIter scans) (l : List Pair) (e : Pair) (es : List Pair)
      → laws.ahead r c ≡ l
      → take_while inside l ≡ e ∷ es
      → (moved_to scans c (placed (entry c') x) ≡ (ok true, placed (entry c) x)) × At c e es
  move_some c c' x [] e es h t = absurd cc
  move_some c c' x (e' ∷ l) e es h t = elim (Bool-cases (inside e')) [
    | inl y ↦
        let t' : e' ∷ take_while inside l ≡ e ∷ es = rw y at t in
        let same : e' ≡ e = cc in
        (
          rw y at (Walk.moved_to-cons scans cells entries laws b c c' x e' l h),
          record { beyond = l; ahead_is = rw same at h; is_inside = rw same at y; beyond_is = cc },
        )
    | inr n ↦ absurd (cc (rw n at t))
  ]

  first_moves :
      (c : scans.Cursor) (x : RegolithIter scans)
      → advance_in_batch scans cells (placed (start c) x)
        ≡ moved_to scans (begun scans cells r b c) (placed (entry c) x)
  unfolding advance_in_batch
  first_moves c x = moved_to-begun scans cells r b c (placed (entry c) x)

  later_moves :
      (c : scans.Cursor) (x : RegolithIter scans) (e : Pair) (l : List Pair)
      → laws.ahead r c ≡ e ∷ l
      → inside e ≡ true
      → advance_in_batch scans cells (placed (entry c) x)
        ≡ moved_to scans (stepped scans cells r c) (placed (entry c) x)
  unfolding advance_in_batch in_range
  later_moves c x e l h y =
      rw (laws.key_cons r c e l h, y) (moved_to-stepped scans cells r c (placed (entry c) x))

  past_the_end :
      (c : scans.Cursor) (x : RegolithIter scans)
      → in_range scans (placed (entry c) x) ≡ false
      → advance_in_batch scans cells (placed (entry c) x) ≡ (ok false, placed (entry c) x)
  unfolding advance_in_batch
  past_the_end c x n = rw n

  in_range-entry :
      (c : scans.Cursor) (x : RegolithIter scans) (l : List Pair)
      → laws.ahead r c ≡ l
      → in_range scans (placed (entry c) x) ≡ elim l [ [] ↦ false | e ∷ es ↦ inside e ]
  unfolding in_range
  in_range-entry c x [] h = rw (laws.key_nil r c h)
  in_range-entry c x (e ∷ l) h = rw (laws.key_cons r c e l h)

  entry_none :
      (c : scans.Cursor) (x : RegolithIter scans) (l : List Pair)
      → laws.ahead r c ≡ l
      → after l ≡ []
      → (c' : scans.Cursor) × (advance_in_batch scans cells (placed (entry c) x)
          ≡ (ok false, placed (entry c') x))
        × (after (laws.ahead r c') ≡ [])
  entry_none c x [] a h = (c, past_the_end c x (in_range-entry c x [] a), rw a refl)
  entry_none c x (e ∷ l) a h = elim (Bool-cases (inside e)) [
    | inl y ↦
        let (m, left) =
          move_none (stepped scans cells r c) c x l
            (ahead-stepped scans cells entries laws r c e l a) (rw y at h) in
        (stepped scans cells r c, later_moves c x e l a y ∙ m, left)
    | inr n ↦ (c, past_the_end c x (in_range-entry c x (e ∷ l) a ∙ n), rw (a, n) refl)
  ]

  entry_some :
      (c : scans.Cursor) (x : RegolithIter scans) (l : List Pair) (e : Pair) (es : List Pair)
      → laws.ahead r c ≡ l
      → after l ≡ e ∷ es
      → (c' : scans.Cursor) × (advance_in_batch scans cells (placed (entry c) x)
          ≡ (ok true, placed (entry c') x))
        × At c' e es
  entry_some c x [] e es a h = absurd cc
  entry_some c x (e' ∷ l) e es a h = elim (Bool-cases (inside e')) [
    | inl y ↦
        let (m, left) =
          move_some (stepped scans cells r c) c x l e es
            (ahead-stepped scans cells entries laws r c e' l a) (rw y at h) in
        (stepped scans cells r c, later_moves c x e' l a y ∙ m, left)
    | inr n ↦ absurd (cc (rw n at h))
  ]

  take_while-empty : (l : List Pair) → take_while inside l ≡ [] → after l ≡ []
  take_while-empty [] h = refl
  take_while-empty (e ∷ l) h = elim (Bool-cases (inside e)) [
    | inl y ↦ absurd (cc (rw y at h))
    | inr n ↦ rw n refl
  ]

  -- The entry that was sought is the first to be framed.
  included :
      (c : scans.Cursor) (x : RegolithIter scans)
      → advance_in_batch scans cells (placed (sought c) x)
        ≡ (ok (in_range scans (placed (entry c) x)), placed (entry c) x)
  unfolding advance_in_batch
  included c x = refl

  sought_none :
      (c : scans.Cursor) (x : RegolithIter scans) (l : List Pair)
      → laws.ahead r c ≡ l
      → take_while inside l ≡ []
      → in_range scans (placed (entry c) x) ≡ false
  sought_none c x [] a h = in_range-entry c x [] a
  sought_none c x (e ∷ l) a h = elim (Bool-cases (inside e)) [
    | inl y ↦ absurd (cc (rw y at h))
    | inr n ↦ in_range-entry c x (e ∷ l) a ∙ n
  ]

  sought_some :
      (c : scans.Cursor) (x : RegolithIter scans) (l : List Pair) (e : Pair) (es : List Pair)
      → laws.ahead r c ≡ l
      → take_while inside l ≡ e ∷ es
      → (in_range scans (placed (entry c) x) ≡ true) × At c e es
  sought_some c x [] e es a h = absurd cc
  sought_some c x (e' ∷ l) e es a h = elim (Bool-cases (inside e')) [
    | inl y ↦
        let t' : e' ∷ take_while inside l ≡ e ∷ es = rw y at h in
        let same : e' ≡ e = cc in
        (
          in_range-entry c x (e' ∷ l) a ∙ y,
          record { beyond = l; ahead_is = rw same at a; is_inside = rw same at y; beyond_is = cc },
        )
    | inr n ↦ absurd (cc (rw n at h))
  ]

  pub advance_none :
      (p : Place) (x : RegolithIter scans)
      → rest p ≡ []
      → (c : scans.Cursor) × (advance_in_batch scans cells (placed p x)
          ≡ (ok false, placed (entry c) x))
        × (after (laws.ahead r c) ≡ [])
  advance_none (start c) x h =
      let (m, a) =
        move_none (begun scans cells r b c) c x _ (ahead-begun scans cells entries laws r b c) h in
      (_, first_moves c x ∙ m, a)
  advance_none (entry c) x h = entry_none c x _ refl h
  advance_none (sought c) x h = (
    c,
    included c x ∙ ap (λ y. (ok y, placed (entry c) x)) (sought_none c x (laws.ahead r c) refl h),
    take_while-empty (laws.ahead r c) h,
  )

  pub advance_some :
      (p : Place) (x : RegolithIter scans) (e : Pair) (es : List Pair)
      → rest p ≡ e ∷ es
      → (c : scans.Cursor) × (advance_in_batch scans cells (placed p x)
          ≡ (ok true, placed (entry c) x))
        × At c e es
  advance_some (start c) x e es h =
      let (m, a) =
        move_some (begun scans cells r b c) c x _ e es (ahead-begun scans cells entries laws r b c)
          h in
      (_, first_moves c x ∙ m, a)
  advance_some (entry c) x e es h = entry_some c x _ e es refl h
  advance_some (sought c) x e es h =
      let (y, at) = sought_some c x (laws.ahead r c) e es refl h in
      (c, included c x ∙ ap (λ z. (ok z, placed (entry c) x)) y, at)

  -- On an entry, the key and the value's slice are its.
  pub current-At :
      (c : scans.Cursor) (x : RegolithIter scans) (e : Pair) (es : List Pair)
      → At c e es
      → (current_key scans (placed (entry c) x) ≡ some e.0)
        × (current_value_slice scans (placed (entry c) x)
            ≡ (if b.keys_only then none else some e.1))
        × (rest (entry c) ≡ es)
  unfolding current_key current_value_slice
  current-At c x e es a =
      rw (laws.key_cons r c e a.beyond a.ahead_is, a.is_inside)
        (
          refl,
          elim (Bool-cases (b.keys_only)) [
            | inl k ↦ rw k
            | inr k ↦ rw (k, source_value, slices c) (laws.value_cons r c e a.beyond a.ahead_is)
          ],
          rw (a.ahead_is, a.is_inside) a.beyond_is,
        )
