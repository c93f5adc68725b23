-- ===== src/Iter/Batches/Sought.antt =====
-- Where `seek` of ffi/src/iter.rs leaves an iterator over a snapshot, and what is walked from there.
use go_regolith.Base.{
  ℕ, ◌≡◌, refl, ap, ◌∙◌, inl, inr, Bool-cases, none, Bool, true, false, ◌&&◌, List, [], ◌∷◌,
}
use go_regolith.Failure.{Bytes, ok}
use go_regolith.Iter.Bounds.{Bounds, contains}
use go_regolith.Iter.Machine.{
  Scans, TxnInner, RegolithIter, snapshot, moved_to, at_or_above, seek, seek_reverse, restart,
  source_in_range,
}
use go_regolith.Iter.Walk.Ways.{
  WalksBothWays, landed, past_target, take_while-reached, ahead-landed,
}
use go_regolith.Iter.Walk.Order.{walk_order, Ordered-walk_order}
use go_regolith.Iter.Walk.Spans.{Pair, filter, take_while}
use go_regolith.Iter.Batches

module _ (scans : Scans) (cells : ℕ → TxnInner scans.Txn) (entries : List Pair)
    (laws : WalksBothWays scans entries)
    (slices : (c : scans.Cursor) → scans.value_slice c ≡ scans.value c) (b : Bounds) where
  abbrev Place : Type 0
  Place = Batches.Place scans cells entries laws slices b

  abbrev placed : Place → RegolithIter scans → RegolithIter scans
  placed = Batches.placed scans cells entries laws slices b

  abbrev rest : Place → List Pair
  rest = Batches.rest scans cells entries laws slices b

  abbrev inside : Pair → Bool
  inside e = contains b e.0

  abbrev pub any : List Pair → Bool
  any [] = false
  any (e ∷ es) = true

  -- What `seek` keeps of the iterator.
  abbrev pub cleared : RegolithIter scans → RegolithIter scans
  cleared x = record x { batch_values = []; batch_count = 0; pending = none }

  -- The entries that the bounds contain at and past the target, in the order of the walk.
  abbrev pub from_target : Bytes → List Pair
  from_target target =
      filter (λ e. inside e && past_target b.reverse target e.0) (walk_order b.reverse entries)

  moved_to-sought :
      (c c' : scans.Cursor) (x : RegolithIter scans) (l : List Pair)
      → laws.ahead b.reverse c ≡ l
      → moved_to scans c (placed (Batches.sought c') x)
        ≡ (ok (any (take_while inside l)), placed (Batches.sought c) x)
  unfolding moved_to
  moved_to-sought c c' x [] h = rw (laws.valid_nil b.reverse c h, laws.status_ok c) refl
  moved_to-sought c c' x (e ∷ l) h =
      rw (laws.valid_cons b.reverse c e l h, source_in_range, laws.key_cons b.reverse c e l h)
        (elim (Bool-cases (inside e)) [ inl y ↦ rw y refl | inr n ↦ rw n refl ])

  -- `seek` moves the cursor, whichever way the iterator goes.
  seek-landed :
      (target : Bytes) (c : scans.Cursor) (x : RegolithIter scans)
      → seek scans cells target (record x { bounds = b; source = snapshot c })
        ≡ moved_to scans
            (landed scans cells b.reverse b target c)
            (placed (Batches.sought c) (cleared x))
  unfolding seek seek_reverse restart
  seek-landed target c x = elim (Bool-cases (b.reverse)) [
    | inl y ↦ elim (Bool-cases (at_or_above b.end target)) [
      | inl above ↦ rw (y, above) refl
      | inr below ↦ rw (y, below) refl
    ]
    | inr n ↦ rw n refl
  ]

  pub rest-landed :
      (target : Bytes) (c : scans.Cursor)
      → rest (Batches.sought (landed scans cells b.reverse b target c)) ≡ from_target target
  rest-landed target c =
      ap (take_while inside) (ahead-landed scans cells entries laws b.reverse b target c)
      ∙ take_while-reached b.reverse b target (walk_order b.reverse entries)
          (Ordered-walk_order b.reverse entries laws.ascending)

  -- A seek reports whether there is an entry at or past the target, and stands on the first of them.
  pub seek-sought :
      (target : Bytes) (c : scans.Cursor) (x : RegolithIter scans)
      → seek scans cells target (record x { bounds = b; source = snapshot c }) ≡ (
        ok (any (from_target target)),
        placed (Batches.sought (landed scans cells b.reverse b target c)) (cleared x),
      )
  seek-sought target c x =
      let c' = landed scans cells b.reverse b target c in
      seek-landed target c x
      ∙ moved_to-sought c' c (cleared x) (laws.ahead b.reverse c') refl
      ∙ ap (λ l. (ok (any l), placed (Batches.sought c') (cleared x))) (rest-landed target c)
