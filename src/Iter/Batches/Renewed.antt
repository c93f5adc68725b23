-- ===== src/Iter/Batches/Renewed.antt =====
-- An iterator over a snapshot that is reset: what `next`, a batch and a batch's values are after it.
use go_regolith.Base.{
  ℕ, suc, ◌^◌, ◌≤◌, ◌<◌, ◌≡◌, refl, sym, ◌∙◌, Option, none, some, true, List, leb, if◌then◌else◌,
  length, All, arith,
}
use mathlib.Core.Path.{subst}
use mathlib.Core.List.{map}
use go_regolith.Base.Text.{codes}
use go_regolith.Failure.{Bytes, invalid_arg, err}
use go_regolith.Iter.Bounds.{Bounds, contains}
use go_regolith.Iter.Machine.{Scans, TxnInner, RegolithIter, snapshot}
use go_regolith.Iter.Calls.{reset_iter, next_batch, batch_value}
use go_regolith.Iter.Walk.{at_end, gather, gather-reset_iter, gather-over_snapshot}
use go_regolith.Iter.Walk.Ways.{WalksBothWays}
use go_regolith.Iter.Walk.Spans.{Pair, filter}
use go_regolith.Iter.Walk.Order.{walk_order, Ordered-walk_order, take_while-contains}
use go_regolith.Iter.Batches
use go_regolith.Iter.Batches.Next.{IsBatch, next_batch-IsBatch}

module _ (scans : Scans) (cells : ℕ → TxnInner scans.Txn) (entries : List Pair)
    (laws : WalksBothWays scans entries)
    (slices : (c : scans.Cursor) → scans.value_slice c ≡ scans.value c) (b : Bounds) where
  abbrev shown : Pair → Option Bytes × Option Bytes
  shown (k, v) = (some k, if b.keys_only then none else some v)

  -- The entries that the bounds contain, in the order of the walk.
  abbrev inside : List Pair
  inside = filter (λ e. contains b e.0) (walk_order b.reverse entries)

  abbrev anew : scans.Cursor → RegolithIter scans → RegolithIter scans
  anew c it = reset_iter scans (record it { bounds = b; source = snapshot c })

  rest-start :
      (c : scans.Cursor) → Batches.rest scans cells entries laws slices b (Batches.start c) ≡ inside
  rest-start c =
      take_while-contains b.reverse b (walk_order b.reverse entries)
        (Ordered-walk_order b.reverse entries laws.ascending)

  first-IsBatch :
      (c : scans.Cursor) (it : RegolithIter scans) (n : ℕ)
      → 1 ≤ n
      → All (λ e. length e.0 < 2 ^ 32) inside
      → IsBatch scans cells entries laws slices b n inside
          (next_batch scans cells n true (anew c it))
  unfolding reset_iter
  first-IsBatch c it n positive s =
      let r = rest-start c in
      subst
        (λ l.
          IsBatch scans cells entries laws slices b n l (next_batch scans cells n true (anew c it)))
        r
        (next_batch-IsBatch scans cells entries laws slices b n (Batches.start c) (anew c it)
          positive (subst (All (λ e. length e.0 < 2 ^ 32)) (sym r) s))

  no_value :
      (c : scans.Cursor) (it : RegolithIter scans) (i : ℕ)
      → batch_value scans i (anew c it) ≡ err (invalid_arg (codes "batch value index out of range"))
  unfolding batch_value reset_iter
  no_value c it i = let past : leb 0 i ≡ true = ground arith in rw past refl

  -- An iterator, forward or in reverse, over a snapshot whose cursor behaves as `WalksBothWays` says, its
  -- slices being its values, that is reset wherever it stands, whatever its batch and the failure that it
  -- holds back: more calls of `next` than there are entries give the entries that the bounds contain, in the
  -- order of the walk, each once, with the value where the options do not ask for keys only, and end where
  -- `next` is false; `regolith_iter_next_batch` for one entry or more gives a batch of the same entries from
  -- the first on, if their keys are shorter than 4 GiB; and a value of the batch before the reset is out of
  -- range.
  pub reset_iter-over_snapshot :
      (c : scans.Cursor) (it : RegolithIter scans) (rounds n i : ℕ)
      → length entries ≤ rounds
      → 1 ≤ n
      → All (λ e. length e.0 < 2 ^ 32) (filter (λ e. contains b e.0) (walk_order b.reverse entries))
      → (gather scans cells
            (suc rounds)
            (reset_iter scans (record it { bounds = b; source = snapshot c }))
          ≡ (map shown (filter (λ e. contains b e.0) (walk_order b.reverse entries)), at_end))
        × IsBatch scans cells entries laws slices b n
            (filter (λ e. contains b e.0) (walk_order b.reverse entries))
            (next_batch scans cells n true
              (reset_iter scans (record it { bounds = b; source = snapshot c })))
        × (batch_value scans i (reset_iter scans (record it { bounds = b; source = snapshot c }))
            ≡ err (invalid_arg (codes "batch value index out of range")))
  reset_iter-over_snapshot c it rounds n i l positive s = (
    gather-reset_iter scans cells entries laws b c it rounds l
        ∙ gather-over_snapshot scans cells entries laws b c rounds l,
    first-IsBatch c it n positive s,
    no_value c it i,
  )
