-- ===== src/Go/Iter/Seated.antt =====
-- An iterator of iter.go on an entry of its batch, over a snapshot.
use go_regolith.Base.{ℕ, ◌≡◌, none, List, length}
use go_regolith.Failure.{Bytes}
use go_regolith.Guard.{Heap}
use go_regolith.Iter.Bounds.{Bounds}
use go_regolith.Iter.Machine.{Scans, TxnInner, RegolithIter}
use go_regolith.Iter.Walk.Ways.{WalksBothWays}
use go_regolith.Iter.Walk.Spans.{Pair}
use go_regolith.Iter.Batches
use go_regolith.Iter.Batches.Fill.{kept}
use go_regolith.Go.Iter.{GoIter}
use go_regolith.Go.Iter.Seats

module _ (scans : Scans) (cells : ℕ → TxnInner scans.Txn) (entries : List Pair)
    (laws : WalksBothWays scans entries)
    (slices : (c : scans.Cursor) → scans.value_slice c ≡ scans.value c) (b : Bounds) where
  abbrev pub Place : Type 0
  Place = Batches.Place scans cells entries laws slices b

  abbrev pub placed : Place → RegolithIter scans → RegolithIter scans
  placed = Batches.placed scans cells entries laws slices b

  abbrev pub rest : Place → List Pair
  rest = Batches.rest scans cells entries laws slices b

  -- The iterator behind the handle, with the batch `t`.
  abbrev pub behind : Place → RegolithIter scans → List Pair → RegolithIter scans
  behind p x t =
      placed p
        (record x { batch_values = kept b.keys_only t; batch_count = length t; pending = none })

  -- What `behind` is without its batch.
  abbrev pub at : Place → RegolithIter scans → RegolithIter scans
  at p x = placed p (record x { pending = none })

  -- On the entry `i` of the batch `t`.
  abbrev pub seated : Heap Bytes → Place → RegolithIter scans → List Pair → ℕ → GoIter scans
  seated errors p x t i = Seats.seated scans cells b.keys_only errors (at p x) t i
