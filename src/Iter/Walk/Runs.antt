-- ===== src/Iter/Walk/Runs.antt =====
-- A cursor over a list of entries, walks over it, and the theorems on iterators at concrete inputs.
use go_regolith.Base.{◌≡◌, refl, none, some, [], ◌∷◌, if◌then◌else◌, arith}
use go_regolith.Iter.Bounds.{bytes_lt, contains, bounds_from, prefix_end, in_opt_bytes}
use go_regolith.Iter.Prefix.{has_prefix, contains-bounds_from}
use go_regolith.Iter.Machine.{over_snapshot}
use go_regolith.Iter.Listed.{
  listed, off, listed-WalksBothWays, four, four-Ascending, no_txns, under_b,
}
use go_regolith.Iter.Walk.{at_end, gather, gather-over_snapshot}
use go_regolith.Iter.Walk.Spans.{filter}
use go_regolith.Iter.Walk.Order.{walk_order}
use mathlib.Core.List.{map}

-- A prefix of 0xff bytes has no end.
prefix_end_all_ff : prefix_end (255 ∷ 255 ∷ []) ≡ none
unfolding prefix_end
prefix_end_all_ff = refl

prefix_end_carries : prefix_end (98 ∷ 255 ∷ []) ≡ some (99 ∷ [])
unfolding prefix_end
prefix_end_carries = refl

walk_of_the_prefix :
    gather (listed four) no_txns 5 (over_snapshot (listed four) off (bounds_from (some under_b)))
    ≡ ((some (98 ∷ []), some []) ∷ (some (98 ∷ 255 ∷ []), some (3 ∷ [])) ∷ [], at_end)
unfolding gather over_snapshot bounds_from bytes_lt contains
walk_of_the_prefix = refl

gather-over_snapshot_example :
    gather (listed four) no_txns 5 (over_snapshot (listed four) off (bounds_from (some under_b)))
    ≡ (
      map
          (λ (k, v). (some k, if (bounds_from (some under_b)).keys_only then none else some v))
          (filter
            (λ e. contains (bounds_from (some under_b)) e.0)
            (walk_order (bounds_from (some under_b)).reverse four)),
      at_end,
    )
unfolding bounds_from
gather-over_snapshot_example =
    gather-over_snapshot (listed four) no_txns four (listed-WalksBothWays four four-Ascending)
      (bounds_from (some under_b)) off 4 (omega arith)

contains-bounds_from_example :
    contains (bounds_from (some under_b)) (98 ∷ 255 ∷ []) ≡ has_prefix (98 ∷ []) (98 ∷ 255 ∷ [])
unfolding in_opt_bytes
contains-bounds_from_example =
    contains-bounds_from under_b (98 ∷ []) (98 ∷ 255 ∷ []) refl (omega arith, tt)
      (omega arith, (omega arith, tt))
