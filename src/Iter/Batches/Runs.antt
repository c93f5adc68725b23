-- ===== src/Iter/Batches/Runs.antt =====
-- Batches over a list of entries, and of an engine whose reads fail on the last of them; the theorems on
-- batches at concrete inputs.
use go_regolith.Base.{if◌then◌else◌, List, ◌≡◌, refl, none, some, true, false, [], ◌∷◌, arith}
use go_regolith.Base.Le.{to_le_bytes}
use go_regolith.Failure.{invalid_arg, err, other, ok, from_engine_error}
use go_regolith.Iter.Bounds.{bounds_from, Bounds, bytes_lt, contains}
use go_regolith.Iter.Machine.{
  snapshot, RegolithIter, is_key, current_value, over_snapshot, advance_in_batch, current_key,
  current_value_slice,
}
use go_regolith.Iter.Calls.{batch_value, reset_iter, next_batch, next_step}
use go_regolith.Iter.Listed.{
  under_b, listed, off, listed-WalksBothWays, torn, four, four-Ascending, no_txns,
}
use go_regolith.Iter.Batches
use go_regolith.Iter.Batches.Next
use go_regolith.Iter.Batches.Failing.{Visit, FailsAfter, keys_framed, present}
use go_regolith.Iter.Batches.Renewed.{reset_iter-over_snapshot}
use go_regolith.Iter.Walk.{at_end, gather}
use go_regolith.Iter.Walk.Spans.{filter}
use go_regolith.Iter.Walk.Order.{walk_order}
use go_regolith.Base.Text.{codes}
use mathlib.Core.List.{map}
use go_regolith.Iter.Batches.Reported.{batches, batches-FailsAfter}
use go_regolith.Iter.Batches.Next.{next_batch-IsBatch}

abbrev from_b : Bounds
from_b = record { start = some (98 ∷ []); end = some (99 ∷ []); reverse = false; keys_only = false }

-- One entry of two, then the other, then none.
first_batch :
    (next_batch (listed four) no_txns 1 true (over_snapshot (listed four) off from_b)).0
    ≡ ok (1 ∷ 0 ∷ 0 ∷ 0 ∷ 98 ∷ [], 1)
unfolding next_batch over_snapshot bytes_lt contains advance_in_batch current_key
    current_value_slice to_le_bytes
first_batch = refl

next_batch-IsBatch_example :
    Next.IsBatch
      (listed four)
      no_txns
      four
      (listed-WalksBothWays four four-Ascending)
      (λ c. refl)
      from_b
      3
      (Batches.rest
        (listed four)
        no_txns
        four
        (listed-WalksBothWays four four-Ascending)
        (λ c. refl)
        from_b
        (Batches.start off))
      (next_batch (listed four) no_txns 3 true (
        Batches.placed
          (listed four)
          no_txns
          four
          (listed-WalksBothWays four four-Ascending)
          (λ c. refl)
          from_b
          (Batches.start off)
          (record (over_snapshot (listed four) off from_b) { pending = none })))
next_batch-IsBatch_example =
    next_batch-IsBatch (listed four) no_txns four (listed-WalksBothWays four four-Ascending)
      (λ c. refl) from_b 3 (Batches.start off) (over_snapshot (listed four) off from_b)
      (omega arith) (unfold bytes_lt contains in (omega arith, (omega arith, tt)))

abbrev everything : Bounds
everything = record { start = none; end = none; reverse = false; keys_only = false }

abbrev unread : RegolithIter torn
unread = over_snapshot torn off everything

abbrev readable : List Visit
readable = (97 ∷ [], some (1 ∷ [])) ∷ (98 ∷ [], some []) ∷ (98 ∷ 255 ∷ [], some (3 ∷ [])) ∷ []

unread-FailsAfter : FailsAfter torn no_txns readable (other (33 ∷ [])) unread
unfolding FailsAfter next_step over_snapshot bytes_lt contains current_key current_value is_key
    from_engine_error
unread-FailsAfter = (refl, refl, refl, (refl, refl, refl, (refl, refl, refl, refl)))

-- Two batches of two at most, and the failure.
held_back :
    (batches torn no_txns 2 3 unread).0
    ≡ ((keys_framed readable, present readable, some (other (33 ∷ []))))
unfolding batches next_batch over_snapshot bytes_lt contains advance_in_batch current_key
    current_value_slice is_key from_engine_error keys_framed present to_le_bytes
held_back = refl

batches-FailsAfter_example :
    (last : RegolithIter torn) × (batches torn no_txns 2 4 unread
      ≡ ((keys_framed readable, present readable, some (other (33 ∷ []))), last))
    × (last.pending ≡ none)
    × (last.batch_values ≡ [])
unfolding over_snapshot
batches-FailsAfter_example =
    batches-FailsAfter torn no_txns 2 readable (other (33 ∷ [])) 4 unread (λ c. refl) (omega arith)
      refl refl unread-FailsAfter (omega arith, (omega arith, (omega arith, tt))) (omega arith)

-- Every entry under the prefix `b`.
abbrev prefixed : Bounds
prefixed = bounds_from (some under_b)

-- An iterator that has walked to its end, with a failure held back.
abbrev stopped : RegolithIter (listed four)
stopped = record (over_snapshot (listed four) off prefixed) {
  reset = false;
  batch_values = (1 ∷ []) ∷ [];
  batch_count = 1;
  pending = some (other (33 ∷ []));
}

reset_iter-over_snapshot_example :
    (gather
        (listed four)
        no_txns
        5
        (reset_iter (listed four) (record stopped { bounds = prefixed; source = snapshot off }))
      ≡ (
        map
            (λ (k, v). (some k, if prefixed.keys_only then none else some v))
            (filter (λ e. contains prefixed e.0) (walk_order prefixed.reverse four)),
        at_end,
      ))
    × Next.IsBatch
        (listed four)
        no_txns
        four
        (listed-WalksBothWays four four-Ascending)
        (λ c. refl)
        prefixed
        2
        (filter (λ e. contains prefixed e.0) (walk_order prefixed.reverse four))
        (next_batch
          (listed four)
          no_txns
          2
          true
          (reset_iter (listed four) (record stopped { bounds = prefixed; source = snapshot off })))
    × (batch_value
          (listed four)
          0
          (reset_iter (listed four) (record stopped { bounds = prefixed; source = snapshot off }))
        ≡ err (invalid_arg (codes "batch value index out of range")))
unfolding bounds_from
reset_iter-over_snapshot_example =
    reset_iter-over_snapshot (listed four) no_txns four (listed-WalksBothWays four four-Ascending)
      (λ c. refl) prefixed off stopped 4 2 0 (omega arith) (omega arith)
      (unfold bytes_lt contains in (omega arith, (omega arith, tt)))
