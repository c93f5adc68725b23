-- ===== src/Go/Iter/Runs.antt =====
-- A walk with the Go iterator over a list of entries, and the theorem on it at a concrete input.
use go_regolith.Base.{◌≡◌, refl, none, some, true, false, ◌&&◌, [], ◌∷◌, if◌then◌else◌, arith}
use go_regolith.Base.Le.{to_le_bytes, from_le_bytes}
use go_regolith.Failure.{Bytes, code, discarded}
use go_regolith.Guard.{Heap, guard}
use go_regolith.Iter.Bounds.{Bounds, bounds_from, bytes_lt, contains}
use go_regolith.Iter.Machine.{over_snapshot, advance_in_batch, current_key, current_value_slice}
use go_regolith.Iter.Calls.{on_iter, next_batch, batch_value}
use go_regolith.Go.Store.{finish}
use go_regolith.Iter.Walk.Spans.{filter}
use go_regolith.Iter.Walk.Order.{walk_order}
use go_regolith.Iter.Listed.{
  listed, off, listed-WalksBothWays, four, four-Ascending, no_txns, under_b,
}
use go_regolith.Go.Iter.{GoIter, new_iter, value}
use go_regolith.Go.Iter.Borrow.{
  appended, borrow_value, borrow_value-value, told, append_value, append_value-value, extended,
}
use go_regolith.Go.Iter.Gather.{gather, gather_from}
use go_regolith.Go.Iter.Sought.{gather_from-target}
use go_regolith.Iter.Walk.Ways.{past_target}
use go_regolith.Iter.Machine.{RegolithIter, snapshot}
use go_regolith.Go.Iter.Walk.{gather-new_iter}
use mathlib.Core.List.{map}

abbrev no_errors : Heap Bytes
no_errors = record { next = 0; cell = λ p. none }

gather-new_iter_example :
    gather (listed four) no_txns 5 (
      new_iter (listed four) (bounds_from (some under_b)).keys_only (record {
        errors = no_errors;
        inner = some (over_snapshot (listed four) off (bounds_from (some under_b)));
      }))
    ≡ some (
      map
          (λ (k, v). (k, if (bounds_from (some under_b)).keys_only then [] else v))
          (filter
            (λ e. contains (bounds_from (some under_b)) e.0)
            (walk_order (bounds_from (some under_b)).reverse four)),
      none,
    )
unfolding bounds_from
gather-new_iter_example =
    gather-new_iter (listed four) no_txns four (listed-WalksBothWays four four-Ascending)
      (λ c. refl) (bounds_from (some under_b)) off no_errors 5 (record { ahead = λ p l. refl })
      (omega arith, (omega arith, (omega arith, (omega arith, tt)))) (omega arith)

-- The same walk, run.
walk_of_the_prefix :
    gather (listed four) no_txns 5 (
      new_iter (listed four) false (record {
        errors = no_errors;
        inner = some (over_snapshot (listed four) off (bounds_from (some under_b)));
      }))
    ≡ some ((98 ∷ [], []) ∷ (98 ∷ 255 ∷ [], 3 ∷ []) ∷ [], none)
unfolding bounds_from gather new_iter over_snapshot bytes_lt contains finish guard on_iter
    next_batch advance_in_batch current_key current_value_slice to_le_bytes from_le_bytes
    batch_value
walk_of_the_prefix = refl

-- An iterator at the only entry of its batch, which holds the value.
abbrev at_an_entry : GoIter (listed four)
at_an_entry =
    record (new_iter (listed four) false (record {
      errors = no_errors;
      inner = some (record (over_snapshot (listed four) off (bounds_from none)) {
        batch_values = (1 ∷ 2 ∷ []) ∷ [];
        batch_count = 1;
      });
    })) { buf = 1 ∷ 0 ∷ 0 ∷ 0 ∷ 97 ∷ []; ents = record { k_off = 4; k_len = 1 } ∷ [] }

borrow_value-value_example :
    borrow_value (listed four) (appended (listed four)) at_an_entry (9 ∷ []) ≡ (
      told (listed four) (appended (listed four)) (value (listed four) at_an_entry).0 (9 ∷ []),
      (value (listed four) at_an_entry).1,
    )
borrow_value-value_example =
    borrow_value-value (listed four) (appended (listed four)) at_an_entry (9 ∷ [])

append_value-value_example : append_value (listed four) (9 ∷ []) at_an_entry ≡ (
  extended (listed four) (9 ∷ []) (value (listed four) at_an_entry).0,
  (value (listed four) at_an_entry).1,
)
append_value-value_example = append_value-value (listed four) (9 ∷ []) at_an_entry

appended_bytes : (append_value (listed four) (9 ∷ []) at_an_entry).0 ≡ (9 ∷ 1 ∷ 2 ∷ [], none)
unfolding append_value borrow_value new_iter over_snapshot bounds_from finish guard on_iter
    batch_value
appended_bytes = refl

-- In reverse, below an exclusive end that is a key of the store.
abbrev back_from_b_ff : Bounds
back_from_b_ff = record {
  start = none;
  end = some (98 ∷ 255 ∷ []);
  reverse = true;
  keys_only = false;
}

walk_in_reverse :
    gather (listed four) no_txns 5 (
      new_iter (listed four) false (record {
        errors = no_errors;
        inner = some (over_snapshot (listed four) off back_from_b_ff);
      }))
    ≡ some ((98 ∷ [], []) ∷ (97 ∷ [], 1 ∷ []) ∷ [], none)
unfolding gather new_iter over_snapshot bytes_lt contains finish guard on_iter next_batch
    advance_in_batch current_key current_value_slice to_le_bytes from_le_bytes batch_value
walk_in_reverse = refl

-- Mid-batch, and done, with a failure held back.
abbrev somewhere : GoIter (listed four)
somewhere = record at_an_entry { done = true }

abbrev behind_it : RegolithIter (listed four)
behind_it = record (over_snapshot (listed four) off back_from_b_ff) {
  reset = false;
  batch_count = 1;
  pending = some (code discarded);
}

gather_from-target_example :
    gather_from (listed four) no_txns (98 ∷ 1 ∷ []) 4 (record somewhere {
      keys_only = back_from_b_ff.keys_only;
      closed = false;
      host = record {
        errors = no_errors;
        inner = some (record behind_it { bounds = back_from_b_ff; source = snapshot off });
      };
    })
    ≡ some (
      map
          (λ (k, v). (k, if back_from_b_ff.keys_only then [] else v))
          (filter
            (λ e.
              contains back_from_b_ff e.0 && past_target back_from_b_ff.reverse (98 ∷ 1 ∷ []) e.0)
            (walk_order back_from_b_ff.reverse four)),
      none,
    )
gather_from-target_example =
    gather_from-target (listed four) no_txns four (listed-WalksBothWays four four-Ascending)
      (λ c. refl) back_from_b_ff (98 ∷ 1 ∷ []) off behind_it no_errors somewhere 4
      (record { ahead = λ p l. refl })
      (omega arith, (omega arith, (omega arith, (omega arith, tt)))) (omega arith)
