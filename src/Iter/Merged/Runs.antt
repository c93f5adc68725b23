-- ===== src/Iter/Merged/Runs.antt =====
-- A walk and a seek over a transaction of four entries, and the theorem on them at a concrete input.
use go_regolith.Base.{
  ℕ, ◌≡◌, refl, ap, Option, none, some, true, false, ◌&&◌, List, [], ◌∷◌, if◌then◌else◌, arith,
}
use go_regolith.Failure.{Bytes, ok}
use go_regolith.Iter.Bounds.{
  Bounds, ScanDirection, from_start, below_end, forward, backward, bytes_lt, contains,
}
use go_regolith.Iter.Machine.{live, TxnInner, RegolithIter, scan, over_txn, over_snapshot}
use go_regolith.Iter.Listed.{listed, off, four}
use go_regolith.Iter.Walk.{at_end, gather}
use go_regolith.Iter.Walk.Ways.{past_target}
use go_regolith.Iter.Walk.Order.{walk_order}
use go_regolith.Iter.Walk.Spans.{Pair, filter}
use go_regolith.Iter.Merged.{Streams, is_back}
use go_regolith.Iter.Merged.Walk.{gather_from, gather-over_txn}
use mathlib.Core.List.{map}

yielded :
    (start end : Option Bytes) (d : ScanDirection) (t : List Pair)
    → (listed four).scan_stream_in start end d t
      ≡ filter (λ e. from_start start e.0 && below_end end e.0) (walk_order (is_back d) t)
yielded start end forward t = refl
yielded start end backward t = refl

abbrev streams : Streams (listed four)
streams = record {
  entries = λ t. t;
  left = λ st. st;
  left-scan_stream_in = yielded;
  next_nil = λ st h. ap (λ l. ((listed four).stream_next l).0) h;
  next_cons = λ st e es h.
      (ap (λ l. ((listed four).stream_next l).0) h, ap (λ l. ((listed four).stream_next l).1) h);
  status_ok = λ st. refl;
}

-- One transaction, that sees `four`.
abbrev cells : ℕ → TxnInner (List Pair)
cells id = record { txn = some four; poisoned = false; readonly = true }

-- In reverse, below an end; the target is a key.
abbrev back : Bounds
back = record { start = none; end = some (99 ∷ []); reverse = true; keys_only = false }

abbrev somewhere : RegolithIter (listed four)
somewhere = over_snapshot (listed four) off back

seek_in_reverse :
    gather_from (listed four) cells (98 ∷ []) 4 (record somewhere { source = scan 0 none none })
    ≡ ((some (98 ∷ []), some []) ∷ (some (97 ∷ []), some (1 ∷ [])) ∷ [], at_end)
unfolding gather_from gather over_snapshot bytes_lt contains
seek_in_reverse = refl

gather-over_txn_example :
    (it : RegolithIter (listed four)) × (over_txn (listed four) 0 (cells 0) back ≡ ok it)
    × (gather (listed four) cells 5 it ≡ (
      map
          (λ (k, v). (some k, if back.keys_only then none else some v))
          (filter (λ e. contains back e.0) (walk_order back.reverse four)),
      at_end,
    ))
    × (gather_from
          (listed four)
          cells
          (98 ∷ [])
          4
          (record somewhere { bounds = back; source = scan 0 none none })
        ≡ (
          map
              (λ (k, v). (some k, if back.keys_only then none else some v))
              (filter
                (λ z. contains back z.0 && past_target back.reverse (98 ∷ []) z.0)
                (walk_order back.reverse four)),
          at_end,
        ))
unfolding live
gather-over_txn_example =
    gather-over_txn (listed four) cells streams 0 four refl back 4 (98 ∷ []) somewhere none none
      (omega arith)
