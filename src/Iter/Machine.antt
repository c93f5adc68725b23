-- ===== src/Iter/Machine.antt =====
-- The methods of `RegolithIter`. The engine's cursor, transaction and scan stream are parameters.
mod State
pub use go_regolith.Iter.Machine.State.{
  Scans, TxnInner, unusable, Entry, max_batch_value_bytes, Source, RegolithIter, fresh, snapshot,
  scan,
}
unfoldable pub use go_regolith.Iter.Machine.State.{
  live, status_result, at_or_above, clamp_to_start, reverse_end, equals, is_key, over_snapshot,
  over_txn,
}
use go_regolith.Base.{
  ℕ, ◌^◌, Option, none, some, Bool, true, false, not, ◌&&◌, ◌||◌, List, [], ◌∷◌, ◌++◌, ◌==◌,
  if◌then◌else◌,
}
use go_regolith.Base.Text.{codes}
use go_regolith.Failure.{
  Bytes, Failure, code, discarded, other, Result, ok, err, panic, EngineError, from_engine_error,
}
use go_regolith.Exec.{Exec, lift, gets, modify, ◌>>=◌, ◌>>◌}
use go_regolith.Iter.Bounds.{Bounds, ScanDirection, direction, bytes_lt, contains}

module _ (scans : Scans) where
  open scans use {Cursor, Txn, Stream}

  abbrev pub Step : Type 0 → Type 0
  Step A = Exec (RegolithIter scans) A

  unfoldable pub source_in_range : Bounds → Source scans → Bool
  source_in_range b (snapshot c) = elim (scans.key c) [ some k ↦ contains b k | none ↦ false ]
  source_in_range b (scan id stream none) = false
  source_in_range b (scan id stream (some e)) = true

  unfoldable pub in_range : RegolithIter scans → Bool
  unfolding source_in_range
  in_range it = source_in_range it.bounds it.source

  -- `cursor_valid`, at the cursor that the iterator has.
  unfoldable pub cursor_valid : Cursor → RegolithIter scans → Result Bool
  unfolding in_range status_result
  cursor_valid c it = if scans.valid c then ok (in_range it) else status_result (scans.status c)

  -- The cursor after a move, stored, and its validity.
  unfoldable pub moved_to : Cursor → Step Bool
  unfolding cursor_valid
  moved_to c it = let it' = record it { source = snapshot c } in (cursor_valid c it', it')

  -- The end of `pull`, on what the stream handed out.
  unfoldable pub pulled : ℕ → Option (Bytes × Bytes) → Stream → Step Bool
  unfolding status_result
  pulled id (some (k, v)) stream it =
      let entry : Entry = record {
        key = k;
        value = if it.bounds.keys_only then none else some v;
      } in
      (ok true, record it { source = scan id (some stream) (some entry) })
  pulled id none stream it = (
    status_result (scans.stream_status stream),
    record it { source = scan id (some stream) none },
  )

  unfoldable pub pull : ℕ → Option Stream → Step Bool
  unfolding pulled
  pull id none it = (ok false, record it { source = scan id none none })
  pull id (some stream) it =
      let (entry, stream') = scans.stream_next stream in pulled id entry stream' it

  -- The transaction cells as they stand during the call.
  module _ (cells : ℕ → TxnInner Txn) where
    -- `rebuild` and the `pull` that follows each of its calls.
    unfoldable pub rebuild_and_pull : ℕ → Option Bytes → Option Bytes → Step Bool
    unfolding live direction pull
    rebuild_and_pull id start end = do
      modify (λ it. record it { source = scan id none none })
      t ← lift (live (cells id))
      d ← gets (λ it. direction it.bounds)
      pull id (some (scans.scan_stream_in start end d t))

    abbrev pub seek_to_end : Option Bytes → Cursor → Cursor
    seek_to_end none c = scans.seek_to_last c
    seek_to_end (some end) c =
        let c' = scans.seek_for_prev end c in
        if scans.valid c' && is_key (scans.key c') end then scans.prev c' else c'

    abbrev pub seek_to_start : Option Bytes → Cursor → Cursor
    seek_to_start none c = scans.seek_to_first c
    seek_to_start (some start) c = scans.seek start c

    unfoldable pub restart_source : Source scans → Step Bool
    unfolding moved_to rebuild_and_pull is_key equals
    restart_source (scan id stream current) it =
        rebuild_and_pull id it.bounds.start it.bounds.end it
    restart_source (snapshot c) it =
        if it.bounds.reverse
        then moved_to (seek_to_end it.bounds.end c) it
        else moved_to (seek_to_start it.bounds.start c) it

    unfoldable pub restart : Step Bool
    unfolding restart_source
    restart it = restart_source it.source it

    unfoldable pub step_source : Source scans → Step Bool
    unfolding moved_to pull in_range
    step_source (scan id stream current) it = pull id stream it
    step_source (snapshot c) it =
        if not (in_range it)
        then (ok false, it)
        else moved_to (if it.bounds.reverse then scans.prev c else scans.next c) it

    unfoldable pub step : Step Bool
    unfolding step_source
    step it = step_source it.source it

    unfoldable pub seek_forward : Bytes → Source scans → Step Bool
    unfolding moved_to rebuild_and_pull clamp_to_start
    seek_forward target (scan id stream current) it =
        rebuild_and_pull id (some (clamp_to_start it.bounds.start target)) it.bounds.end it
    seek_forward target (snapshot c) it =
        moved_to (scans.seek (clamp_to_start it.bounds.start target) c) it

    unfoldable pub seek_reverse : Bytes → Source scans → Step Bool
    unfolding moved_to rebuild_and_pull reverse_end at_or_above restart
    seek_reverse target (scan id stream current) it =
        rebuild_and_pull id it.bounds.start (some (reverse_end it.bounds.end target)) it
    seek_reverse target (snapshot c) it =
        if at_or_above it.bounds.end target
        then restart it
        else moved_to (scans.seek_for_prev target c) it

    unfoldable pub seek : Bytes → Step Bool
    unfolding seek_forward seek_reverse
    seek target it =
        let it' = record it {
          reset = false;
          pending = none;
          batch_values = [];
          batch_count = 0;
          include_current = true;
        } in
        if it.bounds.reverse
        then seek_reverse target it.source it'
        else seek_forward target it.source it'

    unfoldable pub advance_in_batch : Step Bool
    unfolding restart step in_range
    advance_in_batch it =
        if it.reset
        then restart (record it { reset = false; include_current = false })
        else if it.include_current
        then (let it' = record it { include_current = false } in (ok (in_range it'), it'))
        else step it

  unfoldable pub source_key : Source scans → Option Bytes
  source_key (snapshot c) = scans.key c
  source_key (scan id stream none) = none
  source_key (scan id stream (some e)) = some e.key

  unfoldable pub source_value : (Cursor → Option Bytes) → Source scans → Option Bytes
  source_value read (snapshot c) = read c
  source_value read (scan id stream none) = none
  source_value read (scan id stream (some e)) = e.value

  unfoldable pub current_key : RegolithIter scans → Option Bytes
  unfolding in_range source_key
  current_key it = if not (in_range it) then none else source_key it.source

  unfoldable pub current_value : RegolithIter scans → Option Bytes
  unfolding in_range source_value
  current_value it =
      if it.bounds.keys_only || not (in_range it) then none else source_value scans.value it.source

  unfoldable pub current_value_slice : RegolithIter scans → Option Bytes
  unfolding in_range source_value
  current_value_slice it =
      if it.bounds.keys_only || not (in_range it)
      then none
      else source_value scans.value_slice it.source

  unfoldable pub invalidate_batch : RegolithIter scans → RegolithIter scans
  invalidate_batch it = record it { batch_values = []; batch_count = 0 }
