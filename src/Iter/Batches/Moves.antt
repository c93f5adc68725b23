-- ===== src/Iter/Batches/Moves.antt =====
-- How an iterator moves, whatever it stands on: `next` and the loop of `regolith_iter_next_batch` make the
-- same moves, and what a batch keeps has no part in them.
use go_regolith.Base.{
  ℕ, ◌≡◌, refl, inl, inr, Bool-cases, Option, none, some, Bool, true, false, if◌then◌else◌,
}
use go_regolith.Failure.{Bytes, Result, ok, err, panic}
use go_regolith.Exec.{continue}
use go_regolith.Iter.Bounds.{direction}
use go_regolith.Iter.Machine.{
  Scans, TxnInner, RegolithIter, Source, snapshot, scan, fresh, restart, restart_source, step,
  step_source, live, in_range, pull, pulled, moved_to, rebuild_and_pull, advance_in_batch,
}
use go_regolith.Iter.Calls.{next_step}

module _ (scans : Scans) where
  abbrev Iter : Type 0
  Iter = RegolithIter scans

  abbrev bare : Iter → Iter
  bare it = fresh scans it.bounds it.source

  -- A move, made on another iterator with the same bounds.
  abbrev on : Iter → Result Bool × Iter → Result Bool × Iter
  on it q = (q.0, record it { source = q.1.source })

  pulled-bare :
      (id : ℕ) (entry : Option (Bytes × Bytes)) (stream : scans.Stream) (it : Iter)
      → pulled scans id entry stream it ≡ on it (pulled scans id entry stream (bare it))
  unfolding pulled
  pulled-bare id none stream it = refl
  pulled-bare id (some (k, v)) stream it = refl

  pull-bare :
      (id : ℕ) (stream : Option scans.Stream) (it : Iter)
      → pull scans id stream it ≡ on it (pull scans id stream (bare it))
  unfolding pull
  pull-bare id none it = refl
  pull-bare id (some stream) it = pulled-bare id _ _ it

  module _ (cells : ℕ → TxnInner scans.Txn) where
    opened-bare :
        (id : ℕ) (start end : Option Bytes) (t : Result scans.Txn) (it : Iter)
        → let go : Iter → Result Bool × Iter = λ x.
          continue t
            (λ t x. pull scans id (some (scans.scan_stream_in start end (direction x.bounds) t)) x)
            (record x { source = scan id none none }) in
          go it ≡ on it (go (bare it))
    opened-bare id start end (ok t) it = pull-bare id _ (record it { source = scan id none none })
    opened-bare id start end (err f) it = refl
    opened-bare id start end (panic p) it = refl

    rebuild-bare :
        (id : ℕ) (start end : Option Bytes) (it : Iter)
        → rebuild_and_pull scans cells id start end it
          ≡ on it (rebuild_and_pull scans cells id start end (bare it))
    unfolding rebuild_and_pull
    rebuild-bare id start end it = opened-bare id start end (live (cells id)) it

    restart-bare :
        (source : Source scans) (it : Iter)
        → restart_source scans cells source it ≡ on it (restart_source scans cells source (bare it))
    unfolding restart_source moved_to
    restart-bare (scan id stream current) it = rebuild-bare id _ _ it
    restart-bare (snapshot c) it = elim (Bool-cases it.bounds.reverse) [
      | inl y ↦ rw y refl
      | inr n ↦ rw n refl
    ]

    step-bare :
        (source : Source scans) (it : Iter)
        → step_source scans cells source it ≡ on it (step_source scans cells source (bare it))
    unfolding step_source moved_to in_range
    step-bare (scan id stream current) it = pull-bare id stream it
    step-bare (snapshot c) it = elim (Bool-cases (in_range scans (bare it))) [
      | inl y ↦ rw (in_range, y) refl
      | inr n ↦ rw (in_range, n) refl
    ]

    -- What `next` answers, and what the iterator stands on after it.
    abbrev pub move : Iter → Result Bool × Source scans
    move it =
        let q = if it.reset then restart scans cells (bare it) else step scans cells (bare it) in
        (q.0, q.1.source)

    -- An iterator that has begun its walk.
    abbrev pub standing : Source scans → Iter → Iter
    standing source it = record it { source = source; reset = false; include_current = false }

    next_step-from :
        (begins : Bool) (x : Iter)
        → let it : Iter = record x { reset = begins } in
          next_step scans cells it ≡ ((move it).0, standing (move it).1 it)
    unfolding next_step restart step
    next_step-from true x = restart-bare x.source (standing x.source x)
    next_step-from false x = step-bare x.source (standing x.source x)

    pub next_step-move :
        (it : Iter) → next_step scans cells it ≡ ((move it).0, standing (move it).1 it)
    next_step-move it = next_step-from it.reset it

    advance-from :
        (begins : Bool) (x : Iter)
        → let it : Iter = record x { reset = begins; include_current = false } in
          advance_in_batch scans cells it ≡ ((move it).0, standing (move it).1 it)
    unfolding advance_in_batch restart step
    advance-from true x = restart-bare x.source (standing x.source x)
    advance-from false x = step-bare x.source (standing x.source x)

    -- An iterator that has not just sought.
    pub advance-move :
        (x : Iter)
        → let it : Iter = record x { include_current = false } in
          advance_in_batch scans cells it ≡ ((move it).0, standing (move it).1 it)
    advance-move x = advance-from x.reset x
