-- ===== src/Iter/Merged/Walk.antt =====
-- An iterator over a live transaction: what `next` walks from a new one, and from where `seek` lands.
use go_regolith.Base.{
  ℕ, zero, suc, ◌≤◌, ◌≡◌, refl, ap, ◌∙◌, inl, inr, Bool-cases, Option, none, some, Bool, true,
  false, ◌&&◌, List, [], ◌∷◌, if◌then◌else◌, length, arith,
}
use go_regolith.Failure.{Bytes, Result, ok, err, panic}
use go_regolith.Iter.Bounds.{Bounds, direction, contains, from_start, below_end}
use go_regolith.Iter.Machine.{
  Scans, TxnInner, RegolithIter, Entry, scan, live, pull, status_result, pulled, rebuild_and_pull,
  restart, seek, fresh, over_txn, current_key, current_value, source_value,
}
use go_regolith.Iter.Calls.{next_step}
use go_regolith.Iter.Walk.{
  Gathered, after_entry, at_end, failed, panicked, gather, gather-true, gather-false,
}
use go_regolith.Iter.Walk.Spans.{Pair, filter, filter-same_everywhere, length-filter}
use go_regolith.Iter.Walk.Order.{walk_order, length-walk_order}
use go_regolith.Iter.Walk.Ways.{past_target}
use mathlib.Core.List.{map}
use go_regolith.Iter.Merged.{
  Streams, is_back, is_back-direction, sought_start, sought_end, sought_range,
}

module _ (scans : Scans) (cells : ℕ → TxnInner scans.Txn) where
  -- What a caller gathers whose seek ended so: the key and the value there, and what `next` goes on to.
  abbrev sought : ℕ → Result Bool × RegolithIter scans → Gathered
  sought rounds (ok true, it) =
      after_entry (current_key scans it, current_value scans it) (gather scans cells rounds it)
  sought rounds (ok false, it) = ([], at_end)
  sought rounds (err f, it) = ([], failed f)
  sought rounds (panic p, it) = ([], panicked p)

  unfoldable pub gather_from : Bytes → ℕ → RegolithIter scans → Gathered
  unfolding seek current_key current_value gather
  gather_from target rounds it = sought rounds (seek scans cells target it)

  module _ (laws : Streams scans) (id : ℕ) (t : scans.Txn) (alive : live (cells id) ≡ ok t)
      (b : Bounds) where
    abbrev shown : Pair → Option Bytes × Option Bytes
    shown (k, v) = (some k, if b.keys_only then none else some v)

    -- On what its stream has handed out last, after a seek or not.
    abbrev on : Bool → Option scans.Stream → Option Entry → RegolithIter scans → RegolithIter scans
    on sought st e x = record x {
      bounds = b;
      source = scan id st e;
      reset = false;
      include_current = sought;
    }

    abbrev entry : Pair → Entry
    entry (k, v) = record { key = k; value = if b.keys_only then none else some v }

    abbrev rest : scans.Stream → scans.Stream
    rest st = (scans.stream_next st).1

    pull-none :
        (i : Bool) (st : scans.Stream) (x : RegolithIter scans) (o : Option scans.Stream)
        (e : Option Entry)
        → laws.left st ≡ []
        → pull scans id (some st) (on i o e x) ≡ (ok false, on i (some (rest st)) none x)
    unfolding pull pulled status_result
    pull-none i st x o e h =
        rw (laws.next_nil st h, pulled, laws.status_ok (scans.stream_next st).1) refl

    pull-some :
        (i : Bool) (st : scans.Stream) (x : RegolithIter scans) (o : Option scans.Stream)
        (e : Option Entry) (p : Pair) (l : List Pair)
        → laws.left st ≡ p ∷ l
        → pull scans id (some st) (on i o e x) ≡ (ok true, on i (some (rest st)) (some (entry p)) x)
    unfolding pull pulled
    pull-some i st x o e p l h = rw ((laws.next_cons st p l h).0, pulled) refl

    shown-entry :
        (i : Bool) (st : Option scans.Stream) (x : RegolithIter scans) (p : Pair)
        → ◌≡◌ {A = Option Bytes × Option Bytes}
            (
              current_key scans (on i st (some (entry p)) x),
              current_value scans (on i st (some (entry p)) x),
            )
            (shown p)
    unfolding current_key current_value source_value
    shown-entry i st x p = elim (Bool-cases b.keys_only) [ inl y ↦ rw y refl | inr n ↦ rw n refl ]

    next_step-on :
        (i : Bool) (st : scans.Stream) (e : Option Entry) (x : RegolithIter scans)
        → next_step scans cells (on i (some st) e x)
          ≡ pull scans id (some st) (on false (some st) e x)
    unfolding next_step
    next_step-on i st e x = refl

    -- From a `next` that pulls from `st`.
    gather-pull :
        (rounds : ℕ) (it x : RegolithIter scans) (st : scans.Stream) (o : Option scans.Stream)
        (e : Option Entry) (l : List Pair)
        → next_step scans cells it ≡ pull scans id (some st) (on false o e x)
        → laws.left st ≡ l
        → length l ≤ rounds
        → gather scans cells (suc rounds) it ≡ (map shown l, at_end)
    gather-pull rounds it x st o e [] m h n =
        gather-false scans cells rounds it _ (m ∙ pull-none false st x o e h)
    gather-pull zero it x st o e (p ∷ l) m h n = absurd (omega arith)
    gather-pull (suc rounds) it x st o e (p ∷ l) m h n =
        let st' : scans.Stream = rest st in
        let it' : RegolithIter scans = on false (some st') (some (entry p)) x in
        gather-true scans cells (suc rounds) it it' (m ∙ pull-some false st x o e p l h)
        ∙ ap (λ z. after_entry z (gather scans cells (suc rounds) it'))
            (shown-entry false (some st') x p)
        ∙ ap (after_entry (shown p)) (
            gather-pull rounds it' x st' (some st') (some (entry p)) l
              (next_step-on false st' (some (entry p)) x) (laws.next_cons st p l h).1 (omega arith))

    -- The range, opened anew.
    abbrev opened : Option Bytes → Option Bytes → scans.Stream
    opened start end = scans.scan_stream_in start end (direction b) t

    rebuilds :
        (i : Bool) (start end : Option Bytes) (st : Option scans.Stream) (e : Option Entry)
        (x : RegolithIter scans)
        → rebuild_and_pull scans cells id start end (on i st e x)
          ≡ pull scans id (some (opened start end)) (on i none none x)
    unfolding rebuild_and_pull
    rebuilds i start end st e x = rw alive refl

    next_step-fresh :
        next_step scans cells (fresh scans b (scan id none none))
        ≡ pull scans id
            (some (opened b.start b.end))
            (on false none none (fresh scans b (scan id none none)))
    unfolding next_step restart
    next_step-fresh = rebuilds false b.start b.end none none (fresh scans b (scan id none none))

    abbrev cleared : RegolithIter scans → RegolithIter scans
    cleared x = record x { batch_values = []; batch_count = 0; pending = none }

    seek-opened :
        (target : Bytes) (st : Option scans.Stream) (e : Option Entry) (x : RegolithIter scans)
        → seek scans cells target (record x { bounds = b; source = scan id st e })
          ≡ pull scans id
              (some (opened (sought_start b.reverse b target) (sought_end b.reverse b target)))
              (on true none none (cleared x))
    unfolding seek
    seek-opened target st e x = elim (Bool-cases b.reverse) [
      | inl y ↦ rw (y, alive) refl
      | inr n ↦ rw (n, alive) refl
    ]

    abbrev inside : Pair → Bool
    inside e = contains b e.0

    left-opened :
        laws.left (opened b.start b.end) ≡ filter inside (walk_order b.reverse (laws.entries t))
    unfolding contains
    left-opened =
        laws.left-scan_stream_in b.start b.end (direction b) t
        ∙ ap (λ r. filter inside (walk_order r (laws.entries t))) (is_back-direction b)

    abbrev reached : Bytes → Pair → Bool
    reached target e = contains b e.0 && past_target b.reverse target e.0

    left-sought :
        (target : Bytes)
        → laws.left (opened (sought_start b.reverse b target) (sought_end b.reverse b target))
          ≡ filter (reached target) (walk_order b.reverse (laws.entries t))
    left-sought target =
        laws.left-scan_stream_in (sought_start b.reverse b target) (sought_end b.reverse b target)
          (direction b) t
        ∙ filter-same_everywhere
            (λ e.
              from_start (sought_start b.reverse b target) e.0
              && below_end (sought_end b.reverse b target) e.0)
            (reached target) (λ e. sought_range b.reverse b target e.0)
            (walk_order (is_back (direction b)) (laws.entries t))
        ∙ ap (λ r. filter (reached target) (walk_order r (laws.entries t))) (is_back-direction b)

    -- A seek that opens `st`.
    gather_from-pull :
        (rounds : ℕ) (target : Bytes) (it x : RegolithIter scans) (st : scans.Stream)
        (l : List Pair)
        → seek scans cells target it ≡ pull scans id (some st) (on true none none x)
        → laws.left st ≡ l
        → length l ≤ rounds
        → gather_from target rounds it ≡ (map shown l, at_end)
    unfolding gather_from
    gather_from-pull rounds target it x st [] m h n =
        ap (sought rounds) (m ∙ pull-none true st x none none h)
    gather_from-pull zero target it x st (p ∷ l) m h n = absurd (omega arith)
    gather_from-pull (suc rounds) target it x st (p ∷ l) m h n =
        let st' : scans.Stream = rest st in
        let it' : RegolithIter scans = on true (some st') (some (entry p)) x in
        ap (sought (suc rounds)) (m ∙ pull-some true st x none none p l h)
        ∙ ap (λ z. after_entry z (gather scans cells (suc rounds) it'))
            (shown-entry true (some st') x p)
        ∙ ap (after_entry (shown p)) (
            gather-pull rounds it' x st' (some st') (some (entry p)) l
              (next_step-on true st' (some (entry p)) x) (laws.next_cons st p l h).1 (omega arith))

    -- For a live transaction of an engine whose scan streams behave as `Streams` says, and a forward or
    -- reverse range: an iterator over it is made, and more calls of `next` than the transaction sees entries
    -- gather those of them that the bounds contain, in ascending order as the transaction sees them, or from
    -- the last on in reverse, each once, with the value where the options do not ask for keys only; and
    -- from wherever such an iterator stands, `seek` and as many calls of `next` gather those of them that
    -- are at or above the target, or in reverse at or below it, the target itself included. Both then end where
    -- `next` is false, or `seek` if there is none.
    pub gather-over_txn :
        (rounds : ℕ) (target : Bytes) (x : RegolithIter scans) (st : Option scans.Stream)
        (e : Option Entry)
        → length (laws.entries t) ≤ rounds
        → (it : RegolithIter scans) × (over_txn scans id (cells id) b ≡ ok it)
          × (gather scans cells (suc rounds) it
              ≡ (map shown (filter inside (walk_order b.reverse (laws.entries t))), at_end))
          × (gather_from target rounds (record x { bounds = b; source = scan id st e }) ≡ (
            map shown (
                filter
                  (λ z. contains b z.0 && past_target b.reverse target z.0)
                  (walk_order b.reverse (laws.entries t))),
            at_end,
          ))
    unfolding over_txn
    gather-over_txn rounds target x st e n =
        let all = walk_order b.reverse (laws.entries t) in
        let new = fresh scans b (scan id none none) in
        (
          new,
          rw (over_txn, alive) refl,
          gather-pull rounds new new (opened b.start b.end) none none (filter inside all)
              next_step-fresh left-opened
              (omega
                (arith, length-filter inside all, length-walk_order b.reverse (laws.entries t))),
          gather_from-pull rounds target (record x { bounds = b; source = scan id st e })
              (cleared x) (opened (sought_start b.reverse b target) (sought_end b.reverse b target))
              (filter (reached target) all) (seek-opened target st e x) (left-sought target)
              (omega (
                arith,
                length-filter (reached target) all,
                length-walk_order b.reverse (laws.entries t),
              )),
        )
