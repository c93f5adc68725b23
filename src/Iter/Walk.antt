-- ===== src/Iter/Walk.antt =====
-- A whole walk with `next` over a snapshot, against the entries that the snapshot holds.
pub mod Spans
pub mod Order
pub mod Ways
mod Runs
use go_regolith.Base.{
  ℕ, zero, suc, ◌+◌, ◌≤◌, ◌<◌, ◌≡◌, refl, sym, ap, ◌∙◌, inl, inr, Bool-cases, Option, none, some,
  Bool, true, false, not, ◌&&◌, ◌||◌, List, [], ◌∷◌, if◌then◌else◌, length, arith,
}
use go_regolith.Failure.{Bytes, Failure, Payload, Result, ok, err, panic, EngineError}
use go_regolith.Exec.{Exec}
use go_regolith.Iter.Bounds.{Bounds, bytes_lt, contains, from_start, below_end}
use go_regolith.Iter.Machine.{
  Scans, TxnInner, RegolithIter, Source, snapshot, source_in_range, source_value, Step, moved_to,
  restart, step, over_snapshot, in_range, current_key, current_value, seek_to_start, cursor_valid,
}
use go_regolith.Iter.Calls.{next_step, reset_iter}
use go_regolith.Iter.Walk.Spans.{Pair, filter, take_while, drop_while, length-drop_while}
use go_regolith.Iter.Walk.Order.{
  walk_order, Ordered-walk_order, length-walk_order, past_first, take_while-contains,
}
use go_regolith.Iter.Walk.Ways.{
  WalksBothWays, begun, stepped, moved_to-begun, moved_to-stepped, ahead-stepped, ahead-begun,
}
use mathlib.Core.List.{map}

-- How a walk ends: where `next` is false, where it fails or panics, or before that.
pub data Ending : Type 0 where
  at_end unfinished : Ending
  failed : Failure → Ending
  panicked : Payload → Ending

-- The keys and the values after each call, and the end.
abbrev pub Gathered : Type 0
Gathered = List (Option Bytes × Option Bytes) × Ending

abbrev pub after_entry : Option Bytes × Option Bytes → Gathered → Gathered
after_entry e (es, ending) = (e ∷ es, ending)

module _ (scans : Scans) (cells : ℕ → TxnInner scans.Txn) where
  -- What a caller gathers that calls `next`, and the key and the value after it, until `next` is false or
  -- fails; `rounds` times at most.
  unfoldable pub gather : ℕ → RegolithIter scans → Gathered
  unfolding next_step current_key current_value
  gather zero it = ([], unfinished)
  gather (suc rounds) it =
      let (r, it') = next_step scans cells it in
      let more = gather rounds it' in
      elim r [
        | ok b ↦
            if b
            then after_entry (current_key scans it', current_value scans it') more
            else ([], at_end)
        | err f ↦ ([], failed f)
        | panic p ↦ ([], panicked p)
      ]

  pub gather-true :
      (rounds : ℕ) (it it' : RegolithIter scans)
      → next_step scans cells it ≡ (ok true, it')
      → gather (suc rounds) it
        ≡ after_entry (current_key scans it', current_value scans it') (gather rounds it')
  unfolding gather
  gather-true rounds it it' h = rw (gather, ap (λ q. q.0) h, ap (λ q. q.1) h) refl

  pub gather-false :
      (rounds : ℕ) (it it' : RegolithIter scans)
      → next_step scans cells it ≡ (ok false, it')
      → gather (suc rounds) it ≡ ([], at_end)
  unfolding gather
  gather-false rounds it it' h = rw (gather, h)

  module _ (entries : List Pair) (laws : WalksBothWays scans entries) (b : Bounds) where
    abbrev r : Bool
    r = b.reverse

    abbrev shown : Pair → Option Bytes × Option Bytes
    shown (k, v) = (some k, if b.keys_only then none else some v)

    abbrev inside : Pair → Bool
    inside e = contains b e.0

    -- An iterator that has begun its walk, on the cursor `c`.
    abbrev on : scans.Cursor → RegolithIter scans → RegolithIter scans
    on c it = record it { bounds = b; source = snapshot c; reset = false; include_current = false }

    pub moved_to-nil :
        (c c' : scans.Cursor) (it : RegolithIter scans)
        → laws.ahead r c ≡ []
        → moved_to scans c (on c' it) ≡ (ok false, on c it)
    unfolding moved_to
    moved_to-nil c c' it h = rw (laws.valid_nil r c h, laws.status_ok c)

    pub moved_to-cons :
        (c c' : scans.Cursor) (it : RegolithIter scans) (e : Pair) (es : List Pair)
        → laws.ahead r c ≡ e ∷ es
        → moved_to scans c (on c' it) ≡ (ok (inside e), on c it)
    unfolding moved_to
    moved_to-cons c c' it e es h =
        rw (laws.valid_cons r c e es h, source_in_range, laws.key_cons r c e es h)

    current_key-on :
        (c : scans.Cursor) (it : RegolithIter scans) (e : Pair) (es : List Pair)
        → laws.ahead r c ≡ e ∷ es
        → inside e ≡ true
        → (current_key scans (on c it) ≡ some (e.0))
          × (current_value scans (on c it) ≡ (if b.keys_only then none else some (e.1)))
    unfolding current_key current_value
    current_key-on c it e es h y =
        rw (laws.key_cons r c e es h, y)
          (
            refl,
            elim (Bool-cases (b.keys_only)) [
              | inl k ↦ rw k
              | inr k ↦ rw (k, source_value) (laws.value_cons r c e es h)
            ],
          )

    next_step-on :
        (c : scans.Cursor) (it : RegolithIter scans) (e : Pair) (es : List Pair)
        → laws.ahead r c ≡ e ∷ es
        → inside e ≡ true
        → next_step scans cells (on c it) ≡ moved_to scans (stepped scans cells r c) (on c it)
    unfolding next_step in_range
    next_step-on c it e es h y =
        rw (laws.key_cons r c e es h, y) (moved_to-stepped scans cells r c (on c it))

    -- From a `next` that moves to `c`.
    gather-moved_to :
        (rounds : ℕ) (it : RegolithIter scans) (c c' : scans.Cursor) (x : RegolithIter scans)
        (es : List Pair)
        → next_step scans cells it ≡ moved_to scans c (on c' x)
        → laws.ahead r c ≡ es
        → length es ≤ rounds
        → gather (suc rounds) it ≡ (map shown (take_while inside es), at_end)
    gather-moved_to rounds it c c' x [] m h l = gather-false rounds it _ (m ∙ moved_to-nil c c' x h)
    gather-moved_to zero it c c' x (e ∷ es) m h l = absurd (omega arith)
    gather-moved_to (suc rounds) it c c' x (e ∷ es) m h l = elim (Bool-cases (inside e)) [
      | inl y ↦
          let (k, v) = current_key-on c x e es h y in
          gather-true (suc rounds) it (on c x) (m ∙ rw y at (moved_to-cons c c' x e es h))
          ∙ rw (k, v, y)
              (ap (after_entry (shown e)) (
                gather-moved_to rounds (on c x) (stepped scans cells r c) c x es
                  (next_step-on c x e es h y) (ahead-stepped scans cells entries laws r c e es h)
                  (omega arith)))
      | inr n ↦ gather-false (suc rounds) it _ (m ∙ rw n at (moved_to-cons c c' x e es h)) ∙ rw n
    ]

    next_step-fresh :
        (c : scans.Cursor)
        → next_step scans cells (over_snapshot scans c b)
          ≡ moved_to scans (begun scans cells r b c) (on c (over_snapshot scans c b))
    unfolding next_step over_snapshot
    next_step-fresh c = moved_to-begun scans cells r b c (on c (over_snapshot scans c b))

    -- An iterator over the snapshot, wherever it stands.
    abbrev anywhere : scans.Cursor → RegolithIter scans → RegolithIter scans
    anywhere c it = record it { bounds = b; source = snapshot c }

    next_step-reset_iter :
        (c : scans.Cursor) (it : RegolithIter scans)
        → next_step scans cells (reset_iter scans (anywhere c it))
          ≡ moved_to scans (begun scans cells r b c) (on c (reset_iter scans (anywhere c it)))
    unfolding next_step reset_iter
    next_step-reset_iter c it =
        moved_to-begun scans cells r b c (on c (reset_iter scans (anywhere c it)))

    gather-begun :
        (c : scans.Cursor) (rounds : ℕ) (it x : RegolithIter scans)
        → length entries ≤ rounds
        → next_step scans cells it ≡ moved_to scans (begun scans cells r b c) (on c x)
        → gather (suc rounds) it ≡ (map shown (filter inside (walk_order r entries)), at_end)
    gather-begun c rounds it x l first =
        gather-moved_to rounds it (begun scans cells r b c) c x
          (drop_while (λ e. not (past_first r b e.0)) (walk_order r entries)) first
          (ahead-begun scans cells entries laws r b c)
          (length-drop_while (λ e. not (past_first r b e.0)) (walk_order r entries) rounds
            (omega (arith, length-walk_order r entries)))
        ∙ ap (λ l. (map shown l, at_end))
            (take_while-contains r b (walk_order r entries)
              (Ordered-walk_order r entries laws.ascending))

    -- For an iterator, forward or in reverse, that `over_snapshot` makes at any cursor of a snapshot of
    -- `entries`, which behaves as `WalksBothWays` says: more calls of `next` than there are entries gather
    -- the entries whose keys the bounds contain, in ascending order, or in descending order in reverse,
    -- each once, with the value where the options do not ask for keys only, and then `next` is false.
    pub gather-over_snapshot :
        (c : scans.Cursor) (rounds : ℕ)
        → length entries ≤ rounds
        → gather (suc rounds) (over_snapshot scans c b)
          ≡ (map shown (filter inside (walk_order b.reverse entries)), at_end)
    gather-over_snapshot c rounds l =
        gather-begun c rounds (over_snapshot scans c b) (over_snapshot scans c b) l
          (next_step-fresh c)

    -- For an iterator, forward or in reverse, over a snapshot whose cursor behaves as `WalksBothWays` says:
    -- reset wherever it stands, whatever its batch and the failure that it holds back, it gathers what a
    -- new one gathers with more calls than there are entries.
    pub gather-reset_iter :
        (c : scans.Cursor) (it : RegolithIter scans) (rounds : ℕ)
        → length entries ≤ rounds
        → gather (suc rounds) (reset_iter scans (record it { bounds = b; source = snapshot c }))
          ≡ gather (suc rounds) (over_snapshot scans c b)
    gather-reset_iter c it rounds l =
        gather-begun c rounds (reset_iter scans (anywhere c it)) (reset_iter scans (anywhere c it))
          l (next_step-reset_iter c it)
        ∙ sym (gather-over_snapshot c rounds l)
