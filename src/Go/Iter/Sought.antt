-- ===== src/Go/Iter/Sought.antt =====
-- `Seek` of iter.go, and the walk from where it lands.
use go_regolith.Base.{
  ℕ, ◌≤◌, ◌≡◌, refl, ap, ◌∙◌, none, some, Bool, true, false, ◌&&◌, List, [], ◌∷◌, if◌then◌else◌,
  length, All, arith,
}
use go_regolith.Base.Text.{codes}
use go_regolith.Failure.{Bytes, invalid_arg, ok}
use go_regolith.Exec.{Exec, lift, require, ◌>>=◌}
use go_regolith.Guard.{Heap, out_bool}
use go_regolith.Guard.Report.{IsOrdered}
use go_regolith.Iter.Bounds.{Bounds, in_bytes, contains}
use go_regolith.Iter.Machine
use go_regolith.Iter.Machine.{Scans, TxnInner, RegolithIter, snapshot}
use go_regolith.Iter.Calls.{Handle, on_iter, regolith_iter_seek}
use go_regolith.Iter.Walk.Ways.{WalksBothWays, landed, past_target}
use go_regolith.Iter.Walk.Order.{walk_order, length-walk_order, All-walk_order}
use go_regolith.Iter.Walk.Spans.{Pair, filter, length-filter}
use go_regolith.Iter.Batches
use go_regolith.Iter.Batches.Sought
use go_regolith.Go.Store.{byte_ptr}
use go_regolith.Go.Finish.{finish-ok, in_bytes-byte_ptr}
use go_regolith.Go.Iter.{GoIter, seek, sought, invalidate}
use go_regolith.Go.Iter.Frame.{IsShort}
use go_regolith.Go.Iter.Gather.{gather, gather_from, from_here}
use go_regolith.Go.Iter.Refill
use go_regolith.Go.Iter.Walk
use go_regolith.Go.Iter.Walk.{IsShort-filter}
use mathlib.Core.List.{map}

module _ (scans : Scans) (cells : ℕ → TxnInner scans.Txn) (entries : List Pair)
    (laws : WalksBothWays scans entries)
    (slices : (c : scans.Cursor) → scans.value_slice c ≡ scans.value c) (b : Bounds) where
  abbrev sought_entries : Bytes → List Pair
  sought_entries = Sought.from_target scans cells entries laws slices b

  abbrev any : List Pair → Bool
  any = Sought.any scans cells entries laws slices b

  abbrev shown : Pair → Bytes × Bytes
  shown (k, v) = (k, if b.keys_only then [] else v)

  -- The iterator behind the handle, wherever it stands, and after the seek.
  abbrev anywhere : scans.Cursor → RegolithIter scans → RegolithIter scans
  anywhere c x = record x { bounds = b; source = snapshot c }

  abbrev landing : Bytes → scans.Cursor → Batches.Place scans cells entries laws slices b
  landing target c = Batches.sought (landed scans cells b.reverse b target c)

  abbrev settled : Bytes → scans.Cursor → RegolithIter scans → RegolithIter scans
  settled target c x =
      Batches.placed scans cells entries laws slices b (landing target c)
        (Sought.cleared scans cells entries laws slices b x)

  abbrev seek_body : Bytes → Exec (Handle scans) ℕ
  seek_body target = on_iter scans (do
    key ← require (in_bytes (byte_ptr target) (length target)) (invalid_arg (codes "null key"))
    is_valid ← Machine.seek scans cells key
    lift (out_bool is_valid true))

  abbrev flag : Bool → ℕ
  flag found = if found then 1 else 0

  out_bool-flag : (found : Bool) → out_bool found true ≡ ok (flag found)
  unfolding out_bool
  out_bool-flag true = refl
  out_bool-flag false = refl

  seek_body-sought :
      (target : Bytes) (c : scans.Cursor) (x : RegolithIter scans)
      → seek_body target (some (anywhere c x))
        ≡ (ok (flag (any (sought_entries target))), some (settled target c x))
  unfolding on_iter out_bool
  seek_body-sought target c x =
      rw (in_bytes-byte_ptr target, Sought.seek-sought scans cells entries laws slices b target c x)
        (ap (λ r. (r, some (settled target c x))) (out_bool-flag (any (sought_entries target))))

  -- `Seek`, from wherever the iterator stands.
  seek-sought :
      (target : Bytes) (c : scans.Cursor) (x : RegolithIter scans) (errors : Heap Bytes)
      (it : GoIter scans)
      → IsOrdered errors
      → (errors' : Heap Bytes) × (seek scans cells target false
            (record it { host = record { errors = errors; inner = some (anywhere c x) } })
          ≡ sought scans cells
              (some (flag (any (sought_entries target))), none)
              (record (invalidate scans cells it) {
                host = record { errors = errors'; inner = some (settled target c x) };
              }))
        × IsOrdered errors'
  unfolding seek regolith_iter_seek
  seek-sought target c x errors it ordered =
      let (errors', q, same, ordered') =
        finish-ok (seek_body target) (record { errors = errors; inner = some (anywhere c x) })
          (flag (any (sought_entries target))) (some (settled target c x)) ordered
          (seek_body-sought target c x) in
      (
        errors',
        ap (λ z. sought scans cells z.0 (record (invalidate scans cells it) { host = z.1 })) q,
        ordered',
      )

  -- The walk after a seek that found `l`.
  gather-sought :
      (rounds : ℕ) (target : Bytes) (c : scans.Cursor) (x : RegolithIter scans)
      (errors : Heap Bytes) (it : GoIter scans) (l : List Pair)
      → IsOrdered errors
      → sought_entries target ≡ l
      → All IsShort l
      → length l ≤ rounds
      → from_here scans cells (gather scans cells rounds) (
          sought scans cells
            (some (flag (any l)), none)
            (record (invalidate scans cells it) {
              keys_only = b.keys_only;
              closed = false;
              host = record { errors = errors; inner = some (settled target c x) };
            }))
        ≡ some (map shown l, none)
  unfolding sought invalidate from_here
  gather-sought rounds target c x errors it [] ordered e s h = refl
  gather-sought rounds target c x errors it (p ∷ l) ordered e s h =
      let there = record (invalidate scans cells it) {
        keys_only = b.keys_only;
        closed = false;
        host = record { errors = errors; inner = some (settled target c x) };
      } in
      let (errors', place, q, ordered', left) =
        Refill.refills scans cells entries laws slices b errors (landing target c)
          (Sought.cleared scans cells entries laws slices b x) there (p ∷ l) ordered
          (Sought.rest-landed scans cells entries laws slices b target c ∙ e)
          (Walk.IsShort-fits scans cells entries laws slices b (p ∷ l) s) in
      ap (from_here scans cells (gather scans cells rounds)) q
      ∙ Walk.gather-refilled scans cells entries laws slices b rounds
          (Walk.gather-seated scans cells entries laws slices b rounds) errors' place
          (Sought.cleared scans cells entries laws slices b x) it.buf (p ∷ l) ordered' left s h

  -- For an open iterator of the Go binding, forward or in reverse, over a snapshot of keys of 4 MiB at most
  -- whose cursor behaves as `WalksBothWays` says, its slices being its values, with no error object
  -- numbered from the heap's next number on: from wherever it stands, mid-batch, at its end, reset or with a
  -- failure held back, `Seek` does not fail, and `Key` and `Value` after it, and after each `Next` from there
  -- on, give exactly the entries that the bounds contain at or above the target, in ascending order, or in
  -- reverse those at or below it, in descending order, each once, with the value unless the options ask for
  -- keys only; where there is none, `Seek` is false; `Next` ends after as many calls as there are
  -- entries at most.
  pub gather_from-target :
      (target : Bytes) (c : scans.Cursor) (x : RegolithIter scans) (errors : Heap Bytes)
      (it : GoIter scans) (rounds : ℕ)
      → IsOrdered errors
      → All IsShort entries
      → length entries ≤ rounds
      → gather_from scans cells target rounds (record it {
        keys_only = b.keys_only;
        closed = false;
        host = record {
          errors = errors;
          inner = some (record x { bounds = b; source = snapshot c });
        };
      })
        ≡ some (
          map shown (
              filter
                (λ e. contains b e.0 && past_target b.reverse target e.0)
                (walk_order b.reverse entries)),
          none,
        )
  unfolding gather_from
  gather_from-target target c x errors it rounds ordered s h =
      let there = record it { keys_only = b.keys_only; closed = false } in
      let test : Pair → Bool = λ e. contains b e.0 && past_target b.reverse target e.0 in
      let (errors', q, ordered') = seek-sought target c x errors there ordered in
      ap (from_here scans cells (gather scans cells rounds)) q
      ∙ gather-sought rounds target c x errors' it (sought_entries target) ordered' refl
          (IsShort-filter test (walk_order b.reverse entries)
            (All-walk_order IsShort b.reverse entries s))
          (omega (
            arith,
            length-filter test (walk_order b.reverse entries),
            length-walk_order b.reverse entries,
          ))
