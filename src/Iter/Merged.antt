-- ===== src/Iter/Merged.antt =====
-- What a transaction's scan stream yields, and the range that a seek opens it over.
pub mod Walk
mod Runs
use go_regolith.Base.{
  ℕ, zero, suc, ◌≤◌, ◌≡◌, refl, sym, ap, ◌∙◌, inl, inr, Bool-cases, Option, none, some, Bool, true,
  false, not, ◌&&◌, List, [], ◌∷◌, ◌++◌, if◌then◌else◌, length, arith,
}
use go_regolith.Failure.{Bytes, Result, ok}
use go_regolith.Iter.Bounds.{
  Bounds, ScanDirection, forward, backward, direction, bytes_lt, contains, from_start, below_end,
}
use go_regolith.Iter.Machine.{
  Scans, TxnInner, RegolithIter, Source, Entry, scan, live, pull, status_result, pulled,
  rebuild_and_pull, restart, step, seek, fresh, current_key, current_value, source_value,
  clamp_to_start, reverse_end, in_range,
}
use go_regolith.Iter.Calls.{next_step}
use go_regolith.Iter.Walk.Spans.{Pair, filter, filter-same_everywhere, length-filter}
use go_regolith.Iter.Walk.Order.{walk_order, bytes_lt_trans}
use go_regolith.Iter.Walk.Ways.{past_target, clamp_to_start_lem, below_target, below_all}
use mathlib.Core.List.{map}

abbrev pub is_back : ScanDirection → Bool
is_back forward = false
is_back backward = true

-- The documented behaviour of a transaction's scan stream, on reads that do not fail: it yields what the
-- transaction sees in the range, in ascending order or from the last on.
pub record Streams (scans : Scans) : Type 0 where
  pub entries : scans.Txn → List Pair
  pub left : scans.Stream → List Pair
  pub left-scan_stream_in :
      (start end : Option Bytes) (d : ScanDirection) (t : scans.Txn)
      → left (scans.scan_stream_in start end d t)
        ≡ filter
            (λ e. from_start start e.0 && below_end end e.0)
            (walk_order (is_back d) (entries t))
  pub next_nil : (st : scans.Stream) → left st ≡ [] → (scans.stream_next st).0 ≡ none
  pub next_cons :
      (st : scans.Stream) (e : Pair) (es : List Pair)
      → left st ≡ e ∷ es
      → ((scans.stream_next st).0 ≡ some (e.0, e.1)) × (left (scans.stream_next st).1 ≡ es)
  pub status_ok : (st : scans.Stream) → scans.stream_status st ≡ none

-- `target` with a zero byte after it is the least key above it.
bytes_lt-append_zero :
    (key target : Bytes) → bytes_lt key (target ++ (0 ∷ [])) ≡ not (bytes_lt target key)
unfolding bytes_lt
bytes_lt-append_zero [] [] = refl
bytes_lt-append_zero (x ∷ xs) [] = ground arith
bytes_lt-append_zero [] (y ∷ ys) = refl
bytes_lt-append_zero (x ∷ xs) (y ∷ ys) = ground (arith, bytes_lt-append_zero xs ys)

below_end-reverse_end :
    (end : Option Bytes) (target key : Bytes)
    → below_end (some (reverse_end end target)) key
      ≡ (below_end end key && not (bytes_lt target key))
unfolding below_end reverse_end
below_end-reverse_end none target key = bytes_lt-append_zero key target
below_end-reverse_end (some end) target key = elim (Bool-cases (bytes_lt target end)) [
  | inl y ↦ rw y (bytes_lt-append_zero key target ∙ sym (below_target end target key y))
  | inr n ↦ rw n (sym (below_all end target key n))
]

-- The range that `seek` rebuilds the stream over.
abbrev pub sought_start : Bool → Bounds → Bytes → Option Bytes
sought_start false b target = some (clamp_to_start b.start target)
sought_start true b target = b.start

abbrev pub sought_end : Bool → Bounds → Bytes → Option Bytes
sought_end false b target = b.end
sought_end true b target = some (reverse_end b.end target)

regrouped : (x y z : Bool) → ((x && z) && y) ≡ ((x && y) && z)
regrouped x y z = ground arith

grouped : (x y z : Bool) → (x && (y && z)) ≡ ((x && y) && z)
grouped x y z = ground arith

-- The range of a seek holds what the bounds contain at and past the target.
pub sought_range :
    (r : Bool) (b : Bounds) (target key : Bytes)
    → (from_start (sought_start r b target) key && below_end (sought_end r b target) key)
      ≡ (contains b key && past_target r target key)
unfolding contains from_start
sought_range false b target key =
    ap (λ z. z && below_end b.end key) (sym (clamp_to_start_lem b.start target key))
    ∙ regrouped (from_start b.start key) (below_end b.end key) (not (bytes_lt key target))
sought_range true b target key =
    ap (λ z. from_start b.start key && z) (below_end-reverse_end b.end target key)
    ∙ grouped (from_start b.start key) (below_end b.end key) (not (bytes_lt target key))

pub is_back-direction : (b : Bounds) → is_back (direction b) ≡ b.reverse
unfolding direction
is_back-direction b = elim (Bool-cases b.reverse) [ inl y ↦ rw y refl | inr n ↦ rw n refl ]
