-- ===== src/Go/Iter/Walk.antt =====
-- A whole walk with the iterator of iter.go: `Next`, and `Key` and `Value` after it.
use go_regolith.Base.{
  ℕ, zero, suc, ◌+◌, ◌^◌, ◌≤◌, ◌<◌, ◌≡◌, refl, ap, ◌∙◌, inl, inr, Bool-cases, none, some, Bool,
  true, not, ◌&&◌, List, [], ◌∷◌, ◌++◌, leb, if◌then◌else◌, length, drop, get_elem?, All, arith,
  length-append,
}
use go_regolith.Failure.{Bytes}
use go_regolith.Guard.{Heap}
use go_regolith.Guard.Report.{IsOrdered}
use go_regolith.Iter.Bounds.{Bounds, contains}
use go_regolith.Iter.Machine.{Scans, TxnInner, RegolithIter, max_batch_value_bytes, over_snapshot}
use go_regolith.Iter.Walk.Ways.{WalksBothWays}
use go_regolith.Iter.Walk.Spans.{Pair, filter, length-filter}
use go_regolith.Iter.Walk.Order.{
  walk_order, Ordered-walk_order, length-walk_order, All-walk_order, take_while-contains,
}
use go_regolith.Iter.Batches
use go_regolith.Iter.Batches.{framed}
use go_regolith.Iter.Batches.Fill.{taken, kept}
use go_regolith.Iter.Batches.Next.{taken-append-drop, length-taken}
use go_regolith.Go.Iter.{GoIter, batch_entries, refilled, new_iter}
use go_regolith.Go.Iter.Gather.{gather, from_here, from_here-more}
use go_regolith.Go.Iter.Seats
use go_regolith.Go.Iter.Seated
use go_regolith.Go.Iter.Refill
use go_regolith.Go.Iter.Frame.{spots, IsShort}
use mathlib.Core.List.{map}

pub drop-cons :
    (n : ℕ) (l : List Pair) (e : Pair) (es : List Pair)
    → drop n l ≡ e ∷ es
    → (get_elem? l n ≡ some e) × (drop (suc n) l ≡ es) × (n < length l)
drop-cons zero [] e es h = absurd cc
drop-cons (suc n) [] e es h = absurd cc
drop-cons zero (x ∷ l) e es h = (cc, cc, omega arith)
drop-cons (suc n) (x ∷ l) e es h =
    let (found, left, within) = drop-cons n l e es h in (found, left, omega arith)

pub drop-nil : (n : ℕ) (l : List Pair) → drop n l ≡ [] → length l ≤ n
drop-nil n [] h = omega arith
drop-nil zero (x ∷ l) h = absurd cc
drop-nil (suc n) (x ∷ l) h = omega (arith, drop-nil n l h)

-- A filter's entries are short where the list's are.
pub IsShort-filter : (p : Pair → Bool) (l : List Pair) → All IsShort l → All IsShort (filter p l)
IsShort-filter p [] h = tt
IsShort-filter p (e ∷ l) (s, h) = elim (Bool-cases (p e)) [
  | inl y ↦ rw y (s, IsShort-filter p l h)
  | inr n ↦ rw n (IsShort-filter p l h)
]

module _ (scans : Scans) (cells : ℕ → TxnInner scans.Txn) (entries : List Pair)
    (laws : WalksBothWays scans entries)
    (slices : (c : scans.Cursor) → scans.value_slice c ≡ scans.value c) (b : Bounds) where
  abbrev pub Place : Type 0
  Place = Batches.Place scans cells entries laws slices b

  abbrev pub rest : Place → List Pair
  rest = Batches.rest scans cells entries laws slices b

  abbrev pub seated : Heap Bytes → Place → RegolithIter scans → List Pair → ℕ → GoIter scans
  seated = Seated.seated scans cells entries laws slices b

  abbrev pub shown : Pair → Bytes × Bytes
  shown (k, v) = (k, if b.keys_only then [] else v)

  -- At the entry `e`.
  visits :
      (rounds : ℕ) (errors : Heap Bytes) (p : Place) (x : RegolithIter scans) (t : List Pair)
      (i : ℕ) (e : Pair) (es : List Pair)
      → IsOrdered errors
      → get_elem? t i ≡ some e
      → ((errors' : Heap Bytes)
          → IsOrdered errors'
          → gather scans cells rounds (seated errors' p x t i) ≡ some (map shown es, none))
      → from_here scans cells
          (gather scans cells rounds)
          (some ((true, none), seated errors p x t i))
        ≡ some (map shown (e ∷ es), none)
  visits rounds errors p x t i e es ordered found others =
      let (errors', v, ordered') =
        Seats.value-seated scans cells b.keys_only errors
          (Seated.at scans cells entries laws slices b p x) t i e ordered found in
      from_here-more scans cells (gather scans cells rounds) (seated errors p x t i)
        (seated errors' p x t i) e.0 _ (map shown es) none
        (Seats.key-seated scans cells b.keys_only errors
          (Seated.at scans cells entries laws slices b p x) t i e found)
        v (others errors' ordered')

  pub IsShort-fits : (l : List Pair) → All IsShort l → All (λ e. length e.0 < 2 ^ 32) l
  IsShort-fits [] h = tt
  IsShort-fits (e ∷ l) (s, h) = (omega arith, IsShort-fits l h)

  All-drop : (n : ℕ) (l : List Pair) → All IsShort l → All IsShort (drop n l)
  All-drop zero l h = h
  All-drop (suc n) [] h = tt
  All-drop (suc n) (x ∷ l) (s, h) = All-drop n l h

  All-taken : (k : Bool) (n r : ℕ) (l : List Pair) → All IsShort l → All IsShort (taken k n r l)
  unfolding taken
  All-taken k zero r l h = tt
  All-taken k (suc n) r [] h = tt
  All-taken k (suc n) r ((key, v) ∷ l) (s, h) =
      let r' = if k then r else r + length v in
      elim (Bool-cases (not k && leb max_batch_value_bytes r')) [
        | inl full ↦ rw full (s, tt)
        | inr more ↦ rw more (s, All-taken k n r' l h)
      ]

  taken-nil : (k : Bool) (n r : ℕ) → taken k n r [] ≡ []
  unfolding taken
  taken-nil k zero r = refl
  taken-nil k (suc n) r = refl

  taken-cons :
      (k : Bool) (n r : ℕ) (e : Pair) (l : List Pair)
      → 1 ≤ n
      → (new : List Pair) × (taken k n r (e ∷ l) ≡ e ∷ new)
  unfolding taken
  taken-cons k zero r e l h = absurd (omega arith)
  taken-cons k (suc n) r e l h = (_, refl)

  abbrev pub seat : Heap Bytes → Place → RegolithIter scans → Bytes → List Pair → GoIter scans
  seat = Refill.between scans cells entries laws slices b

  abbrev pub batch : List Pair → List Pair
  batch l = taken b.keys_only batch_entries 0 l

  -- From the entry `i` of its batch `t` on, with `l` to come after the batch.
  abbrev pub Gathers : ℕ → Type 0
  Gathers rounds =
      (errors : Heap Bytes) (p : Place) (x : RegolithIter scans) (t : List Pair) (i : ℕ)
      (now l : List Pair)
      → IsOrdered errors
      → drop (suc i) t ≡ now
      → rest p ≡ l
      → All IsShort l
      → length now + length l < rounds
      → gather scans cells rounds (seated errors p x t i) ≡ some (map shown (now ++ l), none)

  -- From a call that takes a new batch of `l`.
  pub gather-refilled :
      (rounds : ℕ)
      → Gathers rounds
      → (errors : Heap Bytes) (p : Place) (x : RegolithIter scans) (buf : Bytes) (l : List Pair)
      → IsOrdered errors
      → rest p ≡ drop (length (batch l)) l
      → All IsShort l
      → length l ≤ rounds
      → from_here scans cells (gather scans cells rounds) (
          refilled scans cells
            (some (framed (batch l), length (batch l)), none)
            (seat errors p x buf (batch l)))
        ≡ some (map shown l, none)
  unfolding framed from_here
  gather-refilled rounds go_on errors p x buf [] ordered left s h =
      rw (taken-nil b.keys_only batch_entries 0) (
        ap (from_here scans cells (gather scans cells rounds))
          (Refill.refilled-none scans cells entries laws slices b (seat errors p x buf [])))
  gather-refilled rounds go_on errors p x buf (e ∷ l) ordered left (s, ss) h =
      let (new, q) = taken-cons b.keys_only batch_entries 0 e l (omega arith) in
      let whole : e ∷ (new ++ drop (length new) l) ≡ e ∷ l =
        rw q at (taken-append-drop b.keys_only batch_entries 0 (e ∷ l)) in
      let again : new ++ drop (length new) l ≡ l = cc in
      rw q (
        ap (from_here scans cells (gather scans cells rounds)) (
          Refill.refilled-batch scans cells entries laws slices b errors p x buf e new
            (rw q at (All-taken b.keys_only batch_entries 0 (e ∷ l) (s, ss)))
            (rw q at (length-taken b.keys_only batch_entries 0 (e ∷ l))))
        ∙ visits rounds errors p x (e ∷ new) 0 e l ordered refl (λ errors' ordered'.
          go_on errors' p x (e ∷ new) 0 new (drop (length new) l) ordered' refl (rw q at left)
            (All-drop (length new) l ss)
            (omega (arith, ap length again, length-append new (drop (length new) l)))
          ∙ ap (λ z. some (map shown z, none)) again))

  pub gather-seated : (rounds : ℕ) → Gathers rounds
  unfolding gather
  gather-seated zero errors p x t i now l ordered d r s h = absurd (omega arith)
  gather-seated (suc rounds) errors p x t i (e ∷ now) l ordered d r s h =
      let (found, left, within) = drop-cons (suc i) t e now d in
      ap (from_here scans cells (gather scans cells rounds)) (
        Seats.next_within scans cells b.keys_only errors
          (Seated.at scans cells entries laws slices b p x) t i within)
      ∙ visits rounds errors p x t (suc i) e (now ++ l) ordered found (λ errors' ordered'.
        gather-seated rounds errors' p x t (suc i) now l ordered' left r s (omega arith))
  gather-seated (suc rounds) errors p x t i [] l ordered d r s h =
      let (errors', p', moved, ordered', left) =
        Refill.next_refills scans cells entries laws slices b errors p x t i l ordered
          (drop-nil (suc i) t d) r (IsShort-fits l s) in
      ap (from_here scans cells (gather scans cells rounds)) moved
      ∙ gather-refilled rounds (gather-seated rounds) errors' p' x (framed t) l ordered' left s
          (omega arith)

  abbrev inside : Pair → Bool
  inside e = contains b e.0

  -- The entries that the bounds contain, in the order of the walk.
  abbrev pub listed : List Pair
  listed = filter inside (walk_order b.reverse entries)

  rest-start : (c : scans.Cursor) → rest (Batches.start c) ≡ listed
  rest-start c =
      take_while-contains b.reverse b (walk_order b.reverse entries)
        (Ordered-walk_order b.reverse entries laws.ascending)

  new_iter-seated :
      (c : scans.Cursor) (errors : Heap Bytes)
      → new_iter scans b.keys_only
          (record { errors = errors; inner = some (over_snapshot scans c b) })
        ≡ seated errors (Batches.start c) (over_snapshot scans c b) [] 0
  unfolding new_iter over_snapshot framed spots kept
  new_iter-seated c errors = refl

  -- An iterator of the Go binding, forward or in reverse, over a snapshot of keys of 4 MiB at most whose
  -- cursor behaves as `WalksBothWays` says, its slices being its values, with no error object numbered
  -- from the heap's next number on: calls of `Next`, with `Key` and `Value` after each, end without an
  -- error after one call more than there are entries at most, and give the entries that the bounds
  -- contain, in ascending order, or in descending order in reverse, each once, with the value unless the
  -- options ask for keys only; however the batches fall.
  pub gather-new_iter :
      (c : scans.Cursor) (errors : Heap Bytes) (rounds : ℕ)
      → IsOrdered errors
      → All IsShort entries
      → length entries < rounds
      → gather scans cells rounds (
          new_iter scans b.keys_only
            (record { errors = errors; inner = some (over_snapshot scans c b) }))
        ≡ some (map shown (filter inside (walk_order b.reverse entries)), none)
  gather-new_iter c errors rounds ordered s h =
      ap (gather scans cells rounds) (new_iter-seated c errors)
      ∙ gather-seated rounds errors (Batches.start c) (over_snapshot scans c b) [] 0 [] listed
          ordered refl (rest-start c)
          (IsShort-filter inside (walk_order b.reverse entries)
            (All-walk_order IsShort b.reverse entries s))
          (omega (
            arith,
            length-filter inside (walk_order b.reverse entries),
            length-walk_order b.reverse entries,
          ))
