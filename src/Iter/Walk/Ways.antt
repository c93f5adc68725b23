-- ===== src/Iter/Walk/Ways.antt =====
-- A snapshot's cursor in both directions: what a walk meets from where it starts, moves or seeks to.
use go_regolith.Base.{
  ℕ, ◌≡◌, refl, sym, ap, ◌∙◌, inl, inr, Bool-cases, Option, none, some, Bool, true, false, not,
  ◌&&◌, List, [], ◌∷◌, All, if◌then◌else◌, arith,
}
use go_regolith.Failure.{Bytes}
use go_regolith.Iter.Bounds.{Bounds, bytes_lt, contains, from_start, below_end}
use go_regolith.Iter.Machine.{
  Scans, TxnInner, RegolithIter, moved_to, seek_to_start, seek_to_end, is_key, equals, at_or_above,
  clamp_to_start,
}
use go_regolith.Iter.Walk.Spans.{
  Pair, Stays, filter, take_while, drop_while, take_while-drop_while, drop_while-false,
  drop_while-not-not, drop_while-drop_while, drop_while-cons, filter-same_everywhere,
}
use go_regolith.Iter.Walk.Order.{
  Ascending, Ordered, walk_order, Ordered-walk_order, comes_before, past_first, before_last,
  contains-ends, Stays-onward, Stays-past_first, Stays-before_last, bytes_lt_trans, bytes_lt_asym,
  bytes_lt_le_trans, bytes_le_lt_trans, bytes_lt_total, equals-eq, equals-not-bytes_lt,
}
use mathlib.Core.List.{reverse}
use mathlib.Core.Path.{subst, fun_ext}

-- The documented behaviour of a snapshot's cursor, on reads that do not fail, over entries in ascending
-- order of their keys: what it meets from where it is on, upwards or, for `true`, downwards. A cursor
-- with nothing there is not valid.
pub record WalksBothWays (scans : Scans) (entries : List Pair) : Type 0 where
  pub ascending : Ascending entries
  pub ahead : Bool → scans.Cursor → List Pair
  pub key_nil : (r : Bool) (c : scans.Cursor) → ahead r c ≡ [] → scans.key c ≡ none
  pub key_cons :
      (r : Bool) (c : scans.Cursor) (e : Pair) (es : List Pair)
      → ahead r c ≡ e ∷ es
      → scans.key c ≡ some (e.0)
  pub value_cons :
      (r : Bool) (c : scans.Cursor) (e : Pair) (es : List Pair)
      → ahead r c ≡ e ∷ es
      → scans.value c ≡ some (e.1)
  pub valid_nil : (r : Bool) (c : scans.Cursor) → ahead r c ≡ [] → scans.valid c ≡ false
  pub valid_cons :
      (r : Bool) (c : scans.Cursor) (e : Pair) (es : List Pair)
      → ahead r c ≡ e ∷ es
      → scans.valid c ≡ true
  pub status_ok : (c : scans.Cursor) → scans.status c ≡ none
  pub ahead-next :
      (c : scans.Cursor) (e : Pair) (es : List Pair)
      → ahead false c ≡ e ∷ es
      → ahead false (scans.next c) ≡ es
  pub ahead-prev :
      (c : scans.Cursor) (e : Pair) (es : List Pair)
      → ahead true c ≡ e ∷ es
      → ahead true (scans.prev c) ≡ es
  pub ahead-seek_to_first : (c : scans.Cursor) → ahead false (scans.seek_to_first c) ≡ entries
  pub ahead-seek_to_last : (c : scans.Cursor) → ahead true (scans.seek_to_last c) ≡ reverse entries
  pub ahead-seek :
      (k : Bytes) (c : scans.Cursor)
      → ahead false (scans.seek k c) ≡ drop_while (λ e. bytes_lt (e.0) k) entries
  pub ahead-seek_for_prev :
      (k : Bytes) (c : scans.Cursor)
      → ahead true (scans.seek_for_prev k c) ≡ drop_while (λ e. bytes_lt k (e.0)) (reverse entries)

Ordered-drop_while :
    (r : Bool) (p : Pair → Bool) (xs : List Pair) → Ordered r xs → Ordered r (drop_while p xs)
Ordered-drop_while r p [] h = tt
Ordered-drop_while r p (x ∷ xs) (h, hs) = elim (Bool-cases (p x)) [
  | inl y ↦ rw y (Ordered-drop_while r p xs hs)
  | inr n ↦ rw n (h, hs)
]

-- The first of what is below an entry, and so all of it, is below the end that the entry's key equals.
drop_while-below :
    (end : Bytes) (es : List Pair)
    → All (λ y. bytes_lt y.0 end ≡ true) es
    → drop_while (λ e. not (bytes_lt e.0 end)) es ≡ es
drop_while-below end [] h = refl
drop_while-below end (y ∷ ys) (h, hs) = rw h refl

-- At or past a target, in the walk's direction.
abbrev pub past_target : Bool → Bytes → Bytes → Bool
past_target false target key = not (bytes_lt key target)
past_target true target key = not (bytes_lt target key)

not_past :
    (r : Bool) (target x y : Bytes)
    → comes_before r x y ≡ true
    → past_target r target x ≡ true
    → past_target r target y ≡ true
not_past false target x y g e = ground (arith, bytes_lt_trans x y target)
not_past true target x y g e = ground (arith, bytes_lt_trans target y x)

-- What a seek lands on, or meets later.
abbrev reached : Bool → Bounds → Bytes → Pair → Bool
reached r b target e = past_first r b e.0 && past_target r target e.0

Stays-and :
    (p q : Pair → Bool) (xs : List Pair) → Stays p xs → Stays q xs → Stays (λ e. p e && q e) xs
Stays-and p q [] hp hq = tt
Stays-and p q (x ∷ xs) (on, hp) (on', hq) =
    (λ e. both xs (on (ground arith)) (on' (ground arith)), Stays-and p q xs hp hq)
  where
    both :
        (ys : List Pair)
        → All (λ y. p y ≡ true) ys
        → All (λ y. q y ≡ true) ys
        → All (λ y. (p y && q y) ≡ true) ys
    both [] g g' = tt
    both (y ∷ ys) (e, g) (e', g') = (rw (e, e') refl, both ys g g')

Stays-reached :
    (r : Bool) (b : Bounds) (target : Bytes) (xs : List Pair)
    → Ordered r xs
    → Stays (reached r b target) xs
Stays-reached r b target xs o =
    Stays-and (λ e. past_first r b e.0) (λ e. past_target r target e.0) xs
      (Stays-past_first r b xs o) (Stays-onward r (past_target r target) (not_past r target) xs o)

sought-contained : (c p q t : Bool) → c ≡ (p && q) → ((p && t) && q) ≡ (c && t)
sought-contained c p q t h = ground arith

-- A walk from where a seek lands passes through what the bounds contain at and past the target.
pub take_while-reached :
    (r : Bool) (b : Bounds) (target : Bytes) (xs : List Pair)
    → Ordered r xs
    → take_while (λ e. contains b e.0) (drop_while (λ e. not (reached r b target e)) xs)
      ≡ filter (λ e. contains b e.0 && past_target r target e.0) xs
take_while-reached r b target xs o =
    take_while-drop_while (λ e. contains b e.0) (reached r b target) (λ e. before_last r b e.0) xs
      (λ e p. ground (arith, contains-ends r b e.0)) (Stays-reached r b target xs o)
      (Stays-before_last r b xs o)
    ∙ filter-same_everywhere (λ e. reached r b target e && before_last r b e.0)
        (λ e. contains b e.0 && past_target r target e.0)
        (λ e.
          sought-contained (contains b e.0) (past_first r b e.0) (before_last r b e.0)
            (past_target r target e.0) (contains-ends r b e.0))
        xs

-- The clamped target stands for both the start and the target.
pub clamp_to_start_lem :
    (start : Option Bytes) (target key : Bytes)
    → (from_start start key && not (bytes_lt key target))
      ≡ not (bytes_lt key (clamp_to_start start target))
unfolding from_start clamp_to_start
clamp_to_start_lem none target key = refl
clamp_to_start_lem (some start) target key =
    ground (arith, bytes_lt_trans key target start, bytes_lt_le_trans key start target)

pub below_target :
    (end target key : Bytes)
    → bytes_lt target end ≡ true
    → (bytes_lt key end && not (bytes_lt target key)) ≡ not (bytes_lt target key)
below_target end target key h = ground (arith, bytes_le_lt_trans key target end)

pub below_all :
    (end target key : Bytes)
    → bytes_lt target end ≡ false
    → (bytes_lt key end && not (bytes_lt target key)) ≡ bytes_lt key end
below_all end target key h = ground (arith, bytes_lt_trans target key end)

module _ (scans : Scans) (cells : ℕ → TxnInner scans.Txn) where
  -- The cursor that a walk begins on, and the one that it goes on to.
  abbrev pub begun : Bool → Bounds → scans.Cursor → scans.Cursor
  begun false b c = seek_to_start scans cells b.start c
  begun true b c = seek_to_end scans cells b.end c

  abbrev pub stepped : Bool → scans.Cursor → scans.Cursor
  stepped false c = scans.next c
  stepped true c = scans.prev c

  -- The cursor that a seek leaves.
  abbrev pub landed : Bool → Bounds → Bytes → scans.Cursor → scans.Cursor
  landed false b target c = scans.seek (clamp_to_start b.start target) c
  landed true b target c =
      if at_or_above b.end target then begun true b c else scans.seek_for_prev target c

  pub moved_to-begun :
      (r : Bool) (b : Bounds) (c : scans.Cursor) (it : RegolithIter scans)
      → (if r
          then moved_to scans (seek_to_end scans cells b.end c) it
          else moved_to scans (seek_to_start scans cells b.start c) it)
        ≡ moved_to scans (begun r b c) it
  moved_to-begun false b c it = refl
  moved_to-begun true b c it = refl

  pub moved_to-stepped :
      (r : Bool) (c : scans.Cursor) (it : RegolithIter scans)
      → moved_to scans (if r then scans.prev c else scans.next c) it
        ≡ moved_to scans (stepped r c) it
  moved_to-stepped false c it = refl
  moved_to-stepped true c it = refl

  module _ (entries : List Pair) (laws : WalksBothWays scans entries) where
    pub ahead-stepped :
        (r : Bool) (c : scans.Cursor) (e : Pair) (es : List Pair)
        → laws.ahead r c ≡ e ∷ es
        → laws.ahead r (stepped r c) ≡ es
    ahead-stepped false = laws.ahead-next
    ahead-stepped true = laws.ahead-prev

    -- One step down from an entry whose key is the exclusive end.
    ahead-below :
        (end : Bytes) (c : scans.Cursor) (l : List Pair)
        → laws.ahead true c ≡ l
        → Ordered true l
        → ((e : Pair) (es : List Pair) → l ≡ e ∷ es → bytes_lt end e.0 ≡ false)
        → laws.ahead true (if scans.valid c && is_key (scans.key c) end then scans.prev c else c)
          ≡ drop_while (λ e. not (bytes_lt e.0 end)) l
    unfolding is_key
    ahead-below end c [] h o first = rw (laws.valid_nil true c h) h
    ahead-below end c (e ∷ es) h (o, os) first = elim (Bool-cases (equals e.0 end)) [
      | inl y ↦
          let all_below : All (λ z. bytes_lt z.0 end ≡ true) es =
            subst (λ k. All (λ z. bytes_lt z.0 k ≡ true) es) (equals-eq e.0 end y) o in
          rw
            (
              laws.valid_cons true c e es h,
              laws.key_cons true c e es h,
              is_key,
              y,
              equals-not-bytes_lt e.0 end y,
            )
            (laws.ahead-prev c e es h ∙ sym (drop_while-below end es all_below))
      | inr n ↦
          rw
            (
              laws.valid_cons true c e es h,
              laws.key_cons true c e es h,
              is_key,
              n,
              bytes_lt_total e.0 end n (first e es refl),
            )
            h
    ]

    ahead-seek_to_end :
        (end : Option Bytes) (c : scans.Cursor)
        → laws.ahead true (seek_to_end scans cells end c)
          ≡ drop_while (λ e. not (below_end end e.0)) (reverse entries)
    unfolding below_end
    ahead-seek_to_end none c = laws.ahead-seek_to_last c ∙ sym (drop_while-false (reverse entries))
    ahead-seek_to_end (some end) c =
        ahead-below end (scans.seek_for_prev end c)
          (drop_while (λ e. bytes_lt end e.0) (reverse entries)) (laws.ahead-seek_for_prev end c)
          (Ordered-drop_while true (λ e. bytes_lt end e.0) (reverse entries)
            (Ordered-walk_order true entries laws.ascending))
          (drop_while-cons (λ e. bytes_lt end e.0) (reverse entries))
        ∙ drop_while-drop_while (λ e. bytes_lt end e.0) (λ e. not (bytes_lt e.0 end))
            (reverse entries) (λ e h. rw (bytes_lt_asym end e.0 h) refl)

    ahead-seek_to_start :
        (start : Option Bytes) (c : scans.Cursor)
        → laws.ahead false (seek_to_start scans cells start c)
          ≡ drop_while (λ e. not (from_start start e.0)) entries
    unfolding from_start
    ahead-seek_to_start none c = laws.ahead-seek_to_first c ∙ sym (drop_while-false entries)
    ahead-seek_to_start (some start) c =
        laws.ahead-seek start c ∙ sym (drop_while-not-not (λ e. bytes_lt e.0 start) entries)

    pub ahead-begun :
        (r : Bool) (b : Bounds) (c : scans.Cursor)
        → laws.ahead r (begun r b c)
          ≡ drop_while (λ e. not (past_first r b e.0)) (walk_order r entries)
    ahead-begun false b c = ahead-seek_to_start b.start c
    ahead-begun true b c = ahead-seek_to_end b.end c

    ahead-seek_for_prev_to :
        (end : Option Bytes) (target : Bytes) (c : scans.Cursor)
        → laws.ahead true (
            if at_or_above end target
            then seek_to_end scans cells end c
            else scans.seek_for_prev target c)
          ≡ drop_while (λ e. not (below_end end e.0 && not (bytes_lt target e.0))) (reverse entries)
    unfolding at_or_above below_end
    ahead-seek_for_prev_to none target c =
        laws.ahead-seek_for_prev target c
        ∙ sym (drop_while-not-not (λ e. bytes_lt target e.0) (reverse entries))
    ahead-seek_for_prev_to (some end) target c = elim (Bool-cases (bytes_lt target end)) [
      | inl y ↦
          rw y (laws.ahead-seek_for_prev target c)
          ∙ sym (drop_while-not-not (λ e. bytes_lt target e.0) (reverse entries))
          ∙ ap (λ p. drop_while p (reverse entries))
              (fun_ext (λ (e : Pair). ap not (sym (below_target end target e.0 y))))
      | inr n ↦
          rw n (ahead-seek_to_end (some end) c)
          ∙ ap (λ p. drop_while p (reverse entries))
              (fun_ext (λ (e : Pair). ap not (sym (below_all end target e.0 n))))
    ]

    pub ahead-landed :
        (r : Bool) (b : Bounds) (target : Bytes) (c : scans.Cursor)
        → laws.ahead r (landed r b target c)
          ≡ drop_while
              (λ e. not (past_first r b e.0 && past_target r target e.0))
              (walk_order r entries)
    ahead-landed false b target c =
        laws.ahead-seek (clamp_to_start b.start target) c
        ∙ sym (drop_while-not-not (λ e. bytes_lt e.0 (clamp_to_start b.start target)) entries)
        ∙ ap (λ p. drop_while p entries)
            (fun_ext (λ (e : Pair). ap not (sym (clamp_to_start_lem b.start target e.0))))
    ahead-landed true b target c = ahead-seek_for_prev_to b.end target c
