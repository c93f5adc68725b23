-- ===== src/Iter/Walk/Order.antt =====
-- Entries in the order of a walk: what is past a walk's first bound stays so, and what is past its last.
use go_regolith.Base.{
  ◌≡◌, refl, sym, ap, ◌∙◌, Option, none, some, Bool, true, false, not, ◌&&◌, List, [], ◌∷◌, ◌++◌,
  arith, All, All-append, length, length-append,
}
use go_regolith.Failure.{Bytes}
use go_regolith.Iter.Bounds.{Bounds, bytes_lt, contains, from_start, below_end}
use go_regolith.Iter.Machine.{equals}
use go_regolith.Iter.Walk.Spans.{
  Pair, Stays, filter, take_while, drop_while, take_while-drop_while, filter-same_everywhere,
}
use mathlib.Core.List.{reverse, reverse-cons}
use mathlib.Core.Path.{subst}

-- Which of two keys a walk comes to first, in reverse or not.
abbrev pub comes_before : Bool → Bytes → Bytes → Bool
comes_before false x y = bytes_lt x y
comes_before true x y = bytes_lt y x

-- Each key comes before all the later ones.
abbrev pub Ordered : Bool → List Pair → Type 0
Ordered r [] = Unit {0}
Ordered r (x ∷ xs) = All (λ y. comes_before r x.0 y.0 ≡ true) xs × Ordered r xs

-- Each key is below all the later ones.
abbrev pub Ascending : List Pair → Type 0
Ascending = Ordered false

-- Entries that ascend, in the order of a walk.
abbrev pub walk_order : Bool → List Pair → List Pair
walk_order false es = es
walk_order true es = reverse es

pub bytes_lt_trans :
    (a b c : Bytes) → bytes_lt a b ≡ true → bytes_lt b c ≡ true → bytes_lt a c ≡ true
unfolding bytes_lt
bytes_lt_trans a [] c h g = absurd (ground arith)
bytes_lt_trans a (y ∷ ys) [] h g = absurd (ground arith)
bytes_lt_trans [] (y ∷ ys) (z ∷ zs) h g = refl
bytes_lt_trans (x ∷ xs) (y ∷ ys) (z ∷ zs) h g = ground (arith, bytes_lt_trans xs ys zs)

pub comes_before_trans :
    (r : Bool) (a b c : Bytes)
    → comes_before r a b ≡ true
    → comes_before r b c ≡ true
    → comes_before r a c ≡ true
comes_before_trans false a b c h g = bytes_lt_trans a b c h g
comes_before_trans true a b c h g = bytes_lt_trans c b a g h

pub bytes_lt_le_trans :
    (a b c : Bytes) → bytes_lt a b ≡ true → bytes_lt c b ≡ false → bytes_lt a c ≡ true
unfolding bytes_lt
bytes_lt_le_trans a [] c h g = absurd (ground arith)
bytes_lt_le_trans a (y ∷ ys) [] h g = absurd cc
bytes_lt_le_trans [] (y ∷ ys) (z ∷ zs) h g = refl
bytes_lt_le_trans (x ∷ xs) (y ∷ ys) (z ∷ zs) h g = ground (arith, bytes_lt_le_trans xs ys zs)

pub bytes_le_lt_trans :
    (a b c : Bytes) → bytes_lt b a ≡ false → bytes_lt b c ≡ true → bytes_lt a c ≡ true
unfolding bytes_lt
bytes_le_lt_trans a b [] h g = absurd (ground arith)
bytes_le_lt_trans [] b (z ∷ zs) h g = refl
bytes_le_lt_trans (x ∷ xs) [] (z ∷ zs) h g = absurd cc
bytes_le_lt_trans (x ∷ xs) (y ∷ ys) (z ∷ zs) h g = ground (arith, bytes_le_lt_trans xs ys zs)

pub bytes_lt_asym : (a b : Bytes) → bytes_lt a b ≡ true → bytes_lt b a ≡ false
unfolding bytes_lt
bytes_lt_asym a [] h = absurd (ground arith)
bytes_lt_asym [] (y ∷ ys) h = refl
bytes_lt_asym (x ∷ xs) (y ∷ ys) h = ground (arith, bytes_lt_asym xs ys)

pub equals-not-bytes_lt : (a b : Bytes) → equals a b ≡ true → bytes_lt a b ≡ false
unfolding equals bytes_lt
equals-not-bytes_lt [] [] h = refl
equals-not-bytes_lt [] (y ∷ ys) h = absurd cc
equals-not-bytes_lt (x ∷ xs) [] h = refl
equals-not-bytes_lt (x ∷ xs) (y ∷ ys) h = ground (arith, equals-not-bytes_lt xs ys)

pub equals-eq : (a b : Bytes) → equals a b ≡ true → a ≡ b
unfolding equals
equals-eq [] [] h = refl
equals-eq [] (y ∷ ys) h = absurd cc
equals-eq (x ∷ xs) [] h = absurd cc
equals-eq (x ∷ xs) (y ∷ ys) h = ground (arith, equals-eq xs ys)

-- Of two keys one is below the other, or they are equal.
pub bytes_lt_total : (a b : Bytes) → equals a b ≡ false → bytes_lt b a ≡ false → bytes_lt a b ≡ true
unfolding equals bytes_lt
bytes_lt_total [] [] h g = absurd cc
bytes_lt_total [] (y ∷ ys) h g = refl
bytes_lt_total (x ∷ xs) [] h g = absurd cc
bytes_lt_total (x ∷ xs) (y ∷ ys) h g = ground (arith, bytes_lt_total xs ys)

module _ (P : Pair → Type 0) where
  All-reverse : (xs : List Pair) → All P xs → All P (reverse xs)
  All-reverse [] h = tt
  All-reverse (x ∷ xs) (p, ps) =
      subst (All P) (sym (reverse-cons x xs))
        (All-append P (reverse xs) (x ∷ []) (All-reverse xs ps) (p, tt))

  pub All-walk_order : (r : Bool) (xs : List Pair) → All P xs → All P (walk_order r xs)
  All-walk_order false xs h = h
  All-walk_order true xs h = All-reverse xs h

length-reverse : (xs : List Pair) → length (reverse xs) ≡ length xs
length-reverse [] = refl
length-reverse (x ∷ xs) =
    ap length (reverse-cons x xs)
    ∙ omega (arith, length-append (reverse xs) (x ∷ []), length-reverse xs)

pub length-walk_order : (r : Bool) (xs : List Pair) → length (walk_order r xs) ≡ length xs
length-walk_order false xs = refl
length-walk_order true xs = length-reverse xs

Ordered-append :
    (ys : List Pair) (x : Pair)
    → Ordered true ys
    → All (λ y. bytes_lt x.0 y.0 ≡ true) ys
    → Ordered true (ys ++ (x ∷ []))
Ordered-append [] x o h = (tt, tt)
Ordered-append (y ∷ ys) x (o, os) (h, hs) =
    (All-append (λ z. bytes_lt z.0 y.0 ≡ true) ys (x ∷ []) o (h, tt), Ordered-append ys x os hs)

pub Ordered-walk_order : (r : Bool) (xs : List Pair) → Ascending xs → Ordered r (walk_order r xs)
Ordered-walk_order false xs h = h
Ordered-walk_order true [] h = tt
Ordered-walk_order true (x ∷ xs) (h, hs) = subst (Ordered true) (sym (reverse-cons x xs)) (
    Ordered-append (reverse xs) x (Ordered-walk_order true xs hs)
      (All-reverse (λ y. bytes_lt x.0 y.0 ≡ true) xs h))

-- A test that passes on to every key after one stays true.
pub Stays-onward :
    (r : Bool) (p : Bytes → Bool)
    → ((x y : Bytes) → comes_before r x y ≡ true → p x ≡ true → p y ≡ true)
    → (xs : List Pair) → Ordered r xs
    → Stays (λ e. p e.0) xs
Stays-onward r p on [] h = tt
Stays-onward r p on (x ∷ xs) (h, hs) = (λ e. all_on xs h e, Stays-onward r p on xs hs)
  where
    all_on :
        (ys : List Pair)
        → All (λ y. comes_before r x.0 y.0 ≡ true) ys
        → p x.0 ≡ true
        → All (λ y. p y.0 ≡ true) ys
    all_on [] g e = tt
    all_on (y ∷ ys) (g, gs) e = (on x.0 y.0 g e, all_on ys gs e)

-- Past the bound that a walk begins at, and not past the one that it ends at.
abbrev pub past_first : Bool → Bounds → Bytes → Bool
past_first false b key = from_start b.start key
past_first true b key = below_end b.end key

abbrev pub before_last : Bool → Bounds → Bytes → Bool
before_last false b key = below_end b.end key
before_last true b key = from_start b.start key

and_comm : (x y : Bool) → (x && y) ≡ (y && x)
and_comm x y = ground arith

pub contains-ends :
    (r : Bool) (b : Bounds) (key : Bytes)
    → contains b key ≡ (past_first r b key && before_last r b key)
unfolding contains
contains-ends false b key = refl
contains-ends true b key = and_comm (from_start b.start key) (below_end b.end key)

from_start_up :
    (start : Option Bytes) (x y : Bytes)
    → bytes_lt x y ≡ true
    → from_start start x ≡ true
    → from_start start y ≡ true
unfolding from_start
from_start_up none x y g e = refl
from_start_up (some start) x y g e = ground (arith, bytes_lt_trans x y start)

below_end_down :
    (end : Option Bytes) (x y : Bytes)
    → bytes_lt x y ≡ true
    → below_end end y ≡ true
    → below_end end x ≡ true
unfolding below_end
below_end_down none x y g e = refl
below_end_down (some end) x y g e = bytes_lt_trans x y end g e

contrapose : (x y : Bool) → (y ≡ true → x ≡ true) → not x ≡ true → not y ≡ true
contrapose x false h e = refl
contrapose x true h e = rw (h refl) at e

pub Stays-past_first :
    (r : Bool) (b : Bounds) (xs : List Pair) → Ordered r xs → Stays (λ e. past_first r b e.0) xs
Stays-past_first false b = Stays-onward false (from_start b.start) (from_start_up b.start)
Stays-past_first true b = Stays-onward true (below_end b.end) (λ x y g. below_end_down b.end y x g)

pub Stays-before_last :
    (r : Bool) (b : Bounds) (xs : List Pair)
    → Ordered r xs
    → Stays (λ e. not (before_last r b e.0)) xs
Stays-before_last false b =
    Stays-onward false (λ k. not (below_end b.end k))
      (λ x y g. contrapose (below_end b.end x) (below_end b.end y) (below_end_down b.end x y g))
Stays-before_last true b =
    Stays-onward true (λ k. not (from_start b.start k))
      (λ x y g.
        contrapose (from_start b.start x) (from_start b.start y) (from_start_up b.start y x g))

-- A walk that begins at its first bound passes through what the bounds contain.
pub take_while-contains :
    (r : Bool) (b : Bounds) (xs : List Pair)
    → Ordered r xs
    → take_while (λ e. contains b e.0) (drop_while (λ e. not (past_first r b e.0)) xs)
      ≡ filter (λ e. contains b e.0) xs
take_while-contains r b xs o =
    take_while-drop_while (λ e. contains b e.0) (λ e. past_first r b e.0) (λ e. before_last r b e.0)
      xs (λ e p. contains-ends r b e.0 ∙ rw p refl) (Stays-past_first r b xs o)
      (Stays-before_last r b xs o)
    ∙ filter-same_everywhere (λ e. past_first r b e.0 && before_last r b e.0) (λ e. contains b e.0)
        (λ e. sym (contains-ends r b e.0)) xs
