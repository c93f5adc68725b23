-- ===== src/Iter/Prefix.antt =====
-- Iteration over a prefix is iteration over the range that `bounds_from` makes of it.
use go_regolith.Base.{
  ℕ, ◌+◌, ◌≡◌, refl, ap, ◌∙◌, Option, none, some, Bool, true, false, not, ◌&&◌, [], ◌∷◌, ◌++◌, ◌==◌,
  if◌then◌else◌, All, arith,
}
use go_regolith.Base.Le.{IsByte}
use go_regolith.Failure.{Bytes}
use go_regolith.Iter.Bounds.{
  RegolithIterOptions, bytes_lt, contains, below_end, pop_max, prefix_end, bounds_from,
  in_opt_bytes,
}
use mathlib.Core.List.{reverse, reverse-append, reverse_aux-append}

-- Does the key begin with the prefix?
unfoldable pub has_prefix : Bytes → Bytes → Bool
has_prefix [] key = true
has_prefix (x ∷ xs) [] = false
has_prefix (x ∷ xs) (y ∷ ys) = x == y && has_prefix xs ys

-- `prefix_end` front to back: the byte is kept if something behind it can grow.
grow_here : ℕ → Option Bytes
grow_here x = if not (x == 0xff) then some ((x + 1) ∷ []) else none

keep : ℕ → Option Bytes → Option Bytes
keep x none = grow_here x
keep x (some end) = some (x ∷ end)

grow : Bytes → Option Bytes
grow [] = none
grow (x ∷ xs) = keep x (grow xs)

pop_max-append : (back : Bytes) (x : ℕ) → pop_max (back ++ (x ∷ [])) ≡ keep x (pop_max back)
unfolding pop_max keep grow_here
pop_max-append [] x = refl
pop_max-append (last ∷ rest) x =
    ground (arith, reverse_aux-append rest (x ∷ []) ((last + 1) ∷ []), pop_max-append rest x)

prefix_end-eq-grow : (prefix : Bytes) → prefix_end prefix ≡ grow prefix
unfolding prefix_end grow
prefix_end-eq-grow [] = refl
prefix_end-eq-grow (x ∷ xs) =
    rw (reverse-append (x ∷ []) xs)
      (pop_max-append (reverse xs) x ∙ ap (keep x) (prefix_end-eq-grow xs))

within-grow :
    (prefix key : Bytes)
    → All IsByte prefix
    → All IsByte key
    → (not (bytes_lt key prefix) && below_end (grow prefix) key) ≡ has_prefix prefix key
unfolding bytes_lt below_end grow keep grow_here has_prefix
within-grow [] [] p k = refl
within-grow [] (y ∷ ys) p k = refl
within-grow (x ∷ xs) [] p k = refl
within-grow (x ∷ xs) (y ∷ ys) (px, p) (ky, k) = ground (arith, within-grow xs ys p k)

-- With a prefix given, a key is in the range exactly when it begins with the prefix (the prefix itself
-- included), whatever start and end the options have.
pub contains-bounds_from :
    (opts : RegolithIterOptions) (prefix key : Bytes)
    → in_opt_bytes opts.prefix opts.prefix_len ≡ some prefix
    → All IsByte prefix
    → All IsByte key
    → contains (bounds_from (some opts)) key ≡ has_prefix prefix key
unfolding contains bounds_from
contains-bounds_from opts prefix key h p k =
    rw (h, prefix_end-eq-grow prefix) (within-grow prefix key p k)
