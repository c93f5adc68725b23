-- ===== src/Iter/Bounds.antt =====
-- `RegolithIterOptions`, `Bounds` and how one becomes the other.
use go_regolith.Base.{
  ℕ, ◌+◌, Option, none, some, Bool, true, false, not, ◌&&◌, [], ◌∷◌, ltb, ◌==◌, if◌then◌else◌, take,
}
use go_regolith.Failure.{Bytes}
use mathlib.Core.List.{reverse}

-- A `*const u8` for input: null, or the memory that it points at.
abbrev pub InPointer : Type 0
InPointer = Option Bytes

-- `in_bytes` and `in_opt_bytes` of lib.rs. `slice::from_raw_parts` reads `len` bytes.
unfoldable pub in_bytes : InPointer → ℕ → Option Bytes
in_bytes none len = if len == 0 then some [] else none
in_bytes (some memory) len = if len == 0 then some [] else some (take len memory)

unfoldable pub in_opt_bytes : InPointer → ℕ → Option Bytes
in_opt_bytes none len = none
in_opt_bytes (some memory) len = if len == 0 then none else some (take len memory)

pub record RegolithIterOptions : Type 0 where
  pub prefix : InPointer
  pub prefix_len : ℕ
  pub start : InPointer
  pub start_len : ℕ
  pub end : InPointer
  pub end_len : ℕ
  pub reverse : ℕ
  pub keys_only : ℕ

pub record Bounds : Type 0 where
  pub start : Option Bytes
  pub end : Option Bytes
  pub reverse : Bool
  pub keys_only : Bool

pub data ScanDirection : Type 0 where
  forward backward : ScanDirection

unfoldable pub direction : Bounds → ScanDirection
direction b = if b.reverse then backward else forward

-- `<` on byte slices.
unfoldable pub bytes_lt : Bytes → Bytes → Bool
bytes_lt xs [] = false
bytes_lt [] (y ∷ ys) = true
bytes_lt (x ∷ xs) (y ∷ ys) = if ltb x y then true else if ltb y x then false else bytes_lt xs ys

-- The two `if let` of `Bounds::contains`: not below the start, and below the end.
unfoldable pub from_start : Option Bytes → Bytes → Bool
from_start none key = true
from_start (some start) key = not (bytes_lt key start)

unfoldable pub below_end : Option Bytes → Bytes → Bool
below_end none key = true
below_end (some end) key = bytes_lt key end

unfoldable pub contains : Bounds → Bytes → Bool
unfolding from_start below_end bytes_lt
contains b key = from_start b.start key && below_end b.end key

-- The loop of `prefix_end` pops bytes off the back: the vector is kept back to front.
unfoldable pub pop_max : Bytes → Option Bytes
pop_max [] = none
pop_max (last ∷ rest) =
    let more = pop_max rest in
    if not (last == 0xff) then some (reverse ((last + 1) ∷ rest)) else more

unfoldable pub prefix_end : Bytes → Option Bytes
unfolding pop_max
prefix_end prefix = pop_max (reverse prefix)

-- The `match prefix` of `bounds_from`: the range's two ends.
unfoldable pub range_of : Option Bytes → RegolithIterOptions → Option Bytes × Option Bytes
unfolding in_opt_bytes prefix_end
range_of (some prefix) opts = (some prefix, prefix_end prefix)
range_of none opts = (in_opt_bytes opts.start opts.start_len, in_opt_bytes opts.end opts.end_len)

unfoldable pub bounds_from : Option RegolithIterOptions → Bounds
unfolding range_of in_opt_bytes
bounds_from none = record { start = none; end = none; reverse = false; keys_only = false }
bounds_from (some opts) =
    let (start, end) = range_of (in_opt_bytes opts.prefix opts.prefix_len) opts in
    record {
      start = start;
      end = end;
      reverse = not (opts.reverse == 0);
      keys_only = not (opts.keys_only == 0);
    }
