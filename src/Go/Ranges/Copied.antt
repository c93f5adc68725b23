-- ===== src/Go/Ranges/Copied.antt =====
-- What the engine's side reads of the copied options, and what of C memory is left when they are freed.
use go_regolith.Base.{
  ℕ, ◌≡◌, refl, some, Bool, true, false, not, ◌&&◌, ◌||◌, [], ◌∷◌, ◌==◌, length, arith,
  if◌then◌else◌, All,
}
use go_regolith.Base.Le.{IsByte}
use go_regolith.Failure.{Bytes}
use go_regolith.Guard.{alloc, free}
use go_regolith.Guard.Report.{IsOrdered}
use go_regolith.Iter.Bounds.{
  from_start, below_end, RegolithIterOptions, Bounds, bytes_lt, bounds_from, contains, in_opt_bytes,
}
use go_regolith.Iter.Prefix.{has_prefix, contains-bounds_from}
use go_regolith.Go.Store.{byte_ptr}
use go_regolith.Go.Finish.{take-length}
use go_regolith.Go.Ranges.{
  IterOptions, OptionsCopy, c_bool, CMemory, written, dup, new_iter_options, free_all, free_options,
  read_options,
}

abbrev copy : IterOptions → RegolithIterOptions
copy opts = record {
  prefix = byte_ptr opts.prefix;
  prefix_len = length opts.prefix;
  start = byte_ptr opts.start;
  start_len = length opts.start;
  end = byte_ptr opts.end;
  end_len = length opts.end;
  reverse = c_bool opts.reverse;
  keys_only = c_bool opts.keys_only;
}

abbrev options : Bytes → Bytes → Bytes → Bool → Bool → IterOptions
options prefix start end reverse keys_only = record {
  prefix = prefix;
  start = start;
  end = end;
  reverse = reverse;
  keys_only = keys_only;
}

-- The blocks and the structs that are alive are the same.
pub record IsSame (before after : CMemory) : Type 0 where
  pub blocks_same : (q : ℕ) → after.blocks.cell q ≡ before.blocks.cell q
  pub structs_same : (q : ℕ) → after.structs.cell q ≡ before.structs.cell q

module _ (memory : CMemory) where
  abbrev pub made : IterOptions → OptionsCopy × CMemory
  made opts = new_iter_options opts memory

  read :
      (prefix start end : Bytes) (reverse keys_only : Bool)
      → let opts = options prefix start end reverse keys_only in
        read_options (made opts).1 (made opts).0 ≡ some (copy opts)
  unfolding read_options new_iter_options dup alloc written byte_ptr
  read [] [] [] r k = ground arith
  read [] [] (e ∷ es) r k = ground arith
  read [] (s ∷ ss) [] r k = ground arith
  read [] (s ∷ ss) (e ∷ es) r k = ground arith
  read (p ∷ ps) [] [] r k = ground arith
  read (p ∷ ps) [] (e ∷ es) r k = ground arith
  read (p ∷ ps) (s ∷ ss) [] r k = ground arith
  read (p ∷ ps) (s ∷ ss) (e ∷ es) r k = ground arith

  -- The engine's side reads the caller's ranges and flags.
  pub read_options-new_iter_options :
      (opts : IterOptions) → read_options (made opts).1 (made opts).0 ≡ some (copy opts)
  read_options-new_iter_options opts =
      read opts.prefix opts.start opts.end opts.reverse opts.keys_only

  blocks_left :
      (prefix start end : Bytes) (reverse keys_only : Bool)
      → IsOrdered memory.blocks
      → (q : ℕ)
      → let opts = options prefix start end reverse keys_only in
        (free_options (made opts).0 (made opts).1).blocks.cell q ≡ memory.blocks.cell q
  unfolding free_options free_all free new_iter_options dup alloc written
  blocks_left [] [] [] r k o q = ground (arith, o.ahead q)
  blocks_left [] [] (e ∷ es) r k o q = ground (arith, o.ahead q)
  blocks_left [] (s ∷ ss) [] r k o q = ground (arith, o.ahead q)
  blocks_left [] (s ∷ ss) (e ∷ es) r k o q = ground (arith, o.ahead q)
  blocks_left (p ∷ ps) [] [] r k o q = ground (arith, o.ahead q)
  blocks_left (p ∷ ps) [] (e ∷ es) r k o q = ground (arith, o.ahead q)
  blocks_left (p ∷ ps) (s ∷ ss) [] r k o q = ground (arith, o.ahead q)
  blocks_left (p ∷ ps) (s ∷ ss) (e ∷ es) r k o q = ground (arith, o.ahead q)

  structs_left :
      (opts : IterOptions)
      → IsOrdered memory.structs
      → (q : ℕ) → (free_options (made opts).0 (made opts).1).structs.cell q ≡ memory.structs.cell q
  unfolding free_options free new_iter_options alloc written
  structs_left opts o q = ground (arith, o.ahead q)

  -- Where no block and no struct of C memory is numbered from its heap's next number on, freeing a copy of
  -- iterator options leaves exactly the blocks and structs that were there before it was made.
  pub free_options-new_iter_options :
      (opts : IterOptions)
      → IsOrdered memory.blocks
      → IsOrdered memory.structs
      → IsSame memory (free_options (made opts).0 (made opts).1)
  free_options-new_iter_options opts b s = record {
    blocks_same = blocks_left opts.prefix opts.start opts.end opts.reverse opts.keys_only b;
    structs_same = structs_left opts s;
  }

abbrev is_nil : Bytes → Bool
is_nil [] = true
is_nil (b ∷ bs) = false

-- Which keys `IterOptions` documents: those with the prefix, or without one those from `Start` on and below
-- `End`, of which an empty one is no bound.
unfoldable pub in_range : IterOptions → Bytes → Bool
unfolding has_prefix bytes_lt
in_range opts key =
    if is_nil opts.prefix
    then (is_nil opts.start || not (bytes_lt key opts.start))
      && (is_nil opts.end || bytes_lt key opts.end)
    else has_prefix opts.prefix key

in_opt_bytes-byte_ptr :
    (b : ℕ) (bs : Bytes) → in_opt_bytes (byte_ptr (b ∷ bs)) (length (b ∷ bs)) ≡ some (b ∷ bs)
unfolding in_opt_bytes byte_ptr
in_opt_bytes-byte_ptr b bs = ground (arith, take-length bs)

from_start-byte_ptr :
    (start key : Bytes)
    → from_start (in_opt_bytes (byte_ptr start) (length start)) key
      ≡ (is_nil start || not (bytes_lt key start))
unfolding from_start
from_start-byte_ptr [] key = unfold in_opt_bytes byte_ptr in refl
from_start-byte_ptr (s ∷ ss) key = rw (in_opt_bytes-byte_ptr s ss) refl

below_end-byte_ptr :
    (end key : Bytes)
    → below_end (in_opt_bytes (byte_ptr end) (length end)) key ≡ (is_nil end || bytes_lt key end)
unfolding below_end
below_end-byte_ptr [] key = unfold in_opt_bytes byte_ptr in refl
below_end-byte_ptr (e ∷ es) key = rw (in_opt_bytes-byte_ptr e es) refl

no_prefix :
    (start end key : Bytes) (reverse keys_only : Bool)
    → contains (bounds_from (some (copy (options [] start end reverse keys_only)))) key ≡ (
        from_start (in_opt_bytes (byte_ptr start) (length start)) key
        && below_end (in_opt_bytes (byte_ptr end) (length end)) key)
unfolding contains bounds_from byte_ptr in_opt_bytes
no_prefix start end key r k = refl

contains-copy :
    (prefix start end : Bytes) (reverse keys_only : Bool) (key : Bytes)
    → All IsByte prefix
    → All IsByte key
    → contains (bounds_from (some (copy (options prefix start end reverse keys_only)))) key
      ≡ in_range (options prefix start end reverse keys_only) key
unfolding in_range
contains-copy (p ∷ ps) start end r k key h hk =
    contains-bounds_from (copy (options (p ∷ ps) start end r k)) (p ∷ ps) key
      (in_opt_bytes-byte_ptr p ps) h hk
contains-copy [] start end r k key h hk =
    rw (no_prefix start end key r k, from_start-byte_ptr, below_end-byte_ptr) refl

abbrev pub ranges : CMemory → IterOptions → Bounds
ranges memory opts = bounds_from (read_options (made memory opts).1 (made memory opts).0)

pub c_bool_lem : (b : Bool) → not (c_bool b == 0) ≡ b
unfolding c_bool
c_bool_lem true = refl
c_bool_lem false = refl

-- The bounds that the engine's side makes of a Go caller's `IterOptions`, through their copy in C memory: on
-- keys and a prefix that are bytes, they contain exactly the keys that `IterOptions` documents (those with
-- the prefix, or without one those from `Start` on and below `End`, of which an empty one is no bound), and
-- the direction and the choice of keys only are the caller's.
pub contains-new_iter_options :
    (memory : CMemory) (opts : IterOptions)
    → All IsByte opts.prefix
    → ((key : Bytes) → All IsByte key → contains (ranges memory opts) key ≡ in_range opts key)
      × ((ranges memory opts).reverse ≡ opts.reverse)
      × ((ranges memory opts).keys_only ≡ opts.keys_only)
unfolding bounds_from
contains-new_iter_options memory opts h = rw (read_options-new_iter_options memory opts) (
  (λ key hk. contains-copy opts.prefix opts.start opts.end opts.reverse opts.keys_only key h hk),
  c_bool_lem opts.reverse,
  c_bool_lem opts.keys_only,
)
