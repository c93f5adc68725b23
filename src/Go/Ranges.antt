-- ===== src/Go/Ranges.antt =====
-- regolith.go: `IterOptions`, and its copy in C memory for the length of the call that takes it. An
-- allocation succeeds; a nil slice is the empty one.
pub mod Copied
use go_regolith.Base.{
  ℕ, ◌+◌, Option, none, some, Bool, true, false, List, [], ◌∷◌, ◌++◌, ◌==◌, if◌then◌else◌, length,
}
use go_regolith.Failure.{Bytes}
use go_regolith.Guard.{Heap, alloc, free}
use go_regolith.Iter.Bounds.{InPointer, RegolithIterOptions}

pub record IterOptions : Type 0 where
  pub prefix : Bytes
  pub start : Bytes
  pub end : Bytes
  pub reverse : Bool
  pub keys_only : Bool

unfoldable pub c_bool : Bool → ℕ
c_bool true = 1
c_bool false = 0

-- The C struct, its pointers by the numbers of the blocks that they point at.
pub record COptions : Type 0 where
  pub prefix : Option ℕ
  pub prefix_len : ℕ
  pub start : Option ℕ
  pub start_len : ℕ
  pub end : Option ℕ
  pub end_len : ℕ
  pub reverse : ℕ
  pub keys_only : ℕ

abbrev pub zeroed : COptions
zeroed = record {
  prefix = none;
  prefix_len = 0;
  start = none;
  start_len = 0;
  end = none;
  end_len = 0;
  reverse = 0;
  keys_only = 0;
}

-- What `C.CBytes` and `C.calloc` have handed out and `C.free` has not taken back.
pub record CMemory : Type 0 where
  pub blocks : Heap Bytes
  pub structs : Heap COptions

-- `iterOptions`
pub record OptionsCopy : Type 0 where
  pub opts : ℕ
  pub bufs : List ℕ

-- A write through a pointer.
unfoldable pub written {ℓ} : {A : Type ℓ} → ℕ → A → Heap A → Heap A
written p a h = record h { cell = λ q. if q == p then some a else h.cell q }

-- `iterOptions.dup`, on the blocks and `o.bufs`.
unfoldable pub dup : Bytes → Heap Bytes × List ℕ → (Option ℕ × ℕ) × (Heap Bytes × List ℕ)
unfolding alloc
dup [] (blocks, bufs) = ((none, 0), (blocks, bufs))
dup (b ∷ bs) (blocks, bufs) =
    ((some blocks.next, length (b ∷ bs)), (alloc (b ∷ bs) blocks, bufs ++ blocks.next ∷ []))

unfoldable pub new_iter_options : IterOptions → CMemory → OptionsCopy × CMemory
unfolding dup alloc written c_bool
new_iter_options opts memory =
    let o = memory.structs.next in
    let structs = alloc zeroed memory.structs in
    let ((prefix, prefix_len), s₁) = dup opts.prefix (memory.blocks, []) in
    let ((start, start_len), s₂) = dup opts.start s₁ in
    let ((end, end_len), s₃) = dup opts.end s₂ in
    let filled : COptions = record {
      prefix = prefix;
      prefix_len = prefix_len;
      start = start;
      start_len = start_len;
      end = end;
      end_len = end_len;
      reverse = c_bool opts.reverse;
      keys_only = c_bool opts.keys_only;
    } in
    (record { opts = o; bufs = s₃.1 }, record { blocks = s₃.0; structs = written o filled structs })

unfoldable pub free_all : List ℕ → Heap Bytes → Heap Bytes
unfolding free
free_all [] blocks = blocks
free_all (p ∷ ps) blocks = free_all ps (free p blocks)

unfoldable pub free_options : OptionsCopy → CMemory → CMemory
unfolding free_all free
free_options o memory = record {
  blocks = free_all o.bufs memory.blocks;
  structs = free o.opts memory.structs;
}

-- What the call that takes the pointer reads there.
abbrev pub pointed : Heap Bytes → Option ℕ → InPointer
pointed blocks none = none
pointed blocks (some p) = blocks.cell p

unfoldable pub read_options : CMemory → OptionsCopy → Option RegolithIterOptions
read_options memory o = elim (memory.structs.cell o.opts) [
  | none ↦ none
  | some c ↦ some (record {
    prefix = pointed memory.blocks c.prefix;
    prefix_len = c.prefix_len;
    start = pointed memory.blocks c.start;
    start_len = c.start_len;
    end = pointed memory.blocks c.end;
    end_len = c.end_len;
    reverse = c.reverse;
    keys_only = c.keys_only;
  })
]
