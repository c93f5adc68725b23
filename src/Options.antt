-- ===== src/Options.antt =====
-- ffi/src/options.rs: the caller's options resolved onto the engine's, and options.go, which fills the
-- struct that crosses. A `u64` or `u32` field is a number below its bound.
pub mod Go
pub mod Mask
pub mod Meant
pub mod Picked
pub mod Steps
pub mod Resolve
pub mod Settings
pub mod Filled
pub mod Presence
pub mod RoundTrip
pub mod Refused
mod Runs
use Prim.Native.Nat.{bit_and, bit_or}
use go_regolith.Base.{
  ℕ, ◌+◌, ◌-◌, ◌^◌, ◌<◌, Option, none, some, Bool, List, [], ◌∷◌, ◌++◌, ltb, not, ◌==◌,
  if◌then◌else◌,
}
use go_regolith.Base.Text.{codes, decimal, hexadecimal}
use go_regolith.Failure.{Bytes, Result, ok, err, invalid_arg, ◌>>=◌}

abbrev pub u64_max : ℕ
u64_max = 2 ^ 64 - 1

-- The presence bits, `1 << 0` to `1 << 6`.
abbrev pub opt_write_buffer_size : ℕ
opt_write_buffer_size = 2 ^ 0

abbrev pub opt_block_cache_size : ℕ
opt_block_cache_size = 2 ^ 1

abbrev pub opt_max_background_compactions : ℕ
opt_max_background_compactions = 2 ^ 2

abbrev pub opt_transaction_keys_inline : ℕ
opt_transaction_keys_inline = 2 ^ 3

abbrev pub opt_compression : ℕ
opt_compression = 2 ^ 4

abbrev pub opt_durability : ℕ
opt_durability = 2 ^ 5

abbrev pub opt_isolation : ℕ
opt_isolation = 2 ^ 6

abbrev pub opt_known : ℕ
opt_known =
    bit_or
      (bit_or
        (bit_or
          (bit_or
            (bit_or (bit_or opt_write_buffer_size opt_block_cache_size)
              opt_max_background_compactions)
            opt_transaction_keys_inline)
          opt_compression)
        opt_durability)
      opt_isolation

pub record RegolithOptions : Type 0 where
  pub present : ℕ
  pub write_buffer_size : ℕ
  pub block_cache_size : ℕ
  pub max_background_compactions : ℕ
  pub transaction_keys_inline : ℕ
  pub compression : ℕ
  pub durability : ℕ
  pub isolation : ℕ

-- The engine's enums, by the variants that this code names.
pub data CompressionType : Type 0 where
  uncompressed snappy lz4 : CompressionType

pub data DurabilityMode : Type 0 where
  immediate eventual : DurabilityMode

pub data IsolationLevel : Type 0 where
  read_committed snapshot_isolation serializable repeatable_read : IsolationLevel

-- The engine's `Options`: the fields that this code writes, and the dozens of others in one.
pub record EngineOptions (Others : Type 0) : Type 0 where
  pub write_buffer_size : ℕ
  pub block_cache_size : ℕ
  pub max_background_compactions : ℕ
  pub transaction_keys_inline : ℕ
  pub compression : CompressionType
  pub durability : DurabilityMode
  pub others : Others

pub record ResolvedOptions (Others : Type 0) : Type 0 where
  pub engine : EngineOptions Others
  pub isolation : IsolationLevel

unfoldable pub does_not_fit : Bytes → ℕ → Bytes
unfolding codes decimal
does_not_fit name value =
    codes "invalid option `"
    ++ name
    ++ codes "`: "
    ++ decimal value
    ++ codes " does not fit in a usize on this platform"

unfoldable pub unknown_bits : ℕ → Bytes
unfolding codes hexadecimal
unknown_bits unknown =
    codes "invalid option `present`: unknown presence bits " ++ hexadecimal unknown

unfoldable pub unknown_codec : ℕ → Bytes
unfolding codes decimal
unknown_codec n = codes "invalid option `compression`: unknown codec " ++ decimal n

unfoldable pub unknown_mode : ℕ → Bytes
unfolding codes decimal
unknown_mode n = codes "invalid option `durability`: unknown mode " ++ decimal n

unfoldable pub unknown_level : ℕ → Bytes
unfolding codes decimal
unknown_level n = codes "invalid option `isolation`: unknown level " ++ decimal n

-- The three `match` expressions on a discriminant, the `COMPRESSION_*`, `DURABILITY_*` and `ISOLATION_*`.
unfoldable pub compression_type : ℕ → Result CompressionType
compression_type n =
    if n == 0
    then ok uncompressed
    else if n == 1
    then ok snappy
    else if n == 2
    then ok lz4
    else err (invalid_arg (unknown_codec n))

unfoldable pub durability_mode : ℕ → Result DurabilityMode
durability_mode n =
    if n == 0
    then ok immediate
    else if n == 1
    then ok eventual
    else err (invalid_arg (unknown_mode n))

unfoldable pub isolation_level : ℕ → Result IsolationLevel
isolation_level n =
    if n == 0
    then ok read_committed
    else if n == 1
    then ok snapshot_isolation
    else if n == 2
    then ok serializable
    else if n == 3
    then ok repeatable_read
    else err (invalid_arg (unknown_level n))

-- `opts.present & bit != 0`.
unfoldable pub has : RegolithOptions → ℕ → Bool
has opts bit = not (bit_and opts.present bit == 0)

-- `opts.present & !OPT_KNOWN`.
unfoldable pub unknown_presence : RegolithOptions → ℕ
unknown_presence opts = bit_and opts.present (u64_max - opt_known)

module _ (usize_max : ℕ) where
  unfoldable pub as_usize : Bytes → ℕ → Result ℕ
  as_usize name value =
      if ltb usize_max value then err (invalid_arg (does_not_fit name value)) else ok value

module _ {Others : Type 0} where
  -- The assignments of `options_from`, one for each field, each under its presence bit.
  module _ (usize_max : ℕ) (opts : RegolithOptions) (r : ResolvedOptions Others) where
    unfoldable pub set_write_buffer_size : Result (ResolvedOptions Others)
    set_write_buffer_size =
        if has opts opt_write_buffer_size
        then (do
          n ← as_usize usize_max (codes "write_buffer_size") opts.write_buffer_size
          ok (record r { engine = record (r.engine) { write_buffer_size = n } }))
        else ok r

    unfoldable pub set_block_cache_size : Result (ResolvedOptions Others)
    set_block_cache_size =
        if has opts opt_block_cache_size
        then (do
          n ← as_usize usize_max (codes "block_cache_size") opts.block_cache_size
          ok (record r { engine = record (r.engine) { block_cache_size = n } }))
        else ok r

    unfoldable pub set_max_background_compactions : Result (ResolvedOptions Others)
    set_max_background_compactions =
        if has opts opt_max_background_compactions
        then (do
          n ←
              as_usize usize_max (codes "max_background_compactions")
                opts.max_background_compactions
          ok (record r { engine = record (r.engine) { max_background_compactions = n } }))
        else ok r

    unfoldable pub set_transaction_keys_inline : Result (ResolvedOptions Others)
    set_transaction_keys_inline =
        if has opts opt_transaction_keys_inline
        then (do
          n ← as_usize usize_max (codes "transaction_keys_inline") opts.transaction_keys_inline
          ok (record r { engine = record (r.engine) { transaction_keys_inline = n } }))
        else ok r

    unfoldable pub set_compression : Result (ResolvedOptions Others)
    set_compression =
        if has opts opt_compression
        then (do
          c ← compression_type opts.compression
          ok (record r { engine = record (r.engine) { compression = c } }))
        else ok r

    unfoldable pub set_durability : Result (ResolvedOptions Others)
    set_durability =
        if has opts opt_durability
        then (do
          d ← durability_mode opts.durability
          ok (record r { engine = record (r.engine) { durability = d } }))
        else ok r

    unfoldable pub set_isolation : Result (ResolvedOptions Others)
    set_isolation =
        if has opts opt_isolation
        then (do i ← isolation_level opts.isolation; ok (record r { isolation = i }))
        else ok r

  -- `defaults` is `ResolvedOptions::default()`; a null pointer is `none`.
  unfoldable pub options_from :
      ℕ → ResolvedOptions Others → Option RegolithOptions → Result (ResolvedOptions Others)
  unfolding set_write_buffer_size set_block_cache_size set_max_background_compactions
      set_transaction_keys_inline set_compression set_durability set_isolation
  options_from usize_max defaults none = ok defaults
  options_from usize_max defaults (some opts) =
      if not (unknown_presence opts == 0)
      then err (invalid_arg (unknown_bits (unknown_presence opts)))
      else (do
        r₁ ← set_write_buffer_size usize_max opts defaults
        r₂ ← set_block_cache_size usize_max opts r₁
        r₃ ← set_max_background_compactions usize_max opts r₂
        r₄ ← set_transaction_keys_inline usize_max opts r₃
        r₅ ← set_compression usize_max opts r₄
        r₆ ← set_durability usize_max opts r₅
        set_isolation usize_max opts r₆)
