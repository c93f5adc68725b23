-- ===== src/Options/Meant.antt =====
-- What a caller's options mean, field by field, against the constants and the presence bits of regolith_ffi.h.
use go_regolith.Base.{ℕ, ◌^◌, ◌<◌, ◌≡◌, ◌↔◌, some, arith}
use go_regolith.Failure.{ok}
use go_regolith.Base.Text.{codes}
use go_regolith.Options.{
  RegolithOptions, ResolvedOptions, options_from, has, compression_type, durability_mode,
  isolation_level, as_usize, opt_write_buffer_size, opt_block_cache_size,
  opt_max_background_compactions, opt_transaction_keys_inline, opt_compression, opt_durability,
  opt_isolation,
}
use go_regolith.Options.Mask.{unknown_presence_lem}
use go_regolith.Options.Resolve.{IsResolved, options_from_iff}
use go_regolith.Options.Picked.{
  Picks, IsNumber, codec, mode, level, as_usize_iff, compression_type_iff, durability_mode_iff,
  isolation_level_iff, write_buffer_size-Tested, block_cache_size-Tested,
  max_background_compactions-Tested, transaction_keys_inline-Tested, compression-Tested,
  durability-Tested, isolation-Tested, chosen-Picks, Picks-chosen,
}

module _ {Others : Type 0} (usize_max : ℕ) (opts : RegolithOptions) where
  -- `r` is what the caller's options mean over `defaults`.
  pub record IsMeant (defaults r : ResolvedOptions Others) : Type 0 where
    pub known : opts.present < 2 ^ 7
    pub others : r.engine.others ≡ defaults.engine.others
    pub write_buffer_size :
        Picks 1 opts
          (IsNumber usize_max opts.write_buffer_size)
          defaults.engine.write_buffer_size
          r.engine.write_buffer_size
    pub block_cache_size :
        Picks 2 opts
          (IsNumber usize_max opts.block_cache_size)
          defaults.engine.block_cache_size
          r.engine.block_cache_size
    pub max_background_compactions :
        Picks 4 opts
          (IsNumber usize_max opts.max_background_compactions)
          defaults.engine.max_background_compactions
          r.engine.max_background_compactions
    pub transaction_keys_inline :
        Picks 8 opts
          (IsNumber usize_max opts.transaction_keys_inline)
          defaults.engine.transaction_keys_inline
          r.engine.transaction_keys_inline
    pub compression :
        Picks 16 opts
          (λ c. opts.compression ≡ codec c)
          defaults.engine.compression
          r.engine.compression
    pub durability :
        Picks 32 opts (λ m. opts.durability ≡ mode m) defaults.engine.durability r.engine.durability
    pub isolation : Picks 64 opts (λ l. opts.isolation ≡ level l) defaults.isolation r.isolation

  IsResolved-IsMeant :
      (defaults r : ResolvedOptions Others)
      → opts.present < 2 ^ 64
      → IsResolved usize_max opts defaults r
      → IsMeant defaults r
  IsResolved-IsMeant defaults r w h = record {
    known = omega (arith, h.known, unknown_presence_lem opts w);
    others = h.others;
    write_buffer_size =
        chosen-Picks (has opts opt_write_buffer_size) 1 opts
          (as_usize usize_max (codes "write_buffer_size") opts.write_buffer_size)
          (IsNumber usize_max opts.write_buffer_size)
          (as_usize_iff usize_max (codes "write_buffer_size") opts.write_buffer_size)
          defaults.engine.write_buffer_size r.engine.write_buffer_size
          (write_buffer_size-Tested opts) h.write_buffer_size;
    block_cache_size =
        chosen-Picks (has opts opt_block_cache_size) 2 opts
          (as_usize usize_max (codes "block_cache_size") opts.block_cache_size)
          (IsNumber usize_max opts.block_cache_size)
          (as_usize_iff usize_max (codes "block_cache_size") opts.block_cache_size)
          defaults.engine.block_cache_size r.engine.block_cache_size (block_cache_size-Tested opts)
          h.block_cache_size;
    max_background_compactions =
        chosen-Picks (has opts opt_max_background_compactions) 4 opts
          (as_usize usize_max (codes "max_background_compactions") opts.max_background_compactions)
          (IsNumber usize_max opts.max_background_compactions)
          (as_usize_iff usize_max (codes "max_background_compactions")
            opts.max_background_compactions)
          defaults.engine.max_background_compactions r.engine.max_background_compactions
          (max_background_compactions-Tested opts) h.max_background_compactions;
    transaction_keys_inline =
        chosen-Picks (has opts opt_transaction_keys_inline) 8 opts
          (as_usize usize_max (codes "transaction_keys_inline") opts.transaction_keys_inline)
          (IsNumber usize_max opts.transaction_keys_inline)
          (as_usize_iff usize_max (codes "transaction_keys_inline") opts.transaction_keys_inline)
          defaults.engine.transaction_keys_inline r.engine.transaction_keys_inline
          (transaction_keys_inline-Tested opts) h.transaction_keys_inline;
    compression =
        chosen-Picks (has opts opt_compression) 16 opts (compression_type opts.compression)
          (λ c. opts.compression ≡ codec c) (compression_type_iff opts.compression)
          defaults.engine.compression r.engine.compression (compression-Tested opts) h.compression;
    durability =
        chosen-Picks (has opts opt_durability) 32 opts (durability_mode opts.durability)
          (λ m. opts.durability ≡ mode m) (durability_mode_iff opts.durability)
          defaults.engine.durability r.engine.durability (durability-Tested opts) h.durability;
    isolation =
        chosen-Picks (has opts opt_isolation) 64 opts (isolation_level opts.isolation)
          (λ l. opts.isolation ≡ level l) (isolation_level_iff opts.isolation) defaults.isolation
          r.isolation (isolation-Tested opts) h.isolation;
  }

  IsMeant-IsResolved :
      (defaults r : ResolvedOptions Others)
      → opts.present < 2 ^ 64
      → IsMeant defaults r
      → IsResolved usize_max opts defaults r
  IsMeant-IsResolved defaults r w h = record {
    known = omega (arith, h.known, unknown_presence_lem opts w);
    others = h.others;
    write_buffer_size =
        Picks-chosen (has opts opt_write_buffer_size) 1 opts
          (as_usize usize_max (codes "write_buffer_size") opts.write_buffer_size)
          (IsNumber usize_max opts.write_buffer_size)
          (as_usize_iff usize_max (codes "write_buffer_size") opts.write_buffer_size)
          defaults.engine.write_buffer_size r.engine.write_buffer_size
          (write_buffer_size-Tested opts) h.write_buffer_size;
    block_cache_size =
        Picks-chosen (has opts opt_block_cache_size) 2 opts
          (as_usize usize_max (codes "block_cache_size") opts.block_cache_size)
          (IsNumber usize_max opts.block_cache_size)
          (as_usize_iff usize_max (codes "block_cache_size") opts.block_cache_size)
          defaults.engine.block_cache_size r.engine.block_cache_size (block_cache_size-Tested opts)
          h.block_cache_size;
    max_background_compactions =
        Picks-chosen (has opts opt_max_background_compactions) 4 opts
          (as_usize usize_max (codes "max_background_compactions") opts.max_background_compactions)
          (IsNumber usize_max opts.max_background_compactions)
          (as_usize_iff usize_max (codes "max_background_compactions")
            opts.max_background_compactions)
          defaults.engine.max_background_compactions r.engine.max_background_compactions
          (max_background_compactions-Tested opts) h.max_background_compactions;
    transaction_keys_inline =
        Picks-chosen (has opts opt_transaction_keys_inline) 8 opts
          (as_usize usize_max (codes "transaction_keys_inline") opts.transaction_keys_inline)
          (IsNumber usize_max opts.transaction_keys_inline)
          (as_usize_iff usize_max (codes "transaction_keys_inline") opts.transaction_keys_inline)
          defaults.engine.transaction_keys_inline r.engine.transaction_keys_inline
          (transaction_keys_inline-Tested opts) h.transaction_keys_inline;
    compression =
        Picks-chosen (has opts opt_compression) 16 opts (compression_type opts.compression)
          (λ c. opts.compression ≡ codec c) (compression_type_iff opts.compression)
          defaults.engine.compression r.engine.compression (compression-Tested opts) h.compression;
    durability =
        Picks-chosen (has opts opt_durability) 32 opts (durability_mode opts.durability)
          (λ m. opts.durability ≡ mode m) (durability_mode_iff opts.durability)
          defaults.engine.durability r.engine.durability (durability-Tested opts) h.durability;
    isolation =
        Picks-chosen (has opts opt_isolation) 64 opts (isolation_level opts.isolation)
          (λ l. opts.isolation ≡ level l) (isolation_level_iff opts.isolation) defaults.isolation
          r.isolation (isolation-Tested opts) h.isolation;
  }

  -- Options of a 64-bit presence mask resolve to `r` exactly when no bit but the seven known ones is set, and
  -- each field of `r` is the caller's where its bit is set: a number as it is, which the platform's usize
  -- has to hold, a codec, a mode or a level by its constant; and the default where its bit is not set, as
  -- all else is.
  pub options_from-IsMeant :
      (defaults r : ResolvedOptions Others)
      → opts.present < 2 ^ 64
      → (options_from usize_max defaults (some opts) ≡ ok r) ↔ IsMeant defaults r
  options_from-IsMeant defaults r w =
      let (to, from) = options_from_iff usize_max opts defaults r in
      (
        (λ h. IsResolved-IsMeant defaults r w (to h)),
        (λ h. from (IsMeant-IsResolved defaults r w h)),
      )
