-- ===== src/Options/Settings.antt =====
-- What a caller of `OpenWith` means by the Go binding's `Options`: a setting, or none, for each field.
use go_regolith.Base.{ℕ, ◌≤◌, Option, none, some}
use go_regolith.Options.{
  ResolvedOptions, CompressionType, uncompressed, snappy, lz4, DurabilityMode, immediate, eventual,
  IsolationLevel, read_committed, snapshot_isolation, serializable, repeatable_read,
}
use go_regolith.Options.Go.{GoOptions}

pub record Settings : Type 0 where
  pub write_buffer_size : Option ℕ
  pub block_cache_size : Option ℕ
  pub max_background_compactions : Option ℕ
  pub transaction_keys_inline : Option ℕ
  pub compression : Option CompressionType
  pub durability : Option DurabilityMode
  pub isolation : Option IsolationLevel

-- The constants of options.go, each by the setting that it names.
unfoldable pub codec_constant : Option CompressionType → ℕ
codec_constant none = 0
codec_constant (some uncompressed) = 1
codec_constant (some snappy) = 2
codec_constant (some lz4) = 3

unfoldable pub mode_constant : Option DurabilityMode → ℕ
mode_constant none = 0
mode_constant (some immediate) = 1
mode_constant (some eventual) = 2

unfoldable pub level_constant : Option IsolationLevel → ℕ
level_constant none = 0
level_constant (some read_committed) = 1
level_constant (some snapshot_isolation) = 2
level_constant (some serializable) = 3
level_constant (some repeatable_read) = 4

unfoldable pub in_go : Settings → GoOptions
unfolding codec_constant mode_constant level_constant
in_go s = record {
  write_buffer_size = s.write_buffer_size;
  block_cache_size = s.block_cache_size;
  max_background_compactions = s.max_background_compactions;
  transaction_keys_inline = s.transaction_keys_inline;
  compression = codec_constant s.compression;
  durability = mode_constant s.durability;
  isolation = level_constant s.isolation;
}

abbrev pub over {ℓ} : {A : Type ℓ} → Option A → A → A
over none default = default
over (some a) default = a

-- The defaults, with every setting that is made in place of its default.
unfoldable pub applied :
    {Others : Type 0} → Settings → ResolvedOptions Others → ResolvedOptions Others
applied s defaults = record {
  engine = record (defaults.engine) {
    write_buffer_size = over s.write_buffer_size defaults.engine.write_buffer_size;
    block_cache_size = over s.block_cache_size defaults.engine.block_cache_size;
    max_background_compactions =
        over s.max_background_compactions defaults.engine.max_background_compactions;
    transaction_keys_inline =
        over s.transaction_keys_inline defaults.engine.transaction_keys_inline;
    compression = over s.compression defaults.engine.compression;
    durability = over s.durability defaults.engine.durability;
  };
  isolation = over s.isolation defaults.isolation;
}

abbrev pub Holds : ℕ → Option ℕ → Type 0
Holds usize_max none = Unit {0}
Holds usize_max (some n) = n ≤ usize_max

-- The numbers are within the platform's usize.
pub record IsHeld (usize_max : ℕ) (s : Settings) : Type 0 where
  pub write_buffer_size : Holds usize_max s.write_buffer_size
  pub block_cache_size : Holds usize_max s.block_cache_size
  pub max_background_compactions : Holds usize_max s.max_background_compactions
  pub transaction_keys_inline : Holds usize_max s.transaction_keys_inline
