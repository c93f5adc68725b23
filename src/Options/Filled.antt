-- ===== src/Options/Filled.antt =====
-- The struct that `toC` fills for a caller's settings: its fields, and what its presence mask holds.
use Prim.Native.Nat.{bit_or}
use go_regolith.Base.{ℕ, ◌≡◌, refl, Option, none, some, Bool, true, false, inr, if◌then◌else◌}
use go_regolith.Options.{
  RegolithOptions, CompressionType, uncompressed, snappy, lz4, DurabilityMode, immediate, eventual,
  IsolationLevel, read_committed, snapshot_isolation, serializable, repeatable_read,
  opt_write_buffer_size, opt_block_cache_size, opt_max_background_compactions,
  opt_transaction_keys_inline, opt_compression, opt_durability, opt_isolation,
}
use go_regolith.Options.Go.{
  mark, put_write_buffer_size, put_block_cache_size, put_max_background_compactions,
  put_transaction_keys_inline, put_compression, put_durability, put_isolation, to_c,
}
use go_regolith.Options.Settings.{
  Settings, in_go, codec_constant, mode_constant, level_constant, over,
}

abbrev pub is_some {ℓ} : {A : Type ℓ} → Option A → Bool
is_some none = false
is_some (some a) = true

-- The discriminants of the C struct.
unfoldable pub codec : CompressionType → ℕ
codec uncompressed = 0
codec snappy = 1
codec lz4 = 2

unfoldable pub mode : DurabilityMode → ℕ
mode immediate = 0
mode eventual = 1

unfoldable pub level : IsolationLevel → ℕ
level read_committed = 0
level snapshot_isolation = 1
level serializable = 2
level repeatable_read = 3

abbrev pub map_option {ℓ κ} : {A : Type ℓ} {B : Type κ} → (A → B) → Option A → Option B
map_option f none = none
map_option f (some a) = some (f a)

abbrev flagged : Bool → ℕ → ℕ → ℕ
flagged flag bit present = if flag then bit_or present bit else present

abbrev pub mask : Bool → Bool → Bool → Bool → Bool → Bool → Bool → ℕ
mask w b m t c d i = flagged i opt_isolation (
    flagged d opt_durability (
      flagged c opt_compression (
        flagged t opt_transaction_keys_inline (
          flagged m opt_max_background_compactions
            (flagged b opt_block_cache_size (flagged w opt_write_buffer_size 0))))))

unfoldable pub struct_of : Settings → RegolithOptions
unfolding codec mode level
struct_of s = record {
  present =
      mask (is_some s.write_buffer_size) (is_some s.block_cache_size)
        (is_some s.max_background_compactions) (is_some s.transaction_keys_inline)
        (is_some s.compression) (is_some s.durability) (is_some s.isolation);
  write_buffer_size = over s.write_buffer_size 0;
  block_cache_size = over s.block_cache_size 0;
  max_background_compactions = over s.max_background_compactions 0;
  transaction_keys_inline = over s.transaction_keys_inline 0;
  compression = over (map_option codec s.compression) 0;
  durability = over (map_option mode s.durability) 0;
  isolation = over (map_option level s.isolation) 0;
}

module _ (c : RegolithOptions) where
  put_write_buffer_size_lem :
      (v : Option ℕ)
      → put_write_buffer_size v c ≡ record c {
        present = flagged (is_some v) opt_write_buffer_size c.present;
        write_buffer_size = over v c.write_buffer_size;
      }
  unfolding put_write_buffer_size mark
  put_write_buffer_size_lem none = refl
  put_write_buffer_size_lem (some n) = refl

  put_block_cache_size_lem :
      (v : Option ℕ)
      → put_block_cache_size v c ≡ record c {
        present = flagged (is_some v) opt_block_cache_size c.present;
        block_cache_size = over v c.block_cache_size;
      }
  unfolding put_block_cache_size mark
  put_block_cache_size_lem none = refl
  put_block_cache_size_lem (some n) = refl

  put_max_background_compactions_lem :
      (v : Option ℕ)
      → put_max_background_compactions v c ≡ record c {
        present = flagged (is_some v) opt_max_background_compactions c.present;
        max_background_compactions = over v c.max_background_compactions;
      }
  unfolding put_max_background_compactions mark
  put_max_background_compactions_lem none = refl
  put_max_background_compactions_lem (some n) = refl

  put_transaction_keys_inline_lem :
      (v : Option ℕ)
      → put_transaction_keys_inline v c ≡ record c {
        present = flagged (is_some v) opt_transaction_keys_inline c.present;
        transaction_keys_inline = over v c.transaction_keys_inline;
      }
  unfolding put_transaction_keys_inline mark
  put_transaction_keys_inline_lem none = refl
  put_transaction_keys_inline_lem (some n) = refl

  pub put_compression_lem :
      (v : Option CompressionType)
      → put_compression (codec_constant v) c
        ≡ inr (record c {
          present = flagged (is_some v) opt_compression c.present;
          compression = over (map_option codec v) c.compression;
        })
  unfolding put_compression codec_constant codec mark
  put_compression_lem none = refl
  put_compression_lem (some uncompressed) = refl
  put_compression_lem (some snappy) = refl
  put_compression_lem (some lz4) = refl

  pub put_durability_lem :
      (v : Option DurabilityMode)
      → put_durability (mode_constant v) c
        ≡ inr (record c {
          present = flagged (is_some v) opt_durability c.present;
          durability = over (map_option mode v) c.durability;
        })
  unfolding put_durability mode_constant mode mark
  put_durability_lem none = refl
  put_durability_lem (some immediate) = refl
  put_durability_lem (some eventual) = refl

  put_isolation_lem :
      (v : Option IsolationLevel)
      → put_isolation (level_constant v) c
        ≡ inr (record c {
          present = flagged (is_some v) opt_isolation c.present;
          isolation = over (map_option level v) c.isolation;
        })
  unfolding put_isolation level_constant level mark
  put_isolation_lem none = refl
  put_isolation_lem (some read_committed) = refl
  put_isolation_lem (some snapshot_isolation) = refl
  put_isolation_lem (some serializable) = refl
  put_isolation_lem (some repeatable_read) = refl

ruleset puts = (
  put_write_buffer_size_lem, put_block_cache_size_lem, put_max_background_compactions_lem,
  put_transaction_keys_inline_lem, put_compression_lem, put_durability_lem, put_isolation_lem,
)

pub to_c-in_go : (s : Settings) → to_c (in_go s) ≡ inr (struct_of s)
unfolding to_c in_go struct_of
to_c-in_go s = simp puts
