-- ===== src/Options/Runs.antt =====
-- Concrete resolutions, as options.rs and options_test.go test them, and the theorems at concrete inputs.
use go_regolith.Base.{◌*◌, ◌+◌, ◌^◌, ◌≡◌, ◌↔◌, refl, none, some, inr, arith}
use go_regolith.Base.Text.{codes}
use go_regolith.Failure.{ok, err, invalid_arg}
use go_regolith.Options.{
  RegolithOptions, ResolvedOptions, lz4, immediate, eventual, snapshot_isolation, serializable,
  options_from, u64_max, has, as_usize, unknown_presence, compression_type, durability_mode,
  isolation_level, unknown_bits, unknown_codec, unknown_mode, unknown_level, does_not_fit,
}
use go_regolith.Options.Go.{GoOptions, to_c, unset}
use go_regolith.Options.Meant.{IsMeant, options_from-IsMeant}
use go_regolith.Options.Resolve.{options_from_unknown}

-- The documented defaults; nothing else of the engine's options is looked at.
abbrev defaults : ResolvedOptions (Unit {0})
defaults = record {
  engine = record {
    write_buffer_size = 64 * 2 ^ 20;
    block_cache_size = 512 * 2 ^ 20;
    max_background_compactions = 1;
    transaction_keys_inline = 32;
    compression = lz4;
    durability = eventual;
    others = tt;
  };
  isolation = snapshot_isolation;
}

null_means_defaults : options_from u64_max defaults none ≡ ok defaults
unfolding options_from
null_means_defaults = refl

zeroed_struct_means_defaults : options_from u64_max defaults (some unset) ≡ ok defaults
unfolding options_from has unknown_presence
zeroed_struct_means_defaults = refl

-- The README's options, through `toC`.
abbrev readme : GoOptions
readme = record {
  write_buffer_size = none;
  block_cache_size = none;
  max_background_compactions = some 0;
  transaction_keys_inline = some 8;
  compression = 0;
  durability = 1;
  isolation = 3;
}

abbrev readme_struct : RegolithOptions
readme_struct = record unset {
  present = 108;
  transaction_keys_inline = 8;
  durability = 0;
  isolation = 2;
}

to_c-readme : to_c readme ≡ inr readme_struct
unfolding to_c
to_c-readme = refl

abbrev readme_resolved : ResolvedOptions (Unit {0})
readme_resolved = record {
  engine = record (defaults.engine) {
    max_background_compactions = 0;
    transaction_keys_inline = 8;
    durability = immediate;
  };
  isolation = serializable;
}

resolve_readme : options_from u64_max defaults (some readme_struct) ≡ ok readme_resolved
unfolding options_from has unknown_presence as_usize durability_mode isolation_level
resolve_readme = refl

unknown_level_refused :
    options_from u64_max defaults (some (record unset { present = 64; isolation = 4 }))
    ≡ err (invalid_arg (unknown_level 4))
unfolding options_from has unknown_presence isolation_level
unknown_level_refused = refl

unknown_codec_refused :
    options_from u64_max defaults (some (record unset { present = 16; compression = 99 }))
    ≡ err (invalid_arg (unknown_codec 99))
unfolding options_from has unknown_presence compression_type
unknown_codec_refused = refl

unknown_bits_text :
    unknown_bits (2 ^ 40) ≡ codes "invalid option `present`: unknown presence bits 0x10000000000"
unfolding unknown_bits
unknown_bits_text = refl

unknown_codec_text : unknown_codec 99 ≡ codes "invalid option `compression`: unknown codec 99"
unfolding unknown_codec
unknown_codec_text = refl

unknown_mode_text : unknown_mode 7 ≡ codes "invalid option `durability`: unknown mode 7"
unfolding unknown_mode
unknown_mode_text = refl

unknown_level_text : unknown_level 4 ≡ codes "invalid option `isolation`: unknown level 4"
unfolding unknown_level
unknown_level_text = refl

does_not_fit_text :
    does_not_fit (codes "block_cache_size") 4294967296
    ≡ codes "invalid option `block_cache_size`: 4294967296 does not fit in a usize on this platform"
unfolding does_not_fit
does_not_fit_text = refl

options_from-IsMeant_example :
    (options_from u64_max defaults (some readme_struct) ≡ ok readme_resolved)
    ↔ IsMeant u64_max readme_struct defaults readme_resolved
options_from-IsMeant_example =
    options_from-IsMeant u64_max readme_struct defaults readme_resolved (omega arith)

options_from_unknown_example :
    options_from u64_max defaults (some (record unset { present = 2 ^ 40 + 3 }))
    ≡ err (invalid_arg (unknown_bits (2 ^ 40)))
options_from_unknown_example =
    options_from_unknown u64_max defaults (record unset { present = 2 ^ 40 + 3 }) (omega arith)
      (omega arith)
