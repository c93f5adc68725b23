-- ===== src/Options/RoundTrip.antt =====
-- The settings of a Go caller, through `toC` and `options_from`.
use go_regolith.Base.{ℕ, ◌≡◌, refl, Option, none, some, Bool-cases, inl, inr, arith, ltb}
use go_regolith.Failure.{Bytes, ok}
use go_regolith.Base.Text.{codes}
use go_regolith.Options.{
  ResolvedOptions, options_from, as_usize, compression_type, durability_mode, isolation_level,
  CompressionType, uncompressed, snappy, lz4, DurabilityMode, immediate, eventual, IsolationLevel,
  read_committed, snapshot_isolation, serializable, repeatable_read,
}
use go_regolith.Options.Go.{to_c}
use go_regolith.Options.Settings.{Settings, in_go, applied, over, Holds, IsHeld}
use go_regolith.Options.Filled.{is_some, codec, mode, level, struct_of, to_c-in_go, map_option}
use go_regolith.Options.Presence.{struct_of-Shows}
use go_regolith.Options.Steps.{choose}
use go_regolith.Options.Resolve.{IsResolved, options_from_iff}

number :
    (usize_max : ℕ) (name : Bytes) (v : Option ℕ) (default : ℕ)
    → Holds usize_max v
    → choose (is_some v) (as_usize usize_max name (over v 0)) default ≡ ok (over v default)
unfolding choose as_usize
number usize_max name none default h = refl
number usize_max name (some n) default h = ground arith

compression :
    (v : Option CompressionType) (default : CompressionType)
    → choose (is_some v) (compression_type (over (map_option codec v) 0)) default
      ≡ ok (over v default)
unfolding choose compression_type codec
compression none default = refl
compression (some uncompressed) default = refl
compression (some snappy) default = refl
compression (some lz4) default = refl

durability :
    (v : Option DurabilityMode) (default : DurabilityMode)
    → choose (is_some v) (durability_mode (over (map_option mode v) 0)) default
      ≡ ok (over v default)
unfolding choose durability_mode mode
durability none default = refl
durability (some immediate) default = refl
durability (some eventual) default = refl

isolation :
    (v : Option IsolationLevel) (default : IsolationLevel)
    → choose (is_some v) (isolation_level (over (map_option level v) 0)) default
      ≡ ok (over v default)
unfolding choose isolation_level level
isolation none default = refl
isolation (some read_committed) default = refl
isolation (some snapshot_isolation) default = refl
isolation (some serializable) default = refl
isolation (some repeatable_read) default = refl

module _ {Others : Type 0} (usize_max : ℕ) (defaults : ResolvedOptions Others) where
  struct_of-IsResolved :
      (s : Settings)
      → IsHeld usize_max s
      → IsResolved usize_max (struct_of s) defaults (applied s defaults)
  unfolding applied
  struct_of-IsResolved s h =
      let shows = struct_of-Shows s in
      record {
        known = shows.known;
        isolation =
            rw (shows.isolation) (unfold struct_of in isolation s.isolation defaults.isolation);
        others = refl;
        write_buffer_size =
            rw (shows.write_buffer_size)
              (unfold struct_of in number usize_max _ _ _ h.write_buffer_size);
        block_cache_size =
            rw (shows.block_cache_size)
              (unfold struct_of in number usize_max _ _ _ h.block_cache_size);
        max_background_compactions =
            rw (shows.max_background_compactions)
              (unfold struct_of in number usize_max _ _ _ h.max_background_compactions);
        transaction_keys_inline =
            rw (shows.transaction_keys_inline)
              (unfold struct_of in number usize_max _ _ _ h.transaction_keys_inline);
        compression =
            rw (shows.compression)
              (unfold struct_of in compression s.compression defaults.engine.compression);
        durability =
            rw (shows.durability)
              (unfold struct_of in durability s.durability defaults.engine.durability);
      }

  -- Settings whose numbers are within the platform's usize, written with the constants of options.go and
  -- passed through `toC` and `options_from`: each setting that is made, of zero too, replaces its default,
  -- and everything else is the default.
  pub options_from-to_c :
      (s : Settings)
      → IsHeld usize_max s
      → (c : _) × (to_c (in_go s) ≡ inr c)
        × (options_from usize_max defaults (some c) ≡ ok (applied s defaults))
  options_from-to_c s h = (
    struct_of s,
    to_c-in_go s,
    (options_from_iff usize_max (struct_of s) defaults (applied s defaults)).1
        (struct_of-IsResolved s h),
  )

number_held :
    (usize_max : ℕ) (name : Bytes) (v : Option ℕ) (default n : ℕ)
    → choose (is_some v) (as_usize usize_max name (over v 0)) default ≡ ok n
    → Holds usize_max v
unfolding choose as_usize
number_held usize_max name none default n e = tt
number_held usize_max name (some m) default n e = elim (Bool-cases (ltb usize_max m)) [
  | inl b ↦ cc (rw b at e)
  | inr b ↦ ground arith
]

-- What resolves has its numbers within the platform's usize.
pub options_from-IsHeld :
    {Others : Type 0} (usize_max : ℕ) (defaults r : ResolvedOptions Others) (s : Settings)
    → options_from usize_max defaults (some (struct_of s)) ≡ ok r
    → IsHeld usize_max s
unfolding struct_of codes
options_from-IsHeld usize_max defaults r s e =
    let is = (options_from_iff usize_max (struct_of s) defaults r).0 e in
    let shows = struct_of-Shows s in
    record {
      write_buffer_size =
          number_held usize_max (codes "write_buffer_size") _ _ _
            (rw (shows.write_buffer_size) at is.write_buffer_size);
      block_cache_size =
          number_held usize_max (codes "block_cache_size") _ _ _
            (rw (shows.block_cache_size) at is.block_cache_size);
      max_background_compactions =
          number_held usize_max (codes "max_background_compactions") _ _ _
            (rw (shows.max_background_compactions) at is.max_background_compactions);
      transaction_keys_inline =
          number_held usize_max (codes "transaction_keys_inline") _ _ _
            (rw (shows.transaction_keys_inline) at is.transaction_keys_inline);
    }
