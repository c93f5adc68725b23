-- ===== src/Options/Refused.antt =====
-- The refusals of `toC` and of `options_from`: each is an invalid argument, and when they come.
use go_regolith.Base.{
  ℕ, zero, suc, ◌≡◌, refl, sym, ◌⊎◌, inl, inr, Option, none, some, Bool, true, false, ◌==◌,
  Bool-cases, arith,
}
use go_regolith.Failure.{Bytes, Result, ok, ◌>>=◌}
use go_regolith.Failure.Checked.{IsChecked, IsChecked-bind, refusal}
use go_regolith.Options.{
  RegolithOptions, ResolvedOptions, options_from, as_usize, compression_type, durability_mode,
  isolation_level, unknown_bits, unknown_presence, does_not_fit, unknown_codec, unknown_mode,
  unknown_level,
}
use go_regolith.Options.Go.{
  GoOptions, to_c, put_compression, put_durability, put_isolation, invalid_compression,
  invalid_durability, invalid_isolation,
}
use go_regolith.Options.{
  CompressionType, uncompressed, snappy, lz4, DurabilityMode, immediate, eventual, IsolationLevel,
  read_committed, snapshot_isolation, serializable, repeatable_read,
}
use go_regolith.Options.Settings.{Settings, in_go, codec_constant, mode_constant, level_constant}
use go_regolith.Options.Filled.{put_compression_lem, put_durability_lem}
use go_regolith.Go.Errors.{GoError, err_invalid_argument}
use go_regolith.Options.Steps.{choose, steps}

as_usize-IsChecked : (usize_max : ℕ) (name : Bytes) (n : ℕ) → IsChecked (as_usize usize_max name n)
unfolding as_usize
as_usize-IsChecked usize_max name n = ground (arith, refusal (does_not_fit name n))

compression_type-IsChecked : (n : ℕ) → IsChecked (compression_type n)
unfolding compression_type
compression_type-IsChecked n = ground (arith, refusal (unknown_codec n))

durability_mode-IsChecked : (n : ℕ) → IsChecked (durability_mode n)
unfolding durability_mode
durability_mode-IsChecked n = ground (arith, refusal (unknown_mode n))

isolation_level-IsChecked : (n : ℕ) → IsChecked (isolation_level n)
unfolding isolation_level
isolation_level-IsChecked n = ground (arith, refusal (unknown_level n))

choose-IsChecked :
    {A : Type 0} (b : Bool) (given : Result A) (default : A)
    → IsChecked given
    → IsChecked (choose b given default)
unfolding choose
choose-IsChecked true given default h = h
choose-IsChecked false given default h = tt

assigned-IsChecked :
    {A B C : Type 0} (b : Bool) (given : Result A) (default : A) (put : A → B) (rest : B → Result C)
    → IsChecked given
    → ((r : B) → IsChecked (rest r))
    → IsChecked ((choose b given default >>= λ v. ok (put v)) >>= rest)
assigned-IsChecked b given default put rest h k =
    IsChecked-bind _ rest
      (IsChecked-bind (choose b given default) _ (choose-IsChecked b given default h) (λ v. tt)) k

module _ {Others : Type 0} (usize_max : ℕ) (defaults : ResolvedOptions Others) where
  -- Options resolve or are refused as an invalid argument, with the reason.
  pub options_from-IsChecked :
      (opts : Option RegolithOptions) → IsChecked (options_from usize_max defaults opts)
  unfolding options_from
  options_from-IsChecked none = tt
  options_from-IsChecked (some opts) = elim (Bool-cases (unknown_presence opts == 0)) [
    | inr e ↦ rw e (refusal (unknown_bits (unknown_presence opts)))
    | inl e ↦ rw e (
        simp steps (
          assigned-IsChecked _ _ _ _ _ (as_usize-IsChecked _ _ _) λ r₁.
            assigned-IsChecked _ _ _ _ _ (as_usize-IsChecked _ _ _) λ r₂.
              assigned-IsChecked _ _ _ _ _ (as_usize-IsChecked _ _ _) λ r₃.
                assigned-IsChecked _ _ _ _ _ (as_usize-IsChecked _ _ _) λ r₄.
                  assigned-IsChecked _ _ _ _ _ (compression_type-IsChecked _) λ r₅.
                    assigned-IsChecked _ _ _ _ _ (durability_mode-IsChecked _) λ r₆.
                      IsChecked-bind _ _ (choose-IsChecked _ _ _ (isolation_level-IsChecked _))
                        (λ i. tt)))
  ]

codec_cases :
    (n : ℕ)
    → ((v : Option CompressionType) × (n ≡ codec_constant v))
      ⊎ ((c : RegolithOptions) → put_compression n c ≡ inl (invalid_compression n))
unfolding put_compression codec_constant
codec_cases zero = inl (none, refl)
codec_cases (suc zero) = inl (some uncompressed, refl)
codec_cases (suc (suc zero)) = inl (some snappy, refl)
codec_cases (suc (suc (suc zero))) = inl (some lz4, refl)
codec_cases (suc (suc (suc (suc n)))) = inr (λ c. ground arith)

mode_cases :
    (n : ℕ)
    → ((v : Option DurabilityMode) × (n ≡ mode_constant v))
      ⊎ ((c : RegolithOptions) → put_durability n c ≡ inl (invalid_durability n))
unfolding put_durability mode_constant
mode_cases zero = inl (none, refl)
mode_cases (suc zero) = inl (some immediate, refl)
mode_cases (suc (suc zero)) = inl (some eventual, refl)
mode_cases (suc (suc (suc n))) = inr (λ c. ground arith)

level_cases :
    (n : ℕ)
    → ((v : Option IsolationLevel) × (n ≡ level_constant v))
      ⊎ ((c : RegolithOptions) → put_isolation n c ≡ inl (invalid_isolation n))
unfolding put_isolation level_constant
level_cases zero = inl (none, refl)
level_cases (suc zero) = inl (some read_committed, refl)
level_cases (suc (suc zero)) = inl (some snapshot_isolation, refl)
level_cases (suc (suc (suc zero))) = inl (some serializable, refl)
level_cases (suc (suc (suc (suc zero)))) = inl (some repeatable_read, refl)
level_cases (suc (suc (suc (suc (suc n))))) = inr (λ c. ground arith)

-- An enum that is no constant of options.go ends `toC` in an invalid argument.
pub record ToCRefuses (o : GoOptions) : Type 0 where
  pub error : GoError
  pub refused : to_c o ≡ inl error
  pub invalid : error.sentinel ≡ err_invalid_argument

-- Either the fields are those of some settings, or `toC` refuses them.
pub to_c-cases : (o : GoOptions) → ((s : Settings) × (o ≡ in_go s)) ⊎ ToCRefuses o
unfolding to_c in_go invalid_compression invalid_durability invalid_isolation
to_c-cases o = elim (codec_cases o.compression) [
  | inr e ↦
      inr
        (record { error = invalid_compression o.compression; refused = rw e refl; invalid = refl })
  | inl (c, ec) ↦ elim (mode_cases o.durability) [
    | inr e ↦ inr (record {
      error = invalid_durability o.durability;
      refused = rw (ec, put_compression_lem, e) refl;
      invalid = refl;
    })
    | inl (d, ed) ↦ elim (level_cases o.isolation) [
      | inr e ↦ inr (record {
        error = invalid_isolation o.isolation;
        refused = rw (ec, ed, put_compression_lem, put_durability_lem, e) refl;
        invalid = refl;
      })
      | inl (i, ei) ↦ inl (
        record {
          write_buffer_size = o.write_buffer_size;
          block_cache_size = o.block_cache_size;
          max_background_compactions = o.max_background_compactions;
          transaction_keys_inline = o.transaction_keys_inline;
          compression = c;
          durability = d;
          isolation = i;
        },
        rw (sym ec, sym ed, sym ei) refl,
      )
    ]
  ]
]
