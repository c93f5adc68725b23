-- ===== src/Options/Steps.antt =====
-- Each assignment of `options_from`, as a choice between the caller's value and the default.
use go_regolith.Base.{ℕ, ◌≡◌, refl, Bool, true, false, Bool-cases, inl, inr}
use go_regolith.Failure.{Result, ok, err, panic, ◌>>=◌}
use go_regolith.Base.Text.{codes}
use go_regolith.Options.{
  set_isolation, set_write_buffer_size, set_block_cache_size, set_max_background_compactions,
  set_transaction_keys_inline, set_compression, set_durability, RegolithOptions, ResolvedOptions,
  has, compression_type, durability_mode, isolation_level, as_usize, opt_write_buffer_size,
  opt_block_cache_size, opt_max_background_compactions, opt_transaction_keys_inline,
  opt_compression, opt_durability, opt_isolation,
}

-- What a field becomes: what the caller's value reads as if the field's bit is set, the default if not.
unfoldable pub choose : {A : Type 0} → Bool → Result A → A → Result A
choose true given default = given
choose false given default = ok default

pub ok-injective : {A : Type 0} {a b : A} → ok a ≡ ok b → a ≡ b
ok-injective h = cc

-- Inversion of one assignment in the chain.
pub assigned :
    {A B C : Type 0} (m : Result A) (put : A → B) (rest : B → Result C) {c : C}
    → ((m >>= λ a. ok (put a)) >>= rest) ≡ ok c
    → (a : A) × (m ≡ ok a) × (rest (put a) ≡ ok c)
assigned (ok a) put rest h = (a, refl, h)
assigned (err e) put rest h = cc
assigned (panic p) put rest h = cc

module _ {Others : Type 0} (usize_max : ℕ) (opts : RegolithOptions) where
  pub set_write_buffer_size_lem :
      (r : ResolvedOptions Others)
      → set_write_buffer_size usize_max opts r ≡ (do
        v ←
            choose
              (has opts opt_write_buffer_size)
              (as_usize usize_max (codes "write_buffer_size") opts.write_buffer_size)
              r.engine.write_buffer_size
        ok (record r { engine = record (r.engine) { write_buffer_size = v } }))
  unfolding set_write_buffer_size choose
  set_write_buffer_size_lem r = elim (Bool-cases (has opts opt_write_buffer_size)) [
    | inl e ↦ rw e
    | inr e ↦ rw e
  ]

  pub set_block_cache_size_lem :
      (r : ResolvedOptions Others)
      → set_block_cache_size usize_max opts r ≡ (do
        v ←
            choose
              (has opts opt_block_cache_size)
              (as_usize usize_max (codes "block_cache_size") opts.block_cache_size)
              r.engine.block_cache_size
        ok (record r { engine = record (r.engine) { block_cache_size = v } }))
  unfolding set_block_cache_size choose
  set_block_cache_size_lem r = elim (Bool-cases (has opts opt_block_cache_size)) [
    | inl e ↦ rw e
    | inr e ↦ rw e
  ]

  pub set_max_background_compactions_lem :
      (r : ResolvedOptions Others)
      → set_max_background_compactions usize_max opts r ≡ (do
        v ←
            choose
              (has opts opt_max_background_compactions)
              (as_usize usize_max
                (codes "max_background_compactions")
                opts.max_background_compactions)
              r.engine.max_background_compactions
        ok (record r { engine = record (r.engine) { max_background_compactions = v } }))
  unfolding set_max_background_compactions choose
  set_max_background_compactions_lem r =
      elim (Bool-cases (has opts opt_max_background_compactions)) [ inl e ↦ rw e | inr e ↦ rw e ]

  pub set_transaction_keys_inline_lem :
      (r : ResolvedOptions Others)
      → set_transaction_keys_inline usize_max opts r ≡ (do
        v ←
            choose
              (has opts opt_transaction_keys_inline)
              (as_usize usize_max (codes "transaction_keys_inline") opts.transaction_keys_inline)
              r.engine.transaction_keys_inline
        ok (record r { engine = record (r.engine) { transaction_keys_inline = v } }))
  unfolding set_transaction_keys_inline choose
  set_transaction_keys_inline_lem r = elim (Bool-cases (has opts opt_transaction_keys_inline)) [
    | inl e ↦ rw e
    | inr e ↦ rw e
  ]

  pub set_compression_lem :
      (r : ResolvedOptions Others)
      → set_compression usize_max opts r ≡ (do
        v ←
            choose
              (has opts opt_compression)
              (compression_type opts.compression)
              r.engine.compression
        ok (record r { engine = record (r.engine) { compression = v } }))
  unfolding set_compression choose
  set_compression_lem r = elim (Bool-cases (has opts opt_compression)) [
    | inl e ↦ rw e
    | inr e ↦ rw e
  ]

  pub set_durability_lem :
      (r : ResolvedOptions Others)
      → set_durability usize_max opts r ≡ (do
        v ← choose (has opts opt_durability) (durability_mode opts.durability) r.engine.durability
        ok (record r { engine = record (r.engine) { durability = v } }))
  unfolding set_durability choose
  set_durability_lem r = elim (Bool-cases (has opts opt_durability)) [ inl e ↦ rw e | inr e ↦ rw e ]

  pub set_isolation_lem :
      (r : ResolvedOptions Others)
      → set_isolation usize_max opts r ≡ (do
        v ← choose (has opts opt_isolation) (isolation_level opts.isolation) r.isolation
        ok (record r { isolation = v }))
  unfolding set_isolation choose
  set_isolation_lem r = elim (Bool-cases (has opts opt_isolation)) [ inl e ↦ rw e | inr e ↦ rw e ]

  pub ruleset steps = (
    set_write_buffer_size_lem, set_block_cache_size_lem, set_max_background_compactions_lem,
    set_transaction_keys_inline_lem, set_compression_lem, set_durability_lem, set_isolation_lem,
  )
