-- ===== src/Options/Resolve.antt =====
-- What `options_from` makes of a caller's struct, and of the one that the Go binding fills.
use go_regolith.Base.{
  ℕ, ◌*◌, ◌/◌, ◌^◌, ◌≤◌, ◌<◌, ◌≡◌, refl, ap, some, true, false, arith, ◌==◌, Bool-cases, ==_iff,
  ◌↔◌, inl, inr,
}
use mathlib.Core.Path.{subst}
use go_regolith.Failure.{ok, err, invalid_arg, >>=-eq-ok}
use go_regolith.Base.Text.{codes}
use go_regolith.Options.{
  RegolithOptions, ResolvedOptions, CompressionType, DurabilityMode, IsolationLevel, options_from,
  has, unknown_presence, unknown_bits, compression_type, durability_mode, isolation_level, as_usize,
  opt_write_buffer_size, opt_block_cache_size, opt_max_background_compactions,
  opt_transaction_keys_inline, opt_compression, opt_durability, opt_isolation,
}
use go_regolith.Options.Mask.{unknown_presence_lem}
use go_regolith.Options.Steps.{choose, ok-injective, assigned, steps}

-- A presence bit that this version does not know is refused, and the refusal shows exactly those bits.
pub options_from_unknown :
    {Others : Type 0} (usize_max : ℕ) (defaults : ResolvedOptions Others) (opts : RegolithOptions)
    → opts.present < 2 ^ 64
    → 128 ≤ opts.present
    → options_from usize_max defaults (some opts)
      ≡ err (invalid_arg (unknown_bits (128 * (opts.present / 128))))
unfolding options_from
options_from_unknown usize_max defaults opts w h =
    let nonzero : (unknown_presence opts == 0) ≡ false =
      ground (arith, unknown_presence_lem opts w) in
    rw nonzero (ap (λ n. err (invalid_arg (unknown_bits n))) (unknown_presence_lem opts w))

module _ {Others : Type 0} (usize_max : ℕ) (opts : RegolithOptions) where
  -- `r` is what the caller's struct resolves to over `defaults`.
  pub record IsResolved (defaults r : ResolvedOptions Others) : Type 0 where
    pub known : unknown_presence opts ≡ 0
    pub isolation :
        choose (has opts opt_isolation) (isolation_level opts.isolation) defaults.isolation
        ≡ ok (r.isolation)
    pub others : r.engine.others ≡ defaults.engine.others
    pub write_buffer_size :
        choose
          (has opts opt_write_buffer_size)
          (as_usize usize_max (codes "write_buffer_size") opts.write_buffer_size)
          (defaults.engine.write_buffer_size)
        ≡ ok (r.engine.write_buffer_size)
    pub block_cache_size :
        choose
          (has opts opt_block_cache_size)
          (as_usize usize_max (codes "block_cache_size") opts.block_cache_size)
          (defaults.engine.block_cache_size)
        ≡ ok (r.engine.block_cache_size)
    pub max_background_compactions :
        choose
          (has opts opt_max_background_compactions)
          (as_usize usize_max (codes "max_background_compactions") opts.max_background_compactions)
          (defaults.engine.max_background_compactions)
        ≡ ok (r.engine.max_background_compactions)
    pub transaction_keys_inline :
        choose
          (has opts opt_transaction_keys_inline)
          (as_usize usize_max (codes "transaction_keys_inline") opts.transaction_keys_inline)
          (defaults.engine.transaction_keys_inline)
        ≡ ok (r.engine.transaction_keys_inline)
    pub compression :
        choose
          (has opts opt_compression)
          (compression_type opts.compression)
          (defaults.engine.compression)
        ≡ ok (r.engine.compression)
    pub durability :
        choose
          (has opts opt_durability)
          (durability_mode opts.durability)
          (defaults.engine.durability)
        ≡ ok (r.engine.durability)

  module _ (defaults r : ResolvedOptions Others) where
    abbrev resolved :
        ℕ → ℕ → ℕ → ℕ → CompressionType → DurabilityMode → IsolationLevel → ResolvedOptions Others
    resolved w b m t c d i = record {
      engine = record (defaults.engine) {
        write_buffer_size = w;
        block_cache_size = b;
        max_background_compactions = m;
        transaction_keys_inline = t;
        compression = c;
        durability = d;
      };
      isolation = i;
    }

    finish :
        (unknown_presence opts == 0) ≡ true
        → (w b m t : ℕ) (c : CompressionType) (d : DurabilityMode) (i : IsolationLevel)
        → choose
            (has opts opt_write_buffer_size)
            (as_usize usize_max (codes "write_buffer_size") opts.write_buffer_size)
            (defaults.engine.write_buffer_size)
          ≡ ok w
        → choose
            (has opts opt_block_cache_size)
            (as_usize usize_max (codes "block_cache_size") opts.block_cache_size)
            (defaults.engine.block_cache_size)
          ≡ ok b
        → choose
            (has opts opt_max_background_compactions)
            (as_usize usize_max
              (codes "max_background_compactions")
              opts.max_background_compactions)
            (defaults.engine.max_background_compactions)
          ≡ ok m
        → choose
            (has opts opt_transaction_keys_inline)
            (as_usize usize_max (codes "transaction_keys_inline") opts.transaction_keys_inline)
            (defaults.engine.transaction_keys_inline)
          ≡ ok t
        → choose
            (has opts opt_compression)
            (compression_type opts.compression)
            (defaults.engine.compression)
          ≡ ok c
        → choose
            (has opts opt_durability)
            (durability_mode opts.durability)
            (defaults.engine.durability)
          ≡ ok d
        → choose (has opts opt_isolation) (isolation_level opts.isolation) (defaults.isolation)
          ≡ ok i
        → ok (resolved w b m t c d i) ≡ ok r
        → IsResolved defaults r
    finish known w b m t c d i ew eb em et ec ed ei h =
        subst (IsResolved defaults) (ok-injective h) (record {
          known = (==_iff (unknown_presence opts) 0).0 known;
          isolation = ei;
          others = refl;
          write_buffer_size = ew;
          block_cache_size = eb;
          max_background_compactions = em;
          transaction_keys_inline = et;
          compression = ec;
          durability = ed;
        })

  options_from-IsResolved :
      (defaults r : ResolvedOptions Others)
      → options_from usize_max defaults (some opts) ≡ ok r
      → IsResolved defaults r
  unfolding options_from
  options_from-IsResolved defaults r h = elim (Bool-cases (unknown_presence opts == 0)) [
    | inl known ↦
        let h₀ = simp steps at (rw known at h) in
        let (w, ew, h₁) =
          assigned
            (choose (has opts opt_write_buffer_size)
              (as_usize usize_max (codes "write_buffer_size") opts.write_buffer_size)
              (defaults.engine.write_buffer_size))
            (λ v. record (defaults) { engine = record (defaults.engine) { write_buffer_size = v } })
            _ h₀ in
        let r₁ : ResolvedOptions Others = record (defaults) {
          engine = record (defaults.engine) { write_buffer_size = w };
        } in
        let (b, eb, h₂) =
          assigned
            (choose (has opts opt_block_cache_size)
              (as_usize usize_max (codes "block_cache_size") opts.block_cache_size)
              (defaults.engine.block_cache_size))
            (λ v. record (r₁) { engine = record (r₁.engine) { block_cache_size = v } }) _ h₁ in
        let r₂ : ResolvedOptions Others = record (r₁) {
          engine = record (r₁.engine) { block_cache_size = b };
        } in
        let (m, em, h₃) =
          assigned
            (choose (has opts opt_max_background_compactions)
              (as_usize usize_max (codes "max_background_compactions")
                opts.max_background_compactions)
              (defaults.engine.max_background_compactions))
            (λ v. record (r₂) { engine = record (r₂.engine) { max_background_compactions = v } }) _
            h₂ in
        let r₃ : ResolvedOptions Others = record (r₂) {
          engine = record (r₂.engine) { max_background_compactions = m };
        } in
        let (t, et, h₄) =
          assigned
            (choose (has opts opt_transaction_keys_inline)
              (as_usize usize_max (codes "transaction_keys_inline") opts.transaction_keys_inline)
              (defaults.engine.transaction_keys_inline))
            (λ v. record (r₃) { engine = record (r₃.engine) { transaction_keys_inline = v } }) _
            h₃ in
        let r₄ : ResolvedOptions Others = record (r₃) {
          engine = record (r₃.engine) { transaction_keys_inline = t };
        } in
        let (c, ec, h₅) =
          assigned
            (choose (has opts opt_compression) (compression_type opts.compression)
              (defaults.engine.compression))
            (λ v. record (r₄) { engine = record (r₄.engine) { compression = v } }) _ h₄ in
        let r₅ : ResolvedOptions Others = record (r₄) {
          engine = record (r₄.engine) { compression = c };
        } in
        let (d, ed, h₆) =
          assigned
            (choose (has opts opt_durability) (durability_mode opts.durability)
              (defaults.engine.durability))
            (λ v. record (r₅) { engine = record (r₅.engine) { durability = v } }) _ h₅ in
        let r₆ : ResolvedOptions Others = record (r₅) {
          engine = record (r₅.engine) { durability = d };
        } in
        let (i, ei, h₇) =
          >>=-eq-ok
            (choose (has opts opt_isolation) (isolation_level opts.isolation) (defaults.isolation))
            (λ v. ok (record (r₆) { isolation = v })) h₆ in
        finish defaults r known w b m t c d i ew eb em et ec ed ei h₇
    | inr unknown ↦ cc (rw unknown at h)
  ]

  IsResolved-options_from :
      (defaults r : ResolvedOptions Others)
      → IsResolved defaults r
      → options_from usize_max defaults (some opts) ≡ ok r
  unfolding options_from
  IsResolved-options_from defaults r h = rw (h.known) (
      simp steps (
        rw
          (
            h.write_buffer_size, h.block_cache_size, h.max_background_compactions,
            h.transaction_keys_inline, h.compression, h.durability, h.isolation,
          )
          (ground arith)))

  -- Options resolve to `r` exactly when no unknown bit is set, each field of `r` is what its presence bit
  -- selects (the caller's value, read without loss, or the default) and all else is the default.
  pub options_from_iff :
      (defaults r : ResolvedOptions Others)
      → (options_from usize_max defaults (some opts) ≡ ok r) ↔ IsResolved defaults r
  options_from_iff defaults r =
      (options_from-IsResolved defaults r, IsResolved-options_from defaults r)
