-- ===== src/Options/Picked.antt =====
-- One field of a caller's options as the code reads it, against the presence bits and the constants of regolith_ffi.h.
use Prim.Native.Nat.{bit_and}
use go_regolith.Base.{
  ℕ, ◌/◌, ◌%◌, ◌≤◌, ◌≡◌, ◌↔◌, ◌⊎◌, refl, sym, ap, ◌∙◌, inl, inr, Bool-cases, Bool, true, false,
  ◌==◌, ltb, arith,
}
use go_regolith.Failure.{Bytes, Result, ok}
use go_regolith.Options.{
  RegolithOptions, CompressionType, DurabilityMode, IsolationLevel, uncompressed, snappy, lz4,
  immediate, eventual, read_committed, snapshot_isolation, serializable, repeatable_read, has,
  compression_type, durability_mode, isolation_level, as_usize, opt_write_buffer_size,
  opt_block_cache_size, opt_max_background_compactions, opt_transaction_keys_inline,
  opt_compression, opt_durability, opt_isolation,
}
use go_regolith.Options.Mask.{bit_0, bit_1, bit_2, bit_3, bit_4, bit_5, bit_6}
use go_regolith.Options.Steps.{choose, ok-injective}

-- The presence bit that is worth `place` is set.
abbrev pub IsGiven : ℕ → RegolithOptions → Type 0
IsGiven place opts = opts.present / place % 2 ≡ 1

abbrev pub IsLeftOut : ℕ → RegolithOptions → Type 0
IsLeftOut place opts = opts.present / place % 2 ≡ 0

-- A field is the value of the caller's where it is given, which is what `Reads` says, or the default.
abbrev pub Picks : {A : Type 0} → ℕ → RegolithOptions → (A → Type 0) → A → A → Type 0
Picks place opts Reads default field =
    (IsGiven place opts × Reads field) ⊎ (IsLeftOut place opts × (field ≡ default))

-- A number is read as it is, and only where the platform's usize holds it.
abbrev pub IsNumber : ℕ → ℕ → ℕ → Type 0
IsNumber usize_max value field = (value ≤ usize_max) × (field ≡ value)

abbrev pub codec : CompressionType → ℕ
codec uncompressed = 0
codec snappy = 1
codec lz4 = 2

abbrev pub mode : DurabilityMode → ℕ
mode immediate = 0
mode eventual = 1

abbrev pub level : IsolationLevel → ℕ
level read_committed = 0
level snapshot_isolation = 1
level serializable = 2
level repeatable_read = 3

pub as_usize_iff :
    (usize_max : ℕ) (name : Bytes) (value n : ℕ)
    → (as_usize usize_max name value ≡ ok n) ↔ IsNumber usize_max value n
unfolding as_usize
as_usize_iff usize_max name value n = elim (Bool-cases (ltb usize_max value)) [
  | inl y ↦ rw y ((λ h. cc), (λ (l, e). absurd (ground arith)))
  | inr y ↦ rw y ((λ h. (ground arith, sym (ok-injective h))), (λ (l, e). ap ok (sym e)))
]

number : {n k : ℕ} → (n == k) ≡ true → n ≡ k
number h = ground arith

compression_type-codec : (c : CompressionType) → compression_type (codec c) ≡ ok c
unfolding compression_type
compression_type-codec uncompressed = refl
compression_type-codec snappy = refl
compression_type-codec lz4 = refl

codec-compression_type : (n : ℕ) (c : CompressionType) → compression_type n ≡ ok c → n ≡ codec c
unfolding compression_type
codec-compression_type n c h = elim (Bool-cases (n == 0)) [
  | inl y ↦ number y ∙ ap codec (ok-injective (rw y at h))
  | inr n0 ↦ elim (Bool-cases (n == 1)) [
    | inl y ↦ number y ∙ ap codec (ok-injective (rw (n0, y) at h))
    | inr n1 ↦ elim (Bool-cases (n == 2)) [
      | inl y ↦ number y ∙ ap codec (ok-injective (rw (n0, n1, y) at h))
      | inr n2 ↦ absurd (cc (rw (n0, n1, n2) at h))
    ]
  ]
]

pub compression_type_iff :
    (n : ℕ) (c : CompressionType) → (compression_type n ≡ ok c) ↔ (n ≡ codec c)
compression_type_iff n c =
    (codec-compression_type n c, (λ e. ap compression_type e ∙ compression_type-codec c))

durability_mode-mode : (c : DurabilityMode) → durability_mode (mode c) ≡ ok c
unfolding durability_mode
durability_mode-mode immediate = refl
durability_mode-mode eventual = refl

mode-durability_mode : (n : ℕ) (c : DurabilityMode) → durability_mode n ≡ ok c → n ≡ mode c
unfolding durability_mode
mode-durability_mode n c h = elim (Bool-cases (n == 0)) [
  | inl y ↦ number y ∙ ap mode (ok-injective (rw y at h))
  | inr n0 ↦ elim (Bool-cases (n == 1)) [
    | inl y ↦ number y ∙ ap mode (ok-injective (rw (n0, y) at h))
    | inr n1 ↦ absurd (cc (rw (n0, n1) at h))
  ]
]

pub durability_mode_iff : (n : ℕ) (c : DurabilityMode) → (durability_mode n ≡ ok c) ↔ (n ≡ mode c)
durability_mode_iff n c =
    (mode-durability_mode n c, (λ e. ap durability_mode e ∙ durability_mode-mode c))

isolation_level-level : (c : IsolationLevel) → isolation_level (level c) ≡ ok c
unfolding isolation_level
isolation_level-level read_committed = refl
isolation_level-level snapshot_isolation = refl
isolation_level-level serializable = refl
isolation_level-level repeatable_read = refl

level-isolation_level : (n : ℕ) (c : IsolationLevel) → isolation_level n ≡ ok c → n ≡ level c
unfolding isolation_level
level-isolation_level n c h = elim (Bool-cases (n == 0)) [
  | inl y ↦ number y ∙ ap level (ok-injective (rw y at h))
  | inr n0 ↦ elim (Bool-cases (n == 1)) [
    | inl y ↦ number y ∙ ap level (ok-injective (rw (n0, y) at h))
    | inr n1 ↦ elim (Bool-cases (n == 2)) [
      | inl y ↦ number y ∙ ap level (ok-injective (rw (n0, n1, y) at h))
      | inr n2 ↦ elim (Bool-cases (n == 3)) [
        | inl y ↦ number y ∙ ap level (ok-injective (rw (n0, n1, n2, y) at h))
        | inr n3 ↦ absurd (cc (rw (n0, n1, n2, n3) at h))
      ]
    ]
  ]
]

pub isolation_level_iff : (n : ℕ) (c : IsolationLevel) → (isolation_level n ≡ ok c) ↔ (n ≡ level c)
isolation_level_iff n c =
    (level-isolation_level n c, (λ e. ap isolation_level e ∙ isolation_level-level c))

-- The presence bit as the code tests it.
abbrev pub Tested : Bool → ℕ → RegolithOptions → Type 0
Tested test place opts =
    ((test ≡ true) × IsGiven place opts) ⊎ ((test ≡ false) × IsLeftOut place opts)

pub write_buffer_size-Tested :
    (opts : RegolithOptions) → Tested (has opts opt_write_buffer_size) 1 opts
unfolding has
write_buffer_size-Tested opts = elim (Bool-cases (bit_and opts.present 1 == 0)) [
  | inl y ↦ inr (rw y refl, ground (arith, bit_0 opts.present))
  | inr n ↦ inl (rw n refl, ground (arith, bit_0 opts.present))
]

pub block_cache_size-Tested :
    (opts : RegolithOptions) → Tested (has opts opt_block_cache_size) 2 opts
unfolding has
block_cache_size-Tested opts = elim (Bool-cases (bit_and opts.present 2 == 0)) [
  | inl y ↦ inr (rw y refl, ground (arith, bit_1 opts.present))
  | inr n ↦ inl (rw n refl, ground (arith, bit_1 opts.present))
]

pub max_background_compactions-Tested :
    (opts : RegolithOptions) → Tested (has opts opt_max_background_compactions) 4 opts
unfolding has
max_background_compactions-Tested opts = elim (Bool-cases (bit_and opts.present 4 == 0)) [
  | inl y ↦ inr (rw y refl, ground (arith, bit_2 opts.present))
  | inr n ↦ inl (rw n refl, ground (arith, bit_2 opts.present))
]

pub transaction_keys_inline-Tested :
    (opts : RegolithOptions) → Tested (has opts opt_transaction_keys_inline) 8 opts
unfolding has
transaction_keys_inline-Tested opts = elim (Bool-cases (bit_and opts.present 8 == 0)) [
  | inl y ↦ inr (rw y refl, ground (arith, bit_3 opts.present))
  | inr n ↦ inl (rw n refl, ground (arith, bit_3 opts.present))
]

pub compression-Tested : (opts : RegolithOptions) → Tested (has opts opt_compression) 16 opts
unfolding has
compression-Tested opts = elim (Bool-cases (bit_and opts.present 16 == 0)) [
  | inl y ↦ inr (rw y refl, ground (arith, bit_4 opts.present))
  | inr n ↦ inl (rw n refl, ground (arith, bit_4 opts.present))
]

pub durability-Tested : (opts : RegolithOptions) → Tested (has opts opt_durability) 32 opts
unfolding has
durability-Tested opts = elim (Bool-cases (bit_and opts.present 32 == 0)) [
  | inl y ↦ inr (rw y refl, ground (arith, bit_5 opts.present))
  | inr n ↦ inl (rw n refl, ground (arith, bit_5 opts.present))
]

pub isolation-Tested : (opts : RegolithOptions) → Tested (has opts opt_isolation) 64 opts
unfolding has
isolation-Tested opts = elim (Bool-cases (bit_and opts.present 64 == 0)) [
  | inl y ↦ inr (rw y refl, ground (arith, bit_6 opts.present))
  | inr n ↦ inl (rw n refl, ground (arith, bit_6 opts.present))
]

module _ {A : Type 0} (test : Bool) (place : ℕ) (opts : RegolithOptions) (given : Result A)
    (Reads : A → Type 0) (read : (a : A) → (given ≡ ok a) ↔ Reads a) (default field : A) where
  pub chosen-Picks :
      Tested test place opts
      → choose test given default ≡ ok field
      → Picks place opts Reads default field
  unfolding choose
  chosen-Picks (inl (y, g)) h = inl (g, (read field).0 (rw y at h))
  chosen-Picks (inr (n, g)) h =
      let h' : ok default ≡ ok field = rw n at h in inr (g, sym (ok-injective h'))

  pub Picks-chosen :
      Tested test place opts
      → Picks place opts Reads default field
      → choose test given default ≡ ok field
  unfolding choose
  Picks-chosen (inl (y, g)) (inl (g', r)) = rw y ((read field).1 r)
  Picks-chosen (inl (y, g)) (inr (l, e)) = absurd (omega arith)
  Picks-chosen (inr (n, l)) (inl (g, r)) = absurd (omega arith)
  Picks-chosen (inr (n, l)) (inr (l', e)) = rw n (ap ok (sym e))
