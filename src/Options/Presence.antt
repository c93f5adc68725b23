-- ===== src/Options/Presence.antt =====
-- The presence mask of the struct that `toC` fills: a bit for each field that is set, and no other.
use Prim.Native.Nat.{bit_and}
use go_regolith.Base.{ℕ, ◌≡◌, refl, sym, ◌-◌, Bool, true, false, not, ◌&&◌, ◌==◌, ==_iff}
use go_regolith.Options.{
  has, unknown_presence, opt_write_buffer_size, opt_block_cache_size,
  opt_max_background_compactions, opt_transaction_keys_inline, opt_compression, opt_durability,
  opt_isolation, opt_known, u64_max,
}
use go_regolith.Options.Settings.{Settings}
use go_regolith.Options.Filled.{is_some, mask, struct_of}

-- A test on every Boolean.
abbrev both : (Bool → Bool) → Bool
both f = f true && f false

both_sides : (a b : Bool) → (a && b) ≡ true → (a ≡ true) × (b ≡ true)
both_sides true b h = (refl, h)
both_sides false b h = absurd cc

both-true : (f : Bool → Bool) → both f ≡ true → (b : Bool) → f b ≡ true
both-true f h true = (both_sides (f true) (f false) h).0
both-true f h false = (both_sides (f true) (f false) h).1

-- `has` and `unknown_presence` of a struct, on what it has in `present`.
abbrev holds : ℕ → ℕ → Bool
holds present bit = not (bit_and present bit == 0)

abbrev same : Bool → Bool → Bool
same true b = b
same false b = not b

same-true : (a b : Bool) → same a b ≡ true → a ≡ b
same-true true b h = sym h
same-true false true h = absurd cc
same-true false false h = refl

good : Bool → Bool → Bool → Bool → Bool → Bool → Bool → Bool
good w b m t c d i =
    let p = mask w b m t c d i in
    same (holds p opt_write_buffer_size) w
    && (same (holds p opt_block_cache_size) b
        && (same (holds p opt_max_background_compactions) m
            && (same (holds p opt_transaction_keys_inline) t
                && (same (holds p opt_compression) c
                    && (same (holds p opt_durability) d
                        && (same (holds p opt_isolation) i
                            && bit_and p (u64_max - opt_known) == 0))))))

every_mask :
    both (λ w. both (λ b. both (λ m. both (λ t. both (λ c. both (λ d. both (good w b m t c d)))))))
    ≡ true
unfolding good
every_mask = refl

every_good : (w b m t c d i : Bool) → good w b m t c d i ≡ true
every_good w b m t c d i =
    both-true (good w b m t c d)
      (both-true (λ d. both (good w b m t c d))
        (both-true (λ c. both (λ d. both (good w b m t c d)))
          (both-true (λ t. both (λ c. both (λ d. both (good w b m t c d))))
            (both-true (λ m. both (λ t. both (λ c. both (λ d. both (good w b m t c d)))))
              (both-true
                (λ b. both (λ m. both (λ t. both (λ c. both (λ d. both (good w b m t c d))))))
                (both-true
                  (λ w.
                    both (λ b.
                      both (λ m. both (λ t. both (λ c. both (λ d. both (good w b m t c d)))))))
                  every_mask w)
                b)
              m)
            t)
          c)
        d)
      i

-- What `options_from` reads off the mask of a caller's settings: a field's bit is set if the field is, and
-- no other bit is.
pub record Shows (s : Settings) : Type 0 where
  pub write_buffer_size : has (struct_of s) opt_write_buffer_size ≡ is_some s.write_buffer_size
  pub block_cache_size : has (struct_of s) opt_block_cache_size ≡ is_some s.block_cache_size
  pub max_background_compactions :
      has (struct_of s) opt_max_background_compactions ≡ is_some s.max_background_compactions
  pub transaction_keys_inline :
      has (struct_of s) opt_transaction_keys_inline ≡ is_some s.transaction_keys_inline
  pub compression : has (struct_of s) opt_compression ≡ is_some s.compression
  pub durability : has (struct_of s) opt_durability ≡ is_some s.durability
  pub isolation : has (struct_of s) opt_isolation ≡ is_some s.isolation
  pub known : unknown_presence (struct_of s) ≡ 0

pub struct_of-Shows : (s : Settings) → Shows s
unfolding struct_of has unknown_presence good
struct_of-Shows s =
    let whole =
      every_good (is_some s.write_buffer_size) (is_some s.block_cache_size)
        (is_some s.max_background_compactions) (is_some s.transaction_keys_inline)
        (is_some s.compression) (is_some s.durability) (is_some s.isolation) in
    let (w, rest₁) = both_sides _ _ whole in
    let (b, rest₂) = both_sides _ _ rest₁ in
    let (m, rest₃) = both_sides _ _ rest₂ in
    let (t, rest₄) = both_sides _ _ rest₃ in
    let (c, rest₅) = both_sides _ _ rest₄ in
    let (d, rest₆) = both_sides _ _ rest₅ in
    let (i, none_else) = both_sides _ _ rest₆ in
    record {
      write_buffer_size = same-true _ _ w;
      block_cache_size = same-true _ _ b;
      max_background_compactions = same-true _ _ m;
      transaction_keys_inline = same-true _ _ t;
      compression = same-true _ _ c;
      durability = same-true _ _ d;
      isolation = same-true _ _ i;
      known = (==_iff _ 0).0 none_else;
    }
