-- ===== src/Options/Go.antt =====
-- options.go: the Go binding's `Options` and `toC`.
use Prim.Native.Nat.{bit_or}
use go_regolith.Base.{ℕ, Option, none, some, ◌==◌, if◌then◌else◌, ◌⊎◌, inl, inr, ◌++◌}
use go_regolith.Base.Text.{codes, decimal}
use go_regolith.Failure.{Bytes}
use go_regolith.Go.Errors.{GoError, err_invalid_argument}
use go_regolith.Options.{
  RegolithOptions, opt_write_buffer_size, opt_block_cache_size, opt_max_background_compactions,
  opt_transaction_keys_inline, opt_compression, opt_durability, opt_isolation,
}

-- A nil pointer is `none`. The enums are their numbers, counted from 0 by `iota`.
pub record GoOptions : Type 0 where
  pub write_buffer_size : Option ℕ
  pub block_cache_size : Option ℕ
  pub max_background_compactions : Option ℕ
  pub transaction_keys_inline : Option ℕ
  pub compression : ℕ
  pub durability : ℕ
  pub isolation : ℕ

abbrev pub unset : RegolithOptions
unset = record {
  present = 0;
  write_buffer_size = 0;
  block_cache_size = 0;
  max_background_compactions = 0;
  transaction_keys_inline = 0;
  compression = 0;
  durability = 0;
  isolation = 0;
}

unfoldable pub mark : RegolithOptions → ℕ → RegolithOptions
mark c bit = record c { present = bit_or c.present bit }

-- The four `if o.… != nil`, in their order.
unfoldable pub put_write_buffer_size : Option ℕ → RegolithOptions → RegolithOptions
put_write_buffer_size none c = c
put_write_buffer_size (some n) c = record (mark c opt_write_buffer_size) { write_buffer_size = n }

unfoldable pub put_block_cache_size : Option ℕ → RegolithOptions → RegolithOptions
put_block_cache_size none c = c
put_block_cache_size (some n) c = record (mark c opt_block_cache_size) { block_cache_size = n }

unfoldable pub put_max_background_compactions : Option ℕ → RegolithOptions → RegolithOptions
put_max_background_compactions none c = c
put_max_background_compactions (some n) c = record (mark c opt_max_background_compactions) {
  max_background_compactions = n;
}

unfoldable pub put_transaction_keys_inline : Option ℕ → RegolithOptions → RegolithOptions
put_transaction_keys_inline none c = c
put_transaction_keys_inline (some n) c = record (mark c opt_transaction_keys_inline) {
  transaction_keys_inline = n;
}

-- `fmt.Errorf("%w: …: unknown … %d", ErrInvalidArgument, uint32(…))`
abbrev pub invalid_option : Bytes → ℕ → GoError
invalid_option problem n = record {
  sentinel = err_invalid_argument;
  message = problem ++ decimal n;
}

unfoldable pub invalid_compression : ℕ → GoError
unfolding codes decimal
invalid_compression n = invalid_option (codes "invalid option `Compression`: unknown codec ") n

unfoldable pub invalid_durability : ℕ → GoError
unfolding codes decimal
invalid_durability n = invalid_option (codes "invalid option `Durability`: unknown mode ") n

unfoldable pub invalid_isolation : ℕ → GoError
unfolding codes decimal
invalid_isolation n = invalid_option (codes "invalid option `Isolation`: unknown level ") n

-- The results of `toC`: the error, or the struct.
abbrev pub Filled : Type 0
Filled = GoError ⊎ RegolithOptions

-- The three `switch` statements; the error is that of their `default` case.
unfoldable pub put_compression : ℕ → RegolithOptions → Filled
unfolding invalid_compression
put_compression n c =
    if n == 0
    then inr c
    else if n == 1
    then inr (record (mark c opt_compression) { compression = 0 })
    else if n == 2
    then inr (record (mark c opt_compression) { compression = 1 })
    else if n == 3
    then inr (record (mark c opt_compression) { compression = 2 })
    else inl (invalid_compression n)

unfoldable pub put_durability : ℕ → RegolithOptions → Filled
unfolding invalid_durability
put_durability n c =
    if n == 0
    then inr c
    else if n == 1
    then inr (record (mark c opt_durability) { durability = 0 })
    else if n == 2
    then inr (record (mark c opt_durability) { durability = 1 })
    else inl (invalid_durability n)

unfoldable pub put_isolation : ℕ → RegolithOptions → Filled
unfolding invalid_isolation
put_isolation n c =
    if n == 0
    then inr c
    else if n == 1
    then inr (record (mark c opt_isolation) { isolation = 0 })
    else if n == 2
    then inr (record (mark c opt_isolation) { isolation = 1 })
    else if n == 3
    then inr (record (mark c opt_isolation) { isolation = 2 })
    else if n == 4
    then inr (record (mark c opt_isolation) { isolation = 3 })
    else inl (invalid_isolation n)

infixl 5 ◌>>=◌
abbrev pub ◌>>=◌ : Filled → (RegolithOptions → Filled) → Filled
inl e >>= f = inl e
inr c >>= f = f c

unfoldable pub to_c : GoOptions → Filled
unfolding put_write_buffer_size put_block_cache_size put_max_background_compactions
    put_transaction_keys_inline put_compression put_durability put_isolation mark
to_c o = do
  let c₁ = put_write_buffer_size o.write_buffer_size unset
  let c₂ = put_block_cache_size o.block_cache_size c₁
  let c₃ = put_max_background_compactions o.max_background_compactions c₂
  let c₄ = put_transaction_keys_inline o.transaction_keys_inline c₃
  c₅ ← put_compression o.compression c₄
  c₆ ← put_durability o.durability c₅
  put_isolation o.isolation c₆
