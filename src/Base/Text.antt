-- ===== src/Base/Text.antt =====
-- Text as the list of its bytes, and the numbers that `format!` prints.
use Prim.Native.Char.{code}
use Prim.Native.String.{String}
use go_regolith.Base.{ℕ, zero, suc, ◌+◌, ◌/◌, ◌%◌, List, [], ◌∷◌, ◌++◌, ltb, if◌then◌else◌}

-- The bytes of an ASCII text.
unfoldable pub codes : String → List ℕ
codes String.[] = []
codes (String.◌∷◌ c s) = code c ∷ codes s

-- One digit, `0`-`9` and then `a`-`z`.
abbrev digit : ℕ → ℕ
digit d = if ltb d 10 then b'0' + d else 87 + d

-- The digits of `n` in the given base, put before `tail`. A number below 2 ^ 64 has 64 digits at most.
digits_before : ℕ → ℕ → ℕ → List ℕ → List ℕ
digits_before zero base n tail = tail
digits_before (suc fuel) base n tail =
    let more = digits_before fuel base (n / base) (digit (n % base) ∷ tail) in
    if ltb n base then digit n ∷ tail else more

-- `{n}` in a format string, for a `u64`.
unfoldable pub decimal : ℕ → List ℕ
unfolding digits_before
decimal n = digits_before 64 10 n []

-- `{n:#x}` in a format string, for a `u64`.
unfoldable pub hexadecimal : ℕ → List ℕ
unfolding digits_before codes
hexadecimal n = codes "0x" ++ digits_before 64 16 n []
