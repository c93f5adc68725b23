-- ===== src/Options/Mask.antt =====
-- The presence mask, bit by bit: `bit_and` with the known bits and with their complement.
use Prim.Native.Nat.{min, bit_and, digits, bit_and-bitwise}
use go_regolith.Base.{
  ℕ, zero, suc, ◌+◌, ◌-◌, ◌*◌, ◌/◌, ◌%◌, ◌^◌, ◌≤◌, ◌<◌, ◌≡◌, refl, sym, ◌∙◌, arith,
}
use native.Mathlib.Nat.{pow-suc}
use go_regolith.Options.{RegolithOptions, unknown_presence}

no_digits : (p b : ℕ) → digits (λ _. zero) min p 0 b ≡ 0
no_digits zero b = refl
no_digits (suc p) b = refl

-- The digit recursion that `bit_and` stands for does not depend on how many digits it is allowed.
enough_digits :
    (p q a b : ℕ) → a ≤ p → a ≤ q → digits (λ _. zero) min p a b ≡ digits (λ _. zero) min q a b
enough_digits p q zero b hp hq = no_digits p b ∙ sym (no_digits q b)
enough_digits zero q (suc a) b hp hq = absurd (omega arith)
enough_digits (suc p) zero (suc a) b hp hq = absurd (omega arith)
enough_digits (suc p) (suc q) (suc a) b hp hq =
    omega (arith, enough_digits p q (suc a / 2) (b / 2) (omega arith) (omega arith))

-- The lowest digit of `bit_and`, and the others.
bit_and_split : (a b : ℕ) → bit_and a b ≡ 2 * bit_and (a / 2) (b / 2) + min (a % 2) (b % 2)
bit_and_split zero b = omega (arith, bit_and-bitwise 0 b, bit_and-bitwise 0 (b / 2))
bit_and_split (suc a) b = omega (
  arith,
  bit_and-bitwise (suc a) b,
  bit_and-bitwise (suc a / 2) (b / 2),
  enough_digits a (suc a / 2) (suc a / 2) (b / 2) (omega arith) (omega arith),
)

bit_and_ones : (k a : ℕ) → a < 2 ^ k → bit_and a (2 ^ k - 1) ≡ a
bit_and_ones zero a h = let e : a ≡ 0 = omega arith in rw e refl
bit_and_ones (suc k) a h =
    let half : (2 ^ suc k - 1) / 2 ≡ 2 ^ k - 1 = omega (arith, pow-suc 2 k) in
    let split = rw half at (bit_and_split a (2 ^ suc k - 1)) in
    omega (arith, split, pow-suc 2 k, bit_and_ones k (a / 2) (omega (arith, pow-suc 2 k)))

bit_and_even : (a n m : ℕ) → n ≡ 2 * m → bit_and a n ≡ 2 * bit_and (a / 2) m
bit_and_even a n m h =
    let half : n / 2 ≡ m = omega arith in
    let split = rw half at (bit_and_split a n) in omega (arith, split)

-- The bits above the seven known ones.
bit_and_high : (a m : ℕ) → bit_and a (128 * m) ≡ 128 * bit_and (a / 128) m
bit_and_high a m =
    let e₁ = bit_and_even a (128 * m) (64 * m) (omega arith) in
    let e₂ = bit_and_even (a / 2) (64 * m) (32 * m) (omega arith) in
    let e₃ = bit_and_even (a / 2 / 2) (32 * m) (16 * m) (omega arith) in
    let e₄ = bit_and_even (a / 2 / 2 / 2) (16 * m) (8 * m) (omega arith) in
    let e₅ = bit_and_even (a / 2 / 2 / 2 / 2) (8 * m) (4 * m) (omega arith) in
    let e₆ = bit_and_even (a / 2 / 2 / 2 / 2 / 2) (4 * m) (2 * m) (omega arith) in
    let e₇ = bit_and_even (a / 2 / 2 / 2 / 2 / 2 / 2) (2 * m) m (omega arith) in
    let whole : a / 2 / 2 / 2 / 2 / 2 / 2 / 2 ≡ a / 128 = omega arith in
    let last = rw whole at e₇ in omega (arith, e₁, e₂, e₃, e₄, e₅, e₆, last)

pub unknown_presence_lem :
    (opts : RegolithOptions)
    → opts.present < 2 ^ 64
    → unknown_presence opts ≡ 128 * (opts.present / 128)
unfolding unknown_presence
unknown_presence_lem opts h = omega (
  arith,
  bit_and_high opts.present (2 ^ 57 - 1),
  bit_and_ones 57 (opts.present / 128) (omega arith),
)

-- `p` is a bound on `a`.
bit_and_0 : (p a : ℕ) → a ≤ p → bit_and a 0 ≡ 0
bit_and_0 zero a h = let e : a ≡ 0 = omega arith in rw e (bit_and-bitwise 0 0)
bit_and_0 (suc p) a h =
    omega (arith, bit_and_even a 0 0 (omega arith), bit_and_0 p (a / 2) (omega arith))

pub bit_0 : (a : ℕ) → bit_and a 1 ≡ a % 2
bit_0 a = omega (arith, bit_and_split a 1, bit_and_0 (a / 2) (a / 2) (omega arith))

pub bit_1 : (a : ℕ) → bit_and a 2 ≡ 2 * (a / 2 % 2)
bit_1 a = omega (arith, bit_and_even a 2 1 (omega arith), bit_0 (a / 2))

pub bit_2 : (a : ℕ) → bit_and a 4 ≡ 4 * (a / 4 % 2)
bit_2 a =
    let whole : a / 2 / 2 ≡ a / 4 = omega arith in
    let half = rw whole at (bit_1 (a / 2)) in omega (arith, bit_and_even a 4 2 (omega arith), half)

pub bit_3 : (a : ℕ) → bit_and a 8 ≡ 8 * (a / 8 % 2)
bit_3 a =
    let whole : a / 2 / 4 ≡ a / 8 = omega arith in
    let half = rw whole at (bit_2 (a / 2)) in omega (arith, bit_and_even a 8 4 (omega arith), half)

pub bit_4 : (a : ℕ) → bit_and a 16 ≡ 16 * (a / 16 % 2)
bit_4 a =
    let whole : a / 2 / 8 ≡ a / 16 = omega arith in
    let half = rw whole at (bit_3 (a / 2)) in omega (arith, bit_and_even a 16 8 (omega arith), half)

pub bit_5 : (a : ℕ) → bit_and a 32 ≡ 32 * (a / 32 % 2)
bit_5 a =
    let whole : a / 2 / 16 ≡ a / 32 = omega arith in
    let half = rw whole at (bit_4 (a / 2)) in
    omega (arith, bit_and_even a 32 16 (omega arith), half)

pub bit_6 : (a : ℕ) → bit_and a 64 ≡ 64 * (a / 64 % 2)
bit_6 a =
    let whole : a / 2 / 32 ≡ a / 64 = omega arith in
    let half = rw whole at (bit_5 (a / 2)) in
    omega (arith, bit_and_even a 64 32 (omega arith), half)
