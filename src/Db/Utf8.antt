-- ===== src/Db/Utf8.antt =====
-- `std::str::from_utf8`: which bytes are a string.
use go_regolith.Base.{
  Option, none, some, ℕ, zero, suc, Bool, true, false, ◌&&◌, [], ◌∷◌, ltb, leb, if◌then◌else◌, ◌≡◌,
  Bool-cases, inl, inr,
}
use go_regolith.Failure.{Bytes}

-- `n` more bytes of a character, the next of them from `lo` to `hi`.
abbrev pub continues : ℕ → ℕ → ℕ → Bytes → Bool
continues zero lo hi [] = true
continues (suc n) lo hi [] = false
continues (suc n) lo hi (b ∷ bs) =
    let rest = continues n 0x80 0xBF bs in leb lo b && leb b hi && rest
continues zero lo hi (b ∷ bs) =
    let one = continues 0 0x80 0xBF bs in
    let two = continues 1 0x80 0xBF bs in
    let three = continues 2 0x80 0xBF bs in
    let not_overlong = continues 2 0xA0 0xBF bs in
    let not_surrogate = continues 2 0x80 0x9F bs in
    let four = continues 3 0x80 0xBF bs in
    let four_not_overlong = continues 3 0x90 0xBF bs in
    let four_not_beyond = continues 3 0x80 0x8F bs in
    if ltb b 0x80
    then one
    else if ltb b 0xC2
    then false
    else if ltb b 0xE0
    then two
    else if ltb b 0xE1
    then not_overlong
    else if ltb b 0xED
    then three
    else if ltb b 0xEE
    then not_surrogate
    else if ltb b 0xF0
    then three
    else if ltb b 0xF1
    then four_not_overlong
    else if ltb b 0xF4
    then four
    else if ltb b 0xF5
    then four_not_beyond
    else false

unfoldable pub from_utf8 : Bytes → Option Bytes
from_utf8 bytes = if continues 0 0x80 0xBF bytes then some bytes else none

pub from_utf8-eq : (bytes text : Bytes) → from_utf8 bytes ≡ some text → bytes ≡ text
unfolding from_utf8
from_utf8-eq bytes text e = elim (Bool-cases (continues 0 0x80 0xBF bytes)) [
  | inl h ↦ cc (rw h at e)
  | inr h ↦ cc (rw h at e)
]
