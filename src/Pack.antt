-- ===== src/Pack.antt =====
-- Numbers in packets: argus/argus/pack.go. The text and the packet are of bytes.
pub mod Reads
pub mod Range
use argus.Prelude.{
  ℕ, zero, suc, ◌+◌, ◌-◌, ◌*◌, ◌^◌, ◌≡◌, refl, Bool, true, false, ◌&&◌, Option, none, some, List,
  [], ◌∷◌, leb, ltb, ◌==◌, if◌then◌else◌, length, drop,
}
use argus.Prelude.Int.{ℤ, pos, negsuc}
use argus.Text.{Text, codes}

-- A word of so many bits as a signed number
abbrev pub signed : ℕ → ℕ → ℤ
signed w n = if ltb n (2 ^ (w - 1)) then pos n else negsuc (2 ^ w - n - 1)

-- "eat white"
unfoldable pub eat_white : Text → Text
eat_white [] = []
eat_white (c ∷ l) = let rest = eat_white l in if c == b' ' then rest else c ∷ l

abbrev pub is_digit : ℕ → Bool
is_digit c = leb b'0' c && leb c b'9'

-- The number that a text begins with, added to what is read of it, and the rest.
unfoldable pub skip_from : ℕ → Text → ℕ × Text
skip_from skip [] = (skip, [])
skip_from skip (c ∷ l) = elim (is_digit c) [
  | true ↦ skip_from (skip * 10 + (c - b'0')) l
  | false ↦ (skip, c ∷ l)
]

abbrev pub at_least_one : ℕ → ℕ
at_least_one n = if n == 0 then 1 else n

-- What is left of the packet, where it is as long: otherwise the source's slice panics.
abbrev pub skipped : ℕ → List ℕ → Option (List ℕ)
skipped n dat = if leb n (length dat) then some (drop n dat) else none

abbrev pub after_skip : ℕ × Text → List ℕ → Option (Text × List ℕ)
after_skip (n, how) dat = elim (skipped (at_least_one n) dat) [
  | none ↦ none
  | some rest ↦ some (how, rest)
]

-- x#
unfoldable pub skip_of : Text → List ℕ → Option (Text × List ℕ)
unfolding skip_from
skip_of [] dat = some ([], dat)
skip_of (c ∷ how) dat = if c == b'x' then after_skip (skip_from 0 how) dat else some (c ∷ how, dat)

abbrev pub byte_value : List ℕ → ℤ × Bool
byte_value [] = (pos 0, true)
byte_value (a ∷ dat) = (pos a, true)

abbrev pub char_value : List ℕ → ℤ × Bool
char_value [] = (pos 0, true)
char_value (a ∷ dat) = (if ltb 127 a then negsuc (256 - a - 1) else pos a, true)

abbrev pub short_value : List ℕ → ℤ × Bool
short_value [] = (pos 0, true)
short_value (a ∷ []) = (pos 0, true)
short_value (a ∷ b ∷ dat) = (pos (a * 2 ^ 8 + b), true)

-- int32(dat[0])<<24 may be negative.
abbrev pub long_value : List ℕ → ℤ × Bool
long_value [] = (pos 0, true)
long_value (a ∷ []) = (pos 0, true)
long_value (a ∷ b ∷ []) = (pos 0, true)
long_value (a ∷ b ∷ c ∷ []) = (pos 0, true)
long_value (a ∷ b ∷ c ∷ d ∷ dat) = (signed 32 (a * 2 ^ 24 + b * 2 ^ 16 + c * 2 ^ 8 + d), true)

unfoldable pub value_of : Text → List ℕ → ℤ × Bool
value_of [] dat = (pos 0, false)
value_of (h ∷ how) dat =
    if h == b'c'
    then char_value dat
    else if h == b'C'
    then byte_value dat
    else if h == b'n'
    then short_value dat
    else if h == b'N'
    then long_value dat
    else (pos 0, false)

-- Unpack, which is none where it panics
unfoldable pub unpack : Text → List ℕ → Option (ℤ × Bool)
unfolding eat_white skip_of value_of
unpack how dat = elim (skip_of (eat_white how) dat) [
  | none ↦ none
  | some (how', dat') ↦ some (value_of (eat_white how') dat')
]
