-- ===== src/Timespec.antt =====
-- Times as users write them: argus/argus/timespec.go.
use argus.Prelude.{
  ℕ, ◌+◌, ◌-◌, ◌*◌, ◌≡◌, refl, min, Bool, true, false, ◌&&◌, Option, none, some, [], ◌∷◌, leb, ◌==◌,
  if◌then◌else◌,
}
use argus.Text.{Text, codes}

-- The digits read so far. strconv.ParseInt gives 0 for none, and the greatest int64 for too many.
abbrev value_of : Option ℕ → ℕ
value_of none = 0
value_of (some t) = min t 9223372036854775807

abbrev is_digit : ℕ → Bool
is_digit c = leb b'0' c && leb c b'9'

-- The seconds of a unit.
unfoldable pub unit_seconds : ℕ → Option ℕ
unit_seconds c =
    if c == b's'
    then some 1
    else if c == b'm'
    then some 60
    else if c == b'h'
    then some 3600
    else if c == b'd'
    then some (24 * 3600)
    else if c == b'w'
    then some (7 * 24 * 3600)
    else if c == b'M'
    then some (30 * 24 * 3600)
    else if c == b'y'
    then some (365 * 24 * 3600)
    else none

-- The two loops of Timespec, with the digits read and `tot`. The source's sums are of 64 bits.
unfoldable pub timespec_from : Option ℕ → ℕ → Text → ℕ → Option ℕ
timespec_from none tot [] unit = some tot
timespec_from (some t) tot [] unit = some (tot + value_of (some t) * unit)
timespec_from digits tot (c ∷ v) unit = elim (is_digit c) [
  | true ↦ timespec_from (some (value_of digits * 10 + (c - b'0'))) tot v unit
  | false ↦ elim (unit_seconds c) [
    | none ↦ none
    | some seconds ↦ timespec_from none (tot + value_of digits * seconds) v unit
  ]
]

-- Timespec; `none` is its error.
unfoldable pub timespec : Text → ℕ → Option ℕ
unfolding timespec_from unit_seconds
timespec v unit = timespec_from none 0 v unit

two_parts : timespec (codes "1h30m") 60 ≡ some 5400
unfolding timespec
two_parts = refl

no_unit : timespec (codes "15") 60 ≡ some 900
unfolding timespec
no_unit = refl

bad_unit : timespec (codes "5x") 60 ≡ none
unfolding timespec
bad_unit = refl
