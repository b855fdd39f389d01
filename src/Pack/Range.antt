-- ===== src/Pack/Range.antt =====
-- What Unpack reads of a packet, after the skip: argus/argus/pack.go.
use argus.Prelude.{
  ℕ, ◌≤◌, ◌<◌, ◌≡◌, Bool, false, Option, none, some, List, [], ◌∷◌, ◌==◌, length, drop,
}
use argus.Prelude.Int.{ℤ}
use argus.Text.{Text}
use argus.Pack.{value_of, eat_white, skip_from, at_least_one}
use argus.Pack.Reads.{Reads}

abbrev pub begins_x : Text → Bool
begins_x [] = false
begins_x (c ∷ t) = c == b'x'

-- What Unpack does with a packet: without a skip it reads it; with one it reads what is left of it,
-- or panics where there is less than it is to skip.
pub data Unpacked (how : Text) (dat : List ℕ) : Option (ℤ × Bool) → Type 0 where
  plain :
      {z : ℤ} {ok : Bool}
      → begins_x (eat_white how) ≡ false
      → Reads dat (eat_white how) z ok
      → Unpacked how dat (some (z, ok))
  skips :
      {t : Text} {z : ℤ} {ok : Bool}
      → eat_white how ≡ b'x' ∷ t
      → at_least_one (skip_from 0 t).0 ≤ length dat
      → Reads (drop (at_least_one (skip_from 0 t).0) dat) (eat_white (skip_from 0 t).1) z ok
      → Unpacked how dat (some (z, ok))
  panics :
      {t : Text}
      → eat_white how ≡ b'x' ∷ t
      → length dat < at_least_one (skip_from 0 t).0
      → Unpacked how dat none

abbrev given : Option (Text × List ℕ) → Option (ℤ × Bool)
given none = none
given (some (how, dat)) = some (value_of (eat_white how) dat)
