-- ===== src/Bits.antt =====
-- Small functions on the bits of numbers: argus/lfsr/lfsr.go and argus/argus/hashdir.go.
pub mod Letters
use argus.Prelude.{ℕ, ◌+◌, ◌*◌, ◌/◌, ◌%◌, ◌^◌, ◌≡◌, refl, List, [], ◌∷◌, ◌==◌, if◌then◌else◌}
use argus.Text.{Text, codes}
use Prim.Native.Nat.{bit_and, bit_or, bit_xor}

abbrev pub taps : ℕ → ℕ
taps x =
    bit_xor
      (bit_xor
        (bit_xor
          (bit_xor (bit_xor (bit_xor (bit_xor (x / 2 ^ 15) (x / 2 ^ 13)) (x / 2 ^ 12)) (x / 2 ^ 10))
            (x / 2 ^ 6))
          (x / 2 ^ 5))
        (x / 2 ^ 2))
      x

abbrev pub shift_in : ℕ → ℕ
shift_in x = bit_and (bit_or (x * 2) (bit_and (taps x) 1)) 0xffff

-- Next16, of a number of 16 bits
unfoldable pub next16 : ℕ → ℕ
next16 x = shift_in (if x == 0 then 1 else x)

from_one : next16 1 ≡ 3
unfolding next16
from_one = refl

-- The loop of HashDjb2 over the bytes of a text, on an int of 64 bits.
unfoldable pub djb2_from : ℕ → Text → ℕ
djb2_from h [] = h
djb2_from h (c ∷ s) = djb2_from ((33 * h + c) % 2 ^ 64) s

-- HashDjb2: the low 31 bits, which the sign does not touch
unfoldable pub hash_djb2 : Text → ℕ
unfolding djb2_from
hash_djb2 s = djb2_from 5381 s % 2 ^ 31

-- HashedDirectory: two letters around a slash
unfoldable pub hashed_directory : Text → Text
unfolding hash_djb2
hashed_directory file =
    let h = hash_djb2 file % 2 ^ 24 in (h % 26 + b'A') ∷ b'/' ∷ (h / 2 ^ 5 % 26 + b'A') ∷ []

of_top : hashed_directory (codes "Top") ≡ codes "K/P"
unfolding hashed_directory djb2_from
of_top = refl
