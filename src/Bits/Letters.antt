-- ===== src/Bits/Letters.antt =====
-- Where argus/argus/hashdir.go puts a file.
use argus.Prelude.{ℕ, ◌+◌, ◌*◌, ◌%◌, ◌^◌, ◌≡◌, ◌≤◌, refl, [], ◌∷◌, arith}
use argus.Text.{Text}
use argus.Bits.{djb2_from, hash_djb2, hashed_directory}

-- The hash over numbers without bounds.
unfoldable pub djb2 : ℕ → Text → ℕ
djb2 h [] = h
djb2 h (c ∷ s) = djb2 (33 * h + c) s

djb2_from-mod :
    (s : Text) (h k : ℕ) → h % 2 ^ 31 ≡ k % 2 ^ 31 → djb2_from h s % 2 ^ 31 ≡ djb2 k s % 2 ^ 31
unfolding djb2_from djb2
djb2_from-mod [] h k e = e
djb2_from-mod (c ∷ s) h k e = djb2_from-mod s _ _ (omega arith)

abbrev pub IsLetter : ℕ → Type 0
IsLetter c = (b'A' ≤ c) × (c ≤ b'Z')

-- Every file has a directory of two capital letters, and its hash is that without the limits of an
-- int: the source's overflow does not matter.
pub hashed_directory-IsLetter :
    (file : Text)
    → (a : ℕ) × (b : ℕ) × (hashed_directory file ≡ a ∷ b'/' ∷ b ∷ [])
      × IsLetter a
      × IsLetter b
      × (hash_djb2 file ≡ djb2 5381 file % 2 ^ 31)
unfolding hashed_directory hash_djb2
hashed_directory-IsLetter file = (
  _,
  _,
  refl,
  (omega arith, omega arith),
  (omega arith, omega arith),
  djb2_from-mod file 5381 5381 refl,
)
