-- ===== src/Encode.antt =====
-- The escapes of names in files and URLs: argus/argus/encode.go, encode and what it escapes.
pub mod Decode
use argus.Prelude.{
  ℕ, ◌+◌, ◌/◌, ◌%◌, Bool, true, false, ◌&&◌, ◌||◌, not, List, [], ◌∷◌, any, ltb, leb, ◌==◌,
  if◌then◌else◌, get_or,
}
use argus.Text.{Text, codes}

abbrev among : ℕ → Text → Bool
among c [] = false
among c (d ∷ ds) = c == d || among c ds

abbrev unprintable : ℕ → Bool
unprintable c = leb c b' ' || leb 127 c

-- shouldEscapeFile
unfoldable pub should_escape_file : ℕ → ℕ → Bool
should_escape_file c pct = c == pct || among c (codes "%#+\\;=\"'`?&~<>/") || unprintable c

-- shouldEscapeUrl
unfoldable pub should_escape_url : ℕ → ℕ → Bool
should_escape_url c pct = c == pct || among c (codes " /\\+?;&:=$@,") || unprintable c

-- shouldEscapePunct
unfoldable pub should_escape_punct : ℕ → ℕ → Bool
should_escape_punct c pct =
    c == pct || ltb c b'0' || ltb b'9' c && ltb c b'A' || ltb b'Z' c && ltb c b'a' || ltb b'z' c

-- "0123456789ABCDEF"[n]
abbrev pub hex_digit : ℕ → ℕ
hex_digit n = get_or (codes "0123456789ABCDEF") n 0

-- The second loop of encode, over the bytes of the text.
unfoldable pub escape : (ℕ → ℕ → Bool) → ℕ → Text → Text
escape should pct [] = []
escape should pct (c ∷ s) =
    let rest = escape should pct s in
    if should c pct then pct ∷ hex_digit (c / 16) ∷ hex_digit (c % 16) ∷ rest else c ∷ rest

-- encode: a text with nothing to escape is returned as it is.
unfoldable pub encode : Text → ℕ → (ℕ → ℕ → Bool) → Text
unfolding escape
encode s pct should = if any (λ c. should c pct) s then escape should pct s else s

-- FileEncode, PunctEncode, UrlEncode
unfoldable pub file_encode : Text → Text
file_encode s = encode s b'~' should_escape_file

unfoldable pub punct_encode : Text → Text
punct_encode s = encode s b'~' should_escape_punct

unfoldable pub url_encode : Text → Text
url_encode s = encode s b'%' should_escape_url
