-- ===== src/Encode/Decode.antt =====
-- Escaped texts are read back.
use argus.Prelude.{
  ℕ, ◌+◌, ◌-◌, ◌*◌, ◌/◌, ◌%◌, ◌<◌, ◌≡◌, ◌≢◌, refl, ◌∙◌, sym, ap, Bool, true, false, [], ◌∷◌, arith,
  any, leb, ◌==◌, if◌then◌else◌, Bool-cases, inl, inr,
}
use argus.Text.{Text}
use argus.Encode.{
  escape, encode, hex_digit, file_encode, punct_encode, url_encode, should_escape_file,
  should_escape_punct, should_escape_url,
}

abbrev hex_value : ℕ → ℕ
hex_value d = if leb d b'9' then d - b'0' else d - 55

-- What reads the escapes: `pct` and two digits are a byte, all else stands for itself.
unfoldable pub unescape : ℕ → Text → Text
unescape pct [] = []
unescape pct (c ∷ []) = c ∷ []
unescape pct (c ∷ d ∷ []) = c ∷ d ∷ []
unescape pct (c ∷ d ∷ e ∷ s) =
    let skip = unescape pct s in
    let step = unescape pct (d ∷ e ∷ s) in
    if c == pct then (hex_value d * 16 + hex_value e) ∷ skip else c ∷ step

abbrev pub AreBytes : Text → Type 0
AreBytes [] = Unit {0}
AreBytes (c ∷ s) = (c < 256) × AreBytes s

hex_value-hex_digit : (n : ℕ) → n < 16 → hex_value (hex_digit n) ≡ n
hex_value-hex_digit n h = ground arith

unescape-plain : (pct c : ℕ) (s : Text) → c ≢ pct → unescape pct (c ∷ s) ≡ c ∷ unescape pct s
unfolding unescape
unescape-plain pct c [] h = refl
unescape-plain pct c (d ∷ []) h = refl
unescape-plain pct c (d ∷ e ∷ s) h = let t : (c == pct) ≡ false = ground arith in rw t refl

unescape-hex :
    (pct c : ℕ) (s : Text)
    → c < 256
    → unescape pct (pct ∷ hex_digit (c / 16) ∷ hex_digit (c % 16) ∷ s) ≡ c ∷ unescape pct s
unfolding unescape
unescape-hex pct c s h =
    let t : (pct == pct) ≡ true = ground arith in
    let high = hex_value-hex_digit (c / 16) (omega arith) in
    let low = hex_value-hex_digit (c % 16) (omega arith) in
    let both : c / 16 * 16 + c % 16 ≡ c = omega arith in rw t (rw (high, low) (rw both refl))

-- A byte that is left as it is, is not the one that starts an escape.
unescape-escape :
    (should : ℕ → ℕ → Bool) (pct : ℕ)
    → should pct pct ≡ true
    → (s : Text) → AreBytes s
    → unescape pct (escape should pct s) ≡ s
unfolding escape
unescape-escape should pct p [] h = unfold unescape in refl
unescape-escape should pct p (c ∷ s) h = elim (Bool-cases (should c pct)) [
  | inl y ↦ rw y (
      unescape-hex pct c (escape should pct s) h.0
      ∙ ap (λ t. c ∷ t) (unescape-escape should pct p s h.1))
  | inr n ↦ rw n (
      unescape-plain pct c (escape should pct s) (λ e. absurd (ground (arith, n, p, e)))
      ∙ ap (λ t. c ∷ t) (unescape-escape should pct p s h.1))
]

-- With nothing to escape, the escapes change nothing.
escape-plain :
    (should : ℕ → ℕ → Bool) (pct : ℕ) (s : Text)
    → any (λ c. should c pct) s ≡ false
    → escape should pct s ≡ s
unfolding escape
escape-plain should pct [] h = refl
escape-plain should pct (c ∷ s) h = elim (Bool-cases (should c pct)) [
  | inl y ↦ absurd (ground (arith, h, y))
  | inr n ↦ rw n (ap (λ t. c ∷ t) (escape-plain should pct s (rw n at h)))
]

unescape-encode :
    (should : ℕ → ℕ → Bool) (pct : ℕ)
    → should pct pct ≡ true
    → (s : Text) → AreBytes s
    → unescape pct (encode s pct should) ≡ s
unfolding encode
unescape-encode should pct p s h = elim (Bool-cases (any (λ c. should c pct) s)) [
  | inl y ↦ rw y (unescape-escape should pct p s h)
  | inr n ↦
      rw n
        (sym (ap (unescape pct) (escape-plain should pct s n)) ∙ unescape-escape should pct p s h)
]

-- The names that FileEncode, PunctEncode and UrlEncode make of a text of bytes are read back as
-- the text, by `unescape`.
pub unescape_lem :
    (s : Text)
    → AreBytes s
    → (unescape b'~' (file_encode s) ≡ s)
      × (unescape b'~' (punct_encode s) ≡ s)
      × (unescape b'%' (url_encode s) ≡ s)
unfolding file_encode punct_encode url_encode
unescape_lem s h = (
  unescape-encode should_escape_file b'~' (unfold should_escape_file in refl) s h,
  unescape-encode should_escape_punct b'~' (unfold should_escape_punct in refl) s h,
  unescape-encode should_escape_url b'%' (unfold should_escape_url in refl) s h,
)
