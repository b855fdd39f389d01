-- ===== src/Construct/Quoted.antt =====
-- Any text can be written on a line: cleanLine of argus/construct/reader.go.
use argus.Prelude.{
  ℕ, ◌≡◌, refl, ap, ◌∙◌, Bool, true, false, [], ◌∷◌, ◌++◌, ◌==◌, if◌then◌else◌, Bool-cases, inl,
  inr, ==_iff,
}
use argus.Text.{Text, codes}
use argus.Construct.{
  wrote, byte_piece, piece, escape_piece, hex_piece, hex_byte, hex_value, clean_from, trim_end,
  clean_line, unless_white,
}

-- The bytes that a line may not hold as they are.
abbrev pub quote_byte : ℕ → Text
quote_byte c =
    if c == b'#'
    then codes "\\#"
    else if c == b'\\'
    then codes "\\x5c"
    else if c == b' '
    then codes "\\x20"
    else if c == 9
    then codes "\\x09"
    else c ∷ []

-- A text so written, with a blank after it.
abbrev pub quoted : Text → Text
quoted [] = codes " "
quoted (c ∷ l) = quote_byte c ++ quoted l

piece-plain :
    (c d : ℕ) (l : Text)
    → (c == b'#') ≡ false
    → (c == b'\\') ≡ false
    → piece c (d ∷ l) ≡ wrote (c ∷ []) 0
unfolding piece byte_piece
piece-plain c d l h b = rw (b, h) refl

clean_from-plain :
    (fresh : Bool) (c d : ℕ) (l : Text)
    → (c == b'#') ≡ false
    → (c == b'\\') ≡ false
    → (c == b' ') ≡ false
    → (c == 9) ≡ false
    → clean_from 0 fresh (c ∷ d ∷ l) ≡ c ∷ clean_from 0 false (d ∷ l)
unfolding clean_from
clean_from-plain false c d l h b s t = rw (clean_from, piece-plain c d l h b) refl
clean_from-plain true c d l h b s t = rw (clean_from, s, t, piece-plain c d l h b) refl

-- What is written is read back with the bytes that follow.
abbrev ReadsBack : ℕ → Text → Type 0
ReadsBack c w =
    (fresh : Bool) (d : ℕ) (l : Text)
    → clean_from 0 fresh (w ++ d ∷ l) ≡ c ∷ clean_from 0 false (d ∷ l)

clean_from-hash : ReadsBack b'#' (codes "\\#")
unfolding clean_from piece escape_piece
clean_from-hash false d l = refl
clean_from-hash true d l = refl

clean_from-backslash : ReadsBack b'\\' (codes "\\x5c")
unfolding clean_from piece escape_piece hex_piece hex_byte hex_value
clean_from-backslash false d l = refl
clean_from-backslash true d l = refl

clean_from-blank : ReadsBack b' ' (codes "\\x20")
unfolding clean_from piece escape_piece hex_piece hex_byte hex_value
clean_from-blank false d l = refl
clean_from-blank true d l = refl

clean_from-tab : ReadsBack 9 (codes "\\x09")
unfolding clean_from piece escape_piece hex_piece hex_byte hex_value
clean_from-tab false d l = refl
clean_from-tab true d l = refl

at_byte : (c k : ℕ) (w : Text) → (c == k) ≡ true → ReadsBack k w → ReadsBack c w
at_byte c k w e r = rw ((==_iff c k).0 e) r

quote_byte-ReadsBack : (c : ℕ) → ReadsBack c (quote_byte c)
quote_byte-ReadsBack c = elim (Bool-cases (c == b'#')) [
  | inl e ↦ rw e (at_byte c b'#' (codes "\\#") e clean_from-hash)
  | inr h ↦ rw h (elim (Bool-cases (c == b'\\')) [
    | inl e ↦ rw e (at_byte c b'\\' (codes "\\x5c") e clean_from-backslash)
    | inr b ↦ rw b (elim (Bool-cases (c == b' ')) [
      | inl e ↦ rw e (at_byte c b' ' (codes "\\x20") e clean_from-blank)
      | inr s ↦ rw s (elim (Bool-cases (c == 9)) [
        | inl e ↦ rw e (at_byte c 9 (codes "\\x09") e clean_from-tab)
        | inr t ↦ rw t (λ fresh d l. clean_from-plain fresh c d l h b s t)
      ])
    ])
  ])
]

quote_byte-cons : (c : ℕ) (m : Text) → (d : ℕ) × (l : Text) × (quote_byte c ++ m ≡ d ∷ l)
quote_byte-cons c m = elim (Bool-cases (c == b'#')) [
  | inl e ↦ rw e (_, _, refl)
  | inr h ↦ rw h (elim (Bool-cases (c == b'\\')) [
    | inl e ↦ rw e (_, _, refl)
    | inr b ↦ rw b (elim (Bool-cases (c == b' ')) [
      | inl e ↦ rw e (_, _, refl)
      | inr s ↦
          rw s
            (elim (Bool-cases (c == 9)) [ inl e ↦ rw e (_, _, refl) | inr t ↦ rw t (_, _, refl) ])
    ])
  ])
]

quoted-cons : (l : Text) → (d : ℕ) × (m : Text) × (quoted l ≡ d ∷ m)
quoted-cons [] = (_, _, refl)
quoted-cons (c ∷ l) = quote_byte-cons c (quoted l)

trim_end-quoted : (fresh : Bool) (l : Text) → trim_end (clean_from 0 fresh (quoted l)) ≡ trim_end l
unfolding clean_from trim_end piece byte_piece
trim_end-quoted false [] = refl
trim_end-quoted true [] = refl
trim_end-quoted fresh (c ∷ l) =
    let (d, m, e) = quoted-cons l in
    let back : clean_from 0 fresh (quoted (c ∷ l)) ≡ c ∷ clean_from 0 false (quoted l) =
      rw e (quote_byte-ReadsBack c fresh d m) in
    ap trim_end back ∙ ap (unless_white c) (trim_end-quoted false l)

-- Every text can be written on a line, each `#`, backslash, blank and tab of it as an escape, and
-- a blank at the end: cleanLine gives it back, less the white at its end.
pub clean_line-quoted : (l : Text) → clean_line (quoted l) ≡ trim_end l
unfolding clean_line
clean_line-quoted l = trim_end-quoted true l
