-- ===== src/Text.antt =====
-- Strings that the program walks, as lists of code points (bytes, where the source indexes), and
-- what it uses of the packages strings and unicode.
use Prim.Native.Char.{code}
use argus.Prelude.{
  ℕ, ◌+◌, String, ◌≡◌, refl, ◌↔◌, Bool, true, false, ◌&&◌, ◌||◌, List, [], ◌∷◌, ◌++◌, map, arith,
  leb, ◌==◌, if◌then◌else◌,
}

abbrev pub Text : Type 0
Text = List ℕ

-- The code points of a literal.
abbrev pub codes : String → Text
codes String.[] = []
codes (String.◌∷◌ c s) = code c ∷ codes s

-- `==` on strings.
abbrev pub text_eq : Text → Text → Bool
text_eq [] [] = true
text_eq [] (d ∷ t) = false
text_eq (c ∷ s) [] = false
text_eq (c ∷ s) (d ∷ t) = c == d && text_eq s t

text_eq_sound : (s t : Text) → text_eq s t ≡ true → s ≡ t
text_eq_sound [] [] h = refl
text_eq_sound [] (d ∷ t) h = ground arith
text_eq_sound (c ∷ s) [] h = ground arith
text_eq_sound (c ∷ s) (d ∷ t) h = ground (arith, text_eq_sound s t)

pub text_eq_refl : (s : Text) → text_eq s s ≡ true
text_eq_refl [] = refl
text_eq_refl (c ∷ s) = ground (arith, text_eq_refl s)

pub text_eq_iff : (s t : Text) → (text_eq s t ≡ true) ↔ (s ≡ t)
text_eq_iff s t = (text_eq_sound s t, λ e. rw e (text_eq_refl t))

-- unicode.ToLower, as far as a comparison with an ASCII word can tell: besides A to Z, two code
-- points have an ASCII lower case (U+0130 and U+212A); all others go to themselves or to another
-- code point that is not ASCII.
abbrev pub to_lower_rune : ℕ → ℕ
to_lower_rune c =
    if leb b'A' c && leb c b'Z'
    then c + 32
    else if c == 0x130
    then b'i'
    else if c == 0x212a
    then b'k'
    else c

-- strings.ToLower
abbrev pub to_lower : Text → Text
to_lower = map to_lower_rune

-- strings.HasPrefix
abbrev pub has_prefix : Text → Text → Bool
has_prefix s [] = true
has_prefix [] (p ∷ ps) = false
has_prefix (c ∷ s) (p ∷ ps) = c == p && has_prefix s ps

unfoldable pub flush : Text → List Text → List Text
flush [] fs = fs
flush (c ∷ cs) fs = (c ∷ cs) ∷ fs

-- strings.FieldsFunc: the maximal runs with no separator; `word` is the run before the text.
unfoldable pub fields_from : (ℕ → Bool) → Text → Text → List Text
unfolding flush
fields_from sep word [] = flush word []
fields_from sep word (c ∷ cs) = elim (sep c) [
  | true ↦ flush word (fields_from sep [] cs)
  | false ↦ fields_from sep (word ++ c ∷ []) cs
]

abbrev pub fields_func : (ℕ → Bool) → Text → List Text
fields_func sep = fields_from sep []

-- unicode.IsSpace
abbrev pub is_space : ℕ → Bool
is_space c =
    leb 9 c && leb c 13
    || c == 32
    || c == 0x85
    || c == 0xa0
    || c == 0x1680
    || leb 0x2000 c && leb c 0x200a
    || c == 0x2028
    || c == 0x2029
    || c == 0x202f
    || c == 0x205f
    || c == 0x3000

-- strings.Fields
abbrev pub fields : Text → List Text
fields = fields_func is_space

fields_example : fields (codes " a  bc ") ≡ codes "a" ∷ codes "bc" ∷ []
unfolding fields_from
fields_example = refl
