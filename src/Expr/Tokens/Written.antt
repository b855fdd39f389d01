-- ===== src/Expr/Tokens/Written.antt =====
-- Tokens as a text: operators and words as they are, a blank after a word that no operator follows,
-- and all else in braces. That is a way to write for tokenize of argus/expr/expr.go.
use mathlib.Core.List.{append_assoc, append-nil}
use argus.Prelude.{
  ℕ, ◌≤◌, ◌≡◌, refl, sym, ◌∙◌, Bool, true, false, not, ◌&&◌, ◌||◌, none, List, [], ◌∷◌, ◌++◌, arith,
  ◌==◌, if◌then◌else◌, length, any, Bool-cases, inl, inr, length-append,
}
use argus.Text.{Text, codes, is_space}
use argus.Expr.Tokens.{trim_left, keep, trim_right, trim_space, index_of, is_quote, is_sep}

abbrev pub is_op_char : ℕ → Bool
is_op_char c = any (λ d. c == d) (codes "()+-*/%^")

unfoldable pub is_op_text : Text → Bool
is_op_text [] = false
is_op_text (c ∷ []) = is_op_char c
is_op_text (c ∷ d ∷ t) = false

-- A word that needs no braces, as a number or the name of a function.
unfoldable pub is_bare : Text → Bool
is_bare [] = false
is_bare (c ∷ t) = not (is_space c || c == b'{' || is_quote c) && not (any is_sep (c ∷ t))

unfoldable pub written : Text → Text
unfolding is_op_text is_bare
written t = if is_op_text t || is_bare t then t else b'{' ∷ t ++ b'}' ∷ []

-- What parts a token from those that follow: a blank after a word, where no operator follows.
unfoldable pub gap : Text → List Text → Text
unfolding is_bare is_op_text
gap t [] = []
gap t (u ∷ ts) = if is_bare t && not (is_op_text u) then b' ' ∷ [] else []

unfoldable pub write : List Text → Text
unfolding written gap
write [] = []
write (t ∷ ts) = written t ++ (gap t ts ++ write ts)

-- A token that the tokenizer can give from within braces.
pub record IsToken (t : Text) : Type 0 where
  pub trimmed : trim_space t ≡ t
  pub no_brace : index_of (λ d. d == b'}') t ≡ none

abbrev pub AreTokens : List Text → Type 0
AreTokens [] = Unit
AreTokens (t ∷ ts) = IsToken t × AreTokens ts

-- Texts that end with no blank.
solid_append :
    (xs : Text) (d : ℕ) (ds : Text)
    → trim_right (d ∷ ds) ≡ d ∷ ds
    → trim_right (xs ++ d ∷ ds) ≡ xs ++ d ∷ ds
unfolding trim_right keep
solid_append [] d ds h = h
solid_append (x ∷ []) d ds h = rw (solid_append [] d ds h) refl
solid_append (x ∷ y ∷ xs) d ds h = rw (solid_append (y ∷ xs) d ds h) refl

op_text_solid : (t : Text) → is_op_text t ≡ true → trim_right t ≡ t
unfolding is_op_text trim_right keep
op_text_solid [] h = refl
op_text_solid (c ∷ []) h = ground arith
op_text_solid (c ∷ d ∷ t) h = ground arith

bare_solid : (t : Text) → is_bare t ≡ true → IsToken t → trim_right t ≡ t
unfolding is_bare trim_right
bare_solid [] h k = refl
bare_solid (c ∷ t) h k =
    let no : is_space c ≡ false = ground (arith, h) in
    let e : trim_space (c ∷ t) ≡ c ∷ t = k.trimmed in
    let f : trim_space (c ∷ t) ≡ trim_right (c ∷ t) =
      unfold trim_space in unfold trim_left in rw no refl in
    sym f ∙ e

written_solid : (t : Text) → IsToken t → trim_right (written t) ≡ written t
unfolding written trim_right keep
written_solid t k = elim (Bool-cases (is_op_text t)) [
  | inl e ↦ rw e (op_text_solid t e)
  | inr e ↦ rw e (elim (Bool-cases (is_bare t)) [
    | inl f ↦ rw f (bare_solid t f k)
    | inr f ↦ rw f (solid_append (b'{' ∷ t) b'}' [] refl)
  ])
]

-- What is written is not empty, and begins with no blank.
pub record Begins (t : Text) : Type 0 where
  pub first : ℕ
  pub others : Text
  pub is_text : t ≡ first ∷ others
  pub not_space : is_space first ≡ false

op_text-Begins : (t : Text) → is_op_text t ≡ true → Begins t
unfolding is_op_text
op_text-Begins [] h = ground arith
op_text-Begins (c ∷ []) h = record {
  first = c;
  others = [];
  is_text = refl;
  not_space = ground arith;
}
op_text-Begins (c ∷ d ∷ t) h = ground arith

bare-Begins : (t : Text) → is_bare t ≡ true → Begins t
unfolding is_bare
bare-Begins [] h = ground arith
bare-Begins (c ∷ t) h = record {
  first = c;
  others = t;
  is_text = refl;
  not_space = ground (arith, h);
}

pub written-Begins : (t : Text) → Begins (written t)
unfolding written
written-Begins t = elim (Bool-cases (is_op_text t)) [
  | inl e ↦ rw e (op_text-Begins t e)
  | inr e ↦ rw e (elim (Bool-cases (is_bare t)) [
    | inl f ↦ rw f (bare-Begins t f)
    | inr f ↦
        rw f record { first = b'{'; others = t ++ b'}' ∷ []; is_text = refl; not_space = refl }
  ])
]

trim_left-Begins : (t after : Text) → Begins t → trim_left (t ++ after) ≡ t ++ after
unfolding trim_left
trim_left-Begins t after b = rw (b.is_text, b.not_space) refl

write_solid : (ts : List Text) → AreTokens ts → trim_right (write ts) ≡ write ts
unfolding write trim_right gap
write_solid [] a = refl
write_solid (t ∷ []) (k, a) = rw (append-nil (written t)) (written_solid t k)
write_solid (t ∷ u ∷ ts) (k, a) =
    let b = written-Begins u in
    let more = b.others ++ (gap u ts ++ write ts) in
    rw (b.is_text, sym (append_assoc (written t) (gap t (u ∷ ts)) (b.first ∷ more)))
      (solid_append (written t ++ gap t (u ∷ ts)) b.first more
        (rw b.is_text at (write_solid (u ∷ ts) a)))

-- What is written is trimmed.
pub trim_space-write : (ts : List Text) → AreTokens ts → trim_space (write ts) ≡ write ts
unfolding trim_space write trim_left trim_right
trim_space-write [] a = refl
trim_space-write (t ∷ ts) a =
    rw (trim_left-Begins (written t) (gap t ts ++ write ts) (written-Begins t))
      (write_solid (t ∷ ts) a)

pub length-write : (ts : List Text) → length ts ≤ length (write ts)
unfolding write
length-write [] = omega arith
length-write (t ∷ ts) =
    let b = written-Begins t in
    rw b.is_text (
      omega (
        arith,
        length-append b.others (gap t ts ++ write ts),
        length-append (gap t ts) (write ts),
        length-write ts,
      ))
