-- ===== src/Expr/Tokens.antt =====
-- The tokens of an expression: tokenize of argus/expr/expr.go. A text is a list of code points; the
-- source finds ASCII bytes only, and cuts the text there.
pub mod Enough
pub mod Written
pub mod Rounds
pub mod Read
use argus.Prelude.{
  ℕ, zero, suc, ◌+◌, ◌-◌, Bool, true, false, ◌||◌, Option, none, some, List, [], ◌∷◌, ◌++◌, ◌==◌,
  if◌then◌else◌, length, take, drop, get_or, any,
}
use argus.Text.{Text, codes, is_space}
use argus.Expr.{Outcome, ok, failed}

unfoldable pub trim_left : Text → Text
trim_left [] = []
trim_left (c ∷ cs) = if is_space c then trim_left cs else c ∷ cs

unfoldable pub keep : ℕ → Text → Text
keep c [] = if is_space c then [] else c ∷ []
keep c (d ∷ ds) = c ∷ d ∷ ds

unfoldable pub trim_right : Text → Text
unfolding keep
trim_right [] = []
trim_right (c ∷ cs) = keep c (trim_right cs)

-- strings.TrimSpace
unfoldable pub trim_space : Text → Text
unfolding trim_left trim_right
trim_space t = trim_right (trim_left t)

abbrev pub one_more : Option ℕ → Option ℕ
one_more none = none
one_more (some i) = some (suc i)

-- The place of the first code point that passes the test.
unfoldable pub index_of : (ℕ → Bool) → Text → Option ℕ
index_of p [] = none
index_of p (c ∷ cs) = if p c then some 0 else one_more (index_of p cs)

abbrev pub is_quote : ℕ → Bool
is_quote c = c == b'"' || c == b'\''

-- "()+-*/%^ \t"
abbrev pub is_sep : ℕ → Bool
is_sep c = any (λ d. c == d) (codes "()+-*/%^ \t")

-- expr[i:j]
abbrev pub slice : ℕ → ℕ → Text → Text
slice i j t = drop i (take j t)

-- What a round of the loop does: it returns an error, ends with the last tokens, or goes on with
-- the rest of the text.
pub data Round : Type 0 where
  bad : Text → Round
  last : List Text → Round
  more : List Text → Text → Round

unfoldable pub braced : Text → Option ℕ → Round
unfolding trim_space
braced expr none = bad (codes "syntax error: unbalanced {}")
braced expr (some e) = more (trim_space (slice 1 e expr) ∷ []) (trim_space (drop (e + 1) expr))

unfoldable pub quoted : Text → Option ℕ → Round
unfolding trim_space
quoted expr none = bad (codes "syntax error: unbalanced quotes")
quoted expr (some e) =
    more (trim_space (slice 1 (e + 1) expr) ∷ []) (trim_space (drop (e + 2) expr))

unfoldable pub operator : ℕ → List Text
operator c = if c == b' ' || c == b'\t' then [] else (c ∷ []) ∷ []

unfoldable pub worded : Text → Option ℕ → Round
unfolding trim_space operator
worded expr none = last (trim_space expr ∷ [])
worded expr (some zero) = more (take 1 expr ∷ []) (trim_space (drop 1 expr))
worded expr (some (suc i)) =
    more (trim_space (take (suc i) expr) ∷ operator (get_or expr (suc i) 0))
      (trim_space (drop (suc i + 1) expr))

-- The body of the loop, on a text that begins with `c`.
unfoldable pub round : ℕ → Text → Round
unfolding braced quoted worded index_of
round c cs =
    if c == b'{'
    then braced (c ∷ cs) (index_of (λ d. d == b'}') (c ∷ cs))
    else if is_quote c
    then quoted (c ∷ cs) (index_of (λ d. d == c) cs)
    else worded (c ∷ cs) (index_of is_sep (c ∷ cs))

-- The loop, `none` where the fuel is used up.
unfoldable pub tokens_from : ℕ → Text → List Text → Option (Outcome (List Text))
tokens_from zero [] tok = some (ok tok)
tokens_from zero (c ∷ cs) tok = none
tokens_from (suc fuel) [] tok = some (ok tok)
tokens_from (suc fuel) (c ∷ cs) tok = elim (round c cs) [
  | bad e ↦ some (failed e)
  | last ts ↦ some (ok (tok ++ ts))
  | more ts rest ↦ tokens_from fuel rest (tok ++ ts)
]

-- tokenize; each round takes a code point at least.
unfoldable pub tokenize : Text → Option (Outcome (List Text))
unfolding tokens_from trim_space
tokenize expr = tokens_from (length expr) (trim_space expr) []
