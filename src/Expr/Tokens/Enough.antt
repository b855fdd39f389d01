-- ===== src/Expr/Tokens/Enough.antt =====
-- The tokenizer of argus/expr/expr.go ends on every text: each round of its loop shortens the text.
use argus.Prelude.{
  ℕ, zero, suc, ◌+◌, ◌≤◌, ◌<◌, ◌≡◌, refl, Option, none, some, List, [], ◌∷◌, ◌++◌, arith, ◌==◌,
  length, drop, length-drop, Bool-cases, inl, inr,
}
use argus.Text.{Text}
use argus.Expr.{Outcome, ok, failed}
use argus.Expr.Tokens.{
  trim_left, keep, trim_right, trim_space, Round, bad, last, more, braced, quoted, worded, is_quote,
  round, tokens_from, tokenize,
}

length-trim_left : (t : Text) → length (trim_left t) ≤ length t
unfolding trim_left
length-trim_left [] = omega arith
length-trim_left (c ∷ cs) = ground (arith, length-trim_left cs)

length-keep : (c : ℕ) (t : Text) → length (keep c t) ≤ suc (length t)
unfolding keep
length-keep c [] = ground arith
length-keep c (d ∷ ds) = omega arith

length-trim_right : (t : Text) → length (trim_right t) ≤ length t
unfolding trim_right
length-trim_right [] = omega arith
length-trim_right (c ∷ cs) = omega (arith, length-keep c (trim_right cs), length-trim_right cs)

pub length-trim_space : (t : Text) → length (trim_space t) ≤ length t
unfolding trim_space
length-trim_space t = omega (arith, length-trim_right (trim_left t), length-trim_left t)

-- The rest that a round leaves is shorter than the text that it began with.
abbrev Shortens : ℕ → Round → Type 0
Shortens n (bad e) = Unit
Shortens n (last ts) = Unit
Shortens n (more ts rest) = length rest < n

length-cut : (k : ℕ) (t : Text) → 1 ≤ k → 1 ≤ length t → length (trim_space (drop k t)) < length t
length-cut k t h n = omega (arith, length-trim_space (drop k t), length-drop k t)

braced-Shortens : (t : Text) (o : Option ℕ) → 1 ≤ length t → Shortens (length t) (braced t o)
unfolding braced
braced-Shortens t none n = tt
braced-Shortens t (some e) n = length-cut (e + 1) t (omega arith) n

quoted-Shortens : (t : Text) (o : Option ℕ) → 1 ≤ length t → Shortens (length t) (quoted t o)
unfolding quoted
quoted-Shortens t none n = tt
quoted-Shortens t (some e) n = length-cut (e + 2) t (omega arith) n

worded-Shortens : (t : Text) (o : Option ℕ) → 1 ≤ length t → Shortens (length t) (worded t o)
unfolding worded
worded-Shortens t none n = tt
worded-Shortens t (some zero) n = length-cut 1 t (omega arith) n
worded-Shortens t (some (suc i)) n = length-cut (suc i + 1) t (omega arith) n

round-Shortens : (c : ℕ) (cs : Text) → Shortens (suc (length cs)) (round c cs)
unfolding round
round-Shortens c cs = elim (Bool-cases (c == b'{')) [
  | inl e ↦ rw e (braced-Shortens (c ∷ cs) _ (omega arith))
  | inr e ↦ elim (Bool-cases (is_quote c)) [
    | inl q ↦ rw (e, q) (quoted-Shortens (c ∷ cs) _ (omega arith))
    | inr q ↦ rw (e, q) (worded-Shortens (c ∷ cs) _ (omega arith))
  ]
]

-- What the loop gives does not depend on the fuel, once it is as long as the text.
abbrev pub Ends : Text → List Text → Type 0
Ends t tok =
    (r : Outcome (List Text)) × ((fuel : ℕ) → length t ≤ fuel → tokens_from fuel t tok ≡ some r)

first-round :
    (c : ℕ) (cs : Text) (tok : List Text) (r : Outcome (List Text))
    → ((fuel : ℕ) → length cs ≤ fuel → tokens_from (suc fuel) (c ∷ cs) tok ≡ some r)
    → Ends (c ∷ cs) tok
first-round c cs tok r h = (r, λ fuel le. with_suc fuel le)
  where
    with_suc : (fuel : ℕ) → suc (length cs) ≤ fuel → tokens_from fuel (c ∷ cs) tok ≡ some r
    with_suc zero le = ground arith
    with_suc (suc fuel) le = h fuel (omega arith)

round-Ends :
    (c : ℕ) (cs : Text) (tok : List Text) (r : Round)
    → round c cs ≡ r
    → Shortens (suc (length cs)) r
    → ((rest : Text) (ts : List Text) → length rest < suc (length cs) → Ends rest ts)
    → Ends (c ∷ cs) tok
unfolding tokens_from
round-Ends c cs tok (bad e) q h rec =
    first-round c cs tok (failed e) (λ fuel le. rw (q, tokens_from) refl)
round-Ends c cs tok (last ts) q h rec =
    first-round c cs tok (ok (tok ++ ts)) (λ fuel le. rw (q, tokens_from) refl)
round-Ends c cs tok (more ts rest) q h rec =
    let (r, e) = rec rest (tok ++ ts) h in
    first-round c cs tok r (λ fuel le. rw (q, tokens_from) (e fuel (omega arith)))

tokens_from-Ends : (n : ℕ) (t : Text) (tok : List Text) → length t ≤ n → Ends t tok
unfolding tokens_from
tokens_from-Ends n [] tok h = (ok tok, λ fuel le. no_text fuel)
  where
    no_text : (fuel : ℕ) → tokens_from fuel [] tok ≡ some (ok tok)
    no_text zero = refl
    no_text (suc fuel) = refl
tokens_from-Ends zero (c ∷ cs) tok h = ground arith
tokens_from-Ends (suc n) (c ∷ cs) tok h =
    round-Ends c cs tok (round c cs) refl (round-Shortens c cs)
      (λ rest ts l. tokens_from-Ends n rest ts (omega arith))

-- tokenize gives tokens or a syntax error for every text: the fuel of the model is never used up,
-- and any larger fuel gives the same.
pub tokenize-Ends :
    (expr : Text)
    → (r : Outcome (List Text)) × (tokenize expr ≡ some r)
      × ((fuel : ℕ) → length expr ≤ fuel → tokens_from fuel (trim_space expr) [] ≡ some r)
unfolding tokenize
tokenize-Ends expr =
    let (r, e) = tokens_from-Ends (length expr) (trim_space expr) [] (length-trim_space expr) in
    (
      r,
      e (length expr) (length-trim_space expr),
      λ fuel le. e fuel (omega (arith, length-trim_space expr)),
    )
