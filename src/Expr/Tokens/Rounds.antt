-- ===== src/Expr/Tokens/Rounds.antt =====
-- The rounds of tokenize of argus/expr/expr.go on tokens that are written as a text.

use argus.Prelude.{
  ℕ, suc, ◌+◌, ◌≡◌, refl, ap, Bool, true, false, none, some, [], ◌∷◌, ◌++◌, arith, ◌==◌, length,
  get_or, take, drop, any,
}
use argus.Text.{Text}
use argus.Expr.Tokens.{
  trim_space, index_of, more, last, braced, worded, operator, is_quote, is_sep, round,
}
use argus.Expr.Tokens.Written.{is_op_char, is_op_text, is_bare, IsToken}

-- The rounds of the tokenizer on a token.
index_of-append :
    (p : ℕ → Bool) (t : Text) (c : ℕ) (after : Text)
    → index_of p t ≡ none
    → p c ≡ true
    → index_of p (t ++ c ∷ after) ≡ some (length t)
unfolding index_of
index_of-append p [] c after h e = rw e refl
index_of-append p (x ∷ t) c after h e = ground (arith, index_of-append p t c after)

take-append : (t after : Text) → take (length t) (t ++ after) ≡ t
take-append [] after = refl
take-append (c ∷ t) after = ap (λ r. c ∷ r) (take-append t after)

add_one : (n : ℕ) → n + 1 ≡ suc n
add_one n = omega arith

drop-append : (t : Text) (c : ℕ) (after : Text) → drop (suc (length t)) (t ++ c ∷ after) ≡ after
drop-append [] c after = refl
drop-append (x ∷ t) c after = drop-append t c after

pub round-braces :
    (t after : Text) → IsToken t → round b'{' (t ++ b'}' ∷ after) ≡ more (t ∷ []) (trim_space after)
unfolding round braced index_of
round-braces t after h =
    rw
      (
        index_of-append (λ d. d == b'}') t b'}' after h.no_brace refl,
        take-append t (b'}' ∷ after),
        add_one (suc (length t)),
        drop-append t b'}' after,
        h.trimmed,
      )
      refl

op_char_not_brace : (c : ℕ) → is_op_char c ≡ true → (c == b'{') ≡ false
op_char_not_brace c h = ground arith

op_char_not_quote : (c : ℕ) → is_op_char c ≡ true → is_quote c ≡ false
op_char_not_quote c h = ground arith

pub op_char_sep : (c : ℕ) → is_op_char c ≡ true → is_sep c ≡ true
op_char_sep c h = ground arith

pub op_text-round :
    (t : Text)
    → is_op_text t ≡ true
    → (c : ℕ) × (t ≡ c ∷ []) × ((after : Text) → round c after ≡ more (t ∷ []) (trim_space after))
unfolding is_op_text round worded index_of
op_text-round [] h = ground arith
op_text-round (c ∷ []) h =
    (c, refl, λ after. rw (op_char_not_brace c h, op_char_not_quote c h, op_char_sep c h) refl)
op_text-round (c ∷ d ∷ t) h = ground arith

get_or-length : (t : Text) (d : ℕ) (after : Text) → get_or (t ++ d ∷ after) (length t) 0 ≡ d
get_or-length [] d after = refl
get_or-length (c ∷ t) d after = get_or-length t d after

no_sep : (t : Text) → any is_sep t ≡ false → index_of is_sep t ≡ none
unfolding index_of
no_sep [] h = refl
no_sep (c ∷ t) h = ground (arith, h, no_sep t)

-- A word is found with the separator after it.
pub bare-round :
    (c : ℕ) (t : Text) (d : ℕ) (after : Text)
    → is_bare (c ∷ t) ≡ true
    → IsToken (c ∷ t)
    → is_sep d ≡ true
    → round c (t ++ d ∷ after) ≡ more ((c ∷ t) ∷ operator d) (trim_space after)
unfolding is_bare round worded
bare-round c t d after h k e =
    let brace : (c == b'{') ≡ false = ground (arith, h) in
    let quote : is_quote c ≡ false = ground (arith, h) in
    let clear : any is_sep (c ∷ t) ≡ false = ground (arith, h) in
    rw
      (
        brace,
        quote,
        index_of-append is_sep (c ∷ t) d after (no_sep (c ∷ t) clear) e,
        take-append t (d ∷ after),
        get_or-length t d after,
        add_one (suc (length t)),
        drop-append t d after,
        k.trimmed,
      )
      refl

pub bare_last :
    (c : ℕ) (t : Text) → is_bare (c ∷ t) ≡ true → IsToken (c ∷ t) → round c t ≡ last ((c ∷ t) ∷ [])
unfolding is_bare round worded
bare_last c t h k =
    let brace : (c == b'{') ≡ false = ground (arith, h) in
    let quote : is_quote c ≡ false = ground (arith, h) in
    let clear : any is_sep (c ∷ t) ≡ false = ground (arith, h) in
    rw (brace, quote, no_sep (c ∷ t) clear, k.trimmed) refl
