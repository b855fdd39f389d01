-- ===== src/Expr/Tokens/Read.antt =====
-- tokenize of argus/expr/expr.go finds the tokens that are written as a text.
use mathlib.Core.List.{append_assoc, append-nil}
use argus.Prelude.{
  ℕ, zero, suc, ◌≤◌, ◌≡◌, refl, ◌∙◌, true, false, some, List, [], ◌∷◌, ◌++◌, arith, length,
  Bool-cases, inl, inr,
}
use argus.Text.{Text}
use argus.Expr.{ok}
use argus.Expr.Tokens.{trim_space, Round, more, last, operator, round, tokens_from, tokenize}
use argus.Expr.Tokens.Written.{
  is_op_char, is_op_text, is_bare, written, gap, write, IsToken, AreTokens, trim_space-write,
  length-write,
}
use argus.Expr.Tokens.Rounds.{round-braces, op_char_sep, op_text-round, bare-round, bare_last}

-- What a round finds of written tokens: the first one; the last one; or a word with the operator
-- after it.
data Next (t : Text) : List Text → Round → Type 0 where
  first : {ts : List Text} → Next t ts (more (t ∷ []) (trim_space (write ts)))
  ends : Next t [] (last (t ∷ []))
  pairs : {u : Text} {ts : List Text} → Next t (u ∷ ts) (more (t ∷ u ∷ []) (trim_space (write ts)))

-- The text of written tokens, and what a round does with it.
record Finds (t : Text) (ts : List Text) : Type 0 where
  c : ℕ
  cs : Text
  result : Round
  is_text : write (t ∷ ts) ≡ c ∷ cs
  is_round : round c cs ≡ result
  next : Next t ts result

op_no_gap : (t : Text) (ts : List Text) → is_bare t ≡ false → gap t ts ≡ []
unfolding gap
op_no_gap t [] h = refl
op_no_gap t (u ∷ ts) h = rw h refl

op_not_bare : (t : Text) → is_op_text t ≡ true → is_bare t ≡ false
unfolding is_op_text is_bare
op_not_bare [] h = refl
op_not_bare (c ∷ []) h = rw (op_char_sep c h) (ground arith)
op_not_bare (c ∷ d ∷ t) h = ground arith

op_operator : (d : ℕ) → is_op_char d ≡ true → operator d ≡ (d ∷ []) ∷ []
unfolding operator
op_operator d h = ground arith

bare_spaced :
    (c : ℕ) (t u : Text) (ts : List Text)
    → is_bare (c ∷ t) ≡ true
    → is_op_text (c ∷ t) ≡ false
    → IsToken (c ∷ t)
    → is_op_text u ≡ false
    → Finds (c ∷ t) (u ∷ ts)
unfolding operator
bare_spaced c t u ts h n k e = record {
  c = c;
  cs = t ++ b' ' ∷ write (u ∷ ts);
  result = more ((c ∷ t) ∷ []) (trim_space (write (u ∷ ts)));
  is_text = unfold write in unfold written in unfold gap in rw (n, h, e) refl;
  is_round = bare-round c t b' ' (write (u ∷ ts)) h k refl;
  next = first;
}

bare_paired :
    (c : ℕ) (t : Text) (d : ℕ) (ts : List Text)
    → is_bare (c ∷ t) ≡ true
    → is_op_text (c ∷ t) ≡ false
    → IsToken (c ∷ t)
    → is_op_char d ≡ true
    → Finds (c ∷ t) ((d ∷ []) ∷ ts)
bare_paired c t d ts h n k e = record {
  c = c;
  cs = t ++ d ∷ write ts;
  result = more ((c ∷ t) ∷ (d ∷ []) ∷ []) (trim_space (write ts));
  is_text =
      let op : is_op_text (d ∷ []) ≡ true = unfold is_op_text in e in
      unfold write in
      unfold written in
      unfold gap in rw (n, h, op, op_no_gap (d ∷ []) ts (op_not_bare (d ∷ []) op)) refl;
  is_round = bare-round c t d (write ts) h k (op_char_sep d e) ∙ rw (op_operator d e) refl;
  next = pairs;
}

bare-Finds :
    (t : Text) (ts : List Text) → is_bare t ≡ true → is_op_text t ≡ false → IsToken t → Finds t ts
unfolding write written gap
bare-Finds [] ts h n k = absurd (unfold is_bare in ground (arith, h))
bare-Finds (c ∷ t) [] h n k = record {
  c = c;
  cs = t;
  result = last ((c ∷ t) ∷ []);
  is_text = rw (n, h, append-nil t) refl;
  is_round = bare_last c t h k;
  next = ends;
}
bare-Finds (c ∷ t) ([] ∷ ts) h n k = bare_spaced c t [] ts h n k refl
bare-Finds (c ∷ t) ((d ∷ []) ∷ ts) h n k = elim (Bool-cases (is_op_char d)) [
  | inl e ↦ bare_paired c t d ts h n k e
  | inr e ↦ bare_spaced c t (d ∷ []) ts h n k (unfold is_op_text in e)
]
bare-Finds (c ∷ t) ((d ∷ e ∷ u) ∷ ts) h n k = bare_spaced c t (d ∷ e ∷ u) ts h n k refl

write-Finds : (t : Text) (ts : List Text) → IsToken t → Finds t ts
write-Finds t ts k = elim (Bool-cases (is_op_text t)) [
  | inl e ↦
      (let (c, q, r) = op_text-round t e in
        record {
          c = c;
          cs = write ts;
          result = more (t ∷ []) (trim_space (write ts));
          is_text =
              unfold write in unfold written in rw (e, op_no_gap t ts (op_not_bare t e), q) refl;
          is_round = r (write ts);
          next = first;
        })
  | inr e ↦ elim (Bool-cases (is_bare t)) [
    | inl f ↦ bare-Finds t ts f e k
    | inr f ↦ record {
      c = b'{';
      cs = t ++ b'}' ∷ write ts;
      result = more (t ∷ []) (trim_space (write ts));
      is_text =
          unfold write in
          unfold written in rw (e, f, op_no_gap t ts f, append_assoc t (b'}' ∷ []) (write ts)) refl;
      is_round = round-braces t (write ts) k;
      next = first;
    }
  ]
]

-- A round, where the rounds after it find what is left.
tokens_from-Next :
    (fuel : ℕ) (c : ℕ) (cs : Text) (t : Text) (ts : List Text) (tok : List Text) (r : Round)
    → ((us : List Text) (tok' : List Text)
        → AreTokens us
        → length us ≤ fuel
        → tokens_from fuel (write us) tok' ≡ some (ok (tok' ++ us)))
    → round c cs ≡ r
    → Next t ts r
    → AreTokens ts
    → length ts ≤ fuel
    → tokens_from (suc fuel) (c ∷ cs) tok ≡ some (ok (tok ++ t ∷ ts))
unfolding tokens_from
tokens_from-Next fuel c cs t ts tok r later e first a l =
    rw (e, tokens_from, trim_space-write ts a)
      (rw (append_assoc tok (t ∷ []) ts) at (later ts (tok ++ t ∷ []) a l))
tokens_from-Next fuel c cs t ts tok r later e ends a l = rw (e, tokens_from) refl
tokens_from-Next fuel c cs t (u ∷ ts) tok r later e pairs (k, a) l =
    rw (e, tokens_from, trim_space-write ts a)
      (rw (append_assoc tok (t ∷ u ∷ []) ts) at (later ts (tok ++ t ∷ u ∷ []) a (omega arith)))

tokens_from-write :
    (fuel : ℕ) (ts : List Text) (tok : List Text)
    → AreTokens ts
    → length ts ≤ fuel
    → tokens_from fuel (write ts) tok ≡ some (ok (tok ++ ts))
unfolding tokens_from write
tokens_from-write zero [] tok a h = rw (append-nil tok) refl
tokens_from-write (suc fuel) [] tok a h = rw (append-nil tok) refl
tokens_from-write zero (t ∷ ts) tok a h = ground arith
tokens_from-write (suc fuel) (t ∷ ts) tok (k, a) h =
    let f = write-Finds t ts k in
    rw f.is_text (
      tokens_from-Next fuel f.c f.cs t ts tok f.result (tokens_from-write fuel) f.is_round f.next a
        (omega arith))

-- tokenize of what is written gives the tokens.
pub tokenize-write : (ts : List Text) → AreTokens ts → tokenize (write ts) ≡ some (ok ts)
unfolding tokenize
tokenize-write ts a =
    rw (trim_space-write ts a) (tokens_from-write (length (write ts)) ts [] a (length-write ts))
