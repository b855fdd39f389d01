-- ===== src/Expr/Compile.antt =====
-- The machine run on what the parser makes of an expression gives the expression's value:
-- argus/expr/expr.go, Calc and RunExprF.
use mathlib.Core.List.{append_assoc, append-nil}
use argus.Prelude.{ℕ, ◌≡◌, refl, sym, Bool, true, some, List, [], ◌∷◌, ◌++◌}
use argus.Text.{Text}
use argus.Expr.{
  ok, Fun, nullary, unary, binary, aggregate, Nullary, Unary, Binary, Fagg, fop_time, fop_rand,
}
use argus.Expr.Grammar.{
  Tree, leaf, grouped, op0, op1, over, op2, flat, postfix, Fits, Names, IsOperand, eval,
}
use argus.Expr.Machine.{
  Es, stack, push, pushf, pop, pop_from, popf, run_nullary, run_unary, run_binary, run_fun, run_op,
  run_from, run_expr, texts,
}
use argus.Expr.Machine.Course.{value, ◌>>=◌, bind_assoc, bind_congr}
use argus.Expr.Machine.Values.{Env, Outside, number, unary_value, binary_value}
use argus.Expr.Machine.Groups.{aggregate_value}
use argus.Expr.Tokens.Written.{AreTokens, write}
use argus.Expr.Tokens.Read.{tokenize-write}
use argus.Expr.Parse.{parse_text, parse_tokens}
use argus.Expr.Parse.Pending.{named}
use argus.Expr.Parse.Postfix.{parse-flat}
use argus.Expr.Calc.{answer, run_expr_f, calc_parsed, calc}

parse_text-write :
    (x : Tree)
    → Fits x
    → AreTokens (flat x)
    → parse_text (write (flat x)) ≡ some (ok (postfix x, named x []))
unfolding parse_text parse_tokens
parse_text-write x f a = rw (tokenize-write (flat x) a, parse-flat x f) refl

module _ {F : Type 0} (env : Env F) where
  -- Code that pushes the value of a tree, in front of any further code, on top of any stack.
  abbrev Computes : List Text → Tree → Type 0
  Computes code x =
      (rest : List Text) (s : List Text) (out : Outside)
      → run_from env (code ++ rest) (stack s out)
        ≡ (eval env x out >>= λ (v, out'). run_from env rest (stack (v ∷ s) out'))

  run-Names :
      (t : Text) (p : ℕ) (rry : Bool) (fun : Fun) (rest : List Text) (es : Es)
      → Names t p rry fun
      → run_from env (t ∷ rest) es
        ≡ (run_fun env fun rry es >>= λ (res, es'). run_from env rest (pushf env res es'))
  unfolding run_from run_op
  run-Names t p rry fun rest es e = rw (e, run_from) (bind_assoc (run_fun env fun rry es) _ _)

  run-leaf :
      (t : Text) (rest s : List Text) (out : Outside)
      → IsOperand t
      → run_from env (t ∷ rest) (stack s out) ≡ run_from env rest (stack (t ∷ s) out)
  unfolding run_from run_op push
  run-leaf t rest s out h = rw (h.no_op, run_from) refl

  run-op0 :
      (t : Text) (p : ℕ) (k : Nullary) (rest s : List Text) (out : Outside)
      → Names t p true (nullary k)
      → run_from env (t ∷ rest) (stack s out) ≡ (
          run_nullary env k (stack [] out) >>= λ (v, es).
          run_from env rest (stack (env.print v ∷ s) es.out))
  unfolding run_fun run_nullary pushf push
  run-op0 t p fop_time rest s out e = rw (run-Names t p _ _ rest (stack s out) e) refl
  run-op0 t p fop_rand rest s out e = rw (run-Names t p _ _ rest (stack s out) e) refl

  run-op1 :
      (t : Text) (p : ℕ) (k : Unary) (rest : List Text) (a : Text) (s : List Text) (out : Outside)
      → Names t p true (unary k)
      → run_from env (t ∷ rest) (stack (a ∷ s) out) ≡ (
          number env a out.world >>= λ v.
          unary_value env k v >>= λ y. run_from env rest (stack (env.print y ∷ s) out))
  unfolding run_fun run_unary popf pop pop_from pushf push
  run-op1 t p k rest a s out e = rw (run-Names t p _ _ rest (stack (a ∷ s) out) e) (simp bind_assoc)

  run-over :
      (t : Text) (p : ℕ) (rry : Bool) (k : Fagg) (rest : List Text) (a : Text) (s : List Text)
      (out : Outside)
      → Names t p rry (aggregate k)
      → run_from env (t ∷ rest) (stack (a ∷ s) out) ≡ (
          aggregate_value env k rry a out >>= λ (v, out').
          run_from env rest (stack (env.print v ∷ s) out'))
  unfolding run_fun pop pop_from pushf push
  run-over t p rry k rest a s out e =
      rw (run-Names t p _ _ rest (stack (a ∷ s) out) e) (simp bind_assoc)

  run-op2 :
      (t : Text) (p : ℕ) (k : Binary) (rest : List Text) (a b : Text) (s : List Text)
      (out : Outside)
      → Names t p true (binary k)
      → run_from env (t ∷ rest) (stack (a ∷ b ∷ s) out) ≡ (
          number env a out.world >>= λ v. number env b out.world >>= λ w.
          run_from env rest (stack (env.print (binary_value env k w v) ∷ s) out))
  unfolding run_fun run_binary popf pop pop_from pushf push
  run-op2 t p k rest a b s out e =
      rw (run-Names t p _ _ rest (stack (a ∷ b ∷ s) out) e) (simp bind_assoc)

  postfix-Computes : (x : Tree) → Fits x → Computes (postfix x) x
  unfolding Fits eval postfix
  postfix-Computes (leaf t) f rest s out = run-leaf t rest s out f
  postfix-Computes (grouped x) f rest s out = postfix-Computes x f rest s out
  postfix-Computes (op0 t p k) e rest s out =
      rw (run-op0 t p k rest s out e) (sym (bind_assoc (run_nullary env k (stack [] out)) _ _))
  postfix-Computes (op1 t p k x) (e, f, _) rest s out =
      rw (append_assoc (postfix x) (t ∷ []) rest, postfix-Computes x f (t ∷ rest) s out, bind_assoc)
        (bind_congr (eval env x out) λ (a, o). rw (run-op1 t p k rest a s o e) (simp bind_assoc))
  postfix-Computes (over t p rry k x) (e, f, _) rest s out =
      rw (append_assoc (postfix x) (t ∷ []) rest, postfix-Computes x f (t ∷ rest) s out, bind_assoc)
        (bind_congr (eval env x out)
          λ (a, o). rw (run-over t p rry k rest a s o e) (simp bind_assoc))
  postfix-Computes (op2 t p k l r) (e, (fl, _), (fr, _)) rest s out =
      rw
        (
          append_assoc (postfix l ++ postfix r) (t ∷ []) rest,
          append_assoc (postfix l) (postfix r) (t ∷ rest),
          postfix-Computes l fl (postfix r ++ t ∷ rest) s out,
          bind_assoc,
        )
        (bind_congr (eval env l out) λ (b, o).
          rw (postfix-Computes r fr (t ∷ rest) (b ∷ s) o, bind_assoc)
            (bind_congr (eval env r o)
              λ (a, q). rw (run-op2 t p k rest a b s q e) (simp bind_assoc)))

  run_expr-postfix :
      (x : Tree) (out : Outside)
      → Fits x
      → run_expr env (postfix x) out ≡ (eval env x out >>= λ (v, out'). value v)
  unfolding run_expr run_from pop pop_from
  run_expr-postfix x out f =
      rw (sym (append-nil (postfix x)), postfix-Computes x f [] [] out, bind_assoc (eval env x out))
        refl

  -- A tree with brackets where the precedences ask for them, whose names and operands are trimmed
  -- and without a right brace, is written as a text: operators and words that need no braces as
  -- they are, a blank after a word that no operator follows, all else in braces. The text has the
  -- tree's value: tokenizing, parsing and running it do what the evaluation of the tree does, in
  -- its errors too.
  pub calc-write :
      (x : Tree) (out : Outside)
      → Fits x
      → AreTokens (flat x)
      → calc env (write (flat x)) out ≡ answer env (texts (eval env x out >>= λ (v, out'). value v))
  unfolding calc calc_parsed run_expr_f
  calc-write x out f a = rw (parse_text-write x f a, calc, run_expr-postfix x out f) refl
