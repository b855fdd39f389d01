-- ===== src/Expr/Parse.antt =====
-- Dijkstra's shunting yard: parse of argus/expr/expr.go. The stack of operators has its top first.
pub mod Table
pub mod Pending
pub mod Postfix
pub mod Mismatch
use argus.Prelude.{
  ℕ, Bool, true, false, Option, none, some, List, [], ◌∷◌, ◌++◌, ltb, if◌then◌else◌,
}
use argus.Text.{Text, codes, text_eq, has_prefix}
use argus.Dict.{Dict, insert}
use argus.Expr.{Op, op_of, prec_of, Outcome, ok, failed}
use argus.Expr.Tokens.{tokenize}

-- The variables of parse.
pub record Parsing : Type 0 where
  pub oq : List Text
  pub op : List Text
  pub objs : Dict Bool

abbrev pub parsing : List Text → List Text → Dict Bool → Parsing
parsing oq op objs = record { oq = oq; op = op; objs = objs }

abbrev pub left : Text
left = codes "("

abbrev pub right : Text
right = codes ")"

-- Up to the left bracket: the stack is left and the output, or the bracket is missing.
unfoldable pub pop_group : List Text → List Text → Option (List Text × List Text)
pop_group [] oq = none
pop_group (nt ∷ op) oq =
    let rest = pop_group op (oq ++ nt ∷ []) in if text_eq nt left then some (op, oq) else rest

-- Operators that bind as tightly at least.
unfoldable pub pop_higher : ℕ → List Text → List Text → List Text × List Text
pop_higher prec [] oq = ([], oq)
pop_higher prec (o ∷ op) oq =
    let rest = pop_higher prec op (oq ++ o ∷ []) in
    if ltb (prec_of o) prec then (o ∷ op, oq) else rest

unfoldable pub regroup : Dict Bool → Option (List Text × List Text) → Option Parsing
regroup objs none = none
regroup objs (some (op, oq)) = some (parsing oq op objs)

unfoldable pub operand : Text → Parsing → Parsing
operand t st =
    parsing (st.oq ++ t ∷ []) st.op
      (if has_prefix t (codes "Top") then insert t true st.objs else st.objs)

unfoldable pub push_op : Text → ℕ → Parsing → Parsing
unfolding pop_higher
push_op t prec st = let (op, oq) = pop_higher prec st.op st.oq in parsing oq (t ∷ op) st.objs

unfoldable pub operand_or_op : Text → Option Op → Parsing → Parsing
unfolding operand push_op
operand_or_op t none st = operand t st
operand_or_op t (some o) st = push_op t o.prec st

-- The body of the loop; `none` is the error of a mismatched bracket.
unfoldable pub step : Text → Parsing → Option Parsing
unfolding pop_group regroup operand_or_op
step t st =
    if text_eq t left
    then some (parsing st.oq (t ∷ st.op) st.objs)
    else if text_eq t right
    then regroup st.objs (pop_group st.op st.oq)
    else some (operand_or_op t (op_of t) st)

unfoldable pub steps : List Text → Parsing → Option Parsing
unfolding step
steps [] st = some st
steps (t ∷ tok) st = elim (step t st) [ none ↦ none | some st' ↦ steps tok st' ]

-- What is left on the stack goes to the output, a left bracket too.
unfoldable pub finish : Option Parsing → Outcome (List Text × Dict Bool)
finish none = failed (codes "syntax error: mismatched ()")
finish (some st) = ok (st.oq ++ st.op, st.objs)

-- parse
unfoldable pub parse : List Text → Outcome (List Text × Dict Bool)
unfolding steps finish
parse tok = finish (steps tok (parsing [] [] []))

unfoldable pub parse_tokens :
    Option (Outcome (List Text)) → Option (Outcome (List Text × Dict Bool))
unfolding parse
parse_tokens none = none
parse_tokens (some (failed e)) = some (failed e)
parse_tokens (some (ok tok)) = some (parse tok)

-- Parse
unfoldable pub parse_text : Text → Option (Outcome (List Text × Dict Bool))
unfolding parse_tokens
parse_text expr = parse_tokens (tokenize expr)
