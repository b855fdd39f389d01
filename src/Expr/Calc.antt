-- ===== src/Expr/Calc.antt =====
-- Expressions from their texts to numbers: Calc and RunExprF of argus/expr/expr.go.
use argus.Prelude.{Bool, not, Option, none, some, List, [], if◌then◌else◌}
use argus.Text.{Text, text_eq}
use argus.Dict.{Dict}
use argus.Service.Check.{Answer, value, not_ready, invalid}
use argus.Expr.{Outcome, ok, failed}
use argus.Expr.Parse.{parse_text}
use argus.Expr.Machine.{run_expr, texts}
use argus.Expr.Machine.Values.{Env, Outside}

module _ {F : Type 0} (env : Env F) where
  unfoldable pub answer_of : Option F → Answer F
  answer_of none = invalid
  answer_of (some v) = value v

  -- What RunExprF makes of the two texts of RunExpr.
  unfoldable pub answer : Option (Text × Text) → Option (Answer F)
  unfolding answer_of
  answer none = none
  answer (some (res, nrdy)) =
      some (if not (text_eq nrdy []) then not_ready else answer_of (env.parse_float res))

  -- RunExprF, `none` where the run does not end
  unfoldable pub run_expr_f : List Text → Outside → Option (Answer F)
  unfolding answer
  run_expr_f pt out = answer (texts (run_expr env pt out))

  unfoldable pub calc_parsed :
      Option (Outcome (List Text × Dict Bool)) → Outside → Option (Answer F)
  calc_parsed none out = none
  calc_parsed (some (failed e)) out = some invalid
  calc_parsed (some (ok (pt, objs))) out = run_expr_f pt out

  -- Calc
  unfoldable pub calc : Text → Outside → Option (Answer F)
  unfolding calc_parsed
  calc expr out = calc_parsed (parse_text expr) out
