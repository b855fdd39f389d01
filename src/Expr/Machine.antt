-- ===== src/Expr/Machine.antt =====
-- The stack machine that runs a compiled expression: RunExpr and the functions of the operators in
-- argus/expr/expr.go.
pub mod Course
pub mod Values
pub mod Groups
pub mod Levels
pub mod Ready
use argus.Prelude.{ℕ, Bool, true, false, Option, none, some, List, [], ◌∷◌, if◌then◌else◌}
use argus.Text.{Text}
use argus.Dict.{Dict}
use argus.Monel.State.{World}
use argus.Expr.{
  Fun, nullary, unary, binary, aggregate, Op, op_of, Nullary, fop_time, fop_rand, Unary, Binary,
  Outcome, ok, failed,
}
use argus.Expr.Machine.Course.{Ran, value, waits, stopped, endless, ◌>>=◌}
use argus.Expr.Machine.Values.{Env, Outside, number, drawn_next, unary_value, binary_value}
use argus.Expr.Machine.Groups.{aggregate_value}

-- exprStack without the program, the top of the stack first; and what the run shares with the rest.
pub record Es : Type 0 where
  pub s : List Text
  pub out : Outside

abbrev pub stack : List Text → Outside → Es
stack s out = record { s = s; out = out }

unfoldable pub push : Text → Es → Es
push x es = stack (x ∷ es.s) es.out

unfoldable pub pop_from : List Text → Outside → Text × Es
pop_from [] out = ([], stack [] out)
pop_from (x ∷ s) out = (x, stack s out)

unfoldable pub pop : Es → Text × Es
unfolding pop_from
pop es = pop_from es.s es.out

module _ {F : Type 0} (env : Env F) where
  unfoldable pub pushf : F → Es → Es
  unfolding push
  pushf x es = push (env.print x) es

  -- Where the text has no number the operator fails, and RunExpr ends.
  unfoldable pub popf : Es → Ran (F × Es)
  unfolding pop
  popf es = let (x, es') = pop es in do v ← number env x es'.out.world; value (v, es')

  -- The functions of operators with no operand: fop_time and fop_rand.
  unfoldable pub run_nullary : Nullary → Es → Ran (F × Es)
  run_nullary fop_time es = value (env.now, es)
  run_nullary fop_rand es = value (env.draws es.out.drawn, stack es.s (drawn_next es.out))

  -- fop_sin to fop_sqrt
  unfoldable pub run_unary : Unary → Es → Ran (F × Es)
  unfolding popf
  run_unary k es = do (a, es') ← popf es; v ← unary_value env k a; value (v, es')

  -- fop_add to fop_mod
  unfoldable pub run_binary : Binary → Es → Ran (F × Es)
  unfolding popf
  run_binary k es = do (a, es1) ← popf es; (b, es2) ← popf es1; value (binary_value env k b a, es2)

  -- opp.fop or opp.fagg
  unfoldable pub run_fun : Fun → Bool → Es → Ran (F × Es)
  unfolding run_nullary run_unary run_binary pop
  run_fun (nullary k) rry es = run_nullary k es
  run_fun (unary k) rry es = run_unary k es
  run_fun (binary k) rry es = run_binary k es
  run_fun (aggregate k) rry es =
      let (obj, es') = pop es in
      do (v, out) ← aggregate_value env k rry obj es'.out; value (v, stack es'.s out)

  unfoldable pub run_op : Text → Option Op → Es → Ran Es
  unfolding push pushf run_fun
  run_op t none es = value (push t es)
  run_op t (some o) es = do (res, es') ← run_fun o.fun o.rry es; value (pushf res es')

  -- The loop of RunExpr.
  unfoldable pub run_from : List Text → Es → Ran Es
  unfolding run_op
  run_from [] es = value es
  run_from (t ∷ prog) es = run_op t (op_of t) es >>= run_from prog

  unfoldable pub run_expr : List Text → Outside → Ran Text
  unfolding run_from pop
  run_expr pt out = do es ← run_from pt (stack [] out); value (pop es).0

-- RunExpr's two texts: the result, and the service to wait for.
abbrev pub texts : Ran Text → Option (Text × Text)
texts (value v) = some (v, [])
texts (waits nrdy) = some ([], nrdy)
texts stopped = some ([], [])
texts endless = none
