-- ===== src/Expr/Machine/Ready.antt =====
-- No run of an expression of argus/expr/expr.go waits for a service: resultList never names one that
-- is not ready.
use argus.Prelude.{
  ℕ, zero, suc, ◌≡◌, refl, Bool, true, false, Option, none, some, List, [], ◌∷◌, arith, Bool-cases,
  inl, inr,
}
use argus.Text.{Text, codes, has_prefix}
use argus.Status.{Status}
use argus.Monel.State.{Ptr, World}
use argus.Monel.Children.{find}
use argus.Expr.{
  Fun, nullary, unary, binary, aggregate, Op, op_of, fop_time, fop_rand, Unary, Fagg, fop_sum,
  fop_ave, fop_min, fop_max, fop_count, fop_up, fop_down, fop_over,
}
use argus.Expr.Machine.{
  Es, stack, popf, run_nullary, run_unary, run_binary, run_fun, run_op, run_from, run_expr,
}
use argus.Expr.Machine.Course.{Ran, value, waits, stopped, endless, ◌>>=◌, bind_assoc}
use argus.Expr.Machine.Values.{Env, Outside, resolve, number, unary_value, valid, result_of}
use argus.Expr.Machine.Groups.{
  walk, walk_named, result_leaf, result_list, status_list, of_results, over_results, over_statuses,
  aggregate_value,
}

abbrev pub is_waiting {ℓ} : {A : Type ℓ} → Ran A → Bool
is_waiting (value a) = false
is_waiting (waits t) = true
is_waiting stopped = false
is_waiting endless = false

abbrev Runs {ℓ} : {A : Type ℓ} → Ran A → Type 0
Runs r = is_waiting r ≡ false

bind-Runs {ℓ κ} :
    {A : Type ℓ} {B : Type κ} (r : Ran A) (f : A → Ran B)
    → Runs r
    → ((a : A) → Runs (f a))
    → Runs (r >>= f)
bind-Runs (value a) f h k = k a
bind-Runs (waits t) f h k = ground arith
bind-Runs stopped f h k = refl
bind-Runs endless f h k = refl

walk-Runs :
    {A : Type 0} (leaf : Ptr → World → List A) (fuel : ℕ) (todo : List Ptr) (w : World)
    (res : List A)
    → Runs (walk leaf fuel todo w res)
unfolding walk
walk-Runs leaf zero [] w res = refl
walk-Runs leaf (suc fuel) [] w res = refl
walk-Runs leaf zero (x ∷ todo) w res = refl
walk-Runs leaf (suc fuel) (x ∷ todo) w res = walk-Runs leaf fuel _ _ _

walk_named-Runs :
    {A : Type 0} (leaf : Ptr → World → List A) (fuel : ℕ) (o : Option Ptr) (w : World)
    → Runs (walk_named leaf fuel o w)
unfolding walk_named
walk_named-Runs leaf fuel none w = refl
walk_named-Runs leaf fuel (some m) w = walk-Runs leaf fuel (m ∷ []) w []

valid-Runs {ℓ} : {A : Type ℓ} (o : Option A) → Runs (valid o)
valid-Runs none = refl
valid-Runs (some v) = refl

resolve-Runs : (x : Text) (w : World) → Runs (resolve x w)
unfolding resolve
resolve-Runs x w = elim (Bool-cases (has_prefix x (codes "Top"))) [
  | inl e ↦ rw e (named (find x w))
  | inr e ↦ rw e refl
]
  where
    named : (o : Option Ptr) → Runs (result_of w o)
    named none = refl
    named (some m) = refl

module _ {F : Type 0} (env : Env F) where
  number-Runs : (x : Text) (w : World) → Runs (number env x w)
  unfolding number
  number-Runs x w = bind-Runs (resolve x w) _ (resolve-Runs x w) (λ y. valid-Runs _)

  of_results-Runs : (k : Fagg) (rl : List F) → Runs (of_results env k rl)
  unfolding of_results
  of_results-Runs k rl = ground arith

  result_list_ready :
      (obj : Text) (w : World) {B : Type 0} (f : (List F × Text) × World → Ran B)
      → ((rl : List F) (w' : World) → Runs (f ((rl, []), w')))
      → Runs (result_list env obj w >>= f)
  unfolding result_list
  result_list_ready obj w f h =
      rw (bind_assoc (walk_named (result_leaf env) env.fuel (find obj w) w) _ f) (
        bind-Runs (walk_named (result_leaf env) env.fuel (find obj w) w) _
          (walk_named-Runs (result_leaf env) env.fuel (find obj w) w) (λ (rl, w'). h rl w'))

  over_results-Runs :
      (k : Fagg) (rry : Bool) (obj : Text) (out : Outside) → Runs (over_results env k rry obj out)
  unfolding over_results
  over_results-Runs k true obj out =
      result_list_ready obj out.world _
        (λ rl w'. bind-Runs (of_results env k rl) _ (of_results-Runs k rl) (λ v. refl))
  over_results-Runs k false obj out =
      result_list_ready obj out.world _
        (λ rl w'. bind-Runs (of_results env k rl) _ (of_results-Runs k rl) (λ v. refl))

  over_statuses-Runs :
      (p : Status → Bool) (obj : Text) (out : Outside) → Runs (over_statuses env p obj out)
  unfolding over_statuses status_list
  over_statuses-Runs p obj out =
      bind-Runs (status_list env.fuel obj out.world) _
        (walk_named-Runs _ env.fuel (find obj out.world) out.world) (λ v. refl)

  aggregate_value-Runs :
      (k : Fagg) (rry : Bool) (obj : Text) (out : Outside)
      → Runs (aggregate_value env k rry obj out)
  unfolding aggregate_value
  aggregate_value-Runs fop_up rry obj out = over_statuses-Runs _ obj out
  aggregate_value-Runs fop_down rry obj out = over_statuses-Runs _ obj out
  aggregate_value-Runs fop_over rry obj out = over_statuses-Runs _ obj out
  aggregate_value-Runs fop_sum rry obj out = over_results-Runs fop_sum rry obj out
  aggregate_value-Runs fop_ave rry obj out = over_results-Runs fop_ave rry obj out
  aggregate_value-Runs fop_min rry obj out = over_results-Runs fop_min rry obj out
  aggregate_value-Runs fop_max rry obj out = over_results-Runs fop_max rry obj out
  aggregate_value-Runs fop_count rry obj out = over_results-Runs fop_count rry obj out

  unary_value-Runs : (k : Unary) (a : F) → Runs (unary_value env k a)
  unfolding unary_value
  unary_value-Runs k a = ground arith

  popf-Runs : (es : Es) → Runs (popf env es)
  unfolding popf
  popf-Runs es = bind-Runs (number env _ _) _ (number-Runs _ _) (λ v. refl)

  run_fun-Runs : (f : Fun) (rry : Bool) (es : Es) → Runs (run_fun env f rry es)
  unfolding run_fun run_nullary run_unary run_binary
  run_fun-Runs (nullary fop_time) rry es = refl
  run_fun-Runs (nullary fop_rand) rry es = refl
  run_fun-Runs (unary k) rry es =
      bind-Runs (popf env es) _ (popf-Runs es)
        (λ (a, es'). bind-Runs (unary_value env k a) _ (unary_value-Runs k a) (λ v. refl))
  run_fun-Runs (binary k) rry es =
      bind-Runs (popf env es) _ (popf-Runs es)
        (λ (a, es'). bind-Runs (popf env es') _ (popf-Runs es') (λ b. refl))
  run_fun-Runs (aggregate k) rry es =
      bind-Runs (aggregate_value env k rry _ _) _ (aggregate_value-Runs k rry _ _) (λ v. refl)

  run_op-Runs : (t : Text) (o : Option Op) (es : Es) → Runs (run_op env t o es)
  unfolding run_op
  run_op-Runs t none es = refl
  run_op-Runs t (some o) es =
      bind-Runs (run_fun env o.fun o.rry es) _ (run_fun-Runs o.fun o.rry es) (λ r. refl)

  run_from-Runs : (prog : List Text) (es : Es) → Runs (run_from env prog es)
  unfolding run_from
  run_from-Runs [] es = refl
  run_from-Runs (t ∷ prog) es =
      bind-Runs (run_op env t (op_of t) es) _ (run_op-Runs t (op_of t) es) (run_from-Runs prog)

  -- RunExpr never gives a service to wait for, also where an operator is marked to need all of its
  -- services ready.
  pub run_expr-ready : (pt : List Text) (out : Outside) → is_waiting (run_expr env pt out) ≡ false
  unfolding run_expr
  run_expr-ready pt out =
      bind-Runs (run_from env pt (stack [] out)) _ (run_from-Runs pt (stack [] out)) (λ es. refl)
