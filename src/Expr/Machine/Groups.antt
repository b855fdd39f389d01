-- ===== src/Expr/Machine/Groups.antt =====
-- The values of a group: resultList, statusList and the aggregates of argus/expr/expr.go.
use argus.Prelude.{
  ℕ, zero, suc, Bool, ◌&&◌, ◌||◌, not, Option, none, some, List, [], ◌∷◌, ◌++◌, ◌==◌, if◌then◌else◌,
  length,
}
use argus.Prelude.Int.{pos}
use argus.Text.{Text, text_eq}
use argus.Status.{Status, unknown, clear, override}
use argus.Monel.State.{Ptr, World}
use argus.Monel.Children.{find, me_children}
use argus.Expr.{Fagg, fop_sum, fop_ave, fop_min, fop_max, fop_count, fop_up, fop_down, fop_over}
use argus.Expr.Machine.Course.{Ran, value, waits, stopped, endless, ◌>>=◌}
use argus.Expr.Machine.Values.{Env, Outside, nought}

-- The breadth-first walk that both lists are made with; `leaf` is what an element without children
-- adds. It is `endless` where the fuel does not suffice.
module _ {A : Type 0} (leaf : Ptr → World → List A) where
  -- What a visit makes of the queue and of the list.
  unfoldable pub visited : List Ptr → Ptr → List Ptr → World → List A → List Ptr × List A
  visited [] x todo w res = (todo, res ++ leaf x w)
  visited (c ∷ cs) x todo w res = (todo ++ c ∷ cs, res)

  unfoldable pub walk : ℕ → List Ptr → World → List A → Ran (List A × World)
  unfolding visited
  walk fuel [] w res = value (res, w)
  walk zero (x ∷ todo) w res = endless
  walk (suc fuel) (x ∷ todo) w res =
      let (children, w') = me_children x w in
      let (todo', res') = visited children x todo w' res in walk fuel todo' w' res'

  unfoldable pub walk_named : ℕ → Option Ptr → World → Ran (List A × World)
  unfolding walk
  walk_named fuel none w = value ([], w)
  walk_named fuel (some m) w = walk fuel (m ∷ []) w []

abbrev pub listed {ℓ} : {A : Type ℓ} → Option A → List A
listed none = []
listed (some v) = v ∷ []

unfoldable pub status_leaf : Ptr → World → List Status
status_leaf x w = (w.elem x).p.ov_status ∷ []

-- statusList
unfoldable pub status_list : ℕ → Text → World → Ran (List Status × World)
unfolding walk_named status_leaf
status_list fuel obj w = walk_named status_leaf fuel (find obj w) w

unfoldable pub count_status : (Status → Bool) → List Status → ℕ
count_status p [] = 0
count_status p (v ∷ sl) = if p v then suc (count_status p sl) else count_status p sl

abbrev pub is_up : Status → Bool
is_up v = v == clear || v == override

abbrev pub is_down : Status → Bool
is_down v = not (v == clear || v == override || v == unknown)

module _ {F : Type 0} (env : Env F) where
  unfoldable pub result_leaf : Ptr → World → List F
  result_leaf x w = listed (env.parse_float (w.elem x).p.result)

  -- resultList, with the service that is not ready: there is none ever.
  unfoldable pub result_list : Text → World → Ran ((List F × Text) × World)
  unfolding walk_named result_leaf
  result_list obj w = do
    (res, w') ← walk_named result_leaf env.fuel (find obj w) w
    value ((res, []), w')

  abbrev pub float_of : ℕ → F
  float_of n = env.fl.of_int (pos n)

  unfoldable pub sum_from : F → List F → F
  sum_from sum [] = sum
  sum_from sum (v ∷ rl) = sum_from (env.fl.add sum v) rl

  unfoldable pub min_from : F → List F → F
  min_from min [] = min
  min_from min (v ∷ rl) = min_from (if env.fl.lt v min then v else min) rl

  unfoldable pub max_from : F → List F → F
  max_from max [] = max
  max_from max (v ∷ rl) = max_from (if env.fl.lt max v then v else max) rl

  -- The end of fop_sum, fop_ave, fop_min, fop_max and fop_count, on the list of the results.
  unfoldable pub of_results : Fagg → List F → Ran F
  unfolding sum_from min_from max_from
  of_results fop_count rl = value (float_of (length rl))
  of_results k [] = stopped
  of_results fop_sum (v ∷ rl) = value (sum_from (nought env) (v ∷ rl))
  of_results fop_ave (v ∷ rl) =
      value (env.fl.div (sum_from (nought env) (v ∷ rl)) (float_of (length (v ∷ rl))))
  of_results fop_min (v ∷ rl) = value (min_from v (v ∷ rl))
  of_results fop_max (v ∷ rl) = value (max_from v (v ∷ rl))
  of_results k (v ∷ rl) = stopped

  -- fop_sum, fop_ave, fop_min, fop_max, fop_count
  unfoldable pub over_results : Fagg → Bool → Text → Outside → Ran (F × Outside)
  unfolding result_list of_results
  over_results k rry obj out = do
    ((rl, nrdy), w) ← result_list obj out.world
    v ← (if rry && not (text_eq nrdy []) then waits nrdy else of_results k rl)
    value (v, record out { world = w })

  -- fop_up, fop_down, fop_over
  unfoldable pub over_statuses : (Status → Bool) → Text → Outside → Ran (F × Outside)
  unfolding status_list count_status
  over_statuses p obj out = do
    (sl, w) ← status_list env.fuel obj out.world
    value (float_of (count_status p sl), record out { world = w })

  -- An aggregate on the text that it has popped.
  unfoldable pub aggregate_value : Fagg → Bool → Text → Outside → Ran (F × Outside)
  unfolding over_results over_statuses
  aggregate_value fop_up rry obj out = over_statuses is_up obj out
  aggregate_value fop_down rry obj out = over_statuses is_down obj out
  aggregate_value fop_over rry obj out = over_statuses (λ v. v == override) obj out
  aggregate_value k rry obj out = over_results k rry obj out
