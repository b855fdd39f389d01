-- ===== src/Expr/Machine/Values.antt =====
-- Texts as numbers, and what the operators make of numbers: popf and the functions fop_ of
-- argus/expr/expr.go.
use argus.Prelude.{ℕ, suc, ◌+◌, ◌%◌, Bool, Option, none, some, ◌==◌, if◌then◌else◌}
use argus.Prelude.Int.{ℤ, pos, negsuc, pos_part, neg_part, sub_ℕ}
use argus.Text.{Text, codes, has_prefix}
use argus.Dict.{Dict, lookup}
use argus.Monel.State.{Ptr, World}
use argus.Monel.Children.{find}
use argus.Service.Compare.{Floats}
use argus.Expr.{
  Unary, fop_ceil, fop_floor, fop_abs, fop_sin, fop_tan, fop_cos, fop_log, fop_exp, fop_sqrt,
  Binary, fop_pow, fop_mul, fop_div, fop_mod, fop_add, fop_sub,
}
use argus.Expr.Machine.Course.{Ran, value, stopped, ◌>>=◌}

-- The package math, and the conversion int64(x).
pub record Maths (F : Type 0) : Type 0 where
  pub sin : F → F
  pub cos : F → F
  pub tan : F → F
  pub ceil : F → F
  pub floor : F → F
  pub exp : F → F
  pub log : F → F
  pub sqrt : F → F
  pub pow : F → F → F
  pub to_int : F → ℤ

-- What a run reads and does not change: numbers and their texts (strconv.ParseFloat, `none` for an
-- error, and fmt.Sprintf("%f")), clock.Unix(), the numbers that rand.Float64 gives one after the
-- other, the variables, and a bound on the elements that a walk through a group may visit.
pub record Env (F : Type 0) : Type 0 where
  pub fl : Floats F
  pub maths : Maths F
  pub parse_float : Text → Option F
  pub print : F → Text
  pub now : F
  pub draws : ℕ → F
  pub vars : Dict Text
  pub fuel : ℕ

-- What a run may change: an alias that is resolved changes the elements.
pub record Outside : Type 0 where
  pub world : World
  pub drawn : ℕ

abbrev pub drawn_next : Outside → Outside
drawn_next out = record out { drawn = suc out.drawn }

abbrev pub default_to : Text → Option Text → Text
default_to x none = x
default_to x (some v) = v

abbrev pub valid {ℓ} : {A : Type ℓ} → Option A → Ran A
valid none = stopped
valid (some v) = value v

abbrev pub result_of : World → Option Ptr → Ran Text
result_of w none = stopped
result_of w (some m) = value (w.elem m).p.result

-- The result of an element, for a text that names one.
unfoldable pub resolve : Text → World → Ran Text
resolve x w = if has_prefix x (codes "Top") then result_of w (find x w) else value x

-- Go's % on integers: the sign is the dividend's.
unfoldable pub rem_ℤ : ℤ → ℤ → ℤ
rem_ℤ (pos a) b = pos (a % (pos_part b + neg_part b))
rem_ℤ (negsuc a) b = sub_ℕ 0 (suc a % (pos_part b + neg_part b))

abbrev pub is_zero : ℤ → Bool
is_zero a = pos_part a + neg_part a == 0

module _ {F : Type 0} (env : Env F) where
  abbrev pub nought : F
  nought = env.fl.of_int (pos 0)

  -- What popf does with the text that it has popped.
  unfoldable pub number : Text → World → Ran F
  unfolding resolve
  number x w = do y ← resolve x w; valid (env.parse_float (default_to y (lookup y env.vars)))

  unfoldable pub unary_value : Unary → F → Ran F
  unary_value fop_ceil a = value (env.maths.ceil a)
  unary_value fop_floor a = value (env.maths.floor a)
  unary_value fop_abs a = value (env.fl.abs a)
  unary_value fop_sin a = value (env.maths.sin a)
  unary_value fop_tan a = value (env.maths.tan a)
  unary_value fop_cos a = value (env.maths.cos a)
  unary_value fop_log a = if env.fl.eq a nought then stopped else value (env.maths.log a)
  unary_value fop_exp a = value (env.maths.exp a)
  unary_value fop_sqrt a = value (env.maths.sqrt a)

  unfoldable pub modulo : ℤ → ℤ → F
  unfolding rem_ℤ
  modulo b ia = if is_zero ia then nought else env.fl.of_int (rem_ℤ b ia)

  -- `b` is the left operand.
  unfoldable pub binary_value : Binary → F → F → F
  unfolding modulo
  binary_value fop_pow b a = env.maths.pow b a
  binary_value fop_mul b a = env.fl.mul b a
  binary_value fop_div b a = if env.fl.eq a nought then nought else env.fl.div b a
  binary_value fop_mod b a = modulo (env.maths.to_int b) (env.maths.to_int a)
  binary_value fop_add b a = env.fl.add b a
  binary_value fop_sub b a = env.fl.sub b a
