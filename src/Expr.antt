-- ===== src/Expr.antt =====
-- Expressions over results: argus/expr/expr.go. The table of operators; the children are the
-- tokens, the parser, the stack machine and the values of groups.
pub mod Tokens
pub mod Parse
pub mod Machine
pub mod Grammar
pub mod Calc
pub mod Compile
use argus.Prelude.{ℕ, String, Bool, true, false, Option, none, some, List, [], ◌∷◌}
use argus.Text.{Text, codes}
use argus.Dict.{Dict, lookup}

-- The functions that the table names, by what they take from the stack.
pub data Nullary : Type 0 where
  fop_time fop_rand : Nullary

pub data Unary : Type 0 where
  fop_ceil fop_floor fop_abs fop_sin fop_tan fop_cos fop_log fop_exp fop_sqrt : Unary

pub data Binary : Type 0 where
  fop_pow fop_mul fop_div fop_mod fop_add fop_sub : Binary

pub data Fagg : Type 0 where
  fop_sum fop_ave fop_min fop_max fop_count fop_up fop_down fop_over : Fagg

-- An entry has either a `fop` or a `fagg`.
pub data Fun : Type 0 where
  nullary : Nullary → Fun
  unary : Unary → Fun
  binary : Binary → Fun
  aggregate : Fagg → Fun

-- OP
pub record Op : Type 0 where
  pub prec : ℕ
  pub rry : Bool
  pub fun : Fun

abbrev pub op : ℕ → Bool → Fun → Op
op prec rry fun = record { prec = prec; rry = rry; fun = fun }

abbrev entry : String → ℕ → Bool → Fun → Text × Op
entry name prec rry fun = (codes name, op prec rry fun)

unfoldable pub ops : Dict Op
ops =
    entry "time" 50 true (nullary fop_time)
    ∷ entry "rand" 50 true (nullary fop_rand)
    ∷ entry "SUM" 20 true (aggregate fop_sum)
    ∷ entry "AVE" 20 true (aggregate fop_ave)
    ∷ entry "AVG" 20 true (aggregate fop_ave)
    ∷ entry "MIN" 20 true (aggregate fop_min)
    ∷ entry "MAX" 20 true (aggregate fop_max)
    ∷ entry "COUNT" 20 true (aggregate fop_count)
    ∷ entry "NSUM" 20 false (aggregate fop_sum)
    ∷ entry "NAVE" 20 false (aggregate fop_ave)
    ∷ entry "NAVG" 20 false (aggregate fop_ave)
    ∷ entry "NMIN" 20 false (aggregate fop_min)
    ∷ entry "NMAX" 20 false (aggregate fop_max)
    ∷ entry "NCOUNT" 20 false (aggregate fop_count)
    ∷ entry "NUP" 20 false (aggregate fop_up)
    ∷ entry "NDOWN" 20 false (aggregate fop_down)
    ∷ entry "NOVERRIDE" 20 false (aggregate fop_over)
    ∷ entry "ceil" 20 true (unary fop_ceil)
    ∷ entry "floor" 20 true (unary fop_floor)
    ∷ entry "abs" 20 true (unary fop_abs)
    ∷ entry "sin" 20 true (unary fop_sin)
    ∷ entry "tan" 20 true (unary fop_sin)
    ∷ entry "cos" 20 true (unary fop_cos)
    ∷ entry "log" 20 true (unary fop_log)
    ∷ entry "exp" 20 true (unary fop_exp)
    ∷ entry "sqrt" 20 true (unary fop_sqrt)
    ∷ entry "^" 16 true (binary fop_pow)
    ∷ entry "*" 15 true (binary fop_mul)
    ∷ entry "/" 14 true (binary fop_div)
    ∷ entry "%" 13 true (binary fop_mod)
    ∷ entry "+" 12 true (binary fop_add)
    ∷ entry "-" 12 true (binary fop_sub)
    ∷ []

-- ops[t]
unfoldable pub op_of : Text → Option Op
unfolding ops
op_of t = lookup t ops

-- ops[o].prec, which is 0 where there is no such operator
unfoldable pub prec_or_zero : Option Op → ℕ
prec_or_zero none = 0
prec_or_zero (some o) = o.prec

unfoldable pub prec_of : Text → ℕ
unfolding prec_or_zero
prec_of o = prec_or_zero (op_of o)

-- A result or a syntax error.
pub data Outcome {ℓ} (A : Type ℓ) : Type ℓ where
  ok : A → Outcome A
  failed : Text → Outcome A
