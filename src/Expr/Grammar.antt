-- ===== src/Expr/Grammar.antt =====
-- What an expression means: trees of the operators of argus/expr/expr.go, written with brackets
-- where the precedences ask for them, and their values. The parser and the machine are compared
-- with it.
use argus.Prelude.{ℕ, suc, ◌≤◌, ◌≡◌, Bool, true, false, none, some, List, [], ◌∷◌, ◌++◌}
use argus.Text.{Text, text_eq}
use argus.Expr.{Nullary, Unary, Binary, Fagg, Fun, nullary, unary, binary, aggregate, op, op_of}
use argus.Expr.Parse.{left, right}
use argus.Expr.Machine.{run_nullary, stack}
use argus.Expr.Machine.Course.{Ran, value, ◌>>=◌}
use argus.Expr.Machine.Values.{Env, Outside, number, unary_value, binary_value}
use argus.Expr.Machine.Groups.{aggregate_value}

-- An operator stands with its name and its precedence.
pub data Tree : Type 0 where
  leaf : Text → Tree
  grouped : Tree → Tree
  op0 : Text → ℕ → Nullary → Tree
  op1 : Text → ℕ → Unary → Tree → Tree
  over : Text → ℕ → Bool → Fagg → Tree → Tree
  op2 : Text → ℕ → Binary → Tree → Tree → Tree

-- The tokens of a tree.
unfoldable pub flat : Tree → List Text
flat (leaf t) = t ∷ []
flat (grouped x) = left ∷ flat x ++ right ∷ []
flat (op0 t p k) = t ∷ []
flat (op1 t p k x) = t ∷ flat x
flat (over t p rry k x) = t ∷ flat x
flat (op2 t p k l r) = flat l ++ t ∷ flat r

unfoldable pub postfix : Tree → List Text
postfix (leaf t) = t ∷ []
postfix (grouped x) = postfix x
postfix (op0 t p k) = t ∷ []
postfix (op1 t p k x) = postfix x ++ t ∷ []
postfix (over t p rry k x) = postfix x ++ t ∷ []
postfix (op2 t p k l r) = postfix l ++ postfix r ++ t ∷ []

-- The outermost operator, where it is not in brackets, binds as tightly as `n` at least.
unfoldable pub AtLeast : ℕ → Tree → Type 0
AtLeast n (leaf t) = Unit
AtLeast n (grouped x) = Unit
AtLeast n (op0 t p k) = n ≤ p
AtLeast n (op1 t p k x) = n ≤ p
AtLeast n (over t p rry k x) = n ≤ p
AtLeast n (op2 t p k l r) = n ≤ p

pub record IsOperand (t : Text) : Type 0 where
  pub no_op : op_of t ≡ none
  pub no_left : text_eq t left ≡ false
  pub no_right : text_eq t right ≡ false

abbrev pub Names : Text → ℕ → Bool → Fun → Type 0
Names t p rry fun = op_of t ≡ some (op p rry fun)

-- Operators are in the table, and operands that bind less tightly stand in brackets; all are left
-- associative.
unfoldable pub Fits : Tree → Type 0
unfolding AtLeast
Fits (leaf t) = IsOperand t
Fits (grouped x) = Fits x
Fits (op0 t p k) = Names t p true (nullary k)
Fits (op1 t p k x) = Names t p true (unary k) × Fits x × AtLeast (suc p) x
Fits (over t p rry k x) = Names t p rry (aggregate k) × Fits x × AtLeast (suc p) x
Fits (op2 t p k l r) =
    Names t p true (binary k) × (Fits l × AtLeast p l) × (Fits r × AtLeast (suc p) r)

module _ {F : Type 0} (env : Env F) where
  -- The text that stands for the tree's value, and what the evaluation leaves of the rest. A number
  -- is written as a text between two operators, as the machine does.
  unfoldable pub eval : Tree → Outside → Ran (Text × Outside)
  eval (leaf t) out = value (t, out)
  eval (grouped x) out = eval x out
  eval (op0 t p k) out = do (v, es) ← run_nullary env k (stack [] out); value (env.print v, es.out)
  eval (op1 t p k x) out = do
    (a, out1) ← eval x out
    v ← number env a out1.world
    y ← unary_value env k v
    value (env.print y, out1)
  eval (over t p rry k x) out = do
    (obj, out1) ← eval x out
    (v, out2) ← aggregate_value env k rry obj out1
    value (env.print v, out2)
  eval (op2 t p k l r) out = do
    (b, out1) ← eval l out
    (a, out2) ← eval r out1
    v ← number env a out2.world
    w ← number env b out2.world
    value (env.print (binary_value env k w v), out2)
