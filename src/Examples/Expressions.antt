-- ===== src/Examples/Expressions.antt =====
-- Expressions at concrete inputs, over the natural numbers: the theorems on argus/expr/expr.go.
use argus.Prelude.{
  ℕ, ◌+◌, ◌-◌, ◌*◌, ◌/◌, ◌%◌, ◌≤◌, ◌≡◌, refl, false, ◌&&◌, Option, none, some, List, [], ◌∷◌, ◌++◌,
  arith, leb, ◌==◌, if◌then◌else◌, length, Bool-cases, inl, inr,
}
use argus.Prelude.Int.{pos}
use argus.Text.{Text, codes, text_eq}
use argus.Dict.{lookup}
use argus.Monel.State.{Ptr}
use argus.Monel.Children.{me_children, children_of}
use argus.Expr.{fop_add, fop_mul, Outcome, ok, ops, op_of, prec_of, prec_or_zero}
use argus.Expr.Tokens.{tokenize, tokens_from, trim_space, trim_left, trim_right, keep, index_of}
use argus.Expr.Tokens.Enough.{tokenize-Ends}
use argus.Expr.Tokens.Written.{AreTokens, write}
use argus.Expr.Parse.{parse, steps, step, finish, pop_higher, operand, push_op, operand_or_op}
use argus.Expr.Parse.Pending.{named}
use argus.Expr.Parse.Postfix.{parse-flat}
use argus.Expr.Parse.Mismatch.{is_failed, unmatched, is_failed-parse}
use argus.Expr.Parse.Mismatch.Kept.{count, count-parse}
use argus.Expr.Grammar.{Tree, leaf, op2, flat, postfix, Fits, AtLeast, eval}
use argus.Expr.Machine.{texts, run_expr}
use argus.Expr.Machine.Course
use argus.Expr.Machine.Course.{◌>>=◌}
use argus.Expr.Machine.Values.{Env, Outside, Maths}
use argus.Expr.Machine.Groups.{walk, status_leaf}
use argus.Expr.Machine.Levels.{Settled, Under, levels, visits, walk-levels}
use argus.Expr.Machine.Ready.{is_waiting, run_expr-ready}
use argus.Expr.Calc.{answer, calc}
use argus.Expr.Compile.{calc-write}
use argus.Examples.Elements.{world}
use argus.Examples.Services.{numbers}

-- 2+3*{x}
abbrev sum : Tree
sum =
    op2 (codes "+") 12 fop_add (leaf (codes "2"))
      (op2 (codes "*") 15 fop_mul (leaf (codes "3")) (leaf (codes "x")))

sum-Fits : Fits sum
unfolding Fits AtLeast op_of ops lookup
sum-Fits = (
  refl,
  (record { no_op = refl; no_left = refl; no_right = refl }, tt),
  (
    (
      refl,
      (record { no_op = refl; no_left = refl; no_right = refl }, tt),
      (record { no_op = refl; no_left = refl; no_right = refl }, tt),
    ),
    omega arith,
  ),
)

sum-AreTokens : AreTokens (flat sum)
unfolding flat trim_space trim_left trim_right keep index_of
sum-AreTokens = (
  record { trimmed = refl; no_brace = refl },
  (
    record { trimmed = refl; no_brace = refl },
    (
      record { trimmed = refl; no_brace = refl },
      (
        record { trimmed = refl; no_brace = refl },
        (record { trimmed = refl; no_brace = refl }, tt),
      ),
    ),
  ),
)

-- Numbers of two digits at most.
abbrev digits : Text → ℕ → Option ℕ
digits [] n = some n
digits (c ∷ t) n =
    let rest = digits t (n * 10 + (c - b'0')) in if leb b'0' c && leb c b'9' then rest else none

abbrev maths : Maths ℕ
maths = record {
  sin = λ a. a;
  cos = λ a. a;
  tan = λ a. a;
  ceil = λ a. a;
  floor = λ a. a;
  exp = λ a. a;
  log = λ a. a;
  sqrt = λ a. a;
  pow = λ a b. a * b;
  to_int = λ a. pos a;
}

abbrev env : Env ℕ
env = record {
  fl = numbers;
  maths = maths;
  parse_float = λ t. digits t 0;
  print = λ n. (b'0' + n / 10 % 10) ∷ (b'0' + n % 10) ∷ [];
  now = 0;
  draws = λ i. i;
  vars = (codes "x", codes "4") ∷ [];
  fuel = 9;
}

abbrev outside : Outside
outside = record { world = world; drawn = 0 }

write_test : write (codes "2" ∷ codes "+" ∷ codes "SUM" ∷ codes "a b" ∷ []) ≡ codes "2+SUM {a b}"
unfolding write
write_test = refl

calc-write_example :
    calc env (write (flat sum)) outside
    ≡ answer env (texts (eval env sum outside >>= λ (v, out). Course.value v))
calc-write_example = calc-write env sum outside sum-Fits sum-AreTokens

parse-flat_example : parse (flat sum) ≡ ok (postfix sum, named sum [])
parse-flat_example = parse-flat sum sum-Fits

tokenize-Ends_example :
    (r : Outcome (List Text)) × (tokenize (codes "SUM(Top) + {a b}") ≡ some r)
    × ((fuel : ℕ)
        → length (codes "SUM(Top) + {a b}") ≤ fuel
        → tokens_from fuel (trim_space (codes "SUM(Top) + {a b}")) [] ≡ some r)
tokenize-Ends_example = tokenize-Ends (codes "SUM(Top) + {a b}")

abbrev unbalanced : List Text
unbalanced = codes "(" ∷ codes "2" ∷ codes ")" ∷ codes ")" ∷ []

is_failed-parse_example : is_failed (parse unbalanced) ≡ unmatched unbalanced 0
is_failed-parse_example = is_failed-parse unbalanced

abbrev half_open : List Text
half_open = codes "(" ∷ codes "2" ∷ codes "+" ∷ codes "3" ∷ []

half_open-parse : parse half_open ≡ ok (codes "2" ∷ codes "3" ∷ codes "+" ∷ codes "(" ∷ [], [])
unfolding parse steps step operand_or_op operand push_op pop_higher finish op_of ops lookup prec_of
    prec_or_zero
half_open-parse = refl

count-parse_example :
    count (codes "(") (codes "2" ∷ codes "3" ∷ codes "+" ∷ codes "(" ∷ [])
      + (if text_eq (codes "(") (codes "(") then count (codes ")") half_open else 0)
    ≡ (if text_eq (codes "(") (codes ")") then 0 else count (codes "(") half_open)
count-parse_example = count-parse (codes "(") half_open _ [] half_open-parse

run_expr-ready_example : is_waiting (run_expr env (codes "Top" ∷ codes "SUM" ∷ []) outside) ≡ false
run_expr-ready_example = run_expr-ready env (codes "Top" ∷ codes "SUM" ∷ []) outside

abbrev kids : Ptr → List Ptr
kids q = if q == 1 then 2 ∷ 3 ∷ [] else []

abbrev rank : Ptr → ℕ
rank q = if q == 1 then 1 else 0

world-Settled : Settled status_leaf world kids
unfolding me_children children_of
world-Settled m = elim (Bool-cases (m == 1)) [ inl e ↦ rw e (rw e refl) | inr e ↦ rw e refl ]

kids-Under : (m : Ptr) → Under rank (rank m) (kids m)
kids-Under m = elim (Bool-cases (m == 1)) [
  | inl e ↦ rw e (omega arith, (omega arith, tt))
  | inr e ↦ rw e tt
]

-- The group and its two services.
two_levels : visits status_leaf world kids 2 (1 ∷ []) ≡ 3
unfolding visits
two_levels = refl

walk-levels_example :
    walk status_leaf 9 (1 ∷ []) world []
    ≡ Course.value ([] ++ levels status_leaf world kids 2 (1 ∷ []), world)
walk-levels_example =
    walk-levels status_leaf world kids world-Settled rank kids-Under 2 (1 ∷ []) 9 []
      (omega arith, tt) (omega (arith, two_levels))
