-- ===== src/Expr/Parse/Pending.antt =====
-- What the parser of argus/expr/expr.go has put out and what it holds back after a tree's tokens, and
-- how operators and brackets take the latter off the stack.
use mathlib.Core.List.{append_assoc, append-nil}
use argus.Prelude.{ℕ, suc, ◌≤◌, ◌<◌, ◌≡◌, refl, sym, Bool, some, List, [], ◌∷◌, ◌++◌, arith}
use argus.Text.{Text}
use argus.Dict.{Dict}
use argus.Expr.{Fun, op, prec_of, prec_or_zero}
use argus.Expr.Grammar.{Tree, leaf, grouped, op0, op1, over, op2, postfix, Names}
use argus.Expr.Parse.{parsing, left, pop_group, pop_higher, operand}
use argus.Expr.Parse.Table.{tight_not_left}

-- What processing a tree adds to the output, and what it leaves on the stack.
unfoldable pub emitted : Tree → List Text
unfolding postfix
emitted (leaf t) = t ∷ []
emitted (grouped x) = postfix x
emitted (op0 t p k) = []
emitted (op1 t p k x) = emitted x
emitted (over t p rry k x) = emitted x
emitted (op2 t p k l r) = postfix l ++ emitted r

unfoldable pub pending : Tree → List Text
pending (leaf t) = []
pending (grouped x) = []
pending (op0 t p k) = t ∷ []
pending (op1 t p k x) = pending x ++ t ∷ []
pending (over t p rry k x) = pending x ++ t ∷ []
pending (op2 t p k l r) = pending r ++ t ∷ []

-- The objects that a tree names, added to those before.
unfoldable pub named : Tree → Dict Bool → Dict Bool
unfolding operand
named (leaf t) objs = (operand t (parsing [] [] objs)).objs
named (grouped x) objs = named x objs
named (op0 t p k) objs = objs
named (op1 t p k x) objs = named x objs
named (over t p rry k x) objs = named x objs
named (op2 t p k l r) objs = named r (named l objs)

pub emitted-pending : (x : Tree) → emitted x ++ pending x ≡ postfix x
unfolding emitted pending postfix
emitted-pending (leaf t) = refl
emitted-pending (grouped x) = append-nil (postfix x)
emitted-pending (op0 t p k) = refl
emitted-pending (op1 t p k x) =
    rw (sym (append_assoc (emitted x) (pending x) (t ∷ [])), emitted-pending x) refl
emitted-pending (over t p rry k x) =
    rw (sym (append_assoc (emitted x) (pending x) (t ∷ [])), emitted-pending x) refl
emitted-pending (op2 t p k l r) =
    rw
      (
        append_assoc (postfix l) (emitted r) (pending r ++ t ∷ []),
        sym (append_assoc (emitted r) (pending r) (t ∷ [])),
        emitted-pending r,
        append_assoc (postfix l) (postfix r) (t ∷ []),
      )
      refl

pub prec-Names : (t : Text) (p : ℕ) (rry : Bool) (fun : Fun) → Names t p rry fun → prec_of t ≡ p
unfolding prec_of prec_or_zero
prec-Names t p rry fun e = rw e refl

-- The stack's top binds less tightly than `n`, and operators that bind as tightly at least.
abbrev pub Below : ℕ → List Text → Type 0
Below n [] = Unit
Below n (o ∷ op) = prec_of o < n

abbrev pub AllFrom : ℕ → List Text → Type 0
AllFrom n [] = Unit
AllFrom n (o ∷ op) = (n ≤ prec_of o) × AllFrom n op

pub Below-mono : (n p : ℕ) (st : List Text) → n ≤ p → Below n st → Below p st
Below-mono n p [] h b = tt
Below-mono n p (o ∷ op) h b = omega arith

AllFrom-mono : (n p : ℕ) (st : List Text) → n ≤ p → AllFrom p st → AllFrom n st
AllFrom-mono n p [] h b = tt
AllFrom-mono n p (o ∷ op) h (a, b) = (omega arith, AllFrom-mono n p op h b)

AllFrom-append :
    (n : ℕ) (xs : List Text) (o : Text) → AllFrom n xs → n ≤ prec_of o → AllFrom n (xs ++ o ∷ [])
AllFrom-append n [] o a h = (h, tt)
AllFrom-append n (x ∷ xs) o (a, b) h = (a, AllFrom-append n xs o b h)

pub AllFrom-then :
    (n : ℕ) (t : Text) (p : ℕ) {rry : Bool} {fun : Fun} (pend : List Text)
    → Names t p rry fun
    → n ≤ p
    → AllFrom (suc p) pend
    → AllFrom n (pend ++ t ∷ [])
AllFrom-then n t p pend e h a =
    AllFrom-append n pend t (AllFrom-mono n (suc p) pend (omega arith) a)
      (rw (prec-Names t p _ _ e) h)

-- An operator takes what a tree has left on the stack, down to what binds less tightly.
pub pop_higher_all :
    (p : ℕ) (pend st oq : List Text)
    → AllFrom p pend
    → Below p st
    → pop_higher p (pend ++ st) oq ≡ (st, oq ++ pend)
unfolding pop_higher
pop_higher_all p [] [] oq a b = rw append-nil refl
pop_higher_all p [] (o ∷ op) oq a b = ground (arith, append-nil oq)
pop_higher_all p (x ∷ xs) st oq (a, b) c =
    ground (arith, pop_higher_all p xs st (oq ++ x ∷ []) b c, append_assoc oq (x ∷ []) xs)

pub pop_group_all :
    (pend st oq : List Text)
    → AllFrom 1 pend
    → pop_group (pend ++ left ∷ st) oq ≡ some (st, oq ++ pend)
unfolding pop_group
pop_group_all [] st oq a = rw append-nil refl
pop_group_all (x ∷ xs) st oq (a, b) =
    ground
      (arith, tight_not_left x a, pop_group_all xs st (oq ++ x ∷ []) b, append_assoc oq (x ∷ []) xs)
