-- ===== src/Expr/Parse/Postfix.antt =====
-- The parser gives the postfix form of each tree that fits the precedences: parse of
-- argus/expr/expr.go against the grammar.
use mathlib.Core.List.{append_assoc, append-nil}
use argus.Prelude.{ℕ, suc, ◌≤◌, ◌≡◌, refl, sym, ◌∙◌, Bool, some, List, [], ◌∷◌, ◌++◌, arith}
use argus.Text.{Text}
use argus.Dict.{Dict}
use argus.Expr.{Fun, ok}
use argus.Expr.Grammar.{
  Tree, leaf, grouped, op0, op1, over, op2, flat, postfix, AtLeast, Fits, Names, IsOperand,
}
use argus.Expr.Parse.{
  Parsing, parsing, left, right, regroup, operand, push_op, operand_or_op, step, steps, finish,
  parse,
}
use argus.Expr.Parse.Table.{op-prec, prec-left, op_not_left, op_not_right}
use argus.Expr.Parse.Pending.{
  emitted, pending, named, emitted-pending, prec-Names, Below, AllFrom, Below-mono, AllFrom-then,
  pop_higher_all, pop_group_all,
}

-- The parser's rounds on the tokens of a tree.
steps-step :
    (t : Text) (rest : List Text) (st st' : Parsing)
    → step t st ≡ some st'
    → steps (t ∷ rest) st ≡ steps rest st'
unfolding steps
steps-step t rest st st' e = rw (e, steps) refl

step-leaf :
    (t : Text) (oq st : List Text) (objs : Dict Bool)
    → IsOperand t
    → step t (parsing oq st objs) ≡ some (parsing (oq ++ t ∷ []) st (named (leaf t) objs))
unfolding step operand_or_op operand named
step-leaf t oq st objs h = rw (h.no_left, h.no_right, h.no_op) refl

step-op :
    (t : Text) (p : ℕ) (rry : Bool) (fun : Fun) (pend st oq : List Text) (objs : Dict Bool)
    → Names t p rry fun
    → AllFrom p pend
    → Below p st
    → step t (parsing oq (pend ++ st) objs) ≡ some (parsing (oq ++ pend) (t ∷ st) objs)
unfolding step operand_or_op push_op
step-op t p rry fun pend st oq objs e a b =
    rw (op_not_left t _ e, op_not_right t _ e, e, pop_higher_all p pend st oq a b) refl

step-op_first :
    (t : Text) (p : ℕ) (rry : Bool) (fun : Fun) (st oq : List Text) (objs : Dict Bool)
    → Names t p rry fun
    → Below p st
    → step t (parsing oq st objs) ≡ some (parsing oq (t ∷ st) objs)
step-op_first t p rry fun st oq objs e b =
    rw (append-nil oq) at (step-op t p rry fun [] st oq objs e tt b)

step-right :
    (pend st oq : List Text) (objs : Dict Bool)
    → AllFrom 1 pend
    → step right (parsing oq (pend ++ left ∷ st) objs) ≡ some (parsing (oq ++ pend) st objs)
unfolding step regroup
step-right pend st oq objs a = rw (pop_group_all pend st oq a) refl

pending-AllFrom : (n : ℕ) (x : Tree) → 1 ≤ n → Fits x → AtLeast n x → AllFrom n (pending x)
unfolding pending Fits AtLeast
pending-AllFrom n (leaf t) u f h = tt
pending-AllFrom n (grouped x) u f h = tt
pending-AllFrom n (op0 t p k) u f h = (rw (prec-Names t p _ _ f) h, tt)
pending-AllFrom n (op1 t p k x) u (e, f, g) h =
    AllFrom-then n t p (pending x) e h (pending-AllFrom (suc p) x (omega arith) f g)
pending-AllFrom n (over t p rry k x) u (e, f, g) h =
    AllFrom-then n t p (pending x) e h (pending-AllFrom (suc p) x (omega arith) f g)
pending-AllFrom n (op2 t p k l r) u (e, _, (f, g)) h =
    AllFrom-then n t p (pending r) e h (pending-AllFrom (suc p) r (omega arith) f g)

-- The parser reads a tree in front of any further tokens, on any stack whose top binds less
-- tightly.
abbrev Reads : ℕ → Tree → Type 0
Reads n x =
    (rest oq st : List Text) (objs : Dict Bool)
    → Below n st
    → steps (flat x ++ rest) (parsing oq st objs)
      ≡ steps rest (parsing (oq ++ emitted x) (pending x ++ st) (named x objs))

op1-Reads :
    (n : ℕ) (t : Text) (p : ℕ) (rry : Bool) (fun : Fun) (x : Tree)
    → Names t p rry fun
    → n ≤ p
    → Reads (suc p) x
    → (rest oq st : List Text) (objs : Dict Bool) → Below n st
    → steps (t ∷ flat x ++ rest) (parsing oq st objs)
      ≡ steps rest (parsing (oq ++ emitted x) ((pending x ++ t ∷ []) ++ st) (named x objs))
op1-Reads n t p rry fun x e h hx rest oq st objs b =
    steps-step t (flat x ++ rest) _ _
      (step-op_first t p rry fun st oq objs e (Below-mono n p st h b))
    ∙ rw (append_assoc (pending x) (t ∷ []) st)
        (hx rest oq (t ∷ st) objs (omega (arith, prec-Names t p _ _ e)))

emitted_then : (x : Tree) (oq : List Text) → oq ++ emitted x ++ pending x ≡ oq ++ postfix x
emitted_then x oq = rw (append_assoc oq (emitted x) (pending x), emitted-pending x) refl

-- Every operator binds more tightly than a bracket.
Fits-AtLeast : (x : Tree) → Fits x → AtLeast 1 x
unfolding Fits AtLeast
Fits-AtLeast (leaf t) f = tt
Fits-AtLeast (grouped x) f = tt
Fits-AtLeast (op0 t p k) e = omega (arith, op-prec t _ e, prec-Names t p _ _ e)
Fits-AtLeast (op1 t p k x) (e, _, _) = omega (arith, op-prec t _ e, prec-Names t p _ _ e)
Fits-AtLeast (over t p rry k x) (e, _, _) = omega (arith, op-prec t _ e, prec-Names t p _ _ e)
Fits-AtLeast (op2 t p k l r) (e, _, _) = omega (arith, op-prec t _ e, prec-Names t p _ _ e)

step-left :
    (oq st : List Text) (objs : Dict Bool)
    → step left (parsing oq st objs) ≡ some (parsing oq (left ∷ st) objs)
unfolding step
step-left oq st objs = refl

grouped-Reads :
    (x : Tree)
    → Fits x
    → Reads 1 x
    → (rest oq st : List Text) (objs : Dict Bool)
    → steps (left ∷ flat x ++ right ∷ rest) (parsing oq st objs)
      ≡ steps rest (parsing (oq ++ postfix x) st (named x objs))
grouped-Reads x f hx rest oq st objs =
    steps-step left (flat x ++ right ∷ rest) _ _ (step-left oq st objs)
    ∙ hx (right ∷ rest) oq (left ∷ st) objs (omega (arith, prec-left))
    ∙ rw (sym (emitted_then x oq)) (
        steps-step right rest _ _ (
          step-right (pending x) st (oq ++ emitted x) (named x objs)
            (pending-AllFrom 1 x (omega arith) f (Fits-AtLeast x f))))

op2-Reads :
    (t : Text) (p : ℕ) (rry : Bool) (fun : Fun) (l r : Tree)
    → Names t p rry fun
    → AllFrom p (pending l)
    → Reads p l
    → Reads (suc p) r
    → (rest oq st : List Text) (objs : Dict Bool) → Below p st
    → steps (flat l ++ (t ∷ flat r ++ rest)) (parsing oq st objs)
      ≡ steps rest
          (parsing (oq ++ postfix l ++ emitted r) (pending r ++ t ∷ st) (named r (named l objs)))
op2-Reads t p rry fun l r e a hl hr rest oq st objs b =
    hl (t ∷ (flat r ++ rest)) oq st objs b
    ∙ steps-step t (flat r ++ rest) _ _
        (step-op t p rry fun (pending l) st (oq ++ emitted l) (named l objs) e a b)
    ∙ rw (sym (emitted_then l oq)) (
        hr rest (oq ++ emitted l ++ pending l) (t ∷ st) (named l objs)
          (omega (arith, prec-Names t p _ _ e)))

flat-Reads : (n : ℕ) (x : Tree) → 1 ≤ n → Fits x → AtLeast n x → Reads n x
unfolding Fits AtLeast flat emitted pending named
flat-Reads n (leaf t) u f h rest oq st objs b = steps-step t rest _ _ (step-leaf t oq st objs f)
flat-Reads n (grouped x) u f h rest oq st objs b =
    rw (append_assoc (flat x) (right ∷ []) rest)
      (grouped-Reads x f (flat-Reads 1 x (omega arith) f (Fits-AtLeast x f)) rest oq st objs)
flat-Reads n (op0 t p k) u e h rest oq st objs b =
    rw (append-nil oq)
      (steps-step t rest _ _ (step-op_first t p _ _ st oq objs e (Below-mono n p st h b)))
flat-Reads n (op1 t p k x) u (e, f, g) h rest oq st objs b =
    op1-Reads n t p _ _ x e h (flat-Reads (suc p) x (omega arith) f g) rest oq st objs b
flat-Reads n (over t p rry k x) u (e, f, g) h rest oq st objs b =
    op1-Reads n t p _ _ x e h (flat-Reads (suc p) x (omega arith) f g) rest oq st objs b
flat-Reads n (op2 t p k l r) u (e, (fl, gl), (fr, gr)) h rest oq st objs b =
    rw
      (
        append_assoc (flat l) (t ∷ flat r) rest,
        sym (append_assoc oq (postfix l) (emitted r)),
        append_assoc (pending r) (t ∷ []) st,
      )
      (op2-Reads t p _ _ l r e (pending-AllFrom p l (omega arith) fl gl)
        (flat-Reads p l (omega arith) fl gl) (flat-Reads (suc p) r (omega arith) fr gr) rest oq st
        objs (Below-mono n p st h b))

steps-flat :
    (x : Tree)
    → Fits x
    → steps (flat x) (parsing [] [] []) ≡ some (parsing (emitted x) (pending x) (named x []))
unfolding steps
steps-flat x f =
    rw (append-nil (flat x), append-nil (pending x)) at
      (flat-Reads 1 x (omega arith) f (Fits-AtLeast x f) [] [] [] [] tt)

-- Where a tree fits the precedences, parsing its tokens gives its postfix form, and the names of
-- the elements among its operands.
pub parse-flat : (x : Tree) → Fits x → parse (flat x) ≡ ok (postfix x, named x [])
unfolding parse finish
parse-flat x f = rw (steps-flat x f, emitted-pending x) refl
