-- ===== src/Expr/Parse/Mismatch.antt =====
-- Which token lists the parser of argus/expr/expr.go refuses, and that it loses no token of the
-- others.
pub mod Kept
use argus.Prelude.{
  ℕ, zero, suc, ◌+◌, ◌-◌, ◌≤◌, ◌≡◌, refl, sym, ap, Bool, true, false, Option, none, some, List, [],
  ◌∷◌, ◌++◌, arith, ltb, if◌then◌else◌, Bool-cases, Option-cases, inl, inr,
}
use argus.Text.{Text, text_eq, text_eq_iff}
use argus.Dict.{Dict}
use argus.Expr.{Op, Outcome, ok, failed, op_of, prec_of}
use argus.Expr.Parse.{
  Parsing, parsing, left, right, pop_group, pop_higher, regroup, operand, push_op, operand_or_op,
  step, steps, finish, parse,
}
use argus.Expr.Parse.Table.{prec-left, op-prec_some}

-- A right bracket stands where no left one is open; `depth` counts those that are open.
unfoldable pub unmatched : List Text → ℕ → Bool
unmatched [] depth = false
unmatched (t ∷ ts) depth =
    let later = unmatched ts in
    if text_eq t left
    then later (suc depth)
    else if text_eq t right
    then (elim depth [ zero ↦ true | suc n ↦ later n ])
    else later depth

unfoldable pub lefts : List Text → ℕ
lefts [] = 0
lefts (t ∷ ts) = if text_eq t left then suc (lefts ts) else lefts ts

abbrev refused {ℓ} : {A : Type ℓ} → Option A → Bool
refused none = true
refused (some a) = false

-- Popping operators leaves the left brackets on the stack.
lefts-pop_higher :
    (prec : ℕ) (op oq : List Text) → 1 ≤ prec → lefts (pop_higher prec op oq).0 ≡ lefts op
unfolding lefts pop_higher
lefts-pop_higher prec [] oq h = refl
lefts-pop_higher prec (o ∷ op) oq h = elim (Bool-cases (text_eq o left)) [
  | inl e ↦
      ground (arith, (text_eq_iff o left).0 e, prec-left, ap prec_of ((text_eq_iff o left).0 e))
  | inr e ↦ ground (arith, e, lefts-pop_higher prec op (oq ++ o ∷ []) h)
]

-- A right bracket takes one left bracket off, where there is one.
abbrev Grouped : ℕ → Option (List Text × List Text) → Type 0
Grouped n none = n ≡ 0
Grouped n (some (op, oq)) = n ≡ suc (lefts op)

lefts-pop_group : (op oq : List Text) → Grouped (lefts op) (pop_group op oq)
unfolding lefts pop_group
lefts-pop_group [] oq = refl
lefts-pop_group (o ∷ op) oq = elim (Bool-cases (text_eq o left)) [
  | inl e ↦ rw e refl
  | inr e ↦ rw e (lefts-pop_group op (oq ++ o ∷ []))
]

steps_after : List Text → Option Parsing → Option Parsing
steps_after ts none = none
steps_after ts (some st) = steps ts st

lefts-operand_or_op :
    (t : Text) (st : Parsing)
    → text_eq t left ≡ false
    → lefts (operand_or_op t (op_of t) st).op ≡ lefts st.op
unfolding operand_or_op operand push_op lefts
lefts-operand_or_op t st h = elim (Option-cases (op_of t)) [
  | inl e ↦ rw e refl
  | inr (o, e) ↦ rw (e, h) (lefts-pop_higher o.prec st.op st.oq (omega (arith, op-prec_some t o e)))
]

refused-regroup :
    (ts : List Text) (objs : Dict Bool) (n : ℕ) (o : Option (List Text × List Text))
    → Grouped n o
    → ((st : Parsing) → refused (steps ts st) ≡ unmatched ts (lefts st.op))
    → refused (steps_after ts (regroup objs o)) ≡ (elim n [ zero ↦ true | suc m ↦ unmatched ts m ])
unfolding steps_after regroup
refused-regroup ts objs n none h rec = rw h refl
refused-regroup ts objs n (some (op, oq)) h rec = rw h (rec (parsing oq op objs))

steps_first :
    (t : Text) (ts : List Text) (st : Parsing) → steps (t ∷ ts) st ≡ steps_after ts (step t st)
unfolding steps steps_after
steps_first t ts st = refl

refused-steps_none : (st : Parsing) → refused (steps [] st) ≡ false
unfolding steps
refused-steps_none st = refl

refused-steps : (ts : List Text) (st : Parsing) → refused (steps ts st) ≡ unmatched ts (lefts st.op)
unfolding unmatched lefts step steps_after
refused-steps [] st = refused-steps_none st
refused-steps (t ∷ ts) st = elim (Bool-cases (text_eq t left)) [
  | inl e ↦
      rw (steps_first t ts st, e) (rw e at (refused-steps ts (parsing st.oq (t ∷ st.op) st.objs)))
  | inr e ↦ elim (Bool-cases (text_eq t right)) [
    | inl r ↦
        rw (steps_first t ts st, e, r)
          (refused-regroup ts st.objs (lefts st.op) (pop_group st.op st.oq)
            (lefts-pop_group st.op st.oq) (refused-steps ts))
    | inr r ↦
        rw (steps_first t ts st, e, r)
          (rw (lefts-operand_or_op t st e) at (refused-steps ts (operand_or_op t (op_of t) st)))
  ]
]

abbrev pub is_failed {ℓ} : {A : Type ℓ} → Outcome A → Bool
is_failed (ok a) = false
is_failed (failed e) = true

is_failed-finish : (o : Option Parsing) → is_failed (finish o) ≡ refused o
unfolding finish
is_failed-finish none = refl
is_failed-finish (some st) = refl

-- parse returns an error for just those lists of tokens in which a right bracket stands where no
-- left one is open; a left bracket that is never closed is no error.
pub is_failed-parse : (tok : List Text) → is_failed (parse tok) ≡ unmatched tok 0
unfolding parse lefts
is_failed-parse tok =
    rw (is_failed-finish (steps tok (parsing [] [] []))) (refused-steps tok (parsing [] [] []))
