-- ===== src/Expr/Parse/Mismatch/Kept.antt =====
-- The parser of argus/expr/expr.go moves tokens from its input over its stack to its output: none
-- is lost and none is added, but for the brackets.
use argus.Prelude.{
  ℕ, ◌+◌, ◌≡◌, refl, sym, ap, Bool, true, false, Option, none, some, List, [], ◌∷◌, ◌++◌, arith,
  if◌then◌else◌, Bool-cases, inl, inr,
}
use argus.Text.{Text, text_eq, text_eq_iff}
use argus.Dict.{Dict}
use argus.Expr.{Op, Outcome, ok, failed, op_of}
use argus.Expr.Parse.{
  Parsing, parsing, left, right, pop_group, pop_higher, regroup, operand, push_op, operand_or_op,
  step, steps, finish, parse,
}

abbrev bit : Bool → ℕ
bit b = if b then 1 else 0

-- How often a text is in a list.
unfoldable pub count : Text → List Text → ℕ
count u [] = 0
count u (t ∷ ts) = bit (text_eq t u) + count u ts

count-append : (u : Text) (xs ys : List Text) → count u (xs ++ ys) ≡ count u xs + count u ys
unfolding count
count-append u [] ys = omega arith
count-append u (x ∷ xs) ys = omega (arith, count-append u xs ys)

count-snoc :
    (u : Text) (xs : List Text) (t : Text) → count u (xs ++ t ∷ []) ≡ count u xs + bit (text_eq t u)
unfolding count
count-snoc u xs t = omega (arith, count-append u xs (t ∷ []))

count-pop_higher :
    (u : Text) (prec : ℕ) (op oq : List Text)
    → count u (pop_higher prec op oq).0 + count u (pop_higher prec op oq).1
      ≡ count u op + count u oq
unfolding count pop_higher
count-pop_higher u prec [] oq = refl
count-pop_higher u prec (o ∷ op) oq =
    ground (arith, count-pop_higher u prec op (oq ++ o ∷ []), count-snoc u oq o)

count_moved :
    (u o : Text) (op oq : List Text)
    → bit (text_eq o u) + count u op + count u oq ≡ count u op + count u (oq ++ o ∷ [])
count_moved u o op oq = omega (arith, count-snoc u oq o)

-- What is popped for a right bracket is what was there, less a left one.
abbrev Popped : Text → ℕ → Option (List Text × List Text) → Type 0
Popped u n none = Unit
Popped u n (some (op, oq)) = count u op + count u oq + bit (text_eq left u) ≡ n

count-pop_group :
    (u : Text) (op oq : List Text) → Popped u (count u op + count u oq) (pop_group op oq)
unfolding count pop_group
count-pop_group u [] oq = tt
count-pop_group u (o ∷ op) oq = elim (Bool-cases (text_eq o left)) [
  | inl e ↦ rw (e, (text_eq_iff o left).0 e) (omega arith)
  | inr e ↦ rw (e, count_moved u o op oq) (count-pop_group u op (oq ++ o ∷ []))
]

total : Text → Parsing → ℕ
total u st = count u st.oq + count u st.op

total_lem : (u : Text) (st : Parsing) → total u st ≡ count u st.op + count u st.oq
unfolding total
total_lem u st = omega arith

entering : Text → Text → ℕ
entering u t = if text_eq t right then 0 else bit (text_eq t u)

leaving : Text → Text → ℕ
leaving u t = if text_eq t right then bit (text_eq left u) else 0

abbrev Moved : Text → Text → ℕ → Option Parsing → Type 0
Moved u t n none = Unit
Moved u t n (some st) = total u st + leaving u t ≡ n + entering u t

operand_or_op-Moved :
    (u t : Text) (st : Parsing) (o : Option Op)
    → total u (operand_or_op t o st) ≡ total u st + bit (text_eq t u)
unfolding operand_or_op operand push_op total count
operand_or_op-Moved u t st none = omega (arith, count-snoc u st.oq t)
operand_or_op-Moved u t st (some o) = omega (arith, count-pop_higher u o.prec st.op st.oq)

regroup-Moved :
    (u t : Text) (n : ℕ) (objs : Dict Bool) (o : Option (List Text × List Text))
    → text_eq t right ≡ true
    → Popped u n o
    → Moved u t n (regroup objs o)
unfolding regroup total entering leaving
regroup-Moved u t n objs none e h = tt
regroup-Moved u t n objs (some (op, oq)) e h = rw e (omega arith)

left_not_right : (t : Text) → text_eq t left ≡ true → text_eq t right ≡ false
left_not_right t e = ap (λ s. text_eq s right) ((text_eq_iff t left).0 e)

not_right :
    (u t : Text) → text_eq t right ≡ false → (entering u t ≡ bit (text_eq t u)) × (leaving u t ≡ 0)
unfolding entering leaving
not_right u t r = rw r (refl, refl)

push-Moved :
    (u t : Text) (st : Parsing)
    → text_eq t right ≡ false
    → Moved u t (total u st) (some (parsing st.oq (t ∷ st.op) st.objs))
unfolding total count
push-Moved u t st r = omega (arith, (not_right u t r).0, (not_right u t r).1)

step-Moved : (u t : Text) (st : Parsing) → Moved u t (total u st) (step t st)
unfolding step
step-Moved u t st = elim (Bool-cases (text_eq t left)) [
  | inl e ↦ rw e (push-Moved u t st (left_not_right t e))
  | inr e ↦ elim (Bool-cases (text_eq t right)) [
    | inl r ↦
        rw (e, r)
          (regroup-Moved u t (total u st) st.objs (pop_group st.op st.oq) r
            (rw (total_lem u st) (count-pop_group u st.op st.oq)))
    | inr r ↦
        rw (e, r)
          (omega
            (arith, (not_right u t r).0, (not_right u t r).1, operand_or_op-Moved u t st (op_of t)))
  ]
]

entered : Text → List Text → ℕ
entered u [] = 0
entered u (t ∷ ts) = entering u t + entered u ts

closed : Text → List Text → ℕ
closed u [] = 0
closed u (t ∷ ts) = leaving u t + closed u ts

abbrev Arrived : Text → List Text → ℕ → Option Parsing → Type 0
Arrived u ts n none = Unit
Arrived u ts n (some st) = total u st + closed u ts ≡ n + entered u ts

-- The rest of the tokens after one.
Arrived-later :
    (u t : Text) (ts : List Text) (n : ℕ) (st' : Parsing) (o : Option Parsing)
    → Moved u t n (some st')
    → Arrived u ts (total u st') o
    → Arrived u (t ∷ ts) n o
unfolding entered closed
Arrived-later u t ts n st' none m a = tt
Arrived-later u t ts n st' (some st2) m a = omega arith

Arrived-next :
    (u t : Text) (ts : List Text) (n : ℕ) (o : Option Parsing)
    → Moved u t n o
    → ((st' : Parsing) → Arrived u ts (total u st') (steps ts st'))
    → Arrived u (t ∷ ts) n (elim o [ none ↦ none | some st' ↦ steps ts st' ])
Arrived-next u t ts n none m rec = tt
Arrived-next u t ts n (some st') m rec = Arrived-later u t ts n st' (steps ts st') m (rec st')

steps-Arrived : (u : Text) (ts : List Text) (st : Parsing) → Arrived u ts (total u st) (steps ts st)
unfolding steps closed entered
steps-Arrived u [] st = refl
steps-Arrived u (t ∷ ts) st =
    Arrived-next u t ts (total u st) (step t st) (step-Moved u t st) (steps-Arrived u ts)

entered-count :
    (u : Text) (ts : List Text) → entered u ts ≡ (if text_eq u right then 0 else count u ts)
unfolding entered entering count
entered-count u [] = ground arith
entered-count u (t ∷ ts) =
    ground (arith, entered-count u ts, text_eq_iff u right, text_eq_iff t right, text_eq_iff t u)

closed-count :
    (u : Text) (ts : List Text) → closed u ts ≡ (if text_eq left u then count right ts else 0)
unfolding closed leaving count
closed-count u [] = ground arith
closed-count u (t ∷ ts) = ground (arith, closed-count u ts)

abbrev output : Outcome (List Text × Dict Bool) → List Text
output (ok (oq, objs)) = oq
output (failed e) = []

finish-Arrived :
    (u : Text) (tok oq : List Text) (objs : Dict Bool) (o : Option Parsing)
    → finish o ≡ ok (oq, objs)
    → Arrived u tok 0 o
    → count u oq + closed u tok ≡ entered u tok
unfolding finish total
finish-Arrived u tok oq objs none e a = ground arith
finish-Arrived u tok oq objs (some st) e a =
    rw (sym (ap output e)) (omega (arith, count-append u st.oq st.op))

-- Where parse gives an output, each token is in it as often as in the input; there is no right
-- bracket in it, and as many left ones as are never closed.
pub count-parse :
    (u : Text) (tok oq : List Text) (objs : Dict Bool)
    → parse tok ≡ ok (oq, objs)
    → count u oq + (if text_eq left u then count right tok else 0)
      ≡ (if text_eq u right then 0 else count u tok)
unfolding parse total count
count-parse u tok oq objs e =
    rw (sym (closed-count u tok), sym (entered-count u tok))
      (finish-Arrived u tok oq objs (steps tok (parsing [] [] [])) e
        (steps-Arrived u tok (parsing [] [] [])))
