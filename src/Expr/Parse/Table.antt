-- ===== src/Expr/Parse/Table.antt =====
-- The table of operators as the parser of argus/expr/expr.go uses it: brackets are not in it, and
-- every operator binds more tightly than they do.
use argus.Prelude.{
  ◌≤◌, ◌≡◌, refl, ap, Bool, true, false, some, [], ◌∷◌, arith, leb, all, Bool-cases, inl, inr,
}
use argus.Text.{Text, text_eq, text_eq_iff}
use argus.Dict.{Dict, lookup}
use argus.Expr.{Op, ops, op_of, prec_of, prec_or_zero}
use argus.Expr.Parse.{left, right}

lookup-all :
    (p : Op → Bool) (m : Dict Op) (t : Text) (o : Op)
    → all (λ (k, v). p v) m ≡ true
    → lookup t m ≡ some o
    → p o ≡ true
unfolding lookup
lookup-all p [] t o h e = ground arith
lookup-all p ((j, v) ∷ m) t o h e = ground (arith, lookup-all p m t o)

ops-tight : all (λ (k, v). leb 12 v.prec) ops ≡ true
unfolding ops
ops-tight = refl

-- An operator's precedence is 12 at least.
pub op-prec_some : (t : Text) (o : Op) → op_of t ≡ some o → 12 ≤ o.prec
unfolding op_of
op-prec_some t o e = ground (arith, lookup-all (λ v. leb 12 v.prec) ops t o ops-tight e)

pub op-prec : (t : Text) (o : Op) → op_of t ≡ some o → 12 ≤ prec_of t
unfolding prec_of prec_or_zero
op-prec t o e = rw e (op-prec_some t o e)

pub prec-left : prec_of left ≡ 0
unfolding prec_of prec_or_zero op_of ops lookup
prec-left = refl

prec-right : prec_of right ≡ 0
unfolding prec_of prec_or_zero op_of ops lookup
prec-right = refl

pub tight_not_left : (t : Text) → 1 ≤ prec_of t → text_eq t left ≡ false
tight_not_left t h = elim (Bool-cases (text_eq t left)) [
  | inl e ↦ ground (arith, prec-left, ap prec_of ((text_eq_iff t left).0 e))
  | inr e ↦ e
]

pub op_not_left : (t : Text) (o : Op) → op_of t ≡ some o → text_eq t left ≡ false
op_not_left t o e = tight_not_left t (omega (arith, op-prec t o e))

pub op_not_right : (t : Text) (o : Op) → op_of t ≡ some o → text_eq t right ≡ false
op_not_right t o e = elim (Bool-cases (text_eq t right)) [
  | inl r ↦ ground (arith, op-prec t o e, prec-right, ap prec_of ((text_eq_iff t right).0 r))
  | inr r ↦ r
]
