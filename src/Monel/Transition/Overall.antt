-- ===== src/Monel/Transition/Overall.antt =====
-- The overall status that determineStatus decides on.
use argus.Prelude.{
  ◌≡◌, ◌≢◌, refl, ◌↔◌, ◌⊎◌, inl, inr, true, false, some, List, [], ◌∷◌, arith, Bool-cases,
  Option-cases,
}
use argus.Text.{Text}
use argus.Status.{override, depends}
use argus.Monel.State.{Ptr, Persist, World, modify_p, elem-modify_self}
use argus.Monel.Children.{find}
use argus.Monel.Determine.{
  determine_aggr_status, depend_on, check_each, check_depends, check_override, override_status,
  determine_status, is_set, is_up,
}

-- One of the named elements exists and is not up.
pub data Blocked (w : World) : List Text → Type 0 where
  here :
      {name : Text} {rest : List Text} (o : Ptr)
      → find name w ≡ some o
      → is_up (w.elem o).p.ov_status ≡ false
      → Blocked w (name ∷ rest)
  later : {name : Text} {rest : List Text} → Blocked w rest → Blocked w (name ∷ rest)

-- What checkDepends assigns to a blocked element.
abbrev depended : Text → Persist → Persist
depended name p = record p { ov_status = depends; alarm = false; culprit = name }

data AfterDepends (w : World) (names : List Text) (m : Ptr) (v : World) : Type 0 where
  stopped :
      Blocked w names → (name : Text) → v ≡ modify_p m (depended name) w → AfterDepends w names m v
  passed : ¬ Blocked w names → v ≡ w → AfterDepends w names m v

Blocked-tail :
    {w : World} {name : Text} {rest : List Text}
    → ((o : Ptr) → find name w ≡ some o → is_up (w.elem o).p.ov_status ≡ true)
    → Blocked w (name ∷ rest)
    → Blocked w rest
Blocked-tail up (here o e d) = cc (up o e)
Blocked-tail up (later b) = b

-- A first dependency that is up, or is not there, is passed over.
AfterDepends-tail :
    {w : World} {name : Text} {rest : List Text} {m : Ptr} {v : World}
    → ((o : Ptr) → find name w ≡ some o → is_up (w.elem o).p.ov_status ≡ true)
    → AfterDepends w rest m v
    → AfterDepends w (name ∷ rest) m v
AfterDepends-tail up (stopped b name e) = stopped (later b) name e
AfterDepends-tail up (passed n e) = passed (λ b. n (Blocked-tail up b)) e

check_each-AfterDepends :
    (m : Ptr) (names : List Text) (w : World) → AfterDepends w names m (check_each m names w).0
unfolding check_each depend_on
check_each-AfterDepends m [] w = passed (λ b. elim b [ ]) refl
check_each-AfterDepends m (name ∷ rest) w = elim (Option-cases (find name w)) [
  | inl e ↦
      rw (e, depend_on) (AfterDepends-tail (λ o f. ground arith) (check_each-AfterDepends m rest w))
  | inr (o, e) ↦ elim (Bool-cases (is_up (w.elem o).p.ov_status)) [
    | inl u ↦
        rw (e, depend_on)
          (rw (u, depend_on)
            (AfterDepends-tail (λ q f. ground arith) (check_each-AfterDepends m rest w)))
    | inr d ↦ rw (e, depend_on) (rw d (stopped (here o e d) name refl))
  ]
]

-- Of an element whose aggregate is `agg`: a blocked one depends; else one that is not up and has an
-- override is overridden, but where its aggregate is of depends; else the aggregate stands.
pub record Decides (w : World) (names : List Text) (agg p : Persist) : Type 0 where
  pub status : p.status ≡ agg.status
  pub blocked : Blocked w names → p.ov_status ≡ depends
  pub overridden :
      ¬ Blocked w names
      → is_up agg.status ≡ false
      → agg.ov_status ≢ depends
      → is_set agg.override ≡ true
      → p.ov_status ≡ override
  pub depending : ¬ Blocked w names → agg.ov_status ≡ depends → p.ov_status ≡ depends
  pub plain :
      ¬ Blocked w names
      → (is_up agg.status ≡ true) ⊎ (is_set agg.override ≡ false)
      → p.ov_status ≡ agg.ov_status

overall_of_override :
    (w : World) (names : List Text) (agg q : Persist)
    → (Blocked w names × (q.ov_status ≡ depends) × (q.status ≡ agg.status)
        ⊎ (¬ Blocked w names) × (q ≡ agg))
    → Decides w names agg (override_status q)
unfolding override_status
overall_of_override w names agg q (inl (b, d, e)) = record {
  status = ground arith;
  blocked = λ _. ground arith;
  overridden = λ n. absurd (n b);
  depending = λ n. absurd (n b);
  plain = λ n. absurd (n b);
}
overall_of_override w names agg q (inr (n, e)) = record {
  status = ground arith;
  blocked = λ b. absurd (n b);
  overridden = λ _ u d s. ground arith;
  depending = λ _ d. ground arith;
  plain = λ _ o. ground arith;
}

decided :
    (w : World) (names : List Text) (m : Ptr) (v : World)
    → AfterDepends w names m v
    → Decides w names (w.elem m).p ((check_override m v).elem m).p
unfolding check_override
decided w names m v (stopped b name e) = rw (elem-modify_self m _ v) (
    overall_of_override w names (w.elem m).p (v.elem m).p
      (inl (b, rw e (rw (elem-modify_self m _ w)), rw e (rw (elem-modify_self m _ w)))))
decided w names m v (passed n e) =
    rw (elem-modify_self m _ v)
      (overall_of_override w names (w.elem m).p (v.elem m).p (inr (n, rw e)))

-- determineStatus decides the overall status by the dependencies first, then by the override, then
-- by the aggregate, where an aggregate of depends stays, whatever the override; and it tells
-- exactly whether the overall status is another one than before.
pub determine_status-Decides :
    (m : Ptr) (w : World)
    → let v = determine_aggr_status m w in
      let r = determine_status m w in
      Decides v (v.elem m).depends (v.elem m).p (r.0.elem m).p
      × ((r.1 ≡ true) ↔ ((r.0.elem m).p.ov_status ≢ (w.elem m).p.ov_status))
unfolding determine_status check_depends check_override
determine_status-Decides m w =
    let v = determine_aggr_status m w in
    (
      decided v (v.elem m).depends m _ (check_each-AfterDepends m (v.elem m).depends v),
      ground arith,
    )
