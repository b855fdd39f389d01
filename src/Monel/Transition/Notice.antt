-- ===== src/Monel/Transition/Notice.antt =====
-- When a change of status makes a notification.
use argus.Prelude.{
  ℕ, zero, suc, ◌+◌, ◌≤◌, ◌<◌, ◌≡◌, ◌≢◌, refl, ◌↔◌, ◌⊎◌, inl, inr, true, false, Option, none, some,
  List, [], ◌∷◌, ◌++◌, arith, leb, get_elem?, length, Bool-cases,
}
use argus.Text.{codes}
use argus.Status.{Status, clear, unknown, warning, critical, override, depends, max_status}
use argus.Schedule.{Schedule, permit_now}
use argus.Monel.State.{Ptr, NewConf, notified, Env, World, modify}
use argus.Monel.Transition.{
  permit, permit_notify, worth_notifying, send_notify, new_conf, notify_with, maybe_notify,
}

-- A change to `st` that is of interest: to a severity, or to clear from one.
abbrev pub IsOfInterest : Status → Status → Type 0
IsOfInterest prev st =
    (warning ≤ st) × (st ≤ critical)
    ⊎ (st ≡ clear) × (prev ≢ unknown) × (prev ≢ override) × (prev ≢ depends)

worth-IsOfInterest :
    (prev st : Status) → st ≤ max_status → (worth_notifying prev st ≡ true) ↔ IsOfInterest prev st
unfolding worth_notifying
worth-IsOfInterest prev st h = (λ e. ground arith, λ e. ground arith)

-- The severity's own schedule permits it now, or, where it has none, the one for all severities.
abbrev pub IsPermitted : List (Option Schedule) → Status → Env → Type 0
IsPermitted sn st env =
    ((s : Schedule) × (get_elem? sn st ≡ some (some s))
      × (permit_now s env.local_time (codes "yes") ≡ true))
    ⊎ ((s : Schedule) × (get_elem? sn st ≡ some none)
        × (get_elem? sn unknown ≡ some (some s))
        × (permit_now s env.local_time (codes "yes") ≡ true))

get_elem?-past : (sn : List (Option Schedule)) (i : ℕ) → length sn ≤ i → get_elem? sn i ≡ none
get_elem?-past [] i h = refl
get_elem?-past (x ∷ xs) zero h = absurd (omega arith)
get_elem?-past (x ∷ xs) (suc i) h = get_elem?-past xs i (omega arith)

get_elem?-inside :
    (sn : List (Option Schedule)) (i : ℕ)
    → i < length sn
    → (s : Option Schedule) × (get_elem? sn i ≡ some s)
get_elem?-inside [] i h = absurd (omega arith)
get_elem?-inside (x ∷ xs) zero h = (x, refl)
get_elem?-inside (x ∷ xs) (suc i) h = get_elem?-inside xs i (omega arith)

permit-true :
    (own all : Option (Option Schedule)) (env : Env)
    → own ≢ none
    → permit own all env ≡ true
    → ((s : Schedule) × (own ≡ some (some s)) × (permit_now s env.local_time (codes "yes") ≡ true))
      ⊎ ((s : Schedule) × (own ≡ some none)
          × (all ≡ some (some s))
          × (permit_now s env.local_time (codes "yes") ≡ true))
unfolding permit
permit-true none all env n h = absurd (n refl)
permit-true (some (some s)) all env n h = inl (s, refl, h)
permit-true (some none) none env n h = ground arith
permit-true (some none) (some none) env n h = ground arith
permit-true (some none) (some (some s)) env n h = inr (s, refl, refl, h)

permit-IsPermitted :
    (sn : List (Option Schedule)) (st : Status) (env : Env)
    → (permit_notify sn st env ≡ true) ↔ IsPermitted sn st env
unfolding permit_notify permit
permit-IsPermitted sn st env = elim (Bool-cases (leb (length sn) st)) [
  | inl past ↦ (λ e. ground arith, λ p. ground (arith, get_elem?-past sn st))
  | inr inside ↦ (
    λ e. permit-true _ _ env (λ f. ground (arith, get_elem?-inside sn st)) (rw inside at e),
    λ p. ground arith,
  )
]

-- What has to hold for maybeNotify to call notify.New.
pub record Wants (m : Ptr) (conf : Ptr) (prev : Status) (w : World) : Type 0 where
  pub configured : (w.elem m).notify_cf ≡ some conf
  pub of_interest : IsOfInterest prev (w.elem m).p.ov_status
  pub no_ancestor : (w.elem m).p.anc_in_ov ≡ false
  pub permitted : IsPermitted (w.elem m).cf.sendnotify (w.elem m).p.ov_status w.env

-- The outcome: a number is taken, and a notification that notify.New keeps is sent and put on the
-- element's list.
pub record Sent (m : Ptr) (ncf : NewConf) (w v : World) : Type 0 where
  pub numbered : v.idno ≡ w.idno + 1
  pub kept :
      w.env.keeps ncf ≡ true
      → (v.calls ≡ w.calls ++ notified (w.idno + 1) ncf ∷ [])
        × ((v.elem m).notifies ≡ (w.elem m).notifies ++ (w.idno + 1) ∷ [])
  pub dropped : w.env.keeps ncf ≡ false → (v.calls ≡ w.calls) × (v.elem ≡ w.elem)

send_notify-Sent :
    (m : Ptr) (ncf : NewConf) (w : World)
    → ncf.ov_status ≤ critical
    → Sent m ncf w (send_notify m ncf w)
unfolding send_notify modify
send_notify-Sent m ncf w h = record {
  numbered = ground arith;
  kept = λ k. ground arith;
  dropped = λ k. ground arith;
}

notify_with-Sent :
    (m conf : Ptr) (prev : Status) (w : World)
    → Wants m conf prev w
    → Sent m (new_conf (w.elem m) conf prev) w (notify_with (some conf) m prev w)
unfolding notify_with new_conf
notify_with-Sent m conf prev w h =
    let x = w.elem m in
    rw ((worth-IsOfInterest prev x.p.ov_status (ground arith)).1 h.of_interest) (
      rw h.no_ancestor (
        rw ((permit-IsPermitted x.cf.sendnotify x.p.ov_status w.env).1 h.permitted)
          (send_notify-Sent m _ w (ground arith))))

notify_with_quiet :
    (m conf : Ptr) (prev : Status) (w : World)
    → (w.elem m).p.ov_status ≤ max_status
    → (w.elem m).notify_cf ≡ some conf
    → ¬ Wants m conf prev w
    → notify_with (some conf) m prev w ≡ w
unfolding notify_with
notify_with_quiet m conf prev w named c n =
    let x = w.elem m in
    let st = x.p.ov_status in
    elim (Bool-cases (worth_notifying prev st)) [
      | inr e ↦ rw e
      | inl e ↦ elim (Bool-cases x.p.anc_in_ov) [
        | inl a ↦ rw (e, a)
        | inr a ↦ elim (Bool-cases (permit_notify x.cf.sendnotify st w.env)) [
          | inr p ↦ rw (e, a, p)
          | inl p ↦ absurd (
              n (record {
                configured = c;
                of_interest = (worth-IsOfInterest prev st named).0 e;
                no_ancestor = a;
                permitted = (permit-IsPermitted x.cf.sendnotify st w.env).0 p;
              }))
        ]
      ]
    ]

-- maybeNotify makes a notification exactly if the element is configured for it, the change is to a
-- severity or to clear from one, no ancestor is overridden, and the schedules permit it now; else
-- nothing changes.
pub maybe_notify-Sent :
    (m conf : Ptr) (prev : Status) (w : World)
    → (w.elem m).p.ov_status ≤ max_status
    → (w.elem m).notify_cf ≡ some conf
    → (Wants m conf prev w → Sent m (new_conf (w.elem m) conf prev) w (maybe_notify m prev w))
      × (¬ Wants m conf prev w → maybe_notify m prev w ≡ w)
unfolding maybe_notify
maybe_notify-Sent m conf prev w named c =
    rw (c, maybe_notify) (notify_with-Sent m conf prev w, notify_with_quiet m conf prev w named c)
