-- ===== src/Service/Results.antt =====
-- What a result does: argus/service/service.go, SetResult.
use argus.Prelude.{
  ℕ, ◌+◌, ◌≤◌, ◌<◌, ◌≡◌, ◌≢◌, refl, ◌⊎◌, inl, inr, Bool, true, false, some, [], ◌∷◌, ◌++◌, arith,
  leb, ◌==◌, if◌then◌else◌, Bool-cases,
}
use native.Mathlib.Decide.{dec_lt}
use argus.Text.{Text, text_eq, text_eq_iff}
use argus.Dict.{insert, lookup, lookup-insert}
use argus.Status.{Status, clear}
use argus.Monel.Transition.{update}
use argus.Darp.{status_of, aggr_status}
use argus.Service.{
  send_update, System, permits, set_result, report, set_result_for, set_result_for_l,
}

-- The host's own status is recorded, the masters hear of it if it is a new one, and the aggregate
-- over the hosts is the element's new status.
pub record Reported (status : Status) (result reason : Text) (s v : System) : Type 0 where
  pub recorded : lookup s.my_id v.svc.p.statuses ≡ some status
  pub explained : (v.svc.p.reason ≡ reason) × (v.svc.p.result ≡ result)
  pub updated :
      v.world
      ≡ update s.svc.mon
          (aggr_status s.darp s.svc.cf.darp_gravity status v.svc.p.statuses)
          result
          reason
          s.world
  pub told : v.calls ≡ (
      if status == status_of s.svc.p.statuses s.my_id
      then s.calls
      else s.calls ++ send_update status result reason ∷ [])

abbrev pub waited : ℕ → Bool → System → System
waited n ready s = record s { svc = record (s.svc) { tries = s.svc.tries + n; ready = ready } }

-- Nothing but the count of tries, which grows by `n`, and the readiness changes.
pub record Waits (n : ℕ) (s v : System) : Type 0 where
  pub same : v ≡ waited n v.svc.ready s

pub data Outcome (given : Status) (result reason : Text) (s v : System) : Type 0 where
  cleared :
      (given ≡ clear) ⊎ (permits s.svc.cf.checking s.world ≡ false)
      → (v.svc.tries ≡ 0) × (v.svc.ready ≡ true)
      → Reported clear result [] s v
      → Outcome given result reason s v
  waits :
      given ≢ clear
      → permits s.svc.cf.checking s.world ≡ true
      → s.svc.tries ≤ s.svc.cf.retries
      → Waits 1 s v
      → Outcome given result reason s v
  failed :
      given ≢ clear
      → permits s.svc.cf.checking s.world ≡ true
      → s.svc.cf.retries < s.svc.tries
      → v.svc.tries ≡ s.svc.tries
      → Reported given result reason s v
      → Outcome given result reason s v

recorded_lem :
    (id : Text) (st : Status) (s : System) → lookup id (insert id st s.svc.p.statuses) ≡ some st
recorded_lem id st s = ground (arith, lookup-insert id id st s.svc.p.statuses, text_eq_iff id id)

own_lem : {A : Type 0} (id : Text) (a b : A) → (if text_eq id id then a else b) ≡ a
own_lem id a b = ground (arith, text_eq_iff id id)

report-Reported :
    (status : Status) (result reason : Text) (s : System)
    → Reported status result reason s (report status result reason s)
unfolding report set_result_for set_result_for_l
report-Reported status result reason s =
    elim (Bool-cases (status == status_of s.svc.p.statuses s.my_id)) [
      | inl same ↦ record {
        recorded = rw same (recorded_lem s.my_id status s);
        explained = rw same (own_lem s.my_id reason s.svc.p.reason, refl);
        updated = rw same refl;
        told = rw same refl;
      }
      | inr new ↦ record {
        recorded = rw new (recorded_lem s.my_id status s);
        explained = rw new (own_lem s.my_id reason s.svc.p.reason, refl);
        updated = rw new refl;
        told = rw new refl;
      }
    ]

permitted : (b : Bool) (given : Status) → (if b then given else clear) ≢ clear → b ≡ true
permitted true given h = refl
permitted false given h = absurd (h refl)

tries-report :
    (status : Status) (result reason : Text) (s : System)
    → ((report status result reason s).svc.tries ≡ s.svc.tries)
      × ((report status result reason s).svc.ready ≡ s.svc.ready)
unfolding report set_result_for set_result_for_l
tries-report status result reason s =
    elim (Bool-cases (status == status_of s.svc.p.statuses s.my_id)) [
      | inl same ↦ rw same (refl, refl)
      | inr new ↦ rw new (refl, refl)
    ]

set_result-clear :
    (given : Status) (result reason : Text) (s : System)
    → (if permits s.svc.cf.checking s.world then given else clear) ≡ clear
    → set_result given result reason s
      ≡ report clear result [] (record s { svc = record (s.svc) { tries = 0; ready = true } })
unfolding set_result
set_result-clear given result reason s h = rw h refl

pub set_result_wait :
    (given : Status) (result reason : Text) (s : System)
    → given ≢ clear
    → permits s.svc.cf.checking s.world ≡ true
    → s.svc.tries ≤ s.svc.cf.retries
    → Waits 1 s (set_result given result reason s)
unfolding set_result
set_result_wait given result reason s n p l =
    let t : (given == clear) ≡ false = ground arith in
    let m : leb s.svc.tries s.svc.cf.retries ≡ true = ground arith in
    elim (Bool-cases (text_eq result [])) [
      | inl e ↦ rw (p, t, e, m) (record { same = refl })
      | inr e ↦ rw (p, t, e, m) (record { same = refl })
    ]

pub record Failed (status : Status) (result reason : Text) (s v : System) : Type 0 where
  pub same_tries : v.svc.tries ≡ s.svc.tries
  pub reported : Reported status result reason s v

pub set_result_fail :
    (given : Status) (result reason : Text) (s : System)
    → given ≢ clear
    → permits s.svc.cf.checking s.world ≡ true
    → s.svc.cf.retries < s.svc.tries
    → Failed given result reason s (set_result given result reason s)
unfolding set_result
set_result_fail given result reason s n p l =
    let t : (given == clear) ≡ false = ground arith in
    let m : leb s.svc.tries s.svc.cf.retries ≡ false = ground arith in
    elim (Bool-cases (text_eq result [])) [
      | inl e ↦
          rw (p, t, e, m)
            (record {
              same_tries = (tries-report given result reason s).0;
              reported = report-Reported given result reason s;
            })
      | inr e ↦
          rw (p, t, e, m)
            (let s' : System = record s { svc = record (s.svc) { ready = true } } in
              let r = report-Reported given result reason s' in
              record {
                same_tries = (tries-report given result reason s').0;
                reported = record {
                  recorded = r.recorded;
                  explained = r.explained;
                  updated = r.updated;
                  told = r.told;
                };
              })
    ]

set_result-cleared :
    (given : Status) (result reason : Text) (s : System)
    → (given ≡ clear) ⊎ (permits s.svc.cf.checking s.world ≡ false)
    → Outcome given result reason s (set_result given result reason s)
set_result-cleared given result reason s why =
    let s' : System = record s { svc = record (s.svc) { tries = 0; ready = true } } in
    let r = report-Reported clear result [] s' in
    let e : (if permits s.svc.cf.checking s.world then given else clear) ≡ clear = ground arith in
    rw (set_result-clear given result reason s e) (
      cleared why (tries-report clear result [] s') (record {
        recorded = r.recorded;
        explained = r.explained;
        updated = r.updated;
        told = r.told;
      }))

set_result-counted :
    (given : Status) (result reason : Text) (s : System)
    → given ≢ clear
    → permits s.svc.cf.checking s.world ≡ true
    → Outcome given result reason s (set_result given result reason s)
set_result-counted given result reason s n p = elim (dec_lt s.svc.cf.retries s.svc.tries) [
  | yes l ↦
      let f = set_result_fail given result reason s n p l in failed n p l f.same_tries f.reported
  | no l ↦
      let m : s.svc.tries ≤ s.svc.cf.retries = omega arith in
      waits n p m (set_result_wait given result reason s n p m)
]

-- A clear result, or any where the checking schedule does not permit, is reported at once as clear
-- and resets the tries. Another counts as a try and is not reported while the tries are within the
-- retries; past them it is reported as it is. To report is to record the status, to tell the
-- masters of a new one, and to update the element with the aggregate over the hosts.
pub set_result-Outcome :
    (given : Status) (result reason : Text) (s : System)
    → Outcome given result reason s (set_result given result reason s)
set_result-Outcome given result reason s = elim (Bool-cases (permits s.svc.cf.checking s.world)) [
  | inl p ↦ elim (Bool-cases (given == clear)) [
    | inl c ↦ set_result-cleared given result reason s (inl (ground arith))
    | inr c ↦ set_result-counted given result reason s (ground arith) p
  ]
  | inr p ↦ set_result-cleared given result reason s (inr p)
]
