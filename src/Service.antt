-- ===== src/Service.antt =====
-- A service: when it may start, its results and retries, and when it runs next. argus/service's
-- service.go, less the simulation of demo mode.
pub mod Results
pub mod Retries
pub mod Running
pub mod Delay
pub mod Compare
pub mod Calc
pub mod Hwab
pub mod Check
use argus.Prelude.{
  ℕ, ◌+◌, ◌*◌, ◌/◌, Bool, true, false, ◌&&◌, not, Option, none, some, List, [], ◌∷◌, ◌++◌, ltb, leb,
  ◌==◌, if◌then◌else◌,
}
use argus.Text.{Text, codes, text_eq}
use argus.Dict.{Dict, insert, lookup}
use argus.Status.{Status, clear}
use argus.Status.Gravity.{Gravity}
use argus.Schedule.{Schedule, permit_now}
use argus.Monel.Stats.{secsnano}
use argus.Monel.State.{Ptr, World}
use argus.Monel.Transition.{update, now_nano}
use argus.Sched.{Job, Sched, re_schedule, asap}
use argus.Darp.{Darp, status_of, aggr_status}

pub record Conf : Type 0 where
  pub frequency : ℕ
  pub retries : ℕ
  pub retrydelay : ℕ
  pub severity : Status
  pub darp_gravity : Gravity
  pub testing : Option Schedule
  pub checking : Option Schedule

pub record Persist : Type 0 where
  pub statuses : Dict Status
  pub result : Text
  pub results : Dict Text
  pub reason : Text

pub record Service : Type 0 where
  pub mon : Ptr
  pub job : Job  -- sched
  pub cf : Conf
  pub p : Persist
  pub running : Bool
  pub ready : Bool
  pub lasttest : ℕ
  pub tries : ℕ
  pub started : ℕ
  pub elapsed : ℕ
  pub also_run : List Job  -- the services' entries in the scheduler

-- A call into the monitor behind the service or to the masters.
pub data Call : Type 0 where
  check_start : Call
  check_abort : Call
  send_update : Status → Text → Text → Call

-- A service with the parts of the program that it changes.
pub record System : Type 0 where
  pub svc : Service
  pub world : World
  pub sched : Sched
  pub darp : Darp
  pub my_id : Text
  pub calls : List Call

abbrev pub with_svc : System → Service → System
with_svc s x = record s { svc = x }

-- A schedule that is not set permits.
unfoldable pub permits : Option Schedule → World → Bool
permits none w = true
permits (some s) w = permit_now s w.env.local_time (codes "yes")

-- reschedule; `r` is the scheduler's random delay off the top of the hour.
unfoldable pub reschedule : ℕ → ℕ → System → System
reschedule r dt s =
    let x = s.svc in
    let delay =
      if not (x.tries == 0) && not (x.cf.retrydelay == 0)
      then x.cf.retrydelay
      else x.cf.frequency in
    record s {
      sched = re_schedule x.job delay (dt / 1000000) (now_nano s.world / secsnano) r s.sched;
    }

-- tasRunning
unfoldable pub tas_running : System → System × Bool
tas_running s =
    if s.svc.running
    then (s, false)
    else if not (permits s.svc.cf.testing s.world)
    then (s, false)
    else (with_svc s (record (s.svc) { started = now_nano s.world; running = true }), true)

-- for more than 900 seconds
unfoldable pub stuck : System → Bool
stuck s = s.svc.running && ltb (s.svc.started + 900 * secsnano) (now_nano s.world)

-- Start
unfoldable pub start : ℕ → System → System
unfolding tas_running stuck reschedule
start r s =
    let (s', ok) = tas_running s in
    if ok
    then record s' { calls = s'.calls ++ check_start ∷ [] }
    else reschedule r 0
        (if stuck s' then record s' { calls = s'.calls ++ check_abort ∷ [] } else s')

-- JoinMulti
unfoldable pub join_multi : ℕ → System → System × Bool
unfolding tas_running reschedule
join_multi r s =
    let (s', ok) = tas_running s in if ok then (reschedule r 0 s', true) else (s', false)

-- also.CheckNow() for each
unfoldable pub check_all : ℕ → List Job → System → System
check_all r [] s = s
check_all r (d ∷ ds) s =
    check_all r ds (record s { sched = asap d (now_nano s.world / secsnano) r s.sched })

-- Done
unfoldable pub done : ℕ → System → System
unfolding reschedule check_all
done r s =
    let s' = reschedule r s.svc.elapsed s in
    check_all r s.svc.also_run
      (with_svc s' (record (s'.svc) { running = false; lasttest = now_nano s.world }))

-- setResultForL
unfoldable pub set_result_for_l : Text → Status → Text → Text → System → System × Status
set_result_for_l id status result reason s =
    let p = s.svc.p in
    let statuses = insert id status p.statuses in
    let p' = record p {
      results = insert id result p.results;
      reason = if text_eq id s.my_id then reason else p.reason;
      statuses = statuses;
    } in
    (
      with_svc s (record (s.svc) { p = p' }),
      aggr_status s.darp s.svc.cf.darp_gravity status statuses,
    )

-- SetResultFor
unfoldable pub set_result_for : Text → Status → Text → Text → System → System
unfolding set_result_for_l
set_result_for id status result reason s =
    let (s', aggr) = set_result_for_l id status result reason s in
    record s' { world = update s.svc.mon aggr result reason s'.world }

-- The part of SetResult past the retries.
unfoldable pub report : Status → Text → Text → System → System
unfolding set_result_for
report status result reason s =
    let s' =
      if status == status_of s.svc.p.statuses s.my_id
      then s
      else record s { calls = s.calls ++ send_update status result reason ∷ [] } in
    set_result_for s.my_id status result reason
      (with_svc s' (record (s'.svc) { p = record (s'.svc.p) { result = result } }))

-- SetResult
unfoldable pub set_result : Status → Text → Text → System → System
unfolding report
set_result given result reason s =
    let status = if permits s.svc.cf.checking s.world then given else clear in
    if status == clear
    then report status result [] (with_svc s (record (s.svc) { tries = 0; ready = true }))
    else let s' = if text_eq result [] then s else with_svc s (record (s.svc) { ready = true }) in
      if leb s'.svc.tries s.svc.cf.retries
      then with_svc s' (record (s'.svc) { tries = s'.svc.tries + 1 })
      else report status result reason s'

-- Pass, FailReady, Fail, FailNow
unfoldable pub pass : System → System
pass s = set_result clear [] [] (with_svc s (record (s.svc) { ready = true }))

unfoldable pub fail_ready : Text → System → System
fail_ready reason s =
    set_result s.svc.cf.severity [] reason (with_svc s (record (s.svc) { ready = true }))

unfoldable pub fail : Text → System → System
fail reason s =
    set_result s.svc.cf.severity [] reason (with_svc s (record (s.svc) { ready = false }))

unfoldable pub fail_now : Text → System → System
unfolding fail
fail_now reason s =
    fail reason (with_svc s (record (s.svc) { ready = false; tries = s.svc.cf.retries + 1 }))

-- AddAlsoRun
unfoldable pub add_also_run : Job → System → System
add_also_run c s = with_svc s (record (s.svc) { also_run = s.svc.also_run ++ c ∷ [] })

unfoldable pub less_one : Job → List Job → List Job
less_one c [] = []
less_one c (d ∷ ds) = if d == c then ds else d ∷ less_one c ds

-- RemoveAlsoRun takes the first out.
unfoldable pub remove_also_run : Job → System → System
unfolding less_one
remove_also_run c s = with_svc s (record (s.svc) { also_run = less_one c s.svc.also_run })
