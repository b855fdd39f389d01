-- ===== src/Sched.antt =====
-- The scheduler: argus/sched/sched.go. A job is a pointer, a number; channels are lists with their
-- capacities.
pub mod Timing
pub mod Queues
pub mod Buckets
pub mod Conserved
pub mod Ends
pub mod Dispatch
pub mod Mainloop
use argus.Prelude.{
  ℕ, zero, suc, ◌+◌, ◌-◌, ◌*◌, ◌/◌, ◌%◌, Bool, true, false, ◌||◌, Option, none, some, List, [], ◌∷◌,
  ◌++◌, ltb, leb, ◌==◌, if◌then◌else◌, length,
}

abbrev pub Job : Type 0
Job = ℕ

abbrev pub Prio : Type 0
Prio = ℕ

abbrev pub prio_none : Prio
prio_none = 0

abbrev pub prio_express : Prio
prio_express = 1

abbrev pub prio_high : Prio
prio_high = 2

abbrev pub express_limit : ℕ
express_limit = 50

abbrev pub queuelen : ℕ
queuelen = 1000

abbrev pub exprlen : ℕ
exprlen = 1000

abbrev pub priolen : ℕ
priolen = 10

pub record D : Type 0 where
  pub freq : ℕ
  pub phase : ℕ
  pub prio : Prio
  pub auto : Bool
  pub xdt : ℕ  -- expected run time, milliseconds
  pub when : ℕ  -- Unix time, 0 for removed
  pub locte : Option ℕ  -- the time of the job's bucket

-- te
pub record Bucket : Type 0 where
  pub when : ℕ
  pub todo : List Job

pub record Sched : Type 0 where
  pub job : Job → D
  pub schedule : List Bucket
  pub schedchan : List Job
  pub workchan : List Job
  pub expresschan : List Job
  pub priochan : List Job
  pub work_defer : ℕ

unfoldable pub set_job : Job → (D → D) → Sched → Sched
set_job d f s = record s { job = λ e. if d == e then f (s.job d) else s.job e }

-- for d.when < now { d.when += freq }; a round adds at least 1, so `now` rounds are enough.
unfoldable pub catch_up : ℕ → ℕ → ℕ → ℕ → ℕ
catch_up zero freq now when = when
catch_up (suc fuel) freq now when =
    let more = catch_up fuel freq now (when + freq) in if ltb when now then more else when

-- The time of ReScheduleSamePrio, before the delay at the top of the hour. The phase lies before
-- any present time, so `now - phase` does not fall below 0.
unfoldable pub next_time : ℕ → ℕ → ℕ → ℕ → ℕ
unfolding catch_up
next_time freq phase delay now =
    let freq' = if leb freq 0 then 60 else freq in
    if ltb 0 delay
    then now + delay
    else catch_up now freq' now ((now - phase) / freq' * freq' + freq' + phase)

-- The delay off the top of the hour; `r` is rand.Intn(4).
unfoldable pub off_the_hour : ℕ → ℕ → ℕ
off_the_hour r when = if when % 3600 == 0 then when + (r + 1) else when

-- ReScheduleSamePrio. Sending to schedchan may wait; the list holds what was sent.
unfoldable pub re_schedule_same_prio : Job → ℕ → ℕ → ℕ → Sched → Sched
unfolding next_time off_the_hour
re_schedule_same_prio d delay now r s =
    let x = s.job d in
    let when = off_the_hour r (next_time x.freq x.phase delay now) in
    let s' = set_job d (λ y. record y { when = when }) s in
    record s' { schedchan = s'.schedchan ++ d ∷ [] }

-- The priority of ReSchedule from the run time that is expected.
unfoldable pub prioritize : ℕ → D → D
prioritize exp x =
    let xdt = (3 * (if x.xdt == 0 then exp else x.xdt) + exp) / 4 in
    record x {
      xdt = xdt;
      prio =
          if x.prio == prio_high
          then x.prio
          else if xdt == 0
          then prio_none
          else if ltb xdt express_limit
          then prio_express
          else prio_none;
    }

-- ReSchedule
unfoldable pub re_schedule : Job → ℕ → ℕ → ℕ → ℕ → Sched → Sched
unfolding prioritize
re_schedule d delay exp now r s = re_schedule_same_prio d delay now r (set_job d (prioritize exp) s)

pub record Conf : Type 0 where
  pub freq : ℕ
  pub phase : ℕ
  pub auto : Bool
  pub prio : Bool

-- New, at the pointer `d`; `r` is rand.Intn(cf.Freq) and `r'` the delay off the top of the hour. A
-- frequency of 0 is a panic.
unfoldable pub new : Conf → Job → ℕ → ℕ → ℕ → Sched → Option Sched
unfolding re_schedule
new cf d r now r' s =
    if cf.freq == 0
    then none
    else let made : D = record {
      freq = cf.freq;
      phase = (if leb cf.phase 0 then r else cf.phase) % cf.freq;
      prio = if cf.prio then prio_high else prio_none;
      auto = cf.auto;
      xdt = 0;
      when = 0;
      locte = none;
    } in
      some (re_schedule d 0 0 now r' (set_job d (λ x. made) s))

-- At
unfoldable pub at_time : ℕ → Job → Sched → Sched
at_time unix d s =
    let made : D = record {
      freq = 0;
      phase = 0;
      prio = prio_high;
      auto = false;
      xdt = 0;
      when = unix;
      locte = none;
    } in
    let s' = set_job d (λ x. made) s in record s' { schedchan = s'.schedchan ++ d ∷ [] }

-- What a worker does once a job has run.
unfoldable pub after_run : Job → ℕ → ℕ → Sched → Sched
after_run d now r s = if (s.job d).auto then re_schedule_same_prio d 0 now r s else s

-- Remove
unfoldable pub remove : Job → Sched → Sched
remove d s =
    let s' = set_job d (λ y. record y { when = 0 }) s in
    record s' { schedchan = s'.schedchan ++ d ∷ [] }

unfoldable pub send_normal : Job → Sched → Sched × Bool
send_normal d s =
    if ltb (length s.workchan) queuelen
    then (record s { workchan = s.workchan ++ d ∷ [] }, true)
    else (s, false)

unfoldable pub send_express : Job → Sched → Sched × Bool
send_express d s =
    if ltb (length s.expresschan) exprlen
    then (record s { expresschan = s.expresschan ++ d ∷ [] }, true)
    else send_normal d s

-- sendWork: each case falls through to the next where its channel is full.
unfoldable pub send_work : Job → Sched → Sched × Bool
unfolding send_normal send_express
send_work d s =
    let prio = (s.job d).prio in
    if prio == prio_high
    then (if ltb (length s.priochan) priolen
        then (record s { priochan = s.priochan ++ d ∷ [] }, true)
        else send_express d s)
    else if prio == prio_express
    then send_express d s
    else send_normal d s

-- ASAP
unfoldable pub asap : Job → ℕ → ℕ → Sched → Sched
asap d now r s =
    let (s', sent) = send_work d s in
    if sent
    then s'
    else re_schedule_same_prio d 1 now r (record s' { work_defer = s'.work_defer + 1 })
