-- ===== src/Examples/Scheduler.antt =====
-- Two jobs and a full work queue: the theorems on the scheduler at concrete inputs.
use argus.Prelude.{
  ℕ, ◌+◌, ◌≡◌, ◌≢◌, ◌%◌, ◌++◌, leb, true, none, some, [], ◌∷◌, arith, ◌==◌, if◌then◌else◌,
  replicate, length-replicate,
}
use argus.Sched.{
  Job, Sched, prio_none, prio_express, send_work, send_normal, re_schedule_same_prio, queuelen,
  set_job,
}
use argus.Sched.Mainloop.{receive, send_all, dispatch, dispatch_from, holds}
use argus.Sched.Timing.{IsNext, Put, re_schedule_same_prio-IsNext}
use argus.Sched.Queues.{Fits, queued_of}
use argus.Sched.Buckets.{Placed, IsFiled, todo_at, receive-IsFiled}
use argus.Sched.Conserved.{waiting_of, dispatch-conserves}
use argus.Sched.Dispatch.{Outcome, dispatch-Outcome}

-- Job 1 is in the bucket of time 50; job 2 has just been given the time 90.
abbrev pub two_jobs : Sched
two_jobs = record {
  job = λ e. record {
    freq = 60;
    phase = 7;
    prio = prio_express;
    auto = true;
    xdt = 3;
    when = if e == 1 then 50 else 90;
    locte = if e == 1 then some 50 else none;
  };
  schedule = record { when = 50; todo = 1 ∷ [] } ∷ [];
  schedchan = [];
  workchan = [];
  expresschan = [];
  priochan = [];
  work_defer = 0;
}

-- The work queue is full, and job 1 may use no other.
abbrev full : Sched
full = record two_jobs {
  job = λ e. record {
    freq = 60;
    phase = 7;
    prio = prio_none;
    auto = true;
    xdt = 0;
    when = 50;
    locte = some 50;
  };
  workchan = replicate queuelen 3;
}

two_jobs-Fits : Fits two_jobs
two_jobs-Fits = record { work = omega arith; express = omega arith; prio = omega arith }

two_jobs_filed :
    (e : Job) (t : ℕ)
    → holds e (todo_at t two_jobs.schedule) ≡ true
    → (two_jobs.job e).locte ≡ some t
unfolding todo_at
two_jobs_filed e t h = ground arith

two_jobs-IsFiled : IsFiled two_jobs
two_jobs-IsFiled = record { in_order = (omega arith, tt); filed = two_jobs_filed }

re_schedule_same_prio-IsNext_example :
    let x = two_jobs.job 2 in
    let v = re_schedule_same_prio 2 0 100 3 two_jobs in
    (v.schedchan ≡ two_jobs.schedchan ++ 2 ∷ [])
    × ((v.job 2).when % 3600 ≢ 0)
    × (cycle : ℕ) × IsNext (if leb x.freq 0 then 60 else x.freq) x.phase 100 cycle
    × Put 3 cycle (v.job 2).when
re_schedule_same_prio-IsNext_example =
    re_schedule_same_prio-IsNext 2 100 3 two_jobs (omega arith) (omega arith)

receive-IsFiled_example : Placed 2 two_jobs (receive 2 two_jobs) × IsFiled (receive 2 two_jobs)
receive-IsFiled_example = receive-IsFiled 2 two_jobs two_jobs-IsFiled

dispatch-conserves_example :
    queued_of 1 (dispatch 60 two_jobs) + waiting_of 1 (dispatch 60 two_jobs).schedule
    ≡ queued_of 1 two_jobs + waiting_of 1 two_jobs.schedule
dispatch-conserves_example = dispatch-conserves 60 two_jobs 1

dispatch-Outcome_example : Outcome 60 two_jobs (dispatch 60 two_jobs)
dispatch-Outcome_example = dispatch-Outcome 60 two_jobs (omega arith, tt)

full_defers : (dispatch 60 full).work_defer ≢ full.work_defer
unfolding dispatch dispatch_from send_all send_work send_normal set_job
full_defers = ground (arith, length-replicate {A = Job} queuelen 3)
