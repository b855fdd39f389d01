-- ===== src/Sched/Conserved.antt =====
-- The jobs that a dispatch sends and those that it leaves, of argus/sched/sched.go, job by job.
use argus.Prelude.{ℕ, ◌+◌, ◌≡◌, refl, none, List, [], ◌∷◌, ◌++◌, arith}
use argus.Sched.{Job, D, Bucket, Sched, set_job, send_work}
use argus.Sched.Mainloop.{send_all, dispatch_from, dispatch}
use argus.Sched.Queues.{times, queued_of, send_work-queued_of}

-- How often a job stands in the buckets.
unfoldable pub waiting_of : Job → List Bucket → ℕ
waiting_of e [] = 0
waiting_of e (b ∷ bs) = times e b.todo + waiting_of e bs

queued_of-set_job :
    (e d : Job) (f : D → D) (s : Sched) → queued_of e (set_job d f s) ≡ queued_of e s
unfolding set_job queued_of
queued_of-set_job e d f s = refl

send_all-queued_of :
    (e : Job) (ds : List Job) (s : Sched)
    → queued_of e (send_all ds s).0 + times e (send_all ds s).1 ≡ queued_of e s + times e ds
unfolding send_all times
send_all-queued_of e [] s = refl
send_all-queued_of e (d ∷ ds) s =
    let cleared = set_job d (λ y. record y { locte = none }) s in
    ground (
      arith,
      send_work-queued_of e d cleared,
      queued_of-set_job e d (λ y. record y { locte = none }) s,
      send_all-queued_of e ds (send_work d cleared).0,
    )

queued_of-schedule :
    (e : Job) (bs : List Bucket) (s : Sched)
    → queued_of e (record s { schedule = bs }) ≡ queued_of e s
unfolding queued_of
queued_of-schedule e bs s = refl

dispatch_from-queued_of :
    (now : ℕ) (bs : List Bucket) (s : Sched) (e : Job)
    → queued_of e (dispatch_from now bs s) + waiting_of e (dispatch_from now bs s).schedule
      ≡ queued_of e s + waiting_of e bs
unfolding dispatch_from waiting_of queued_of
dispatch_from-queued_of now [] s e = refl
dispatch_from-queued_of now (b ∷ bs) s e =
    ground
      (arith, send_all-queued_of e b.todo s, dispatch_from-queued_of now bs (send_all b.todo s).0 e)

-- No job is lost or doubled by a dispatch: each stands in the schedule and the workers' channels,
-- taken together, as often after it as before.
pub dispatch-conserves :
    (now : ℕ) (s : Sched) (e : Job)
    → queued_of e (dispatch now s) + waiting_of e (dispatch now s).schedule
      ≡ queued_of e s + waiting_of e s.schedule
unfolding dispatch
dispatch-conserves now s e = dispatch_from-queued_of now s.schedule s e

times-append : (e : Job) (ds es : List Job) → times e (ds ++ es) ≡ times e ds + times e es
unfolding times
times-append e [] es = omega arith
times-append e (d ∷ ds) es = omega (arith, times-append e ds es)

waiting_of-append :
    (e : Job) (bs cs : List Bucket) → waiting_of e (bs ++ cs) ≡ waiting_of e bs + waiting_of e cs
unfolding waiting_of
waiting_of-append e [] cs = omega arith
waiting_of-append e (b ∷ bs) cs = omega (arith, waiting_of-append e bs cs)

pub waiting_of-split :
    (e : Job) (b : Bucket) (past rest : List Bucket) (sent left : List Job)
    → b.todo ≡ sent ++ left
    → waiting_of e (past ++ b ∷ rest)
      ≡ waiting_of e past + times e sent + waiting_of e (record b { todo = left } ∷ rest)
unfolding waiting_of
waiting_of-split e b past rest sent left m =
    let k : times e b.todo ≡ times e sent + times e left = rw m (times-append e sent left) in
    omega (arith, k, waiting_of-append e past (b ∷ rest))
