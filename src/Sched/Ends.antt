-- ===== src/Sched/Ends.antt =====
-- How the loop of dispatch of argus/sched/sched.go ends.
use argus.Prelude.{
  ℕ, ◌+◌, ◌≤◌, ◌≡◌, ◌≢◌, refl, ap, ◌∙◌, inl, inr, true, false, none, List, [], ◌∷◌, ◌++◌, arith,
  ltb, if◌then◌else◌, Bool-cases, List-cases,
}
use argus.Sched.{Job, D, Bucket, Sched, set_job, send_work}
use argus.Sched.Mainloop.{holds, send_all, dispatch_from, dispatch}
use argus.Sched.Queues.{HasRoom, send_work-HasRoom}
use argus.Sched.Buckets.{IsFiled, todo_at}

-- The buckets from the first on that is not due.
unfoldable pub from_now : ℕ → List Bucket → List Bucket
from_now now [] = []
from_now now (b ∷ bs) = if ltb now b.when then b ∷ bs else from_now now bs

-- How the loop of dispatch ends: it has sent all up to the first bucket that is not due, or it is
-- at a due job for which the channels have no room.
pub data Ends (now : ℕ) (bs : List Bucket) (s v : Sched) : Type 0 where
  complete : v.schedule ≡ from_now now bs → v.work_defer ≡ s.work_defer → Ends now bs s v
  deferred :
      (past : List Bucket) (b : Bucket) (rest : List Bucket) (sent : List Job) (d : Job)
      (ds : List Job)
      → bs ≡ past ++ b ∷ rest
      → b.todo ≡ sent ++ d ∷ ds
      → v.schedule ≡ record b { todo = d ∷ ds } ∷ rest
      → b.when ≤ now
      → ¬ HasRoom (v.job d) v
      → (v.job d).locte ≡ none
      → v.work_defer ≡ s.work_defer + 1
      → Ends now bs s v

work_defer-send_work : (d : Job) (s : Sched) → (send_work d s).0.work_defer ≡ s.work_defer
unfolding send_work
work_defer-send_work d s = ground arith

work_defer-set_job : (d : Job) (f : D → D) (s : Sched) → (set_job d f s).work_defer ≡ s.work_defer
unfolding set_job
work_defer-set_job d f s = refl

-- A job that is refused changes nothing.
send_work_refused : (d : Job) (s : Sched) → (send_work d s).1 ≡ false → (send_work d s).0 ≡ s
unfolding send_work
send_work_refused d s h = ground arith

HasRoom-refused :
    (d : Job) (s : Sched)
    → (send_work d s).1 ≡ false
    → ¬ HasRoom ((send_work d s).0.job d) (send_work d s).0
HasRoom-refused d s h =
    rw (send_work_refused d s h) (λ r. absurd (ground (arith, (send_work-HasRoom d s).1 r)))

work_defer-send_all : (ds : List Job) (s : Sched) → (send_all ds s).0.work_defer ≡ s.work_defer
unfolding send_all
work_defer-send_all [] s = refl
work_defer-send_all (d ∷ ds) s =
    let cleared = set_job d (λ y. record y { locte = none }) s in
    ground (
      arith,
      work_defer-send_work d cleared,
      work_defer-set_job d (λ y. record y { locte = none }) s,
      work_defer-send_all ds (send_work d cleared).0,
    )

send_all-HasRoom :
    (ds : List Job) (s : Sched) (d : Job) (rest : List Job)
    → (send_all ds s).1 ≡ d ∷ rest
    → ¬ HasRoom ((send_all ds s).0.job d) (send_all ds s).0
unfolding send_all
send_all-HasRoom [] s d rest h = ground arith
send_all-HasRoom (e ∷ ds) s d rest h =
    let cleared = set_job e (λ y. record y { locte = none }) s in
    elim (Bool-cases (send_work e cleared).1) [
      | inl sent ↦ rw sent (send_all-HasRoom ds (send_work e cleared).0 d rest (rw sent at h))
      | inr full ↦ rw full (
          let same : e ≡ d = ground (arith, h, full) in
          rw (← same) (HasRoom-refused e cleared full))
    ]

locte-refused :
    (d : Job) (s : Sched)
    → (send_work d (set_job d (λ y. record y { locte = none }) s)).1 ≡ false
    → ((send_work d (set_job d (λ y. record y { locte = none }) s)).0.job d).locte ≡ none
locte-refused d s h = rw (send_work_refused d _ h) (unfold set_job in ground arith)

locte-send_all :
    (ds : List Job) (s : Sched) (d : Job) (rest : List Job)
    → (send_all ds s).1 ≡ d ∷ rest
    → ((send_all ds s).0.job d).locte ≡ none
unfolding send_all
locte-send_all [] s d rest h = ground arith
locte-send_all (e ∷ ds) s d rest h =
    let cleared = set_job e (λ y. record y { locte = none }) s in
    elim (Bool-cases (send_work e cleared).1) [
      | inl sent ↦ rw sent (locte-send_all ds (send_work e cleared).0 d rest (rw sent at h))
      | inr full ↦
          rw full
            (let same : e ≡ d = ground (arith, h, full) in rw (← same) (locte-refused e s full))
    ]

-- What is left of a bucket is its last jobs.
send_all_left : (ds : List Job) (s : Sched) → (sent : List Job) × (ds ≡ sent ++ (send_all ds s).1)
unfolding send_all
send_all_left [] s = ([], refl)
send_all_left (d ∷ ds) s =
    let cleared = set_job d (λ y. record y { locte = none }) s in
    let (sent, e) = send_all_left ds (send_work d cleared).0 in
    elim (Bool-cases (send_work d cleared).1) [
      | inl ok ↦ (d ∷ sent, rw ok (ap (λ l. d ∷ l) e))
      | inr full ↦ ([], rw full refl)
    ]

Ends-due :
    (now : ℕ) (b : Bucket) (bs : List Bucket) (s s' v : Sched)
    → s'.work_defer ≡ s.work_defer
    → ltb now b.when ≡ false
    → Ends now bs s' v
    → Ends now (b ∷ bs) s v
unfolding from_now
Ends-due now b bs s s' v w late (complete e f) = complete (rw late e) (f ∙ w)
Ends-due now b bs s s' v w late (deferred past c rest sent d ds k m e l n o f) =
    deferred (b ∷ past) c rest sent d ds (ap (λ q. b ∷ q) k) m e l n o (f ∙ ap (λ k. k + 1) w)

dispatch_from-Ends :
    (now : ℕ) (bs : List Bucket) (s : Sched) → Ends now bs s (dispatch_from now bs s)
unfolding dispatch_from from_now
dispatch_from-Ends now [] s = complete refl refl
dispatch_from-Ends now (b ∷ bs) s = elim (Bool-cases (ltb now b.when)) [
  | inl later ↦ rw later (complete (rw later) refl)
  | inr late ↦ elim (List-cases (send_all b.todo s).1) [
    | inl sent ↦
        rw (late, sent)
          (Ends-due now b bs s (send_all b.todo s).0 _ (work_defer-send_all b.todo s) late
            (dispatch_from-Ends now bs (send_all b.todo s).0))
    | inr (d, ds, left) ↦
        let (sent, e) = send_all_left b.todo s in
        let split : b.todo ≡ sent ++ d ∷ ds = rw left at e in
        rw (late, left)
          (deferred [] b bs sent d ds refl split refl (ground arith)
            (send_all-HasRoom b.todo s d ds left) (locte-send_all b.todo s d ds left)
            (ap (λ k. k + 1) (work_defer-send_all b.todo s)))
  ]
]

pub dispatch-Ends : (now : ℕ) (s : Sched) → Ends now s.schedule s (dispatch now s)
unfolding dispatch
dispatch-Ends now s = dispatch_from-Ends now s.schedule s

held_unlinked :
    (v : Sched) (b : Bucket) (rest : List Bucket) (d : Job) (ds : List Job)
    → v.schedule ≡ record b { todo = d ∷ ds } ∷ rest
    → (v.job d).locte ≡ none
    → ¬ IsFiled v
held_unlinked v b rest d ds e n h =
    let held : holds d (todo_at b.when v.schedule) ≡ true = rw e (unfold todo_at in ground arith) in
    ground (arith, h.filed d b.when held)

-- Where a dispatch ends early, a job stands in a bucket without pointing to it, so that the
-- schedule is no longer filed as the main loop needs it to move that job.
pub dispatch_deferred-IsFiled :
    (now : ℕ) (s : Sched) → (dispatch now s).work_defer ≢ s.work_defer → ¬ IsFiled (dispatch now s)
dispatch_deferred-IsFiled now s w = go (dispatch-Ends now s)
  where
    go : Ends now s.schedule s (dispatch now s) → ¬ IsFiled (dispatch now s)
    go (complete e f) = absurd (w f)
    go (deferred past b rest sent d ds k m e l n o f) =
        held_unlinked (dispatch now s) b rest d ds e o
