-- ===== src/Sched/Dispatch.antt =====
-- Dispatching what is due.
use argus.Prelude.{
  ℕ, ◌+◌, ◌≤◌, ◌≡◌, refl, ap, sym, ◌∙◌, inl, inr, true, List, [], ◌∷◌, ◌++◌, arith, ltb,
  if◌then◌else◌, Bool-cases,
}
use argus.Sched.{Job, Bucket, Sched}
use argus.Sched.Mainloop.{dispatch}
use argus.Sched.Queues.{HasRoom, times, queued_of}
use argus.Sched.Buckets.{InOrder}
use argus.Sched.Conserved.{waiting_of, dispatch-conserves, waiting_of-split}
use argus.Sched.Ends.{Ends, complete, deferred, from_now, dispatch-Ends}

-- The buckets that are due, and those that are not.
unfoldable pub due : ℕ → List Bucket → List Bucket
due now [] = []
due now (b ∷ bs) = let rest = due now bs in if ltb now b.when then rest else b ∷ rest

unfoldable pub not_due : ℕ → List Bucket → List Bucket
not_due now [] = []
not_due now (b ∷ bs) = let rest = not_due now bs in if ltb now b.when then b ∷ rest else rest

-- In a schedule in the order of time, all buckets after one that is not due are not due.
not_due_after : (now lo : ℕ) (bs : List Bucket) → now ≤ lo → InOrder lo bs → not_due now bs ≡ bs
unfolding not_due
not_due_after now lo [] h o = refl
not_due_after now lo (b ∷ bs) h (l, o) =
    let late : ltb now b.when ≡ true = ground arith in
    rw late (ap (λ q. b ∷ q) (not_due_after now b.when bs (omega arith) o))

from_now-not_due :
    (now lo : ℕ) (bs : List Bucket) → InOrder lo bs → from_now now bs ≡ not_due now bs
unfolding from_now not_due
from_now-not_due now lo [] o = refl
from_now-not_due now lo (b ∷ bs) (l, o) = elim (Bool-cases (ltb now b.when)) [
  | inl e ↦ rw e (ap (λ q. b ∷ q) (sym (not_due_after now b.when bs (ground (arith, e)) o)))
  | inr e ↦ rw e (from_now-not_due now b.when bs o)
]

waiting_of-due :
    (e : Job) (now : ℕ) (bs : List Bucket)
    → waiting_of e (due now bs) + waiting_of e (not_due now bs) ≡ waiting_of e bs
unfolding waiting_of due not_due
waiting_of-due e now [] = refl
waiting_of-due e now (b ∷ bs) = ground (arith, waiting_of-due e now bs)

-- A dispatch sends all that is due, each job once for each time that it stood in a bucket that is
-- due; or it ends at a due job for which the channels have no room, with that job and those after
-- it left as they were.
pub data Outcome (now : ℕ) (s v : Sched) : Type 0 where
  all_sent :
      v.schedule ≡ not_due now s.schedule
      → ((e : Job) → queued_of e v ≡ queued_of e s + waiting_of e (due now s.schedule))
      → v.work_defer ≡ s.work_defer
      → Outcome now s v
  no_room :
      (past : List Bucket) (b : Bucket) (rest : List Bucket) (sent : List Job) (d : Job)
      (ds : List Job)
      → s.schedule ≡ past ++ b ∷ rest
      → b.todo ≡ sent ++ d ∷ ds
      → v.schedule ≡ record b { todo = d ∷ ds } ∷ rest
      → ((e : Job) → queued_of e v ≡ queued_of e s + waiting_of e past + times e sent)
      → b.when ≤ now
      → ¬ HasRoom (v.job d) v
      → v.work_defer ≡ s.work_defer + 1
      → Outcome now s v

Ends-Outcome :
    (now : ℕ) (s : Sched)
    → InOrder 0 s.schedule
    → Ends now s.schedule s (dispatch now s)
    → Outcome now s (dispatch now s)
Ends-Outcome now s o (complete e f) =
    let left : (dispatch now s).schedule ≡ not_due now s.schedule =
      e ∙ from_now-not_due now 0 s.schedule o in
    all_sent left
      (λ d. omega (
        arith,
        dispatch-conserves now s d,
        ap (waiting_of d) left,
        waiting_of-due d now s.schedule,
      ))
      f
Ends-Outcome now s o (deferred past b rest sent d ds k m e l n q f) =
    no_room past b rest sent d ds k m e
      (λ j. omega (
        arith,
        dispatch-conserves now s j,
        ap (waiting_of j) e,
        ap (waiting_of j) k,
        waiting_of-split j b past rest sent (d ∷ ds) m,
      ))
      l n f

-- Where the schedule is in the order of time: a dispatch leaves in it exactly the buckets that are
-- not due, and what it adds to the workers' channels is exactly the jobs of those that are; or it
-- ends early, at a job of a due bucket for which every channel that it may use is full, having sent
-- exactly the jobs before it, and leaves that job and all after it.
pub dispatch-Outcome : (now : ℕ) (s : Sched) → InOrder 0 s.schedule → Outcome now s (dispatch now s)
dispatch-Outcome now s o = Ends-Outcome now s o (dispatch-Ends now s)
