-- ===== src/Sched/Queues.antt =====
-- Sending a job to the workers.
use argus.Prelude.{
  ℕ, ◌+◌, ◌≤◌, ◌<◌, ◌≡◌, ◌↔◌, ◌⊎◌, true, List, [], ◌∷◌, ◌++◌, arith, ◌==◌, if◌then◌else◌, length,
  length-append,
}
use argus.Sched.{Job, D, Sched, prio_express, prio_high, queuelen, exprlen, priolen, send_work}

-- The channels keep to their capacities.
pub record Fits (s : Sched) : Type 0 where
  pub work : length s.workchan ≤ queuelen
  pub express : length s.expresschan ≤ exprlen
  pub prio : length s.priochan ≤ priolen

unfoldable pub queued : Sched → ℕ
queued s = length s.workchan + length s.expresschan + length s.priochan

length-send : (l : List Job) (d : Job) → length (l ++ d ∷ []) ≡ length l + 1
length-send l d = omega (arith, length-append l (d ∷ []))

-- A channel that the job's priority lets it use has room.
abbrev pub HasRoom : D → Sched → Type 0
HasRoom x s =
    (length s.workchan < queuelen)
    ⊎ ((x.prio ≡ prio_high) ⊎ (x.prio ≡ prio_express)) × (length s.expresschan < exprlen)
    ⊎ (x.prio ≡ prio_high) × (length s.priochan < priolen)

pub send_work-queued :
    (d : Job) (s : Sched)
    → queued (send_work d s).0 ≡ (if (send_work d s).1 then 1 else 0) + queued s
unfolding send_work queued
send_work-queued d s =
    ground (arith, length-send s.workchan d, length-send s.expresschan d, length-send s.priochan d)

send_work-Fits : (d : Job) (s : Sched) → Fits s → Fits (send_work d s).0
unfolding send_work
send_work-Fits d s h =
    ground (arith, length-send s.workchan d, length-send s.expresschan d, length-send s.priochan d)

pub send_work-HasRoom : (d : Job) (s : Sched) → ((send_work d s).1 ≡ true) ↔ HasRoom (s.job d) s
unfolding send_work
send_work-HasRoom d s = (λ e. ground arith, λ r. ground arith)

-- sendWork sends a job exactly if a channel that its priority may use has room: its own or one
-- below. It keeps the channels within their capacities, and a job that is sent stands in one of
-- them, once more.
pub send_work_lem :
    (d : Job) (s : Sched)
    → Fits s
    → (((send_work d s).1 ≡ true) ↔ HasRoom (s.job d) s)
      × Fits (send_work d s).0
      × (queued (send_work d s).0 ≡ (if (send_work d s).1 then 1 else 0) + queued s)
send_work_lem d s h = (send_work-HasRoom d s, send_work-Fits d s h, send_work-queued d s)

-- How often a job stands in a list, and in the workers' channels.
unfoldable pub times : Job → List Job → ℕ
times e [] = 0
times e (d ∷ ds) = (if d == e then 1 else 0) + times e ds

unfoldable pub queued_of : Job → Sched → ℕ
unfolding times
queued_of e s = times e s.workchan + times e s.expresschan + times e s.priochan

times-send :
    (e d : Job) (l : List Job) → times e (l ++ d ∷ []) ≡ times e l + (if d == e then 1 else 0)
unfolding times
times-send e d [] = omega arith
times-send e d (c ∷ l) = omega (arith, times-send e d l)

pub send_work-queued_of :
    (e d : Job) (s : Sched)
    → queued_of e (send_work d s).0
      ≡ (if (send_work d s).1 then (if d == e then 1 else 0) else 0) + queued_of e s
unfolding send_work queued_of
send_work-queued_of e d s =
    ground
      (arith, times-send e d s.workchan, times-send e d s.expresschan, times-send e d s.priochan)
