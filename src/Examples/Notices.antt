-- ===== src/Examples/Notices.antt =====
-- The recovery of a service with two people to tell: the theorems on notifications at concrete
-- inputs.
use argus.Prelude.{◌≡◌, ◌≢◌, refl, Bool, true, false, none, List, [], ◌∷◌, arith, ◌==◌, replicate}
use argus.Text.{Text, codes}
use argus.Dict.{lookup}
use argus.Status.{clear, major}
use argus.Notify.{Note, Conf, N, Package}
use argus.Notify.Ack.{ack}
use argus.Notify.Active.{IsListed}
use argus.Notify.Worker.{run_queues, active_only}
use argus.Notify.Listed.{Reach-IsListed, here, next, acked, queues}
use argus.Notify.Sending.{sent_times, run_queues-inactive}
use argus.Notify.Lost.{Ready}

abbrev people : List Text
people = codes "ann" ∷ codes "bob" ∷ []

-- A recovery acks itself, as by default.
abbrev conf : Conf
conf = record {
  notify = replicate 6 none;
  notify_also = codes "ann bob";
  unack_timeout = 86400;
  renotify = 300;
  auto_ack = false ∷ true ∷ replicate 4 false;
  ack_on_up = replicate 6 false;
  ack_on_better = replicate 6 false;
  ack_on_worse = true ∷ replicate 5 false;
  escalate = replicate 6 [];
}

abbrev recovery : Bool → N
recovery active = record {
  cf = conf;
  created = 1000;
  last_sent = 0;
  is_active = active;
  step_no = 1;
  escalated = false;
  ov_status = clear;
  prev_ov = major;
  curr_ov = clear;
  status = [];
  send_to = record { when = 0; last = 1000; dst = people } ∷ [];
  log = [];
}

-- Notification 7 is queued for both; 8 was acked.
abbrev notices : Note → Package
notices queued = record {
  note = λ n. recovery (n == 7);
  byid = 7 ∷ 8 ∷ [];
  actives = 7 ∷ [];
  dst_queue =
      (codes "ann", record { addr = codes "ann"; qtime = 300; lastt = 0; notif = queued ∷ [] })
      ∷ (codes "bob", record { addr = codes "bob"; qtime = 300; lastt = 0; notif = 7 ∷ [] })
      ∷ [];
  notechan = [];
  methods = [];
  notify_discard = 2592000;
  now = 2000;
  sent = [];
  removed = [];
}

notices-IsListed : IsListed (notices 7)
notices-IsListed = record { active = λ n a. ground arith; listed = λ n a b. ground arith }

Reach-IsListed_example : IsListed (ack (codes "ann") 7 (run_queues people (notices 7)))
Reach-IsListed_example =
    Reach-IsListed notices-IsListed (next (next here (queues people)) (acked (codes "ann") 7))

run_queues-inactive_example :
    (((run_queues people (notices 8)).note 8).is_active ≡ false)
    × (sent_times 8 (run_queues people (notices 8)).sent ≡ sent_times 8 (notices 8).sent)
run_queues-inactive_example = run_queues-inactive 8 people (notices 8) refl

notices-Ready :
    (queued : Note)
    → Ready
        (codes "ann")
        (record { addr = codes "ann"; qtime = 300; lastt = 0; notif = queued ∷ [] })
        (notices queued)
unfolding lookup
notices-Ready queued = record { found = refl; due = omega arith }

none_active : active_only (8 ∷ []) (notices 8) ≡ []
unfolding active_only
none_active = refl

abbrev one_note : List Note
one_note = 8 ∷ []

some_queued : one_note ≢ []
some_queued h = ground arith
