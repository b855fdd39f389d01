-- ===== src/Notify/Lost.antt =====
-- Where a pass over the queues sends less than is queued.
use argus.Prelude.{
  ◌+◌, ◌≤◌, ◌≡◌, ◌≢◌, refl, ◌∙◌, true, false, some, List, [], ◌∷◌, arith, ltb, ◌==◌, length,
}
use argus.Text.{Text, codes}
use argus.Dict.{lookup, insert}
use argus.Notify.{Note, Queue, Package, modify, log}
use argus.Notify.Ack.{maybe_auto_ack, for_status}
use argus.Notify.Active.{active-ack}
use argus.Notify.Worker.{
  active_only, transmit, mark_sent, after_sent, send_queue, run_queue, run_queues,
}
use argus.Notify.Sending.{
  times, sent_times, sent_times-transmit, sent-after_sent, run_queues-inactive,
}

-- A queue whose time has come.
pub record Ready (dst : Text) (qd : Queue) (w : Package) : Type 0 where
  pub found : lookup dst w.dst_queue ≡ some qd
  pub due : qd.lastt + qd.qtime ≤ w.now

run_queue-sends :
    (dst : Text) (qd : Queue) (n : Note) (w : Package)
    → qd.notif ≡ n ∷ []
    → qd.lastt + qd.qtime ≤ w.now
    → (w.note n).is_active ≡ true
    → run_queue dst (some qd) w ≡ (after_sent dst (n ∷ []) (send_queue dst qd (n ∷ []) w), true)
unfolding run_queue active_only
run_queue-sends dst qd n w e d a =
    let l : ltb w.now (qd.lastt + qd.qtime) ≡ false = ground arith in rw (e, l, a) refl

active-maybe_auto_ack :
    (n : Note) (w : Package)
    → for_status (w.note n).cf.auto_ack (w.note n).ov_status ≡ true
    → ((maybe_auto_ack n w).note n).is_active ≡ false
unfolding maybe_auto_ack
active-maybe_auto_ack n w h = rw h (ground (arith, active-ack (codes "auto") n n w))

-- What auto_ack reads of a notification is not changed by sending it.
auto-mark_sent :
    (dst : Text) (n : Note) (w : Package)
    → for_status ((mark_sent dst n w).note n).cf.auto_ack ((mark_sent dst n w).note n).ov_status
      ≡ for_status (w.note n).cf.auto_ack (w.note n).ov_status
unfolding mark_sent modify log
auto-mark_sent dst n w = let t : (n == n) ≡ true = ground arith in rw t refl

inactive-sent :
    (dst : Text) (n : Note) (w : Package)
    → for_status (w.note n).cf.auto_ack (w.note n).ov_status ≡ true
    → ((after_sent dst (n ∷ []) w).note n).is_active ≡ false
unfolding after_sent
inactive-sent dst n w h = active-maybe_auto_ack n (mark_sent dst n w) (auto-mark_sent dst n w ∙ h)

sent_once :
    (dst : Text) (qd : Queue) (n : Note) (w : Package)
    → sent_times n (after_sent dst (n ∷ []) (send_queue dst qd (n ∷ []) w)).sent
      ≡ sent_times n w.sent + 1
unfolding send_queue
sent_once dst qd n w =
    let u : Package = record w {
      dst_queue = insert dst (record qd { notif = []; lastt = w.now }) w.dst_queue;
    } in
    let one : times n (n ∷ []) ≡ 1 = unfold times in ground arith in
    rw (sent-after_sent dst (n ∷ []) (transmit dst qd.qtime (n ∷ []) u))
      (omega (arith, sent_times-transmit n dst qd.qtime (n ∷ []) u, one))

note-send_queue :
    (dst : Text) (qd : Queue) (ns : List Note) (w : Package)
    → (send_queue dst qd ns w).note ≡ w.note
unfolding send_queue transmit
note-send_queue dst qd ns w = refl

-- A notification that is acked once it is sent is sent to one destination only: where the first
-- queue that is due holds just this one, active, a pass sends it once, whatever other queues it
-- stands in, and leaves it inactive.
pub run_queues-auto_ack :
    (dst : Text) (dsts : List Text) (qd : Queue) (n : Note) (w : Package)
    → Ready dst qd w
    → qd.notif ≡ n ∷ []
    → (w.note n).is_active ≡ true
    → for_status (w.note n).cf.auto_ack (w.note n).ov_status ≡ true
    → (((run_queues (dst ∷ dsts) w).note n).is_active ≡ false)
      × (sent_times n (run_queues (dst ∷ dsts) w).sent ≡ sent_times n w.sent + 1)
unfolding run_queues
run_queues-auto_ack dst dsts qd n w r e a h =
    let u = send_queue dst qd (n ∷ []) w in
    let v = after_sent dst (n ∷ []) u in
    let auto : for_status (u.note n).cf.auto_ack (u.note n).ov_status ≡ true =
      rw (note-send_queue dst qd (n ∷ []) w) h in
    let inactive : (v.note n).is_active ≡ false = inactive-sent dst n u auto in
    let sent : sent_times n v.sent ≡ sent_times n w.sent + 1 = sent_once dst qd n w in
    let rest = run_queues-inactive n dsts v inactive in
    rw (r.found) (rw (run_queue-sends dst qd n w e r.due a) (rest.0, rest.1 ∙ sent))

-- Where a queue that is due holds only notifications that are not active any more, the pass ends
-- there: nothing changes, whatever is queued for the destinations after it.
pub run_queues_stalled :
    (dst : Text) (dsts : List Text) (qd : Queue) (w : Package)
    → Ready dst qd w
    → qd.notif ≢ []
    → active_only qd.notif w ≡ []
    → run_queues (dst ∷ dsts) w ≡ w
unfolding run_queues run_queue
run_queues_stalled dst dsts qd w r n e =
    let l : ltb w.now (qd.lastt + qd.qtime) ≡ false = ground (arith, r.due) in
    let some_queued : (length qd.notif == 0) ≡ false = ground (arith, n) in
    rw (r.found) (rw (some_queued, l, e) refl)
