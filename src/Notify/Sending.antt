-- ===== src/Notify/Sending.antt =====
-- What a pass over the queues sends.
use argus.Prelude.{
  ℕ, ◌+◌, ◌≡◌, refl, ◌∙◌, inl, inr, false, Option, none, some, List, [], ◌∷◌, ◌++◌, arith, ltb,
  ◌==◌, if◌then◌else◌, length, Bool-cases,
}
use argus.Text.{Text, codes}
use argus.Dict.{lookup, insert}
use argus.Notify.{Note, Queue, Package, modify}
use argus.Notify.Ack.{ack, maybe_auto_ack}
use argus.Notify.Active.{active-ack}
use argus.Notify.Worker.{
  active_only, transmit, one_by_one, mark_sent, after_sent, send_queue, run_queue, run_queues,
}
use argus.Notify.Listed.{mark_sent-Kept}

-- How often a notification stands in a list, and in what was sent.
unfoldable pub times : Note → List Note → ℕ
times n [] = 0
times n (m ∷ ms) = (if m == n then 1 else 0) + times n ms

unfoldable pub sent_times : Note → List (Text × List Note) → ℕ
sent_times n [] = 0
sent_times n ((dst, ns) ∷ ts) = times n ns + sent_times n ts

sent_times-append :
    (n : Note) (a b : List (Text × List Note))
    → sent_times n (a ++ b) ≡ sent_times n a + sent_times n b
unfolding sent_times
sent_times-append n [] b = omega arith
sent_times-append n ((dst, ns) ∷ a) b = omega (arith, sent_times-append n a b)

sent_times-one_by_one :
    (n : Note) (dst : Text) (ns : List Note) → sent_times n (one_by_one dst ns) ≡ times n ns
unfolding sent_times times one_by_one
sent_times-one_by_one n dst [] = refl
sent_times-one_by_one n dst (m ∷ ms) = omega (arith, sent_times-one_by_one n dst ms)

pub sent_times-transmit :
    (n : Note) (dst : Text) (qtime : ℕ) (ns : List Note) (w : Package)
    → sent_times n (transmit dst qtime ns w).sent ≡ sent_times n w.sent + times n ns
unfolding transmit sent_times
sent_times-transmit n dst qtime ns w = elim (Bool-cases (qtime == 0)) [
  | inl z ↦ rw z (
      omega (arith, sent_times-append n w.sent (one_by_one dst ns), sent_times-one_by_one n dst ns))
  | inr z ↦ rw z (let e = sent_times-append n w.sent ((dst, ns) ∷ []) in omega (arith, e))
]

times-active_only :
    (n : Note) (ns : List Note) (w : Package)
    → times n (active_only ns w) ≡ (if (w.note n).is_active then times n ns else 0)
unfolding times active_only
times-active_only n [] w = ground arith
times-active_only n (m ∷ ms) w = ground (arith, times-active_only n ms w)

times-inactive :
    (n : Note) (ns : List Note) (w : Package)
    → (w.note n).is_active ≡ false
    → times n (active_only ns w) ≡ 0
times-inactive n ns w h = ground (arith, times-active_only n ns w)

sent-maybe_auto_ack : (n : Note) (w : Package) → (maybe_auto_ack n w).sent ≡ w.sent
unfolding maybe_auto_ack ack modify
sent-maybe_auto_ack n w = ground arith

pub sent-after_sent :
    (dst : Text) (ns : List Note) (w : Package) → (after_sent dst ns w).sent ≡ w.sent
unfolding after_sent mark_sent modify
sent-after_sent dst [] w = refl
sent-after_sent dst (n ∷ ns) w =
    sent-after_sent dst ns _ ∙ sent-maybe_auto_ack n (mark_sent dst n w)

inactive-maybe_auto_ack :
    (n m : Note) (w : Package)
    → (w.note m).is_active ≡ false
    → ((maybe_auto_ack n w).note m).is_active ≡ false
unfolding maybe_auto_ack
inactive-maybe_auto_ack n m w h = ground (arith, active-ack (codes "auto") n m w)

inactive-after_sent :
    (dst : Text) (ns : List Note) (m : Note) (w : Package)
    → (w.note m).is_active ≡ false
    → ((after_sent dst ns w).note m).is_active ≡ false
unfolding after_sent
inactive-after_sent dst [] m w h = h
inactive-after_sent dst (n ∷ ns) m w h =
    let u = mark_sent dst n w in
    inactive-after_sent dst ns m (maybe_auto_ack n u)
      (inactive-maybe_auto_ack n m u ((mark_sent-Kept dst n w).same_active m ∙ h))

-- What one destination may do to a notification that is not active: nothing is sent of it.
record Silent (n : Note) (w v : Package) : Type 0 where
  inactive : (v.note n).is_active ≡ false
  not_sent : sent_times n v.sent ≡ sent_times n w.sent

run_queue-Silent :
    (n : Note) (dst : Text) (q : Option Queue) (w : Package)
    → (w.note n).is_active ≡ false
    → Silent n w (run_queue dst q w).0
unfolding run_queue send_queue
run_queue-Silent n dst none w h = record { inactive = h; not_sent = refl }
run_queue-Silent n dst (some qd) w h = elim (Bool-cases (length qd.notif == 0)) [
  | inl e ↦ rw e (record { inactive = h; not_sent = refl })
  | inr e ↦ elim (Bool-cases (ltb w.now (qd.lastt + qd.qtime))) [
    | inl l ↦ rw (e, l) (record { inactive = h; not_sent = refl })
    | inr l ↦ elim (Bool-cases (length (active_only qd.notif w) == 0)) [
      | inl z ↦ rw (e, l, z) (record { inactive = h; not_sent = refl })
      | inr z ↦
          let ns = active_only qd.notif w in
          let u : Package = record w {
            dst_queue = insert dst (record qd { notif = []; lastt = w.now }) w.dst_queue;
          } in
          rw (e, l, z)
            (record {
              inactive =
                  inactive-after_sent dst ns n (transmit dst qd.qtime ns u) (unfold transmit in h);
              not_sent =
                  let same : sent_times n (after_sent dst ns (transmit dst qd.qtime ns u)).sent
                      ≡ sent_times n (transmit dst qd.qtime ns u).sent =
                    rw (sent-after_sent dst ns (transmit dst qd.qtime ns u)) refl in
                  let none_sent : times n ns ≡ 0 = times-inactive n qd.notif w h in
                  omega (arith, same, sent_times-transmit n dst qd.qtime ns u, none_sent);
            })
    ]
  ]
]

-- A notification that is acked, or was never active, is not sent by a pass over the queues, in
-- whatever order, and stays so.
pub run_queues-inactive :
    (n : Note) (order : List Text) (w : Package)
    → (w.note n).is_active ≡ false
    → (((run_queues order w).note n).is_active ≡ false)
      × (sent_times n (run_queues order w).sent ≡ sent_times n w.sent)
unfolding run_queues
run_queues-inactive n [] w h = (h, refl)
run_queues-inactive n (dst ∷ dsts) w h =
    let q = lookup dst w.dst_queue in
    let s = run_queue-Silent n dst q w h in
    elim (Bool-cases (run_queue dst q w).1) [
      | inl more ↦ rw more (
          let r = run_queues-inactive n dsts (run_queue dst q w).0 s.inactive in
          (r.0, r.1 ∙ s.not_sent))
      | inr end ↦ rw end (s.inactive, s.not_sent)
    ]
