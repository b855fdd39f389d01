-- ===== src/Notify/Listed.antt =====
-- The table of the active notifications through every step of the package.
use argus.Prelude.{
  ℕ, ◌+◌, ◌≡◌, refl, inl, inr, false, ◌&&◌, Option, none, some, List, [], ◌∷◌, arith, ltb, ◌==◌,
  if◌then◌else◌, length, Bool-cases,
}
use argus.Text.{Text, codes}
use argus.Dict.{lookup}
use argus.Status.{Status, critical}
use argus.Schedule.{LocalTime}
use argus.Notify.{Note, Conf, Queue, Package, modify, log, update, update_status, holds}
use argus.Notify.Ack.{ack, maybe_ack, maybe_auto_ack}
use argus.Notify.Active.{
  Kept, Kept-modify, maybe_queue-Kept, IsListed, Kept-IsListed, ack-IsListed, holds-without,
}
use argus.Notify.Worker.{
  discard, status_change, work, active_only, transmit, mark_sent, send_queue, after_sent, run_queue,
  run_queues, keep_up, discard_old, notif_maintenance, new, determine_send_to,
}

maybe_ack-IsListed : (n : Note) (w : Package) → IsListed w → IsListed (maybe_ack n w)
unfolding maybe_ack
maybe_ack-IsListed n w h = ground (arith, ack-IsListed (codes "auto") n w h)

maybe_auto_ack-IsListed : (n : Note) (w : Package) → IsListed w → IsListed (maybe_auto_ack n w)
unfolding maybe_auto_ack
maybe_auto_ack-IsListed n w h = ground (arith, ack-IsListed (codes "auto") n w h)

registered-IsListed :
    (n : Note) (w : Package)
    → IsListed w
    → IsListed (record w {
      byid = n ∷ w.byid;
      actives =
          if (w.note n).is_active
          then (if holds n w.actives then w.actives else n ∷ w.actives)
          else w.actives;
    })
registered-IsListed n w h = record {
  active = λ m a. ground (arith, h.active m);
  listed = λ m a b. ground (arith, h.listed m);
}

work-IsListed : (n : Note) (w : Package) → IsListed w → IsListed (work n w)
unfolding work status_change
work-IsListed n w h = elim (Bool-cases (holds n w.byid)) [
  | inl old ↦ elim (Bool-cases (w.note n).is_active) [
    | inl a ↦ rw (old, a) (maybe_ack-IsListed n w h)
    | inr a ↦ rw (old, a) h
  ]
  | inr fresh ↦ rw fresh (Kept-IsListed _ _ (maybe_queue-Kept n _) (registered-IsListed n w h))
]

pub mark_sent-Kept : (dst : Text) (n : Note) (w : Package) → Kept w (mark_sent dst n w)
unfolding mark_sent log
mark_sent-Kept dst n w = Kept-modify n _ w refl

after_sent-IsListed :
    (dst : Text) (ns : List Note) (w : Package) → IsListed w → IsListed (after_sent dst ns w)
unfolding after_sent
after_sent-IsListed dst [] w h = h
after_sent-IsListed dst (n ∷ ns) w h = after_sent-IsListed dst ns _ (
    maybe_auto_ack-IsListed n (mark_sent dst n w)
      (Kept-IsListed w (mark_sent dst n w) (mark_sent-Kept dst n w) h))

-- The queues and what was sent do not matter to it.
IsListed-queues :
    (w v : Package)
    → v.note ≡ w.note
    → v.byid ≡ w.byid
    → v.actives ≡ w.actives
    → IsListed w
    → IsListed v
IsListed-queues w v a b c h =
    Kept-IsListed w v (record { same_byid = b; same_actives = c; same_active = λ m. rw a refl }) h

run_queue-IsListed :
    (dst : Text) (q : Option Queue) (w : Package) → IsListed w → IsListed (run_queue dst q w).0
unfolding run_queue send_queue transmit
run_queue-IsListed dst none w h = h
run_queue-IsListed dst (some qd) w h = elim (Bool-cases (length qd.notif == 0)) [
  | inl e ↦ rw e h
  | inr e ↦ elim (Bool-cases (ltb w.now (qd.lastt + qd.qtime))) [
    | inl l ↦ rw (e, l) h
    | inr l ↦ elim (Bool-cases (length (active_only qd.notif w) == 0)) [
      | inl z ↦ rw (e, l, z) h
      | inr z ↦
          rw (e, l, z)
            (let ns = active_only qd.notif w in
              after_sent-IsListed dst ns (send_queue dst qd ns w)
                (IsListed-queues w (send_queue dst qd ns w) refl refl refl h))
    ]
  ]
]

run_queues-IsListed : (dsts : List Text) (w : Package) → IsListed w → IsListed (run_queues dsts w)
unfolding run_queues
run_queues-IsListed [] w h = h
run_queues-IsListed (dst ∷ dsts) w h =
    let q = lookup dst w.dst_queue in
    let k = run_queue-IsListed dst q w h in
    elim (Bool-cases (run_queue dst q w).1) [
      | inl more ↦ rw more (run_queues-IsListed dsts _ k)
      | inr end ↦ rw end k
    ]

keep_up-IsListed : (ns : List Note) (w : Package) → IsListed w → IsListed (keep_up ns w)
unfolding keep_up
keep_up-IsListed [] w h = h
keep_up-IsListed (n ∷ ns) w h =
    let x = w.note n in
    elim (Bool-cases (ltb 0 x.cf.unack_timeout && ltb (x.created + x.cf.unack_timeout) w.now)) [
      | inl t ↦ rw t (keep_up-IsListed ns _ (ack-IsListed (codes "timeout") n w h))
      | inr t ↦ rw t (keep_up-IsListed ns _ (Kept-IsListed w _ (maybe_queue-Kept n w) h))
    ]

discard-IsListed : (n : Note) (w : Package) → IsListed w → IsListed (discard n w)
unfolding discard
discard-IsListed n w h = record {
  active = λ m a. ground (arith, holds-without m n w.actives, h.active m);
  listed =
      λ m a b. ground (arith, holds-without m n w.actives, holds-without m n w.byid, h.listed m);
}

discard_old-IsListed : (ns : List Note) (w : Package) → IsListed w → IsListed (discard_old ns w)
unfolding discard_old
discard_old-IsListed [] w h = h
discard_old-IsListed (n ∷ ns) w h =
    elim (Bool-cases
      (ltb 0 w.notify_discard && ltb ((w.note n).created + w.notify_discard) w.now)) [
        | inl t ↦ rw t (discard_old-IsListed ns _ (discard-IsListed n w h))
        | inr t ↦ rw t (discard_old-IsListed ns w h)
      ]

update-IsListed : (n : Note) (st : Status) (w : Package) → IsListed w → IsListed (update n st w)
unfolding update update_status
update-IsListed n st w h = elim (Bool-cases (w.note n).is_active) [
  | inl a ↦ rw a (
      let v = modify n (λ x. record x { curr_ov = st }) w in
      IsListed-queues v _ refl refl refl (Kept-IsListed w v (Kept-modify n _ w refl) h))
  | inr a ↦ rw a h
]

-- A number that is not known yet is made active before it is known.
new-IsListed :
    (t : LocalTime) (n : Note) (cf : Conf) (st prev : Status) (w : Package)
    → holds n w.byid ≡ false
    → IsListed w
    → IsListed (new t n cf st prev w).0
unfolding new modify log
new-IsListed t n cf st prev w f h = elim (Bool-cases (ltb critical st)) [
  | inl e ↦ rw e h
  | inr e ↦ elim (Bool-cases (length (determine_send_to t cf st) == 0)) [
    | inl z ↦ rw (e, z) h
    | inr z ↦
        rw (e, z)
          (record {
            active = λ m a. ground (arith, h.active m);
            listed = λ m a b. ground (arith, h.listed m);
          })
  ]
]

-- What happens in the package: the calls from the elements, the worker's cases, an acknowledgement
-- by a user, and time.
pub data Step : Package → Package → Type 0 where
  created :
      {w : Package} (t : LocalTime) (n : Note) (cf : Conf) (st prev : Status)
      → holds n w.byid ≡ false
      → Step w (new t n cf st prev w).0
  updated : {w : Package} (n : Note) (st : Status) → Step w (update n st w)
  received :
      {w : Package} (n : Note) (rest : List Note)
      → w.notechan ≡ n ∷ rest
      → Step w (work n (record w { notechan = rest }))
  queues : {w : Package} (order : List Text) → Step w (run_queues order w)
  maintained : {w : Package} → Step w (notif_maintenance w)
  acked : {w : Package} (who : Text) (n : Note) → Step w (ack who n w)
  tick : {w : Package} (now : ℕ) → Step w (record w { now = now })

pub data Reach (w : Package) : Package → Type 0 where
  here : Reach w w
  next : {u v : Package} → Reach w u → Step u v → Reach w v

Step-IsListed : {w v : Package} → Step w v → IsListed w → IsListed v
unfolding notif_maintenance
Step-IsListed {w} (created t n cf st prev f) h = new-IsListed t n cf st prev w f h
Step-IsListed {w} (updated n st) h = update-IsListed n st w h
Step-IsListed {w} (received n rest e) h = work-IsListed n _ (IsListed-queues w _ refl refl refl h)
Step-IsListed {w} (queues order) h = run_queues-IsListed order w h
Step-IsListed {w} maintained h =
    discard_old-IsListed (keep_up w.actives w).byid _ (keep_up-IsListed w.actives w h)
Step-IsListed {w} (acked who n) h = ack-IsListed who n w h
Step-IsListed {w} (tick now) h = IsListed-queues w _ refl refl refl h

-- Whatever the elements, the worker, users and the clock do, in any order, the table of the active
-- notifications holds only active ones, and every active one that is known.
pub Reach-IsListed : {w v : Package} → IsListed w → Reach w v → IsListed v
Reach-IsListed h here = h
Reach-IsListed h (next r s) = Step-IsListed s (Reach-IsListed h r)
