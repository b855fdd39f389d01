-- ===== src/Notify/Active.antt =====
-- Which notifications are active.
use argus.Prelude.{
  ℕ, ◌+◌, ◌≡◌, refl, ◌∙◌, sym, inl, inr, true, false, Option, none, some, List, [], ◌∷◌, ◌++◌,
  arith, leb, ◌==◌, if◌then◌else◌, get_elem?, Bool-cases,
}
use argus.Text.{Text, codes}
use argus.Dict.{lookup, insert}
use argus.Notify.{
  Note, SendDat, N, Queue, Package, modify, log, queue_for, queued_in, add_to_queue, method_for_dst,
  stamp, send_entry, next_step, resend, maybe_queue, holds, without,
}
use argus.Notify.Ack.{ack}

-- Nothing is acked or made known.
pub record Kept (w v : Package) : Type 0 where
  pub same_byid : v.byid ≡ w.byid
  pub same_actives : v.actives ≡ w.actives
  pub same_active : (m : Note) → (v.note m).is_active ≡ (w.note m).is_active

Kept-refl : (w : Package) → Kept w w
Kept-refl w = record { same_byid = refl; same_actives = refl; same_active = λ m. refl }

Kept-then : (u v w : Package) → Kept u v → Kept v w → Kept u w
Kept-then u v w a b = record {
  same_byid = b.same_byid ∙ a.same_byid;
  same_actives = b.same_actives ∙ a.same_actives;
  same_active = λ m. b.same_active m ∙ a.same_active m;
}

pub Kept-modify :
    (n : Note) (f : N → N) (w : Package)
    → (f (w.note n)).is_active ≡ (w.note n).is_active
    → Kept w (modify n f w)
unfolding modify
Kept-modify n f w h = record {
  same_byid = refl;
  same_actives = refl;
  same_active = λ m. ground arith;
}

queued_in-Kept : (q : Option Queue) (n : Note) (d : Text) (w : Package) → Kept w (queued_in q n d w)
unfolding queued_in
queued_in-Kept none n d w = Kept-modify n _ w (unfold log in refl)
queued_in-Kept (some qd) n d w =
    let u : Package = record w {
      dst_queue = insert d (record qd { notif = qd.notif ++ n ∷ [] }) w.dst_queue;
    } in
    let k =
      Kept-modify n
        (λ x.
          log d (codes "queued") w.now (record x { status = insert d (codes "queued") x.status }))
        u (unfold log in refl) in
    record { same_byid = k.same_byid; same_actives = k.same_actives; same_active = k.same_active }

add_to_queue-Kept : (n : Note) (ds : List Text) (w : Package) → Kept w (add_to_queue n ds w)
unfolding add_to_queue
add_to_queue-Kept n [] w = Kept-refl w
add_to_queue-Kept n (d ∷ ds) w =
    Kept-then w _ _
      (queued_in-Kept (queue_for (lookup d w.dst_queue) (method_for_dst d w.methods)) n d w)
      (add_to_queue-Kept n ds _)

send_entry-Kept : (n : Note) (i : ℕ) (s : SendDat) (w : Package) → Kept w (send_entry n i s w)
unfolding send_entry
send_entry-Kept n i s w =
    Kept-then w _ _ (Kept-modify n (λ x. record x { send_to = stamp i w.now x.send_to }) w refl)
      (add_to_queue-Kept n s.dst _)

next_step-Kept : (n : Note) (s : Option SendDat) (w : Package) → Kept w (next_step n s w)
unfolding next_step
next_step-Kept n none w = Kept-refl w
next_step-Kept n (some s) w = elim (Bool-cases (leb (s.when + (w.note n).created) w.now)) [
  | inl due ↦ rw due (
      Kept-then w _ _ (send_entry-Kept n (w.note n).step_no s w)
        (Kept-modify n _ (send_entry n (w.note n).step_no s w) refl))
  | inr later ↦ rw later (Kept-refl w)
]

resend-Kept : (n : Note) (i : ℕ) (ss : List SendDat) (w : Package) → Kept w (resend n i ss w)
unfolding resend
resend-Kept n i [] w = Kept-refl w
resend-Kept n i (s ∷ ss) w = elim (Bool-cases (leb (w.note n).step_no i)) [
  | inl e ↦ rw e (Kept-refl w)
  | inr e ↦ rw e (elim (Bool-cases (s.last == 0)) [
    | inl z ↦ rw z (resend-Kept n (i + 1) ss w)
    | inr z ↦ rw z (elim (Bool-cases (leb (s.last + (w.note n).cf.renotify) w.now)) [
      | inl due ↦ rw due (
          Kept-then w _ _ (send_entry-Kept n i s w) (resend-Kept n (i + 1) ss (send_entry n i s w)))
      | inr later ↦ rw later (resend-Kept n (i + 1) ss w)
    ])
  ])
]

pub maybe_queue-Kept : (n : Note) (w : Package) → Kept w (maybe_queue n w)
unfolding maybe_queue
maybe_queue-Kept n w = elim (Bool-cases (w.note n).is_active) [
  | inr e ↦ rw e (Kept-refl w)
  | inl e ↦
      let s = get_elem? (w.note n).send_to (w.note n).step_no in
      let w' = next_step n s w in
      elim (Bool-cases ((w.note n).cf.renotify == 0)) [
        | inl z ↦ rw (e, z) (next_step-Kept n s w)
        | inr z ↦
            rw (e, z)
              (Kept-then w w' _ (next_step-Kept n s w) (resend-Kept n 0 (w'.note n).send_to w'))
      ]
]

-- What is known and active stands in the table of the active ones, and only that.
pub record IsListed (w : Package) : Type 0 where
  pub active : (n : Note) → holds n w.actives ≡ true → (w.note n).is_active ≡ true
  pub listed :
      (n : Note) → holds n w.byid ≡ true → (w.note n).is_active ≡ true → holds n w.actives ≡ true

pub Kept-IsListed : (w v : Package) → Kept w v → IsListed w → IsListed v
Kept-IsListed w v k h = record {
  active = λ n a. k.same_active n ∙ h.active n (rw k.same_actives at a);
  listed =
      λ n a b. rw k.same_actives (h.listed n (rw k.same_byid at a) (sym (k.same_active n) ∙ b));
}

pub holds-without :
    (e n : Note) (l : List Note) → holds e (without n l) ≡ (if n == e then false else holds e l)
holds-without e n [] = ground arith
holds-without e n (x ∷ xs) = ground (arith, holds-without e n xs)

pub active-ack :
    (who : Text) (n m : Note) (w : Package)
    → ((ack who n w).note m).is_active ≡ (if n == m then false else (w.note m).is_active)
unfolding ack modify log
active-ack who n m w = ground arith

actives-ack : (who : Text) (n : Note) (w : Package) → (ack who n w).actives ≡ without n w.actives
unfolding ack modify
actives-ack who n w = refl

byid-ack : (who : Text) (n : Note) (w : Package) → (ack who n w).byid ≡ w.byid
unfolding ack modify
byid-ack who n w = refl

pub ack-IsListed : (who : Text) (n : Note) (w : Package) → IsListed w → IsListed (ack who n w)
ack-IsListed who n w h = record {
  active = λ m a.
      let b : holds m (without n w.actives) ≡ true = rw (actives-ack who n w) at a in
      ground (arith, active-ack who n m w, holds-without m n w.actives, h.active m);
  listed = λ m a b.
      let a' : holds m w.byid ≡ true = rw (byid-ack who n w) at a in
      rw (actives-ack who n w)
        (ground (arith, active-ack who n m w, holds-without m n w.actives, h.listed m a'));
}
