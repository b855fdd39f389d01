-- ===== src/Notify/Entry.antt =====
-- What the sending of one entry changes.
use argus.Prelude.{
  ℕ, zero, suc, ◌≡◌, refl, ◌∙◌, true, Option, none, some, List, [], ◌∷◌, arith, ◌==◌, if◌then◌else◌,
  get_elem?,
}
use argus.Text.{Text}
use argus.Dict.{lookup}
use argus.Notify.{
  Note, SendDat, Queue, Package, modify, log, queue_for, queued_in, add_to_queue, method_for_dst,
  stamp, send_entry,
}

module _ (n : Note) where
  -- What the queueing of a notification leaves as it is.
  pub record Same (w v : Package) : Type 0 where
    pub send_to : (v.note n).send_to ≡ (w.note n).send_to
    pub step_no : (v.note n).step_no ≡ (w.note n).step_no
    pub cf : (v.note n).cf ≡ (w.note n).cf
    pub now : v.now ≡ w.now

  Same-then : (u v w : Package) → Same u v → Same v w → Same u w
  Same-then u v w a b = record {
    send_to = b.send_to ∙ a.send_to;
    step_no = b.step_no ∙ a.step_no;
    cf = b.cf ∙ a.cf;
    now = b.now ∙ a.now;
  }

  queued_in-Same : (q : Option Queue) (d : Text) (w : Package) → Same w (queued_in q n d w)
  unfolding queued_in modify log
  queued_in-Same none d w =
      let t : (n == n) ≡ true = ground arith in
      record { send_to = rw t refl; step_no = rw t refl; cf = rw t refl; now = refl }
  queued_in-Same (some qd) d w =
      let t : (n == n) ≡ true = ground arith in
      record { send_to = rw t refl; step_no = rw t refl; cf = rw t refl; now = refl }

  add_to_queue-Same : (ds : List Text) (w : Package) → Same w (add_to_queue n ds w)
  unfolding add_to_queue
  add_to_queue-Same [] w = record { send_to = refl; step_no = refl; cf = refl; now = refl }
  add_to_queue-Same (d ∷ ds) w =
      Same-then w _ _
        (queued_in-Same (queue_for (lookup d w.dst_queue) (method_for_dst d w.methods)) d w)
        (add_to_queue-Same ds _)

  -- One entry is sent.
  pub record Stamped (i : ℕ) (w v : Package) : Type 0 where
    pub send_to : (v.note n).send_to ≡ stamp i w.now (w.note n).send_to
    pub step_no : (v.note n).step_no ≡ (w.note n).step_no
    pub cf : (v.note n).cf ≡ (w.note n).cf
    pub now : v.now ≡ w.now

  pub send_entry-Stamped : (i : ℕ) (s : SendDat) (w : Package) → Stamped i w (send_entry n i s w)
  unfolding send_entry modify
  send_entry-Stamped i s w =
      let t : (n == n) ≡ true = ground arith in
      let k =
        add_to_queue-Same s.dst
          (modify n (λ x. record x { send_to = stamp i w.now x.send_to }) w) in
      record {
        send_to = k.send_to ∙ rw t refl;
        step_no = k.step_no ∙ rw t refl;
        cf = k.cf ∙ rw t refl;
        now = k.now;
      }

pub get_elem?-stamp :
    (i j now : ℕ) (l : List SendDat)
    → get_elem? (stamp i now l) j ≡ (if i == j then get_elem? (stamp i now l) i else get_elem? l j)
unfolding stamp
get_elem?-stamp i j now [] = ground arith
get_elem?-stamp zero zero now (s ∷ ss) = refl
get_elem?-stamp zero (suc j) now (s ∷ ss) = ground arith
get_elem?-stamp (suc i) zero now (s ∷ ss) = ground arith
get_elem?-stamp (suc i) (suc j) now (s ∷ ss) = ground (arith, get_elem?-stamp i j now ss)

pub last-stamp :
    (i now : ℕ) (l : List SendDat) (s : SendDat)
    → get_elem? (stamp i now l) i ≡ some s
    → s.last ≡ now
unfolding stamp
last-stamp i now [] s h = ground arith
last-stamp zero now (x ∷ xs) s h = ground arith
last-stamp (suc i) now (x ∷ xs) s h = last-stamp i now xs s h
