-- ===== src/Notify/Told.antt =====
-- Whom the loop of maybeQueue of argus/notify/queues.go queues a notification for.
use argus.Prelude.{
  ℕ, zero, suc, ◌+◌, ◌≤◌, ◌<◌, ◌≡◌, ◌≢◌, refl, inl, inr, Bool, true, false, Option, none, some,
  List, [], ◌∷◌, ◌++◌, arith, leb, ◌==◌, get_elem?, Bool-cases,
}
use mathlib.Core.Path.{subst}
use argus.Text.{Text, text_eq, text_eq_iff}
use argus.Dict.{lookup, lookup-insert}
use argus.Notify.{
  Note, SendDat, Queue, Package, holds, modify, queue_for, queued_in, add_to_queue, method_for_dst,
  stamp, send_entry, resend,
}
use argus.Notify.Entry.{send_entry-Stamped}

abbrev has : {A : Type 0} → Option A → Bool
has none = false
has (some x) = true

abbrev queue_holds : Note → Option Queue → Bool
queue_holds n none = false
queue_holds n (some q) = holds n q.notif

-- A destination has a queue, or a method to make one from.
unfoldable pub is_known : Text → Package → Bool
is_known d w = has (queue_for (lookup d w.dst_queue) (method_for_dst d w.methods))

module _ (n : Note) where
  -- The notification stands in the destination's queue.
  unfoldable pub is_told : Text → Package → Bool
  is_told d w = queue_holds n (lookup d w.dst_queue)

  -- Whoever is known stays so, and whoever is told.
  pub record More (w v : Package) : Type 0 where
    pub known : (d : Text) → is_known d w ≡ true → is_known d v ≡ true
    pub told : (d : Text) → is_told d w ≡ true → is_told d v ≡ true

  More-refl : (w : Package) → More w w
  More-refl w = record { known = λ d k. k; told = λ d k. k }

  More-then : (u v w : Package) → More u v → More v w → More u w
  More-then u v w a b = record {
    known = λ d k. b.known d (a.known d k);
    told = λ d k. b.told d (a.told d k);
  }

  holds-append : (l : List Note) → holds n (l ++ n ∷ []) ≡ true
  holds-append [] = ground arith
  holds-append (m ∷ l) = ground (arith, holds-append l)

  -- One destination is queued for.
  queued_in-told :
      (qd : Queue) (d : Text) (w : Package) → is_told d (queued_in (some qd) n d w) ≡ true
  unfolding queued_in is_told modify
  queued_in-told qd d w =
      let same : text_eq d d ≡ true = (text_eq_iff d d).1 refl in
      rw (lookup-insert d d (record qd { notif = qd.notif ++ n ∷ [] }) w.dst_queue, same)
        (holds-append qd.notif)

  queued_in-More : (q : Option Queue) (d : Text) (w : Package) → More w (queued_in q n d w)
  unfolding queued_in modify is_told is_known queue_for
  queued_in-More none d w = record { known = λ e k. k; told = λ e k. k }
  queued_in-More (some qd) d w =
      let kept = record qd { notif = qd.notif ++ n ∷ [] } in
      record {
        known = λ e k. elim (Bool-cases (text_eq d e)) [
          | inl s ↦ rw (lookup-insert d e kept w.dst_queue, s) refl
          | inr s ↦ rw (lookup-insert d e kept w.dst_queue, s) k
        ];
        told = λ e k. elim (Bool-cases (text_eq d e)) [
          | inl s ↦ rw (lookup-insert d e kept w.dst_queue, s) (holds-append qd.notif)
          | inr s ↦ rw (lookup-insert d e kept w.dst_queue, s) k
        ];
      }

  add_to_queue-More : (ds : List Text) (w : Package) → More w (add_to_queue n ds w)
  unfolding add_to_queue
  add_to_queue-More [] w = More-refl w
  add_to_queue-More (d ∷ ds) w =
      let q = queue_for (lookup d w.dst_queue) (method_for_dst d w.methods) in
      More-then w (queued_in q n d w) _ (queued_in-More q d w)
        (add_to_queue-More ds (queued_in q n d w))

  queued_for-told :
      (o : Option Queue) (d : Text) (w : Package)
      → has o ≡ true
      → is_told d (queued_in o n d w) ≡ true
  queued_for-told none d w k = ground arith
  queued_for-told (some qd) d w k = queued_in-told qd d w

  -- All destinations that are known are queued for.
  add_to_queue-told :
      (ds : List Text) (w : Package) (i : ℕ) (d : Text)
      → get_elem? ds i ≡ some d
      → is_known d w ≡ true
      → is_told d (add_to_queue n ds w) ≡ true
  unfolding add_to_queue is_known
  add_to_queue-told [] w i d e k = ground arith
  add_to_queue-told (c ∷ ds) w zero d e k =
      let q = queue_for (lookup c w.dst_queue) (method_for_dst c w.methods) in
      let same : c ≡ d = ground (arith, e) in
      let there : is_known c w ≡ true = rw same k in
      let now_told : is_told c (queued_in q n c w) ≡ true = queued_for-told q c w there in
      let after : is_told c (add_to_queue n ds (queued_in q n c w)) ≡ true =
        (add_to_queue-More ds (queued_in q n c w)).told c now_told in
      subst (λ x. is_told x (add_to_queue n ds (queued_in q n c w)) ≡ true) same after
  add_to_queue-told (c ∷ ds) w (suc i) d e k =
      let q = queue_for (lookup c w.dst_queue) (method_for_dst c w.methods) in
      add_to_queue-told ds (queued_in q n c w) i d e ((queued_in-More q c w).known d k)

  pub send_entry-More : (i : ℕ) (s : SendDat) (w : Package) → More w (send_entry n i s w)
  unfolding send_entry
  send_entry-More i s w =
      let v = modify n (λ x. record x { send_to = stamp i w.now x.send_to }) w in
      let first : More w v =
        unfold modify in
        unfold is_known in unfold is_told in record { known = λ d k. k; told = λ d k. k } in
      More-then w v _ first (add_to_queue-More s.dst v)

  -- An entry that is sent is queued for all of its destinations that are known.
  pub send_entry-told :
      (i : ℕ) (s : SendDat) (w : Package) (m : ℕ) (d : Text)
      → get_elem? s.dst m ≡ some d
      → is_known d w ≡ true
      → is_told d (send_entry n i s w) ≡ true
  unfolding send_entry is_known modify
  send_entry-told i s w m d e k =
      let v = modify n (λ x. record x { send_to = stamp i w.now x.send_to }) w in
      add_to_queue-told s.dst v m d e k

  pub resend-More : (i : ℕ) (ss : List SendDat) (w : Package) → More w (resend n i ss w)
  unfolding resend
  resend-More i [] w = More-refl w
  resend-More i (s ∷ ss) w = elim (Bool-cases (leb (w.note n).step_no i)) [
    | inl a ↦ rw a (More-refl w)
    | inr a ↦ rw a (elim (Bool-cases (s.last == 0)) [
      | inl b ↦ rw b (resend-More (i + 1) ss w)
      | inr b ↦ rw b (elim (Bool-cases (leb (s.last + (w.note n).cf.renotify) w.now)) [
        | inl c ↦ rw c (
            More-then w (send_entry n i s w) _ (send_entry-More i s w)
              (resend-More (i + 1) ss (send_entry n i s w)))
        | inr c ↦ rw c (resend-More (i + 1) ss w)
      ])
    ])
  ]

  -- An entry was sent, and that is so long ago that it is to be sent again.
  pub record IsLate (s : SendDat) (w : Package) : Type 0 where
    pub was_sent : s.last ≢ 0
    pub is_late : s.last + (w.note n).cf.renotify ≤ w.now

  IsLate-sent : (i : ℕ) (s t : SendDat) (w : Package) → IsLate s w → IsLate s (send_entry n i t w)
  IsLate-sent i s t w l =
      let k = send_entry-Stamped n i t w in
      record { was_sent = l.was_sent; is_late = rw (k.cf, k.now) l.is_late }

  pub resend-told :
      (i : ℕ) (ss : List SendDat) (w : Package) (j : ℕ) (s : SendDat) (m : ℕ) (d : Text)
      → get_elem? ss j ≡ some s
      → i + j < (w.note n).step_no
      → IsLate s w
      → get_elem? s.dst m ≡ some d
      → is_known d w ≡ true
      → is_told d (resend n i ss w) ≡ true
  unfolding resend
  resend-told i [] w j s m d e l late f k = ground arith
  resend-told i (t ∷ ss) w zero s m d e l late f k =
      let same : t ≡ s = ground (arith, e) in
      let a : leb (w.note n).step_no i ≡ false = ground (arith, l) in
      let b : (t.last == 0) ≡ false = rw same (let z = late.was_sent in ground (arith, z)) in
      let c : leb (t.last + (w.note n).cf.renotify) w.now ≡ true =
        rw same (let z = late.is_late in ground (arith, z)) in
      rw (a, b, c)
        ((resend-More (i + 1) ss (send_entry n i t w)).told d
          (send_entry-told i t w m d (rw same f) k))
  resend-told i (t ∷ ss) w (suc j) s m d e l late f k =
      let a : leb (w.note n).step_no i ≡ false = ground (arith, l) in
      let next : i + 1 + j < (w.note n).step_no = omega arith in
      let st = send_entry-Stamped n i t w in
      rw a (elim (Bool-cases (t.last == 0)) [
        | inl b ↦ rw b (resend-told (i + 1) ss w j s m d e next late f k)
        | inr b ↦ rw b (elim (Bool-cases (leb (t.last + (w.note n).cf.renotify) w.now)) [
          | inl c ↦ rw c (
              resend-told (i + 1) ss (send_entry n i t w) j s m d e (rw st.step_no next)
                (IsLate-sent i s t w late) f ((send_entry-More i t w).known d k))
          | inr c ↦ rw c (resend-told (i + 1) ss w j s m d e next late f k)
        ])
      ])
