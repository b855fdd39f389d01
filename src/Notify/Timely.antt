-- ===== src/Notify/Timely.antt =====
-- When the entries of a notification are sent again.
use argus.Prelude.{
  ℕ, suc, ◌+◌, ◌-◌, ◌≤◌, ◌<◌, ◌≡◌, refl, ◌∙◌, sym, ◌⊎◌, inl, inr, true, false, Option, none, some,
  List, [], ◌∷◌, arith, leb, ◌==◌, get_elem?, Bool-cases,
}
use native.Mathlib.Decide.{dec_lt}
use argus.Notify.{Note, SendDat, Package, modify, stamp, send_entry, next_step, resend, maybe_queue}
use argus.Notify.Entry.{Stamped, send_entry-Stamped, get_elem?-stamp, last-stamp}

module _ (n : Note) where
  -- An entry that was sent has been sent less than `renotify` ago.
  abbrev pub Fresh : Package → SendDat → Type 0
  Fresh w s = (s.last ≡ 0) ⊎ (w.now < s.last + (w.note n).cf.renotify)

  -- The entries before `k` that were sent are fresh.
  pub record Current (k : ℕ) (w : Package) : Type 0 where
    pub fresh :
        (j : ℕ) (s : SendDat)
        → j < k
        → j < (w.note n).step_no
        → get_elem? (w.note n).send_to j ≡ some s
        → Fresh w s

module _ (n : Note) where
  Fresh-same :
      (w v : Package) (s : SendDat)
      → v.now ≡ w.now
      → (v.note n).cf ≡ (w.note n).cf
      → Fresh n w s
      → Fresh n v s
  Fresh-same w v s a b f = rw (a, b) f

  Current-Stamped :
      (i : ℕ) (w v : Package)
      → 0 < (w.note n).cf.renotify
      → Stamped n i w v
      → Current n i w
      → Current n (i + 1) v
  Current-Stamped i w v r k c = record {
    fresh = λ j s l m e.
        let e' : get_elem? (stamp i w.now (w.note n).send_to) j ≡ some s = rw k.send_to at e in
        elim (dec_lt j i) [
          | yes b ↦
              let other : (i == j) ≡ false = ground arith in
              let o : get_elem? (w.note n).send_to j ≡ some s =
                sym (rw other at (get_elem?-stamp i j w.now (w.note n).send_to)) ∙ e' in
              Fresh-same w v s k.now k.cf (c.fresh j s b (rw (← k.step_no) m) o)
          | no b ↦
              let same : j ≡ i = omega arith in
              let z = last-stamp i w.now (w.note n).send_to s (rw same at e') in
              Fresh-same w v s k.now k.cf (inr (omega (arith, z)))
        ];
  }

  Current-next :
      (i : ℕ) (w : Package)
      → ((s : SendDat) → get_elem? (w.note n).send_to i ≡ some s → Fresh n w s)
      → Current n i w
      → Current n (i + 1) w
  Current-next i w f c = record {
    fresh = λ j s l m e. elim (dec_lt j i) [
      | yes b ↦ c.fresh j s b m e
      | no b ↦ let same : j ≡ i = omega arith in f s (rw same at e)
    ];
  }

  -- The entries that the loop still has before it.
  record Ahead (i : ℕ) (ss : List SendDat) (w : Package) : Type 0 where
    same : (j : ℕ) → get_elem? ss j ≡ get_elem? (w.note n).send_to (i + j)

  Ahead-next :
      (i : ℕ) (s : SendDat) (ss : List SendDat) (w : Package)
      → Ahead i (s ∷ ss) w
      → Ahead (i + 1) ss w
  Ahead-next i s ss w a = record {
    same = λ j. let e : i + suc j ≡ i + 1 + j = omega arith in rw e at (a.same (suc j));
  }

  Ahead-Stamped :
      (i : ℕ) (s : SendDat) (ss : List SendDat) (w v : Package)
      → Stamped n i w v
      → Ahead i (s ∷ ss) w
      → Ahead (i + 1) ss v
  Ahead-Stamped i s ss w v k a = record {
    same = λ j.
        let other : (i == i + 1 + j) ≡ false = ground arith in
        rw k.send_to (
          (Ahead-next i s ss w a).same j
          ∙ sym (rw other at (get_elem?-stamp i (i + 1 + j) w.now (w.note n).send_to)));
  }

  Current-past : (i k : ℕ) (w : Package) → (w.note n).step_no ≤ i → Current n i w → Current n k w
  Current-past i k w l c = record { fresh = λ j s a m e. c.fresh j s (omega arith) m e }

  Current-end : (i k : ℕ) (w : Package) → Ahead i [] w → Current n i w → Current n k w
  Current-end i k w a c = record {
    fresh = λ j s l m e. elim (dec_lt j i) [
      | yes b ↦ c.fresh j s b m e
      | no b ↦
          let split : i + (j - i) ≡ j = omega arith in
          let missing : none ≡ get_elem? (w.note n).send_to j = rw split at (a.same (j - i)) in
          absurd (ground (arith, missing, e))
    ];
  }

  resend-Current :
      (i k : ℕ) (ss : List SendDat) (w : Package)
      → 0 < (w.note n).cf.renotify
      → Ahead i ss w
      → Current n i w
      → Current n k (resend n i ss w)
  unfolding resend
  resend-Current i k [] w r a c = Current-end i k w a c
  resend-Current i k (s ∷ ss) w r a c =
      let here : get_elem? (w.note n).send_to i ≡ some s =
        let e : i + 0 ≡ i = omega arith in sym (rw e at (a.same 0)) in
      elim (Bool-cases (leb (w.note n).step_no i)) [
        | inl e ↦ rw e (Current-past i k w (ground arith) c)
        | inr e ↦ rw e (elim (Bool-cases (s.last == 0)) [
          | inl z ↦ rw z (
              resend-Current (i + 1) k ss w r (Ahead-next i s ss w a)
                (Current-next i w (λ t f. inl (ground (arith, here, f))) c))
          | inr z ↦ rw z (elim (Bool-cases (leb (s.last + (w.note n).cf.renotify) w.now)) [
            | inl due ↦ rw due (
                let v = send_entry n i s w in
                let st = send_entry-Stamped n i s w in
                resend-Current (i + 1) k ss v (rw st.cf r) (Ahead-Stamped i s ss w v st a)
                  (Current-Stamped i w v r st c))
            | inr later ↦ rw later (
                resend-Current (i + 1) k ss w r (Ahead-next i s ss w a)
                  (Current-next i w (λ t f. inr (ground (arith, here, f))) c))
          ])
        ])
      ]

  -- A step sends the entry that it reaches, if it is due, and counts it.
  record Stepped (w v : Package) : Type 0 where
    cf : (v.note n).cf ≡ (w.note n).cf
    now : v.now ≡ w.now

  next_step-Stepped : (s : Option SendDat) (w : Package) → Stepped w (next_step n s w)
  unfolding next_step modify
  next_step-Stepped none w = record { cf = refl; now = refl }
  next_step-Stepped (some s) w = elim (Bool-cases (leb (s.when + (w.note n).created) w.now)) [
    | inl due ↦
        let t : (n == n) ≡ true = ground arith in
        let k = send_entry-Stamped n (w.note n).step_no s w in
        rw due (record { cf = rw t k.cf; now = k.now })
    | inr later ↦ rw later (record { cf = refl; now = refl })
  ]

  -- After maybeQueue of an active notification with a time to notify again, every entry that was
  -- sent was sent less than that time ago: nothing that is due is left.
  pub maybe_queue-Current :
      (k : ℕ) (w : Package)
      → (w.note n).is_active ≡ true
      → 0 < (w.note n).cf.renotify
      → Current n k (maybe_queue n w)
  unfolding maybe_queue
  maybe_queue-Current k w a r =
      let z : ((w.note n).cf.renotify == 0) ≡ false = ground arith in
      let s = get_elem? (w.note n).send_to (w.note n).step_no in
      let v = next_step n s w in
      let st = next_step-Stepped s w in
      rw (a, z)
        (resend-Current 0 k (v.note n).send_to v (rw st.cf r)
          (record { same = λ j. let e : 0 + j ≡ j = omega arith in rw e refl })
          (record { fresh = λ j s l. absurd (omega arith) }))
