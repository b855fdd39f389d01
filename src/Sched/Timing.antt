-- ===== src/Sched/Timing.antt =====
-- When a job runs next.
use argus.Prelude.{
  ℕ, zero, suc, ◌+◌, ◌-◌, ◌*◌, ◌/◌, ◌%◌, ◌≤◌, ◌<◌, ◌≡◌, ◌≢◌, refl, arith, leb, ◌==◌, if◌then◌else◌,
  Bool-cases, inl, inr, [], ◌∷◌, ◌++◌,
}
use native.Mathlib.Nat.{div-add-mod', mod-lt}
use argus.Sched.{Job, Sched, catch_up, next_time, off_the_hour, re_schedule_same_prio, set_job}

-- The loop of ReScheduleSamePrio does nothing at a time that is not past.
catch_up_idle : (fuel freq now when : ℕ) → now ≤ when → catch_up fuel freq now when ≡ when
unfolding catch_up
catch_up_idle zero freq now when h = refl
catch_up_idle (suc fuel) freq now when h = ground arith

-- A time of the job's own cycle.
pub record IsNext (freq phase now when : ℕ) : Type 0 where
  pub after : now < when
  pub within : when ≤ now + freq
  pub in_phase : (k : ℕ) × (when ≡ k * freq + phase)

cycle : ℕ → ℕ → ℕ → ℕ
cycle freq phase now = (now - phase) / freq * freq + freq + phase

cycle-IsNext :
    (freq phase now : ℕ) → 0 < freq → phase ≤ now → IsNext freq phase now (cycle freq phase now)
unfolding cycle
cycle-IsNext freq phase now p h =
    let q = (now - phase) / freq in
    let split = div-add-mod' (now - phase) freq in
    let short = mod-lt (now - phase) p in
    record {
      after = omega (arith, split, short);
      within = omega (arith, split, short);
      in_phase = (q + 1, omega arith);
    }

next_time-cycle :
    (freq phase now : ℕ)
    → let f = if leb freq 0 then 60 else freq in
      next_time freq phase 0 now ≡ catch_up now f now (cycle f phase now)
unfolding next_time cycle
next_time-cycle freq phase now = refl

-- With no delay the time is the job's next in its cycle. The loop never runs.
next_time-IsNext :
    (freq phase now : ℕ)
    → phase ≤ now
    → IsNext (if leb freq 0 then 60 else freq) phase now (next_time freq phase 0 now)
next_time-IsNext freq phase now h =
    let f = if leb freq 0 then 60 else freq in
    let cycled = cycle-IsNext f phase now (ground arith) h in
    rw (next_time-cycle freq phase now)
      (rw (catch_up_idle now f now (cycle f phase now) (omega (arith, cycled.after))) cycled)

off_the_hour_bounds :
    (r when : ℕ)
    → r < 4
    → (off_the_hour r when % 3600 ≢ 0)
      × (when ≤ off_the_hour r when)
      × (off_the_hour r when ≤ when + 4)
unfolding off_the_hour
off_the_hour_bounds r when h = ground arith

pub when-re_schedule :
    (d : Job) (delay now r : ℕ) (s : Sched)
    → ((re_schedule_same_prio d delay now r s).job d).when
      ≡ off_the_hour r (next_time (s.job d).freq (s.job d).phase delay now)
when-re_schedule d delay now r s = unfold re_schedule_same_prio set_job in ground arith

-- A job is never put at the top of an hour, and the delay that avoids it is at most four seconds.
pub re_schedule-off_the_hour :
    (d : Job) (delay now r : ℕ) (s : Sched)
    → r < 4
    → let x = s.job d in
      let asked = next_time x.freq x.phase delay now in
      let when = ((re_schedule_same_prio d delay now r s).job d).when in
      (when % 3600 ≢ 0) × (asked ≤ when) × (when ≤ asked + 4)
re_schedule-off_the_hour d delay now r s h =
    rw (when-re_schedule d delay now r s)
      (off_the_hour_bounds r (next_time (s.job d).freq (s.job d).phase delay now) h)

-- The time that a job is put at, from its time in the cycle and a random number below four.
pub data Put (r cycle : ℕ) : ℕ → Type 0 where
  as_it_is : cycle % 3600 ≢ 0 → Put r cycle cycle
  moved : cycle % 3600 ≡ 0 → Put r cycle (cycle + (r + 1))

off_the_hour-Put : (r when : ℕ) → Put r when (off_the_hour r when)
unfolding off_the_hour
off_the_hour-Put r when = elim (Bool-cases (when % 3600 == 0)) [
  | inl e ↦ rw e (moved (ground (arith, e)))
  | inr e ↦ rw e (as_it_is (ground (arith, e)))
]

-- ReScheduleSamePrio with no delay, at a time that is not before the job's phase: the job is sent
-- to the main loop, with the next time of its cycle, which has the job's frequency, or 60 where
-- that is not set, later than now, at most a period away, and in phase; or, where that is the top of
-- an hour, with a time one to four seconds later, by the random number. It is not the top of an
-- hour then.
pub re_schedule_same_prio-IsNext :
    (d : Job) (now r : ℕ) (s : Sched)
    → r < 4
    → (s.job d).phase ≤ now
    → let x = s.job d in
      let v = re_schedule_same_prio d 0 now r s in
      (v.schedchan ≡ s.schedchan ++ d ∷ [])
      × ((v.job d).when % 3600 ≢ 0)
      × (cycle : ℕ) × IsNext (if leb x.freq 0 then 60 else x.freq) x.phase now cycle
      × Put r cycle (v.job d).when
re_schedule_same_prio-IsNext d now r s h p =
    let x = s.job d in
    let cycled = next_time x.freq x.phase 0 now in
    (
      unfold re_schedule_same_prio set_job in refl,
      (re_schedule-off_the_hour d 0 now r s h).0,
      cycled,
      next_time-IsNext x.freq x.phase now p,
      rw (when-re_schedule d 0 now r s) (off_the_hour-Put r cycled),
    )
