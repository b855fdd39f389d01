-- ===== src/Service/Delay.antt =====
-- When a service is tested again: Done, and what the scheduler's worker does after it.
use argus.Prelude.{ℕ, ◌+◌, ◌/◌, ◌≡◌, refl, ◌∙◌, inl, inr, true, List, [], ◌∷◌, arith, Bool-cases}
use argus.Monel.Stats.{secsnano}
use argus.Monel.Transition.{now_nano}
use argus.Sched.{
  Job, Sched, set_job, next_time, off_the_hour, re_schedule_same_prio, re_schedule, prioritize,
  asap, send_work, send_express, send_normal, after_run,
}
use argus.Sched.Timing.{when-re_schedule}
use argus.Service.{System, reschedule, check_all, done}

-- The jobs keep what says when they are due.
record SameCycle (s v : Sched) : Type 0 where
  freq : (e : Job) → (v.job e).freq ≡ (s.job e).freq
  phase : (e : Job) → (v.job e).phase ≡ (s.job e).phase
  auto : (e : Job) → (v.job e).auto ≡ (s.job e).auto

SameCycle-then : (s u v : Sched) → SameCycle s u → SameCycle u v → SameCycle s v
SameCycle-then s u v a b = record {
  freq = λ e. b.freq e ∙ a.freq e;
  phase = λ e. b.phase e ∙ a.phase e;
  auto = λ e. b.auto e ∙ a.auto e;
}

re_schedule_same_prio-SameCycle :
    (d : Job) (delay now r : ℕ) (s : Sched) → SameCycle s (re_schedule_same_prio d delay now r s)
unfolding re_schedule_same_prio set_job
re_schedule_same_prio-SameCycle d delay now r s = record {
  freq = λ e. ground arith;
  phase = λ e. ground arith;
  auto = λ e. ground arith;
}

re_schedule-SameCycle :
    (d : Job) (delay exp now r : ℕ) (s : Sched) → SameCycle s (re_schedule d delay exp now r s)
unfolding re_schedule re_schedule_same_prio set_job prioritize
re_schedule-SameCycle d delay exp now r s = record {
  freq = λ e. ground arith;
  phase = λ e. ground arith;
  auto = λ e. ground arith;
}

job-send_work : (d : Job) (s : Sched) → (send_work d s).0.job ≡ s.job
unfolding send_work send_express send_normal
job-send_work d s = ground arith

asap-SameCycle : (d : Job) (now r : ℕ) (s : Sched) → SameCycle s (asap d now r s)
unfolding asap
asap-SameCycle d now r s =
    let j = job-send_work d s in
    let same : SameCycle s (send_work d s).0 = record {
      freq = λ e. rw j refl;
      phase = λ e. rw j refl;
      auto = λ e. rw j refl;
    } in
    elim (Bool-cases (send_work d s).1) [
      | inl sent ↦ rw sent same
      | inr full ↦ rw full (
          let u = (send_work d s).0 in
          SameCycle-then s u _ same (
            let c =
              re_schedule_same_prio-SameCycle d 1 now r
                (record u { work_defer = u.work_defer + 1 }) in
            record { freq = c.freq; phase = c.phase; auto = c.auto }))
    ]

check_all-SameCycle :
    (r : ℕ) (ds : List Job) (s : System) → SameCycle s.sched (check_all r ds s).sched
unfolding check_all
check_all-SameCycle r [] s = record { freq = λ e. refl; phase = λ e. refl; auto = λ e. refl }
check_all-SameCycle r (d ∷ ds) s =
    let u = asap d (now_nano s.world / secsnano) r s.sched in
    SameCycle-then s.sched u _ (asap-SameCycle d (now_nano s.world / secsnano) r s.sched)
      (check_all-SameCycle r ds (record s { sched = u }))

done-SameCycle : (r : ℕ) (s : System) → SameCycle s.sched (done r s).sched
unfolding done reschedule
done-SameCycle r s =
    SameCycle-then s.sched (reschedule r s.svc.elapsed s).sched _
      (re_schedule-SameCycle s.svc.job _ (s.svc.elapsed / 1000000) (now_nano s.world / secsnano) r
        s.sched)
      (check_all-SameCycle r s.svc.also_run _)

after_run-when :
    (d : Job) (now r : ℕ) (s : Sched)
    → (s.job d).auto ≡ true
    → ((after_run d now r s).job d).when
      ≡ off_the_hour r (next_time (s.job d).freq (s.job d).phase 0 now)
unfolding after_run
after_run-when d now r s h = rw h (when-re_schedule d 0 now r s)

-- Where a test is done before its job's run returns, the worker gives an automatic job the next
-- time of its cycle, whatever the delay for a retry that Done asked for.
pub retry_delay_lost :
    (now r r' : ℕ) (s : System)
    → (s.sched.job s.svc.job).auto ≡ true
    → let x = s.sched.job s.svc.job in
      ((after_run s.svc.job now r' (done r s).sched).job s.svc.job).when
      ≡ off_the_hour r' (next_time x.freq x.phase 0 now)
retry_delay_lost now r r' s h =
    let c = done-SameCycle r s in
    let d = s.svc.job in
    let a : ((done r s).sched.job d).auto ≡ true = c.auto d ∙ h in
    rw (← c.freq d, ← c.phase d) (after_run-when d now r' (done r s).sched a)
