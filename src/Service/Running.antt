-- ===== src/Service/Running.antt =====
-- A service runs one test at a time: Start, JoinMulti and Done.
use argus.Prelude.{
  ℕ, ◌+◌, ◌*◌, ◌≡◌, refl, ap, ◌∙◌, inl, inr, true, false, List, [], ◌∷◌, ◌++◌, arith, ltb, leb,
  ◌==◌, if◌then◌else◌, Bool-cases,
}
use argus.Text.{Text, text_eq}
use argus.Status.{Status, clear}
use argus.Monel.Stats.{secsnano}
use argus.Monel.Transition.{now_nano}
use argus.Darp.{status_of}
use argus.Service.{
  System, permits, reschedule, tas_running, start, stuck, join_multi, set_result, report,
  set_result_for, set_result_for_l, check_start, check_abort, send_update, Call,
}

-- How many runs of the test were started.
unfoldable pub starts : List Call → ℕ
starts [] = 0
starts (check_start ∷ cs) = 1 + starts cs
starts (check_abort ∷ cs) = starts cs
starts (send_update st result reason ∷ cs) = starts cs

starts-snoc : (cs : List Call) (c : Call) → starts (cs ++ c ∷ []) ≡ starts cs + starts (c ∷ [])
unfolding starts
starts-snoc [] c = omega arith
starts-snoc (check_start ∷ cs) c = omega (arith, starts-snoc cs c)
starts-snoc (check_abort ∷ cs) c = starts-snoc cs c
starts-snoc (send_update st result reason ∷ cs) c = starts-snoc cs c

-- What may happen to a service while a test runs: results, and attempts to start it.
pub data Busy (s : System) : System → Type 0 where
  here : Busy s s
  result :
      {v : System} (st : Status) (res reason : Text)
      → Busy s v
      → Busy s (set_result st res reason v)
  attempt : {v : System} (r : ℕ) → Busy s v → Busy s (start r v)
  joined : {v : System} (r : ℕ) → Busy s v → Busy s (join_multi r v).0

-- It goes on to run, and has been started as often as before.
pub record Alone (s v : System) : Type 0 where
  pub running : v.svc.running ≡ true
  pub no_start : starts v.calls ≡ starts s.calls

start-Alone : (r : ℕ) (s : System) → s.svc.running ≡ true → Alone s (start r s)
unfolding start tas_running reschedule stuck starts
start-Alone r s h = elim (Bool-cases (ltb (s.svc.started + 900 * secsnano) (now_nano s.world))) [
  | inl long ↦
      rw (h, long)
        (record {
          running = refl;
          no_start = let e = starts-snoc s.calls check_abort in omega (arith, e);
        })
  | inr short ↦ rw (h, short) (record { running = refl; no_start = refl })
]

join-Alone : (r : ℕ) (s : System) → s.svc.running ≡ true → Alone s (join_multi r s).0
unfolding join_multi tas_running reschedule
join-Alone r s h = rw h (record { running = refl; no_start = refl })

Alone-then : (s u v : System) → Alone s u → Alone u v → Alone s v
Alone-then s u v a b = record { running = b.running; no_start = b.no_start ∙ a.no_start }

report-Alone :
    (st : Status) (res reason : Text) (s : System)
    → s.svc.running ≡ true
    → Alone s (report st res reason s)
unfolding report set_result_for set_result_for_l starts
report-Alone st res reason s h = elim (Bool-cases (st == status_of s.svc.p.statuses s.my_id)) [
  | inl same ↦ rw same (record { running = h; no_start = refl })
  | inr new ↦ rw new (record {
    running = h;
    no_start = let e = starts-snoc s.calls (send_update st res reason) in omega (arith, e);
  })
]

Alone-from :
    (st : Status) (res reason : Text) (s u : System)
    → u.svc.running ≡ true
    → u.calls ≡ s.calls
    → Alone s (report st res reason u)
Alone-from st res reason s u h e =
    let a = report-Alone st res reason u h in
    record { running = a.running; no_start = a.no_start ∙ ap starts e }

set_result-Alone :
    (given : Status) (res reason : Text) (s : System)
    → s.svc.running ≡ true
    → Alone s (set_result given res reason s)
unfolding set_result
set_result-Alone given res reason s h =
    let st = if permits s.svc.cf.checking s.world then given else clear in
    elim (Bool-cases (st == clear)) [
      | inl c ↦ rw c (Alone-from st res [] s _ h refl)
      | inr c ↦ elim (Bool-cases (text_eq res [])) [
        | inl e ↦ elim (Bool-cases (leb s.svc.tries s.svc.cf.retries)) [
          | inl l ↦ rw (c, e, l) (record { running = h; no_start = refl })
          | inr l ↦ rw (c, e, l) (Alone-from st res reason s _ h refl)
        ]
        | inr e ↦ elim (Bool-cases (leb s.svc.tries s.svc.cf.retries)) [
          | inl l ↦ rw (c, e, l) (record { running = h; no_start = refl })
          | inr l ↦ rw (c, e, l) (Alone-from st res reason s _ h refl)
        ]
      ]
    ]

Busy-kept : (s : System) {v : System} → s.svc.running ≡ true → Busy s v → Alone s v
Busy-kept s h here = record { running = h; no_start = refl }
Busy-kept s h (result {v = v} st res reason b) =
    let a = Busy-kept s h b in Alone-then s v _ a (set_result-Alone st res reason v a.running)
Busy-kept s h (attempt {v = v} r b) =
    let a = Busy-kept s h b in Alone-then s v _ a (start-Alone r v a.running)
Busy-kept s h (joined {v = v} r b) =
    let a = Busy-kept s h b in Alone-then s v _ a (join-Alone r v a.running)

-- While a test runs, JoinMulti does not let its caller take the service into its own.
join_multi_refused : (r : ℕ) (v : System) → v.svc.running ≡ true → (join_multi r v).1 ≡ false
unfolding join_multi tas_running
join_multi_refused r v h = rw h refl

-- While a test runs, until Done, whatever results and attempts to start or to join it there were,
-- it goes on to run, no other was started, and JoinMulti tells its caller that the service does not
-- join.
pub Busy-Alone :
    (s : System) {v : System}
    → s.svc.running ≡ true
    → Busy s v
    → Alone s v × ((r : ℕ) → (join_multi r v).1 ≡ false)
Busy-Alone s {v = v} h b = let a = Busy-kept s h b in (a, λ r. join_multi_refused r v a.running)
