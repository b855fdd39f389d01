-- ===== src/Service/Retries.antt =====
-- Failing results in a row.
use argus.Prelude.{
  ℕ, suc, ◌+◌, ◌≤◌, ◌≡◌, ◌≢◌, ◌∙◌, ap, Bool, true, false, List, [], ◌∷◌, arith, length,
}
use argus.Text.{Text}
use argus.Status.{Status, clear}
use argus.Service.{System, permits, set_result, fail, fail_now}
use argus.Service.Results.{Reported, Waits, waited, set_result_wait, set_result_fail}

pub record Given : Type 0 where
  pub status : Status
  pub result : Text
  pub reason : Text

abbrev pub AllBad : List Given → Type 0
AllBad [] = Unit {0}
AllBad (g ∷ gs) = (g.status ≢ clear) × AllBad gs

-- SetResult for each in turn.
unfoldable pub set_results : List Given → System → System
set_results [] s = s
set_results (g ∷ gs) s = set_results gs (set_result g.status g.result g.reason s)

abbrev tried : System → Bool → ℕ → System
tried s ready k = record s { svc = record (s.svc) { tries = k; ready = ready } }

Waits-next : (n : ℕ) (s u v : System) → Waits 1 s u → Waits n u v → Waits (n + 1) s v
Waits-next n s u v a b = record {
  same =
      let e : v ≡ waited n v.svc.ready (waited 1 u.svc.ready s) =
        b.same ∙ ap (waited n v.svc.ready) a.same in
      let c : s.svc.tries + 1 + n ≡ s.svc.tries + (n + 1) = omega arith in
      e ∙ ap (tried s v.svc.ready) c;
}

Waits-cf : (n : ℕ) (s v : System) → Waits n s v → v.svc.cf ≡ s.svc.cf
Waits-cf n s v w = ap (λ x. x.svc.cf) w.same

Waits-world : (n : ℕ) (s v : System) → Waits n s v → v.world ≡ s.world
Waits-world n s v w = ap (λ x. x.world) w.same

Waits-tries : (n : ℕ) (s v : System) → Waits n s v → v.svc.tries ≡ s.svc.tries + n
Waits-tries n s v w = ap (λ x. x.svc.tries) w.same

-- What is reported after some tries is what would be reported before.
Reported-waited :
    (n : ℕ) (status : Status) (result reason : Text) (s u : System) {v : System}
    → Waits n s u
    → Reported status result reason u v
    → Reported status result reason s v
Reported-waited n status result reason s u {v} w r =
    let r' : Reported status result reason (waited n u.svc.ready s) v = rw w.same at r in
    record {
      recorded = r'.recorded;
      explained = r'.explained;
      updated = r'.updated;
      told = r'.told;
    }

set_results-Waits :
    (gs : List Given) (s : System)
    → AllBad gs
    → permits s.svc.cf.checking s.world ≡ true
    → s.svc.tries + length gs ≤ s.svc.cf.retries + 1
    → Waits (length gs) s (set_results gs s)
unfolding set_results
set_results-Waits [] s b p l = record {
  same = let e : s.svc.tries ≡ s.svc.tries + 0 = omega arith in ap (tried s s.svc.ready) e;
}
set_results-Waits (g ∷ gs) s b p l =
    let u = set_result g.status g.result g.reason s in
    let w = set_result_wait g.status g.result g.reason s b.0 p (omega arith) in
    let p' : permits u.svc.cf.checking u.world ≡ true =
      rw (Waits-cf 1 s u w, Waits-world 1 s u w) p in
    let n : suc (length gs) ≡ length gs + 1 = omega arith in
    rw n (
      Waits-next (length gs) s u (set_results gs u) w (
        set_results-Waits gs u b.1 p'
          (omega (arith, Waits-tries 1 s u w, ap (λ c. c.retries) (Waits-cf 1 s u w)))))

-- From no tries, failing results where the checking schedule permits: as many as the retries and one
-- more change nothing but the count of tries and the readiness. The next one is reported.
pub retries-Reported :
    (gs : List Given) (g : Given) (s : System)
    → AllBad (g ∷ gs)
    → permits s.svc.cf.checking s.world ≡ true
    → s.svc.tries ≡ 0
    → length gs ≡ s.svc.cf.retries + 1
    → Waits (length gs) s (set_results gs s)
      × Reported g.status g.result g.reason s
          (set_result g.status g.result g.reason (set_results gs s))
retries-Reported gs g s b p z l =
    let u = set_results gs s in
    let w = set_results-Waits gs s b.1 p (omega arith) in
    let p' : permits u.svc.cf.checking u.world ≡ true =
      rw (Waits-cf (length gs) s u w, Waits-world (length gs) s u w) p in
    let f = set_result_fail g.status g.result g.reason u b.0 p' (
      omega
        (arith, Waits-tries (length gs) s u w, ap (λ c. c.retries) (Waits-cf (length gs) s u w))) in
    (w, Reported-waited (length gs) g.status g.result g.reason s u w f.reported)

-- FailNow reports at once, whatever the tries, a severity other than clear where the checking
-- schedule permits.
pub fail_now-Reported :
    (reason : Text) (s : System)
    → s.svc.cf.severity ≢ clear
    → permits s.svc.cf.checking s.world ≡ true
    → Reported s.svc.cf.severity [] reason s (fail_now reason s)
unfolding fail_now fail
fail_now-Reported reason s n p =
    let s' : System = record s {
      svc = record (s.svc) { ready = false; tries = s.svc.cf.retries + 1 };
    } in
    let r = (set_result_fail s.svc.cf.severity [] reason s' n p (omega arith)).reported in
    record { recorded = r.recorded; explained = r.explained; updated = r.updated; told = r.told }
