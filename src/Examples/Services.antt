-- ===== src/Examples/Services.antt =====
-- A service with two retries, tested by three hosts: the theorems at concrete inputs. The numbers
-- that stand for floating point here are natural.
use argus.Prelude.{
  ℕ, ◌+◌, ◌-◌, ◌*◌, ◌/◌, ◌≡◌, refl, Bool, true, false, none, some, List, [], ◌∷◌, arith, ltb, ◌==◌,
  if◌then◌else◌,
}
use argus.Prelude.Int.{pos, negsuc, ◌-ℤ◌}
use argus.Text.{Text, codes, text_eq}
use argus.Dict.{Dict, lookup}
use argus.Status.{Status, clear, warning, major, critical}
use argus.Status.Gravity.{grav_vote}
use argus.Darp.{calc_aggr_status, status_at}
use argus.Monel.Aggregate.Counts.{AllNamed}
use argus.Darp.Tally.{reported}
use argus.Darp.Weigh.{Weighed, calc_aggr_status-Weighed}
use argus.Service.{System, permits, set_result, start, join_multi}
use argus.Service.Results.{Reported, Waits, Outcome, set_result-Outcome}
use argus.Service.Retries.{Given, set_results, retries-Reported}
use argus.Service.Running.{here, result, attempt, Alone, Busy-Alone}
use argus.Service.Compare.{Floats, Formats, Limits, as_text, as_number, test_and_compare}
use argus.Service.Compare.Verdict.{Decided, test_and_compare-Decided}
use argus.Service.Calc.{Mask, no_mask, Calc}
use argus.Service.Calc.Rate.{Due}
use argus.Service.Check.{Reading, Checked}
use argus.Service.Hwab.{Reals, HwabConf, Hwab, hwab_config, make, reset, idx_of_t}
use argus.Service.Hwab.Windows.{windows, add_at}
use argus.Examples.Elements.{world}
use argus.Examples.Scheduler.{two_jobs}

abbrev hosts : List (Text × Bool)
hosts = (codes "a", true) ∷ (codes "b", false) ∷ (codes "c", true) ∷ []

abbrev other_order : List (Text × Bool)
other_order = (codes "b", false) ∷ (codes "a", true) ∷ (codes "c", true) ∷ []

abbrev statuses : Dict Status
statuses = (codes "a", major) ∷ (codes "b", clear) ∷ (codes "c", warning) ∷ []

hosts_named : AllNamed (reported grav_vote statuses hosts)
unfolding reported lookup status_at
hosts_named = (omega arith, (omega arith, (omega arith, tt)))

calc_aggr_status-Weighed_example :
    Weighed grav_vote clear
      (reported grav_vote statuses hosts)
      (calc_aggr_status grav_vote clear statuses hosts)
calc_aggr_status-Weighed_example =
    calc_aggr_status-Weighed grav_vote clear statuses hosts hosts_named

abbrev sys : System
sys = record {
  svc = record {
    mon = 2;
    job = 1;
    cf = record {
      frequency = 60;
      retries = 2;
      retrydelay = 20;
      severity = critical;
      darp_gravity = grav_vote;
      testing = none;
      checking = none;
    };
    p = record { statuses = []; result = []; results = []; reason = [] };
    running = true;
    ready = false;
    lasttest = 0;
    tries = 0;
    started = 0;
    elapsed = 3000000;
    also_run = 2 ∷ [];
  };
  world = world;
  sched = two_jobs;
  darp = record { have_slaves = false; is_enabled = false; darps = [] };
  my_id = codes "a";
  calls = [];
}

set_result-Outcome_example :
    Outcome major (codes "7") (codes "slow") sys (set_result major (codes "7") (codes "slow") sys)
set_result-Outcome_example = set_result-Outcome major (codes "7") (codes "slow") sys

abbrev slow : Given
slow = record { status = major; result = codes "7"; reason = codes "slow" }

sys_permits : permits sys.svc.cf.checking sys.world ≡ true
unfolding permits
sys_permits = refl

retries-Reported_example :
    let u = set_results (slow ∷ slow ∷ slow ∷ []) sys in
    Waits 3 sys u
    × Reported major (codes "7") (codes "slow") sys (set_result major (codes "7") (codes "slow") u)
retries-Reported_example =
    retries-Reported (slow ∷ slow ∷ slow ∷ []) slow sys
      (omega arith, (omega arith, (omega arith, (omega arith, tt)))) sys_permits refl (omega arith)

Busy-Alone_example :
    let v = start 0 (set_result major (codes "7") (codes "slow") sys) in
    Alone sys v × ((r : ℕ) → (join_multi r v).1 ≡ false)
Busy-Alone_example = Busy-Alone sys refl (attempt 0 (result major (codes "7") (codes "slow") here))

abbrev pub numbers : Floats ℕ
numbers = record {
  of_int = λ z. elim z [ pos n ↦ n | negsuc n ↦ 0 ];
  add = λ a b. a + b;
  sub = λ a b. a - b;
  mul = λ a b. a * b;
  div = λ a b. a / b;
  abs = λ a. a;
  lt = ltb;
  eq = λ a b. a == b;
  is_nan = λ a. a == 18446744073709551615;
}

abbrev formats : Formats ℕ
formats = record {
  scan = λ t. none;
  print = λ x. codes "x";
  match_string = λ re t. some (text_eq re t);
}

abbrev unset : Status → ℕ
unset s = 18446744073709551615

-- Major above 30, critical above 100.
abbrev limits : Limits ℕ
limits = record {
  severity = critical;
  expect = λ s. [];
  nexpect = λ s. [];
  minvalue = unset;
  maxvalue = λ s. if s == major then 30 else if s == critical then 100 else unset s;
  eqvalue = unset;
  nevalue = unset;
  maxdeviation = unset;
  deviation = none;
}

test_and_compare-Decided_example :
    Decided numbers formats limits critical
      (as_text numbers formats [] 50 [])
      (as_number numbers formats [] 50 [])
      (test_and_compare numbers formats limits [] 50 [])
test_and_compare-Decided_example = test_and_compare-Decided numbers formats limits [] 50 []

abbrev rate_mask : Mask
rate_mask = record no_mask { rate = true }

-- A counter of 40 bits, sampled ten seconds ago.
abbrev sample : Calc ℕ
sample = record { lastv = 4000000000; lastdv = 10; lastt = 1000000000; lastta = 0; ave = 0 }

sample-Due : Due numbers 11000000000 sample
unfolding ◌-ℤ◌
sample-Due = record { sampled = omega arith; waited = refl }

abbrev reading : Reading ℕ
reading = record {
  pluck = none;
  jpath = none;
  xpath = none;
  unpack = none;
  expr = none;
  hwab = false;
  mask = rate_mask;
  scale = 0;
  alpha = 1;
}

abbrev checked : Checked ℕ
checked = record { sys = sys; calc = sample; predicted = []; graphed = [] }

abbrev reals : Reals ℕ
reals = record { fl = numbers; sqrt = λ a. a; exp = λ a. a; narrow = λ a. a; epsilond = 1 }

-- An hour in twelve buckets.
abbrev hourly : HwabConf ℕ
hourly = record { alpha = 1; beta = 1; gamma = 1; period = 3600 }

-- An hour and more after a reset without values before it there is no place for the window.
reset_panics_test : add_at reals 7 9300 (reset reals 9000 (hwab_config reals hourly 1000)) ≡ none
unfolding hwab_config make reset add_at windows idx_of_t
reset_panics_test = refl
