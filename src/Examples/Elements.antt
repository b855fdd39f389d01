-- ===== src/Examples/Elements.antt =====
-- A group with two services: the theorems on elements at concrete inputs.
use argus.Prelude.{
  ◌≤◌, ◌≡◌, ◌≢◌, refl, ◌↔◌, inl, inr, true, false, none, some, List, [], ◌∷◌, arith, if◌then◌else◌,
  ◌==◌, replicate, Bool-cases,
}
use argus.Prelude.Int.{pos, ◌+ℤ◌}
use argus.Text.{Text, codes}
use argus.Dict.{lookup}
use argus.Status.{Status, unknown, clear, warning, major, critical, max_status}
use argus.Status.Gravity.{grav_dn, grav_vote}
use argus.Schedule.{schedule_always}
use argus.Monel.Aggregate.{aggregate, calc_aggr_status, scan_vote, count_statuses}
use argus.Monel.Aggregate.Vote.{IsMedian, aggregate-IsMedian}
use argus.Monel.Stats.{StatDat, Stats, Clock, stats_transition}
use argus.Monel.Stats.Accounts.{IsSound, IsRestored, transition-IsSound}
use argus.Monel.State.{Ptr, nil, Me, service, group, Conf, Persist, M, World}
use argus.Monel.Determine.{determine_aggr_status, determine_status}
use argus.Monel.Transition.{maybe_notify, new_conf, run_is_down, update}
use argus.Monel.Transition.Overall.{Decides, determine_status-Decides}
use argus.Monel.Transition.Notice.{Wants, Sent, maybe_notify-Sent}
use argus.Monel.Transition.Alarm.{isdown_stale}
use argus.Monel.Invariant.{IsWell, AllWell}
use argus.Monel.Invariant.Reachable.{Reach-AllWell}
use argus.Monel.Tree.{recycle, remove_from_list}
use argus.Monel.Tree.Recycled.{holds, recycle-left}
use argus.Monel.Tasks.{here, next, result}

abbrev four : List Status
four = critical ∷ clear ∷ unknown ∷ warning ∷ []

aggregate-IsMedian_example : IsMedian four (aggregate grav_vote max_status four)
aggregate-IsMedian_example =
    aggregate-IsMedian grav_vote four (omega arith) (omega arith) (omega arith)

vote_of_four : aggregate grav_vote max_status four ≡ warning
unfolding aggregate calc_aggr_status scan_vote count_statuses
vote_of_four = refl

abbrev pub entry : StatDat
entry = record { start = pos 0; elapsed = pos 0; ndown = 0; tup = pos 0; tdn = pos 0 }

abbrev no_stats : Stats
no_stats = record { lastt = pos 0; status = unknown; daily = []; monthly = []; yearly = [] }

abbrev pub some_stats : Stats
some_stats = record {
  lastt = pos 50;
  status = clear;
  daily = entry ∷ [];
  monthly = entry ∷ [];
  yearly = entry ∷ [];
}

-- One hundred seconds after the start of a calendar that stands still.
abbrev pub clock : Clock
clock = record {
  nano = 100000000000;
  calendar = λ t. record { year = 1970; month = 1; day = 1; hour = 0; min = 1; sec = 40 };
}

some_stats-IsSound : IsSound some_stats
unfolding ◌+ℤ◌
some_stats-IsSound = record {
  daily = record { some_entry = omega arith; capped = omega arith; balanced = (refl, tt) };
  monthly = record { some_entry = omega arith; capped = omega arith; balanced = (refl, tt) };
  yearly = record { some_entry = omega arith; capped = omega arith; balanced = (refl, tt) };
}

no_stats-IsRestored : IsRestored no_stats
no_stats-IsRestored = record {
  daily = record { capped = omega arith; balanced = tt };
  monthly = record { capped = omega arith; balanced = tt };
  yearly = record { capped = omega arith; balanced = tt };
}

transition-IsSound_example : IsSound (stats_transition clock major some_stats).0
transition-IsSound_example = transition-IsSound clock major some_stats some_stats-IsSound

abbrev pub conf : Text → Conf
conf unique = record {
  uname = unique;
  unique = unique;
  label = unique;
  friendlyname = unique;
  depends = [];
  sort = true;
  overridable = true;
  passive = false;
  countstop = false;
  hidden = false;
  siren = true ∷ replicate 5 false;
  sendnotify = some (schedule_always (codes "yes")) ∷ replicate 5 none;
  gravity = grav_dn;
}

abbrev pub persist : Status → Persist
persist st = record {
  status = st;
  ov_status = st;
  override = none;
  result = [];
  reason = [];
  anc_in_ov = false;
  alarm = false;
  ov_status_summary = replicate 8 0;
  trans_time = 0;
  siren_time = 0;
  culprit = [];
  stats = some_stats;
  log = [];
}

abbrev pub element : Me → Text → Status → List Ptr → List Ptr → M
element me name st parent children = record {
  name = name;
  me = me;
  parent = parent;
  children = children;
  cf = conf name;
  notify_cf = some 7;
  p = persist st;
  web_time = 0;
  uname = name;
  label = name;
  friendlyname = name;
  depends = [];
  notifies = [];
  interesting = true;
}

-- Element 1 is the group, 2 and all others its services.
abbrev pub world : World
world = record {
  elem = λ q.
      if q == 1
      then element group (codes "Top") clear [] (2 ∷ 3 ∷ [])
      else element service (codes "Top:web") major (1 ∷ []) [];
  byname = (codes "Top", 1) ∷ (codes "Top:web", 2) ∷ [];
  isdown = [];
  inoverride = [];
  tasks = [];
  calls = [];
  idno = 1000;
  env = record {
    clock = clock;
    local_time = record { weekday = 1; hour = 12; minute = 0 };
    keeps = λ ncf. true;
  };
}

persist-IsWell : (st : Status) → st ≤ max_status → IsWell (persist st)
persist-IsWell st h = record {
  status_named = h;
  ov_named = h;
  summary_full = refl;
  log_capped = omega arith;
  stats_sound = some_stats-IsSound;
}

world-AllWell : AllWell world
world-AllWell = record {
  at = λ q. elim (Bool-cases (q == 1)) [
    | inl e ↦ rw e (persist-IsWell clear (omega arith))
    | inr e ↦ rw e (persist-IsWell major (omega arith))
  ];
}

Reach-AllWell_example : AllWell (update 2 critical (codes "0") (codes "no answer") world)
Reach-AllWell_example =
    Reach-AllWell world-AllWell
      (next here (result world 2 critical (codes "0") (codes "no answer") (omega arith)))

determine_status-Decides_example :
    let v = determine_aggr_status 1 world in
    let r = determine_status 1 world in
    Decides v (v.elem 1).depends (v.elem 1).p (r.0.elem 1).p
    × ((r.1 ≡ true) ↔ ((r.0.elem 1).p.ov_status ≢ (world.elem 1).p.ov_status))
determine_status-Decides_example = determine_status-Decides 1 world

maybe_notify-Sent_example :
    (Wants 2 7 clear world
      → Sent 2 (new_conf (world.elem 2) 7 clear) world (maybe_notify 2 clear world))
    × (¬ Wants 2 7 clear world → maybe_notify 2 clear world ≡ world)
maybe_notify-Sent_example = maybe_notify-Sent 2 7 clear world (omega arith) refl

isdown_stale_example :
    let unique = (world.elem 2).cf.unique in
    (lookup unique (run_is_down 2 clear (run_is_down 2 major world)).isdown ≡ none)
    × (lookup unique (run_is_down 2 major (run_is_down 2 clear world)).isdown ≡ some 2)
isdown_stale_example = isdown_stale 2 major clear world (omega arith) (λ d. d.1 refl)

siblings : holds 2 (world.elem 1).children ≡ true
unfolding holds
siblings = refl

recycle-left_example :
    (holds nil ((recycle 2 world).elem 1).children ≡ true)
    × (((recycle 2 world).elem 1).parent ≡ remove_from_list (world.elem 1).children 2)
recycle-left_example = recycle-left 2 1 world (omega arith) refl refl siblings
