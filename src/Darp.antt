-- ===== src/Darp.antt =====
-- The status of a service that several hosts test: argus/darp/status.go.
pub mod Hosts
pub mod States
pub mod Tally
pub mod Weigh
use argus.Prelude.{
  ℕ, zero, suc, ◌+◌, ◌/◌, Bool, true, false, ◌||◌, not, Option, none, some, List, [], ◌∷◌, ltb, leb,
  ◌==◌, if◌then◌else◌, get_or, set,
}
use argus.Text.{Text}
use argus.Dict.{Dict, lookup}
use argus.Status.{Status, unknown, clear, critical, override, depends}
use argus.Status.Gravity.{Gravity, grav_up, grav_dn, grav_vote, grav_ietf, grav_self}
use argus.Monel.Aggregate.{bump, no_counts}

-- statuses[host]; a missing key reads as 0.
unfoldable pub status_at : Option Status → Status
status_at none = unknown
status_at (some s) = s

abbrev pub status_of : Dict Status → Text → Status
status_of statuses host = status_at (lookup host statuses)

-- The loop over the hosts, in the order of the map's iteration, with `count` and `nstatus`.
unfoldable pub count_hosts : Gravity → Dict Status → List (Text × Bool) → List ℕ → ℕ → List ℕ × ℕ
count_hosts gravity statuses [] count nstatus = (count, nstatus)
count_hosts gravity statuses ((host, up) ∷ darps) count nstatus =
    if up
    then count_hosts gravity statuses darps (bump count (status_of statuses host)) (nstatus + 1)
    else if gravity == grav_ietf
    then count_hosts gravity statuses darps (bump count unknown) nstatus
    else count_hosts gravity statuses darps (bump count (status_of statuses host)) (nstatus + 1)

-- count[argus.UNKNOWN] += count[argus.OVERRIDE] + count[argus.DEPENDS]
unfoldable pub fold_unknown : List ℕ → List ℕ
fold_unknown count =
    set count unknown (get_or count unknown 0 + (get_or count override 0 + get_or count depends 0))

-- for i := argus.CLEAR; i <= argus.CRITICAL; i++ ; the first argument is the rounds left
unfoldable pub best_from : ℕ → Status → List ℕ → Status
best_from zero i count = clear
best_from (suc n) i count = if ltb 0 (get_or count i 0) then i else best_from n (i + 1) count

-- for i := argus.CRITICAL; i >= argus.CLEAR; i--
unfoldable pub worst_from : Status → List ℕ → Status
worst_from zero count = clear
worst_from (suc i) count = if ltb 0 (get_or count (suc i) 0) then suc i else worst_from i count

-- The loop of the vote, with `cum` and `lim`.
unfoldable pub vote_from : ℕ → Status → ℕ → ℕ → List ℕ → Status
vote_from zero i cum lim count = clear
vote_from (suc n) i cum lim count =
    let cum' = cum + get_or count i 0 in
    if leb lim cum' then i else vote_from n (i + 1) cum' lim count

-- The switch of CalcAggrStatus.
unfoldable pub weigh : Gravity → Status → List ℕ → ℕ → Status
weigh gravity mystatus count nstatus =
    if gravity == grav_self
    then mystatus
    else if gravity == grav_up
    then best_from 5 clear count
    else if gravity == grav_dn
    then worst_from critical count
    else if gravity == grav_vote || gravity == grav_ietf
    then vote_from 5 clear 0 ((nstatus + 1) / 2) count
    else unknown

-- CalcAggrStatus
unfoldable pub calc_aggr_status : Gravity → Status → Dict Status → List (Text × Bool) → Status
unfolding count_hosts fold_unknown
calc_aggr_status gravity mystatus statuses darps =
    let (count, nstatus) = count_hosts gravity statuses darps no_counts 0 in
    weigh gravity mystatus (fold_unknown count) nstatus

-- What AggrStatus reads of the package: iHaveSlaves, IsEnabled and GetStatuses.
pub record Darp : Type 0 where
  pub have_slaves : Bool
  pub is_enabled : Bool
  pub darps : List (Text × Bool)

-- AggrStatus
unfoldable pub aggr_status : Darp → Gravity → Status → Dict Status → Status
aggr_status d gravity mystatus statuses =
    if gravity == grav_self || not d.have_slaves || not d.is_enabled
    then mystatus
    else calc_aggr_status gravity mystatus statuses d.darps
