-- ===== src/Monel/Aggregate.antt =====
-- How the status of an element follows from those of its children: calcAggrStatus and the counts
-- of determineAggrStatus in argus/monel/transition.go.
pub mod Counts
pub mod Down
pub mod Up
pub mod Vote
pub mod Range
use argus.Prelude.{
  ℕ, zero, suc, ◌+◌, ◌-◌, ◌/◌, Bool, List, [], ◌∷◌, ltb, leb, ◌==◌, if◌then◌else◌, get_or, set,
  replicate, length,
}
use argus.Status.{Status, unknown, clear, max_status}
use argus.Status.Gravity.{Gravity, grav_up, grav_dn}

-- rsum[rs]++
abbrev pub bump : List ℕ → Status → List ℕ
bump sum s = set sum s (get_or sum s 0 + 1)

-- rsum := [argus.MAXSTATUS + 1]int{}
abbrev pub no_counts : List ℕ
no_counts = replicate 8 0

-- The loop over the children of determineAggrStatus, for one of its two arrays.
unfoldable pub count_statuses : List ℕ → List Status → List ℕ
count_statuses sum [] = sum
count_statuses sum (s ∷ rest) = count_statuses (bump sum s) rest

-- for sev := max; sev >= argus.CLEAR; sev-- ; after it the function returns UNKNOWN
unfoldable pub scan_down : Status → List ℕ → Status
scan_down zero statuses = unknown
scan_down (suc sev) statuses =
    if ltb 0 (get_or statuses (suc sev) 0) then suc sev else scan_down sev statuses

-- for sev := argus.CLEAR; sev <= max; sev++ ; the first argument is the rounds left
unfoldable pub scan_up : ℕ → Status → List ℕ → Status
scan_up zero sev statuses = clear
scan_up (suc n) sev statuses =
    if ltb 0 (get_or statuses sev 0) then sev else scan_up n (sev + 1) statuses

-- The loop of the default case, with `cum` and `lim`; after it the function returns UNKNOWN.
unfoldable pub scan_vote : ℕ → Status → ℕ → ℕ → List ℕ → Status
scan_vote zero sev cum lim statuses = unknown
scan_vote (suc n) sev cum lim statuses =
    let cum' = cum + get_or statuses sev 0 in
    if leb lim cum' then sev else scan_vote n (sev + 1) cum' lim statuses

-- calcAggrStatus. `tot` counts all children, so the subtraction does not fall below 0.
unfoldable pub calc_aggr_status : Gravity → ℕ → Status → List ℕ → Status
calc_aggr_status grav tot max statuses =
    let known = tot - get_or statuses unknown 0 in
    if grav == grav_dn
    then scan_down max statuses
    else if grav == grav_up
    then scan_up max clear statuses
    else scan_vote max clear 0 ((known + 1) / 2) statuses

-- One aggregate of determineAggrStatus: the children's statuses counted, then weighed.
unfoldable pub aggregate : Gravity → Status → List Status → Status
aggregate grav max children =
    calc_aggr_status grav (length children) max (count_statuses no_counts children)
