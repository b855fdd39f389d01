-- ===== src/Monel/Aggregate/Range.antt =====
-- The aggregate is a status of the range that was scanned.
use argus.Prelude.{ℕ, zero, suc, ◌+◌, ◌≤◌, List, arith, Bool-cases, inl, inr, ◌==◌, get_or}
use argus.Status.{Status, clear}
use argus.Status.Gravity.{Gravity, grav_up, grav_dn}
use argus.Monel.Aggregate.{scan_down, scan_up, scan_vote, calc_aggr_status, aggregate}

scan_down-le : (sev : Status) (counts : List ℕ) → scan_down sev counts ≤ sev
unfolding scan_down
scan_down-le zero counts = omega arith
scan_down-le (suc sev) counts = ground (arith, scan_down-le sev counts)

scan_up-le :
    (n : ℕ) (sev max : Status) (counts : List ℕ)
    → clear ≤ max
    → sev + n ≤ max + 1
    → scan_up n sev counts ≤ max
unfolding scan_up
scan_up-le zero sev max counts c h = c
scan_up-le (suc n) sev max counts c h = ground (arith, scan_up-le n (sev + 1) max counts c)

scan_vote-le :
    (n : ℕ) (sev : Status) (cum lim : ℕ) (max : Status) (counts : List ℕ)
    → sev + n ≤ max + 1
    → scan_vote n sev cum lim counts ≤ max
unfolding scan_vote
scan_vote-le zero sev cum lim max counts h = omega arith
scan_vote-le (suc n) sev cum lim max counts h =
    ground (arith, scan_vote-le n (sev + 1) (cum + get_or counts sev 0) lim max counts)

pub aggregate-le :
    (grav : Gravity) (max : Status) (xs : List Status) → clear ≤ max → aggregate grav max xs ≤ max
unfolding aggregate calc_aggr_status
aggregate-le grav max xs c = elim (Bool-cases (grav == grav_dn)) [
  | inl d ↦ rw d (scan_down-le max _)
  | inr d ↦ rw d (elim (Bool-cases (grav == grav_up)) [
    | inl u ↦ rw u (scan_up-le max clear max _ c (omega arith))
    | inr u ↦ rw u (scan_vote-le max clear 0 _ max _ (omega arith))
  ])
]
