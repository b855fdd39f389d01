-- ===== src/Monel/Aggregate/Down.antt =====
-- Gravity down: a group is as bad as its worst child.
use argus.Prelude.{zero, suc, ◌≤◌, ◌<◌, ◌≡◌, ◌≢◌, refl, ◌⊎◌, inl, inr, List, arith}
use native.Mathlib.Decide.{dec_lt}
use argus.Status.{Status, unknown}
use argus.Status.Gravity.{grav_dn}
use argus.Monel.Aggregate.{scan_down, calc_aggr_status, aggregate, count_statuses, no_counts}
use argus.Monel.Aggregate.Counts.{AllNamed, count, counts-count}

-- `r` is the worst of the statuses from clear to `max`, or unknown where there is none.
pub record IsWorst (max : Status) (xs : List Status) (r : Status) : Type 0 where
  pub in_range : r ≤ max
  pub taken : r ≢ unknown → 0 < count r xs
  pub no_worse : (s : Status) → r < s → s ≤ max → count s xs ≡ 0

scan_down-cases :
    (sev : Status) (xs : List Status)
    → AllNamed xs
    → (0 < count (suc sev) xs) × (scan_down (suc sev) (count_statuses no_counts xs) ≡ suc sev)
      ⊎ (count (suc sev) xs ≡ 0)
        × (scan_down (suc sev) (count_statuses no_counts xs)
            ≡ scan_down sev (count_statuses no_counts xs))
unfolding scan_down
scan_down-cases sev xs h = ground (arith, counts-count xs (suc sev) h)

IsWorst-found :
    (sev : Status) (xs : List Status) → 0 < count (suc sev) xs → IsWorst (suc sev) xs (suc sev)
IsWorst-found sev xs c = record {
  in_range = omega arith;
  taken = λ n. c;
  no_worse = λ s p q. absurd (omega arith);
}

IsWorst-suc :
    (sev : Status) (xs : List Status) (r : Status)
    → count (suc sev) xs ≡ 0
    → IsWorst sev xs r
    → IsWorst (suc sev) xs r
IsWorst-suc sev xs r z w = record {
  in_range = omega (arith, w.in_range);
  taken = w.taken;
  no_worse = λ s p q. elim (dec_lt sev s) [
    | yes l ↦ let e : s ≡ suc sev = omega arith in rw e z
    | no n ↦ w.no_worse s p (omega arith)
  ];
}

scan_down-IsWorst :
    (max : Status) (xs : List Status)
    → AllNamed xs
    → IsWorst max xs (scan_down max (count_statuses no_counts xs))
scan_down-IsWorst zero xs h =
    unfold scan_down in
    record {
      in_range = omega arith;
      taken = λ n. absurd (n refl);
      no_worse = λ s p q. absurd (omega arith);
    }
scan_down-IsWorst (suc sev) xs h = elim (scan_down-cases sev xs h) [
  | inl (c, e) ↦ rw e (IsWorst-found sev xs c)
  | inr (z, e) ↦ rw e (IsWorst-suc sev xs _ z (scan_down-IsWorst sev xs h))
]

-- Under gravity down the aggregate is the worst known status up to `max`, or unknown without one.
pub aggregate-IsWorst :
    (max : Status) (xs : List Status) → AllNamed xs → IsWorst max xs (aggregate grav_dn max xs)
unfolding aggregate calc_aggr_status
aggregate-IsWorst max xs h = scan_down-IsWorst max xs h
