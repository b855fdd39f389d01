-- ===== src/Monel/Aggregate/Up.antt =====
-- Gravity up: a group is as good as its best child.
use argus.Prelude.{ℕ, zero, suc, ◌+◌, ◌≤◌, ◌<◌, ◌≡◌, ◌≢◌, refl, ◌⊎◌, inl, inr, List, arith}
use native.Mathlib.Decide.{dec_lt}
use argus.Status.{Status, clear}
use argus.Status.Gravity.{grav_up}
use argus.Monel.Aggregate.{scan_up, calc_aggr_status, aggregate, count_statuses, no_counts}
use argus.Monel.Aggregate.Counts.{AllNamed, count, counts-count}

-- `r` is the best of the statuses from clear to `max`, or clear where there is none.
pub record IsBest (max : Status) (xs : List Status) (r : Status) : Type 0 where
  pub in_range : clear ≤ r
  pub taken : r ≢ clear → (r ≤ max) × (0 < count r xs)
  pub no_better : (s : Status) → clear ≤ s → s < r → count s xs ≡ 0
  pub nothing : (s : Status) → count r xs ≡ 0 → clear ≤ s → s ≤ max → count s xs ≡ 0

-- The scan from `sev`, when the statuses before it are not there.
record Scanned (sev top : Status) (xs : List Status) (r : Status) : Type 0 where
  found :
      (sev ≤ r) × (r < top) × (0 < count r xs) × ((s : Status) → sev ≤ s → s < r → count s xs ≡ 0)
      ⊎ (r ≡ clear) × ((s : Status) → sev ≤ s → s < top → count s xs ≡ 0)

scan_up-cases :
    (n : ℕ) (sev : Status) (xs : List Status)
    → AllNamed xs
    → (0 < count sev xs) × (scan_up (suc n) sev (count_statuses no_counts xs) ≡ sev)
      ⊎ (count sev xs ≡ 0)
        × (scan_up (suc n) sev (count_statuses no_counts xs)
            ≡ scan_up n (sev + 1) (count_statuses no_counts xs))
unfolding scan_up
scan_up-cases n sev xs h = ground (arith, counts-count xs sev h)

none_at :
    (sev s : Status) (xs : List Status)
    → count sev xs ≡ 0
    → sev ≤ s
    → (sev + 1 ≤ s → count s xs ≡ 0)
    → count s xs ≡ 0
none_at sev s xs z p later = elim (dec_lt sev s) [
  | yes l ↦ later (omega arith)
  | no n ↦ let e : s ≡ sev = omega arith in rw e z
]

Scanned-later :
    (sev top : Status) (xs : List Status) (r : Status)
    → count sev xs ≡ 0
    → Scanned (sev + 1) top xs r
    → Scanned sev top xs r
Scanned-later sev top xs r z w = elim w.found [
  | inl (a, b, c, d) ↦ record {
    found = inl (omega arith, b, c, λ s p q. none_at sev s xs z p (λ l. d s l q));
  }
  | inr (a, d) ↦ record { found = inr (a, λ s p q. none_at sev s xs z p (λ l. d s l q)) }
]

scan_up-Scanned :
    (n : ℕ) (sev top : Status) (xs : List Status)
    → AllNamed xs
    → sev + n ≡ top
    → Scanned sev top xs (scan_up n sev (count_statuses no_counts xs))
scan_up-Scanned zero sev top xs h e =
    unfold scan_up in record { found = inr (refl, λ s p q. absurd (omega arith)) }
scan_up-Scanned (suc n) sev top xs h e = elim (scan_up-cases n sev xs h) [
  | inl (c, f) ↦
      rw f (record { found = inl (omega arith, omega arith, c, λ s p q. absurd (omega arith)) })
  | inr (z, f) ↦
      rw f (Scanned-later sev top xs _ z (scan_up-Scanned n (sev + 1) top xs h (omega arith)))
]

IsBest-Scanned :
    (max : Status) (xs : List Status) (r : Status) → Scanned clear (suc max) xs r → IsBest max xs r
IsBest-Scanned max xs r w = elim w.found [
  | inl (a, b, c, d) ↦ record {
    in_range = a;
    taken = λ n. (omega arith, c);
    no_better = d;
    nothing = λ s z. absurd (omega arith);
  }
  | inr (a, d) ↦ record {
    in_range = omega arith;
    taken = λ n. absurd (n a);
    no_better = λ s p q. absurd (omega arith);
    nothing = λ s z p q. d s p (omega arith);
  }
]

-- Under gravity up the aggregate is the best of the statuses from clear to `max` that a child has,
-- or clear if no child has one of them.
pub aggregate-IsBest :
    (max : Status) (xs : List Status) → AllNamed xs → IsBest max xs (aggregate grav_up max xs)
unfolding aggregate calc_aggr_status
aggregate-IsBest max xs h =
    IsBest-Scanned max xs _ (scan_up-Scanned max clear (suc max) xs h (omega arith))
