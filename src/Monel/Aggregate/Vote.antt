-- ===== src/Monel/Aggregate/Vote.antt =====
-- The default gravities: a group is as bad as half of its children.
use argus.Prelude.{
  ℕ, zero, suc, ◌+◌, ◌-◌, ◌*◌, ◌/◌, ◌≤◌, ◌<◌, ◌≡◌, ◌≢◌, refl, ◌⊎◌, inl, inr, List, [], ◌∷◌, arith,
  leb, ◌==◌, if◌then◌else◌, get_or, length,
}
use native.Mathlib.Decide.{dec_lt}
use argus.Status.{Status, unknown, clear, max_status}
use argus.Status.Gravity.{Gravity, grav_up, grav_dn}
use argus.Monel.Aggregate.{scan_vote, calc_aggr_status, aggregate, count_statuses, no_counts}
use argus.Monel.Aggregate.Counts.{AllNamed, count, counts-count}

-- How many children have a status from clear to `s`.
unfoldable pub up_to : Status → List Status → ℕ
up_to zero xs = 0
up_to (suc s) xs = up_to s xs + count (suc s) xs

-- `r` is the first status that half of the known children do not exceed.
pub record IsMedian (xs : List Status) (r : Status) : Type 0 where
  pub in_range : (clear ≤ r) × (r ≤ max_status)
  pub half : length xs ≤ 2 * up_to r xs + count unknown xs
  pub first : (s : Status) → s < r → (s ≡ unknown) ⊎ (2 * up_to s xs + count unknown xs < length xs)

pub up_to-suc : (s : Status) (xs : List Status) → up_to (s + 1) xs ≡ up_to s xs + count (s + 1) xs
unfolding up_to
up_to-suc s xs = let e : s + 1 ≡ suc s = omega arith in rw e

up_to-cons :
    (s x : Status) (xs : List Status)
    → up_to s (x ∷ xs) ≡ (if x == 0 then 0 else if leb x s then 1 else 0) + up_to s xs
unfolding up_to count
up_to-cons zero x xs = ground arith
up_to-cons (suc s) x xs = ground (arith, up_to-cons s x xs)

-- All named statuses are unknown or lie from clear to the greatest.
up_to-all : (xs : List Status) → AllNamed xs → up_to max_status xs + count unknown xs ≡ length xs
unfolding count
up_to-all [] h = unfold up_to in refl
up_to-all (x ∷ xs) h = ground (arith, up_to-cons max_status x xs, up_to-all xs h.1)

-- The scan stops at the first status whose running total reaches the limit.
record Stops (lim : ℕ) (xs : List Status) (r : Status) : Type 0 where
  within : (clear ≤ r) × (r ≤ max_status)
  reached : lim ≤ up_to r xs
  before : (s : Status) → s < r → (s ≡ unknown) ⊎ (up_to s xs < lim)

scan_vote-cases :
    (n lim : ℕ) (p : Status) (xs : List Status)
    → AllNamed xs
    → let counts = count_statuses no_counts xs in
      (lim ≤ up_to (p + 1) xs) × (scan_vote (suc n) (p + 1) (up_to p xs) lim counts ≡ p + 1)
      ⊎ (up_to (p + 1) xs < lim)
        × (scan_vote (suc n) (p + 1) (up_to p xs) lim counts
            ≡ scan_vote n (p + 1 + 1) (up_to (p + 1) xs) lim counts)
unfolding scan_vote
scan_vote-cases n lim p xs h = rw (up_to-suc p xs) (rw (counts-count xs (p + 1) h) (ground arith))

scan_vote-Stops :
    (n lim : ℕ) (p : Status) (xs : List Status)
    → AllNamed xs
    → p + n ≡ max_status
    → lim ≤ up_to max_status xs
    → ((s : Status) → s ≤ p → (s ≡ unknown) ⊎ (up_to s xs < lim))
    → Stops lim xs (scan_vote n (p + 1) (up_to p xs) lim (count_statuses no_counts xs))
scan_vote-Stops zero lim p xs h e top low = elim (low max_status (omega arith)) [
  | inl z ↦ absurd (omega arith)
  | inr l ↦ absurd (omega arith)
]
scan_vote-Stops (suc n) lim p xs h e top low = elim (scan_vote-cases n lim p xs h) [
  | inl (c, f) ↦ rw f (record {
    within = (omega arith, omega arith);
    reached = c;
    before = λ s q. low s (omega arith);
  })
  | inr (c, f) ↦ rw f (
      scan_vote-Stops n lim (p + 1) xs h (omega arith) top λ s q. elim (dec_lt p s) [
        | yes l ↦ let g : s ≡ p + 1 = omega arith in inr (rw g c)
        | no m ↦ low s (omega arith)
      ])
]

Stops-IsMedian :
    (xs : List Status) (r : Status)
    → AllNamed xs
    → Stops ((length xs - count unknown xs + 1) / 2) xs r
    → IsMedian xs r
Stops-IsMedian xs r h w = record {
  in_range = w.within;
  half = omega (arith, w.reached);
  first =
      λ s p. elim (w.before s p) [ inl e ↦ inl e | inr l ↦ inr (omega (arith, up_to-all xs h)) ];
}

calc_vote :
    (grav : Gravity) (tot : ℕ) (max : Status) (counts : List ℕ)
    → grav ≢ grav_dn
    → grav ≢ grav_up
    → calc_aggr_status grav tot max counts
      ≡ scan_vote max clear 0 ((tot - get_or counts unknown 0 + 1) / 2) counts
unfolding calc_aggr_status
calc_vote grav tot max counts d u = ground arith

scan_all-Stops :
    (xs : List Status) (lim : ℕ)
    → AllNamed xs
    → lim ≤ up_to max_status xs
    → Stops lim xs (scan_vote max_status clear 0 lim (count_statuses no_counts xs))
unfolding up_to
scan_all-Stops xs lim h top =
    scan_vote-Stops 7 lim 0 xs h (omega arith) top (λ s p. inl (omega arith))

-- Under every gravity but up and down, the aggregate of the overall statuses is the first from
-- clear on that at least half of the known children do not exceed; it is never unknown.
pub aggregate-IsMedian :
    (grav : Gravity) (xs : List Status)
    → AllNamed xs
    → grav ≢ grav_dn
    → grav ≢ grav_up
    → IsMedian xs (aggregate grav max_status xs)
unfolding aggregate
aggregate-IsMedian grav xs h d u = rw (calc_vote grav _ max_status _ d u) (
    rw (counts-count xs unknown h)
      (Stops-IsMedian xs _ h (scan_all-Stops xs _ h (omega (arith, up_to-all xs h)))))
