-- ===== src/Monel/Aggregate/Counts.antt =====
-- The array of counts against the list of statuses that it counts.
use argus.Prelude.{
  ℕ, zero, suc, ◌+◌, ◌≤◌, ◌<◌, ◌≡◌, refl, List, [], ◌∷◌, arith, ◌==◌, if◌then◌else◌, get_or, length,
  length-set, ◌∙◌,
}
use argus.Status.{Status, max_status}
use argus.Monel.Aggregate.{bump, no_counts, count_statuses}

-- How many of the statuses are `s`.
unfoldable pub count : Status → List Status → ℕ
count s [] = 0
count s (x ∷ xs) = (if x == s then 1 else 0) + count s xs

-- Every status is a named one, so that it indexes the array.
abbrev pub AllNamed : List Status → Type 0
AllNamed [] = Unit {0}
AllNamed (x ∷ xs) = (x ≤ max_status) × AllNamed xs

pub get_or-bump :
    (sum : List ℕ) (s i : ℕ)
    → s < length sum
    → get_or (bump sum s) i 0 ≡ (if s == i then 1 else 0) + get_or sum i 0
get_or-bump [] s i h = absurd (omega arith)
get_or-bump (x ∷ xs) zero zero h = ground arith
get_or-bump (x ∷ xs) zero (suc i) h = ground arith
get_or-bump (x ∷ xs) (suc s) zero h = ground arith
get_or-bump (x ∷ xs) (suc s) (suc i) h = ground (arith, get_or-bump xs s i)

get_or-count_statuses :
    (sum : List ℕ) (xs : List Status) (i : ℕ)
    → AllNamed xs
    → length sum ≡ 8
    → get_or (count_statuses sum xs) i 0 ≡ get_or sum i 0 + count i xs
unfolding count_statuses count
get_or-count_statuses sum [] i h l = omega arith
get_or-count_statuses sum (x ∷ xs) i h l = omega (
  arith,
  get_or-count_statuses (bump sum x) xs i h.1 (length-set sum x (get_or sum x 0 + 1) ∙ l),
  get_or-bump sum x i (omega arith),
)

pub no_counts_lem : (i : ℕ) → get_or no_counts i 0 ≡ 0
no_counts_lem i = ground arith

-- Each place of the array holds the number of the children with that status.
pub counts-count :
    (xs : List Status) (i : ℕ) → AllNamed xs → get_or (count_statuses no_counts xs) i 0 ≡ count i xs
counts-count xs i h = omega (arith, get_or-count_statuses no_counts xs i h refl, no_counts_lem i)
