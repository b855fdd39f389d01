-- ===== src/Darp/Tally.antt =====
-- What the loop over the hosts counts.
use argus.Prelude.{
  ℕ, zero, suc, ◌+◌, ◌<◌, ◌≡◌, refl, ◌∙◌, inl, inr, Bool, true, false, List, [], ◌∷◌, arith, ◌==◌,
  if◌then◌else◌, get_or, length, length-set, Bool-cases,
}
use argus.Text.{Text}
use argus.Dict.{Dict}
use argus.Status.{Status, unknown}
use argus.Status.Gravity.{Gravity, grav_ietf}
use argus.Monel.Aggregate.{bump, no_counts}
use argus.Monel.Aggregate.Counts.{AllNamed, count, get_or-bump, no_counts_lem}
use argus.Darp.{status_of, count_hosts, fold_unknown}

-- The statuses that count: under ietf, those of the hosts that are up.
unfoldable pub reported : Gravity → Dict Status → List (Text × Bool) → List Status
reported gravity statuses [] = []
reported gravity statuses ((host, up) ∷ ds) =
    if up
    then status_of statuses host ∷ reported gravity statuses ds
    else if gravity == grav_ietf
    then reported gravity statuses ds
    else status_of statuses host ∷ reported gravity statuses ds

-- Each place of the array but the first holds how many of the statuses `xs` are the one.
pub record Counted (c : List ℕ) (xs : List Status) : Type 0 where
  pub same : (i : ℕ) → 0 < i → get_or c i 0 ≡ count i xs

module _ (gravity : Gravity) (statuses : Dict Status) where
  pub nstatus_lem :
      (ds : List (Text × Bool)) (c : List ℕ) (n : ℕ)
      → (count_hosts gravity statuses ds c n).1 ≡ n + length (reported gravity statuses ds)
  unfolding count_hosts reported
  nstatus_lem [] c n = omega arith
  nstatus_lem ((host, up) ∷ ds) c n =
      let s = status_of statuses host in
      ground (arith, nstatus_lem ds (bump c s) (n + 1), nstatus_lem ds (bump c unknown) n)

  count_hosts_lem :
      (ds : List (Text × Bool)) (c : List ℕ) (n i : ℕ)
      → AllNamed (reported gravity statuses ds)
      → length c ≡ 8
      → 0 < i
      → get_or (count_hosts gravity statuses ds c n).0 i 0
        ≡ get_or c i 0 + count i (reported gravity statuses ds)
  unfolding count_hosts reported count
  count_hosts_lem [] c n i h l p = omega arith
  count_hosts_lem ((host, true) ∷ ds) c n i h l p =
      let s = status_of statuses host in
      omega (
        arith,
        count_hosts_lem ds (bump c s) (n + 1) i h.1 (length-set c s (get_or c s 0 + 1) ∙ l) p,
        get_or-bump c s i (omega arith),
      )
  count_hosts_lem ((host, false) ∷ ds) c n i h l p = elim (Bool-cases (gravity == grav_ietf)) [
    | inl ietf ↦ rw ietf (
        grind (
          arith,
          count_hosts_lem ds (bump c unknown) n i (rw ietf at h)
              (length-set c unknown (get_or c unknown 0 + 1) ∙ l) p,
          get_or-bump c unknown i (omega arith),
        ))
    | inr other ↦
        let s = status_of statuses host in
        let h' : AllNamed (s ∷ reported gravity statuses ds) = rw other at h in
        rw other (
          omega (
            arith,
            count_hosts_lem ds (bump c s) (n + 1) i h'.1 (length-set c s (get_or c s 0 + 1) ∙ l) p,
            get_or-bump c s i (omega arith),
          ))
  ]

fold_unknown_lem : (c : List ℕ) (i : ℕ) → 0 < i → get_or (fold_unknown c) i 0 ≡ get_or c i 0
unfolding fold_unknown
fold_unknown_lem [] i p = ground arith
fold_unknown_lem (x ∷ xs) zero p = ground arith
fold_unknown_lem (x ∷ xs) (suc i) p = refl

pub counted :
    (gravity : Gravity) (statuses : Dict Status) (ds : List (Text × Bool))
    → AllNamed (reported gravity statuses ds)
    → Counted
        (fold_unknown (count_hosts gravity statuses ds no_counts 0).0)
        (reported gravity statuses ds)
counted gravity statuses ds h = record {
  same = λ i p. omega (
    arith,
    fold_unknown_lem (count_hosts gravity statuses ds no_counts 0).0 i p,
    count_hosts_lem gravity statuses ds no_counts 0 i h refl p,
    no_counts_lem i,
  );
}
