-- ===== src/Darp/Weigh.antt =====
-- How a service's status follows from those that the hosts report.
use argus.Prelude.{
  ℕ, zero, suc, ◌+◌, ◌*◌, ◌/◌, ◌≤◌, ◌<◌, ◌≡◌, refl, ◌⊎◌, inl, inr, Bool, true, false, List, arith,
  ltb, leb, get_or, length,
}
use native.Mathlib.Decide.{dec_lt}
use argus.Text.{Text}
use argus.Dict.{Dict}
use argus.Status.{Status, clear, critical}
use argus.Status.Gravity.{Gravity, grav_up, grav_dn, grav_vote, grav_ietf, grav_self}
use argus.Monel.Aggregate.{no_counts}
use argus.Monel.Aggregate.Counts.{AllNamed, count}
use argus.Monel.Aggregate.Vote.{up_to, up_to-suc}
use argus.Darp.{best_from, worst_from, vote_from, weigh, calc_aggr_status}
use argus.Darp.Tally.{reported, Counted, counted, nstatus_lem}

-- `r` is the first of the severities from clear to critical of which `P` holds, or clear if it holds
-- of none.
pub record IsFirst (P : Status → Type 0) (r : Status) : Type 0 where
  pub in_range : (clear ≤ r) × (r ≤ critical)
  pub before : (s : Status) → clear ≤ s → s < r → ¬ P s
  pub hit : P r ⊎ (r ≡ clear) × ((s : Status) → clear ≤ s → s ≤ critical → ¬ P s)

-- As IsFirst, from critical down.
pub record IsLast (P : Status → Type 0) (r : Status) : Type 0 where
  pub in_range : (clear ≤ r) × (r ≤ critical)
  pub after : (s : Status) → r < s → s ≤ critical → ¬ P s
  pub hit : P r ⊎ (r ≡ clear) × ((s : Status) → clear ≤ s → s ≤ critical → ¬ P s)

IsFirst-none :
    (P : Status → Type 0) → ((s : Status) → clear ≤ s → s ≤ critical → ¬ P s) → IsFirst P clear
IsFirst-none P h = record {
  in_range = (omega arith, omega arith);
  before = λ s l m. absurd (omega arith);
  hit = inr (refl, h);
}

IsFirst-here :
    (P : Status → Type 0) (i : Status)
    → P i
    → clear ≤ i
    → i ≤ critical
    → ((s : Status) → clear ≤ s → s < i → ¬ P s)
    → IsFirst P i
IsFirst-here P i p l m h = record { in_range = (l, m); before = h; hit = inl p }

-- The loop may go on past `i` with what it knows of the severities before.
not_before-suc :
    (P : Status → Type 0) (i : Status)
    → ¬ P i
    → ((s : Status) → clear ≤ s → s < i → ¬ P s)
    → (s : Status) → clear ≤ s
    → s < i + 1
    → ¬ P s
not_before-suc P i n h s l m = elim (dec_lt s i) [
  | yes b ↦ h s l b
  | no b ↦ let e : s ≡ i = omega arith in rw e n
]

abbrev pub Present : List Status → Status → Type 0
Present xs s = 0 < count s xs

-- At least half of the statuses are known and not worse.
abbrev pub Half : List Status → Status → Type 0
Half xs s = length xs ≤ 2 * up_to s xs

module _ (c : List ℕ) (xs : List Status) (k : Counted c xs) where
  best_from-IsFirst :
      (n : ℕ) (i : Status)
      → clear ≤ i
      → i + n ≡ 6
      → ((s : Status) → clear ≤ s → s < i → ¬ Present xs s)
      → IsFirst (Present xs) (best_from n i c)
  unfolding best_from
  best_from-IsFirst zero i l e h = IsFirst-none (Present xs) λ s a b. h s a (omega arith)
  best_from-IsFirst (suc n) i l e h = elim (dec_lt 0 (get_or c i 0)) [
    | yes p ↦
        let t : ltb 0 (get_or c i 0) ≡ true = ground arith in
        rw t (IsFirst-here (Present xs) i (omega (arith, k.same i l)) l (omega arith) h)
    | no p ↦
        let t : ltb 0 (get_or c i 0) ≡ false = ground arith in
        rw t (
          best_from-IsFirst n (i + 1) (omega arith) (omega arith)
            (not_before-suc (Present xs) i (λ q. omega (arith, k.same i l)) h))
  ]

  IsLast-cases :
      (i : Status)
      → (r : Status)
      → (0 < get_or c (suc i) 0) × (r ≡ suc i) ⊎ (get_or c (suc i) 0 ≡ 0) × IsLast (Present xs) r
      → ((s : Status) → suc i < s → s ≤ critical → ¬ Present xs s)
      → suc i ≤ critical
      → IsLast (Present xs) r
  IsLast-cases i r (inl (p, e)) h m = rw e (record {
    in_range = (omega arith, m);
    after = h;
    hit = inl (omega (arith, k.same (suc i) (omega arith)));
  })
  IsLast-cases i r (inr (z, w)) h m = w

  worst_from-IsLast :
      (i : Status)
      → i ≤ critical
      → ((s : Status) → i < s → s ≤ critical → ¬ Present xs s)
      → IsLast (Present xs) (worst_from i c)
  unfolding worst_from
  worst_from-IsLast zero m h = record {
    in_range = (omega arith, omega arith);
    after = λ s a b. h s (omega arith) b;
    hit = inr (refl, λ s a b. h s (omega arith) b);
  }
  worst_from-IsLast (suc i) m h = elim (dec_lt 0 (get_or c (suc i) 0)) [
    | yes p ↦
        let t : ltb 0 (get_or c (suc i) 0) ≡ true = ground arith in
        rw t (IsLast-cases i (suc i) (inl (p, refl)) h m)
    | no p ↦
        let t : ltb 0 (get_or c (suc i) 0) ≡ false = ground arith in
        rw t (
          worst_from-IsLast i (omega arith) λ s a b. elim (dec_lt (suc i) s) [
            | yes l ↦ h s l b
            | no l ↦
                let e : s ≡ suc i = omega arith in
                rw e (λ q. omega (arith, k.same (suc i) (omega arith)))
          ])
  ]

  vote_from-IsFirst :
      (n : ℕ) (p : Status)
      → p + n ≡ 5
      → ((s : Status) → clear ≤ s → s < p + 1 → ¬ Half xs s)
      → IsFirst (Half xs) (vote_from n (p + 1) (up_to p xs) ((length xs + 1) / 2) c)
  unfolding vote_from
  vote_from-IsFirst zero p e h = IsFirst-none (Half xs) λ s a b. h s a (omega arith)
  vote_from-IsFirst (suc n) p e h =
      let total = k.same (p + 1) (omega arith) in
      elim (dec_lt (up_to p xs + get_or c (p + 1) 0) ((length xs + 1) / 2)) [
        | yes l ↦
            let t : leb ((length xs + 1) / 2) (up_to p xs + get_or c (p + 1) 0) ≡ false =
              ground arith in
            let sum : up_to p xs + get_or c (p + 1) 0 ≡ up_to (p + 1) xs =
              omega (arith, total, up_to-suc p xs) in
            rw (t, sum)
              (vote_from-IsFirst n (p + 1) (omega arith)
                (not_before-suc (Half xs) (p + 1) (λ q. omega arith) h))
        | no l ↦
            let t : leb ((length xs + 1) / 2) (up_to p xs + get_or c (p + 1) 0) ≡ true =
              ground arith in
            rw t (
              IsFirst-here (Half xs) (p + 1) (omega (arith, total, up_to-suc p xs)) (omega arith)
                (omega arith) h)
      ]

-- The status by gravity.
pub record Weighed (gravity : Gravity) (mystatus : Status) (xs : List Status) (r : Status)
    : Type 0 where
  pub own : gravity ≡ grav_self → r ≡ mystatus
  pub best : gravity ≡ grav_up → IsFirst (Present xs) r
  pub worst : gravity ≡ grav_dn → IsLast (Present xs) r
  pub voted : (gravity ≡ grav_vote) ⊎ (gravity ≡ grav_ietf) → IsFirst (Half xs) r

vote-IsFirst :
    (gravity : Gravity) (mystatus : Status) (c : List ℕ) (n : ℕ) (xs : List Status)
    → Counted c xs
    → (gravity ≡ grav_vote) ⊎ (gravity ≡ grav_ietf)
    → n ≡ 0 + length xs
    → IsFirst (Half xs) (weigh gravity mystatus c n)
unfolding weigh up_to
vote-IsFirst gravity mystatus c n xs k (inl e) l =
    let l' : n ≡ length xs = omega arith in
    rw (e, l') (vote_from-IsFirst c xs k 5 0 refl (λ s a b. absurd (omega arith)))
vote-IsFirst gravity mystatus c n xs k (inr e) l =
    let l' : n ≡ length xs = omega arith in
    rw (e, l') (vote_from-IsFirst c xs k 5 0 refl (λ s a b. absurd (omega arith)))

weigh-Weighed :
    (gravity : Gravity) (mystatus : Status) (c : List ℕ) (n : ℕ) (xs : List Status)
    → Counted c xs
    → n ≡ 0 + length xs
    → Weighed gravity mystatus xs (weigh gravity mystatus c n)
unfolding weigh
weigh-Weighed gravity mystatus c n xs k l = record {
  own = λ e. rw e refl;
  best = λ e.
      rw e (best_from-IsFirst c xs k 5 clear (omega arith) refl (λ s a b. absurd (omega arith)));
  worst =
      λ e. rw e (worst_from-IsLast c xs k critical (omega arith) (λ s a b. absurd (omega arith)));
  voted = λ e. vote-IsFirst gravity mystatus c n xs k e l;
}

-- For named statuses, of the statuses that the hosts report, under ietf only those of hosts that
-- are up: gravity up takes the best from clear to critical that is there, gravity down the worst,
-- and vote and ietf the first that at least half of them reach; each gives clear if there is none,
-- so also where the hosts mostly report unknown. Under gravity self the own status is taken.
pub calc_aggr_status-Weighed :
    (gravity : Gravity) (mystatus : Status) (statuses : Dict Status) (ds : List (Text × Bool))
    → AllNamed (reported gravity statuses ds)
    → Weighed gravity mystatus
        (reported gravity statuses ds)
        (calc_aggr_status gravity mystatus statuses ds)
unfolding calc_aggr_status
calc_aggr_status-Weighed gravity mystatus statuses ds h =
    weigh-Weighed gravity mystatus _ _ _ (counted gravity statuses ds h)
      (nstatus_lem gravity statuses ds no_counts 0)
