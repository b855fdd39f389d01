-- ===== src/Monel/Stats/Accounts.antt =====
-- Every entry of the statistics accounts for the time that it covers.
use argus.Prelude.{
  ℕ, zero, suc, ◌≤◌, ◌<◌, ◌≡◌, refl, Bool, true, false, List, [], ◌∷◌, arith, length, take,
  length-take, ◌==◌, if◌then◌else◌, Bool-cases, inl, inr,
}
use argus.Prelude.Int.{ℤ, pos, ◌+ℤ◌, ◌-ℤ◌, int_laws}
use argus.Status.{Status}
use argus.Monel.Stats.{
  StatDat, Stats, Clock, Date, maxstat, at_head, stats_roll_over_stat, stats_update,
  stats_roll_over, stats_update_maybe_roll, stats_transition, stats_init_maybe_roll, stats_first,
  stats_init, is_zero, on_heads, add_elapsed, count_down, unix, or_first,
}

abbrev pub AllBalanced : List StatDat → Type 0
AllBalanced [] = Unit {0}
AllBalanced (d ∷ ds) = (d.elapsed ≡ d.tup +ℤ d.tdn) × AllBalanced ds

-- A list of entries is not empty, keeps to MAXSTAT, and every entry's time is up or down time.
pub record IsKept (ds : List StatDat) : Type 0 where
  pub some_entry : 0 < length ds
  pub capped : length ds ≤ maxstat
  pub balanced : AllBalanced ds

pub record IsSound (s : Stats) : Type 0 where
  pub daily : IsKept s.daily
  pub monthly : IsKept s.monthly
  pub yearly : IsKept s.yearly

AllBalanced-take : (n : ℕ) (ds : List StatDat) → AllBalanced ds → AllBalanced (take n ds)
AllBalanced-take zero ds h = tt
AllBalanced-take (suc n) [] h = tt
AllBalanced-take (suc n) (d ∷ ds) h = (h.0, AllBalanced-take n ds h.1)

-- Kept, but for the first entry that a new element lacks.
pub record IsLoaded (ds : List StatDat) : Type 0 where
  pub capped : length ds ≤ maxstat
  pub balanced : AllBalanced ds

stats_roll_over_stat-IsKept :
    (ds : List StatDat) (t : ℤ) → IsKept ds → IsKept (stats_roll_over_stat ds t)
unfolding stats_roll_over_stat ◌+ℤ◌
stats_roll_over_stat-IsKept ds t h = record {
  some_entry = omega arith;
  capped = omega (arith, length-take 13 ds);
  balanced = (refl, AllBalanced-take 13 ds h.balanced);
}

IsKept-if :
    (b : Bool) (ds es : List StatDat) → IsKept ds → IsKept es → IsKept (if b then ds else es)
IsKept-if true ds es h k = h
IsKept-if false ds es h k = k

-- An entry stays balanced under `f`.
abbrev KeepsBalance : (StatDat → StatDat) → Type 0
KeepsBalance f = (d : StatDat) → d.elapsed ≡ d.tup +ℤ d.tdn → (f d).elapsed ≡ (f d).tup +ℤ (f d).tdn

at_head-IsKept :
    (f : StatDat → StatDat)
    → KeepsBalance f
    → (ds : List StatDat) → IsKept ds
    → IsKept (at_head f ds)
at_head-IsKept f k [] h = h
at_head-IsKept f k (d ∷ ds) h = record {
  some_entry = omega arith;
  capped = h.capped;
  balanced = (k d h.balanced.0, h.balanced.1);
}

add_up : (e u d dt : ℤ) → e ≡ u +ℤ d → e +ℤ dt ≡ u +ℤ dt +ℤ d
add_up e u d dt h = rw h (omega int_laws)

add_down : (e u d dt : ℤ) → e ≡ u +ℤ d → e +ℤ dt ≡ u +ℤ (d +ℤ dt)
add_down e u d dt h = rw h (omega int_laws)

add_elapsed-KeepsBalance : (dt : ℤ) (up : Bool) → KeepsBalance (add_elapsed dt up)
add_elapsed-KeepsBalance dt true d h = add_up d.elapsed d.tup d.tdn dt h
add_elapsed-KeepsBalance dt false d h = add_down d.elapsed d.tup d.tdn dt h

on_heads-IsSound :
    (f : StatDat → StatDat) → KeepsBalance f → (s : Stats) → IsSound s → IsSound (on_heads f s)
on_heads-IsSound f k s h = record {
  daily = at_head-IsKept f k s.daily h.daily;
  monthly = at_head-IsKept f k s.monthly h.monthly;
  yearly = at_head-IsKept f k s.yearly h.yearly;
}

IsSound-same :
    (s : Stats) (l : ℤ) (st : Status) → IsSound s → IsSound (record s { lastt = l; status = st })
IsSound-same s l st h = record { daily = h.daily; monthly = h.monthly; yearly = h.yearly }

stats_update-IsSound : (t : ℤ) (s : Stats) → IsSound s → IsSound (stats_update t s)
unfolding stats_update
stats_update-IsSound t s h = elim (Bool-cases (is_zero (t -ℤ s.lastt))) [
  | inl e ↦ rw e h
  | inr e ↦ rw e (
      IsSound-same (on_heads (add_elapsed (t -ℤ s.lastt) _) s) t s.status
        (on_heads-IsSound _ (add_elapsed-KeepsBalance (t -ℤ s.lastt) _) s h))
]

stats_roll_over-IsSound :
    (ct lt : Date) (t : ℤ) (s : Stats) → IsSound s → IsSound (stats_roll_over ct lt t s)
unfolding stats_roll_over
stats_roll_over-IsSound ct lt t s h = record {
  daily = stats_roll_over_stat-IsKept s.daily t h.daily;
  monthly = IsKept-if _ _ _ h.monthly (stats_roll_over_stat-IsKept s.monthly t h.monthly);
  yearly = IsKept-if _ _ _ h.yearly (stats_roll_over_stat-IsKept s.yearly t h.yearly);
}

-- A periodic update keeps every entry balanced, over a change of day, month or year too.
maybe_roll-IsSound : (c : Clock) (s : Stats) → IsSound s → IsSound (stats_update_maybe_roll c s).0
unfolding stats_update_maybe_roll
maybe_roll-IsSound c s h =
    elim (Bool-cases ((c.calendar s.lastt).day == (c.calendar (pos (unix c))).day)) [
      | inl e ↦ rw e (stats_update-IsSound _ s h)
      | inr e ↦ rw e (
          stats_update-IsSound _ _ (
            stats_roll_over-IsSound (c.calendar (pos (unix c))) (c.calendar s.lastt) _ _
              (stats_update-IsSound _ s h)))
    ]

count_down-KeepsBalance : KeepsBalance count_down
count_down-KeepsBalance d h = h

IsSound-if :
    (b : Bool) (s t : Stats × Bool) → IsSound s.0 → IsSound t.0 → IsSound (if b then s else t).0
IsSound-if true s t h k = h
IsSound-if false s t h k = k

-- statsTransition keeps the three lists sound, whatever the status and the clock.
pub transition-IsSound :
    (c : Clock) (status : Status) (s : Stats) → IsSound s → IsSound (stats_transition c status s).0
unfolding stats_transition
transition-IsSound c status s h =
    let k = maybe_roll-IsSound c s h in
    let s' = (stats_update_maybe_roll c s).0 in
    IsSound-if _ _ _ (IsSound-same s' s'.lastt status k) (
      IsSound-if _ _ _
        (IsSound-same (on_heads count_down s') s'.lastt status
          (on_heads-IsSound count_down count_down-KeepsBalance s' k))
        (IsSound-same s' s'.lastt status k))

-- What a loaded file must satisfy: the lists may be empty.
pub record IsRestored (s : Stats) : Type 0 where
  pub daily : IsLoaded s.daily
  pub monthly : IsLoaded s.monthly
  pub yearly : IsLoaded s.yearly

or_first-IsKept : (c : Clock) (ds : List StatDat) → IsLoaded ds → IsKept (or_first c ds)
unfolding ◌+ℤ◌
or_first-IsKept c [] h = record {
  some_entry = omega arith;
  capped = omega arith;
  balanced = (refl, tt);
}
or_first-IsKept c (d ∷ ds) h = record {
  some_entry = omega arith;
  capped = h.capped;
  balanced = h.balanced;
}

init_maybe_roll-IsSound : (c : Clock) (s : Stats) → IsSound s → IsSound (stats_init_maybe_roll c s)
unfolding stats_init_maybe_roll
init_maybe_roll-IsSound c s h = record {
  daily = IsKept-if _ _ _ h.daily (stats_roll_over_stat-IsKept s.daily (pos (unix c)) h.daily);
  monthly =
      IsKept-if _ _ _ h.monthly (stats_roll_over_stat-IsKept s.monthly (pos (unix c)) h.monthly);
  yearly = IsKept-if _ _ _ h.yearly (stats_roll_over_stat-IsKept s.yearly (pos (unix c)) h.yearly);
}

stats_first-IsSound :
    (c : Clock) (status : Status) (s : Stats) → IsRestored s → IsSound (stats_first c status s)
unfolding stats_first
stats_first-IsSound c status s h = record {
  daily = or_first-IsKept c s.daily h.daily;
  monthly = or_first-IsKept c s.monthly h.monthly;
  yearly = or_first-IsKept c s.yearly h.yearly;
}

-- statsInit makes the statistics sound, for a new element, whose lists are empty, and for a
-- restored one, whose lists keep to the limit and are balanced.
pub init-IsSound :
    (c : Clock) (status : Status) (s : Stats) → IsRestored s → IsSound (stats_init c status s).0
unfolding stats_init
init-IsSound c status s h =
    transition-IsSound c status _ (init_maybe_roll-IsSound c _ (stats_first-IsSound c status s h))
