-- ===== src/Monel/Stats.antt =====
-- Uptime statistics of an element: argus/monel/stats.go. Durations are integers, since the clock
-- may step back. What time.Unix(t, 0).Local() gives is a parameter.
pub mod Accounts
use argus.Prelude.{
  ℕ, zero, suc, ◌+◌, ◌-◌, ◌*◌, ◌/◌, Bool, true, false, ◌&&◌, ◌||◌, not, List, [], ◌∷◌, ltb, ◌==◌,
  if◌then◌else◌, length, take,
}
use argus.Prelude.Int.{ℤ, pos, ◌+ℤ◌, ◌-ℤ◌}
use argus.Status.{Status, unknown, clear}

pub record StatDat : Type 0 where
  pub start : ℤ  -- nanoseconds
  pub elapsed : ℤ  -- seconds
  pub ndown : ℕ
  pub tup : ℤ  -- seconds
  pub tdn : ℤ  -- seconds

pub record Stats : Type 0 where
  pub lastt : ℤ  -- seconds
  pub status : Status
  pub daily : List StatDat
  pub monthly : List StatDat
  pub yearly : List StatDat

pub record Date : Type 0 where
  pub year : ℕ
  pub month : ℕ
  pub day : ℕ
  pub hour : ℕ
  pub min : ℕ
  pub sec : ℕ

-- The moment of a call: clock.Nano(), clock.Unix(), and the local calendar of a Unix time.
pub record Clock : Type 0 where
  pub nano : ℕ
  pub calendar : ℤ → Date

abbrev pub secsnano : ℕ
secsnano = 1000000000

abbrev pub unix : Clock → ℕ
unix c = c.nano / secsnano

abbrev pub maxstat : ℕ
maxstat = 14

abbrev pub blank : ℤ → StatDat
blank t = record { start = t; elapsed = pos 0; ndown = 0; tup = pos 0; tdn = pos 0 }

-- Start times are whole seconds in nanoseconds; `t * SECSNANO`.
abbrev pub in_nanos : ℤ → ℤ
in_nanos (pos t) = pos (t * secsnano)
in_nanos (ℤ.negsuc t) = pos 0 -ℤ pos (suc t * secsnano)

-- x / SECSNANO, which truncates toward zero
abbrev pub in_secs : ℤ → ℤ
in_secs (pos t) = pos (t / secsnano)
in_secs (ℤ.negsuc t) = pos 0 -ℤ pos (suc t / secsnano)

-- statsRollOverStat: a new entry in front, and at most MAXSTAT of them.
unfoldable pub stats_roll_over_stat : List StatDat → ℤ → List StatDat
stats_roll_over_stat s t = take maxstat (blank (in_nanos t) ∷ s)

-- x[0] = f x[0]; the code keeps the three lists from being empty, where it would panic.
abbrev pub at_head : (StatDat → StatDat) → List StatDat → List StatDat
at_head f [] = []
at_head f (d ∷ ds) = f d ∷ ds

abbrev pub on_heads : (StatDat → StatDat) → Stats → Stats
on_heads f s = record s {
  daily = at_head f s.daily;
  monthly = at_head f s.monthly;
  yearly = at_head f s.yearly;
}

abbrev pub add_elapsed : ℤ → Bool → StatDat → StatDat
add_elapsed dt up d =
    if up
    then record d { elapsed = d.elapsed +ℤ dt; tup = d.tup +ℤ dt }
    else record d { elapsed = d.elapsed +ℤ dt; tdn = d.tdn +ℤ dt }

abbrev pub is_zero : ℤ → Bool
is_zero (pos zero) = true
is_zero _ = false

-- statsUpdate
unfoldable pub stats_update : ℤ → Stats → Stats
stats_update t s =
    let dt = t -ℤ s.lastt in
    if is_zero dt
    then s
    else record (on_heads (add_elapsed dt (s.status == clear || s.status == unknown)) s) {
      lastt = t;
    }

abbrev pub count_down : StatDat → StatDat
count_down d = record d { ndown = d.ndown + 1 }

-- statsRollOver
unfoldable pub stats_roll_over : Date → Date → ℤ → Stats → Stats
unfolding stats_roll_over_stat
stats_roll_over ct lt midnite s = record s {
  daily = stats_roll_over_stat s.daily midnite;
  monthly = if ct.month == lt.month then s.monthly else stats_roll_over_stat s.monthly midnite;
  yearly = if ct.year == lt.year then s.yearly else stats_roll_over_stat s.yearly midnite;
}

-- The seconds since midnight.
abbrev pub ssm : Date → ℕ
ssm ct = (ct.hour * 60 + ct.min) * 60 + ct.sec

-- statsUpdateMaybeRoll, but for WebTime. The Boolean tells that the day changed.
unfoldable pub stats_update_maybe_roll : Clock → Stats → Stats × Bool
unfolding stats_update stats_roll_over
stats_update_maybe_roll c s =
    let now = pos (unix c) in
    let lt = c.calendar s.lastt in
    let ct = c.calendar now in
    if lt.day == ct.day
    then (stats_update now s, false)
    else (let midnite = now -ℤ pos (ssm ct) in
        (stats_update now (stats_roll_over ct lt midnite (stats_update midnite s)), true))

-- statsTransition for an element whose status is `status`
unfoldable pub stats_transition : Clock → Status → Stats → Stats × Bool
unfolding stats_update_maybe_roll
stats_transition c status s =
    let (s', rolled) = stats_update_maybe_roll c s in
    if status == unknown || s'.status == unknown
    then (record s' { status = status }, rolled)
    else if s'.status == clear && not (status == clear)
    then (record (on_heads count_down s') { status = status }, rolled)
    else (record s' { status = status }, rolled)

abbrev pub or_first : Clock → List StatDat → List StatDat
or_first c [] = blank (pos c.nano) ∷ []
or_first c (d ∷ ds) = d ∷ ds

abbrev pub head_start : List StatDat → ℤ
head_start [] = pos 0
head_start (d ∷ ds) = d.start

-- statsInitMaybeRoll
unfoldable pub stats_init_maybe_roll : Clock → Stats → Stats
unfolding stats_roll_over_stat
stats_init_maybe_roll c s =
    let now = pos (unix c) in
    let ct = c.calendar now in
    let ld = c.calendar (in_secs (head_start s.daily)) in
    let lm = c.calendar (in_secs (head_start s.monthly)) in
    let ly = c.calendar (in_secs (head_start s.yearly)) in
    record s {
      daily =
          if ct.day == ld.day && ct.month == ld.month && ct.year == ld.year
          then s.daily
          else stats_roll_over_stat s.daily now;
      monthly =
          if ct.month == lm.month && ct.year == lm.year
          then s.monthly
          else stats_roll_over_stat s.monthly now;
      yearly = if ct.year == ly.year then s.yearly else stats_roll_over_stat s.yearly now;
    }

-- The assignments that statsInit makes itself.
unfoldable pub stats_first : Clock → Status → Stats → Stats
stats_first c status s = record s {
  lastt = pos (unix c);
  status = if is_zero s.lastt then status else s.status;
  daily = or_first c s.daily;
  monthly = or_first c s.monthly;
  yearly = or_first c s.yearly;
}

-- statsInit for an element whose status is `status`
unfoldable pub stats_init : Clock → Status → Stats → Stats × Bool
unfolding stats_transition stats_init_maybe_roll stats_first
stats_init c status s = stats_transition c status (stats_init_maybe_roll c (stats_first c status s))
