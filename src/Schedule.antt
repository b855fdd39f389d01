-- ===== src/Schedule.antt =====
-- Schedules of values by weekday and time of day: argus/argus/schedule.go.
pub mod Lookup
use argus.Prelude.{
  ℕ, ◌+◌, ◌*◌, Bool, true, false, ◌||◌, Option, none, some, List, [], ◌∷◌, ◌++◌, ltb, leb, ◌==◌,
  if◌then◌else◌,
}
use argus.Text.{Text}
use argus.Status.{check_bool}

pub record ScheduleItem : Type 0 where
  pub dow : Option ℕ  -- `none` is the source's -1, every day
  pub start : ℕ  -- hhmm
  pub end : ℕ  -- hhmm
  pub val : Text

pub record Schedule : Type 0 where
  pub sched : List ScheduleItem

-- What time.Now() gives: the weekday (0 is Sunday), the hour and the minute.
pub record LocalTime : Type 0 where
  pub weekday : ℕ
  pub hour : ℕ
  pub minute : ℕ

-- hrs*100 + min
abbrev pub hhmm : LocalTime → ℕ
hhmm now = now.hour * 100 + now.minute

unfoldable pub other_day : Option ℕ → ℕ → Bool
other_day none dow = false
other_day (some d) dow = if d == dow then false else true

-- The loop of ResultNow: each `continue` goes on with the rest.
unfoldable pub result_at : List ScheduleItem → LocalTime → Text → Text
unfolding other_day
result_at [] now def = def
result_at (r ∷ rest) now def =
    if other_day r.dow now.weekday
    then result_at rest now def
    else if ltb (hhmm now) r.start
    then result_at rest now def
    else if leb r.end (hhmm now)
    then result_at rest now def
    else r.val

-- Schedule.ResultNow
unfoldable pub result_now : Schedule → LocalTime → Text → Text
unfolding result_at
result_now s now def = result_at s.sched now def

-- Schedule.PermitNow
unfoldable pub permit_now : Schedule → LocalTime → Text → Bool
permit_now s now def = check_bool (result_now s now def)

-- ScheduleAlways
unfoldable pub schedule_always : Text → Schedule
schedule_always v = record { sched = record { dow = none; start = 0; end = 2400; val = v } ∷ [] }

-- Schedule.Append
unfoldable pub append_item : Schedule → Option ℕ → ℕ → ℕ → Text → Schedule
append_item s dow start end value = record {
  sched = s.sched ++ record { dow = dow; start = start; end = end; val = value } ∷ [];
}
