-- ===== src/Schedule/Lookup.antt =====
-- A schedule answers with its first item that covers the moment.
use argus.Prelude.{
  ℕ, ◌≤◌, ◌<◌, ◌≡◌, refl, ◌⊎◌, inl, inr, Option, none, some, List, [], ◌∷◌, ◌++◌, arith,
}
use argus.Text.{Text}
use argus.Schedule.{
  ScheduleItem, Schedule, LocalTime, hhmm, result_at, result_now, schedule_always, append_item,
}

abbrev pub OnDay : Option ℕ → ℕ → Type 0
OnDay none weekday = Unit
OnDay (some d) weekday = d ≡ weekday

-- The day fits, and the time of day lies in [start, end).
pub record Covers (now : LocalTime) (r : ScheduleItem) : Type 0 where
  pub day : OnDay r.dow now.weekday
  pub from : r.start ≤ hhmm now
  pub before : hhmm now < r.end

-- The value that a schedule means: that of the first item that covers the moment, if one does.
pub data Answers (now : LocalTime) (def : Text) : List ScheduleItem → Text → Type 0 where
  nothing : Answers now def [] def
  here :
      (r : ScheduleItem) (rest : List ScheduleItem)
      → Covers now r
      → Answers now def (r ∷ rest) r.val
  later :
      (r : ScheduleItem) {rest : List ScheduleItem} {v : Text}
      → ¬ Covers now r
      → Answers now def rest v
      → Answers now def (r ∷ rest) v

result_at-cases :
    (now : LocalTime) (def : Text) (r : ScheduleItem) (rest : List ScheduleItem)
    → Covers now r × (result_at (r ∷ rest) now def ≡ r.val)
      ⊎ (¬ Covers now r) × (result_at (r ∷ rest) now def ≡ result_at rest now def)
unfolding result_at
result_at-cases now def r rest = ground arith

result_at-Answers :
    (items : List ScheduleItem) (now : LocalTime) (def : Text)
    → Answers now def items (result_at items now def)
unfolding result_at
result_at-Answers [] now def = nothing
result_at-Answers (r ∷ rest) now def = elim (result_at-cases now def r rest) [
  | inl (c, e) ↦ rw e (here r rest c)
  | inr (n, e) ↦ rw e (later r n (result_at-Answers rest now def))
]

-- ResultNow gives the value of the first item that covers the moment, or the default if none does.
pub result_now-Answers :
    (s : Schedule) (now : LocalTime) (def : Text) → Answers now def s.sched (result_now s now def)
unfolding result_now
result_now-Answers s now def = result_at-Answers s.sched now def

-- An appended item is asked only where the schedule has no answer of its own.
result_now-append_item :
    (s : Schedule) (d : Option ℕ) (from to : ℕ) (v : Text) (now : LocalTime) (def : Text)
    → result_now (append_item s d from to v) now def
      ≡ result_now s now (result_now (append_item (record { sched = [] }) d from to v) now def)
unfolding result_now append_item
result_now-append_item s d from to v now def = go s.sched
  where
    item : ScheduleItem
    item = record { dow = d; start = from; end = to; val = v }

    go :
        (l : List ScheduleItem)
        → result_at (l ++ item ∷ []) now def ≡ result_at l now (result_at (item ∷ []) now def)
    go [] = refl
    go (r ∷ rest) = ground (arith, go rest)

-- A schedule that always has a value gives it at every time of day.
result_now-always :
    (v : Text) (now : LocalTime) (def : Text)
    → now.hour < 24
    → now.minute < 60
    → result_now (schedule_always v) now def ≡ v
unfolding result_now schedule_always
result_now-always v now def h m = ground arith
