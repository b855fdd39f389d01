-- ===== src/Examples/Names.antt =====
-- Names, schedules and tag lists at concrete inputs.
use argus.Prelude.{◌≡◌, refl, true, false, some, [], ◌∷◌, any}
use argus.Text.{codes, fields_func}
use argus.Schedule.{ScheduleItem, Schedule, LocalTime, result_now}
use argus.Tags.{is_blank, includes_from, includes_tag}
use argus.Tags.Words.{accepts, includes_tag-any}

abbrev business_hours : ScheduleItem
business_hours = record { dow = some 1; start = 900; end = 1700; val = codes "yes" }

abbrev office : Schedule
office = record { sched = business_hours ∷ [] }

abbrev monday_noon : LocalTime
monday_noon = record { weekday = 1; hour = 12; minute = 0 }

office_open : result_now office monday_noon (codes "no") ≡ codes "yes"
unfolding result_now
office_open = refl

staff_listed : includes_tag (codes "user staff root") (codes "staff") false ≡ true
unfolding includes_tag includes_from
staff_listed = refl

includes_tag-any_example :
    includes_tag (codes "user staff") (codes "root") true
    ≡ any (accepts (codes "root") true) (fields_func is_blank (codes "user staff"))
includes_tag-any_example = includes_tag-any (codes "user staff") (codes "root") true
