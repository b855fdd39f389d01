-- ===== src/Examples/Distribution.antt =====
-- Two hosts, one of which asks and goes: the theorem at a concrete input.
use argus.Prelude.{◌≡◌, refl, true, false, ◌||◌, some, List, [], ◌∷◌}
use argus.Text.{codes, text_eq}
use argus.Dict.{insert, lookup}
use argus.Darp.States.{DarpHost, Darps, no_darps, new_darp, get_statuses, is_up_now}
use argus.Darp.States.Heard.{Event, request, closed, after_all, heard_of, is_up_now-heard_of}

abbrev slave : DarpHost
slave = record { name = codes "b"; type = codes "slave"; fetch_config = codes "a"; port = 2055 }

abbrev alone : Darps
alone = (new_darp (codes "a") slave no_darps).0

abbrev events : List Event
events = request 1000 (codes "b") ∷ closed (codes "b") ∷ request 900 (codes "b") ∷ []

is_up_test : is_up_now 1060 (codes "b") (after_all events alone) ≡ true
unfolding is_up_now after_all new_darp lookup insert
is_up_test = refl

is_up_now-heard_of_example :
    (is_up_now 1060 (codes "b") (after_all events alone)
      ≡ (text_eq (codes "b") alone.my_id || heard_of 1060 (codes "b") events))
    × (lookup (codes "b") (get_statuses 1060 (after_all events alone))
        ≡ some (text_eq (codes "b") alone.my_id || heard_of 1060 (codes "b") events))
unfolding new_darp lookup insert
is_up_now-heard_of_example =
    is_up_now-heard_of 1060 (codes "b") events alone (record { is_up = false; lastt = 0 }) refl refl
      refl
