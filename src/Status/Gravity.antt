-- ===== src/Status/Gravity.antt =====
-- argus/argus/gravity.go and darpmode.go.
use argus.Prelude.{ℕ, ◌||◌, List, [], ◌∷◌, ltb, if◌then◌else◌, get_or}
use argus.Text.{Text, codes, text_eq, to_lower}

abbrev pub Gravity : Type 0
Gravity = ℕ

abbrev pub grav_up : Gravity
grav_up = 0

abbrev pub grav_dn : Gravity
grav_dn = 1

abbrev pub grav_vote : Gravity
grav_vote = 2

abbrev pub grav_ietf : Gravity
grav_ietf = 3

abbrev pub grav_self : Gravity
grav_self = 4

abbrev pub gravityname : List Text
gravityname = codes "up" ∷ codes "down" ∷ codes "vote" ∷ codes "ietf" ∷ codes "self" ∷ []

-- Gravity.String
unfoldable pub gravity_string : Gravity → Text
gravity_string g = if ltb grav_self g then codes "invalid" else get_or gravityname g []

-- GravityValue
unfoldable pub gravity_value : Text → Gravity
gravity_value name =
    let lower = to_lower name in
    if text_eq lower (codes "up")
    then grav_up
    else if text_eq lower (codes "down")
    then grav_dn
    else if text_eq lower (codes "vote")
    then grav_vote
    else if text_eq lower (codes "ietf")
    then grav_ietf
    else if text_eq lower (codes "self")
    then grav_self
    else grav_up

abbrev pub DarpMode : Type 0
DarpMode = ℕ

abbrev pub mode_none : DarpMode
mode_none = 0

abbrev pub mode_failover : DarpMode
mode_failover = 1

abbrev pub mode_distributed : DarpMode
mode_distributed = 2

abbrev pub mode_redundant : DarpMode
mode_redundant = 3

abbrev pub darp_mode_name : List Text
darp_mode_name = codes "none" ∷ codes "failover" ∷ codes "distributed" ∷ codes "redundant" ∷ []

-- DarpMode.String
unfoldable pub darp_mode_string : DarpMode → Text
darp_mode_string d = if ltb mode_redundant d then codes "invalid" else get_or darp_mode_name d []

-- DarpModeValue
unfoldable pub darp_mode_value : Text → DarpMode
darp_mode_value name =
    let lower = to_lower name in
    if text_eq lower (codes "none")
    then mode_none
    else if text_eq lower (codes "failover")
    then mode_failover
    else if text_eq lower (codes "distributed") || text_eq lower (codes "distrib")
    then mode_distributed
    else if text_eq lower (codes "redundant") || text_eq lower (codes "redund")
    then mode_redundant
    else mode_none
