-- ===== src/Status.antt =====
-- Severities and how they are named: argus/argus/status.go, gravity.go, darpmode.go, bool.go. The
-- Go types are ints with named constants; a number stands for itself here.
pub mod Gravity
pub mod Names
use argus.Prelude.{ℕ, String, Bool, true, false, ◌||◌, [], ◌∷◌, ltb, if◌then◌else◌, get_or, List}
use argus.Text.{Text, codes, text_eq, to_lower}

abbrev pub Status : Type 0
Status = ℕ

abbrev pub unknown : Status
unknown = 0

abbrev pub clear : Status
clear = 1

abbrev pub warning : Status
warning = 2

abbrev pub minor : Status
minor = 3

abbrev pub major : Status
major = 4

abbrev pub critical : Status
critical = 5

abbrev pub override : Status
override = 6

abbrev pub depends : Status
depends = 7

abbrev pub max_status : Status
max_status = 7

abbrev pub statusname : List Text
statusname =
    codes "unknown"
    ∷ codes "clear"
    ∷ codes "warning"
    ∷ codes "minor"
    ∷ codes "major"
    ∷ codes "critical"
    ∷ codes "override"
    ∷ codes "depends"
    ∷ []

-- Status.String
unfoldable pub status_string : Status → Text
status_string s = if ltb max_status s then codes "invalid" else get_or statusname s []

-- StatusValue
unfoldable pub status_value : Text → Status
status_value name =
    let lower = to_lower name in
    if text_eq lower (codes "clear")
    then clear
    else if text_eq lower (codes "warning")
    then warning
    else if text_eq lower (codes "minor")
    then minor
    else if text_eq lower (codes "major")
    then major
    else if text_eq lower (codes "critical")
    then critical
    else unknown

-- CheckBool
unfoldable pub check_bool : Text → Bool
check_bool v =
    text_eq v (codes "yes")
    || text_eq v (codes "YES")
    || text_eq v (codes "on")
    || text_eq v (codes "ON")
    || text_eq v (codes "true")
    || text_eq v (codes "TRUE")
    || text_eq v (codes "1")
