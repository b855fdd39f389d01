-- ===== src/Monel/Determine.antt =====
-- How the status, the overall status and the summary of an element are determined:
-- argus/monel/transition.go and depends.go.
use argus.Prelude.{
  ℕ, ◌+◌, Bool, true, false, ◌||◌, not, Option, none, some, List, [], ◌∷◌, map, ◌==◌, if◌then◌else◌,
  set, length, replicate,
}
use argus.Text.{Text}
use argus.Status.{Status, unknown, clear, critical, override, depends, max_status}
use argus.Monel.Aggregate.{aggregate}
use argus.Monel.State.{Ptr, Override, Persist, M, World, modify_p}
use argus.Monel.Children.{find, me_children}

unfoldable pub aggregated : List Ptr → Ptr → World → World
aggregated [] m w = modify_p m (λ p. record p { ov_status = p.status }) w
aggregated (c ∷ cs) m w =
    let grav = (w.elem m).cf.gravity in
    let rs = aggregate grav critical (map (λ q. (w.elem q).p.status) (c ∷ cs)) in
    let os = aggregate grav max_status (map (λ q. (w.elem q).p.ov_status) (c ∷ cs)) in
    modify_p m (λ p. record p { status = rs; ov_status = os }) w

-- determineAggrStatus
unfoldable pub determine_aggr_status : Ptr → World → World
unfolding aggregated
determine_aggr_status m w = let (cs, w') = me_children m w in aggregated cs m w'

abbrev pub is_up : Status → Bool
is_up st = st == clear || st == unknown

unfoldable pub depend_on : Ptr → Text → Option Ptr → World → World × Bool
depend_on m name none w = (w, false)
depend_on m name (some o) w =
    if is_up (w.elem o).p.ov_status
    then (w, false)
    else (modify_p m (λ p. record p { ov_status = depends; alarm = false; culprit = name }) w, true)

-- The loop of checkDepends: the first dependency that is not up decides.
unfoldable pub check_each : Ptr → List Text → World → World × Bool
unfolding depend_on
check_each m [] w = (w, false)
check_each m (name ∷ rest) w =
    let (w', found) = depend_on m name (find name w) w in
    let later = check_each m rest w in if found then (w', true) else later

-- checkDepends
unfoldable pub check_depends : Ptr → World → World × Bool
check_depends m w = check_each m (w.elem m).depends w

abbrev pub is_set : Option Override → Bool
is_set none = false
is_set (some o) = true

unfoldable pub override_status : Persist → Persist
override_status p =
    if p.status == clear || p.status == unknown
    then p
    else if p.ov_status == depends
    then p
    else if is_set p.override
    then record p { ov_status = override }
    else p

-- checkOverride
unfoldable pub check_override : Ptr → World → World
unfolding override_status
check_override m w = modify_p m override_status w

-- determineStatus: the new state, and whether the overall status changed
unfoldable pub determine_status : Ptr → World → World × Bool
determine_status m w =
    let prevo = (w.elem m).p.ov_status in
    let w' = check_override m (check_depends m (determine_aggr_status m w)).0 in
    (w', not ((w'.elem m).p.ov_status == prevo))

-- The addition of a child's summary; the array has a place for every status.
unfoldable pub add_counts : List ℕ → List ℕ → List ℕ
add_counts [] ys = []
add_counts (x ∷ xs) [] = x ∷ xs
add_counts (x ∷ xs) (y ∷ ys) = (x + y) ∷ add_counts xs ys

unfoldable pub sum_summaries : List Ptr → World → List ℕ → List ℕ
sum_summaries [] w acc = acc
sum_summaries (c ∷ cs) w acc = sum_summaries cs w (add_counts acc (w.elem c).p.ov_status_summary)

abbrev pub no_summary : List ℕ
no_summary = replicate 8 0

unfoldable pub summary_of : List Ptr → M → World → List ℕ
unfolding sum_summaries
summary_of cs x w =
    if length cs == 0 || x.cf.countstop
    then set no_summary x.p.ov_status 1
    else if is_set x.p.override
    then set no_summary override (length x.children)
    else sum_summaries cs w no_summary

-- determineSummary. Past the test for an override, the loop's own test for one never holds.
unfoldable pub determine_summary : Ptr → World → World
unfolding summary_of
determine_summary m w =
    let (cs, w') = me_children m w in
    modify_p m (λ p. record p { ov_status_summary = summary_of cs (w'.elem m) w' }) w'
