-- ===== src/Monel/Invariant.antt =====
-- What holds of every element between two handlers, and that determining a status keeps it.
pub mod Handlers
pub mod Reachable
use argus.Prelude.{
  ℕ, zero, suc, ◌+◌, ◌-◌, ◌≤◌, ◌<◌, ◌≡◌, refl, ap, ◌∙◌, ◌⊎◌, inl, inr, Bool, true, false, ◌&&◌,
  ◌||◌, not, Option, none, some, List, [], ◌∷◌, map, arith, ◌==◌, if◌then◌else◌, length, length-set,
  set, Bool-cases,
}
use argus.Text.{Text}
use argus.Status.{Status, clear, unknown, critical, override, depends, max_status}
use argus.Monel.Aggregate.{aggregate}
use argus.Monel.Aggregate.Range.{aggregate-le}
use argus.Monel.Stats.Accounts.{IsSound}
use argus.Monel.State.{Ptr, Me, service, group, alias, Persist, M, World, modify, modify_p}
use argus.Monel.Children.{
  find, add_parent, alias_lookup, resolved, children_of, me_children, alias_children,
}
use argus.Monel.Determine.{
  aggregated, summary_of, determine_aggr_status, depend_on, check_each, check_depends,
  check_override, override_status, determine_status, add_counts, sum_summaries, no_summary,
  determine_summary, is_set, is_up,
}
use argus.Monel.Transition.{maxlog}

-- Statuses are named ones, the summary has a place for each, the log keeps to its limit, and the
-- statistics are sound.
pub record IsWell (p : Persist) : Type 0 where
  pub status_named : p.status ≤ max_status
  pub ov_named : p.ov_status ≤ max_status
  pub summary_full : length p.ov_status_summary ≡ 8
  pub log_capped : length p.log ≤ maxlog
  pub stats_sound : IsSound p.stats

pub record AllWell (w : World) : Type 0 where
  pub at : (q : Ptr) → IsWell (w.elem q).p

pub modify-AllWell :
    (m : Ptr) (f : M → M) (w : World) → AllWell w → IsWell (f (w.elem m)).p → AllWell (modify m f w)
unfolding modify
modify-AllWell m f w h k = record {
  at = λ q. elim (Bool-cases (m == q)) [ inl e ↦ rw e k | inr e ↦ rw e (h.at q) ];
}

-- A change outside what is persisted.
pub modify-AllWell_same :
    (m : Ptr) (f : M → M) (w : World)
    → ((x : M) → (f x).p ≡ x.p)
    → AllWell w
    → AllWell (modify m f w)
modify-AllWell_same m f w e h = modify-AllWell m f w h (rw (e (w.elem m)) (h.at m))

resolved-AllWell :
    (a : Ptr) (target : Text) (o : Option Ptr) (w : World)
    → AllWell w
    → AllWell (resolved a target o w).1
unfolding resolved add_parent
resolved-AllWell a target none w h = h
resolved-AllWell a target (some t) w h =
    modify-AllWell_same a _ _ (λ x. refl) (modify-AllWell_same t _ w (λ x. refl) h)

children_of-AllWell : (me : Me) (m : Ptr) (w : World) → AllWell w → AllWell (children_of me m w).1
unfolding children_of alias_lookup
children_of-AllWell service m w h = h
children_of-AllWell group m w h = h
children_of-AllWell (alias target none) m w h = resolved-AllWell m target (find target w) w h
children_of-AllWell (alias target (some t)) m w h = h

me_children-AllWell : (m : Ptr) (w : World) → AllWell w → AllWell (me_children m w).1
unfolding me_children
me_children-AllWell m w h = children_of-AllWell (w.elem m).me m w h

-- The overall status and the status may be assigned any named ones.
IsWell-statuses :
    (p : Persist) (rs os : Status)
    → IsWell p
    → rs ≤ max_status
    → os ≤ max_status
    → IsWell (record p { status = rs; ov_status = os })
IsWell-statuses p rs os h r o = record {
  status_named = r;
  ov_named = o;
  summary_full = h.summary_full;
  log_capped = h.log_capped;
  stats_sound = h.stats_sound;
}

aggregated-AllWell : (cs : List Ptr) (m : Ptr) (w : World) → AllWell w → AllWell (aggregated cs m w)
unfolding aggregated
aggregated-AllWell [] m w h =
    let k = h.at m in
    modify-AllWell m _ w h (IsWell-statuses (w.elem m).p _ _ k k.status_named k.status_named)
aggregated-AllWell (c ∷ cs) m w h =
    let grav = (w.elem m).cf.gravity in
    modify-AllWell m _ w h (
      IsWell-statuses (w.elem m).p _ _ (h.at m)
        (omega (
          arith,
          aggregate-le grav critical (map (λ q. (w.elem q).p.status) (c ∷ cs)) (omega arith),
        ))
        (aggregate-le grav max_status _ (omega arith)))

determine_aggr-AllWell : (m : Ptr) (w : World) → AllWell w → AllWell (determine_aggr_status m w)
unfolding determine_aggr_status
determine_aggr-AllWell m w h =
    aggregated-AllWell (me_children m w).0 m (me_children m w).1 (me_children-AllWell m w h)

depend_on-AllWell :
    (m : Ptr) (name : Text) (o : Option Ptr) (w : World)
    → AllWell w
    → AllWell (depend_on m name o w).0
unfolding depend_on
depend_on-AllWell m name none w h = h
depend_on-AllWell m name (some o) w h = elim (Bool-cases (is_up (w.elem o).p.ov_status)) [
  | inl e ↦ rw e h
  | inr e ↦ rw e (
      let k = h.at m in
      modify-AllWell m _ w h (record {
        status_named = k.status_named;
        ov_named = omega arith;
        summary_full = k.summary_full;
        log_capped = k.log_capped;
        stats_sound = k.stats_sound;
      }))
]

check_each-AllWell :
    (m : Ptr) (names : List Text) (w : World) → AllWell w → AllWell (check_each m names w).0
unfolding check_each
check_each-AllWell m [] w h = h
check_each-AllWell m (name ∷ rest) w h = elim (Bool-cases (depend_on m name (find name w) w).1) [
  | inl e ↦ rw e (depend_on-AllWell m name (find name w) w h)
  | inr e ↦ rw e (check_each-AllWell m rest w h)
]

stats_kept : (p : Persist) → (override_status p).stats ≡ p.stats
unfolding override_status
stats_kept p = ground arith

override_status-IsWell : (p : Persist) → IsWell p → IsWell (override_status p)
unfolding override_status
override_status-IsWell p h = record {
  status_named = ground arith;
  ov_named = ground arith;
  summary_full = ground arith;
  log_capped = ground arith;
  stats_sound = rw (stats_kept p) h.stats_sound;
}

check_override-AllWell : (m : Ptr) (w : World) → AllWell w → AllWell (check_override m w)
unfolding check_override
check_override-AllWell m w h = modify-AllWell m _ w h (override_status-IsWell (w.elem m).p (h.at m))

pub determine_status-AllWell : (m : Ptr) (w : World) → AllWell w → AllWell (determine_status m w).0
unfolding determine_status check_depends
determine_status-AllWell m w h = check_override-AllWell m _ (
    check_each-AllWell m ((determine_aggr_status m w).elem m).depends _
      (determine_aggr-AllWell m w h))

length-add_counts : (xs ys : List ℕ) → length (add_counts xs ys) ≡ length xs
unfolding add_counts
length-add_counts [] ys = refl
length-add_counts (x ∷ xs) [] = refl
length-add_counts (x ∷ xs) (y ∷ ys) = ap suc (length-add_counts xs ys)

length-sum_summaries :
    (cs : List Ptr) (w : World) (acc : List ℕ) → length (sum_summaries cs w acc) ≡ length acc
unfolding sum_summaries
length-sum_summaries [] w acc = refl
length-sum_summaries (c ∷ cs) w acc =
    length-sum_summaries cs w (add_counts acc (w.elem c).p.ov_status_summary)
    ∙ length-add_counts acc (w.elem c).p.ov_status_summary

length-summary_of : (cs : List Ptr) (x : M) (w : World) → length (summary_of cs x w) ≡ 8
unfolding summary_of
length-summary_of cs x w = ground (
  arith,
  length-sum_summaries cs w no_summary,
  length-set no_summary x.p.ov_status 1,
  length-set no_summary override (length x.children),
)

pub determine_summary-AllWell : (m : Ptr) (w : World) → AllWell w → AllWell (determine_summary m w)
unfolding determine_summary
determine_summary-AllWell m w h =
    let w' = (me_children m w).1 in
    let k = (me_children-AllWell m w h).at m in
    modify-AllWell m _ w' (me_children-AllWell m w h) (record {
      status_named = k.status_named;
      ov_named = k.ov_named;
      summary_full = length-summary_of (me_children m w).0 (w'.elem m) w';
      log_capped = k.log_capped;
      stats_sound = k.stats_sound;
    })
