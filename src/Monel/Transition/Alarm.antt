-- ===== src/Monel/Transition/Alarm.antt =====
-- The alarm, and the table of elements that are down.
use argus.Prelude.{
  ℕ, ◌≤◌, ◌≡◌, ◌≢◌, refl, ◌↔◌, ◌⊎◌, true, false, Option, none, some, arith, get_or, if◌then◌else◌,
  ◌==◌, ◌||◌, [],
}
use mathlib.Core.Path.{subst}
use argus.Text.{Text, text_eq, text_eq_iff, text_eq_refl}
use argus.Dict.{lookup, lookup-insert, lookup-delete}
use argus.Status.{Status, clear, unknown, warning, critical, override, depends}
use argus.Monel.State.{Ptr, M, World, elem-modify_self}
use argus.Monel.Transition.{set_alarm, run_is_down, now_nano}

-- The alarm rings exactly for a severity for which, or for all of which, the siren is set; its time
-- changes with it and not otherwise.
pub record Rings (before after : M) (now : ℕ) : Type 0 where
  pub rings :
      (after.p.alarm ≡ true)
      ↔ (warning ≤ before.p.ov_status)
        × (before.p.ov_status ≤ critical)
        × ((get_or before.cf.siren before.p.ov_status false ≡ true)
            ⊎ (get_or before.cf.siren unknown false ≡ true))
  pub timed : after.p.alarm ≢ before.p.alarm → after.p.siren_time ≡ now
  pub untimed : after.p.alarm ≡ before.p.alarm → after.p.siren_time ≡ before.p.siren_time
  pub overall : after.p.ov_status ≡ before.p.ov_status

pub set_alarm-Rings : (m : Ptr) (w : World) → Rings (w.elem m) ((set_alarm m w).elem m) (now_nano w)
unfolding set_alarm
set_alarm-Rings m w = rw (elem-modify_self m _ w) (record {
  rings = (λ e. ground arith, λ e. ground arith);
  timed = λ e. ground arith;
  untimed = λ e. ground arith;
  overall = refl;
})

-- An overall status that the table of updateIsDown counts as down.
abbrev pub IsDown : Status → Type 0
IsDown st = (st ≢ unknown) × (st ≢ clear) × (st ≢ override) × (st ≢ depends)

isdown-run :
    (m : Ptr) (st : Status) (w : World) (name : Text)
    → lookup name (run_is_down m st w).isdown ≡ (
        if text_eq (w.elem m).cf.unique name
        then (if st == unknown || st == clear || st == override || st == depends
            then none
            else some m)
        else lookup name w.isdown)
unfolding run_is_down
isdown-run m st w name = ground (
  arith,
  lookup-insert (w.elem m).cf.unique name m w.isdown,
  lookup-delete (w.elem m).cf.unique name w.isdown,
)

-- After updateIsDown the table has the element exactly if the status that it was started with is
-- down, and for other names it is what it was.
pub run_is_down-lookup :
    (m : Ptr) (st : Status) (w : World) (name : Text)
    → let unique = (w.elem m).cf.unique in
      (IsDown st → lookup unique (run_is_down m st w).isdown ≡ some m)
      × (¬ IsDown st → lookup unique (run_is_down m st w).isdown ≡ none)
      × (name ≢ unique → lookup name (run_is_down m st w).isdown ≡ lookup name w.isdown)
run_is_down-lookup m st w name =
    let u = (w.elem m).cf.unique in
    (
      λ d. ground (arith, isdown-run m st w u, text_eq_refl u),
      λ n. ground (arith, isdown-run m st w u, text_eq_refl u, n),
      λ n. ground (arith, isdown-run m st w name, text_eq_iff u name),
    )

elem-run_is_down : (m q : Ptr) (st : Status) (w : World) → (run_is_down m st w).elem q ≡ w.elem q
unfolding run_is_down
elem-run_is_down m q st w = ground arith

table :
    (m : Ptr) (a b : Status) (w : World) (o : Option Ptr)
    → lookup ((run_is_down m b w).elem m).cf.unique (run_is_down m a (run_is_down m b w)).isdown ≡ o
    → lookup (w.elem m).cf.unique (run_is_down m a (run_is_down m b w)).isdown ≡ o
table m a b w o h =
    subst (λ (x : M). lookup x.cf.unique (run_is_down m a (run_is_down m b w)).isdown ≡ o)
      (elem-run_is_down m m b w) h

-- The goroutines of two changes may run in either order: with the later change's first, the table
-- is left with the status of the earlier change.
pub isdown_stale :
    (m : Ptr) (earlier later : Status) (w : World)
    → IsDown earlier
    → ¬ IsDown later
    → let unique = (w.elem m).cf.unique in
      (lookup unique (run_is_down m later (run_is_down m earlier w)).isdown ≡ none)
      × (lookup unique (run_is_down m earlier (run_is_down m later w)).isdown ≡ some m)
isdown_stale m earlier later w d n = (
  table m later earlier w none ((run_is_down-lookup m later (run_is_down m earlier w) []).1 n),
  table m earlier later w (some m) ((run_is_down-lookup m earlier (run_is_down m later w) []).0 d),
)
