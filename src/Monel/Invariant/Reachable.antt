-- ===== src/Monel/Invariant/Reachable.antt =====
-- Every element is well formed after any steps of handlers, goroutines, overrides and the clock.
use argus.Prelude.{ℕ, zero, suc, refl, Bool, Option, none, some, List, [], ◌∷◌, ◌++◌}
use argus.Text.{Text, codes, text_eq}
use argus.Monel.State.{Ptr, Override, Task, update_is_down, up_updates, World, modify_p}
use argus.Monel.Override.{
  each_child, ov_prop_down, log_unless_empty, set_override_expire, put_override, set_override,
  del_override, override_expire,
}
use argus.Monel.Tasks.{
  run_up_updates, run_task, Step, result, goroutine, overridden, restored, expired, tick, Reach,
  here, next,
}
use argus.Monel.Invariant.{AllWell, modify-AllWell}
use argus.Monel.Invariant.Handlers.{
  AllWell-elem, AllWell-if, IsWell-same, loggit-AllWell, update-AllWell, re_update-AllWell,
  up_update-AllWell, run_is_down-AllWell,
}

set_anc-AllWell :
    (m : Ptr) (v : Bool) (w : World)
    → AllWell w
    → AllWell (modify_p m (λ p. record p { anc_in_ov = v }) w)
set_anc-AllWell m v w h =
    modify-AllWell m _ w h (IsWell-same (w.elem m).p _ refl refl refl refl refl (h.at m))

each_child-AllWell :
    (v : Bool) (go : Ptr → World → World)
    → ((c : Ptr) (w : World) → AllWell w → AllWell (go c w))
    → (cs : List Ptr) (w : World) → AllWell w
    → AllWell (each_child v go cs w)
unfolding each_child
each_child-AllWell v go k [] w h = h
each_child-AllWell v go k (c ∷ cs) w h =
    each_child-AllWell v go k cs _ (k c _ (set_anc-AllWell c v w h))

ov_prop_down-AllWell :
    (fuel : ℕ) (m : Ptr) (w : World) → AllWell w → AllWell (ov_prop_down fuel m w)
unfolding ov_prop_down
ov_prop_down-AllWell zero m w h = h
ov_prop_down-AllWell (suc fuel) m w h =
    each_child-AllWell _ (ov_prop_down fuel) (ov_prop_down-AllWell fuel) (w.elem m).children w h

log_unless_empty-AllWell :
    (m : Ptr) (value msg : Text) (w : World) → AllWell w → AllWell (log_unless_empty m value msg w)
unfolding log_unless_empty
log_unless_empty-AllWell m value msg w h =
    AllWell-if (text_eq value []) w _ h (loggit-AllWell m (codes "OVERRIDE") msg w h)

put_override-AllWell :
    (m : Ptr) (ov : Option Override) (w : World) → AllWell w → AllWell (put_override m ov w)
unfolding put_override
put_override-AllWell m ov w h =
    modify-AllWell m _ w h (IsWell-same (w.elem m).p _ refl refl refl refl refl (h.at m))

set_override-AllWell :
    (fuel : ℕ) (m : Ptr) (ov : Override) (w : World)
    → AllWell w
    → AllWell (set_override fuel m ov w)
unfolding set_override set_override_expire
set_override-AllWell fuel m ov w h =
    let l1 = log_unless_empty-AllWell m ov.text ov.text w h in
    let l2 = log_unless_empty-AllWell m ov.user (codes "enabled by " ++ ov.user) _ l1 in
    let put = put_override-AllWell m (some ov) _ l2 in
    let k =
      re_update-AllWell m (codes "override") _
        (ov_prop_down-AllWell fuel m _ (AllWell-elem _ _ refl put)) in
    AllWell-if _ _ _ k (AllWell-elem _ _ refl k)

del_override-AllWell :
    (fuel : ℕ) (m : Ptr) (user reason : Text) (w : World)
    → AllWell w
    → AllWell (del_override fuel m user reason w)
unfolding del_override
del_override-AllWell fuel m user reason w h =
    let l1 = log_unless_empty-AllWell m reason reason w h in
    let l2 = log_unless_empty-AllWell m user (codes "removed by " ++ user) _ l1 in
    re_update-AllWell m (codes "override") _
      (ov_prop_down-AllWell fuel m _ (AllWell-elem _ _ refl (put_override-AllWell m none _ l2)))

override_expire-AllWell :
    (fuel : ℕ) (m : Ptr) (w : World) → AllWell w → AllWell (override_expire fuel m w)
unfolding override_expire
override_expire-AllWell fuel m w h =
    AllWell-if _ _ _ (del_override-AllWell fuel m (codes "system") (codes "expired") w h) h

run_up_updates-AllWell :
    (us : List Ptr) (by : Ptr) (w : World) → AllWell w → AllWell (run_up_updates us by w)
unfolding run_up_updates
run_up_updates-AllWell [] by w h = h
run_up_updates-AllWell (u ∷ us) by w h = run_up_updates-AllWell us by _ (up_update-AllWell u by w h)

run_task-AllWell : (t : Task) (w : World) → AllWell w → AllWell (run_task t w)
unfolding run_task
run_task-AllWell (update_is_down m ov) w h = run_is_down-AllWell m ov w h
run_task-AllWell (up_updates us by) w h = run_up_updates-AllWell us by w h

Step-AllWell : {w v : World} → Step w v → AllWell w → AllWell v
Step-AllWell (result w m status res reason s) h = update-AllWell m status res reason w s h
Step-AllWell (goroutine w before after t e) h = run_task-AllWell t _ (record { at = h.at })
Step-AllWell (overridden w fuel m ov) h = set_override-AllWell fuel m ov w h
Step-AllWell (restored w fuel m user reason) h = del_override-AllWell fuel m user reason w h
Step-AllWell (expired w fuel m) h = override_expire-AllWell fuel m w h
Step-AllWell (tick w env) h = record { at = h.at }

-- From a state in which every element has named statuses, a full summary, a log within its limit
-- and sound statistics, every state that handlers, goroutines in any order, overrides and the
-- clock lead to is such a state.
pub Reach-AllWell : {w v : World} → AllWell w → Reach w v → AllWell v
Reach-AllWell h here = h
Reach-AllWell h (next r s) = Step-AllWell s (Reach-AllWell h r)
