-- ===== src/Monel/Tasks.antt =====
-- The goroutines of argus/monel as steps: any that was started may run next. A step is one handler
-- under the element's lock; which elements the rest of the program updates, and how, is free.
use argus.Prelude.{ℕ, List, [], ◌∷◌, ◌++◌, ◌≤◌, ◌≡◌}
use argus.Text.{Text}
use argus.Status.{Status, max_status}
use argus.Monel.State.{Ptr, Override, Task, update_is_down, up_updates, Env, World}
use argus.Monel.Transition.{update, up_update, run_is_down}
use argus.Monel.Override.{set_override, del_override, override_expire}

-- The loop of the goroutine that andUpwards starts.
unfoldable pub run_up_updates : List Ptr → Ptr → World → World
run_up_updates [] by w = w
run_up_updates (u ∷ us) by w = run_up_updates us by (up_update u by w)

unfoldable pub run_task : Task → World → World
unfolding run_up_updates
run_task (update_is_down m ov) w = run_is_down m ov w
run_task (up_updates us by) w = run_up_updates us by w

pub data Step : World → World → Type 0 where
  -- a service has a result
  result :
      (w : World) (m : Ptr) (status : Status) (res reason : Text)
      → status ≤ max_status
      → Step w (update m status res reason w)
  -- a goroutine runs, in whatever order
  goroutine :
      (w : World) (before after : List Task) (t : Task)
      → w.tasks ≡ before ++ t ∷ after
      → Step w (run_task t (record w { tasks = before ++ after }))
  overridden : (w : World) (fuel : ℕ) (m : Ptr) (ov : Override) → Step w (set_override fuel m ov w)
  restored :
      (w : World) (fuel : ℕ) (m : Ptr) (user reason : Text)
      → Step w (del_override fuel m user reason w)
  expired : (w : World) (fuel : ℕ) (m : Ptr) → Step w (override_expire fuel m w)
  -- time passes
  tick : (w : World) (env : Env) → Step w (record w { env = env })

pub data Reach (w : World) : World → Type 0 where
  here : Reach w w
  next : {u v : World} → Reach w u → Step u v → Reach w v
