-- ===== src/Monel/Invariant/Handlers.antt =====
-- The handlers of transition.go keep every element well formed.
use argus.Prelude.{
  ℕ, ◌-◌, ◌≤◌, ◌≡◌, refl, inl, inr, Bool, true, false, not, Option, none, some, List, [], ◌∷◌, ◌++◌,
  arith, ◌==◌, ltb, if◌then◌else◌, length, drop, length-drop, Bool-cases,
}
use argus.Text.{Text, codes}
use argus.Status.{Status, max_status}
use argus.Monel.Stats.Accounts.{transition-IsSound}
use argus.Monel.State.{Ptr, Log, Persist, NewConf, World, modify_p}
use argus.Monel.Determine.{determine_status}
use argus.Monel.Transition.{
  maxlog, append_to_log, loggit_l, set_alarm, transition_stats, send_notify, new_conf, notify_with,
  maybe_notify, worth_notifying, permit_notify, update_notifies, and_upwards, touch_web, go_is_down,
  common_update, common_update_no_change, update_status, update, re_update, up_update, run_is_down,
}
use argus.Monel.Invariant.{
  IsWell, AllWell, modify-AllWell, modify-AllWell_same, determine_status-AllWell,
  determine_summary-AllWell,
}

-- Assignments to the fields that IsWell does not read.
pub IsWell-same :
    (p q : Persist)
    → q.status ≡ p.status
    → q.ov_status ≡ p.ov_status
    → q.ov_status_summary ≡ p.ov_status_summary
    → q.log ≡ p.log
    → q.stats ≡ p.stats
    → IsWell p
    → IsWell q
IsWell-same p q a b c d e h = record {
  status_named = rw a h.status_named;
  ov_named = rw b h.ov_named;
  summary_full = rw c h.summary_full;
  log_capped = rw d h.log_capped;
  stats_sound = rw e h.stats_sound;
}

-- The trimming of appendToLog, on any log.
length-trim :
    (l : List Log)
    → length (if ltb maxlog (length l) then drop (length l - maxlog) l else l) ≤ maxlog
length-trim l = ground (arith, length-drop (length l - maxlog) l)

append_to_log-IsWell :
    (now : ℕ) (tag msg : Text) (p : Persist) → IsWell p → IsWell (append_to_log now tag msg p)
unfolding append_to_log
append_to_log-IsWell now tag msg p h = record {
  status_named = h.status_named;
  ov_named = h.ov_named;
  summary_full = h.summary_full;
  log_capped = length-trim (p.log ++ _ ∷ []);
  stats_sound = h.stats_sound;
}

pub loggit-AllWell :
    (m : Ptr) (tag msg : Text) (w : World) → AllWell w → AllWell (loggit_l m tag msg w)
unfolding loggit_l
loggit-AllWell m tag msg w h =
    modify-AllWell m _ w h (append_to_log-IsWell _ tag _ (w.elem m).p (h.at m))

set_alarm-AllWell : (m : Ptr) (w : World) → AllWell w → AllWell (set_alarm m w)
unfolding set_alarm
set_alarm-AllWell m w h =
    modify-AllWell m _ w h (IsWell-same (w.elem m).p _ refl refl refl refl refl (h.at m))

transition_stats-AllWell : (m : Ptr) (w : World) → AllWell w → AllWell (transition_stats m w)
unfolding transition_stats
transition_stats-AllWell m w h =
    let k = h.at m in
    modify-AllWell m _ w h (record {
      status_named = k.status_named;
      ov_named = k.ov_named;
      summary_full = k.summary_full;
      log_capped = k.log_capped;
      stats_sound =
          transition-IsSound w.env.clock (w.elem m).p.status (w.elem m).p.stats k.stats_sound;
    })

-- A change outside the elements.
pub AllWell-elem : (w v : World) → v.elem ≡ w.elem → AllWell w → AllWell v
AllWell-elem w v e h = record { at = λ q. rw e (h.at q) }

pub AllWell-if : (b : Bool) (w v : World) → AllWell w → AllWell v → AllWell (if b then w else v)
AllWell-if true w v h k = h
AllWell-if false w v h k = k

send_notify-AllWell :
    (m : Ptr) (ncf : NewConf) (w : World) → AllWell w → AllWell (send_notify m ncf w)
unfolding send_notify
send_notify-AllWell m ncf w h = AllWell-if _ _ _ h (
    AllWell-if _ _ _ (modify-AllWell_same m _ _ (λ x. refl) (AllWell-elem w _ refl h))
      (AllWell-elem w _ refl h))

notify_with-AllWell :
    (conf : Option Ptr) (m : Ptr) (prev : Status) (w : World)
    → AllWell w
    → AllWell (notify_with conf m prev w)
unfolding notify_with
notify_with-AllWell none m prev w h = h
notify_with-AllWell (some conf) m prev w h =
    let x = w.elem m in
    AllWell-if (not (worth_notifying prev x.p.ov_status)) w _ h (
      AllWell-if x.p.anc_in_ov w _ h (
        AllWell-if (not (permit_notify x.cf.sendnotify x.p.ov_status w.env)) w _ h
          (send_notify-AllWell m (new_conf x conf prev) w h)))

touch_web-AllWell : (m : Ptr) (w : World) → AllWell w → AllWell (touch_web m w)
unfolding touch_web
touch_web-AllWell m w h = modify-AllWell_same m _ w (λ x. refl) h

common_update-AllWell :
    (m : Ptr) (prev : Status) (w : World) → AllWell w → AllWell (common_update m prev w)
unfolding common_update go_is_down update_notifies maybe_notify and_upwards
common_update-AllWell m prev w h =
    let alarmed = set_alarm-AllWell m _ (touch_web-AllWell m w h) in
    let logged =
      loggit-AllWell m (codes "TRANSITION") _ _
        (AllWell-elem _ (go_is_down m (set_alarm m (touch_web m w))) refl alarmed) in
    let summed = determine_summary-AllWell m _ (transition_stats-AllWell m _ logged) in
    AllWell-elem _ _ refl (notify_with-AllWell _ m prev _ (AllWell-elem _ _ refl summed))

common_update_no_change-AllWell :
    (m : Ptr) (w : World) → AllWell w → AllWell (common_update_no_change m w)
unfolding common_update_no_change go_is_down and_upwards
common_update_no_change-AllWell m w h = AllWell-elem _ _ refl (
    set_alarm-AllWell m _
      (determine_summary-AllWell m _ (transition_stats-AllWell m _ (touch_web-AllWell m w h))))

update_status-AllWell :
    (m : Ptr) (status : Status) (result reason : Text) (w : World)
    → status ≤ max_status
    → AllWell w
    → AllWell (update_status m status result reason w).0
unfolding update_status
update_status-AllWell m status result reason w s h =
    elim (Bool-cases (status == (w.elem m).p.status)) [
      | inl e ↦ rw e (result_set)
      | inr e ↦ rw e (
          determine_status-AllWell m _ (
            modify-AllWell m _ _ result_set (
              let k = result_set.at m in
              record {
                status_named = s;
                ov_named = k.ov_named;
                summary_full = k.summary_full;
                log_capped = k.log_capped;
                stats_sound = k.stats_sound;
              })))
    ]
  where
    result_set : AllWell (modify_p m (λ p. record p { result = result }) w)
    result_set =
        modify-AllWell m _ w h (IsWell-same (w.elem m).p _ refl refl refl refl refl (h.at m))

-- A service's result keeps every element well formed.
pub update-AllWell :
    (m : Ptr) (status : Status) (result reason : Text) (w : World)
    → status ≤ max_status
    → AllWell w
    → AllWell (update m status result reason w)
unfolding update
update-AllWell m status result reason w s h =
    let k = update_status-AllWell m status result reason w s h in
    AllWell-if _ _ _ (common_update-AllWell m (w.elem m).p.ov_status _ k) k

pub re_update-AllWell :
    (m : Ptr) (reason : Text) (w : World) → AllWell w → AllWell (re_update m reason w)
unfolding re_update
re_update-AllWell m reason w h =
    let k = determine_status-AllWell m w h in
    AllWell-if _ _ _ (common_update_no_change-AllWell m _ k) (
      common_update-AllWell m (w.elem m).p.ov_status _ (
        AllWell-if _ _ _ k (
          modify-AllWell m _ _ k
            (IsWell-same ((determine_status m w).0.elem m).p _ refl refl refl refl refl (k.at m)))))

pub up_update-AllWell : (m by : Ptr) (w : World) → AllWell w → AllWell (up_update m by w)
unfolding up_update
up_update-AllWell m by w h = re_update-AllWell m (w.elem by).cf.uname w h

pub run_is_down-AllWell :
    (m : Ptr) (ov : Status) (w : World) → AllWell w → AllWell (run_is_down m ov w)
unfolding run_is_down
run_is_down-AllWell m ov w h = AllWell-if _ _ _ (AllWell-elem w _ refl h) (AllWell-elem w _ refl h)
