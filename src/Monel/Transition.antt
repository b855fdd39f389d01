-- ===== src/Monel/Transition.antt =====
-- Status updates of an element and what follows from them: argus/monel/transition.go, and the
-- element's log of stats.go. A function stands for what runs under the element's lock; a goroutine
-- that it starts is a task in the state.
pub mod Overall
pub mod Alarm
pub mod Notice
use argus.Prelude.{
  ℕ, zero, suc, ◌+◌, ◌-◌, String, Bool, true, false, ◌&&◌, ◌||◌, not, Option, none, some, List, [],
  ◌∷◌, ◌++◌, ltb, leb, ◌==◌, if◌then◌else◌, get_or, get_elem?, length, drop,
}
use argus.Text.{Text, codes, text_eq}
use argus.Dict.{insert, delete}
use argus.Status.{Status, unknown, clear, critical, override, depends, status_string}
use argus.Schedule.{Schedule, permit_now}
use argus.Monel.Stats.{Clock, stats_transition}
use argus.Monel.State.{
  Ptr, Log, Persist, M, NewConf, Task, update_is_down, up_updates, Call, notified, notify_update,
  Env, World, modify, modify_p,
}
use argus.Monel.Determine.{determine_status, determine_summary}

abbrev pub now_nano : World → ℕ
now_nano w = w.env.clock.nano

abbrev pub add_task : Task → World → World
add_task t w = record w { tasks = w.tasks ++ t ∷ [] }

abbrev pub maxlog : ℕ
maxlog = 500

-- appendToLog
unfoldable pub append_to_log : ℕ → Text → Text → Persist → Persist
append_to_log now tag msg p =
    let log = p.log ++ record { when = now; ov_status = p.ov_status; tag = tag; msg = msg } ∷ [] in
    record p { log = if ltb maxlog (length log) then drop (length log - maxlog) log else log }

-- loggitL
unfoldable pub loggit_l : Ptr → Text → Text → World → World
unfolding append_to_log
loggit_l m tag msg w =
    modify_p m
      (λ p.
        append_to_log (now_nano w) tag
          (if text_eq tag (codes "TRANSITION") && text_eq msg []
            then status_string p.ov_status
            else msg)
          p)
      w

-- setAlarm
unfoldable pub set_alarm : Ptr → World → World
set_alarm m w =
    let siren = (w.elem m).cf.siren in
    modify_p m
      (λ p.
        let a =
          ltb clear p.ov_status
          && leb p.ov_status critical
          && (get_or siren p.ov_status false || get_or siren unknown false) in
        let now = now_nano w in
        record p {
          trans_time = now;
          alarm = a;
          siren_time =
              if a
              then (if p.alarm then p.siren_time else now)
              else if p.alarm
              then now
              else p.siren_time;
        })
      w

-- statsTransition of the element; a change of day touches WebTime too.
unfoldable pub transition_stats : Ptr → World → World
transition_stats m w =
    let p = (w.elem m).p in
    let (stats, rolled) = stats_transition w.env.clock p.status p.stats in
    modify m
      (λ x. record x {
        p = record (x.p) { stats = stats };
        web_time = if rolled then now_nano w else x.web_time;
      })
      w

-- permitNotify
unfoldable pub permit : Option (Option Schedule) → Option (Option Schedule) → Env → Bool
permit (some (some s)) all env = permit_now s env.local_time (codes "yes")
permit _ (some (some s)) env = permit_now s env.local_time (codes "yes")
permit _ _ env = false

unfoldable pub permit_notify : List (Option Schedule) → Status → Env → Bool
unfolding permit
permit_notify sendnotify status env =
    if leb (length sendnotify) status
    then false
    else permit (get_elem? sendnotify status) (get_elem? sendnotify unknown) env

-- The guards of maybeNotify but for the last, by the status before and after.
unfoldable pub worth_notifying : Status → Status → Bool
worth_notifying prev_ov st =
    if prev_ov == unknown && st == clear
    then false
    else if st == override || st == depends || st == unknown
    then false
    else if st == clear && (prev_ov == override || prev_ov == depends)
    then false
    else true

unfoldable pub send_notify : Ptr → NewConf → World → World
send_notify m ncf w =
    if ltb critical ncf.ov_status
    then w
    else (let id = w.idno + 1 in
        let w' = record w { idno = id } in
        if w.env.keeps ncf
        then modify m (λ x. record x { notifies = x.notifies ++ id ∷ [] })
            (record w' { calls = w.calls ++ notified id ncf ∷ [] })
        else w')

unfoldable pub new_conf : M → Ptr → Status → NewConf
new_conf x conf prev_ov = record {
  unique = x.cf.unique;
  friendly_name = x.cf.friendlyname;
  short_name = x.cf.label;
  conf = conf;
  reason = x.p.reason;
  result = x.p.result;
  ov_status = x.p.ov_status;
  prev_ov = prev_ov;
}

unfoldable pub notify_with : Option Ptr → Ptr → Status → World → World
unfolding send_notify new_conf
notify_with none m prev_ov w = w
notify_with (some conf) m prev_ov w =
    let x = w.elem m in
    if not (worth_notifying prev_ov x.p.ov_status)
    then w
    else if x.p.anc_in_ov
    then w
    else if not (permit_notify x.cf.sendnotify x.p.ov_status w.env)
    then w
    else send_notify m (new_conf x conf prev_ov) w

-- maybeNotify. notify.New refuses a status above critical before it takes a number.
unfoldable pub maybe_notify : Ptr → Status → World → World
unfolding notify_with
maybe_notify m prev_ov w = notify_with (w.elem m).notify_cf m prev_ov w

unfoldable pub tell : List Ptr → Status → List Call
tell [] st = []
tell (n ∷ ns) st = notify_update n st ∷ tell ns st

-- updateNotifies
unfoldable pub update_notifies : Ptr → World → World
unfolding tell
update_notifies m w =
    let x = w.elem m in record w { calls = w.calls ++ tell x.notifies x.p.ov_status }

-- The loop of andUpwards over the parents: past the first, one with a single child is an alias,
-- and its child is told in its place. The source tells the first by a flag.
unfoldable pub only_child : Ptr → List Ptr → Ptr
only_child q (c ∷ []) = c
only_child q _ = q

unfoldable pub upwards : Bool → List Ptr → World → List Ptr
unfolding only_child
upwards notfirst [] w = []
upwards notfirst (q ∷ qs) w =
    let rest = upwards true qs w in
    if notfirst then only_child q ((w.elem q).children) ∷ rest else q ∷ rest

-- andUpwards
unfoldable pub and_upwards : Ptr → World → World
unfolding upwards
and_upwards m w = add_task (up_updates (upwards false (w.elem m).parent w) m) w

unfoldable pub touch_web : Ptr → World → World
touch_web m w = modify m (λ x. record x { web_time = now_nano w }) w

-- The `go m.updateIsDown(m.P.OvStatus)` of a handler.
unfoldable pub go_is_down : Ptr → World → World
go_is_down m w = add_task (update_is_down m (w.elem m).p.ov_status) w

-- commonUpdate
unfoldable pub common_update : Ptr → Status → World → World
unfolding touch_web go_is_down
common_update m prev_ov w =
    let w1 = go_is_down m (set_alarm m (touch_web m w)) in
    let w2 = loggit_l m (codes "TRANSITION") (w1.elem m).p.reason w1 in
    let w3 = update_notifies m (determine_summary m (transition_stats m w2)) in
    and_upwards m (maybe_notify m prev_ov w3)

-- commonUpdateNoChange
unfoldable pub common_update_no_change : Ptr → World → World
unfolding touch_web go_is_down
common_update_no_change m w =
    and_upwards m
      (go_is_down m (set_alarm m (determine_summary m (transition_stats m (touch_web m w)))))

-- updateStatus
unfoldable pub update_status : Ptr → Status → Text → Text → World → World × Bool
update_status m status result reason w =
    let w' = modify_p m (λ p. record p { result = result }) w in
    if status == (w.elem m).p.status
    then (w', false)
    else determine_status m (modify_p m (λ p. record p { status = status; reason = reason }) w')

-- Update
unfoldable pub update : Ptr → Status → Text → Text → World → World
update m status result reason w =
    let prev = (w.elem m).p.ov_status in
    let (w', changed) = update_status m status result reason w in
    if changed then common_update m prev w' else w'

-- ReUpdate
unfoldable pub re_update : Ptr → Text → World → World
re_update m reason w =
    let prev = (w.elem m).p.ov_status in
    let (w', changed) = determine_status m w in
    if not changed
    then common_update_no_change m w'
    else common_update m prev
        (if text_eq reason [] then w' else modify_p m (λ p. record p { reason = reason }) w')

-- UpUpdate
unfoldable pub up_update : Ptr → Ptr → World → World
up_update m by w = re_update m (w.elem by).cf.uname w

-- updateIsDown
unfoldable pub run_is_down : Ptr → Status → World → World
run_is_down m ovstatus w =
    let unique = (w.elem m).cf.unique in
    if ovstatus == unknown || ovstatus == clear || ovstatus == override || ovstatus == depends
    then record w { isdown = delete unique w.isdown }
    else record w { isdown = insert unique m w.isdown }
