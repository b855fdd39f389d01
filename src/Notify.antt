-- ===== src/Notify.antt =====
-- Notifications: the types and the queues of argus/notify's notify.go, queues.go and method.go. A
-- notification is a pointer, here its number; what is sent, and the goroutines that tell the element
-- of a discarded notification, stand in lists.
pub mod Active
pub mod Worker
pub mod Listed
pub mod Sending
pub mod Lost
pub mod Entry
pub mod Told
pub mod Timely
pub mod Promptly
pub mod Ack
use argus.Prelude.{
  ℕ, zero, suc, ◌+◌, Bool, true, false, ◌&&◌, ◌||◌, not, Option, none, some, List, [], ◌∷◌, ◌++◌,
  ltb, leb, ◌==◌, if◌then◌else◌, get_or, get_elem?, length, map,
}
use argus.Text.{Text, codes}
use argus.Dict.{Dict, lookup, insert}
use argus.Status.{Status, unknown, clear}
use argus.Schedule.{Schedule}

abbrev pub Note : Type 0
Note = ℕ

-- The arrays have a place for each severity up to critical, place `unknown` for all.
pub record Conf : Type 0 where
  pub notify : List (Option Schedule)
  pub notify_also : Text
  pub unack_timeout : ℕ
  pub renotify : ℕ
  pub auto_ack : List Bool
  pub ack_on_up : List Bool
  pub ack_on_better : List Bool
  pub ack_on_worse : List Bool
  pub escalate : List Text

pub record SendDat : Type 0 where
  pub when : ℕ
  pub last : ℕ
  pub dst : List Text

pub record LogDat : Type 0 where
  pub when : ℕ
  pub who : Text
  pub msg : Text

-- N with its Persist; texts that only the messages and the web pages show are left out.
pub record N : Type 0 where
  pub cf : Conf
  pub created : ℕ
  pub last_sent : ℕ
  pub is_active : Bool
  pub step_no : ℕ
  pub escalated : Bool
  pub ov_status : Status
  pub prev_ov : Status
  pub curr_ov : Status
  pub status : Dict Text
  pub send_to : List SendDat
  pub log : List LogDat

-- queuedat, with what it uses of its method
pub record Queue : Type 0 where
  pub addr : Text
  pub qtime : ℕ
  pub lastt : ℕ
  pub notif : List Note

pub record Method : Type 0 where
  pub qtime : ℕ

pub record Package : Type 0 where
  pub note : Note → N
  pub byid : List Note
  pub actives : List Note
  pub dst_queue : Dict Queue
  pub notechan : List Note
  pub methods : Dict Method
  pub notify_discard : ℕ
  pub now : ℕ  -- clock.Unix()
  pub sent : List (Text × List Note)
  pub removed : List Note

unfoldable pub modify : Note → (N → N) → Package → Package
modify n f w = record w { note = λ m. if n == m then f (w.note n) else w.note m }

abbrev pub holds : Note → List Note → Bool
holds n [] = false
holds n (m ∷ ms) = m == n || holds n ms

abbrev pub without : Note → List Note → List Note
without n [] = []
without n (m ∷ ms) = if m == n then without n ms else m ∷ without n ms

-- n.log
unfoldable pub log : Text → Text → ℕ → N → N
log who msg now x = record x { log = x.log ++ record { when = now; who = who; msg = msg } ∷ [] }

-- updateStatus
unfoldable pub update_status : Note → Status → Package → Package × Bool
update_status n status w =
    if (w.note n).is_active
    then (modify n (λ x. record x { curr_ov = status }) w, true)
    else (w, false)

-- Update
unfoldable pub update : Note → Status → Package → Package
unfolding update_status
update n status w =
    let (w', active) = update_status n status w in
    if active then record w' { notechan = w'.notechan ++ n ∷ [] } else w'

-- strings.SplitN(dst, ":", 2): what lies before the first colon, and after it if there is one
unfoldable pub split_colon : Text → Text × Option Text
split_colon [] = ([], none)
split_colon (c ∷ cs) =
    let (before, after) = split_colon cs in if c == b':' then ([], some cs) else (c ∷ before, after)

unfoldable pub method_and_addr : Text → Text × Option Text → Dict Method → Option Method × Text
method_and_addr dst (before, none) methods = (lookup (codes "mail") methods, dst)
method_and_addr dst (before, some after) methods = (lookup before methods, after)

-- methodForDst
unfoldable pub method_for_dst : Text → Dict Method → Option Method × Text
unfolding split_colon method_and_addr
method_for_dst dst methods = method_and_addr dst (split_colon dst) methods

-- A destination's queue, made from its method if there is none.
unfoldable pub queue_for : Option Queue → Option Method × Text → Option Queue
queue_for (some qd) meth = some qd
queue_for none (none, addr) = none
queue_for none (some meth, addr) =
    some (record { addr = addr; qtime = meth.qtime; lastt = 0; notif = [] })

unfoldable pub queued_in : Option Queue → Note → Text → Package → Package
queued_in none n d w = modify n (log d (codes "failed") w.now) w
queued_in (some qd) n d w =
    modify n
      (λ x. log d (codes "queued") w.now (record x { status = insert d (codes "queued") x.status }))
      (record w { dst_queue = insert d (record qd { notif = qd.notif ++ n ∷ [] }) w.dst_queue })

-- addToQueue
unfoldable pub add_to_queue : Note → List Text → Package → Package
unfolding queue_for queued_in
add_to_queue n [] w = w
add_to_queue n (d ∷ ds) w =
    add_to_queue n ds
      (queued_in (queue_for (lookup d w.dst_queue) (method_for_dst d w.methods)) n d w)

-- SendTo[i].Last = now
unfoldable pub stamp : ℕ → ℕ → List SendDat → List SendDat
stamp i now [] = []
stamp zero now (s ∷ ss) = record s { last = now } ∷ ss
stamp (suc i) now (s ∷ ss) = s ∷ stamp i now ss

-- One entry is sent: its time is set and its destinations are queued.
unfoldable pub send_entry : Note → ℕ → SendDat → Package → Package
unfolding stamp
send_entry n i s w =
    add_to_queue n s.dst (modify n (λ x. record x { send_to = stamp i w.now x.send_to }) w)

unfoldable pub next_step : Note → Option SendDat → Package → Package
unfolding send_entry
next_step n none w = w
next_step n (some s) w =
    let x = w.note n in
    if leb (s.when + x.created) w.now
    then modify n
        (λ y. record y {
          escalated = if ltb 0 y.step_no then true else y.escalated;
          step_no = y.step_no + 1;
        })
        (send_entry n x.step_no s w)
    else w

-- The loop of maybeQueue that sends again, over the entries from `i` on.
unfoldable pub resend : Note → ℕ → List SendDat → Package → Package
unfolding send_entry
resend n i [] w = w
resend n i (s ∷ ss) w =
    let x = w.note n in
    if leb x.step_no i
    then w
    else if s.last == 0
    then resend n (i + 1) ss w
    else if leb (s.last + x.cf.renotify) w.now
    then resend n (i + 1) ss (send_entry n i s w)
    else resend n (i + 1) ss w

-- maybeQueue
unfoldable pub maybe_queue : Note → Package → Package
unfolding next_step resend
maybe_queue n w =
    let x = w.note n in
    if not x.is_active
    then w
    else let w' = next_step n (get_elem? x.send_to x.step_no) w in
      if x.cf.renotify == 0 then w' else resend n 0 (w'.note n).send_to w'
