-- ===== src/Notify/Worker.antt =====
-- The notifications' worker: New, work, runQueues and notifMaintenance of argus/notify's new.go,
-- queues.go and notify.go. Go iterates over its maps in any order; the order of one pass is an
-- argument.
use argus.Prelude.{
  ℕ, ◌+◌, Bool, true, false, ◌&&◌, Option, none, some, List, [], ◌∷◌, ◌++◌, ltb, ◌==◌,
  if◌then◌else◌, get_or, length,
}
use argus.Text.{Text, codes, text_eq, fields}
use argus.Dict.{lookup, insert}
use argus.Status.{Status, unknown, critical}
use argus.Timespec.{timespec}
use argus.Schedule.{Schedule, LocalTime, result_now}
use argus.Notify.{Note, Conf, SendDat, N, Queue, Package, modify, log, holds, without, maybe_queue}
use argus.Notify.Ack.{maybe_ack, ack, maybe_auto_ack}

-- discard; the goroutine that it starts stands in `removed`.
unfoldable pub discard : Note → Package → Package
discard n w = record w {
  byid = without n w.byid;
  actives = without n w.actives;
  removed = w.removed ++ n ∷ [];
}

-- statusChange
unfoldable pub status_change : Note → Package → Package
status_change n w = if (w.note n).is_active then maybe_ack n w else w

-- work
unfoldable pub work : Note → Package → Package
unfolding status_change
work n w =
    if holds n w.byid
    then status_change n w
    else maybe_queue n (record w {
      byid = n ∷ w.byid;
      actives =
          if (w.note n).is_active
          then (if holds n w.actives then w.actives else n ∷ w.actives)
          else w.actives;
    })

-- The notifications of a queue that are active.
unfoldable pub active_only : List Note → Package → List Note
active_only [] w = []
active_only (n ∷ ns) w =
    let rest = active_only ns w in if (w.note n).is_active then n ∷ rest else rest

unfoldable pub one_by_one : Text → List Note → List (Text × List Note)
one_by_one dst [] = []
one_by_one dst (n ∷ ns) = (dst, n ∷ []) ∷ one_by_one dst ns

-- qd.meth.transmit
unfoldable pub transmit : Text → ℕ → List Note → Package → Package
unfolding one_by_one
transmit dst qtime ns w = record w {
  sent = w.sent ++ (if qtime == 0 then one_by_one dst ns else (dst, ns) ∷ []);
}

unfoldable pub mark_sent : Text → Note → Package → Package
mark_sent dst n w =
    modify n
      (λ x.
        log dst (codes "transmit") w.now
          (record x { last_sent = w.now; status = insert dst (codes "sent") x.status }))
      w

-- The loop of runQueues over what was sent.
unfoldable pub after_sent : Text → List Note → Package → Package
unfolding mark_sent
after_sent dst [] w = w
after_sent dst (n ∷ ns) w = after_sent dst ns (maybe_auto_ack n (mark_sent dst n w))

-- The queue is emptied and its active notifications are sent.
unfoldable pub send_queue : Text → Queue → List Note → Package → Package
unfolding transmit
send_queue dst qd ns w =
    transmit dst qd.qtime ns
      (record w { dst_queue = insert dst (record qd { notif = []; lastt = w.now }) w.dst_queue })

-- What runQueues does to one destination; false where it returns.
unfoldable pub run_queue : Text → Option Queue → Package → Package × Bool
unfolding active_only send_queue after_sent
run_queue dst none w = (w, true)
run_queue dst (some qd) w =
    let ns = active_only qd.notif w in
    if length qd.notif == 0
    then (w, true)
    else if ltb w.now (qd.lastt + qd.qtime)
    then (w, true)
    else if length ns == 0
    then (w, false)
    else (after_sent dst ns (send_queue dst qd ns w), true)

-- runQueues
unfoldable pub run_queues : List Text → Package → Package
unfolding run_queue
run_queues [] w = w
run_queues (dst ∷ dsts) w =
    let (w', more) = run_queue dst (lookup dst w.dst_queue) w in
    let rest = run_queues dsts w' in if more then rest else w'

-- The first loop of notifMaintenance. The source has no lock of the notification at its ack.
unfoldable pub keep_up : List Note → Package → Package
keep_up [] w = w
keep_up (n ∷ ns) w =
    let x = w.note n in
    keep_up ns (
      if ltb 0 x.cf.unack_timeout && ltb (x.created + x.cf.unack_timeout) w.now
      then ack (codes "timeout") n w
      else maybe_queue n w)

-- The second loop.
unfoldable pub discard_old : List Note → Package → Package
unfolding discard
discard_old [] w = w
discard_old (n ∷ ns) w = discard_old ns (
    if ltb 0 w.notify_discard && ltb ((w.note n).created + w.notify_discard) w.now
    then discard n w
    else w)

-- notifMaintenance. What a loop deletes is its present key, so the keys before it are its keys.
unfoldable pub notif_maintenance : Package → Package
unfolding keep_up discard_old
notif_maintenance w = let w' = keep_up w.actives w in discard_old w'.byid w'

-- What can be sent to for a severity, place `unknown` for all.
unfoldable pub for_severity : List (Option Schedule) → Status → Option Schedule
for_severity ns st = or_all (get_or ns st none)
  where
    or_all : Option Schedule → Option Schedule
    or_all (some s) = some s
    or_all none = get_or ns unknown none

unfoldable pub now_to : Option Schedule → LocalTime → List Text
now_to none t = []
now_to (some s) t = fields (result_now s t [])

-- strings.Split(esc, ";")
unfoldable pub split_at : ℕ → Text → Text → List Text
split_at sep word [] = word ∷ []
split_at sep word (c ∷ cs) =
    let next = split_at sep [] cs in
    let same = split_at sep (word ++ c ∷ []) cs in if c == sep then word ∷ next else same

-- An entry of the escalation table; one that cannot be read is left out.
unfoldable pub escalation : List Text → List SendDat
escalation [] = []
escalation (t ∷ []) = []
escalation (t ∷ d ∷ ds) = entry (timespec t 60)
  where
    entry : Option ℕ → List SendDat
    entry none = []
    entry (some when) = record { when = when; last = 0; dst = d ∷ ds } ∷ []

unfoldable pub escalations : List Text → List SendDat
unfolding escalation
escalations [] = []
escalations (e ∷ es) = escalation (fields e) ++ escalations es

-- determineSendTo
unfoldable pub determine_send_to : LocalTime → Conf → Status → List SendDat
unfolding for_severity now_to split_at escalations
determine_send_to t cf st =
    let dst = now_to (for_severity cf.notify st) t ++ fields cf.notify_also in
    let own = get_or cf.escalate st [] in
    let esc = if text_eq own [] then get_or cf.escalate unknown [] else own in
    (if length dst == 0 then [] else record { when = 0; last = 0; dst = dst } ∷ [])
    ++ (if text_eq esc [] then [] else escalations (split_at b';' [] esc))

-- New, at a fresh number.
unfoldable pub new : LocalTime → Note → Conf → Status → Status → Package → Package × Bool
unfolding determine_send_to
new t n cf st prev w =
    if ltb critical st
    then (w, false)
    else let send_to = determine_send_to t cf st in
      let made : N = record {
        cf = cf;
        created = w.now;
        last_sent = 0;
        is_active = true;
        step_no = 0;
        escalated = false;
        ov_status = st;
        prev_ov = prev;
        curr_ov = st;
        status = [];
        send_to = send_to;
        log = [];
      } in
      if length send_to == 0 then (w, false) else (
        record (modify n (λ x. log (codes "system") (codes "created") w.now made) w) {
          notechan = w.notechan ++ n ∷ [];
        },
        true,
      )
