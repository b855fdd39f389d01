-- ===== src/Monel/State.antt =====
-- The state of the monitored elements: the types of argus/monel/monel.go and override.go, and the
-- package's tables. A pointer is a number, and `elem` is the heap; what goroutines still have to do
-- and what was sent to the package notify stand in lists.
use argus.Prelude.{ℕ, Bool, Option, List, ◌==◌, if◌then◌else◌, ◌≡◌, refl, arith}
use argus.Text.{Text}
use argus.Dict.{Dict}
use argus.Status.{Status}
use argus.Status.Gravity.{Gravity}
use argus.Schedule.{Schedule, LocalTime}
use argus.Monel.Stats.{Stats, Clock}

abbrev pub Ptr : Type 0
Ptr = ℕ

-- Reading through it is a panic in the source.
abbrev pub nil : Ptr
nil = 0

-- argus.Override
pub record Override : Type 0 where
  pub user : Text
  pub auto : Bool
  pub quiet : Bool
  pub text : Text
  pub expires : ℕ  -- Unix time, 0 for never
  pub ticket : Text

pub record Log : Type 0 where
  pub when : ℕ  -- nanoseconds
  pub ov_status : Status
  pub tag : Text
  pub msg : Text

-- The configuration; texts that only the web pages show are left out. The arrays have a place for
-- each severity up to critical, place `unknown` for all.
pub record Conf : Type 0 where
  pub uname : Text
  pub unique : Text
  pub label : Text
  pub friendlyname : Text
  pub depends : Text
  pub sort : Bool
  pub overridable : Bool
  pub passive : Bool
  pub countstop : Bool
  pub hidden : Bool
  pub siren : List Bool
  pub sendnotify : List (Option Schedule)
  pub gravity : Gravity

pub record Persist : Type 0 where
  pub status : Status
  pub ov_status : Status
  pub override : Option Override
  pub result : Text
  pub reason : Text
  pub anc_in_ov : Bool
  pub alarm : Bool
  pub ov_status_summary : List ℕ
  pub trans_time : ℕ
  pub siren_time : ℕ
  pub culprit : Text
  pub stats : Stats
  pub log : List Log

-- What stands behind the interface Moneler: a service, a group, or an alias with its target's name
-- and, once it is resolved, the target.
pub data Me : Type 0 where
  service : Me
  group : Me
  alias : Text → Option Ptr → Me

pub record M : Type 0 where
  pub name : Text
  pub me : Me
  pub parent : List Ptr
  pub children : List Ptr
  pub cf : Conf
  pub notify_cf : Option Ptr
  pub p : Persist
  pub web_time : ℕ
  pub uname : Text
  pub label : Text
  pub friendlyname : Text
  pub depends : List Text
  pub notifies : List Ptr
  pub interesting : Bool

-- notify.NewConf
pub record NewConf : Type 0 where
  pub unique : Text
  pub friendly_name : Text
  pub short_name : Text
  pub conf : Ptr
  pub reason : Text
  pub result : Text
  pub ov_status : Status
  pub prev_ov : Status

-- A goroutine that was started and has not run yet.
pub data Task : Type 0 where
  update_is_down : Ptr → Status → Task
  up_updates : List Ptr → Ptr → Task

-- A call into another package: a notification made by notify.New, n.Update(status), and sched.At
-- for the end of an override.
pub data Call : Type 0 where
  notified : Ptr → NewConf → Call
  notify_update : Ptr → Status → Call
  expire_at : ℕ → Ptr → Call

-- What lies outside the package: the clock, the schedules' time of day, and whether notify.New
-- keeps a notification (it returns nil where there is nowhere to send it).
pub record Env : Type 0 where
  pub clock : Clock
  pub local_time : LocalTime
  pub keeps : NewConf → Bool

pub record World : Type 0 where
  pub elem : Ptr → M
  pub byname : Dict Ptr
  pub isdown : Dict Ptr
  pub inoverride : Dict Ptr
  pub tasks : List Task
  pub calls : List Call
  pub idno : ℕ  -- the last notification's number
  pub env : Env

-- Assignment through a pointer.
unfoldable pub modify : Ptr → (M → M) → World → World
modify m f w = record w { elem = λ q. if m == q then f (w.elem m) else w.elem q }

abbrev pub modify_p : Ptr → (Persist → Persist) → World → World
modify_p m f = modify m (λ x. record x { p = f x.p })

-- What an assignment through a pointer leaves.
elem-modify :
    (m q : Ptr) (f : M → M) (w : World)
    → (modify m f w).elem q ≡ (if m == q then f (w.elem m) else w.elem q)
unfolding modify
elem-modify m q f w = refl

pub elem-modify_self : (m : Ptr) (f : M → M) (w : World) → (modify m f w).elem m ≡ f (w.elem m)
unfolding modify
elem-modify_self m f w = ground arith

byname-modify : (m : Ptr) (f : M → M) (w : World) → (modify m f w).byname ≡ w.byname
unfolding modify
byname-modify m f w = refl

calls-modify : (m : Ptr) (f : M → M) (w : World) → (modify m f w).calls ≡ w.calls
unfolding modify
calls-modify m f w = refl

env-modify : (m : Ptr) (f : M → M) (w : World) → (modify m f w).env ≡ w.env
unfolding modify
env-modify m f w = refl
