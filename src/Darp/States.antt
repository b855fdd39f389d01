-- ===== src/Darp/States.antt =====
-- Which hosts are up: argus/darp/darp.go.
pub mod Heard
use argus.Prelude.{
  ℕ, suc, ◌+◌, Bool, true, false, ◌&&◌, ◌||◌, not, Option, none, some, List, [], ◌∷◌, ◌++◌, ltb,
  ◌==◌, if◌then◌else◌, length,
}
use argus.Text.{Text, codes, text_eq, to_lower}
use argus.Dict.{Dict, lookup, insert}

-- DARP
pub record DarpHost : Type 0 where
  pub name : Text
  pub type : Text
  pub fetch_config : Text
  pub port : ℕ

-- Status
pub record HostStatus : Type 0 where
  pub is_up : Bool
  pub lastt : ℕ

-- sendMsg
pub record SendMsg : Type 0 where
  pub f : Text
  pub m : Dict Text

-- The package's variables. `channels` holds the channel of every master whose client was started.
pub record Darps : Type 0 where
  pub my_id : Text
  pub my_darp : Option DarpHost
  pub has_slaves : Bool
  pub is_enabled : Bool
  pub all_darp : Dict DarpHost
  pub masters : Dict DarpHost
  pub channels : Dict (List SendMsg)
  pub darp_status : Dict HostStatus
  pub no_darp : Dict Bool

abbrev pub no_darps : Darps
no_darps = record {
  my_id = codes "local";
  my_darp = none;
  has_slaves = false;
  is_enabled = false;
  all_darp = [];
  masters = [];
  channels = [];
  darp_status = [];
  no_darp = [];
}

pub data ConfigError : Type 0 where
  no_name : ConfigError
  duplicate_name : ConfigError
  bad_type : ConfigError

abbrev pub is_type : Text → Bool
is_type t = text_eq t (codes "master") || text_eq t (codes "slave")

abbrev pub is_known : Text → Dict DarpHost → Bool
is_known name hosts = elim (lookup name hosts) [ none ↦ false | some d ↦ true ]

abbrev pub id_or : Text → Text → Text
id_or [] my_id = my_id
id_or (c ∷ name) my_id = c ∷ name

unfoldable pub configured : Text → DarpHost → Darps → Darps
configured darp_name d w =
    let id = id_or darp_name w.my_id in
    record w {
      my_id = id;
      my_darp = if text_eq d.name id then some d else w.my_darp;
      is_enabled = true;
      all_darp = insert d.name d w.all_darp;
      masters =
          if text_eq d.type (codes "master") && not (text_eq d.name id)
          then insert d.name d w.masters
          else w.masters;
      darp_status = insert d.name (record { is_up = false; lastt = 0 }) w.darp_status;
    }

-- New, with the name that the configuration of the program gives this host, if any
unfoldable pub new_darp : Text → DarpHost → Darps → Darps × Option ConfigError
unfolding configured
new_darp darp_name d w =
    if text_eq d.name []
    then (w, some no_name)
    else if is_known d.name w.all_darp
    then (w, some duplicate_name)
    else if not (is_type (to_lower d.type))
    then (w, some bad_type)
    else (configured darp_name d w, none)

abbrev pub opened : Dict DarpHost → Dict (List SendMsg)
opened [] = []
opened ((n, d) ∷ ms) = (n, []) ∷ opened ms

-- Init, without the server and the clients that it starts
unfoldable pub init_darp : Darps → Darps
init_darp w =
    if not w.is_enabled
    then record w { no_darp = insert w.my_id true w.no_darp }
    else elim w.my_darp [
      | none ↦ w
      | some d ↦ record w {
        has_slaves = w.has_slaves || text_eq d.type (codes "master") && ltb 1 (length w.all_darp);
        channels = opened w.masters;
      }
    ]

-- A change of the status of a host, where it has one.
abbrev pub put_known :
    Text → (HostStatus → HostStatus) → Option HostStatus → Dict HostStatus → Dict HostStatus
put_known name f none ss = ss
put_known name f (some s) ss = insert name (f s) ss

abbrev pub put_up : ℕ → HostStatus → HostStatus
put_up now s = record { is_up = true; lastt = now }

abbrev pub put_down : HostStatus → HostStatus
put_down s = record s { is_up = false }

-- DarpServerer.Connected, which the server calls for every request
unfoldable pub connected : ℕ → Text → Darps → Darps
connected now name w = record w {
  darp_status = put_known name (put_up now) (lookup name w.darp_status) w.darp_status;
}

-- DarpServerer.Disco
unfoldable pub disco : Text → Darps → Darps
disco name w = record w {
  darp_status = put_known name put_down (lookup name w.darp_status) w.darp_status;
}

abbrev pub is_fresh : ℕ → HostStatus → Bool
is_fresh now s = s.is_up && ltb now (s.lastt + 120)

abbrev pub statuses_from : ℕ → Text → Dict HostStatus → Dict Bool
statuses_from now my_id [] = []
statuses_from now my_id ((n, s) ∷ ss) =
    (n, text_eq n my_id || is_fresh now s) ∷ statuses_from now my_id ss

-- GetStatuses
unfoldable pub get_statuses : ℕ → Darps → Dict Bool
get_statuses now w = if not w.is_enabled then w.no_darp else statuses_from now w.my_id w.darp_status

-- IsValid
unfoldable pub is_valid : Text → Darps → Bool
is_valid name w = text_eq name w.my_id || is_known name w.all_darp

abbrev pub is_fresh_or : ℕ → Option HostStatus → Bool
is_fresh_or now none = false
is_fresh_or now (some s) = is_fresh now s

-- IsUp
unfoldable pub is_up_now : ℕ → Text → Darps → Bool
is_up_now now name w =
    w.is_enabled && (text_eq name w.my_id || is_fresh_or now (lookup name w.darp_status))

abbrev pub sent : SendMsg → List SendMsg → List SendMsg
sent msg ch = if ltb (length ch) 100 then ch ++ msg ∷ [] else ch

-- TellMyMasters: a master whose queue is full misses the message.
unfoldable pub tell_my_masters : SendMsg → Dict (List SendMsg) → Dict (List SendMsg)
tell_my_masters msg [] = []
tell_my_masters msg ((n, ch) ∷ chs) = (n, sent msg ch) ∷ tell_my_masters msg chs

-- SendUpdate, with the status as a text
unfoldable pub send_update : Text → Text → Text → Text → Darps → Darps
unfolding tell_my_masters
send_update obj status result reason w = if not w.is_enabled then w else record w {
  channels =
      tell_my_masters
        (record {
          f = codes "update";
          m =
              (codes "obj", obj)
              ∷ (codes "status", status)
              ∷ (codes "result", result)
              ∷ (codes "reason", reason)
              ∷ [];
        })
        w.channels;
}
