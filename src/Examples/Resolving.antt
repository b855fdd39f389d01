-- ===== src/Examples/Resolving.antt =====
-- The resolver at concrete inputs: the theorems on argus/resolv and argus/argus/hashdir.go.
use argus.Prelude.{ℕ, ◌≤◌, ◌≡◌, refl, true, Option, none, some, [], ◌∷◌, arith, if◌then◌else◌}
use argus.Text.{Text, codes, text_eq}
use argus.Bits.{next16}
use argus.Resolv.{CacheResult, Resolver}
use argus.Resolv.Cache.{add_result}
use argus.Resolv.Cache.Full.{versions, versions-add_result}
use argus.Resolv.Address.{Conf}
use argus.Resolv.Address.Found.{IsOffered, addr_of-IsOffered}
use argus.Resolv.Queries.{
  Worker, Env, make_queries, make_each, new_pending, send_query_zone, send_version, then_version,
  one_try, send_numbered, send_query, next_qid, set_query, find_query, done,
}
use argus.Resolv.Queries.Lives.{Draws, Lives, done-Lives}
use argus.Resolv.Replies.{Msg, a, process_result, here, next, take, reply, new_worker}
use argus.Resolv.Replies.Same.{IsCounted}
use argus.Resolv.Replies.Counted.{Reach-IsCounted}

abbrev answer : CacheResult
answer = record {
  fqdn = codes "www.example.";
  expires = 900000000000;
  ttl = 600;
  addrv4 = codes "192.0.2.1" ∷ codes "192.0.2.2" ∷ [];
  addrv6 = codes "2001:db8::1" ∷ [];
}

addr_of-IsOffered_example : IsOffered answer 5
addr_of-IsOffered_example = addr_of-IsOffered answer 5

abbrev resolver : Resolver
resolver = record {
  results = λ r. answer;
  cache = [];
  need_when = [];
  todo = [];
  now = 300000000000;
}

versions-add_result_example :
    versions (codes "www.example.") resolver
    ≤ versions (codes "www.example.") (add_result (codes "www") 3 1 resolver)
versions-add_result_example =
    versions-add_result (codes "www") (codes "www.example.") 3 1 resolver (omega arith)

-- net.ParseIP gives 16 bytes for addresses of both versions.
abbrev parse_ip : Text → Option ℕ
parse_ip t = if text_eq t (codes "192.0.2.1") then some 16 else none

abbrev by_number : Conf
by_number = record { hostname = codes "192.0.2.1"; hostname_default = []; ip_version = [] }

abbrev env : Env
env = record { draw = λ i n. 0; search = codes ".example." ∷ []; servers = 1; fuel = 4 }

env-Draws : Draws env
env-Draws i n h = h

abbrev idle : Worker
idle = new_worker 77 0 resolver

abbrev got : Option Worker → Worker
got none = idle
got (some w) = w

abbrev busy : Worker
busy = got (make_queries env (codes "www") 3 idle)

busy-taken : make_queries env (codes "www") 3 idle ≡ some busy
unfolding make_queries make_each new_pending send_query_zone send_version then_version one_try
    send_numbered send_query next_qid set_query find_query next16 new_worker
busy-taken = refl

abbrev msg : Msg
msg = record {
  id = 154;
  response = true;
  question = some (codes "www.example.");
  answers = a 600 (codes "192.0.2.1") ∷ [];
}

Reach-IsCounted_example : IsCounted (process_result env msg busy)
Reach-IsCounted_example =
    Reach-IsCounted env 77 0 resolver (process_result env msg busy)
      (next busy _ (next idle _ here (take (codes "www") 3 busy busy-taken)) (reply msg))

done-Lives_example : Lives env 1 busy (done env 1 busy)
done-Lives_example = done-Lives env 1 busy env-Draws
