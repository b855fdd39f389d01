-- ===== src/Resolv/Queries.antt =====
-- The queries of a resolver's worker: argus/resolv/resolv.go. The socket, the rate at which a worker
-- takes requests and the counters are left out; a reply is what the package dns makes of it.
pub mod Lives
pub mod Table
use argus.Prelude.{
  ℕ, zero, suc, ◌+◌, ◌-◌, ◌*◌, ◌/◌, ◌%◌, Bool, true, false, ◌&&◌, ◌||◌, not, Option, none, some,
  List, [], ◌∷◌, ◌++◌, ltb, leb, ◌==◌, if◌then◌else◌, length, get_or, min, max,
}
use argus.Text.{Text, text_eq}
use Prim.Native.Nat.{bit_and, bit_xor}
use argus.Bits.{next16}
use argus.Resolv.{Ref, CacheResult, Resolver, f_ip4, f_ip6, nanoseconds}
use argus.Resolv.Cache.{add_result}

abbrev pub tries_max : ℕ
tries_max = 3

abbrev pub query_timeout : ℕ
query_timeout = 4 * nanoseconds

abbrev pub server_dead : ℕ
server_dead = 10 * nanoseconds

abbrev pub ttl_min : ℕ
ttl_min = 60

abbrev pub ttl_max : ℕ
ttl_max = 14 * 24 * 3600

abbrev pub ttl_err : ℕ
ttl_err = 120

-- pendQ; `underway` is the number of the query sent for a version, 0 for none.
pub record PendQ : Type 0 where
  pub name : Text
  pub zname : Text
  pub start : ℕ
  pub tries : ℕ
  pub prefm : ℕ
  pub underway4 : ℕ
  pub underway6 : ℕ
  pub res : Option Ref

-- A query that went out, for addresses of a version.
pub record Sent : Type 0 where
  pub qid : ℕ
  pub zone : Text
  pub ver : ℕ
  pub nsn : ℕ

-- workstate, with the heap of its queries, the results that it may still allocate from
-- `new_result` on, and how many random numbers were drawn.
pub record Worker : Type 0 where
  pub nqueries : ℕ
  pub nsn : ℕ
  pub qid : ℕ
  pub white : ℕ
  pub lastrcv : ℕ
  pub pending : List (ℕ × Ref)
  pub queries : Ref → PendQ
  pub new_query : Ref
  pub new_result : Ref
  pub drawn : ℕ
  pub sent : List Sent
  pub shared : Resolver

-- rand.Intn, by the number of the draw, and the configuration: the names to search in and how many
-- servers there are. `fuel` bounds the search for a free number of a query.
pub record Env : Type 0 where
  pub draw : ℕ → ℕ → ℕ
  pub search : List Text
  pub servers : ℕ
  pub fuel : ℕ

-- w.pending[qid]
unfoldable pub find_query : ℕ → List (ℕ × Ref) → Option Ref
find_query q [] = none
find_query q ((i, p) ∷ l) = if i == q then some p else find_query q l

unfoldable pub set_query : ℕ → Ref → List (ℕ × Ref) → List (ℕ × Ref)
set_query q p [] = (q, p) ∷ []
set_query q p ((i, r) ∷ l) = if i == q then (q, p) ∷ l else (i, r) ∷ set_query q p l

unfoldable pub delete_query : ℕ → List (ℕ × Ref) → List (ℕ × Ref)
delete_query q [] = []
delete_query q ((i, p) ∷ l) = let rest = delete_query q l in if i == q then rest else (i, p) ∷ rest

abbrev pub modify_query : Ref → (PendQ → PendQ) → Worker → Worker
modify_query p f w = record w { queries = λ q. if p == q then f (w.queries p) else w.queries q }

abbrev pub modify_result : Ref → (CacheResult → CacheResult) → Worker → Worker
modify_result r f w =
    let x = w.shared in
    record w {
      shared = record x { results = λ q. if r == q then f (x.results r) else x.results q };
    }

abbrev pub is_free : ℕ → List (ℕ × Ref) → Bool
is_free q l = elim (find_query q l) [ none ↦ true | some p ↦ false ]

-- sendQuery
unfoldable pub send_query : Ref → Text → ℕ → ℕ → Worker → Worker
unfolding set_query
send_query p zone ver q w = record w {
  pending = set_query q p w.pending;
  sent = w.sent ++ record { qid = q; zone = zone; ver = ver; nsn = w.nsn } ∷ [];
  nqueries = suc w.nqueries;
}

-- One of the two branches of sendQueryZone; both note the number in underway4.
unfoldable pub send_numbered : Ref → ℕ → Option (ℕ × Worker) → Option Worker
unfolding send_query
send_numbered p ver none = none
send_numbered p ver (some (q, w)) =
    let w' = modify_query p (λ x. record x { underway4 = q }) w in
    some (send_query p (w'.queries p).zname ver q w')

unfoldable pub one_try : Ref → Option Worker → Option Worker
one_try p none = none
one_try p (some w) = some (modify_query p (λ x. record x { tries = x.tries - 1 }) w)

abbrev pub asks : ℕ → ℕ → Bool
asks flag prefm = not (bit_and prefm flag == 0)

unfoldable pub new_pending : Text → Text → ℕ → Worker → Worker
new_pending name zone prefm w = record w {
  queries = λ q.
      if w.new_query == q
      then record {
        name = name;
        zname = zone;
        start = w.shared.now;
        tries = tries_max;
        prefm = prefm;
        underway4 = 0;
        underway6 = 0;
        res = none;
      }
      else w.queries q;
  new_query = suc w.new_query;
}

unfoldable pub new_res : Text → ℕ → Ref → Worker → Worker
new_res fqdn ttl p w =
    let x = w.shared in
    let r = w.new_result in
    let fresh : CacheResult = record {
      fqdn = fqdn;
      expires = 0;
      ttl = ttl;
      addrv4 = [];
      addrv6 = [];
    } in
    let w' = modify_query p (λ q. record q { res = some r }) w in
    record w' {
      new_result = suc r;
      shared = record x { results = λ q. if r == q then fresh else x.results q };
    }

abbrev pub no_result : Option Ref → Bool
no_result none = true
no_result (some r) = false

abbrev pub ref_or : Ref → Option Ref → Ref
ref_or d none = d
ref_or d (some r) = r

unfoldable pub with_res : Text → ℕ → Ref → Worker → Worker
unfolding new_res
with_res fqdn ttl p w = if no_result (w.queries p).res then new_res fqdn ttl p w else w

unfoldable pub publish : Text → ℕ → Ref → Worker → Worker
publish name prefm r w = record w { shared = add_result name prefm r w.shared }

module _ (env : Env) where
  abbrev pub whitened : ℕ → Worker → Worker
  whitened qid w =
      if qid == 1
      then record w { qid = qid; white = env.draw w.drawn 65535; drawn = suc w.drawn }
      else record w { qid = qid }

  -- nextqid; `none` where the fuel does not suffice
  unfoldable pub next_qid : ℕ → Worker → Option (ℕ × Worker)
  next_qid zero w = none
  next_qid (suc fuel) w =
      let w' = whitened (next16 w.qid) w in
      let q = bit_xor w'.qid w'.white in
      let later = next_qid fuel w' in
      if q == 0 then later else if is_free q w'.pending then some (q, w') else later

  unfoldable pub send_version : Bool → Ref → ℕ → Worker → Option Worker
  unfolding send_numbered next_qid
  send_version asked p ver w = if asked then send_numbered p ver (next_qid env.fuel w) else some w

  unfoldable pub then_version : Bool → Ref → ℕ → Option Worker → Option Worker
  unfolding send_version
  then_version asked p ver none = none
  then_version asked p ver (some w) = send_version asked p ver w

  -- sendQueryZone
  unfoldable pub send_query_zone : Ref → Worker → Option Worker
  unfolding send_version then_version one_try
  send_query_zone p w =
      let prefm = (w.queries p).prefm in
      one_try p (then_version (asks f_ip6 prefm) p 6 (send_version (asks f_ip4 prefm) p 4 w))

  unfoldable pub make_each : Text → ℕ → List Text → Worker → Option Worker
  unfolding new_pending send_query_zone
  make_each name prefm [] w = some w
  make_each name prefm (s ∷ search) w =
      elim (send_query_zone w.new_query (new_pending name (name ++ s) prefm w)) [
        | none ↦ none
        | some w' ↦ make_each name prefm search w'
      ]

  -- makeQueries. A name that ends in a dot is not searched for; on an empty one the source panics.
  unfoldable pub make_queries : Text → ℕ → Worker → Option Worker
  unfolding make_each
  make_queries name prefm w =
      make_each name prefm (if get_or name (length name - 1) 0 == b'.' then [] ∷ [] else env.search)
        w

  -- The time to live that done gives, with the random part.
  unfoldable pub lifetime : ℕ → ℕ → ℕ
  lifetime ttl drawn = let t = min (max ttl ttl_min) ttl_max in t - env.draw drawn (t / 10)

  unfoldable pub expire : Ref → Worker → Worker
  unfolding lifetime
  expire r w =
      let now = w.shared.now in
      let ttl = lifetime (w.shared.results r).ttl w.drawn in
      let w' = modify_result r (λ x. record x { ttl = ttl; expires = now + ttl * nanoseconds }) w in
      record w' { drawn = suc w.drawn }

  -- Where there was no answer, done makes a result without addresses.
  unfoldable pub given_res : Ref → Worker → Worker
  unfolding new_res
  given_res p w =
      let ttl = ttl_err + env.draw w.drawn (ttl_err / 10) in
      if no_result (w.queries p).res
      then new_res (w.queries p).name ttl p (record w { drawn = suc w.drawn })
      else w

  -- pendQ.done
  unfoldable pub done : Ref → Worker → Worker
  unfolding given_res expire publish
  done p w =
      let w1 = given_res p w in
      let r = ref_or 0 (w1.queries p).res in
      publish (w.queries p).name (w.queries p).prefm r (expire r w1)
