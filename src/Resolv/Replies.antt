-- ===== src/Resolv/Replies.antt =====
-- Replies and timeouts of a resolver's worker: processResult and timeouts of
-- argus/resolv/resolv.go, and the worker's loop as a step relation.
pub mod Same
pub mod Counted
use argus.Prelude.{
  ℕ, zero, suc, ◌+◌, ◌-◌, ◌%◌, ◌≡◌, Bool, true, false, ◌&&◌, ◌||◌, not, Option, none, some, List,
  [], ◌∷◌, ◌++◌, ltb, ◌==◌, if◌then◌else◌,
}
use argus.Text.{Text, text_eq}
use argus.Resolv.{Ref, CacheResult, Resolver}
use argus.Resolv.Queries.{
  PendQ, Worker, Env, query_timeout, server_dead, find_query, delete_query, modify_query,
  modify_result, with_res, ref_or, done, send_query_zone, make_queries,
}

-- An answer of a reply: a record of an address, or another.
pub data Answer : Type 0 where
  a aaaa : ℕ → Text → Answer
  other : ℕ → Answer

-- dns.Msg
pub record Msg : Type 0 where
  pub id : ℕ
  pub response : Bool
  pub question : Option Text
  pub answers : List Answer

abbrev pub ttl_of : Answer → ℕ
ttl_of (a ttl addr) = ttl
ttl_of (aaaa ttl addr) = ttl
ttl_of (other ttl) = ttl

unfoldable pub add_address : Answer → CacheResult → CacheResult
add_address (a ttl addr) x = record x { addrv4 = x.addrv4 ++ addr ∷ [] }
add_address (aaaa ttl addr) x = record x { addrv6 = x.addrv6 ++ addr ∷ [] }
add_address (other ttl) x = x

-- The query has not answered yet what it now does.
abbrev pub answered : ℕ → PendQ → PendQ
answered q x = record x {
  underway4 = if x.underway4 == q then 0 else x.underway4;
  underway6 = if x.underway6 == q then 0 else x.underway6;
}

abbrev pub is_answered : PendQ → Bool
is_answered x = x.underway4 == 0 && x.underway6 == 0

abbrev pub asked_for : Option Text → Text → Bool
asked_for none zname = false
asked_for (some n) zname = text_eq n zname

-- The loop over the answers.
unfoldable pub take_answers : Ref → List Answer → Worker → Worker
unfolding add_address
take_answers p [] w = w
take_answers p (ans ∷ answers) w =
    let w1 = with_res (w.queries p).zname (ttl_of ans) p w in
    take_answers p answers (modify_result (ref_or 0 (w1.queries p).res) (add_address ans) w1)

unfoldable pub forget : ℕ → Worker → Worker
unfolding delete_query
forget q w = record w { pending = delete_query q w.pending; nqueries = w.nqueries - 1 }

abbrev pub no_more : PendQ → PendQ
no_more x = record x { underway4 = 0; underway6 = 0 }

abbrev pub is_late : Ref → Worker → Bool
is_late p w = ltb ((w.queries p).start + query_timeout) w.shared.now

abbrev pub marked : Bool → Option (Bool × Worker) → Option (Bool × Worker)
marked some_late none = none
marked some_late (some (late, w)) = some (some_late || late, w)

module _ (env : Env) where
  unfoldable pub reply_to : Ref → Msg → Worker → Worker
  unfolding take_answers forget
  reply_to p msg w =
      let w1 = forget msg.id (record w { lastrcv = w.shared.now }) in
      let w2 = take_answers p msg.answers (modify_query p (answered msg.id) w1) in
      if is_answered (w2.queries p) then done env p w2 else w2

  unfoldable pub reply_if : Option Ref → Msg → Worker → Worker
  unfolding reply_to
  reply_if none msg w = w
  reply_if (some p) msg w =
      if asked_for msg.question (w.queries p).zname then reply_to p msg w else w

  -- processResult
  unfoldable pub process_result : Msg → Worker → Worker
  unfolding reply_if
  process_result msg w = if msg.response then reply_if (find_query msg.id w.pending) msg w else w

  unfoldable pub try_again : Ref → Worker → Option Worker
  try_again p w =
      if ltb 0 (w.queries p).tries
      then send_query_zone env p w
      else some (done env p (modify_query p no_more w))

  unfoldable pub time_out_one : ℕ → Option Ref → Worker → Option (Bool × Worker)
  unfolding forget try_again
  time_out_one q none w = some (false, w)
  time_out_one q (some p) w =
      if is_late p w
      then (elim (try_again p (forget q w)) [ none ↦ none | some w' ↦ some (true, w') ])
      else some (false, w)

  -- The loop over the map, in which queries that are sent meanwhile may come up too: `order` are the
  -- numbers in the order in which they come up. It says whether a query timed out.
  unfoldable pub time_out_each : List ℕ → Bool → Worker → Option (Bool × Worker)
  unfolding time_out_one
  time_out_each [] late w = some (late, w)
  time_out_each (q ∷ order) late w =
      elim (marked late (time_out_one q (find_query q w.pending) w)) [
        | none ↦ none
        | some (late', w') ↦ time_out_each order late' w'
      ]

  unfoldable pub next_server : Bool → Worker → Worker
  next_server late w =
      if late && ltb (w.lastrcv + server_dead) w.shared.now
      then record w { nsn = (w.nsn + 1) % env.servers; lastrcv = w.shared.now }
      else w

  -- timeouts
  unfoldable pub timeouts : List ℕ → Worker → Option Worker
  unfolding time_out_each next_server
  timeouts order w = elim (time_out_each order false w) [
    | none ↦ none
    | some (late, w') ↦ some (next_server late w')
  ]

  -- What the worker's loop may do next, and what others do to what they share with it meanwhile.
  pub data Step (w : Worker) : Worker → Type 0 where
    reply : (msg : Msg) → Step w (process_result msg w)
    tock : (order : List ℕ) (w' : Worker) → timeouts order w ≡ some w' → Step w w'
    take :
        (name : Text) (prefm : ℕ) (w' : Worker)
        → make_queries env name prefm w ≡ some w'
        → Step w w'
    others : (x : Resolver) → Step w (record w { shared = x })

-- A worker's start.
unfoldable pub new_worker : ℕ → ℕ → Resolver → Worker
new_worker qid white x = record {
  nqueries = 0;
  nsn = 0;
  qid = qid;
  white = white;
  lastrcv = x.now;
  pending = [];
  queries = λ q. record {
    name = [];
    zname = [];
    start = 0;
    tries = 0;
    prefm = 0;
    underway4 = 0;
    underway6 = 0;
    res = none;
  };
  new_query = 1;
  new_result = 1;
  drawn = 2;
  sent = [];
  shared = x;
}

pub data Reach (env : Env) (start : Worker) : Worker → Type 0 where
  here : Reach env start start
  next : (w w' : Worker) → Reach env start w → Step env w w' → Reach env start w'
