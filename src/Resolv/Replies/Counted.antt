-- ===== src/Resolv/Replies/Counted.antt =====
-- The count of a worker's queries is the number that are pending, whatever the worker of
-- argus/resolv/resolv.go does; and no query notes a number for version 6.
use argus.Prelude.{
  ℕ, zero, suc, ◌+◌, ◌-◌, ◌≡◌, refl, ap, Bool, true, false, ◌&&◌, Option, none, some, List, [], ◌∷◌,
  ◌++◌, ltb, ◌==◌, if◌then◌else◌, Bool-cases, Option-cases, inl, inr,
}
use argus.Text.{Text}
use argus.Bits.{next16}
use argus.Resolv.{Ref, Resolver}
use argus.Resolv.Queries.{
  Worker, server_dead, Env, find_query, modify_query, is_free, whitened, next_qid, send_query,
  send_numbered, send_version, one_try, then_version, send_query_zone, new_pending, make_each,
  make_queries, done,
}
use argus.Resolv.Queries.Table.{is_free-find, length-set_query, set-Distinct}
use argus.Resolv.Replies.{
  forget, no_more, try_again, is_late, time_out_one, marked, time_out_each, next_server, timeouts,
  Step, reply, tock, take, others, new_worker, Reach, here, next,
}
use argus.Resolv.Replies.Same.{
  IsCounted, Same, Same-IsCounted, Same-refl, Same-then, done-Same, forget-IsCounted,
  modify_query-Same, process_result-IsCounted, whitened-Same,
}

-- A number that is free.
abbrev IsFresh : Worker → Option (ℕ × Worker) → Type 0
IsFresh w none = Unit
IsFresh w (some (q, w')) = Same w w' × (is_free q w'.pending ≡ true)

IsFresh-then : (w w' : Worker) (o : Option (ℕ × Worker)) → Same w w' → IsFresh w' o → IsFresh w o
IsFresh-then w w' none s f = tt
IsFresh-then w w' (some (q, w2)) s (t, free) = (Same-then w w' w2 s t, free)

IsFresh-or :
    (w w' : Worker) (q : ℕ) (later : Option (ℕ × Worker))
    → Same w w'
    → IsFresh w' later
    → IsFresh w (if q == 0 then later else if is_free q w'.pending then some (q, w') else later)
IsFresh-or w w' q later s f = elim (Bool-cases (q == 0)) [
  | inl z ↦ rw z (IsFresh-then w w' later s f)
  | inr z ↦ rw z (elim (Bool-cases (is_free q w'.pending)) [
    | inl e ↦ rw e (s, e)
    | inr e ↦ rw e (IsFresh-then w w' later s f)
  ])
]

next_qid-IsFresh : (env : Env) (fuel : ℕ) (w : Worker) → IsFresh w (next_qid env fuel w)
unfolding next_qid
next_qid-IsFresh env zero w = tt
next_qid-IsFresh env (suc fuel) w =
    let w' = whitened env (next16 w.qid) w in
    IsFresh-or w w' _ (next_qid env fuel w') (whitened-Same env (next16 w.qid) w)
      (next_qid-IsFresh env fuel w')

abbrev IfCounted : Option Worker → Type 0
IfCounted none = Unit
IfCounted (some w) = IsCounted w

send_query-IsCounted :
    (p : Ref) (zone : Text) (ver q : ℕ) (w : Worker)
    → is_free q w.pending ≡ true
    → IsCounted w
    → IsCounted (send_query p zone ver q w)
unfolding send_query
send_query-IsCounted p zone ver q w f c =
    let n = is_free-find q w.pending f in
    record {
      count = rw (length-set_query q p w.pending n) (ap suc c.count);
      distinct = set-Distinct q p w.pending n c.distinct;
      no_six = c.no_six;
    }

send_numbered-IfCounted :
    (p : Ref) (ver : ℕ) (w : Worker) (o : Option (ℕ × Worker))
    → IsFresh w o
    → IsCounted w
    → IfCounted (send_numbered p ver o)
unfolding send_numbered
send_numbered-IfCounted p ver w none f c = tt
send_numbered-IfCounted p ver w (some (q, w')) (s, free) c =
    let w2 = modify_query p (λ x. record x { underway4 = q }) w' in
    send_query-IsCounted p (w2.queries p).zname ver q w2 free (
      Same-IsCounted w' w2 (modify_query-Same p (λ x. record x { underway4 = q }) w' (λ x h. h))
        (Same-IsCounted w w' s c))

send_version-IfCounted :
    (env : Env) (asked : Bool) (p : Ref) (ver : ℕ) (w : Worker)
    → IsCounted w
    → IfCounted (send_version env asked p ver w)
unfolding send_version
send_version-IfCounted env true p ver w c =
    send_numbered-IfCounted p ver w (next_qid env env.fuel w) (next_qid-IsFresh env env.fuel w) c
send_version-IfCounted env false p ver w c = c

then_version-IfCounted :
    (env : Env) (asked : Bool) (p : Ref) (ver : ℕ) (o : Option Worker)
    → IfCounted o
    → IfCounted (then_version env asked p ver o)
unfolding then_version
then_version-IfCounted env asked p ver none c = tt
then_version-IfCounted env asked p ver (some w) c = send_version-IfCounted env asked p ver w c

one_try-IfCounted : (p : Ref) (o : Option Worker) → IfCounted o → IfCounted (one_try p o)
unfolding one_try
one_try-IfCounted p none c = tt
one_try-IfCounted p (some w) c =
    Same-IsCounted w _ (modify_query-Same p (λ x. record x { tries = x.tries - 1 }) w (λ x h. h)) c

send_query_zone-IfCounted :
    (env : Env) (p : Ref) (w : Worker) → IsCounted w → IfCounted (send_query_zone env p w)
unfolding send_query_zone
send_query_zone-IfCounted env p w c =
    one_try-IfCounted p _
      (then_version-IfCounted env _ p 6 _ (send_version-IfCounted env _ p 4 w c))

new_pending-Same :
    (name zone : Text) (prefm : ℕ) (w : Worker) → Same w (new_pending name zone prefm w)
unfolding new_pending
new_pending-Same name zone prefm w = record {
  nqueries = refl;
  pending = refl;
  six = λ h q. elim (Bool-cases (w.new_query == q)) [ inl e ↦ rw e refl | inr e ↦ rw e (h q) ];
}

IfCounted-bind :
    (o : Option Worker)
    → IfCounted o
    → (f : Worker → Option Worker) → ((w : Worker) → IsCounted w → IfCounted (f w))
    → IfCounted (elim o [ none ↦ none | some w' ↦ f w' ])
IfCounted-bind none c f h = tt
IfCounted-bind (some w) c f h = h w c

make_each-IfCounted :
    (env : Env) (name : Text) (prefm : ℕ) (search : List Text) (w : Worker)
    → IsCounted w
    → IfCounted (make_each env name prefm search w)
unfolding make_each
make_each-IfCounted env name prefm [] w c = c
make_each-IfCounted env name prefm (s ∷ search) w c =
    let w' = new_pending name (name ++ s) prefm w in
    IfCounted-bind (send_query_zone env w.new_query w')
      (send_query_zone-IfCounted env w.new_query w'
        (Same-IsCounted w w' (new_pending-Same name (name ++ s) prefm w) c))
      (make_each env name prefm search) (make_each-IfCounted env name prefm search)

try_again-IfCounted :
    (env : Env) (p : Ref) (w : Worker) → IsCounted w → IfCounted (try_again env p w)
unfolding try_again
try_again-IfCounted env p w c = elim (Bool-cases (ltb 0 (w.queries p).tries)) [
  | inl e ↦ rw e (send_query_zone-IfCounted env p w c)
  | inr e ↦ rw e (
      Same-IsCounted (modify_query p no_more w) (done env p (modify_query p no_more w))
        (done-Same env p (modify_query p no_more w))
        (Same-IsCounted w (modify_query p no_more w) (modify_query-Same p no_more w (λ x h. refl))
          c))
]

abbrev LateCounted : Option (Bool × Worker) → Type 0
LateCounted none = Unit
LateCounted (some (late, w)) = IsCounted w

time_out_one-LateCounted :
    (env : Env) (q : ℕ) (w : Worker)
    → IsCounted w
    → LateCounted (time_out_one env q (find_query q w.pending) w)
unfolding time_out_one
time_out_one-LateCounted env q w c = elim (Option-cases (find_query q w.pending)) [
  | inl n ↦ rw n c
  | inr (p, f) ↦ rw f (elim (Bool-cases (is_late p w)) [
    | inl e ↦ rw e (
        late_again (try_again env p (forget q w))
          (try_again-IfCounted env p (forget q w) (forget-IsCounted q p w f c)))
    | inr e ↦ rw e c
  ])
]
  where
    late_again :
        (o : Option Worker)
        → IfCounted o
        → LateCounted (elim o [ none ↦ none | some w' ↦ some (true, w') ])
    late_again none i = tt
    late_again (some w') i = i

time_out_each-LateCounted :
    (env : Env) (order : List ℕ) (late : Bool) (w : Worker)
    → IsCounted w
    → LateCounted (time_out_each env order late w)
unfolding time_out_each
time_out_each-LateCounted env [] late w c = c
time_out_each-LateCounted env (q ∷ order) late w c =
    next_one late (time_out_one env q (find_query q w.pending) w)
      (time_out_one-LateCounted env q w c) (time_out_each env order)
      (time_out_each-LateCounted env order)
  where
    next_one :
        (late : Bool) (o : Option (Bool × Worker))
        → LateCounted o
        → (f : Bool → Worker → Option (Bool × Worker))
        → ((late : Bool) (w : Worker) → IsCounted w → LateCounted (f late w))
        → LateCounted (elim (marked late o) [ none ↦ none | some (late', w') ↦ f late' w' ])
    next_one late none i f h = tt
    next_one late (some (b, w)) i f h = h _ w i

next_server-Same : (env : Env) (late : Bool) (w : Worker) → Same w (next_server env late w)
unfolding next_server
next_server-Same env late w =
    elim (Bool-cases (late && ltb (w.lastrcv + server_dead) w.shared.now)) [
      | inl e ↦ rw e record { nqueries = refl; pending = refl; six = λ h. h }
      | inr e ↦ rw e (Same-refl w)
    ]

timeouts-IfCounted :
    (env : Env) (order : List ℕ) (w : Worker) → IsCounted w → IfCounted (timeouts env order w)
unfolding timeouts
timeouts-IfCounted env order w c =
    served (time_out_each env order false w) (time_out_each-LateCounted env order false w c)
  where
    served :
        (o : Option (Bool × Worker))
        → LateCounted o
        → IfCounted (elim o [ none ↦ none | some (late, w') ↦ some (next_server env late w') ])
    served none i = tt
    served (some (late, w')) i =
        Same-IsCounted w' (next_server env late w') (next_server-Same env late w') i

IfCounted-some : (o : Option Worker) (w : Worker) → o ≡ some w → IfCounted o → IsCounted w
IfCounted-some o w e c = rw e at c

Step-IsCounted : (env : Env) (w w' : Worker) → Step env w w' → IsCounted w → IsCounted w'
unfolding make_queries
Step-IsCounted env w w' (reply msg) c = process_result-IsCounted env msg w c
Step-IsCounted env w w' (tock order w2 e) c =
    IfCounted-some (timeouts env order w) w' e (timeouts-IfCounted env order w c)
Step-IsCounted env w w' (take name prefm w2 e) c =
    IfCounted-some (make_queries env name prefm w) w' e (make_each-IfCounted env name prefm _ w c)
Step-IsCounted env w w' (others x) c = record {
  count = c.count;
  distinct = c.distinct;
  no_six = c.no_six;
}

-- Whatever replies, ticks and requests a worker gets, in any order, the number of its queries is
-- that of the pending ones, no two of which have one number, and no query ever notes the number of
-- its question for version 6.
pub Reach-IsCounted :
    (env : Env) (qid white : ℕ) (x : Resolver) (w : Worker)
    → Reach env (new_worker qid white x) w
    → IsCounted w
unfolding new_worker
Reach-IsCounted env qid white x w here = record { count = refl; distinct = tt; no_six = λ p. refl }
Reach-IsCounted env qid white x w (next w1 w2 r s) =
    Step-IsCounted env w1 w s (Reach-IsCounted env qid white x w1 r)
