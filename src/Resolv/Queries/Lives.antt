-- ===== src/Resolv/Queries/Lives.antt =====
-- What is in the cache once a query is done: pendQ.done of argus/resolv/resolv.go.
use argus.Prelude.{
  ℕ, suc, ◌+◌, ◌*◌, ◌/◌, ◌≤◌, ◌<◌, ◌≡◌, refl, ap, ◌∙◌, true, Option, none, some, arith, leb,
  if◌then◌else◌, min, max, Bool-cases, Option-cases, inl, inr,
}
use argus.Text.{Text, text_eq, text_eq_refl}
use argus.Resolv.{Ref, CacheResult, Resolver, nanoseconds, size_of}
use argus.Resolv.Cache.{add_cache, add_result, get}
use argus.Resolv.Cache.Full.{kept, get-add_cache, results-add_cache}
use argus.Resolv.Queries.{
  Worker, Env, ttl_min, ttl_max, ttl_err, new_res, lifetime, expire, given_res, publish, done,
}

-- A random number is below its bound.
abbrev pub Draws : Env → Type 0
Draws env = (i n : ℕ) → 0 < n → env.draw i n < n

lifetime_range :
    (env : Env) (ttl i : ℕ) → Draws env → (54 < lifetime env ttl i) × (lifetime env ttl i ≤ ttl_max)
unfolding lifetime
lifetime_range env ttl i h =
    let t = min (max ttl ttl_min) ttl_max in
    let d = h i (t / 10) (omega arith) in (omega arith, omega arith)

results-add_result :
    (name : Text) (prefm : ℕ) (r : Ref) (x : Resolver)
    → (add_result name prefm r x).results ≡ x.results
unfolding add_result
results-add_result name prefm r x = elim (Bool-cases (text_eq (x.results r).fqdn name)) [
  | inl e ↦ rw e (results-add_cache name prefm (some r) x)
  | inr e ↦ rw e (
      results-add_cache (x.results r).fqdn prefm (some r) (add_cache name prefm (some r) x)
      ∙ results-add_cache name prefm (some r) x)
]

leb_zero : (n : ℕ) → leb 0 n ≡ true
leb_zero n = ground arith

abbrev pub IsThere : Option Ref → Type 0
IsThere o = (r : Ref) × (o ≡ some r)

chosen-IsThere :
    (o : Option Ref) (r : Ref) (results : Ref → CacheResult)
    → IsThere (if leb (size_of o results) (size_of (some r) results) then some r else o)
unfolding size_of
chosen-IsThere none r results = (r, rw (leb_zero (size_of (some r) results)) refl)
chosen-IsThere (some q) r results =
    elim (Bool-cases (leb (size_of (some q) results) (size_of (some r) results))) [
      | inl e ↦ (r, rw e refl)
      | inr e ↦ (q, rw e refl)
    ]

get-add_result :
    (name : Text) (prefm : ℕ) (r : Ref) (x : Resolver)
    → IsThere (get name (add_result name prefm r x))
unfolding add_result
get-add_result name prefm r x = elim (Bool-cases (text_eq (x.results r).fqdn name)) [
  | inl e ↦
      rw (e, get-add_cache name name prefm (some r) x, text_eq_refl name)
        (chosen-IsThere (kept name x) r x.results)
  | inr e ↦
      rw
        (
          e,
          get-add_cache (x.results r).fqdn name prefm (some r) (add_cache name prefm (some r) x),
          e,
          get-add_cache name name prefm (some r) x,
          text_eq_refl name,
        )
        (chosen-IsThere (kept name x) r x.results)
]

results-expire :
    (env : Env) (r : Ref) (w : Worker)
    → ((expire env r w).shared.results r).ttl ≡ lifetime env (w.shared.results r).ttl w.drawn
unfolding expire
results-expire env r w = ground arith

expires-expire :
    (env : Env) (r : Ref) (w : Worker)
    → ((expire env r w).shared.results r).expires
      ≡ w.shared.now + lifetime env (w.shared.results r).ttl w.drawn * nanoseconds
unfolding expire
expires-expire env r w = ground arith

res-new_res :
    (fqdn : Text) (ttl : ℕ) (p : Ref) (w : Worker)
    → ((new_res fqdn ttl p w).queries p).res ≡ some w.new_result
unfolding new_res
res-new_res fqdn ttl p w = ground arith

given_res-IsThere : (env : Env) (p : Ref) (w : Worker) → IsThere ((given_res env p w).queries p).res
unfolding given_res
given_res-IsThere env p w = elim (Option-cases (w.queries p).res) [
  | inl e ↦ (
    w.new_result,
    rw e (
        res-new_res (w.queries p).name (ttl_err + env.draw w.drawn (ttl_err / 10)) p
          (record w { drawn = suc w.drawn })),
  )
  | inr (r, e) ↦ (r, rw e e)
]

now-given_res : (env : Env) (p : Ref) (w : Worker) → (given_res env p w).shared.now ≡ w.shared.now
unfolding given_res new_res
now-given_res env p w = elim (Option-cases (w.queries p).res) [
  | inl e ↦ rw e refl
  | inr (r, e) ↦ rw e refl
]

-- The result that is published, as expire has made it.
ttl-publish :
    (env : Env) (name : Text) (prefm : ℕ) (r : Ref) (w : Worker)
    → ((publish name prefm r (expire env r w)).shared.results r).ttl
      ≡ lifetime env (w.shared.results r).ttl w.drawn
unfolding publish
ttl-publish env name prefm r w =
    rw (results-add_result name prefm r (expire env r w).shared) (results-expire env r w)

expires-publish :
    (env : Env) (name : Text) (prefm : ℕ) (r : Ref) (w : Worker)
    → ((publish name prefm r (expire env r w)).shared.results r).expires
      ≡ w.shared.now + ((publish name prefm r (expire env r w)).shared.results r).ttl * nanoseconds
unfolding publish
expires-publish env name prefm r w =
    rw (results-add_result name prefm r (expire env r w).shared, results-expire env r w)
      (expires-expire env r w)

expires_at :
    (env : Env) (name : Text) (prefm : ℕ) (r : Ref) (w : Worker) (now : ℕ)
    → w.shared.now ≡ now
    → ((publish name prefm r (expire env r w)).shared.results r).expires
      ≡ now + ((publish name prefm r (expire env r w)).shared.results r).ttl * nanoseconds
expires_at env name prefm r w now h =
    expires-publish env name prefm r w
    ∙ ap (λ n. n + ((publish name prefm r (expire env r w)).shared.results r).ttl * nanoseconds) h

res-publish :
    (env : Env) (name : Text) (prefm : ℕ) (r p : Ref) (w : Worker)
    → ((publish name prefm r (expire env r w)).queries p).res ≡ (w.queries p).res
unfolding publish expire
res-publish env name prefm r p w = refl

cached-publish :
    (env : Env) (name : Text) (prefm : ℕ) (r : Ref) (w : Worker)
    → IsThere (get name (publish name prefm r (expire env r w)).shared)
unfolding publish
cached-publish env name prefm r w = get-add_result name prefm r (expire env r w).shared

-- What a query that is done leaves: its result, for how long it is good, and a result in the cache.
pub record Lives (env : Env) (p : Ref) (w w' : Worker) : Type 0 where
  pub res : Ref
  pub is_res : (w'.queries p).res ≡ some res
  pub least : 54 < (w'.shared.results res).ttl
  pub most : (w'.shared.results res).ttl ≤ ttl_max
  pub good :
      (w'.shared.results res).expires ≡ w.shared.now + (w'.shared.results res).ttl * nanoseconds
  pub cached : IsThere (get (w.queries p).name w'.shared)

-- Once a query is done, with or without answers, it has a result that is good for more than 54
-- seconds and at most a fortnight, and its name has a result in the cache.
pub done-Lives : (env : Env) (p : Ref) (w : Worker) → Draws env → Lives env p w (done env p w)
unfolding done
done-Lives env p w h =
    let w1 = given_res env p w in
    let x = w.queries p in
    let (r, e) = given_res-IsThere env p w in
    let (least, most) = lifetime_range env (w1.shared.results r).ttl w1.drawn h in
    rw (e) record {
      res = r;
      is_res = res-publish env x.name x.prefm r p w1 ∙ e;
      least = rw (ttl-publish env x.name x.prefm r w1) least;
      most = rw (ttl-publish env x.name x.prefm r w1) most;
      good = expires_at env x.name x.prefm r w1 w.shared.now (now-given_res env p w);
      cached = cached-publish env x.name x.prefm r w1;
    }
