-- ===== src/Resolv/Cache.antt =====
-- The cache of the resolver: argus/resolv/cache.go, and query of resolv.go.
pub mod Full
use argus.Prelude.{
  ℕ, ◌+◌, ◌-◌, ◌*◌, Bool, true, false, ◌&&◌, not, Option, none, some, List, [], ◌∷◌, ◌++◌, ltb, leb,
  ◌==◌, if◌then◌else◌, length,
}
use Prim.Native.Nat.{bit_and, bit_or}
use argus.Text.{Text, text_eq}
use argus.Dict.{Dict, lookup, insert, delete}
use argus.Resolv.{
  Ref, CacheResult, CacheEntry, QueryReq, Resolver, nanoseconds, todo_cap, pref_to_mask, size_of,
}

abbrev pub fresh_entry : CacheEntry
fresh_entry = record { result = none; updated = 0; prefm = 0; underway = false }

abbrev pub or_fresh : Option CacheEntry → CacheEntry
or_fresh none = fresh_entry
or_fresh (some ce) = ce

-- get, or newCacheE where there is no entry
unfoldable pub entry_of : Text → Resolver → CacheEntry
entry_of name w = or_fresh (lookup name w.cache)

abbrev pub put_entry : Text → CacheEntry → Resolver → Resolver
put_entry name ce w = record w { cache = insert name ce w.cache }

-- query: the request goes into the channel where there is room.
unfoldable pub query : Text → ℕ → Resolver → Bool × Resolver
query name prefm w =
    if ltb (length w.todo) todo_cap
    then (true, record w { todo = w.todo ++ record { name = name; prefm = prefm } ∷ [] })
    else (false, w)

-- cacheEntry.request
unfoldable pub request_entry : CacheEntry → Text → ℕ → Resolver → Resolver
unfolding query
request_entry ce name prefm w =
    let mask = bit_or ce.prefm prefm in
    let (sent, w') = query name mask (record w { need_when = delete name w.need_when }) in
    put_entry name (record ce { prefm = if sent then mask else 0; underway = sent }) w'

-- Request
unfoldable pub request : Text → List ℕ → Resolver → Resolver
unfolding entry_of request_entry
request name pref w =
    let prefm = pref_to_mask pref in
    let ce = entry_of name w in
    if bit_and prefm ce.prefm == prefm then put_entry name ce w else request_entry ce name prefm w

unfoldable pub refresh_found : Option CacheEntry → Text → Resolver → Resolver
unfolding request_entry
refresh_found none name w = w
refresh_found (some ce) name w = request_entry ce name 0 w

-- refresh
unfoldable pub refresh : Text → Resolver → Resolver
unfolding refresh_found
refresh name w = refresh_found (lookup name w.cache) name w

-- A result that has expired is dropped.
unfoldable pub unexpired : Option Ref → Resolver → Option Ref
unexpired none w = none
unexpired (some r) w = if ltb (w.results r).expires w.now then none else some r

-- addCache
unfoldable pub add_cache : Text → ℕ → Option Ref → Resolver → Resolver
unfolding entry_of unexpired size_of
add_cache name prefm res w =
    let ce = entry_of name w in
    let old = unexpired ce.result w in
    let replaced = leb (size_of old w.results) (size_of res w.results) in
    put_entry name
      (record {
        result = if replaced then res else old;
        updated = if replaced then w.now else ce.updated;
        prefm = bit_or ce.prefm prefm;
        underway = false;
      })
      w

-- Result, with the result of a query: it is kept under its full name too.
unfoldable pub add_result : Text → ℕ → Ref → Resolver → Resolver
unfolding add_cache
add_result name prefm res w =
    let w' = add_cache name prefm (some res) w in
    let fqdn = (w.results res).fqdn in
    if text_eq fqdn name then w' else add_cache fqdn prefm (some res) w'

unfoldable pub result_in : Option CacheEntry → Option Ref
result_in none = none
result_in (some ce) = ce.result

-- Get
unfoldable pub get : Text → Resolver → Option Ref
unfolding result_in
get name w = result_in (lookup name w.cache)

unfoldable pub sooner : Option ℕ → ℕ → ℕ
sooner none t = t
sooner (some curr) t = if ltb curr t then curr else t

-- refreshWhen
unfoldable pub refresh_when : Text → ℕ → Resolver → Resolver
unfolding sooner
refresh_when name when w = record w {
  need_when = insert name (sooner (lookup name w.need_when) when) w.need_when;
}

-- Refresh. The clock is past its first two seconds, so that the subtraction gives no negative time.
unfoldable pub refresh_in : Ref → ℕ → Resolver → Resolver
unfolding refresh refresh_when
refresh_in e secs w =
    let x = w.results e in
    let treq = w.now + secs * nanoseconds - 2 * nanoseconds in
    if secs == 0
    then refresh x.fqdn w
    else if ltb treq x.expires
    then w
    else refresh_when x.fqdn treq w

-- needMaint: the names whose time has come.
unfoldable pub need_maint : ℕ → Dict ℕ → List Text
need_maint now [] = []
need_maint now ((name, when) ∷ rest) =
    let later = need_maint now rest in if ltb now when then later else name ∷ later

unfoldable pub refresh_all : List Text → Resolver → Resolver
unfolding refresh
refresh_all [] w = w
refresh_all (name ∷ names) w = refresh_all names (refresh name w)

-- cacheMaint
unfoldable pub cache_maint : Resolver → Resolver
unfolding need_maint refresh_all
cache_maint w = refresh_all (need_maint w.now w.need_when) w
