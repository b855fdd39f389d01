-- ===== src/Resolv/Cache/Full.antt =====
-- What the cache of argus/resolv/cache.go keeps of the results that it is given.
use argus.Prelude.{
  ℕ, ◌≤◌, ◌≡◌, refl, sym, Bool, true, false, Option, none, some, arith, ltb, leb, if◌then◌else◌,
  Bool-cases, Option-cases, inl, inr,
}
use argus.Text.{Text, text_eq, text_eq_iff}
use argus.Dict.{lookup, lookup-insert}
use argus.Resolv.{Ref, Resolver, size_of}
use argus.Resolv.Cache.{entry_of, unexpired, add_cache, add_result, get, result_in}

-- The result kept for a name that is not expired, and the addresses that it has by version.
unfoldable pub kept : Text → Resolver → Option Ref
unfolding get
kept name w = unexpired (get name w) w

result-entry_of : (name : Text) (w : Resolver) → (entry_of name w).result ≡ get name w
unfolding entry_of get result_in
result-entry_of name w = elim (Option-cases (lookup name w.cache)) [
  | inl e ↦ rw e refl
  | inr (ce, e) ↦ rw e refl
]

pub get-add_cache :
    (name other : Text) (prefm : ℕ) (res : Option Ref) (w : Resolver)
    → get other (add_cache name prefm res w) ≡ (
        if text_eq name other
        then if leb (size_of (kept name w) w.results) (size_of res w.results)
          then res
          else kept name w
        else get other w)
unfolding get result_in add_cache entry_of kept
get-add_cache name other prefm res w =
    rw (lookup-insert name other _ w.cache) (elim (Bool-cases (text_eq name other)) [
      | inl e ↦ rw (e, result-entry_of name w) refl
      | inr e ↦ rw e refl
    ])

unexpired-add_cache :
    (o : Option Ref) (name : Text) (prefm : ℕ) (res : Option Ref) (w : Resolver)
    → unexpired o (add_cache name prefm res w) ≡ unexpired o w
unfolding unexpired add_cache
unexpired-add_cache none name prefm res w = refl
unexpired-add_cache (some r) name prefm res w = refl

unexpired_twice : (o : Option Ref) (w : Resolver) → unexpired (unexpired o w) w ≡ unexpired o w
unfolding unexpired
unexpired_twice none w = refl
unexpired_twice (some r) w = elim (Bool-cases (ltb (w.results r).expires w.now)) [
  | inl e ↦ rw e refl
  | inr e ↦ rw e (rw e refl)
]

unexpired_good :
    (r : Ref) (w : Resolver) → w.now ≤ (w.results r).expires → unexpired (some r) w ≡ some r
unfolding unexpired
unexpired_good r w h = ground arith

-- What a result does to what is kept: the name's own gives way to one with as many versions.
pub kept-add_cache :
    (name other : Text) (prefm : ℕ) (res : Ref) (w : Resolver)
    → w.now ≤ (w.results res).expires
    → kept other (add_cache name prefm (some res) w) ≡ (
        if text_eq name other
        then if leb (size_of (kept name w) w.results) (size_of (some res) w.results)
          then some res
          else kept name w
        else kept other w)
unfolding kept
kept-add_cache name other prefm res w h =
    rw
      (
        get-add_cache name other prefm (some res) w,
        unexpired-add_cache
            (if text_eq name other
              then if leb (size_of (kept name w) w.results) (size_of (some res) w.results)
                then some res
                else kept name w
              else get other w)
            name prefm (some res) w,
      )
      (elim (Bool-cases (text_eq name other)) [
        | inl e ↦
            rw e (replaced (leb (size_of (kept name w) w.results) (size_of (some res) w.results)))
        | inr e ↦ rw e refl
      ])
  where
    replaced :
        (b : Bool)
        → unexpired (if b then some res else kept name w) w ≡ (if b then some res else kept name w)
    replaced true = unexpired_good res w h
    replaced false = unexpired_twice (get name w) w

pub results-add_cache :
    (name : Text) (prefm : ℕ) (res : Option Ref) (w : Resolver)
    → (add_cache name prefm res w).results ≡ w.results
unfolding add_cache
results-add_cache name prefm res w = refl

-- For how many versions there are addresses, in what is kept for a name and has not expired.
abbrev pub versions : Text → Resolver → ℕ
versions name w = size_of (kept name w) w.results

versions-add_cache :
    (name other : Text) (prefm : ℕ) (res : Ref) (w : Resolver)
    → w.now ≤ (w.results res).expires
    → versions other w ≤ versions other (add_cache name prefm (some res) w)
versions-add_cache name other prefm res w h =
    rw (kept-add_cache name other prefm res w h, results-add_cache name prefm (some res) w)
      (elim (Bool-cases (text_eq name other)) [
        | inl e ↦ rw (e, sym ((text_eq_iff name other).0 e)) (larger (kept name w))
        | inr e ↦ rw e (omega arith)
      ])
  where
    larger :
        (o : Option Ref)
        → size_of o w.results
          ≤ size_of
              (if leb (size_of o w.results) (size_of (some res) w.results) then some res else o)
              w.results
    larger o = ground arith

now-add_cache :
    (name : Text) (prefm : ℕ) (res : Option Ref) (w : Resolver)
    → (add_cache name prefm res w).now ≡ w.now
unfolding add_cache
now-add_cache name prefm res w = refl

-- A query's result that is not expired never leaves a name, its own, its full name or any other,
-- with addresses of fewer versions than were kept and are good still.
pub versions-add_result :
    (name other : Text) (prefm : ℕ) (res : Ref) (w : Resolver)
    → w.now ≤ (w.results res).expires
    → versions other w ≤ versions other (add_result name prefm res w)
unfolding add_result
versions-add_result name other prefm res w h =
    elim (Bool-cases (text_eq (w.results res).fqdn name)) [
      | inl e ↦ rw e (versions-add_cache name other prefm res w h)
      | inr e ↦ rw e (
          omega (
            arith,
            versions-add_cache name other prefm res w h,
            versions-add_cache (w.results res).fqdn other prefm res
                (add_cache name prefm (some res) w) (rw (now-add_cache name prefm (some res) w) h),
          ))
    ]
