-- ===== src/Resolv/Address/Found.antt =====
-- Which address argus/resolv/ip.go chooses: Addr, AddrWB and Config.
use argus.Prelude.{
  ℕ, zero, suc, ◌+◌, ◌-◌, ◌%◌, ◌≤◌, ◌<◌, ◌≡◌, refl, true, false, Option, none, some, List, [], ◌∷◌,
  ◌++◌, arith, ltb, leb, if◌then◌else◌, length, get_or, ltb→lt, lt→ltb, Bool-cases, inl, inr,
}
use argus.Text.{Text, codes, text_eq}
use argus.Resolv.{CacheResult, Resolver}
use argus.Resolv.Address.{
  Conf, Ip, config, literal_or_named, Reply, found, modulo, pick, choose, addr_of, addr, addr_wb,
  bracketed,
}

get_or-append :
    (xs ys : List Text) (i : ℕ) (d : Text)
    → get_or (xs ++ ys) i d
      ≡ (if ltb i (length xs) then get_or xs i d else get_or ys (i - length xs) d)
get_or-append [] ys i d = ground arith
get_or-append (x ∷ xs) ys zero d = ground arith
get_or-append (x ∷ xs) ys (suc i) d = ground (arith, get_or-append xs ys i d)

abbrev Gives : Reply → Text → Type 0
Gives r a = (r.fail ≡ false) × (r.addr ≡ a)

modulo_lem : (i n : ℕ) → 0 < n → modulo i n ≡ i % n
modulo_lem i n h = ground arith

not_leb : (m n : ℕ) → n < m → leb m n ≡ false
not_leb m n h = ground arith

le→leb : (m n : ℕ) → m ≤ n → leb m n ≡ true
le→leb m n h = ground arith

pick-hit :
    (xs : List Text) (ver k : ℕ) (next : ℕ → Reply)
    → k < length xs
    → pick false xs ver k next ≡ found (get_or xs k []) ver false
unfolding pick
pick-hit xs ver k next h = rw (not_leb (length xs) k h) refl

pick-miss :
    (xs : List Text) (ver k : ℕ) (next : ℕ → Reply)
    → length xs ≤ k
    → pick false xs ver k next ≡ next (k - length xs)
unfolding pick
pick-miss xs ver k next h = rw (le→leb (length xs) k h) refl

pick-both :
    (xs ys : List Text) (v u k : ℕ) (next : ℕ → Reply)
    → k < length xs + length ys
    → Gives (pick false xs v k (λ i. pick false ys u i next)) (get_or (xs ++ ys) k [])
pick-both xs ys v u k next h = elim (Bool-cases (ltb k (length xs))) [
  | inl e ↦
      rw
        (
          get_or-append xs ys k [],
          e,
          pick-hit xs v k (λ i. pick false ys u i next) (ltb→lt k (length xs) e),
        )
        (refl, refl)
  | inr e ↦
      rw
        (
          get_or-append xs ys k [],
          e,
          pick-miss xs v k (λ i. pick false ys u i next) (ground (arith, e)),
          pick-hit ys u (k - length xs) next (ground (arith, e)),
        )
        (refl, refl)
]

pick-only :
    (xs : List Text) (ver i : ℕ) (next : ℕ → Reply)
    → 0 < length xs
    → Gives (pick true xs ver i next) (get_or xs (i % length xs) [])
unfolding pick
pick-only xs ver i next h =
    rw (modulo_lem i (length xs) h, not_leb (length xs) (i % length xs) (omega arith)) (refl, refl)

-- What Addr offers of a result: with both versions preferred all its addresses in turn, those of
-- the version that is preferred first before the others; with one version that has addresses, those
-- of the version.
abbrev pub IsOffered : CacheResult → ℕ → Type 0
IsOffered e i =
    let n = length e.addrv4 + length e.addrv6 in
    (0 < n → Gives (addr_of e (4 ∷ 6 ∷ []) i) (get_or (e.addrv4 ++ e.addrv6) (i % n) []))
    × (0 < n → Gives (addr_of e (6 ∷ 4 ∷ []) i) (get_or (e.addrv6 ++ e.addrv4) (i % n) []))
    × (0 < length e.addrv4
        → Gives (addr_of e (4 ∷ []) i) (get_or e.addrv4 (i % n % length e.addrv4) []))
    × (0 < length e.addrv6
        → Gives (addr_of e (6 ∷ []) i) (get_or e.addrv6 (i % n % length e.addrv6) []))

-- With both versions preferred, in either order, Addr offers all addresses of a result in turn,
-- those of the version that is preferred first before the others; with one version preferred that
-- has addresses, those of the version.
pub addr_of-IsOffered : (e : CacheResult) (i : ℕ) → IsOffered e i
unfolding addr_of choose
addr_of-IsOffered e i = (
  λ h. rw (modulo_lem i (length e.addrv4 + length e.addrv6) h) (
      pick-both e.addrv4 e.addrv6 4 6 (i % (length e.addrv4 + length e.addrv6))
        (λ j. found [] 0 true) (omega arith)),
  λ h. rw (modulo_lem i (length e.addrv4 + length e.addrv6) h) (
      pick-both e.addrv6 e.addrv4 6 4 (i % (length e.addrv4 + length e.addrv6))
        (λ j. found [] 0 true) (omega arith)),
  λ h.
      rw (modulo_lem i (length e.addrv4 + length e.addrv6) (omega arith))
        (pick-only e.addrv4 4 (i % (length e.addrv4 + length e.addrv6)) (λ j. found [] 0 true) h),
  λ h.
      rw (modulo_lem i (length e.addrv4 + length e.addrv6) (omega arith))
        (pick-only e.addrv6 6 (i % (length e.addrv4 + length e.addrv6)) (λ j. found [] 0 true) h),
)

abbrev pub literal_of : Conf → ℕ → Ip
literal_of cf now = record {
  cf = cf;
  fqdn = [];
  name = cf.hostname;
  cache = none;
  ipvpref = [];
  asis = true;
  ipv = 6;
  idx = 0;
  created = now;
}

-- A host name that net.ParseIP reads, in more than four bytes, is taken for an address of version
-- 6, and AddrWB gives it in brackets.
pub config-literal :
    (parse_ip : Text → Option ℕ) (cf : Conf) (w : Resolver) (len : ℕ)
    → text_eq cf.hostname [] ≡ false
    → text_eq cf.hostname (codes "localhost") ≡ false
    → parse_ip cf.hostname ≡ some len
    → 4 < len
    → (config parse_ip cf w ≡ some (literal_of cf w.now, w))
      × (addr_wb (literal_of cf w.now) w ≡ (codes "[" ++ cf.hostname ++ codes "]", false))
unfolding config literal_or_named addr_wb addr bracketed
config-literal parse_ip cf w len h n p l = (rw (h, n, p, lt→ltb 4 len l) (rw h refl), rw h refl)
