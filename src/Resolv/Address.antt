-- ===== src/Resolv/Address.antt =====
-- The address of a monitored host: argus/resolv/ip.go.
pub mod Found
use argus.Prelude.{
  ℕ, zero, suc, ◌+◌, ◌-◌, ◌*◌, ◌%◌, Bool, true, false, ◌&&◌, ◌||◌, not, Option, none, some, List,
  [], ◌∷◌, ◌++◌, ltb, leb, ◌==◌, if◌then◌else◌, length, get_or, take, drop,
}
use argus.Text.{Text, codes, text_eq, has_prefix, to_lower, fields}
use argus.Resolv.{Ref, CacheResult, Resolver, nanoseconds}
use argus.Resolv.Cache.{request, refresh_in, get}

-- Conf
pub record Conf : Type 0 where
  pub hostname : Text
  pub hostname_default : Text  -- Hostname_
  pub ip_version : Text

-- IP
pub record Ip : Type 0 where
  pub cf : Conf
  pub fqdn : Text
  pub name : Text
  pub cache : Option Ref
  pub ipvpref : List ℕ
  pub asis : Bool
  pub ipv : ℕ
  pub idx : ℕ
  pub created : ℕ

abbrev pub toolong : ℕ
toolong = 300 * nanoseconds

unfoldable pub versions : List Text → List ℕ
versions [] = []
versions (v ∷ p) =
    let rest = versions p in
    if text_eq v (codes "4") then 4 ∷ rest else if text_eq v (codes "6") then 6 ∷ rest else rest

-- confPref
unfoldable pub conf_pref : Text → List ℕ
unfolding versions
conf_pref ip_version = if text_eq ip_version [] then 4 ∷ 6 ∷ [] else versions (fields ip_version)

abbrev pub or_here : Bool → Option ℕ → Option ℕ
or_here true none = some 0
or_here false none = none
or_here b (some i) = some (suc i)

-- strings.LastIndex
unfoldable pub last_index : Text → Text → Option ℕ
last_index t [] = some (length t)
last_index [] (c ∷ p) = none
last_index (d ∷ t) (c ∷ p) = or_here (has_prefix (d ∷ t) (c ∷ p)) (last_index t (c ∷ p))

unfoldable pub version_of : ℕ → List ℕ → List ℕ
version_of c pref = if c == b'4' then 4 ∷ [] else if c == b'6' then 6 ∷ [] else pref

-- What a suffix ._ipv4 or ._ipv6 makes of the name and the preferences.
unfoldable pub cut_at : Option ℕ → Text → List ℕ → Text × List ℕ
unfolding version_of
cut_at none name pref = (name, pref)
cut_at (some ldot) name pref =
    if leb (ldot + 6) (length name)
    then (take ldot name, version_of (get_or name (length name - 1) 0) pref)
    else (name, pref)

unfoldable pub cut_version : Text → List ℕ → Text × List ℕ
unfolding last_index cut_at
cut_version name pref = cut_at (last_index name (codes "._ipv")) name pref

-- The code of net is given: `parse_ip` is the length of the bytes that net.ParseIP gives.
module _ (parse_ip : Text → Option ℕ) where
  abbrev blank : Conf → ℕ → Ip
  blank cf now = record {
    cf = cf;
    fqdn = [];
    name = [];
    cache = none;
    ipvpref = [];
    asis = false;
    ipv = 0;
    idx = 0;
    created = now;
  }

  unfoldable pub named : Ip → Text → Resolver → Ip × Resolver
  unfolding conf_pref cut_version
  named ip name w =
      let (short, pref) = cut_version name (conf_pref ip.cf.ip_version) in
      let host = to_lower short in (record ip { name = host; ipvpref = pref }, request host pref w)

  unfoldable pub literal_or_named : Option ℕ → Ip → Text → Resolver → Ip × Resolver
  unfolding named
  literal_or_named none ip name w = named ip name w
  literal_or_named (some len) ip name w =
      (record ip { ipv = if ltb 4 len then 6 else 4; name = name; asis = true }, w)

  -- Config; `none` is its error.
  unfoldable pub config : Conf → Resolver → Option (Ip × Resolver)
  unfolding literal_or_named
  config cf w =
      let host = if text_eq cf.hostname [] then cf.hostname_default else cf.hostname in
      let name = if text_eq host (codes "localhost") then codes "127.0.0.1" else host in
      if text_eq host []
      then none
      else some
          (literal_or_named (parse_ip name) (blank (record cf { hostname = host }) w.now) name w)

abbrev full_name : Option Ref → Text → Resolver → Text
full_name none name w = name
full_name (some r) name w = if text_eq (w.results r).fqdn [] then name else (w.results r).fqdn

-- useName
unfoldable pub use_name : Ip → Resolver → Text
use_name a w = if text_eq a.fqdn [] then full_name a.cache a.name w else a.fqdn

-- What Addr returns: the address, its version, and whether it failed.
pub record Reply : Type 0 where
  pub addr : Text
  pub ver : ℕ
  pub fail : Bool

abbrev pub found : Text → ℕ → Bool → Reply
found addr ver fail = record { addr = addr; ver = ver; fail = fail }

abbrev pub modulo : ℕ → ℕ → ℕ
modulo i n = if n == 0 then i else i % n

-- The case of a version: the address at the index, or the index past this version's addresses.
unfoldable pub pick : Bool → List Text → ℕ → ℕ → (ℕ → Reply) → Reply
pick only addrs ver idx next =
    let i = if only then modulo idx (length addrs) else idx in
    if leb (length addrs) i then next (i - length addrs) else found (get_or addrs i []) ver false

-- The loop over the preferred versions.
unfoldable pub choose : CacheResult → Bool → List ℕ → ℕ → Reply
unfolding pick
choose e only [] idx = found [] 0 true
choose e only (pref ∷ prefs) idx =
    let rest = choose e only prefs in
    if pref == 4
    then pick only e.addrv4 4 idx rest
    else if pref == 6
    then pick only e.addrv6 6 idx rest
    else rest idx

unfoldable pub addr_of : CacheResult → List ℕ → ℕ → Reply
unfolding choose
addr_of e pref idx =
    choose e (length pref == 1) pref (modulo idx (length e.addrv4 + length e.addrv6))

abbrev pub or_old : Option Ref → Option Ref → Option Ref
or_old none old = old
or_old (some r) old = some r

unfoldable pub addr_from : Option Ref → Ip → Resolver → Reply × Ip × Resolver
unfolding addr_of
addr_from none a w = (found [] 0 (ltb (a.created + toolong) w.now), a, request a.name a.ipvpref w)
addr_from (some r) a w =
    let e = w.results r in
    let w' = if leb e.expires w.now then refresh_in r 0 w else w in
    (
      addr_of e a.ipvpref a.idx,
      record a { fqdn = if text_eq a.fqdn [] then e.fqdn else a.fqdn },
      w',
    )

-- Addr
unfoldable pub addr : Ip → Resolver → Reply × Ip × Resolver
unfolding use_name addr_from
addr a w =
    if a.asis
    then (found a.name a.ipv false, a, w)
    else (let cache = or_old (get (use_name a w) w) a.cache in
        addr_from cache (record a { cache = cache }) w)

unfoldable pub bracketed : Reply → Text × Bool
bracketed f =
    if text_eq f.addr []
    then (f.addr, f.fail)
    else if f.ver == 6
    then (codes "[" ++ f.addr ++ codes "]", f.fail)
    else (f.addr, f.fail)

-- AddrWB
unfoldable pub addr_wb : Ip → Resolver → Text × Bool
unfolding addr bracketed
addr_wb a w = bracketed (addr a w).0

unfoldable pub need_in : Option Ref → ℕ → Ip → Resolver → Resolver
unfolding use_name
need_in none secs a w = request (use_name a w) a.ipvpref w
need_in (some r) secs a w = refresh_in r secs w

-- WillNeedIn
unfoldable pub will_need_in : ℕ → Ip → Resolver → Resolver
unfolding need_in
will_need_in secs a w = if a.asis then w else need_in a.cache secs a w

-- TryAnother
unfoldable pub try_another : Ip → Ip
try_another a = record a { idx = suc a.idx }
