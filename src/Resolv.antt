-- ===== src/Resolv.antt =====
-- The resolver of names: argus/resolv, its types and what it keeps. A result is shared: the cache,
-- the addresses of monitors and the query that is still filling it point to the same one, so that
-- results stand in a heap.
pub mod Cache
pub mod Address
pub mod Queries
pub mod Replies
use argus.Prelude.{
  ℕ, zero, suc, ◌+◌, Bool, true, false, Option, none, some, List, [], ◌∷◌, ◌==◌, if◌then◌else◌,
  length,
}
use argus.Text.{Text}
use argus.Dict.{Dict}
use Prim.Native.Nat.{bit_or}

abbrev pub Ref : Type 0
Ref = ℕ

-- cacheResult; times are in nanoseconds, the time to live in seconds
pub record CacheResult : Type 0 where
  pub fqdn : Text
  pub expires : ℕ
  pub ttl : ℕ
  pub addrv4 : List Text
  pub addrv6 : List Text

-- cacheEntry
pub record CacheEntry : Type 0 where
  pub result : Option Ref
  pub updated : ℕ
  pub prefm : ℕ
  pub underway : Bool

-- queryReq
pub record QueryReq : Type 0 where
  pub name : Text
  pub prefm : ℕ

-- The package's variables; the channel todo as a list.
pub record Resolver : Type 0 where
  pub results : Ref → CacheResult
  pub cache : Dict CacheEntry
  pub need_when : Dict ℕ
  pub todo : List QueryReq
  pub now : ℕ

abbrev pub nanoseconds : ℕ
nanoseconds = 1000000000

-- The flags for the versions of addresses.
abbrev pub f_ip4 : ℕ
f_ip4 = 1

abbrev pub f_ip6 : ℕ
f_ip6 = 2

-- The capacity of todo.
abbrev pub todo_cap : ℕ
todo_cap = 1000

unfoldable pub mask_from : ℕ → List ℕ → ℕ
mask_from prefm [] = prefm
mask_from prefm (p ∷ pref) =
    mask_from (if p == 4 then bit_or prefm f_ip4 else if p == 6 then bit_or prefm f_ip6 else prefm)
      pref

-- prefToMask
unfoldable pub pref_to_mask : List ℕ → ℕ
unfolding mask_from
pref_to_mask = mask_from 0

abbrev pub some_address : List Text → ℕ
some_address [] = 0
some_address (a ∷ as') = 1

-- size: how many versions have addresses
unfoldable pub size : CacheResult → ℕ
size res = some_address res.addrv4 + some_address res.addrv6

unfoldable pub size_of : Option Ref → (Ref → CacheResult) → ℕ
unfolding size
size_of none results = 0
size_of (some r) results = size (results r)
