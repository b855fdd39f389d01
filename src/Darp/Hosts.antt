-- ===== src/Darp/Hosts.antt =====
-- The hosts are the keys of a map, which Go iterates over in any order.
use argus.Prelude.{
  ℕ, zero, suc, ◌+◌, ◌≡◌, refl, ◌∙◌, ap, Bool, List, [], ◌∷◌, arith, ◌==◌, if◌then◌else◌,
}
use mathlib.Core.List.{Perm, Permᴰ}
use mathlib.Core.Logic.{∥∥₁_elim}
use argus.Text.{Text}
use argus.Dict.{Dict}
use argus.Status.{Status, unknown}
use argus.Status.Gravity.{Gravity, grav_ietf}
use argus.Monel.Aggregate.{bump, no_counts}
use argus.Darp.{status_of, count_hosts, calc_aggr_status}

bump-bump : (c : List ℕ) (a b : ℕ) → bump (bump c a) b ≡ bump (bump c b) a
bump-bump [] a b = ground arith
bump-bump (x ∷ xs) zero zero = refl
bump-bump (x ∷ xs) zero (suc b) = refl
bump-bump (x ∷ xs) (suc a) zero = refl
bump-bump (x ∷ xs) (suc a) (suc b) = ap (λ l. x ∷ l) (bump-bump xs a b)

module _ (gravity : Gravity) (statuses : Dict Status) where
  -- A host's place in the array.
  place : Text × Bool → Status
  place (host, up) =
      if up
      then status_of statuses host
      else if gravity == grav_ietf
      then unknown
      else status_of statuses host

  share : Text × Bool → ℕ
  share (host, up) = if up then 1 else if gravity == grav_ietf then 0 else 1

  count_hosts-cons :
      (d : Text × Bool) (ds : List (Text × Bool)) (c : List ℕ) (n : ℕ)
      → count_hosts gravity statuses (d ∷ ds) c n
        ≡ count_hosts gravity statuses ds (bump c (place d)) (n + share d)
  unfolding count_hosts place share
  count_hosts-cons (host, up) ds c n = ground arith

  count_hosts-swap :
      (a b : Text × Bool) (l : List (Text × Bool)) (c : List ℕ) (n : ℕ)
      → count_hosts gravity statuses (a ∷ b ∷ l) c n ≡ count_hosts gravity statuses (b ∷ a ∷ l) c n
  count_hosts-swap a b l c n = rw (count_hosts-cons a (b ∷ l) c n) (
      rw (count_hosts-cons b (a ∷ l) c n) (
        rw (count_hosts-cons b l (bump c (place a)) (n + share a)) (
          rw (count_hosts-cons a l (bump c (place b)) (n + share b)) (
            rw (bump-bump c (place a) (place b))
              (let e : n + share a + share b ≡ n + share b + share a = omega arith in rw e refl)))))

  count_hosts-perm :
      {ds es : List (Text × Bool)}
      → Permᴰ ds es
      → (c : List ℕ) (n : ℕ)
      → count_hosts gravity statuses ds c n ≡ count_hosts gravity statuses es c n
  count_hosts-perm Permᴰ.nil c n = refl
  count_hosts-perm (Permᴰ.cons {a = a} {b = b} {l₁ = l₁} {l₂ = l₂} e p) c n = rw e (
      rw (count_hosts-cons b l₁ c n)
        (rw (count_hosts-cons b l₂ c n) (count_hosts-perm p (bump c (place b)) (n + share b))))
  count_hosts-perm (Permᴰ.swap {a = a} {b = b} {l = l} e f) c n =
      rw (← e, ← f) (count_hosts-swap a b l c n)
  count_hosts-perm (Permᴰ.trans p q) c n = count_hosts-perm p c n ∙ count_hosts-perm q c n

calc_of_perm :
    (gravity : Gravity) (mystatus : Status) (statuses : Dict Status) {ds es : List (Text × Bool)}
    → Permᴰ ds es
    → calc_aggr_status gravity mystatus statuses ds ≡ calc_aggr_status gravity mystatus statuses es
unfolding calc_aggr_status
calc_of_perm gravity mystatus statuses p = rw (count_hosts-perm gravity statuses p no_counts 0) refl

-- The status does not depend on the order in which the map of the hosts is iterated over.
pub calc_aggr_status-perm :
    (gravity : Gravity) (mystatus : Status) (statuses : Dict Status) (ds es : List (Text × Bool))
    → Perm ds es
    → calc_aggr_status gravity mystatus statuses ds ≡ calc_aggr_status gravity mystatus statuses es
calc_aggr_status-perm gravity mystatus statuses ds es p =
    ∥∥₁_elim p (hlevel) (calc_of_perm gravity mystatus statuses)
