-- ===== src/Expr/Machine/Levels.antt =====
-- The walk through a group, resultList and statusList of argus/expr/expr.go: it ends where no group
-- contains itself, and lists what is below level by level.
use mathlib.Core.List.{append_assoc, append-nil}
use argus.Prelude.{
  ℕ, zero, suc, ◌+◌, ◌-◌, ◌≤◌, ◌<◌, ◌≡◌, refl, sym, ◌∙◌, List, [], ◌∷◌, ◌++◌, arith, length,
}
use argus.Monel.State.{Ptr, World}
use argus.Monel.Children.{me_children}
use argus.Expr.Machine.Course.{value}
use argus.Expr.Machine.Groups.{walk, visited}

-- Elements of a rank less than `n` only.
abbrev pub Under : (Ptr → ℕ) → ℕ → List Ptr → Type 0
Under rank n [] = Unit
Under rank n (x ∷ xs) = (rank x < n) × Under rank n xs

plus_none : (n : ℕ) → 0 + n ≡ n
plus_none n = omega arith

plus_suc : (m n : ℕ) → suc m + n ≡ suc (m + n)
plus_suc m n = omega arith

split_fuel : (m n : ℕ) → m ≤ n → m + (n - m) ≡ n
split_fuel m n h = omega arith

Under-mono : (rank : Ptr → ℕ) (m n : ℕ) (xs : List Ptr) → m ≤ n → Under rank m xs → Under rank n xs
Under-mono rank m n [] h u = tt
Under-mono rank m n (x ∷ xs) h (u, us) = (omega arith, Under-mono rank m n xs h us)

Under-append :
    (rank : Ptr → ℕ) (n : ℕ) (xs ys : List Ptr)
    → Under rank n xs
    → Under rank n ys
    → Under rank n (xs ++ ys)
Under-append rank n [] ys u v = v
Under-append rank n (x ∷ xs) ys (u, us) v = (u, Under-append rank n xs ys us v)

-- The children of the elements, in a world that asking for them leaves as it is: the aliases are
-- resolved, or cannot be.
module _ {A : Type 0} (leaf : Ptr → World → List A) (w : World) (kids : Ptr → List Ptr) where
  abbrev pub Settled : Type 0
  Settled = (m : Ptr) → me_children m w ≡ (kids m, w)

  abbrev own : Ptr → List Ptr → List A
  own x [] = leaf x w
  own x (c ∷ cs) = []

  unfoldable pub below : List Ptr → List Ptr
  below [] = []
  below (x ∷ xs) = kids x ++ below xs

  -- What the elements without children add, in order.
  unfoldable pub leaves : List Ptr → List A
  leaves [] = []
  leaves (x ∷ xs) = own x (kids x) ++ leaves xs

  -- The leaves of `n` levels, each level after the one above it.
  unfoldable pub levels : ℕ → List Ptr → List A
  unfolding leaves below
  levels zero xs = []
  levels (suc n) xs = leaves xs ++ levels n (below xs)

  -- How many elements there are to visit.
  unfoldable pub visits : ℕ → List Ptr → ℕ
  unfolding below
  visits zero xs = 0
  visits (suc n) xs = length xs + visits n (below xs)

  visited_lem :
      (children : List Ptr) (x : Ptr) (todo : List Ptr) (res : List A)
      → visited leaf children x todo w res ≡ (todo ++ children, res ++ own x children)
  unfolding visited
  visited_lem [] x todo res = rw (append-nil todo) refl
  visited_lem (c ∷ cs) x todo res = rw (append-nil res) refl

  walk_first :
      (fuel : ℕ) (x : Ptr) (todo : List Ptr) (res : List A)
      → let (children, w') = me_children x w in
        let (todo', res') = visited leaf children x todo w' res in
        walk leaf (suc fuel) (x ∷ todo) w res ≡ walk leaf fuel todo' w' res'
  unfolding walk
  walk_first fuel x todo res = refl

  walk-one :
      Settled
      → (fuel : ℕ) (x : Ptr) (todo : List Ptr) (res : List A)
      → walk leaf (suc fuel) (x ∷ todo) w res
        ≡ walk leaf fuel (todo ++ kids x) w (res ++ own x (kids x))
  walk-one h fuel x todo res =
      rw (walk_first fuel x todo res, h x, visited_lem (kids x) x todo res) refl

  -- A whole level is visited before what is below it.
  walk-level :
      Settled
      → (xs todo : List Ptr) (fuel : ℕ) (res : List A)
      → walk leaf (length xs + fuel) (xs ++ todo) w res
        ≡ walk leaf fuel (todo ++ below xs) w (res ++ leaves xs)
  unfolding below leaves
  walk-level h [] todo fuel res = rw (plus_none fuel, append-nil todo, append-nil res) refl
  walk-level h (x ∷ xs) todo fuel res =
      rw (plus_suc (length xs) fuel, walk-one h (length xs + fuel) x (xs ++ todo) res)
        (rw
          (
            append_assoc xs todo (kids x),
            sym (append_assoc todo (kids x) (below xs)),
            sym (append_assoc res (own x (kids x)) (leaves xs)),
          )
          (walk-level h xs (todo ++ kids x) fuel (res ++ own x (kids x))))

  below-Under :
      (rank : Ptr → ℕ) (n : ℕ) (xs : List Ptr)
      → ((m : Ptr) → Under rank (rank m) (kids m))
      → Under rank (suc n) xs
      → Under rank n (below xs)
  unfolding below
  below-Under rank n [] falls u = tt
  below-Under rank n (x ∷ xs) falls (u, us) =
      Under-append rank n (kids x) (below xs)
        (Under-mono rank (rank x) n (kids x) (omega arith) (falls x))
        (below-Under rank n xs falls us)

  -- Where no alias is left to be resolved, so that to ask for children changes nothing, and the
  -- ranks of children are less than their groups': the walk ends once it has visited each element
  -- as often as there are ways to it, and its list is that of the levels.
  pub walk-levels :
      Settled
      → (rank : Ptr → ℕ) → ((m : Ptr) → Under rank (rank m) (kids m))
      → (n : ℕ) (xs : List Ptr) (fuel : ℕ) (res : List A) → Under rank n xs
      → visits n xs ≤ fuel
      → walk leaf fuel xs w res ≡ value (res ++ levels n xs, w)
  unfolding visits levels walk
  walk-levels h rank falls zero [] fuel res u v = rw (append-nil res) refl
  walk-levels h rank falls zero (x ∷ xs) fuel res (u, us) v = ground arith
  walk-levels h rank falls (suc n) xs fuel res u v =
      rw (split_fuel (length xs) fuel (omega arith), append-nil xs) at
        (walk-level h xs [] (fuel - length xs) res)
      ∙ rw (sym (append_assoc res (leaves xs) (levels n (below xs)))) (
          walk-levels h rank falls n (below xs) (fuel - length xs) (res ++ leaves xs)
            (below-Under rank n xs falls u) (omega arith))
