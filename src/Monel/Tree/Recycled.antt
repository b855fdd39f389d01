-- ===== src/Monel/Tree/Recycled.antt =====
-- What Recycle leaves of an element in its parent.
use argus.Prelude.{
  ℕ, ◌+◌, ◌≡◌, ◌≢◌, refl, Bool, true, false, ◌||◌, none, some, List, [], ◌∷◌, ◌++◌, arith, ◌==◌,
  Bool-cases, inl, inr,
}
use argus.Monel.State.{Ptr, nil, World, modify}
use argus.Monel.Tree.{
  last_index, remove_at, remove_from_list, left_behind, forget_parent, forget_child, recycle,
}

unfoldable pub holds : Ptr → List Ptr → Bool
holds x [] = false
holds x (l ∷ list) = l == x || holds x list

last_index-kept :
    (list : List Ptr) (x : Ptr) (k j : ℕ) → (i : ℕ) × (last_index list x k (some j) ≡ some i)
unfolding last_index
last_index-kept [] x k j = (j, refl)
last_index-kept (l ∷ list) x k j = elim (Bool-cases (l == x)) [
  | inl e ↦ rw e (last_index-kept list x (k + 1) k)
  | inr e ↦ rw e (last_index-kept list x (k + 1) j)
]

last_index-holds :
    (list : List Ptr) (x : Ptr) (k : ℕ)
    → holds x list ≡ true
    → (i : ℕ) × (last_index list x k none ≡ some i)
unfolding last_index holds
last_index-holds [] x k h = absurd (ground (arith, h))
last_index-holds (l ∷ list) x k h = elim (Bool-cases (l == x)) [
  | inl e ↦ rw e (last_index-kept list x (k + 1) k)
  | inr e ↦ rw e (last_index-holds list x (k + 1) (rw e at h))
]

holds-append : (x : Ptr) (list : List Ptr) → holds x (list ++ x ∷ []) ≡ true
unfolding holds
holds-append x [] = ground arith
holds-append x (l ∷ list) = ground (arith, holds-append x list)

nil-left_behind :
    (list : List Ptr) (x : Ptr) → holds x list ≡ true → holds nil (left_behind list x) ≡ true
unfolding left_behind
nil-left_behind list x h =
    let (i, e) = last_index-holds list x 0 h in
    rw (left_behind, e) (holds-append nil (remove_at list i))

module _ (m q : Ptr) (w : World) (apart : m ≢ q) where
  -- The parent of an element without children, past Recycle.
  recycle-parent :
      (w.elem m).children ≡ []
      → (w.elem m).parent ≡ q ∷ []
      → (recycle m w).elem q ≡ record (w.elem q) {
        parent = remove_from_list (w.elem q).children m;
        children = left_behind (w.elem q).children m;
      }
  unfolding recycle forget_parent forget_child modify
  recycle-parent c p =
      let other : (m == q) ≡ false = ground arith in
      let same : (q == q) ≡ true = ground arith in rw (other, c, p) (rw same refl)

  -- Recycling an element that has no children and one parent, which lists it, leaves a nil among
  -- the parent's children, and makes its remaining children the parent's parents.
  pub recycle-left :
      (w.elem m).children ≡ []
      → (w.elem m).parent ≡ q ∷ []
      → holds m (w.elem q).children ≡ true
      → (holds nil ((recycle m w).elem q).children ≡ true)
        × (((recycle m w).elem q).parent ≡ remove_from_list (w.elem q).children m)
  recycle-left c p h =
      let e = recycle-parent c p in rw e (nil-left_behind (w.elem q).children m h, refl)
