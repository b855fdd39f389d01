-- ===== src/Resolv/Queries/Table.antt =====
-- The table of a worker's pending queries, a map of argus/resolv/resolv.go: what setting and
-- deleting do to its size.
use argus.Prelude.{
  ℕ, suc, ◌≡◌, refl, ap, ==_iff, true, false, none, some, List, [], ◌∷◌, arith, ◌==◌, length,
  Bool-cases, inl, inr,
}
use argus.Resolv.{Ref}
use argus.Resolv.Queries.{find_query, set_query, delete_query, is_free}

-- No number stands twice.
abbrev pub Distinct : List (ℕ × Ref) → Type 0
Distinct [] = Unit
Distinct ((q, p) ∷ l) = (find_query q l ≡ none) × Distinct l

pub is_free-find : (q : ℕ) (l : List (ℕ × Ref)) → is_free q l ≡ true → find_query q l ≡ none
is_free-find q l h = ground arith

find-set :
    (j q : ℕ) (p : Ref) (l : List (ℕ × Ref))
    → (q == j) ≡ false
    → find_query j l ≡ none
    → find_query j (set_query q p l) ≡ none
unfolding find_query set_query
find-set j q p [] e h = rw e refl
find-set j q p ((i, r) ∷ l) e h = ground (arith, find-set j q p l)

pub length-set_query :
    (q : ℕ) (p : Ref) (l : List (ℕ × Ref))
    → find_query q l ≡ none
    → length (set_query q p l) ≡ suc (length l)
unfolding find_query set_query
length-set_query q p [] h = refl
length-set_query q p ((i, r) ∷ l) h = ground (arith, length-set_query q p l)

pub set-Distinct :
    (q : ℕ) (p : Ref) (l : List (ℕ × Ref))
    → find_query q l ≡ none
    → Distinct l
    → Distinct (set_query q p l)
unfolding find_query set_query
set-Distinct q p [] h d = (refl, tt)
set-Distinct q p ((i, r) ∷ l) h (d, ds) = elim (Bool-cases (i == q)) [
  | inl e ↦ ground (arith, e, h)
  | inr e ↦ rw e (find-set i q p l (ground (arith, e)) d, set-Distinct q p l (rw e at h) ds)
]

find-delete :
    (j q : ℕ) (l : List (ℕ × Ref)) → find_query j l ≡ none → find_query j (delete_query q l) ≡ none
unfolding find_query delete_query
find-delete j q [] h = refl
find-delete j q ((i, r) ∷ l) h = ground (arith, find-delete j q l)

delete_absent :
    (q : ℕ) (l : List (ℕ × Ref)) → find_query q l ≡ none → length (delete_query q l) ≡ length l
unfolding find_query delete_query
delete_absent q [] h = refl
delete_absent q ((i, r) ∷ l) h = ground (arith, delete_absent q l)

pub length-delete :
    (q : ℕ) (p : Ref) (l : List (ℕ × Ref))
    → find_query q l ≡ some p
    → Distinct l
    → suc (length (delete_query q l)) ≡ length l
unfolding find_query delete_query
length-delete q p [] h d = ground arith
length-delete q p ((i, r) ∷ l) h (d, ds) = elim (Bool-cases (i == q)) [
  | inl e ↦ rw e (ap suc (delete_absent q l (rw ((==_iff i q).0 e) at d)))
  | inr e ↦ rw e (ap suc (length-delete q p l (rw e at h) ds))
]

pub delete-Distinct : (q : ℕ) (l : List (ℕ × Ref)) → Distinct l → Distinct (delete_query q l)
unfolding delete_query
delete-Distinct q [] d = tt
delete-Distinct q ((i, r) ∷ l) (d, ds) = elim (Bool-cases (i == q)) [
  | inl e ↦ rw e (delete-Distinct q l ds)
  | inr e ↦ rw e (find-delete i q l d, delete-Distinct q l ds)
]
