-- ===== src/Graph/Kept/History.antt =====
-- A graph's file is its last samples: Add and Get of argus/graph/graphd/graphd.go.
use argus.Prelude.{
  ℕ, suc, ◌+◌, ◌-◌, ◌^◌, ◌≤◌, ◌<◌, ◌≡◌, refl, sym, ap, ◌∙◌, Bool, true, false, not, some, List, [],
  ◌∷◌, ◌++◌, map, arith, ◌==◌, length, length-append, drop, Bool-cases, ==_iff, inl, inr,
}
use mathlib.Core.List.{append_assoc, append-nil}
use mathlib.Core.Path.{subst}
use argus.Status.{Status}
use argus.Graph.{
  Singles, GraphData, SampleData, Calendar, n_max, create, add, sample_of, step_on, roll_if,
  roll_hour, roll_day, put_sample, summed, to_seconds,
}
use argus.Graph.Get.{get_samples}
use argus.Graph.Kept.{IsFaithful}
use argus.Graph.Kept.Adding.{Keeps, pushed}
use argus.Graph.Kept.Whole.{add-Keeps, create-Keeps}
use argus.Graph.Kept.Back.{exports}
use argus.Graph.Kept.Last.{get_samples-Keeps}

-- The last elements of a list, as many as a number.
abbrev pub last_of {ℓ} : {A : Type ℓ} → ℕ → List A → List A
last_of n xs = drop (length xs - n) xs

module _ {ℓ} {A : Type ℓ} where
  drop_past :
      (k : List A) (m : ℕ) (x : A) (xs : List A)
      → drop m ((k ++ x ∷ []) ++ xs) ≡ drop m (k ++ x ∷ xs)
  drop_past k m x xs = ap (drop m) (append_assoc k (x ∷ []) xs)

  -- Pushing one after the other keeps the last ones.
  last_of-pushed :
      (n : ℕ) (kept : List A) (x : A) (xs : List A)
      → 1 ≤ n
      → length kept ≤ n
      → last_of n (pushed n kept x ++ xs) ≡ last_of n (kept ++ x ∷ xs)
  unfolding pushed
  last_of-pushed n [] x xs l h = elim (Bool-cases (0 == n)) [
    | inl e ↦ absurd (omega (arith, (==_iff _ _).0 e, l))
    | inr e ↦ rw e refl
  ]
  last_of-pushed n (k ∷ kept) x xs l h = elim (Bool-cases (suc (length kept) == n)) [
    | inl e ↦ rw e (
        let full : suc (length kept) ≡ n = (==_iff _ _).0 e in
        let a : length ((kept ++ x ∷ []) ++ xs) ≡ length kept + 1 + length xs =
          length-append (kept ++ x ∷ []) xs
          ∙ ap (λ i. i + length xs) (length-append kept (x ∷ [])) in
        let b : length (kept ++ x ∷ xs) ≡ length kept + suc (length xs) =
          length-append kept (x ∷ xs) in
        let m : length ((kept ++ x ∷ []) ++ xs) - n ≡ length xs = omega (arith, a, full) in
        let m' : suc (length (kept ++ x ∷ xs)) - n ≡ suc (length xs) = omega (arith, b, full) in
        ap (λ i. drop i ((kept ++ x ∷ []) ++ xs)) m
        ∙ drop_past kept (length xs) x xs
        ∙ sym (ap (λ i. drop i (k ∷ kept ++ x ∷ xs)) m'))
    | inr e ↦ rw e (ap (last_of n) (append_assoc (k ∷ kept) (x ∷ []) xs))
  ]

  length-pushed :
      (n : ℕ) (kept : List A) (x : A) → 1 ≤ n → length kept ≤ n → length (pushed n kept x) ≤ n
  unfolding pushed
  length-pushed n [] x l h = elim (Bool-cases (0 == n)) [
    | inl e ↦ rw e (omega (arith, l))
    | inr e ↦ rw e (omega (arith, l))
  ]
  length-pushed n (k ∷ kept) x l h = elim (Bool-cases (suc (length kept) == n)) [
    | inl e ↦ rw e (omega (arith, length-append kept (x ∷ []), h))
    | inr e ↦ rw e (ground (arith, length-append kept (x ∷ []), h, e))
  ]

-- What Add is called with, its values narrowed.
pub record Addition (F : Type 0) : Type 0 where
  pub when : ℕ
  pub status : Status
  pub val : F
  pub yn : F
  pub dn : F

module _ {F : Type 0} (sg : Singles F) where
  abbrev pub sample : Addition F → SampleData F
  sample a = sample_of sg a.when a.status a.val a.yn a.dn

  unfoldable pub add_all : Calendar → List (Addition F) → GraphData F → GraphData F
  add_all cal [] g = g
  add_all cal (a ∷ added) g = add_all cal added (add sg cal a.when a.status a.val a.yn a.dn g)

  pub data AllSmall : List (Addition F) → Type 0 where
    all_none : AllSmall []
    all_cons :
        {a : Addition F} {added : List (Addition F)}
        → a.status < 2 ^ 32
        → AllSmall added
        → AllSmall (a ∷ added)

  roll_if-nmax :
      (b : Bool) (f : GraphData F → GraphData F) (g : GraphData F)
      → ((h : GraphData F) → (f h).h.samp.nmax ≡ h.h.samp.nmax)
      → (roll_if sg b f g).h.samp.nmax ≡ g.h.samp.nmax
  unfolding roll_if
  roll_if-nmax true f g e = e g
  roll_if-nmax false f g e = refl

  nmax-add :
      (cal : Calendar) (when : ℕ) (status : Status) (val yn dn : F) (g : GraphData F)
      → (add sg cal when status val yn dn g).h.samp.nmax ≡ g.h.samp.nmax
  unfolding add summed roll_hour roll_day put_sample step_on
  nmax-add cal when status val yn dn g =
      let g1 = put_sample sg (sample_of sg when status val yn dn) g in
      let last = to_seconds g1.h.lastt in
      let b = not (cal.day_of last == cal.day_of when) in
      let g2 = roll_if sg b (roll_day sg val) g1 in
      roll_if-nmax (not (cal.hour_of last == cal.hour_of when)) (roll_hour sg val) g2 (λ h. refl)
      ∙ roll_if-nmax b (roll_day sg val) g1 (λ h. refl)

  add_all-Keeps :
      (cal : Calendar) (added : List (Addition F)) (g : GraphData F) (kept : List (SampleData F))
      → AllSmall added
      → 1 ≤ g.h.samp.nmax
      → Keeps sg g kept
      → Keeps sg (add_all cal added g) (last_of g.h.samp.nmax (kept ++ map sample added))
  unfolding add_all
  add_all-Keeps cal [] g kept all_none l v =
      let e : length kept - g.h.samp.nmax ≡ 0 = omega (arith, v.bounded) in
      rw (append-nil kept, e) v
  add_all-Keeps cal (a ∷ added) g kept (all_cons b small) l v =
      let g' = add sg cal a.when a.status a.val a.yn a.dn g in
      let n = nmax-add cal a.when a.status a.val a.yn a.dn g in
      let k = add-Keeps sg cal a.when a.status a.val a.yn a.dn g kept b v in
      let more =
        add_all-Keeps cal added g' (pushed g.h.samp.nmax kept (sample a)) small (rw n l) k in
      let e =
        ap (λ i. last_of i (pushed g.h.samp.nmax kept (sample a) ++ map sample added)) n
        ∙ last_of-pushed g.h.samp.nmax kept (sample a) (map sample added) l v.bounded in
      subst (λ x. Keeps sg (add_all cal added g') x) e more

-- A file into which samples were added, as many as there may be and whatever the calendar, and
-- which is asked for all samples, since no time and into no width, gives the last 1024 of them, in
-- the order in which they were added, each with its values and its status as they were, and with
-- its time rounded down to whole units of four seconds, of whose number 32 bits are kept; where the
-- statuses fit into 32 bits and a float32 is its bits.
pub get_samples-add_all :
    {F : Type 0} (sg : Singles F) (cal : Calendar) (added : List (Addition F)) (now : ℕ)
    → IsFaithful sg
    → AllSmall sg added
    → get_samples sg now 0 0 (add_all sg cal added (create sg))
      ≡ some (exports sg (last_of n_max (map (sample sg) added)))
unfolding create
get_samples-add_all sg cal added now f small =
    get_samples-Keeps sg now (add_all sg cal added (create sg))
      (last_of n_max (map (sample sg) added)) f
      (add_all-Keeps sg cal added (create sg) [] small (omega arith) (create-Keeps sg))
