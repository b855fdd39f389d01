-- ===== src/Construct/Pending.antt =====
-- What is left to read: the rest of the open files and the files that are not open yet, of
-- argus/construct/reader.go. A file that stands in the stack of open files twice is read once.
use argus.Prelude.{
  ℕ, zero, suc, ◌≡◌, refl, sym, ap, ◌∙◌, Option, none, some, List, [], ◌∷◌, ◌++◌, length, get_or,
  set, arith, Option-cases, inl, inr,
}
use mathlib.Core.List.{append_assoc}
use argus.Text.{Text}
use argus.Construct.Lines.{
  Files, Opener, path_of, and_curr, opened_file, open_as, open_file, include, advance, left_of,
}

unfoldable pub pend : List (List Text) → List ℕ → List Text
pend rs [] = []
pend rs (o ∷ os) = get_or rs o [] ++ pend (set rs o []) os

abbrev pub or_none : Option (List Text) → List Text
or_none none = []
or_none (some ls) = ls

-- The lines of a file, of which there are none where it does not open.
unfoldable pub contents : Opener → Text → Text → List Text
contents io basedir file = or_none (io (path_of basedir file))

unfoldable pub contents_of : Opener → Text → List Text → List Text
contents_of io basedir [] = []
contents_of io basedir (file ∷ files) = contents io basedir file ++ contents_of io basedir files

unfoldable pub included : Opener → Text → Text → List Text
unfolding contents
included io basedir [] = []
included io basedir (c ∷ file) = contents io basedir (c ∷ file)

abbrev pub pending : Opener → Files → List Text
pending io f = pend f.buffers (and_curr f.curr f.opens) ++ contents_of io f.basedir f.files

module _ {ℓ} {A : Type ℓ} where
  set-set : (l : List A) (i : ℕ) (x y : A) → set (set l i x) i y ≡ set l i y
  set-set [] i x y = refl
  set-set (z ∷ l) zero x y = refl
  set-set (z ∷ l) (suc i) x y = ap (λ m. z ∷ m) (set-set l i x y)

  set_same : (l : List A) (i : ℕ) (d : A) → get_or l i d ≡ d → set l i d ≡ l
  set_same [] i d e = refl
  set_same (z ∷ l) zero d e = ap (λ x. x ∷ l) (sym e)
  set_same (z ∷ l) (suc i) d e = ap (λ m. z ∷ m) (set_same l i d e)

  get_or-reset : (l : List A) (i : ℕ) (d : A) → get_or (set l i d) i d ≡ d
  get_or-reset [] i d = refl
  get_or-reset (z ∷ l) zero d = refl
  get_or-reset (z ∷ l) (suc i) d = get_or-reset l i d

  get_or-extra : (l : List A) (i : ℕ) (d : A) → get_or (l ++ d ∷ []) i d ≡ get_or l i d
  get_or-extra [] zero d = refl
  get_or-extra [] (suc i) d = refl
  get_or-extra (z ∷ l) zero d = refl
  get_or-extra (z ∷ l) (suc i) d = get_or-extra l i d

  set-extra : (l : List A) (i : ℕ) (d : A) → set (l ++ d ∷ []) i d ≡ set l i d ++ d ∷ []
  set-extra [] zero d = refl
  set-extra [] (suc i) d = refl
  set-extra (z ∷ l) zero d = refl
  set-extra (z ∷ l) (suc i) d = ap (λ m. z ∷ m) (set-extra l i d)

  get_or-last : (l : List A) (x d : A) → get_or (l ++ x ∷ []) (length l) d ≡ x
  get_or-last [] x d = refl
  get_or-last (z ∷ l) x d = get_or-last l x d

  set-last : (l : List A) (x y : A) → set (l ++ x ∷ []) (length l) y ≡ l ++ y ∷ []
  set-last [] x y = refl
  set-last (z ∷ l) x y = ap (λ m. z ∷ m) (set-last l x y)

get_or-advance :
    (rs : List (List Text)) (o : ℕ) (b : Text) (rest : List Text)
    → get_or rs o [] ≡ b ∷ rest
    → get_or (set rs o rest) o [] ≡ rest
get_or-advance [] o b rest e = grind (arith, e)
get_or-advance (r ∷ rs) zero b rest e = refl
get_or-advance (r ∷ rs) (suc o) b rest e = get_or-advance rs o b rest e

pend-extra : (rs : List (List Text)) (os : List ℕ) → pend (rs ++ [] ∷ []) os ≡ pend rs os
unfolding pend
pend-extra rs [] = refl
pend-extra rs (o ∷ os) =
    rw (get_or-extra rs o [], set-extra rs o [], pend-extra (set rs o []) os) refl

pend-twice : (rs : List (List Text)) (o : ℕ) (os : List ℕ) → pend rs (o ∷ o ∷ os) ≡ pend rs (o ∷ os)
unfolding pend
pend-twice rs o os = rw (get_or-reset rs o [], set-set rs o [] []) refl

pend-last :
    (rs : List (List Text)) (ls : List Text) (os : List ℕ)
    → pend (rs ++ ls ∷ []) (length rs ∷ os) ≡ ls ++ pend rs os
unfolding pend
pend-last rs ls os = rw (get_or-last rs ls [], set-last rs ls [], pend-extra rs os) refl

pub pend-drained :
    (rs : List (List Text)) (o : ℕ) (os : List ℕ)
    → get_or rs o [] ≡ []
    → pend rs (o ∷ os) ≡ pend rs os
unfolding pend
pend-drained rs o os e = rw (e, set_same rs o [] e) refl

pend-advance :
    (rs : List (List Text)) (o : ℕ) (os : List ℕ) (b : Text) (rest : List Text)
    → get_or rs o [] ≡ b ∷ rest
    → pend rs (o ∷ os) ≡ b ∷ pend (set rs o rest) (o ∷ os)
unfolding pend
pend-advance rs o os b rest e = rw (e, get_or-advance rs o b rest e, set-set rs o rest []) refl

module _ (io : Opener) where
  pub pending-advance :
      (f : Files) (o : ℕ) (b : Text) (rest : List Text)
      → f.curr ≡ some o
      → left_of o f ≡ b ∷ rest
      → pending io f ≡ b ∷ pending io (advance o rest f)
  unfolding advance
  pending-advance f o b rest c e =
      rw c (
        ap (λ l. l ++ contents_of io f.basedir f.files) (pend-advance f.buffers o f.opens b rest e))

  pub pending-opened_file :
      (file : Text) (ls : List Text) (f : Files)
      → pending io (opened_file file ls f) ≡ ls ++ pending io f
  unfolding opened_file
  pending-opened_file file ls f =
      ap (λ l. l ++ contents_of io f.basedir f.files)
        (pend-last f.buffers ls (and_curr f.curr f.opens))
      ∙ append_assoc ls _ _

  pending-open_as :
      (file : Text) (ls : Option (List Text)) (f : Files)
      → pending io (open_as file ls f).0 ≡ or_none ls ++ pending io f
  unfolding open_as
  pending-open_as file none f = refl
  pending-open_as file (some ls) f = pending-opened_file file ls f

  pub pending-open_file :
      (file : Text) (f : Files)
      → pending io (open_file io file f).0 ≡ contents io f.basedir file ++ pending io f
  unfolding open_file contents
  pending-open_file file f = pending-open_as file _ f

  stacked_twice :
      (f : Files) → pending io (record f { opens = and_curr f.curr f.opens }) ≡ pending io f
  stacked_twice f = elim (Option-cases f.curr) [
    | inl e ↦ rw e refl
    | inr (o, e) ↦
        rw e (ap (λ l. l ++ contents_of io f.basedir f.files) (pend-twice f.buffers o f.opens))
  ]

  pub pending-include :
      (file : Text) (f : Files)
      → pending io (include io file f) ≡ included io f.basedir file ++ pending io f
  unfolding include included
  pending-include [] f = refl
  pending-include (c ∷ file) f =
      pending-open_file (c ∷ file) (record f { opens = and_curr f.curr f.opens })
      ∙ ap (λ l. contents io f.basedir (c ∷ file) ++ l) (stacked_twice f)
