-- ===== src/Construct/Inclusion.antt =====
-- Reading files with includes is reading one text: NextLine of argus/construct/reader.go.
use argus.Prelude.{
  ℕ, zero, suc, ◌+◌, ◌≡◌, refl, sym, ap, ◌∙◌, true, false, Option, none, some, List, [], ◌∷◌, ◌++◌,
  arith, Bool-cases, inl, inr,
}
use argus.Text.{Text}
use argus.Construct.{Gathered, joining, complete, gather, is_include, include_file_name}
use argus.Construct.Lines.{
  Files, Opener, open_as, open_file, include, advance, going, returned, line_round, round,
  lines_from, next_line, opened_file,
}
use argus.Construct.Pending.{included, pending, pending-advance, pending-include}
use argus.Construct.Settling.{
  Returns, Ready, round_here, lines_from_going, lines_from_returned, settled,
}
use argus.Construct.Turns.{count}

pub data TextRound : Type 0 where
  goes : Text → List Text → TextRound
  gives : Text → List Text → TextRound

unfoldable pub text_round : Opener → Text → Gathered → List Text → TextRound
unfolding included
text_round io dir (joining a) t = goes a t
text_round io dir (complete l) t = elim (is_include l) [
  | true ↦ goes [] (included io dir (include_file_name l) ++ t)
  | false ↦ gives l t
]

-- The next line of one text, in which the lines of a file stand in for the line that includes it.
unfoldable pub read_text : ℕ → Opener → Text → Text → List Text → Option (Option Text × List Text)
unfolding text_round
read_text zero io dir a t = none
read_text (suc n) io dir a [] = some (none, [])
read_text (suc n) io dir a (b ∷ t) = elim (text_round io dir (gather a b) t) [
  | goes a' t' ↦ read_text n io dir a' t'
  | gives l t' ↦ some (some l, t')
]

module _ (io : Opener) where
  open_as-current :
      (file : Text) (ls : Option (List Text)) (f : Files) (o : ℕ)
      → f.curr ≡ some o
      → (p : ℕ) × ((open_as file ls f).0.curr ≡ some p)
  unfolding open_as opened_file
  open_as-current file none f o c = (o, c)
  open_as-current file (some ls) f o c = (_, refl)

  open_as-basedir :
      (file : Text) (ls : Option (List Text)) (f : Files)
      → (open_as file ls f).0.basedir ≡ f.basedir
  unfolding open_as opened_file
  open_as-basedir file none f = refl
  open_as-basedir file (some ls) f = refl

  include-current :
      (file : Text) (f : Files) (o : ℕ)
      → f.curr ≡ some o
      → (p : ℕ) × ((include io file f).curr ≡ some p)
  unfolding include open_file
  include-current [] f o c = (o, c)
  include-current (x ∷ file) f o c = open_as-current (x ∷ file) (io _) _ o c

  include-basedir : (file : Text) (f : Files) → (include io file f).basedir ≡ f.basedir
  unfolding include open_file
  include-basedir [] f = refl
  include-basedir (x ∷ file) f = open_as-basedir (x ∷ file) (io _) _

  -- What the text gives, the files return.
  abbrev Follows : ℕ → Type 0
  Follows n =
      (a : Text) (f : Files) (o : ℕ) (r : Option Text) (t : List Text)
      → f.curr ≡ some o
      → read_text n io f.basedir a (pending io f) ≡ some (r, t)
      → Returns io a f r t

  going-Returns :
      (a b : Text) (f g : Files) (r : Option Text) (t : List Text)
      → round io a f ≡ going b g
      → Returns io b g r t
      → Returns io a f r t
  going-Returns a b f g r t e (m, h, runs, q) =
      (suc m, h, λ k. lines_from_going io m k a b f g e ∙ runs k, q)

  abbrev gets : ℕ → Text → TextRound → Option (Option Text × List Text)
  gets n dir (goes a t) = read_text n io dir a t
  gets n dir (gives l t) = some (some l, t)

  abbrev given : Option Text → List Text → Option (Option Text × List Text)
  given r t = some (r, t)

  Returns-same :
      (a : Text) (f : Files) (r1 r2 : Option Text) (t1 t2 : List Text)
      → Returns io a f r1 t1
      → given r1 t1 ≡ given r2 t2
      → Returns io a f r2 t2
  Returns-same a f r1 r2 t1 t2 (m, g, runs, q) e =
      let first : r1 ≡ r2 = ap (λ x. elim x as (λ y. Option Text) [ none ↦ r1 | some p ↦ p.0 ]) e in
      let second : t1 ≡ t2 = ap (λ x. elim x as (λ y. List Text) [ none ↦ t1 | some p ↦ p.1 ]) e in
      (m, g, λ k. runs k ∙ ap (λ x. some (x, g)) first, q ∙ second)

  rounds_of_include :
      (l : Text) (f : Files) (dir : Text) (t : List Text)
      → is_include l ≡ true
      → (line_round io (complete l) f ≡ going [] (include io (include_file_name l) f))
        × (text_round io dir (complete l) t ≡ goes [] (included io dir (include_file_name l) ++ t))
  unfolding line_round text_round
  rounds_of_include l f dir t i = (rw (line_round, i) refl, rw (text_round, i) refl)

  rounds_of_line :
      (l : Text) (f : Files) (dir : Text) (t : List Text)
      → is_include l ≡ false
      → (line_round io (complete l) f ≡ returned (some l) f)
        × (text_round io dir (complete l) t ≡ gives l t)
  unfolding line_round text_round
  rounds_of_line l f dir t i = (rw (line_round, i) refl, rw (text_round, i) refl)

  include-Returns :
      (n : ℕ)
      → Follows n
      → (file : Text) (f : Files) (o : ℕ) (r : Option Text) (t : List Text) → f.curr ≡ some o
      → read_text n io f.basedir [] (included io f.basedir file ++ pending io f) ≡ some (r, t)
      → Returns io [] (include io file f) r t
  include-Returns n ih file f o r t c h =
      let (p, d) = include-current file f o c in
      let g = include io file f in
      ih [] g p r t d (
        ap (λ dir. read_text n io dir [] (pending io g)) (include-basedir file f)
        ∙ ap (λ x. read_text n io f.basedir [] x) (pending-include io file f)
        ∙ h)

  line_round-Returns :
      (n : ℕ)
      → Follows n
      → (a : Text) (g : Files) (x : Gathered) (f : Files) (o : ℕ) (r : Option Text) (t : List Text)
      → f.curr ≡ some o
      → round io a g ≡ line_round io x f
      → gets n f.basedir (text_round io f.basedir x (pending io f)) ≡ some (r, t)
      → Returns io a g r t
  unfolding line_round text_round
  line_round-Returns n ih a g (joining b) f o r t c e h =
      going-Returns a b g f r t e (ih b f o r t c h)
  line_round-Returns n ih a g (complete l) f o r t c e h = elim (Bool-cases (is_include l)) [
    | inl i ↦
        let (u, v) = rounds_of_include l f f.basedir (pending io f) i in
        let file = include_file_name l in
        going-Returns a [] g (include io file f) r t (e ∙ u)
          (include-Returns n ih file f o r t c (sym (ap (gets n f.basedir) v) ∙ h))
    | inr i ↦
        let (u, v) = rounds_of_line l f f.basedir (pending io f) i in
        Returns-same a g (some l) r (pending io f) t
          (1, f, λ k. lines_from_returned io k a g f (some l) (e ∙ u), refl)
          (sym (ap (gets n f.basedir) v) ∙ h)
  ]

  read_text_cons :
      (n : ℕ) (dir a b : Text) (t : List Text)
      → read_text (suc n) io dir a (b ∷ t) ≡ gets n dir (text_round io dir (gather a b) t)
  unfolding read_text
  read_text_cons n dir a b t = from (text_round io dir (gather a b) t)
    where
      from :
          (x : TextRound)
          → (elim x as (λ y. Option (Option Text × List Text)) [
            | goes a' t' ↦ read_text n io dir a' t'
            | gives l t' ↦ some (some l, t')
          ])
            ≡ gets n dir x
      from (goes a' t') = refl
      from (gives l t') = refl

  Ready-Returns :
      (a : Text) (f : Files) (r : Option Text) (t : List Text) (rd : Ready io a f)
      → Returns io a rd.g r t
      → Returns io a f r t
  Ready-Returns a f r t rd (m, g, runs, q) = (
    rd.m + m,
    g,
    λ k.
        let sum : rd.m + m + k ≡ rd.m + (m + k) = omega arith in
        ap (λ n. lines_from n io a f) sum ∙ rd.rounds (m + k) ∙ runs k,
    q,
  )

  lines_from-Follows : (n : ℕ) → Follows n
  unfolding read_text advance
  lines_from-Follows zero a f o r t c h = absurd (grind (arith, h))
  lines_from-Follows (suc n) a f o r t c h = elim (settled io (count f) a f o c (omega arith)) [
    | inl (p, runs) ↦
        Returns-same a f none r [] t runs (sym (ap (λ x. read_text (suc n) io f.basedir a x) p) ∙ h)
    | inr rd ↦
        let next = advance rd.o rd.rest rd.g in
        let text : pending io f ≡ rd.b ∷ pending io next =
          sym rd.same ∙ pending-advance io rd.g rd.o rd.b rd.rest rd.current rd.left in
        let reads : gets n next.basedir
              (text_round io next.basedir (gather a rd.b) (pending io next))
            ≡ some (r, t) =
          sym (read_text_cons n next.basedir a rd.b (pending io next))
          ∙ ap (λ d. read_text (suc n) io d a (rd.b ∷ pending io next)) rd.dir
          ∙ sym (ap (λ x. read_text (suc n) io f.basedir a x) text)
          ∙ h in
        Ready-Returns a f r t rd (
          line_round-Returns n (lines_from-Follows n) a rd.g (gather a rd.b) next rd.o r t
            rd.current (round_here io a rd.g rd.o (rd.b ∷ rd.rest) rd.current rd.left) reads)
  ]

next_line_fresh :
    (n : ℕ) (io : Opener) (f : Files) → f.ungot ≡ [] → next_line n io f ≡ lines_from n io [] f
unfolding next_line
next_line_fresh n io f u =
    ap
      (λ l. elim l as (λ x. Option (Option Text × Files)) [
        | c ∷ s ↦ some (some (c ∷ s), record f { ungot = [] })
        | [] ↦ lines_from n io [] f
      ])
      u

-- What NextLine returns is the next line of the one text of all that is left to read, in which
-- the lines of a file stand where a line includes it: where a file is open and no line was given
-- back, if that text has a next line, or an end, after a finite number of inclusions, then enough
-- rounds return it, and leave the rest of that text to read.
pub next_line-Includes :
    (io : Opener) (n : ℕ) (f : Files) (o : ℕ) (r : Option Text) (t : List Text)
    → f.curr ≡ some o
    → f.ungot ≡ []
    → read_text n io f.basedir [] (pending io f) ≡ some (r, t)
    → (m : ℕ) × (g : Files) × ((k : ℕ) → next_line (m + k) io f ≡ some (r, g)) × (pending io g ≡ t)
next_line-Includes io n f o r t c u h =
    let (m, g, runs, q) = lines_from-Follows io n [] f o r t c h in
    (m, g, λ k. next_line_fresh (m + k) io f u ∙ runs k, q)
