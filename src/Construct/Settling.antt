-- ===== src/Construct/Settling.antt =====
-- Rounds that come to a file with lines left: the loop of NextLine of argus/construct/reader.go.
use argus.Prelude.{
  ℕ, zero, suc, ◌+◌, ◌≤◌, ◌<◌, ◌≡◌, refl, sym, ap, ◌∙◌, ◌⊎◌, Bool, true, false, Option, none, some,
  List, [], ◌∷◌, arith, List-cases, inl, inr,
}
use argus.Text.{Text}
use argus.Construct.{gather}
use argus.Construct.Lines.{
  Files, Opener, next_file, advance, left_of, Round, going, returned, line_round, end_round, round,
  lines_from,
}
use argus.Construct.Pending.{pending}
use argus.Construct.Turns.{count, Next, next_file-Next}

-- Enough rounds return a line, and leave a text.
abbrev pub Returns : Opener → Text → Files → Option Text → List Text → Type 0
Returns io a f r t =
    (m : ℕ) × (g : Files) × ((k : ℕ) → lines_from (m + k) io a f ≡ some (r, g)) × (pending io g ≡ t)

-- Some rounds come to a file that is not at its end.
pub record Ready (io : Opener) (a : Text) (f : Files) : Type 0 where
  pub m : ℕ
  pub g : Files
  pub o : ℕ
  pub b : Text
  pub rest : List Text
  pub current : g.curr ≡ some o
  pub left : left_of o g ≡ b ∷ rest
  pub rounds : (k : ℕ) → lines_from (m + k) io a f ≡ lines_from k io a g
  pub same : pending io g ≡ pending io f
  pub dir : g.basedir ≡ f.basedir

module _ (io : Opener) where
  abbrev pub Settled : Text → Files → Type 0
  Settled a f = ((pending io f ≡ []) × Returns io a f none []) ⊎ Ready io a f

  pub round_here :
      (a : Text) (f : Files) (o : ℕ) (ls : List Text)
      → f.curr ≡ some o
      → left_of o f ≡ ls
      → round io a f ≡ (elim ls as (λ x. Round) [
        | b ∷ rest ↦ line_round io (gather a b) (advance o rest f)
        | [] ↦ end_round a (next_file io f)
      ])
  unfolding round
  round_here a f o ls c e =
      ap
        (λ p. elim p as (λ x. Round) [
          | none ↦ returned none f
          | some q ↦ elim (left_of q f) as (λ x. Round) [
            | b ∷ rest ↦ line_round io (gather a b) (advance q rest f)
            | [] ↦ end_round a (next_file io f)
          ]
        ])
        c
      ∙ ap
          (λ l. elim l as (λ x. Round) [
            | b ∷ rest ↦ line_round io (gather a b) (advance o rest f)
            | [] ↦ end_round a (next_file io f)
          ])
          e

  -- A round that goes on, and one that does not.
  pub lines_from_going :
      (m k : ℕ) (a b : Text) (f g : Files)
      → round io a f ≡ going b g
      → lines_from (suc m + k) io a f ≡ lines_from (m + k) io b g
  unfolding lines_from
  lines_from_going m k a b f g e =
      let sum : suc m + k ≡ suc (m + k) = omega arith in
      let eq = ap (λ n. lines_from n io a f) sum in
      let step : lines_from (suc (m + k)) io a f ≡ lines_from (m + k) io b g =
        rw (lines_from, e) refl in
      eq ∙ step

  pub lines_from_returned :
      (k : ℕ) (a : Text) (f g : Files) (r : Option Text)
      → round io a f ≡ returned r g
      → lines_from (1 + k) io a f ≡ some (r, g)
  unfolding lines_from
  lines_from_returned k a f g r e =
      let sum : 1 + k ≡ suc k = omega arith in
      let eq = ap (λ n. lines_from n io a f) sum in
      let step : lines_from (suc k) io a f ≡ some (r, g) = rw (lines_from, e) refl in eq ∙ step

  abbrev Later : Files → Type 0
  Later f = (a : Text) (g : Files) (o : ℕ) → g.curr ≡ some o → count g < count f → Settled a g

  settled_after :
      (a : Text) (f : Files)
      → Later f
      → (r : Files × Bool) → round io a f ≡ end_round a r
      → Next io f r
      → Settled a f
  unfolding end_round
  settled_after a f ih (g, false) e (p, q) =
      inl (p, (1, g, λ k. lines_from_returned k a f g none e, q))
  settled_after a f ih (g, true) e m = elim (ih a g m.o m.current m.fewer) [
    | inl (p, (i, h, runs, q)) ↦
        inl (sym m.same ∙ p, (suc i, h, λ k. lines_from_going i k a a f g e ∙ runs k, q))
    | inr r ↦ inr record {
      m = suc r.m;
      g = r.g;
      o = r.o;
      b = r.b;
      rest = r.rest;
      current = r.current;
      left = r.left;
      rounds = λ k. lines_from_going r.m k a a f g e ∙ r.rounds k;
      same = r.same ∙ m.same;
      dir = r.dir ∙ m.dir;
    }
  ]

  settled_from : (a : Text) (f : Files) (o : ℕ) → f.curr ≡ some o → Later f → Settled a f
  settled_from a f o c ih = elim (List-cases (left_of o f)) [
    | inl e ↦
        settled_after a f ih (next_file io f) (round_here a f o [] c e) (next_file-Next io f o c e)
    | inr (b, rest, e) ↦ inr record {
      m = 0;
      g = f;
      o = o;
      b = b;
      rest = rest;
      current = c;
      left = e;
      rounds = λ k. let sum : 0 + k ≡ k = omega arith in ap (λ n. lines_from n io a f) sum;
      same = refl;
      dir = refl;
    }
  ]

  pub settled : (n : ℕ) (a : Text) (f : Files) (o : ℕ) → f.curr ≡ some o → count f ≤ n → Settled a f
  settled zero a f o c le = settled_from a f o c (λ b g p d l. absurd (omega (arith, l, le)))
  settled (suc n) a f o c le =
      settled_from a f o c (λ b g p d l. settled n b g p d (omega (arith, l, le)))
