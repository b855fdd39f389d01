-- ===== src/Construct/Turns.antt =====
-- From one file to the next: nextFile of argus/construct/reader.go.
use argus.Prelude.{
  ℕ, ◌+◌, ◌<◌, ◌≡◌, refl, sym, ap, ◌∙◌, Bool, true, false, none, some, List, [], ◌∷◌, ◌++◌, length,
  arith, Option-cases, List-cases, inl, inr,
}
use argus.Text.{Text}
use argus.Construct.Lines.{
  Files, Opener, path_of, opened_file, open_as, open_file, next_of_files, next_file, left_of,
}
use argus.Construct.Pending.{
  pend, contents, contents_of, pending, pend-drained, pending-opened_file,
}

abbrev pub count : Files → ℕ
count f = length f.opens + length f.files

pub record Moved (io : Opener) (f g : Files) : Type 0 where
  pub o : ℕ
  pub current : g.curr ≡ some o
  pub fewer : count g < count f
  pub same : pending io g ≡ pending io f
  pub dir : g.basedir ≡ f.basedir

-- What nextFile makes of files whose current one is at its end.
abbrev pub Next : Opener → Files → Files × Bool → Type 0
Next io f (g, true) = Moved io f g
Next io f (g, false) = (pending io f ≡ []) × (pending io g ≡ [])

module _ (io : Opener) where
  open_file_shut :
      (file : Text) (f : Files)
      → io (path_of f.basedir file) ≡ none
      → open_file io file f ≡ (f, false)
  unfolding open_file open_as
  open_file_shut file f e = rw (open_file, e) refl

  open_file_open :
      (file : Text) (f : Files) (ls : List Text)
      → io (path_of f.basedir file) ≡ some ls
      → open_file io file f ≡ (opened_file file ls f, true)
  unfolding open_file open_as
  open_file_open file f ls e = rw (open_file, e) refl

  next_of_files_shut :
      (file : Text) (files : List Text) (f : Files)
      → io (path_of f.basedir file) ≡ none
      → next_of_files io (file ∷ files) f ≡ next_of_files io files (record f { files = files })
  unfolding next_of_files
  next_of_files_shut file files f e =
      ap
        (λ r. elim r.1 as (λ b. Files × Bool) [
          | true ↦ (r.0, true)
          | false ↦ next_of_files io files r.0
        ])
        (open_file_shut file (record f { files = files }) e)

  next_of_files_open :
      (file : Text) (files : List Text) (f : Files) (ls : List Text)
      → io (path_of f.basedir file) ≡ some ls
      → next_of_files io (file ∷ files) f ≡ (opened_file file ls (record f { files = files }), true)
  unfolding next_of_files
  next_of_files_open file files f ls e =
      ap
        (λ r. elim r.1 as (λ b. Files × Bool) [
          | true ↦ (r.0, true)
          | false ↦ next_of_files io files r.0
        ])
        (open_file_open file (record f { files = files }) ls e)

  pending_shut :
      (file : Text) (files : List Text) (f : Files)
      → io (path_of f.basedir file) ≡ none
      → pending io (record f { files = file ∷ files }) ≡ pending io (record f { files = files })
  unfolding contents_of contents
  pending_shut file files f e = rw (contents_of, contents, e) refl

  pending_open :
      (file : Text) (files : List Text) (f : Files) (ls : List Text)
      → f.curr ≡ none
      → f.opens ≡ []
      → io (path_of f.basedir file) ≡ some ls
      → pending io (opened_file file ls (record f { files = files }))
        ≡ pending io (record f { files = file ∷ files })
  unfolding contents_of contents pend
  pending_open file files f ls c e o =
      pending-opened_file io file ls (record f { files = files })
      ∙ rw (c, e, contents_of, contents, o) refl

  Next-shut :
      (file : Text) (files : List Text) (f : Files) (r : Files × Bool)
      → io (path_of f.basedir file) ≡ none
      → Next io (record f { files = files }) r
      → Next io (record f { files = file ∷ files }) r
  Next-shut file files f (g, true) e m = record {
    o = m.o;
    current = m.current;
    fewer = omega (arith, m.fewer);
    same = m.same ∙ sym (pending_shut file files f e);
    dir = m.dir;
  }
  Next-shut file files f (g, false) e (p, q) = (pending_shut file files f e ∙ p, q)

  next_of_files-Next :
      (files : List Text) (f : Files)
      → f.curr ≡ none
      → f.opens ≡ []
      → Next io (record f { files = files }) (next_of_files io files f)
  unfolding next_of_files contents_of pend opened_file
  next_of_files-Next [] f c e = rw (c, e) (refl, refl)
  next_of_files-Next (file ∷ files) f c e = elim (Option-cases (io (path_of f.basedir file))) [
    | inl n ↦ rw (next_of_files_shut file files f n) (
        Next-shut file files f (next_of_files io files (record f { files = files })) n
          (next_of_files-Next files (record f { files = files }) c e))
    | inr (ls, s) ↦ rw (next_of_files_open file files f ls s) record {
      o = length f.buffers;
      current = refl;
      fewer = rw (c, e) (omega arith);
      same = pending_open file files f ls c e s;
      dir = refl;
    }
  ]

  -- A file at its end has nothing to read, wherever it stands.
  drained :
      (f : Files) (o : ℕ)
      → f.curr ≡ some o
      → left_of o f ≡ []
      → pending io (record f { curr = none }) ≡ pending io f
  drained f o c d =
      rw c
        (ap (λ l. l ++ contents_of io f.basedir f.files) (sym (pend-drained f.buffers o f.opens d)))

  Next-drained :
      (f : Files) (r : Files × Bool)
      → pending io (record f { curr = none }) ≡ pending io f
      → Next io (record f { curr = none }) r
      → Next io f r
  Next-drained f (g, true) e m = record {
    o = m.o;
    current = m.current;
    fewer = m.fewer;
    same = m.same ∙ e;
    dir = m.dir;
  }
  Next-drained f (g, false) e (p, q) = (sym e ∙ p, q)

  next_file_last :
      (f : Files)
      → f.opens ≡ []
      → next_file io f ≡ next_of_files io f.files (record f { curr = none })
  unfolding next_file
  next_file_last f e =
      ap
        (λ os. elim os as (λ x. Files × Bool) [
          | [] ↦ next_of_files io f.files (record f { curr = none })
          | o ∷ ps ↦ (record f { curr = some o; opens = ps }, true)
        ])
        e

  next_file_back :
      (f : Files) (o : ℕ) (os : List ℕ)
      → f.opens ≡ o ∷ os
      → next_file io f ≡ (record f { curr = some o; opens = os }, true)
  unfolding next_file
  next_file_back f o os e = rw (next_file, e) refl

  -- A file at its end gives way to the file that included it, or to the next one that opens.
  pub next_file-Next :
      (f : Files) (o : ℕ) → f.curr ≡ some o → left_of o f ≡ [] → Next io f (next_file io f)
  next_file-Next f o c d = elim (List-cases f.opens) [
    | inl e ↦ rw (next_file_last f e) (
        Next-drained f (next_of_files io f.files (record f { curr = none })) (drained f o c d)
          (next_of_files-Next f.files (record f { curr = none }) refl e))
    | inr (p, os, e) ↦ rw (next_file_back f p os e) record {
      o = p;
      current = refl;
      fewer = rw e (omega arith);
      same =
          ap (λ l. pend f.buffers l ++ contents_of io f.basedir f.files) (sym e) ∙ drained f o c d;
      dir = refl;
    }
  ]
