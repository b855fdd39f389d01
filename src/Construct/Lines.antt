-- ===== src/Construct/Lines.antt =====
-- The files that a configuration is read from, and their lines: argus/construct/reader.go.
use argus.Prelude.{
  ℕ, zero, suc, Bool, true, false, ◌&&◌, ◌||◌, not, Option, none, some, List, [], ◌∷◌, ◌++◌, ltb,
  ◌==◌, if◌then◌else◌, length, get_or, set,
}
use argus.Text.{Text, codes, text_eq}
use argus.Construct.{Gathered, joining, complete, gather, is_nil, is_include, include_file_name}

-- openfile, without its reader
pub record OpenFile : Type 0 where
  pub file : Text
  pub line : ℕ

-- Files. An open file is a number: `opened` and `buffers` hold what every one that was made is and
-- has left to read, so that one which stands in `opens` twice is one file. The head of `opens` is
-- the slice's end.
pub record Files : Type 0 where
  pub curr : Option ℕ
  pub basedir : Text
  pub files : List Text
  pub opens : List ℕ
  pub allfiles : List Text
  pub ungot : Text
  pub opened : List OpenFile
  pub buffers : List (List Text)

-- What opens a file, or runs a program: the lines that ReadLine returns of it until it fails.
abbrev pub Opener : Type 0
Opener = Text → Option (List Text)

abbrev pub no_file : OpenFile
no_file = record { file = []; line = 0 }

-- CurrFile
unfoldable pub curr_file : Files → Text
curr_file f = elim f.curr [ some o ↦ (get_or f.opened o no_file).file | none ↦ get_or f.files 0 [] ]

-- CurrLine
unfoldable pub curr_line : Files → ℕ
curr_line f = elim f.curr [ none ↦ 0 | some o ↦ (get_or f.opened o no_file).line ]

abbrev pub is_rooted : Text → Bool
is_rooted file = get_or file 0 0 == b'/'

abbrev pub path_of : Text → Text → Text
path_of basedir file =
    if not (is_rooted file) && not (is_nil basedir) then basedir ++ codes "/" ++ file else file

abbrev pub and_curr : Option ℕ → List ℕ → List ℕ
and_curr none os = os
and_curr (some o) os = o ∷ os

-- openFile where the file opens, with its lines
unfoldable pub opened_file : Text → List Text → Files → Files
opened_file file ls f = record f {
  curr = some (length f.buffers);
  opens = and_curr f.curr f.opens;
  allfiles = f.allfiles ++ path_of f.basedir file ∷ [];
  opened = f.opened ++ record { file = file; line = 0 } ∷ [];
  buffers = f.buffers ++ ls ∷ [];
}

-- openFile, with what opens
unfoldable pub open_as : Text → Option (List Text) → Files → Files × Bool
unfolding opened_file
open_as file none f = (f, false)
open_as file (some ls) f = (opened_file file ls f, true)

-- openFile
unfoldable pub open_file : Opener → Text → Files → Files × Bool
unfolding open_as
open_file io file f = open_as file (io (path_of f.basedir file)) f

unfoldable pub next_of_files : Opener → List Text → Files → Files × Bool
unfolding open_file
next_of_files io [] f = (record f { files = [] }, false)
next_of_files io (file ∷ files) f =
    let (g, ok) = open_file io file (record f { files = files }) in
    elim ok [ true ↦ (g, true) | false ↦ next_of_files io files g ]

-- nextFile
unfoldable pub next_file : Opener → Files → Files × Bool
unfolding next_of_files
next_file io f = elim f.opens [
  | [] ↦ next_of_files io f.files (record f { curr = none })
  | o ∷ os ↦ (record f { curr = some o; opens = os }, true)
]

-- include
unfoldable pub include : Opener → Text → Files → Files
unfolding open_file
include io [] f = f
include io (c ∷ file) f = (open_file io (c ∷ file) (record f { opens = and_curr f.curr f.opens })).0

-- The rest of a file after a line of it.
unfoldable pub advance : ℕ → List Text → Files → Files
advance o rest f =
    let o' = get_or f.opened o no_file in
    record f {
      opened = set f.opened o (record o' { line = suc o'.line });
      buffers = set f.buffers o rest;
    }

abbrev pub left_of : ℕ → Files → List Text
left_of o f = get_or f.buffers o []

-- A round of the loop of NextLine goes on with what is gathered of a line, or returns a line, if
-- any.
pub data Round : Type 0 where
  going : Text → Files → Round
  returned : Option Text → Files → Round

unfoldable pub line_round : Opener → Gathered → Files → Round
unfolding include
line_round io (joining a) f = going a f
line_round io (complete l) f = elim (is_include l) [
  | true ↦ going [] (include io (include_file_name l) f)
  | false ↦ returned (some l) f
]

unfoldable pub end_round : Text → Files × Bool → Round
end_round a (f, true) = going a f
end_round a (f, false) = returned none f

unfoldable pub round : Opener → Text → Files → Round
unfolding line_round end_round next_file
round io a f = elim f.curr [
  | none ↦ returned none f
  | some o ↦ elim (left_of o f) [
    | b ∷ rest ↦ line_round io (gather a b) (advance o rest f)
    | [] ↦ end_round a (next_file io f)
  ]
]

-- The loop of NextLine, which is none where the fuel is used up.
unfoldable pub lines_from : ℕ → Opener → Text → Files → Option (Option Text × Files)
unfolding round
lines_from zero io a f = none
lines_from (suc n) io a f = elim (round io a f) [
  | going b g ↦ lines_from n io b g
  | returned r g ↦ some (r, g)
]

-- NextLine
unfoldable pub next_line : ℕ → Opener → Files → Option (Option Text × Files)
unfolding lines_from
next_line fuel io f = elim f.ungot [
  | c ∷ l ↦ some (some (c ∷ l), record f { ungot = [] })
  | [] ↦ lines_from fuel io [] f
]

-- UnGetLine
unfoldable pub unget_line : Text → Files → Files
unget_line l f = record f { ungot = l }

unfoldable pub text_le : Text → Text → Bool
text_le [] t = true
text_le (c ∷ s) [] = false
text_le (c ∷ s) (d ∷ t) = ltb c d || c == d && text_le s t

unfoldable pub insert_text : Text → List Text → List Text
unfolding text_le
insert_text s [] = s ∷ []
insert_text s (t ∷ ts) = let rest = insert_text s ts in if text_le s t then s ∷ t ∷ ts else t ∷ rest

-- strings.HasSuffix
unfoldable pub has_suffix : Text → Text → Bool
has_suffix [] p = is_nil p
has_suffix (c ∷ s) p = text_eq (c ∷ s) p || has_suffix s p

unfoldable pub is_used : Text → Bool
unfolding has_suffix
is_used d = not (
    is_nil d
    || get_or d 0 0 == b'.'
    || get_or d 0 0 == b'#'
    || text_eq d (codes "CVS")
    || has_suffix d (codes ".bkp"))

-- filesInDir, with the names that are in the directory
unfoldable pub files_in_dir : List Text → List Text
unfolding is_used insert_text
files_in_dir [] = []
files_in_dir (d ∷ all) =
    let rest = files_in_dir all in if is_used d then insert_text d rest else rest

abbrev pub dir_of : Text → Text
dir_of [] = []
dir_of (c ∷ l) = let rest = dir_of l in if has_slash l then c ∷ rest else []
  where
    has_slash : Text → Bool
    has_slash [] = false
    has_slash (d ∷ m) = d == b'/' || has_slash m

-- NewReader, with the names in the directory, if the file is one
unfoldable pub new_reader : Opener → Text → Option (List Text) → Files
unfolding files_in_dir next_file
new_reader io file names =
    (next_file io (record {
      curr = none;
      basedir = elim names [ some ds ↦ file | none ↦ dir_of file ];
      files = elim names [ some ds ↦ files_in_dir ds | none ↦ file ∷ [] ];
      opens = [];
      allfiles = [];
      ungot = [];
      opened = [];
      buffers = [];
    })).0
