-- ===== src/Examples/Configuring.antt =====
-- A configuration of two files, one of which includes the other: the theorems at concrete inputs.
use argus.Prelude.{ℕ, ◌+◌, ◌≡◌, refl, none, some, [], ◌∷◌, if◌then◌else◌}
use argus.Text.{codes, text_eq}
use argus.Construct.{clean_line, trim_end, gather, include_file_name}
use argus.Construct.Lines.{Files, Opener, next_line, new_reader}
use argus.Construct.Pending.{pend, contents_of, pending}
use argus.Construct.Quoted.{quoted, clean_line-quoted}
use argus.Construct.Inclusion.{read_text, next_line-Includes}

abbrev two_files : Opener
two_files path =
    if text_eq path (codes "/etc/argus.conf")
    then some (codes "# all" ∷ codes "include \"more\"" ∷ codes "host: b {" ∷ [])
    else if text_eq path (codes "/etc/more")
    then some (codes "debug: \\" ∷ codes "   yes" ∷ [])
    else none

abbrev reader : Files
reader = new_reader two_files (codes "/etc/argus.conf") none

first_line :
    read_text 9 two_files (codes "/etc") [] (pending two_files reader)
    ≡ some (some (codes "debug: yes"), codes "host: b {" ∷ [])
unfolding read_text new_reader pend contents_of gather include_file_name
first_line = refl

reader_current : reader.curr ≡ some 0
unfolding new_reader
reader_current = refl

next_line-Includes_example :
    (m : ℕ) × (g : Files) × ((k : ℕ)
      → next_line (m + k) two_files reader ≡ some (some (codes "debug: yes"), g))
    × (pending two_files g ≡ codes "host: b {" ∷ [])
unfolding new_reader
next_line-Includes_example =
    next_line-Includes two_files 9 reader 0 (some (codes "debug: yes")) (codes "host: b {" ∷ [])
      reader_current refl first_line

clean_line-quoted_example : clean_line (quoted (codes " # a\\b ")) ≡ trim_end (codes " # a\\b ")
clean_line-quoted_example = clean_line-quoted (codes " # a\\b ")
