-- ===== src/Construct.antt =====
-- The lines of configuration files: cleanLine, includeFileName and the joining of lines of
-- argus/construct/reader.go. Lines are of bytes.
pub mod Pending
pub mod Lines
pub mod Quoted
pub mod Turns
pub mod Settling
pub mod Inclusion
use argus.Prelude.{
  ℕ, zero, suc, ◌+◌, ◌-◌, ◌*◌, ◌%◌, ◌≡◌, refl, Bool, true, false, ◌&&◌, ◌||◌, Option, none, some,
  List, [], ◌∷◌, ◌++◌, leb, ◌==◌, if◌then◌else◌,
}
use argus.Text.{Text, codes, has_prefix}

abbrev pub is_nil : Text → Bool
is_nil [] = true
is_nil (c ∷ l) = false

abbrev pub is_blank : ℕ → Bool
is_blank c = c == b' ' || c == 9

unfoldable pub hex_value : ℕ → Option ℕ
hex_value c =
    if leb b'0' c && leb c b'9'
    then some (c - b'0')
    else if leb b'A' c && leb c b'F'
    then some (c - b'A' + 10)
    else if leb b'a' c && leb c b'f'
    then some (c - b'a' + 10)
    else none

-- byte(x) of strconv.ParseInt of two bytes to the base 16, which is 0 where they are no number;
-- the first may be a sign.
unfoldable pub hex_byte : ℕ → ℕ → ℕ
unfolding hex_value
hex_byte c d = elim (hex_value d) [
  | none ↦ 0
  | some y ↦ elim (hex_value c) [
    | some x ↦ 16 * x + y
    | none ↦ if c == b'+' then y else if c == b'-' then (256 - y) % 256 else 0
  ]
]

-- What a byte and those after it give: nothing more, or bytes, and how many of those after it they
-- use up.
pub data Piece : Type 0 where
  ended : Piece
  wrote : Text → ℕ → Piece

-- \xAB, of which the source wants a byte after it.
unfoldable pub hex_piece : Text → Piece
unfolding hex_byte
hex_piece (c ∷ d ∷ e ∷ l) = wrote (hex_byte c d ∷ []) 3
hex_piece l = wrote (0 ∷ []) 1

unfoldable pub escape_piece : ℕ → Text → Piece
unfolding hex_piece
escape_piece c l =
    if c == b'n'
    then wrote (10 ∷ []) 1
    else if c == b'r'
    then wrote (13 ∷ []) 1
    else if c == b't'
    then wrote (9 ∷ []) 1
    else if c == b'#'
    then wrote (b'#' ∷ []) 1
    else if c == b'&'
    then wrote [] 1
    else if c == b'x'
    then hex_piece l
    else wrote (b'\\' ∷ c ∷ []) 1

unfoldable pub byte_piece : ℕ → Piece
byte_piece c = if c == b'#' then ended else wrote (c ∷ []) 0

-- A backslash at the end stands for itself.
unfoldable pub piece : ℕ → Text → Piece
unfolding escape_piece byte_piece
piece c [] = byte_piece c
piece c (d ∷ l) = if c == b'\\' then escape_piece d l else byte_piece c

-- The loop of cleanLine: bytes to pass over, whether nothing is written yet, and the line.
unfoldable pub clean_from : ℕ → Bool → Text → Text
unfolding piece
clean_from n fresh [] = []
clean_from (suc n) fresh (c ∷ l) = clean_from n fresh l
clean_from zero fresh (c ∷ l) = elim (fresh && is_blank c) [
  | true ↦ clean_from zero fresh l
  | false ↦ elim (piece c l) [
    | ended ↦ []
    | wrote out n ↦ out ++ clean_from n (fresh && is_nil out) l
  ]
]

abbrev pub is_white : ℕ → Bool
is_white c = is_blank c || c == 10 || c == 13

abbrev pub unless_white : ℕ → Text → Text
unless_white c [] = if is_white c then [] else c ∷ []
unless_white c (d ∷ l) = c ∷ d ∷ l

unfoldable pub trim_end : Text → Text
trim_end [] = []
trim_end (c ∷ l) = unless_white c (trim_end l)

-- cleanLine
unfoldable pub clean_line : Text → Text
unfolding clean_from trim_end
clean_line l = trim_end (clean_from 0 true l)

-- The source's way from blanks to the line that follows a backslash, which keeps the last of
-- them in a line of blanks alone.
unfoldable pub trim_lead : Text → Text
trim_lead [] = []
trim_lead (c ∷ []) = c ∷ []
trim_lead (c ∷ d ∷ l) = let rest = trim_lead (d ∷ l) in if is_blank c then rest else c ∷ d ∷ l

abbrev pub ends_open : Text → Bool
ends_open [] = false
ends_open (c ∷ []) = c == b'\\'
ends_open (c ∷ d ∷ l) = ends_open (d ∷ l)

abbrev pub but_last : Text → Text
but_last [] = []
but_last (c ∷ []) = []
but_last (c ∷ d ∷ l) = c ∷ but_last (d ∷ l)

-- What NextLine has after a line of a file: a beginning to go on with, or a line.
pub data Gathered : Type 0 where
  joining : Text → Gathered
  complete : Text → Gathered

abbrev pub appended : Text → Text → Text
appended a b = if is_nil a then b else a ++ trim_lead b

unfoldable pub cleaned : Text → Gathered
cleaned [] = joining []
cleaned (c ∷ l) = complete (c ∷ l)

unfoldable pub gather : Text → Text → Gathered
unfolding trim_lead clean_line cleaned
gather a [] = joining a
gather a (c ∷ b) =
    let whole = appended a (c ∷ b) in
    if ends_open whole then joining (but_last whole) else cleaned (clean_line whole)

-- strings.HasPrefix(l, "include ")
abbrev pub is_include : Text → Bool
is_include l = has_prefix l (codes "include ")

unfoldable pub after_quote : Text → Option Text
after_quote [] = none
after_quote (c ∷ l) = let rest = after_quote l in if c == b'"' then some l else rest

unfoldable pub before_quote : Text → Option Text
before_quote [] = none
before_quote (c ∷ l) = elim (before_quote l) [
  | some s ↦ some (c ∷ s)
  | none ↦ if c == b'"' then some [] else none
]

-- includeFileName. With one quote alone the source's bounds cross, which panics.
unfoldable pub include_file_name : Text → Text
unfolding after_quote before_quote
include_file_name l = elim (after_quote l) [
  | none ↦ []
  | some r ↦ elim (before_quote r) [ none ↦ [] | some s ↦ s ]
]

clean_line_test : clean_line (codes "  a \\#b \\x41. # c") ≡ codes "a #b A."
unfolding clean_line
clean_line_test = refl
