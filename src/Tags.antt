-- ===== src/Tags.antt =====
-- Tag lists and access lists: argus/argus/tags.go. Texts are lists of bytes here.
pub mod Words
use argus.Prelude.{
  ℕ, zero, suc, ◌+◌, String, Bool, true, false, ◌&&◌, ◌||◌, List, [], ◌∷◌, ◌==◌, if◌then◌else◌,
  length,
}
use argus.Text.{Text, codes, text_eq}

abbrev pub is_blank : ℕ → Bool
is_blank c = c == b' ' || c == b'\t'

-- tags[i:eow], where `eow` is the first blank at or after the position
unfoldable pub word : Text → Text
word [] = []
word (c ∷ cs) = if is_blank c then [] else c ∷ word cs

-- The text from the first blank on.
unfoldable pub after_word : Text → Text
after_word [] = []
after_word (c ∷ cs) = if is_blank c then c ∷ cs else after_word cs

-- The `i++` of the outer loop.
unfoldable pub skip_one : Text → Text
skip_one [] = []
skip_one (c ∷ cs) = cs

-- The loop of IncludesTag over tags[i:]. The first byte of a word is taken whatever it is, as it
-- is no blank there.
unfoldable pub includes_from : ℕ → Text → Text → Bool → Bool
unfolding word after_word skip_one
includes_from zero tags tag wildcard = false
includes_from (suc fuel) [] tag wildcard = false
includes_from (suc fuel) (c ∷ cs) tag wildcard = elim (is_blank c) [
  | true ↦ includes_from fuel cs tag wildcard
  | false ↦
      let tt = c ∷ word cs in
      let rest = includes_from fuel (skip_one (after_word cs)) tag wildcard in
      if text_eq tt tag
      then true
      else if wildcard && (text_eq tt (codes "all") || text_eq tt (codes "*"))
      then true
      else rest
]

-- IncludesTag; each round takes a byte at least.
unfoldable pub includes_tag : Text → Text → Bool → Bool
includes_tag tags tag wildcard = includes_from (suc (length tags)) tags tag wildcard

-- ACLPermitsUser
unfoldable pub acl_permits_user : Text → List Text → Bool
acl_permits_user acl [] = false
acl_permits_user acl (cred ∷ creds) =
    if includes_tag acl cred false then true else acl_permits_user acl creds
