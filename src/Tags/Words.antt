-- ===== src/Tags/Words.antt =====
-- IncludesTag against the list of the words of a tag list.
use argus.Prelude.{
  ℕ, zero, suc, ◌≤◌, ◌<◌, ◌≡◌, refl, inl, inr, Bool, false, ◌&&◌, ◌||◌, List, [], ◌∷◌, ◌++◌, arith,
  length, any, Bool-cases,
}
use mathlib.Core.List.{append-nil, append_assoc}
use argus.Text.{Text, codes, text_eq, fields_from, fields_func}
use argus.Tags.{is_blank, word, after_word, skip_one, includes_from, includes_tag, acl_permits_user}

-- What IncludesTag looks for in a word.
abbrev pub accepts : Text → Bool → Text → Bool
accepts tag wildcard tt =
    text_eq tt tag || wildcard && (text_eq tt (codes "all") || text_eq tt (codes "*"))

fields-word :
    (d : ℕ) (w cs : Text)
    → fields_from is_blank (d ∷ w) cs
      ≡ ((d ∷ w) ++ word cs) ∷ fields_from is_blank [] (skip_one (after_word cs))
unfolding fields_from word after_word skip_one
fields-word d w [] = rw append-nil
fields-word d w (c ∷ cs) = elim (Bool-cases (is_blank c)) [
  | inl blank ↦ rw (blank, fields_from) (rw append-nil)
  | inr inside ↦ rw (inside, fields_from) (rw (fields-word d (w ++ c ∷ []) cs) (rw append_assoc))
]

length-skip : (cs : Text) → length (skip_one (after_word cs)) ≤ length cs
unfolding after_word skip_one
length-skip [] = omega arith
length-skip (c ∷ cs) = ground (arith, length-skip cs)

includes_from-any :
    (fuel : ℕ) (cs tag : Text) (wildcard : Bool)
    → length cs < fuel
    → includes_from fuel cs tag wildcard ≡ any (accepts tag wildcard) (fields_func is_blank cs)
unfolding includes_from fields_from
includes_from-any zero cs tag wildcard h = absurd (omega arith)
includes_from-any (suc fuel) [] tag wildcard h = refl
includes_from-any (suc fuel) (c ∷ cs) tag wildcard h = elim (Bool-cases (is_blank c)) [
  | inl blank ↦
      rw (blank, includes_from)
        (rw (blank, fields_from) (includes_from-any fuel cs tag wildcard (omega arith)))
  | inr inside ↦
      rw (inside, includes_from)
        (rw (inside, fields_from)
          (rw (fields-word c [] cs) (
            ground (
              arith,
              includes_from-any fuel (skip_one (after_word cs)) tag wildcard
                  (omega (arith, length-skip cs)),
            ))))
]

-- IncludesTag is true exactly when a word of the list, its runs without blanks, is the tag, or is
-- `all` or `*` where wildcards count.
pub includes_tag-any :
    (tags tag : Text) (wildcard : Bool)
    → includes_tag tags tag wildcard ≡ any (accepts tag wildcard) (fields_func is_blank tags)
unfolding includes_tag
includes_tag-any tags tag wildcard =
    includes_from-any (suc (length tags)) tags tag wildcard (omega arith)

any-or_false :
    (cred : Text) (words : List Text)
    → any (accepts cred false) words ≡ any (λ tt. text_eq tt cred) words
any-or_false cred [] = refl
any-or_false cred (w ∷ ws) = ground (arith, any-or_false cred ws)

-- A user is permitted exactly when one of the credentials is a word of the access list.
acl_permits-any :
    (acl : Text) (creds : List Text)
    → acl_permits_user acl creds
      ≡ any (λ cred. any (λ tt. text_eq tt cred) (fields_func is_blank acl)) creds
unfolding acl_permits_user
acl_permits-any acl [] = refl
acl_permits-any acl (cred ∷ creds) =
    rw (includes_tag-any acl cred false) (
      rw (any-or_false cred (fields_func is_blank acl)) (ground (arith, acl_permits-any acl creds)))
