-- ===== src/Service/Calc/Words.antt =====
-- Which words of a calculation are understood.
use argus.Prelude.{
  ℕ, ◌≡◌, ◌≢◌, refl, ◌∙◌, Bool, true, false, List, [], ◌∷◌, ◌++◌, map, arith, ◌==◌, if◌then◌else◌,
  Bool-cases, inl, inr,
}
use argus.Text.{Text, codes, text_eq, to_lower, fields_from, flush, is_space}
use argus.Service.Calc.{Mask, no_mask, add_word, add_words, calc_mask, dash_to_space}

-- No `J` stands in the text.
abbrev NoCapital : Text → Type 0
NoCapital [] = Unit {0}
NoCapital (c ∷ t) = (c ≢ b'J') × NoCapital t

abbrev AllSmall : List Text → Type 0
AllSmall [] = Unit {0}
AllSmall (w ∷ ws) = NoCapital w × AllSmall ws

NoCapital-snoc : (w : Text) (c : ℕ) → NoCapital w → c ≢ b'J' → NoCapital (w ++ c ∷ [])
NoCapital-snoc [] c h n = (n, tt)
NoCapital-snoc (x ∷ w) c h n = (h.0, NoCapital-snoc w c h.1 n)

AllSmall-flush : (w : Text) (fs : List Text) → NoCapital w → AllSmall fs → AllSmall (flush w fs)
unfolding flush
AllSmall-flush [] fs h k = k
AllSmall-flush (c ∷ w) fs h k = (h, k)

AllSmall-fields_from :
    (sep : ℕ → Bool) (w t : Text) → NoCapital w → NoCapital t → AllSmall (fields_from sep w t)
unfolding fields_from
AllSmall-fields_from sep w [] h k = AllSmall-flush w [] h tt
AllSmall-fields_from sep w (c ∷ cs) h k = elim (Bool-cases (sep c)) [
  | inl b ↦ rw (b, AllSmall) (AllSmall-flush w _ h (AllSmall-fields_from sep [] cs tt k.1))
  | inr b ↦
      rw (b, AllSmall) (AllSmall-fields_from sep (w ++ c ∷ []) cs (NoCapital-snoc w c h k.0) k.1)
]

NoCapital-to_lower : (t : Text) → NoCapital (map dash_to_space (to_lower t))
NoCapital-to_lower [] = tt
NoCapital-to_lower (c ∷ t) = (ground arith, NoCapital-to_lower t)

not_jitter : (w : Text) → NoCapital w → text_eq w (codes "JITTER") ≡ false
not_jitter [] h = refl
not_jitter (c ∷ w) h = let n : (c == b'J') ≡ false = ground arith in rw n refl

jitter-add_word : (w : Text) (m : Mask) → NoCapital w → (add_word w m).jitter ≡ m.jitter
unfolding add_word
jitter-add_word w m h = rw (not_jitter w h) (
    skip (text_eq w (codes "elapsed")) (text_eq w (codes "rate")) (text_eq w (codes "delta"))
      (text_eq w (codes "ave")) (text_eq w (codes "bits")) (text_eq w (codes "one")))
  where
    skip :
        (a b c d e f : Bool)
        → (if a
            then record m { elapsed = true }
            else if b
            then record m { rate = true }
            else if c
            then record m { delta = true }
            else if d
            then record m { ave = true }
            else if false
            then record m { jitter = true }
            else if e
            then record m { bits = true }
            else if f
            then record m { one = true }
            else m).jitter
          ≡ m.jitter
    skip a b c d e f = ground arith

jitter-add_words : (ws : List Text) (m : Mask) → AllSmall ws → (add_words ws m).jitter ≡ m.jitter
unfolding add_words
jitter-add_words [] m h = refl
jitter-add_words (w ∷ ws) m h = jitter-add_words ws (add_word w m) h.1 ∙ jitter-add_word w m h.0

-- Whatever the configuration asks for, the jitter is not among what is calculated.
pub jitter-calc_mask : (calc : Text) → (calc_mask calc).jitter ≡ false
unfolding calc_mask
jitter-calc_mask calc =
    jitter-add_words _ no_mask (AllSmall-fields_from is_space [] _ tt (NoCapital-to_lower calc))
