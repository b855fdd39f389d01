-- ===== src/Graph/Raw.antt =====
-- Files as bytes, and what encoding/binary writes into them in big-endian order.
use argus.Prelude.{
  ℕ, zero, suc, ◌+◌, ◌-◌, ◌*◌, ◌/◌, ◌%◌, ◌^◌, ◌≤◌, ◌<◌, ◌≡◌, refl, ap, ◌∙◌, ◌⊎◌, inl, inr, List, [],
  ◌∷◌, arith, length, get_or, max,
}
use mathlib.Core.Path.{ap₂}

abbrev pub Bytes : Type 0
Bytes = List ℕ

-- What stands at a place of a file, 0 past its end.
abbrev pub byte_at : Bytes → ℕ → ℕ
byte_at file p = get_or file p 0

abbrev pub over : Bytes → Bytes → Bytes
over [] file = file
over (b ∷ bs) [] = b ∷ over bs []
over (b ∷ bs) (d ∷ file) = b ∷ over bs file

-- A write at a place, which fills what lies between the end and that place with zeros.
unfoldable pub write_at : ℕ → Bytes → Bytes → Bytes
write_at zero bs file = over bs file
write_at (suc p) bs [] = 0 ∷ write_at p bs []
write_at (suc p) bs (d ∷ file) = d ∷ write_at p bs file

abbrev pub be32 : ℕ → Bytes
be32 n = n / 2 ^ 24 % 256 ∷ n / 2 ^ 16 % 256 ∷ n / 2 ^ 8 % 256 ∷ n % 256 ∷ []

-- The word of four bytes from a place on.
abbrev pub word_at : Bytes → ℕ → ℕ
word_at bs p =
    byte_at bs p * 2 ^ 24
    + byte_at bs (p + 1) * 2 ^ 16
    + byte_at bs (p + 2) * 2 ^ 8
    + byte_at bs (p + 3)

pub word_at-be32 : (n : ℕ) → n < 2 ^ 32 → word_at (be32 n) 0 ≡ n
word_at-be32 n h = omega arith

-- The bytes from a place on.
abbrev pub bytes_from : Bytes → ℕ → ℕ → Bytes
bytes_from file p zero = []
bytes_from file p (suc n) = byte_at file p ∷ bytes_from file (suc p) n

length-over : (bs file : Bytes) → length (over bs file) ≡ max (length bs) (length file)
length-over [] file = omega arith
length-over (b ∷ bs) [] = omega (arith, length-over bs [])
length-over (b ∷ bs) (d ∷ file) = omega (arith, length-over bs file)

pub length-write_at :
    (p : ℕ) (bs file : Bytes)
    → 1 ≤ length bs
    → length (write_at p bs file) ≡ max (p + length bs) (length file)
unfolding write_at
length-write_at zero bs file h = omega (arith, length-over bs file)
length-write_at (suc p) bs [] h = omega (arith, length-write_at p bs [] h)
length-write_at (suc p) bs (d ∷ file) h = omega (arith, length-write_at p bs file h)

byte_at-over_in :
    (bs file : Bytes) (q : ℕ) → q < length bs → byte_at (over bs file) q ≡ byte_at bs q
byte_at-over_in [] file q h = absurd (omega arith)
byte_at-over_in (b ∷ bs) [] zero h = refl
byte_at-over_in (b ∷ bs) [] (suc q) h = byte_at-over_in bs [] q (omega arith)
byte_at-over_in (b ∷ bs) (d ∷ file) zero h = refl
byte_at-over_in (b ∷ bs) (d ∷ file) (suc q) h = byte_at-over_in bs file q (omega arith)

byte_at-over_past :
    (bs file : Bytes) (q : ℕ) → length bs ≤ q → byte_at (over bs file) q ≡ byte_at file q
byte_at-over_past [] file q h = refl
byte_at-over_past (b ∷ bs) file zero h = absurd (omega arith)
byte_at-over_past (b ∷ bs) [] (suc q) h = byte_at-over_past bs [] q (omega arith)
byte_at-over_past (b ∷ bs) (d ∷ file) (suc q) h = byte_at-over_past bs file q (omega arith)

-- What was written is there.
pub byte_at-write_at_in :
    (p : ℕ) (bs file : Bytes) (q : ℕ)
    → p ≤ q
    → q < p + length bs
    → byte_at (write_at p bs file) q ≡ byte_at bs (q - p)
unfolding write_at
byte_at-write_at_in zero bs file q l h =
    let e : q ≡ q - 0 = omega arith in byte_at-over_in bs file q (omega arith) ∙ ap (byte_at bs) e
byte_at-write_at_in (suc p) bs file zero l h = absurd (omega arith)
byte_at-write_at_in (suc p) bs [] (suc q) l h =
    let e : q - p ≡ suc q - suc p = omega arith in
    byte_at-write_at_in p bs [] q (omega arith) (omega arith) ∙ ap (byte_at bs) e
byte_at-write_at_in (suc p) bs (d ∷ file) (suc q) l h =
    let e : q - p ≡ suc q - suc p = omega arith in
    byte_at-write_at_in p bs file q (omega arith) (omega arith) ∙ ap (byte_at bs) e

byte_at-write_at_below :
    (p : ℕ) (bs file : Bytes) (q : ℕ) → q < p → byte_at (write_at p bs file) q ≡ byte_at file q
unfolding write_at
byte_at-write_at_below zero bs file q h = absurd (omega arith)
byte_at-write_at_below (suc p) bs [] zero h = refl
byte_at-write_at_below (suc p) bs [] (suc q) h = byte_at-write_at_below p bs [] q (omega arith)
byte_at-write_at_below (suc p) bs (d ∷ file) zero h = refl
byte_at-write_at_below (suc p) bs (d ∷ file) (suc q) h =
    byte_at-write_at_below p bs file q (omega arith)

byte_at-write_at_above :
    (p : ℕ) (bs file : Bytes) (q : ℕ)
    → p + length bs ≤ q
    → byte_at (write_at p bs file) q ≡ byte_at file q
unfolding write_at
byte_at-write_at_above zero bs file q h = byte_at-over_past bs file q (omega arith)
byte_at-write_at_above (suc p) bs file zero h = absurd (omega arith)
byte_at-write_at_above (suc p) bs [] (suc q) h = byte_at-write_at_above p bs [] q (omega arith)
byte_at-write_at_above (suc p) bs (d ∷ file) (suc q) h =
    byte_at-write_at_above p bs file q (omega arith)

-- Nothing else has changed.
pub bytes_from-write_at_out :
    (p : ℕ) (bs file : Bytes) (q n : ℕ)
    → (q + n ≤ p) ⊎ (p + length bs ≤ q)
    → bytes_from (write_at p bs file) q n ≡ bytes_from file q n
bytes_from-write_at_out p bs file q zero h = refl
bytes_from-write_at_out p bs file q (suc n) (inl h) =
    ap₂ ◌∷◌ (byte_at-write_at_below p bs file q (omega arith))
      (bytes_from-write_at_out p bs file (suc q) n (inl (omega arith)))
bytes_from-write_at_out p bs file q (suc n) (inr h) =
    ap₂ ◌∷◌ (byte_at-write_at_above p bs file q h)
      (bytes_from-write_at_out p bs file (suc q) n (inr (omega arith)))

bytes_from-write_at_part :
    (p : ℕ) (bs file : Bytes) (q n : ℕ)
    → p ≤ q
    → q + n ≤ p + length bs
    → bytes_from (write_at p bs file) q n ≡ bytes_from bs (q - p) n
bytes_from-write_at_part p bs file q zero l h = refl
bytes_from-write_at_part p bs file q (suc n) l h =
    let e : suc q - p ≡ suc (q - p) = omega arith in
    ap₂ ◌∷◌ (byte_at-write_at_in p bs file q l (omega arith)) (
      bytes_from-write_at_part p bs file (suc q) n (omega arith) (omega arith)
      ∙ ap (λ i. bytes_from bs i n) e)

bytes_from-cons : (b : ℕ) (bs : Bytes) (q n : ℕ) → bytes_from (b ∷ bs) (suc q) n ≡ bytes_from bs q n
bytes_from-cons b bs q zero = refl
bytes_from-cons b bs q (suc n) = ap (λ t. byte_at bs q ∷ t) (bytes_from-cons b bs (suc q) n)

bytes_from-whole : (bs : Bytes) → bytes_from bs 0 (length bs) ≡ bs
bytes_from-whole [] = refl
bytes_from-whole (b ∷ bs) =
    ap (λ t. b ∷ t) (bytes_from-cons b bs 0 (length bs) ∙ bytes_from-whole bs)

-- What was written is read back.
pub bytes_from-write_at :
    (p : ℕ) (bs file : Bytes) → bytes_from (write_at p bs file) p (length bs) ≡ bs
bytes_from-write_at p bs file =
    let e : p - p ≡ 0 = omega arith in
    bytes_from-write_at_part p bs file p (length bs) (omega arith) (omega arith)
    ∙ ap (λ i. bytes_from bs i (length bs)) e
    ∙ bytes_from-whole bs

pub length-bytes_from : (file : Bytes) (p n : ℕ) → length (bytes_from file p n) ≡ n
length-bytes_from file p zero = refl
length-bytes_from file p (suc n) = ap suc (length-bytes_from file (suc p) n)
