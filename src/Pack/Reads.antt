-- ===== src/Pack/Reads.antt =====
-- What a format of Unpack reads: argus/argus/pack.go.
use argus.Prelude.{
  ℕ, suc, ◌+◌, ◌-◌, ◌*◌, ◌/◌, ◌%◌, ◌^◌, ◌<◌, ◌≡◌, refl, Bool, true, false, ◌++◌, ltb, if◌then◌else◌,
  Option, none, some, List, [], ◌∷◌, arith, ◌==◌, length, get_or, sym, ap, ◌∙◌, ==_iff, Bool-cases,
  inl, inr,
}
use mathlib.Core.Path.{subst}
use argus.Prelude.Int.{ℤ, pos, negsuc, ◌≤ℤ◌}
use argus.Text.{Text}
use argus.Pack.{signed, value_of, char_value, byte_value, short_value, long_value}

-- All are bytes.
abbrev pub AllBytes : List ℕ → Type 0
AllBytes dat = (i : ℕ) → get_or dat i 0 < 256

-- A number that fits into so many bits, and the sign.
abbrev pub IsSigned : ℕ → ℤ → Type 0
IsSigned w z = (negsuc (2 ^ w - 1) ≤ℤ z) × (z ≤ℤ pos (2 ^ w - 1))

-- The two's complement in so many bits.
abbrev pub twos : ℕ → ℤ → ℕ
twos w (pos n) = n
twos w (negsuc n) = 2 ^ w - suc n

-- Four bytes, the highest first.
abbrev pub big_endian : ℕ → List ℕ
big_endian n = n / 2 ^ 24 ∷ n / 2 ^ 16 % 2 ^ 8 ∷ n / 2 ^ 8 % 2 ^ 8 ∷ n % 2 ^ 8 ∷ []

-- How many bytes a format takes, for the formats that there are.
abbrev pub width_of : ℕ → Option ℕ
width_of h =
    if h == b'c'
    then some 1
    else if h == b'C'
    then some 1
    else if h == b'n'
    then some 2
    else if h == b'N'
    then some 4
    else none

-- What a format reads: the number that its bytes encode, 0 where there are too few of them, and no
-- number where it is none.
pub data Reads (dat : List ℕ) : Text → ℤ → Bool → Type 0 where
  signed_byte :
      {how : Text} (z : ℤ) (rest : List ℕ)
      → IsSigned 7 z
      → dat ≡ twos 8 z ∷ rest
      → Reads dat (b'c' ∷ how) z true
  unsigned_byte :
      {how : Text} (n : ℕ) (rest : List ℕ) → dat ≡ n ∷ rest → Reads dat (b'C' ∷ how) (pos n) true
  short :
      {how : Text} (n : ℕ) (rest : List ℕ)
      → n < 2 ^ 16
      → dat ≡ n / 2 ^ 8 ∷ n % 2 ^ 8 ∷ rest
      → Reads dat (b'n' ∷ how) (pos n) true
  long :
      {how : Text} (z : ℤ) (rest : List ℕ)
      → IsSigned 31 z
      → dat ≡ big_endian (twos 32 z) ++ rest
      → Reads dat (b'N' ∷ how) z true
  too_few :
      {h k : ℕ} {how : Text}
      → width_of h ≡ some k
      → length dat < k
      → Reads dat (h ∷ how) (pos 0) true
  no_format : {h : ℕ} {how : Text} → width_of h ≡ none → Reads dat (h ∷ how) (pos 0) false
  nothing : Reads dat [] (pos 0) false

char_value-Reads :
    (how : Text) (dat : List ℕ)
    → AllBytes dat
    → Reads dat (b'c' ∷ how) (char_value dat).0 (char_value dat).1
char_value-Reads how [] b = too_few refl (omega arith)
char_value-Reads how (a ∷ dat) b = elim (Bool-cases (ltb 127 a)) [
  | inl e ↦
      let same : a ≡ 2 ^ 8 - suc (256 - a - 1) = ground (arith, e, b 0) in
      rw e
        (signed_byte (negsuc (256 - a - 1)) dat (ground (arith, e, b 0)) (ap (λ x. x ∷ dat) same))
  | inr e ↦ rw e (signed_byte (pos a) dat (ground (arith, e)) refl)
]

byte_value-Reads :
    (how : Text) (dat : List ℕ) → Reads dat (b'C' ∷ how) (byte_value dat).0 (byte_value dat).1
byte_value-Reads how [] = too_few refl (omega arith)
byte_value-Reads how (a ∷ dat) = unsigned_byte a dat refl

short_value-Reads :
    (how : Text) (dat : List ℕ)
    → AllBytes dat
    → Reads dat (b'n' ∷ how) (short_value dat).0 (short_value dat).1
short_value-Reads how [] b = too_few refl (omega arith)
short_value-Reads how (x ∷ []) b = too_few refl (omega arith)
short_value-Reads how (x ∷ y ∷ dat) b =
    let n = x * 2 ^ 8 + y in
    let high : x ≡ n / 2 ^ 8 = omega (arith, b 0, b 1) in
    let low : y ≡ n % 2 ^ 8 = omega (arith, b 0, b 1) in
    short n dat (omega (arith, b 0, b 1)) (cc (high, low))

-- Four bytes are those of the number that they make, and of it as a signed one.
big_endian_lem :
    (x y z t : ℕ)
    → x < 256
    → y < 256
    → z < 256
    → t < 256
    → big_endian (x * 2 ^ 24 + y * 2 ^ 16 + z * 2 ^ 8 + t) ≡ x ∷ y ∷ z ∷ t ∷ []
big_endian_lem x y z t a b c d =
    let n = x * 2 ^ 24 + y * 2 ^ 16 + z * 2 ^ 8 + t in
    let e1 : n / 2 ^ 24 ≡ x = omega arith in
    let e2 : n / 2 ^ 16 % 2 ^ 8 ≡ y = omega arith in
    let e3 : n / 2 ^ 8 % 2 ^ 8 ≡ z = omega arith in
    let e4 : n % 2 ^ 8 ≡ t = omega arith in cc (e1, e2, e3, e4)

signed-IsSigned : (n : ℕ) → n < 2 ^ 32 → IsSigned 31 (signed 32 n) × (twos 32 (signed 32 n) ≡ n)
signed-IsSigned n l = elim (Bool-cases (ltb n (2 ^ 31))) [
  | inl e ↦ rw e (ground (arith, e), refl)
  | inr e ↦ rw e (ground (arith, e), ground (arith, e))
]

long_value-Reads :
    (how : Text) (dat : List ℕ)
    → AllBytes dat
    → Reads dat (b'N' ∷ how) (long_value dat).0 (long_value dat).1
long_value-Reads how [] b = too_few refl (omega arith)
long_value-Reads how (x ∷ []) b = too_few refl (omega arith)
long_value-Reads how (x ∷ y ∷ []) b = too_few refl (omega arith)
long_value-Reads how (x ∷ y ∷ z ∷ []) b = too_few refl (omega arith)
long_value-Reads how (x ∷ y ∷ z ∷ t ∷ dat) b =
    let n = x * 2 ^ 24 + y * 2 ^ 16 + z * 2 ^ 8 + t in
    let small : n < 2 ^ 32 = omega (arith, b 0, b 1, b 2, b 3) in
    let (fits, same) = signed-IsSigned n small in
    let bytes : big_endian (twos 32 (signed 32 n)) ≡ x ∷ y ∷ z ∷ t ∷ [] =
      ap big_endian same ∙ big_endian_lem x y z t (b 0) (b 1) (b 2) (b 3) in
    long (signed 32 n) dat fits (ap (λ l. l ++ dat) (sym bytes))

Reads-of :
    (g h : ℕ) (how : Text) (dat : List ℕ) (r : ℤ × Bool)
    → (h == g) ≡ true
    → Reads dat (g ∷ how) r.0 r.1
    → Reads dat (h ∷ how) r.0 r.1
Reads-of g h how dat r e m = subst (λ x. Reads dat (x ∷ how) r.0 r.1) (sym ((==_iff h g).0 e)) m

pub value_of-Reads :
    (how : Text) (dat : List ℕ)
    → AllBytes dat
    → Reads dat how (value_of how dat).0 (value_of how dat).1
unfolding value_of
value_of-Reads [] dat b = nothing
value_of-Reads (h ∷ how) dat b = elim (Bool-cases (h == b'c')) [
  | inl e ↦ rw e (Reads-of b'c' h how dat (char_value dat) e (char_value-Reads how dat b))
  | inr e ↦ rw e (elim (Bool-cases (h == b'C')) [
    | inl f ↦ rw f (Reads-of b'C' h how dat (byte_value dat) f (byte_value-Reads how dat))
    | inr f ↦ rw f (elim (Bool-cases (h == b'n')) [
      | inl g ↦ rw g (Reads-of b'n' h how dat (short_value dat) g (short_value-Reads how dat b))
      | inr g ↦ rw g (elim (Bool-cases (h == b'N')) [
        | inl k ↦ rw k (Reads-of b'N' h how dat (long_value dat) k (long_value-Reads how dat b))
        | inr k ↦ rw k (no_format (rw (e, f, g, k) refl))
      ])
    ])
  ])
]
