-- ===== src/Graph/Cbuf/Circle.antt =====
-- What the reader reads: the bytes of the section, round and round. argus/graph/graphd/cbufio.go,
-- Read.
use argus.Prelude.{
  ℕ, zero, suc, ◌+◌, ◌%◌, ◌≤◌, ◌<◌, ◌≡◌, refl, sym, ap, ◌∙◌, ◌⊎◌, [], ◌∷◌, ◌++◌, arith, length,
}
use mathlib.Core.Path.{ap₂}
use native.Mathlib.Nat.{mod-add-mod, mod-eq_of_lt}
use argus.Graph.Raw.{Bytes, byte_at, bytes_from}
use argus.Graph.Cbuf.{CbufReader, ask}

-- So many bytes of a section from a place on, round and round.
abbrev pub circle : Bytes → ℕ → ℕ → ℕ → ℕ → Bytes
circle file off size c zero = []
circle file off size c (suc n) = byte_at file (off + c % size) ∷ circle file off size (suc c) n

pub circle-append :
    (file : Bytes) (off size c m n : ℕ)
    → circle file off size c (m + n) ≡ circle file off size c m ++ circle file off size (c + m) n
circle-append file off size c zero n =
    let e : 0 + n ≡ n = omega arith in
    let e' : c ≡ c + 0 = omega arith in
    ap (circle file off size c) e ∙ ap (λ i. circle file off size i n) e'
circle-append file off size c (suc m) n =
    let e : suc m + n ≡ suc (m + n) = omega arith in
    let e' : suc c + m ≡ c + suc m = omega arith in
    ap (circle file off size c) e
    ∙ ap (λ t. byte_at file (off + c % size) ∷ t)
        (circle-append file off size (suc c) m n
          ∙ ap (λ i. circle file off size (suc c) m ++ circle file off size i n) e')

pub mod_step : (c s k size : ℕ) → c % size ≡ s → s + k < size → (c + k) % size ≡ s + k
mod_step c s k size e h = sym (mod-add-mod c size k) ∙ ap (λ x. (x + k) % size) e ∙ mod-eq_of_lt h

-- Short of the section's end it is the bytes of the file.
pub circle-bytes_from :
    (file : Bytes) (off size c s n : ℕ)
    → c % size ≡ s
    → s + n ≤ size
    → circle file off size c n ≡ bytes_from file (off + s) n
circle-bytes_from file off size c s zero e h = refl
circle-bytes_from file off size c s (suc zero) e h = ap (λ i. byte_at file (off + i) ∷ []) e
circle-bytes_from file off size c s (suc (suc n)) e h =
    let one : c + 1 ≡ suc c = omega arith in
    let next : suc c % size ≡ s + 1 =
      ap (λ i. i % size) (sym one) ∙ mod_step c s 1 size e (omega arith) in
    let place : off + (s + 1) ≡ suc (off + s) = omega arith in
    ap₂ (λ i t. byte_at file (off + i) ∷ t) e
      (circle-bytes_from file off size (suc c) (s + 1) (suc n) next (omega arith)
        ∙ ap (λ i. bytes_from file i (suc n)) place)

-- A reader whose next byte is at a place of the circle.
pub record IsAt (c : ℕ) (r : CbufReader) : Type 0 where
  pub inside : r.sectpos < r.sectsize
  pub placed : r.fpos ≡ r.sectpos + r.sectoff
  pub buffered : r.buf ≡ circle r.file r.sectoff r.sectsize c (length r.buf)
  pub next : (c + length r.buf) % r.sectsize ≡ r.sectpos

-- The section, or as much of it as is read, is in the file.
abbrev pub Within : ℕ → ℕ → CbufReader → Type 0
Within c n r =
    (r.sectoff + r.sectsize ≤ length r.file)
    ⊎ ((r.sectoff + (c + n) ≤ length r.file) × (c + n ≤ r.sectsize))

abbrev pub SameSection : CbufReader → CbufReader → Type 0
SameSection r r' = (r'.file ≡ r.file) × (r'.sectoff ≡ r.sectoff) × (r'.sectsize ≡ r.sectsize)

pub ask_range :
    (r : CbufReader) → r.sectpos < r.sectsize → (1 ≤ ask r) × (r.sectpos + ask r ≤ r.sectsize)
unfolding ask
ask_range r h = ground arith
