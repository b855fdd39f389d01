-- ===== src/Graph/Cbuf/Rounds.antt =====
-- A round of the reader's loop: more of the section is read, and at its end its beginning.
-- argus/graph/graphd/cbufio.go, Read.
use argus.Prelude.{
  ℕ, ◌+◌, ◌-◌, ◌%◌, ◌≤◌, ◌<◌, ◌≡◌, refl, sym, ap, ◌∙◌, inl, inr, some, arith, length, min,
}
use native.Mathlib.Nat.{mod-add-mod, mod-eq_of_lt, mod_self}
use native.Mathlib.Decide.{dec_lt}
use argus.Graph.Raw.{Bytes, bytes_from, length-bytes_from}
use argus.Graph.Cbuf.{CbufReader, seek, ask, file_read, filled, refill}
use argus.Graph.Cbuf.Circle.{
  circle, circle-bytes_from, mod_step, IsAt, Within, SameSection, ask_range,
}

abbrev got : CbufReader → ℕ
got r = min (ask r) (length r.file - r.fpos)

abbrev chunk : CbufReader → Bytes
chunk r = bytes_from r.file r.fpos (got r)

abbrev gone_on : CbufReader → CbufReader
gone_on r = filled (chunk r) (record r { fpos = r.fpos + got r })

refill_on :
    (r : CbufReader) → 1 ≤ got r → r.sectpos + got r < r.sectsize → refill r ≡ some (gone_on r)
unfolding refill file_read
refill_on r h l = ground (arith, length-bytes_from r.file r.fpos (got r))

refill_round :
    (r : CbufReader)
    → 1 ≤ got r
    → r.sectsize ≤ r.sectpos + got r
    → refill r ≡ some (seek 0 (gone_on r))
unfolding refill file_read
refill_round r h l = ground (arith, length-bytes_from r.file r.fpos (got r))

-- What is read next is of the circle, and some of it is there.
abbrev pub Refilled : ℕ → CbufReader → Type 0
Refilled c r =
    (r' : CbufReader) × (refill r ≡ some r') × IsAt c r' × (1 ≤ length r'.buf) × SameSection r r'

got_range :
    (c n : ℕ) (r : CbufReader)
    → r.sectpos < r.sectsize
    → r.fpos ≡ r.sectpos + r.sectoff
    → c % r.sectsize ≡ r.sectpos
    → 1 ≤ n
    → Within c n r
    → (1 ≤ got r) × (r.sectpos + got r ≤ r.sectsize)
got_range c n r i p e m (inl w) = omega (arith, ask_range r i)
got_range c n r i p e m (inr (w, l)) =
    let place : c % r.sectsize ≡ c = mod-eq_of_lt (omega arith) in omega (arith, ask_range r i)

chunk-circle :
    (c : ℕ) (r : CbufReader)
    → r.fpos ≡ r.sectpos + r.sectoff
    → c % r.sectsize ≡ r.sectpos
    → r.sectpos + got r ≤ r.sectsize
    → chunk r ≡ circle r.file r.sectoff r.sectsize c (length (chunk r))
chunk-circle c r p e h =
    let place : r.fpos ≡ r.sectoff + r.sectpos = omega arith in
    let n = length-bytes_from r.file r.fpos (got r) in
    ap (λ i. bytes_from r.file i (got r)) place
    ∙ sym (circle-bytes_from r.file r.sectoff r.sectsize c r.sectpos (got r) e h)
    ∙ ap (circle r.file r.sectoff r.sectsize c) (sym n)

pub around : (c s k size : ℕ) → c % size ≡ s → s + k ≡ size → (c + k) % size ≡ 0
around c s k size e h =
    sym (mod-add-mod c size k) ∙ ap (λ x. (x + k) % size) e ∙ ap (λ x. x % size) h ∙ mod_self size

pub refill-Refilled :
    (c n : ℕ) (r : CbufReader)
    → r.sectpos < r.sectsize
    → r.fpos ≡ r.sectpos + r.sectoff
    → c % r.sectsize ≡ r.sectpos
    → 1 ≤ n
    → Within c n r
    → Refilled c r
unfolding seek
refill-Refilled c n r i p e one w =
    let (l, h) = got_range c n r i p e one w in
    let m = length-bytes_from r.file r.fpos (got r) in
    let b = chunk-circle c r p e h in
    elim (dec_lt (r.sectpos + got r) r.sectsize) [
      | yes lt ↦ (
        gone_on r,
        refill_on r l lt,
        record {
          inside = omega (arith, m);
          placed = omega (arith, m);
          buffered = b;
          next =
              ap (λ k. (c + k) % r.sectsize) m
              ∙ mod_step c r.sectpos (got r) r.sectsize e lt
              ∙ ap (λ k. r.sectpos + k) (sym m);
        },
        omega (arith, m),
        (refl, refl, refl),
      )
      | no nlt ↦ (
        seek 0 (gone_on r),
        refill_round r l (omega arith),
        record {
          inside = omega arith;
          placed = refl;
          buffered = b;
          next =
              ap (λ k. (c + k) % r.sectsize) m
              ∙ around c r.sectpos (got r) r.sectsize e (omega arith);
        },
        omega (arith, m),
        (refl, refl, refl),
      )
    ]
