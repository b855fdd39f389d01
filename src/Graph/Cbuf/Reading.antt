-- ===== src/Graph/Cbuf/Reading.antt =====
-- The whole of a read: argus/graph/graphd/cbufio.go, Read.
use argus.Prelude.{
  ℕ, zero, suc, ◌+◌, ◌-◌, ◌%◌, ◌≤◌, ◌<◌, ◌≡◌, refl, sym, ap, ◌∙◌, inl, inr, Bool, true, false,
  Option, some, [], ◌∷◌, ◌++◌, arith, leb, length, take, drop, Bool-cases, leb→le,
}
use mathlib.Core.List.{append_assoc}
use argus.Graph.Raw.{Bytes, byte_at}
use argus.Graph.Cbuf.{CbufReader, refill, read_from, read}
use argus.Graph.Cbuf.Circle.{circle, circle-append, IsAt, Within, SameSection}
use argus.Graph.Cbuf.Rounds.{refill-Refilled}

pub record Reads (c n : ℕ) (r : CbufReader) (done : Bytes) (o : Option (Bytes × Bool × CbufReader))
    : Type 0 where
  pub r' : CbufReader
  pub result : o ≡ some (done ++ circle r.file r.sectoff r.sectsize c n, true, r')
  pub place : IsAt (c + n) r'
  pub same : SameSection r r'

take-circle :
    (file : Bytes) (off size c m n : ℕ)
    → n ≤ m
    → take n (circle file off size c m) ≡ circle file off size c n
take-circle file off size c m zero h = refl
take-circle file off size c zero (suc n) h = absurd (omega arith)
take-circle file off size c (suc m) (suc n) h =
    ap (λ t. byte_at file (off + c % size) ∷ t)
      (take-circle file off size (suc c) m n (omega arith))

drop-circle :
    (file : Bytes) (off size c m n : ℕ)
    → n ≤ m
    → drop n (circle file off size c m) ≡ circle file off size (c + n) (m - n)
drop-circle file off size c m zero h =
    let e : c ≡ c + 0 = omega arith in
    let e' : m ≡ m - 0 = omega arith in
    ap (λ i. circle file off size i m) e ∙ ap (circle file off size (c + 0)) e'
drop-circle file off size c zero (suc n) h = absurd (omega arith)
drop-circle file off size c (suc m) (suc n) h =
    let e : suc c + n ≡ c + suc n = omega arith in
    let e' : m - n ≡ suc m - suc n = omega arith in
    drop-circle file off size (suc c) m n (omega arith)
    ∙ ap (λ i. circle file off size i (m - n)) e
    ∙ ap (circle file off size (c + suc n)) e'

length-circle : (file : Bytes) (off size c n : ℕ) → length (circle file off size c n) ≡ n
length-circle file off size c zero = refl
length-circle file off size c (suc n) = ap suc (length-circle file off size (suc c) n)

-- Where what is buffered is enough.
read_buffered :
    (k : ℕ) (done : Bytes) (c n : ℕ) (r : CbufReader)
    → IsAt c r
    → leb n (length r.buf) ≡ true
    → Reads c n r done (read_from (suc k) done n r)
unfolding read_from
read_buffered k done c n r v e =
    let le = leb→le n (length r.buf) e in
    let l = length r.buf in
    let rest = drop-circle r.file r.sectoff r.sectsize c l n le in
    let left : drop n r.buf ≡ circle r.file r.sectoff r.sectsize (c + n) (l - n) =
      ap (drop n) v.buffered ∙ rest in
    let many : length (drop n r.buf) ≡ l - n =
      ap length left ∙ length-circle r.file r.sectoff r.sectsize (c + n) (l - n) in
    record {
      r' = record r { buf = drop n r.buf };
      result =
          rw (read_from, e)
            (ap (λ t. some (done ++ t, true, record r { buf = drop n r.buf }))
              (ap (take n) v.buffered ∙ take-circle r.file r.sectoff r.sectsize c l n le));
      place = record {
        inside = v.inside;
        placed = v.placed;
        buffered = left ∙ ap (circle r.file r.sectoff r.sectsize (c + n)) (sym many);
        next =
            let sum : c + n + length (drop n r.buf) ≡ c + l = omega (arith, many, le) in
            ap (λ i. i % r.sectsize) sum ∙ v.next;
      };
      same = (refl, refl, refl);
    }

read_more :
    (k : ℕ) (done : Bytes) (n : ℕ) (r r' : CbufReader)
    → leb n (length r.buf) ≡ false
    → refill (record r { buf = [] }) ≡ some r'
    → read_from (suc k) done n r ≡ read_from k (done ++ r.buf) (n - length r.buf) r'
unfolding read_from
read_more k done n r r' e f = rw (read_from, e, f) refl

pub circle_same :
    (r r' : CbufReader) (c n : ℕ)
    → SameSection r r'
    → circle r'.file r'.sectoff r'.sectsize c n ≡ circle r.file r.sectoff r.sectsize c n
circle_same r r' c n (f, o, s) = rw (f, o, s) refl

Reads-then :
    (c n l : ℕ) (r r' : CbufReader) (done : Bytes) (o : Option (Bytes × Bool × CbufReader))
    → r.buf ≡ circle r.file r.sectoff r.sectsize c l
    → l ≤ n
    → SameSection r r'
    → Reads (c + l) (n - l) r' (done ++ r.buf) o
    → Reads c n r done o
Reads-then c n l r r' done o b le same q =
    let sum : l + (n - l) ≡ n = omega (arith, le) in
    let place : c + l + (n - l) ≡ c + n = omega (arith, le) in
    let whole : r.buf ++ circle r'.file r'.sectoff r'.sectsize (c + l) (n - l)
        ≡ circle r.file r.sectoff r.sectsize c n =
      ap (λ t. r.buf ++ t) (circle_same r r' (c + l) (n - l) same)
      ∙ ap (λ t. t ++ circle r.file r.sectoff r.sectsize (c + l) (n - l)) b
      ∙ sym (circle-append r.file r.sectoff r.sectsize c l (n - l))
      ∙ ap (circle r.file r.sectoff r.sectsize c) sum in
    let (f, s, t) = same in
    let (f', s', t') = q.same in
    record {
      r' = q.r';
      result =
          q.result
          ∙ ap (λ t. some (t, true, q.r')) (append_assoc done r.buf _ ∙ ap (λ t. done ++ t) whole);
      place = rw⁻¹ place q.place;
      same = (f' ∙ f, s' ∙ s, t' ∙ t);
    }

pub Within-after :
    (c n l : ℕ) (r r' : CbufReader)
    → l ≤ n
    → SameSection r r'
    → Within c n r
    → Within (c + l) (n - l) r'
Within-after c n l r r' le (f, s, t) (inl w) = inl (rw (f, s, t) w)
Within-after c n l r r' le (f, s, t) (inr (w, h)) =
    inr (rw (f, s) (omega (arith, le, w)), rw t (omega (arith, le, h)))

pub Within-less : (c n m : ℕ) (r : CbufReader) → m ≤ n → Within c n r → Within c m r
Within-less c n m r l (inl w) = inl w
Within-less c n m r l (inr (w, h)) = inr (omega (arith, l, w), omega (arith, l, h))

read_from-Reads :
    (j : ℕ) (done : Bytes) (c n : ℕ) (r : CbufReader)
    → IsAt c r
    → Within c n r
    → n ≤ length r.buf + j
    → Reads c n r done (read_from (suc j) done n r)
read_from-Reads zero done c n r v w h = read_buffered zero done c n r v (ground arith)
read_from-Reads (suc j) done c n r v w h = elim (Bool-cases (leb n (length r.buf))) [
  | inl e ↦ read_buffered (suc j) done c n r v e
  | inr e ↦
      let l = length r.buf in
      let more : l < n = ground arith in
      let r0 = record r { buf = [] } in
      let (r', f, at', some', same) =
        refill-Refilled (c + l) (n - l) r0 v.inside v.placed v.next (omega (arith, more))
          (Within-after c n l r r0 (omega (arith, more)) (refl, refl, refl) w) in
      rw (read_more (suc j) done n r r' e f) (
        Reads-then c n l r r' done _ v.buffered (omega (arith, more)) same (
          read_from-Reads j (done ++ r.buf) (c + l) (n - l) r' at'
            (Within-after c n l r r' (omega (arith, more)) same w) (omega (arith, some', more, h))))
]

-- A read from a place of a section, all of which is in the file, or as much as is read without
-- going round, gives the bytes of the section from that place on, round and round, and leaves the
-- reader at the place after them.
pub read-circle : (c n : ℕ) (r : CbufReader) → IsAt c r → Within c n r → Reads c n r [] (read n r)
unfolding read
read-circle c n r v w = read_from-Reads n [] c n r v w (omega arith)
