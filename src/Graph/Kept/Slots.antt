-- ===== src/Graph/Kept/Slots.antt =====
-- Samples in their slots, through what is written: graphData.add of argus/graph/graphd/graphd.go.
use argus.Prelude.{
  ℕ, suc, ◌+◌, ◌*◌, ◌≤◌, ◌<◌, ◌≡◌, ap, ◌∙◌, ◌⊎◌, inl, List, [], ◌∷◌, ◌++◌, arith, length,
}
use argus.Graph.{Singles, SampleData, hdr_size, samp_size, encode_sample}
use argus.Graph.Raw.{Bytes, bytes_from, write_at, bytes_from-write_at_out}
use argus.Graph.Kept.{Fits, slot, place_of, Stands, no_more, one_more}

module _ {F : Type 0} (sg : Singles F) (nmax : ℕ) where
  -- A write to another slot
  other_slot :
      (idx q : ℕ)
      → idx < nmax
      → (suc q ≤ idx) ⊎ ((idx < q) × (suc q ≤ idx + nmax))
      → (place_of nmax q + samp_size ≤ hdr_size + samp_size * idx)
        ⊎ (hdr_size + samp_size * idx + samp_size ≤ place_of nmax q)
  other_slot idx q i e = ground arith

  pub Stands-write_slot :
      (file bs : Bytes) (idx q : ℕ) (ss : List (SampleData F))
      → length bs ≡ samp_size
      → idx < nmax
      → (q + length ss ≤ idx) ⊎ ((idx < q) × (q + length ss ≤ idx + nmax))
      → Stands sg file nmax q ss
      → Stands sg (write_at (hdr_size + samp_size * idx) bs file) nmax q ss
  Stands-write_slot file bs idx q [] l i e no_more = no_more
  Stands-write_slot file bs idx q (s ∷ ss) l i e (one_more f b t) =
      one_more f
        (bytes_from-write_at_out _ bs file _ samp_size
            (ground (arith, l, other_slot idx q i (ground arith)))
          ∙ b)
        (Stands-write_slot file bs idx (suc q) ss l i (ground arith) t)

  -- A write past the section
  pub Stands-write_past :
      (file bs : Bytes) (p q : ℕ) (ss : List (SampleData F))
      → hdr_size + samp_size * nmax ≤ p
      → q + length ss ≤ nmax + nmax
      → Stands sg file nmax q ss
      → Stands sg (write_at p bs file) nmax q ss
  Stands-write_past file bs p q [] h l no_more = no_more
  Stands-write_past file bs p q (s ∷ ss) h l (one_more f b t) =
      one_more f (bytes_from-write_at_out p bs file _ samp_size (inl (ground arith)) ∙ b)
        (Stands-write_past file bs p (suc q) ss h (omega arith) t)

  pub Stands-append :
      (file : Bytes) (q : ℕ) (ss : List (SampleData F)) (s : SampleData F)
      → Fits s
      → bytes_from file (place_of nmax (q + length ss)) samp_size ≡ encode_sample sg s
      → Stands sg file nmax q ss
      → Stands sg file nmax q (ss ++ s ∷ [])
  Stands-append file q [] s f b no_more =
      let e : q ≡ q + 0 = omega arith in
      one_more f (ap (λ i. bytes_from file (place_of nmax i) samp_size) e ∙ b) no_more
  Stands-append file q (r ∷ ss) s f b (one_more g c t) =
      let e : suc q + length ss ≡ q + suc (length ss) = omega arith in
      one_more g c (
        Stands-append file (suc q) ss s f
          (ap (λ i. bytes_from file (place_of nmax i) samp_size) e ∙ b) t)

  -- Once round is the beginning.
  pub Stands-round :
      (file : Bytes) (q q' : ℕ) (ss : List (SampleData F))
      → q ≡ q' + nmax
      → q' + length ss ≤ nmax
      → Stands sg file nmax q ss
      → Stands sg file nmax q' ss
  Stands-round file q q' [] e l no_more = no_more
  Stands-round file q q' (s ∷ ss) e l (one_more f b t) =
      let same : slot nmax q' ≡ slot nmax q = ground arith in
      one_more f (ap (λ i. bytes_from file (hdr_size + samp_size * i) samp_size) same ∙ b)
        (Stands-round file (suc q) (suc q') ss (omega arith) (omega arith) t)
