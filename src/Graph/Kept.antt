-- ===== src/Graph/Kept.antt =====
-- The samples that a file keeps: graphData.add and getSamples of argus/graph/graphd/graphd.go.
pub mod Slots
pub mod Adding
pub mod Whole
pub mod Back
pub mod Last
pub mod History
use argus.Prelude.{
  ℕ, zero, suc, ◌+◌, ◌-◌, ◌*◌, ◌/◌, ◌%◌, ◌^◌, ◌≤◌, ◌<◌, ◌≡◌, refl, ap, ◌∙◌, List, [], ◌∷◌, ◌++◌,
  arith, ltb, ◌==◌, if◌then◌else◌, length,
}
use argus.Graph.{Singles, SampleData, hdr_size, samp_size, encode_sample, decode_sample}
use argus.Graph.Raw.{Bytes, bytes_from, be32, word_at, word_at-be32}

-- Every number of 32 bits is the bits of some float32, and none has two.
pub record IsFaithful {F : Type 0} (sg : Singles F) : Type 0 where
  pub small : (x : F) → sg.bits x < 2 ^ 32
  pub back : (x : F) → sg.of_bits (sg.bits x) ≡ x

-- The words of a sample fit into 32 bits.
pub record Fits {F : Type 0} (s : SampleData F) : Type 0 where
  pub when_fits : s.when < 2 ^ 32
  pub status_fits : s.status < 2 ^ 32

-- A record number, which goes round once.
abbrev pub slot : ℕ → ℕ → ℕ
slot nmax q = if ltb q nmax then q else q - nmax

abbrev pub place_of : ℕ → ℕ → ℕ
place_of nmax q = hdr_size + samp_size * slot nmax q

-- Samples stand in a file, one after the other from a record number on.
pub data Stands {F : Type 0} (sg : Singles F) (file : Bytes) (nmax : ℕ)
    : ℕ → List (SampleData F) → Type 0 where
  no_more : {q : ℕ} → Stands sg file nmax q []
  one_more :
      {q : ℕ} {s : SampleData F} {ss : List (SampleData F)}
      → Fits s
      → bytes_from file (place_of nmax q) samp_size ≡ encode_sample sg s
      → Stands sg file nmax (suc q) ss
      → Stands sg file nmax q (s ∷ ss)

module _ {F : Type 0} (sg : Singles F) where
  of_word : IsFaithful sg → (x : F) → sg.of_bits (word_at (be32 (sg.bits x)) 0) ≡ x
  of_word f x = ap sg.of_bits (word_at-be32 (sg.bits x) (f.small x)) ∙ f.back x

  -- A sample is decoded as it was encoded.
  pub decode-encode_sample :
      IsFaithful sg → (s : SampleData F) → Fits s → decode_sample sg (encode_sample sg s) ≡ s
  decode-encode_sample f s t =
      let w = word_at-be32 s.when t.when_fits in
      let u = word_at-be32 s.status t.status_fits in
      cc (w, u, of_word f s.value, of_word f s.exp, of_word f s.delt)
