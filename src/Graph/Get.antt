-- ===== src/Graph/Get.antt =====
-- Reading the data of a graph: Get of argus/graph/graphd/graphd.go.
use argus.Prelude.{
  ℕ, zero, suc, ◌+◌, ◌-◌, ◌*◌, ◌/◌, ◌%◌, Bool, ◌&&◌, ◌||◌, not, Option, none, some, List, [], ◌∷◌,
  leb, ltb, ◌==◌, if◌then◌else◌,
}
use argus.Text.{Text, codes, text_eq}
use argus.Status.{Status}
use argus.Graph.{
  Singles, HeaderSect, GraphData, SampleData, SummyData, samp_size, summy_size, to_seconds,
  samp_start, hour_start, day_start, nought, decode_sample, decode_summy,
}
use argus.Graph.Raw.{Bytes}
use argus.Graph.Cbuf.{CbufReader, new_cbuf_reader, seek, read}

-- Export
pub record Export (F : Type 0) : Type 0 where
  pub time : ℕ
  pub status : Status
  pub value : F
  pub min : F
  pub max : F
  pub stdev : F
  pub exp : F
  pub delt : F

-- The remainder of a record number that may be negative, which then is none: the source would
-- seek before the section.
unfoldable pub remainder_of : ℕ → ℕ → ℕ → Option ℕ
remainder_of base ago nmax =
    if leb ago base
    then some ((base - ago) % nmax)
    else if (ago - base) % nmax == 0
    then some 0
    else none

-- Records of so many seconds since a time, a part of one being one. The time is not later than
-- now, or there are none.
abbrev pub since_then : ℕ → ℕ → ℕ → ℕ
since_then now since unit = (now - since + (unit - 1)) / unit

-- The ceiling of a quotient. By zero, which is a NaN, it is not used where there are no records.
abbrev pub ceil_div : ℕ → ℕ → ℕ
ceil_div n width = (n + (width - 1)) / width

abbrev pub width_or : ℕ → ℕ → ℕ
width_or width n = if ltb width 1 then n else width

module _ {F : Type 0} where
  abbrev pub is_full : HeaderSect F → Bool
  is_full hs = not (ltb hs.count hs.nmax)

  abbrev pub oldest : HeaderSect F → ℕ
  oldest hs = if ltb hs.count hs.nmax then 0 else hs.idx

  -- Where getSamples begins
  unfoldable pub samples_from : ℕ → ℕ → HeaderSect F → Option ℕ
  unfolding remainder_of
  samples_from now since hs =
      let minago = since_then now since 60 in
      if since == 0
      then some (oldest hs)
      else if ltb hs.count hs.nmax || leb minago hs.idx
      then some (hs.idx - minago)
      else remainder_of (hs.idx + hs.nmax) minago hs.nmax

  -- Where getSummy begins
  unfoldable pub summy_from : ℕ → ℕ → ℕ → ℕ → HeaderSect F → Option ℕ
  unfolding remainder_of
  summy_from now since spu nmax hs =
      if since == 0
      then some (oldest hs)
      else remainder_of (oldest hs + hs.nmax) (since_then now since spu) nmax

  abbrev pub records_since : ℕ → ℕ → ℕ → HeaderSect F → ℕ
  records_since now since unit hs = if since == 0 then hs.count else since_then now since unit

module _ {F : Type 0} (sg : Singles F) where
  abbrev pub export_sample : SampleData F → Export F
  export_sample s = record {
    time = to_seconds s.when;
    status = s.status;
    value = s.value;
    min = nought sg;
    max = nought sg;
    stdev = nought sg;
    exp = s.exp;
    delt = s.delt;
  }

  abbrev pub export_summy : SummyData F → Export F
  export_summy s = record {
    time = to_seconds s.when;
    status = s.status;
    value = s.ave;
    min = s.min;
    max = s.max;
    stdev = s.stdev;
    exp = s.exp;
    delt = s.delt;
  }

  -- What binary.Read leaves where the file ends.
  abbrev pub no_export : Export F
  no_export = record {
    time = 0;
    status = 0;
    value = nought sg;
    min = nought sg;
    max = nought sg;
    stdev = nought sg;
    exp = nought sg;
    delt = nought sg;
  }

  abbrev pub exported : (Bytes → Export F) → Bool → Bytes → Export F
  exported dec ok bs = if ok then dec bs else no_export

  -- Whether a record is passed over: it is not later, or not one of every so many.
  abbrev pub passes : ℕ → ℕ → ℕ → Export F → Bool
  passes since every i e = ltb 0 since && leb e.time since || not (i % every == 0)

  -- The loop over the records, which is none where a read uses up its fuel.
  unfoldable pub records :
      ℕ → (Bytes → Export F) → ℕ → ℕ → ℕ → ℕ → CbufReader → Option (List (Export F))
  records size dec since every zero i r = some []
  records size dec since every (suc n) i r = elim (read size r) [
    | none ↦ none
    | some (bs, ok, r') ↦
        let e = exported dec ok bs in
        elim (records size dec since every n (suc i) r') [
          | none ↦ none
          | some es ↦ some (if passes since every i e then es else e ∷ es)
        ]
  ]

  -- A reader at a record of a section
  unfoldable pub reader_at : ℕ → ℕ → ℕ → ℕ → Bytes → CbufReader
  unfolding new_cbuf_reader seek
  reader_at start size nmax from file =
      seek (from * size) (new_cbuf_reader file 0 start (nmax * size))

  -- getSamples
  unfoldable pub get_samples : ℕ → ℕ → ℕ → GraphData F → Option (List (Export F))
  unfolding samples_from records reader_at
  get_samples now since width g =
      let hs = g.h.samp in
      let every = ceil_div hs.count (width_or width hs.count) in
      elim (samples_from now since hs) [
        | none ↦ none
        | some from ↦
            records samp_size (λ bs. export_sample (decode_sample sg bs)) since every
              (records_since now since 60 hs) 0
              (reader_at (samp_start g) samp_size hs.nmax from g.file)
      ]

  -- getSummy
  unfoldable pub get_summy :
      HeaderSect F → ℕ → ℕ → ℕ → ℕ → ℕ → GraphData F → Option (List (Export F))
  unfolding summy_from records reader_at
  get_summy hs start now since width spu g =
      let every = ceil_div hs.count (width_or width hs.count) in
      elim (summy_from now since spu g.h.samp.nmax hs) [
        | none ↦ none
        | some from ↦
            records summy_size (λ bs. export_summy (decode_summy sg bs)) since every
              (records_since now since spu hs) 0 (reader_at start summy_size hs.nmax from g.file)
      ]

  -- Get of an open file
  unfoldable pub get : Text → ℕ → ℕ → ℕ → GraphData F → Option (List (Export F))
  unfolding get_samples get_summy
  get which now since width g =
      if text_eq which (codes "samples")
      then get_samples now since width g
      else if text_eq which (codes "hours")
      then get_summy g.h.hour (hour_start g) now since width 3600 g
      else if text_eq which (codes "days")
      then get_summy g.h.day (day_start g) now since width (24 * 3600) g
      else some []
