-- ===== src/Graph/Kept/Adding.antt =====
-- Adding a sample keeps the last ones: graphData.add of argus/graph/graphd/graphd.go.
use argus.Prelude.{
  ℕ, suc, ◌+◌, ◌*◌, ◌%◌, ◌≤◌, ◌<◌, ◌≡◌, refl, sym, ap, ◌∙◌, inl, inr, List, [], ◌∷◌, ◌++◌, arith,
  ltb, ◌==◌, if◌then◌else◌, length, length-append, drop,
}
use native.Mathlib.Nat.{mod-eq_of_lt, mod_self}
use native.Mathlib.Decide.{dec_lt}
use argus.Graph.{
  Singles, HeaderSect, GraphData, SampleData, hdr_size, samp_size, encode_sample, step_on,
  put_sample,
}
use argus.Graph.Get.{oldest}
use argus.Graph.Raw.{Bytes, bytes_from, write_at, bytes_from-write_at, length-write_at}
use argus.Graph.Kept.{Fits, place_of, Stands, one_more}
use argus.Graph.Kept.Slots.{Stands-write_slot, Stands-append, Stands-round}

-- The last samples of a number, with one more.
unfoldable pub pushed {ℓ} : {A : Type ℓ} → ℕ → List A → A → List A
pushed n kept s = (if length kept == n then drop 1 kept else kept) ++ s ∷ []

-- A file keeps samples: they are as many as the header says, and stand from the oldest one on.
pub record Keeps {F : Type 0} (sg : Singles F) (g : GraphData F) (kept : List (SampleData F))
    : Type 0 where
  pub in_range : g.h.samp.idx < g.h.samp.nmax
  pub counted : g.h.samp.count ≡ length kept
  pub bounded : length kept ≤ g.h.samp.nmax
  pub unfilled : length kept < g.h.samp.nmax → g.h.samp.idx ≡ length kept
  pub stand : Stands sg g.file g.h.samp.nmax (oldest g.h.samp) kept
  pub reach : 1 ≤ length kept → hdr_size + samp_size * length kept ≤ length g.file

module _ {F : Type 0} (sg : Singles F) where
  Stands-at :
      {file : Bytes} {nmax q q' : ℕ} {ss : List (SampleData F)}
      → q' ≡ q
      → Stands sg file nmax q ss
      → Stands sg file nmax q' ss
  Stands-at e t = rw e t

  Stands-rest :
      {file : Bytes} {nmax q : ℕ} {s : SampleData F} {ss : List (SampleData F)}
      → Stands sg file nmax q (s ∷ ss)
      → Stands sg file nmax (suc q) ss
  Stands-rest (one_more f b t) = t

  idx-step_on :
      (hs : HeaderSect F)
      → hs.idx < hs.nmax
      → (step_on sg hs).idx ≡ (if ltb (suc hs.idx) hs.nmax then suc hs.idx else 0)
  unfolding step_on
  idx-step_on hs h = elim (dec_lt (suc hs.idx) hs.nmax) [
    | yes l ↦
        let m : (hs.idx + 1) % hs.nmax ≡ hs.idx + 1 = mod-eq_of_lt (omega (arith, l)) in
        ground (arith, m)
    | no n ↦
        let one : hs.idx + 1 ≡ hs.nmax = omega arith in
        let m : (hs.idx + 1) % hs.nmax ≡ 0 = ap (λ i. i % hs.nmax) one ∙ mod_self hs.nmax in
        ground (arith, m)
  ]

  -- Before the section is full, and once it is.
  pub put_unfilled :
      (g : GraphData F) (kept : List (SampleData F)) (s : SampleData F)
      → Fits s
      → Keeps sg g kept
      → length kept < g.h.samp.nmax
      → Keeps sg (put_sample sg s g) (kept ++ s ∷ [])
  unfolding put_sample step_on
  put_unfilled g kept s f v l =
      let hs = g.h.samp in
      let n = length kept in
      let m : length (kept ++ s ∷ []) ≡ suc n = length-append kept (s ∷ []) ∙ omega arith in
      let e = v.unfilled l in
      let at0 : oldest hs ≡ 0 = ground (arith, v.counted) in
      let at0' : oldest (step_on sg hs) ≡ oldest hs =
        ground (arith, v.counted, idx-step_on hs v.in_range) in
      let bs = encode_sample sg s in
      let p = hdr_size + samp_size * hs.idx in
      let here : place_of hs.nmax (oldest hs + n) ≡ p = ground (arith, at0, e) in
      let before =
        Stands-write_slot sg hs.nmax g.file bs hs.idx (oldest hs) kept refl v.in_range
          (inl (omega (arith, at0, e))) v.stand in
      let after =
        Stands-append sg hs.nmax (write_at p bs g.file) (oldest hs) kept s f
          (ap (λ i. bytes_from (write_at p bs g.file) i samp_size) here
            ∙ bytes_from-write_at p bs g.file)
          before in
      record {
        in_range = ground (arith, idx-step_on hs v.in_range);
        counted = ground (arith, m, v.counted);
        bounded = omega (arith, m, l);
        unfilled = λ h. ground (arith, m, e, idx-step_on hs v.in_range);
        stand = Stands-at at0' after;
        reach = λ h. omega (arith, m, e, length-write_at p bs g.file (omega arith));
      }

  pub put_filled :
      (g : GraphData F) (r s : SampleData F) (kept : List (SampleData F))
      → Fits s
      → Keeps sg g (r ∷ kept)
      → suc (length kept) ≡ g.h.samp.nmax
      → Keeps sg (put_sample sg s g) (kept ++ s ∷ [])
  unfolding put_sample step_on
  put_filled g r s kept f v l =
      let hs = g.h.samp in
      let n = length kept in
      let m : length (kept ++ s ∷ []) ≡ suc n = length-append kept (s ∷ []) ∙ omega arith in
      let at1 : oldest hs ≡ hs.idx = ground (arith, v.counted) in
      let bs = encode_sample sg s in
      let p = hdr_size + samp_size * hs.idx in
      let here : place_of hs.nmax (suc hs.idx + n) ≡ p = ground (arith, v.in_range) in
      let old : Stands sg g.file hs.nmax (suc hs.idx) kept =
        Stands-rest (Stands-at (sym at1) v.stand) in
      let before =
        Stands-write_slot sg hs.nmax g.file bs hs.idx (suc hs.idx) kept refl v.in_range
          (inr (omega arith, omega (arith, l))) old in
      let after =
        Stands-append sg hs.nmax (write_at p bs g.file) (suc hs.idx) kept s f
          (ap (λ i. bytes_from (write_at p bs g.file) i samp_size) here
            ∙ bytes_from-write_at p bs g.file)
          before in
      record {
        in_range = ground (arith, idx-step_on hs v.in_range);
        counted = ground (arith, m, v.counted);
        bounded = omega (arith, m, l);
        unfilled = λ h. absurd (omega (arith, m, l, h));
        stand = elim (dec_lt (suc hs.idx) hs.nmax) [
          | yes lt ↦
              let e : oldest (step_on sg hs) ≡ suc hs.idx =
                ground (arith, v.counted, idx-step_on hs v.in_range) in
              Stands-at e after
          | no nlt ↦
              let e : oldest (step_on sg hs) ≡ 0 =
                ground (arith, v.counted, idx-step_on hs v.in_range) in
              Stands-at e (
                Stands-round sg hs.nmax (write_at p bs g.file) (suc hs.idx) 0 (kept ++ s ∷ [])
                  (omega arith) (omega (arith, m, l)) after)
        ];
        reach = λ h.
            omega (arith, m, l, v.reach (omega arith), length-write_at p bs g.file (omega arith));
      }
