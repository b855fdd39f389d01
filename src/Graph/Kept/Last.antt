-- ===== src/Graph/Kept/Last.antt =====
-- A graph's file is its last samples: Add and Get of argus/graph/graphd/graphd.go.
use argus.Prelude.{
  ℕ, ◌+◌, ◌-◌, ◌*◌, ◌/◌, ◌%◌, ◌≤◌, ◌<◌, ◌≡◌, refl, ap, ◌∙◌, inl, inr, some, List, [], ◌∷◌, arith,
  ltb, length, Bool-cases,
}
use native.Mathlib.Nat.{mod-eq_of_lt, div-eq_of_lt, add-div_right}
use argus.Graph.{Singles, GraphData, SampleData, hdr_size, samp_size}
use argus.Graph.Get.{oldest, reader_at, samples_from, get_samples, ceil_div, width_or, records}
use argus.Graph.Cbuf.{seek, new_cbuf_reader}
use argus.Graph.Cbuf.Circle.{IsAt, Within}
use argus.Graph.Kept.{IsFaithful, slot}
use argus.Graph.Kept.Adding.{Keeps}
use argus.Graph.Kept.Back.{dec, exports, records-Stands}

ceil_self : (n : ℕ) → 1 ≤ n → ceil_div n (width_or 0 n) ≡ 1
ceil_self n h =
    let e : n + (n - 1) ≡ n - 1 + n = omega arith in
    let low : (n - 1) / n ≡ 0 = div-eq_of_lt (omega arith) in
    ap (λ i. i / n) e ∙ add-div_right (n - 1) h ∙ ap (λ i. i + 1) low

module _ {F : Type 0} (sg : Singles F) where
  reader_at-IsAt :
      (g : GraphData F) (kept : List (SampleData F))
      → Keeps sg g kept
      → IsAt
          (oldest g.h.samp * samp_size)
          (reader_at sg hdr_size samp_size g.h.samp.nmax (oldest g.h.samp) g.file)
  unfolding reader_at seek new_cbuf_reader
  reader_at-IsAt g kept v =
      let l : oldest g.h.samp < g.h.samp.nmax = ground (arith, v.in_range) in
      record {
        inside = omega (arith, l);
        placed = refl;
        buffered = refl;
        next =
            let e : oldest g.h.samp * samp_size + 0 ≡ oldest g.h.samp * samp_size = omega arith in
            ap (λ i. i % (g.h.samp.nmax * samp_size)) e ∙ mod-eq_of_lt (omega (arith, l));
      }

  reader_at-Within :
      (g : GraphData F) (kept : List (SampleData F))
      → Keeps sg g kept
      → 1 ≤ length kept
      → Within
          (oldest g.h.samp * samp_size)
          (samp_size * length kept)
          (reader_at sg hdr_size samp_size g.h.samp.nmax (oldest g.h.samp) g.file)
  unfolding reader_at seek new_cbuf_reader
  reader_at-Within g kept v h = elim (Bool-cases (ltb g.h.samp.count g.h.samp.nmax)) [
    | inl e ↦ rw e (inr (omega (arith, v.reach h), omega (arith, v.bounded)))
    | inr e ↦ rw e (inl (ground (arith, v.reach h, v.counted, v.bounded, e)))
  ]

  pub get_samples-Keeps :
      (now : ℕ) (g : GraphData F) (kept : List (SampleData F))
      → IsFaithful sg
      → Keeps sg g kept
      → get_samples sg now 0 0 g ≡ some (exports sg kept)
  unfolding get_samples samples_from records reader_at seek new_cbuf_reader
  get_samples-Keeps now g [] f v = rw v.counted refl
  get_samples-Keeps now g (s ∷ kept) f v =
      let hs = g.h.samp in
      let r = reader_at sg hdr_size samp_size hs.nmax (oldest hs) g.file in
      let every : ceil_div hs.count (width_or 0 hs.count) ≡ 1 =
        ceil_self hs.count (omega (arith, v.counted)) in
      let l : oldest hs < hs.nmax = ground (arith, v.in_range) in
      let low : slot hs.nmax (oldest hs) ≡ oldest hs = ground (arith, l) in
      let place : (oldest hs * samp_size) % (hs.nmax * samp_size)
          ≡ samp_size * slot hs.nmax (oldest hs) =
        mod-eq_of_lt (omega (arith, l)) ∙ omega (arith, low) in
      let all =
        records-Stands sg hs.nmax (s ∷ kept) 0 (ceil_div hs.count (width_or 0 hs.count))
          (oldest hs * samp_size) (oldest hs) r f every (reader_at-IsAt g (s ∷ kept) v)
          (reader_at-Within g (s ∷ kept) v (omega arith)) refl refl (omega (arith, l, v.bounded))
          place v.stand in
      ap (λ n. records sg samp_size (dec sg) 0 (ceil_div hs.count (width_or 0 hs.count)) n 0 r)
        v.counted
      ∙ all
