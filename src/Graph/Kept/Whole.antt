-- ===== src/Graph/Kept/Whole.antt =====
-- The whole of an addition, with its summaries: graphData.add of argus/graph/graphd/graphd.go.
use argus.Prelude.{
  ℕ, suc, ◌+◌, ◌*◌, ◌^◌, ◌≤◌, ◌<◌, ◌≡◌, refl, ◌⊎◌, inl, inr, Bool, true, false, List, [], ◌∷◌,
  arith, ◌==◌, length, Bool-cases, ==_iff,
}
use argus.Status.{Status}
use argus.Graph.{
  Singles, HeaderSect, GraphData, SampleData, Calendar, hdr_size, samp_size, hour_start, day_start,
  roll, roll_hour, roll_day, roll_if, put_sample, summed, add, sample_of, create,
}
use argus.Graph.Get.{oldest}
use argus.Graph.Raw.{Bytes, write_at, length-write_at}
use argus.Graph.Kept.{Fits, no_more}
use argus.Graph.Kept.Slots.{Stands-write_past}
use argus.Graph.Kept.Adding.{Keeps, pushed, put_unfilled, put_filled}

-- A file with at most one write past the samples.
Past : ℕ → Bytes → Bytes → Type 0
Past start file file' =
    (file' ≡ file)
    ⊎ ((p : ℕ) × (bs : Bytes) × (start ≤ p) × (1 ≤ length bs) × (file' ≡ write_at p bs file))

module _ {F : Type 0} (sg : Singles F) where
  put_sample-Keeps :
      (g : GraphData F) (s : SampleData F) (kept : List (SampleData F))
      → Fits s
      → Keeps sg g kept
      → Keeps sg (put_sample sg s g) (pushed g.h.samp.nmax kept s)
  unfolding pushed
  put_sample-Keeps g s [] f v = elim (Bool-cases (0 == g.h.samp.nmax)) [
    | inl e ↦ absurd (omega (arith, (==_iff _ _).0 e, v.in_range))
    | inr e ↦ rw e (put_unfilled sg g [] s f v (omega (arith, v.in_range)))
  ]
  put_sample-Keeps g s (r ∷ kept) f v = elim (Bool-cases (suc (length kept) == g.h.samp.nmax)) [
    | inl e ↦ rw e (put_filled sg g r s kept f v ((==_iff _ _).0 e))
    | inr e ↦ rw e (put_unfilled sg g (r ∷ kept) s f v (ground (arith, v.bounded, e)))
  ]

  roll-Past :
      (lastt : ℕ) (val : F) (start : ℕ) (hs : HeaderSect F) (file : Bytes)
      → Past start file (roll sg lastt val start (hs, file)).1
  unfolding roll Past
  roll-Past lastt val start hs file = elim (Bool-cases (hs.nsamp == 0)) [
    | inl e ↦ rw e (inl refl)
    | inr e ↦ rw e (inr (_, _, omega arith, omega arith, refl))
  ]

  -- What is written past the samples leaves them.
  Keeps-Past :
      (g g' : GraphData F) (kept : List (SampleData F))
      → g'.h.samp ≡ g.h.samp
      → Past (hdr_size + samp_size * g.h.samp.nmax) g.file g'.file
      → Keeps sg g kept
      → Keeps sg g' kept
  unfolding Past
  Keeps-Past g g' kept e (inl w) v = record {
    in_range = rw e v.in_range;
    counted = rw e v.counted;
    bounded = rw e v.bounded;
    unfilled = rw e v.unfilled;
    stand = rw (e, w) v.stand;
    reach = rw w v.reach;
  }
  Keeps-Past g g' kept e (inr (p, bs, l, m, w)) v = record {
    in_range = rw e v.in_range;
    counted = rw e v.counted;
    bounded = rw e v.bounded;
    unfilled = rw e v.unfilled;
    stand =
        let far : oldest g.h.samp + length kept ≤ g.h.samp.nmax + g.h.samp.nmax =
          ground (arith, v.in_range, v.bounded) in
        rw (e, w)
          (Stands-write_past sg g.h.samp.nmax g.file bs p (oldest g.h.samp) kept l far v.stand);
    reach = λ h. rw w (omega (arith, v.reach h, length-write_at p bs g.file m));
  }

  roll_hour-Keeps :
      (val : F) (g : GraphData F) (kept : List (SampleData F))
      → Keeps sg g kept
      → Keeps sg (roll_hour sg val g) kept
  unfolding roll_hour
  roll_hour-Keeps val g kept v =
      Keeps-Past g (roll_hour sg val g) kept refl
        (roll-Past g.h.lastt val (hour_start g) g.h.hour g.file) v

  further : (a b : ℕ) (file file' : Bytes) → a ≤ b → Past b file file' → Past a file file'
  unfolding Past
  further a b file file' h (inl e) = inl e
  further a b file file' h (inr (p, bs, l, m, e)) = inr (p, bs, omega (arith, l, h), m, e)

  roll_day-Keeps :
      (val : F) (g : GraphData F) (kept : List (SampleData F))
      → Keeps sg g kept
      → Keeps sg (roll_day sg val g) kept
  unfolding roll_day
  roll_day-Keeps val g kept v =
      Keeps-Past g (roll_day sg val g) kept refl
        (further (hour_start g) (day_start g) g.file _ (omega arith)
          (roll-Past g.h.lastt val (day_start g) g.h.day g.file))
        v

  roll_if-Keeps :
      (b : Bool) (f : GraphData F → GraphData F) (g : GraphData F) (kept : List (SampleData F))
      → ((h : GraphData F) → Keeps sg h kept → Keeps sg (f h) kept)
      → Keeps sg g kept
      → Keeps sg (roll_if sg b f g) kept
  unfolding roll_if
  roll_if-Keeps true f g kept k v = k g v
  roll_if-Keeps false f g kept k v = v

  summed-Keeps :
      (when : ℕ) (status : Status) (val yn dn : F) (g : GraphData F) (kept : List (SampleData F))
      → Keeps sg g kept
      → Keeps sg (summed sg when status val yn dn g) kept
  unfolding summed Past
  summed-Keeps when status val yn dn g kept v =
      Keeps-Past g (summed sg when status val yn dn g) kept refl (inl refl) v

  -- An addition keeps the last samples, as many as the section holds, with the new one.
  pub add-Keeps :
      (cal : Calendar) (when : ℕ) (status : Status) (val yn dn : F)
      → (g : GraphData F) (kept : List (SampleData F)) → status < 2 ^ 32
      → Keeps sg g kept
      → Keeps sg
          (add sg cal when status val yn dn g)
          (pushed g.h.samp.nmax kept (sample_of sg when status val yn dn))
  unfolding add
  add-Keeps cal when status val yn dn g kept l v =
      let s = sample_of sg when status val yn dn in
      let f : Fits s = record { when_fits = omega arith; status_fits = l } in
      let k = put_sample-Keeps g s kept f v in
      summed-Keeps when status val yn dn _ _ (
        roll_if-Keeps _ (roll_hour sg val) _ _ (λ h. roll_hour-Keeps val h _)
          (roll_if-Keeps _ (roll_day sg val) _ _ (λ h. roll_day-Keeps val h _) k))

  pub create-Keeps : Keeps sg (create sg) []
  unfolding create
  create-Keeps = record {
    in_range = omega arith;
    counted = refl;
    bounded = omega arith;
    unfilled = λ h. refl;
    stand = no_more;
    reach = λ h. absurd (omega (arith, h));
  }
