-- ===== src/Service/Hwab/Keeps.antt =====
-- What a window's value keeps of a prediction: add of argus/service/hwab.go.
use argus.Prelude.{
  ℕ, zero, suc, ◌≤◌, ◌≡◌, refl, sym, ap, ◌∙◌, true, ◌&&◌, List, arith, ltb, ◌==◌, length, set,
  length-set, Bool-cases, inl, inr,
}
use argus.Service.Hwab.{Reals, Hwab, is_zero}
use argus.Service.Hwab.Smooth.{smooth_from, smooth, lower_from, normalize}
use argus.Service.Hwab.Windows.{
  bootstrap1, bootstrap2, hw, fill, interpolate_from, interpolate, check_enough, new_lap, by_lap,
  add_window, d_at, count_lap, check_lap, smooth_lap,
}

-- There are buckets, and each has its value and its deviation.
pub record IsShaped {F : Type 0} (h : Hwab F) : Type 0 where
  pub has_buckets : 1 ≤ h.buckets
  pub c_full : length h.c ≡ h.buckets
  pub d_full : length h.d ≡ h.buckets

-- What a step leaves: its buckets, their number, the window's beginning, the time of creation, and
-- the laps from the second on.
pub record Keeps {F : Type 0} (h h' : Hwab F) : Type 0 where
  pub buckets : h'.buckets ≡ h.buckets
  pub c_length : length h'.c ≡ length h.c
  pub d_length : length h'.d ≡ length h.d
  pub cstart : h'.cstart ≡ h.cstart
  pub created : h'.created ≡ h.created
  pub laps : 2 ≤ h.lap → 2 ≤ h'.lap

module _ {F : Type 0} where
  Keeps-refl : (h : Hwab F) → Keeps h h
  Keeps-refl h = record {
    buckets = refl;
    c_length = refl;
    d_length = refl;
    cstart = refl;
    created = refl;
    laps = λ l. l;
  }

  Keeps-then : (h h1 h2 : Hwab F) → Keeps h h1 → Keeps h1 h2 → Keeps h h2
  Keeps-then h h1 h2 k l = record {
    buckets = l.buckets ∙ k.buckets;
    c_length = l.c_length ∙ k.c_length;
    d_length = l.d_length ∙ k.d_length;
    cstart = l.cstart ∙ k.cstart;
    created = l.created ∙ k.created;
    laps = λ n. l.laps (k.laps n);
  }

module _ {F : Type 0} (re : Reals F) where
  by_lap-Keeps : (n : ℕ) (ave sdv : F) (si : ℕ) (h : Hwab F) → Keeps h (by_lap re n ave sdv si h)
  unfolding by_lap bootstrap1 bootstrap2 hw
  by_lap-Keeps zero ave sdv si h = record {
    buckets = refl;
    c_length = length-set h.c si _;
    d_length = length-set h.d si _;
    cstart = refl;
    created = refl;
    laps = λ l. l;
  }
  by_lap-Keeps (suc zero) ave sdv si h = record {
    buckets = refl;
    c_length = length-set h.c si _;
    d_length = length-set h.d si _;
    cstart = refl;
    created = refl;
    laps = λ l. l;
  }
  by_lap-Keeps (suc (suc n)) ave sdv si h = record {
    buckets = refl;
    c_length = length-set h.c si _;
    d_length = length-set h.d si _;
    cstart = refl;
    created = refl;
    laps = λ l. l;
  }

  fill-Keeps : (si li : ℕ) (h : Hwab F) → Keeps h (fill re si li h)
  unfolding fill
  fill-Keeps si li h = record {
    buckets = refl;
    c_length = length-set h.c si _;
    d_length = length-set h.d si _;
    cstart = refl;
    created = refl;
    laps = λ l. l;
  }

  interpolate_from-Keeps : (n si li : ℕ) (h : Hwab F) → Keeps h (interpolate_from re n si li h)
  unfolding interpolate_from
  interpolate_from-Keeps zero si li h = Keeps-refl h
  interpolate_from-Keeps (suc n) si li h = elim (Bool-cases (is_zero re (d_at re h si))) [
    | inl e ↦ rw e (
        Keeps-then h (fill re si li h) _ (fill-Keeps si li h)
          (interpolate_from-Keeps n (suc si) li (fill re si li h)))
    | inr e ↦ rw e (interpolate_from-Keeps n (suc si) si h)
  ]

  length-smooth_from :
      (n si : ℕ) (h : Hwab F)
      → (length (smooth_from re n si h).0 ≡ n) × (length (smooth_from re n si h).1 ≡ n)
  unfolding smooth_from
  length-smooth_from zero si h = (refl, refl)
  length-smooth_from (suc n) si h =
      let (c, d) = length-smooth_from n (suc si) h in (ap suc c, ap suc d)

  length-lower_from : (cm : F) (n i : ℕ) (c : List F) → length (lower_from re cm n i c) ≡ length c
  unfolding lower_from
  length-lower_from cm zero i c = refl
  length-lower_from cm (suc n) i c = length-lower_from cm n (suc i) (set c i _) ∙ length-set c i _

  smooth-Keeps : (h : Hwab F) → IsShaped h → Keeps h (smooth re h)
  unfolding smooth
  smooth-Keeps h s = record {
    buckets = refl;
    c_length = (length-smooth_from h.buckets 0 h).0 ∙ sym s.c_full;
    d_length = (length-smooth_from h.buckets 0 h).1 ∙ sym s.d_full;
    cstart = refl;
    created = refl;
    laps = λ l. l;
  }

  normalize-Keeps : (h : Hwab F) → Keeps h (normalize re h)
  unfolding normalize
  normalize-Keeps h = record {
    buckets = refl;
    c_length = length-lower_from _ h.buckets 0 h.c;
    d_length = refl;
    cstart = refl;
    created = refl;
    laps = λ l. l;
  }

  pub Keeps-IsShaped : (h h' : Hwab F) → Keeps h h' → IsShaped h → IsShaped h'
  Keeps-IsShaped h h' k s = record {
    has_buckets = omega (arith, k.buckets, s.has_buckets);
    c_full = k.c_length ∙ s.c_full ∙ sym k.buckets;
    d_full = k.d_length ∙ s.d_full ∙ sym k.buckets;
  }

  count_lap-Keeps : (si : ℕ) (h : Hwab F) → Keeps h (count_lap re si h)
  unfolding count_lap
  count_lap-Keeps si h = elim (Bool-cases (si == 0 && ltb 0 h.count)) [
    | inl e ↦ rw e record {
      buckets = refl;
      c_length = refl;
      d_length = refl;
      cstart = refl;
      created = refl;
      laps = λ l. omega arith;
    }
    | inr e ↦ rw e (Keeps-refl h)
  ]

  first_lap : (lap si : ℕ) → (lap == 1 && si == 0) ≡ true → 2 ≤ lap → 2 ≤ 0
  first_lap lap si e l = ground arith

  check_lap-Keeps : (si : ℕ) (h : Hwab F) → Keeps h (check_lap re si h)
  unfolding check_lap interpolate
  check_lap-Keeps si h = elim (Bool-cases (h.lap == 1 && si == 0)) [
    | inl e ↦ rw e (elim (Bool-cases (check_enough re h)) [
      | inl c ↦ rw c (interpolate_from-Keeps h.buckets 0 0 h)
      | inr c ↦ rw c record {
        buckets = refl;
        c_length = refl;
        d_length = refl;
        cstart = refl;
        created = refl;
        laps = first_lap h.lap si e;
      }
    ])
    | inr e ↦ rw e (Keeps-refl h)
  ]

  smooth_lap-Keeps : (si : ℕ) (h : Hwab F) → IsShaped h → Keeps h (smooth_lap re si h)
  unfolding smooth_lap
  smooth_lap-Keeps si h s = elim (Bool-cases (si == 0 && ltb 1 h.lap)) [
    | inl e ↦ rw e (Keeps-then h (smooth re h) _ (smooth-Keeps h s) (normalize-Keeps (smooth re h)))
    | inr e ↦ rw e (Keeps-refl h)
  ]

  new_lap-Keeps : (si : ℕ) (h : Hwab F) → IsShaped h → Keeps h (new_lap re si h)
  unfolding new_lap
  new_lap-Keeps si h s =
      let h1 = count_lap re si h in
      let h2 = check_lap re si h1 in
      let k = Keeps-then h h1 h2 (count_lap-Keeps si h) (check_lap-Keeps si h1) in
      Keeps-then h h2 _ k (smooth_lap-Keeps si h2 (Keeps-IsShaped h h2 k s))

  pub add_window-Keeps :
      (ave sdv : F) (si : ℕ) (h : Hwab F) → IsShaped h → Keeps h (add_window re ave sdv si h)
  unfolding add_window
  add_window-Keeps ave sdv si h s =
      let h1 = new_lap re si h in
      let k =
        Keeps-then h h1 (by_lap re h1.lap ave sdv si h1) (new_lap-Keeps si h s)
          (by_lap-Keeps h1.lap ave sdv si h1) in
      record {
        buckets = k.buckets;
        c_length = k.c_length;
        d_length = k.d_length;
        cstart = k.cstart;
        created = k.created;
        laps = k.laps;
      }
