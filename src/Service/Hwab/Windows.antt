-- ===== src/Service/Hwab/Windows.antt =====
-- How a window's value changes the prediction: add, bootstrap1, bootstrap2, hw and interpolate of
-- argus/service/hwab.go, and the sampling of AddAt.
use argus.Prelude.{
  ℕ, zero, suc, ◌+◌, ◌-◌, ◌/◌, Bool, ◌&&◌, ◌||◌, not, Option, none, some, ltb, ◌==◌, if◌then◌else◌,
  get_or, set,
}
use argus.Service.Hwab.{
  Reals, Hwab, twin, idx, idx_less, idx_of_t, at_place, float, nought, add2, sub2, mul2, div2,
  is_zero,
}
use argus.Service.Hwab.Smooth.{smooth, normalize}

module _ {F : Type 0} (re : Reals F) where
  abbrev pub c_at : Hwab F → ℕ → F
  c_at h i = get_or h.c i (nought re)

  abbrev pub d_at : Hwab F → ℕ → F
  d_at h i = get_or h.d i (nought re)

  -- fabs
  abbrev pub fabs : F → F
  fabs x = re.narrow (re.fl.abs x)

  abbrev pub one_minus : F → F
  one_minus x = sub2 re (float re 1) x

  -- w * x + (1 - w) * y
  abbrev pub weighed : F → F → F → F
  weighed w x y = add2 re (mul2 re w x) (mul2 re (one_minus w) y)

  abbrev pub unless_zero : F → F → F
  unless_zero x y = if is_zero re x then y else x

  -- bootstrap1: the first period fills the buckets.
  unfoldable pub bootstrap1 : F → F → ℕ → Hwab F → Hwab F
  bootstrap1 ave sdv si h =
      let sp = idx_less h.buckets si 1 in
      let fresh = is_zero re (d_at h sp) in
      let c = if fresh then ave else c_at h sp in
      let d = if fresh then sdv else d_at h sp in
      let dx = unless_zero (add2 re sdv (fabs (sub2 re ave c))) (re.narrow (re.sqrt ave)) in
      let dt = div2 re (add2 re dx (mul2 re (float re 3) d)) (float re 4) in
      record h {
        a = nought re;
        b = nought re;
        c = set h.c si ave;
        d = set h.d si dt;
        yn = sub2 re (mul2 re (float re 2) ave) c;
        cn = ave;
        dn = dt;
      }

  -- bootstrap2: the second period estimates level and trend.
  unfoldable pub bootstrap2 : F → F → ℕ → Hwab F → Hwab F
  bootstrap2 ave sdv si h =
      let dp = d_at h (idx_less h.buckets si 1) in
      let missing = is_zero re (d_at h si) in
      let d = if missing then unless_zero dp sdv else d_at h si in
      let c = if missing then sub2 re ave h.a else c_at h si in
      let n = float re h.buckets in
      let y = add2 re (mul2 re h.b n) c in
      let dx = unless_zero (add2 re (fabs (sub2 re ave y)) sdv) (re.narrow (re.sqrt ave)) in
      let beta = div2 re (float re 1) (float re (si + 1)) in
      let half = div2 re (float re 1) (float re 2) in
      let at' = weighed h.alpha (sub2 re ave c) (add2 re h.a h.b) in
      let bt = add2 re (div2 re (mul2 re beta (sub2 re ave c)) n) (mul2 re (one_minus beta) h.b) in
      let ct = sub2 re (sub2 re ave at') bt in
      let ds = set h.d si (weighed half dx d) in
      record h {
        a = at';
        b = bt;
        c = set h.c si ct;
        d = ds;
        cn = ct;
        yn = add2 re ave bt;
        dn = get_or ds (idx h.buckets (si + 1)) (nought re);
      }

  -- hw: every later period.
  unfoldable pub hw : F → F → ℕ → Hwab F → Hwab F
  hw ave sdv si h =
      let sn = idx h.buckets (si + 1) in
      let c = c_at h si in
      let y = add2 re (add2 re h.a h.b) c in
      let dx = unless_zero (add2 re (fabs (sub2 re ave y)) sdv) re.epsilond in
      let at' = weighed h.alpha (sub2 re ave c) (add2 re h.a h.b) in
      let bt = weighed h.beta (sub2 re at' h.a) h.b in
      let cs = set h.c si (weighed h.gamma (sub2 re ave at') c) in
      let ds = set h.d si (weighed h.gamma dx (d_at h si)) in
      let cn = get_or cs sn (nought re) in
      record h {
        a = at';
        b = bt;
        c = cs;
        d = ds;
        cn = cn;
        yn = add2 re (add2 re at' bt) cn;
        dn = get_or ds sn (nought re);
      }

  -- The first of `n` distances at which the test passes, or their end.
  unfoldable pub first_from : (ℕ → Bool) → ℕ → ℕ → ℕ
  first_from p zero l = l
  first_from p (suc n) l = let rest = first_from p n (suc l) in if p l then l else rest

  abbrev pub has_data : Hwab F → ℕ → Bool
  has_data h i = not (is_zero re (d_at h i))

  -- A hole is filled from the nearest buckets with data on both sides.
  unfoldable pub fill : ℕ → ℕ → Hwab F → Hwab F
  unfolding first_from
  fill si li h =
      let l = first_from (λ l. has_data h (idx_less h.buckets si l)) h.buckets 0 in
      let r = first_from (λ r. has_data h (idx h.buckets (si + r))) h.buckets 0 in
      let cl = c_at h (idx_less h.buckets si l) in
      let cr = c_at h (idx h.buckets (si + r)) in
      record h {
        c = set h.c si (
            div2 re (add2 re (mul2 re cl (float re r)) (mul2 re cr (float re l)))
              (float re (l + r)));
        d = set h.d si (add2 re (d_at h (idx h.buckets li)) (d_at h (idx h.buckets (si + r))));
      }

  unfoldable pub interpolate_from : ℕ → ℕ → ℕ → Hwab F → Hwab F
  unfolding fill
  interpolate_from zero si li h = h
  interpolate_from (suc n) si li h =
      if is_zero re (d_at h si)
      then interpolate_from n (suc si) li (fill si li h)
      else interpolate_from n (suc si) si h

  -- interpolate
  unfoldable pub interpolate : Hwab F → Hwab F
  unfolding interpolate_from
  interpolate h = interpolate_from h.buckets 0 0 h

  -- checkEnough
  unfoldable pub check_enough : Hwab F → Bool
  check_enough h = not (is_zero re (d_at h 0) || is_zero re (d_at h (h.buckets - 1)))

  -- The beginning of a period: the laps are counted, the first one is checked for enough data, and
  -- from the second on the buckets are smoothed.
  unfoldable pub count_lap : ℕ → Hwab F → Hwab F
  count_lap si h = if si == 0 && ltb 0 h.count then record h { lap = suc h.lap } else h

  unfoldable pub check_lap : ℕ → Hwab F → Hwab F
  unfolding interpolate check_enough
  check_lap si h =
      if h.lap == 1 && si == 0
      then if check_enough h then interpolate h else record h { lap = 0; count = 0 }
      else h

  unfoldable pub smooth_lap : ℕ → Hwab F → Hwab F
  unfolding smooth normalize
  smooth_lap si h = if si == 0 && ltb 1 h.lap then normalize re (smooth re h) else h

  unfoldable pub new_lap : ℕ → Hwab F → Hwab F
  unfolding count_lap check_lap smooth_lap
  new_lap si h = smooth_lap si (check_lap si (count_lap si h))

  unfoldable pub by_lap : ℕ → F → F → ℕ → Hwab F → Hwab F
  unfolding bootstrap1 bootstrap2 hw
  by_lap zero ave sdv si h = bootstrap1 ave sdv si h
  by_lap (suc zero) ave sdv si h = bootstrap2 ave sdv si h
  by_lap (suc (suc n)) ave sdv si h = hw ave sdv si h

  -- add of a value at a place
  unfoldable pub add_window : F → F → ℕ → Hwab F → Hwab F
  unfolding new_lap by_lap
  add_window ave sdv si h =
      let h1 = new_lap si h in
      let h2 = by_lap h1.lap ave sdv si h1 in record h2 { count = suc h2.count }

  -- The next window begins.
  unfoldable pub next_window : Hwab F → Hwab F
  next_window h = record h {
    cstart = h.cstart + twin;
    ccount = 0;
    ctotal = nought re;
    ctota2 = nought re;
  }

  -- The loop of AddAt over the windows that are over; `none` is a panic of `add`.
  unfoldable pub windows : ℕ → F → F → Hwab F → Option (Hwab F)
  unfolding add_window next_window
  windows zero ave sdv h = some h
  windows (suc n) ave sdv h = elim (at_place (idx_of_t h.cstart h) λ si. add_window ave sdv si h) [
    | none ↦ none
    | some h1 ↦ windows n ave sdv (next_window h1)
  ]

  -- AddAt. A window is over where cstart + TWIN <= now, so that the loop has a round for each whole
  -- window between.
  unfoldable pub add_at : F → ℕ → Hwab F → Option (Hwab F)
  unfolding windows
  add_at val now h =
      let h1 = record h {
        ccount = suc h.ccount;
        ctotal = re.fl.add h.ctotal val;
        ctota2 = re.fl.add h.ctota2 (re.fl.mul val val);
      } in
      let n = float re h1.ccount in
      let ave = re.fl.div h1.ctotal n in
      let sdv = re.sqrt (re.fl.sub (re.fl.div h1.ctota2 n) (re.fl.mul ave ave)) in
      windows ((now - h.cstart) / twin) (re.narrow ave) (re.narrow sdv) h1
