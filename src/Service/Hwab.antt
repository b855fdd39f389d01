-- ===== src/Service/Hwab.antt =====
-- The prediction of a service's values, of Holt and Winters: argus/service/hwab.go. Values are
-- sampled into windows of five minutes, and a period of windows goes through the buckets.
pub mod Windows
pub mod Smooth
pub mod Keeps
pub mod Shaped
use argus.Prelude.{
  ℕ, zero, suc, ◌+◌, ◌-◌, ◌*◌, ◌/◌, ◌%◌, Bool, true, false, ◌&&◌, ◌||◌, not, Option, none, some,
  List, [], ◌∷◌, ltb, leb, ◌==◌, if◌then◌else◌, length, get_or, set, take, replicate, min, max,
}
use argus.Prelude.Int.{ℤ, pos, negsuc}
use argus.Service.Compare.{Floats}
use argus.Service.Calc.{of_nat}

-- float64, sqrt and exp of the package math, the conversion to float32, and EPSILOND.
pub record Reals (F : Type 0) : Type 0 where
  pub fl : Floats F
  pub sqrt : F → F
  pub exp : F → F
  pub narrow : F → F
  pub epsilond : F

-- HwabConf
pub record HwabConf (F : Type 0) : Type 0 where
  pub alpha : F
  pub beta : F
  pub gamma : F
  pub period : ℕ

-- HWAB
pub record Hwab (F : Type 0) : Type 0 where
  pub cf : HwabConf F
  pub pbuckets : ℕ
  pub buckets : ℕ
  pub created : ℕ
  pub count : ℕ
  pub lap : ℕ
  pub cstart : ℕ
  pub ctotal : F
  pub ctota2 : F
  pub ccount : ℕ
  pub alpha : F
  pub beta : F
  pub gamma : F
  pub yn : F
  pub dn : F
  pub cn : F
  pub a : F
  pub b : F
  pub c : List F
  pub d : List F

abbrev pub twin : ℕ
twin = 300

abbrev pub period_min : ℕ
period_min = 2

abbrev pub period_max : ℕ
period_max = 30 * 24 * 3600

-- idx of i - l, where `l` is at most i and the number of buckets together
unfoldable pub idx_less : ℕ → ℕ → ℕ → ℕ
idx_less buckets i l = (i + buckets - l) % buckets

-- The number below 0
abbrev pub opposite : ℕ → ℤ
opposite zero = pos 0
opposite (suc n) = negsuc n

-- A place of C and D; a negative index is a panic.
abbrev pub at_place : {B : Type 0} → ℤ → (ℕ → B) → Option B
at_place (pos i) f = some (f i)
at_place (negsuc n) f = none

abbrev pub is_above : ℤ → ℕ → Bool
is_above (pos i) n = ltb n i
is_above (negsuc i) n = false

-- idx
unfoldable pub idx : ℕ → ℕ → ℕ
idx buckets i = (i + buckets) % buckets

module _ {F : Type 0} where
  -- idxOfT. For a time before `created` both the division and the remainder go towards 0, so that
  -- the index is negative where it is by more than the buckets.
  unfoldable pub idx_of_t : ℕ → Hwab F → ℤ
  unfolding idx idx_less
  idx_of_t now h =
      let back = (h.created - now) / twin in
      if leb h.created now
      then pos (idx h.buckets ((now - h.created) / twin))
      else if leb back h.buckets
      then pos (idx_less h.buckets 0 back)
      else opposite ((back - h.buckets) % h.buckets)

module _ {F : Type 0} (re : Reals F) where
  abbrev pub float : ℕ → F
  float n = of_nat re.fl n

  abbrev pub nought : F
  nought = float 0

  abbrev pub add2 : F → F → F
  add2 x y = re.narrow (re.fl.add x y)

  abbrev pub sub2 : F → F → F
  sub2 x y = re.narrow (re.fl.sub x y)

  abbrev pub mul2 : F → F → F
  mul2 x y = re.narrow (re.fl.mul x y)

  abbrev pub div2 : F → F → F
  div2 x y = re.narrow (re.fl.div x y)

  abbrev pub is_zero : F → Bool
  is_zero x = re.fl.eq x nought

  -- make
  unfoldable pub make : Hwab F → Hwab F
  make h =
      let period = min (max h.cf.period period_min) period_max in
      let buckets = period / twin in
      let conf = h.cf in
      record h {
        cf = record conf { period = period };
        buckets = buckets;
        alpha = div2 h.cf.alpha (float buckets);
        beta = div2 h.cf.beta (float buckets);
        gamma = h.cf.gamma;
        c = replicate buckets nought;
        d = replicate buckets nought;
      }

  -- HwabConfig, with the configuration as it is read
  unfoldable pub hwab_config : HwabConf F → ℕ → Hwab F
  unfolding make
  hwab_config cf now = make (record {
    cf = cf;
    pbuckets = 0;
    buckets = 0;
    created = now / twin * twin;
    count = 0;
    lap = 0;
    cstart = now / twin * twin;
    ctotal = nought;
    ctota2 = nought;
    ccount = 0;
    alpha = nought;
    beta = nought;
    gamma = nought;
    yn = nought;
    dn = nought;
    cn = nought;
    a = nought;
    b = nought;
    c = [];
    d = [];
  })

  unfoldable pub clear_from : ℕ → ℕ → List F → List F
  clear_from zero i l = l
  clear_from (suc n) i l = clear_from n (suc i) (set l i nought)

  -- Reset
  unfoldable pub reset : ℕ → Hwab F → Hwab F
  unfolding clear_from
  reset now h = record h {
    created = now / twin * twin;
    lap = 0;
    count = 0;
    c = clear_from h.buckets 0 h.c;
    d = clear_from h.buckets 0 h.d;
  }

  -- predict
  unfoldable pub predict : ℕ → Hwab F → Option (Hwab F)
  unfolding idx_of_t
  predict now h = at_place (idx_of_t now h) λ si.
      let cn = get_or h.c si nought in
      record h { cn = cn; dn = get_or h.d si nought; yn = add2 (add2 h.a h.b) cn }

  -- Init, on what is read of a file
  unfoldable pub init : ℕ → Hwab F → Option (Hwab F)
  unfolding reset predict
  init now h =
      let h1 = if not (h.pbuckets == 0) && not (h.pbuckets == h.buckets) then reset now h else h in
      let h2 =
        if h1.lap == 0 && is_above (idx_of_t now h1) (h1.count + 5) then reset now h1 else h1 in
      let h3 = record h2 { pbuckets = h2.buckets } in
      predict now (
        if ltb h3.buckets (length h3.c)
        then record h3 { c = take h3.buckets h3.c; d = take h3.buckets h3.d }
        else h3)

  -- Deviation, and whether there is one
  unfoldable pub deviation : F → Hwab F → F × Bool
  deviation val h =
      if is_zero h.dn then (nought, false) else (div2 (sub2 h.yn (re.narrow val)) h.dn, true)
