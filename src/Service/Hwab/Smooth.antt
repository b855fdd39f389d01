-- ===== src/Service/Hwab/Smooth.antt =====
-- Smoothing and normalising of the buckets: smooth and normalize of argus/service/hwab.go.
use argus.Prelude.{ℕ, zero, suc, ◌+◌, ◌-◌, ◌*◌, ◌/◌, List, [], ◌∷◌, if◌then◌else◌, get_or, set, max}
use argus.Service.Hwab.{Reals, Hwab, idx_less, float, nought, add2, sub2, div2, is_zero}

-- The running totals of smooth.
pub record Totals (F : Type 0) : Type 0 where
  pub ctot : F
  pub dtot : F
  pub wtot : F

abbrev pub distance : ℕ → ℕ → ℕ
distance i j = (i - j) + (j - i)

module _ {F : Type 0} (re : Reals F) where
  abbrev pub no_totals : Totals F
  no_totals = record { ctot = nought re; dtot = nought re; wtot = nought re }

  abbrev pub wsize : ℕ → ℕ
  wsize buckets = max (buckets / 20) 2

  -- -2 times the square of the standard deviation, a hundredth of the buckets
  abbrev pub sdvk : ℕ → F
  sdvk buckets =
      let sdev = re.fl.div (float re buckets) (float re 100) in
      re.fl.mul (re.fl.mul (re.fl.sub (nought re) sdev) sdev) (float re 2)

  -- The loop over the window around a bucket; the `k`th of its places is at k - wsize.
  unfoldable pub around : ℕ → ℕ → ℕ → Hwab F → Totals F → Totals F
  around zero k si h t = t
  around (suc n) k si h t =
      let i = distance k (wsize h.buckets) in
      let w = re.exp (re.fl.div (float re (i * i)) (sdvk h.buckets)) in
      let sj = idx_less h.buckets (si + k) (wsize h.buckets) in
      let rest = around n (suc k) si h in
      if is_zero re (get_or h.d sj (nought re))
      then rest t
      else rest (record {
        ctot = re.fl.add t.ctot (re.fl.mul w (get_or h.c sj (nought re)));
        dtot = re.fl.add t.dtot (re.fl.mul w (get_or h.d sj (nought re)));
        wtot = re.fl.add t.wtot w;
      })

  abbrev pub mean : F → F → F
  mean x wtot = if is_zero re wtot then nought re else re.narrow (re.fl.div x wtot)

  unfoldable pub smooth_from : ℕ → ℕ → Hwab F → List F × List F
  unfolding around
  smooth_from zero si h = ([], [])
  smooth_from (suc n) si h =
      let t = around (2 * wsize h.buckets + 1) 0 si h no_totals in
      let (c, d) = smooth_from n (suc si) h in (mean t.ctot t.wtot ∷ c, mean t.dtot t.wtot ∷ d)

  -- smooth
  unfoldable pub smooth : Hwab F → Hwab F
  unfolding smooth_from
  smooth h = let (c, d) = smooth_from h.buckets 0 h in record h { c = c; d = d }

  unfoldable pub total_from : F → ℕ → ℕ → List F → F
  total_from ctot zero i c = ctot
  total_from ctot (suc n) i c = total_from (add2 re ctot (get_or c i (nought re))) n (suc i) c

  unfoldable pub lower_from : F → ℕ → ℕ → List F → List F
  lower_from cm zero i c = c
  lower_from cm (suc n) i c =
      lower_from cm n (suc i) (set c i (sub2 re (get_or c i (nought re)) cm))

  -- normalize
  unfoldable pub normalize : Hwab F → Hwab F
  unfolding total_from lower_from
  normalize h =
      let cm = div2 re (total_from (nought re) h.buckets 0 h.c) (float re h.buckets) in
      record h { c = lower_from cm h.buckets 0 h.c; a = add2 re h.a cm }
