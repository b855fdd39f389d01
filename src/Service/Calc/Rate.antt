-- ===== src/Service/Calc/Rate.antt =====
-- The rate of a counter: rateCalc.
use argus.Prelude.{
  ℕ, ◌≡◌, ◌≢◌, refl, inl, inr, true, false, ◌&&◌, not, some, arith, ◌==◌, if◌then◌else◌, Bool-cases,
}
use argus.Service.Compare.{Floats}
use argus.Service.Calc.{Mask, Calc, of_nat, seconds, difference, rate_of, rate_from, rate_calc}

module _ {F : Type 0} (fl : Floats F) where
  -- What is read when a sample is due: there was one before, at least a second ago.
  pub record Due (now : ℕ) (c : Calc F) : Type 0 where
    pub sampled : c.lastt ≢ 0
    pub waited : fl.lt (seconds fl now c.lastt) (of_nat fl 1) ≡ false

  Due-rate_from :
      (m : Mask) (now : ℕ) (fval : F) (c : Calc F)
      → Due now c
      → rate_calc fl m now fval c
        ≡ rate_from fl m
            (seconds fl now c.lastt)
            (difference fl fval c.lastv)
            (record c { lastv = fval; lastt = now })
  unfolding rate_calc
  Due-rate_from m now fval c d =
      let t : (c.lastt == 0) ≡ false = ground (arith, d.sampled) in rw (t, d.waited) refl

  lastdv-rate_of :
      (m : Mask) (dt dv : F) (c : Calc F)
      → fl.lt (fl.mul (of_nat fl 100) dv) dv ≡ false
      → rate_of fl m dt dv c
        ≡ (record c { lastdv = dv }, some (if m.rate then fl.div dv dt else dv))
  unfolding rate_of
  lastdv-rate_of m dt dv c h = elim (Bool-cases (fl.eq dv (of_nat fl 0))) [
    | inl z ↦ rw (h, z) refl
    | inr z ↦ rw (h, z) refl
  ]

  rate_of-any :
      (m : Mask) (dt dv : F) (b c : Calc F) → (rate_of fl m dt dv b).1 ≡ (rate_of fl m dt dv c).1
  unfolding rate_of
  rate_of-any m dt dv b c =
      elim (Bool-cases (not (fl.eq dv (of_nat fl 0)) && fl.lt (fl.mul (of_nat fl 100) dv) dv)) [
        | inl z ↦ rw z refl
        | inr z ↦ rw z refl
      ]

  -- A counter that has grown, sampled a second or more after the sample before, gives its difference
  -- or its rate, however large: where a hundred times a number that is not negative is not below
  -- it, the test for a spike never holds, since it compares the difference with itself.
  pub rate_calc-grown :
      ((x : F) → fl.lt x (of_nat fl 0) ≡ false → fl.lt (fl.mul (of_nat fl 100) x) x ≡ false)
      → (m : Mask) (now : ℕ) (fval : F) (c : Calc F) → Due now c
      → fl.lt fval c.lastv ≡ false
      → let dv = fl.sub fval c.lastv in
        fl.lt dv (of_nat fl 0) ≡ false
        → rate_calc fl m now fval c ≡ (
          record c { lastv = fval; lastt = now; lastdv = dv },
          some (if m.rate then fl.div dv (seconds fl now c.lastt) else dv),
        )
  unfolding difference rate_from
  rate_calc-grown law m now fval c d up pos_dv = rw (Due-rate_from m now fval c d) (
      rw up (
        lastdv-rate_of m (seconds fl now c.lastt) (fl.sub fval c.lastv)
          (record c { lastv = fval; lastt = now }) (law _ pos_dv)))

  -- Where a counter above the 31-bit range is below its last value, the new value does not count:
  -- any two such values give the same rate.
  pub rate_calc-wrapped :
      (m : Mask) (now : ℕ) (f g : F) (c : Calc F)
      → Due now c
      → fl.lt f c.lastv ≡ true
      → fl.lt g c.lastv ≡ true
      → fl.lt c.lastv (of_nat fl 0x7fffffff) ≡ false
      → (rate_calc fl m now f c).1 ≡ (rate_calc fl m now g c).1
  unfolding difference rate_from
  rate_calc-wrapped m now f g c d a b h = rw (Due-rate_from m now f c d) (
      rw (Due-rate_from m now g c d) (
        rw (a, b, h)
          (rate_of-any m _ _ (record c { lastv = f; lastt = now })
            (record c { lastv = g; lastt = now }))))
