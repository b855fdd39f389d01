-- ===== src/Service/Calc.antt =====
-- What is calculated from a raw value: argus/service/testing.go, calcMask, rateCalc and the part of
-- getValue from the scale on.
pub mod Rate
pub mod Words
use argus.Prelude.{
  ℕ, zero, suc, Bool, true, false, ◌&&◌, ◌||◌, not, Option, none, some, List, [], ◌∷◌, map, ◌==◌,
  if◌then◌else◌, ◌*◌,
}
use argus.Prelude.Int.{ℤ, pos, ◌-ℤ◌}
use argus.Text.{Text, codes, text_eq, to_lower, fields}
use argus.Monel.Stats.{secsnano}
use argus.Service.Compare.{Floats}

-- The bits CALC_ONE to CALC_BITS of a mask.
pub record Mask : Type 0 where
  pub one : Bool
  pub elapsed : Bool
  pub rate : Bool
  pub delta : Bool
  pub ave : Bool
  pub jitter : Bool
  pub bits : Bool

abbrev pub no_mask : Mask
no_mask = record {
  one = false;
  elapsed = false;
  rate = false;
  delta = false;
  ave = false;
  jitter = false;
  bits = false;
}

-- The switch of calcMask.
unfoldable pub add_word : Text → Mask → Mask
add_word c m =
    if text_eq c (codes "elapsed")
    then record m { elapsed = true }
    else if text_eq c (codes "rate")
    then record m { rate = true }
    else if text_eq c (codes "delta")
    then record m { delta = true }
    else if text_eq c (codes "ave")
    then record m { ave = true }
    else if text_eq c (codes "JITTER")
    then record m { jitter = true }
    else if text_eq c (codes "bits")
    then record m { bits = true }
    else if text_eq c (codes "one")
    then record m { one = true }
    else m

unfoldable pub add_words : List Text → Mask → Mask
add_words [] m = m
add_words (c ∷ cs) m = add_words cs (add_word c m)

-- strings.Replace(_, "-", " ", -1)
abbrev pub dash_to_space : ℕ → ℕ
dash_to_space c = if c == b'-' then b' ' else c

-- calcMask
unfoldable pub calc_mask : Text → Mask
unfolding add_words
calc_mask calc = add_words (fields (map dash_to_space (to_lower calc))) no_mask

-- calc
pub record Calc (F : Type 0) : Type 0 where
  pub lastv : F
  pub lastdv : F
  pub lastt : ℕ
  pub lastta : ℕ
  pub ave : F

module _ {F : Type 0} (fl : Floats F) where
  abbrev pub of_nat : ℕ → F
  of_nat n = fl.of_int (pos n)

  -- float64(now-then) / 1e9
  abbrev pub seconds : ℕ → ℕ → F
  seconds now before = fl.div (fl.of_int (pos now -ℤ pos before)) (of_nat secsnano)

  -- The difference of rateCalc, with its counter that restarts or wraps around.
  unfoldable pub difference : F → F → Option F
  difference fval lastv =
      if fl.lt fval lastv
      then (if fl.lt lastv (of_nat 0x7fffffff)
          then none
          else some (fl.add (fl.sub (of_nat 0xffffffff) lastv) (of_nat 1)))
      else some (fl.sub fval lastv)

  -- rateCalc from the test of the spike on, which stands after Lastdv is set.
  unfoldable pub rate_of : Mask → F → F → Calc F → Calc F × Option F
  rate_of m dt dv c =
      let c' = record c { lastdv = dv } in
      if not (fl.eq c'.lastdv (of_nat 0)) && fl.lt (fl.mul (of_nat 100) c'.lastdv) dv
      then (c', none)
      else (c', some (if m.rate then fl.div dv dt else dv))

  unfoldable pub rate_from : Mask → F → Option F → Calc F → Calc F × Option F
  unfolding rate_of
  rate_from m dt none c = (c, none)
  rate_from m dt (some dv) c = rate_of m dt dv c

  -- rateCalc; `none` is the source's false.
  unfoldable pub rate_calc : Mask → ℕ → F → Calc F → Calc F × Option F
  unfolding difference rate_from
  rate_calc m now fval c =
      let dt = seconds now c.lastt in
      if c.lastt == 0
      then (record c { lastv = fval; lastt = now }, none)
      else if fl.lt dt (of_nat 1)
      then (c, none)
      else rate_from m dt (difference fval c.lastv) (record c { lastv = fval; lastt = now })

  -- ResetRateCalc
  unfoldable pub reset_rate_calc : Calc F → Calc F
  reset_rate_calc c = record c { lastt = 0; lastv = of_nat 0 }

  -- The average and the jitter of getValue.
  unfoldable pub average : Mask → F → ℕ → ℕ → F → Calc F → Calc F × F
  average m alpha frequency now fval c =
      let dt = seconds now c.lastta in
      let pave =
        if c.lastta == 0 || fl.lt (fl.mul (fl.mul (of_nat frequency) alpha) (of_nat 3)) dt
        then fval
        else c.ave in
      let mean = fl.div (fl.add (fl.mul alpha pave) fval) (fl.add alpha (of_nat 1)) in
      (record c { ave = mean; lastta = now }, if m.jitter then fl.abs (fl.sub pave mean) else mean)

  unfoldable pub averaged : Mask → F → ℕ → ℕ → F → Calc F → Calc F × F
  unfolding average
  averaged m alpha frequency now fval c =
      if m.ave || m.jitter then average m alpha frequency now fval c else (c, fval)

  unfoldable pub finish : Mask → F → ℕ → ℕ → Calc F × Option F → Calc F × Option F
  unfolding averaged
  finish m alpha frequency now (c, none) = (c, none)
  finish m alpha frequency now (c, some fval) =
      let (c', x) = averaged m alpha frequency now fval c in
      (c', some (if m.bits then fl.mul x (of_nat 8) else x))

  -- getValue from the scale to the bits; `none` is the source's skip.
  unfoldable pub calculate : Mask → F → F → ℕ → ℕ → ℕ → F → Calc F → Calc F × Option F
  unfolding finish
  calculate m scale alpha frequency elapsed now fval c =
      let scaled = if fl.eq scale (of_nat 0) then fval else fl.div fval scale in
      let one = if m.one then of_nat 1 else scaled in
      let timed = if m.elapsed then fl.div (of_nat elapsed) (of_nat secsnano) else one in
      finish m alpha frequency now
        (if m.rate || m.delta then rate_calc m now timed c else (c, some timed))
