-- ===== src/Service/Compare.antt =====
-- The tests of a value against the configured limits: argus/service/testing.go, testAndCompare.
-- Floating point numbers are a type `F` with what the source does with them.
pub mod Verdict
use argus.Prelude.{
  ℕ, zero, suc, ◌≤◌, ◌<◌, Bool, true, false, ◌&&◌, not, Option, none, some, List, [], ◌∷◌, ◌==◌,
  if◌then◌else◌,
}
use argus.Prelude.Int.{ℤ}
use argus.Text.{Text, codes, text_eq}
use argus.Status.{Status, unknown, clear, critical}

-- float64
pub record Floats (F : Type 0) : Type 0 where
  pub of_int : ℤ → F
  pub add : F → F → F
  pub sub : F → F → F
  pub mul : F → F → F
  pub div : F → F → F
  pub abs : F → F
  pub lt : F → F → Bool
  pub eq : F → F → Bool
  pub is_nan : F → Bool

-- The packages that read and print numbers and match regular expressions: fmt.Sscan, which leaves
-- the number as it is where it fails, fmt.Sprintf("%f"), and regexp.MatchString, which may fail.
pub record Formats (F : Type 0) : Type 0 where
  pub scan : Text → Option F
  pub print : F → Text
  pub match_string : Text → Text → Option Bool

-- The arrays of Conf by severity, NaN or empty where not set, and what Hwab.Deviation answers for a
-- value where there is a prediction.
pub record Limits (F : Type 0) : Type 0 where
  pub severity : Status
  pub expect : Status → Text
  pub nexpect : Status → Text
  pub minvalue : Status → F
  pub maxvalue : Status → F
  pub eqvalue : Status → F
  pub nevalue : Status → F
  pub maxdeviation : Status → F
  pub deviation : Option (F → F × Bool)

module _ {F : Type 0} (fl : Floats F) (fm : Formats F) where
  unfoldable pub scan_into : Option F → F → F
  scan_into none fval = fval
  scan_into (some x) fval = x

  unfoldable pub matched : Option Bool → Bool
  matched none = false
  matched (some m) = m

  -- testMatch
  unfoldable pub test_match : Text → Text → Bool
  unfolding matched
  test_match regex val = matched (fm.match_string regex val)

  unfoldable pub deviates : Option (F → F × Bool) → F → F → Bool
  deviates none limit fval = false
  deviates (some deviation) limit fval =
      not (fl.is_nan limit) && (deviation fval).1 && fl.lt limit (deviation fval).0

  -- The tests of one severity: why the first that fails does.
  unfoldable pub failing_test : Limits F → Status → Text → F → Option Text
  unfolding test_match deviates
  failing_test cf sev val fval =
      if not (text_eq (cf.expect sev) []) && not (test_match (cf.expect sev) val)
      then some (codes "TEST did not match expected regex")
      else if not (text_eq (cf.nexpect sev) []) && test_match (cf.nexpect sev) val
      then some (codes "TEST did matched unexpected regex")
      else if not (fl.is_nan (cf.minvalue sev)) && fl.lt fval (cf.minvalue sev)
      then some (codes "TEST less than min")
      else if not (fl.is_nan (cf.maxvalue sev)) && fl.lt (cf.maxvalue sev) fval
      then some (codes "TEST more than max")
      else if not (fl.is_nan (cf.eqvalue sev)) && not (fl.eq fval (cf.eqvalue sev))
      then some (codes "TEST not equal")
      else if not (fl.is_nan (cf.nevalue sev)) && fl.eq fval (cf.nevalue sev)
      then some (codes "TEST equal")
      else if deviates cf.deviation (cf.maxdeviation sev) fval
      then some (codes "TEST outside of predicted range")
      else none

  unfoldable pub verdict : Status → Option Text → Status × Text → Status × Text
  verdict rsev none rest = rest
  verdict rsev (some why) rest = (rsev, why)

  -- The loop over the severities from `sev` down.
  unfoldable pub compare_from : Limits F → Status → Text → F → Status × Text
  unfolding verdict
  compare_from cf zero val fval = verdict cf.severity (failing_test cf unknown val fval) (clear, [])
  compare_from cf (suc n) val fval =
      let rest = compare_from cf n val fval in
      if suc n == clear then rest else verdict (suc n) (failing_test cf (suc n) val fval) rest

  -- The value as the tests see it: printed, or read where it is a text.
  unfoldable pub as_text : Text → F → Text → Text
  as_text val fval valtype = if text_eq valtype [] then fm.print fval else val

  unfoldable pub as_number : Text → F → Text → F
  unfolding scan_into
  as_number val fval valtype = if text_eq valtype [] then fval else scan_into (fm.scan val) fval

  -- testAndCompare
  unfoldable pub test_and_compare : Limits F → Text → F → Text → Status × Text
  unfolding compare_from as_text as_number
  test_and_compare cf val fval valtype =
      compare_from cf critical (as_text val fval valtype) (as_number val fval valtype)
