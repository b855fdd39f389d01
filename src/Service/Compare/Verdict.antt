-- ===== src/Service/Compare/Verdict.antt =====
-- Which test decides.
use argus.Prelude.{
  zero, suc, ◌≤◌, ◌<◌, ◌≡◌, ◌≢◌, refl, inl, inr, none, some, [], arith, ◌==◌, if◌then◌else◌,
  Bool-cases, Option-cases,
}
use native.Mathlib.Decide.{dec_lt}
use argus.Text.{Text}
use argus.Status.{Status, unknown, clear, critical}
use argus.Service.Compare.{
  Floats, Formats, Limits, failing_test, compare_from, as_text, as_number, test_and_compare,
  verdict,
}

module _ {F : Type 0} (fl : Floats F) (fm : Formats F) (cf : Limits F) where
  -- No severity but clear from above `lo` to `hi` has a failing test.
  pub record Passes (lo hi : Status) (val : Text) (fval : F) : Type 0 where
    pub none_fails :
        (s : Status) → lo < s → s ≤ hi → s ≢ clear → failing_test fl fm cf s val fval ≡ none

  -- `sev` is the worst severity up to `top` that has a failing test; the tests without a severity
  -- give the configured one.
  pub data Decided (top : Status) (val : Text) (fval : F) : Status × Text → Type 0 where
    fails :
        (sev st : Status) (why : Text)
        → sev ≢ clear
        → sev ≤ top
        → failing_test fl fm cf sev val fval ≡ some why
        → Passes sev top val fval
        → st ≡ (if sev == unknown then cf.severity else sev)
        → Decided top val fval (st, why)
    passes :
        Passes 0 top val fval
        → failing_test fl fm cf unknown val fval ≡ none
        → Decided top val fval (clear, [])

  Passes-suc :
      (lo hi : Status) (val : Text) (fval : F)
      → (suc hi ≢ clear → failing_test fl fm cf (suc hi) val fval ≡ none)
      → Passes lo hi val fval
      → Passes lo (suc hi) val fval
  Passes-suc lo hi val fval n p = record {
    none_fails = λ s l m c. elim (dec_lt hi s) [
      | yes a ↦ let e : s ≡ suc hi = omega arith in rw e (n (rw e at c))
      | no a ↦ p.none_fails s l (omega arith) c
    ];
  }

  Decided-suc :
      (top : Status) (val : Text) (fval : F) {r : Status × Text}
      → (suc top ≢ clear → failing_test fl fm cf (suc top) val fval ≡ none)
      → Decided top val fval r
      → Decided (suc top) val fval r
  Decided-suc top val fval n (fails sev st why c l e p g) =
      fails sev st why c (omega arith) e (Passes-suc sev top val fval n p) g
  Decided-suc top val fval n (passes p e) = passes (Passes-suc 0 top val fval n p) e

  compare_from-Decided :
      (top : Status) (val : Text) (fval : F)
      → Decided top val fval (compare_from fl fm cf top val fval)
  unfolding compare_from verdict
  compare_from-Decided zero val fval =
      elim (Option-cases (failing_test fl fm cf unknown val fval)) [
        | inl n ↦ rw n (passes (record { none_fails = λ s l m c. absurd (omega arith) }) n)
        | inr (why, e) ↦ rw e (
            fails unknown cf.severity why (omega arith) (omega arith) e
              (record { none_fails = λ s l m c. absurd (omega arith) }) refl)
      ]
  compare_from-Decided (suc n) val fval = elim (Bool-cases (suc n == clear)) [
    | inl c ↦
        rw c (Decided-suc n val fval (λ d. absurd (ground arith)) (compare_from-Decided n val fval))
    | inr c ↦ rw c (elim (Option-cases (failing_test fl fm cf (suc n) val fval)) [
      | inl e ↦ rw e (Decided-suc n val fval (λ d. e) (compare_from-Decided n val fval))
      | inr (why, e) ↦ rw e (
          fails (suc n) (suc n) why (ground arith) (omega arith) e
            (record { none_fails = λ s l m d. absurd (omega arith) }) (ground arith))
    ])
  ]

  -- The status is the worst severity of which a test fails, with the reason of its first such test;
  -- a failing test without a severity gives the configured one, after all others. Where
  -- no test fails, the status is clear, with no reason.
  pub test_and_compare-Decided :
      (val : Text) (fval : F) (valtype : Text)
      → Decided critical
          (as_text fl fm val fval valtype)
          (as_number fl fm val fval valtype)
          (test_and_compare fl fm cf val fval valtype)
  unfolding test_and_compare
  test_and_compare-Decided val fval valtype = compare_from-Decided critical _ _
