-- ===== src/Service/Check.antt =====
-- A value that a monitor has read: argus/service/testing.go, getValue and CheckValue.
use argus.Prelude.{
  ℕ, ◌-◌, Bool, true, false, ◌&&◌, ◌||◌, not, Option, none, some, List, [], ◌∷◌, ◌++◌,
  if◌then◌else◌,
}
use argus.Text.{Text, codes, text_eq}
use argus.Monel.Transition.{now_nano}
use argus.Service.{System, set_result, fail_now}
use argus.Service.Compare.{Floats, Formats, Limits, test_and_compare, as_text, as_number, scan_into}
use argus.Service.Calc.{Mask, Calc, of_nat, calculate}

-- What an expression gives: a number, that a service it reads is not ready, or an error.
pub data Answer (F : Type 0) : Type 0 where
  value : F → Answer F
  not_ready : Answer F
  invalid : Answer F

-- The configuration of a service's values, each step as its function where it is set: Pluck, JPath,
-- XPath, Unpack, Expr; and whether there is a prediction to add to.
pub record Reading (F : Type 0) : Type 0 where
  pub pluck : Option (Text → Text)
  pub jpath : Option (Text → Text)
  pub xpath : Option (Text → Text)
  pub unpack : Option (Text → F)
  pub expr : Option (F → Answer F)
  pub hwab : Bool
  pub mask : Mask
  pub scale : F
  pub alpha : F

-- The values that getValue passes on, `valtype` empty for a number.
pub record Value (F : Type 0) : Type 0 where
  pub val : Text
  pub fval : F
  pub valtype : Text

pub data Got (F : Type 0) : Type 0 where
  skip : Got F
  invalid_expr : Got F
  got : Value F → Got F

-- A service with its values: what is recorded for the prediction and for the graph.
pub record Checked (F : Type 0) : Type 0 where
  pub sys : System
  pub calc : Calc F
  pub predicted : List F
  pub graphed : List F

abbrev pub any_mask : Mask → Bool
any_mask m = m.one || m.elapsed || m.rate || m.delta || m.ave || m.jitter || m.bits

abbrev pub is_set {ℓ} : {A : Type ℓ} → Option A → Bool
is_set none = false
is_set (some a) = true

module _ {F : Type 0} (fl : Floats F) (fm : Formats F) where
  unfoldable pub picked : Option (Text → Text) → Value F → Value F
  picked none v = v
  picked (some f) v = record v { val = f v.val; valtype = codes "string" }

  -- JPath and XPath read texts only.
  unfoldable pub picked_text : Option (Text → Text) → Value F → Value F
  unfolding picked
  picked_text f v = if text_eq v.valtype [] then v else picked f v

  unfoldable pub unpacked : Option (Text → F) → Value F → Value F
  unpacked none v = v
  unpacked (some f) v = record v { fval = f v.val; valtype = [] }

  -- A text that is calculated with becomes a number.
  unfoldable pub numbered : Reading F → Value F → Value F
  numbered cf v =
      if (not (fl.eq cf.scale (of_nat fl 0)) || any_mask cf.mask || is_set cf.expr || cf.hwab)
        && not (text_eq v.valtype [])
      then record v { fval = scan_into fl fm (fm.scan v.val) v.fval; valtype = [] }
      else v

  unfoldable pub answered : Value F → Option (Answer F) → Got F
  answered v none = got v
  answered v (some (value x)) = got (record v { fval = x })
  answered v (some not_ready) = skip
  answered v (some invalid) = invalid_expr

  unfoldable pub run_expr : Option (F → Answer F) → F → Option (Answer F)
  run_expr none x = none
  run_expr (some f) x = some (f x)

  unfoldable pub with_expr : Reading F → Value F → Option F → Got F
  unfolding answered run_expr
  with_expr cf v none = skip
  with_expr cf v (some x) = answered (record v { fval = x }) (run_expr cf.expr x)

  -- getValue. Where an expression is not valid the source calls FailNow before it returns.
  unfoldable pub get_value : Reading F → ℕ → ℕ → ℕ → Text → Text → Calc F → Calc F × Got F
  unfolding picked picked_text unpacked numbered with_expr
  get_value cf frequency elapsed now val valtype c =
      let v : Value F = record { val = val; fval = of_nat fl 0; valtype = valtype } in
      let read =
        unpacked cf.unpack (picked_text cf.xpath (picked_text cf.jpath (picked cf.pluck v))) in
      let n = numbered cf read in
      let (c', x) = calculate fl cf.mask cf.scale cf.alpha frequency elapsed now n.fval c in
      (c', with_expr cf n x)

  unfoldable pub handle : Reading F → Limits F → Got F → Checked F → Checked F
  handle cf limits skip s = s
  handle cf limits invalid_expr s = record s { sys = fail_now (codes "invalid expr") s.sys }
  handle cf limits (got v) s =
      let (status, reason) = test_and_compare fl fm limits v.val v.fval v.valtype in
      let val = as_text fl fm v.val v.fval v.valtype in
      let fval = as_number fl fm v.val v.fval v.valtype in
      let ready = record (s.sys) { svc = record (s.sys.svc) { ready = true } } in
      record s {
        sys = set_result status val reason ready;
        predicted = if cf.hwab then s.predicted ++ v.fval ∷ [] else s.predicted;
        graphed = s.graphed ++ fval ∷ [];
      }

  -- CheckValue
  unfoldable pub check_value : Reading F → Limits F → Text → Text → Checked F → Checked F
  unfolding handle
  check_value cf limits val valtype s =
      let now = now_nano s.sys.world in
      let elapsed = now - s.sys.svc.started in
      let (c, g) = get_value cf s.sys.svc.cf.frequency elapsed now val valtype s.calc in
      handle cf limits g (record s {
        sys = record (s.sys) { svc = record (s.sys.svc) { elapsed = elapsed } };
        calc = c;
      })
