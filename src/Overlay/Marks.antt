-- ===== src/Overlay/Marks.antt =====
-- The price rules of src/services/intraday_overlay.py.
use ngv_trader.Prelude.{
  ℕ, ◌+◌, Bool, not, Option, none, some, List, [], ◌∷◌, Text, text, text_mem, upper, strip,
  or_empty, ltb, FloatOps, RawValue, to_float, max_float, if◌then◌else◌,
}

abbrev continuous_sec_types : List Text
continuous_sec_types = text "FUT" ∷ text "FOP" ∷ []

-- `CONTINUOUS_MARK_MAX_AGE`, one hour in seconds.
abbrev pub continuous_mark_max_age : ℕ
continuous_mark_max_age = 3600

-- `(value or "").strip().upper()`
abbrev pub tidy : Option Text → Text
tidy value = upper (strip (or_empty value))

unfoldable pub is_continuous : Option Text → Bool
is_continuous sec_type = text_mem (tidy sec_type) continuous_sec_types

abbrev option_sec_types : List Text
option_sec_types = text "OPT" ∷ text "FOP" ∷ []

unfoldable pub is_option : Option Text → Bool
is_option sec_type = text_mem (tidy sec_type) option_sec_types

abbrev call_rights : List Text
call_rights = text "C" ∷ text "CALL" ∷ []

abbrev put_rights : List Text
put_rights = text "P" ∷ text "PUT" ∷ []

-- The quote columns that a merge reads.
pub record LatestQuote (F : Type 0) : Type 0 where
  pub mark : Option F
  pub market_ts : Option ℕ

pub record LatestOptionMetrics (F : Type 0) : Type 0 where
  pub iv : Option F
  pub delta : Option F
  pub gamma : Option F
  pub theta : Option F
  pub vega : Option F
  pub und_price : Option F

-- The option fields of a view.
pub record MetricFields (F : Type 0) : Type 0 where
  pub iv : Option F
  pub delta : Option F
  pub gamma : Option F
  pub theta : Option F
  pub vega : Option F
  pub und_price : Option F
  pub intrinsic_value : Option F
  pub extrinsic_value : Option F

module _ {F : Type 0} where
  -- `mark_if_fresh` at the instant `now`: `now - market_ts` is negative for a mark of the future,
  -- and such a mark is not too old.
  unfoldable pub mark_if_fresh : ℕ → Option F → Option ℕ → Option Text → Option F
  mark_if_fresh now none market_ts sec_type = none
  mark_if_fresh now (some mark) none sec_type = some mark
  mark_if_fresh now (some mark) (some market_ts) sec_type =
      if not (is_continuous sec_type)
      then some mark
      else if ltb (market_ts + continuous_mark_max_age) now
      then none
      else some mark

  abbrev pub no_metrics : MetricFields F
  no_metrics = record {
    iv = none;
    delta = none;
    gamma = none;
    theta = none;
    vega = none;
    und_price = none;
    intrinsic_value = none;
    extrinsic_value = none;
  }

module _ {F : Type 0} ⦃fl : FloatOps F⦄ where
  abbrev positive_or_one : F → F
  positive_or_one parsed = if fl.less fl.zero_value parsed then parsed else fl.one_value

  unfoldable pub parse_multiplier : RawValue F → F
  parse_multiplier value = elim (to_float value) [
    | none ↦ fl.one_value
    | some parsed ↦ positive_or_one parsed
  ]

  unfoldable pub compute_unrealized : F → F → Option F → F → Option F
  compute_unrealized qty avg_cost none multiplier = none
  compute_unrealized qty avg_cost (some mark) multiplier =
      some (fl.minus (fl.times (fl.times qty mark) multiplier) (fl.times qty avg_cost))

  abbrev magnifier_or_one : F → F
  magnifier_or_one mag = if fl.at_most mag fl.zero_value then fl.one_value else mag

  unfoldable pub normalize_live_mark : Option F → RawValue F → Option F
  normalize_live_mark none magnifier = none
  normalize_live_mark (some mark) magnifier = some (
      fl.over mark (elim (to_float magnifier) [
        | none ↦ magnifier_or_one fl.one_value
        | some mag ↦ magnifier_or_one mag
      ]))

  unfoldable pub normalize_settled_avg_cost : Option F → RawValue F → Option F
  unfolding parse_multiplier
  normalize_settled_avg_cost none multiplier = none
  normalize_settled_avg_cost (some avg_cost) multiplier =
      some (fl.times avg_cost (parse_multiplier multiplier))

  -- Moneyness by the right; an unknown right has none.
  abbrev intrinsic_of : Text → F → F → Option F
  intrinsic_of right strike und_price =
      if text_mem right call_rights
      then some (max_float fl.zero_value (fl.minus und_price strike))
      else if text_mem right put_rights
      then some (max_float fl.zero_value (fl.minus strike und_price))
      else none

  abbrev intrinsic_if_known : Text → Option F → Option F → Option F
  intrinsic_if_known right (some strike) (some und_price) = intrinsic_of right strike und_price
  intrinsic_if_known right (some strike) none = none
  intrinsic_if_known right none und_price = none

  abbrev extrinsic_of : Option F → Option F → Option F
  extrinsic_of (some mark) (some intrinsic) =
      some (max_float fl.zero_value (fl.minus mark intrinsic))
  extrinsic_of (some mark) none = none
  extrinsic_of none intrinsic = none

  unfoldable pub option_value_split :
      Option F → Option Text → Option F → Option F → Option F × Option F
  option_value_split mark right strike und_price =
      let intrinsic = intrinsic_if_known (tidy right) strike und_price in
      (intrinsic, extrinsic_of mark intrinsic)

  -- The fields when there is no metrics row: no underlying price, so no split.
  abbrev fields_of :
      Option F → Option Text → Option F → Option (LatestOptionMetrics F) → MetricFields F
  fields_of mark right strike none =
      let (intrinsic, extrinsic) = option_value_split mark right strike none in
      record (no_metrics) { intrinsic_value = intrinsic; extrinsic_value = extrinsic }
  fields_of mark right strike (some metric) =
      let (intrinsic, extrinsic) = option_value_split mark right strike metric.und_price in
      record {
        iv = metric.iv;
        delta = metric.delta;
        gamma = metric.gamma;
        theta = metric.theta;
        vega = metric.vega;
        und_price = metric.und_price;
        intrinsic_value = intrinsic;
        extrinsic_value = extrinsic;
      }

  unfoldable pub option_metric_fields :
      Option Text
      → Option Text
      → Option F
      → Option F
      → Option (LatestOptionMetrics F)
      → MetricFields F
  unfolding option_value_split
  option_metric_fields sec_type right strike mark metric =
      if is_option sec_type then fields_of mark right strike metric else no_metrics
