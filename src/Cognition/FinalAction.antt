-- ===== src/Cognition/FinalAction.antt =====
-- `deriveFinalAction` of src/lib/services/cognition/sessionGraphBuilder.ts: the recommendation that a
-- session ends in. The explanation's text, which is only shown, is the case that it is written for.
pub mod Laws
use text.Mathlib.Text.{◌==◌ as str_eq}
use neurodegen.Common.{String, Bool, true, false, not, ◌&&◌, Option, none, some, if◌then◌else◌}
use neurodegen.Common.Number.{Number}
use neurodegen.Types.{
  ActionType, hold, is_hold, is_close, ActionRecommendation, RiskLevel, conservative, moderate,
  aggressive,
}
use neurodegen.Allowlist.{Table, address_of}
use neurodegen.Cognition.{
  RegimeLabel, quiet, active, momentum, volatile, QuantOutput, DissentSeverity,
}
use neurodegen.Cognition.Dissent.{DissentResult}
use neurodegen.Cognition.Rails
use neurodegen.Cognition.Rails.{RiskOutput, is_strong}

-- src/config/risk.ts and src/config/execution.ts
pub record ActionConfig (W : Type 0) : Type 0 where
  pub agent_base_position_size_usd : W
  pub default_tp_percentage : W
  pub default_sl_percentage : W

pub record ActionInputs (W : Type 0) : Type 0 where
  pub regime : RegimeLabel
  pub risk_level : RiskLevel
  pub quant : QuantOutput
  pub dissent : DissentResult W
  pub risk : RiskOutput W
  pub token_addresses : Table
  pub to_upper : String → String

pub data Explanation : Type 0 where
  collapsed : ActionType → Explanation
  disagreed illiquid no_setup closed_one : Explanation
  opened_token : Option String → Explanation

module _ {W : Type 0} ⦃num : Number W⦄ where
  unfoldable pub regime_position_multiplier : RegimeLabel → W
  regime_position_multiplier quiet = num.hundredths 0
  regime_position_multiplier active = num.hundredths 50
  regime_position_multiplier momentum = num.hundredths 100
  regime_position_multiplier volatile = num.hundredths 10

  unfoldable pub risk_level_multiplier : RiskLevel → W
  risk_level_multiplier conservative = num.hundredths 50
  risk_level_multiplier aggressive = num.hundredths 150
  risk_level_multiplier moderate = num.hundredths 100

module _ {W : Type 0} ⦃num : Number W⦄ (cfg : ActionConfig W) (i : ActionInputs W) where
  unfoldable pub raw_size : W
  raw_size =
      num.mul
        (num.mul (num.mul cfg.agent_base_position_size_usd (regime_position_multiplier i.regime))
          i.dissent.position_size_modifier)
        (risk_level_multiplier i.risk_level)

  -- `0.01` is a hundredth
  pub size_collapsed_to_zero : Bool
  size_collapsed_to_zero =
      not (is_hold i.risk.action)
      && (not (is_close i.risk.action) && num.le raw_size (num.hundredths 1))

  pub effective_action : ActionType
  effective_action = if size_collapsed_to_zero then hold else i.risk.action

  -- `symbol ? table[symbol.toUpperCase()] ?? null : null`
  address_for : Option String → Option String
  address_for none = none
  address_for (some symbol) =
      if str_eq symbol "" then none else address_of (i.to_upper symbol) i.token_addresses

  pub derive_final_action : ActionRecommendation W
  derive_final_action =
      let held = is_hold effective_action in
      let symbol = if held then none else i.risk.target_token in
      record {
        action = effective_action;
        token_symbol = symbol;
        token_address = address_for symbol;
        confidence = i.risk.confidence;
        position_size_usd = if held then none else some (num.round2 raw_size);
        tp_percentage = if held then none else some cfg.default_tp_percentage;
        sl_percentage = if held then none else some cfg.default_sl_percentage;
        rationale = i.risk.rationale;
      }

  -- `buildPlainLanguageExplanation`
  explain_hold : Bool → Explanation
  explain_hold true = collapsed i.risk.action
  explain_hold false =
      if is_strong i.dissent.dissent_severity
      then disagreed
      else if not i.quant.liquidity_adequate
      then illiquid
      else no_setup

  pub explanation : Explanation
  explanation =
      if is_hold effective_action
      then explain_hold size_collapsed_to_zero
      else if is_close effective_action
      then closed_one
      else opened_token derive_final_action.token_symbol

-- Opens the final action to a test by evaluation.
unfoldable pub opened : Unit {0}
unfolding Rails.opened regime_position_multiplier risk_level_multiplier raw_size
    size_collapsed_to_zero effective_action address_for derive_final_action
opened = tt
