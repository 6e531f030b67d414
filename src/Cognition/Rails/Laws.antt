-- ===== src/Cognition/Rails/Laws.antt =====
-- What passes the safety rails.
use text.Mathlib.TextEquality.{eq_iff}
use neurodegen.Common.{String, ◌≡◌, ◌≢◌, ◌⊎◌, true, false, some, List, [], arith}
use neurodegen.Common.Number.{Number}
use neurodegen.Types.{hold}
use neurodegen.Cognition.{QuantOutput, strong}
use neurodegen.Cognition.Dissent.{DissentResult}
use neurodegen.Cognition.Rails.{
  ParsedRisk, RiskOutput, has_symbol, token_rail, enforce_safety_rails,
}

module _ {W : Type 0} ⦃num : Number W⦄ (min_confidence : W) (to_upper : String → String)
    (parsed : ParsedRisk W) (dissent : DissentResult W) (quant : QuantOutput)
    (symbols : List String) where
  abbrev out : RiskOutput W
  out = enforce_safety_rails min_confidence to_upper parsed dissent quant symbols

  -- An action other than a hold is the model's own, has a confidence not under the floor, no strong
  -- dissent, adequate liquidity, and the model's token, which is missing, empty or in the given list
  -- without regard to case.
  pub enforce_safety_rails-acts :
      out.action ≢ hold
      → (out.action ≡ parsed.action)
        × (num.lt parsed.confidence min_confidence ≡ false)
        × (dissent.dissent_severity ≢ strong)
        × (quant.liquidity_adequate ≡ true)
        × (out.target_token ≡ parsed.target_token)
        × ((token : String)
            → parsed.target_token ≡ some token
            → (token ≡ "") ⊎ (has_symbol to_upper symbols (to_upper token) ≡ true))
  unfolding enforce_safety_rails token_rail
  enforce_safety_rails-acts acts = (
    ground arith,
    ground arith,
    ground arith,
    ground arith,
    ground arith,
    λ token e. ground (arith, eq_iff token ""),
  )

  -- With a token outside the given list the answer is a hold without a token, or the model's own hold,
  -- whatever else the classifier was told.
  pub enforce_safety_rails-unlisted :
      (token : String)
      → parsed.target_token ≡ some token
      → token ≢ ""
      → has_symbol to_upper symbols (to_upper token) ≡ false
      → out.action ≡ hold
  unfolding enforce_safety_rails token_rail
  enforce_safety_rails-unlisted token e full missing = ground (arith, eq_iff token "")

  -- The model's action is kept exactly when nothing was overridden, and an override always ends in a
  -- hold.
  pub enforce_safety_rails-overrides :
      ((out.overrides ≡ []) × (out.action ≡ parsed.action))
      ⊎ ((out.overrides ≢ []) × (out.action ≡ hold) × (parsed.action ≢ hold))
  unfolding enforce_safety_rails token_rail
  enforce_safety_rails-overrides = ground arith
