-- ===== src/Cognition/Rails.antt =====
-- `enforceSafetyRails` of src/lib/services/cognition/riskClassifier.ts: what the code does to the
-- classifier's parsed answer. An override's text is a constructor, and the rationale that starts with
-- the overrides is the pair of both (the code joins them and keeps 400 characters).
pub mod Laws
use text.Mathlib.Text.{◌==◌ as str_eq}
use neurodegen.Common.{
  String, Bool, true, false, not, ◌&&◌, Option, none, some, List, [], ◌∷◌, ◌++◌, map, any,
  if◌then◌else◌,
}
use neurodegen.Common.Number.{Number}
use neurodegen.Types.{ActionType, hold, is_hold}
use neurodegen.Cognition.{QuantOutput, DissentSeverity, strong}
use neurodegen.Cognition.Dissent.{DissentResult}

pub data Override (W : Type 0) : Type 0 where
  low_confidence : W → W → Override W
  strong_dissent liquidity_inadequate : Override W
  not_in_allowlist : String → Override W

-- The model's answer: `RiskClassifierOutput`.
pub record ParsedRisk (W : Type 0) : Type 0 where
  pub action : ActionType
  pub target_token : Option String
  pub confidence : W
  pub rationale : String
  pub dissent_acknowledged : Bool

-- The answer after the rails.
pub record RiskOutput (W : Type 0) : Type 0 where
  pub action : ActionType
  pub target_token : Option String
  pub confidence : W
  pub overrides : List (Override W)
  pub rationale : String
  pub dissent_acknowledged : Bool

abbrev pub is_strong : DissentSeverity → Bool
is_strong strong = true
is_strong _ = false

-- `new Set(symbols.map(upper)).has(symbol)`
pub has_symbol : (String → String) → List String → String → Bool
has_symbol to_upper symbols symbol = any (λ s. str_eq (to_upper s) symbol) symbols

-- The loop variables: the action so far, and the overrides.
abbrev Rail : Type 0 → Type 0
Rail W = ActionType × List (Override W)

-- `if (test && action !== 'hold') { overrides.push(why); action = 'hold'; }`
abbrev override_if : {W : Type 0} → Bool → Override W → Rail W → Rail W
override_if test why (action, overrides) =
    if test && not (is_hold action) then (hold, overrides ++ why ∷ []) else (action, overrides)

module _ {W : Type 0} ⦃num : Number W⦄ (min_confidence : W) (to_upper : String → String) where
  -- The last rail also clears the token; the empty text counts as no token.
  token_rail : List String → Option String → Rail W → Rail W × Option String
  token_rail symbols none rail = (rail, none)
  token_rail symbols (some token) (action, overrides) =
      if not (is_hold action)
        && (not (str_eq token "") && not (has_symbol to_upper symbols (to_upper token)))
      then ((hold, overrides ++ not_in_allowlist token ∷ []), none)
      else ((action, overrides), some token)

  pub enforce_safety_rails :
      ParsedRisk W → DissentResult W → QuantOutput → List String → RiskOutput W
  enforce_safety_rails parsed dissent quant symbols =
      let start : Rail W = (parsed.action, []) in
      let confident =
        override_if (num.lt parsed.confidence min_confidence)
          (low_confidence parsed.confidence min_confidence) start in
      let agreed = override_if (is_strong dissent.dissent_severity) strong_dissent confident in
      let liquid = override_if (not quant.liquidity_adequate) liquidity_inadequate agreed in
      let last = token_rail symbols parsed.target_token liquid in
      record {
        action = last.0.0;
        target_token = last.1;
        confidence = parsed.confidence;
        overrides = last.0.1;
        rationale = parsed.rationale;
        dissent_acknowledged =
            if dissent.dissent_detected then true else parsed.dissent_acknowledged;
      }

-- Opens the rails to a test by evaluation.
unfoldable pub opened : Unit {0}
unfolding has_symbol token_rail enforce_safety_rails
opened = tt
