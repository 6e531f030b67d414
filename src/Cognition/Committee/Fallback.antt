-- ===== src/Cognition/Committee/Fallback.antt =====
-- What becomes of a session whose analysts do not answer.
use neurodegen.Common.{String, ◌≡◌, refl, List}
use neurodegen.Common.Number.{Number}
use neurodegen.Common.Calls.{err}
use neurodegen.Types.{ActionType-discrete, hold, RiskLevel}
use neurodegen.Allowlist.{Table}
use neurodegen.Cognition.{RegimeLabel, NarrativeOutput, QuantOutput}
use neurodegen.Cognition.Dissent.{DissentResult}
use neurodegen.Cognition.Rails.{ParsedRisk}
use neurodegen.Cognition.FinalAction.{ActionConfig}
use neurodegen.Cognition.FinalAction.Laws.{session_acts}
use neurodegen.Cognition.Committee.{Analysis, Settled, synthetic_quant, deliberate}

module _ {W : Type 0} ⦃num : Number W⦄ (cfg : ActionConfig W) (min_confidence : W)
    (to_upper : String → String) (symbols : List String) (addresses : Table) (regime : RegimeLabel)
    (risk_level : RiskLevel)
    (classify : Analysis (NarrativeOutput W)
      → Analysis QuantOutput
      → DissentResult W
      → ParsedRisk W) where
  -- If the quant analyst's call fails the session ends in a hold, whatever the narrative analyst and
  -- the risk classifier say.
  pub deliberate-no_quant :
      (n : Settled (NarrativeOutput W)) (reason : String)
      → (deliberate cfg min_confidence to_upper symbols addresses regime risk_level classify n
          (err reason)).action
        ≡ hold
  unfolding deliberate synthetic_quant
  deliberate-no_quant n reason = elim (ActionType-discrete _ hold) [
    | yes held ↦ held
    | no acts ↦ cc ((session_acts cfg _ min_confidence _ symbols refl acts).3)
  ]
