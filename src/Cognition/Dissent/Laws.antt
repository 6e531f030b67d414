-- ===== src/Cognition/Dissent/Laws.antt =====
-- The verdict of `computeDissent` on every pair of directions and every parse status.
use neurodegen.Common.{◌≡◌, ◌↔◌, ◌⊎◌, false, Option, arith}
use neurodegen.Common.Number.{Number}
use neurodegen.Cognition.{
  DirectionalLabel, bullish, bearish, DissentSeverity, none_found, mild, strong,
}
use neurodegen.Cognition.Dissent.{ParseStatus, parse_failed?, DissentResult, compute_dissent}

-- The share of the size that is left at a severity.
abbrev pub modifier : {W : Type 0} ⦃num : Number W⦄ → DissentSeverity → W
modifier ⦃num⦄ none_found = num.hundredths 100
modifier ⦃num⦄ mild = num.hundredths 50
modifier ⦃num⦄ strong = num.hundredths 0

abbrev pub AreOpposed : DirectionalLabel → DirectionalLabel → Type 0
AreOpposed n q = ((n ≡ bullish) × (q ≡ bearish)) ⊎ ((n ≡ bearish) × (q ≡ bullish))

module _ {W : Type 0} ⦃num : Number W⦄ (n q : DirectionalLabel) (status : Option ParseStatus) where
  abbrev verdict : DissentResult W
  verdict = compute_dissent n q status

  -- The dissent is strong exactly when no parse failed and the analysts are opposed; it is none exactly
  -- when no parse failed and they agree. The size modifier is 1, 0.5 or 0 by the severity, dissent is
  -- detected exactly when the severity is not none, and the verdict is the same with the analysts'
  -- directions exchanged.
  pub compute_dissent_lem :
      ((verdict.dissent_severity ≡ strong) ↔ ((parse_failed? status ≡ false) × AreOpposed n q))
      × ((verdict.dissent_severity ≡ none_found) ↔ ((parse_failed? status ≡ false) × (n ≡ q)))
      × (verdict.position_size_modifier ≡ modifier verdict.dissent_severity)
      × ((verdict.dissent_detected ≡ false) ↔ (verdict.dissent_severity ≡ none_found))
      × (verdict.dissent_severity ≡ (compute_dissent {W = W} q n status).dissent_severity)
  unfolding compute_dissent
  compute_dissent_lem = (ground arith, ground arith, ground arith, ground arith, ground arith)
