-- ===== src/Skill.antt =====
-- skills/neurodegen-committee/src: the committee as a package of its own, apart from the agent. Here
-- are its types (types.ts) and constants (config.ts); a child module is a file of the package. It
-- shares the agent's labels, which are the same unions of texts.
pub mod Dissent
pub mod Regime
pub mod Sizing
pub mod Candidate
pub mod Committee
pub mod Agreement
pub mod Decisions
use neurodegen.Common.{ℕ, String, Bool, Option, List, [], ◌∷◌}
use neurodegen.Common.Number.{Number}
use neurodegen.Types.{RiskLevel, conservative, moderate, aggressive}
use neurodegen.Cognition.{
  DirectionalLabel, RegimeLabel, quiet, active, momentum, volatile, NarrativeOutput,
}

pub record TopMover (W : Type 0) : Type 0 where
  pub symbol : String
  pub percent_change1h : W

-- The fields that are read: an annualized rate for each pair, a mention velocity for each token.
pub record MarketSnapshot (W : Type 0) : Type 0 where
  pub fear_greed_value : W
  pub top_movers_by_volume : List (TopMover W)
  pub funding_rates_by_pair : List (String × W)
  pub kol_velocity_by_token : List (String × W)
  pub active_surge_tokens : ℕ

-- A feature is its weight.
pub record QuantAnalystOutput (W : Type 0) : Type 0 where
  pub feature_weights : List W
  pub dominant_direction : DirectionalLabel
  pub liquidity_adequate : Bool
  pub funding_rate_warning : Bool
  pub recommended_token : Option String

abbrev pub allowlist_symbols : List String
allowlist_symbols = "BNB" ∷ "WBNB" ∷ "CAKE" ∷ "ETH" ∷ "BTCB" ∷ "USDT" ∷ "BUSD" ∷ []

abbrev pub max_concurrent_positions : ℕ
max_concurrent_positions = 5

module _ {W : Type 0} ⦃num : Number W⦄ where
  -- `REGIME_PARAMS[regime].sizeMult`
  abbrev pub regime_size_mult : RegimeLabel → W
  regime_size_mult quiet = num.hundredths 0
  regime_size_mult active = num.hundredths 50
  regime_size_mult momentum = num.hundredths 100
  regime_size_mult volatile = num.hundredths 10

  abbrev pub mandate_mult : RiskLevel → W
  mandate_mult conservative = num.hundredths 50
  mandate_mult moderate = num.hundredths 100
  mandate_mult aggressive = num.hundredths 150

  abbrev pub base_size_usd : W
  base_size_usd = num.of_nat 100

  abbrev pub max_position_usd : W
  max_position_usd = num.of_nat 200

  abbrev pub max_exposure_pct : W
  max_exposure_pct = num.hundredths 80

  abbrev pub min_viable_size_usd : W
  min_viable_size_usd = num.hundredths 1

  abbrev pub daily_loss_cap_usd : W
  daily_loss_cap_usd = num.of_nat 50

  abbrev pub min_confidence : W
  min_confidence = num.hundredths 30

  abbrev pub funding_warning_confidence_override : W
  funding_warning_confidence_override = num.hundredths 70
