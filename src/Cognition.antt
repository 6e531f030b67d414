-- ===== src/Cognition.antt =====
-- The committee: src/lib/services/cognition, with the types of src/types/cognition.ts and
-- src/types/perception.ts that it reads. The model calls are inputs here: what the two analysts and
-- the risk classifier answered, parsed.
pub mod Dissent
pub mod Rails
pub mod FinalAction
pub mod Committee
use neurodegen.Common.{ℕ, String, Bool, Option, List}
use neurodegen.Types.{ActionType}

pub data DirectionalLabel : Type 0 where
  bullish bearish neutral : DirectionalLabel

pub data RegimeLabel : Type 0 where
  quiet active momentum volatile : RegimeLabel

pub data DissentSeverity : Type 0 where
  none_found mild strong : DissentSeverity

pub record NarrativeOutput (W : Type 0) : Type 0 where
  pub narrative_summary : String
  pub kol_mentioned_tokens : List String
  pub sentiment_score : W
  pub confidence_level : W
  pub direction : DirectionalLabel
  pub flagged_anomalies : List String
  pub top_thesis_token : Option String

-- `features` is only shown, and left out.
pub record QuantOutput : Type 0 where
  pub dominant_direction : DirectionalLabel
  pub liquidity_adequate : Bool
  pub funding_rate_warning : Bool
  pub recommended_token : Option String
