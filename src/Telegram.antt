-- ===== src/Telegram.antt =====
-- src/lib/services/telegramAlerter.ts: what the alerter sends and when. `Telegram.Alerter` has the
-- handlers, `Telegram.Boot` the boot notice. An `Alert` stands for its text and carries the values
-- that the text shows; the formatters are left out. `Date.now()` is an argument, one value for each
-- handler, since the handlers run without waiting.
pub mod Alerter
pub mod Updates
pub mod Boot
pub mod Client
pub mod Spec
pub mod Refinement
pub mod Spacing
use neurodegen.Common.{ℕ, String, Bool, true, false, Option, List, if◌then◌else◌}
use neurodegen.Common.Number.{Number}

pub data DrawdownTier : Type 0 where
  normal alert defensive halt : DrawdownTier

abbrev pub same_tier : DrawdownTier → DrawdownTier → Bool
same_tier normal normal = true
same_tier alert alert = true
same_tier defensive defensive = true
same_tier halt halt = true
same_tier _ _ = false

-- `SSEEventType` and the three keys of the alerter's own.
pub data AlertKey : Type 0 where
  perception_event position_update regime_change metrics_update : AlertKey
  committee_session_started committee_session_complete health_degradation : AlertKey
  agent_status_snapshot boot drawdown_tier_change erc8183_job_submitted : AlertKey

-- A key of the `Map` against another.
abbrev pub same_key : AlertKey → AlertKey → Bool
same_key perception_event perception_event = true
same_key position_update position_update = true
same_key regime_change regime_change = true
same_key metrics_update metrics_update = true
same_key committee_session_started committee_session_started = true
same_key committee_session_complete committee_session_complete = true
same_key health_degradation health_degradation = true
same_key agent_status_snapshot agent_status_snapshot = true
same_key boot boot = true
same_key drawdown_tier_change drawdown_tier_change = true
same_key erc8183_job_submitted erc8183_job_submitted = true
same_key _ _ = false

-- The fields that decide whether the update is sent, and as what.
pub record PositionUpdateLike (W : Type 0) : Type 0 where
  pub status : Option String
  pub token_symbol : Option String
  pub size_usd : Option W
  pub kind : Option String

pub record CommitteeSessionLike (W : Type 0) : Type 0 where
  pub session_id : Option String
  pub action : Option String
  pub token_symbol : Option String
  pub confidence : Option W

pub record RegimeChangeLike : Type 0 where
  pub from : Option String
  pub to : Option String
  pub rationale : Option String

pub record HealthDegradationLike : Type 0 where
  pub source : Option String
  pub message : Option String

pub record Erc8183Job (W : Type 0) : Type 0 where
  pub job_id : String
  pub service_name : String
  pub cost_usd : W

pub record BootSnapshot (W : Type 0) : Type 0 where
  pub regime : String
  pub open_position_count : ℕ
  pub wallet_non_stable_holdings : ℕ
  pub wallet_value_usd : W
  pub drawdown_pct : W
  pub git_sha : String

-- `event.data` of a status snapshot is `none` where `drawdownPct` is not a number, and that of a
-- position update where it is null.
pub data SseEvent (W : Type 0) : Type 0 where
  position_update : Option (PositionUpdateLike W) → SseEvent W
  committee_session_complete : CommitteeSessionLike W → SseEvent W
  regime_change : RegimeChangeLike → SseEvent W
  health_degradation : HealthDegradationLike → SseEvent W
  agent_status_snapshot : Option W → SseEvent W
  perception_event metrics_update committee_session_started : SseEvent W

pub data Alert (W : Type 0) : Type 0 where
  position_open position_close : PositionUpdateLike W → Alert W
  committee_redacted : CommitteeSessionLike W → Alert W
  regime_shift : RegimeChangeLike → Alert W
  health : HealthDegradationLike → Alert W
  drawdown_shift : DrawdownTier → DrawdownTier → W → Alert W
  job_submitted : Erc8183Job W → Alert W
  online : BootSnapshot W → Alert W

-- DRAWDOWN_ALERT_PCT, DRAWDOWN_DEFENSIVE_PCT and DRAWDOWN_HALT_PCT of src/config/risk.ts.
pub record Thresholds (W : Type 0) : Type 0 where
  pub alert_pct : W
  pub defensive_pct : W
  pub halt_pct : W

module _ {W : Type 0} ⦃num : Number W⦄ where
  -- The fallbacks of risk.ts.
  abbrev pub default_thresholds : Thresholds W
  default_thresholds = record {
    alert_pct = num.hundredths 15;
    defensive_pct = num.hundredths 20;
    halt_pct = num.hundredths 25;
  }

  unfoldable pub drawdown_to_tier : Thresholds W → W → DrawdownTier
  drawdown_to_tier limits pct =
      if num.le limits.halt_pct pct
      then halt
      else if num.le limits.defensive_pct pct
      then defensive
      else if num.le limits.alert_pct pct
      then alert
      else normal
