-- ===== src/Risk.antt =====
-- src/lib/services/execution/riskManager.ts, with src/config/risk.ts. The constants of risk.ts are
-- read from the environment, so they are a record, `RiskConfig`. Texts that interpolate values are
-- constructors that carry the values. `RiskManager`'s only field is the mandate, an argument here.
pub mod Tier
pub mod Sizing
pub mod Guards
pub mod State
use neurodegen.Common.{
  ℕ, suc, ◌+◌, ◌*◌, Bool, true, false, not, ◌&&◌, Option, none, some, List, [], ◌∷◌, leb,
  if◌then◌else◌, get_or, length,
}
use neurodegen.Common.Number.{Number}
use neurodegen.Types.{
  ActionType, is_hold, is_close, ActionRecommendation, MandateConfig, PositionState,
  RiskManagerState, RiskLevel, SignalPriority,
}

pub record RiskConfig (W : Type 0) : Type 0 where
  pub agent_base_position_size_usd : W
  pub min_position_size_usd : W
  pub per_position_size_cap_usd : W
  pub max_concurrent_positions : ℕ
  pub max_total_exposure_ratio : W
  pub max_daily_loss_usd : W
  pub drawdown_alert_pct : W
  pub drawdown_halt_pct : W
  pub drawdown_disqualification_pct : W

-- The fallbacks of risk.ts.
abbrev pub default_risk_config : {W : Type 0} ⦃num : Number W⦄ → RiskConfig W
default_risk_config ⦃num⦄ = record {
  agent_base_position_size_usd = num.of_nat 100;
  min_position_size_usd = num.of_nat 5;
  per_position_size_cap_usd = num.of_nat 200;
  max_concurrent_positions = 5;
  max_total_exposure_ratio = num.hundredths 80;
  max_daily_loss_usd = num.of_nat 50;
  drawdown_alert_pct = num.hundredths 15;
  drawdown_halt_pct = num.hundredths 25;
  drawdown_disqualification_pct = num.hundredths 30;
}

abbrev pub default_mandate : {W : Type 0} ⦃num : Number W⦄ → MandateConfig W
default_mandate ⦃num⦄ = record {
  max_drawdown_pct = num.hundredths 20;
  max_position_pct = num.hundredths 8;
  daily_loss_cap_pct = num.hundredths 5;
  consecutive_loss_halt = 3;
  signal_priority = SignalPriority.balanced;
  risk_level = RiskLevel.moderate;
  crash_protocol_fg_threshold = 25;
}

pub data DrawdownTier : Type 0 where
  normal alert defensive halt disqualified : DrawdownTier

pub data Rejection (W : Type 0) : Type 0 where
  recommendation_is_hold : Rejection W
  at_disqualification at_halt close_only : W → Rejection W
  loss_streak : ℕ → ℕ → Rejection W
  nothing_to_close : Rejection W
  too_many_positions : ℕ → ℕ → Rejection W
  daily_loss : W → W → Rejection W
  below_minimum : W → W → Rejection W

pub record Verdict (W : Type 0) : Type 0 where
  pub approved : Bool
  pub rejection_reason : Option (Rejection W)
  pub adjusted_position_size_usd : Option W

abbrev pub reject : {W : Type 0} → Rejection W → Verdict W
reject r = record { approved = false; rejection_reason = some r; adjusted_position_size_usd = none }

abbrev pub approve : {W : Type 0} → W → Verdict W
approve size = record {
  approved = true;
  rejection_reason = none;
  adjusted_position_size_usd = some size;
}

abbrev is_alert : DrawdownTier → Bool
is_alert alert = true
is_alert _ = false

module _ {W : Type 0} ⦃num : Number W⦄ where
  -- `openPositions.reduce((sum, p) => sum + p.sizeUSD, 0)`
  pub exposure_from : W → List (PositionState W) → W
  exposure_from acc [] = acc
  exposure_from acc (p ∷ ps) = exposure_from (num.add acc p.size_usd) ps

  pub default_risk_manager_state : W → RiskManagerState W
  default_risk_manager_state seed = record {
    current_drawdown_from_peak = num.hundredths 0;
    consecutive_losses = 0;
    positions_open_count = 0;
    total_exposure_usd = num.hundredths 0;
    daily_pnl_usd = num.hundredths 0;
    daily_trade_count = 0;
    last_probe_trade_at = none;
    peak_portfolio_value_usd = seed;
  }

  unfoldable pub update_drawdown_from_value : RiskManagerState W → W → RiskManagerState W
  update_drawdown_from_value state current =
      let peak = num.max state.peak_portfolio_value_usd current in
      let drawdown =
        if num.lt (num.hundredths 0) peak
        then num.max (num.hundredths 0) (num.sub (num.hundredths 100) (num.div current peak))
        else num.hundredths 0 in
      record state { peak_portfolio_value_usd = peak; current_drawdown_from_peak = drawdown }

  -- The execution result itself is not read.
  unfoldable pub apply_execution_result : RiskManagerState W → Option W → RiskManagerState W
  apply_execution_result state none = state
  apply_execution_result state (some pnl) =
      let next = record state { daily_pnl_usd = num.add state.daily_pnl_usd pnl } in
      if num.lt pnl (num.hundredths 0)
      then record next { consecutive_losses = state.consecutive_losses + 1 }
      else if num.lt (num.hundredths 0) pnl
      then record next { consecutive_losses = 0 }
      else next

module _ {W : Type 0} ⦃num : Number W⦄ (cfg : RiskConfig W) where
  open cfg use {
    agent_base_position_size_usd, min_position_size_usd, per_position_size_cap_usd,
    max_concurrent_positions, max_total_exposure_ratio, max_daily_loss_usd, drawdown_alert_pct,
    drawdown_halt_pct, drawdown_disqualification_pct,
  }

  abbrev pub effective_halt : Option W → W
  effective_halt none = drawdown_halt_pct
  effective_halt (some m) = num.min drawdown_halt_pct (num.max drawdown_alert_pct m)

  -- `0.05` is five hundredths
  abbrev pub effective_defensive : Option W → W
  effective_defensive m = num.max drawdown_alert_pct (num.sub (effective_halt m) (num.hundredths 5))

  unfoldable pub classify_drawdown_tier : W → Option W → DrawdownTier
  classify_drawdown_tier drawdown m =
      if num.le drawdown_disqualification_pct drawdown
      then disqualified
      else if num.le (effective_halt m) drawdown
      then halt
      else if num.le (effective_defensive m) drawdown
      then defensive
      else if num.le drawdown_alert_pct drawdown
      then alert
      else normal

  module _ (mandate : MandateConfig W) where
    -- the arguments of `Math.min`
    pub requested_size : ActionRecommendation W → W
    requested_size r = get_or r.position_size_usd agent_base_position_size_usd

    pub max_per_token : W → W
    max_per_token portfolio_value = num.mul portfolio_value mandate.max_position_pct

    pub headroom : List (PositionState W) → W → W
    headroom positions portfolio_value = num.max (num.hundredths 0) (
        num.sub (num.mul portfolio_value max_total_exposure_ratio)
          (exposure_from (num.hundredths 0) positions))

    pub capped_size : ActionRecommendation W → List (PositionState W) → W → W
    capped_size r positions portfolio_value =
        num.min
          (num.min (num.min (requested_size r) (max_per_token portfolio_value))
            (headroom positions portfolio_value))
          per_position_size_cap_usd

    pub tiered_size : DrawdownTier → W → W
    tiered_size tier size = if is_alert tier then num.mul size (num.hundredths 50) else size

    -- The end of `canAct`, for an action that opens.
    pub can_open :
        ActionRecommendation W
        → RiskManagerState W
        → List (PositionState W)
        → W
        → DrawdownTier
        → Verdict W
    can_open r state positions portfolio_value tier =
        let size = tiered_size tier (capped_size r positions portfolio_value) in
        if leb max_concurrent_positions (length positions)
        then reject (too_many_positions (length positions) max_concurrent_positions)
        else if num.le state.daily_pnl_usd (num.sub (num.hundredths 0) max_daily_loss_usd)
        then reject (daily_loss state.daily_pnl_usd max_daily_loss_usd)
        else if num.lt size min_position_size_usd
        then reject (below_minimum size min_position_size_usd)
        else approve (num.round2 size)

    pub can_close : List (PositionState W) → Verdict W
    can_close [] = reject nothing_to_close
    can_close (target ∷ _) = approve (num.hundredths 0)

    -- After the checks on the drawdown.
    pub can_trade :
        ActionRecommendation W
        → RiskManagerState W
        → List (PositionState W)
        → W
        → DrawdownTier
        → Verdict W
    can_trade r state positions portfolio_value tier =
        if leb mandate.consecutive_loss_halt state.consecutive_losses
        then reject (loss_streak state.consecutive_losses mandate.consecutive_loss_halt)
        else if is_close r.action
        then can_close positions
        else can_open r state positions portfolio_value tier

    pub at_tier :
        ActionRecommendation W
        → RiskManagerState W
        → List (PositionState W)
        → W
        → DrawdownTier
        → Verdict W
    at_tier r state positions portfolio_value tier = elim tier [
      | disqualified ↦ reject (at_disqualification state.current_drawdown_from_peak)
      | halt ↦ reject (at_halt state.current_drawdown_from_peak)
      | defensive ↦
          if is_close r.action
          then can_trade r state positions portfolio_value defensive
          else reject (close_only state.current_drawdown_from_peak)
      | other ↦ can_trade r state positions portfolio_value other
    ]

    pub can_act :
        ActionRecommendation W → RiskManagerState W → List (PositionState W) → W → Verdict W
    can_act r state positions portfolio_value =
        if is_hold r.action
        then reject recommendation_is_hold
        else at_tier r state positions portfolio_value (
            classify_drawdown_tier state.current_drawdown_from_peak (some mandate.max_drawdown_pct))

-- Opens the verdict to a test by evaluation.
unfoldable pub opened : Unit {0}
unfolding exposure_from classify_drawdown_tier requested_size max_per_token headroom capped_size
    tiered_size can_open can_close can_trade at_tier can_act default_risk_manager_state
opened = tt
