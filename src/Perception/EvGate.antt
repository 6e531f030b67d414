-- ===== src/Perception/EvGate.antt =====
-- src/lib/services/perception/evGate.ts: whether a paid data call is worth its price, and the tracker
-- of what was paid. The texts of the rationale are constructors; a UTC day is its number.
pub mod Laws
use neurodegen.Common.{
  ℕ, Bool, true, false, not, ◌&&◌, Option, none, some, get_or, ◌==◌, if◌then◌else◌,
}
use neurodegen.Common.Number.{Number}
use neurodegen.Cognition.{RegimeLabel}
use neurodegen.Perception.Regime.{regime_params}

pub record EvConfig (W : Type 0) : Type 0 where
  pub ev_base_confidence : W
  pub ev_threshold : W
  pub x402_cost_per_call_usdc : W
  pub agent_base_position_size_usd : W

pub data EvSignal : Type 0 where
  price_spike volume_surge funding_spike kol_velocity security_check narrative_emergence : EvSignal

pub record EvGateInput (W : Type 0) : Type 0 where
  pub triggering_signal : EvSignal
  pub regime : RegimeLabel
  pub signal_magnitude : W
  pub gas_cost_usd : W
  pub position_size_usd : Option W
  pub base_confidence : Option W
  pub override_threshold : Option W

pub data EvRationale (W : Type 0) : Type 0 where
  regime_suppresses : RegimeLabel → EvRationale W
  alpha_is_zero : EvRationale W
  worth_it not_worth_it : W → W → EvRationale W

pub record EvDecision (W : Type 0) : Type 0 where
  pub should_fetch_premium : Bool
  pub projected_alpha_usd : W
  pub x402_cost_usdc : W
  pub gas_cost_usd : W
  pub ev_ratio : W
  pub rationale : EvRationale W
  pub triggering_signal : EvSignal
  pub threshold_used : W

module _ {W : Type 0} ⦃num : Number W⦄ (cfg : EvConfig W) (i : EvGateInput W) where
  pub projected_alpha : W
  projected_alpha =
      num.mul
        (num.mul
          (num.mul (get_or i.position_size_usd cfg.agent_base_position_size_usd)
            (regime_params i.regime).position_size_multiplier)
          (num.abs i.signal_magnitude))
        (get_or i.base_confidence cfg.ev_base_confidence)

  pub threshold : W
  threshold = get_or i.override_threshold cfg.ev_threshold

  pub total_cost : W
  total_cost = num.add cfg.x402_cost_per_call_usdc (num.max i.gas_cost_usd (num.hundredths 0))

  pub ratio : W
  ratio =
      if num.lt (num.hundredths 0) total_cost
      then num.div projected_alpha total_cost
      else num.infinity

  pub evaluate_ev : EvDecision W
  evaluate_ev =
      let gate_active = (regime_params {W = W} i.regime).ev_gate_active in
      let fetch =
        gate_active && (num.le threshold ratio && num.lt (num.hundredths 0) projected_alpha) in
      record {
        should_fetch_premium = fetch;
        projected_alpha_usd = projected_alpha;
        x402_cost_usdc = cfg.x402_cost_per_call_usdc;
        gas_cost_usd = num.max i.gas_cost_usd (num.hundredths 0);
        ev_ratio = if num.is_finite ratio then num.round2 ratio else num.hundredths 0;
        rationale =
            if not gate_active
            then regime_suppresses i.regime
            else if num.le projected_alpha (num.hundredths 0)
            then alpha_is_zero
            else if fetch
            then worth_it ratio threshold
            else not_worth_it ratio threshold;
        triggering_signal = i.triggering_signal;
        threshold_used = threshold;
      }

-- `InMemoryX402SpendTracker`
pub record X402Spend (W : Type 0) : Type 0 where
  pub session_usdc : W
  pub daily_usdc : W
  pub day_bucket : ℕ

module _ {W : Type 0} ⦃num : Number W⦄ where
  roll_day : X402Spend W → ℕ → X402Spend W
  roll_day s today =
      if today == s.day_bucket
      then s
      else record s { day_bucket = today; daily_usdc = num.hundredths 0 }

  -- `today` is the day of the clock.
  pub record_spend : X402Spend W → ℕ → EvDecision W → X402Spend W
  record_spend s today d =
      let rolled = roll_day s today in
      if not d.should_fetch_premium then s else record rolled {
        session_usdc = num.add rolled.session_usdc d.x402_cost_usdc;
        daily_usdc = num.add rolled.daily_usdc d.x402_cost_usdc;
      }

  pub reset_session : X402Spend W → X402Spend W
  reset_session s = record s { session_usdc = num.hundredths 0 }
