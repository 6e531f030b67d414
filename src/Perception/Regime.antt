-- ===== src/Perception/Regime.antt =====
-- src/lib/services/perception/regimeClassifier.ts with src/config/regime.ts, and the commit of a
-- classification in `evaluateRegime` of src/lib/services/agentLoop.ts.
pub mod Cooldown
use neurodegen.Common.{
  ℕ, suc, ◌+◌, ◌-◌, ◌*◌, String, Bool, true, false, ◌&&◌, ◌||◌, Option, none, some, List, [], ◌∷◌,
  ltb, leb, any, filter, length, if◌then◌else◌,
}
use neurodegen.Common.Number.{Number}
use neurodegen.Cognition.{RegimeLabel, quiet, active, momentum, volatile}

-- The metrics that are read: a rate for each pair, a mention velocity for each token.
pub record RegimeMetrics (W : Type 0) : Type 0 where
  pub fear_greed_value : W
  pub funding_rates_by_pair : List (String × W)
  pub kol_velocity_by_token : List (String × W)
  pub active_surge_tokens : ℕ

-- `maxLeverage` is always 1 and left out.
pub record RegimeParameters (W : Type 0) : Type 0 where
  pub position_size_multiplier : W
  pub tp_percentage : W
  pub sl_percentage : W
  pub cooldown_after_loss_ms : ℕ
  pub ev_gate_active : Bool
  pub hibernate : Bool

abbrev pub volatile_exit_cooldown_ms : ℕ
volatile_exit_cooldown_ms = 120000

pub record RegimeState : Type 0 where
  pub last_regime : Option RegimeLabel
  pub last_volatile_exit_candidate_at : Option ℕ

abbrev pub empty_regime_state : RegimeState
empty_regime_state = record { last_regime = none; last_volatile_exit_candidate_at = none }

pub data RegimeRationale : Type 0 where
  metrics_remain_volatile cooldown_started : RegimeRationale
  cooldown_remaining : ℕ → RegimeRationale
  of_metrics after_cooldown : RegimeLabel → RegimeRationale

pub record Classification (W : Type 0) : Type 0 where
  pub regime : RegimeLabel
  pub previous_regime : Option RegimeLabel
  pub parameters : RegimeParameters W
  pub transitioned_at : ℕ
  pub rationale : RegimeRationale

module _ {W : Type 0} ⦃num : Number W⦄ where
  -- `REGIME_PARAMS`
  unfoldable pub regime_params : RegimeLabel → RegimeParameters W
  regime_params quiet = record {
    position_size_multiplier = num.hundredths 0;
    tp_percentage = num.hundredths 0;
    sl_percentage = num.hundredths 0;
    cooldown_after_loss_ms = 0;
    ev_gate_active = false;
    hibernate = true;
  }
  regime_params active = record {
    position_size_multiplier = num.hundredths 50;
    tp_percentage = num.hundredths 3;
    sl_percentage = num.hundredths 2;
    cooldown_after_loss_ms = 15 * 60000;
    ev_gate_active = true;
    hibernate = false;
  }
  regime_params momentum = record {
    position_size_multiplier = num.hundredths 100;
    tp_percentage = num.hundredths 5;
    sl_percentage = num.hundredths 3;
    cooldown_after_loss_ms = 10 * 60000;
    ev_gate_active = true;
    hibernate = false;
  }
  regime_params volatile = record {
    position_size_multiplier = num.hundredths 10;
    tp_percentage = num.hundredths 2;
    sl_percentage = num.thousandths 15;
    cooldown_after_loss_ms = 60 * 60000;
    ev_gate_active = true;
    hibernate = false;
  }

  unfoldable pub is_volatile : RegimeMetrics W → Bool
  is_volatile m =
      num.lt m.fear_greed_value (num.of_nat 25)
      || (num.lt (num.of_nat 85) m.fear_greed_value
          || any (λ p. num.lt (num.thousandths 1) (num.abs p.1)) m.funding_rates_by_pair)

  unfoldable pub kol_hot_tokens : RegimeMetrics W → ℕ
  kol_hot_tokens m = length (filter (λ t. num.le (num.of_nat 5) t.1) m.kol_velocity_by_token)

  unfoldable pub is_momentum : RegimeMetrics W → Bool
  is_momentum m =
      if ltb m.active_surge_tokens 4
      then false
      else if num.lt m.fear_greed_value (num.of_nat 60) || num.lt (num.of_nat 85) m.fear_greed_value
      then false
      else leb 2 (kol_hot_tokens m)

  unfoldable pub is_active : RegimeMetrics W → Bool
  is_active m =
      if ltb m.active_surge_tokens 3
      then false
      else if num.lt m.fear_greed_value (num.of_nat 40) || num.lt (num.of_nat 70) m.fear_greed_value
      then false
      else true

  unfoldable pub base_classify : RegimeMetrics W → RegimeLabel
  base_classify m =
      if is_volatile m
      then volatile
      else if is_momentum m
      then momentum
      else if is_active m
      then active
      else quiet

  unfoldable pub classification :
      RegimeLabel → Option RegimeLabel → ℕ → RegimeRationale → Classification W
  classification regime previous now why = record {
    regime = regime;
    previous_regime = previous;
    parameters = regime_params regime;
    transitioned_at = now;
    rationale = why;
  }

  -- With calm metrics in the volatile regime. A clock that was set back leaves the difference at 0,
  -- which is under the cooldown as the negative difference is.
  unfoldable pub recover :
      RegimeMetrics W → RegimeState → Option ℕ → ℕ → Classification W × RegimeState
  recover m state none now = (
    classification volatile (some volatile) now cooldown_started,
    record state { last_volatile_exit_candidate_at = some now },
  )
  recover m state (some since) now =
      let next = base_classify m in
      if ltb (now - since) volatile_exit_cooldown_ms
      then (
        classification volatile (some volatile) now
            (cooldown_remaining (volatile_exit_cooldown_ms - (now - since))),
        state,
      )
      else (
        classification next (some volatile) now (after_cooldown next),
        record state { last_volatile_exit_candidate_at = none },
      )

  unfoldable pub fresh : RegimeMetrics W → RegimeState → ℕ → Classification W × RegimeState
  fresh m state now =
      let next = base_classify m in
      (classification next state.last_regime now (of_metrics next), state)

  unfoldable pub from_regime :
      Option RegimeLabel → RegimeMetrics W → RegimeState → ℕ → Classification W × RegimeState
  from_regime (some volatile) m state now =
      if is_volatile m
      then (
        classification volatile (some volatile) now metrics_remain_volatile,
        record state { last_volatile_exit_candidate_at = none },
      )
      else recover m state state.last_volatile_exit_candidate_at now
  from_regime _ m state now = fresh m state now

  -- The classification, and the state that the call leaves.
  unfoldable pub classify_regime :
      RegimeMetrics W → RegimeState → ℕ → Classification W × RegimeState
  classify_regime m state now = from_regime state.last_regime m state now

  unfoldable pub advance_regime_state : RegimeState → Classification W → RegimeState
  advance_regime_state state c = record state { last_regime = some c.regime }

  -- `evaluateRegime`: classify, then commit.
  unfoldable pub evaluate_regime : RegimeState → RegimeMetrics W → ℕ → RegimeState
  evaluate_regime state m now =
      let (c, state') = classify_regime m state now in advance_regime_state state' c
