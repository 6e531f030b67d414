-- ===== src/Skill/Regime.antt =====
-- skills/neurodegen-committee/src/regime.ts. The rationale's texts are left out. The metrics do not
-- say a regime by themselves: after a volatile one, two minutes of recovery are waited for.
use text.Mathlib.Text.{◌==◌ as str_eq}
use neurodegen.Common.{
  ℕ, suc, ◌-◌, String, Bool, true, false, ◌&&◌, ◌||◌, Option, none, some, List, [], ◌∷◌, ltb, leb,
  any, if◌then◌else◌,
}
use neurodegen.Common.Number.{Number}
use neurodegen.Cognition.{RegimeLabel, quiet, active, momentum, volatile}
use neurodegen.Skill.{TopMover, MarketSnapshot, allowlist_symbols}

abbrev pub exit_cooldown_ms : ℕ
exit_cooldown_ms = 120000

pub record ClassifierState : Type 0 where
  pub last_regime : Option RegimeLabel
  pub exit_candidate_at : Option ℕ

abbrev pub with_candidate : Option ℕ → ClassifierState → ClassifierState
with_candidate at state = record state { exit_candidate_at = at }

abbrev pub was_volatile : Option RegimeLabel → Bool
was_volatile (some volatile) = true
was_volatile _ = false

-- `advanceRegimeState`
abbrev pub advanced : RegimeLabel × ClassifierState → ClassifierState
advanced (regime, state) = record state { last_regime = some regime }

module _ {W : Type 0} ⦃num : Number W⦄ where
  abbrev is_surging : TopMover W → Bool
  is_surging m =
      any (λ s. str_eq s m.symbol) allowlist_symbols
      && num.le (num.of_nat 5) (num.abs m.percent_change1h)

  abbrev count_surging : List (TopMover W) → ℕ
  count_surging [] = 0
  count_surging (m ∷ ms) = let rest = count_surging ms in if is_surging m then suc rest else rest

  unfoldable pub compute_active_surge_tokens : MarketSnapshot W → ℕ
  compute_active_surge_tokens s = count_surging s.top_movers_by_volume

  abbrev pub any_rate_above : List (String × W) → Bool
  any_rate_above [] = false
  any_rate_above ((_, rate) ∷ rates) =
      num.lt (num.thousandths 1) (num.abs rate) || any_rate_above rates

  unfoldable pub is_volatile_market : MarketSnapshot W → Bool
  is_volatile_market s =
      if num.lt s.fear_greed_value (num.of_nat 25) || num.lt (num.of_nat 85) s.fear_greed_value
      then true
      else any_rate_above s.funding_rates_by_pair

  abbrev pub count_hot : List (String × W) → ℕ
  count_hot [] = 0
  count_hot ((_, velocity) ∷ entries) =
      let rest = count_hot entries in if num.le (num.of_nat 5) velocity then suc rest else rest

  unfoldable pub is_momentum_market : MarketSnapshot W → Bool
  is_momentum_market s =
      if ltb s.active_surge_tokens 4
      then false
      else if num.lt s.fear_greed_value (num.of_nat 60) || num.lt (num.of_nat 85) s.fear_greed_value
      then false
      else leb 2 (count_hot s.kol_velocity_by_token)

  unfoldable pub is_active_market : MarketSnapshot W → Bool
  is_active_market s =
      if ltb s.active_surge_tokens 3
      then false
      else if num.lt s.fear_greed_value (num.of_nat 40) || num.lt (num.of_nat 70) s.fear_greed_value
      then false
      else true

  unfoldable pub base_regime : MarketSnapshot W → RegimeLabel
  base_regime s =
      if is_volatile_market s
      then volatile
      else if is_momentum_market s
      then momentum
      else if is_active_market s
      then active
      else quiet

  -- In the volatile regime, with metrics that are not. Where the clock went back the difference is 0,
  -- under the cooldown as the negative one is.
  abbrev wait_for_exit :
      MarketSnapshot W → Option ℕ → ClassifierState → ℕ → RegimeLabel × ClassifierState
  wait_for_exit s none state now = (volatile, with_candidate (some now) state)
  wait_for_exit s (some since) state now =
      if ltb (now - since) exit_cooldown_ms
      then (volatile, state)
      else (base_regime s, with_candidate none state)

  -- The regime, and the state that the call leaves.
  unfoldable pub regime_after :
      MarketSnapshot W → ClassifierState → ℕ → RegimeLabel × ClassifierState
  regime_after s state now =
      if was_volatile state.last_regime
      then if is_volatile_market s
        then (volatile, with_candidate none state)
        else wait_for_exit s state.exit_candidate_at state now
      else (base_regime s, state)
