-- ===== src/Skill/Agreement.antt =====
-- The package against the agent: the same regimes, and the same size where no cap applies.
use neurodegen.Common.{
  ℕ, ◌≡◌, refl, ap, String, Option, some, List, [], ◌∷◌, arith, any, filter, length,
}
use neurodegen.Common.Number.{Number}
use neurodegen.Types.{RiskLevel}
use neurodegen.Cognition.{RegimeLabel, DirectionalLabel}
use neurodegen.Cognition.Dissent.{ParseStatus, compute_dissent, result}
use neurodegen.Cognition.FinalAction.{
  ActionConfig, ActionInputs, raw_size, regime_position_multiplier, risk_level_multiplier,
}
use neurodegen.Risk.{normal}
use neurodegen.Perception.Regime.{
  RegimeMetrics, RegimeState, is_volatile, is_momentum, is_active, base_classify, classify_regime,
  evaluate_regime, advance_regime_state, kol_hot_tokens, recover, fresh, from_regime,
  classification,
}
use neurodegen.Skill.{MarketSnapshot, regime_size_mult, mandate_mult}
use neurodegen.Skill.Dissent.{dissent_of, build}
use neurodegen.Skill.Regime.{
  ClassifierState, any_rate_above, count_hot, is_volatile_market, is_momentum_market,
  is_active_market, base_regime, regime_after, advanced,
}
use neurodegen.Skill.Sizing.{SizingInput, drawdown_band, dissent_multiplier, multiplied}

abbrev pub state_of : ClassifierState → RegimeState
state_of c = record {
  last_regime = c.last_regime;
  last_volatile_exit_candidate_at = c.exit_candidate_at;
}

module _ {W : Type 0} ⦃num : Number W⦄ where
  -- What the agent's classifier reads of a snapshot.
  abbrev pub metrics_of : MarketSnapshot W → RegimeMetrics W
  metrics_of s = record {
    fear_greed_value = s.fear_greed_value;
    funding_rates_by_pair = s.funding_rates_by_pair;
    kol_velocity_by_token = s.kol_velocity_by_token;
    active_surge_tokens = s.active_surge_tokens;
  }

  any_rate-any :
      (rates : List (String × W))
      → any (λ p. num.lt (num.thousandths 1) (num.abs p.1)) rates ≡ any_rate_above rates
  any_rate-any [] = refl
  any_rate-any (r ∷ rates) = ground (arith, any_rate-any rates)

  hot-count :
      (entries : List (String × W))
      → length (filter (λ t. num.le (num.of_nat 5) t.1) entries) ≡ count_hot entries
  hot-count [] = refl
  hot-count (e ∷ entries) = ground (arith, hot-count entries)

  is_volatile-market : (s : MarketSnapshot W) → is_volatile (metrics_of s) ≡ is_volatile_market s
  unfolding is_volatile is_volatile_market
  is_volatile-market s = ground (arith, any_rate-any s.funding_rates_by_pair)

  is_momentum-market : (s : MarketSnapshot W) → is_momentum (metrics_of s) ≡ is_momentum_market s
  unfolding is_momentum is_momentum_market kol_hot_tokens
  is_momentum-market s = ground (arith, hot-count s.kol_velocity_by_token)

  base_classify-regime : (s : MarketSnapshot W) → base_classify (metrics_of s) ≡ base_regime s
  unfolding base_classify base_regime is_active is_active_market
  base_classify-regime s = rw (is_volatile-market s, is_momentum-market s) refl

  evaluate_regime-advanced :
      (c : ClassifierState) (s : MarketSnapshot W) (now : ℕ)
      → evaluate_regime (state_of c) (metrics_of s) now ≡ state_of (advanced (regime_after s c now))
  unfolding evaluate_regime classify_regime advance_regime_state from_regime recover fresh
      classification regime_after
  evaluate_regime-advanced c s now = ground (arith, is_volatile-market s, base_classify-regime s)

  -- The regimes that the package goes through, one for each snapshot, and those of the agent.
  unfoldable pub package_regimes :
      List (MarketSnapshot W × ℕ) → ClassifierState → List (Option RegimeLabel)
  package_regimes [] c = []
  package_regimes ((s, now) ∷ rest) c =
      let next = advanced (regime_after s c now) in
      let later = package_regimes rest next in next.last_regime ∷ later

  unfoldable pub agent_regimes :
      List (MarketSnapshot W × ℕ) → RegimeState → List (Option RegimeLabel)
  agent_regimes [] r = []
  agent_regimes ((s, now) ∷ rest) r =
      let next = evaluate_regime r (metrics_of s) now in
      let later = agent_regimes rest next in next.last_regime ∷ later

  -- Over any series of snapshots, and from any state, the package goes through the regimes that the
  -- agent goes through: with the same thresholds, and with the same two minutes of recovery before it
  -- leaves the volatile one.
  pub package_regimes-agent :
      (series : List (MarketSnapshot W × ℕ)) (c : ClassifierState)
      → agent_regimes series (state_of c) ≡ package_regimes series c
  unfolding package_regimes agent_regimes
  package_regimes-agent [] c = refl
  package_regimes-agent ((s, now) ∷ rest) c =
      let next = advanced (regime_after s c now) in
      rw (evaluate_regime-advanced c s now)
        (ap (λ l. next.last_regime ∷ l) (package_regimes-agent rest next))

  size_mult-normal :
      (pct : W)
      → (drawdown_band pct).label ≡ normal
      → (drawdown_band pct).size_mult ≡ num.hundredths 100
  unfolding drawdown_band
  size_mult-normal pct h = ground (arith, h)

  regime_mult-agent :
      (r : RegimeLabel) → ◌≡◌ {A = W} (regime_position_multiplier r) (regime_size_mult r)
  unfolding regime_position_multiplier
  regime_mult-agent r = ground arith

  mandate_mult-agent : (m : RiskLevel) → ◌≡◌ {A = W} (risk_level_multiplier m) (mandate_mult m)
  unfolding risk_level_multiplier
  mandate_mult-agent m = ground arith

  modifier-agent :
      (n q : DirectionalLabel) (p : ParseStatus)
      → ◌≡◌ {A = W}
          (compute_dissent n q (some p)).position_size_modifier
          (dissent_multiplier (dissent_of {W = W} n q p).dissent_severity)
  unfolding compute_dissent result dissent_of build dissent_multiplier
  modifier-agent n q p = ground arith

  -- For a drawdown below every band, the package multiplies the base size as the agent does: the
  -- regime's, the dissent's and the mandate's multipliers are the same, and so is their order.
  pub multiplied-raw_size :
      (cfg : ActionConfig W) (a : ActionInputs W) (i : SizingInput W) (n q : DirectionalLabel)
      (parsed : ParseStatus)
      → ((x : W) → num.mul x (num.hundredths 100) ≡ x)
      → cfg.agent_base_position_size_usd ≡ i.base_usd
      → a.regime ≡ i.regime
      → a.risk_level ≡ i.mandate
      → a.dissent ≡ compute_dissent n q (some parsed)
      → i.dissent ≡ (dissent_of {W = W} n q parsed).dissent_severity
      → (drawdown_band i.drawdown_pct).label ≡ normal
      → multiplied i ≡ raw_size cfg a
  unfolding raw_size
  multiplied-raw_size cfg a i n q parsed one base regime level agent own tier =
      rw
        (
          base,
          regime,
          level,
          agent,
          own,
          multiplied,
          raw_size,
          size_mult-normal i.drawdown_pct tier,
          one,
          regime_mult-agent i.regime,
          mandate_mult-agent i.mandate,
          modifier-agent n q parsed,
        )
        refl
