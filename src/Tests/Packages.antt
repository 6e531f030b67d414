-- ===== src/Tests/Packages.antt =====
-- Runs of the committee package.
use neurodegen.Common.{ℕ, ◌≡◌, refl, String, true, false, some, none, List, [], ◌∷◌, arith}
use neurodegen.Common.Calls.{ok}
use neurodegen.Common.Fixed.{Fixed, pos, negsuc, fixed_number}
use neurodegen.Types.{open_long, moderate}
use neurodegen.Cognition.{active, volatile, bullish, mild, NarrativeOutput}
use neurodegen.Cognition.Dissent.{ParseStatus, compute_dissent}
use neurodegen.Cognition.FinalAction.{ActionConfig, ActionInputs}
use neurodegen.Skill.{TopMover, MarketSnapshot, QuantAnalystOutput}
use neurodegen.Skill.Regime.{ClassifierState}
use neurodegen.Skill.Sizing.{SizingInput}
use neurodegen.Skill.Committee
use neurodegen.Skill.Committee.{
  AnalystResult, CommitteeInput, run_committee, sizing_input, must_hold_reasons, mean_weight,
}
use neurodegen.Skill.Agreement.{state_of, package_regimes, agent_regimes, package_regimes-agent}
use neurodegen.Skill.Decisions.{Justified, run_committee-Justified}
use neurodegen.Tests.Fixtures.{usd, cents, same_case, tokens}

abbrev mover : String → TopMover Fixed
mover symbol = record { symbol = symbol; percent_change1h = usd 6 }

abbrev snapshot : MarketSnapshot Fixed
snapshot = record {
  fear_greed_value = usd 50;
  top_movers_by_volume = mover "BNB" ∷ mover "CAKE" ∷ mover "ETH" ∷ mover "DOGE" ∷ [];
  funding_rates_by_pair = [];
  kol_velocity_by_token = ("CAKE", usd 7) ∷ [];
  active_surge_tokens = 0;
}

abbrev narrative : NarrativeOutput Fixed
narrative = record {
  narrative_summary = "";
  kol_mentioned_tokens = "ETH" ∷ "CAKE" ∷ [];
  sentiment_score = cents 50;
  confidence_level = cents 80;
  direction = bullish;
  flagged_anomalies = [];
  top_thesis_token = some "ETH";
}

abbrev quant : QuantAnalystOutput Fixed
quant = record {
  feature_weights = cents 60 ∷ cents 80 ∷ [];
  dominant_direction = bullish;
  liquidity_adequate = true;
  funding_rate_warning = false;
  recommended_token = some "CAKE";
}

abbrev begun : ClassifierState
begun = record { last_regime = none; exit_candidate_at = none }

abbrev input : CommitteeInput Fixed
input = record {
  snapshot = snapshot;
  regime_state = begun;
  portfolio = record {
    equity_usd = usd 1000;
    current_exposure_usd = usd 100;
    open_positions = 1;
    drawdown_pct = usd 3;
    daily_loss_usd = usd 2;
  };
  mandate = moderate;
  narrative_analyst = λ s. ok (record { parsed = narrative; parse_ok = true });
  quant_analyst = λ s. ok (record { parsed = quant; parse_ok = true });
  allowlist = none;
  now = 1000;
}

-- Calm again after a volatile regime, and calm for long enough.
abbrev series : List (MarketSnapshot Fixed × ℕ)
series = (snapshot, 1000) ∷ (snapshot, 100000) ∷ (snapshot, 130000) ∷ []

abbrev shaken : ClassifierState
shaken = record { last_regime = some volatile; exit_candidate_at = none }

package_regimes-agent_example :
    agent_regimes series (state_of shaken) ≡ package_regimes series shaken
package_regimes-agent_example = package_regimes-agent series shaken

-- Three surging tokens of the list make the market active; half of a hundred dollars is opened.
test_run_committee :
    ((run_committee input).0.action ≡ open_long) × ((run_committee input).0.size_usd ≡ usd 50)
unfolding Committee.opened
test_run_committee = (refl, refl)

run_committee-Justified_example : Justified input (run_committee input).0
unfolding Committee.opened
run_committee-Justified_example = run_committee-Justified input refl

times_one : (x : Fixed) → fixed_number.mul x (cents 100) ≡ x
times_one none = refl
times_one (some (pos n)) = ground arith
times_one (some (negsuc n)) = ground arith

abbrev parsed : ParseStatus
parsed = record { narrative_ok = true; quant_ok = false }

abbrev action_inputs : ActionInputs Fixed
action_inputs = record {
  regime = active;
  risk_level = moderate;
  quant = record {
    dominant_direction = bullish;
    liquidity_adequate = true;
    funding_rate_warning = false;
    recommended_token = none;
  };
  dissent = compute_dissent bullish bullish (some parsed);
  risk = record {
    action = open_long;
    target_token = some "CAKE";
    confidence = cents 80;
    rationale = "";
    dissent_acknowledged = true;
    overrides = [];
  };
  token_addresses = tokens;
  to_upper = same_case;
}

abbrev action_config : ActionConfig Fixed
action_config = record {
  agent_base_position_size_usd = usd 100;
  default_tp_percentage = cents 5;
  default_sl_percentage = cents 3;
}

abbrev sizing_of : SizingInput Fixed
sizing_of = record {
  base_usd = usd 100;
  regime = active;
  dissent = mild;
  mandate = moderate;
  equity_usd = usd 1000;
  current_exposure_usd = usd 100;
  drawdown_pct = usd 3;
}
