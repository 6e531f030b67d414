-- ===== src/Tests/Signals.antt =====
-- Runs of the regime classifier and of the gate on paid data.
use neurodegen.Common.{◌↔◌, String, ℕ, ◌≡◌, refl, some, none, List, [], ◌∷◌, inr, arith}
use neurodegen.Common.Fixed.{Fixed, fixed_number}
use neurodegen.Cognition.{active, volatile}
use neurodegen.Perception.Regime.{RegimeMetrics, RegimeState}
use neurodegen.Perception.Regime.Cooldown.{watch, watch-volatile}
use neurodegen.Common.OrderedMap.{get, set}
use neurodegen.Perception.Aggregator.{
  Quote, MarketEvent, quote_update, Stamped, nothing_yet, take_all, rank_onto, active_surge_tokens,
}
use neurodegen.Perception.Aggregator.Newest.{Quotes, IsTimed, quotes-arrival}
use neurodegen.Perception.EvGate.{
  EvConfig, EvGateInput, EvDecision, price_spike, evaluate_ev, X402Spend,
}
use neurodegen.Perception.HotState.{
  PerceptionEvent, HotState, empty_state, evict, get_recent_events,
}
use neurodegen.Perception.HotState.Eviction.{add_all, evict-invisible}
use neurodegen.Tests.Fixtures.{usd, cents}

abbrev metrics : RegimeMetrics Fixed
metrics = record {
  fear_greed_value = usd 50;
  funding_rates_by_pair = [];
  kol_velocity_by_token = [];
  active_surge_tokens = 3;
}

abbrev recovering : RegimeState
recovering = record { last_regime = some volatile; last_volatile_exit_candidate_at = some 1000 }

abbrev snapshots : List (RegimeMetrics Fixed × ℕ)
snapshots = (metrics, 1000) ∷ (metrics, 90000) ∷ []

watch-volatile_example : (watch recovering snapshots).last_regime ≡ some volatile
watch-volatile_example =
    watch-volatile recovering 1000 snapshots refl (inr (1000, refl, omega arith))
      ((omega arith, omega arith), ((omega arith, omega arith), tt))

abbrev ev_config : EvConfig Fixed
ev_config = record {
  ev_base_confidence = cents 60;
  ev_threshold = usd 3;
  x402_cost_per_call_usdc = cents 1;
  agent_base_position_size_usd = usd 100;
}

abbrev ev_input : EvGateInput Fixed
ev_input = record {
  triggering_signal = price_spike;
  regime = active;
  signal_magnitude = cents 5;
  gas_cost_usd = cents 10;
  position_size_usd = none;
  base_confidence = none;
  override_threshold = none;
}

abbrev decision : EvDecision Fixed
decision = evaluate_ev ev_config ev_input

abbrev none_spent : X402Spend Fixed
none_spent = record { session_usdc = cents 0; daily_usdc = cents 0; day_bucket = 0 }

abbrev two_days : List (ℕ × EvDecision Fixed)
two_days = (0, decision) ∷ (1, decision) ∷ []

abbrev event : String → ℕ → PerceptionEvent ℕ
event id time = record { event_id = id; source = "cmc_hub"; timestamp = time; payload = 0 }

abbrev adds : List (PerceptionEvent ℕ × ℕ)
adds = (event "a" 5, 10) ∷ (event "b" 7, 12) ∷ (event "a" 9, 20) ∷ []

abbrev store : HotState ℕ
store = add_all 100 empty_state adds

evict-invisible_example :
    get_recent_events (evict store 115) (some "cmc_hub") none 118
    ≡ get_recent_events store (some "cmc_hub") none 118
evict-invisible_example = evict-invisible 100 adds (some "cmc_hub") none 115 118 (omega arith)

abbrev quote_at : ℕ → String → ℕ → ℕ × MarketEvent Fixed
quote_at t symbol change = (
  t,
  quote_update (record {
    token_symbol = symbol;
    token_address = "0x";
    percent_change1h = usd change;
    volume24h_usd = usd 1;
  }),
)

abbrev window : List (ℕ × MarketEvent Fixed)
window = quote_at 1 "CAKE" 9 ∷ quote_at 3 "CAKE" 2 ∷ quote_at 2 "ETH" 7 ∷ []

abbrev window_late : List (ℕ × MarketEvent Fixed)
window_late = quote_at 3 "CAKE" 2 ∷ quote_at 2 "ETH" 7 ∷ quote_at 1 "CAKE" 9 ∷ []

window-IsTimed : IsTimed "CAKE" window
window-IsTimed q r h k e = ground (arith, h, k, e)

window-same : (q : Stamped (Quote Fixed)) → Quotes "CAKE" q window ↔ Quotes "CAKE" q window_late
window-same q = (λ h. ground (arith, h), λ h. ground (arith, h))

quotes-arrival_example :
    get "CAKE" (take_all window nothing_yet).quotes
    ≡ get "CAKE" (take_all window_late nothing_yet).quotes
quotes-arrival_example = quotes-arrival "CAKE" window window_late window-IsTimed window-same

-- One of the two tokens surges by its newest quote.
test_active_surge_tokens : active_surge_tokens (usd 5) window ≡ 1
unfolding active_surge_tokens rank_onto take_all get set
test_active_surge_tokens = refl
