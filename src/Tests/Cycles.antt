-- ===== src/Tests/Cycles.antt =====
-- A run of one cycle.
use neurodegen.Common.{◌≡◌, refl, length, false, some, none, List, [], ◌∷◌}
use neurodegen.Common.Calls.{ok}
use neurodegen.Common.Fixed.{Fixed, fixed_number}
use neurodegen.Types.{open_long, PortfolioSnapshot}
use neurodegen.Services.{get_open_positions}
use neurodegen.Cognition.{momentum}
use neurodegen.Perception.HotState.{PerceptionEvent}
use neurodegen.Tracker.{Payload, quote}
use neurodegen.Llm.Spend.{is_killed}
use neurodegen.Cycle
use neurodegen.Cycle.{LoopState, CycleInputs, update_risk, is_quiet, run_cycle}
use neurodegen.Cycle.Gates.{Changed, Traded, stored, probed, run_cycle-Traded}
use neurodegen.Tests.Fixtures.{usd, advice, state, inputs, exec_settings, probe_settings, services}

abbrev quotes : List (PerceptionEvent (Payload Fixed))
quotes =
    record { event_id = "q"; source = "cmc_hub"; timestamp = 4; payload = quote "CAKE" (usd 2) }
    ∷ []

abbrev loop : LoopState Fixed
loop = record {
  cycle_count = 0;
  cycles_skipped_same_metrics = 0;
  last_metrics_hash = none;
  last_open_position_count = none;
  risk_state = state;
  probe_state = record { last_probe_day = some 0 };
  spend = record { day_bucket = 0; daily_usd = usd 0; call_count = 0; kill_active_until = none };
}

abbrev cycle : CycleInputs Fixed
cycle = record {
  regime = some momentum;
  metrics_hash = "m";
  events = quotes;
  budget_day = 0;
  probe_now = 0;
  probe_later = 0;
  session_id = "s1";
  reasoning_hash = "0xh";
  final_action = advice open_long;
  checked = inputs open_long;
}

run_cycle-Traded_example :
    (portfolio : PortfolioSnapshot Fixed) × (services.portfolio [] ≡ ok portfolio)
    × (is_quiet (some momentum) ≡ false)
    × Changed (usd 5) exec_settings probe_settings services cycle loop (
        length (
          stored
            (usd 5)
            exec_settings
            probe_settings
            services
            cycle
            (probed (usd 5) exec_settings probe_settings services cycle loop [])))
    × ((is_killed (usd 5) loop.spend 0).0 ≡ false)
    × Traded
        (usd 5)
        exec_settings
        probe_settings
        services
        cycle
        (update_risk state portfolio.total_value_usd)
        portfolio
        (get_open_positions ∷ probed (usd 5) exec_settings probe_settings services cycle loop [])
        (run_cycle (usd 5) exec_settings probe_settings services cycle loop []).0.0
unfolding Cycle.opened
run_cycle-Traded_example =
    run_cycle-Traded (usd 5) exec_settings probe_settings services cycle loop [] refl
