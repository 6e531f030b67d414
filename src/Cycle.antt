-- ===== src/Cycle.antt =====
-- `runCycle` of src/lib/services/agentLoop.ts: the gates between perception, the committee and the
-- executor. The committee's session, the hash of the metrics and the paid security data are inputs;
-- what a cycle begins and does not wait for is left out here. `Aftermath`: what follows an execution.
pub mod Aftermath
pub mod Gates
use text.Mathlib.Text.{◌==◌ as str_eq}
use neurodegen.Common.{
  ℕ, ◌+◌, String, Bool, true, false, not, ◌&&◌, ◌||◌, Option, none, some, List, [], ◌∷◌, ◌==◌,
  length, if◌then◌else◌,
}
use neurodegen.Common.Number.{Number}
use neurodegen.Common.Calls.{Result, ok, err, Act, perform}
use neurodegen.Types.{
  ActionType, adjust_parameters, is_hold, ActionRecommendation, PositionState, RiskManagerState,
  PortfolioSnapshot,
}
use neurodegen.Services.{Call, get_open_positions, get_portfolio, Services, Reply}
use neurodegen.Cognition.{RegimeLabel, quiet}
use neurodegen.Executor
use neurodegen.Probe
use neurodegen.Llm.Spend
use neurodegen.Tracker
use neurodegen.Risk.{update_drawdown_from_value}
use neurodegen.Precheck.{CheckInputs}
use neurodegen.Executor.{ExecSettings, ExecInputs, ExecutorResult, execute}
use neurodegen.Probe.{ProbeSettings, ProbeState, probe_gate}
use neurodegen.Llm.Spend.{SpendState, is_killed}
use neurodegen.Perception.HotState.{PerceptionEvent}
use neurodegen.Tracker.{Payload, or_no_positions, pick_latest_cmc_price}

-- The fields of the loop that a cycle reads and writes. An open-position count of -1 is `none`.
pub record LoopState (W : Type 0) : Type 0 where
  pub cycle_count : ℕ
  pub cycles_skipped_same_metrics : ℕ
  pub last_metrics_hash : Option String
  pub last_open_position_count : Option ℕ
  pub risk_state : RiskManagerState W
  pub probe_state : ProbeState
  pub spend : SpendState W

-- The session's final action, and the rest of what `execute` is given.
pub record CycleInputs (W : Type 0) : Type 0 where
  pub regime : Option RegimeLabel
  pub metrics_hash : String
  pub events : List (PerceptionEvent (Payload W))
  pub budget_day : ℕ
  pub probe_now : ℕ
  pub probe_later : ℕ
  pub session_id : String
  pub reasoning_hash : String
  pub final_action : ActionRecommendation W
  pub checked : CheckInputs W

pub data Outcome (W : Type 0) : Type 0 where
  cycle_error : String → Outcome W
  quiet_regime same_metrics spend_killed execution_disabled no_action no_price : Outcome W
  executed : ExecutorResult W → Outcome W

-- `lastRegime ?? 'quiet'` is `quiet`
abbrev pub is_quiet : Option RegimeLabel → Bool
is_quiet none = true
is_quiet (some quiet) = true
is_quiet _ = false

abbrev is_adjust : ActionType → Bool
is_adjust adjust_parameters = true
is_adjust _ = false

abbrev pub is_text : Option String → String → Bool
is_text none s = false
is_text (some t) s = str_eq t s

abbrev pub is_count : Option ℕ → ℕ → Bool
is_count none n = false
is_count (some m) n = m == n

module _ {W : Type 0} ⦃num : Number W⦄ where
  pub update_risk : RiskManagerState W → W → RiskManagerState W
  update_risk state value =
      if num.is_finite value && num.lt (num.hundredths 0) value
      then update_drawdown_from_value state value
      else state

  pub pick_quoted_price :
      (String → String) → List (PerceptionEvent (Payload W)) → Option String → Option W
  pick_quoted_price to_upper events none = none
  pick_quoted_price to_upper events (some symbol) =
      if str_eq symbol "" then none else pick_latest_cmc_price to_upper events symbol

  pub cycle_inputs :
      CycleInputs W
      → RiskManagerState W
      → PortfolioSnapshot W
      → List (PositionState W)
      → W
      → ExecInputs W
  cycle_inputs i state portfolio positions price = record {
    session_id = i.session_id;
    reasoning_hash = i.reasoning_hash;
    checked = record i.checked {
      recommendation = i.final_action;
      state = state;
      open_positions = positions;
      portfolio = portfolio;
      cmc_price_usd = some price;
    };
  }

  finish : LoopState W → Outcome W → Outcome W × LoopState W
  finish s outcome = (outcome, record s { cycle_count = s.cycle_count + 1 })

module _ {W : Type 0} ⦃num : Number W⦄ (daily_limit_usd : W) (settings : ExecSettings W)
    (probing : ProbeSettings W) (services : Services W) (i : CycleInputs W) where
  with_price :
      LoopState W
      → PortfolioSnapshot W
      → List (PositionState W)
      → Option W
      → Act (Call W) (Outcome W × LoopState W)
  with_price s portfolio positions none t = (finish s no_price, t)
  with_price s portfolio positions (some price) t =
      let (result, t₁) =
        execute settings services (cycle_inputs i s.risk_state portfolio positions price) t in
      if not (num.is_finite price) || num.le price (num.hundredths 0)
      then (finish s no_price, t)
      else (finish s (executed result), t₁)

  -- After the committee.
  with_session : LoopState W → PortfolioSnapshot W → Act (Call W) (Outcome W × LoopState W)
  with_session s portfolio t =
      let (reply, t₁) = perform get_open_positions services.open_positions t in
      if not settings.enable_execution
      then (finish s execution_disabled, t)
      else if is_hold i.final_action.action || is_adjust i.final_action.action
      then (finish s no_action, t)
      else with_price s portfolio (or_no_positions reply)
          (pick_quoted_price settings.checks.to_upper i.events i.final_action.token_symbol) t₁

  with_budget : LoopState W → PortfolioSnapshot W → Act (Call W) (Outcome W × LoopState W)
  with_budget s portfolio t =
      let (killed, spend) = is_killed daily_limit_usd s.spend i.budget_day in
      let s' = record s { spend = spend } in
      if killed then (finish s' spend_killed, t) else with_session s' portfolio t

  with_count : LoopState W → PortfolioSnapshot W → ℕ → Act (Call W) (Outcome W × LoopState W)
  with_count s portfolio open_count t =
      if is_text s.last_metrics_hash i.metrics_hash
        && is_count s.last_open_position_count open_count
      then (
        finish (record s { cycles_skipped_same_metrics = s.cycles_skipped_same_metrics + 1 })
            same_metrics,
        t,
      )
      else with_budget
          (record s {
            last_metrics_hash = some i.metrics_hash;
            last_open_position_count = some open_count;
          })
          portfolio t

  with_regime : LoopState W → PortfolioSnapshot W → Act (Call W) (Outcome W × LoopState W)
  with_regime s portfolio t =
      let (reply, t₁) = perform get_open_positions services.open_positions t in
      if is_quiet i.regime
      then (finish s quiet_regime, t)
      else with_count s portfolio (length (or_no_positions reply)) t₁

  with_wallet : LoopState W → Reply (PortfolioSnapshot W) → Act (Call W) (Outcome W × LoopState W)
  with_wallet s (err e) t = ((cycle_error e, s), t)
  with_wallet s (ok portfolio) t =
      let (probe, t₁) = probe_gate probing services s.probe_state i.probe_now i.probe_later t in
      with_regime
        (record s {
          risk_state = update_risk s.risk_state portfolio.total_value_usd;
          probe_state = probe;
        })
        portfolio t₁

  pub run_cycle : LoopState W → Act (Call W) (Outcome W × LoopState W)
  run_cycle s t =
      let (reply, t₁) = perform get_portfolio services.portfolio t in with_wallet s reply t₁

-- Opens the cycle to a test by evaluation.
unfoldable pub opened : Unit {0}
unfolding Executor.opened Probe.opened Spend.opened Tracker.opened update_risk pick_quoted_price
    cycle_inputs finish with_price with_session with_budget with_count with_regime with_wallet
    run_cycle
opened = tt
