-- ===== src/Cycle/Gates.antt =====
-- What holds when a cycle ends in each of its ways.
use neurodegen.Common.{
  ℕ, ◌≡◌, ◌≢◌, refl, inl, inr, Bool, true, false, not, ◌&&◌, ◌||◌, Option, none, some, List, ◌∷◌,
  arith, length, Bool-cases,
}
use neurodegen.Common.Number.{Number}
use neurodegen.Common.Calls.{ok, err}
use neurodegen.Types.{
  ActionType, adjust_parameters, hold, is_hold, PositionState, RiskManagerState, PortfolioSnapshot,
}
use neurodegen.Services.{Call, get_open_positions, get_portfolio, Services, Reply}
use neurodegen.Executor.{ExecSettings, execute}
use neurodegen.Probe.{ProbeSettings, probe_gate}
use neurodegen.Llm.Spend.{is_killed}
use neurodegen.Tracker.{or_no_positions}
use neurodegen.Cycle.{
  LoopState, CycleInputs, Outcome, executed, is_quiet, is_adjust, is_text, is_count, update_risk,
  pick_quoted_price, cycle_inputs, finish, with_price, with_session, with_budget, with_count,
  with_regime, with_wallet, run_cycle,
}

module _ {W : Type 0} ⦃num : Number W⦄ (daily_limit_usd : W) (settings : ExecSettings W)
    (probing : ProbeSettings W) (services : Services W) (i : CycleInputs W) where
  -- The positions that a read after the calls `t` gives.
  abbrev pub stored : List (Call W) → List (PositionState W)
  stored t = or_no_positions (services.open_positions t)

  -- What the executor was called with, after the calls `t` and its read of the positions, and that
  -- every gate before it was open.
  pub record Traded (state : RiskManagerState W) (portfolio : PortfolioSnapshot W)
      (t : List (Call W)) (r : Outcome W) : Type 0 where
    pub price : W
    pub enabled : settings.enable_execution ≡ true
    pub no_hold : i.final_action.action ≢ hold
    pub no_adjustment : i.final_action.action ≢ adjust_parameters
    pub quoted :
        pick_quoted_price settings.checks.to_upper i.events i.final_action.token_symbol ≡ some price
    pub finite : num.is_finite price ≡ true
    pub positive : num.le price (num.hundredths 0) ≡ false
    pub result :
        r
        ≡ executed
            (execute settings services
              (cycle_inputs i state portfolio (stored t) price)
              (get_open_positions ∷ t)).0

  abbrev pub is_executed : Outcome W → Bool
  is_executed (executed r) = true
  is_executed _ = false

  with_price-Traded :
      (s : LoopState W) (portfolio : PortfolioSnapshot W) (price : Option W) (t : List (Call W))
      → settings.enable_execution ≡ true
      → i.final_action.action ≢ hold
      → i.final_action.action ≢ adjust_parameters
      → pick_quoted_price settings.checks.to_upper i.events i.final_action.token_symbol ≡ price
      → let out =
          with_price daily_limit_usd settings probing services i s portfolio
            (stored t)
            price
            (get_open_positions ∷ t) in
        is_executed out.0.0 ≡ true → Traded s.risk_state portfolio t out.0.0
  unfolding with_price finish
  with_price-Traded s portfolio none t on acts adjusts quoted = λ h. cc
  with_price-Traded s portfolio (some price) t on acts adjusts quoted =
      elim (Bool-cases (not (num.is_finite price) || num.le price (num.hundredths 0))) [
        | inl bad ↦ rw bad (λ h. cc)
        | inr good ↦ rw good (λ h. record {
          price = price;
          enabled = on;
          no_hold = acts;
          no_adjustment = adjusts;
          quoted = quoted;
          finite = ground (arith, good);
          positive = ground (arith, good);
          result = refl;
        })
      ]

  acts-hold : (a : ActionType) → (is_hold a || is_adjust a) ≡ false → a ≢ hold
  acts-hold a h = ground arith

  acts-adjust : (a : ActionType) → (is_hold a || is_adjust a) ≡ false → a ≢ adjust_parameters
  acts-adjust a h = ground arith

  with_session-Traded :
      (s : LoopState W) (portfolio : PortfolioSnapshot W) (t : List (Call W))
      → let out = with_session daily_limit_usd settings probing services i s portfolio t in
        is_executed out.0.0 ≡ true → Traded s.risk_state portfolio t out.0.0
  unfolding with_session finish
  with_session-Traded s portfolio t = elim (Bool-cases settings.enable_execution) [
    | inr off ↦ simp off (λ h. cc)
    | inl on ↦
        simp on
          (elim (Bool-cases (is_hold i.final_action.action || is_adjust i.final_action.action)) [
            | inl idle ↦ simp idle (λ h. cc)
            | inr acts ↦ simp acts (
                with_price-Traded s portfolio _ t on (acts-hold i.final_action.action acts)
                  (acts-adjust i.final_action.action acts) refl)
          ])
  ]

  with_budget-Traded :
      (s : LoopState W) (portfolio : PortfolioSnapshot W) (t : List (Call W))
      → let out = with_budget daily_limit_usd settings probing services i s portfolio t in
        is_executed out.0.0 ≡ true
        → ((is_killed daily_limit_usd s.spend i.budget_day).0 ≡ false)
          × Traded s.risk_state portfolio t out.0.0
  unfolding with_budget finish
  with_budget-Traded s portfolio t =
      let (killed, spend) = is_killed daily_limit_usd s.spend i.budget_day in
      elim (Bool-cases killed) [
        | inl over ↦ rw over (λ h. cc)
        | inr under ↦
            rw under (λ h. (refl, with_session-Traded (record s { spend = spend }) portfolio t h))
      ]

  -- The metrics or the number of open positions are not those of the cycle before.
  abbrev pub Changed : LoopState W → ℕ → Type 0
  Changed s open_count =
      (is_text s.last_metrics_hash i.metrics_hash && is_count s.last_open_position_count open_count)
      ≡ false

  with_count-Traded :
      (s : LoopState W) (portfolio : PortfolioSnapshot W) (n : ℕ) (t : List (Call W))
      → let out = with_count daily_limit_usd settings probing services i s portfolio n t in
        is_executed out.0.0 ≡ true
        → Changed s n
          × ((is_killed daily_limit_usd s.spend i.budget_day).0 ≡ false)
          × Traded s.risk_state portfolio t out.0.0
  unfolding with_count finish
  with_count-Traded s portfolio n t =
      let same =
        is_text s.last_metrics_hash i.metrics_hash && is_count s.last_open_position_count n in
      elim (Bool-cases same) [
        | inl unchanged ↦ simp unchanged (λ h. cc)
        | inr changed ↦
            simp changed
              (λ h. let traded = with_budget-Traded _ portfolio t h in (refl, traded.0, traded.1))
      ]

  with_regime-Traded :
      (s : LoopState W) (portfolio : PortfolioSnapshot W) (t : List (Call W))
      → let out = with_regime daily_limit_usd settings probing services i s portfolio t in
        is_executed out.0.0 ≡ true
        → (is_quiet i.regime ≡ false)
          × Changed s (length (stored t))
          × ((is_killed daily_limit_usd s.spend i.budget_day).0 ≡ false)
          × Traded s.risk_state portfolio (get_open_positions ∷ t) out.0.0
  unfolding with_regime finish
  with_regime-Traded s portfolio t = elim (Bool-cases (is_quiet i.regime)) [
    | inl calm ↦ simp calm (λ h. cc)
    | inr busy ↦ simp busy (λ h.
        let traded = with_count-Traded s portfolio _ _ h in (refl, traded.0, traded.1, traded.2))
  ]

  -- The calls up to the probe's gate.
  abbrev pub probed : LoopState W → List (Call W) → List (Call W)
  probed s t =
      (probe_gate probing services s.probe_state i.probe_now i.probe_later (get_portfolio ∷ t)).1

  -- A cycle that calls the executor has read the portfolio, and has brought the drawdown up to date
  -- with its value if that is finite and positive; its regime is known and not quiet; the metrics, or
  -- the number of positions that it read after the probe's gate, are not those of the cycle before; the
  -- day's model spending is under its ceiling, execution is enabled, the session's action is neither a
  -- hold nor an adjustment, and the token has a quote that is finite and positive. The executor is
  -- given that state, that quote, and the positions that a second read gave.
  pub run_cycle-Traded :
      (s : LoopState W) (t : List (Call W))
      → let out = run_cycle daily_limit_usd settings probing services i s t in
        is_executed out.0.0 ≡ true
        → (portfolio : PortfolioSnapshot W) × (services.portfolio t ≡ ok portfolio)
          × (is_quiet i.regime ≡ false)
          × Changed s (length (stored (probed s t)))
          × ((is_killed daily_limit_usd s.spend i.budget_day).0 ≡ false)
          × Traded
              (update_risk s.risk_state portfolio.total_value_usd)
              portfolio
              (get_open_positions ∷ probed s t)
              out.0.0
  unfolding run_cycle with_wallet
  run_cycle-Traded s t = go (services.portfolio t)
    where
      go :
          (reply : Reply (PortfolioSnapshot W))
          → let out =
              with_wallet daily_limit_usd settings probing services i s reply (get_portfolio ∷ t) in
            is_executed out.0.0 ≡ true
            → (portfolio : PortfolioSnapshot W) × (reply ≡ ok portfolio)
              × (is_quiet i.regime ≡ false)
              × Changed s (length (stored (probed s t)))
              × ((is_killed daily_limit_usd s.spend i.budget_day).0 ≡ false)
              × Traded
                  (update_risk s.risk_state portfolio.total_value_usd)
                  portfolio
                  (get_open_positions ∷ probed s t)
                  out.0.0
      go (err e) h = cc
      go (ok portfolio) h =
          let traded = with_regime-Traded _ portfolio _ h in
          (portfolio, refl, traded.0, traded.1, traded.2, traded.3)
