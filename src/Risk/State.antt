-- ===== src/Risk/State.antt =====
-- `updateDrawdownFromValue` and `applyExecutionResult` over a run of the agent.
use neurodegen.Common.{◌≡◌, Bool, some, List, [], ◌∷◌, arith, length, All, filter, if◌then◌else◌}
use neurodegen.Common.Number.{Number, IsOrdered, ◌≼◌}
use neurodegen.Types.{RiskManagerState}
use neurodegen.Risk.{update_drawdown_from_value, apply_execution_result}

module _ {W : Type 0} ⦃num : Number W⦄ where
  -- One update for each portfolio value, oldest first.
  pub track : RiskManagerState W → List W → RiskManagerState W
  track s [] = s
  track s (v ∷ vs) = track (update_drawdown_from_value s v) vs

  -- One result for each closed trade, newest first.
  pub settle : RiskManagerState W → List W → RiskManagerState W
  settle s [] = s
  settle s (pnl ∷ older) = apply_execution_result (settle s older) (some pnl)

  abbrev pub is_loss : W → Bool
  is_loss pnl = num.lt pnl (num.hundredths 0)

  abbrev pub is_gain : W → Bool
  is_gain pnl = num.lt (num.hundredths 0) pnl

  -- The results since the last gain.
  abbrev pub since_gain : List W → List W
  since_gain [] = []
  since_gain (pnl ∷ older) = if is_gain pnl then [] else pnl ∷ since_gain older

module _ {W : Type 0} ⦃num : Number W⦄ (laws : IsOrdered W) where
  update-peak :
      (s : RiskManagerState W) (v : W)
      → s.peak_portfolio_value_usd ≼ s.peak_portfolio_value_usd
      → v ≼ v
      → let s' = update_drawdown_from_value s v in
        (s.peak_portfolio_value_usd ≼ s'.peak_portfolio_value_usd)
        × (v ≼ s'.peak_portfolio_value_usd)
  unfolding update_drawdown_from_value
  update-peak s v n hv = laws.max-ge _ v (laws.max-refl _ v n hv)

  -- The peak never falls, and after any run of values that are not NaN it is at least each of them.
  pub track-peak :
      (s : RiskManagerState W) (vs : List W)
      → s.peak_portfolio_value_usd ≼ s.peak_portfolio_value_usd
      → All (λ v. v ≼ v) vs
      → (s.peak_portfolio_value_usd ≼ (track s vs).peak_portfolio_value_usd)
        × All (λ v. v ≼ (track s vs).peak_portfolio_value_usd) vs
  unfolding track
  track-peak s [] n h = (n, tt)
  track-peak s (v ∷ vs) n (hv, h) =
      let s' = update_drawdown_from_value s v in
      let step = update-peak s v n hv in
      let rest = track-peak s' vs (laws.refl_of_le _ _ step.0).1 h in
      (
        laws.le_trans _ s'.peak_portfolio_value_usd _ step.0 rest.0,
        (laws.le_trans v s'.peak_portfolio_value_usd _ step.1 rest.0, rest.1),
      )

  -- A losing streak is the number of losses since the last gain; results of exactly zero neither
  -- extend nor end it.
  pub settle-streak :
      (s : RiskManagerState W) (pnls : List W)
      → s.consecutive_losses ≡ 0
      → (settle s pnls).consecutive_losses ≡ length (filter is_loss (since_gain pnls))
  unfolding settle apply_execution_result
  settle-streak s [] h = h
  settle-streak s (pnl ∷ older) h = ground (
    arith,
    settle-streak s older h,
    laws.lt-eq pnl (num.hundredths 0),
    laws.lt-eq (num.hundredths 0) pnl,
    laws.le_total pnl (num.hundredths 0),
  )
