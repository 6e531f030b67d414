-- ===== src/Risk/Guards.antt =====
-- `canAct`: which recommendations are approved.
use neurodegen.Common.{
  ◌≤◌, ◌<◌, ◌≡◌, ◌≢◌, ◌↔◌, some, true, false, List, [], arith, length, is_some, not,
}
use neurodegen.Common.Number.{Number}
use neurodegen.Types.{
  hold, close_position, ActionRecommendation, MandateConfig, PositionState, RiskManagerState,
}
use neurodegen.Risk.{
  RiskConfig, DrawdownTier, classify_drawdown_tier, at_tier, can_trade, can_close, can_open,
  can_act,
}
use neurodegen.Risk.Tier.{rank}

module _ {W : Type 0} ⦃num : Number W⦄ (cfg : RiskConfig W) (mandate : MandateConfig W)
    (r : ActionRecommendation W) (state : RiskManagerState W) (positions : List (PositionState W))
    (portfolio_value : W) where
  abbrev tier : DrawdownTier
  tier = classify_drawdown_tier cfg state.current_drawdown_from_peak (some mandate.max_drawdown_pct)

  -- An approved recommendation is no hold, is made in a tier that is not blocked, is a close in the
  -- defensive tier, comes while the losing streak is under the mandate's limit, has a position to
  -- close if it is a close, and otherwise finds a free slot and a daily result above the cap.
  pub can_act-guards :
      (can_act cfg mandate r state positions portfolio_value).approved ≡ true
      → (r.action ≢ hold)
        × (rank tier ≤ 2)
        × (rank tier ≡ 2 → r.action ≡ close_position)
        × (state.consecutive_losses < mandate.consecutive_loss_halt)
        × (r.action ≡ close_position → positions ≢ [])
        × (r.action ≢ close_position
            → (length positions < cfg.max_concurrent_positions)
              × (num.le state.daily_pnl_usd (num.sub (num.hundredths 0) cfg.max_daily_loss_usd)
                  ≡ false))
  unfolding can_act at_tier can_trade can_close can_open
  can_act-guards = ground arith

  -- A verdict either approves with a size and no reason, or rejects with a reason and no size.
  pub can_act-is_definite :
      let v = can_act cfg mandate r state positions portfolio_value in
      (is_some v.rejection_reason ≡ not v.approved)
      × (is_some v.adjusted_position_size_usd ≡ v.approved)
  unfolding can_act at_tier can_trade can_close can_open
  can_act-is_definite = ground arith

  -- A close is approved exactly when the tier is not blocked, the losing streak is under the
  -- mandate's limit and a position is open; neither the daily result nor the size is looked at.
  pub can_act-close_iff :
      r.action ≡ close_position
      → ((can_act cfg mandate r state positions portfolio_value).approved ≡ true) ↔ (
          (rank tier ≤ 2)
          × (state.consecutive_losses < mandate.consecutive_loss_halt)
          × (positions ≢ []))
  unfolding can_act at_tier can_trade can_close
  can_act-close_iff = ground arith

  -- The size that an approved close carries is zero.
  pub can_act-close_size :
      r.action ≡ close_position
      → (can_act cfg mandate r state positions portfolio_value).approved ≡ true
      → (can_act cfg mandate r state positions portfolio_value).adjusted_position_size_usd
        ≡ some (num.hundredths 0)
  unfolding can_act at_tier can_trade can_close
  can_act-close_size = ground arith
