-- ===== src/Risk/Tier.antt =====
-- `classifyDrawdownTier`: what the ladder does at each drawdown, whatever the mandate.
use neurodegen.Common.{ℕ, ◌≤◌, ◌≡◌, ◌↔◌, ◌⊎◌, Option, some, arith}
use neurodegen.Common.Number.{Number, IsOrdered, ◌≼◌, ◌≺◌, not_le_of_lt, min-le_iff, max-le_iff}
use neurodegen.Risk.{
  RiskConfig, DrawdownTier, normal, alert, defensive, halt, disqualified, effective_halt,
  effective_defensive, classify_drawdown_tier,
}

-- How far down the ladder a tier is.
abbrev pub rank : DrawdownTier → ℕ
rank normal = 0
rank alert = 1
rank defensive = 2
rank halt = 3
rank disqualified = 4

module _ {W : Type 0} ⦃num : Number W⦄ (laws : IsOrdered W) (cfg : RiskConfig W) where
  open cfg use {drawdown_alert_pct, drawdown_halt_pct, drawdown_disqualification_pct}

  -- A deeper drawdown is never classified into a milder tier, whatever the thresholds and the
  -- mandate.
  pub classify_drawdown_tier_mono :
      (m : Option W) (d e : W)
      → d ≼ e
      → rank (classify_drawdown_tier cfg d m) ≤ rank (classify_drawdown_tier cfg e m)
  unfolding classify_drawdown_tier
  classify_drawdown_tier_mono m d e h = ground (
    arith,
    laws.le_trans drawdown_disqualification_pct d e,
    laws.le_trans (effective_halt cfg m) d e,
    laws.le_trans (effective_defensive cfg m) d e,
    laws.le_trans drawdown_alert_pct d e,
  )

  effective_halt-le_iff :
      (m d : W)
      → m ≼ m
      → drawdown_alert_pct ≼ drawdown_alert_pct
      → drawdown_halt_pct ≼ drawdown_halt_pct
      → (effective_halt cfg (some m) ≼ d)
        ↔ ((drawdown_halt_pct ≼ d) ⊎ ((drawdown_alert_pct ≼ d) × (m ≼ d)))
  effective_halt-le_iff m d hm ha hh =
      let top = max-le_iff laws drawdown_alert_pct m d ha hm in
      let both =
        min-le_iff laws drawdown_halt_pct (num.max drawdown_alert_pct m) d hh
          (laws.max-refl drawdown_alert_pct m ha hm) in
      ground (arith, top.0, top.1, both.0, both.1)

  -- With a halt threshold at or below the disqualification threshold, execution is blocked (halt or
  -- disqualified) exactly when the drawdown has reached the global halt threshold, or has reached
  -- both the alert threshold and the mandate's own limit.
  pub blocked_iff :
      (m d : W)
      → m ≼ m
      → drawdown_alert_pct ≼ drawdown_alert_pct
      → drawdown_halt_pct ≼ drawdown_disqualification_pct
      → (3 ≤ rank (classify_drawdown_tier cfg d (some m)))
        ↔ ((drawdown_halt_pct ≼ d) ⊎ ((drawdown_alert_pct ≼ d) × (m ≼ d)))
  unfolding classify_drawdown_tier
  blocked_iff m d hm ha hd =
      let reached = effective_halt-le_iff m d hm ha (laws.refl_of_le _ _ hd).0 in
      ground (
        arith,
        reached.0,
        reached.1,
        laws.le_trans drawdown_halt_pct drawdown_disqualification_pct d hd,
      )

  defensive_above_alert : (m d : W) → effective_defensive cfg (some m) ≼ d → drawdown_alert_pct ≼ d
  defensive_above_alert m d h =
      laws.le_trans _ _ d (laws.max-ge drawdown_alert_pct _ (laws.refl_of_le _ d h).0).0 h

  -- Below the alert threshold the tier is `normal`, so a mandate's limit below that threshold does
  -- not halt at its own value.
  pub normal_below_alert :
      (m d : W)
      → m ≼ m
      → drawdown_alert_pct ≼ drawdown_halt_pct
      → drawdown_halt_pct ≼ drawdown_disqualification_pct
      → d ≺ drawdown_alert_pct
      → classify_drawdown_tier cfg d (some m) ≡ normal
  unfolding classify_drawdown_tier
  normal_below_alert m d hm ah hd low =
      let num_alert = (laws.refl_of_le _ _ ah).0 in
      let below_halt = effective_halt-le_iff m d hm num_alert (laws.refl_of_le _ _ ah).1 in
      ground (
        arith,
        not_le_of_lt laws d drawdown_alert_pct low,
        below_halt.0,
        laws.le_trans drawdown_alert_pct drawdown_halt_pct d ah,
        laws.le_trans drawdown_halt_pct drawdown_disqualification_pct d hd,
        defensive_above_alert m d,
      )
