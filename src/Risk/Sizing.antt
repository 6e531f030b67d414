-- ===== src/Risk/Sizing.antt =====
-- `canAct`: the size of an approved opening.
use neurodegen.Common.{◌≡◌, ◌≢◌, some, true, false, List, arith}
use neurodegen.Common.Number.{Number, IsOrdered, ◌≼◌, ◌≺◌, lt_of_le_lt}
use neurodegen.Types.{
  close_position, ActionRecommendation, MandateConfig, PositionState, RiskManagerState,
}
use neurodegen.Risk.{
  RiskConfig, DrawdownTier, alert, classify_drawdown_tier, requested_size, max_per_token, headroom,
  capped_size, tiered_size, at_tier, can_trade, can_open, can_act,
}

module _ {W : Type 0} ⦃num : Number W⦄ (laws : IsOrdered W) where
  -- `x ≼ Math.min(a, b, c, d)`
  le-min₄ :
      (x a b c d : W)
      → num.min (num.min (num.min a b) c) d ≼ num.min (num.min (num.min a b) c) d
      → x ≼ num.min (num.min (num.min a b) c) d
      → (x ≼ a) × (x ≼ b) × (x ≼ c) × (x ≼ d)
  le-min₄ x a b c d n h =
      let abc = num.min (num.min a b) c in
      let ab = num.min a b in
      let p = laws.min-le abc d n in
      let q = laws.min-le ab c (laws.refl_of_le _ _ p.0).1 in
      let s = laws.min-le a b (laws.refl_of_le _ _ q.0).1 in
      let below_abc = laws.le_trans x _ abc h p.0 in
      let below_ab = laws.le_trans x abc ab below_abc q.0 in
      (
        laws.le_trans x ab a below_ab s.0,
        laws.le_trans x ab b below_ab s.1,
        laws.le_trans x abc c below_abc q.1,
        laws.le_trans x _ d h p.1,
      )

  module _ (cfg : RiskConfig W) (mandate : MandateConfig W) where
    -- Halving only shrinks a size that passes the minimum.
    tiered_size-le :
        (t : DrawdownTier) (size : W)
        → size ≼ size
        → num.hundredths 0 ≺ cfg.min_position_size_usd
        → num.lt (tiered_size cfg mandate t size) cfg.min_position_size_usd ≡ false
        → tiered_size cfg mandate t size ≼ size
    unfolding tiered_size
    tiered_size-le alert size n pos h =
        let zero = num.hundredths 0 in
        let half = num.mul size (num.hundredths 50) in
        ground (
          arith,
          laws.lt-eq zero cfg.min_position_size_usd,
          laws.le_total zero size,
          laws.half-le size,
          laws.half-neg size,
          lt_of_le_lt laws half zero cfg.min_position_size_usd,
        )
    tiered_size-le _ size n pos h = n

    below_each :
        (t : DrawdownTier) (r : ActionRecommendation W) (positions : List (PositionState W))
        (value : W)
        → let least = capped_size cfg mandate r positions value in
          least ≼ least
          → tiered_size cfg mandate t least ≼ least
          → (tiered_size cfg mandate t least ≼ requested_size cfg mandate r)
            × (tiered_size cfg mandate t least ≼ max_per_token cfg mandate value)
            × (tiered_size cfg mandate t least ≼ headroom cfg mandate positions value)
            × (tiered_size cfg mandate t least ≼ cfg.per_position_size_cap_usd)
    unfolding capped_size
    below_each t r positions value n small = le-min₄ _ _ _ _ _ n small

    abbrev drawdown_tier : RiskManagerState W → DrawdownTier
    drawdown_tier state =
        classify_drawdown_tier cfg state.current_drawdown_from_peak (some mandate.max_drawdown_pct)

    approved_size :
        (r : ActionRecommendation W) (state : RiskManagerState W)
        (positions : List (PositionState W)) (value : W)
        → r.action ≢ close_position
        → (can_act cfg mandate r state positions value).approved ≡ true
        → let size =
            tiered_size cfg mandate
              (drawdown_tier state)
              (capped_size cfg mandate r positions value) in
          ((can_act cfg mandate r state positions value).adjusted_position_size_usd
            ≡ some (num.round2 size))
          × (num.lt size cfg.min_position_size_usd ≡ false)
    unfolding can_act at_tier can_trade can_open
    approved_size r state positions value opens ok = ground arith

    -- An approved opening has a size that is `s` rounded to cents, where `s` is at most the requested
    -- size, the mandate's share of the portfolio, the room under the exposure cap and the cap on a
    -- position, and is not under the minimum. (The least of the four is not NaN, and the minimum is
    -- positive.)
    pub can_act-size :
        (r : ActionRecommendation W) (state : RiskManagerState W)
        (positions : List (PositionState W)) (value : W)
        → capped_size cfg mandate r positions value ≼ capped_size cfg mandate r positions value
        → num.hundredths 0 ≺ cfg.min_position_size_usd
        → r.action ≢ close_position
        → (can_act cfg mandate r state positions value).approved ≡ true
        → (s : W) × ((can_act cfg mandate r state positions value).adjusted_position_size_usd
            ≡ some (num.round2 s))
          × (s ≼ requested_size cfg mandate r)
          × (s ≼ max_per_token cfg mandate value)
          × (s ≼ headroom cfg mandate positions value)
          × (s ≼ cfg.per_position_size_cap_usd)
          × (num.lt s cfg.min_position_size_usd ≡ false)
    can_act-size r state positions value n pos opens ok =
        let t = drawdown_tier state in
        let size = tiered_size cfg mandate t (capped_size cfg mandate r positions value) in
        let kept = approved_size r state positions value opens ok in
        let small = tiered_size-le t (capped_size cfg mandate r positions value) n pos kept.1 in
        let bounds = below_each t r positions value n small in
        (size, kept.0, bounds.0, bounds.1, bounds.2, bounds.3, kept.1)
