-- ===== src/Skill/Decisions.antt =====
-- What a decision of the package to open a position rests on.
use neurodegen.Common.{
  ◌<◌, ◌≡◌, ◌≢◌, refl, Bool, true, false, List, [], ◌∷◌, arith, get_or, is_some, Bool-cases, inl,
  inr, &&-split, ◌∙◌, ap, All,
}
use neurodegen.Common.Number.{Number, IsOrdered, ◌≼◌}
use neurodegen.Types.{open_long}
use neurodegen.Cognition.{quiet, volatile, strong, none_found}
use neurodegen.Skill.{
  allowlist_symbols, max_concurrent_positions, daily_loss_cap_usd, min_confidence,
  funding_warning_confidence_override, max_position_usd,
}
use neurodegen.Skill.Sizing.{
  SizingInput, room, multiplied, final_size, size_position, round2, check_risk_caps,
}
use neurodegen.Skill.Candidate.{has, singleton, first_where, select_candidate-recommended}
use neurodegen.Skill.Committee.{
  CommitteeInput, DecisionRecord, HoldReason, pushed, flags, no_reasons, must_hold_reasons,
  run_committee, classified, conviction, weight, severity, candidate, quant_result, sizing_input,
  opens, is_quiet, sizing,
}

module _ {W : Type 0} ⦃num : Number W⦄ (laws : IsOrdered W) where
  final_size-le :
      (i : SizingInput W)
      → multiplied i ≼ multiplied i
      → room i ≼ room i
      → num.hundredths 0 ≼ max_position_usd
      → (final_size i).size ≼ max_position_usd × (final_size i).size ≼ room i
  unfolding final_size
  final_size-le i m r z = ground (
    arith,
    laws.max-ge (num.hundredths 0) _ r,
    laws.lt-eq max_position_usd (multiplied i),
    laws.lt-eq (room i) (multiplied i),
    laws.lt-eq (room i) max_position_usd,
    laws.le_trans (room i) (multiplied i) max_position_usd,
    laws.le_total (multiplied i) max_position_usd,
    laws.le_total (multiplied i) (room i),
    laws.le_total max_position_usd (room i),
    laws.refl_of_le (num.hundredths 0) max_position_usd,
  )

no_reasons-flags :
    (fs : List (Bool × HoldReason)) → no_reasons (pushed fs) ≡ true → All (λ f. f.0 ≡ false) fs
no_reasons-flags [] h = tt
no_reasons-flags ((b, r) ∷ fs) h = (ground (arith, h), no_reasons-flags fs (ground (arith, h)))

module _ {W : Type 0} ⦃num : Number W⦄ (i : CommitteeInput W) where
  -- What has to hold of the input for a position to be opened.
  pub record Justified (d : DecisionRecord W) : Type 0 where
    pub confident : num.lt (num.min (conviction i) (weight i)) min_confidence ≡ false
    pub not_opposed : severity i ≢ strong
    pub liquid : (quant_result i).parsed.liquidity_adequate ≡ true
    pub funding :
        (quant_result i).parsed.funding_rate_warning ≡ true
        → num.le (conviction i) funding_warning_confidence_override ≡ false
    pub volatile_agreed : (classified i).0 ≡ volatile → severity i ≡ none_found
    pub slot : i.portfolio.open_positions < max_concurrent_positions
    pub loss : num.le daily_loss_cap_usd i.portfolio.daily_loss_usd ≡ false
    pub regime : (classified i).0 ≢ quiet
    pub target :
        d.target_token
        ≡ first_where
            (has (get_or i.allowlist allowlist_symbols))
            (singleton (quant_result i).parsed.recommended_token)
    pub has_target : is_some d.target_token ≡ true
    pub size : d.size_usd ≡ round2 (final_size (sizing_input i)).size
    pub positive : num.lt (num.hundredths 0) d.size_usd ≡ true

  no_reasons-Justified :
      (d : DecisionRecord W)
      → no_reasons (must_hold_reasons i) ≡ true
      → d.target_token ≡ candidate i
      → d.size_usd ≡ (sizing i).size_usd
      → is_some (candidate i) ≡ true
      → num.lt (num.hundredths 0) (sizing i).size_usd ≡ true
      → (classified i).0 ≢ quiet
      → Justified d
  unfolding must_hold_reasons check_risk_caps size_position
  no_reasons-Justified d h t s c p q =
      let f = no_reasons-flags (flags i) h in
      record {
        confident = f.0;
        not_opposed = λ e. ground (arith, f.1.0, e);
        liquid = ground (arith, f.1.1.0);
        funding = λ e. ground (arith, f.1.1.1.0, e);
        volatile_agreed = λ e. ground (arith, f.1.1.1.1.1.0, e);
        slot = ground (arith, f.1.1.1.1.1.1.0);
        loss = f.1.1.1.1.1.1.1.0;
        regime = q;
        target = t ∙ select_candidate-recommended _ _ _ _;
        has_target = ap is_some t ∙ c;
        size = s;
        positive = ap (num.lt (num.hundredths 0)) s ∙ p;
      }

  -- A decision to open a position is made in no quiet regime, on no strong dissent and on none at all
  -- in the volatile regime, with enough conviction on both sides, adequate liquidity, a funding
  -- warning only against a high conviction, a free slot, a daily loss below the cap, and a positive
  -- size; its target is the token that the quant analyst recommends, which is in the list.
  pub run_committee-Justified :
      (run_committee i).0.action ≡ open_long → Justified (run_committee i).0
  unfolding run_committee
  run_committee-Justified h = elim (Bool-cases (is_quiet (classified i).0)) [
    | inl e ↦ ground (arith, e, h)
    | inr e ↦ elim (Bool-cases (opens i)) [
      | inl o ↦
          let (free, rest) = &&-split _ _ o in
          let (positive, found) = &&-split _ _ rest in
          rw (e, o)
            (no_reasons-Justified _ free refl refl found positive (λ q. ground (arith, e, q)))
      | inr o ↦ ground (arith, e, o, h)
    ]
  ]

  -- The size of an opened position is a rounded one that was within the position's cap and within
  -- what the exposure leaves, if neither the product of the multipliers nor that room is NaN.
  pub run_committee-size :
      IsOrdered W
      → multiplied (sizing_input i) ≼ multiplied (sizing_input i)
      → room (sizing_input i) ≼ room (sizing_input i)
      → num.hundredths 0 ≼ max_position_usd
      → (run_committee i).0.action ≡ open_long
      → (x : W) × ((run_committee i).0.size_usd ≡ round2 x)
        × (x ≼ max_position_usd)
        × (x ≼ room (sizing_input i))
  run_committee-size laws m r z h =
      let within = final_size-le laws (sizing_input i) m r z in
      (_, (run_committee-Justified h).size, within.0, within.1)
