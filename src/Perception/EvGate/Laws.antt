-- ===== src/Perception/EvGate/Laws.antt =====
-- When premium data is fetched, and what the tracker adds up.
use neurodegen.Common.{
  ℕ, ◌≡◌, ◌≢◌, ◌↔◌, refl, ap, ◌∙◌, true, false, List, [], ◌∷◌, arith, filter, map, Bool-cases, inl,
  inr,
}
use neurodegen.Common.Number.{Number, ◌≼◌, ◌≺◌}
use neurodegen.Cognition.{quiet}
use neurodegen.Perception.Regime.{regime_params}
use neurodegen.Perception.EvGate.{
  EvConfig, EvGateInput, EvDecision, projected_alpha, threshold, ratio, evaluate_ev, X402Spend,
  roll_day, record_spend,
}

module _ {W : Type 0} ⦃num : Number W⦄ (cfg : EvConfig W) (i : EvGateInput W) where
  -- A premium call is made exactly outside the quiet regime, for a positive projected gain whose ratio
  -- to the cost reaches the threshold.
  pub evaluate_ev_iff : ((evaluate_ev cfg i).should_fetch_premium ≡ true) ↔ (
      (i.regime ≢ quiet)
      × (threshold cfg i ≼ ratio cfg i)
      × (num.hundredths 0 ≺ projected_alpha cfg i))
  unfolding evaluate_ev regime_params
  evaluate_ev_iff = ground arith

module _ {W : Type 0} ⦃num : Number W⦄ where
  -- The spending of a run: the day and the decision of each step, oldest first.
  pub spend_all : X402Spend W → List (ℕ × EvDecision W) → X402Spend W
  spend_all s [] = s
  spend_all s ((today, d) ∷ rest) = spend_all (record_spend s today d) rest

  -- The costs of the calls that were made.
  abbrev pub paid : List (ℕ × EvDecision W) → List W
  paid ds = map (λ d. d.1.x402_cost_usdc) (filter (λ d. d.1.should_fetch_premium) ds)

  pub sum_from : W → List W → W
  sum_from acc [] = acc
  sum_from acc (x ∷ xs) = sum_from (num.add acc x) xs

  spent :
      (s : X402Spend W) (today : ℕ) (d : EvDecision W)
      → d.should_fetch_premium ≡ true
      → (record_spend s today d).session_usdc ≡ num.add s.session_usdc d.x402_cost_usdc
  unfolding record_spend roll_day
  spent s today d h = ground arith

  kept :
      (s : X402Spend W) (today : ℕ) (d : EvDecision W)
      → d.should_fetch_premium ≡ false
      → record_spend s today d ≡ s
  unfolding record_spend
  kept s today d h = rw h

  -- The session's total is the sum of the costs of the calls that were made, in order, whatever days
  -- they fall on.
  pub spend_all-session :
      (s : X402Spend W) (ds : List (ℕ × EvDecision W))
      → (spend_all s ds).session_usdc ≡ sum_from s.session_usdc (paid ds)
  unfolding spend_all sum_from
  spend_all-session s [] = refl
  spend_all-session s ((today, d) ∷ rest) =
      let total = spend_all-session (record_spend s today d) rest in
      elim (Bool-cases d.should_fetch_premium) [
        | inl fetch ↦ simp fetch (total ∙ ap (λ x. sum_from x (paid rest)) (spent s today d fetch))
        | inr skip ↦
            simp skip (total ∙ ap (λ x. sum_from x.session_usdc (paid rest)) (kept s today d skip))
      ]
