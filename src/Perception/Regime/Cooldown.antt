-- ===== src/Perception/Regime/Cooldown.antt =====
-- The volatile regime is left only after a sustained recovery.
use neurodegen.Common.{
  ℕ, ◌+◌, ◌-◌, ◌≤◌, ◌<◌, ◌≡◌, ◌≢◌, ◌↔◌, ◌⊎◌, true, false, none, some, List, [], ◌∷◌, arith, All,
  Bool-cases, inl, inr,
}
use neurodegen.Common.Number.{Number}
use neurodegen.Cognition.{volatile}
use neurodegen.Perception.Regime.{
  RegimeMetrics, RegimeState, volatile_exit_cooldown_ms, is_volatile, base_classify, classification,
  recover, fresh, from_regime, classify_regime, advance_regime_state, evaluate_regime,
}

-- The candidate for the exit, if there is one, is not before `start`.
abbrev pub IsFrom : ℕ → RegimeState → Type 0
IsFrom start state =
    (state.last_volatile_exit_candidate_at ≡ none)
    ⊎ ((c : ℕ) × (state.last_volatile_exit_candidate_at ≡ some c) × (start ≤ c))

module _ {W : Type 0} ⦃num : Number W⦄ where
  base_classify-volatile :
      (m : RegimeMetrics W) → (base_classify m ≡ volatile) ↔ (is_volatile m ≡ true)
  unfolding base_classify
  base_classify-volatile m = ground arith

  -- Volatile metrics are classified volatile in every state. From the volatile regime any other
  -- outcome means calm metrics and a recovery that began at least the cooldown ago; calm metrics after
  -- such a recovery do leave the regime.
  pub classify_regime-volatile :
      (m : RegimeMetrics W) (state : RegimeState) (now : ℕ)
      → (is_volatile m ≡ true → (classify_regime m state now).0.regime ≡ volatile)
        × (state.last_regime ≡ some volatile
            → ((classify_regime m state now).0.regime ≢ volatile) ↔ (
                (is_volatile m ≡ false)
                × ((since : ℕ) × (state.last_volatile_exit_candidate_at ≡ some since)
                    × (volatile_exit_cooldown_ms ≤ now - since))))
  unfolding classify_regime from_regime recover fresh classification
  classify_regime-volatile m state now =
      let base = base_classify-volatile m in
      (ground (arith, base.1), λ was. (ground (arith, base.1), ground (arith, base.0)))

  -- A snapshot: metrics and the time of the evaluation.
  pub watch : RegimeState → List (RegimeMetrics W × ℕ) → RegimeState
  watch state [] = state
  watch state ((m, now) ∷ later) = watch (evaluate_regime state m now) later

  abbrev pub IsWithin : ℕ → RegimeMetrics W × ℕ → Type 0
  IsWithin start snapshot = (start ≤ snapshot.1) × (snapshot.1 < start + volatile_exit_cooldown_ms)

  evaluate-IsFrom :
      (state : RegimeState) (start now : ℕ) (m : RegimeMetrics W)
      → state.last_regime ≡ some volatile
      → IsFrom start state
      → start ≤ now
      → now < start + volatile_exit_cooldown_ms
      → ((evaluate_regime state m now).last_regime ≡ some volatile)
        × IsFrom start (evaluate_regime state m now)
  unfolding evaluate_regime advance_regime_state classify_regime from_regime recover classification
  evaluate-IsFrom state start now m was (inl none_yet) low high = (ground arith, ground arith)
  evaluate-IsFrom state start now m was (inr (c, is_c, h)) low high = (
    ground arith,
    elim (Bool-cases (is_volatile m)) [
      | inl v ↦ inl (ground arith)
      | inr calm ↦ inr (c, ground arith, h)
    ],
  )

  -- From the volatile regime, no run of evaluations within one cooldown leaves it, whatever the
  -- metrics, if no recovery began before the run.
  pub watch-volatile :
      (state : RegimeState) (start : ℕ) (snapshots : List (RegimeMetrics W × ℕ))
      → state.last_regime ≡ some volatile
      → IsFrom start state
      → All (IsWithin start) snapshots
      → (watch state snapshots).last_regime ≡ some volatile
  unfolding watch
  watch-volatile state start [] was from within = was
  watch-volatile state start ((m, now) ∷ later) was from within =
      let (still, from') = evaluate-IsFrom state start now m was from within.0.0 within.0.1 in
      watch-volatile (evaluate_regime state m now) start later still from' within.1
