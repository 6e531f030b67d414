-- ===== src/Loop/Screening.antt =====
-- From the paid security data to the execution: the fields that `runCycle` of
-- src/lib/services/agentLoop.ts takes from the check's event.
use mathlib.Core.Path.{subst}
use neurodegen.Common.{
  ◌≡◌, ap, sym, ◌∙◌, Bool, true, false, ◌||◌, Option, none, some, List, get_or, arith, Bool-cases,
  inl, inr,
}
use neurodegen.Common.Number.{Number, ◌≺◌, IsOrdered, not_le_of_lt}
use neurodegen.Services.{Call, Services}
use neurodegen.Precheck.{CheckInputs, is_true}
use neurodegen.Executor.{ExecSettings, ExecInputs, execute}
use neurodegen.Executor.Outcomes.{execute-IsOpened}
use neurodegen.Perception.Normalizer.{SecurityEvent}

neither : (a b : Bool) → a || b ≡ true → a ≡ false → b ≡ false → true ≡ false
neither a b h k l = ground (arith, h, k, l)

module _ {W : Type 0} where
  -- `securityEvent?.riskScore ?? null` and `securityEvent?.isHoneypot ?? null`
  unfoldable pub screened : CheckInputs W → Option (SecurityEvent W) → CheckInputs W
  screened c none = record c { security_risk_score = none; is_honeypot = none }
  screened c (some e) = record c {
    security_risk_score = some e.risk_score;
    is_honeypot = some e.is_honeypot;
  }

module _ {W : Type 0} ⦃num : Number W⦄ (s : ExecSettings W) (services : Services W) where
  -- No execution is reported as done for a token that the paid data flags as a honeypot or gives a
  -- risk score that is not below the limit.
  pub execute-screened :
      (laws : IsOrdered W) (i : ExecInputs W) (c : CheckInputs W) (e : SecurityEvent W)
      (t : List (Call W))
      → i.checked ≡ screened c (some e)
      → e.is_honeypot || num.le s.checks.config.security_risk_score_max e.risk_score ≡ true
      → (execute s services i t).0.execution_result.executed ≡ false
  unfolding screened
  execute-screened laws i c e t fed bad =
      elim (Bool-cases (execute s services i t).0.execution_result.executed) [
        | inr idle ↦ idle
        | inl done ↦
            let (size, cleared, opened) = execute-IsOpened s services laws i t done in
            let honest : e.is_honeypot ≡ false =
              sym (ap (λ x. is_true x.is_honeypot) fed) ∙ cleared.no_honeypot in
            let low : num.le s.checks.config.security_risk_score_max e.risk_score ≡ false =
              not_le_of_lt laws _ _ (
                subst
                  (λ x.
                    get_or x.security_risk_score (num.hundredths 0)
                    ≺ s.checks.config.security_risk_score_max)
                  fed cleared.low_risk) in
            done ∙ neither _ _ bad honest low
      ]
