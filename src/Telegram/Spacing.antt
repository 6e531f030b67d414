-- ===== src/Telegram/Spacing.antt =====
-- How far apart the alerter's messages are, over a whole session.
use package.text.Mathlib.TextEquality.{eq_iff}
use mathlib.Core.Path.{subst}
use neurodegen.Common.{
  ℕ, ◌+◌, ◌≤◌, ◌≡◌, ◌≢◌, refl, String, true, false, Option, none, some, List, [], ◌∷◌, arith, All,
  Bool-cases, inl, inr,
}
use neurodegen.Common.Number.{Number}
use neurodegen.Telegram.{
  DrawdownTier, same_tier, AlertKey, same_key, HealthDegradationLike, SseEvent, Alert, health,
  drawdown_shift, Thresholds, drawdown_to_tier, position_open, position_close, committee_redacted,
  regime_shift, job_submitted,
}
use neurodegen.Telegram.Alerter.{
  rate_limit_ms, health_dedupe_window_ms, dedupe_key, is_exempt, rested, position_alert, Input,
  event, job, Log, logged, StartEnv, stopped, start, run_alerter,
}
use neurodegen.Telegram.Spec.{
  key_of, latest, reports, reported, known_tier, if_rested, shift_due, due, run_log,
}
use neurodegen.Telegram.Refinement.{
  is_position, position_alert-is_position, Forward, run_alerter-refines,
}

same_key-eq : (j k : AlertKey) → same_key j k ≡ true → j ≡ k
same_key-eq j k h = ground arith

pub same_tier_refl : (t : DrawdownTier) → same_tier t t ≡ true
same_tier_refl t = ground arith

module _ {W : Type 0} where
  -- An older entry of the key is half a minute or more back.
  abbrev pub Apart : AlertKey → ℕ → ℕ × Alert W → Type 0
  Apart key now (t, alert) = same_key (key_of alert) key ≡ true → t + rate_limit_ms ≤ now

  -- An older report of the same health problem is five minutes or more back.
  abbrev pub ReportApart : String → ℕ → ℕ × Alert W → Type 0
  ReportApart key now (t, alert) = reports key alert ≡ true → t + health_dedupe_window_ms ≤ now

  -- A change of tier starts from the tier last told, and is a change.
  abbrev pub Continues : Alert W → Log W → Type 0
  Continues (drawdown_shift prev next pct) log = (prev ≡ known_tier log) × (prev ≢ next)
  Continues _ log = Unit

  -- What each entry is to the older ones.
  pub record Proper (now : ℕ) (alert : Alert W) (log : Log W) : Type 0 where
    pub rate : is_exempt (key_of alert) ≡ false → All (Apart (key_of alert) now) log
    pub report : (key : String) → reports key alert ≡ true → All (ReportApart key now) log
    pub tier : Continues alert log

  abbrev pub Paced : Log W → Type 0
  Paced [] = Unit
  Paced ((now, alert) ∷ log) = Proper now alert log × Paced log

  All-Apart_mono :
      (key : AlertKey) (t now : ℕ) (log : Log W)
      → t ≤ now
      → All (Apart key t) log
      → All (Apart key now) log
  All-Apart_mono key t now [] h k = tt
  All-Apart_mono key t now ((s, b) ∷ log) h k =
      (λ e. omega (arith, k.0 e, h), All-Apart_mono key t now log h k.1)

  rested-Apart :
      (key : AlertKey) (now : ℕ) (log : Log W)
      → is_exempt key ≡ false
      → rested (latest key log) now ≡ true
      → Paced log
      → All (Apart key now) log
  rested-Apart key now [] exempt h g = tt
  rested-Apart key now ((t, b) ∷ log) exempt h g = elim (Bool-cases (same_key (key_of b) key)) [
    | inl e ↦
        let same = same_key-eq (key_of b) key e in
        let apart : t + rate_limit_ms ≤ now = ground (arith, e, h) in
        let older : All (Apart key t) log =
          subst (λ k. is_exempt k ≡ false → All (Apart k t) log) same g.0.rate exempt in
        (λ _. apart, All-Apart_mono key t now log (omega (arith, apart)) older)
    | inr e ↦
        let rest : rested (latest key log) now ≡ true = ground (arith, e, h) in
        (λ d. ground (arith, e, d), rested-Apart key now log exempt rest g.1)
  ]

  not_reported-ReportApart :
      (key : String) (now : ℕ) (log : Log W)
      → reported key now log ≡ false
      → All (ReportApart key now) log
  not_reported-ReportApart key now [] h = tt
  not_reported-ReportApart key now ((t, b) ∷ log) h =
      let rest : reported key now log ≡ false = ground (arith, h) in
      (λ e. ground (arith, h, e), not_reported-ReportApart key now log rest)

  -- An alert that keeps its rate, and what else its kind asks for.
  if_rested-Paced :
      (alert : Alert W) (now : ℕ) (log : Log W)
      → is_exempt (key_of alert) ≡ false
      → ((key : String) → reports key alert ≡ true → All (ReportApart key now) log)
      → Continues alert log
      → Paced log
      → Paced (logged now (if_rested (key_of alert) alert now log) log)
  if_rested-Paced alert now log exempt report tier g =
      elim (Bool-cases (rested (latest (key_of alert) log) now)) [
        | inl e ↦ rw e (
          record {
            rate = λ _. rested-Apart (key_of alert) now log exempt e g;
            report = report;
            tier = tier;
          },
          g,
        )
        | inr e ↦ rw e g
      ]

  position-Proper :
      (o : Option (Alert W)) (now : ℕ) (log : Log W)
      → is_position o ≡ true
      → Paced log
      → Paced (logged now o log)
  position-Proper none now log h g = g
  position-Proper (some (position_open p)) now log h g =
      (record { rate = λ e. ground arith; report = λ key e. ground arith; tier = tt }, g)
  position-Proper (some (position_close p)) now log h g =
      (record { rate = λ e. ground arith; report = λ key e. ground arith; tier = tt }, g)
  position-Proper (some _) now log h g = ground arith

module _ {W : Type 0} ⦃num : Number W⦄ (limits : Thresholds W) where
  health-Paced :
      (h : HealthDegradationLike) (now : ℕ) (log : Log W)
      → Paced log
      → Paced (logged now (due limits (event (SseEvent.health_degradation h)) now log) log)
  unfolding due
  health-Paced h now log g = elim (Bool-cases (reported (dedupe_key h) now log)) [
    | inl e ↦ rw e g
    | inr e ↦ rw e (
        if_rested-Paced (health h) now log refl
          (λ key d.
            subst (λ k. All (ReportApart k now) log) ((eq_iff (dedupe_key h) key).0 d)
              (not_reported-ReportApart (dedupe_key h) now log e))
          tt g)
  ]

  shift-Paced :
      (d : Option W) (now : ℕ) (log : Log W)
      → Paced log
      → Paced (logged now (shift_due limits d now log) log)
  shift-Paced none now log g = g
  shift-Paced (some pct) now log g =
      let next = drawdown_to_tier limits pct in
      elim (Bool-cases (same_tier next (known_tier log))) [
        | inl e ↦ rw e g
        | inr e ↦ rw e (
            if_rested-Paced (drawdown_shift (known_tier log) next pct) now log refl
              (λ key h. ground arith) (refl, λ h. ground (arith, e, h, same_tier_refl next)) g)
      ]

  due-Paced :
      (i : Input W) (now : ℕ) (log : Log W)
      → Paced log
      → Paced (logged now (due limits i now log) log)
  unfolding due
  due-Paced (event (SseEvent.position_update p)) now log g =
      position-Proper (position_alert p) now log (position_alert-is_position p) g
  due-Paced (event (SseEvent.committee_session_complete s)) now log g =
      if_rested-Paced (committee_redacted s) now log refl (λ key h. ground arith) tt g
  due-Paced (event (SseEvent.regime_change r)) now log g =
      if_rested-Paced (regime_shift r) now log refl (λ key h. ground arith) tt g
  due-Paced (event (SseEvent.health_degradation h)) now log g = health-Paced h now log g
  due-Paced (event (SseEvent.agent_status_snapshot d)) now log g = shift-Paced d now log g
  due-Paced (event SseEvent.perception_event) now log g = g
  due-Paced (event SseEvent.metrics_update) now log g = g
  due-Paced (event SseEvent.committee_session_started) now log g = g
  due-Paced (job j) now log g =
      if_rested-Paced (job_submitted j) now log refl (λ key h. ground arith) tt g

  run_log-Paced :
      (inputs : List (ℕ × Input W)) (log : Log W) → Paced log → Paced (run_log limits inputs log)
  unfolding run_log
  run_log-Paced [] log g = g
  run_log-Paced ((now, i) ∷ rest) log g = run_log-Paced rest _ (due-Paced i now log g)

  -- From a start that succeeds, and while the clock does not go back, two messages under one key are
  -- half a minute or more apart, position updates excepted; two reports of the same health problem
  -- are five minutes or more apart; and each change of the drawdown tier starts from the tier that
  -- was last told and goes to another.
  pub run_alerter-Paced :
      (env : StartEnv) (inputs : List (ℕ × Input W))
      → (start env stopped).started ≡ true
      → Forward 0 inputs
      → Paced (run_alerter limits inputs (start env stopped) [])
  run_alerter-Paced env inputs h f =
      rw (run_alerter-refines limits env inputs h f) (run_log-Paced inputs [] tt)
