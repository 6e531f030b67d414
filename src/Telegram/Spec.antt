-- ===== src/Telegram/Spec.antt =====
-- The alerter's contract: what it sends at a time is settled by the log of what it has sent.
use package.text.Mathlib.Text.{◌==◌ as str_eq}
use neurodegen.Common.{
  ℕ, ◌+◌, String, Bool, false, ◌&&◌, ◌||◌, Option, none, some, List, [], ◌∷◌, ltb, if◌then◌else◌,
}
use neurodegen.Common.Number.{Number}
use neurodegen.Telegram.{
  DrawdownTier, normal, same_tier, AlertKey, same_key, SseEvent, Alert, position_open,
  position_close, committee_redacted, regime_shift, health, drawdown_shift, job_submitted, online,
  Thresholds, drawdown_to_tier,
}
use neurodegen.Telegram.Alerter.{
  health_dedupe_window_ms, dedupe_key, rested, position_alert, Input, event, job, Log, logged,
}

module _ {W : Type 0} where
  abbrev pub key_of : Alert W → AlertKey
  key_of (position_open _) = AlertKey.position_update
  key_of (position_close _) = AlertKey.position_update
  key_of (committee_redacted _) = AlertKey.committee_session_complete
  key_of (regime_shift _) = AlertKey.regime_change
  key_of (health _) = AlertKey.health_degradation
  key_of (drawdown_shift _ _ _) = AlertKey.drawdown_tier_change
  key_of (job_submitted _) = AlertKey.erc8183_job_submitted
  key_of (online _) = AlertKey.boot

  -- When an alert under the key was last sent.
  abbrev pub latest : AlertKey → Log W → Option ℕ
  latest key [] = none
  latest key ((t, alert) ∷ log) =
      let older = latest key log in if same_key (key_of alert) key then some t else older

  abbrev pub reports : String → Alert W → Bool
  reports key (health h) = str_eq (dedupe_key h) key
  reports key _ = false

  -- Whether the same health problem was sent in the last five minutes.
  abbrev pub reported : String → ℕ → Log W → Bool
  reported key now [] = false
  reported key now ((t, alert) ∷ log) =
      (reports key alert && ltb now (t + health_dedupe_window_ms)) || reported key now log

  -- The tier that the reader of the log knows of.
  abbrev pub known_tier : Log W → DrawdownTier
  known_tier [] = normal
  known_tier ((t, drawdown_shift _ next _) ∷ log) = next
  known_tier ((t, _) ∷ log) = known_tier log

  abbrev pub if_rested : AlertKey → Alert W → ℕ → Log W → Option (Alert W)
  if_rested key alert now log = if rested (latest key log) now then some alert else none

module _ {W : Type 0} ⦃num : Number W⦄ (limits : Thresholds W) where
  abbrev pub shift_due : Option W → ℕ → Log W → Option (Alert W)
  shift_due none now log = none
  shift_due (some pct) now log =
      let next = drawdown_to_tier limits pct in
      if same_tier next (known_tier log)
      then none
      else if_rested AlertKey.drawdown_tier_change (drawdown_shift (known_tier log) next pct) now
          log

  -- What is sent, as the log has it.
  unfoldable pub due : Input W → ℕ → Log W → Option (Alert W)
  due (event (SseEvent.position_update p)) now log = position_alert p
  due (event (SseEvent.committee_session_complete s)) now log =
      if_rested AlertKey.committee_session_complete (committee_redacted s) now log
  due (event (SseEvent.regime_change r)) now log =
      if_rested AlertKey.regime_change (regime_shift r) now log
  due (event (SseEvent.health_degradation h)) now log =
      if reported (dedupe_key h) now log
      then none
      else if_rested AlertKey.health_degradation (health h) now log
  due (event (SseEvent.agent_status_snapshot d)) now log = shift_due d now log
  due (event SseEvent.perception_event) now log = none
  due (event SseEvent.metrics_update) now log = none
  due (event SseEvent.committee_session_started) now log = none
  due (job j) now log = if_rested AlertKey.erc8183_job_submitted (job_submitted j) now log

  unfoldable pub run_log : List (ℕ × Input W) → Log W → Log W
  run_log [] log = log
  run_log ((now, i) ∷ rest) log = run_log rest (logged now (due i now log) log)
