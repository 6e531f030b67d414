-- ===== src/Telegram/Refinement.antt =====
-- The alerter's fields against its log: what each field tells, every input keeps.
use package.text.Mathlib.Text.{◌==◌ as str_eq}
use neurodegen.Common.{
  ℕ, ◌+◌, ◌≤◌, ◌≡◌, refl, String, Bool, true, false, ◌&&◌, ◌||◌, Option, none, some, List, [], ◌∷◌,
  ◌++◌, arith, ltb, if◌then◌else◌, any, filter, Bool-cases, inl, inr, ◌∙◌,
}
use neurodegen.Common.Number.{Number}
use neurodegen.Telegram.{
  AlertKey, HealthDegradationLike, DrawdownTier, same_tier, drawdown_shift, committee_redacted,
  regime_shift, job_submitted, SseEvent, Alert, position_open, position_close, drawdown_to_tier,
  health, Thresholds, PositionUpdateLike,
}
use neurodegen.Telegram.Alerter.{
  DedupeEntry, Alerter, StartEnv, stopped, start, health_dedupe_window_ms, dedupe_key, is_exempt,
  can_send, mark_sent, is_fresh, has_key, mark_and_fire, throttled, position_alert, send_position,
  handle_position_update, handle_committee_session, handle_regime_change, handle_health,
  handle_status_snapshot, notify_erc8183_job_submitted, on_event, receive, run_alerter, Input,
  event, job, Log, logged, rested,
}
use neurodegen.Telegram.Spec.{
  key_of, latest, reported, known_tier, if_rested, shift_due, due, run_log,
}

-- An entry that would hold a report back.
abbrev holds : String → ℕ → DedupeEntry → Bool
holds key t e = has_key key e && is_fresh t e

abbrev entry : String → ℕ → DedupeEntry
entry key now = record { key = key; sent_at = now }

any-holds-filter :
    (key : String) (now t : ℕ) (es : List DedupeEntry)
    → now ≤ t
    → any (holds key t) (filter (is_fresh now) es) ≡ any (holds key t) es
any-holds-filter key now t [] h = refl
any-holds-filter key now t (e ∷ es) h = ground (arith, any-holds-filter key now t es h)

any-has_key-filter :
    (key : String) (now : ℕ) (es : List DedupeEntry)
    → any (has_key key) (filter (is_fresh now) es) ≡ any (holds key now) es
any-has_key-filter key now [] = refl
any-has_key-filter key now (e ∷ es) = ground (arith, any-has_key-filter key now es)

any-holds_snoc :
    (key k : String) (now t : ℕ) (es : List DedupeEntry)
    → any (holds key t) (es ++ (entry k now ∷ []))
      ≡ ((str_eq k key && ltb t (now + health_dedupe_window_ms)) || any (holds key t) es)
any-holds_snoc key k now t [] = ground arith
any-holds_snoc key k now t (e ∷ es) = ground (arith, any-holds_snoc key k now t es)

-- Dropping the stale entries tells no less.
pruned : ℕ → Alerter → Alerter
pruned now a = record a { health_dedupe = filter (is_fresh now) a.health_dedupe }

module _ {W : Type 0} where
  -- The fields of a started alerter agree with the log, for the time `now` and later.
  pub record Agrees (now : ℕ) (log : Log W) (a : Alerter) : Type 0 where
    pub client : a.client ≡ true
    pub last : (key : AlertKey) → a.last_sent_at key ≡ latest key log
    pub dedupe :
        (key : String) (t : ℕ) → now ≤ t → any (holds key t) a.health_dedupe ≡ reported key t log
    pub tier : a.last_drawdown_tier ≡ known_tier log

  -- What a handler did is what the log has due.
  record Follows (now : ℕ) (log : Log W) (o : Option (Alert W)) (r : Alerter × Option (Alert W))
      : Type 0 where
    alert : r.1 ≡ o
    agrees : Agrees now (logged now o log) r.0

  later : {now t : ℕ} {log : Log W} {a : Alerter} → now ≤ t → Agrees now log a → Agrees t log a
  later h g = record {
    client = g.client;
    last = g.last;
    dedupe = λ key u k. g.dedupe key u (omega (arith, h, k));
    tier = g.tier;
  }

  nothing :
      {now : ℕ} {log : Log W} {a : Alerter} → Agrees now log a → Follows now log none (a, none)
  nothing g = record { alert = refl; agrees = g }

  -- The alerts that are no health report and no change of tier touch the times alone.
  abbrev is_plain : Alert W → Bool
  is_plain (Alert.health _) = false
  is_plain (Alert.drawdown_shift _ _ _) = false
  is_plain _ = true

  reported-plain :
      (alert : Alert W) (key : String) (t now : ℕ) (log : Log W)
      → is_plain alert ≡ true
      → reported key t ((now, alert) ∷ log) ≡ reported key t log
  reported-plain alert key t now log h = ground arith

  known_tier-plain :
      (alert : Alert W) (now : ℕ) (log : Log W)
      → is_plain alert ≡ true
      → known_tier ((now, alert) ∷ log) ≡ known_tier log
  known_tier-plain alert now log h = ground arith

  mark_and_fire-Follows :
      {now : ℕ} {log : Log W} {a : Alerter} (alert : Alert W)
      → is_plain alert ≡ true
      → Agrees now log a
      → Follows now log (some alert) (mark_and_fire (key_of alert) alert now a)
  unfolding mark_sent
  mark_and_fire-Follows {now} {log} {a} alert plain g = record {
    alert = simp g.client;
    agrees = record {
      client = g.client;
      last = λ key. simp (g.last key);
      dedupe =
          λ key t h. ground (arith, reported-plain alert key t now log plain, g.dedupe key t h);
      tier = ground (arith, known_tier-plain alert now log plain, g.tier);
    };
  }

  can_send-rested :
      {now : ℕ} {log : Log W} {a : Alerter} (key : AlertKey)
      → is_exempt key ≡ false
      → Agrees now log a
      → can_send key now a ≡ rested (latest key log) now
  unfolding can_send
  can_send-rested key exempt g = simp (g.client, exempt, g.last key)

  -- A handler that only keeps the rate.
  throttled-Follows :
      {now : ℕ} {log : Log W} {a : Alerter} (alert : Alert W)
      → is_plain alert ≡ true
      → is_exempt (key_of alert) ≡ false
      → Agrees now log a
      → Follows now log
          (if_rested (key_of alert) alert now log)
          (throttled (key_of alert) alert now a)
  throttled-Follows {now} {log} {a} alert plain exempt g =
      elim (Bool-cases (rested (latest (key_of alert) log) now)) [
        | inl e ↦
            rw (can_send-rested (key_of alert) exempt g, e) (mark_and_fire-Follows alert plain g)
        | inr e ↦ rw (can_send-rested (key_of alert) exempt g, e) (nothing g)
      ]

  abbrev pub is_position : Option (Alert W) → Bool
  is_position none = true
  is_position (some (position_open _)) = true
  is_position (some (position_close _)) = true
  is_position _ = false

  send_position-Follows :
      {now : ℕ} {log : Log W} {a : Alerter} (o : Option (Alert W))
      → is_position o ≡ true
      → Agrees now log a
      → Follows now log o (send_position o now a)
  send_position-Follows none h g = nothing g
  send_position-Follows (some (position_open p)) h g =
      mark_and_fire-Follows (position_open p) refl g
  send_position-Follows (some (position_close p)) h g =
      mark_and_fire-Follows (position_close p) refl g
  send_position-Follows (some _) h g = ground arith

  -- The clock does not go back.
  abbrev pub Forward : ℕ → List (ℕ × Input W) → Type 0
  Forward t [] = Unit
  Forward t ((now, i) ∷ rest) = (t ≤ now) × Forward now rest

  pruned-Agrees :
      {now : ℕ} {log : Log W} {a : Alerter} → Agrees now log a → Agrees now log (pruned now a)
  unfolding pruned
  pruned-Agrees {now} {log} {a} g = record {
    client = g.client;
    last = g.last;
    dedupe = λ key t h. any-holds-filter key now t a.health_dedupe h ∙ g.dedupe key t h;
    tier = g.tier;
  }

  report-Follows :
      {now : ℕ} {log : Log W} {a : Alerter} (h : HealthDegradationLike)
      → Agrees now log a
      → Follows now log (some (health h)) (
          mark_and_fire AlertKey.health_degradation
            (health h)
            now
            (record a { health_dedupe = a.health_dedupe ++ (entry (dedupe_key h) now ∷ []) }))
  unfolding mark_sent
  report-Follows {now} {log} {a} h g = record {
    alert = simp g.client;
    agrees = record {
      client = g.client;
      last = λ key. simp (g.last key);
      dedupe = λ key t k.
          simp (any-holds_snoc key (dedupe_key h) now t a.health_dedupe, g.dedupe key t k);
      tier = g.tier;
    };
  }

module _ {W : Type 0} ⦃num : Number W⦄ where
  pub position_alert-is_position :
      (p : Option (PositionUpdateLike W)) → is_position (position_alert p) ≡ true
  unfolding position_alert
  position_alert-is_position p = ground arith

  position_update-Follows :
      {now : ℕ} {log : Log W} {a : Alerter} (p : Option (PositionUpdateLike W))
      → Agrees now log a
      → Follows now log (position_alert p) (handle_position_update p now a)
  unfolding handle_position_update
  position_update-Follows p g =
      send_position-Follows (position_alert p) (position_alert-is_position p) g

  handle_health-Follows :
      {now : ℕ} {log : Log W} {a : Alerter} (h : HealthDegradationLike)
      → Agrees now log a
      → Follows now log
          (if reported (dedupe_key h) now log
            then none
            else if_rested AlertKey.health_degradation (health h) now log)
          (handle_health h now a)
  unfolding handle_health pruned
  handle_health-Follows {now} {log} {a} h g =
      let may_send = can_send-rested AlertKey.health_degradation refl g in
      let seen = any-has_key-filter (dedupe_key h) now a.health_dedupe in
      let known = g.dedupe (dedupe_key h) now (omega arith) in
      let cases = Bool-cases (reported (dedupe_key h) now log) in
      elim (Bool-cases (rested (latest AlertKey.health_degradation log) now)) [
        | inr e ↦ elim cases [
          | inl d ↦ rw (may_send, e, d) (nothing g)
          | inr d ↦ rw (may_send, e, d) (nothing g)
        ]
        | inl e ↦ elim cases [
          | inl d ↦ rw (may_send, e, seen, known, d) (nothing (pruned-Agrees g))
          | inr d ↦ rw (may_send, e, seen, known, d) (report-Follows h (pruned-Agrees g))
        ]
      ]

  module _ (limits : Thresholds W) where
    shift-Follows :
        {now : ℕ} {log : Log W} {a : Alerter} (next : DrawdownTier) (pct : W)
        → Agrees now log a
        → Follows now log (some (drawdown_shift (known_tier log) next pct)) (
            mark_and_fire AlertKey.drawdown_tier_change
              (drawdown_shift (known_tier log) next pct)
              now
              (record a { last_drawdown_tier = next }))
    unfolding mark_sent
    shift-Follows next pct g = record {
      alert = simp g.client;
      agrees = record {
        client = g.client;
        last = λ key. simp (g.last key);
        dedupe = g.dedupe;
        tier = refl;
      };
    }

    handle_status_snapshot-Follows :
        {now : ℕ} {log : Log W} {a : Alerter} (d : Option W)
        → Agrees now log a
        → Follows now log (shift_due limits d now log) (handle_status_snapshot limits d now a)
    unfolding handle_status_snapshot
    handle_status_snapshot-Follows none g = nothing g
    handle_status_snapshot-Follows {now} {log} {a} (some pct) g =
        let may_send = can_send-rested AlertKey.drawdown_tier_change refl g in
        let next = drawdown_to_tier limits pct in
        elim (Bool-cases (same_tier next (known_tier log))) [
          | inl d ↦ simp (g.tier, d) (nothing g)
          | inr d ↦ elim (Bool-cases (rested (latest AlertKey.drawdown_tier_change log) now)) [
            | inl e ↦ simp (g.tier, d, may_send, e) (shift-Follows next pct g)
            | inr e ↦ simp (g.tier, d, may_send, e) (nothing g)
          ]
        ]

    receive-Follows :
        {now : ℕ} {log : Log W} {a : Alerter} (i : Input W)
        → Agrees now log a
        → Follows now log (due limits i now log) (receive limits i now a)
    unfolding receive on_event due handle_committee_session handle_regime_change
        notify_erc8183_job_submitted
    receive-Follows (event (SseEvent.position_update p)) g = position_update-Follows p g
    receive-Follows (event (SseEvent.committee_session_complete s)) g =
        throttled-Follows (committee_redacted s) refl refl g
    receive-Follows (event (SseEvent.regime_change r)) g =
        throttled-Follows (regime_shift r) refl refl g
    receive-Follows (event (SseEvent.health_degradation h)) g = handle_health-Follows h g
    receive-Follows (event (SseEvent.agent_status_snapshot d)) g =
        handle_status_snapshot-Follows d g
    receive-Follows (event SseEvent.perception_event) g = nothing g
    receive-Follows (event SseEvent.metrics_update) g = nothing g
    receive-Follows (event SseEvent.committee_session_started) g = nothing g
    receive-Follows (job j) g = throttled-Follows (job_submitted j) refl refl g

    run_alerter-run_log :
        (t : ℕ) (inputs : List (ℕ × Input W)) (a : Alerter) (log : Log W)
        → Forward t inputs
        → Agrees t log a
        → run_alerter limits inputs a log ≡ run_log limits inputs log
    unfolding run_alerter run_log
    run_alerter-run_log t [] a log h g = refl
    run_alerter-run_log t ((now, i) ∷ rest) a log h g =
        let f = receive-Follows i (later h.0 g) in
        rw f.alert (run_alerter-run_log now rest _ _ h.1 f.agrees)

    started-Agrees :
        (env : StartEnv)
        → (start env stopped).started ≡ true
        → Agrees {W = W} 0 [] (start env stopped)
    unfolding start stopped
    started-Agrees env h = record {
      client = ground arith;
      last = λ key. ground arith;
      dedupe = λ key t k. ground arith;
      tier = ground arith;
    }

    -- From a start that succeeds, and while the clock does not go back, the alerter sends what a
    -- machine sends whose only state is the log of the alerts sent: its four fields hold what the log
    -- says, through every sequence of events and job notices.
    pub run_alerter-refines :
        (env : StartEnv) (inputs : List (ℕ × Input W))
        → (start env stopped).started ≡ true
        → Forward 0 inputs
        → run_alerter limits inputs (start env stopped) [] ≡ run_log limits inputs []
    run_alerter-refines env inputs h f =
        run_alerter-run_log 0 inputs (start env stopped) [] f (started-Agrees env h)
