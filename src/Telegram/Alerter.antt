-- ===== src/Telegram/Alerter.antt =====
-- `TelegramAlerter` of src/lib/services/telegramAlerter.ts: its fields, `start` and `stop`, and the
-- handlers. A handler returns the next state and the alert that `fire` hands to the client.
use Prim.Native.String.{◌++◌ as text_append}
use package.text.Mathlib.Text.{◌==◌ as str_eq}
use neurodegen.Common.{
  ℕ, suc, zero, ◌+◌, String, Bool, true, false, not, ◌&&◌, ◌||◌, Option, none, some, List, [], ◌∷◌,
  ◌++◌, leb, ltb, if◌then◌else◌, get_or, any, filter,
}
use neurodegen.Common.Number.{Number}
use neurodegen.Telegram.{
  DrawdownTier, normal, same_tier, AlertKey, same_key, PositionUpdateLike, CommitteeSessionLike,
  RegimeChangeLike, HealthDegradationLike, Erc8183Job, SseEvent, Alert, position_open,
  position_close, committee_redacted, regime_shift, health, drawdown_shift, job_submitted,
  Thresholds, drawdown_to_tier,
}

abbrev pub rate_limit_ms : ℕ
rate_limit_ms = 30000

abbrev pub health_dedupe_window_ms : ℕ
health_dedupe_window_ms = 300000

abbrev pub health_message_truncate : ℕ
health_message_truncate = 80

pub record DedupeEntry : Type 0 where
  pub key : String
  pub sent_at : ℕ

-- `client` and `listening` say whether `client` and `disposeListener` are not null. A `Map` is the
-- function of its keys.
pub record Alerter : Type 0 where
  pub client : Bool
  pub listening : Bool
  pub last_sent_at : AlertKey → Option ℕ
  pub health_dedupe : List DedupeEntry
  pub last_drawdown_tier : DrawdownTier
  pub started : Bool

-- The state of a new alerter, and the one that `stop` leaves.
unfoldable pub stopped : Alerter
stopped = record {
  client = false;
  listening = false;
  last_sent_at = λ _. none;
  health_dedupe = [];
  last_drawdown_tier = normal;
  started = false;
}

pub record StartEnv : Type 0 where
  pub enable_telegram_alerts : Bool
  pub bot_token : String
  pub chat_id : String
  pub client_throws : Bool  -- the constructor of the client

abbrev is_empty : String → Bool
is_empty s = str_eq s ""

unfoldable pub start : StartEnv → Alerter → Alerter
start env a =
    if a.started
    then a
    else if not env.enable_telegram_alerts
    then a
    else if is_empty env.bot_token || is_empty env.chat_id
    then a
    else if env.client_throws
    then a
    else record a { client = true; listening = true; started = true }

unfoldable pub stop : Alerter → Alerter
stop _ = stopped

-- `s.slice(0, n)`
unfoldable pub slice_to : ℕ → String → String
slice_to zero s = ""
slice_to (suc n) String.[] = ""
slice_to (suc n) (String.◌∷◌ c s) = String.◌∷◌ c (slice_to n s)

-- `${source}|${message.slice(0, 80)}`
unfoldable pub dedupe_key : HealthDegradationLike → String
dedupe_key h =
    text_append (get_or h.source "unknown")
      (text_append "|" (slice_to health_message_truncate (get_or h.message "")))

-- `last ?? 0`, and `now - last >= RATE_LIMIT_MS`
abbrev pub rested : Option ℕ → ℕ → Bool
rested last now = leb (get_or last 0 + rate_limit_ms) now

abbrev pub is_exempt : AlertKey → Bool
is_exempt AlertKey.position_update = true
is_exempt _ = false

unfoldable pub can_send : AlertKey → ℕ → Alerter → Bool
can_send key now a =
    if not a.client then false else if is_exempt key then true else rested (a.last_sent_at key) now

unfoldable pub mark_sent : AlertKey → ℕ → Alerter → Alerter
mark_sent key now a = record a {
  last_sent_at = λ k. if same_key key k then some now else a.last_sent_at k;
}

-- `now - e.sentAt < HEALTH_DEDUPE_WINDOW_MS`
abbrev pub is_fresh : ℕ → DedupeEntry → Bool
is_fresh now e = ltb now (e.sent_at + health_dedupe_window_ms)

abbrev pub has_key : String → DedupeEntry → Bool
has_key key e = str_eq e.key key

-- `s === text`
abbrev pub equals : Option String → String → Bool
equals none s = false
equals (some t) s = str_eq t s

-- `!s`
abbrev pub falsy_text : Option String → Bool
falsy_text none = true
falsy_text (some s) = is_empty s

module _ {W : Type 0} where
  abbrev pub fire : Alert W → Alerter → Option (Alert W)
  fire alert a = if a.client then some alert else none

  abbrev pub mark_and_fire : AlertKey → Alert W → ℕ → Alerter → Alerter × Option (Alert W)
  mark_and_fire key alert now a = (mark_sent key now a, fire alert a)

  -- The handlers that only keep the rate.
  abbrev pub throttled : AlertKey → Alert W → ℕ → Alerter → Alerter × Option (Alert W)
  throttled key alert now a =
      if not (can_send key now a) then (a, none) else mark_and_fire key alert now a

  abbrev pub send_position : Option (Alert W) → ℕ → Alerter → Alerter × Option (Alert W)
  send_position none now a = (a, none)
  send_position (some alert) now a = mark_and_fire AlertKey.position_update alert now a

module _ {W : Type 0} ⦃num : Number W⦄ where
  -- `!sizeUSD || sizeUSD <= 0`; `!x` holds of zero and of NaN.
  abbrev not_positive : Option W → Bool
  not_positive none = true
  not_positive (some x) = not (num.le x x) || num.le x (num.hundredths 0)

  abbrev pub is_close : PositionUpdateLike W → Bool
  is_close p = equals p.status "closed"

  -- What an update is sent as, if it is sent.
  unfoldable pub position_alert : Option (PositionUpdateLike W) → Option (Alert W)
  position_alert none = none
  position_alert (some p) =
      if equals p.kind "probe_trade"
      then none
      else if not (is_close p) && (falsy_text p.token_symbol || not_positive p.size_usd)
      then none
      else some (if is_close p then position_close p else position_open p)

  unfoldable pub handle_position_update :
      Option (PositionUpdateLike W) → ℕ → Alerter → Alerter × Option (Alert W)
  handle_position_update p now a = send_position (position_alert p) now a

  unfoldable pub handle_committee_session :
      CommitteeSessionLike W → ℕ → Alerter → Alerter × Option (Alert W)
  handle_committee_session s now a =
      throttled AlertKey.committee_session_complete (committee_redacted s) now a

  unfoldable pub handle_regime_change : RegimeChangeLike → ℕ → Alerter → Alerter × Option (Alert W)
  handle_regime_change r now a = throttled AlertKey.regime_change (regime_shift r) now a

  unfoldable pub notify_erc8183_job_submitted :
      Erc8183Job W → ℕ → Alerter → Alerter × Option (Alert W)
  notify_erc8183_job_submitted j now a =
      throttled AlertKey.erc8183_job_submitted (job_submitted j) now a

  unfoldable pub handle_health : HealthDegradationLike → ℕ → Alerter → Alerter × Option (Alert W)
  handle_health h now a =
      let fresh = filter (is_fresh now) a.health_dedupe in
      let pruned : Alerter = record a { health_dedupe = fresh } in
      let entry : DedupeEntry = record { key = dedupe_key h; sent_at = now } in
      if not (can_send AlertKey.health_degradation now a)
      then (a, none)
      else if any (has_key (dedupe_key h)) fresh
      then (pruned, none)
      else mark_and_fire AlertKey.health_degradation (health h) now
          (record a { health_dedupe = fresh ++ (entry ∷ []) })

  module _ (limits : Thresholds W) where
    unfoldable pub handle_status_snapshot : Option W → ℕ → Alerter → Alerter × Option (Alert W)
    handle_status_snapshot none now a = (a, none)
    handle_status_snapshot (some pct) now a =
        let next = drawdown_to_tier limits pct in
        let prev = a.last_drawdown_tier in
        if same_tier next prev
        then (a, none)
        else if not (can_send AlertKey.drawdown_tier_change now a)
        then (a, none)
        else mark_and_fire AlertKey.drawdown_tier_change (drawdown_shift prev next pct) now
            (record a { last_drawdown_tier = next })

    unfoldable pub on_event : SseEvent W → ℕ → Alerter → Alerter × Option (Alert W)
    on_event (SseEvent.position_update p) now a = handle_position_update p now a
    on_event (SseEvent.committee_session_complete s) now a = handle_committee_session s now a
    on_event (SseEvent.regime_change r) now a = handle_regime_change r now a
    on_event (SseEvent.health_degradation h) now a = handle_health h now a
    on_event (SseEvent.agent_status_snapshot d) now a = handle_status_snapshot d now a
    on_event _ now a = (a, none)

-- What reaches a started alerter, with the time.
pub data Input (W : Type 0) : Type 0 where
  event : SseEvent W → Input W
  job : Erc8183Job W → Input W

abbrev pub Log : Type 0 → Type 0
Log W = List (ℕ × Alert W)

abbrev pub logged : {W : Type 0} → ℕ → Option (Alert W) → Log W → Log W
logged now none log = log
logged now (some alert) log = (now, alert) ∷ log

module _ {W : Type 0} ⦃num : Number W⦄ (limits : Thresholds W) where
  unfoldable pub receive : Input W → ℕ → Alerter → Alerter × Option (Alert W)
  receive (event e) now a = on_event limits e now a
  receive (job j) now a = notify_erc8183_job_submitted j now a

  -- The alerts of a session, newest first.
  unfoldable pub run_alerter : List (ℕ × Input W) → Alerter → Log W → Log W
  run_alerter [] a log = log
  run_alerter ((now, i) ∷ rest) a log =
      let (a', sent) = receive i now a in run_alerter rest a' (logged now sent log)
