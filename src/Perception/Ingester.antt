-- ===== src/Perception/Ingester.antt =====
-- src/lib/services/perception/cmcIngester.ts: the polling jobs and the paid security check. The cold
-- writer and the listener are the lists of what they were given. The timers of `start` are left out: a
-- job may run at any time.
pub mod Security
use package.text.Mathlib.Text.{◌==◌ as str_eq}
use neurodegen.Common.{
  ℕ, ◌+◌, String, Bool, true, false, not, ◌||◌, Option, none, some, List, [], ◌∷◌, map, leb, get_or,
  if◌then◌else◌,
}
use neurodegen.Common.Number.{Number}
use neurodegen.Common.Calls.{Result, ok, err, Act}
use neurodegen.Common.JsValue.{JsValue, object, str, number, Members, no_members, member}
use neurodegen.Allowlist.{Table}
use neurodegen.Cognition.{RegimeLabel}
use neurodegen.Cmc.{CmcCall, ToolCall, ToolResult, CmcError}
use neurodegen.Cmc.Call.{CmcEnv, call_mcp}
use neurodegen.Cmc.Ids.{quote_args}
use neurodegen.Perception.Aggregator.{FearGreed}
use neurodegen.Perception.EvGate.{
  EvConfig, EvDecision, EvSignal, price_spike, volume_surge, narrative_emergence, security_check,
  X402Spend, evaluate_ev, record_spend,
}
use neurodegen.Perception.HotState.{HotState, PerceptionEvent, add_event}
use neurodegen.Perception.Normalizer.{
  Schemas, QuoteEvent, NarrativeEvent, NewsEvent, FundingEvent, SecurityEvent,
}
use neurodegen.Perception.Normalizer.Quotes.{normalize_cmc_quotes, normalize_security}
use neurodegen.Perception.Normalizer.Signals.{
  normalize_fear_greed, normalize_trending_narratives, normalize_news, normalize_derivatives,
}

pub data Payload (W : Type 0) : Type 0 where
  quote_update : QuoteEvent W → Payload W
  fear_greed_update : FearGreed W → Payload W
  trending_narrative : NarrativeEvent W → Payload W
  news_headline : NewsEvent → Payload W
  funding_rate_update : FundingEvent W → Payload W
  security_checked : SecurityEvent W → Payload W

-- `next_id` counts the ids that were drawn.
pub record Perceived (W : Type 0) : Type 0 where
  pub hot_state : HotState (Payload W)
  pub cold_writer : List (PerceptionEvent (Payload W))
  pub told : List (PerceptionEvent (Payload W))
  pub next_id : ℕ

-- `random_uuid` gives the ids; `now` is the clock.
pub record IngesterEnv (W : Type 0) : Type 0 where
  pub cmc : CmcEnv W
  pub schemas : Schemas W
  pub lt_negative : W → Bool
  pub fallback_addresses : Table
  pub tracked_symbols : List String
  pub number_text : ℕ → String
  pub random_uuid : ℕ → String
  pub ttl_ms : ℕ
  pub now : ℕ
  pub today : ℕ
  pub ev_config : EvConfig W

module _ {W : Type 0} ⦃num : Number W⦄ (env : IngesterEnv W) where
  open env use {schemas, now}

  abbrev event_of : Payload W → ℕ → PerceptionEvent (Payload W)
  event_of payload n = record {
    event_id = env.random_uuid n;
    source = "cmc_hub";
    timestamp = now;
    payload = payload;
  }

  unfoldable pub record_event : Payload W → Perceived W → Perceived W
  record_event payload p =
      let e = event_of payload p.next_id in
      record {
        hot_state = add_event env.ttl_ms p.hot_state e now;
        cold_writer = e ∷ p.cold_writer;
        told = e ∷ p.told;
        next_id = p.next_id + 1;
      }

  unfoldable pub record_all : List (Payload W) → Perceived W → Perceived W
  record_all [] p = p
  record_all (x ∷ xs) p = record_all xs (record_event x p)

  abbrev pub Answer : Type 0
  Answer = Result (CmcError W) (ToolResult W)

  abbrev recorded : (JsValue W → List (Payload W)) → Answer → Perceived W → Perceived W
  recorded normalize (ok r) p = record_all (normalize r.data_of) p
  recorded normalize (err e) p = p

  -- A job: `if (!this.running) return`, the call, and what it gives.
  unfoldable pub run_job :
      ToolCall W
      → (JsValue W → List (Payload W))
      → Bool
      → Perceived W
      → Act (CmcCall W) (Perceived W)
  run_job call normalize running p t =
      let (answer, after) = call_mcp env.cmc call false t in
      if not running then (p, t) else (recorded normalize answer p, after)

  abbrev tool : String → Members W → ToolCall W
  tool name args = record { tool_name = name; arguments = object args }

  abbrev of_option : Option (FearGreed W) → List (Payload W)
  of_option none = []
  of_option (some f) = fear_greed_update f ∷ []

  abbrev limit_ten : Members W
  limit_ten = member "limit" (number (num.of_nat 10)) no_members

  unfoldable pub run_quotes : Bool → Perceived W → Act (CmcCall W) (Perceived W)
  run_quotes =
      run_job
        (tool "get_crypto_quotes_latest"
          (quote_args schemas.to_upper env.number_text [] env.tracked_symbols none))
        (λ v. map quote_update (normalize_cmc_quotes schemas env.fallback_addresses v))

  unfoldable pub run_global : Bool → Perceived W → Act (CmcCall W) (Perceived W)
  run_global =
      run_job (tool "get_global_metrics_latest" no_members)
        (λ v. of_option (normalize_fear_greed schemas v))

  unfoldable pub run_derivatives : Bool → Perceived W → Act (CmcCall W) (Perceived W)
  run_derivatives =
      run_job (tool "get_global_crypto_derivatives_metrics" no_members)
        (λ v. map funding_rate_update (normalize_derivatives schemas env.lt_negative v))

  unfoldable pub run_narratives : Bool → Perceived W → Act (CmcCall W) (Perceived W)
  run_narratives =
      run_job (tool "trending_crypto_narratives" limit_ten)
        (λ v. map trending_narrative (normalize_trending_narratives schemas v))

  unfoldable pub run_news : Bool → Perceived W → Act (CmcCall W) (Perceived W)
  run_news =
      run_job (tool "get_crypto_latest_news" limit_ten)
        (λ v. map news_headline (normalize_news schemas now v))

  -- `lookupSym ? { symbol } : { token_address, network }`
  abbrev security_args : String → Option String → Members W
  security_args token_address symbol =
      let lookup = schemas.to_upper (get_or symbol "") in
      if str_eq lookup ""
      then member "token_address" (str token_address) (member "network" (str "bsc") no_members)
      else member "symbol" (str lookup) no_members

  abbrev pub security_call : String → Option String → ToolCall W
  security_call token_address symbol =
      tool "get_crypto_metrics" (security_args token_address symbol)

-- What a check gives and leaves.
pub record SecurityOutcome (W : Type 0) : Type 0 where
  pub decision : EvDecision W
  pub event : Option (SecurityEvent W)
  pub perceived : Perceived W
  pub spend : X402Spend W

module _ {W : Type 0} ⦃num : Number W⦄ (env : IngesterEnv W) where
  unfoldable pub ev_decision : RegimeLabel → W → EvDecision W
  ev_decision regime magnitude = evaluate_ev env.ev_config (record {
    triggering_signal = security_check;
    regime = regime;
    signal_magnitude = magnitude;
    gas_cost_usd = num.hundredths 0;
    position_size_usd = none;
    base_confidence = none;
    override_threshold = none;
  })

  abbrev pub unchanged : EvDecision W → Perceived W → X402Spend W → SecurityOutcome W
  unchanged d p spend = record { decision = d; event = none; perceived = p; spend = spend }

  abbrev pub with_event :
      EvDecision W → Perceived W → X402Spend W → Option (SecurityEvent W) → SecurityOutcome W
  with_event d p spend none = unchanged d p spend
  with_event d p spend (some e) = record {
    decision = d;
    event = some e;
    perceived = record_event env (security_checked e) p;
    spend = record_spend spend env.today d;
  }

  abbrev pub with_answer : EvDecision W → Perceived W → X402Spend W → Answer env → SecurityOutcome W
  with_answer d p spend (err e) = unchanged d p spend
  with_answer d p spend (ok r) = with_event d p spend (normalize_security env.schemas r.data_of)

  unfoldable pub ensure_security_check :
      String
      → Option String
      → RegimeLabel
      → W
      → Perceived W
      → X402Spend W
      → Act (CmcCall W) (SecurityOutcome W)
  ensure_security_check token_address symbol regime magnitude p spend t =
      let d = ev_decision regime magnitude in
      let (answer, after) = call_mcp env.cmc (security_call env token_address symbol) true t in
      if not d.should_fetch_premium
      then (unchanged d p spend, t)
      else (with_answer d p spend answer, after)

  -- `evSignalFromMetrics`
  unfoldable pub ev_signal_from_metrics : ℕ → W → EvSignal
  ev_signal_from_metrics active_surge_tokens fear_greed_value =
      if leb 5 active_surge_tokens
      then volume_surge
      else if num.le (num.of_nat 80) fear_greed_value || num.le fear_greed_value (num.of_nat 20)
      then price_spike
      else narrative_emergence
