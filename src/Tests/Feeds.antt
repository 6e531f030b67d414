-- ===== src/Tests/Feeds.antt =====
-- Runs of the data client, the normalizers, the ingester and the loop's timers.
use neurodegen.Common.{
  ◌≤◌, ◌≡◌, refl, String, true, false, some, none, List, [], ◌∷◌, arith, All, map,
}
use neurodegen.Common.Calls.{Result, ok}
use neurodegen.Common.Number.{◌≼◌}
use neurodegen.Common.Fixed.{Fixed, fixed_number, Fixed-IsOrdered}
use neurodegen.Common.JsValue.{
  JsValue, undefined, str, array, object, no_members, no_elements, element,
}
use neurodegen.Allowlist.{is_address}
use neurodegen.Cognition.{active}
use neurodegen.Executor.{execute}
use neurodegen.Types.{open_long}
use neurodegen.Cmc.{PaymentRequirement, ToolCall, Response, CmcCall}
use neurodegen.Cmc.Call.{CmcEnv, call_mcp}
use neurodegen.Cmc.Exchange.{Exchange, Capped, call_mcp-Exchange, call_mcp-Capped}
use neurodegen.Perception.HotState.{empty_state}
use neurodegen.Perception.EvGate.{X402Spend}
use neurodegen.Perception.Regime.{RegimeMetrics}
use neurodegen.Perception.Normalizer.{Schemas, DerivativesEntry, QuoteListEntry, SecurityEvent}
use neurodegen.Perception.Normalizer.Quotes.{quote_event, normalize_cmc_quotes}
use neurodegen.Perception.Normalizer.Laws.{ItemsOf, Quoted, normalize_cmc_quotes-accepted}
use neurodegen.Perception.Ingester.{
  IngesterEnv, Perceived, ev_decision, security_call, ensure_security_check,
}
use neurodegen.Perception.Ingester.Security.{
  Accounted, payments, event_in, ensure_security_check-Accounted,
}
use neurodegen.Loop.{
  LoopEvent, call_start, probe_state_loaded, cycle_tick, regime_tick, new_loop, stop, run_loop,
}
use neurodegen.Loop.Overlap.{run_loop-one_cycle}
use neurodegen.Loop.Transitions.{Linked, Along, run_loop-Linked}
use neurodegen.Loop.Screening.{screened, execute-screened}
use neurodegen.Tests.Fixtures.{usd, cents, same_case, inputs, services, exec_settings, exec_inputs}

-- A challenge for one cent in USDC on Base.
abbrev asked_for : PaymentRequirement Fixed
asked_for = record {
  scheme = some "exact";
  network = some "base";
  chain_id = none;
  asset = some "0x833589fCD6eDb6E08f4c7C32D4f71b54bdA02913";
  pay_to = some "0xcmc";
  max_amount_required = some (usd 10000);
}

-- The first request is answered with 402, the second with an empty result.
abbrev answer_to : List (CmcCall Fixed) → Result String (Response Fixed)
answer_to [] = ok (record { status = 402; body = some undefined; payment_response = none })
answer_to _ =
    ok (record {
      status = 200;
      body = some (object no_members);
      payment_response = some "0xsettled";
    })

abbrev cmc_env : CmcEnv Fixed
cmc_env = record {
  rules = record {
    to_lower = same_case;
    ceil = λ x. x;
    equals = λ x y. true;
    cap_atomic = usd 20000;
  };
  key = none;
  enable_x402_outbound = true;
  has_pay_hook = true;
  endpoint = "mcp";
  x402_endpoint = "x402";
  cost_per_call_usdc = cents 1;
  key_text = λ v. "";
  char_at = λ s n. undefined;
  parse_json = λ s. none;
  read_accepts = λ v. asked_for ∷ [];
  fetched = answer_to;
  paid = λ t. ok "proof";
}

abbrev quotes_call : ToolCall Fixed
quotes_call = record { tool_name = "get_crypto_quotes_latest"; arguments = object no_members }

call_mcp-Exchange_example :
    Exchange cmc_env quotes_call false
      (call_mcp cmc_env quotes_call false []).0
      []
      (call_mcp cmc_env quotes_call false []).1
call_mcp-Exchange_example = call_mcp-Exchange cmc_env quotes_call false []

Fixed-finite : (x : Fixed) → fixed_number.is_finite x ≡ true → x ≼ x
Fixed-finite x h = ground (arith, h)

call_mcp-Capped_example :
    All (Capped cmc_env quotes_call false (usd 20000)) (call_mcp cmc_env quotes_call false []).1
call_mcp-Capped_example =
    call_mcp-Capped cmc_env quotes_call false Fixed-IsOrdered [] (λ x y h. h) refl refl Fixed-finite
      tt

abbrev funding : DerivativesEntry Fixed
funding = record {
  pair = some "BTCUSDT";
  symbol = none;
  funding_rate_8h = some (fixed_number.thousandths 1);
  funding_rate_annualized = none;
  funding_rate = none;
}

abbrev one_quote : QuoteListEntry Fixed
one_quote = record {
  symbol = "CAKE";
  cmc_rank = none;
  platform_address = some "not an address";
  price = usd 2;
  volume24h = usd 5;
  percent_change1h = usd 1;
  percent_change24h = usd 1;
  market_cap = none;
}

abbrev schemas : Schemas Fixed
schemas = record {
  quote_entry = λ v. some one_quote;
  flat_entry = λ v. none;
  global_metrics = λ v. none;
  trending_entry = λ v. none;
  news_entry = λ v. none;
  derivatives_entry = λ v. some funding;
  social_entry = λ v. none;
  liquidity_entry = λ v. none;
  security_entry = λ v. none;
  to_upper = same_case;
  to_lower = same_case;
  underscored = same_case;
  number_of = λ s. usd 0;
  characters = λ s. [];
}

abbrev feed : JsValue Fixed
feed = array (element (str "CAKE") no_elements)

normalize_cmc_quotes-accepted_example :
    (items : List (JsValue Fixed)) × (entries : List (QuoteListEntry Fixed)) × ItemsOf schemas feed
      items
    × Quoted schemas items entries
    × (normalize_cmc_quotes schemas [] feed ≡ map (quote_event schemas []) entries)
    × All (λ q. is_address q.token_address ≡ true) (normalize_cmc_quotes schemas [] feed)
normalize_cmc_quotes-accepted_example = normalize_cmc_quotes-accepted schemas [] feed tt

abbrev ingester : IngesterEnv Fixed
ingester = record {
  cmc = cmc_env;
  schemas = schemas;
  lt_negative = λ x. false;
  fallback_addresses = [];
  tracked_symbols = "CAKE" ∷ [];
  number_text = λ n. "";
  random_uuid = λ n. "id";
  ttl_ms = 1000;
  now = 5;
  today = 1;
  ev_config = record {
    ev_base_confidence = cents 60;
    ev_threshold = usd 3;
    x402_cost_per_call_usdc = cents 1;
    agent_base_position_size_usd = usd 20;
  };
}

abbrev perceived : Perceived Fixed
perceived = record { hot_state = empty_state; cold_writer = []; told = []; next_id = 0 }

abbrev spent : X402Spend Fixed
spent = record { session_usdc = usd 0; daily_usdc = usd 0; day_bucket = 1 }

ensure_security_check-Accounted_example :
    let d = ev_decision ingester active (cents 50) in
    let (answer, called) = call_mcp ingester.cmc (security_call ingester "0xcake" none) true [] in
    let (o, after) =
      ensure_security_check ingester "0xcake" none active (cents 50) perceived spent [] in
    Accounted ingester d perceived spent o
    × (payments after ≤ 1)
    × (d.should_fetch_premium ≡ false → (after ≡ []) × (o.event ≡ none))
    × (d.should_fetch_premium ≡ true → (after ≡ called) × (o.event ≡ event_in ingester answer))
ensure_security_check-Accounted_example =
    ensure_security_check-Accounted ingester "0xcake" none active (cents 50) perceived spent []

abbrev calm : RegimeMetrics Fixed
calm = record {
  fear_greed_value = usd 50;
  funding_rates_by_pair = [];
  kol_velocity_by_token = [];
  active_surge_tokens = 3;
}

abbrev fearful : RegimeMetrics Fixed
fearful = record calm { fear_greed_value = usd 10 }

abbrev happenings : List (LoopEvent Fixed)
happenings =
    call_start
    ∷ probe_state_loaded
    ∷ regime_tick calm 1
    ∷ cycle_tick
    ∷ regime_tick fearful 2
    ∷ cycle_tick
    ∷ []

abbrev ticks : List (LoopEvent Fixed)
ticks = cycle_tick ∷ []

run_loop-one_cycle_example :
    let l = run_loop happenings new_loop in
    (l.cycles ≤ 1)
    × ((run_loop ticks (stop l)).begun ≡ l.begun)
    × ((run_loop ticks (stop l)).changes ≡ l.changes)
run_loop-one_cycle_example = run_loop-one_cycle happenings ticks (refl, tt)

run_loop-Linked_example :
    let l = run_loop happenings new_loop in
    Along happenings new_loop × Linked l.regime_state.last_regime l.changes
run_loop-Linked_example = run_loop-Linked happenings

abbrev flagged : SecurityEvent Fixed
flagged = record {
  token_address = "0xcake";
  is_honeypot = true;
  owner_can_mint = false;
  risk_score = usd 0;
  flags = [];
}

execute-screened_example :
    (execute exec_settings services
      (record (exec_inputs open_long) { checked = screened (inputs open_long) (some flagged) })
      []).0.execution_result.executed
    ≡ false
execute-screened_example =
    execute-screened exec_settings services Fixed-IsOrdered
      (record (exec_inputs open_long) { checked = screened (inputs open_long) (some flagged) })
      (inputs open_long) flagged [] refl refl
