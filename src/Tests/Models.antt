-- ===== src/Tests/Models.antt =====
-- Runs of the model router.
use neurodegen.Common.{ℕ, ◌≡◌, refl, List, none, arith, String, true, false, [], ◌∷◌}
use neurodegen.Common.Fixed.{Fixed, fixed_number}
use neurodegen.Llm.Spend.Kill.{ModelCall}
use neurodegen.Common.Calls.{Result, ok, err, Act}
use neurodegen.Llm.Router
use neurodegen.Llm.Router.{
  Member, EndpointFormat, RoutingDecision, Candidate, Routing, LlmResult, Prompt, Routed, Clock,
  RouterState, Reply, eligible, route_committee_call,
}
use neurodegen.Llm.Router.Laws.{Route, route_committee_call-Route}
use neurodegen.Llm.Router.Repeat.{route_committee_call-repeat}
use neurodegen.Tests.Fixtures.{usd}

-- A call that costs 3 dollars.
abbrev call : ModelCall
call = record { day = 0; model = "claude-sonnet-4.6"; input_tokens = 1000000; output_tokens = 0 }

abbrev all_keys : Routing
all_keys = record {
  prefer_byok_routing = false;
  disable_dgrid_routing = false;
  enable_byok_routing = true;
  env_set = λ name. true;
}

abbrev prompt : Prompt
prompt = record { member = Member.quant; system_prompt = "s"; user_content = "u" }

abbrev key_of : String → String → String → String
key_of system user model = model

abbrev reply : LlmResult
reply = record { text = "long"; input_tokens = 10; output_tokens = 5; model_id = "gpt-4o" }

-- The first model that is asked fails, and every later one answers.
abbrev second_answers : List Candidate → Candidate → Result String LlmResult
second_answers [] c = err "503"
second_answers (_ ∷ _) c = ok reply

abbrev at : ℕ → Clock
at n = record { budget_day = 0; lookup_at = n; record_day = 0; stored_at = n }

abbrev start : RouterState Fixed
start = record {
  cache = record { store = []; hits = 0; misses = 0 };
  spend = record { day_bucket = 0; daily_usd = usd 0; call_count = 0; kill_active_until = none };
}

abbrev route : Clock → RouterState Fixed → Act Candidate (Reply × RouterState Fixed)
route clock s = route_committee_call (usd 5) 100 key_of second_answers all_keys prompt clock s

route_committee_call-Route_example :
    Route
      (usd 5)
      100
      key_of
      second_answers
      all_keys
      prompt
      (at 0)
      start
      []
      (eligible all_keys Member.quant)
      (route (at 0) start []).1
      (route (at 0) start []).0
route_committee_call-Route_example =
    route_committee_call-Route (usd 5) 100 key_of second_answers all_keys prompt (at 0) start []

abbrev answered : Routed
answered = record {
  text = "long";
  input_tokens = 10;
  output_tokens = 5;
  model_id = "gpt-4o";
  endpoint_format = EndpointFormat.openai_compatible;
  routing_decision = RoutingDecision.direct;
  attempts =
      record {
        model_id = "openai/gpt-4o";
        endpoint_format = EndpointFormat.openai_compatible;
        routing_decision = RoutingDecision.dgrid_primary;
        input_tokens = 0;
        output_tokens = 0;
        system_prompt = "s";
        user_input = "u";
        raw_output = err "503";
        cache_hit = false;
        parse_success = false;
      }
      ∷ record {
        model_id = "gpt-4o";
        endpoint_format = EndpointFormat.openai_compatible;
        routing_decision = RoutingDecision.direct;
        input_tokens = 10;
        output_tokens = 5;
        system_prompt = "s";
        user_input = "u";
        raw_output = ok "long";
        cache_hit = false;
        parse_success = true;
      }
      ∷ [];
}

route_committee_call-repeat_example :
    let out = route (at 0) start [] in
    ((route (at 60) out.0.1 out.1).1 ≡ out.1)
    × ((y : Routed) × ((route (at 60) out.0.1 out.1).0.0 ≡ ok y) × (y.text ≡ "long"))
unfolding Router.opened
route_committee_call-repeat_example =
    route_committee_call-repeat (usd 5) 100 key_of second_answers all_keys prompt (at 0) (at 60)
      start [] answered (λ e. cc) refl (λ e. cc) (omega arith) refl
