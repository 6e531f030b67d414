-- ===== src/Llm/Router.antt =====
-- src/lib/clients/llm/router.ts with the model ids of src/config/cognition.ts: the call of a model for
-- a member of the committee. `Candidate` is the source's `CandidateStep`: its `caller` and its
-- `preflight` are data. `latencyMs` is left out. Four readings of the clock are `Clock`.
pub mod Laws
pub mod Repeat
use neurodegen.Common.{
  ℕ, String, Bool, true, false, not, ◌&&◌, Option, none, some, List, [], ◌∷◌, ◌++◌, filter,
  if◌then◌else◌,
}
use neurodegen.Common.Number.{Number}
use neurodegen.Common.Calls.{Result, ok, err, Act, perform}
use neurodegen.Llm.Spend
use neurodegen.Llm.PromptCache
use neurodegen.Llm.Spend.{SpendState, is_killed, record_call}
use neurodegen.Llm.PromptCache.{Cache, cache_get, cache_set}

pub data Member : Type 0 where
  narrative quant risk : Member

pub data EndpointFormat : Type 0 where
  claude_native openai_compatible : EndpointFormat

pub data RoutingDecision : Type 0 where
  direct dgrid_fallback dgrid_primary : RoutingDecision

-- The client that a candidate calls.
pub data Caller : Type 0 where
  claude_messages openai_chat_completions dgrid_messages dgrid_chat_completions : Caller

-- The test of a candidate: its own key with BYOK enabled, or DGrid's.
pub data Preflight : Type 0 where
  byok : String → Preflight
  dgrid : Preflight

pub record Candidate : Type 0 where
  pub model_id : String
  pub endpoint_format : EndpointFormat
  pub routing_decision : RoutingDecision
  pub caller : Caller
  pub preflight : Preflight

-- src/config/features.ts, and `!!process.env[name]`.
pub record Routing : Type 0 where
  pub prefer_byok_routing : Bool
  pub disable_dgrid_routing : Bool
  pub enable_byok_routing : Bool
  pub env_set : String → Bool

pub record LlmResult : Type 0 where
  pub text : String
  pub input_tokens : ℕ
  pub output_tokens : ℕ
  pub model_id : String

pub record Prompt : Type 0 where
  pub member : Member
  pub system_prompt : String
  pub user_content : String

-- `ModelCallRecord`; an error's output is `ERROR: ` with its message.
pub record Attempt : Type 0 where
  pub model_id : String
  pub endpoint_format : EndpointFormat
  pub routing_decision : RoutingDecision
  pub input_tokens : ℕ
  pub output_tokens : ℕ
  pub system_prompt : String
  pub user_input : String
  pub raw_output : Result String String
  pub cache_hit : Bool
  pub parse_success : Bool

pub record Routed : Type 0 where
  pub text : String
  pub input_tokens : ℕ
  pub output_tokens : ℕ
  pub model_id : String
  pub endpoint_format : EndpointFormat
  pub routing_decision : RoutingDecision
  pub attempts : List Attempt

pub data RouteError : Type 0 where
  no_eligible_candidate daily_limit_hit all_failed : RouteError

-- The days and times at which the budget is checked, the cache is read, a call is recorded and its
-- result is stored.
pub record Clock : Type 0 where
  pub budget_day : ℕ
  pub lookup_at : ℕ
  pub record_day : ℕ
  pub stored_at : ℕ

-- The two singletons.
pub record RouterState (W : Type 0) : Type 0 where
  pub cache : Cache LlmResult
  pub spend : SpendState W

abbrev candidate : String → EndpointFormat → RoutingDecision → Caller → Preflight → Candidate
candidate m f r c p = record {
  model_id = m;
  endpoint_format = f;
  routing_decision = r;
  caller = c;
  preflight = p;
}

abbrev by_preference : Bool → Candidate → Candidate → List Candidate → List Candidate
by_preference prefer own primary rest =
    if prefer then own ∷ primary ∷ rest else primary ∷ own ∷ rest

narrative_candidates : Routing → List Candidate
narrative_candidates r =
    by_preference r.prefer_byok_routing
      (candidate "claude-sonnet-4.6" claude_native direct claude_messages
        (byok "ANTHROPIC_API_KEY"))
      (candidate "anthropic/claude-sonnet-4.6" claude_native dgrid_primary dgrid_messages dgrid)
      (candidate "anthropic/claude-haiku-4.5" claude_native dgrid_fallback dgrid_messages dgrid
        ∷ candidate "openai/gpt-4o-mini" openai_compatible dgrid_fallback dgrid_chat_completions
            dgrid
        ∷ [])

quant_candidates : Routing → List Candidate
quant_candidates r =
    by_preference r.prefer_byok_routing
      (candidate "gpt-4o" openai_compatible direct openai_chat_completions (byok "OPENAI_API_KEY"))
      (candidate "openai/gpt-4o" openai_compatible dgrid_primary dgrid_chat_completions dgrid)
      (candidate "openai/gpt-4o-mini" openai_compatible dgrid_fallback dgrid_chat_completions dgrid
        ∷ candidate "claude-haiku-4.5" claude_native dgrid_fallback dgrid_messages dgrid
        ∷ [])

risk_candidates : List Candidate
risk_candidates =
    candidate "deepseek/deepseek-v3.2" openai_compatible dgrid_primary dgrid_chat_completions dgrid
    ∷ candidate "qwen/qwen-flash" openai_compatible dgrid_fallback dgrid_chat_completions dgrid
    ∷ candidate "openai/gpt-4o" openai_compatible dgrid_fallback dgrid_chat_completions dgrid
    ∷ []

pub candidates_for : Routing → Member → List Candidate
candidates_for r narrative = narrative_candidates r
candidates_for r quant = quant_candidates r
candidates_for r risk = risk_candidates

passes : Routing → Preflight → Bool
passes r (byok key) = r.enable_byok_routing && r.env_set key
passes r dgrid = not r.disable_dgrid_routing && r.env_set "DGRID_API_KEY"

pub eligible : Routing → Member → List Candidate
eligible r member = filter (λ c. passes r c.preflight) (candidates_for r member)

abbrev attempt : Candidate → Prompt → LlmResult → Bool → String → Attempt
attempt c p result hit model = record {
  model_id = model;
  endpoint_format = c.endpoint_format;
  routing_decision = c.routing_decision;
  input_tokens = result.input_tokens;
  output_tokens = result.output_tokens;
  system_prompt = p.system_prompt;
  user_input = p.user_content;
  raw_output = ok result.text;
  cache_hit = hit;
  parse_success = true;
}

failed_attempt : Candidate → Prompt → String → Attempt
failed_attempt c p message = record {
  model_id = c.model_id;
  endpoint_format = c.endpoint_format;
  routing_decision = c.routing_decision;
  input_tokens = 0;
  output_tokens = 0;
  system_prompt = p.system_prompt;
  user_input = p.user_content;
  raw_output = err message;
  cache_hit = false;
  parse_success = false;
}

routed : Candidate → LlmResult → List Attempt → Routed
routed c result attempts = record {
  text = result.text;
  input_tokens = result.input_tokens;
  output_tokens = result.output_tokens;
  model_id = result.model_id;
  endpoint_format = c.endpoint_format;
  routing_decision = c.routing_decision;
  attempts = attempts;
}

abbrev pub Reply : Type 0
Reply = Result RouteError Routed

-- `compute_key` is `PromptCache.computeKey`, a hash of its arguments; `answer` is what a model's client
-- answers, given the models called before.
module _ {W : Type 0} ⦃num : Number W⦄ (daily_limit_usd : W) (ttl : ℕ)
    (compute_key : String → String → String → String)
    (answer : List Candidate → Candidate → Result String LlmResult) (routing : Routing) (p : Prompt)
    (clock : Clock) where
  -- After a call: `again` is the rest of the loop.
  after_call :
      String
      → Candidate
      → List Attempt
      → RouterState W
      → (List Attempt → Act Candidate (Reply × RouterState W))
      → Result String LlmResult
      → Act Candidate (Reply × RouterState W)
  after_call key c attempts s again (err e) t = again (attempts ++ failed_attempt c p e ∷ []) t
  after_call key c attempts s again (ok result) t = (
    (
      ok (routed c result (attempts ++ attempt c p result false c.model_id ∷ [])),
      record {
        spend =
            record_call daily_limit_usd s.spend clock.record_day c.model_id result.input_tokens
              result.output_tokens;
        cache = cache_set ttl s.cache key result clock.stored_at;
      },
    ),
    t,
  )

  try_each :
      String → RouterState W → List Candidate → List Attempt → Act Candidate (Reply × RouterState W)
  try_each key s [] attempts t = ((err all_failed, s), t)
  try_each key s (c ∷ rest) attempts t =
      let (reply, t₁) = perform c (λ t. answer t c) t in
      after_call key c attempts s (try_each key s rest) reply t₁

  -- After the lookup; `first` is `eligible[0]`.
  on_lookup :
      String
      → Candidate
      → List Candidate
      → RouterState W
      → Option LlmResult
      → Act Candidate (Reply × RouterState W)
  on_lookup key first rest s none t = try_each key s (first ∷ rest) [] t
  on_lookup key first rest s (some hit) t =
      ((ok (routed first hit (attempt first p hit true hit.model_id ∷ [])), s), t)

  route_first : Candidate → List Candidate → RouterState W → Act Candidate (Reply × RouterState W)
  route_first first rest s t =
      let (killed, spend) = is_killed daily_limit_usd s.spend clock.budget_day in
      let key = compute_key p.system_prompt p.user_content first.model_id in
      let (hit, cache) = cache_get s.cache key clock.lookup_at in
      if killed
      then ((err daily_limit_hit, record s { spend = spend }), t)
      else on_lookup key first rest (record { spend = spend; cache = cache }) hit t

  pub route_eligible : List Candidate → RouterState W → Act Candidate (Reply × RouterState W)
  route_eligible [] s t = ((err no_eligible_candidate, s), t)
  route_eligible (first ∷ rest) s t = route_first first rest s t

  pub route_committee_call : RouterState W → Act Candidate (Reply × RouterState W)
  route_committee_call s = route_eligible (eligible routing p.member) s

-- Opens the router to a test by evaluation.
unfoldable pub opened : Unit {0}
unfolding Spend.opened PromptCache.opened narrative_candidates quant_candidates risk_candidates
    candidates_for passes eligible failed_attempt routed after_call try_each on_lookup route_first
    route_eligible route_committee_call
opened = tt
