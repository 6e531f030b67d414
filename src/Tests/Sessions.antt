-- ===== src/Tests/Sessions.antt =====
-- Runs of the committee.
use neurodegen.Common.{◌≡◌, ◌≢◌, ◌⊎◌, refl, String, true, false, Option, some, List, [], ◌∷◌}
use neurodegen.Common.Calls.{ok, err}
use neurodegen.Common.Fixed.{Fixed, fixed_number}
use neurodegen.Types.{ActionRecommendation, open_long, hold, moderate}
use neurodegen.Cognition.{bullish, bearish, strong, none_found, momentum, QuantOutput}
use neurodegen.Cognition.Rails
use neurodegen.Cognition.FinalAction
use neurodegen.Cognition.Dissent.{DissentResult, DissentRationale, ParseStatus, compute_dissent}
use neurodegen.Cognition.Rails.{ParsedRisk, RiskOutput, enforce_safety_rails, has_symbol}
use neurodegen.Cognition.Rails.Laws.{enforce_safety_rails-acts}
use neurodegen.Cognition.FinalAction.{
  ActionConfig, ActionInputs, raw_size, derive_final_action, explanation, collapsed,
}
use neurodegen.Cognition.FinalAction.Laws.{session_acts}
use neurodegen.Cognition.Committee.{SessionCore, Store, collision}
use neurodegen.Tests.Fixtures.{usd, cents, same_case, tokens, advice}

abbrev agreed : DissentResult Fixed
agreed = record {
  dissent_detected = false;
  dissent_severity = none_found;
  narrative_direction = bullish;
  quant_direction = bullish;
  position_size_modifier = usd 1;
  rationale = DissentRationale.analysts_agree;
}

abbrev liquid : QuantOutput
liquid = record {
  dominant_direction = bullish;
  liquidity_adequate = true;
  funding_rate_warning = false;
  recommended_token = some "CAKE";
}

abbrev answer : ParsedRisk Fixed
answer = record {
  action = open_long;
  target_token = some "CAKE";
  confidence = cents 80;
  rationale = "";
  dissent_acknowledged = false;
}

abbrev listed : List String
listed = "WBNB" ∷ "CAKE" ∷ []

abbrev railed : List String → RiskOutput Fixed
railed symbols = enforce_safety_rails (cents 50) same_case answer agreed liquid symbols

enforce_safety_rails-acts_example :
    ((railed listed).action ≡ open_long)
    × (fixed_number.lt (cents 80) (cents 50) ≡ false)
    × (none_found ≢ strong)
    × (true ≡ true)
    × ((railed listed).target_token ≡ some "CAKE")
    × ((token : String)
        → some "CAKE" ≡ some token
        → (token ≡ "") ⊎ (has_symbol same_case listed token ≡ true))
unfolding Rails.opened
enforce_safety_rails-acts_example =
    enforce_safety_rails-acts (cents 50) same_case answer agreed liquid listed (λ e. cc)

abbrev config : ActionConfig Fixed
config = record {
  agent_base_position_size_usd = usd 100;
  default_tp_percentage = cents 5;
  default_sl_percentage = cents 3;
}

abbrev action_inputs : ActionInputs Fixed
action_inputs = record {
  regime = momentum;
  risk_level = moderate;
  quant = liquid;
  dissent = agreed;
  risk = railed listed;
  token_addresses = tokens;
  to_upper = same_case;
}

abbrev final : ActionRecommendation Fixed
final = derive_final_action config action_inputs

session_acts_example :
    (final.action ≡ open_long)
    × (fixed_number.lt (cents 80) (cents 50) ≡ false)
    × (none_found ≢ strong)
    × (true ≡ true)
    × ((token : String)
        → final.token_symbol ≡ some token
        → (token ≡ "") ⊎ (has_symbol same_case listed token ≡ true))
unfolding FinalAction.opened
session_acts_example = session_acts config action_inputs (cents 50) answer listed refl (λ e. cc)

abbrev both_parsed : Option ParseStatus
both_parsed = some (record { narrative_ok = true; quant_ok = true })

abbrev dissent : DissentResult Fixed
dissent = compute_dissent bullish bearish both_parsed

abbrev core : SessionCore Fixed (Unit {0})
core = record {
  session_id = "s1";
  session_number = 0;
  created_at = 0;
  final_action = advice hold;
  evidence = tt;
}

-- Every number collides.
abbrev full : Store Fixed (Unit {0})
full = record { next = λ t. ok 7; insert = λ t. err collision }

abbrev no_hash : SessionCore Fixed (Unit {0}) → String
no_hash c = "0x"
