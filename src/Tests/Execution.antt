-- ===== src/Tests/Execution.antt =====
-- Runs of the risk manager, the checks and the executor.
use neurodegen.Common.{◌≤◌, ◌<◌, ◌≡◌, ◌≢◌, refl, false, none, some, length, List, [], ◌∷◌}
use neurodegen.Common.Number.{◌≼◌}
use neurodegen.Common.Calls.{err}
use neurodegen.Common.Fixed.{Fixed, fixed_number, Fixed-IsOrdered}
use neurodegen.Types.{open_long, close_position, hold}
use neurodegen.Services.{Services, effects}
use neurodegen.Allowlist.{str, object, load_allowlist_from_env}
use neurodegen.Allowlist.Laws.{LoadOutcome, load_allowlist_from_env-LoadOutcome}
use neurodegen.Risk
use neurodegen.Precheck
use neurodegen.Executor
use neurodegen.Risk.{
  default_risk_config, default_mandate, can_act, classify_drawdown_tier, normal, capped_size,
}
use neurodegen.Risk.Tier.{rank}
use neurodegen.Risk.Guards.{can_act-guards}
use neurodegen.Risk.Sizing.{can_act-size}
use neurodegen.Precheck.{run_checks}
use neurodegen.Precheck.Laws.{IsCleared, run_checks-IsCleared}
use neurodegen.Executor.{execute, execute_open}
use neurodegen.Executor.Trades.{Trade, execute-Trade}
use neurodegen.Commerce.{DecidedSession}
use neurodegen.Telegram.Alerter.{position_alert}
use neurodegen.Cycle.Aftermath.{session_inputs, follow_up, alerts, jobs}
use neurodegen.Tests.Fixtures.{
  usd, cents, same_case, advice, state, held, inputs, settings, tokens, services, exec_settings,
  exec_inputs,
}

can_act-guards_example :
    (open_long ≢ hold)
    × (rank normal ≤ 2)
    × (rank normal ≡ 2 → open_long ≡ close_position)
    × (1 < 3)
    × (open_long ≡ close_position → (held ∷ []) ≢ [])
    × (open_long ≢ close_position
        → (1 < 5) × (fixed_number.le (usd 3) (fixed_number.sub (cents 0) (usd 50)) ≡ false))
unfolding Risk.opened
can_act-guards_example =
    can_act-guards default_risk_config default_mandate (advice open_long) state (held ∷ [])
      (usd 1000) refl

can_act-size_example :
    (s : Fixed) × ((can_act default_risk_config default_mandate
        (advice open_long)
        state
        (held ∷ [])
        (usd 1000)).adjusted_position_size_usd
      ≡ some (fixed_number.round2 s))
    × (s ≼ usd 20)
    × (s ≼ usd 80)
    × (s ≼ usd 770)
    × (s ≼ usd 200)
    × (fixed_number.lt s (usd 5) ≡ false)
unfolding Risk.opened
can_act-size_example =
    can_act-size Fixed-IsOrdered default_risk_config default_mandate (advice open_long) state
      (held ∷ []) (usd 1000) refl refl (λ e. cc) refl

abbrev values : List Fixed
values = usd 1100 ∷ usd 900 ∷ []

abbrev loss : Fixed
loss = fixed_number.sub (usd 0) (usd 4)

run_checks-IsCleared_example : IsCleared settings (inputs open_long) services [] (usd 20)
unfolding Precheck.opened
run_checks-IsCleared_example =
    run_checks-IsCleared settings (inputs open_long) services Fixed-IsOrdered [] refl

execute-Trade_example :
    let (checks, checked) = run_checks settings services (inputs open_long) [] in
    let (result, after) = execute exec_settings services (exec_inputs open_long) [] in
    (effects checked ≡ [])
    × Trade exec_settings services (exec_inputs open_long) checks.passed result checked after
execute-Trade_example = execute-Trade exec_settings services (exec_inputs open_long) []

-- The services with a commit that fails.
abbrev no_commit : Services Fixed
no_commit = record services { commit = λ t. err "no gas" }

load_allowlist_from_env-LoadOutcome_example : LoadOutcome tokens (
    load_allowlist_from_env same_case
      (λ raw. some (object (("FLOKI", str "0x12") ∷ [])))
      tokens
      (some "{}"))
load_allowlist_from_env-LoadOutcome_example =
    load_allowlist_from_env-LoadOutcome same_case
      (λ raw. some (object (("FLOKI", str "0x12") ∷ []))) tokens (some "{}")

abbrev decided : DecidedSession Fixed
decided = record {
  session_id = "s1";
  session_number = 1;
  final_action = (inputs open_long).recommendation;
  reasoning_hash = "0x01";
  attestation_commit_tx = none;
}

-- The alert of that run, and how often its job is begun.
followed_example :
    let fs =
      follow_up decided "0xwallet" 5
        (execute exec_settings services (session_inputs decided (inputs open_long)) []).0 in
    (length (alerts fs) ≡ 1) × (length (jobs fs) ≡ 1)
unfolding Precheck.opened Executor.opened follow_up session_inputs position_alert
followed_example = (refl, refl)
