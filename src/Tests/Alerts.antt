-- ===== src/Tests/Alerts.antt =====
-- Runs of the alerter, of the competition registration and of a commerce job.
use Prim.Native.Char.{Char}
use neurodegen.Common.{
  ℕ, ◌+◌, ◌≤◌, ◌≡◌, ◌≢◌, ◌⊎◌, refl, not, leb, if◌then◌else◌, true, false, Option, some, none, List,
  [], ◌∷◌, arith, All, length, is_some,
}
use neurodegen.Common.Calls.{ok, err}
use neurodegen.Common.Fixed.{Fixed, fixed_number}
use neurodegen.Types.{open_long, PositionState, closed}
use neurodegen.Telegram.{
  SseEvent, HealthDegradationLike, Thresholds, default_thresholds, drawdown_to_tier,
}
use neurodegen.Telegram.Alerter.{
  StartEnv, stopped, start, slice_to, dedupe_key, can_send, mark_sent, handle_health,
  handle_status_snapshot, notify_erc8183_job_submitted, on_event, Input, event, job, receive,
  run_alerter,
}
use neurodegen.Telegram.Client.{Text, chunk_message}
use neurodegen.Telegram.Client.Chunks.{letters, concat, chunk_message-Fits}
use neurodegen.Telegram.Client.Posting.{
  PostServices, responded, success, failure, post_with_retry, max_retries, retries_spent,
}
use neurodegen.Telegram.Client.Retries.{fetches, post_with_retry-fetches}
use neurodegen.Telegram.Spec.{run_log}
use neurodegen.Telegram.Refinement.{Forward, run_alerter-refines}
use neurodegen.Telegram.Spacing.{Paced, run_alerter-Paced}
use neurodegen.Telegram.Boot.{Boot}
use neurodegen.Registration.{
  CompetitionRecord, RegisterReply, RegistrationCall, get_worker_state, set_worker_state,
  RegistrationServices, RegistrationSettings, cached, ensure_competition_registration, ensure_all,
  after_lookup, after_register, after_save, record_from,
}
use neurodegen.Registration.Laws.{kept, writes, ensure_all-cached}
use neurodegen.Commerce.{
  SkippedReason, empty_result, CommerceSettings, CommerceEnv, JobArgs, run_commerce_job_for_session,
}
use neurodegen.Commerce.Lifecycle.{Steps, IsDue, Skipped, run_commerce_job_for_session-Steps}
use neurodegen.Tests.Fixtures.{usd, cents, advice, held}

abbrev env : StartEnv
env = record {
  enable_telegram_alerts = true;
  bot_token = "token";
  chat_id = "chat";
  client_throws = false;
}

abbrev killed : HealthDegradationLike
killed = record { source = some "llm"; message = some "kill" }

abbrev limits : Thresholds Fixed
limits = default_thresholds

-- A problem reported twice in a minute, and a drawdown that falls through two tiers.
abbrev arrivals : List (ℕ × Input Fixed)
arrivals =
    (40000, event (SseEvent.health_degradation killed))
    ∷ (80000, event (SseEvent.health_degradation killed))
    ∷ (90000, event (SseEvent.agent_status_snapshot (some (cents 16))))
    ∷ (130000, event (SseEvent.agent_status_snapshot (some (cents 26))))
    ∷ (140000, job (record { job_id = "7"; service_name = "s"; cost_usd = cents 1 }))
    ∷ []

arrivals-Forward : Forward 0 arrivals
arrivals-Forward = (omega arith, (omega arith, (omega arith, (omega arith, (omega arith, tt)))))

-- The second report is held back.
test_arrivals_sent : length (run_alerter limits arrivals (start env stopped) []) ≡ 4
unfolding run_alerter receive on_event handle_health handle_status_snapshot can_send mark_sent
    notify_erc8183_job_submitted start stopped drawdown_to_tier dedupe_key slice_to
test_arrivals_sent = refl

run_alerter-refines_example :
    run_alerter limits arrivals (start env stopped) [] ≡ run_log limits arrivals []
unfolding start stopped
run_alerter-refines_example = run_alerter-refines limits env arrivals refl arrivals-Forward

run_alerter-Paced_example : Paced (run_alerter limits arrivals (start env stopped) [])
unfolding start stopped
run_alerter-Paced_example = run_alerter-Paced limits env arrivals refl arrivals-Forward

abbrev boot_at : ℕ → Boot Fixed
boot_at now = record {
  snapshot = record {
    regime = "active";
    open_position_count = 1;
    wallet_non_stable_holdings = 2;
    wallet_value_usd = usd 100;
    drawdown_pct = cents 2;
    git_sha = "abc";
  };
  asked = now;
  marked = now;
  today = "2026-06-27";
}

abbrev sold : PositionState Fixed
sold = record held { status = closed }

abbrev reply : RegisterReply
reply = record { tx_hash = "0x1"; participant = "0xagent"; already_registered = false }

abbrev last_written : List RegistrationCall → Option CompetitionRecord
last_written [] = none
last_written (set_worker_state r ∷ t) = some r
last_written (_ ∷ t) = last_written t

-- A table that keeps what is written to it.
abbrev table : RegistrationServices
table = record {
  get_state = λ t. ok (last_written t);
  register_agent = λ t. ok reply;
  set_state = λ t. ok tt;
}

abbrev registration : RegistrationSettings
registration = record {
  dry_run_mode = false;
  contract_address = "0xc";
  registration_deadline = some 1000000;
  trading_window_start = some 2000000;
}

table-kept : (t : List RegistrationCall) → table.get_state t ≡ ok (kept table t)
table-kept [] = refl
table-kept (get_worker_state ∷ t) = table-kept t
table-kept (RegistrationCall.register ∷ t) = table-kept t
table-kept (set_worker_state r ∷ t) = refl

abbrev registered : CompetitionRecord
registered = record {
  tx_hash = "0x1";
  participant = "0xagent";
  contract = "0xc";
  registered_at = 500;
  already_registered = false;
}

-- A later start in dry run, and one after the deadline.
abbrev restarts : List (RegistrationSettings × ℕ)
restarts = (record registration { dry_run_mode = true }, 600) ∷ (registration, 3000000) ∷ []

ensure_all-cached_example :
    let (result, t') = ensure_competition_registration table registration 500 [] in
    let (results, t'') = ensure_all table restarts t' in
    All (λ x. x ≡ cached registered) results
    × (length results ≡ length restarts)
    × (writes t'' ≡ writes t')
unfolding ensure_competition_registration after_lookup after_register after_save record_from
ensure_all-cached_example =
    ensure_all-cached table table-kept registration 500 [] registered restarts refl

abbrev commerce : CommerceSettings
commerce = record {
  commerce_address = "0xa";
  evaluator_router_address = "0xb";
  optimistic_policy_address = "0xc";
  payment_token_address = "0xd";
  job_budget_wei = "10000000000000000";
  enable_jobs = true;
  dry_run_mode = false;
}

abbrev job_env : CommerceEnv Fixed
job_env = record {
  hashing = record { of_content = λ c. c.task; of_manifest = λ m. m.job_id };
  settings = commerce;
  services = record {
    sign = λ t. err "locked";
    create = λ t. ok (record { job_id = "7"; tx_hash = "0x7" });
    budgeted = λ t. ok "0x8";
    funded = λ t. ok "0x9";
    submitted = λ t. err "reverted";
  };
}

abbrev job_args : JobArgs Fixed
job_args = record {
  session = record {
    session_id = "s1";
    session_number = 1;
    final_action = advice open_long;
    reasoning_hash = "0xh";
    attestation_commit_tx = none;
  };
  execution = record { executed = true; twak_tx_hash = some "0x2"; attestation_reveal_tx = none };
  agent_wallet = "0xagent";
  now = 5000;
}

run_commerce_job_for_session-Steps_example :
    let (r, t') = run_commerce_job_for_session job_env job_args [] in
    (Steps job_env job_args r [] t' × IsDue job_env job_args)
    ⊎ ((why : SkippedReason) × Skipped job_env job_args why
        × (t' ≡ [])
        × (r ≡ record empty_result { skipped_reason = some why }))
run_commerce_job_for_session-Steps_example = run_commerce_job_for_session-Steps job_env job_args []

abbrev note : Text
note = "o" ∷ "k" ∷ "." ∷ []

abbrev newline : Char
newline = "\n"

chunk_message-Fits_example :
    All (λ c. length c ≤ 2) (chunk_message 2 ("o" ∷ newline ∷ note))
    × (letters (concat (chunk_message 2 ("o" ∷ newline ∷ note))) ≡ letters ("o" ∷ newline ∷ note))
chunk_message-Fits_example = chunk_message-Fits 2 (omega arith) ("o" ∷ newline ∷ note)

-- Told to wait for a second, until the third fetch.
abbrev busy : PostServices
busy = record {
  respond = λ t.
      if leb 2 (fetches t)
      then responded true 200 (some (success 9)) none
      else responded false 429 (some (failure (some 1))) none;
  jitter = λ t. 100;
}

post_with_retry-fetches_example :
    let (r, t') = post_with_retry busy note [] in
    (fetches t' ≡ fetches [] + r.retried + 1)
    × (r.retried ≤ max_retries)
    × (is_some r.reason ≡ not (is_some r.message_id))
    × (r.reason ≢ some retries_spent)
post_with_retry-fetches_example = post_with_retry-fetches busy note []
