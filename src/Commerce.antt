-- ===== src/Commerce.antt =====
-- src/lib/services/agenticCommerce.ts: the ERC-8183 job of one executed decision. `canonicalize` and
-- keccak256 are the parameter `Hashing`, since the hash is third-party code; TWAK's calls are
-- services. The alerter's notice after a submit is a call here, whose outcome is not looked at. The
-- fixed sentences of the negotiation's terms and the response's text are left out.
pub mod Lifecycle
use Prim.Native.String.{◌++◌ as text_append}
use neurodegen.Common.{
  ℕ, ◌+◌, ◌/◌, String, Bool, true, false, not, Option, none, some, List, ◌∷◌, if◌then◌else◌, get_or,
}
use neurodegen.Common.Calls.{Result, ok, err, Act, perform, ◌>>=◌}
use neurodegen.Types.{
  ActionType, open_long, close_position, adjust_parameters, hold, is_hold, ActionRecommendation,
}

-- src/config/chains.ts and features.ts
pub record CommerceSettings : Type 0 where
  pub commerce_address : String
  pub evaluator_router_address : String
  pub optimistic_policy_address : String
  pub payment_token_address : String
  pub job_budget_wei : String
  pub enable_jobs : Bool
  pub dry_run_mode : Bool

-- The fields of `CommitteeSession` and `ExecutionResultRecord` that are read.
pub record DecidedSession (W : Type 0) : Type 0 where
  pub session_id : String
  pub session_number : ℕ
  pub final_action : ActionRecommendation W
  pub reasoning_hash : String
  pub attestation_commit_tx : Option String

pub record ExecutionRecord : Type 0 where
  pub executed : Bool
  pub twak_tx_hash : Option String
  pub attestation_reveal_tx : Option String

pub record NegotiationContent : Type 0 where
  pub currency : String
  pub negotiated_at : ℕ
  pub price : String
  pub task : String
  pub verifying_contract : String

pub record DeliverableManifest (W : Type 0) : Type 0 where
  pub commerce : String
  pub policy : String
  pub router : String
  pub job_id : String
  pub action : ActionType
  pub attestation_commit_tx : Option String
  pub attestation_reveal_tx : Option String
  pub confidence : W
  pub executed_at : ℕ
  pub reasoning_hash : String
  pub session_id : String
  pub session_number : ℕ
  pub token_symbol : Option String
  pub swap : Option String

pub record CreateJob : Type 0 where
  pub provider : String
  pub evaluator : String
  pub expired_at : ℕ
  pub description : String
  pub hook : String

pub data CommerceCall : Type 0 where
  sign_message : String → CommerceCall
  create_job : CreateJob → CommerceCall
  -- the job and the amount
  set_budget fund : String → String → CommerceCall
  -- the job and the deliverable's hash
  submit : String → String → CommerceCall
  -- the job and the service's name
  notify_submitted : String → String → CommerceCall

pub record CreatedJob : Type 0 where
  pub job_id : String
  pub tx_hash : String

-- A step that has no other result answers the hash of its transaction.
pub record CommerceServices : Type 0 where
  pub sign : List CommerceCall → Result String String
  pub create : List CommerceCall → Result String CreatedJob
  pub budgeted : List CommerceCall → Result String String
  pub funded : List CommerceCall → Result String String
  pub submitted : List CommerceCall → Result String String

pub record Hashing (W : Type 0) : Type 0 where
  pub of_content : NegotiationContent → String
  pub of_manifest : DeliverableManifest W → String

pub data SkippedReason : Type 0 where
  jobs_disabled dry_run not_executed is_hold_action : SkippedReason

pub data FailedStep : Type 0 where
  at_create at_set_budget at_fund at_submit : FailedStep

pub record JobResult : Type 0 where
  pub attempted : Bool
  pub job_id : Option String
  pub create_tx : Option String
  pub budget_tx : Option String
  pub fund_tx : Option String
  pub submit_tx : Option String
  pub negotiation_hash : Option String
  pub provider_signature : Option String
  pub deliverable : Option String
  pub skipped_reason : Option SkippedReason
  pub failed_step : Option FailedStep
  pub failed_message : Option String

abbrev pub empty_result : JobResult
empty_result = record {
  attempted = false;
  job_id = none;
  create_tx = none;
  budget_tx = none;
  fund_tx = none;
  submit_tx = none;
  negotiation_hash = none;
  provider_signature = none;
  deliverable = none;
  skipped_reason = none;
  failed_step = none;
  failed_message = none;
}

abbrev pub skipped : SkippedReason → JobResult
skipped why = record empty_result { skipped_reason = some why }

-- `{ ...EMPTY_RESULT, attempted: true }` with the hash, and the signature if there is one.
abbrev pub begin : String → Option String → JobResult
begin hash signature = record empty_result {
  attempted = true;
  negotiation_hash = some hash;
  provider_signature = signature;
}

abbrev pub job_expiry_seconds : ℕ
job_expiry_seconds = 2592000

abbrev pub action_text : ActionType → String
action_text open_long = "open_long"
action_text close_position = "close_position"
action_text adjust_parameters = "adjust_parameters"
action_text hold = "hold"

abbrev failed : FailedStep → String → JobResult → JobResult
failed step message r = record r { failed_step = some step; failed_message = some message }

abbrev ok_or_none : Result String String → Option String
ok_or_none (ok s) = some s
ok_or_none (err _) = none

-- `now` is in milliseconds.
module _ {W : Type 0} (settings : CommerceSettings) (session : DecidedSession W) (now : ℕ) where
  open settings use {job_budget_wei}
  open session use {final_action, reasoning_hash}

  unfoldable pub build_negotiation_content : NegotiationContent
  build_negotiation_content = record {
    currency = settings.payment_token_address;
    negotiated_at = now / 1000;
    price = job_budget_wei;
    task = text_append "committee_decision:" (
        text_append reasoning_hash (
          text_append ":" (
            text_append (action_text final_action.action)
              (text_append ":" (get_or final_action.token_symbol "none")))));
    verifying_contract = settings.commerce_address;
  }

  unfoldable pub build_deliverable_manifest : ExecutionRecord → String → DeliverableManifest W
  build_deliverable_manifest execution job_id = record {
    commerce = settings.commerce_address;
    policy = settings.optimistic_policy_address;
    router = settings.evaluator_router_address;
    job_id = job_id;
    action = final_action.action;
    attestation_commit_tx = session.attestation_commit_tx;
    attestation_reveal_tx = execution.attestation_reveal_tx;
    confidence = final_action.confidence;
    executed_at = now;
    reasoning_hash = reasoning_hash;
    session_id = session.session_id;
    session_number = session.session_number;
    token_symbol = final_action.token_symbol;
    swap = execution.twak_tx_hash;
  }

  -- The request of the second step.
  unfoldable pub job_request : String → String → CreateJob
  job_request agent_wallet negotiation_hash = record {
    provider = agent_wallet;
    evaluator = settings.optimistic_policy_address;
    expired_at = now / 1000 + job_expiry_seconds;
    description =
        text_append "negotiationHash="
          (text_append negotiation_hash (text_append ";reasoningHash=" reasoning_hash));
    hook = settings.evaluator_router_address;
  }

pub record CommerceEnv (W : Type 0) : Type 0 where
  pub hashing : Hashing W
  pub settings : CommerceSettings
  pub services : CommerceServices

pub record JobArgs (W : Type 0) : Type 0 where
  pub session : DecidedSession W
  pub execution : ExecutionRecord
  pub agent_wallet : String
  pub now : ℕ

module _ {W : Type 0} (env : CommerceEnv W) (args : JobArgs W) where
  open env use {hashing, settings, services}
  open settings use {job_budget_wei}
  open args use {session, execution, agent_wallet, now}
  open session use {final_action}

  -- `keccakOfCanonical` of the content and of the manifest.
  abbrev pub negotiation_hash : String
  negotiation_hash = hashing.of_content (build_negotiation_content settings session now)

  abbrev pub deliverable_hash : String → String
  deliverable_hash job =
      hashing.of_manifest (build_deliverable_manifest settings session now execution job)

  unfoldable pub after_submit :
      JobResult → String → Result String String → Act CommerceCall JobResult
  after_submit r job (err e) t = (failed at_submit e r, t)
  after_submit r job (ok tx) t =
      let name = text_append "committee_decision:" (action_text final_action.action) in
      (record r { submit_tx = some tx }, notify_submitted job name ∷ t)

  unfoldable pub after_fund : JobResult → String → Result String String → Act CommerceCall JobResult
  after_fund r job (err e) t = (failed at_fund e r, t)
  after_fund r job (ok tx) t =
      let deliverable = deliverable_hash job in
      let done : JobResult = record r { fund_tx = some tx; deliverable = some deliverable } in
      (perform (submit job deliverable) services.submitted >>= after_submit done job) t

  unfoldable pub after_budget :
      JobResult → String → Result String String → Act CommerceCall JobResult
  after_budget r job (err e) t = (failed at_set_budget e r, t)
  after_budget r job (ok tx) t =
      let done : JobResult = record r { budget_tx = some tx } in
      (perform (fund job job_budget_wei) services.funded >>= after_fund done job) t

  unfoldable pub after_create : JobResult → Result String CreatedJob → Act CommerceCall JobResult
  after_create r (err e) t = (failed at_create e r, t)
  after_create r (ok created) t =
      let job = created.job_id in
      let done : JobResult = record r { job_id = some job; create_tx = some created.tx_hash } in
      (perform (set_budget job job_budget_wei) services.budgeted >>= after_budget done job) t

  unfoldable pub run_steps : Act CommerceCall JobResult
  run_steps t =
      let hash = negotiation_hash in
      let request = job_request settings session now agent_wallet hash in
      let (signed, t') = perform (sign_message hash) services.sign t in
      let begun = begin hash (ok_or_none signed) in
      (perform (create_job request) services.create >>= after_create begun) t'

  unfoldable pub run_commerce_job_for_session : Act CommerceCall JobResult
  run_commerce_job_for_session t =
      if not settings.enable_jobs
      then (skipped jobs_disabled, t)
      else if settings.dry_run_mode
      then (skipped dry_run, t)
      else if not execution.executed
      then (skipped not_executed, t)
      else if is_hold final_action.action
      then (skipped is_hold_action, t)
      else run_steps t
