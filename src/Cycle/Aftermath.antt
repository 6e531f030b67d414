-- ===== src/Cycle/Aftermath.antt =====
-- What `runCycle` of src/lib/services/agentLoop.ts does with the executor's answer, up to the alerter
-- and the job: the calls that are begun, in order. None of them is awaited, and none fails the cycle.
use text.Mathlib.Text.{◌==◌ as str_eq}
use neurodegen.Common.{
  ℕ, ◌≡◌, ◌≢◌, String, true, false, not, Option, none, some, List, [], ◌∷◌, ◌++◌, if◌then◌else◌,
  ◌⊎◌,
}
use neurodegen.Common.Number.{Number}
use neurodegen.Types.{hold, PositionState}
use neurodegen.Services.{Call, Services}
use neurodegen.Precheck.{CheckInputs}
use neurodegen.Precheck.Laws.{IsCleared}
use neurodegen.Executor.{ExecSettings, ExecInputs, ExecutionResult, ExecutorResult, execute}
use neurodegen.Commerce.{DecidedSession, ExecutionRecord, JobArgs}
use neurodegen.Telegram.{PositionUpdateLike, Alert, position_open}
use neurodegen.Telegram.Alerter.{position_alert}
use neurodegen.Telegram.Updates.{update_of}

pub data FollowUp (W : Type 0) : Type 0 where
  update_session_execution_result : String → ExecutionResult W → FollowUp W
  update_session_attestation_commit : String → String → FollowUp W
  broadcast_position : Option (PositionState W) → FollowUp W
  run_job : JobArgs W → FollowUp W

module _ {W : Type 0} where
  -- The session's part of what `execute` is given.
  unfoldable pub session_inputs : DecidedSession W → CheckInputs W → ExecInputs W
  session_inputs session c = record {
    session_id = session.session_id;
    reasoning_hash = session.reasoning_hash;
    checked = record c { recommendation = session.final_action };
  }

  -- `if (execution.attestationCommitTx)`
  abbrev pub commit_update : String → Option String → List (FollowUp W)
  commit_update session_id none = []
  commit_update session_id (some tx) =
      if str_eq tx "" then [] else update_session_attestation_commit session_id tx ∷ []

  abbrev pub execution_record : ExecutionResult W → ExecutionRecord
  execution_record r = record {
    executed = r.executed;
    twak_tx_hash = r.twak_tx_hash;
    attestation_reveal_tx = r.attestation_reveal_tx;
  }

  abbrev pub job_of : DecidedSession W → String → ℕ → ExecutorResult W → JobArgs W
  job_of session agent_wallet now r = record {
    session = record session { attestation_commit_tx = r.attestation_commit_tx };
    execution = execution_record r.execution_result;
    agent_wallet = agent_wallet;
    now = now;
  }

  unfoldable pub follow_up : DecidedSession W → String → ℕ → ExecutorResult W → List (FollowUp W)
  follow_up session agent_wallet now r =
      update_session_execution_result session.session_id r.execution_result
      ∷ (commit_update session.session_id r.attestation_commit_tx
          ++ (if not r.execution_result.executed
              then []
              else broadcast_position r.position
                ∷ run_job (job_of session agent_wallet now r)
                ∷ []))

  -- The jobs that are begun.
  abbrev pub jobs : List (FollowUp W) → List (JobArgs W)
  jobs [] = []
  jobs (run_job args ∷ fs) = args ∷ jobs fs
  jobs (_ ∷ fs) = jobs fs

module _ {W : Type 0} ⦃num : Number W⦄ where
  -- The alerts that the broadcasts become.
  abbrev pub alert_of : Option (PositionState W) → Option (Alert W)
  alert_of none = none
  alert_of (some p) = position_alert (some (update_of p))

  abbrev pub sent : Option (Alert W) → List (Alert W) → List (Alert W)
  sent none others = others
  sent (some a) others = a ∷ others

  abbrev pub alerts : List (FollowUp W) → List (Alert W)
  alerts [] = []
  alerts (broadcast_position p ∷ fs) = sent (alert_of p) (alerts fs)
  alerts (_ ∷ fs) = alerts fs

  abbrev pub opening : Option String → W → PositionUpdateLike W
  opening symbol size = record {
    status = some "SUBMITTED";
    token_symbol = symbol;
    size_usd = some size;
    kind = none;
  }

  -- A job for an action that is no hold, under the session and the hashes of the position.
  pub record IsHandedIn (session : DecidedSession W) (position : PositionState W) (args : JobArgs W)
      : Type 0 where
    pub of_session : args.session.session_id ≡ session.session_id
    pub of_reasoning : args.session.reasoning_hash ≡ session.reasoning_hash
    pub acts : args.session.final_action.action ≢ hold
    pub done : args.execution.executed ≡ true
    pub of_swap : args.execution.twak_tx_hash ≡ some position.twak_tx_hash
    pub of_commit : args.session.attestation_commit_tx ≡ position.attestation_commit_tx
    pub of_reveal : args.execution.attestation_reveal_tx ≡ position.attestation_reveal_tx
    pub recorded : position.session_id ≡ some session.session_id

module _ {W : Type 0} ⦃num : Number W⦄ (s : ExecSettings W) (services : Services W) where
  -- How a session's execution is followed up: not at all, or with one alert and one job.
  abbrev pub IsFollowed : DecidedSession W → CheckInputs W → String → ℕ → List (Call W) → Type 0
  IsFollowed session c agent_wallet now t =
      let i = session_inputs session c in
      let out = (execute s services i t).0 in
      let fs = follow_up session agent_wallet now out in
      ((out.execution_result.executed ≡ false) × (alerts fs ≡ []) × (jobs fs ≡ []))
      ⊎ ((size : W) × (position : PositionState W) × (args : JobArgs W) × IsCleared s.checks
            i.checked services t size
          × (out.position ≡ some position)
          × (alerts fs ≡ position_open (opening session.final_action.token_symbol size) ∷ [])
          × (jobs fs ≡ args ∷ [])
          × IsHandedIn session position args)
