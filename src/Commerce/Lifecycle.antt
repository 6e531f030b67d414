-- ===== src/Commerce/Lifecycle.antt =====
-- What `runCommerceJobForSession` does on the chain, step by step.
use neurodegen.Common.{
  ◌≡◌, ◌≢◌, refl, String, true, false, some, List, ◌∷◌, arith, ◌⊎◌, inl, inr, Bool-cases,
}
use neurodegen.Common.Calls.{Result, ok, err}
use neurodegen.Types.{ActionType, hold, is_hold}
use neurodegen.Commerce.{
  CommerceCall, sign_message, create_job, set_budget, fund, submit, notify_submitted, CreateJob,
  at_create, at_set_budget, at_fund, at_submit, FailedStep, SkippedReason, jobs_disabled, dry_run,
  not_executed, is_hold_action, JobResult, empty_result, ok_or_none, negotiation_hash,
  deliverable_hash, CommerceEnv, JobArgs, CreatedJob, begin, job_request, after_submit, after_fund,
  after_budget, after_create, run_steps, run_commerce_job_for_session,
}

module _ {W : Type 0} (env : CommerceEnv W) (args : JobArgs W) where
  open env use {settings, services}
  open args use {session, execution, agent_wallet, now}

  abbrev hash : String
  hash = negotiation_hash env args

  abbrev request : CreateJob
  request = job_request settings session now agent_wallet hash

  abbrev budget : String
  budget = settings.job_budget_wei

  abbrev signed_calls : List CommerceCall → List CommerceCall
  signed_calls t = sign_message hash ∷ t

  abbrev created_calls : List CommerceCall → List CommerceCall
  created_calls t = create_job request ∷ signed_calls t

  abbrev budgeted_calls : String → List CommerceCall → List CommerceCall
  budgeted_calls job t = set_budget job budget ∷ created_calls t

  abbrev funded_calls : String → List CommerceCall → List CommerceCall
  funded_calls job t = fund job budget ∷ budgeted_calls job t

  abbrev submitted_calls : String → List CommerceCall → List CommerceCall
  submitted_calls job t = submit job (deliverable_hash env args job) ∷ funded_calls job t

  -- What a result tells after each step that went through.
  abbrev signed : List CommerceCall → JobResult
  signed t = begin hash (ok_or_none (services.sign t))

  abbrev created : CreatedJob → List CommerceCall → JobResult
  created c t = record (signed t) { job_id = some c.job_id; create_tx = some c.tx_hash }

  abbrev budgeted : CreatedJob → String → List CommerceCall → JobResult
  budgeted c tx t = record (created c t) { budget_tx = some tx }

  abbrev funded : CreatedJob → String → String → List CommerceCall → JobResult
  funded c tx tx' t = record (budgeted c tx t) {
    fund_tx = some tx';
    deliverable = some (deliverable_hash env args c.job_id);
  }

  abbrev failed_at : FailedStep → String → JobResult → JobResult
  failed_at step e r = record r { failed_step = some step; failed_message = some e }

  -- How an attempt ends: its result, the calls before, and the calls after, newest first.
  pub data Steps : JobResult → List CommerceCall → List CommerceCall → Type 0 where
    create_failed :
        (t : List CommerceCall) (e : String)
        → services.create (signed_calls t) ≡ err e
        → Steps (failed_at at_create e (signed t)) t (created_calls t)
    budget_failed :
        (t : List CommerceCall) (c : CreatedJob) (e : String)
        → services.create (signed_calls t) ≡ ok c
        → services.budgeted (created_calls t) ≡ err e
        → Steps (failed_at at_set_budget e (created c t)) t (budgeted_calls c.job_id t)
    fund_failed :
        (t : List CommerceCall) (c : CreatedJob) (tx e : String)
        → services.create (signed_calls t) ≡ ok c
        → services.budgeted (created_calls t) ≡ ok tx
        → services.funded (budgeted_calls c.job_id t) ≡ err e
        → Steps (failed_at at_fund e (budgeted c tx t)) t (funded_calls c.job_id t)
    submit_failed :
        (t : List CommerceCall) (c : CreatedJob) (tx tx' e : String)
        → services.create (signed_calls t) ≡ ok c
        → services.budgeted (created_calls t) ≡ ok tx
        → services.funded (budgeted_calls c.job_id t) ≡ ok tx'
        → services.submitted (funded_calls c.job_id t) ≡ err e
        → Steps (failed_at at_submit e (funded c tx tx' t)) t (submitted_calls c.job_id t)
    submitted :
        (t : List CommerceCall) (c : CreatedJob) (tx tx' last name : String)
        → services.create (signed_calls t) ≡ ok c
        → services.budgeted (created_calls t) ≡ ok tx
        → services.funded (budgeted_calls c.job_id t) ≡ ok tx'
        → services.submitted (funded_calls c.job_id t) ≡ ok last
        → Steps
            (record (funded c tx tx' t) { submit_tx = some last })
            t
            (notify_submitted c.job_id name ∷ submitted_calls c.job_id t)

  abbrev Attempt : JobResult × List CommerceCall → List CommerceCall → Type 0
  Attempt (r, t') t = Steps r t t'

  settle_submit :
      (c : CreatedJob) (tx tx' : String) (reply : Result String String) (t : List CommerceCall)
      → services.create (signed_calls t) ≡ ok c
      → services.budgeted (created_calls t) ≡ ok tx
      → services.funded (budgeted_calls c.job_id t) ≡ ok tx'
      → services.submitted (funded_calls c.job_id t) ≡ reply
      → Attempt
          (after_submit env args (funded c tx tx' t) c.job_id reply (submitted_calls c.job_id t))
          t
  unfolding after_submit
  settle_submit c tx tx' (err e) t made set paid same =
      submit_failed t c tx tx' e made set paid same
  settle_submit c tx tx' (ok last) t made set paid same =
      submitted t c tx tx' last _ made set paid same

  settle_fund :
      (c : CreatedJob) (tx : String) (reply : Result String String) (t : List CommerceCall)
      → services.create (signed_calls t) ≡ ok c
      → services.budgeted (created_calls t) ≡ ok tx
      → services.funded (budgeted_calls c.job_id t) ≡ reply
      → Attempt (after_fund env args (budgeted c tx t) c.job_id reply (funded_calls c.job_id t)) t
  unfolding after_fund
  settle_fund c tx (err e) t made set same = fund_failed t c tx e made set same
  settle_fund c tx (ok tx') t made set same = settle_submit c tx tx' _ t made set same refl

  settle_budget :
      (c : CreatedJob) (reply : Result String String) (t : List CommerceCall)
      → services.create (signed_calls t) ≡ ok c
      → services.budgeted (created_calls t) ≡ reply
      → Attempt (after_budget env args (created c t) c.job_id reply (budgeted_calls c.job_id t)) t
  unfolding after_budget
  settle_budget c (err e) t made same = budget_failed t c e made same
  settle_budget c (ok tx) t made same = settle_fund c tx _ t made same refl

  settle_create :
      (reply : Result String CreatedJob) (t : List CommerceCall)
      → services.create (signed_calls t) ≡ reply
      → Attempt (after_create env args (signed t) reply (created_calls t)) t
  unfolding after_create
  settle_create (err e) t same = create_failed t e same
  settle_create (ok c) t same = settle_budget c _ t same refl

  attempt-Steps : (t : List CommerceCall) → Attempt (run_steps env args t) t
  unfolding run_steps
  attempt-Steps t = settle_create _ t refl

  -- Jobs are enabled, this is no dry run, the decision was executed and is no hold.
  abbrev pub IsDue : Type 0
  IsDue =
      (settings.enable_jobs ≡ true)
      × (settings.dry_run_mode ≡ false)
      × (execution.executed ≡ true)
      × (session.final_action.action ≢ hold)

  -- Why no job is due.
  pub data Skipped : SkippedReason → Type 0 where
    off : settings.enable_jobs ≡ false → Skipped jobs_disabled
    dry : settings.dry_run_mode ≡ true → Skipped dry_run
    idle : execution.executed ≡ false → Skipped not_executed
    held : session.final_action.action ≡ hold → Skipped is_hold_action

  hold-is_hold : (a : ActionType) → is_hold a ≡ true → a ≡ hold
  hold-is_hold a h = ground arith

  acts : (a : ActionType) → is_hold a ≡ false → a ≢ hold
  acts a h = ground arith

  -- A decision that is due is signed, and its job is created, given its budget, funded and submitted
  -- in this order, each step only after the service has accepted the one before and all for the job
  -- that was created, with the same amount for the budget and the funding. The first step that its
  -- service refuses ends the attempt, and the result names it with its error; the result holds what the
  -- services answered to the steps before. A decision that is not due makes no call, and the result
  -- tells the reason, which holds, and nothing else.
  pub run_commerce_job_for_session-Steps :
      (t : List CommerceCall)
      → let (r, t') = run_commerce_job_for_session env args t in
        (Steps r t t' × IsDue)
        ⊎ ((why : SkippedReason) × Skipped why
            × (t' ≡ t)
            × (r ≡ record empty_result { skipped_reason = some why }))
  unfolding run_commerce_job_for_session
  run_commerce_job_for_session-Steps t = elim (Bool-cases settings.enable_jobs) [
    | inr e ↦ simp e (inr (jobs_disabled, off e, refl, refl))
    | inl enabled ↦ elim (Bool-cases settings.dry_run_mode) [
      | inl e ↦ simp (enabled, e) (inr (dry_run, dry e, refl, refl))
      | inr live ↦ elim (Bool-cases execution.executed) [
        | inr e ↦ simp (enabled, live, e) (inr (not_executed, idle e, refl, refl))
        | inl done ↦ elim (Bool-cases (is_hold session.final_action.action)) [
          | inl e ↦
              simp (enabled, live, done, e)
                (inr (is_hold_action, held (hold-is_hold _ e), refl, refl))
          | inr e ↦
              simp (enabled, live, done, e) (inl (attempt-Steps t, (refl, refl, refl, acts _ e)))
        ]
      ]
    ]
  ]
