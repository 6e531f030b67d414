-- ===== src/Executor/Outcomes.antt =====
-- What an execution reports, and what it does not depend on.
use text.Mathlib.Text.{◌==◌ as str_eq}
use neurodegen.Common.{
  String, ◌≡◌, ◌≢◌, refl, inl, inr, true, false, Option, none, some, List, ◌∷◌, arith, Bool-cases,
  get_or,
}
use neurodegen.Common.Number.{Number, IsOrdered}
use neurodegen.Common.Calls.{ok, err}
use neurodegen.Types.{ActionType, is_close, close_position, PositionState, SwapResult, submitted}
use neurodegen.Services.{Call, commit_reasoning, execute_swap, SwapRequest, Services, Reply}
use neurodegen.Allowlist.{address_of}
use neurodegen.Precheck.{CheckResult, run_checks}
use neurodegen.Precheck.Laws.{IsCleared, run_checks-close, run_checks-IsCleared}
use neurodegen.Executor.{
  ExecSettings, ExecInputs, ExecutorResult, failure, failure_with_commit, swap_results, is_empty,
  opened_position, record_open, settle_open, trade_open, price_open, open_symbol, execute_open,
  dispatch, execute, or_null,
}

is_close-false : (a : ActionType) → a ≢ close_position → is_close a ≡ false
is_close-false a h = ground arith

module _ {W : Type 0} ⦃num : Number W⦄ (s : ExecSettings W) (services : Services W) where
  -- The position that an execution reports, and the answers that it carries; `t` are the calls up to
  -- the checks.
  pub record IsOpened (i : ExecInputs W) (t : List (Call W)) (r : ExecutorResult W) (size : W)
      : Type 0 where
    pub request : SwapRequest W
    pub swap : SwapResult W
    pub position : PositionState W
    pub swapped :
        services.swap
          (commit_reasoning i.reasoning_hash i.recommendation.action position.token_symbol ∷ t)
        ≡ ok swap
    pub enabled : s.enable_execution ≡ true
    pub reported : r.position ≡ some position
    pub of_symbol : i.recommendation.token_symbol ≡ some position.token_symbol
    pub named : str_eq position.token_symbol "" ≡ false
    pub sized : position.size_usd ≡ size
    pub priced : position.entry_price_usd ≡ get_or i.cmc_price_usd (num.hundredths 0)
    pub quoted : num.le position.entry_price_usd (num.hundredths 0) ≡ false
    pub new : position.status ≡ submitted
    pub of_session : position.session_id ≡ some i.session_id
    pub told : r.execution_result.twak_tx_hash ≡ some swap.tx_hash
    pub of_swap : position.twak_tx_hash ≡ swap.tx_hash
    pub told_commit : r.attestation_commit_tx ≡ or_null (services.commit t)
    pub of_commit : position.attestation_commit_tx ≡ or_null (services.commit t)
    pub told_reveal : r.execution_result.attestation_reveal_tx ≡ position.attestation_reveal_tx
    pub of_reveal :
        position.attestation_reveal_tx
        ≡ or_null (
            services.reveal (
              execute_swap request
              ∷ commit_reasoning i.reasoning_hash i.recommendation.action position.token_symbol
              ∷ t))

  -- an execution that is reported as done opened a position
  abbrev Opens : ExecInputs W → List (Call W) → W → ExecutorResult W → Type 0
  Opens i t size r = r.execution_result.executed ≡ true → IsOpened i t r size

  settle_open-Opens :
      (i : ExecInputs W) (symbol address : String) (size price : W) (q : SwapRequest W)
      (reply : Reply (SwapResult W)) (t : List (Call W))
      → s.enable_execution ≡ true
      → i.recommendation.token_symbol ≡ some symbol
      → str_eq symbol "" ≡ false
      → price ≡ get_or i.cmc_price_usd (num.hundredths 0)
      → num.le price (num.hundredths 0) ≡ false
      → let committed = commit_reasoning i.reasoning_hash i.recommendation.action symbol ∷ t in
        services.swap committed ≡ reply
        → Opens i t size
            (settle_open s services i symbol address size price
              (or_null (services.commit t))
              reply
              (execute_swap q ∷ committed)).0
  unfolding settle_open record_open swap_results opened_position failure_with_commit
  settle_open-Opens i symbol address size price q (err e) t on of_symbol full p low done h = cc
  settle_open-Opens i symbol address size price q (ok swap) t on of_symbol full p low done h =
      record {
        request = q;
        swap = swap;
        position = _;
        swapped = done;
        enabled = on;
        reported = refl;
        of_symbol = of_symbol;
        named = full;
        sized = refl;
        priced = p;
        quoted = low;
        new = refl;
        of_session = refl;
        told = refl;
        of_swap = refl;
        told_commit = refl;
        of_commit = refl;
        told_reveal = refl;
        of_reveal = refl;
      }

  price_open-Opens :
      (i : ExecInputs W) (symbol : String) (address : Option String) (size : W) (t : List (Call W))
      → s.enable_execution ≡ true
      → i.recommendation.token_symbol ≡ some symbol
      → str_eq symbol "" ≡ false
      → Opens i t size (price_open s services i symbol address size t).0
  unfolding price_open trade_open failure failure_with_commit
  price_open-Opens i symbol address size t on of_symbol full =
      elim (Bool-cases (is_empty address)) [
        | inl e ↦ rw e (λ h. cc)
        | inr e ↦
            rw e
              (elim (Bool-cases
                (num.le (get_or i.cmc_price_usd (num.hundredths 0)) (num.hundredths 0))) [
                  | inl low ↦ rw low (λ h. cc)
                  | inr fine ↦ rw fine (
                      settle_open-Opens i symbol (get_or address "") size _ _ _ t on of_symbol full
                        refl fine refl)
                ])
      ]

  open_symbol-Opens :
      (i : ExecInputs W) (size : W) (symbol : Option String) (t : List (Call W))
      → i.recommendation.token_symbol ≡ symbol
      → Opens i t size (open_symbol s services i size symbol t).0
  unfolding open_symbol failure failure_with_commit
  open_symbol-Opens i size none t of_symbol = λ h. cc
  open_symbol-Opens i size (some symbol) t of_symbol = elim (Bool-cases (str_eq symbol "")) [
    | inl e ↦ rw e (λ h. cc)
    | inr e ↦ rw e (elim (Bool-cases s.enable_execution) [
      | inl on ↦ simp on (price_open-Opens i symbol _ size t on of_symbol e)
      | inr off ↦ simp off (λ h. cc)
    ])
  ]

  dispatch-failed :
      (i : ExecInputs W) (checks : CheckResult W) (t : List (Call W))
      → checks.passed ≡ false
      → (dispatch s services i checks t).0.execution_result.executed ≡ false
  unfolding dispatch failure failure_with_commit
  dispatch-failed i checks t failed = ground arith

  dispatch-Opens :
      (i : ExecInputs W) (checks : CheckResult W) (t : List (Call W))
      → checks.passed ≡ true
      → i.recommendation.action ≢ close_position
      → Opens i t checks.adjusted_position_size_usd (dispatch s services i checks t).0
  unfolding dispatch execute_open
  dispatch-Opens i checks t passed opens =
      rw (passed, is_close-false i.recommendation.action opens)
        (open_symbol-Opens i _ i.recommendation.token_symbol t refl)

  pub execute-IsOpened :
      (laws : IsOrdered W) (i : ExecInputs W) (t : List (Call W))
      → let out = (execute s services i t).0 in
        out.execution_result.executed ≡ true
        → (size : W) × IsCleared s.checks i.checked services t size
          × IsOpened i (run_checks s.checks services i.checked t).1 out size
  unfolding execute
  execute-IsOpened laws i t =
      let checks = (run_checks s.checks services i.checked t).0 in
      elim (Bool-cases checks.passed) [
        | inr failed ↦ λ h. cc (h, dispatch-failed i checks _ failed)
        | inl passed ↦ λ h. (
          checks.adjusted_position_size_usd,
          run_checks-IsCleared s.checks i.checked services laws t passed,
          dispatch-Opens i checks _ passed
              (λ close. cc (passed, run_checks-close s.checks i.checked services laws t close)) h,
        )
      ]

  -- The swap does not wait for the commit: with execution enabled, a token, an address, a positive
  -- quote and a swap that succeeds, an opening is executed although its commit failed.
  pub execute_open-uncommitted :
      (i : ExecInputs W) (size : W) (symbol address e : String) (price : W) (swap : SwapResult W)
      → (t : List (Call W)) → s.enable_execution ≡ true
      → i.recommendation.token_symbol ≡ some symbol
      → str_eq symbol "" ≡ false
      → address_of (s.checks.to_upper symbol) s.checks.allowlist ≡ some address
      → str_eq address "" ≡ false
      → i.cmc_price_usd ≡ some price
      → num.le price (num.hundredths 0) ≡ false
      → services.commit t ≡ err e
      → services.swap (commit_reasoning i.reasoning_hash i.recommendation.action symbol ∷ t)
        ≡ ok swap
      → let out = (execute_open s services i size t).0 in
        (out.execution_result.executed ≡ true)
        × (out.execution_result.twak_tx_hash ≡ some swap.tx_hash)
        × (out.attestation_commit_tx ≡ none)
  unfolding execute_open open_symbol price_open trade_open settle_open record_open swap_results
  execute_open-uncommitted i size symbol address e price swap t on named full known proper quoted
        pos failed swapped =
      ground arith
