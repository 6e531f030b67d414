-- ===== src/Executor.antt =====
-- src/lib/services/execution/twakExecutor.ts: from a recommendation to a swap, with the commit of the
-- reasoning before it and the reveal after it.
pub mod Trades
pub mod Outcomes
use text.Mathlib.Text.{◌==◌ as str_eq}
use neurodegen.Common.{
  ℕ, String, Bool, true, false, not, Option, none, some, List, [], ◌∷◌, if◌then◌else◌, get_or,
  filter, map,
}
use neurodegen.Common.Number.{Number}
use neurodegen.Common.Calls.{Result, ok, err, Act, pure, perform, ◌>>=◌}
use neurodegen.Types.{
  ActionType, close_position, is_close, ActionRecommendation, PositionState, RiskManagerState,
  PortfolioSnapshot, SwapResult, spot, submitted, closed, signal_exit,
}
use neurodegen.Services.{
  PythSymbol, Call, commit_reasoning, execute_swap, reveal_execution, insert_position,
  update_position, Services, SwapRequest, Amount, to_fixed8, PositionUpdate, Reply,
}
use neurodegen.Allowlist.{address_of}
use neurodegen.Precheck
use neurodegen.Precheck.{
  CheckInputs, CheckSettings, CheckName, CheckMessage, CheckEntry, CheckResult, Momentum,
  run_checks,
}

-- The settings of the checks, with src/config/features.ts.
pub record ExecSettings (W : Type 0) : Type 0 where
  pub checks : CheckSettings W
  pub enable_execution : Bool
  pub dry_run_mode : Bool

-- The fields that `runChecks` reads are passed on to it unchanged.
pub record ExecInputs (W : Type 0) : Type 0 where
  pub session_id : String
  pub reasoning_hash : String
  pub checked : CheckInputs W
  pub open checked use *

-- `failed.join('; ')` as the list of what is joined; the other texts as constructors.
pub data FailureReason (W : Type 0) : Type 0 where
  checks_failed : List (CheckName × CheckMessage W) → FailureReason W
  target_symbol_missing execution_disabled : FailureReason W
  no_address : String → FailureReason W
  no_price nothing_to_close : FailureReason W
  swap_failed close_swap_failed : String → FailureReason W

-- `dryRun` is left out by the code where nothing was executed.
pub record ExecutionResult (W : Type 0) : Type 0 where
  pub executed : Bool
  pub twak_tx_hash : Option String
  pub bscscan_url : Option String
  pub attestation_reveal_tx : Option String
  pub failure_reason : Option (FailureReason W)
  pub dry_run : Option Bool

pub record ExecutorResult (W : Type 0) : Type 0 where
  pub execution_result : ExecutionResult W
  pub attestation_commit_tx : Option String
  pub position : Option (PositionState W)

-- `try { tx = await … } catch { log }`, where `tx` starts as null
abbrev or_null : Reply (Option String) → Option String
or_null (ok tx) = tx
or_null (err _) = none

-- `!s`
abbrev is_empty : Option String → Bool
is_empty none = true
is_empty (some t) = str_eq t ""

-- `a ?? b`, where `b` may be null too
abbrev or_else : Option String → Option String → Option String
or_else none b = b
or_else (some a) b = some a

module _ {W : Type 0} where
  pub failure_with_commit : Option String → FailureReason W → ExecutorResult W
  failure_with_commit commit_tx reason = record {
    execution_result = record {
      executed = false;
      twak_tx_hash = none;
      bscscan_url = none;
      attestation_reveal_tx = none;
      failure_reason = some reason;
      dry_run = none;
    };
    attestation_commit_tx = commit_tx;
    position = none;
  }

  pub failure : FailureReason W → ExecutorResult W
  unfolding failure_with_commit
  failure reason = failure_with_commit none reason

  swap_results :
      Bool → Option String → Option String → PositionState W → SwapResult W → ExecutorResult W
  swap_results dry_run commit_tx reveal_tx position swap = record {
    execution_result = record {
      executed = true;
      twak_tx_hash = some swap.tx_hash;
      bscscan_url = some swap.explorer;
      attestation_reveal_tx = reveal_tx;
      failure_reason = none;
      dry_run = some dry_run;
    };
    attestation_commit_tx = commit_tx;
    position = some position;
  }

module _ {W : Type 0} ⦃num : Number W⦄ (s : ExecSettings W) (services : Services W) where
  -- `MAX_SLIPPAGE_PCT * 100`
  swap_request : String → String → W → SwapRequest W
  swap_request from target tokens = record {
    from_token_symbol = from;
    to_token_symbol = target;
    amount_tokens = to_fixed8 tokens;
    slippage_pct = some (num.mul s.checks.config.max_slippage_pct (num.of_nat 100));
  }

  -- `pct ? price * (1 ± pct) : null`: null, NaN and 0 give null.
  target_price : (W → W → W) → W → Option W → Option W
  target_price f price none = none
  target_price f price (some pct) =
      if num.lt pct (num.hundredths 0)
      then some (num.mul price (f (num.of_nat 1) pct))
      else if num.lt (num.hundredths 0) pct
      then some (num.mul price (f (num.of_nat 1) pct))
      else none

  opened_position :
      ExecInputs W
      → String
      → String
      → W
      → W
      → Option String
      → Option String
      → SwapResult W
      → String
      → ℕ
      → PositionState W
  opened_position i symbol address size price commit_tx reveal_tx swap uuid now = record {
    position_id = uuid;
    session_id = some i.session_id;
    token_symbol = symbol;
    token_address = address;
    direction = spot;
    size_usd = size;
    entry_price_usd = price;
    tp_price_usd = target_price num.add price i.recommendation.tp_percentage;
    sl_price_usd = target_price num.sub price i.recommendation.sl_percentage;
    twak_tx_hash = swap.tx_hash;
    attestation_commit_tx = commit_tx;
    attestation_reveal_tx = reveal_tx;
    status = submitted;
    exit_price_usd = none;
    pnl_usd = none;
    pnl_pct = none;
    exit_reason = none;
    opened_at = now;
    closed_at = none;
  }

  -- After the swap of an opening.
  record_open :
      ExecInputs W
      → String
      → String
      → W
      → W
      → Option String
      → SwapResult W
      → Act (Call W) (ExecutorResult W)
  record_open i symbol address size price commit_tx swap t =
      let (revealed, t₁) =
        perform (reveal_execution i.reasoning_hash swap.tx_hash) services.reveal t in
      let position =
        opened_position i symbol address size price commit_tx (or_null revealed) swap
          (services.random_uuid t₁) (services.now t₁) in
      let (_, t₂) = perform (insert_position position) services.insert t₁ in
      (swap_results s.dry_run_mode commit_tx (or_null revealed) position swap, t₂)

  settle_open :
      ExecInputs W
      → String
      → String
      → W
      → W
      → Option String
      → Reply (SwapResult W)
      → Act (Call W) (ExecutorResult W)
  settle_open i symbol address size price commit_tx (err e) =
      pure (failure_with_commit commit_tx (swap_failed e))
  settle_open i symbol address size price commit_tx (ok swap) =
      record_open i symbol address size price commit_tx swap

  -- From the commit on.
  trade_open : ExecInputs W → String → String → W → W → Act (Call W) (ExecutorResult W)
  trade_open i symbol address size price t =
      let (committed, t₁) =
        perform (commit_reasoning i.reasoning_hash i.recommendation.action symbol) services.commit
          t in
      let (swapped, t₂) =
        perform (execute_swap (swap_request "USDT" symbol (num.div size price))) services.swap t₁ in
      settle_open i symbol address size price (or_null committed) swapped t₂

  price_open : ExecInputs W → String → Option String → W → Act (Call W) (ExecutorResult W)
  price_open i symbol address size =
      let price = get_or i.cmc_price_usd (num.hundredths 0) in
      if is_empty address
      then pure (failure (no_address symbol))
      else if num.le price (num.hundredths 0)
      then pure (failure no_price)
      else trade_open i symbol (get_or address "") size price

  open_symbol : ExecInputs W → W → Option String → Act (Call W) (ExecutorResult W)
  open_symbol i size none = pure (failure target_symbol_missing)
  open_symbol i size (some symbol) =
      if str_eq symbol ""
      then pure (failure target_symbol_missing)
      else if not s.enable_execution
      then pure (failure execution_disabled)
      else price_open i symbol
          (or_else (address_of (s.checks.to_upper symbol) s.checks.allowlist)
            i.recommendation.token_address)
          size

  pub execute_open : ExecInputs W → W → Act (Call W) (ExecutorResult W)
  execute_open i size = open_symbol i size i.recommendation.token_symbol

  closed_update : PositionState W → W → W → W → Option String → ℕ → PositionUpdate W
  closed_update target price pnl pct reveal_tx now = record {
    status = closed;
    exit_price_usd = some price;
    pnl_usd = some pnl;
    pnl_pct = some pct;
    exit_reason = some signal_exit;
    closed_at = some now;
    attestation_reveal_tx = some reveal_tx;
  }

  -- After the swap of a close.
  record_close :
      ExecInputs W
      → PositionState W
      → W
      → Option String
      → SwapResult W
      → Act (Call W) (ExecutorResult W)
  record_close i target price commit_tx swap t =
      let (revealed, t₁) =
        perform (reveal_execution i.reasoning_hash swap.tx_hash) services.reveal t in
      let gain = num.sub price target.entry_price_usd in
      let pnl = num.mul gain (num.div target.size_usd target.entry_price_usd) in
      let pct =
        if num.lt (num.hundredths 0) target.entry_price_usd
        then num.div gain target.entry_price_usd
        else num.hundredths 0 in
      let update = closed_update target price pnl pct (or_null revealed) (services.now t₁) in
      let (_, t₂) = perform (update_position target.position_id update) services.update t₁ in
      (
        swap_results s.dry_run_mode commit_tx (or_null revealed)
            (record target {
              status = closed;
              exit_price_usd = some price;
              pnl_usd = some pnl;
              pnl_pct = some pct;
              exit_reason = some signal_exit;
              closed_at = some (services.now t₂);
            })
            swap,
        t₂,
      )

  settle_close :
      ExecInputs W
      → PositionState W
      → W
      → Option String
      → Reply (SwapResult W)
      → Act (Call W) (ExecutorResult W)
  settle_close i target price commit_tx (err e) =
      pure (failure_with_commit commit_tx (close_swap_failed e))
  settle_close i target price commit_tx (ok swap) = record_close i target price commit_tx swap

  trade_close : ExecInputs W → PositionState W → W → Act (Call W) (ExecutorResult W)
  trade_close i target price t =
      let (committed, t₁) =
        perform (commit_reasoning i.reasoning_hash close_position target.token_symbol)
          services.commit t in
      let (swapped, t₂) =
        perform
          (execute_swap (swap_request target.token_symbol "USDT" (num.div target.size_usd price)))
          services.swap t₁ in
      settle_close i target price (or_null committed) swapped t₂

  close_first : ExecInputs W → List (PositionState W) → Act (Call W) (ExecutorResult W)
  close_first i [] = pure (failure nothing_to_close)
  close_first i (target ∷ _) =
      if not s.enable_execution
      then pure (failure execution_disabled)
      else trade_close i target (get_or i.cmc_price_usd target.entry_price_usd)

  pub execute_close : ExecInputs W → Act (Call W) (ExecutorResult W)
  execute_close i = close_first i i.open_positions

  failed_checks : List (CheckEntry W) → FailureReason W
  failed_checks entries =
      checks_failed (map (λ c. (c.name, c.message)) (filter (λ c. not c.passed) entries))

  dispatch : ExecInputs W → CheckResult W → Act (Call W) (ExecutorResult W)
  dispatch i checks =
      if not checks.passed
      then pure (failure (failed_checks checks.checks))
      else if is_close i.recommendation.action
      then execute_close i
      else execute_open i checks.adjusted_position_size_usd

  pub execute : ExecInputs W → Act (Call W) (ExecutorResult W)
  execute i = run_checks s.checks services i.checked >>= λ checks. dispatch i checks

-- Opens the executor to a test by evaluation.
unfoldable pub opened : Unit {0}
unfolding Precheck.opened failure_with_commit failure swap_results swap_request target_price
    opened_position record_open settle_open trade_open price_open open_symbol execute_open
    failed_checks dispatch execute
opened = tt
