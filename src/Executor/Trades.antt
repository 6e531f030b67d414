-- ===== src/Executor/Trades.antt =====
-- The order of the calls that change something, on every path of `execute`.
use text.Mathlib.Text.{◌==◌ as str_eq}
use neurodegen.Common.{
  String, Bool, ◌≡◌, refl, ap, ◌∙◌, inl, inr, true, false, Option, none, some, List, [], ◌∷◌,
  Bool-cases, get_or,
}
use neurodegen.Common.Number.{Number}
use neurodegen.Common.Calls.{ok, err}
use neurodegen.Types.{
  ActionType, is_close, close_position, PositionState, PositionStatus, SwapResult,
}
use neurodegen.Services.{
  Call, commit_reasoning, execute_swap, reveal_execution, insert_position, update_position,
  to_fixed8, Services, SwapRequest, PositionUpdate, effects, Reply,
}
use neurodegen.Allowlist.{address_of}
use neurodegen.Precheck.{CheckResult, run_checks}
use neurodegen.Precheck.Laws.{effects-run_checks}
use neurodegen.Executor.{
  ExecSettings, ExecInputs, ExecutorResult, failure, failure_with_commit, swap_results, is_empty,
  record_open, settle_open, trade_open, price_open, open_symbol, execute_open, record_close,
  settle_close, trade_close, close_first, execute_close, dispatch, execute, or_null, or_else,
  FailureReason, swap_failed, close_swap_failed, swap_request, opened_position, closed_update,
}

module _ {W : Type 0} ⦃num : Number W⦄ (s : ExecSettings W) (services : Services W)
    (i : ExecInputs W) where
  abbrev address_for : String → Option String
  address_for symbol =
      or_else (address_of (s.checks.to_upper symbol) s.checks.allowlist)
        i.recommendation.token_address

  -- Why nothing is traded; `passed` is what the checks conclude.
  pub data Blocked (passed : Bool) : Type 0 where
    unchecked : passed ≡ false → Blocked passed
    disabled : s.enable_execution ≡ false → Blocked passed
    no_symbol : is_empty i.recommendation.token_symbol ≡ true → Blocked passed
    unaddressed :
        (symbol : String)
        → i.recommendation.token_symbol ≡ some symbol
        → is_empty (address_for symbol) ≡ true
        → Blocked passed
    unquoted :
        num.le (get_or i.cmc_price_usd (num.hundredths 0)) (num.hundredths 0) ≡ true
        → Blocked passed
    no_target : i.open_positions ≡ [] → Blocked passed

  -- The call that commits to a trade.
  abbrev commit_of : ActionType → String → Call W
  commit_of = commit_reasoning i.reasoning_hash

  -- What a refused swap leaves: no execution, the commit's hash if there is one, and the reason.
  pub record IsRefused (r : ExecutorResult W) (commit_tx : Option String) (why : FailureReason W)
      : Type 0 where
    pub unexecuted : r.execution_result.executed ≡ false
    pub no_hash : r.execution_result.twak_tx_hash ≡ none
    pub committed : r.attestation_commit_tx ≡ commit_tx
    pub no_position : r.position ≡ none
    pub told : r.execution_result.failure_reason ≡ some why

  -- `t` are the calls up to the checks, the index is those after the trade, newest first.
  pub data Trade (passed : Bool) (r : ExecutorResult W) (t : List (Call W))
      : List (Call W) → Type 0 where
    untouched :
        Blocked passed
        → r.execution_result.executed ≡ false
        → r.execution_result.twak_tx_hash ≡ none
        → r.attestation_commit_tx ≡ none
        → r.position ≡ none
        → Trade passed r t t
    opening_refused :
        (symbol e : String) (q : SwapRequest W)
        → passed ≡ true
        → i.recommendation.token_symbol ≡ some symbol
        → services.swap (commit_of i.recommendation.action symbol ∷ t) ≡ err e
        → IsRefused r (or_null (services.commit t)) (swap_failed e)
        → Trade passed r t (execute_swap q ∷ commit_of i.recommendation.action symbol ∷ t)
    closing_refused :
        (target : PositionState W) (rest : List (PositionState W)) (e : String) (q : SwapRequest W)
        → passed ≡ true
        → i.open_positions ≡ target ∷ rest
        → services.swap (commit_of close_position target.token_symbol ∷ t) ≡ err e
        → IsRefused r (or_null (services.commit t)) (close_swap_failed e)
        → Trade passed r t (execute_swap q ∷ commit_of close_position target.token_symbol ∷ t)
    opened :
        (symbol : String) (q : SwapRequest W) (swap : SwapResult W) (p : PositionState W)
        → passed ≡ true
        → i.recommendation.token_symbol ≡ some symbol
        → q.from_token_symbol ≡ "USDT"
        → q.to_token_symbol ≡ symbol
        → q.amount_tokens ≡ to_fixed8 (num.div p.size_usd p.entry_price_usd)
        → services.swap (commit_of i.recommendation.action symbol ∷ t) ≡ ok swap
        → r.execution_result.executed ≡ true
        → r.execution_result.twak_tx_hash ≡ some swap.tx_hash
        → r.attestation_commit_tx ≡ or_null (services.commit t)
        → r.position ≡ some p
        → p.twak_tx_hash ≡ swap.tx_hash
        → Trade passed r t (
            insert_position p
            ∷ reveal_execution i.reasoning_hash swap.tx_hash
            ∷ execute_swap q
            ∷ commit_of i.recommendation.action symbol
            ∷ t)
    closed :
        (target : PositionState W) (rest : List (PositionState W)) (q : SwapRequest W)
        (swap : SwapResult W) (u : PositionUpdate W)
        → passed ≡ true
        → i.open_positions ≡ target ∷ rest
        → q.from_token_symbol ≡ target.token_symbol
        → q.to_token_symbol ≡ "USDT"
        → services.swap (commit_of close_position target.token_symbol ∷ t) ≡ ok swap
        → r.execution_result.executed ≡ true
        → r.execution_result.twak_tx_hash ≡ some swap.tx_hash
        → r.attestation_commit_tx ≡ or_null (services.commit t)
        → u.status ≡ PositionStatus.closed
        → Trade passed r t (
            update_position target.position_id u
            ∷ reveal_execution i.reasoning_hash swap.tx_hash
            ∷ execute_swap q
            ∷ commit_of close_position target.token_symbol
            ∷ t)

  abbrev Trades : Bool → List (Call W) → ExecutorResult W × List (Call W) → Type 0
  Trades passed t out = Trade passed out.0 t out.1

  trade_open-Trades :
      (symbol address : String) (size : W) (reply : Reply (SwapResult W)) (t : List (Call W))
      → i.recommendation.token_symbol ≡ some symbol
      → services.swap (commit_of i.recommendation.action symbol ∷ t) ≡ reply
      → let price = get_or i.cmc_price_usd (num.hundredths 0) in
        Trades true t (
          settle_open s services i symbol address size price (or_null (services.commit t)) reply (
            execute_swap (swap_request s services "USDT" symbol (num.div size price))
            ∷ commit_of i.recommendation.action symbol
            ∷ t))
  unfolding settle_open record_open failure_with_commit swap_results opened_position swap_request
  trade_open-Trades symbol address size (err e) t of_symbol refused =
      opening_refused symbol e _ refl of_symbol refused (record {
        unexecuted = refl;
        no_hash = refl;
        committed = refl;
        no_position = refl;
        told = refl;
      })
  trade_open-Trades symbol address size (ok swap) t of_symbol done =
      opened symbol _ swap _ refl of_symbol refl refl refl done refl refl refl refl refl

  trade_close-Trades :
      (target : PositionState W) (rest : List (PositionState W)) (price : W)
      (reply : Reply (SwapResult W)) (t : List (Call W))
      → i.open_positions ≡ target ∷ rest
      → services.swap (commit_of close_position target.token_symbol ∷ t) ≡ reply
      → Trades true t (
          settle_close s services i target price (or_null (services.commit t)) reply (
            execute_swap
              (swap_request s services target.token_symbol "USDT" (num.div target.size_usd price))
            ∷ commit_of close_position target.token_symbol
            ∷ t))
  unfolding settle_close record_close failure_with_commit swap_results swap_request closed_update
  trade_close-Trades target rest price (err e) t first refused =
      closing_refused target rest e _ refl first refused (record {
        unexecuted = refl;
        no_hash = refl;
        committed = refl;
        no_position = refl;
        told = refl;
      })
  trade_close-Trades target rest price (ok swap) t first done =
      closed target rest _ swap _ refl first refl refl done refl refl refl refl

  price_open-Trades :
      (symbol : String) (size : W) (t : List (Call W))
      → i.recommendation.token_symbol ≡ some symbol
      → Trades true t (price_open s services i symbol (address_for symbol) size t)
  unfolding price_open trade_open failure failure_with_commit
  price_open-Trades symbol size t of_symbol = elim (Bool-cases (is_empty (address_for symbol))) [
    | inl e ↦ rw e (untouched (unaddressed symbol of_symbol e) refl refl refl refl)
    | inr e ↦
        rw e
          (elim (Bool-cases
            (num.le (get_or i.cmc_price_usd (num.hundredths 0)) (num.hundredths 0))) [
              | inl low ↦ rw low (untouched (unquoted low) refl refl refl refl)
              | inr fine ↦ rw fine (
                  trade_open-Trades symbol (get_or (address_for symbol) "") size _ t of_symbol refl)
            ])
  ]

  open_symbol-Trades :
      (size : W) (symbol : Option String) (t : List (Call W))
      → i.recommendation.token_symbol ≡ symbol
      → Trades true t (open_symbol s services i size symbol t)
  unfolding open_symbol failure failure_with_commit
  open_symbol-Trades size none t same = untouched (no_symbol (ap is_empty same)) refl refl refl refl
  open_symbol-Trades size (some symbol) t same = elim (Bool-cases (str_eq symbol "")) [
    | inl e ↦ rw e (untouched (no_symbol (ap is_empty same ∙ e)) refl refl refl refl)
    | inr e ↦ rw e (elim (Bool-cases s.enable_execution) [
      | inl on ↦ simp on (price_open-Trades symbol size t same)
      | inr off ↦ simp off (untouched (disabled off) refl refl refl refl)
    ])
  ]

  close_first-Trades :
      (positions : List (PositionState W)) (t : List (Call W))
      → i.open_positions ≡ positions
      → Trades true t (close_first s services i positions t)
  unfolding close_first trade_close failure failure_with_commit
  close_first-Trades [] t same = untouched (no_target same) refl refl refl refl
  close_first-Trades (target ∷ rest) t same = elim (Bool-cases s.enable_execution) [
    | inl on ↦ simp on (trade_close-Trades target rest _ _ t same refl)
    | inr off ↦ simp off (untouched (disabled off) refl refl refl refl)
  ]

  dispatch-Trades :
      (checks : CheckResult W) (t : List (Call W))
      → Trades checks.passed t (dispatch s services i checks t)
  unfolding dispatch execute_open execute_close failure failure_with_commit
  dispatch-Trades checks t = elim (Bool-cases checks.passed) [
    | inr failed ↦ simp failed (untouched (unchecked refl) refl refl refl refl)
    | inl passed ↦ simp passed (elim (Bool-cases (is_close i.recommendation.action)) [
      | inl close ↦ simp close (close_first-Trades i.open_positions t refl)
      | inr other ↦ simp other (open_symbol-Trades _ i.recommendation.token_symbol t refl)
    ])
  ]

  -- After the checks, which write nothing, `execute` ends in one of these ways. It calls nothing more
  -- and reports no execution: a check failed, execution is disabled, or the token, its address, a
  -- positive quote or a position to close is missing. It commits the reasoning hash and asks for one
  -- swap, which is refused: it reports no execution and calls nothing more. Or all checks passed and
  -- that swap succeeds: then it reveals the swap's hash under the same reasoning hash, writes one
  -- position, and reports the execution with that hash. An opening swaps USDT for the session's token,
  -- for the size of the position at its price.
  pub execute-Trade :
      (t : List (Call W))
      → let (checks, checked) = run_checks s.checks services i.checked t in
        (effects checked ≡ effects t)
        × Trade checks.passed (execute s services i t).0 checked (execute s services i t).1
  unfolding execute
  execute-Trade t =
      let (checks, checked) = run_checks s.checks services i.checked t in
      (effects-run_checks s.checks services i.checked t, dispatch-Trades checks checked)
