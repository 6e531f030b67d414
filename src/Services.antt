-- ===== src/Services.antt =====
-- The services that the execution side calls, none of them under src/ or all of them input and
-- output: the price oracle (src/lib/clients/pyth.ts), the chain, the attestation contract
-- (src/lib/services/execution/attestationEmitter.ts), the TWAK client (src/lib/clients/twakClient.ts),
-- the positions table (src/lib/queries/positions.ts), the worker's state and the broadcaster. An
-- error is kept as its message.
use neurodegen.Common.{ℕ, String, Bool, true, false, Option, List, [], ◌∷◌, if◌then◌else◌}
use neurodegen.Common.Calls.{Result}
use neurodegen.Types.{
  ActionType, PositionState, PositionStatus, ExitReason, PortfolioSnapshot, SwapResult,
}

pub data PythSymbol : Type 0 where
  btc_usd eth_usd bnb_usd : PythSymbol

-- An amount of tokens: the text `x.toFixed(8)`, the text `x.toString()`, or a text that another
-- service returned.
pub data Amount (W : Type 0) : Type 0 where
  to_fixed8 : W → Amount W
  shown : W → Amount W
  literal : String → Amount W

pub record SwapRequest (W : Type 0) : Type 0 where
  pub from_token_symbol : String
  pub to_token_symbol : String
  pub amount_tokens : Amount W
  pub slippage_pct : Option W

-- `Partial<PositionState>`: the columns that the program updates.
pub record PositionUpdate (W : Type 0) : Type 0 where
  pub status : PositionStatus
  pub exit_price_usd : Option W
  pub pnl_usd : Option W
  pub pnl_pct : Option W
  pub exit_reason : Option ExitReason
  pub closed_at : Option ℕ
  pub attestation_reveal_tx : Option (Option String)

pub data Call (W : Type 0) : Type 0 where
  fetch_price : PythSymbol → Call W
  get_balance : String → Call W
  -- the reasoning hash, and the intent `action:symbol`
  commit_reasoning : String → ActionType → String → Call W
  execute_swap : SwapRequest W → Call W
  -- the reasoning hash and the hash of the swap
  reveal_execution : String → String → Call W
  insert_position : PositionState W → Call W
  update_position : String → PositionUpdate W → Call W
  get_daily_trade_count : Call W
  get_open_positions : Call W
  get_portfolio : Call W
  -- a probe trade: its forward hash and its reverse hash
  broadcast_probe : String → Option String → Call W

-- `await` that settles with a value or throws.
abbrev pub Reply : Type 0 → Type 0
Reply A = Result String A

-- What each call answers, given the calls before it. A commit and a reveal resolve to the hash of
-- their transaction, or to null. A UUID and the clock are read at the same points.
pub record Services (W : Type 0) : Type 0 where
  pub price : List (Call W) → Reply W
  pub balance_wei : List (Call W) → Reply ℕ
  pub commit : List (Call W) → Reply (Option String)
  pub swap : List (Call W) → Reply (SwapResult W)
  pub reveal : List (Call W) → Reply (Option String)
  pub insert : List (Call W) → Reply Unit
  pub update : List (Call W) → Reply Unit
  pub daily_trade_count : List (Call W) → Reply ℕ
  pub open_positions : List (Call W) → Reply (List (PositionState W))
  pub portfolio : List (Call W) → Reply (PortfolioSnapshot W)
  pub random_uuid : List (Call W) → String
  pub now : List (Call W) → ℕ

module _ {W : Type 0} where
  -- The calls that only read.
  abbrev pub is_read : Call W → Bool
  is_read (fetch_price _) = true
  is_read (get_balance _) = true
  is_read get_daily_trade_count = true
  is_read get_open_positions = true
  is_read get_portfolio = true
  is_read _ = false

  -- The other calls, newest first.
  abbrev pub effects : List (Call W) → List (Call W)
  effects [] = []
  effects (c ∷ t) = let rest = effects t in if is_read c then rest else c ∷ rest
