-- ===== src/Types.antt =====
-- The shared types: src/types/execution.ts, src/types/cognition.ts, src/types/mandate.ts. `W` stands
-- for `number` where a value need not be a whole count; a time is in milliseconds.
use neurodegen.Common.{ℕ, String, Bool, true, false, Option, List}

-- cognition.ts
pub data ActionType : Type 0 where
  open_long close_position adjust_parameters hold : ActionType

pub ActionType-discrete : Discrete ActionType
ActionType-discrete = hlevel

abbrev pub is_hold : ActionType → Bool
is_hold hold = true
is_hold _ = false

abbrev pub is_close : ActionType → Bool
is_close close_position = true
is_close _ = false

abbrev pub is_open_long : ActionType → Bool
is_open_long open_long = true
is_open_long _ = false

-- `leverageMultiplier` is always 1 and left out.
pub record ActionRecommendation (W : Type 0) : Type 0 where
  pub action : ActionType
  pub token_symbol : Option String
  pub token_address : Option String
  pub confidence : W
  pub position_size_usd : Option W
  pub tp_percentage : Option W
  pub sl_percentage : Option W
  pub rationale : String

-- mandate.ts
pub data RiskLevel : Type 0 where
  conservative moderate aggressive : RiskLevel

pub data SignalPriority : Type 0 where
  narrative quant balanced : SignalPriority

pub record MandateConfig (W : Type 0) : Type 0 where
  pub max_drawdown_pct : W
  pub max_position_pct : W
  pub daily_loss_cap_pct : W
  pub consecutive_loss_halt : ℕ
  pub signal_priority : SignalPriority
  pub risk_level : RiskLevel
  pub crash_protocol_fg_threshold : ℕ

-- execution.ts
pub data PositionStatus : Type 0 where
  submitted pending filled managed closed expired liquidated : PositionStatus

pub data PositionDirection : Type 0 where
  long short spot : PositionDirection

pub data ExitReason : Type 0 where
  tp_hit sl_hit time_exit regime_exit manual admin signal_exit external_close agent_close :
      ExitReason
  liquidated probe_trade_unwind : ExitReason

-- `leverage` is always 1 and left out.
pub record PositionState (W : Type 0) : Type 0 where
  pub position_id : String
  pub session_id : Option String
  pub token_symbol : String
  pub token_address : String
  pub direction : PositionDirection
  pub size_usd : W
  pub entry_price_usd : W
  pub tp_price_usd : Option W
  pub sl_price_usd : Option W
  pub twak_tx_hash : String
  pub attestation_commit_tx : Option String
  pub attestation_reveal_tx : Option String
  pub status : PositionStatus
  pub exit_price_usd : Option W
  pub pnl_usd : Option W
  pub pnl_pct : Option W
  pub exit_reason : Option ExitReason
  pub opened_at : ℕ
  pub closed_at : Option ℕ

pub record RiskManagerState (W : Type 0) : Type 0 where
  pub current_drawdown_from_peak : W
  pub consecutive_losses : ℕ
  pub positions_open_count : ℕ
  pub total_exposure_usd : W
  pub daily_pnl_usd : W
  pub daily_trade_count : ℕ
  pub last_probe_trade_at : Option ℕ
  pub peak_portfolio_value_usd : W

pub record Holding (W : Type 0) : Type 0 where
  pub token_symbol : String
  pub token_address : String
  pub balance_tokens : String
  pub value_usd : W

pub record PortfolioSnapshot (W : Type 0) : Type 0 where
  pub total_value_usd : W
  pub positions : List (Holding W)
  pub drawdown_from_peak : W
  pub available_capital_usd : W
  pub snapshot_at : ℕ

pub record SwapResult (W : Type 0) : Type 0 where
  pub tx_hash : String
  pub from_amount_tokens : String
  pub to_amount_tokens : String
  pub explorer : String
  pub provider : String
  pub executed_price_usd : W
