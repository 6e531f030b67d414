-- ===== src/Tests/Fixtures.antt =====
-- The data that the runs share.
use neurodegen.Common.{ℕ, ◌^◌, String, true, false, some, none, [], ◌∷◌}
use neurodegen.Common.Calls.{ok}
use neurodegen.Common.Fixed.{Fixed, fixed_number}
use neurodegen.Types.{
  ActionType, ActionRecommendation, PositionState, RiskManagerState, PortfolioSnapshot, SwapResult,
  spot, managed,
}
use neurodegen.Services.{Services}
use neurodegen.Allowlist.{Table}
use neurodegen.Risk.{default_risk_config, default_mandate}
use neurodegen.Precheck.{CheckInputs, CheckSettings}
use neurodegen.Executor.{ExecSettings, ExecInputs}
use neurodegen.Probe.{ProbeSettings}

abbrev pub usd : ℕ → Fixed
usd n = fixed_number.of_nat n

abbrev pub cents : ℕ → Fixed
cents n = fixed_number.hundredths n

abbrev pub same_case : String → String
same_case s = s

abbrev pub advice : ActionType → ActionRecommendation Fixed
advice a = record {
  action = a;
  token_symbol = some "CAKE";
  token_address = none;
  confidence = cents 80;
  position_size_usd = some (usd 20);
  tp_percentage = some (cents 5);
  sl_percentage = some (cents 3);
  rationale = "";
}

abbrev pub state : RiskManagerState Fixed
state = record {
  current_drawdown_from_peak = cents 2;
  consecutive_losses = 1;
  positions_open_count = 1;
  total_exposure_usd = usd 30;
  daily_pnl_usd = usd 3;
  daily_trade_count = 1;
  last_probe_trade_at = none;
  peak_portfolio_value_usd = usd 1000;
}

abbrev pub held : PositionState Fixed
held = record {
  position_id = "p1";
  session_id = none;
  token_symbol = "CAKE";
  token_address = "0xcake";
  direction = spot;
  size_usd = usd 30;
  entry_price_usd = usd 2;
  tp_price_usd = none;
  sl_price_usd = none;
  twak_tx_hash = "0x1";
  attestation_commit_tx = none;
  attestation_reveal_tx = none;
  status = managed;
  exit_price_usd = none;
  pnl_usd = none;
  pnl_pct = none;
  exit_reason = none;
  opened_at = 0;
  closed_at = none;
}

abbrev pub portfolio : PortfolioSnapshot Fixed
portfolio = record {
  total_value_usd = usd 1000;
  positions = [];
  drawdown_from_peak = cents 2;
  available_capital_usd = usd 500;
  snapshot_at = 0;
}

abbrev pub inputs : ActionType → CheckInputs Fixed
inputs a = record {
  recommendation = advice a;
  state = state;
  open_positions = held ∷ [];
  cmc_price_usd = some (usd 2);
  pyth_symbol = none;
  liquidity_adequate = true;
  funding_rate_warning = false;
  security_risk_score = some (usd 10);
  is_honeypot = some false;
  portfolio = portfolio;
  agent_address = "0xagent";
  token_momentum = some (record { pct1h = some (cents 1); pct24h = none });
}

abbrev pub tokens : Table
tokens = ("CAKE", "0xcake") ∷ ("WBNB", "0xwbnb") ∷ []

abbrev pub settings : CheckSettings Fixed
settings = record {
  config = record {
    oracle_divergence_max_pct = cents 1;
    max_slippage_pct = cents 1;
    security_risk_score_max = usd 70;
    gas_buffer_bnb = cents 1;
    enable_momentum_filter = true;
  };
  risk = default_risk_config;
  mandate = default_mandate;
  allowlist = tokens;
  to_upper = same_case;
}

abbrev pub swapped : SwapResult Fixed
swapped = record {
  tx_hash = "0x2";
  from_amount_tokens = "20";
  to_amount_tokens = "10";
  explorer = "";
  provider = "";
  executed_price_usd = usd 2;
}

abbrev pub services : Services Fixed
services = record {
  price = λ t. ok (usd 2);
  balance_wei = λ t. ok (10 ^ 18);
  commit = λ t. ok (some "0xc");
  swap = λ t. ok swapped;
  reveal = λ t. ok (some "0xr");
  insert = λ t. ok tt;
  update = λ t. ok tt;
  daily_trade_count = λ t. ok 0;
  open_positions = λ t. ok [];
  portfolio = λ t. ok portfolio;
  random_uuid = λ t. "uuid";
  now = λ t. 0;
}

abbrev pub exec_settings : ExecSettings Fixed
exec_settings = record { checks = settings; enable_execution = true; dry_run_mode = false }

abbrev pub exec_inputs : ActionType → ExecInputs Fixed
exec_inputs a = record { session_id = "s1"; reasoning_hash = "0xh"; checked = inputs a }

abbrev pub probe_settings : ProbeSettings Fixed
probe_settings = record {
  probe_trade_usd = usd 1;
  probe_trade_hour_utc = 20;
  probe_trade_from_symbol = "USDT";
  probe_trade_to_symbol = "WBNB";
  enable_probe_trade = true;
  enable_execution = true;
  dry_run_mode = false;
  allowlist = tokens;
  to_upper = same_case;
}
