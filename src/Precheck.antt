-- ===== src/Precheck.antt =====
-- src/lib/services/execution/preExecutionChecker.ts: the nine checks before a trade. A text that
-- interpolates values is a constructor that carries them.
pub mod Laws
use neurodegen.Common.{
  ℕ, ◌^◌, String, Bool, true, false, not, ◌&&◌, ◌||◌, Option, none, some, List, [], ◌∷◌,
  if◌then◌else◌, get_or, all,
}
use text.Mathlib.Text.{◌==◌ as str_eq}
use neurodegen.Common.Number.{Number}
use neurodegen.Common.Calls.{Result, ok, err, Act, pure, perform, ◌>>=◌}
use neurodegen.Types.{
  ActionType, is_close, is_open_long, ActionRecommendation, MandateConfig, PositionState,
  RiskManagerState, PortfolioSnapshot,
}
use neurodegen.Services.{PythSymbol, Call, fetch_price, get_balance, Services}
use neurodegen.Allowlist.{Table, is_allowed_token_symbol}
use neurodegen.Risk
use neurodegen.Allowlist
use neurodegen.Risk.{RiskConfig, Rejection, Verdict, can_act}

-- The constants of src/config/execution.ts and src/config/features.ts that the checks read.
pub record CheckConfig (W : Type 0) : Type 0 where
  pub oracle_divergence_max_pct : W
  pub max_slippage_pct : W
  pub security_risk_score_max : W
  pub gas_buffer_bnb : W
  pub enable_momentum_filter : Bool

pub record Momentum (W : Type 0) : Type 0 where
  pub pct1h : Option W
  pub pct24h : Option W

-- `agentAddress` and `portfolio` are the caller's too.
pub record CheckInputs (W : Type 0) : Type 0 where
  pub recommendation : ActionRecommendation W
  pub state : RiskManagerState W
  pub open_positions : List (PositionState W)
  pub cmc_price_usd : Option W
  pub pyth_symbol : Option PythSymbol
  pub liquidity_adequate : Bool
  pub funding_rate_warning : Bool
  pub security_risk_score : Option W
  pub is_honeypot : Option Bool
  pub portfolio : PortfolioSnapshot W
  pub agent_address : String
  pub token_momentum : Option (Momentum W)

pub data CheckName : Type 0 where
  allowed_token_verified security_check_passed pyth_oracle_divergence liquidity_adequate : CheckName
  funding_rate_safe momentum_not_adverse slippage_within_tolerance collateral_available : CheckName
  risk_manager_approval : CheckName

-- The values of an entry: a text is named for what it says.
pub data CheckValue (W : Type 0) : Type 0 where
  number : W → CheckValue W
  symbol : String → CheckValue W
  action : ActionType → CheckValue W
  momentum : W → W → CheckValue W
  a_close a_null a_honeypot skipped an_error adequate inadequate : CheckValue W
  a_warning safe disabled no_data allowed some_gain : CheckValue W

pub data CheckMessage (W : Type 0) : Type 0 where
  fine close_path target_token_missing : CheckMessage W
  not_in_allowlist : String → CheckMessage W
  flagged_honeypot : CheckMessage W
  risk_score : W → W → CheckMessage W
  no_pyth_feed : CheckMessage W
  divergence_within divergence_above : W → CheckMessage W
  thrown : String → CheckMessage W
  inadequate_liquidity funding_warning filter_disabled filter_not_applied no_quote : CheckMessage W
  downtrend : W → W → CheckMessage W
  a_timeframe_is_up : CheckMessage W
  slippage : W → CheckMessage W
  short_of : W → W → CheckMessage W
  gas_below : W → W → CheckMessage W
  chain_read_failed : String → CheckMessage W
  available approved_at : W → CheckMessage W
  rejected : Option (Rejection W) → CheckMessage W

pub record CheckEntry (W : Type 0) : Type 0 where
  pub name : CheckName
  pub passed : Bool
  pub value : CheckValue W
  pub threshold : CheckValue W
  pub message : CheckMessage W

pub record CheckResult (W : Type 0) : Type 0 where
  pub passed : Bool
  pub adjusted_position_size_usd : W
  pub checks : List (CheckEntry W)

-- `o === true`
abbrev pub is_true : Option Bool → Bool
is_true (some b) = b
is_true none = false

module _ {W : Type 0} where
  abbrev entry : CheckName → Bool → CheckValue W → CheckValue W → CheckMessage W → CheckEntry W
  entry n p v t m = record { name = n; passed = p; value = v; threshold = t; message = m }

  -- `typeof value === 'number' ? value : 0`
  abbrev number_or : CheckValue W → W → W
  number_or (number x) d = x
  number_or _ d = d

-- Everything that the checks read besides the inputs: the settings, the mandate of the risk manager,
-- the runtime allowlist and `toUpperCase`.
pub record CheckSettings (W : Type 0) : Type 0 where
  pub config : CheckConfig W
  pub risk : RiskConfig W
  pub mandate : MandateConfig W
  pub allowlist : Table
  pub to_upper : String → String

module _ {W : Type 0} ⦃num : Number W⦄ (s : CheckSettings W) where
  open s use {
    config.{
      oracle_divergence_max_pct, max_slippage_pct, security_risk_score_max, gas_buffer_bnb,
      enable_momentum_filter,
    },
  }

  -- `!symbol` holds of null and of the empty text.
  allowed_token_symbol : Option String → CheckEntry W
  allowed_token_symbol none = entry allowed_token_verified false a_null allowed target_token_missing
  allowed_token_symbol (some token) =
      if str_eq token ""
      then entry allowed_token_verified false a_null allowed target_token_missing
      else if is_allowed_token_symbol s.to_upper s.allowlist token
      then entry allowed_token_verified true (symbol token) allowed fine
      else entry allowed_token_verified false (symbol token) allowed (not_in_allowlist token)

  check_allowed_token : ActionRecommendation W → CheckEntry W
  check_allowed_token r =
      if is_close r.action
      then entry allowed_token_verified true a_close allowed close_path
      else allowed_token_symbol r.token_symbol

  check_security : CheckInputs W → CheckEntry W
  check_security i =
      let score = get_or i.security_risk_score (num.hundredths 0) in
      let below = num.lt score security_risk_score_max in
      if is_close i.recommendation.action
      then entry security_check_passed true a_close (number security_risk_score_max) close_path
      else if is_true i.is_honeypot
      then entry security_check_passed false a_honeypot (number security_risk_score_max)
          flagged_honeypot
      else entry security_check_passed below (number score) (number security_risk_score_max)
          (if below then fine else risk_score score security_risk_score_max)

  pub divergence : W → W → W
  divergence fetched cmc =
      if num.lt (num.hundredths 0) fetched
      then num.div (num.abs (num.sub fetched cmc)) fetched
      else num.hundredths 0

  compare_prices : W → Result String W → CheckEntry W
  compare_prices cmc (ok fetched) =
      let d = divergence fetched cmc in
      let within = num.lt d oracle_divergence_max_pct in
      entry pyth_oracle_divergence within (number d) (number oracle_divergence_max_pct)
        (if within then divergence_within d else divergence_above d)
  compare_prices cmc (err e) =
      entry pyth_oracle_divergence false an_error (number oracle_divergence_max_pct) (thrown e)

  oracle_entry : Services W → Option PythSymbol → Option W → Act (Call W) (CheckEntry W)
  oracle_entry services (some feed) (some cmc) =
      perform (fetch_price feed) services.price >>= λ reply. pure (compare_prices cmc reply)
  oracle_entry services _ _ =
      pure
        (entry pyth_oracle_divergence true skipped (number oracle_divergence_max_pct) no_pyth_feed)

  check_liquidity : CheckInputs W → CheckEntry W
  check_liquidity i =
      if i.liquidity_adequate
      then entry liquidity_adequate true adequate adequate fine
      else entry liquidity_adequate false inadequate adequate inadequate_liquidity

  check_funding_rate : CheckInputs W → CheckEntry W
  check_funding_rate i =
      if i.funding_rate_warning && is_open_long i.recommendation.action
      then entry funding_rate_safe false a_warning safe funding_warning
      else entry funding_rate_safe true safe safe fine

  momentum_entry : Option W → Option W → CheckEntry W
  momentum_entry (some h) (some d) =
      if num.le h (num.hundredths 0) && num.le d (num.hundredths 0)
      then entry momentum_not_adverse false (momentum h d) some_gain (downtrend h d)
      else entry momentum_not_adverse true (momentum h d) some_gain a_timeframe_is_up
  momentum_entry _ _ = entry momentum_not_adverse true no_data some_gain no_quote

  known_momentum : Option (Momentum W) → CheckEntry W
  known_momentum none = momentum_entry none none
  known_momentum (some m) = momentum_entry m.pct1h m.pct24h

  check_momentum : CheckInputs W → CheckEntry W
  check_momentum i =
      if not enable_momentum_filter
      then entry momentum_not_adverse true disabled some_gain filter_disabled
      else if not (is_open_long i.recommendation.action)
      then entry momentum_not_adverse true (action i.recommendation.action) some_gain
          filter_not_applied
      else known_momentum i.token_momentum

  -- `0.02` is two hundredths
  check_slippage : CheckEntry W
  check_slippage =
      entry slippage_within_tolerance (num.le max_slippage_pct (num.hundredths 2))
        (number max_slippage_pct) (number (num.hundredths 2)) (slippage max_slippage_pct)

  gas_entry : W → W → Result String ℕ → CheckEntry W
  gas_entry requested usd (ok wei) =
      let bnb = num.div (num.of_nat wei) (num.of_nat (10 ^ 18)) in
      if num.lt bnb gas_buffer_bnb
      then entry collateral_available false (number bnb) (number gas_buffer_bnb)
          (gas_below bnb gas_buffer_bnb)
      else entry collateral_available true (number usd) (number requested) (available usd)
  gas_entry requested usd (err e) =
      entry collateral_available false an_error (number gas_buffer_bnb) (chain_read_failed e)

  check_collateral : Services W → CheckInputs W → Act (Call W) (CheckEntry W)
  check_collateral services i =
      let requested = get_or i.recommendation.position_size_usd (num.hundredths 0) in
      let usd = i.portfolio.available_capital_usd in
      if num.lt usd requested || num.lt requested s.risk.min_position_size_usd
      then pure (
          entry collateral_available false (number usd) (number requested) (short_of usd requested))
      else (perform (get_balance i.agent_address) services.balance_wei >>= λ reply.
          pure (gas_entry requested usd reply))

  check_risk : CheckInputs W → CheckEntry W
  check_risk i =
      let verdict =
        can_act s.risk s.mandate i.recommendation i.state i.open_positions
          i.portfolio.total_value_usd in
      let size = get_or verdict.adjusted_position_size_usd (num.hundredths 0) in
      entry risk_manager_approval verdict.approved (number size)
        (number (get_or i.recommendation.position_size_usd (num.hundredths 0)))
        (if verdict.approved then approved_at size else rejected verdict.rejection_reason)

  -- The end of `runChecks`.
  conclude : List (CheckEntry W) → CheckEntry W → CheckResult W
  conclude checks risk_check =
      let size = number_or risk_check.value (num.hundredths 0) in
      record {
        passed = all (λ c. c.passed) checks && num.lt (num.hundredths 0) size;
        adjusted_position_size_usd = size;
        checks = checks;
      }

  gather : CheckInputs W → CheckEntry W → CheckEntry W → CheckResult W
  gather i oracle collateral =
      let risk_check = check_risk i in
      conclude
        (check_allowed_token i.recommendation
          ∷ check_security i
          ∷ oracle
          ∷ check_liquidity i
          ∷ check_funding_rate i
          ∷ check_momentum i
          ∷ check_slippage
          ∷ collateral
          ∷ risk_check
          ∷ [])
        risk_check

  pub run_checks : Services W → CheckInputs W → Act (Call W) (CheckResult W)
  unfolding oracle_entry check_collateral
  run_checks services i = oracle_entry services i.pyth_symbol i.cmc_price_usd >>= λ oracle.
      (check_collateral services i >>= λ collateral. pure (gather i oracle collateral))

-- Opens the checks to a test by evaluation.
unfoldable pub opened : Unit {0}
unfolding Risk.opened Allowlist.is_allowed_token_symbol Allowlist.address_of allowed_token_symbol
    check_allowed_token check_security divergence compare_prices oracle_entry check_liquidity
    check_funding_rate momentum_entry known_momentum check_momentum check_slippage gas_entry
    check_collateral check_risk conclude gather run_checks
opened = tt
