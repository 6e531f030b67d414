-- ===== src/Precheck/Laws.antt =====
-- What a passing run of the checks establishes, and what it never lets through.
use neurodegen.Common.{
  String, ◌≡◌, ◌≢◌, refl, ◌∙◌, inl, inr, ap, true, false, ◌&&◌, some, List, arith, get_or,
  Bool-cases,
}
use neurodegen.Common.Number.{Number, IsOrdered, ◌≼◌, ◌≺◌}
use neurodegen.Common.Calls.{ok}
use neurodegen.Types.{open_long, close_position}
use neurodegen.Services.{PythSymbol, Call, Services, effects}
use neurodegen.Allowlist.{is_allowed_token_symbol}
use neurodegen.Risk.{Verdict, can_act}
use neurodegen.Risk.Guards.{can_act-close_size, can_act-is_definite}
use neurodegen.Precheck.{
  CheckInputs, CheckSettings, CheckEntry, is_true, allowed_token_symbol, check_allowed_token,
  check_security, divergence, compare_prices, oracle_entry, check_liquidity, check_funding_rate,
  momentum_entry, known_momentum, check_momentum, check_slippage, gas_entry, check_collateral,
  check_risk, conclude, gather, run_checks,
}

module _ {W : Type 0} ⦃num : Number W⦄ (s : CheckSettings W) (services : Services W) where
  -- The checks call nothing that writes.
  pub effects-run_checks :
      (i : CheckInputs W) (t : List (Call W)) → effects (run_checks s services i t).1 ≡ effects t
  unfolding run_checks
  effects-run_checks i t = ground arith

module _ {W : Type 0} ⦃num : Number W⦄ (s : CheckSettings W) (i : CheckInputs W) where
  open s use {
    config.{
      oracle_divergence_max_pct, max_slippage_pct, security_risk_score_max, enable_momentum_filter,
    },
  }

  abbrev pub verdict : Verdict W
  verdict =
      can_act s.risk s.mandate i.recommendation i.state i.open_positions i.portfolio.total_value_usd

  abbrev pub requested : W
  requested = get_or i.recommendation.position_size_usd (num.hundredths 0)

  -- What a check has established when it passes.
  pub record IsCleared (services : Services W) (t : List (Call W)) (size : W) : Type 0 where
    pub token :
        (symbol : String) × (i.recommendation.token_symbol ≡ some symbol)
        × (is_allowed_token_symbol s.to_upper s.allowlist symbol ≡ true)
    pub no_honeypot : is_true i.is_honeypot ≡ false
    pub low_risk : get_or i.security_risk_score (num.hundredths 0) ≺ security_risk_score_max
    pub oracle :
        (feed : PythSymbol) (cmc : W)
        → i.pyth_symbol ≡ some feed
        → i.cmc_price_usd ≡ some cmc
        → (fetched : W) × (services.price t ≡ ok fetched)
          × (divergence s fetched cmc ≺ oracle_divergence_max_pct)
    pub liquid : i.liquidity_adequate ≡ true
    pub funding : i.funding_rate_warning ≡ true → i.recommendation.action ≢ open_long
    pub momentum :
        (h d : W)
        → enable_momentum_filter ≡ true
        → i.recommendation.action ≡ open_long
        → i.token_momentum ≡ some (record { pct1h = some h; pct24h = some d })
        → (num.le h (num.hundredths 0) && num.le d (num.hundredths 0)) ≡ false
    pub slippage : max_slippage_pct ≼ num.hundredths 2
    pub funded : num.lt i.portfolio.available_capital_usd requested ≡ false
    pub not_small : num.lt requested s.risk.min_position_size_usd ≡ false
    pub approved : verdict.approved ≡ true
    pub sized : verdict.adjusted_position_size_usd ≡ some size
    pub positive : num.hundredths 0 ≺ size

  conclude-passed :
      (o c : CheckEntry W)
      → (gather s i o c).passed ≡ true
      → (check_allowed_token s i.recommendation).passed ≡ true
        × ((check_security s i).passed ≡ true)
        × (o.passed ≡ true)
        × ((check_liquidity s i).passed ≡ true)
        × ((check_funding_rate s i).passed ≡ true)
        × ((check_momentum s i).passed ≡ true)
        × ((check_slippage s).passed ≡ true)
        × (c.passed ≡ true)
        × ((check_risk s i).passed ≡ true)
        × (num.hundredths 0 ≺ (gather s i o c).adjusted_position_size_usd)
  unfolding gather conclude
  conclude-passed o c h = ground arith

  adjusted-gather :
      (o c : CheckEntry W)
      → (gather s i o c).adjusted_position_size_usd
        ≡ get_or verdict.adjusted_position_size_usd (num.hundredths 0)
  unfolding gather conclude check_risk
  adjusted-gather o c = refl

  verdict-approved : (check_risk s i).passed ≡ true → verdict.approved ≡ true
  unfolding check_risk
  verdict-approved h = h

  -- The size of an approved verdict for a close is zero, and a size of zero does not pass.
  gather-close :
      (laws : IsOrdered W) (o c : CheckEntry W)
      → i.recommendation.action ≡ close_position
      → (gather s i o c).passed ≡ false
  gather-close laws o c close = elim (Bool-cases (gather s i o c).passed) [
    | inr failed ↦ failed
    | inl passed ↦
        let zero = num.hundredths 0 in
        let parts = conclude-passed o c passed in
        let size =
          can_act-close_size s.risk s.mandate i.recommendation i.state i.open_positions
            i.portfolio.total_value_usd close (verdict-approved parts.8) in
        let none_left = adjusted-gather o c ∙ ap (λ o. get_or o zero) size in
        ground (arith, laws.lt-eq zero zero, none_left, parts.9)
  ]

  token-cleared :
      i.recommendation.action ≢ close_position
      → (check_allowed_token s i.recommendation).passed ≡ true
      → (symbol : String) × (i.recommendation.token_symbol ≡ some symbol)
        × (is_allowed_token_symbol s.to_upper s.allowlist symbol ≡ true)
  unfolding check_allowed_token allowed_token_symbol
  token-cleared opens h = ground arith

  security-cleared :
      i.recommendation.action ≢ close_position
      → (check_security s i).passed ≡ true
      → (is_true i.is_honeypot ≡ false)
        × (get_or i.security_risk_score (num.hundredths 0) ≺ security_risk_score_max)
  unfolding check_security
  security-cleared opens h = ground arith

  liquidity-cleared : (check_liquidity s i).passed ≡ true → i.liquidity_adequate ≡ true
  unfolding check_liquidity
  liquidity-cleared h = ground arith

  funding-cleared :
      (check_funding_rate s i).passed ≡ true
      → i.funding_rate_warning ≡ true
      → i.recommendation.action ≢ open_long
  unfolding check_funding_rate
  funding-cleared h w = ground arith

  momentum-cleared :
      (check_momentum s i).passed ≡ true
      → (h d : W) → enable_momentum_filter ≡ true
      → i.recommendation.action ≡ open_long
      → i.token_momentum ≡ some (record { pct1h = some h; pct24h = some d })
      → (num.le h (num.hundredths 0) && num.le d (num.hundredths 0)) ≡ false
  unfolding check_momentum known_momentum momentum_entry
  momentum-cleared p h d on long known = ground arith

  slippage-cleared : (check_slippage s).passed ≡ true → max_slippage_pct ≼ num.hundredths 2
  unfolding check_slippage
  slippage-cleared h = h

  module _ (services : Services W) where
    oracle-cleared :
        (t : List (Call W)) (feed : PythSymbol) (cmc : W)
        → (oracle_entry s services i.pyth_symbol i.cmc_price_usd t).0.passed ≡ true
        → i.pyth_symbol ≡ some feed
        → i.cmc_price_usd ≡ some cmc
        → (fetched : W) × (services.price t ≡ ok fetched)
          × (divergence s fetched cmc ≺ oracle_divergence_max_pct)
    unfolding oracle_entry compare_prices
    oracle-cleared t feed cmc h f c = ground arith

    collateral-cleared :
        (t : List (Call W))
        → (check_collateral s services i t).0.passed ≡ true
        → (num.lt i.portfolio.available_capital_usd requested ≡ false)
          × (num.lt requested s.risk.min_position_size_usd ≡ false)
    unfolding check_collateral gas_entry
    collateral-cleared t h = ground arith

    approved-sized :
        (o c : CheckEntry W)
        → verdict.approved ≡ true
        → verdict.adjusted_position_size_usd ≡ some (gather s i o c).adjusted_position_size_usd
    approved-sized o c h =
        let definite =
          can_act-is_definite s.risk s.mandate i.recommendation i.state i.open_positions
            i.portfolio.total_value_usd in
        ground (arith, adjusted-gather o c, definite.1)

    -- A recommendation to close never passes: its approved size is 0, which `runChecks` takes for a
    -- failure.
    pub run_checks-close :
        (laws : IsOrdered W) (t : List (Call W))
        → i.recommendation.action ≡ close_position
        → (run_checks s services i t).0.passed ≡ false
    unfolding run_checks
    run_checks-close laws t close = gather-close laws _ _ close

    -- A passing run has a token of the allowlist, no honeypot flag, a risk score and an oracle
    -- divergence under their limits, liquidity, no funding warning and no falling momentum for an `open_long`, a slippage setting of at most 2%,
    -- capital for the requested size, and a positive size that the risk manager approved. The
    -- divergence is from the price that the oracle returned: with a feed and a quote, a run whose
    -- oracle cannot be read does not pass.
    pub run_checks-IsCleared :
        (laws : IsOrdered W) (t : List (Call W))
        → (run_checks s services i t).0.passed ≡ true
        → IsCleared services t (run_checks s services i t).0.adjusted_position_size_usd
    unfolding run_checks
    run_checks-IsCleared laws t h =
        let opens : i.recommendation.action ≢ close_position =
          λ close. cc (h, gather-close laws _ _ close) in
        let parts = conclude-passed _ _ h in
        let security = security-cleared opens parts.1 in
        let funds = collateral-cleared _ parts.7 in
        let yes_verdict = verdict-approved parts.8 in
        record {
          token = token-cleared opens parts.0;
          no_honeypot = security.0;
          low_risk = security.1;
          oracle = λ feed cmc f c. oracle-cleared t feed cmc parts.2 f c;
          liquid = liquidity-cleared parts.3;
          funding = funding-cleared parts.4;
          momentum = momentum-cleared parts.5;
          slippage = slippage-cleared parts.6;
          funded = funds.0;
          not_small = funds.1;
          approved = yes_verdict;
          sized = approved-sized _ _ yes_verdict;
          positive = parts.9;
        }
