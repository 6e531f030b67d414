-- ===== src/Skill/Committee.antt =====
-- `runCommittee` of skills/neurodegen-committee/src/committee.ts. An analyst's answer is a result, the
-- error being what it throws; the texts of the record are left out, and a reason to hold is a
-- constructor.
use neurodegen.Common.{
  ℕ, String, Bool, true, false, not, ◌&&◌, ◌||◌, Option, none, List, [], ◌∷◌, ltb, length, is_some,
  get_or, if◌then◌else◌,
}
use neurodegen.Common.Number.{Number}
use neurodegen.Common.Calls.{Result, ok, err}
use neurodegen.Types.{ActionType, open_long, hold, RiskLevel}
use neurodegen.Cognition.{RegimeLabel, quiet, volatile, DissentSeverity, neutral, NarrativeOutput}
use neurodegen.Cognition.Dissent.{ParseStatus}
use neurodegen.Skill.{
  MarketSnapshot, QuantAnalystOutput, allowlist_symbols, max_concurrent_positions, base_size_usd,
  daily_loss_cap_usd, min_confidence, funding_warning_confidence_override,
}
use neurodegen.Skill.Dissent.{build, dissent_of, is_strong}
use neurodegen.Skill.Regime.{
  ClassifierState, compute_active_surge_tokens, is_volatile_market, is_momentum_market,
  is_active_market, base_regime, regime_after, advanced,
}
use neurodegen.Skill.Sizing.{
  SizingInput, SizingResult, CapsBreached, drawdown_band, dissent_multiplier, final_size,
  size_position, check_risk_caps,
}
use neurodegen.Skill.Candidate.{first_where, select_candidate}

pub record AnalystResult (A : Type 0) : Type 0 where
  pub parsed : A
  pub parse_ok : Bool

pub record PortfolioState (W : Type 0) : Type 0 where
  pub equity_usd : W
  pub current_exposure_usd : W
  pub open_positions : ℕ
  pub drawdown_pct : W
  pub daily_loss_usd : W

pub record CommitteeInput (W : Type 0) : Type 0 where
  pub snapshot : MarketSnapshot W
  pub regime_state : ClassifierState
  pub portfolio : PortfolioState W
  pub mandate : RiskLevel
  pub narrative_analyst : MarketSnapshot W → Result String (AnalystResult (NarrativeOutput W))
  pub quant_analyst : MarketSnapshot W → Result String (AnalystResult (QuantAnalystOutput W))
  pub allowlist : Option (List String)
  pub now : ℕ

pub data HoldReason : Type 0 where
  low_confidence strong_dissent illiquid funding_warning no_candidate unaligned : HoldReason
  too_many_positions daily_loss quiet_regime : HoldReason

pub record DecisionRecord (W : Type 0) : Type 0 where
  pub regime : RegimeLabel
  pub action : ActionType
  pub target_token : Option String
  pub size_usd : W
  pub must_hold_reasons : List HoldReason

-- `{ parsed: fallback, parseOk: false }` for what throws
abbrev pub safe_run : {A : Type 0} → Result String (AnalystResult A) → A → AnalystResult A
safe_run (ok r) fallback = r
safe_run (err _) fallback = record { parsed = fallback; parse_ok = false }

-- `if (flag) mustHoldReasons.push(reason)` for each pair, in order.
abbrev pub pushed : List (Bool × HoldReason) → List HoldReason
pushed [] = []
pushed ((flag, reason) ∷ rest) = let more = pushed rest in if flag then reason ∷ more else more

abbrev pub is_quiet : RegimeLabel → Bool
is_quiet quiet = true
is_quiet _ = false

abbrev pub is_volatile_regime : RegimeLabel → Bool
is_volatile_regime volatile = true
is_volatile_regime _ = false

abbrev pub no_reasons : List HoldReason → Bool
no_reasons [] = true
no_reasons (_ ∷ _) = false

module _ {W : Type 0} ⦃num : Number W⦄ where
  abbrev pub default_narrative : NarrativeOutput W
  default_narrative = record {
    narrative_summary = "";
    kol_mentioned_tokens = [];
    sentiment_score = num.hundredths 0;
    confidence_level = num.hundredths 0;
    direction = neutral;
    flagged_anomalies = [];
    top_thesis_token = none;
  }

  abbrev pub default_quant : QuantAnalystOutput W
  default_quant = record {
    feature_weights = [];
    dominant_direction = neutral;
    liquidity_adequate = false;
    funding_rate_warning = false;
    recommended_token = none;
  }

  abbrev sum_from : W → List W → W
  sum_from acc [] = acc
  sum_from acc (w ∷ ws) = sum_from (num.add acc w) ws

  abbrev clamp_unit : W → W
  clamp_unit mean =
      if not (num.is_finite mean)
      then num.hundredths 0
      else num.max (num.hundredths 0) (num.min (num.hundredths 100) mean)

  unfoldable pub mean_weight : List W → W
  mean_weight [] = num.hundredths 0
  mean_weight (w ∷ ws) =
      clamp_unit (num.div (sum_from (num.hundredths 0) (w ∷ ws)) (num.of_nat (length (w ∷ ws))))

  -- The snapshot with `activeSurgeTokens` computed where it is not given.
  abbrev pub with_surges : MarketSnapshot W → MarketSnapshot W
  with_surges s =
      if ltb 0 s.active_surge_tokens
      then s
      else record s { active_surge_tokens = compute_active_surge_tokens s }

  module _ (i : CommitteeInput W) where
    abbrev pub seen : MarketSnapshot W
    seen = with_surges i.snapshot

    abbrev pub classified : RegimeLabel × ClassifierState
    classified = regime_after seen i.regime_state i.now

    abbrev pub narrative_result : AnalystResult (NarrativeOutput W)
    narrative_result = safe_run (i.narrative_analyst seen) default_narrative

    abbrev pub quant_result : AnalystResult (QuantAnalystOutput W)
    quant_result = safe_run (i.quant_analyst seen) default_quant

    abbrev pub conviction : W
    conviction = narrative_result.parsed.confidence_level

    abbrev pub weight : W
    weight = mean_weight quant_result.parsed.feature_weights

    abbrev pub severity : DissentSeverity
    severity =
        let status : ParseStatus = record {
          narrative_ok = narrative_result.parse_ok;
          quant_ok = quant_result.parse_ok;
        } in
        (dissent_of {W = W} narrative_result.parsed.direction quant_result.parsed.dominant_direction
          status).dissent_severity

    abbrev is_aligned : DissentSeverity → Bool
    is_aligned DissentSeverity.none_found = true
    is_aligned _ = false

    abbrev pub candidate : Option String
    candidate =
        select_candidate narrative_result.parsed quant_result.parsed seen
          (get_or i.allowlist allowlist_symbols)

    abbrev pub sizing_input : SizingInput W
    sizing_input = record {
      base_usd = base_size_usd;
      regime = classified.0;
      dissent = severity;
      mandate = i.mandate;
      equity_usd = i.portfolio.equity_usd;
      current_exposure_usd = i.portfolio.current_exposure_usd;
      drawdown_pct = i.portfolio.drawdown_pct;
    }

    abbrev caps : CapsBreached W
    caps =
        check_risk_caps i.portfolio.open_positions i.portfolio.daily_loss_usd
          max_concurrent_positions daily_loss_cap_usd

    abbrev is_unaligned : Bool
    is_unaligned =
        not (is_aligned severity)
        || (num.lt conviction (num.hundredths 60) || num.lt weight (num.hundredths 60))

    -- The condition of each reason to hold.
    abbrev pub flags : List (Bool × HoldReason)
    flags =
        (num.lt (num.min conviction weight) min_confidence, low_confidence)
        ∷ (is_strong severity, strong_dissent)
        ∷ (not quant_result.parsed.liquidity_adequate, illiquid)
        ∷ (
          quant_result.parsed.funding_rate_warning
              && num.le conviction funding_warning_confidence_override,
          funding_warning,
        )
        ∷ (not (is_some candidate), no_candidate)
        ∷ (is_volatile_regime classified.0 && is_unaligned, unaligned)
        ∷ (caps.positions, too_many_positions)
        ∷ (caps.daily_loss, daily_loss)
        ∷ []

    unfoldable pub must_hold_reasons : List HoldReason
    must_hold_reasons = pushed flags

    abbrev pub sizing : SizingResult W
    sizing = size_position sizing_input

    abbrev pub opens : Bool
    opens =
        no_reasons must_hold_reasons
        && (num.lt (num.hundredths 0) sizing.size_usd && is_some candidate)

    abbrev quiet_hold : DecisionRecord W
    quiet_hold = record {
      regime = quiet;
      action = hold;
      target_token = none;
      size_usd = num.hundredths 0;
      must_hold_reasons = quiet_regime ∷ [];
    }

    -- The decision, and the state of the regime that the call leaves.
    unfoldable pub run_committee : DecisionRecord W × ClassifierState
    run_committee =
        let decided : DecisionRecord W = record {
          regime = classified.0;
          action = if opens then open_long else hold;
          target_token = if opens then candidate else none;
          size_usd = if opens then sizing.size_usd else num.hundredths 0;
          must_hold_reasons = must_hold_reasons;
        } in
        if is_quiet classified.0
        then (quiet_hold, advanced classified)
        else (decided, advanced classified)

-- Opens the package's decision to a test by evaluation.
unfoldable pub opened : Unit {0}
unfolding mean_weight must_hold_reasons run_committee select_candidate first_where
    compute_active_surge_tokens is_volatile_market is_momentum_market is_active_market base_regime
    regime_after drawdown_band dissent_multiplier final_size size_position check_risk_caps build
    dissent_of
opened = tt
