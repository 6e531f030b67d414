-- ===== src/Perception/Normalizer/Rates.antt =====
-- A funding rate from the data to the regime: `normalizeDerivatives`, `aggregateMetrics` and the
-- classifier.
use mathlib.Core.Path.{subst}
use neurodegen.Common.{
  ℕ, ◌*◌, ◌≡◌, refl, String, Bool, true, false, Option, none, some, [], ◌∷◌, arith, map, any, ap,
  sym, ◌∙◌,
}
use neurodegen.Common.Number.{Number}
use neurodegen.Common.OrderedMap.{get, set}
use neurodegen.Common.JsValue.{JsValue, array, no_elements, element}
use neurodegen.Cognition.{volatile}
use neurodegen.Perception.Aggregator.{
  MarketEvent, funding_rate_update, AggregateMetrics, aggregate_metrics, take_all,
}
use neurodegen.Perception.Regime.{RegimeMetrics, is_volatile, base_classify}
use neurodegen.Perception.Normalizer.{
  Schemas, DerivativesEntry, FundingEvent, kept, and_then, normalize_each, list_in,
}
use neurodegen.Perception.Normalizer.Signals.{
  rate_8h, normalize_derivatives, annualized, is_blank, or_else, rate_direction, funding_for,
  funding_event,
}

module _ {W : Type 0} where
  -- The event as the aggregation reads it.
  abbrev pub market_event : ℕ → FundingEvent W → ℕ × MarketEvent W
  market_event now e = (
    now,
    funding_rate_update
        (record { pair = e.pair; funding_rate_annualized = e.funding_rate_annualized }),
  )

  -- The metrics as the classifier reads them.
  abbrev pub regime_metrics : AggregateMetrics W → RegimeMetrics W
  regime_metrics m = record {
    fear_greed_value = m.fear_greed_value;
    funding_rates_by_pair = map (λ p. (p.0, p.1.funding_rate_annualized)) m.funding_rates_by_pair;
    kol_velocity_by_token = map (λ t. (t.0, t.1.velocity_per_hour)) m.kol_activity_by_token;
    active_surge_tokens = m.active_surge_tokens;
  }

module _ {W : Type 0} ⦃num : Number W⦄ (schemas : Schemas W) (lt_negative : W → Bool) where
  abbrev pub yearly : DerivativesEntry W → W
  yearly e = num.mul (rate_8h schemas lt_negative e) (num.of_nat (365 * 3))

  abbrev event_for : String → W → FundingEvent W
  event_for pair rate = record {
    pair = pair;
    funding_rate_annualized = rate;
    direction = rate_direction schemas lt_negative rate;
  }

  annualized-yearly :
      (e : DerivativesEntry W)
      → e.funding_rate_annualized ≡ none
      → annualized schemas lt_negative e ≡ yearly e
  unfolding annualized
  annualized-yearly e h = rw h refl

  funding_for-given :
      (e : DerivativesEntry W) (p : Option String) (pair : String)
      → p ≡ some pair
      → is_blank pair ≡ false
      → funding_for schemas lt_negative e p
        ≡ some (event_for pair (annualized schemas lt_negative e))
  funding_for-given e p pair h k = rw (h, k) refl

  normalize_derivatives-one :
      (raw : JsValue W) (e : DerivativesEntry W) (pair : String)
      → schemas.derivatives_entry raw ≡ some e
      → e.pair ≡ some pair
      → is_blank pair ≡ false
      → e.funding_rate_annualized ≡ none
      → normalize_derivatives schemas lt_negative (array (element raw no_elements))
        ≡ event_for pair (yearly e) ∷ []
  unfolding normalize_derivatives normalize_each list_in
  normalize_derivatives-one raw e pair parsed named given plain =
      ap (λ o. kept (and_then o (funding_event schemas lt_negative)) []) parsed
      ∙ (ap (λ o. kept o [])
            (funding_for-given e (or_else e.pair e.symbol) pair (ap (λ o. or_else o e.symbol) named)
              given)
          ∙ ap (λ r. event_for pair r ∷ []) (annualized-yearly e plain))

  base_classify-rate :
      (m : RegimeMetrics W)
      → any (λ p. num.lt (num.thousandths 1) (num.abs p.1)) m.funding_rates_by_pair ≡ true
      → base_classify m ≡ volatile
  unfolding base_classify is_volatile
  base_classify-rate m h = ground (arith, h)

  -- An 8-hour funding rate that is above 0.001 only after it is multiplied by 1095 makes the regime
  -- volatile on its own: the threshold is compared with the annualized rate.
  pub one_rate-volatile :
      (raw : JsValue W) (e : DerivativesEntry W) (pair : String) (now : ℕ) (log10 round4 : W → W)
      (fallback : Option W) (threshold : W)
      → schemas.derivatives_entry raw ≡ some e
      → e.pair ≡ some pair
      → is_blank pair ≡ false
      → e.funding_rate_annualized ≡ none
      → num.lt
          (num.thousandths 1)
          (num.abs (num.mul (rate_8h schemas lt_negative e) (num.of_nat (365 * 3))))
        ≡ true
      → let events =
          map
            (market_event now)
            (normalize_derivatives schemas lt_negative (array (element raw no_elements))) in
        base_classify (regime_metrics (aggregate_metrics log10 round4 events fallback threshold))
        ≡ volatile
  unfolding aggregate_metrics take_all get set
  one_rate-volatile raw e pair now log10 round4 fallback threshold parsed named given plain h =
      subst
        (λ es.
          base_classify (
            regime_metrics
              (aggregate_metrics log10 round4 (map (market_event now) es) fallback threshold))
          ≡ volatile)
        (sym (normalize_derivatives-one raw e pair parsed named given plain))
        (base_classify-rate _ (rw h refl))
