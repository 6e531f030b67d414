-- ===== src/Perception/Normalizer/Signals.antt =====
-- `normalizeFearGreed`, `normalizeTrendingNarratives`, `normalizeNews`, `normalizeDerivatives`,
-- `normalizeSocial` and `normalizePythDivergence` of src/lib/services/perception/eventNormalizer.ts.
-- `lt_negative` is `x < -0.001`, `annual` is `x * (365 * 3)`.
use package.text.Mathlib.Text.{◌==◌ as str_eq}
use neurodegen.Common.{
  ℕ, ◌*◌, String, Bool, ◌||◌, Option, none, some, List, [], get_or, if◌then◌else◌,
}
use neurodegen.Common.Number.{Number}
use neurodegen.Common.JsValue.{JsValue}
use neurodegen.Perception.Aggregator.{
  FearGreed, FearGreedLabel, extreme_fear, fear, neutral, greed, extreme_greed,
}
use neurodegen.Perception.Normalizer.{
  FearGreedEntry, GlobalMetrics, TrendingEntry, NewsEntry, DerivativesEntry, SocialEntry, Schemas,
  Sentiment, positive, negative, neutral_tone, RateDirection, rising, falling, stable,
  NarrativeEvent, NewsEvent, FundingEvent, SocialEvent, list_in, normalize_each,
}

abbrev pub or_else : {A : Type 0} → Option A → Option A → Option A
or_else none b = b
or_else (some a) b = some a

abbrev pub is_blank : String → Bool
is_blank t = str_eq t ""

abbrev label_named : String → Option FearGreedLabel
label_named t =
    if str_eq t "extreme_fear"
    then some extreme_fear
    else if str_eq t "fear"
    then some fear
    else if str_eq t "neutral"
    then some neutral
    else if str_eq t "greed"
    then some greed
    else if str_eq t "extreme_greed"
    then some extreme_greed
    else none

module _ {W : Type 0} ⦃num : Number W⦄ (schemas : Schemas W) where
  abbrev label_by_value : W → FearGreedLabel
  label_by_value v =
      if num.lt v (num.of_nat 25)
      then extreme_fear
      else if num.lt v (num.of_nat 45)
      then fear
      else if num.le v (num.of_nat 55)
      then neutral
      else if num.lt v (num.of_nat 75)
      then greed
      else extreme_greed

  -- `if (raw) { … }`
  abbrev classified : Option String → Option FearGreedLabel
  classified none = none
  classified (some t) = if is_blank t then none else label_named (schemas.underscored t)

  unfoldable pub fear_greed_label : Option String → W → FearGreedLabel
  fear_greed_label raw v = get_or (classified raw) (label_by_value v)

  abbrev first_index : GlobalMetrics W → Option (FearGreedEntry W)
  first_index g = or_else g.fear_and_greed (or_else g.fear_greed g.fear_and_greed_index)

  abbrev index_event : Option (FearGreedEntry W) → Option (FearGreed W)
  index_event none = none
  index_event (some e) =
      some (record { value = e.value; label = fear_greed_label e.value_classification e.value })

  abbrev parsed_metrics : Option (GlobalMetrics W) → Option (FearGreed W)
  parsed_metrics none = none
  parsed_metrics (some g) = index_event (first_index g)

  unfoldable pub normalize_fear_greed : JsValue W → Option (FearGreed W)
  normalize_fear_greed raw = parsed_metrics (schemas.global_metrics raw)

  -- `e.label || e.name || 'unknown'`
  abbrev narrative_label : String → Option String → String
  narrative_label label name =
      if is_blank label
      then elim name [ none ↦ "unknown" | some n ↦ if is_blank n then "unknown" else n ]
      else label

  abbrev narrative_event : TrendingEntry W → NarrativeEvent W
  narrative_event e = record {
    narrative_label = narrative_label e.label e.name;
    top_tokens = get_or (or_else e.top_tokens e.tokens) [];
    momentum_score = get_or (or_else e.momentum_score e.momentum) (num.of_nat 0);
  }

  unfoldable pub normalize_trending_narratives : JsValue W → List (NarrativeEvent W)
  normalize_trending_narratives raw =
      normalize_each schemas.trending_entry (λ e. some (narrative_event e)) (list_in "results" raw)

  abbrev tone_of : String → Sentiment
  tone_of t =
      if str_eq t "positive" || str_eq t "bullish"
      then positive
      else if str_eq t "negative" || str_eq t "bearish"
      then negative
      else neutral_tone

  unfoldable pub sentiment_of : Option String → Sentiment
  sentiment_of s = tone_of (schemas.to_lower (get_or s "neutral"))

  abbrev news_event : ℕ → NewsEntry → NewsEvent
  news_event now e = record {
    headline = e.title;
    summary = get_or e.summary "";
    url = e.url;
    published_at = get_or e.published_at now;
    sentiment_direction = sentiment_of e.sentiment;
  }

  unfoldable pub normalize_news : ℕ → JsValue W → List NewsEvent
  normalize_news now raw =
      normalize_each schemas.news_entry (λ e. some (news_event now e)) (list_in "results" raw)

  abbrev social_event : SocialEntry W → SocialEvent W
  social_event e = record {
    token_symbol = schemas.to_upper e.symbol;
    kol_mention_count = get_or e.kol_mention_count (num.of_nat 0);
    velocity_per_hour = get_or e.velocity_per_hour (num.of_nat 0);
    sentiment_direction = sentiment_of e.sentiment_direction;
  }

  unfoldable pub normalize_social : JsValue W → List (SocialEvent W)
  normalize_social raw =
      normalize_each schemas.social_entry (λ e. some (social_event e)) (list_in "results" raw)

  module _ (lt_negative : W → Bool) where
    unfoldable pub rate_direction : W → RateDirection
    rate_direction rate =
        if num.lt (num.thousandths 1) rate
        then rising
        else if lt_negative rate
        then falling
        else stable

    abbrev pub rate_8h : DerivativesEntry W → W
    rate_8h e = get_or (or_else e.funding_rate_8h e.funding_rate) (num.of_nat 0)

    unfoldable pub annualized : DerivativesEntry W → W
    annualized e = get_or e.funding_rate_annualized (num.mul (rate_8h e) (num.of_nat (365 * 3)))

    abbrev pub funding_for : DerivativesEntry W → Option String → Option (FundingEvent W)
    funding_for e none = none
    funding_for e (some p) =
        if is_blank p
        then none
        else some (record {
          pair = p;
          funding_rate_annualized = annualized e;
          direction = rate_direction (annualized e);
        })

    abbrev pub funding_event : DerivativesEntry W → Option (FundingEvent W)
    funding_event e = funding_for e (or_else e.pair e.symbol)

    unfoldable pub normalize_derivatives : JsValue W → List (FundingEvent W)
    normalize_derivatives raw =
        normalize_each schemas.derivatives_entry funding_event (list_in "pairs" raw)

  -- `cmcPriceUSD` and the oracle's price
  unfoldable pub divergence_percent : W → W → W
  divergence_percent cmc_price pyth_price =
      if num.lt (num.of_nat 0) pyth_price
      then num.div (num.abs (num.sub cmc_price pyth_price)) pyth_price
      else num.of_nat 0
