-- ===== src/Perception/Normalizer.antt =====
-- src/lib/services/perception/eventNormalizer.ts. The zod schemas are parsers, parameters, whose results
-- are the records below; the ids, which are random, are given when an event is recorded (`Ingester`).
-- `Quotes`, `Signals`: the normalizers.
pub mod Quotes
pub mod Signals
pub mod Laws
pub mod Rates
use neurodegen.Common.{
  ℕ, String, Bool, true, false, Option, none, some, List, [], ◌∷◌, ◌++◌, get_or, if◌then◌else◌,
}
use neurodegen.Common.JsValue.{JsValue, object, array, elements, prop, coalesce, array_of}
use neurodegen.Allowlist.{is_address}
use neurodegen.Perception.Aggregator.{
  FearGreedLabel, MarketEvent, quote_update, fear_greed_update, funding_rate_update, social_signal,
  dex_liquidity_snapshot, other_event,
}

pub data NumberOrText (W : Type 0) : Type 0 where
  of_number : W → NumberOrText W
  of_text : String → NumberOrText W

-- `QuoteListEntry`, with `platform?.token_address` and the fields of `quote.USD`.
pub record QuoteListEntry (W : Type 0) : Type 0 where
  pub symbol : String
  pub cmc_rank : Option W
  pub platform_address : Option String
  pub price : W
  pub volume24h : W
  pub percent_change1h : W
  pub percent_change24h : W
  pub market_cap : Option W

pub record FlatQuoteEntry (W : Type 0) : Type 0 where
  pub symbol : String
  pub rank : Option W
  pub price : NumberOrText W
  pub volume24h : Option (NumberOrText W)
  pub percent_change1h : Option (NumberOrText W)
  pub percent_change24h : Option (NumberOrText W)
  pub market_cap : Option (NumberOrText W)

pub record FearGreedEntry (W : Type 0) : Type 0 where
  pub value : W
  pub value_classification : Option String

pub record GlobalMetrics (W : Type 0) : Type 0 where
  pub fear_and_greed : Option (FearGreedEntry W)
  pub fear_greed : Option (FearGreedEntry W)
  pub fear_and_greed_index : Option (FearGreedEntry W)

pub record TrendingEntry (W : Type 0) : Type 0 where
  pub label : String
  pub name : Option String
  pub tokens : Option (List String)
  pub top_tokens : Option (List String)
  pub momentum : Option W
  pub momentum_score : Option W

pub record NewsEntry : Type 0 where
  pub title : String
  pub summary : Option String
  pub url : String
  pub published_at : Option ℕ
  pub sentiment : Option String

pub record DerivativesEntry (W : Type 0) : Type 0 where
  pub pair : Option String
  pub symbol : Option String
  pub funding_rate_8h : Option W
  pub funding_rate_annualized : Option W
  pub funding_rate : Option W

pub record SocialEntry (W : Type 0) : Type 0 where
  pub symbol : String
  pub kol_mention_count : Option W
  pub velocity_per_hour : Option W
  pub sentiment_direction : Option String

pub record LiquidityEntry (W : Type 0) : Type 0 where
  pub symbol : String
  pub pair_address : Option String
  pub liquidity_usd : Option W
  pub volume24h_usd : Option W
  pub price_impact1k_usd : Option W

pub record SecurityEntry (W : Type 0) : Type 0 where
  pub token_address : String
  pub is_honeypot : Option Bool
  pub owner_can_mint : Option Bool
  pub risk_score : Option W
  pub flags : Option (List String)

-- The schemas, and what the language gives: `toUpperCase`, `toLowerCase`, `Number`, and
-- `raw.toLowerCase().replace(/\s+/g, '_')`. `characters` is `Object.values` of a text.
pub record Schemas (W : Type 0) : Type 0 where
  pub quote_entry : JsValue W → Option (QuoteListEntry W)
  pub flat_entry : JsValue W → Option (FlatQuoteEntry W)
  pub global_metrics : JsValue W → Option (GlobalMetrics W)
  pub trending_entry : JsValue W → Option (TrendingEntry W)
  pub news_entry : JsValue W → Option NewsEntry
  pub derivatives_entry : JsValue W → Option (DerivativesEntry W)
  pub social_entry : JsValue W → Option (SocialEntry W)
  pub liquidity_entry : JsValue W → Option (LiquidityEntry W)
  pub security_entry : JsValue W → Option (SecurityEntry W)
  pub to_upper : String → String
  pub to_lower : String → String
  pub underscored : String → String
  pub number_of : String → W
  pub characters : String → List (JsValue W)

pub data Sentiment : Type 0 where
  positive negative neutral_tone : Sentiment

pub data RateDirection : Type 0 where
  rising falling stable : RateDirection

pub record QuoteEvent (W : Type 0) : Type 0 where
  pub token_symbol : String
  pub token_address : String
  pub price_usd : W
  pub volume24h_usd : W
  pub percent_change1h : W
  pub percent_change24h : W
  pub market_cap_usd : W
  pub cmc_rank : W

pub record NarrativeEvent (W : Type 0) : Type 0 where
  pub narrative_label : String
  pub top_tokens : List String
  pub momentum_score : W

pub record NewsEvent : Type 0 where
  pub headline : String
  pub summary : String
  pub url : String
  pub published_at : ℕ
  pub sentiment_direction : Sentiment

pub record FundingEvent (W : Type 0) : Type 0 where
  pub pair : String
  pub funding_rate_annualized : W
  pub direction : RateDirection

pub record SocialEvent (W : Type 0) : Type 0 where
  pub token_symbol : String
  pub kol_mention_count : W
  pub velocity_per_hour : W
  pub sentiment_direction : Sentiment

pub record LiquidityEvent (W : Type 0) : Type 0 where
  pub token_symbol : String
  pub pair_address : String
  pub liquidity_usd : W
  pub volume24h_usd : W
  pub price_impact1k_usd : W

pub record SecurityEvent (W : Type 0) : Type 0 where
  pub token_address : String
  pub is_honeypot : Bool
  pub owner_can_mint : Bool
  pub risk_score : W
  pub flags : List String

abbrev pub zero_address : String
zero_address = "0x0000000000000000000000000000000000000000"

unfoldable pub as_hex_address : Option String → String → String
as_hex_address none fallback = fallback
as_hex_address (some v) fallback = if is_address v then v else fallback

module _ {W : Type 0} where
  abbrev pub list_of : JsValue W → List (JsValue W)
  list_of v = get_or (array_of v) []

  -- `raw.data ?? raw[key] ?? raw`, if it is an array; an array has neither property.
  unfoldable pub list_in : String → JsValue W → List (JsValue W)
  list_in key (array xs) = elements xs
  list_in key (object ms) = list_of (coalesce (prop "data" ms) (coalesce (prop key ms) (object ms)))
  list_in key _ = []

abbrev pub kept : {E : Type 0} → Option E → List E → List E
kept none l = l
kept (some x) l = x ∷ l

abbrev pub and_then : {B E : Type 0} → Option B → (B → Option E) → Option E
and_then none event = none
and_then (some e) event = event e

-- The loop that skips what does not parse and what gives no event.
unfoldable pub normalize_each : {A B E : Type 0} → (A → Option B) → (B → Option E) → List A → List E
normalize_each parse event [] = []
normalize_each parse event (raw ∷ rest) =
    kept (and_then (parse raw) event) (normalize_each parse event rest)
