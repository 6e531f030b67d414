-- ===== src/Perception/Normalizer/Quotes.antt =====
-- `normalizeCmcQuotes`, `normalizeDexLiquidity` and `normalizeSecurity` of
-- src/lib/services/perception/eventNormalizer.ts.
use neurodegen.Common.{String, false, Option, none, some, List, [], get_or, if◌then◌else◌}
use neurodegen.Common.Number.{Number}
use neurodegen.Common.JsValue.{JsValue, null, object, array, str, elements, values, prop, coalesce}
use neurodegen.Allowlist.{Table, address_of}
use neurodegen.Perception.Normalizer.{
  NumberOrText, of_number, of_text, QuoteListEntry, FlatQuoteEntry, LiquidityEntry, SecurityEntry,
  Schemas, QuoteEvent, LiquidityEvent, SecurityEvent, zero_address, as_hex_address, list_in,
  normalize_each,
}

module _ {W : Type 0} ⦃num : Number W⦄ (schemas : Schemas W) where
  -- `toNum`
  unfoldable pub to_num : Option (NumberOrText W) → W
  to_num none = num.of_nat 0
  to_num (some (of_number v)) = v
  to_num (some (of_text t)) =
      let n = schemas.number_of t in if num.is_finite n then n else num.of_nat 0

  unfoldable pub flat_to_nested : FlatQuoteEntry W → QuoteListEntry W
  flat_to_nested e = record {
    symbol = e.symbol;
    cmc_rank = e.rank;
    platform_address = none;
    price = to_num (some e.price);
    volume24h = to_num e.volume24h;
    percent_change1h = to_num e.percent_change1h;
    percent_change24h = to_num e.percent_change24h;
    market_cap = some (to_num e.market_cap);
  }

  -- The nested shape first, then the flat one.
  abbrev pub nested_or_flat :
      Option (QuoteListEntry W) → Option (FlatQuoteEntry W) → Option (QuoteListEntry W)
  nested_or_flat (some e) flat = some e
  nested_or_flat none (some e) = some (flat_to_nested e)
  nested_or_flat none none = none

  abbrev pub quote_of : JsValue W → Option (QuoteListEntry W)
  quote_of item = nested_or_flat (schemas.quote_entry item) (schemas.flat_entry item)

  abbrev pub members_of : JsValue W → List (JsValue W)
  members_of (array xs) = elements xs
  members_of (object ms) = values ms
  members_of (str t) = schemas.characters t
  members_of _ = []

  -- The items that `collectQuoteEntries` tries.
  unfoldable pub quote_items : JsValue W → List (JsValue W)
  quote_items (array xs) = elements xs
  quote_items (object ms) = members_of (coalesce (prop "data" ms) (object ms))
  quote_items _ = []

  abbrev pub fallback_for : Table → String → String
  fallback_for table symbol = get_or (address_of symbol table) zero_address

  unfoldable pub quote_event : Table → QuoteListEntry W → QuoteEvent W
  quote_event table e =
      let symbol = schemas.to_upper e.symbol in
      record {
        token_symbol = symbol;
        token_address = as_hex_address e.platform_address (fallback_for table symbol);
        price_usd = e.price;
        volume24h_usd = e.volume24h;
        percent_change1h = e.percent_change1h;
        percent_change24h = e.percent_change24h;
        market_cap_usd = get_or e.market_cap (num.of_nat 0);
        cmc_rank = get_or e.cmc_rank (num.of_nat 0);
      }

  unfoldable pub normalize_cmc_quotes : Table → JsValue W → List (QuoteEvent W)
  normalize_cmc_quotes table raw =
      normalize_each quote_of (λ e. some (quote_event table e)) (quote_items raw)

  unfoldable pub liquidity_event : Table → LiquidityEntry W → LiquidityEvent W
  liquidity_event table e =
      let symbol = schemas.to_upper e.symbol in
      record {
        token_symbol = symbol;
        pair_address = as_hex_address e.pair_address (fallback_for table symbol);
        liquidity_usd = get_or e.liquidity_usd (num.of_nat 0);
        volume24h_usd = get_or e.volume24h_usd (num.of_nat 0);
        price_impact1k_usd = get_or e.price_impact1k_usd (num.of_nat 0);
      }

  unfoldable pub normalize_dex_liquidity : Table → JsValue W → List (LiquidityEvent W)
  normalize_dex_liquidity table raw =
      normalize_each schemas.liquidity_entry (λ e. some (liquidity_event table e))
        (list_in "results" raw)

  -- `rawData && typeof rawData === 'object' ? rawData.data ?? rawData : null`
  abbrev security_candidate : JsValue W → JsValue W
  security_candidate (object ms) = coalesce (prop "data" ms) (object ms)
  security_candidate (array xs) = array xs
  security_candidate _ = null

  abbrev security_event : SecurityEntry W → SecurityEvent W
  security_event e = record {
    token_address = as_hex_address (some e.token_address) zero_address;
    is_honeypot = get_or e.is_honeypot false;
    owner_can_mint = get_or e.owner_can_mint false;
    risk_score = get_or e.risk_score (num.of_nat 0);
    flags = get_or e.flags [];
  }

  abbrev parsed_security : Option (SecurityEntry W) → Option (SecurityEvent W)
  parsed_security none = none
  parsed_security (some e) = some (security_event e)

  unfoldable pub normalize_security : JsValue W → Option (SecurityEvent W)
  normalize_security raw = parsed_security (schemas.security_entry (security_candidate raw))
