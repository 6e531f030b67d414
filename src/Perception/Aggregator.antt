-- ===== src/Perception/Aggregator.antt =====
-- `aggregateMetrics` of src/lib/services/perception/aggregatorService.ts, with the events of
-- src/types/perception.ts as far as it reads them. `options.computedAt` and the spend are passed
-- through, and left out.
pub mod Newest
pub mod Surges
use neurodegen.Common.{
  ℕ, zero, suc, String, Bool, true, false, ◌&&◌, Option, none, some, List, [], ◌∷◌, ◌++◌, ltb,
  length, filter, map, if◌then◌else◌, get_or,
}
use neurodegen.Common.Number.{Number}
use neurodegen.Common.OrderedMap.{OrderedMap, get, set}

pub data FearGreedLabel : Type 0 where
  extreme_fear fear neutral greed extreme_greed : FearGreedLabel

pub record Quote (W : Type 0) : Type 0 where
  pub token_symbol : String
  pub token_address : String
  pub percent_change1h : W
  pub volume24h_usd : W

pub record Funding (W : Type 0) : Type 0 where
  pub pair : String
  pub funding_rate_annualized : W

pub record Social (W : Type 0) : Type 0 where
  pub token_symbol : String
  pub kol_mention_count : W
  pub velocity_per_hour : W

pub record FearGreed (W : Type 0) : Type 0 where
  pub value : W
  pub label : FearGreedLabel

-- An event with what its type carries; `liquidityUSD` of a liquidity snapshot.
pub data MarketEvent (W : Type 0) : Type 0 where
  quote_update : Quote W → MarketEvent W
  funding_rate_update : Funding W → MarketEvent W
  social_signal : Social W → MarketEvent W
  dex_liquidity_snapshot : W → MarketEvent W
  fear_greed_update : FearGreed W → MarketEvent W
  other_event : MarketEvent W

-- A value with its event's timestamp.
abbrev pub Stamped : Type 0 → Type 0
Stamped A = ℕ × A

-- `!existing || incoming.timestamp > existing.timestamp`
abbrev pub supersedes : {A : Type 0} → Stamped A → Option (Stamped A) → Bool
supersedes new none = true
supersedes (t, _) (some (s, _)) = ltb s t

abbrev pub keep_newer :
    {A : Type 0} → String → Stamped A → OrderedMap (Stamped A) → OrderedMap (Stamped A)
keep_newer key new m = if supersedes new (get key m) then set key new m else m

-- The three maps and the liquidity samples of the loop.
pub record Latest (W : Type 0) : Type 0 where
  pub quotes : OrderedMap (Stamped (Quote W))
  pub funding : OrderedMap (Stamped (Funding W))
  pub social : OrderedMap (Stamped (Social W))
  pub liquidity : List W

module _ {W : Type 0} where
  abbrev pub nothing_yet : Latest W
  nothing_yet = record { quotes = []; funding = []; social = []; liquidity = [] }

  abbrev pub take_event : ℕ × MarketEvent W → Latest W → Latest W
  take_event (t, quote_update q) l = record l { quotes = keep_newer q.token_symbol (t, q) l.quotes }
  take_event (t, funding_rate_update f) l = record l {
    funding = keep_newer f.pair (t, f) l.funding;
  }
  take_event (t, social_signal s) l = record l {
    social = keep_newer s.token_symbol (t, s) l.social;
  }
  take_event (t, dex_liquidity_snapshot usd) l = record l { liquidity = l.liquidity ++ (usd ∷ []) }
  take_event (t, fear_greed_update _) l = l
  take_event (t, other_event) l = l

  -- The loop over the events.
  unfoldable pub take_all : List (ℕ × MarketEvent W) → Latest W → Latest W
  take_all [] l = l
  take_all (e ∷ es) l = take_all es (take_event e l)

  abbrev newer_fear_greed :
      ℕ × MarketEvent W → Option (Stamped (FearGreed W)) → Option (Stamped (FearGreed W))
  newer_fear_greed (t, fear_greed_update f) latest =
      if supersedes (t, f) latest then some (t, f) else latest
  newer_fear_greed _ latest = latest

  unfoldable pub latest_fear_greed :
      List (ℕ × MarketEvent W) → Option (Stamped (FearGreed W)) → Option (Stamped (FearGreed W))
  latest_fear_greed [] latest = latest
  latest_fear_greed (e ∷ es) latest = latest_fear_greed es (newer_fear_greed e latest)

pub record AggregateMetrics (W : Type 0) : Type 0 where
  pub fear_greed_value : W
  pub fear_greed_label : FearGreedLabel
  pub top_movers : List (Quote W)
  pub kol_activity_by_token : List (String × Social W)
  pub funding_rates_by_pair : List (String × Funding W)
  pub market_liquidity_score : W
  pub active_surge_tokens : ℕ

module _ {W : Type 0} ⦃num : Number W⦄ where
  unfoldable pub label_of : W → FearGreedLabel
  label_of v =
      if num.lt v (num.of_nat 25)
      then extreme_fear
      else if num.lt v (num.of_nat 45)
      then fear
      else if num.le v (num.of_nat 55)
      then neutral
      else if num.lt v (num.of_nat 75)
      then greed
      else extreme_greed

  abbrev or_fallback : Option (Stamped (FearGreed W)) → Option W → Option (FearGreed W)
  or_fallback (some (_, f)) fallback = some f
  or_fallback none none = none
  or_fallback none (some v) = some (record { value = v; label = label_of v })

  unfoldable pub pick_latest_fear_greed : List (ℕ × MarketEvent W) → Option W → Option (FearGreed W)
  pick_latest_fear_greed events fallback = or_fallback (latest_fear_greed events none) fallback

  -- The stable sort by the absolute change, largest first: each is put after those that are not
  -- smaller.
  abbrev pub put_ranked : Quote W → List (Quote W) → List (Quote W)
  put_ranked q [] = q ∷ []
  put_ranked q (r ∷ rs) =
      let later = put_ranked q rs in
      if num.lt (num.abs r.percent_change1h) (num.abs q.percent_change1h)
      then q ∷ r ∷ rs
      else r ∷ later

  unfoldable pub rank_onto : List (Quote W) → List (Quote W) → List (Quote W)
  rank_onto [] ranked = ranked
  rank_onto (q ∷ qs) ranked = rank_onto qs (put_ranked q ranked)

  abbrev pub is_surging : W → Quote W → Bool
  is_surging threshold q = num.le threshold (num.abs q.percent_change1h)

  abbrev first_ten : ℕ → List (Quote W) → List (Quote W)
  first_ten zero qs = []
  first_ten (suc n) [] = []
  first_ten (suc n) (q ∷ qs) = q ∷ first_ten n qs

  abbrev or_value : Option (FearGreed W) → Option W → W
  or_value (some f) fallback = f.value
  or_value none fallback = get_or fallback (num.of_nat 50)

  abbrev or_label : Option (FearGreed W) → FearGreedLabel
  or_label (some f) = f.label
  or_label none = neutral

  abbrev pub latest_quotes : List (ℕ × MarketEvent W) → List (Quote W)
  latest_quotes events = map (λ e. e.1.1) (take_all events nothing_yet).quotes

  unfoldable pub active_surge_tokens : W → List (ℕ × MarketEvent W) → ℕ
  active_surge_tokens threshold events =
      length (filter (is_surging threshold) (rank_onto (latest_quotes events) []))

  -- `Math.log10` and `Number(x.toFixed(4))` are arguments.
  module _ (log10 round4 : W → W) where
    -- `Math.max(0, Math.min(1, (log - 3) / 6))`
    abbrev liquidity_part : W → W
    liquidity_part usd =
        let log = log10 (num.max usd (num.of_nat 1)) in
        num.max (num.of_nat 0)
          (num.min (num.of_nat 1) (num.div (num.sub log (num.of_nat 3)) (num.of_nat 6)))

    abbrev sum_parts : W → List W → W
    sum_parts acc [] = acc
    sum_parts acc (usd ∷ rest) = sum_parts (num.add acc (liquidity_part usd)) rest

    unfoldable pub compute_market_liquidity_score : List W → W
    compute_market_liquidity_score [] = num.of_nat 0
    compute_market_liquidity_score (usd ∷ rest) =
        round4 (num.div (sum_parts (num.of_nat 0) (usd ∷ rest)) (num.of_nat (length (usd ∷ rest))))

    -- The fallback of the fear and greed value, and the threshold of a surge.
    unfoldable pub aggregate_metrics : List (ℕ × MarketEvent W) → Option W → W → AggregateMetrics W
    aggregate_metrics events fallback threshold =
        let latest = take_all events nothing_yet in
        let fg = pick_latest_fear_greed events fallback in
        record {
          fear_greed_value = or_value fg fallback;
          fear_greed_label = or_label fg;
          top_movers = first_ten 10 (rank_onto (latest_quotes events) []);
          kol_activity_by_token = map (λ e. (e.0, e.1.1)) latest.social;
          funding_rates_by_pair = map (λ e. (e.0, e.1.1)) latest.funding;
          market_liquidity_score = compute_market_liquidity_score latest.liquidity;
          active_surge_tokens = active_surge_tokens threshold events;
        }
