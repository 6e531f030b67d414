-- ===== src/Twak/Portfolio.antt =====
-- `getPortfolio` and `executeSwap` of src/lib/clients/twakClient.ts. A read of a balance is a result
-- of TWAK, with the chain's own read (src/lib/clients/chain.ts) behind it.
use neurodegen.Common.{
  ℕ, ◌≡◌, refl, String, Bool, false, ◌||◌, Option, none, some, List, [], ◌∷◌, ◌++◌, arith, get_or,
  if◌then◌else◌, All, Bool-cases, inl, inr, ap, sym, ◌∙◌,
}
use neurodegen.Common.Number.{Number}
use neurodegen.Common.Calls.{Result, ok, err}
use neurodegen.Types.{Holding, PortfolioSnapshot}
use neurodegen.Twak.{TwakError}

-- `getBalance`: the total as a text and in USD.
pub record Balance (W : Type 0) : Type 0 where
  pub total : String
  pub total_usd : Option W

-- `readErc20Balance`; `rawBalance > 0n` is `is_positive`.
pub record ChainBalance : Type 0 where
  pub balance_tokens : String
  pub is_positive : Bool

-- What the reads of a call answer: of the native coin, of each token by TWAK, and by the chain.
pub record Reads (W : Type 0) : Type 0 where
  pub native : Result TwakError (Balance W)
  pub token : String → Result TwakError (Balance W)
  pub chain : String → Result TwakError ChainBalance
  pub is_stablecoin : String → Bool
  pub now : ℕ

module _ {W : Type 0} ⦃num : Number W⦄ (reads : Reads W) where
  -- `if (native.totalUsd && native.totalUsd > 0) totalUSD += native.totalUsd`
  abbrev positive_or_zero : Option W → W
  positive_or_zero none = num.of_nat 0
  positive_or_zero (some v) =
      if num.lt (num.of_nat 0) v then num.add (num.of_nat 0) v else num.of_nat 0

  abbrev pub native_usd : Result TwakError (Balance W) → W
  native_usd (ok b) = positive_or_zero b.total_usd
  native_usd (err _) = num.of_nat 0

  abbrev holding : String → String → String → W → Holding W
  holding symbol address balance usd = record {
    token_symbol = symbol;
    token_address = address;
    balance_tokens = balance;
    value_usd = usd;
  }

  abbrev by_chain : String → String → Result TwakError ChainBalance → Option (Holding W)
  by_chain symbol address (err _) = none
  by_chain symbol address (ok b) =
      if b.is_positive
      then some (
          holding symbol address b.balance_tokens
            (if reads.is_stablecoin symbol then num.parse_float b.balance_tokens else num.of_nat 0))
      else none

  -- The entry that a token gets, if it gets one.
  unfoldable pub token_entry : String → String → Result TwakError (Balance W) → Option (Holding W)
  token_entry symbol address (err _) = by_chain symbol address (reads.chain symbol)
  token_entry symbol address (ok b) =
      let usd = get_or b.total_usd (num.of_nat 0) in
      if num.lt (num.of_nat 0) (num.parse_float b.total) || num.lt (num.of_nat 0) usd
      then some (holding symbol address b.total usd)
      else none

  abbrev pushed : Option (Holding W) → List (Holding W) × W → List (Holding W) × W
  pushed none s = s
  pushed (some h) (entries, total) = (entries ++ (h ∷ []), num.add total h.value_usd)

  unfoldable pub read_tokens : List (String × String) → List (Holding W) × W → List (Holding W) × W
  read_tokens [] s = s
  read_tokens ((symbol, address) ∷ rest) s =
      read_tokens rest (pushed (token_entry symbol address (reads.token symbol)) s)

  unfoldable pub get_portfolio : List (String × String) → PortfolioSnapshot W
  get_portfolio tokens =
      let (entries, total) = read_tokens tokens ([], native_usd reads.native) in
      record {
        total_value_usd = total;
        positions = entries;
        drawdown_from_peak = num.of_nat 0;
        available_capital_usd = total;
        snapshot_at = reads.now;
      }

  -- The entries' values added to `acc`, first to last.
  abbrev pub sum_values : W → List (Holding W) → W
  sum_values acc [] = acc
  sum_values acc (h ∷ hs) = sum_values (num.add acc h.value_usd) hs

  sum_values-snoc :
      (acc : W) (hs : List (Holding W)) (h : Holding W)
      → sum_values acc (hs ++ (h ∷ [])) ≡ num.add (sum_values acc hs) h.value_usd
  sum_values-snoc acc [] h = refl
  sum_values-snoc acc (g ∷ hs) h = sum_values-snoc (num.add acc g.value_usd) hs h

  pushed-total :
      (o : Option (Holding W)) (entries : List (Holding W)) (total begun : W)
      → total ≡ sum_values begun entries
      → (pushed o (entries, total)).1 ≡ sum_values begun (pushed o (entries, total)).0
  pushed-total none entries total begun h = h
  pushed-total (some g) entries total begun h =
      ap (λ v. num.add v g.value_usd) h ∙ sym (sum_values-snoc begun entries g)

  read_tokens-total :
      (tokens : List (String × String)) (s : List (Holding W) × W) (begun : W)
      → s.1 ≡ sum_values begun s.0
      → (read_tokens tokens s).1 ≡ sum_values begun (read_tokens tokens s).0
  unfolding read_tokens
  read_tokens-total [] s begun h = h
  read_tokens-total ((symbol, address) ∷ rest) s begun h =
      let o = token_entry symbol address (reads.token symbol) in
      read_tokens-total rest (pushed o s) begun (pushed-total o s.0 s.1 begun h)

  -- Whatever reads fail, the portfolio's total is the value of the native coin and of its entries,
  -- added in order, and all of it counts as available.
  pub get_portfolio-total :
      (tokens : List (String × String))
      → let p = get_portfolio tokens in
        (p.total_value_usd ≡ sum_values (native_usd reads.native) p.positions)
        × (p.available_capital_usd ≡ p.total_value_usd)
  unfolding get_portfolio
  get_portfolio-total tokens = (read_tokens-total tokens ([], native_usd reads.native) _ refl, refl)

  -- An entry is worth nothing unless it is of a stablecoin.
  abbrev pub OnlyStable : Holding W → Type 0
  OnlyStable h = reads.is_stablecoin h.token_symbol ≡ false → h.value_usd ≡ num.of_nat 0

  AnyStable : Option (Holding W) → Type 0
  AnyStable none = Unit
  AnyStable (some h) = OnlyStable h

  by_chain-OnlyStable :
      (symbol address : String) (r : Result TwakError ChainBalance)
      → AnyStable (by_chain symbol address r)
  unfolding AnyStable
  by_chain-OnlyStable symbol address (err e) = tt
  by_chain-OnlyStable symbol address (ok b) = elim (Bool-cases b.is_positive) [
    | inl e ↦ rw e (λ s. rw s refl)
    | inr e ↦ rw e tt
  ]

  pushed-OnlyStable :
      (o : Option (Holding W)) (s : List (Holding W) × W)
      → AnyStable o
      → All OnlyStable s.0
      → All OnlyStable (pushed o s).0
  unfolding AnyStable
  pushed-OnlyStable none s k h = h
  pushed-OnlyStable (some g) ([], total) k h = (k, tt)
  pushed-OnlyStable (some g) (e ∷ es, total) k h =
      (h.0, pushed-OnlyStable (some g) (es, total) k h.1)

  -- No answer of TWAK for any token.
  abbrev pub NoAnswer : Type 0
  NoAnswer = (symbol : String) → (e : TwakError) × (reads.token symbol ≡ err e)

  token_entry-AnyStable :
      (symbol address : String) (r : Result TwakError (Balance W)) (e : TwakError)
      → r ≡ err e
      → AnyStable (token_entry symbol address r)
  unfolding token_entry
  token_entry-AnyStable symbol address (err _) e h =
      by_chain-OnlyStable symbol address (reads.chain symbol)
  token_entry-AnyStable symbol address (ok b) e h = ground (arith, h)

  read_tokens-OnlyStable :
      (tokens : List (String × String)) (s : List (Holding W) × W)
      → NoAnswer
      → All OnlyStable s.0
      → All OnlyStable (read_tokens tokens s).0
  unfolding read_tokens
  read_tokens-OnlyStable [] s fails h = h
  read_tokens-OnlyStable ((symbol, address) ∷ rest) s fails h =
      let (e, same) = fails symbol in
      let entry = token_entry-AnyStable symbol address (reads.token symbol) e same in
      read_tokens-OnlyStable rest _ fails (pushed-OnlyStable _ s entry h)

  -- While TWAK answers no call, the portfolio still comes back, but every entry that is not of a
  -- stablecoin is worth nothing and so is the native coin: the total is the sum of the entries alone.
  pub get_portfolio-degraded :
      (tokens : List (String × String)) (e : TwakError)
      → reads.native ≡ err e
      → NoAnswer
      → let p = get_portfolio tokens in
        (p.total_value_usd ≡ sum_values (num.of_nat 0) p.positions) × All OnlyStable p.positions
  unfolding get_portfolio
  get_portfolio-degraded tokens e h fails = (
    (get_portfolio-total tokens).0
        ∙ ap (λ r. sum_values (native_usd r) (get_portfolio tokens).positions) h,
    read_tokens-OnlyStable tokens ([], native_usd reads.native) fails tt,
  )
