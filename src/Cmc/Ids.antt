-- ===== src/Cmc/Ids.antt =====
-- src/lib/utils/cmcIds.ts, and the arguments that src/lib/clients/cmcHubClient.ts makes of symbols.
use package.text.Mathlib.Text.{◌==◌ as str_eq}
use Prim.Native.String.{◌++◌ as text_append}
use neurodegen.Common.{
  ℕ, String, Bool, true, false, Option, none, some, List, [], ◌∷◌, ◌++◌, if◌then◌else◌,
}
use neurodegen.Common.OrderedMap.{get}
use neurodegen.Common.JsValue.{str, Members, no_members, member}

abbrev pub symbol_to_cmc_id : List (String × ℕ)
symbol_to_cmc_id =
    ("BTC", 1)
    ∷ ("ETH", 1027)
    ∷ ("USDT", 825)
    ∷ ("USDC", 3408)
    ∷ ("XRP", 52)
    ∷ ("BNB", 1839)
    ∷ ("SOL", 5426)
    ∷ ("DOGE", 74)
    ∷ ("ADA", 2010)
    ∷ ("TRX", 1958)
    ∷ ("LTC", 2)
    ∷ ("AVAX", 5805)
    ∷ ("SHIB", 5994)
    ∷ ("LINK", 1975)
    ∷ ("BCH", 1831)
    ∷ ("DAI", 4943)
    ∷ ("TON", 11419)
    ∷ ("WBNB", 7192)
    ∷ ("BUSD", 4687)
    ∷ ("CAKE", 7186)
    ∷ ("WLFI", 30553)
    ∷ ("ZEC", 1437)
    ∷ ("TUSD", 2563)
    ∷ ("FDUSD", 26081)
    ∷ ("USDE", 29470)
    ∷ ("USDD", 19891)
    ∷ ("XAUT", 5176)
    ∷ ("PENGU", 32999)
    ∷ ("BONK", 23095)
    ∷ ("FLOKI", 10804)
    ∷ ("PEPE", 24478)
    ∷ ("WIF", 28752)
    ∷ ("AAVE", 7278)
    ∷ ("UNI", 7083)
    ∷ ("PENDLE", 9481)
    ∷ ("COMP", 5692)
    ∷ ("LDO", 8000)
    ∷ ("CRV", 6538)
    ∷ ("SNX", 2586)
    ∷ ("YFI", 5864)
    ∷ ("1INCH", 8104)
    ∷ ("SUSHI", 6758)
    ∷ ("TWT", 5964)
    ∷ ("DEXE", 7326)
    ∷ ("ASTER", 18876)
    ∷ ("FET", 3773)
    ∷ ("INJ", 7226)
    ∷ ("STG", 18934)
    ∷ ("AXS", 6783)
    ∷ ("ZRO", 28206)
    ∷ []

-- `to_upper` is `toUpperCase`; `number_text` is `String` of a number.
module _ (to_upper : String → String) (number_text : ℕ → String) where
  unfoldable pub cmc_id_for : String → Option ℕ
  cmc_id_for symbol = get (to_upper symbol) symbol_to_cmc_id

  abbrev id_member : {W : Type 0} → Option ℕ → Members W
  id_member none = no_members
  id_member (some id) = member "id" (str (number_text id)) no_members

  abbrev is_given : Option String → Bool
  is_given none = false
  is_given (some t) = if str_eq t "" then false else true

  abbrev given_symbol : {W : Type 0} → Option String → Members W
  given_symbol none = no_members
  given_symbol (some symbol) =
      if str_eq symbol "" then no_members else id_member (cmc_id_for symbol)

  unfoldable pub resolve_cmc_id_param : {W : Type 0} → Option String → Option String → Members W
  resolve_cmc_id_param symbol none = given_symbol symbol
  resolve_cmc_id_param symbol (some id) =
      if str_eq id "" then given_symbol symbol else member "id" (str id) no_members

  abbrev id_texts : List String → List String
  id_texts [] = []
  id_texts (sym ∷ rest) =
      let later = id_texts rest in
      elim (cmc_id_for sym) [ none ↦ later | some id ↦ number_text id ∷ later ]

  abbrev joined : List String → String
  joined [] = ""
  joined (t ∷ []) = t
  joined (t ∷ u ∷ ts) = text_append t (text_append "," (joined (u ∷ ts)))

  abbrev converted : {W : Type 0} → Option String → Members W
  converted none = no_members
  converted (some c) = if str_eq c "" then no_members else member "convert" (str c) no_members

  -- The arguments of `getCryptoQuotes`.
  unfoldable pub quote_args : {W : Type 0} → List String → List String → Option String → Members W
  quote_args ids symbols convert =
      member "id" (str (joined (ids ++ id_texts symbols))) (converted convert)
