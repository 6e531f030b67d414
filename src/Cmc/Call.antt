-- ===== src/Cmc/Call.antt =====
-- `callMcp`, `reshapeColumnar` and `CmcHubClient.callX402` of src/lib/clients/cmcHubClient.ts.
use package.text.Mathlib.Text.{◌==◌ as str_eq}
use Prim.Native.String.{◌++◌ as text_append}
use neurodegen.Common.{
  ℕ, ◌+◌, String, Bool, true, not, ◌&&◌, ◌||◌, Option, none, some, List, [], ◌∷◌, ◌==◌, leb, get_or,
  if◌then◌else◌,
}
use neurodegen.Common.Number.{Number}
use neurodegen.Common.Calls.{Result, ok, err, Act, perform, ◌>>=◌}
use neurodegen.Common.OrderedMap.{OrderedMap, set}
use neurodegen.Common.JsValue.{
  JsValue, null, undefined, str, array, object, elements, of_list, of_map, prop, element, element,
  field_of, array_of, nth, truthy,
}
use neurodegen.Cmc.{
  PaymentRequirement, PaymentRules, Rejection, ToolCall, Response, mcp_free, mcp_x402, ToolResult,
  CmcError, no_transport, no_pay_hook, challenge_not_json, empty_accepts, not_json, type_error,
  fetch_failed, payment_failed, rejected, http_failed, rpc_error, tool_error, CmcCall, request, pay,
}
use neurodegen.Cmc.Payment.{differs, amount_of, validate_payment_requirement}

-- What the environment and the language give: `String(v)` as a key, the character of a text, the
-- parsers, and `accepts ?? []` of a challenge.
pub record CmcEnv (W : Type 0) : Type 0 where
  pub rules : PaymentRules W
  pub key : Option String
  pub enable_x402_outbound : Bool
  pub has_pay_hook : Bool
  pub endpoint : String
  pub x402_endpoint : String
  pub cost_per_call_usdc : W
  pub key_text : JsValue W → String
  pub char_at : String → ℕ → JsValue W
  pub parse_json : String → Option (JsValue W)
  pub read_accepts : JsValue W → List (PaymentRequirement W)
  pub fetched : List (CmcCall W) → Result String (Response W)
  pub paid : List (CmcCall W) → Result String String

module _ {W : Type 0} ⦃num : Number W⦄ (env : CmcEnv W) where
  -- `row[i]`
  abbrev at : JsValue W → ℕ → Option (JsValue W)
  at null n = none
  at undefined n = none
  at (array xs) n = some (nth (elements xs) n)
  at (str s) n = some (env.char_at s n)
  at _ n = some undefined

  -- `obj[headers[i]] = row[i]`, from `i` on
  abbrev row_from :
      List (JsValue W) → JsValue W → ℕ → OrderedMap (JsValue W) → Option (OrderedMap (JsValue W))
  row_from [] row i obj = some obj
  row_from (h ∷ hs) row i obj = elim (at row i) [
    | none ↦ none
    | some v ↦ row_from hs row (i + 1) (set (env.key_text h) v obj)
  ]

  abbrev rows_of : List (JsValue W) → List (JsValue W) → Option (List (JsValue W))
  rows_of headers [] = some []
  rows_of headers (row ∷ rows) =
      let rest = rows_of headers rows in
      elim (row_from headers row 0 []) [
        | none ↦ none
        | some obj ↦ elim rest [ none ↦ none | some objs ↦ some (object (of_map obj) ∷ objs) ]
      ]

  abbrev columns :
      JsValue W → Option (List (JsValue W)) → Option (List (JsValue W)) → Option (JsValue W)
  columns raw (some headers) (some rows) = elim (rows_of headers rows) [
    | none ↦ none
    | some objs ↦ some (array (of_list objs))
  ]
  columns raw _ _ = some raw

  -- `none` where it throws.
  unfoldable pub reshape_columnar : JsValue W → Option (JsValue W)
  reshape_columnar (object ms) =
      columns (object ms) (array_of (prop "headers" ms)) (array_of (prop "rows" ms))
  reshape_columnar raw = some raw

  -- `c.type === 'text' && typeof c.text === 'string'`, the texts joined
  abbrev block_text : JsValue W → JsValue W → String
  block_text (str t) (str s) = if str_eq t "text" then s else ""
  block_text _ _ = ""

  abbrev text_blocks : List (JsValue W) → Option String
  text_blocks [] = some ""
  text_blocks (c ∷ cs) =
      let rest = text_blocks cs in
      elim (field_of "type" c) [
        | none ↦ none
        | some kind ↦ elim rest [
          | none ↦ none
          | some later ↦
              some (text_append (block_text kind (get_or (field_of "text" c) undefined)) later)
        ]
      ]

  abbrev or_type_error : Option (JsValue W) → Result (CmcError W) (JsValue W)
  or_type_error (some v) = ok v
  or_type_error none = err type_error

  -- The `try` around `JSON.parse` and the reshaping.
  abbrev parsed_text : String → Option (JsValue W) → JsValue W
  parsed_text texts none = str texts
  parsed_text texts (some raw) = get_or (reshape_columnar raw) (str texts)

  abbrev of_content : List (JsValue W) → Bool → Result (CmcError W) (JsValue W)
  of_content content is_error = elim (text_blocks content) [
    | none ↦ err type_error
    | some texts ↦
        if is_error then err tool_error else ok (parsed_text texts (env.parse_json texts))
  ]

  -- `result`, with `result.content` where `result` is truthy
  abbrev of_result : JsValue W → JsValue W → Result (CmcError W) (JsValue W)
  of_result result (array (element x xs)) =
      of_content (x ∷ elements xs) (truthy (get_or (field_of "isError" result) undefined))
  of_result result _ = or_type_error (reshape_columnar result)

  abbrev content_of : JsValue W → JsValue W
  content_of result =
      if truthy result then get_or (field_of "content" result) undefined else undefined

  abbrev of_answer : JsValue W → Result (CmcError W) (JsValue W)
  of_answer json = elim (field_of "error" json) [
    | none ↦ err type_error
    | some e ↦
        let result = get_or (field_of "result" json) undefined in
        if truthy e then err rpc_error else of_result result (content_of result)
  ]

  abbrev of_body : Option (JsValue W) → Result (CmcError W) (JsValue W)
  of_body none = err not_json
  of_body (some json) = of_answer json

  module _ (call : ToolCall W) (use_x402_hint : Bool) where
    -- `useX402Hint || !key`
    unfoldable pub use_x402 : Bool
    use_x402 = use_x402_hint || elim env.key [ none ↦ true | some k ↦ str_eq k "" ]

    abbrev pub target : String
    target = if use_x402 then env.x402_endpoint else env.endpoint

    -- The key goes with a free call only.
    abbrev pub send : Option String → CmcCall W
    send proof = request target (if use_x402 then none else env.key) call proof

    abbrev tool_result : Option String → JsValue W → ToolResult W
    tool_result settlement v = record {
      data_of = v;
      transport = if use_x402 then mcp_x402 else mcp_free;
      raw_cost_usdc = if use_x402 then env.cost_per_call_usdc else num.of_nat 0;
      tool_name = call.tool_name;
      settlement_tx_hash = settlement;
    }

    abbrev with_result :
        Option String → Result (CmcError W) (JsValue W) → Result (CmcError W) (ToolResult W)
    with_result settlement (ok v) = ok (tool_result settlement v)
    with_result settlement (err e) = err e

    -- `response.ok`
    unfoldable pub finish : Option String → Response W → Result (CmcError W) (ToolResult W)
    finish settlement r =
        if leb 200 r.status && leb r.status 299
        then with_result settlement (of_body r.body)
        else err (http_failed r.status)

    abbrev pub Answer : Type 0
    Answer = Result (CmcError W) (ToolResult W)

    unfoldable pub after_paid : Result String (Response W) → Act (CmcCall W) Answer
    after_paid (err e) t = (err (fetch_failed e), t)
    after_paid (ok r) t = (finish r.payment_response r, t)

    unfoldable pub after_pay : Result String String → Act (CmcCall W) Answer
    after_pay (err e) t = (err (payment_failed e), t)
    after_pay (ok proof) t = (perform (send (some proof)) env.fetched >>= after_paid) t

    -- `BigInt(Math.ceil(…))`
    abbrev pub payment_of : PaymentRequirement W → CmcCall W
    payment_of req = pay target (env.rules.ceil (amount_of env.rules req))

    unfoldable pub settle : PaymentRequirement W → Option (Rejection W) → Act (CmcCall W) Answer
    settle req (some why) t = (err (rejected why), t)
    settle req none t = (perform (payment_of req) env.paid >>= after_pay) t

    -- `accepts.find(…) ?? accepts[0]`
    abbrev pub is_exact_on_base : PaymentRequirement W → Bool
    is_exact_on_base r =
        not (differs env.rules r.scheme "exact") && not (differs env.rules r.network "base")

    abbrev pub pick : PaymentRequirement W → List (PaymentRequirement W) → PaymentRequirement W
    pick first [] = first
    pick first (r ∷ rs) = let later = pick first rs in if is_exact_on_base r then r else later

    unfoldable pub on_accepts : List (PaymentRequirement W) → Act (CmcCall W) Answer
    on_accepts [] t = (err empty_accepts, t)
    on_accepts (a ∷ rest) t =
        let req = pick a (a ∷ rest) in settle req (validate_payment_requirement env.rules req) t

    unfoldable pub on_challenge : Option (JsValue W) → Act (CmcCall W) Answer
    on_challenge none t = (err challenge_not_json, t)
    on_challenge (some body) t = on_accepts (env.read_accepts body) t

    unfoldable pub after_first : Result String (Response W) → Act (CmcCall W) Answer
    after_first (err e) t = (err (fetch_failed e), t)
    after_first (ok r) t =
        if use_x402 && r.status == 402 then on_challenge r.body t else (finish none r, t)

    unfoldable pub call_mcp : Act (CmcCall W) Answer
    call_mcp t =
        if use_x402 && not env.enable_x402_outbound
        then (err no_transport, t)
        else if use_x402 && not env.has_pay_hook
        then (err no_pay_hook, t)
        else (perform (send none) env.fetched >>= after_first) t
