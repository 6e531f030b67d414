-- ===== src/Cmc.antt =====
-- src/lib/clients/cmcHubClient.ts: the calls of CoinMarketCap's tools, and the payment that a call may
-- make. `fetch` and the payment hook are services; texts of errors are constructors.
pub mod Payment
pub mod Call
pub mod Exchange
pub mod Ids
use neurodegen.Common.{ℕ, String, Bool, true, Option, none, some}
use neurodegen.Common.JsValue.{JsValue}

-- `maxAmountRequired` and `chainId` as the numbers that `Number` makes of them.
pub record PaymentRequirement (W : Type 0) : Type 0 where
  pub scheme : Option String
  pub network : Option String
  pub chain_id : Option W
  pub asset : Option String
  pub pay_to : Option String
  pub max_amount_required : Option W

-- `ceil` is `Math.ceil`; `equals` is `===` on numbers; `cap_atomic` is
-- `Math.ceil(CMC_X402_MAX_USD_PER_CALL * 1_000_000)`.
pub record PaymentRules (W : Type 0) : Type 0 where
  pub to_lower : String → String
  pub ceil : W → W
  pub equals : W → W → Bool
  pub cap_atomic : W

pub data Rejection (W : Type 0) : Type 0 where
  unsupported_scheme unsupported_network unexpected_asset : Option String → Rejection W
  unexpected_chain_id : W → Rejection W
  missing_pay_to invalid_amount : Rejection W
  exceeds_cap : W → Rejection W

-- `toolName`, with the arguments.
pub record ToolCall (W : Type 0) : Type 0 where
  pub tool_name : String
  pub arguments : JsValue W

pub record Response (W : Type 0) : Type 0 where
  pub status : ℕ
  pub body : Option (JsValue W)
  pub payment_response : Option String

pub data Transport : Type 0 where
  mcp_free mcp_x402 : Transport

pub record ToolResult (W : Type 0) : Type 0 where
  pub data_of : JsValue W
  pub transport : Transport
  pub raw_cost_usdc : W
  pub tool_name : String
  pub settlement_tx_hash : Option String

pub data CmcError (W : Type 0) : Type 0 where
  no_transport no_pay_hook challenge_not_json empty_accepts not_json type_error : CmcError W
  fetch_failed payment_failed : String → CmcError W
  rejected : Rejection W → CmcError W
  http_failed : ℕ → CmcError W
  rpc_error tool_error : CmcError W

-- A request to an endpoint, with the key, and with the proof of a payment; a payment of an amount.
pub data CmcCall (W : Type 0) : Type 0 where
  request : String → Option String → ToolCall W → Option String → CmcCall W
  pay : String → W → CmcCall W
