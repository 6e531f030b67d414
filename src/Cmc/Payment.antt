-- ===== src/Cmc/Payment.antt =====
-- `validatePaymentRequirement` of src/lib/clients/cmcHubClient.ts.
use text.Mathlib.Text.{◌==◌ as str_eq}
use neurodegen.Common.{
  ℕ, ◌≡◌, String, Bool, true, false, not, ◌||◌, Option, none, some, arith, get_or, if◌then◌else◌,
}
use neurodegen.Common.Number.{Number}
use neurodegen.Cmc.{
  PaymentRequirement, PaymentRules, Rejection, unsupported_scheme, unsupported_network,
  unexpected_asset, unexpected_chain_id, missing_pay_to, invalid_amount, exceeds_cap,
}

abbrev pub usdc_base_address : String
usdc_base_address = "0x833589fCD6eDb6E08f4c7C32D4f71b54bdA02913"

abbrev pub base_chain_id : ℕ
base_chain_id = 8453

module _ {W : Type 0} ⦃num : Number W⦄ (rules : PaymentRules W) where
  -- `!t || t.toLowerCase() !== s`
  abbrev pub differs : Option String → String → Bool
  differs none s = true
  differs (some t) s = str_eq t "" || not (str_eq (rules.to_lower t) s)

  abbrev pub wrong_chain : Option W → Bool
  wrong_chain none = false
  wrong_chain (some id) = not (rules.equals id (num.of_nat base_chain_id))

  abbrev pub is_missing : Option String → Bool
  is_missing none = true
  is_missing (some t) = str_eq t ""

  abbrev pub amount_of : PaymentRequirement W → W
  amount_of req = get_or req.max_amount_required (num.of_nat 0)

  unfoldable pub validate_payment_requirement : PaymentRequirement W → Option (Rejection W)
  validate_payment_requirement req =
      if differs req.scheme "exact"
      then some (unsupported_scheme req.scheme)
      else if differs req.network "base"
      then some (unsupported_network req.network)
      else if wrong_chain req.chain_id
      then some (unexpected_chain_id (get_or req.chain_id (num.of_nat 0)))
      else if differs req.asset (rules.to_lower usdc_base_address)
      then some (unexpected_asset req.asset)
      else if is_missing req.pay_to
      then some missing_pay_to
      else if not (num.is_finite (amount_of req)) || num.le (amount_of req) (num.of_nat 0)
      then some invalid_amount
      else if num.lt rules.cap_atomic (amount_of req)
      then some (exceeds_cap (amount_of req))
      else none

  -- An exact payment in USDC on Base, to somebody, of a finite positive amount that is not above the
  -- cap.
  pub record IsTrusted (req : PaymentRequirement W) : Type 0 where
    pub is_exact : differs req.scheme "exact" ≡ false
    pub is_base : differs req.network "base" ≡ false
    pub right_chain : wrong_chain req.chain_id ≡ false
    pub is_usdc : differs req.asset (rules.to_lower usdc_base_address) ≡ false
    pub has_payee : is_missing req.pay_to ≡ false
    pub finite_amount : num.is_finite (amount_of req) ≡ true
    pub positive_amount : num.le (amount_of req) (num.of_nat 0) ≡ false
    pub capped : num.lt rules.cap_atomic (amount_of req) ≡ false

  pub validate-IsTrusted :
      (req : PaymentRequirement W) → validate_payment_requirement req ≡ none → IsTrusted req
  unfolding validate_payment_requirement
  validate-IsTrusted req h = record {
    is_exact = ground (arith, h);
    is_base = ground (arith, h);
    right_chain = ground (arith, h);
    is_usdc = ground (arith, h);
    has_payee = ground (arith, h);
    finite_amount = ground (arith, h);
    positive_amount = ground (arith, h);
    capped = ground (arith, h);
  }
