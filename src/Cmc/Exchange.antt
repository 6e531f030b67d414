-- ===== src/Cmc/Exchange.antt =====
-- What a call of `callMcp` sends and pays.
use mathlib.Core.Path.{subst}
use neurodegen.Common.{
  ◌≡◌, refl, String, Bool, true, false, not, ◌&&◌, Option, none, some, List, [], ◌∷◌, ◌==◌, arith,
  All, Bool-cases, inl, inr,
}
use neurodegen.Common.Number.{Number, ◌≼◌, IsOrdered, le_of_not_lt}
use neurodegen.Common.Calls.{Result, ok, err}
use neurodegen.Common.JsValue.{JsValue}
use neurodegen.Cmc.{
  PaymentRequirement, Rejection, ToolCall, Response, CmcError, CmcCall, request, pay,
  challenge_not_json, empty_accepts, fetch_failed, payment_failed, rejected,
}
use neurodegen.Cmc.Payment.{amount_of, validate_payment_requirement, IsTrusted, validate-IsTrusted}
use neurodegen.Cmc.Call.{
  CmcEnv, use_x402, send, finish, Answer, after_paid, after_pay, payment_of, settle, pick,
  on_accepts, on_challenge, after_first, call_mcp,
}

module _ {W : Type 0} ⦃num : Number W⦄ (env : CmcEnv W) (call : ToolCall W) (hint : Bool) where
  abbrev asked : List (CmcCall W) → List (CmcCall W)
  asked t = send env call hint none ∷ t

  abbrev paid_log : PaymentRequirement W → List (CmcCall W) → List (CmcCall W)
  paid_log req t = payment_of env call hint req ∷ asked t

  -- A request over x402 that was answered with 402.
  pub record Challenged (challenge : Response W) (t : List (CmcCall W)) : Type 0 where
    pub over_x402 : use_x402 env call hint ≡ true
    pub enabled : env.enable_x402_outbound ≡ true
    pub answered : env.fetched t ≡ ok challenge
    pub challenged : challenge.status ≡ 402

  -- Why a payment is made: the challenge offers requirements, and the one that is picked is trusted.
  pub record Pays (req : PaymentRequirement W) (t : List (CmcCall W)) : Type 0 where
    pub challenge : Response W
    pub challenged : Challenged challenge t
    pub body : JsValue W
    pub readable : challenge.body ≡ some body
    pub first : PaymentRequirement W
    pub others : List (PaymentRequirement W)
    pub offered : env.read_accepts body ≡ first ∷ others
    pub picked : req ≡ pick env call hint first (first ∷ others)
    pub trusted : IsTrusted env.rules req

  -- Why no payment is made after the first request, and what is answered then.
  pub data Free (t : List (CmcCall W)) : Answer env call hint → Type 0 where
    lost : (e : String) → env.fetched t ≡ err e → Free t (err (fetch_failed e))
    unchallenged :
        (r : Response W)
        → env.fetched t ≡ ok r
        → use_x402 env call hint && r.status == 402 ≡ false
        → Free t (finish env call hint none r)
    unreadable : (r : Response W) → Challenged r t → r.body ≡ none → Free t (err challenge_not_json)
    nothing_offered :
        (r : Response W) (body : JsValue W)
        → Challenged r t
        → r.body ≡ some body
        → env.read_accepts body ≡ []
        → Free t (err empty_accepts)
    untrusted :
        (r : Response W) (body : JsValue W) (first : PaymentRequirement W)
        (others : List (PaymentRequirement W)) (why : Rejection W)
        → Challenged r t
        → r.body ≡ some body
        → env.read_accepts body ≡ first ∷ others
        → validate_payment_requirement env.rules (pick env call hint first (first ∷ others))
          ≡ some why
        → Free t (err (rejected why))

  -- What the request with the proof is answered.
  abbrev final_answer : Result String (Response W) → Answer env call hint
  final_answer (err e) = err (fetch_failed e)
  final_answer (ok r) = finish env call hint r.payment_response r

  -- The answer, the calls before, and the calls after, newest first.
  pub data Exchange : Answer env call hint → List (CmcCall W) → List (CmcCall W) → Type 0 where
    unsent :
        (e : CmcError W) (t : List (CmcCall W))
        → use_x402 env call hint ≡ true
        → env.enable_x402_outbound && env.has_pay_hook ≡ false
        → Exchange (err e) t t
    unpaid : (r : Answer env call hint) (t : List (CmcCall W)) → Free t r → Exchange r t (asked t)
    unsettled :
        (e : String) (t : List (CmcCall W)) (req : PaymentRequirement W)
        → Pays req t
        → env.paid (asked t) ≡ err e
        → Exchange (err (payment_failed e)) t (paid_log req t)
    settled :
        (t : List (CmcCall W)) (req : PaymentRequirement W) (proof : String)
        → Pays req t
        → env.paid (asked t) ≡ ok proof
        → Exchange
            (final_answer (env.fetched (paid_log req t)))
            t
            (send env call hint (some proof) ∷ paid_log req t)

  abbrev Exchanges : Answer env call hint × List (CmcCall W) → List (CmcCall W) → Type 0
  Exchanges (r, after) t = Exchange r t after

  after_paid-final :
      (x : Result String (Response W)) (log : List (CmcCall W))
      → after_paid env call hint x log ≡ (final_answer x, log)
  unfolding after_paid
  after_paid-final (err e) log = refl
  after_paid-final (ok r) log = refl

  after_pay-Exchanges :
      (t : List (CmcCall W)) (req : PaymentRequirement W) (x : Result String String)
      → Pays req t
      → env.paid (asked t) ≡ x
      → Exchanges (after_pay env call hint x (paid_log req t)) t
  unfolding after_pay
  after_pay-Exchanges t req (err e) h same = unsettled e t req h same
  after_pay-Exchanges t req (ok proof) h same =
      rw
        (after_paid-final (env.fetched (paid_log req t))
          (send env call hint (some proof) ∷ paid_log req t))
        (settled t req proof h same)

  settle-Exchanges :
      (t : List (CmcCall W)) (req : PaymentRequirement W) (why : Option (Rejection W))
      → validate_payment_requirement env.rules req ≡ why
      → ((e : Rejection W)
          → validate_payment_requirement env.rules req ≡ some e
          → Free t (err (rejected e)))
      → (IsTrusted env.rules req → Pays req t)
      → Exchanges (settle env call hint req why (asked t)) t
  unfolding settle
  settle-Exchanges t req (some why) same refused h = unpaid _ t (refused why same)
  settle-Exchanges t req none same refused h =
      after_pay-Exchanges t req (env.paid (asked t)) (h (validate-IsTrusted env.rules req same))
        refl

  on_accepts-Exchanges :
      (t : List (CmcCall W)) (r : Response W) (body : JsValue W) (rs : List (PaymentRequirement W))
      → Challenged r t
      → r.body ≡ some body
      → env.read_accepts body ≡ rs
      → Exchanges (on_accepts env call hint rs (asked t)) t
  unfolding on_accepts
  on_accepts-Exchanges t r body [] c readable same =
      unpaid _ t (nothing_offered r body c readable same)
  on_accepts-Exchanges t r body (a ∷ rest) c readable same =
      settle-Exchanges t (pick env call hint a (a ∷ rest)) _ refl
        (λ e why. untrusted r body a rest e c readable same why)
        (λ trusted. record {
          challenge = r;
          challenged = c;
          body = body;
          readable = readable;
          first = a;
          others = rest;
          offered = same;
          picked = refl;
          trusted = trusted;
        })

  on_challenge-Exchanges :
      (t : List (CmcCall W)) (r : Response W) (body : Option (JsValue W))
      → Challenged r t
      → r.body ≡ body
      → Exchanges (on_challenge env call hint body (asked t)) t
  unfolding on_challenge
  on_challenge-Exchanges t r none c same = unpaid _ t (unreadable r c same)
  on_challenge-Exchanges t r (some body) c same =
      on_accepts-Exchanges t r body (env.read_accepts body) c same refl

  after_first-Exchanges :
      (t : List (CmcCall W)) (x : Result String (Response W))
      → env.fetched t ≡ x
      → (use_x402 env call hint ≡ true → env.enable_x402_outbound ≡ true)
      → Exchanges (after_first env call hint x (asked t)) t
  unfolding after_first
  after_first-Exchanges t (err e) same on = unpaid _ t (lost e same)
  after_first-Exchanges t (ok r) same on =
      elim (Bool-cases (use_x402 env call hint && r.status == 402)) [
        | inl e ↦ rw e (
            on_challenge-Exchanges t r r.body
              (record {
                over_x402 = ground (arith, e);
                enabled = on (ground (arith, e));
                answered = same;
                challenged = ground (arith, e);
              })
              refl)
        | inr e ↦ rw e (unpaid _ t (unchallenged r same e))
      ]

  -- A call sends nothing only where x402 is its one way and is not set up. Otherwise it sends one
  -- request. It pays exactly where that is answered with 402 over x402 and the requirement that is
  -- picked of those offered is trusted, and then once. If the payment fails, the call fails with its
  -- error and sends no more. If it goes through, the call sends the request again, with the proof that
  -- was paid for, and no more, and its answer is the one to that request.
  pub call_mcp-Exchange :
      (t : List (CmcCall W)) → let (r, after) = call_mcp env call hint t in Exchange r t after
  unfolding call_mcp
  call_mcp-Exchange t = elim (Bool-cases (use_x402 env call hint && not env.enable_x402_outbound)) [
    | inl e ↦ rw e (unsent _ t (ground (arith, e)) (ground (arith, e)))
    | inr e ↦ rw e (elim (Bool-cases (use_x402 env call hint && not env.has_pay_hook)) [
      | inl f ↦ rw f (unsent _ t (ground (arith, f)) (ground (arith, f)))
      | inr f ↦
          rw f (after_first-Exchanges t (env.fetched t) refl (λ over. ground (arith, e, over)))
    ])
  ]

  -- The amounts that are paid are not above `bound`.
  abbrev pub Capped : W → CmcCall W → Type 0
  Capped bound (request _ _ _ _) = Unit
  Capped bound (pay _ amount) = amount ≼ bound

  Exchange-Capped :
      {r : Answer env call hint} {t after : List (CmcCall W)}
      → ((req : PaymentRequirement W)
          → IsTrusted env.rules req
          → env.rules.ceil (amount_of env.rules req) ≼ env.rules.cap_atomic)
      → Exchange r t after
      → All (Capped env.rules.cap_atomic) t
      → All (Capped env.rules.cap_atomic) after
  Exchange-Capped cap (unsent e t u v) h = h
  Exchange-Capped cap (unpaid r t f) h = (tt, h)
  Exchange-Capped cap (unsettled e t req p f) h = (cap req p.trusted, (tt, h))
  Exchange-Capped cap (settled t req proof p f) h = (tt, (cap req p.trusted, (tt, h)))

  -- With a rounding up that keeps the order and does not move the cap, which is a whole number, no
  -- payment is above the cap, whatever the server asks for and the services answer. (A finite number
  -- is at most itself.)
  pub call_mcp-Capped :
      (laws : IsOrdered W) (t : List (CmcCall W))
      → ((x y : W) → x ≼ y → env.rules.ceil x ≼ env.rules.ceil y)
      → env.rules.ceil env.rules.cap_atomic ≡ env.rules.cap_atomic
      → env.rules.cap_atomic ≼ env.rules.cap_atomic
      → ((x : W) → num.is_finite x ≡ true → x ≼ x)
      → All (Capped env.rules.cap_atomic) t
      → All (Capped env.rules.cap_atomic) (call_mcp env call hint t).1
  call_mcp-Capped laws t mono whole cap finite =
      Exchange-Capped
        (λ req trusted.
          subst (λ c. env.rules.ceil (amount_of env.rules req) ≼ c) whole
            (mono _ _ (le_of_not_lt laws _ _ (finite _ trusted.finite_amount) cap trusted.capped)))
        (call_mcp-Exchange t)
