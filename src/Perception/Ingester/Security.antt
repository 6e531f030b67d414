-- ===== src/Perception/Ingester/Security.antt =====
-- What the paid security check pays for and counts.
use neurodegen.Common.{
  ℕ, suc, ◌+◌, ◌≤◌, ◌≡◌, refl, String, true, false, Option, none, some, List, [], ◌∷◌, arith, ap,
  get_or, Bool-cases, inl, inr,
}
use neurodegen.Common.Number.{Number}
use neurodegen.Common.Calls.{ok, err}
use neurodegen.Cognition.{RegimeLabel}
use neurodegen.Cmc.{CmcCall, request, pay}
use neurodegen.Cmc.Call.{call_mcp}
use neurodegen.Cmc.Exchange.{Exchange, unsent, unpaid, unsettled, settled, call_mcp-Exchange}
use neurodegen.Perception.EvGate.{EvDecision, X402Spend, record_spend}
use neurodegen.Perception.Normalizer.{SecurityEvent}
use neurodegen.Perception.Normalizer.Quotes.{normalize_security}
use neurodegen.Perception.Ingester.{
  Perceived, IngesterEnv, security_checked, record_event, security_call, SecurityOutcome, Answer,
  ev_decision, unchanged, with_event, with_answer, ensure_security_check,
}

abbrev pub payments : {W : Type 0} → List (CmcCall W) → ℕ
payments [] = 0
payments (request _ _ _ _ ∷ t) = payments t
payments (pay _ _ ∷ t) = suc (payments t)

module _ {W : Type 0} ⦃num : Number W⦄ (env : IngesterEnv W) where
  -- The tracker counts the check, and the event is recorded, exactly where the check gives an event.
  pub record Accounted (d : EvDecision W) (p : Perceived W) (spend : X402Spend W)
      (o : SecurityOutcome W) : Type 0 where
    pub by_decision : o.decision ≡ d
    pub without_event : o.event ≡ none → (o.perceived ≡ p) × (o.spend ≡ spend)
    pub with_one :
        (e : SecurityEvent W)
        → o.event ≡ some e
        → (o.perceived ≡ record_event env (security_checked e) p)
          × (o.spend ≡ record_spend spend env.today d)

  unchanged-Accounted :
      (d : EvDecision W) (p : Perceived W) (spend : X402Spend W)
      → Accounted d p spend (unchanged env d p spend)
  unchanged-Accounted d p spend = record {
    by_decision = refl;
    without_event = λ h. (refl, refl);
    with_one = λ e h. ground (arith, h);
  }

  with_event-Accounted :
      (d : EvDecision W) (p : Perceived W) (spend : X402Spend W) (o : Option (SecurityEvent W))
      → Accounted d p spend (with_event env d p spend o)
  with_event-Accounted d p spend none = unchanged-Accounted d p spend
  with_event-Accounted d p spend (some e) = record {
    by_decision = refl;
    without_event = λ h. ground (arith, h);
    with_one = λ f h.
        let same = ap (λ o. get_or o e) h in
        (ap (λ x. record_event env (security_checked x) p) same, refl);
  }

  with_event-event :
      (d : EvDecision W) (p : Perceived W) (spend : X402Spend W) (o : Option (SecurityEvent W))
      → (with_event env d p spend o).event ≡ o
  with_event-event d p spend none = refl
  with_event-event d p spend (some e) = refl

  with_answer-Accounted :
      (d : EvDecision W) (p : Perceived W) (spend : X402Spend W) (answer : Answer env)
      → Accounted d p spend (with_answer env d p spend answer)
  with_answer-Accounted d p spend (err e) = unchanged-Accounted d p spend
  with_answer-Accounted d p spend (ok r) =
      with_event-Accounted d p spend (normalize_security env.schemas r.data_of)

  Exchange-payments :
      (address : String) (symbol : Option String) {r : Answer env} {t after : List (CmcCall W)}
      → Exchange env.cmc (security_call env address symbol) true r t after
      → payments after ≤ payments t + 1
  Exchange-payments address symbol (unsent e t u v) = omega arith
  Exchange-payments address symbol (unpaid r t f) = omega arith
  Exchange-payments address symbol (unsettled e t req p f) = omega arith
  Exchange-payments address symbol (settled t req proof p f) = omega arith

  -- What an answer of the server gives.
  abbrev pub event_in : Answer env → Option (SecurityEvent W)
  event_in (err e) = none
  event_in (ok r) = normalize_security env.schemas r.data_of

  with_answer-event :
      (d : EvDecision W) (p : Perceived W) (spend : X402Spend W) (answer : Answer env)
      → (with_answer env d p spend answer).event ≡ event_in answer
  with_answer-event d p spend (err e) = refl
  with_answer-event d p spend (ok r) =
      with_event-event d p spend (normalize_security env.schemas r.data_of)

  -- A security check that the gate refuses calls nothing and changes nothing. One that it lets through
  -- makes the one paid call for the token, pays once at most, and gives the event that is in the
  -- answer, if there is one. The tracker of what was spent counts the check, and the event is recorded,
  -- exactly where it gives an event; in all other cases neither changes, also where a payment was made.
  pub ensure_security_check-Accounted :
      (address : String) (symbol : Option String) (regime : RegimeLabel) (magnitude : W)
      (p : Perceived W) (spend : X402Spend W) (t : List (CmcCall W))
      → let d = ev_decision env regime magnitude in
        let (answer, called) = call_mcp env.cmc (security_call env address symbol) true t in
        let (o, after) = ensure_security_check env address symbol regime magnitude p spend t in
        Accounted d p spend o
        × (payments after ≤ payments t + 1)
        × (d.should_fetch_premium ≡ false → (after ≡ t) × (o.event ≡ none))
        × (d.should_fetch_premium ≡ true → (after ≡ called) × (o.event ≡ event_in answer))
  unfolding ensure_security_check
  ensure_security_check-Accounted address symbol regime magnitude p spend t =
      elim (Bool-cases (ev_decision env regime magnitude).should_fetch_premium) [
        | inl e ↦ simp e (
            let call = security_call env address symbol in
            (
              with_answer-Accounted (ev_decision env regime magnitude) p spend
                  (call_mcp env.cmc call true t).0,
              Exchange-payments address symbol (call_mcp-Exchange env.cmc call true t),
              λ h. ground (arith, h),
              λ h. (
                refl,
                with_answer-event (ev_decision env regime magnitude) p spend
                    (call_mcp env.cmc call true t).0,
              ),
            ))
        | inr e ↦ simp e (
            (
              unchanged-Accounted (ev_decision env regime magnitude) p spend,
              omega arith,
              λ h. (refl, refl),
              λ h. ground (arith, h),
            ))
      ]
