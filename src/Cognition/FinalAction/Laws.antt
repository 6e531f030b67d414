-- ===== src/Cognition/FinalAction/Laws.antt =====
-- What a session's final action can be.
use neurodegen.Common.{String, ◌≡◌, ◌≢◌, ◌⊎◌, ap, sym, ◌∙◌, true, false, none, some, List, arith}
use neurodegen.Common.Number.{Number, ◌≼◌}
use neurodegen.Types.{hold, close_position, ActionRecommendation}
use neurodegen.Cognition.{strong}
use neurodegen.Cognition.Rails.{ParsedRisk, enforce_safety_rails, has_symbol}
use neurodegen.Cognition.Rails.Laws.{enforce_safety_rails-acts}
use neurodegen.Cognition.FinalAction.{
  ActionConfig, ActionInputs, raw_size, size_collapsed_to_zero, effective_action, address_for,
  derive_final_action, explain_hold, explanation, collapsed,
}

module _ {W : Type 0} ⦃num : Number W⦄ (cfg : ActionConfig W) (i : ActionInputs W) where
  abbrev final : ActionRecommendation W
  final = derive_final_action cfg i

  -- A final hold carries no token, address, size or price targets. Any other final action is the
  -- classifier's own, with its token and the rounded size, and opens only with a size that is not at
  -- most a cent. The classifier's action is dropped only for such a size, and the explanation then
  -- names it.
  pub derive_final_action_lem :
      ((final.action ≡ hold)
        × (final.token_symbol ≡ none)
        × (final.token_address ≡ none)
        × (final.position_size_usd ≡ none)
        × (final.tp_percentage ≡ none)
        × (final.sl_percentage ≡ none)
        × ((i.risk.action ≡ hold)
            ⊎ ((raw_size cfg i ≼ num.hundredths 1)
                × (explanation cfg i ≡ collapsed i.risk.action))))
      ⊎ ((final.action ≢ hold)
          × (final.action ≡ i.risk.action)
          × (final.token_symbol ≡ i.risk.target_token)
          × (final.position_size_usd ≡ some (num.round2 (raw_size cfg i)))
          × ((final.action ≡ close_position)
              ⊎ (num.le (raw_size cfg i) (num.hundredths 1) ≡ false)))
  unfolding derive_final_action effective_action size_collapsed_to_zero address_for explanation
      explain_hold
  derive_final_action_lem = ground arith

  -- Through the rails and into the session: an action other than a hold means that the model chose it
  -- with enough confidence, that the analysts were not strongly opposed, that liquidity was adequate,
  -- and that its token, if it has one that is not empty, is in the list given to the classifier.
  pub session_acts :
      (min_confidence : W) (parsed : ParsedRisk W) (symbols : List String)
      → i.risk ≡ enforce_safety_rails min_confidence i.to_upper parsed i.dissent i.quant symbols
      → final.action ≢ hold
      → (final.action ≡ parsed.action)
        × (num.lt parsed.confidence min_confidence ≡ false)
        × (i.dissent.dissent_severity ≢ strong)
        × (i.quant.liquidity_adequate ≡ true)
        × ((token : String)
            → final.token_symbol ≡ some token
            → (token ≡ "") ⊎ (has_symbol i.to_upper symbols (i.to_upper token) ≡ true))
  session_acts min_confidence parsed symbols e acts =
      let own = kept acts in
      let railed =
        enforce_safety_rails-acts min_confidence i.to_upper parsed i.dissent i.quant symbols
          (λ held. acts (own.0 ∙ ap (λ r. r.action) e ∙ held)) in
      (
        own.0 ∙ ap (λ r. r.action) e ∙ railed.0,
        railed.1,
        railed.2,
        railed.3,
        λ token named.
            railed.5 token (sym railed.4 ∙ sym (ap (λ r. r.target_token) e) ∙ sym own.1 ∙ named),
      )
    where
      kept :
          final.action ≢ hold
          → (final.action ≡ i.risk.action) × (final.token_symbol ≡ i.risk.target_token)
      kept h = ground (arith, derive_final_action_lem)
