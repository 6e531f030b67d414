-- ===== src/Llm/Router/Repeat.antt =====
-- The same prompt twice: the second call is answered from the cache.
use mathlib.Core.Path.{subst}
use neurodegen.Common.{
  ℕ, ◌+◌, ◌≤◌, ◌≡◌, ◌≢◌, refl, ap, sym, ◌∙◌, String, true, false, none, some, List, [], ◌∷◌, arith,
  leb,
}
use neurodegen.Common.Number.{Number}
use neurodegen.Common.Calls.{Result, ok}
use neurodegen.Llm.Spend.{is_killed}
use neurodegen.Llm.PromptCache.{Cache, cache_get, cache_set}
use neurodegen.Llm.PromptCache.Laws.{cache_get-cache_set}
use neurodegen.Llm.Router.{
  Candidate, Routing, LlmResult, Prompt, Routed, Clock, RouterState, eligible, routed, on_lookup,
  route_first, route_eligible, route_committee_call,
}
use neurodegen.Llm.Router.Laws.{Route, from_cache, asked, route_eligible-Route}

module _ {W : Type 0} ⦃num : Number W⦄ (daily_limit_usd : W) (ttl : ℕ)
    (compute_key : String → String → String → String)
    (answer : List Candidate → Candidate → Result String LlmResult) (routing : Routing)
    (p : Prompt) where
  cached_after :
      (clock : Clock) (s s₁ : RouterState W) (t after : List Candidate)
      → (first : Candidate) (rest : List Candidate) (x : Routed)
      → Route daily_limit_usd ttl compute_key answer routing p clock s t
          (first ∷ rest)
          after
          (ok x, s₁)
      → after ≢ t
      → (c : Cache LlmResult) × (result : LlmResult) × (s₁.cache
          ≡ cache_set ttl c
              (compute_key p.system_prompt p.user_content first.model_id)
              result
              clock.stored_at)
        × (x.text ≡ result.text)
  cached_after clock s s₁ t after first rest x (from_cache _ _ result _ _ live hit text same)
        called =
      elim (called refl) [ ]
  cached_after clock s s₁ t after first rest x
        (asked _ _ _ none _ live miss tried (failed_all, same)) called =
      cc
  cached_after clock s s₁ t after first rest x
        (asked _ _ _
          (some (c, result))
          _
          live
          miss
          tried
          (y, is_y, text, model, route, count, state))
        called =
      (_, result, ap (λ s. s.cache) state, cc (is_y, text))

  -- A stored result is found again.
  found_again :
      (later : Clock) (s : RouterState W) (t : List Candidate)
      → (first : Candidate) (rest : List Candidate) (c : Cache LlmResult) (result : LlmResult)
      → (stored_at : ℕ) → ttl ≢ 0
      → s.cache
        ≡ cache_set ttl c
            (compute_key p.system_prompt p.user_content first.model_id)
            result
            stored_at
      → later.lookup_at ≤ stored_at + ttl
      → (is_killed daily_limit_usd s.spend later.budget_day).0 ≡ false
      → let again =
          route_eligible daily_limit_usd ttl compute_key answer routing p later
            (first ∷ rest)
            s
            t in
        (again.1 ≡ t) × ((y : Routed) × (again.0.0 ≡ ok y) × (y.text ≡ result.text))
  unfolding route_eligible route_first on_lookup routed
  found_again later s t first rest c result stored_at on is_set soon live =
      let key = compute_key p.system_prompt p.user_content first.model_id in
      let fresh : leb later.lookup_at (stored_at + ttl) ≡ true = ground (arith, soon) in
      let hit : (cache_get s.cache key later.lookup_at).0 ≡ some result =
        ap (λ m. (cache_get m key later.lookup_at).0) is_set
        ∙ (cache_get-cache_set ttl c key result stored_at later.lookup_at on ∙ rw fresh refl) in
      rw (live, hit) (refl, (_, refl, refl))

  repeats :
      (clock later : Clock) (s s₁ : RouterState W) (t after : List Candidate) (x : Routed)
      → (steps : List Candidate)
      → Route daily_limit_usd ttl compute_key answer routing p clock s t steps after (ok x, s₁)
      → ttl ≢ 0
      → after ≢ t
      → later.lookup_at ≤ clock.stored_at + ttl
      → (is_killed daily_limit_usd s₁.spend later.budget_day).0 ≡ false
      → let again =
          route_eligible daily_limit_usd ttl compute_key answer routing p later steps s₁ after in
        (again.1 ≡ after) × ((y : Routed) × (again.0.0 ≡ ok y) × (y.text ≡ x.text))
  repeats clock later s s₁ t after x [] route on called soon live = elim route [ ]
  repeats clock later s s₁ t after x (first ∷ rest) route on called soon live =
      let (c, result, is_set, text) = cached_after clock s s₁ t after first rest x route called in
      let (same, (y, is_y, text')) =
        found_again later s₁ after first rest c result clock.stored_at on is_set soon live in
      (same, (y, is_y, text' ∙ sym text))

  -- After a call that asked a model and was answered, the same prompt within the time to live is
  -- answered with the same text and asks no model, if the day's limit is not reached then.
  pub route_committee_call-repeat :
      (clock later : Clock) (s : RouterState W) (t : List Candidate) (x : Routed)
      → let out = route_committee_call daily_limit_usd ttl compute_key answer routing p clock s t in
        let again =
          route_committee_call daily_limit_usd ttl compute_key answer routing p later out.0.1
            out.1 in
        ttl ≢ 0
        → out.0.0 ≡ ok x
        → out.1 ≢ t
        → later.lookup_at ≤ clock.stored_at + ttl
        → (is_killed daily_limit_usd out.0.1.spend later.budget_day).0 ≡ false
        → (again.1 ≡ out.1) × ((y : Routed) × (again.0.0 ≡ ok y) × (y.text ≡ x.text))
  unfolding route_committee_call
  route_committee_call-repeat clock later s t x on answered_x called soon live =
      let steps = eligible routing p.member in
      let out = route_eligible daily_limit_usd ttl compute_key answer routing p clock steps s t in
      repeats clock later s out.0.1 t out.1 x steps
        (subst
          (λ r.
            Route daily_limit_usd ttl compute_key answer routing p clock s t steps out.1
              (r, out.0.1))
          answered_x
          (route_eligible-Route daily_limit_usd ttl compute_key answer routing p clock s t steps))
        on called soon live
