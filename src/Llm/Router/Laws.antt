-- ===== src/Llm/Router/Laws.antt =====
-- Which models a routed call asks, in which order, and what it leaves in the tracker and the cache.
use neurodegen.Common.{
  ℕ, ◌+◌, ◌≡◌, refl, String, true, false, Option, none, some, List, [], ◌∷◌, ◌++◌, arith, length,
  length-append, Bool-cases, inl, inr,
}
use neurodegen.Common.Number.{Number}
use neurodegen.Common.Calls.{Result, ok, err, Act}
use neurodegen.Llm.Spend.{is_killed, record_call}
use neurodegen.Llm.PromptCache.{cache_get, cache_set}
use neurodegen.Llm.Router.{
  Candidate, Routing, LlmResult, Prompt, Attempt, Routed, no_eligible_candidate, daily_limit_hit,
  all_failed, Clock, RouterState, eligible, failed_attempt, routed, Reply, after_call, try_each,
  on_lookup, route_first, route_eligible, route_committee_call,
}

-- The candidates are called in order, newest first, up to the first that answers.
pub data Tried (answer : List Candidate → Candidate → Result String LlmResult)
    : List Candidate
      → List Candidate
      → List Candidate
      → Option (Candidate × LlmResult)
      → Type 0 where
  none_left : (t : List Candidate) → Tried answer [] t t none
  answered :
      (c : Candidate) (rest t : List Candidate) (result : LlmResult)
      → answer t c ≡ ok result
      → Tried answer (c ∷ rest) t (c ∷ t) (some (c, result))
  failed :
      (c : Candidate) (rest t : List Candidate) (e : String) {after : List Candidate}
      {o : Option (Candidate × LlmResult)}
      → answer t c ≡ err e
      → Tried answer rest (c ∷ t) after o
      → Tried answer (c ∷ rest) t after o

module _ {W : Type 0} ⦃num : Number W⦄ (daily_limit_usd : W) (ttl : ℕ)
    (compute_key : String → String → String → String)
    (answer : List Candidate → Candidate → Result String LlmResult) (routing : Routing)
    (p : Prompt) where
  -- With no answer the state is as it was. An answer is returned, recorded once under the model that
  -- gave it, and cached; there is one attempt for each call.
  abbrev pub IsSettled :
      Clock
      → String
      → RouterState W
      → List Attempt
      → List Candidate
      → List Candidate
      → Option (Candidate × LlmResult)
      → Reply × RouterState W
      → Type 0
  IsSettled clock key s attempts t after none (r, s') = (r ≡ err all_failed) × (s' ≡ s)
  IsSettled clock key s attempts t after (some (c, result)) (r, s') =
      (x : Routed) × (r ≡ ok x)
      × (x.text ≡ result.text)
      × (x.model_id ≡ result.model_id)
      × (x.routing_decision ≡ c.routing_decision)
      × (length x.attempts + length t ≡ length attempts + length after)
      × (s' ≡ record {
        cache = cache_set ttl s.cache key result clock.stored_at;
        spend =
            record_call daily_limit_usd s.spend clock.record_day c.model_id result.input_tokens
              result.output_tokens;
      })

  module _ (clock : Clock) (key : String) (s : RouterState W) where
    abbrev Settles :
        List Candidate
        → List Attempt
        → List Candidate
        → (Reply × RouterState W) × List Candidate
        → Type 0
    Settles steps attempts t out =
        (o : Option (Candidate × LlmResult)) × Tried answer steps t out.1 o
        × IsSettled clock key s attempts t out.1 o out.0

    weaken :
        (a : Attempt) (attempts : List Attempt) (c : Candidate) (t after : List Candidate)
        → (o : Option (Candidate × LlmResult)) (out : Reply × RouterState W)
        → IsSettled clock key s (attempts ++ a ∷ []) (c ∷ t) after o out
        → IsSettled clock key s attempts t after o out
    weaken a attempts c t after none out h = h
    weaken a attempts c t after (some (d, result)) out (x, is_x, text, model, route, count, state) =
        (x, is_x, text, model, route, omega (arith, count, length-append attempts (a ∷ [])), state)

    after_call-Settles :
        (c : Candidate) (rest : List Candidate) (attempts : List Attempt)
        → (again : List Attempt → Act Candidate (Reply × RouterState W)) (t : List Candidate)
        → (reply : Result String LlmResult) → answer t c ≡ reply
        → ((more : List Attempt) (t' : List Candidate) → Settles rest more t' (again more t'))
        → Settles (c ∷ rest) attempts t (
            after_call daily_limit_usd ttl compute_key answer routing p clock key c attempts s again
              reply
              (c ∷ t))
    unfolding after_call routed
    after_call-Settles c rest attempts again t (ok result) e ih = (
      some (c, result),
      answered c rest t result e,
      (_, refl, refl, refl, refl, omega (arith, length-append attempts (_ ∷ [])), refl),
    )
    after_call-Settles c rest attempts again t (err m) e ih =
        let (o, tried, settled) = ih (attempts ++ failed_attempt c p m ∷ []) (c ∷ t) in
        (o, failed c rest t m e tried, weaken _ attempts c t _ o _ settled)

    try_each-Settles :
        (steps : List Candidate) (attempts : List Attempt) (t : List Candidate)
        → Settles steps attempts t
            (try_each daily_limit_usd ttl compute_key answer routing p clock key s steps attempts t)
    unfolding try_each
    try_each-Settles [] attempts t = (none, none_left t, (refl, refl))
    try_each-Settles (c ∷ rest) attempts t =
        after_call-Settles c rest attempts _ t (answer t c) refl (try_each-Settles rest)

  -- What a routed call does, from the eligible candidates, the state and the calls before it.
  pub data Route (clock : Clock) (s : RouterState W) (t : List Candidate)
      : List Candidate → List Candidate → Reply × RouterState W → Type 0 where
    no_key : Route clock s t [] t (err no_eligible_candidate, s)
    over_budget :
        (first : Candidate) (rest : List Candidate)
        → (is_killed daily_limit_usd s.spend clock.budget_day).0 ≡ true
        → Route clock s t (first ∷ rest) t (
          err daily_limit_hit,
          record s { spend = (is_killed daily_limit_usd s.spend clock.budget_day).1 },
        )
    from_cache :
        (first : Candidate) (rest : List Candidate) (result : LlmResult) (x : Routed)
        (s' : RouterState W)
        → (is_killed daily_limit_usd s.spend clock.budget_day).0 ≡ false
        → (cache_get s.cache
            (compute_key p.system_prompt p.user_content first.model_id)
            clock.lookup_at).0
          ≡ some result
        → x.text ≡ result.text
        → s'.spend ≡ (is_killed daily_limit_usd s.spend clock.budget_day).1
        → Route clock s t (first ∷ rest) t (ok x, s')
    asked :
        (first : Candidate) (rest after : List Candidate) (o : Option (Candidate × LlmResult))
        (out : Reply × RouterState W)
        → (is_killed daily_limit_usd s.spend clock.budget_day).0 ≡ false
        → (cache_get s.cache
            (compute_key p.system_prompt p.user_content first.model_id)
            clock.lookup_at).0
          ≡ none
        → Tried answer (first ∷ rest) t after o
        → IsSettled clock
            (compute_key p.system_prompt p.user_content first.model_id)
            (record {
              cache =
                  (cache_get s.cache
                    (compute_key p.system_prompt p.user_content first.model_id)
                    clock.lookup_at).1;
              spend = (is_killed daily_limit_usd s.spend clock.budget_day).1;
            })
            []
            t
            after
            o
            out
        → Route clock s t (first ∷ rest) after out

  module _ (clock : Clock) (s : RouterState W) (t : List Candidate) where
    on_lookup-Route :
        (first : Candidate) (rest : List Candidate) (hit : Option LlmResult)
        → (is_killed daily_limit_usd s.spend clock.budget_day).0 ≡ false
        → let key = compute_key p.system_prompt p.user_content first.model_id in
          (cache_get s.cache key clock.lookup_at).0 ≡ hit
          → let out =
              on_lookup daily_limit_usd ttl compute_key answer routing p clock key first rest
                (record {
                  cache = (cache_get s.cache key clock.lookup_at).1;
                  spend = (is_killed daily_limit_usd s.spend clock.budget_day).1;
                })
                hit
                t in
            Route clock s t (first ∷ rest) out.1 out.0
    unfolding on_lookup routed
    on_lookup-Route first rest (some result) live looked =
        from_cache first rest result _ _ live looked refl refl
    on_lookup-Route first rest none live looked =
        let (o, tried, settled) =
          try_each-Settles clock (compute_key p.system_prompt p.user_content first.model_id) _
            (first ∷ rest) [] t in
        asked first rest _ o _ live looked tried settled

    pub route_eligible-Route :
        (steps : List Candidate)
        → let out =
            route_eligible daily_limit_usd ttl compute_key answer routing p clock steps s t in
          Route clock s t steps out.1 out.0
    unfolding route_eligible route_first
    route_eligible-Route [] = no_key
    route_eligible-Route (first ∷ rest) =
        elim (Bool-cases (is_killed daily_limit_usd s.spend clock.budget_day).0) [
          | inl killed ↦ rw killed (over_budget first rest killed)
          | inr live ↦ rw live (on_lookup-Route first rest _ live refl)
        ]

    -- With no key no model is asked, and none is once the day's limit has switched calls off. Otherwise
    -- a cached result is returned without a call; without one the candidates that pass their preflight
    -- are asked in order up to the first that answers, with one attempt in the record for each. If one
    -- answers, its text is returned, and the call is recorded once, under its model, and cached; if
    -- none does, the call fails and neither records nor caches anything.
    pub route_committee_call-Route :
        let out = route_committee_call daily_limit_usd ttl compute_key answer routing p clock s t in
        Route clock s t (eligible routing p.member) out.1 out.0
    unfolding route_committee_call
    route_committee_call-Route = route_eligible-Route (eligible routing p.member)
