-- ===== src/Tracker/Price.antt =====
-- `pickLatestCmcPrice`: the price of the newest quote.
use text.Mathlib.Text.{◌==◌ as str_eq}
use neurodegen.Common.{
  ℕ, ◌≤◌, ◌≡◌, ◌⊎◌, refl, ap, ◌∙◌, inl, inr, String, true, ◌&&◌, Option, none, some, List, [], ◌∷◌,
  arith, Bool-cases, All,
}
use mathlib.Core.Path.{subst}
use neurodegen.Common.Number.{Number}
use neurodegen.Perception.HotState.{PerceptionEvent}
use neurodegen.Tracker.{
  Payload, quote, not_a_quote, newer, after_event, latest_of, price_of, pick_latest_cmc_price,
}

module _ {W : Type 0} ⦃num : Number W⦄ (to_upper : String → String) where
  -- The event is a quote of the symbol, without regard to case, at this price.
  pub record IsQuoteOf (symbol : String) (price : W) (e : PerceptionEvent (Payload W))
      : Type 0 where
    pub name : String
    pub quoted : e.payload ≡ quote name price
    pub matches : str_eq (to_upper name) (to_upper symbol) ≡ true

  pub data Has (P : PerceptionEvent (Payload W) → Type 0)
      : List (PerceptionEvent (Payload W)) → Type 0 where
    here :
        (e : PerceptionEvent (Payload W)) (es : List (PerceptionEvent (Payload W)))
        → P e
        → Has P (e ∷ es)
    there :
        (e : PerceptionEvent (Payload W)) (es : List (PerceptionEvent (Payload W)))
        → Has P es
        → Has P (e ∷ es)

  -- A price with its time, which no quote of the symbol outdates.
  abbrev Covers : Option (W × ℕ) → ℕ → Type 0
  Covers none time = ⊥
  Covers (some (price, at)) time = time ≤ at

  abbrev Grows : Option (W × ℕ) → Option (W × ℕ) → Type 0
  Grows latest later = (time : ℕ) → Covers latest time → Covers later time

  module _ (symbol : String) where
    after_event-Grows :
        (e : PerceptionEvent (Payload W)) (payload : Payload W) (latest : Option (W × ℕ))
        → Grows latest (after_event to_upper (to_upper symbol) e payload latest)
    unfolding after_event
    after_event-Grows e not_a_quote latest time h = h
    after_event-Grows e (quote name price) none time h = elim h [ ]
    after_event-Grows e (quote name price) (some (old, at)) time h = ground arith

    after_event-Covers :
        (e : PerceptionEvent (Payload W)) (payload : Payload W) (latest : Option (W × ℕ))
        → (name : String) (price : W) → payload ≡ quote name price
        → str_eq (to_upper name) (to_upper symbol) ≡ true
        → Covers (after_event to_upper (to_upper symbol) e payload latest) e.timestamp
    unfolding after_event
    after_event-Covers e payload none name price quoted matches = rw (quoted, matches) (omega arith)
    after_event-Covers e payload (some (old, at)) name price quoted matches =
        rw (quoted, matches) (ground arith)

    latest_of-Grows :
        (es : List (PerceptionEvent (Payload W))) (latest : Option (W × ℕ))
        → Grows latest (latest_of to_upper (to_upper symbol) es latest)
    unfolding latest_of
    latest_of-Grows [] latest time h = h
    latest_of-Grows (e ∷ es) latest time h =
        latest_of-Grows es (after_event to_upper (to_upper symbol) e e.payload latest) time
          (after_event-Grows e e.payload latest time h)

    latest_of-Covers :
        (es : List (PerceptionEvent (Payload W))) (latest : Option (W × ℕ))
        → All
            (λ e.
              (price : W)
              → IsQuoteOf symbol price e
              → Covers (latest_of to_upper (to_upper symbol) es latest) e.timestamp)
            es
    unfolding latest_of
    latest_of-Covers [] latest = tt
    latest_of-Covers (e ∷ es) latest =
        let after = after_event to_upper (to_upper symbol) e e.payload latest in
        (
          λ price q.
              latest_of-Grows es after e.timestamp
                (after_event-Covers e e.payload latest q.name price q.quoted q.matches),
          latest_of-Covers es after,
        )

    after_event-source :
        (e : PerceptionEvent (Payload W)) (payload : Payload W) (latest : Option (W × ℕ))
        → let after = after_event to_upper (to_upper symbol) e payload latest in
          (after ≡ latest)
          ⊎ ((name : String) × (price : W) × (payload ≡ quote name price)
              × (str_eq (to_upper name) (to_upper symbol) ≡ true)
              × (after ≡ some (price, e.timestamp)))
    unfolding after_event
    after_event-source e not_a_quote latest = inl refl
    after_event-source e (quote name price) latest =
        elim (Bool-cases
          (str_eq (to_upper name) (to_upper symbol) && newer to_upper latest e.timestamp)) [
            | inr skipped ↦ rw skipped (inl refl)
            | inl taken ↦ rw taken (inr (name, price, refl, ground (arith, taken), refl))
          ]

    -- the event that a price comes from
    abbrev pub Source : W → ℕ → PerceptionEvent (Payload W) → Type 0
    Source price at e = IsQuoteOf symbol price e × (e.timestamp ≡ at)

    abbrev From : List (PerceptionEvent (Payload W)) → Option (W × ℕ) → Option (W × ℕ) → Type 0
    From es latest out =
        (out ≡ latest)
        ⊎ ((price : W) × (at : ℕ) × (out ≡ some (price, at)) × Has (Source price at) es)

    latest_of-From :
        (es : List (PerceptionEvent (Payload W))) (latest : Option (W × ℕ))
        → From es latest (latest_of to_upper (to_upper symbol) es latest)
    unfolding latest_of
    latest_of-From [] latest = inl refl
    latest_of-From (e ∷ es) latest =
        let after = after_event to_upper (to_upper symbol) e e.payload latest in
        elim (latest_of-From es after) [
          | inr (price, at, is_at, later) ↦ inr (price, at, is_at, there e es later)
          | inl kept ↦ elim (after_event-source e e.payload latest) [
            | inl same ↦ inl (kept ∙ same)
            | inr (name, price, quoted, matches, is_new) ↦ inr (
              price,
              e.timestamp,
              kept ∙ is_new,
              here e es (record { name = name; quoted = quoted; matches = matches }, refl),
            )
          ]
        ]

    -- The price is that of a quote of the symbol, without regard to case, that no other quote of the
    -- symbol is newer than; there is none exactly when nothing quotes the symbol.
    pub pick_latest_cmc_price-newest :
        (es : List (PerceptionEvent (Payload W)))
        → ((pick_latest_cmc_price to_upper es symbol ≡ none)
            × All (λ e. (price : W) → ¬ IsQuoteOf symbol price e) es)
          ⊎ ((price : W) × (at : ℕ) × (pick_latest_cmc_price to_upper es symbol ≡ some price)
              × Has (Source price at) es
              × All (λ e. (q : W) → IsQuoteOf symbol q e → e.timestamp ≤ at) es)
    unfolding pick_latest_cmc_price
    pick_latest_cmc_price-newest es =
        go (latest_of to_upper (to_upper symbol) es none) (latest_of-From es none)
          (latest_of-Covers es none)
      where
        go :
            (o : Option (W × ℕ))
            → From es none o
            → All (λ e. (price : W) → IsQuoteOf symbol price e → Covers o e.timestamp) es
            → ((price_of to_upper o ≡ none)
                × All (λ e. (price : W) → ¬ IsQuoteOf symbol price e) es)
              ⊎ ((price : W) × (at : ℕ) × (price_of to_upper o ≡ some price)
                  × Has (Source price at) es
                  × All (λ e. (q : W) → IsQuoteOf symbol q e → e.timestamp ≤ at) es)
        go none from covers = inl (refl, covers)
        go (some (price, at)) (inl e) covers = cc
        go (some (price, at)) (inr (price', at', e, has)) covers = inr (
          price',
          at',
          ap (price_of to_upper) e,
          has,
          subst (λ o. All (λ d. (q : W) → IsQuoteOf symbol q d → Covers o d.timestamp) es) e covers,
        )
