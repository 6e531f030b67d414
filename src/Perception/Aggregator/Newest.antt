-- ===== src/Perception/Aggregator/Newest.antt =====
-- Which event of a token the maps of the aggregation keep.
use package.text.Mathlib.Text.{◌==◌ as str_eq}
use package.text.Mathlib.TextEquality.{eq_iff}
use neurodegen.Common.{
  ℕ, ◌≤◌, ◌≡◌, ◌⊎◌, inl, inr, refl, String, Option, none, some, List, [], ◌∷◌, arith, ltb,
  if◌then◌else◌, ◌↔◌, ap, Bool-cases,
}
use neurodegen.Common.OrderedMap.{OrderedMap, get, get-set}
use neurodegen.Perception.Aggregator.{
  Quote, MarketEvent, quote_update, Stamped, supersedes, keep_newer, Latest, nothing_yet,
  take_event, take_all,
}

assoc : {A B C : Type 0} → ((A ⊎ B) ⊎ C) ↔ (A ⊎ (B ⊎ C))
assoc = (
  λ h. elim h [ inl k ↦ elim k [ inl a ↦ inl a | inr b ↦ inr (inl b) ] | inr c ↦ inr (inr c) ],
  λ h. elim h [ inl a ↦ inl (inl a) | inr k ↦ elim k [ inl b ↦ inl (inr b) | inr c ↦ inr c ] ],
)

module _ {W : Type 0} where
  -- The quote of the token that the event is, with its time.
  abbrev pub QuoteOf : String → Stamped (Quote W) → ℕ × MarketEvent W → Type 0
  QuoteOf key q (t, quote_update r) = (r.token_symbol ≡ key) × (q ≡ (t, r))
  QuoteOf key q (t, _) = ⊥

  -- The quotes of the token among the events.
  abbrev pub Quotes : String → Stamped (Quote W) → List (ℕ × MarketEvent W) → Type 0
  Quotes key q [] = ⊥
  Quotes key q (e ∷ es) = QuoteOf key q e ⊎ Quotes key q es

  -- `o` is a newest one of the quotes that `Q` holds of, or none where there are none.
  pub record IsNewest (Q : Stamped (Quote W) → Type 0) (o : Option (Stamped (Quote W)))
      : Type 0 where
    pub held : (q : Stamped (Quote W)) → o ≡ some q → Q q
    pub newest :
        (q : Stamped (Quote W)) → Q q → (r : Stamped (Quote W)) × (o ≡ some r) × (q.0 ≤ r.0)

  map-IsNewest :
      {P Q : Stamped (Quote W) → Type 0} {o : Option (Stamped (Quote W))}
      → ((q : Stamped (Quote W)) → P q ↔ Q q)
      → IsNewest P o
      → IsNewest Q o
  map-IsNewest f g = record {
    held = λ q h. (f q).0 (g.held q h);
    newest = λ q h. g.newest q ((f q).1 h);
  }

  get-keep_newer :
      (key k : String) (new : Stamped (Quote W)) (m : OrderedMap (Stamped (Quote W)))
      → get key (keep_newer k new m) ≡ (
          if str_eq k key
          then if supersedes new (get key m) then some new else get key m
          else get key m)
  get-keep_newer key k new m = ground (arith, get-set k key new m, eq_iff k key)

  -- The newest with one more quote.
  supersede-IsNewest :
      {Q : Stamped (Quote W) → Type 0} (o : Option (Stamped (Quote W))) (new : Stamped (Quote W))
      → IsNewest Q o
      → IsNewest (λ q. Q q ⊎ (q ≡ new)) (if supersedes new o then some new else o)
  supersede-IsNewest none new g = record {
    held = λ q h. inr (ground (arith, h));
    newest = λ q h. elim h [
      | inl k ↦ let (r, e, l) = g.newest q k in ground (arith, e)
      | inr e ↦ (new, refl, rw e (omega arith))
    ];
  }
  supersede-IsNewest (some old) new g = elim (Bool-cases (ltb old.0 new.0)) [
    | inl e ↦ rw e (record {
      held = λ q h. inr (ground (arith, h));
      newest = λ q h. elim h [
        | inl k ↦ let (r, d, l) = g.newest q k in (new, refl, ground (arith, d, l, e))
        | inr d ↦ (new, refl, rw d (omega arith))
      ];
    })
    | inr e ↦ rw e (record {
      held = λ q h. inl (g.held q h);
      newest =
          λ q h. elim h [ inl k ↦ g.newest q k | inr d ↦ (old, refl, rw d (ground (arith, e))) ];
    })
  ]

  widen :
      {A B : Type 0} (Q : Stamped (Quote W) → Type 0) (q : Stamped (Quote W))
      → A
      → (Q q ⊎ B) ↔ (Q q ⊎ (A × B))
  widen Q q a = (
    λ h. elim h [ inl k ↦ inl k | inr b ↦ inr (a, b) ],
    λ h. elim h [ inl k ↦ inl k | inr b ↦ inr b.1 ],
  )

  -- One event of the loop.
  take_event-IsNewest :
      (key : String) (Q : Stamped (Quote W) → Type 0) (e : ℕ × MarketEvent W) (l : Latest W)
      → IsNewest Q (get key l.quotes)
      → IsNewest (λ q. Q q ⊎ QuoteOf key q e) (get key (take_event e l).quotes)
  take_event-IsNewest key Q (t, quote_update r) l g =
      elim (Bool-cases (str_eq r.token_symbol key)) [
        | inl e ↦
            rw (get-keep_newer key r.token_symbol (t, r) l.quotes, e)
              (map-IsNewest (λ q. widen Q q ((eq_iff r.token_symbol key).0 e))
                (supersede-IsNewest (get key l.quotes) (t, r) g))
        | inr e ↦
            rw (get-keep_newer key r.token_symbol (t, r) l.quotes, e)
              (map-IsNewest
                (λ q. (λ h. inl h, λ h. ground (arith, h, e, eq_iff r.token_symbol key))) g)
      ]
  take_event-IsNewest key Q (t, _) l g = map-IsNewest (λ q. (λ h. inl h, λ h. ground (arith, h))) g

  take_all-IsNewest :
      (es : List (ℕ × MarketEvent W)) (key : String) (Q : Stamped (Quote W) → Type 0) (l : Latest W)
      → IsNewest Q (get key l.quotes)
      → IsNewest (λ q. Q q ⊎ Quotes key q es) (get key (take_all es l).quotes)
  unfolding take_all
  take_all-IsNewest [] key Q l g = map-IsNewest (λ q. (λ h. inl h, λ h. ground (arith, h))) g
  take_all-IsNewest (e ∷ es) key Q l g =
      map-IsNewest (λ q. assoc)
        (take_all-IsNewest es key _ (take_event e l) (take_event-IsNewest key Q e l g))

  -- What the aggregation keeps of a token is one of its quotes, with no later one among the events;
  -- it keeps none only where there is none.
  quotes-IsNewest :
      (key : String) (es : List (ℕ × MarketEvent W))
      → IsNewest (λ q. Quotes key q es) (get key (take_all es nothing_yet).quotes)
  unfolding get
  quotes-IsNewest key es =
      map-IsNewest (λ q. (λ h. ground (arith, h), λ h. inr h))
        (take_all-IsNewest es key (λ q. ⊥) nothing_yet
          (record { held = λ q h. ground (arith, h); newest = λ q h. elim h [ ] }))

  newest_unique :
      {P : Stamped (Quote W) → Type 0} (o p : Option (Stamped (Quote W)))
      → IsNewest P o
      → IsNewest P p
      → ((q r : Stamped (Quote W)) → P q → P r → q.0 ≡ r.0 → q ≡ r)
      → o ≡ p
  newest_unique none none f g timed = refl
  newest_unique none (some r) f g timed =
      let (s, e, l) = f.newest r (g.held r refl) in ground (arith, e)
  newest_unique (some q) none f g timed =
      let (s, e, l) = g.newest q (f.held q refl) in ground (arith, e)
  newest_unique (some q) (some r) f g timed =
      let hq = f.held q refl in
      let hr = g.held r refl in
      let (s, e, l) = f.newest r hr in
      let (u, d, m) = g.newest q hq in
      let at : q.0 ≡ r.0 = ground (arith, e, l, d, m) in ap some (timed q r hq hr at)

  -- No two quotes of the token have the same time.
  abbrev pub IsTimed : String → List (ℕ × MarketEvent W) → Type 0
  IsTimed key es = (q r : Stamped (Quote W)) → Quotes key q es → Quotes key r es → q.0 ≡ r.0 → q ≡ r

  -- The order in which a token's quotes arrive does not count, as long as no two of them have the same
  -- time: two windows of events with the same quotes of the token keep the same one.
  pub quotes-arrival :
      (key : String) (es fs : List (ℕ × MarketEvent W))
      → IsTimed key es
      → ((q : Stamped (Quote W)) → Quotes key q es ↔ Quotes key q fs)
      → get key (take_all es nothing_yet).quotes ≡ get key (take_all fs nothing_yet).quotes
  quotes-arrival key es fs timed same =
      newest_unique _ _ (quotes-IsNewest key es)
        (map-IsNewest (λ q. ((same q).1, (same q).0)) (quotes-IsNewest key fs)) timed
