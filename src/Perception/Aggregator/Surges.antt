-- ===== src/Perception/Aggregator/Surges.antt =====
-- How many tokens surge: the count that the regime classifier reads.
use package.text.Mathlib.Text.{◌==◌ as str_eq}
use package.text.Mathlib.TextEquality.{eq_iff}
use mathlib.Core.Path.{subst}
use neurodegen.Common.{
  ℕ, suc, ◌+◌, ◌≡◌, refl, String, Bool, none, List, [], ◌∷◌, arith, length, filter, map,
  if◌then◌else◌, Bool-cases, inl, inr,
}
use neurodegen.Common.Number.{Number}
use neurodegen.Common.OrderedMap.{OrderedMap, get, set, get-set}
use neurodegen.Perception.Aggregator.{
  Quote, MarketEvent, quote_update, Stamped, supersedes, keep_newer, Latest, nothing_yet, take_all,
  put_ranked, rank_onto, is_surging, latest_quotes, active_surge_tokens,
}

module _ {W : Type 0} ⦃num : Number W⦄ where
  abbrev count : (Quote W → Bool) → List (Quote W) → ℕ
  count p qs = length (filter p qs)

  count-put_ranked :
      (p : Quote W → Bool) (q : Quote W) (qs : List (Quote W))
      → count p (put_ranked q qs) ≡ count p (q ∷ qs)
  count-put_ranked p q [] = refl
  count-put_ranked p q (r ∷ rs) = ground (arith, count-put_ranked p q rs)

  count-rank_onto :
      (p : Quote W → Bool) (qs ranked : List (Quote W))
      → count p (rank_onto qs ranked) ≡ count p qs + count p ranked
  unfolding rank_onto
  count-rank_onto p [] ranked = omega arith
  count-rank_onto p (q ∷ qs) ranked =
      ground (arith, count-rank_onto p qs (put_ranked q ranked), count-put_ranked p q ranked)

  -- The entries of the map whose quote surges.
  abbrev pub surging_entries : W → OrderedMap (Stamped (Quote W)) → ℕ
  surging_entries threshold [] = 0
  surging_entries threshold ((key, (t, q)) ∷ m) =
      let rest = surging_entries threshold m in if is_surging threshold q then suc rest else rest

  count-entries :
      (threshold : W) (m : OrderedMap (Stamped (Quote W)))
      → count (is_surging threshold) (map (λ e. e.1.1) m) ≡ surging_entries threshold m
  count-entries threshold [] = refl
  count-entries threshold ((key, (t, q)) ∷ m) = ground (arith, count-entries threshold m)

-- Each key of the map has one entry.
abbrev pub UniqueKeys : {A : Type 0} → OrderedMap A → Type 0
UniqueKeys [] = Unit
UniqueKeys ((key, a) ∷ m) = (get key m ≡ none) × UniqueKeys m

set-UniqueKeys :
    {A : Type 0} (key : String) (a : A) (m : OrderedMap A) → UniqueKeys m → UniqueKeys (set key a m)
unfolding get set
set-UniqueKeys key a [] u = (refl, tt)
set-UniqueKeys key a ((j, b) ∷ m) u = elim (Bool-cases (str_eq j key)) [
  | inl e ↦ rw e (subst (λ k. get k m ≡ none) ((eq_iff j key).0 e) u.0, u.1)
  | inr e ↦ rw e (
    ground (arith, get-set key j a m, u.0, e, eq_iff j key, eq_iff key j),
    set-UniqueKeys key a m u.1,
  )
]

module _ {W : Type 0} ⦃num : Number W⦄ where
  keep_newer-UniqueKeys :
      (key : String) (new : Stamped (Quote W)) (m : OrderedMap (Stamped (Quote W)))
      → UniqueKeys m
      → UniqueKeys (keep_newer key new m)
  keep_newer-UniqueKeys key new m u = elim (Bool-cases (supersedes new (get key m))) [
    | inl e ↦ rw e (set-UniqueKeys key new m u)
    | inr e ↦ rw e u
  ]

  take_all-UniqueKeys :
      (es : List (ℕ × MarketEvent W)) (l : Latest W)
      → UniqueKeys l.quotes
      → UniqueKeys (take_all es l).quotes
  unfolding take_all
  take_all-UniqueKeys [] l u = u
  take_all-UniqueKeys ((t, quote_update q) ∷ es) l u =
      take_all-UniqueKeys es _ (keep_newer-UniqueKeys q.token_symbol (t, q) l.quotes u)
  take_all-UniqueKeys ((t, _) ∷ es) l u = take_all-UniqueKeys es _ u

  -- The tokens that surge are counted over a map with one entry for each token, whatever the number
  -- and the order of the events, and the ranking by change neither adds nor loses one.
  pub active_surge_tokens-entries :
      (events : List (ℕ × MarketEvent W)) (threshold : W)
      → (active_surge_tokens threshold events
          ≡ surging_entries threshold (take_all events nothing_yet).quotes)
        × UniqueKeys (take_all events (nothing_yet {W = W})).quotes
  unfolding active_surge_tokens
  active_surge_tokens-entries events threshold = (
    omega (
      arith,
      count-rank_onto (is_surging threshold) (latest_quotes events) [],
      count-entries threshold (take_all events nothing_yet).quotes,
    ),
    take_all-UniqueKeys events nothing_yet tt,
  )
