-- ===== src/Perception/HotState/Order.antt =====
-- The order, the source and the number of the events that a query returns.
use neurodegen.Common.{
  ℕ, ◌-◌, ◌≤◌, ◌≡◌, ◌≢◌, String, true, Option, none, some, List, [], ◌∷◌, arith, All, Bool-cases,
  inl, inr, leb, length,
}
use neurodegen.Common.OrderedMap.{OrderedMap}
use neurodegen.Perception.HotState.{
  PerceptionEvent, StoredEvent, HotState, is_expired, collect, of_source, insert, sort, take,
  limited, get_recent_events,
}

module _ {E : Type 0} where
  -- Newest first.
  abbrev pub Descending : List (PerceptionEvent E) → Type 0
  Descending [] = Unit
  Descending (e ∷ es) = All (λ x. x.timestamp ≤ e.timestamp) es × Descending es

  All-insert :
      (P : PerceptionEvent E → Type 0) (e : PerceptionEvent E) (es : List (PerceptionEvent E))
      → P e
      → All P es
      → All P (insert e es)
  unfolding insert
  All-insert P e [] pe h = (pe, tt)
  All-insert P e (x ∷ es) pe h = elim (Bool-cases (leb x.timestamp e.timestamp)) [
    | inl le ↦ simp le (pe, h)
    | inr gt ↦ simp gt (h.0, All-insert P e es pe h.1)
  ]

  All-le :
      (a b : ℕ) (es : List (PerceptionEvent E))
      → a ≤ b
      → All (λ x. x.timestamp ≤ a) es
      → All (λ x. x.timestamp ≤ b) es
  All-le a b [] le h = tt
  All-le a b (x ∷ es) le h = (omega (arith, le, h.0), All-le a b es le h.1)

  insert-Descending :
      (e : PerceptionEvent E) (es : List (PerceptionEvent E))
      → Descending es
      → Descending (insert e es)
  unfolding insert
  insert-Descending e [] h = (tt, tt)
  insert-Descending e (x ∷ es) h = elim (Bool-cases (leb x.timestamp e.timestamp)) [
    | inl le ↦
        let below : x.timestamp ≤ e.timestamp = ground (arith, le) in
        simp le ((below, All-le x.timestamp e.timestamp es below h.0), h)
    | inr gt ↦
        let above : e.timestamp ≤ x.timestamp = ground (arith, gt) in
        simp gt
          (All-insert (λ y. y.timestamp ≤ x.timestamp) e es above h.0, insert-Descending e es h.1)
  ]

  sort-Descending : (es : List (PerceptionEvent E)) → Descending (sort es)
  unfolding sort
  sort-Descending [] = tt
  sort-Descending (e ∷ es) = insert-Descending e (sort es) (sort-Descending es)

  All-sort :
      (P : PerceptionEvent E → Type 0) (es : List (PerceptionEvent E)) → All P es → All P (sort es)
  unfolding sort
  All-sort P [] h = tt
  All-sort P (e ∷ es) h = All-insert P e (sort es) h.0 (All-sort P es h.1)

  All-take :
      (P : PerceptionEvent E → Type 0) (n : ℕ) (es : List (PerceptionEvent E))
      → All P es
      → All P (take n es)
  unfolding take
  All-take P n [] h = tt
  All-take P n (e ∷ es) h = elim (Bool-cases (leb n 0)) [
    | inl stop ↦ rw stop tt
    | inr more ↦ rw more (h.0, All-take P (n - 1) es h.1)
  ]

  take-Descending : (n : ℕ) (es : List (PerceptionEvent E)) → Descending es → Descending (take n es)
  unfolding take
  take-Descending n [] h = tt
  take-Descending n (e ∷ es) h = elim (Bool-cases (leb n 0)) [
    | inl stop ↦ rw stop tt
    | inr more ↦
        rw more
          (All-take (λ x. x.timestamp ≤ e.timestamp) (n - 1) es h.0, take-Descending (n - 1) es h.1)
  ]

  length-take : (n : ℕ) (es : List (PerceptionEvent E)) → length (take n es) ≤ n
  unfolding take
  length-take n [] = omega arith
  length-take n (e ∷ es) = ground (arith, length-take (n - 1) es)

  All-collect :
      (source : Option String) (now : ℕ) (m : OrderedMap (StoredEvent E))
      → All (λ e. of_source source e ≡ true) (collect source now m)
  unfolding collect
  All-collect source now [] = tt
  All-collect source now ((key, stored) ∷ m) = elim (Bool-cases (is_expired now stored)) [
    | inl gone ↦ rw gone (All-collect source now m)
    | inr kept ↦ rw kept (elim (Bool-cases (of_source source stored.event)) [
      | inl mine ↦ rw mine (mine, All-collect source now m)
      | inr foreign ↦ rw foreign (All-collect source now m)
    ])
  ]

  -- A query returns its events newest first, all of its source if one is named, and at most as many as
  -- its limit if that is not 0.
  pub get_recent_events-Descending :
      (s : HotState E) (source : Option String) (limit : Option ℕ) (now : ℕ)
      → let es = get_recent_events s source limit now in
        Descending es
        × All (λ e. of_source source e ≡ true) es
        × ((n : ℕ) → limit ≡ some n → n ≢ 0 → length es ≤ n)
  unfolding get_recent_events limited
  get_recent_events-Descending s source none now =
      let found = collect source now s.events in
      (
        sort-Descending found,
        All-sort (λ e. of_source source e ≡ true) found (All-collect source now s.events),
        λ n e. cc,
      )
  get_recent_events-Descending s source (some n) now =
      let found = collect source now s.events in
      let ordered = sort-Descending found in
      let mine =
        All-sort (λ e. of_source source e ≡ true) found (All-collect source now s.events) in
      elim (Bool-cases (leb n 0)) [
        | inl all ↦ rw all (ordered, mine, λ m e pos. ground (arith, e, pos, all))
        | inr some_limit ↦ rw some_limit (
          take-Descending n (sort found) ordered,
          All-take (λ e. of_source source e ≡ true) n (sort found) mine,
          λ m e pos. ground (arith, length-take n (sort found), e),
        )
      ]
