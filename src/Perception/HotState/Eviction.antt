-- ===== src/Perception/HotState/Eviction.antt =====
-- What is evicted is what no query returns any more.
use text.Mathlib.Text.{◌==◌ as str_eq}
use text.Mathlib.TextPositions.{eq_refl}
use text.Mathlib.TextEquality.{eq_iff}
use neurodegen.Common.{
  ℕ, ◌+◌, ◌-◌, ◌≤◌, ◌≡◌, ◌∙◌, refl, ap, String, false, Option, none, List, [], ◌∷◌, arith, any,
  filter, not, if◌then◌else◌, Bool-cases, inl, inr, ltb,
}
use neurodegen.Common.OrderedMap.{OrderedMap, get, delete, set, get-delete, get-set}
use neurodegen.Perception.HotState.{
  PerceptionEvent, StoredEvent, HotState, is_expired, expired_keys, delete_all, evict, maybe_evict,
  add_event, empty_state, collect, sort, limited, get_recent_events, eviction_throttle_ms,
}

module _ {E : Type 0} where
  -- No key occurs twice.
  abbrev Unique : OrderedMap (StoredEvent E) → Type 0
  Unique [] = Unit
  Unique ((key, stored) ∷ m) = (get key m ≡ none) × Unique m

  abbrev live : ℕ → OrderedMap (StoredEvent E) → OrderedMap (StoredEvent E)
  live now m = filter (λ entry. not (is_expired now entry.1)) m

  delete-missing : (k : String) (m : OrderedMap (StoredEvent E)) → get k m ≡ none → delete k m ≡ m
  unfolding get delete
  delete-missing k [] h = refl
  delete-missing k ((j, v) ∷ m) h = ground (arith, delete-missing k m)

  delete-Unique : (k : String) (m : OrderedMap (StoredEvent E)) → Unique m → Unique (delete k m)
  unfolding delete
  delete-Unique k [] h = tt
  delete-Unique k ((j, v) ∷ m) (fresh, h) = elim (Bool-cases (str_eq j k)) [
    | inl same ↦ rw same (delete-Unique k m h)
    | inr differs ↦ rw differs (ground (arith, get-delete k j m), delete-Unique k m h)
  ]

  set-Unique :
      (k : String) (v : StoredEvent E) (m : OrderedMap (StoredEvent E))
      → Unique m
      → Unique (set k v m)
  unfolding set get
  set-Unique k v [] h = (refl, tt)
  set-Unique k v ((j, w) ∷ m) (fresh, h) = elim (Bool-cases (str_eq j k)) [
    | inl same ↦ rw same (rw (← (eq_iff j k).0 same) fresh, h)
    | inr differs ↦
        rw differs (ground (arith, get-set k j v m, eq_iff k j, eq_iff j k), set-Unique k v m h)
  ]

  delete_all-Unique :
      (keys : List String) (m : OrderedMap (StoredEvent E)) → Unique m → Unique (delete_all keys m)
  unfolding delete_all
  delete_all-Unique [] m h = h
  delete_all-Unique (k ∷ keys) m h = delete_all-Unique keys (delete k m) (delete-Unique k m h)

  -- Deleting keys from a map with a first entry.
  delete_all-entry :
      (keys : List String) (j : String) (v : StoredEvent E) (m : OrderedMap (StoredEvent E))
      → delete_all keys ((j, v) ∷ m)
        ≡ (if any (λ k. str_eq j k) keys then delete_all keys m else (j, v) ∷ delete_all keys m)
  unfolding delete_all delete
  delete_all-entry [] j v m = refl
  delete_all-entry (k ∷ keys) j v m = elim (Bool-cases (str_eq j k)) [
    | inl same ↦ rw same refl
    | inr differs ↦ rw differs (delete_all-entry keys j v (delete k m))
  ]

  unlisted :
      (now : ℕ) (j : String) (m : OrderedMap (StoredEvent E))
      → get j m ≡ none
      → any (λ k. str_eq j k) (expired_keys now m) ≡ false
  unfolding get expired_keys
  unlisted now j [] h = refl
  unlisted now j ((i, v) ∷ m) h = ground (arith, unlisted now j m, eq_iff i j, eq_iff j i)

  -- What is left after an eviction is what has not expired, in its order.
  evict-live :
      (now : ℕ) (m : OrderedMap (StoredEvent E))
      → Unique m
      → delete_all (expired_keys now m) m ≡ live now m
  unfolding expired_keys delete_all
  evict-live now [] h = refl
  evict-live now ((j, v) ∷ m) (fresh, h) = elim (Bool-cases (is_expired now v)) [
    | inl gone ↦ rw gone (
        delete_all-entry (j ∷ expired_keys now m) j v m
        ∙ rw (eq_refl j)
            (ap (delete_all (expired_keys now m)) (delete-missing j m fresh) ∙ evict-live now m h))
    | inr kept ↦ rw kept (
        delete_all-entry (expired_keys now m) j v m
        ∙ rw (unlisted now j m fresh) (ap (λ rest. (j, v) ∷ rest) (evict-live now m h)))
  ]

  collect-live :
      (source : Option String) (now later : ℕ) (m : OrderedMap (StoredEvent E))
      → now ≤ later
      → collect source later (live now m) ≡ collect source later m
  unfolding collect
  collect-live source now later [] h = refl
  collect-live source now later ((j, v) ∷ m) h = ground (arith, collect-live source now later m h)

  evict-recent :
      (s : HotState E) (source : Option String) (limit : Option ℕ) (now later : ℕ)
      → Unique s.events
      → now ≤ later
      → get_recent_events (evict s now) source limit later ≡ get_recent_events s source limit later
  unfolding get_recent_events evict
  evict-recent s source limit now later h le =
      ap (λ es. limited limit (sort es))
        (ap (collect source later) (evict-live now s.events h)
          ∙ collect-live source now later s.events le)

  -- Events added one after another, each with the clock.
  pub add_all : ℕ → HotState E → List (PerceptionEvent E × ℕ) → HotState E
  add_all ttl s [] = s
  add_all ttl s ((e, now) ∷ rest) = add_all ttl (add_event ttl s e now) rest

  add_event-Unique :
      (ttl : ℕ) (s : HotState E) (e : PerceptionEvent E) (now : ℕ)
      → Unique s.events
      → Unique (add_event ttl s e now).events
  unfolding add_event maybe_evict evict
  add_event-Unique ttl s e now h =
      let added : OrderedMap (StoredEvent E) =
        set e.event_id (record { event = e; expires_at = now + ttl }) s.events in
      let unique : Unique added = set-Unique e.event_id _ s.events h in
      elim (Bool-cases (ltb eviction_throttle_ms (now - s.last_eviction_at))) [
        | inl due ↦ simp due (delete_all-Unique (expired_keys now added) added unique)
        | inr early ↦ simp early unique
      ]

  add_all-Unique :
      (ttl : ℕ) (s : HotState E) (adds : List (PerceptionEvent E × ℕ))
      → Unique s.events
      → Unique (add_all ttl s adds).events
  unfolding add_all
  add_all-Unique ttl s [] h = h
  add_all-Unique ttl s ((e, now) ∷ rest) h =
      add_all-Unique ttl (add_event ttl s e now) rest (add_event-Unique ttl s e now h)

  -- In a store that any events were added to, an eviction never changes what a later query returns,
  -- whatever source and limit it asks for.
  pub evict-invisible :
      (ttl : ℕ) (adds : List (PerceptionEvent E × ℕ)) (source : Option String) (limit : Option ℕ)
      (now later : ℕ)
      → now ≤ later
      → let s = add_all ttl empty_state adds in
        get_recent_events (evict s now) source limit later ≡ get_recent_events s source limit later
  evict-invisible ttl adds source limit now later le =
      evict-recent (add_all ttl empty_state adds) source limit now later
        (add_all-Unique ttl empty_state adds (unfold empty_state in tt)) le
