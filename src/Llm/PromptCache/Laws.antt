-- ===== src/Llm/PromptCache/Laws.antt =====
-- The cache is bounded, and answers only with what was stored under the key and has not expired.
use text.Mathlib.TextPositions.{eq_refl}
use neurodegen.Common.{
  ℕ, ◌+◌, ◌≤◌, ◌<◌, ◌≡◌, ◌≢◌, refl, String, true, Option, none, some, List, [], ◌∷◌, arith,
  if◌then◌else◌, length, is_some, leb,
}
use neurodegen.Common.OrderedMap.{
  OrderedMap, get, delete, get-set, length-delete, length-set, length-delete_self,
}
use neurodegen.Llm.PromptCache.{
  Cache, CachedEntry, max_entries, missed, found, cache_get, make_room, cache_set, empty_cache,
}

-- An operation of the cache: a lookup or a store, with the clock.
pub data Use (V : Type 0) : Type 0 where
  lookup : String → ℕ → Use V
  store : String → V → ℕ → Use V

module _ {V : Type 0} where
  IsBounded : Cache V → Type 0
  IsBounded c = length c.store ≤ max_entries

  get_head :
      (k : String) (e : CachedEntry V) (m : OrderedMap (CachedEntry V))
      → is_some (get k ((k, e) ∷ m)) ≡ true
  unfolding get
  get_head k e m = simp eq_refl

  -- There is room for one more after `make_room`.
  length-make_room :
      (m : OrderedMap (CachedEntry V)) → length m ≤ max_entries → length (make_room m) < max_entries
  unfolding make_room
  length-make_room [] h = ground arith
  length-make_room ((k, e) ∷ m) h =
      ground (arith, length-delete_self k ((k, e) ∷ m), get_head k e m)

  cache_get-IsBounded :
      (c : Cache V) (key : String) (now : ℕ) → IsBounded c → IsBounded (cache_get c key now).1
  unfolding IsBounded cache_get found missed
  cache_get-IsBounded c key now h = go (get key c.store) refl
    where
      go :
          (o : Option (CachedEntry V))
          → get key c.store ≡ o
          → length (found c key now o).1.store ≤ max_entries
      go none is_e = h
      go (some e) is_e =
          let present : is_some (get key c.store) ≡ true = rw is_e refl in
          ground (
            arith,
            length-set key e (delete key c.store),
            length-delete key c.store,
            length-delete_self key c.store present,
          )

  cache_set-IsBounded :
      (ttl : ℕ) (c : Cache V) (key : String) (v : V) (now : ℕ)
      → IsBounded c
      → IsBounded (cache_set ttl c key v now)
  unfolding IsBounded cache_set
  cache_set-IsBounded ttl c key v now h =
      let entry : CachedEntry V = record { result = v; expires_at = now + ttl } in
      ground (arith, length-set key entry (make_room c.store), length-make_room c.store h)

  pub use_all : ℕ → Cache V → List (Use V) → Cache V
  use_all ttl c [] = c
  use_all ttl c (lookup key now ∷ rest) = use_all ttl (cache_get c key now).1 rest
  use_all ttl c (store key v now ∷ rest) = use_all ttl (cache_set ttl c key v now) rest

  keeps_bound :
      (ttl : ℕ) (c : Cache V) (uses : List (Use V)) → IsBounded c → IsBounded (use_all ttl c uses)
  unfolding use_all
  keeps_bound ttl c [] h = h
  keeps_bound ttl c (lookup key now ∷ rest) h =
      keeps_bound ttl (cache_get c key now).1 rest (cache_get-IsBounded c key now h)
  keeps_bound ttl c (store key v now ∷ rest) h =
      keeps_bound ttl (cache_set ttl c key v now) rest (cache_set-IsBounded ttl c key v now h)

  -- Whatever lookups and stores run on an empty cache, it holds at most 256 entries.
  pub use_all-max_entries :
      (ttl : ℕ) (uses : List (Use V)) → length (use_all ttl empty_cache uses).store ≤ max_entries
  use_all-max_entries ttl uses =
      unfold IsBounded in keeps_bound ttl empty_cache uses (unfold empty_cache in omega arith)

  -- Where caching is on, a lookup of a key right after a store under it answers the stored result until
  -- the time to live has passed, and nothing after that.
  pub cache_get-cache_set :
      (ttl : ℕ) (c : Cache V) (key : String) (v : V) (stored_at now : ℕ)
      → ttl ≢ 0
      → (cache_get (cache_set ttl c key v stored_at) key now).0
        ≡ (if leb now (stored_at + ttl) then some v else none)
  unfolding cache_get cache_set found missed
  cache_get-cache_set ttl c key v stored_at now on =
      let entry : CachedEntry V = record { result = v; expires_at = stored_at + ttl } in
      ground (arith, get-set key key entry (make_room c.store), eq_refl key)
