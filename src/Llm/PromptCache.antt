-- ===== src/Llm/PromptCache.antt =====
-- src/lib/clients/llm/promptCache.ts. Keys are the hashes that `computeKey` returns, texts that are
-- never empty; `V` is a call's result, and `now` the clock when the method runs.
pub mod Laws
use neurodegen.Common.{
  ℕ, suc, ◌+◌, String, Bool, true, false, Option, none, some, List, [], ◌∷◌, ltb, leb,
  if◌then◌else◌, length,
}
use neurodegen.Common.OrderedMap
use neurodegen.Common.OrderedMap.{OrderedMap, get, delete, set}

pub record CachedEntry (V : Type 0) : Type 0 where
  pub result : V
  pub expires_at : ℕ

pub record Cache (V : Type 0) : Type 0 where
  pub store : OrderedMap (CachedEntry V)
  pub hits : ℕ
  pub misses : ℕ

abbrev pub max_entries : ℕ
max_entries = 256

module _ {V : Type 0} where
  pub empty_cache : Cache V
  empty_cache = record { store = []; hits = 0; misses = 0 }

  missed : Cache V → Option V × Cache V
  missed c = (none, record c { misses = c.misses + 1 })

  found : Cache V → String → ℕ → Option (CachedEntry V) → Option V × Cache V
  found c key now none = missed c
  found c key now (some e) =
      if ltb e.expires_at now
      then missed (record c { store = delete key c.store })
      else (some e.result, record c { store = set key e (delete key c.store); hits = c.hits + 1 })

  pub cache_get : Cache V → String → ℕ → Option V × Cache V
  cache_get c key now = found c key now (get key c.store)

  -- The first key goes, if the map is full.
  abbrev drop_oldest : OrderedMap (CachedEntry V) → OrderedMap (CachedEntry V)
  drop_oldest [] = []
  drop_oldest ((oldest, e) ∷ m) = delete oldest ((oldest, e) ∷ m)

  pub make_room : OrderedMap (CachedEntry V) → OrderedMap (CachedEntry V)
  make_room m = if leb max_entries (length m) then drop_oldest m else m

  -- `ttl` is `LLM_CACHE_TTL_MS`, at or under 0 where it is switched off.
  pub cache_set : ℕ → Cache V → String → V → ℕ → Cache V
  cache_set ttl c key v now = if leb ttl 0 then c else record c {
    store = set key (record { result = v; expires_at = now + ttl }) (make_room c.store);
  }

-- Opens the cache to a test by evaluation.
unfoldable pub opened : Unit {0}
unfolding OrderedMap.get OrderedMap.delete OrderedMap.set empty_cache missed found cache_get
    make_room cache_set
opened = tt
