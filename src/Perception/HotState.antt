-- ===== src/Perception/HotState.antt =====
-- src/lib/stores/hotState.ts: the recent events, by id. `E` is what an event carries besides its id,
-- its source and its time; `now` is the clock when a method runs. The metrics, a plain variable that is
-- set and read, are left out.
pub mod Eviction
pub mod Order
use text.Mathlib.Text.{◌==◌ as str_eq}
use neurodegen.Common.{
  ℕ, ◌+◌, ◌-◌, String, Bool, true, false, not, ◌&&◌, Option, none, some, List, [], ◌∷◌, ltb, leb,
  map, filter, if◌then◌else◌,
}
use neurodegen.Common.OrderedMap
use neurodegen.Common.OrderedMap.{OrderedMap, get, delete, set}

pub record PerceptionEvent (E : Type 0) : Type 0 where
  pub event_id : String
  pub source : String
  pub timestamp : ℕ
  pub payload : E

pub record StoredEvent (E : Type 0) : Type 0 where
  pub event : PerceptionEvent E
  pub expires_at : ℕ

pub record HotState (E : Type 0) : Type 0 where
  pub events : OrderedMap (StoredEvent E)
  pub last_eviction_at : ℕ

abbrev pub eviction_throttle_ms : ℕ
eviction_throttle_ms = 60000

module _ {E : Type 0} where
  pub empty_state : HotState E
  empty_state = record { events = []; last_eviction_at = 0 }

  abbrev pub is_expired : ℕ → StoredEvent E → Bool
  is_expired now stored = leb stored.expires_at now

  expired_keys : ℕ → OrderedMap (StoredEvent E) → List String
  expired_keys now [] = []
  expired_keys now ((key, stored) ∷ m) =
      let rest = expired_keys now m in if is_expired now stored then key ∷ rest else rest

  delete_all : List String → OrderedMap (StoredEvent E) → OrderedMap (StoredEvent E)
  delete_all [] m = m
  delete_all (key ∷ keys) m = delete_all keys (delete key m)

  pub evict : HotState E → ℕ → HotState E
  evict s now = record {
    events = delete_all (expired_keys now s.events) s.events;
    last_eviction_at = now;
  }

  -- A clock that was set back leaves the difference at 0, which is not above the throttle either.
  maybe_evict : HotState E → ℕ → HotState E
  maybe_evict s now = if ltb eviction_throttle_ms (now - s.last_eviction_at) then evict s now else s

  pub add_event : ℕ → HotState E → PerceptionEvent E → ℕ → HotState E
  add_event ttl_ms s e now =
      maybe_evict
        (record s {
          events = set e.event_id (record { event = e; expires_at = now + ttl_ms }) s.events;
        })
        now

  -- `!(source && event.source !== source)`
  abbrev pub of_source : Option String → PerceptionEvent E → Bool
  of_source none e = true
  of_source (some source) e = if str_eq source "" then true else str_eq e.source source

  collect : Option String → ℕ → OrderedMap (StoredEvent E) → List (PerceptionEvent E)
  collect source now [] = []
  collect source now ((key, stored) ∷ m) =
      let rest = collect source now m in
      if is_expired now stored
      then rest
      else if of_source source stored.event
      then stored.event ∷ rest
      else rest

  -- `sort((a, b) => b.timestamp - a.timestamp)`, which is stable.
  insert : PerceptionEvent E → List (PerceptionEvent E) → List (PerceptionEvent E)
  insert e [] = e ∷ []
  insert e (x ∷ xs) = if leb x.timestamp e.timestamp then e ∷ x ∷ xs else x ∷ insert e xs

  sort : List (PerceptionEvent E) → List (PerceptionEvent E)
  sort [] = []
  sort (e ∷ es) = insert e (sort es)

  take : ℕ → List (PerceptionEvent E) → List (PerceptionEvent E)
  take n [] = []
  take n (e ∷ es) = let rest = take (n - 1) es in if leb n 0 then [] else e ∷ rest

  -- A limit of 0 is no limit.
  limited : Option ℕ → List (PerceptionEvent E) → List (PerceptionEvent E)
  limited none es = es
  limited (some n) es = if leb n 0 then es else take n es

  pub get_recent_events : HotState E → Option String → Option ℕ → ℕ → List (PerceptionEvent E)
  get_recent_events s source limit now = limited limit (sort (collect source now s.events))

-- Opens the store to a test by evaluation.
unfoldable pub opened : Unit {0}
unfolding OrderedMap.get OrderedMap.delete OrderedMap.set empty_state expired_keys delete_all evict
    maybe_evict add_event collect insert sort take limited get_recent_events
opened = tt
