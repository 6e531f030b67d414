-- ===== src/Allowlist.antt =====
-- src/lib/utils/allowedTokens.ts: the token allowlist, an object from symbols to addresses, as an
-- association list in insertion order. `to_upper` is `String.prototype.toUpperCase` and `parse_json`
-- is `JSON.parse`; `some` field that is no string is `Json.other`.
pub mod Laws
use Prim.Native.Char.{code}
use neurodegen.Common.{
  ℕ, zero, suc, String, Bool, true, false, ◌&&◌, ◌||◌, Option, none, some, List, [], ◌∷◌, leb, ◌==◌,
  if◌then◌else◌, length, is_some,
}
use text.Mathlib.Text.{◌==◌ as str_eq}

abbrev pub Table : Type 0
Table = List (String × String)

-- `next[k] = v`
unfoldable pub put : String → String → Table → Table
put k v [] = (k, v) ∷ []
put k v ((j, w) ∷ t) = if str_eq j k then (k, v) ∷ t else (j, w) ∷ put k v t

unfoldable pub address_of : String → Table → Option String
address_of k [] = none
address_of k ((j, w) ∷ t) = if str_eq j k then some w else address_of k t

is_hex_digit : ℕ → Bool
is_hex_digit c =
    (leb b'0' c && leb c b'9') || (leb b'a' c && leb c b'f') || (leb b'A' c && leb c b'F')

-- `n` hexadecimal digits and nothing else
hex_digits : ℕ → String → Bool
unfolding is_hex_digit
hex_digits zero String.[] = true
hex_digits (suc n) (String.◌∷◌ c s) = is_hex_digit (code c) && hex_digits n s
hex_digits _ _ = false

-- `/^0x[a-fA-F0-9]{40}$/.test(s)`
pub is_address : String → Bool
unfolding hex_digits
is_address (String.◌∷◌ c (String.◌∷◌ d s)) = code c == b'0' && code d == b'x' && hex_digits 40 s
is_address _ = false

pub data Json : Type 0 where
  str : String → Json
  other : Json

pub data Parsed : Type 0 where
  object : List (String × Json) → Parsed
  not_object : Parsed

pub data Source : Type 0 where
  env seed : Source

pub data LoadReason : Type 0 where
  not_set parse_failed expected_object no_valid_entries : LoadReason

pub record LoadResult : Type 0 where
  pub loaded : Bool
  pub count : ℕ
  pub source : Source
  pub reason : Option LoadReason

not_loaded : Table → LoadReason → LoadResult × Table
not_loaded table why =
    (record { loaded = false; count = length table; source = seed; reason = some why }, table)

module _ (to_upper : String → String) where
  -- the loop of `setAllowedTokens`
  put_all : Table → Table → Table
  put_all [] next = next
  put_all ((k, v) ∷ entries) next = put_all entries (put (to_upper k) v next)

  -- The new `runtimeAllowlist`.
  pub set_allowed_tokens : Table → Table
  set_allowed_tokens entries = put_all entries []

  unfoldable pub is_allowed_token_symbol : Table → String → Bool
  is_allowed_token_symbol table symbol = is_some (address_of (to_upper symbol) table)

  -- the loop of `loadAllowlistFromEnv`
  collect : List (String × Json) → Table → Table
  collect [] next = next
  collect ((k, Json.other) ∷ entries) next = collect entries next
  collect ((k, Json.str v) ∷ entries) next =
      collect entries (if is_address v then put (to_upper k) v next else next)

  install : Table → Table → LoadResult × Table
  install table [] = not_loaded table no_valid_entries
  install table (e ∷ next) = (
    record { loaded = true; count = length (e ∷ next); source = env; reason = none },
    set_allowed_tokens (e ∷ next),
  )

  load_parsed : Table → Option Parsed → LoadResult × Table
  load_parsed table none = not_loaded table parse_failed
  load_parsed table (some not_object) = not_loaded table expected_object
  load_parsed table (some (object entries)) = install table (collect entries [])

  -- `raw` is `process.env.ALLOWED_TOKENS_JSON`; the empty text counts as unset.
  pub load_allowlist_from_env :
      (String → Option Parsed) → Table → Option String → LoadResult × Table
  load_allowlist_from_env parse_json table none = not_loaded table not_set
  load_allowlist_from_env parse_json table (some raw) =
      if str_eq raw "" then not_loaded table not_set else load_parsed table (parse_json raw)
