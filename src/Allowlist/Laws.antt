-- ===== src/Allowlist/Laws.antt =====
-- What the allowlist holds after it is set or loaded.
use neurodegen.Common.{
  String, ◌≡◌, refl, ◌⊎◌, inl, inr, true, false, Option, none, some, List, [], ◌∷◌, arith,
  if◌then◌else◌, length, All, Bool-cases,
}
use text.Mathlib.Text.{◌==◌ as str_eq}
use text.Mathlib.TextEquality.{eq_iff}
use neurodegen.Allowlist.{
  Table, put, address_of, is_address, hex_digits, is_hex_digit, Json, str, other, Parsed, object,
  not_object, LoadResult, env, not_loaded, put_all, set_allowed_tokens, collect, install,
  load_parsed, load_allowlist_from_env,
}

pub address_of-put :
    (k j v : String) (t : Table)
    → address_of j (put k v t) ≡ (if str_eq k j then some v else address_of j t)
unfolding address_of put
address_of-put k j v [] = refl
address_of-put k j v ((i, w) ∷ t) =
    ground (arith, eq_iff k j, eq_iff i k, eq_iff i j, address_of-put k j v t)

abbrev pub AllValid : Table → Type 0
AllValid = All (λ e. is_address e.1 ≡ true)

put-AllValid : (k v : String) (t : Table) → is_address v ≡ true → AllValid t → AllValid (put k v t)
unfolding put
put-AllValid k v [] hv h = (hv, tt)
put-AllValid k v ((j, w) ∷ t) hv h = elim (Bool-cases (str_eq j k)) [
  | inl same ↦ rw same (hv, h.1)
  | inr differs ↦ rw differs (h.0, put-AllValid k v t hv h.1)
]

abbrev pub LoadOutcome : Table → LoadResult × Table → Type 0
LoadOutcome table (result, after) =
    ((result.loaded ≡ false) × (after ≡ table) × (result.count ≡ length table))
    ⊎ ((result.loaded ≡ true) × (result.source ≡ env) × AllValid after)

module _ (to_upper : String → String) where
  -- The last entry for a symbol, without regard to case.
  abbrev pub last_entry : String → Table → Option String → Option String
  last_entry symbol [] found = found
  last_entry symbol ((k, v) ∷ entries) found =
      last_entry symbol entries (if str_eq (to_upper k) (to_upper symbol) then some v else found)

  address_of-put_all :
      (symbol : String) (entries next : Table)
      → address_of (to_upper symbol) (put_all to_upper entries next)
        ≡ last_entry symbol entries (address_of (to_upper symbol) next)
  unfolding put_all
  address_of-put_all symbol [] next = refl
  address_of-put_all symbol ((k, v) ∷ entries) next =
      rw (address_of-put_all symbol entries (put (to_upper k) v next)) (rw address_of-put)

  -- After `setAllowedTokens` a symbol has the address of its last entry, whatever the case of either,
  -- and nothing of the earlier list is left.
  pub address_of-set_allowed_tokens :
      (symbol : String) (entries : Table)
      → address_of (to_upper symbol) (set_allowed_tokens to_upper entries)
        ≡ last_entry symbol entries none
  unfolding set_allowed_tokens address_of
  address_of-set_allowed_tokens symbol entries = address_of-put_all symbol entries []

  put_all-AllValid :
      (entries next : Table)
      → AllValid entries
      → AllValid next
      → AllValid (put_all to_upper entries next)
  unfolding put_all
  put_all-AllValid [] next h k = k
  put_all-AllValid ((j, v) ∷ entries) next (hv, h) k =
      put_all-AllValid entries (put (to_upper j) v next) h (put-AllValid (to_upper j) v next hv k)

  collect-AllValid :
      (entries : List (String × Json)) (next : Table)
      → AllValid next
      → AllValid (collect to_upper entries next)
  unfolding collect
  collect-AllValid [] next h = h
  collect-AllValid ((k, other) ∷ entries) next h = collect-AllValid entries next h
  collect-AllValid ((k, str v) ∷ entries) next h = elim (Bool-cases (is_address v)) [
    | inl valid ↦ rw valid (
        collect-AllValid entries (put (to_upper k) v next)
          (put-AllValid (to_upper k) v next valid h))
    | inr bad ↦ rw bad (collect-AllValid entries next h)
  ]

  install-keeps_or_valid :
      (table next : Table) → AllValid next → LoadOutcome table (install to_upper table next)
  unfolding install set_allowed_tokens not_loaded
  install-keeps_or_valid table [] h = inl (refl, refl, refl)
  install-keeps_or_valid table (e ∷ next) h = inr (refl, refl, put_all-AllValid (e ∷ next) [] h tt)

  -- Loading from the environment either reports a failure and leaves the list as it was, with its
  -- size reported, or reports success, the source `env`, and every address of the new
  -- list has the form `0x` with 40 hexadecimal digits.
  pub load_allowlist_from_env-LoadOutcome :
      (parse_json : String → Option Parsed) (table : Table) (raw : Option String)
      → LoadOutcome table (load_allowlist_from_env to_upper parse_json table raw)
  unfolding load_allowlist_from_env load_parsed not_loaded
  load_allowlist_from_env-LoadOutcome parse_json table none = inl (refl, refl, refl)
  load_allowlist_from_env-LoadOutcome parse_json table (some raw) =
      elim (Bool-cases (str_eq raw "")) [
        | inl empty ↦ rw empty (inl (refl, refl, refl))
        | inr full ↦ rw full (parsed (parse_json raw))
      ]
    where
      parsed : (p : Option Parsed) → LoadOutcome table (load_parsed to_upper table p)
      parsed none = inl (refl, refl, refl)
      parsed (some not_object) = inl (refl, refl, refl)
      parsed (some (object entries)) =
          install-keeps_or_valid table (collect to_upper entries [])
            (collect-AllValid entries [] tt)

pub zero-is_address : is_address "0x0000000000000000000000000000000000000000" ≡ true
unfolding is_address hex_digits is_hex_digit
zero-is_address = refl
