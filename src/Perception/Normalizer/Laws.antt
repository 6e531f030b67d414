-- ===== src/Perception/Normalizer/Laws.antt =====
-- What the normalizers give for what the schemas accept.
use package.text.Mathlib.Text.{◌==◌ as str_eq}
use mathlib.Core.Path.{subst}
use neurodegen.Common.{
  ◌≡◌, refl, ap, sym, ◌∙◌, ◌⊎◌, String, true, false, Option, none, some, List, [], ◌∷◌, All, map,
  get_or, Bool-cases, inl, inr,
}
use neurodegen.Common.Number.{Number}
use neurodegen.Common.JsValue.{
  JsValue, null, undefined, boolean, number, str, array, object, Elements, Members, elements,
  values, prop, coalesce,
}
use neurodegen.Allowlist.{Table, address_of, is_address}
use neurodegen.Allowlist.Laws.{zero-is_address}
use neurodegen.Perception.Aggregator.{label_of}
use neurodegen.Perception.Normalizer.{
  Schemas, QuoteListEntry, FlatQuoteEntry, zero_address, as_hex_address, kept, and_then,
  normalize_each,
}
use neurodegen.Perception.Normalizer.Quotes.{
  quote_of, flat_to_nested, nested_or_flat, members_of, quote_items, quote_event,
  normalize_cmc_quotes,
}
use neurodegen.Perception.Normalizer.Signals.{fear_greed_label}

-- What `f` accepts, in order.
abbrev pub accepted : {A B : Type 0} → (A → Option B) → List A → List B
accepted f [] = []
accepted f (x ∷ xs) = kept (f x) (accepted f xs)

kept-map :
    {B E : Type 0} (event : B → E) (o : Option B) (l : List B)
    → kept (and_then o (λ e. some (event e))) (map event l) ≡ map event (kept o l)
kept-map event none l = refl
kept-map event (some e) l = refl

normalize_each-map :
    {A B E : Type 0} (parse : A → Option B) (event : B → E) (items : List A)
    → normalize_each parse (λ e. some (event e)) items ≡ map event (accepted parse items)
unfolding normalize_each
normalize_each-map parse event [] = refl
normalize_each-map parse event (x ∷ xs) =
    ap (kept (and_then (parse x) (λ e. some (event e)))) (normalize_each-map parse event xs)
    ∙ kept-map event (parse x) (accepted parse xs)

as_hex_address-is_address :
    (v : Option String) (fallback : String)
    → is_address fallback ≡ true
    → is_address (as_hex_address v fallback) ≡ true
unfolding as_hex_address
as_hex_address-is_address none fallback h = h
as_hex_address-is_address (some v) fallback h = elim (Bool-cases (is_address v)) [
  | inl e ↦ rw e e
  | inr e ↦ rw e h
]

address_of-is_address :
    (symbol : String) (table : Table)
    → All (λ e. is_address e.1 ≡ true) table
    → is_address (get_or (address_of symbol table) zero_address) ≡ true
unfolding address_of
address_of-is_address symbol [] h = zero-is_address
address_of-is_address symbol ((k, v) ∷ table) h = elim (Bool-cases (str_eq k symbol)) [
  | inl e ↦ rw e h.0
  | inr e ↦ rw e (address_of-is_address symbol table h.1)
]

-- Neither a list, an object, a text nor missing.
abbrev pub IsPlain : {W : Type 0} → JsValue W → Type 0
IsPlain (boolean b) = Unit
IsPlain (number x) = Unit
IsPlain _ = true ≡ false

-- Neither a list nor an object.
abbrev pub IsScalar : {W : Type 0} → JsValue W → Type 0
IsScalar (array xs) = true ≡ false
IsScalar (object ms) = true ≡ false
IsScalar _ = Unit

module _ {W : Type 0} ⦃num : Number W⦄ (schemas : Schemas W) where
  normalize_cmc_quotes-map :
      (table : Table) (raw : JsValue W)
      → normalize_cmc_quotes schemas table raw
        ≡ map (quote_event schemas table) (accepted (quote_of schemas) (quote_items schemas raw))
  unfolding normalize_cmc_quotes
  normalize_cmc_quotes-map table raw =
      normalize_each-map (quote_of schemas) (quote_event schemas table) (quote_items schemas raw)

  -- Without a classification in the answer, an index is labelled as the aggregation labels it.
  fear_greed_label-label_of : (v : W) → fear_greed_label schemas none v ≡ label_of v
  unfolding fear_greed_label label_of
  fear_greed_label-label_of v = refl

  All-map :
      {A B : Type 0} (P : B → Type 0) (f : A → B) (l : List A)
      → ((a : A) → P (f a))
      → All P (map f l)
  All-map P f [] h = tt
  All-map P f (a ∷ l) h = (h a, All-map P f l h)

  normalize_cmc_quotes-is_address :
      (table : Table) (raw : JsValue W)
      → All (λ e. is_address e.1 ≡ true) table
      → All (λ q. is_address q.token_address ≡ true) (normalize_cmc_quotes schemas table raw)
  normalize_cmc_quotes-is_address table raw h =
      subst (All (λ q. is_address q.token_address ≡ true))
        (sym (normalize_cmc_quotes-map table raw))
        (All-map (λ q. is_address q.token_address ≡ true) (quote_event schemas table) _
          (λ e.
            unfold quote_event in
            as_hex_address-is_address e.platform_address _ (address_of-is_address _ table h)))

  -- The items that are tried: those of a list, or of the list or the values in an object's `data`, or
  -- an object's own values if it has no `data`. (A text stands for its characters.)
  pub data ItemsOf : JsValue W → List (JsValue W) → Type 0 where
    listed : (xs : Elements W) → ItemsOf (array xs) (elements xs)
    list_data :
        (ms : Members W) (xs : Elements W)
        → prop "data" ms ≡ array xs
        → ItemsOf (object ms) (elements xs)
    object_data : (ms ns : Members W) → prop "data" ms ≡ object ns → ItemsOf (object ms) (values ns)
    text_data :
        (ms : Members W) (t : String)
        → prop "data" ms ≡ str t
        → ItemsOf (object ms) (schemas.characters t)
    no_data :
        (ms : Members W)
        → (prop "data" ms ≡ null) ⊎ (prop "data" ms ≡ undefined)
        → ItemsOf (object ms) (values ms)
    other_data :
        (ms : Members W) (v : JsValue W) → prop "data" ms ≡ v → IsPlain v → ItemsOf (object ms) []
    other : (v : JsValue W) → IsScalar v → ItemsOf v []

  -- The entries of the items, in order: what the nested schema accepts; of the others, what the flat
  -- one accepts, in the nested form; and nothing for what neither accepts.
  pub data Quoted : List (JsValue W) → List (QuoteListEntry W) → Type 0 where
    over : Quoted [] []
    nested :
        (v : JsValue W) (vs : List (JsValue W)) (e : QuoteListEntry W)
        (es : List (QuoteListEntry W))
        → schemas.quote_entry v ≡ some e
        → Quoted vs es
        → Quoted (v ∷ vs) (e ∷ es)
    flat :
        (v : JsValue W) (vs : List (JsValue W)) (e : FlatQuoteEntry W)
        (es : List (QuoteListEntry W))
        → schemas.quote_entry v ≡ none
        → schemas.flat_entry v ≡ some e
        → Quoted vs es
        → Quoted (v ∷ vs) (flat_to_nested schemas e ∷ es)
    refused :
        (v : JsValue W) (vs : List (JsValue W)) (es : List (QuoteListEntry W))
        → schemas.quote_entry v ≡ none
        → schemas.flat_entry v ≡ none
        → Quoted vs es
        → Quoted (v ∷ vs) es

  data_items :
      (ms : Members W) (v : JsValue W)
      → prop "data" ms ≡ v
      → ItemsOf (object ms) (members_of schemas (coalesce v (object ms)))
  data_items ms null h = no_data ms (inl h)
  data_items ms undefined h = no_data ms (inr h)
  data_items ms (boolean b) h = other_data ms (boolean b) h tt
  data_items ms (number x) h = other_data ms (number x) h tt
  data_items ms (str t) h = text_data ms t h
  data_items ms (array xs) h = list_data ms xs h
  data_items ms (object ns) h = object_data ms ns h

  quote_items-ItemsOf : (raw : JsValue W) → ItemsOf raw (quote_items schemas raw)
  unfolding quote_items
  quote_items-ItemsOf (array xs) = listed xs
  quote_items-ItemsOf (object ms) = data_items ms (prop "data" ms) refl
  quote_items-ItemsOf null = other null tt
  quote_items-ItemsOf undefined = other undefined tt
  quote_items-ItemsOf (boolean b) = other (boolean b) tt
  quote_items-ItemsOf (number x) = other (number x) tt
  quote_items-ItemsOf (str t) = other (str t) tt

  -- One item, by what the schemas answer.
  kept-Quoted :
      (v : JsValue W) (vs : List (JsValue W)) (es : List (QuoteListEntry W))
      (o : Option (QuoteListEntry W)) (f : Option (FlatQuoteEntry W))
      → schemas.quote_entry v ≡ o
      → schemas.flat_entry v ≡ f
      → Quoted vs es
      → Quoted (v ∷ vs) (kept (nested_or_flat schemas o f) es)
  kept-Quoted v vs es (some e) f h k q = nested v vs e es h q
  kept-Quoted v vs es none (some e) h k q = flat v vs e es h k q
  kept-Quoted v vs es none none h k q = refused v vs es h k q

  accepted-Quoted : (items : List (JsValue W)) → Quoted items (accepted (quote_of schemas) items)
  accepted-Quoted [] = over
  accepted-Quoted (v ∷ vs) = kept-Quoted v vs _ _ _ refl refl (accepted-Quoted vs)

  -- The quote events are, in order, those of the items that one of the two schemas accepts, the nested
  -- one first: no item is dropped that parses, and none is given twice. The items are those of a list,
  -- or of what an object holds under `data`, or of the object itself. If the addresses that the caller
  -- falls back to have the form of an address, each event's address has it, whatever the data says.
  pub normalize_cmc_quotes-accepted :
      (table : Table) (raw : JsValue W)
      → All (λ e. is_address e.1 ≡ true) table
      → (items : List (JsValue W)) × (entries : List (QuoteListEntry W)) × ItemsOf raw items
        × Quoted items entries
        × (normalize_cmc_quotes schemas table raw ≡ map (quote_event schemas table) entries)
        × All (λ q. is_address q.token_address ≡ true) (normalize_cmc_quotes schemas table raw)
  normalize_cmc_quotes-accepted table raw h = (
    quote_items schemas raw,
    accepted (quote_of schemas) (quote_items schemas raw),
    quote_items-ItemsOf raw,
    accepted-Quoted (quote_items schemas raw),
    normalize_cmc_quotes-map table raw,
    normalize_cmc_quotes-is_address table raw h,
  )
