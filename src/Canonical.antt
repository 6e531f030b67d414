-- ===== src/Canonical.antt =====
-- src/lib/utils/canonicalSerialize.ts. A text is the list of its UTF-16 units, and a value is a tree
-- whose objects carry their identity: one identity twice is one object that two places share. A cycle
-- of objects has no tree. `JSON.stringify`, and with it the order in which it lists the keys that are
-- numbers, is a parameter.
pub mod Keys
pub mod Order
pub mod Shared
use neurodegen.Common.{
  ℕ, Bool, true, false, ◌||◌, Option, none, some, List, [], ◌∷◌, ◌==◌, if◌then◌else◌, String,
}
use neurodegen.Common.Number.{Number}
use neurodegen.Common.Calls.{Result, ok, err}
use neurodegen.Canonical.Keys.{Key, sort}

-- A `bigint` is its decimal text, a `Date` its ISO text if it has one.
mutual
  pub data Value (W : Type 0) : Type 0 where
    null undefined : Value W
    bigint text : Key → Value W
    date : Option Key → Value W
    boolean : Bool → Value W
    number : W → Value W
    array : Items W → Value W
    object : ℕ → Fields W → Value W

  pub data Items (W : Type 0) : Type 0 where
    no_items : Items W
    item : Value W → Items W → Items W

  -- The keys are distinct.
  pub data Fields (W : Type 0) : Type 0 where
    no_fields : Fields W
    field : Key → Value W → Fields W → Fields W

-- What `walk` builds.
mutual
  pub data Json (W : Type 0) : Type 0 where
    j_null j_undefined : Json W
    j_text : Key → Json W
    j_boolean : Bool → Json W
    j_number : W → Json W
    j_array : Jsons W → Json W
    j_object : Entries W → Json W

  pub data Jsons (W : Type 0) : Type 0 where
    no_json : Jsons W
    json : Json W → Jsons W → Jsons W

  pub data Entries (W : Type 0) : Type 0 where
    no_entry : Entries W
    entry : Key → Json W → Entries W → Entries W

pub data Thrown : Type 0 where
  cycle_detected non_finite invalid_date : Thrown

-- The objects that were entered, the last first.
abbrev pub Seen : Type 0
Seen = List ℕ

abbrev pub Walk : Type 0 → Type 0
Walk A = Seen → Result Thrown (A × Seen)

abbrev pub has : ℕ → Seen → Bool
has i [] = false
has i (j ∷ s) = i == j || has i s

abbrev pub mapped : {A B : Type 0} → (A → B) → Result Thrown (A × Seen) → Result Thrown (B × Seen)
mapped f (ok (a, s)) = ok (f a, s)
mapped f (err e) = err e

-- One after the other.
abbrev pub both :
    {A B C : Type 0} → (A → B → C) → Result Thrown (A × Seen) → Walk B → Result Thrown (C × Seen)
both f (err e) next = err e
both f (ok (a, s)) next = mapped (f a) (next s)

module _ {W : Type 0} where
  abbrev pub is_undefined : Value W → Bool
  is_undefined undefined = true
  is_undefined _ = false

  abbrev pub run_all : List (Key × Walk (Json W)) → Walk (Entries W)
  run_all [] s = ok (no_entry, s)
  run_all ((k, c) ∷ rest) s = both (entry k) (c s) (run_all rest)

  -- `if (cv === undefined) continue`
  abbrev pub put_field :
      Key → Bool → Walk (Json W) → List (Key × Walk (Json W)) → List (Key × Walk (Json W))
  put_field k skipped c rest = if skipped then rest else (k, c) ∷ rest

  abbrev pub walk_object : ℕ → List (Key × Walk (Json W)) → Walk (Json W)
  walk_object i calls s =
      if has i s then err cycle_detected else mapped j_object (run_all calls (i ∷ s))

  abbrev of_date : Option Key → Walk (Json W)
  of_date none s = err invalid_date
  of_date (some t) s = ok (j_text t, s)

module _ {W : Type 0} ⦃num : Number W⦄ where
  -- The calls of an object's fields are put in the order of the keys and then made.
  unfoldable mutual
    pub walk : Value W → Walk (Json W)
    walk null s = ok (j_null, s)
    walk undefined s = ok (j_undefined, s)
    walk (bigint d) s = ok (j_text d, s)
    walk (text t) s = ok (j_text t, s)
    walk (date d) s = of_date d s
    walk (boolean b) s = ok (j_boolean b, s)
    walk (number n) s = if num.is_finite n then ok (j_number n, s) else err non_finite
    walk (array xs) s = mapped j_array (walk_items xs s)
    walk (object i fs) s = walk_object i (sort (walk_fields fs)) s

    pub walk_items : Items W → Walk (Jsons W)
    walk_items no_items s = ok (no_json, s)
    walk_items (item x xs) s = both json (walk x s) (walk_items xs)

    pub walk_fields : Fields W → List (Key × Walk (Json W))
    walk_fields no_fields = []
    walk_fields (field k v fs) = put_field k (is_undefined v) (walk v) (walk_fields fs)

  abbrev pub written :
      (Json W → Option String) → Result Thrown (Json W × Seen) → Result Thrown (Option String)
  written stringify (ok (j, s)) = ok (stringify j)
  written stringify (err e) = err e

  -- `JSON.stringify` has no text for `undefined`.
  unfoldable pub canonicalize : (Json W → Option String) → Value W → Result Thrown (Option String)
  canonicalize stringify v = written stringify (walk v [])
