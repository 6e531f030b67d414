-- ===== src/Common/JsValue.antt =====
-- A value that `JSON.parse` gives, or `undefined`, and how it is read: a property of `null` throws, a
-- missing one is `undefined`.
use package.text.Mathlib.Text.{◌==◌ as str_eq}
use neurodegen.Common.{
  ℕ, zero, suc, String, Bool, true, false, ◌||◌, Option, none, some, List, [], ◌∷◌, if◌then◌else◌,
}
use neurodegen.Common.Number.{Number}
use neurodegen.Common.OrderedMap.{OrderedMap}

mutual
  pub data JsValue (W : Type 0) : Type 0 where
    null undefined : JsValue W
    boolean : Bool → JsValue W
    number : W → JsValue W
    str : String → JsValue W
    array : Elements W → JsValue W
    object : Members W → JsValue W

  pub data Elements (W : Type 0) : Type 0 where
    no_elements : Elements W
    element : JsValue W → Elements W → Elements W

  -- The keys are distinct, in the order of the object.
  pub data Members (W : Type 0) : Type 0 where
    no_members : Members W
    member : String → JsValue W → Members W → Members W

module _ {W : Type 0} where
  abbrev pub elements : Elements W → List (JsValue W)
  elements no_elements = []
  elements (element x xs) = x ∷ elements xs

  abbrev pub of_list : List (JsValue W) → Elements W
  of_list [] = no_elements
  of_list (x ∷ xs) = element x (of_list xs)

  -- `Object.values`
  abbrev pub values : Members W → List (JsValue W)
  values no_members = []
  values (member k x ms) = x ∷ values ms

  abbrev pub of_map : OrderedMap (JsValue W) → Members W
  of_map [] = no_members
  of_map ((k, x) ∷ m) = member k x (of_map m)

  abbrev pub prop : String → Members W → JsValue W
  prop k no_members = undefined
  prop k (member j x ms) = if str_eq j k then x else prop k ms

  -- `v.k`, for a name that arrays and texts have no property of; `none` where it throws.
  abbrev pub field_of : String → JsValue W → Option (JsValue W)
  field_of k null = none
  field_of k undefined = none
  field_of k (object ms) = some (prop k ms)
  field_of k _ = some undefined

  -- `a ?? b`
  abbrev pub coalesce : JsValue W → JsValue W → JsValue W
  coalesce null b = b
  coalesce undefined b = b
  coalesce a b = a

  abbrev pub array_of : JsValue W → Option (List (JsValue W))
  array_of (array xs) = some (elements xs)
  array_of _ = none

  abbrev pub text_of : JsValue W → Option String
  text_of (str s) = some s
  text_of _ = none

  abbrev pub nth : List (JsValue W) → ℕ → JsValue W
  nth [] n = undefined
  nth (x ∷ xs) zero = x
  nth (x ∷ xs) (suc n) = nth xs n

module _ {W : Type 0} ⦃num : Number W⦄ where
  abbrev pub truthy : JsValue W → Bool
  truthy null = false
  truthy undefined = false
  truthy (boolean b) = b
  truthy (number n) = num.lt (num.of_nat 0) n || num.lt n (num.of_nat 0)
  truthy (str s) = if str_eq s "" then false else true
  truthy (array _) = true
  truthy (object _) = true
