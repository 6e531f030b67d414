-- ===== src/Common/OrderedMap.antt =====
-- JavaScript's `Map` with text keys: entries in insertion order. `set` of a key that is there keeps its
-- place; `delete` and `set` again move it to the end.
use Prim.Native.Nat.{◌+◌, ◌≤◌}
use Prim.Native.String.{String}
use mathlib.Core.Path.{◌≡◌, refl}
use mathlib.Core.Bool.{true}
use mathlib.Core.Option.{Option, none, some}
use mathlib.Core.List.{List, [], ◌∷◌}
use native.Mathlib.Omega.{arith}
use package.text.Mathlib.Text.{◌==◌ as str_eq}
use package.text.Mathlib.TextEquality.{eq_iff}
use neurodegen.Common.Tests.{if◌then◌else◌}
use neurodegen.Common.Lists.{length, is_some}

abbrev pub OrderedMap {ℓ} : Type ℓ → Type ℓ
OrderedMap V = List (String × V)

module _ {ℓ} {V : Type ℓ} where
  unfoldable pub get : String → OrderedMap V → Option V
  get k [] = none
  get k ((j, v) ∷ m) = if str_eq j k then some v else get k m

  unfoldable pub delete : String → OrderedMap V → OrderedMap V
  delete k [] = []
  delete k ((j, v) ∷ m) = let rest = delete k m in if str_eq j k then rest else (j, v) ∷ rest

  unfoldable pub set : String → V → OrderedMap V → OrderedMap V
  set k v [] = (k, v) ∷ []
  set k v ((j, w) ∷ m) = if str_eq j k then (k, v) ∷ m else (j, w) ∷ set k v m

  pub get-delete :
      (k j : String) (m : OrderedMap V)
      → get j (delete k m) ≡ (if str_eq k j then none else get j m)
  unfolding get delete
  get-delete k j [] = ground arith
  get-delete k j ((i, w) ∷ m) = ground (arith, get-delete k j m, eq_iff i k, eq_iff i j, eq_iff k j)

  pub get-set :
      (k j : String) (v : V) (m : OrderedMap V)
      → get j (set k v m) ≡ (if str_eq k j then some v else get j m)
  unfolding get set
  get-set k j v [] = refl
  get-set k j v ((i, w) ∷ m) = ground (arith, eq_iff k j, eq_iff i k, eq_iff i j, get-set k j v m)

  pub length-delete : (k : String) (m : OrderedMap V) → length (delete k m) ≤ length m
  unfolding delete
  length-delete k [] = omega arith
  length-delete k ((j, v) ∷ m) = ground (arith, length-delete k m)

  pub length-set :
      (k : String) (v : V) (m : OrderedMap V)
      → length (set k v m) ≡ (if is_some (get k m) then length m else length m + 1)
  unfolding get set
  length-set k v [] = omega arith
  length-set k v ((j, w) ∷ m) = ground (arith, length-set k v m)

  pub length-delete_self :
      (k : String) (m : OrderedMap V)
      → is_some (get k m) ≡ true
      → length (delete k m) + 1 ≤ length m
  unfolding get delete
  length-delete_self k [] h = ground arith
  length-delete_self k ((j, v) ∷ m) h = ground (arith, length-delete_self k m, length-delete k m)
