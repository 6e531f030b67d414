-- ===== src/Canonical/Order.antt =====
-- `canonicalize` and the order in which the fields of an object were written.
use mathlib.Core.Path.{fun_ext}
use neurodegen.Common.{ℕ, ◌≡◌, ◌≢◌, refl, ap, sym, ◌∙◌, Bool, true, false, Option, List, [], String}
use neurodegen.Common.Number.{Number}
use neurodegen.Canonical.{
  Value, array, object, Items, no_items, item, Fields, no_fields, field, Json, j_array, json, Walk,
  walk, walk_items, walk_fields, walk_object, written, is_undefined, mapped, both, put_field,
  canonicalize,
}
use neurodegen.Canonical.Keys.{Key, sort, insert_key, insert_key_comm}

-- The two differ in the order of the fields of objects only, at any depth.
mutual
  pub data Reordered {W : Type 0} : Value W → Value W → Type 0 where
    same : {v : Value W} → Reordered v v
    arrays : {xs ys : Items W} → ReorderedItems xs ys → Reordered (array xs) (array ys)
    objects :
        {i : ℕ} {fs gs : Fields W} → ReorderedFields fs gs → Reordered (object i fs) (object i gs)

  pub data ReorderedItems {W : Type 0} : Items W → Items W → Type 0 where
    items_end : ReorderedItems no_items no_items
    items_step :
        {v w : Value W} {xs ys : Items W}
        → Reordered v w
        → ReorderedItems xs ys
        → ReorderedItems (item v xs) (item w ys)

  pub data ReorderedFields {W : Type 0} : Fields W → Fields W → Type 0 where
    fields_end : ReorderedFields no_fields no_fields
    fields_step :
        {k : Key} {v w : Value W} {fs gs : Fields W}
        → Reordered v w
        → ReorderedFields fs gs
        → ReorderedFields (field k v fs) (field k w gs)
    fields_swap :
        {j k : Key} {v w : Value W} {fs : Fields W}
        → j ≢ k
        → ReorderedFields (field j v (field k w fs)) (field k w (field j v fs))
    fields_trans :
        {fs gs hs : Fields W}
        → ReorderedFields fs gs
        → ReorderedFields gs hs
        → ReorderedFields fs hs

module _ {W : Type 0} where
  abbrev put_sorted :
      Key → Bool → Walk (Json W) → List (Key × Walk (Json W)) → List (Key × Walk (Json W))
  put_sorted k true c l = l
  put_sorted k false c l = insert_key (k, c) l

  sort-put_field :
      (k : Key) (u : Bool) (c : Walk (Json W)) (l : List (Key × Walk (Json W)))
      → sort (put_field k u c l) ≡ put_sorted k u c (sort l)
  unfolding sort
  sort-put_field k true c l = refl
  sort-put_field k false c l = refl

  put_sorted_comm :
      (j k : Key) (u t : Bool) (c d : Walk (Json W)) (l : List (Key × Walk (Json W)))
      → j ≢ k
      → put_sorted j u c (put_sorted k t d l) ≡ put_sorted k t d (put_sorted j u c l)
  put_sorted_comm j k true t c d l h = refl
  put_sorted_comm j k false true c d l h = refl
  put_sorted_comm j k false false c d l h = insert_key_comm j k c d l h

  is_undefined-Reordered : {v w : Value W} → Reordered v w → is_undefined v ≡ is_undefined w
  is_undefined-Reordered same = refl
  is_undefined-Reordered (arrays _) = refl
  is_undefined-Reordered (objects _) = refl

module _ {W : Type 0} ⦃num : Number W⦄ where
  sort-field :
      (k : Key) (v : Value W) (fs : Fields W)
      → sort (walk_fields (field k v fs))
        ≡ put_sorted k (is_undefined v) (walk v) (sort (walk_fields fs))
  unfolding walk
  sort-field k v fs = sort-put_field k (is_undefined v) (walk v) (walk_fields fs)

  mutual
    unfolding walk

    walk-Reordered : {v w : Value W} → Reordered v w → walk v ≡ walk w
    walk-Reordered same = refl
    walk-Reordered (arrays h) = λ t s. mapped j_array (walk_items-Reordered h t s)
    walk-Reordered (objects {i} {fs} {gs} h) =
        fun_ext (λ s. ap (λ l. walk_object i l s) (walk_fields-Reordered h))

    walk_items-Reordered : {xs ys : Items W} → ReorderedItems xs ys → walk_items xs ≡ walk_items ys
    walk_items-Reordered items_end = refl
    walk_items-Reordered (items_step h hs) =
        λ t s. both json (walk-Reordered h t s) (walk_items-Reordered hs t)

    walk_fields-Reordered :
        {fs gs : Fields W} → ReorderedFields fs gs → sort (walk_fields fs) ≡ sort (walk_fields gs)
    walk_fields-Reordered fields_end = refl
    walk_fields-Reordered (fields_step {k} {v} {w} {fs} {gs} h hs) =
        sort-field k v fs
        ∙ ((λ t.
              put_sorted k (is_undefined-Reordered h t) (walk-Reordered h t)
                (walk_fields-Reordered hs t))
            ∙ sym (sort-field k w gs))
    walk_fields-Reordered (fields_swap {j} {k} {v} {w} {fs} h) =
        sort-field j v (field k w fs)
        ∙ (ap (put_sorted j (is_undefined v) (walk v)) (sort-field k w fs)
            ∙ (put_sorted_comm j k (is_undefined v) (is_undefined w) (walk v) (walk w) _ h
                ∙ (sym (ap (put_sorted k (is_undefined w) (walk w)) (sort-field j v fs))
                    ∙ sym (sort-field k w (field j v fs)))))
    walk_fields-Reordered (fields_trans h k) = walk_fields-Reordered h ∙ walk_fields-Reordered k

  -- Two values that differ in the order of the fields of their objects only, at any depth, serialize
  -- to the same text, or both throw the same error.
  pub canonicalize-Reordered :
      (stringify : Json W → Option String) (v w : Value W)
      → Reordered v w
      → canonicalize stringify v ≡ canonicalize stringify w
  unfolding canonicalize
  canonicalize-Reordered stringify v w h = ap (λ f. written stringify (f [])) (walk-Reordered h)
