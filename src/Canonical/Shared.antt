-- ===== src/Canonical/Shared.antt =====
-- `canonicalize` and an object that two places share: the set `seen` through a walk.
use neurodegen.Common.{
  ℕ, ◌≡◌, refl, ◌∙◌, Bool, true, false, Option, some, none, List, [], ◌∷◌, String, All, arith,
  Bool-cases, inl, inr,
}
use neurodegen.Common.Number.{Number}
use neurodegen.Common.Calls.{Result, ok, err}
use neurodegen.Canonical.{
  Value, null, undefined, bigint, text, date, boolean, number, array, object, Items, no_items, item,
  Fields, no_fields, field, Json, j_array, j_object, json, entry, Thrown, Seen, Walk, has, walk,
  walk_items, walk_fields, walk_object, written, is_undefined, mapped, both, run_all, put_field,
  canonicalize,
}
use neurodegen.Canonical.Keys.{Key, key_lt, sort, insert_key}

Kept : {A : Type 0} → Seen → Result Thrown (A × Seen) → Type 0
Kept s (ok (a, t)) = (i : ℕ) → has i s ≡ true → has i t ≡ true
Kept s (err e) = Unit

abbrev Grows : {A : Type 0} → Walk A → Type 0
Grows c = (s : Seen) → Kept s (c s)

Kept-trans :
    {A : Type 0} (s u : Seen) (r : Result Thrown (A × Seen))
    → ((i : ℕ) → has i s ≡ true → has i u ≡ true)
    → Kept u r
    → Kept s r
unfolding Kept
Kept-trans s u (ok (a, t)) h k = λ i e. k i (h i e)
Kept-trans s u (err e) h k = tt

mapped-Kept :
    {A B : Type 0} (f : A → B) (s : Seen) (r : Result Thrown (A × Seen))
    → Kept s r
    → Kept s (mapped f r)
unfolding Kept
mapped-Kept f s (ok (a, t)) h = h
mapped-Kept f s (err e) h = tt

both-Kept :
    {A B C : Type 0} (f : A → B → C) (s : Seen) (r : Result Thrown (A × Seen)) (next : Walk B)
    → Kept s r
    → Grows next
    → Kept s (both f r next)
unfolding Kept
both-Kept f s (ok (a, u)) next h k = mapped-Kept (f a) s (next u) (Kept-trans s u (next u) h (k u))
both-Kept f s (err e) next h k = tt

insert_key-All :
    {A : Type 0} (P : Key × A → Type 0) (e : Key × A) (l : List (Key × A))
    → P e
    → All P l
    → All P (insert_key e l)
unfolding insert_key
insert_key-All P e [] h hs = (h, tt)
insert_key-All P e (d ∷ l) h hs = elim (Bool-cases (key_lt d.0 e.0)) [
  | inl x ↦ rw x ((hs.0, insert_key-All P e l h hs.1))
  | inr x ↦ rw x ((h, hs))
]

sort-All : {A : Type 0} (P : Key × A → Type 0) (l : List (Key × A)) → All P l → All P (sort l)
unfolding sort
sort-All P [] h = tt
sort-All P (e ∷ l) h = insert_key-All P e (sort l) h.0 (sort-All P l h.1)

has-enter : (i j : ℕ) (s : Seen) → has j s ≡ true → has j (i ∷ s) ≡ true
has-enter i j s h = ground (arith, h)

-- `i` is among the objects that were entered.
Entered : {A : Type 0} → ℕ → Result Thrown (A × Seen) → Type 0
Entered i (ok (a, t)) = has i t ≡ true
Entered i (err e) = Unit

Kept-Entered :
    {A : Type 0} (i : ℕ) (s : Seen) (r : Result Thrown (A × Seen))
    → has i s ≡ true
    → Kept s r
    → Entered i r
unfolding Kept Entered
Kept-Entered i s (ok (a, t)) h k = k i h
Kept-Entered i s (err e) h k = tt

mapped-Entered :
    {A B : Type 0} (f : A → B) (i : ℕ) (r : Result Thrown (A × Seen))
    → Entered i r
    → Entered i (mapped f r)
unfolding Entered
mapped-Entered f i (ok (a, t)) h = h
mapped-Entered f i (err e) h = tt

abbrev pub is_ok : {A : Type 0} → Result Thrown A → Bool
is_ok (ok _) = true
is_ok (err _) = false

is_ok-mapped :
    {A B : Type 0} (f : A → B) (r : Result Thrown (A × Seen)) → is_ok (mapped f r) ≡ is_ok r
is_ok-mapped f (ok (a, t)) = refl
is_ok-mapped f (err e) = refl

both-refused :
    {A B C : Type 0} (f : A → B → C) (i : ℕ) (r : Result Thrown (A × Seen)) (next : Walk B)
    → Entered i r
    → ((t : Seen) → has i t ≡ true → is_ok (next t) ≡ false)
    → is_ok (both f r next) ≡ false
unfolding Entered
both-refused f i (ok (a, t)) next h k = is_ok-mapped (f a) (next t) ∙ k t h
both-refused f i (err e) next h k = refl

module _ {W : Type 0} where
  abbrev AllGrow : List (Key × Walk (Json W)) → Type 0
  AllGrow l = All (λ e. Grows e.1) l

  run_all-Grows : (l : List (Key × Walk (Json W))) → AllGrow l → Grows (run_all l)
  unfolding Kept
  run_all-Grows [] h s = λ i e. e
  run_all-Grows ((k, c) ∷ l) h s =
      both-Kept (entry k) s (c s) (run_all l) (h.0 s) (run_all-Grows l h.1)

  put_field-AllGrow :
      (k : Key) (u : Bool) (c : Walk (Json W)) (l : List (Key × Walk (Json W)))
      → Grows c
      → AllGrow l
      → AllGrow (put_field k u c l)
  put_field-AllGrow k true c l h hs = hs
  put_field-AllGrow k false c l h hs = (h, hs)

  walk_object-Grows : (i : ℕ) (l : List (Key × Walk (Json W))) → AllGrow l → Grows (walk_object i l)
  unfolding Kept
  walk_object-Grows i l h s = elim (Bool-cases (has i s)) [
    | inl e ↦ rw e tt
    | inr e ↦ rw e (
        mapped-Kept j_object s (run_all l (i ∷ s))
          (Kept-trans s (i ∷ s) _ (λ j. has-enter i j s) (run_all-Grows l h (i ∷ s))))
  ]

  walk_object-Entered :
      (i : ℕ) (l : List (Key × Walk (Json W))) (s : Seen)
      → AllGrow l
      → Entered i (walk_object i l s)
  unfolding Entered
  walk_object-Entered i l s h = elim (Bool-cases (has i s)) [
    | inl e ↦ rw e tt
    | inr e ↦ rw e (
        mapped-Entered j_object i (run_all l (i ∷ s))
          (Kept-Entered i (i ∷ s) _ (ground arith) (run_all-Grows l h (i ∷ s))))
  ]

  abbrev pub items_before : List (Value W) → Items W → Items W
  items_before [] rest = rest
  items_before (v ∷ vs) rest = item v (items_before vs rest)

module _ {W : Type 0} ⦃num : Number W⦄ where
  mutual
    unfolding walk Kept

    walk-Grows : (v : Value W) → Grows (walk v)
    walk-Grows null s = λ i e. e
    walk-Grows undefined s = λ i e. e
    walk-Grows (bigint d) s = λ i e. e
    walk-Grows (text t) s = λ i e. e
    walk-Grows (date none) s = tt
    walk-Grows (date (some t)) s = λ i e. e
    walk-Grows (boolean b) s = λ i e. e
    walk-Grows (number n) s = elim (Bool-cases (num.is_finite n)) [
      | inl e ↦ rw e (λ i h. h)
      | inr e ↦ rw e tt
    ]
    walk-Grows (array xs) s = mapped-Kept j_array s (walk_items xs s) (walk_items-Grows xs s)
    walk-Grows (object i fs) s =
        walk_object-Grows i (sort (walk_fields fs))
          (sort-All _ (walk_fields fs) (walk_fields-AllGrow fs)) s

    walk_items-Grows : (xs : Items W) → Grows (walk_items xs)
    walk_items-Grows no_items s = λ i e. e
    walk_items-Grows (item x xs) s =
        both-Kept json s (walk x s) (walk_items xs) (walk-Grows x s) (walk_items-Grows xs)

    walk_fields-AllGrow : (fs : Fields W) → AllGrow (walk_fields fs)
    walk_fields-AllGrow no_fields = tt
    walk_fields-AllGrow (field k v fs) =
        put_field-AllGrow k (is_undefined v) (walk v) (walk_fields fs) (walk-Grows v)
          (walk_fields-AllGrow fs)

  -- An object that was entered is not walked again, in what stands behind it.
  walk_items-refused :
      (i : ℕ) (gs : Fields W) (rest : Items W) (between : List (Value W)) (s : Seen)
      → has i s ≡ true
      → is_ok (walk_items (items_before between (item (object i gs) rest)) s) ≡ false
  unfolding walk
  walk_items-refused i gs rest [] s h = rw h refl
  walk_items-refused i gs rest (v ∷ vs) s h =
      both-refused json i (walk v s) _ (Kept-Entered i s (walk v s) h (walk-Grows v s))
        (walk_items-refused i gs rest vs)

  is_ok-written :
      (stringify : Json W → Option String) (r : Result Thrown (Json W × Seen))
      → is_ok (written stringify r) ≡ is_ok r
  is_ok-written stringify (ok (j, s)) = refl
  is_ok-written stringify (err e) = refl

  -- An array that holds one object twice, with any values between and after, has no text: it throws,
  -- whatever the object holds.
  pub canonicalize-shared :
      (stringify : Json W → Option String) (i : ℕ) (fs : Fields W) (between : List (Value W))
      (rest : Items W)
      → is_ok (
          canonicalize stringify
            (array (item (object i fs) (items_before between (item (object i fs) rest)))))
        ≡ false
  unfolding canonicalize walk
  canonicalize-shared stringify i fs between rest =
      let later = items_before between (item (object i fs) rest) in
      let calls = sort (walk_fields fs) in
      let entered =
        walk_object-Entered i calls [] (sort-All _ (walk_fields fs) (walk_fields-AllGrow fs)) in
      is_ok-written stringify (walk (array (item (object i fs) later)) [])
      ∙ (is_ok-mapped j_array (walk_items (item (object i fs) later) [])
          ∙ both-refused json i (walk (object i fs) []) (walk_items later) entered
              (walk_items-refused i fs rest between))
