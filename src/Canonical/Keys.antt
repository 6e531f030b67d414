-- ===== src/Canonical/Keys.antt =====
-- `Object.keys(v).sort()` of src/lib/utils/canonicalSerialize.ts: the order of the UTF-16 units.
use neurodegen.Common.{
  ℕ, ◌≡◌, ◌≢◌, refl, ◌⊎◌, Bool, true, false, not, List, [], ◌∷◌, ltb, arith, if◌then◌else◌,
  Bool-cases, inl, inr,
}

abbrev pub Key : Type 0
Key = List ℕ

unfoldable pub key_lt : Key → Key → Bool
key_lt _ [] = false
key_lt [] (_ ∷ _) = true
key_lt (x ∷ xs) (y ∷ ys) =
    let rest = key_lt xs ys in if ltb x y then true else if ltb y x then false else rest

unfoldable pub insert_key : {A : Type 0} → Key × A → List (Key × A) → List (Key × A)
insert_key (k, a) [] = (k, a) ∷ []
insert_key (k, a) ((j, b) ∷ rest) =
    let later = insert_key (k, a) rest in
    if key_lt j k then (j, b) ∷ later else (k, a) ∷ (j, b) ∷ rest

-- The keys of an object are distinct, so that one order of them is sorted.
unfoldable pub sort : {A : Type 0} → List (Key × A) → List (Key × A)
sort [] = []
sort (x ∷ xs) = insert_key x (sort xs)

key_lt-cases : (j k : Key) → (j ≡ k) ⊎ (key_lt j k ≡ not (key_lt k j))
unfolding key_lt
key_lt-cases [] [] = inl refl
key_lt-cases [] (y ∷ ys) = inr refl
key_lt-cases (x ∷ xs) [] = inr refl
key_lt-cases (x ∷ xs) (y ∷ ys) = elim (Bool-cases (ltb x y)) [
  | inl e ↦ inr (ground (arith, e))
  | inr e ↦ elim (Bool-cases (ltb y x)) [
    | inl f ↦ inr (ground (arith, f))
    | inr f ↦
        let same : x ≡ y = ground (arith, e, f) in
        elim (key_lt-cases xs ys) [
          | inl g ↦ inl (λ t. same t ∷ g t)
          | inr g ↦ inr (ground (arith, e, f, g))
        ]
  ]
]

key_lt-flip : (j k : Key) → j ≢ k → key_lt j k ≡ not (key_lt k j)
key_lt-flip j k h = elim (key_lt-cases j k) [ inl e ↦ elim (h e) [ ] | inr e ↦ e ]

-- `b` is not after `c`, which is before `a`.
key_lt_trans : (b c a : Key) → key_lt c b ≡ false → key_lt c a ≡ true → key_lt b a ≡ true
unfolding key_lt
key_lt_trans b c [] h k = ground (arith, h, k)
key_lt_trans [] c (y ∷ ys) h k = refl
key_lt_trans (x ∷ xs) [] (y ∷ ys) h k = ground (arith, h, k)
key_lt_trans (x ∷ xs) (z ∷ zs) (y ∷ ys) h k = ground (arith, h, k, key_lt_trans xs zs ys)

pub insert_key_comm :
    {A : Type 0} (j k : Key) (a b : A) (l : List (Key × A))
    → j ≢ k
    → insert_key (j, a) (insert_key (k, b) l) ≡ insert_key (k, b) (insert_key (j, a) l)
unfolding insert_key
insert_key_comm j k a b [] h = ground (arith, h, key_lt-flip j k h)
insert_key_comm j k a b ((c, d) ∷ l) h =
    ground (
      arith,
      key_lt-flip j k h,
      key_lt_trans j c k,
      key_lt_trans k c j,
      insert_key_comm j k a b l h,
    )
