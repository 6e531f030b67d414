-- ===== src/Twak/Hash.antt =====
-- `syntheticTxHash` of src/lib/clients/twakClient.ts. A text is the list of its UTF-16 units.
-- `hash * 31 + unit` stays below 2 ^ 53, so only `>>> 0` wraps.
use neurodegen.Common.{
  ℕ, suc, zero, ◌+◌, ◌*◌, ◌/◌, ◌%◌, ◌^◌, ◌<◌, ◌≡◌, refl, List, [], ◌∷◌, ◌++◌, arith, length,
  length-append, All,
}

-- One step of the loop: `(hash * 31 + unit) >>> 0`
unfoldable pub hash_from : ℕ → List ℕ → ℕ
hash_from hash [] = hash
hash_from hash (u ∷ us) = hash_from ((hash * 31 + u) % 2 ^ 32) us

-- `toString(16)` of a number below 2 ^ 32, `padStart(8, '0')`: its eight digits, the last first taken.
unfoldable pub digits : ℕ → ℕ → List ℕ
digits zero n = []
digits (suc k) n = digits k (n / 16) ++ (n % 16 ∷ [])

abbrev repeat : ℕ → List ℕ → List ℕ
repeat zero ds = []
repeat (suc k) ds = ds ++ repeat k ds

-- The digits after `0x`.
unfoldable pub synthetic_tx_hash : List ℕ → List ℕ
synthetic_tx_hash seed = repeat 8 (digits 8 (hash_from 0 seed))

hash_from-lt : (seed : List ℕ) (h : ℕ) → h < 2 ^ 32 → hash_from h seed < 2 ^ 32
unfolding hash_from
hash_from-lt [] h k = k
hash_from-lt (u ∷ us) h k = hash_from-lt us _ (omega arith)

-- The number that the digits write.
abbrev pub value : ℕ → List ℕ → ℕ
value acc [] = acc
value acc (d ∷ ds) = value (acc * 16 + d) ds

value-snoc : (acc d : ℕ) (ds : List ℕ) → value acc (ds ++ (d ∷ [])) ≡ value acc ds * 16 + d
value-snoc acc d [] = refl
value-snoc acc d (e ∷ ds) = value-snoc (acc * 16 + e) d ds

length-digits : (k n : ℕ) → length (digits k n) ≡ k
unfolding digits
length-digits zero n = refl
length-digits (suc k) n =
    omega (arith, length-append (digits k (n / 16)) (n % 16 ∷ []), length-digits k (n / 16))

All-snoc :
    (ds : List ℕ) (d : ℕ) → All (λ e. e < 16) ds → d < 16 → All (λ e. e < 16) (ds ++ (d ∷ []))
All-snoc [] d h k = (k, tt)
All-snoc (e ∷ ds) d h k = (h.0, All-snoc ds d h.1 k)

value-digits : (k n : ℕ) → n < 16 ^ k → value 0 (digits k n) ≡ n
unfolding digits
value-digits zero n h = omega (arith, h)
value-digits (suc k) n h =
    omega
      (arith, value-snoc 0 (n % 16) (digits k (n / 16)), value-digits k (n / 16) (omega (arith, h)))

digits-lt : (k n : ℕ) → All (λ d. d < 16) (digits k n)
unfolding digits
digits-lt zero n = tt
digits-lt (suc k) n = All-snoc (digits k (n / 16)) (n % 16) (digits-lt k (n / 16)) (omega arith)

All-append :
    (ds es : List ℕ) → All (λ d. d < 16) ds → All (λ d. d < 16) es → All (λ d. d < 16) (ds ++ es)
All-append [] es h k = k
All-append (d ∷ ds) es h k = (h.0, All-append ds es h.1 k)

All-repeat : (k : ℕ) (ds : List ℕ) → All (λ d. d < 16) ds → All (λ d. d < 16) (repeat k ds)
All-repeat zero ds h = tt
All-repeat (suc k) ds h = All-append ds (repeat k ds) h (All-repeat k ds h)

length-repeat : (k : ℕ) (ds : List ℕ) → length (repeat k ds) ≡ k * length ds
length-repeat zero ds = omega arith
length-repeat (suc k) ds = omega (arith, length-append ds (repeat k ds), length-repeat k ds)

-- A synthetic hash has 64 hexadecimal digits, whatever the seed is, and the eight digits that it
-- repeats write the number that the loop ends with, which is below 2 ^ 32: no digit is lost.
pub synthetic_tx_hash-digits :
    (seed : List ℕ)
    → (length (synthetic_tx_hash seed) ≡ 64)
      × All (λ d. d < 16) (synthetic_tx_hash seed)
      × (value 0 (digits 8 (hash_from 0 seed)) ≡ hash_from 0 seed)
      × (hash_from 0 seed < 2 ^ 32)
unfolding synthetic_tx_hash
synthetic_tx_hash-digits seed =
    let small = hash_from-lt seed 0 (omega arith) in
    let each = length-digits 8 (hash_from 0 seed) in
    (
      omega (arith, length-repeat 8 (digits 8 (hash_from 0 seed)), each),
      All-repeat 8 _ (digits-lt 8 (hash_from 0 seed)),
      value-digits 8 (hash_from 0 seed) (omega (arith, small)),
      small,
    )
