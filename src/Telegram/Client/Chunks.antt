-- ===== src/Telegram/Client/Chunks.antt =====
-- What a split text holds.
use neurodegen.Common.{
  ℕ, suc, zero, ◌+◌, ◌≤◌, ◌<◌, ◌≡◌, refl, sym, not, Option, none, some, List, [], ◌∷◌, ◌++◌, arith,
  ap, All, leb, length, filter, Bool-cases, Option-cases, leb→le, inl, inr, ◌∙◌,
}
use neurodegen.Telegram.Client.{
  Text, slice_before, slice_from, is_newline, last_newline, cut_of, strip_newlines, last_chunk,
  chunks_on, chunk_message,
}

-- The text without its line breaks.
abbrev pub letters : Text → Text
letters t = filter (λ c. not (is_newline c)) t

abbrev pub concat : List Text → Text
concat [] = []
concat (t ∷ ts) = t ++ concat ts

abbrev Fits : ℕ → Text → Type 0
Fits limit t = length t ≤ limit

append_nil : (t : Text) → t ++ [] ≡ t
append_nil [] = refl
append_nil (c ∷ t) = ap (λ s. c ∷ s) (append_nil t)

letters-append : (s t : Text) → letters (s ++ t) ≡ letters s ++ letters t
letters-append [] t = refl
letters-append (c ∷ s) t = elim (Bool-cases (is_newline c)) [
  | inl e ↦ rw e (letters-append s t)
  | inr e ↦ rw e (ap (λ r. c ∷ r) (letters-append s t))
]

letters-strip : (t : Text) → letters (strip_newlines t) ≡ letters t
letters-strip [] = refl
letters-strip (c ∷ t) = ground (arith, letters-strip t)

slices : (n : ℕ) (t : Text) → slice_before n t ++ slice_from n t ≡ t
slices zero t = refl
slices (suc n) [] = refl
slices (suc n) (c ∷ t) = ap (λ s. c ∷ s) (slices n t)

length-slice_before : (n : ℕ) (t : Text) → length (slice_before n t) ≤ n
length-slice_before zero t = omega arith
length-slice_before (suc n) [] = omega arith
length-slice_before (suc n) (c ∷ t) = omega (arith, length-slice_before n t)

length-slice_from : (n : ℕ) (t : Text) → n ≤ length t → length (slice_from n t) + n ≤ length t
length-slice_from zero t h = omega arith
length-slice_from (suc n) [] h = omega (arith, h)
length-slice_from (suc n) (c ∷ t) h = omega (arith, length-slice_from n t (omega (arith, h)))

length-strip : (t : Text) → length (strip_newlines t) ≤ length t
length-strip [] = omega arith
length-strip (c ∷ t) = ground (arith, length-strip t)

last_newline-le : (n : ℕ) (t : Text) (k : ℕ) → last_newline n t ≡ some k → k ≤ n
last_newline-le n [] k h = ground (arith, h)
last_newline-le zero (c ∷ t) k h = ground (arith, h)
last_newline-le (suc n) (c ∷ t) k h = elim (Option-cases (last_newline n t)) [
  | inl e ↦ ground (arith, h, e)
  | inr (j, e) ↦ ground (arith, h, e, last_newline-le n t j e)
]

cut_of-bounds :
    (limit : ℕ) (o : Option ℕ)
    → 1 ≤ limit
    → ((k : ℕ) → o ≡ some k → k ≤ limit)
    → (1 ≤ cut_of limit o) × (cut_of limit o ≤ limit)
cut_of-bounds limit none h b = (h, omega arith)
cut_of-bounds limit (some zero) h b = (h, omega arith)
cut_of-bounds limit (some (suc n)) h b = (omega arith, b (suc n) refl)

last_chunk-Fits : (limit : ℕ) (t : Text) → length t ≤ limit → All (Fits limit) (last_chunk t)
last_chunk-Fits limit [] h = tt
last_chunk-Fits limit (c ∷ t) h = (h, tt)

concat-last_chunk : (t : Text) → concat (last_chunk t) ≡ t
concat-last_chunk [] = refl
concat-last_chunk (c ∷ t) = append_nil (c ∷ t)

module _ (limit : ℕ) (positive : 1 ≤ limit) where
  -- Cutting and stripping lose line breaks alone.
  letters-cut :
      (cut : ℕ) (t : Text)
      → letters (slice_before cut t) ++ letters (strip_newlines (slice_from cut t)) ≡ letters t
  letters-cut cut t =
      rw (letters-strip (slice_from cut t))
        (sym (letters-append (slice_before cut t) (slice_from cut t)) ∙ ap letters (slices cut t))

  chunks_on-Fits :
      (fuel : ℕ) (t : Text)
      → length t ≤ fuel
      → All (Fits limit) (chunks_on fuel limit t)
        × (letters (concat (chunks_on fuel limit t)) ≡ letters t)
  unfolding chunks_on
  chunks_on-Fits zero t h =
      (last_chunk-Fits limit t (omega (arith, h, positive)), ap letters (concat-last_chunk t))
  chunks_on-Fits (suc fuel) t h =
      let cut = cut_of limit (last_newline limit t) in
      let rest = strip_newlines (slice_from cut t) in
      let bounds = cut_of-bounds limit (last_newline limit t) positive (last_newline-le limit t) in
      elim (Bool-cases (leb (length t) limit)) [
        | inl e ↦ rw e (last_chunk-Fits limit t (leb→le _ _ e), ap letters (concat-last_chunk t))
        | inr e ↦
            let longer : limit < length t = ground (arith, e) in
            let (fits, same) = chunks_on-Fits fuel rest (
              omega (
                arith,
                h,
                bounds,
                longer,
                length-strip (slice_from cut t),
                length-slice_from cut t (omega (arith, bounds, longer)),
              )) in
            let head : length (slice_before cut t) ≤ limit =
              omega (arith, length-slice_before cut t, bounds) in
            rw e (
              (head, fits),
              letters-append (slice_before cut t) (concat (chunks_on fuel limit rest))
                  ∙ (ap (λ s. letters (slice_before cut t) ++ s) same ∙ letters-cut cut t),
            )
      ]

  -- For a limit above zero, every chunk of a split text is within the limit, and the chunks together
  -- hold the text's characters in their order, line breaks excepted.
  pub chunk_message-Fits :
      (t : Text)
      → All (λ c. length c ≤ limit) (chunk_message limit t)
        × (letters (concat (chunk_message limit t)) ≡ letters t)
  unfolding chunk_message
  chunk_message-Fits t = elim (Bool-cases (leb (length t) limit)) [
    | inl e ↦ rw e ((leb→le _ _ e, tt), ap letters (append_nil t))
    | inr e ↦ rw e (chunks_on-Fits (length t) t (omega arith))
  ]
