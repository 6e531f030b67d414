-- ===== src/Skill/Candidate.antt =====
-- `selectCandidate` of skills/neurodegen-committee/src/committee.ts. A set is the list it is built
-- from: repeats do not change what the first match is.
use text.Mathlib.Text.{◌==◌ as str_eq}
use text.Mathlib.TextEquality.{eq_iff}
use mathlib.Core.Path.{subst}
use neurodegen.Common.{
  ◌≡◌, refl, String, Bool, true, ◌&&◌, Option, none, some, List, [], ◌∷◌, ◌++◌, arith, any, filter,
  map, if◌then◌else◌, Bool-cases, Option-cases, &&-split, inl, inr, sym,
}
use neurodegen.Common.Number.{Number}
use neurodegen.Cognition.{NarrativeOutput}
use neurodegen.Skill.{MarketSnapshot, QuantAnalystOutput}

abbrev pub has : List String → String → Bool
has xs s = any (λ x. str_eq x s) xs

-- The token as a set of none or one: an empty text is dropped as null is.
abbrev pub singleton : Option String → List String
singleton none = []
singleton (some s) = if str_eq s "" then [] else s ∷ []

-- The first of the texts that passes.
unfoldable pub first_where : (String → Bool) → List String → Option String
first_where p [] = none
first_where p (s ∷ ss) = let later = first_where p ss in if p s then some s else later

-- What is returned: the first loop that returns.
abbrev or_else : Option String → Option String → Option String
or_else none o = o
or_else (some s) o = some s

module _ {W : Type 0} where
  abbrev narrative_tokens : NarrativeOutput W → List String
  narrative_tokens n = n.kol_mentioned_tokens ++ singleton n.top_thesis_token

  abbrev quant_tokens : QuantAnalystOutput W → List String
  quant_tokens q = singleton q.recommended_token

module _ {W : Type 0} ⦃num : Number W⦄ where
  abbrev kol_hot : MarketSnapshot W → List String
  kol_hot s = map (λ e. e.0) (filter (λ e. num.le (num.of_nat 5) e.1) s.kol_velocity_by_token)

  unfoldable pub select_candidate :
      NarrativeOutput W → QuantAnalystOutput W → MarketSnapshot W → List String → Option String
  select_candidate n q s allow =
      let quant = quant_tokens q in
      let narrative = narrative_tokens n in
      or_else (first_where (λ t. has allow t && (has narrative t && has quant t)) (kol_hot s)) (
        or_else (first_where (λ t. has allow t && has quant t) narrative)
          (first_where (has allow) quant))

first_where-holds :
    (p : String → Bool) (ts : List String) (t : String) → first_where p ts ≡ some t → p t ≡ true
unfolding first_where
first_where-holds p [] t h = ground (arith, h)
first_where-holds p (u ∷ ts) t h = elim (Bool-cases (p u)) [
  | inl e ↦ subst (λ v. p v ≡ true) (ground (arith, e, h)) e
  | inr e ↦ first_where-holds p ts t (ground (arith, e, h))
]

-- A loop whose finds are what comes after it anyway.
or_else-redundant :
    (p : String → Bool) (ts : List String) (rest : Option String)
    → ((t : String) → p t ≡ true → rest ≡ some t)
    → or_else (first_where p ts) rest ≡ rest
or_else-redundant p ts rest h = elim (Option-cases (first_where p ts)) [
  | inl e ↦ rw e refl
  | inr (t, e) ↦ rw e (sym (h t (first_where-holds p ts t e)))
]

-- What is in both sets is the one token of the second, so the last loop returns it too.
only_quant :
    (allow : List String) (o : Option String) (t : String)
    → has allow t ≡ true
    → has (singleton o) t ≡ true
    → first_where (has allow) (singleton o) ≡ some t
unfolding first_where
only_quant allow none t h k = ground (arith, k)
only_quant allow (some r) t h k = ground (arith, h, k, eq_iff r t)

-- The candidate is the token that the quant analyst recommends, if the list has it: neither the
-- tokens of the narrative nor the mention velocities change what is chosen.
pub select_candidate-recommended :
    {W : Type 0} ⦃num : Number W⦄ (n : NarrativeOutput W) (q : QuantAnalystOutput W)
    (s : MarketSnapshot W) (allow : List String)
    → select_candidate n q s allow ≡ first_where (has allow) (singleton q.recommended_token)
unfolding select_candidate
select_candidate-recommended n q s allow =
    let only = only_quant allow q.recommended_token in
    let second =
      or_else-redundant (λ t. has allow t && has (quant_tokens q) t) (narrative_tokens n) _
        (λ t h. let both = &&-split _ _ h in only t both.0 both.1) in
    rw second (
      or_else-redundant _ (kol_hot s) _
        (λ t h. let both = &&-split _ _ h in only t both.0 (&&-split _ _ both.1).1))
