-- ===== src/Common/Calls.antt =====
-- Calls of services. The environment answers a call as a function of the calls made before it, so
-- every behaviour of it is covered; the record of the calls, newest first, is the observable effect.
use mathlib.Core.List.{List, ◌∷◌}

-- What an awaited call settles to. `E` is what the code keeps of the error.
pub data Result {ℓ κ} (E : Type ℓ) (A : Type κ) : Type (ℓ ⊔ κ) where
  ok : A → Result E A
  err : E → Result E A

abbrev pub Act {ℓ κ} : Type ℓ → Type κ → Type (ℓ ⊔ κ)
Act C A = List C → A × List C

module _ {ℓ κ} {C : Type ℓ} {A : Type κ} where
  abbrev pub pure : A → Act C A
  pure a t = (a, t)

  abbrev pub perform : C → (List C → A) → Act C A
  perform c answer t = (answer t, c ∷ t)

module _ {ℓ κ μ} {C : Type ℓ} {A : Type κ} {B : Type μ} where
  infixl 5 ◌>>=◌
  abbrev pub ◌>>=◌ : Act C A → (A → Act C B) → Act C B
  ◌>>=◌ m f t = let (a, t') = m t in f a t'
