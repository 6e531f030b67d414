-- ===== src/Common/Number.antt =====
-- JavaScript's `number` (IEEE 754 binary64), which the language does not have: a type with the
-- operations that the program uses, and the documented laws that its proofs rely on.
use Prim.Native.Nat.{ℕ, ◌<◌}
use Prim.Native.String.{String}
use mathlib.Core.Path.{◌≡◌}
use mathlib.Core.Logic.{◌⊎◌, ◌↔◌}
use mathlib.Core.Bool.{Bool, true, false, not, ◌&&◌}
use native.Mathlib.Omega.{arith}
use neurodegen.Common.Tests.{leb}

pub record Number (W : Type 0) : Type 0 where
  pub lt : W → W → Bool  -- a < b
  pub le : W → W → Bool  -- a <= b
  pub add : W → W → W
  pub sub : W → W → W
  pub mul : W → W → W
  pub div : W → W → W
  pub abs : W → W  -- Math.abs
  pub min : W → W → W  -- Math.min
  pub max : W → W → W  -- Math.max
  pub infinity : W
  pub is_finite : W → Bool
  pub hundredths : ℕ → W  -- the literal n / 100
  pub thousandths : ℕ → W  -- the literal n / 1000
  pub of_nat : ℕ → W  -- Number(n), rounded if it is large
  pub round2 : W → W  -- Number(a.toFixed(2))
  pub math_round : W → W  -- Math.round
  pub parse_float : String → W

-- `x <= x` is false for NaN only.
infix 4 ◌≼◌ ◌≺◌
abbrev pub ◌≼◌ : {W : Type 0} ⦃num : Number W⦄ → W → W → Type 0
◌≼◌ ⦃num⦄ x y = num.le x y ≡ true

abbrev pub ◌≺◌ : {W : Type 0} ⦃num : Number W⦄ → W → W → Type 0
◌≺◌ ⦃num⦄ x y = num.lt x y ≡ true

-- Comparisons with NaN are false; elsewhere the order is total. `Math.min` and `Math.max` are NaN if
-- an argument is. Halving does not enlarge what is not negative, and keeps the sign of the rest.
-- Literals of a moderate size are in order.
pub record IsOrdered (W : Type 0) ⦃num : Number W⦄ : Type 0 where
  pub le_trans : (x y z : W) → x ≼ y → y ≼ z → x ≼ z
  pub lt-eq : (x y : W) → num.lt x y ≡ (num.le x x && (num.le y y && not (num.le y x)))
  pub min-le : (x y : W) → num.min x y ≼ num.min x y → (num.min x y ≼ x) × (num.min x y ≼ y)
  pub max-ge : (x y : W) → num.max x y ≼ num.max x y → (x ≼ num.max x y) × (y ≼ num.max x y)
  pub refl_of_le : (x y : W) → x ≼ y → (x ≼ x) × (y ≼ y)
  pub min-refl : (x y : W) → x ≼ x → y ≼ y → num.min x y ≼ num.min x y
  pub max-refl : (x y : W) → x ≼ x → y ≼ y → num.max x y ≼ num.max x y
  pub le_total : (x y : W) → x ≼ x → y ≼ y → (x ≼ y) ⊎ (y ≼ x)
  pub le-min : (x y z : W) → z ≼ x → z ≼ y → z ≼ num.min x y
  pub max-le : (x y z : W) → x ≼ z → y ≼ z → num.max x y ≼ z
  pub half-le : (x : W) → num.hundredths 0 ≼ x → num.mul x (num.hundredths 50) ≼ x
  pub half-neg : (x : W) → x ≼ num.hundredths 0 → num.mul x (num.hundredths 50) ≼ num.hundredths 0
  pub hundredths-le :
      (a b : ℕ) → a < 1000000 → b < 1000000 → num.le (num.hundredths a) (num.hundredths b) ≡ leb a b

module _ {W : Type 0} ⦃num : Number W⦄ (laws : IsOrdered W) where
  open laws use {refl_of_le, le_trans, le_total, lt-eq}

  pub le_of_lt : (x y : W) → x ≺ y → x ≼ y
  le_of_lt x y h = ground (arith, lt-eq x y, le_total x y)

  pub not_le_of_lt : (x y : W) → x ≺ y → num.le y x ≡ false
  not_le_of_lt x y h = ground (arith, lt-eq x y)

  pub lt_of_not_le : (x y : W) → x ≼ x → y ≼ y → num.le y x ≡ false → x ≺ y
  lt_of_not_le x y hx hy h = ground (arith, lt-eq x y)

  pub le_of_not_lt : (x y : W) → x ≼ x → y ≼ y → num.lt y x ≡ false → x ≼ y
  le_of_not_lt x y hx hy h = ground (arith, lt-eq y x, le_total x y)

  pub lt_of_lt_le : (x y z : W) → x ≺ y → y ≼ z → x ≺ z
  lt_of_lt_le x y z h k =
      ground (arith, lt-eq x y, lt-eq x z, le_trans z x y, le_trans y z x, refl_of_le y z)

  pub lt_of_le_lt : (x y z : W) → x ≼ y → y ≺ z → x ≺ z
  lt_of_le_lt x y z h k = ground (arith, lt-eq y z, lt-eq x z, le_trans z x y, refl_of_le x y)

  pub min-le_iff : (x y z : W) → x ≼ x → y ≼ y → (num.min x y ≼ z) ↔ ((x ≼ z) ⊎ (y ≼ z))
  min-le_iff x y z hx hy = (
    λ h. ground (
      arith,
      le_total x y hx hy,
      laws.le-min x y x hx,
      laws.le-min x y y,
      le_trans x (num.min x y) z,
      le_trans y (num.min x y) z,
    ),
    λ h. ground (
      arith,
      laws.min-le x y (laws.min-refl x y hx hy),
      le_trans (num.min x y) x z,
      le_trans (num.min x y) y z,
    ),
  )

  pub max-le_iff : (x y z : W) → x ≼ x → y ≼ y → (num.max x y ≼ z) ↔ ((x ≼ z) × (y ≼ z))
  max-le_iff x y z hx hy = (
    λ h. ground (
      arith,
      laws.max-ge x y (laws.max-refl x y hx hy),
      le_trans x (num.max x y) z,
      le_trans y (num.max x y) z,
    ),
    λ h. laws.max-le x y z h.0 h.1,
  )
