-- ===== src/Common/Fixed.antt =====
-- A concrete model of `Number`: integers in hundred-millionths, and NaN.
use Prim.Native.Nat.{ℕ, suc, ◌+◌, ◌-◌, ◌*◌, ◌/◌}
use Prim.Native.Char.{code}
use Prim.Native.String.{String}
use mathlib.Core.Path.{◌≡◌}
use mathlib.Core.Bool.{Bool, true, false, ◌&&◌}
use mathlib.Core.Option.{Option, none, some}
use native.Mathlib.Omega.{arith}
use neurodegen.Common.Tests.{ltb, leb, if◌then◌else◌}
use neurodegen.Common.Number.{Number, IsOrdered}

-- `negsuc n` is -(n + 1).
pub data ℤ : Type 0 where
  pos : ℕ → ℤ
  negsuc : ℕ → ℤ

abbrev pub pos_part : ℤ → ℕ
pos_part (pos n) = n
pos_part (negsuc n) = 0

abbrev pub neg_part : ℤ → ℕ
neg_part (pos n) = 0
neg_part (negsuc n) = suc n

abbrev sub_ℕ : ℕ → ℕ → ℤ
sub_ℕ a b = if leb b a then pos (a - b) else negsuc (b - a - 1)

abbrev leb_ℤ : ℤ → ℤ → Bool
leb_ℤ a b = leb (pos_part a + neg_part b) (pos_part b + neg_part a)

abbrev ltb_ℤ : ℤ → ℤ → Bool
ltb_ℤ a b = ltb (pos_part a + neg_part b) (pos_part b + neg_part a)

abbrev pub Fixed : Type 0
Fixed = Option ℤ

abbrev pub unit : ℕ
unit = 100000000

-- The magnitude is scaled towards zero.
abbrev scale_mul : ℕ → ℕ → ℕ
scale_mul a b = a * b / unit

abbrev scale_div : ℕ → ℕ → ℕ
scale_div a b = a * unit / b

abbrev by_sign : (ℕ → ℕ → ℕ) → ℤ → ℤ → ℤ
by_sign f (pos a) (pos b) = pos (f a b)
by_sign f (pos a) (negsuc b) = sub_ℕ 0 (f a (suc b))
by_sign f (negsuc a) (pos b) = sub_ℕ 0 (f (suc a) b)
by_sign f (negsuc a) (negsuc b) = pos (f (suc a) (suc b))

abbrev lift : (ℤ → ℤ → ℤ) → Fixed → Fixed → Fixed
lift f (some a) (some b) = some (f a b)
lift f _ _ = none

abbrev test : (ℤ → ℤ → Bool) → Fixed → Fixed → Bool
test f (some a) (some b) = f a b
test f _ _ = false

abbrev divide : Fixed → Fixed → Fixed
divide (some a) (some (pos (suc b))) = some (by_sign scale_div a (pos (suc b)))
divide (some a) (some (negsuc b)) = some (by_sign scale_div a (negsuc b))
divide _ _ = none

abbrev abs_ℤ : ℤ → ℤ
abs_ℤ (pos n) = pos n
abs_ℤ (negsuc n) = pos (suc n)

abbrev abs : Fixed → Fixed
abs none = none
abs (some a) = some (abs_ℤ a)

abbrev finite : Fixed → Bool
finite none = false
finite (some a) = true

abbrev round : Fixed → Fixed
round none = none
round (some (pos n)) = some (pos ((n + 500000) / 1000000 * 1000000))
round (some (negsuc n)) = some (sub_ℕ 0 ((suc n + 500000) / 1000000 * 1000000))

abbrev round_whole : Fixed → Fixed
round_whole none = none
round_whole (some (pos n)) = some (pos ((n + 50000000) / unit * unit))
round_whole (some (negsuc n)) = some (sub_ℕ 0 ((suc n + 49999999) / unit * unit))

-- Digits alone: enough for whole amounts.
abbrev parse_digits : ℕ → String → Fixed
parse_digits n String.[] = some (pos (n * unit))
parse_digits n (String.◌∷◌ c s) =
    let rest = parse_digits (n * 10 + (code c - 48)) s in
    if leb 48 (code c) && leb (code c) 57 then rest else none

instance abbrev pub fixed_number : Number Fixed
fixed_number = record {
  lt = test ltb_ℤ;
  le = test leb_ℤ;
  add = lift (λ a b. sub_ℕ (pos_part a + pos_part b) (neg_part a + neg_part b));
  sub = lift (λ a b. sub_ℕ (pos_part a + neg_part b) (neg_part a + pos_part b));
  mul = lift (by_sign scale_mul);
  div = divide;
  abs = abs;
  min = lift (λ a b. if leb_ℤ a b then a else b);
  max = lift (λ a b. if leb_ℤ a b then b else a);
  infinity = none;
  is_finite = finite;
  hundredths = λ n. some (pos (n * 1000000));
  thousandths = λ n. some (pos (n * 100000));
  of_nat = λ n. some (pos (n * unit));
  round2 = round;
  math_round = round_whole;
  parse_float = parse_digits 0;
}

half-le_fixed :
    (x : Fixed)
    → test leb_ℤ (some (pos 0)) x ≡ true
    → test leb_ℤ (lift (by_sign scale_mul) x (some (pos 50000000))) x ≡ true
half-le_fixed none h = h
half-le_fixed (some (pos n)) h = ground arith
half-le_fixed (some (negsuc n)) h = ground arith

half-neg_fixed :
    (x : Fixed)
    → test leb_ℤ x (some (pos 0)) ≡ true
    → test leb_ℤ (lift (by_sign scale_mul) x (some (pos 50000000))) (some (pos 0)) ≡ true
half-neg_fixed none h = h
half-neg_fixed (some (pos n)) h = ground arith
half-neg_fixed (some (negsuc n)) h = ground arith

-- The laws can be met.
pub Fixed-IsOrdered : IsOrdered Fixed
Fixed-IsOrdered = record {
  refl_of_le = λ x y h. ground arith;
  le_trans = λ x y z h k. ground arith;
  le_total = λ x y h k. ground arith;
  lt-eq = λ x y. ground arith;
  min-le = λ x y h. ground arith;
  max-ge = λ x y h. ground arith;
  min-refl = λ x y h k. ground arith;
  max-refl = λ x y h k. ground arith;
  le-min = λ x y z h k. ground arith;
  max-le = λ x y z h k. ground arith;
  half-le = half-le_fixed;
  half-neg = half-neg_fixed;
  hundredths-le = λ a b h k. ground arith;
}
