-- ===== src/Common/Bits.antt =====
-- Exclusive or on native numbers: its recursion on the lowest digit, and that it commutes.
use Prim.Native.Nat.{
  ℕ, zero, suc, ◌+◌, ◌*◌, ◌/◌, ◌%◌, ◌≤◌, bit_xor, digits, differ, bit_xor-bitwise,
}
use mathlib.Core.Path.{◌≡◌, refl}
use native.Mathlib.Omega.{arith}

-- The digits of the exclusive or, with a bound on their number.
abbrev xor_digits : ℕ → ℕ → ℕ → ℕ
xor_digits bound x y = digits (λ y'. y') differ bound x y

xor_digits-zero : (bound y : ℕ) → xor_digits bound 0 y ≡ y
xor_digits-zero zero y = refl
xor_digits-zero (suc bound) y = refl

-- Any two bounds that are large enough agree.
xor_digits-agree : (x y n m : ℕ) → x ≤ n → x ≤ m → xor_digits n x y ≡ xor_digits m x y
xor_digits-agree zero y n m p q = omega (arith, xor_digits-zero n y, xor_digits-zero m y)
xor_digits-agree (suc x) y zero m p q = absurd (omega arith)
xor_digits-agree (suc x) y (suc n) zero p q = absurd (omega arith)
xor_digits-agree (suc x) y (suc n) (suc m) p q =
    omega (arith, xor_digits-agree (suc x / 2) (y / 2) n m (omega arith) (omega arith))

bit_xor_zero_left : (y : ℕ) → bit_xor 0 y ≡ y
bit_xor_zero_left y = bit_xor-bitwise 0 y

-- Each call splits off the lowest digit.
bit_xor_step : (x y : ℕ) → bit_xor x y ≡ bit_xor (x / 2) (y / 2) * 2 + differ (x % 2) (y % 2)
bit_xor_step zero y = omega (arith, bit_xor_zero_left y, bit_xor_zero_left (y / 2))
bit_xor_step (suc x) y = omega (
  arith,
  bit_xor-bitwise (suc x) y,
  bit_xor-bitwise (suc x / 2) (y / 2),
  xor_digits-agree (suc x / 2) (y / 2) x (suc x / 2) (omega arith) (omega arith),
)

differ_comm : (x y : ℕ) → differ x y ≡ differ y x
differ_comm zero zero = refl
differ_comm zero (suc y) = refl
differ_comm (suc x) zero = refl
differ_comm (suc x) (suc y) = differ_comm x y

xor_comm_below : (bound x y : ℕ) → x ≤ bound → y ≤ bound → bit_xor x y ≡ bit_xor y x
xor_comm_below zero zero zero p q = refl
xor_comm_below zero zero (suc y) p q = absurd (omega arith)
xor_comm_below zero (suc x) y p q = absurd (omega arith)
xor_comm_below (suc bound) x y p q = omega (
  arith,
  bit_xor_step x y,
  bit_xor_step y x,
  differ_comm (x % 2) (y % 2),
  xor_comm_below bound (x / 2) (y / 2) (omega arith) (omega arith),
)

pub bit_xor_comm : (x y : ℕ) → bit_xor x y ≡ bit_xor y x
bit_xor_comm x y = xor_comm_below (x + y) x y (omega arith) (omega arith)
