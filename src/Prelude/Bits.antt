-- ===== src/Prelude/Bits.antt =====
-- The facts about `&`, `|` and `^` that the code relies on, at every value: by induction on the
-- count of binary digits that the native operations stand for.
use Prim.Native.Nat.{
  ℕ, zero, suc, ◌+◌, ◌-◌, ◌*◌, ◌/◌, ◌%◌, ◌≤◌, ◌<◌, min, max, bit_and, bit_or, bit_xor, digits,
  differ, bit_and-bitwise, bit_or-bitwise, bit_xor-bitwise,
}
use mathlib.Core.Path.{◌≡◌, refl, ◌∙◌, sym, ap}
use mathlib.Core.Logic.{◌↔◌}
use native.Mathlib.Nat.{le_refl}
use native.Mathlib.Omega.{arith}

abbrev or_digits : ℕ → ℕ → ℕ → ℕ
or_digits = digits (λ b. b) max

abbrev xor_digits : ℕ → ℕ → ℕ → ℕ
xor_digits = digits (λ b. b) differ

abbrev and_digits : ℕ → ℕ → ℕ → ℕ
and_digits = digits (λ b. zero) min

or_digits-zero : (n a b : ℕ) → a ≤ n → or_digits n a b ≡ 0 → (a ≡ 0) × (b ≡ 0)
or_digits-zero zero a b le h = (omega arith, h)
or_digits-zero (suc n) zero b le h = (refl, h)
or_digits-zero (suc n) (suc a) b le h =
    let (p, q) = or_digits-zero n (suc a / 2) (b / 2) (omega arith) (omega arith) in
    (omega arith, omega arith)

-- `a | b` is zero only if both are.
pub bit_or-zero_iff : (a b : ℕ) → (bit_or a b ≡ 0) ↔ ((a ≡ 0) × (b ≡ 0))
bit_or-zero_iff a b = (
  λ h. or_digits-zero a a b (le_refl _) (sym (bit_or-bitwise a b) ∙ h),
  λ h. ap (λ x. bit_or x b) h.0 ∙ ap (λ x. bit_or 0 x) h.1,
)

differ-zero : (x y : ℕ) → differ x y ≡ 0 → x ≡ y
differ-zero zero y h = sym h
differ-zero (suc x) zero h = h
differ-zero (suc x) (suc y) h = ap suc (differ-zero x y h)

differ_self : (x : ℕ) → differ x x ≡ 0
differ_self zero = refl
differ_self (suc x) = differ_self x

xor_digits-zero : (n a b : ℕ) → a ≤ n → xor_digits n a b ≡ 0 → a ≡ b
xor_digits-zero zero a b le h = omega arith
xor_digits-zero (suc n) zero b le h = sym h
xor_digits-zero (suc n) (suc a) b le h =
    let rest = xor_digits-zero n (suc a / 2) (b / 2) (omega arith) (omega arith) in
    let low = differ-zero (suc a % 2) (b % 2) (omega arith) in omega arith

xor_digits_self : (n a : ℕ) → a ≤ n → xor_digits n a a ≡ 0
xor_digits_self zero a le = omega arith
xor_digits_self (suc n) zero le = refl
xor_digits_self (suc n) (suc a) le =
    omega (arith, xor_digits_self n (suc a / 2) (omega arith), differ_self (suc a % 2))

-- `a ^ b` is zero exactly if they are equal.
pub bit_xor-zero_iff : (a b : ℕ) → (bit_xor a b ≡ 0) ↔ (a ≡ b)
bit_xor-zero_iff a b = (
  λ h. xor_digits-zero a a b (le_refl _) (sym (bit_xor-bitwise a b) ∙ h),
  λ e. ap (λ x. bit_xor a x) (sym e) ∙ bit_xor-bitwise a a ∙ xor_digits_self a a (le_refl _),
)

and_digits-zero : (n a : ℕ) → and_digits n a 0 ≡ 0
and_digits-zero zero a = refl
and_digits-zero (suc n) zero = refl
and_digits-zero (suc n) (suc a) = omega (arith, and_digits-zero n (suc a / 2))

and_digits-one : (n a : ℕ) → a ≤ n → and_digits n a 1 ≡ a % 2
and_digits-one zero a le = omega arith
and_digits-one (suc n) zero le = refl
and_digits-one (suc n) (suc a) le = omega (arith, and_digits-zero n (suc a / 2))

-- `a & 1` is the lowest bit.
pub bit_and-one : (a : ℕ) → bit_and a 1 ≡ a % 2
bit_and-one a = bit_and-bitwise a 1 ∙ and_digits-one a a (le_refl _)

and_digits_even : (n a : ℕ) → and_digits n a 0b1111_1110 % 2 ≡ 0
and_digits_even zero a = refl
and_digits_even (suc n) zero = refl
and_digits_even (suc n) (suc a) = omega arith

-- `a & 0b1111_1110` has the lowest bit clear.
pub bit_and_even : (a : ℕ) → bit_and a 0b1111_1110 % 2 ≡ 0
bit_and_even a = ap (λ x. x % 2) (bit_and-bitwise a 0b1111_1110) ∙ and_digits_even a a

and_digits-le : (n a b : ℕ) → a ≤ n → and_digits n a b ≤ b
and_digits-le zero a b le = omega arith
and_digits-le (suc n) zero b le = omega arith
and_digits-le (suc n) (suc a) b le =
    omega (arith, and_digits-le n (suc a / 2) (b / 2) (omega arith))

-- `a & b` is at most `b`.
pub bit_and-le : (a b : ℕ) → bit_and a b ≤ b
bit_and-le a b = omega (arith, bit_and-bitwise a b, and_digits-le a a b (le_refl _))

differ_zero : (x : ℕ) → differ x 0 ≡ x
differ_zero zero = refl
differ_zero (suc x) = refl

differ_one : (x : ℕ) → x < 2 → differ x 1 ≡ 1 - x
differ_one zero h = refl
differ_one (suc zero) h = refl
differ_one (suc (suc x)) h = absurd (omega arith)

xor_digits_zero : (n a : ℕ) → a ≤ n → xor_digits n a 0 ≡ a
xor_digits_zero zero a le = omega arith
xor_digits_zero (suc n) zero le = refl
xor_digits_zero (suc n) (suc a) le =
    let low = differ_zero (suc a % 2) in omega (arith, xor_digits_zero n (suc a / 2), low)

xor_digits_one : (n a : ℕ) → a ≤ n → xor_digits n a 1 ≡ a / 2 * 2 + (1 - a % 2)
xor_digits_one zero a le = omega arith
xor_digits_one (suc n) zero le = refl
xor_digits_one (suc n) (suc a) le =
    omega (arith, xor_digits_zero n (suc a / 2), differ_one (suc a % 2))
