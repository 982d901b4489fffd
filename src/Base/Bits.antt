-- ===== src/Base/Bits.antt =====
-- The binary digits of `bit_and` and `bit_xor`, one at a time.
use Prim.Native.Nat.{
  ℕ, zero, suc, ◌+◌, ◌*◌, ◌/◌, ◌%◌, ◌^◌, ◌≤◌, ◌<◌, min, bit_and, bit_xor, digits, bitwise, differ,
  bit_and-bitwise, bit_xor-bitwise,
}
use mathlib.Core.Path.{◌≡◌, refl, ap, sym, ◌∙◌}
use native.Mathlib.Nat.{pow-suc}
use native.Mathlib.Omega.{arith}

-- `digits`, over what follows the first number's digits and an operation on two digits.
module _ (rest : ℕ → ℕ) (op : ℕ → ℕ → ℕ) where
  run_out : (count b : ℕ) → digits rest op count zero b ≡ rest b
  run_out zero b = refl
  run_out (suc count) b = refl

  -- The count of digits to go does not matter once it is large enough.
  same_digits :
      (b a count more : ℕ)
      → a ≤ more
      → a ≤ count
      → digits rest op count a b ≡ digits rest op more a b
  same_digits b zero count more h k = run_out count b ∙ sym (run_out more b)
  same_digits b (suc a) (suc count) (suc more) h k =
      let digit = op (suc a % 2) (b % 2) in
      ap (λ higher. higher * 2 + digit)
        (same_digits (b / 2) (suc a / 2) count more (omega arith) (omega arith))
  same_digits b (suc a) zero more h k = absurd (omega arith)
  same_digits b (suc a) (suc count) zero h k = absurd (omega arith)

  -- The lowest digit and the others, if what follows the first number's digits is read the same way.
  bitwise_digit :
      (b a : ℕ)
      → rest b ≡ rest (b / 2) * 2 + op 0 (b % 2)
      → bitwise rest op a b ≡ bitwise rest op (a / 2) (b / 2) * 2 + op (a % 2) (b % 2)
  bitwise_digit b zero h = h
  bitwise_digit b (suc a) h =
      let digit = op (suc a % 2) (b % 2) in
      ap (λ higher. higher * 2 + digit)
        (same_digits (b / 2) (suc a / 2) a (suc a / 2) (omega arith) (omega arith))

bit_xor_digit : (a b : ℕ) → bit_xor a b ≡ bit_xor (a / 2) (b / 2) * 2 + differ (a % 2) (b % 2)
bit_xor_digit a b =
    let step = bitwise_digit (λ y. y) differ b a (lowest b) in
    omega (arith, step, bit_xor-bitwise (a / 2) (b / 2), bit_xor-bitwise a b)
  where
    lowest : (b : ℕ) → b ≡ b / 2 * 2 + b % 2
    lowest b = omega arith

pub bit_and_digit : (a b : ℕ) → bit_and a b ≡ min (a % 2) (b % 2) + 2 * bit_and (a / 2) (b / 2)
bit_and_digit a b =
    let step = bitwise_digit (λ y. 0) min b a (lowest b) in
    omega (arith, step, bit_and-bitwise (a / 2) (b / 2), bit_and-bitwise a b)
  where
    lowest : (b : ℕ) → 0 ≡ 0 * 2 + min 0 (b % 2)
    lowest b = omega arith

differ_digits : (x y : ℕ) → x ≤ 1 → y ≤ 1 → differ x y ≤ 1
differ_digits zero y p q = q
differ_digits (suc x) zero p q = p
differ_digits (suc zero) (suc zero) p q = omega arith
differ_digits (suc zero) (suc (suc y)) p q = absurd (omega arith)
differ_digits (suc (suc x)) (suc y) p q = absurd (omega arith)

-- The numbers of `k` digits are closed under `bit_xor`.
pub bit_xor-lt : (k a b : ℕ) → a < 2 ^ k → b < 2 ^ k → bit_xor a b < 2 ^ k
bit_xor-lt zero a b p q = bit_xor_zero a b (omega arith) (omega arith)
  where
    bit_xor_zero : (a b : ℕ) → a ≡ 0 → b ≡ 0 → bit_xor a b < 1
    bit_xor_zero a b p q = rw (p, q) (omega arith)
bit_xor-lt (suc k) a b p q =
    let rest =
      bit_xor-lt k (a / 2) (b / 2) (omega (arith, pow-suc 2 k)) (omega (arith, pow-suc 2 k)) in
    let digit = differ_digits (a % 2) (b % 2) (omega arith) (omega arith) in
    omega (arith, bit_xor_digit a b, rest, digit, pow-suc 2 k)

bit_and-le_fuel : (n a b : ℕ) → b ≤ n → bit_and a b ≤ b
bit_and-le_fuel n a zero h = omega (arith, bit_and_nothing a a (omega arith))
  where
    bit_and_nothing : (n a : ℕ) → a ≤ n → bit_and a 0 ≡ 0
    bit_and_nothing n zero h = refl
    bit_and_nothing zero (suc a) h = absurd (omega arith)
    bit_and_nothing (suc n) (suc a) h =
        omega (arith, bit_and_digit (suc a) 0, bit_and_nothing n (suc a / 2) (omega arith))
bit_and-le_fuel zero a (suc b) h = absurd (omega arith)
bit_and-le_fuel (suc n) a (suc b) h =
    omega (arith, bit_and_digit a (suc b), bit_and-le_fuel n (a / 2) (suc b / 2) (omega arith))

pub bit_and-le : (a b : ℕ) → bit_and a b ≤ b
bit_and-le a b = bit_and-le_fuel b a b (omega arith)

bit_and_self_fuel : (n a : ℕ) → a ≤ n → bit_and a a ≡ a
bit_and_self_fuel n zero h = refl
bit_and_self_fuel zero (suc a) h = absurd (omega arith)
bit_and_self_fuel (suc n) (suc a) h =
    omega (arith, bit_and_digit (suc a) (suc a), bit_and_self_fuel n (suc a / 2) (omega arith))

pub bit_and_self : (a : ℕ) → bit_and a a ≡ a
bit_and_self a = bit_and_self_fuel a a (omega arith)
