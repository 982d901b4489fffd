-- ===== src/Log2/Powers.antt =====
-- sim/log2.h, `IsPowerOfTwo`: the numbers that pass the test.
use Prim.Native.Nat.{bit_and}
use mgsim.Base.{
  ℕ, zero, suc, ◌+◌, ◌-◌, ◌*◌, ◌/◌, ◌^◌, ◌%◌, ◌<◌, ◌≤◌, ◌≡◌, ◌↔◌, refl, sym, ap, ◌∙◌, true, ==_iff,
  inl, inr, ◌⊎◌, arith,
}
use mgsim.Base.Bits.{bit_and_digit, bit_and_self}
use native.Mathlib.Nat.{pow-suc, one-le-pow}
use mgsim.Storage.{word}
use mgsim.Log2.{is_power_of_two}

parity : (x : ℕ) → (x % 2 ≡ 0) ⊎ (x % 2 ≡ 1)
parity x = ground arith

-- The digits of a positive number and of the number before it: they agree but for the last digit if the
-- number is odd, and are those of the halves if it is even.
odd_pred : (x : ℕ) → x % 2 ≡ 1 → bit_and x (x - 1) ≡ x / 2 * 2
odd_pred x e =
    let half : (x - 1) / 2 ≡ x / 2 = omega arith in
    let same : bit_and (x / 2) ((x - 1) / 2) ≡ x / 2 =
      ap (λ h. bit_and (x / 2) h) half ∙ bit_and_self (x / 2) in
    omega (arith, bit_and_digit x (x - 1), same)

even_pred : (x : ℕ) → 0 < x → x % 2 ≡ 0 → bit_and x (x - 1) ≡ bit_and (x / 2) (x / 2 - 1) * 2
even_pred x p e =
    let half : (x - 1) / 2 ≡ x / 2 - 1 = omega arith in
    let same : bit_and (x / 2) ((x - 1) / 2) ≡ bit_and (x / 2) (x / 2 - 1) =
      ap (λ h. bit_and (x / 2) h) half in
    omega (arith, bit_and_digit x (x - 1), same)

abbrev Power : ℕ → Type 0
Power x = (k : ℕ) × (x ≡ 2 ^ k)

pred-Power : (n x : ℕ) → x ≤ n → 0 < x → bit_and x (x - 1) ≡ 0 → Power x
pred-Power zero x h p e = absurd (omega arith)
pred-Power (suc n) x h p e = elim (parity x) [
  | inr o ↦ (0, omega (arith, odd_pred x o))
  | inl o ↦
      let (k, q) =
        pred-Power n (x / 2) (omega arith) (omega arith) (omega (arith, even_pred x p o)) in
      (suc k, omega (arith, q, pow-suc 2 k))
]

Power-pred : (k : ℕ) → bit_and (2 ^ k) (2 ^ k - 1) ≡ 0
Power-pred zero = refl
Power-pred (suc k) =
    let double = pow-suc 2 k in
    let half : 2 ^ suc k / 2 ≡ 2 ^ k = omega (arith, double) in
    let even =
      even_pred (2 ^ suc k) (omega (arith, double, one-le-pow k 2 (omega arith)))
        (omega (arith, double)) in
    let rest : bit_and (2 ^ suc k / 2) (2 ^ suc k / 2 - 1) ≡ 0 =
      ap (λ h. bit_and h (h - 1)) half ∙ Power-pred k in
    omega (arith, even, rest)

-- `IsPowerOfTwo` of a number of 64 bits holds of the powers of two, and of 0.
pub is_power_of_two-Power :
    (x : ℕ) → x < word → (is_power_of_two x ≡ true) ↔ ((x ≡ 0) ⊎ ((k : ℕ) × (x ≡ 2 ^ k)))
unfolding is_power_of_two
is_power_of_two-Power zero b = ((λ h. inl refl), λ h. refl)
is_power_of_two-Power (suc x) b =
    let wrapped : (suc x + word - 1) % word ≡ suc x - 1 = omega arith in
    let test : bit_and (suc x) ((suc x + word - 1) % word) ≡ bit_and (suc x) (suc x - 1) =
      ap (λ p. bit_and (suc x) p) wrapped in
    let passes = ==_iff (bit_and (suc x) ((suc x + word - 1) % word)) 0 in
    (
      (λ h. inr (pred-Power (suc x) (suc x) (omega arith) (omega arith) (sym test ∙ passes.0 h))),
      λ h. elim h [
        | inl e ↦ absurd (omega arith)
        | inr (k, e) ↦ passes.1 (test ∙ (ap (λ p. bit_and p (p - 1)) e ∙ Power-pred k))
      ],
    )
