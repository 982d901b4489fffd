-- ===== src/Log2/Laws.antt =====
-- sim/log2.h: the loop of `ilog2` ends for numbers up to 2^63 and for no others, and what it returns.
use mgsim.Base.{
  ℕ, zero, suc, ◌+◌, ◌*◌, ◌^◌, ◌%◌, ◌<◌, ◌≤◌, ◌≡◌, refl, ap, ◌∙◌, true, ltb, ltb→lt, none, some,
  Bool-cases, inl, inr, ◌⊎◌, arith,
}
use native.Mathlib.Nat.{pow-suc, pow-le-pow_right}
use mgsim.Storage.{word}
use mgsim.Log2.{ilog2, ilog2_loop}

power_suc : (l : ℕ) → 2 ^ (l + 1) ≡ 2 ^ l * 2
power_suc l = ap (λ k. 2 ^ k) (plus_one l) ∙ pow-suc 2 l
  where
    plus_one : (l : ℕ) → l + 1 ≡ suc l
    plus_one l = omega arith

power-le : (l k : ℕ) → l ≤ k → 2 ^ l ≤ 2 ^ k
power-le l k h = pow-le-pow_right (omega arith) h

-- Doubling does not wrap below 2^63.
doubled : (r l : ℕ) → r ≡ 2 ^ l → l + 1 ≤ 63 → r * 2 % word ≡ 2 ^ (l + 1)
doubled r l e h = omega (arith, power_suc l, power-le (l + 1) 63 h)

counted : (l : ℕ) → l + 1 ≤ 63 → (l + 1) % 2 ^ 32 ≡ l + 1
counted l h = omega arith

le-cases : (l k : ℕ) → l ≤ k → (l + 1 ≤ k) ⊎ (l ≡ k)
le-cases l k h = ground arith

-- The loop has passed the powers below `2 ^ l`.
abbrev Passed : ℕ → ℕ → Type 0
Passed n l = (k : ℕ) → n ≤ 2 ^ k → l ≤ k

-- The least number whose power of two is not below `n`.
pub record IsLog2 (n l : ℕ) : Type 0 where
  pub reached : n ≤ 2 ^ l
  pub least : (k : ℕ) → n ≤ 2 ^ k → l ≤ k

ilog2_loop-IsLog2 :
    (fuel n l r : ℕ)
    → fuel + l ≡ 65
    → n ≤ 2 ^ 63
    → r ≡ 2 ^ l
    → Passed n l
    → (m : ℕ) × (ilog2_loop fuel n l r ≡ some m) × IsLog2 n m
unfolding ilog2_loop
ilog2_loop-IsLog2 zero n l r f b e p = absurd (omega (arith, f, p 63 b))
ilog2_loop-IsLog2 (suc fuel) n l r f b e p = elim (Bool-cases (ltb r n)) [
  | inr q ↦ (l, rw q refl, record { reached = ground (arith); least = p })
  | inl q ↦
      let below : 2 ^ l < n = omega (arith, ltb→lt r n q) in
      let next : Passed n (l + 1) = λ k h. passed_step n l k below h (p k h) in
      let small : l + 1 ≤ 63 = next 63 b in
      let (m, g, s) =
        ilog2_loop-IsLog2 fuel n (l + 1) (2 ^ (l + 1)) (omega (arith, f)) b refl next in
      (m, rw (q, doubled r l e small, counted l small) g, s)
]
  where
    passed_step : (n l k : ℕ) → 2 ^ l < n → n ≤ 2 ^ k → l ≤ k → l + 1 ≤ k
    passed_step n l k h g p = elim (le-cases l k p) [
      | inl q ↦ q
      | inr e ↦ absurd (omega (arith, ap (λ x. 2 ^ x) e))
    ]

-- The loop's `r` where it has not passed 2^63: a power of two, or 0 once it has wrapped around.
abbrev Low : ℕ → Type 0
Low r = (r ≡ 0) ⊎ ((l : ℕ) × (l ≤ 63) × (r ≡ 2 ^ l))

Low-le : (r : ℕ) → Low r → r ≤ 2 ^ 63
Low-le r (inl e) = omega arith
Low-le r (inr (l, b, e)) = omega (arith, power-le l 63 b)

Low-double : (r : ℕ) → Low r → Low (r * 2 % word)
Low-double r (inl e) = inl (omega arith)
Low-double r (inr (l, b, e)) = elim (le-cases l 63 b) [
  | inl q ↦ inr (l + 1, q, doubled r l e q)
  | inr q ↦ let at_top : r ≡ 2 ^ 63 = e ∙ ap (λ x. 2 ^ x) q in inl (omega arith)
]

ilog2_loop-none : (fuel n l r : ℕ) → 2 ^ 63 < n → Low r → ilog2_loop fuel n l r ≡ none
unfolding ilog2_loop
ilog2_loop-none zero n l r b h = refl
ilog2_loop-none (suc fuel) n l r b h =
    let below : ltb r n ≡ true = ground (arith, Low-le r h) in
    rw below (ilog2_loop-none fuel n ((l + 1) % 2 ^ 32) (r * 2 % word) b (Low-double r h))

-- `ilog2` of a number up to 2^63 returns, within the fuel, the least exponent of a power of two that is
-- not below the number; of a greater number its loop never ends, whatever the fuel.
pub ilog2_lem :
    (n : ℕ)
    → (n ≤ 2 ^ 63 → (m : ℕ) × (ilog2 n ≡ some m) × IsLog2 n m)
      × (2 ^ 63 < n → (fuel : ℕ) → ilog2_loop fuel n 0 1 ≡ none)
unfolding ilog2
ilog2_lem n = (
  (λ b. ilog2_loop-IsLog2 65 n 0 1 refl b refl (λ k h. omega arith)),
  λ b fuel. ilog2_loop-none fuel n 0 1 b (inr (0, omega arith, refl)),
)
