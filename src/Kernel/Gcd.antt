-- ===== src/Kernel/Gcd.antt =====
-- `gcd` and `lcm` of sim/kernel.cpp, at `unsigned long`.
use native.Mathlib.Nat
use Prim.Native.Nat.{◌∣◌}
use mgsim.Base.{
  ℕ, zero, suc, ◌+◌, ◌*◌, ◌/◌, ◌%◌, ◌<◌, ◌≡◌, ap, inl, inr, arith, ◌==◌, if◌then◌else◌, Bool-cases,
}
use mgsim.Storage.{word}

-- `while (b != 0) { t = b; b = a % b; a = t; }`, on fuel.
unfoldable pub gcd_loop : ℕ → ℕ → ℕ → ℕ
gcd_loop zero a b = a
gcd_loop (suc fuel) a b = let rest = gcd_loop fuel b (a % b) in if b == 0 then a else rest

-- `b` falls in each round.
unfoldable pub gcd : ℕ → ℕ → ℕ
unfolding gcd_loop
gcd a b = gcd_loop (b + 1) a b

-- The product wraps.
unfoldable pub lcm : ℕ → ℕ → ℕ
lcm a b = a * b % word / gcd a b

-- A round of Euclid's algorithm.
gcd_loop-suc :
    (P : ℕ → Type 0) (fuel a b : ℕ)
    → (b ≡ 0 → P a)
    → (0 < b → P (gcd_loop fuel b (a % b)))
    → P (gcd_loop (suc fuel) a b)
unfolding gcd_loop
gcd_loop-suc P fuel a b done more = elim (Bool-cases (b == 0)) [
  | inl e ↦ rw e (done (ground arith))
  | inr e ↦ rw e (more (ground arith))
]

gcd_loop-dvd : (fuel a b : ℕ) → b < fuel → (gcd_loop fuel a b ∣ a) × (gcd_loop fuel a b ∣ b)
gcd_loop-dvd zero a b h = absurd (omega arith)
gcd_loop-dvd (suc fuel) a b h =
    gcd_loop-suc (λ g. (g ∣ a) × (g ∣ b)) fuel a b (λ e. (Nat.dvd_refl a, rw e (Nat.dvd-zero a)))
      (λ pos.
        let (l, r) = gcd_loop-dvd fuel b (a % b) (omega arith) in ((Nat.dvd-mod_iff _ l).0 r, l))

-- A number that divides `a * c` and `b * c` divides `(a % b) * c`.
dvd-mod : (k a b c : ℕ) → k ∣ a * c → k ∣ b * c → k ∣ a % b * c
dvd-mod k a b c ha hb =
    (Nat.dvd-add_iff_right k (Nat.dvd-mul_left_of_dvd k hb (a / b))).1 (rw (← parts) ha)
  where
    parts : a * c ≡ a / b * (b * c) + a % b * c
    parts = omega (arith, ap (λ (t : ℕ). t * c) (Nat.div-add-mod a b))

dvd-gcd_loop : (k c fuel a b : ℕ) → b < fuel → k ∣ a * c → k ∣ b * c → k ∣ gcd_loop fuel a b * c
dvd-gcd_loop k c zero a b h ha hb = absurd (omega arith)
dvd-gcd_loop k c (suc fuel) a b h ha hb =
    gcd_loop-suc (λ g. k ∣ g * c) fuel a b (λ e. ha)
      (λ pos. dvd-gcd_loop k c fuel b (a % b) (omega arith) hb (dvd-mod k a b c ha hb))

-- The result of `gcd` divides both numbers, and every common divisor divides the result.
gcd-dvd : (a b : ℕ) → (gcd a b ∣ a) × (gcd a b ∣ b)
unfolding gcd
gcd-dvd a b = gcd_loop-dvd (b + 1) a b (omega arith)

-- Of a common multiple of `k`'s cofactors.
dvd-gcd-mul : (k a b c : ℕ) → k ∣ a * c → k ∣ b * c → k ∣ gcd a b * c
unfolding gcd
dvd-gcd-mul k a b c ha hb = dvd-gcd_loop k c (b + 1) a b (omega arith) ha hb

-- `gcd` returns the greatest common divisor: it divides both numbers, and every number that divides
-- both divides it.
gcd_greatest : (a b : ℕ) → (gcd a b ∣ a) × (gcd a b ∣ b) × ((k : ℕ) → k ∣ a → k ∣ b → k ∣ gcd a b)
gcd_greatest a b = (
  (gcd-dvd a b).0,
  (gcd-dvd a b).1,
  λ k ha hb.
      rw (← Nat.mul-one (gcd a b)) (dvd-gcd-mul k a b 1 (rw Nat.mul-one ha) (rw Nat.mul-one hb)),
)

-- `lcm` returns the least common multiple, if the product does not wrap: both numbers divide it,
-- and it divides every number that both divide.
pub lcm_least :
    (a b : ℕ)
    → 0 < a
    → 0 < b
    → a * b < word
    → (a ∣ lcm a b) × (b ∣ lcm a b) × (0 < lcm a b) × ((m : ℕ) → a ∣ m → b ∣ m → lcm a b ∣ m)
unfolding lcm
lcm_least a b pa pb h = rw (Nat.mod-eq_of_lt h) (left, right, positive, least)
  where
    g : ℕ
    g = gcd a b

    g_pos : 0 < g
    g_pos = Nat.pos_of_dvd_of_pos (gcd-dvd a b).0 pa

    left : a ∣ a * b / g
    left = rw (Nat.mul-div_assoc g a (gcd-dvd a b).1) (Nat.dvd-mul_right a (b / g))

    right : b ∣ a * b / g
    right =
        rw (Nat.mul_comm a b, Nat.mul-div_assoc g b (gcd-dvd a b).0) (Nat.dvd-mul_right b (a / g))

    product : a * b / g * g ≡ a * b
    product = Nat.div-mul_cancel g (Nat.dvd-mul_left_of_dvd g (gcd-dvd a b).1 a)

    positive : 0 < a * b / g
    positive = grind (arith, product)

    least : (m : ℕ) → a ∣ m → b ∣ m → a * b / g ∣ m
    least m ha hb = Nat.dvd_of_mul-dvd-mul_right (a * b / g) g_pos (
        rw (product, Nat.mul_comm m g)
          (dvd-gcd-mul (a * b) a b m (Nat.mul-dvd-mul_left b a hb)
            (rw (Nat.mul_comm a b) (Nat.mul-dvd-mul_left a b ha))))
