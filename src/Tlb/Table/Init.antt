-- ===== src/Tlb/Table/Init.antt =====
-- arch/drisc/mmu/Table.cpp, `initStrategy`: the order of the lines at the start.
use mgsim.Base.{
  ℕ, zero, suc, ◌+◌, ◌<◌, ◌≡◌, ◌≢◌, sym, List, [], ◌∷◌, ◌++◌, In, Once, inl, inr, ◌⊎◌, arith,
}
use mgsim.Tlb.Table.Links.{In-append_left, In-append_right}

-- The numbers below `n`.
unfoldable pub below : ℕ → List ℕ
below zero = []
below (suc n) = below n ++ n ∷ []

lt-cases : (i n : ℕ) → i < suc n → (i < n) ⊎ (i ≡ n)
lt-cases i n h = ground arith

pub eq-cases : (i n : ℕ) → (i ≡ n) ⊎ (i ≢ n)
eq-cases i n = ground arith

plus_zero : (n : ℕ) → n + 0 ≡ n
plus_zero n = omega arith

In-end : (i : ℕ) (xs : List ℕ) (y : ℕ) → In i (xs ++ y ∷ []) → In i xs ⊎ (i ≡ y)
In-end i [] y (inl e) = inr e
In-end i [] y (inr h) = absurd h
In-end i (x ∷ xs) y (inl e) = inl (inl e)
In-end i (x ∷ xs) y (inr h) = elim (In-end i xs y h) [ inl q ↦ inl (inr q) | inr e ↦ inr e ]

Once-end : (xs : List ℕ) (y : ℕ) → Once xs → (In y xs → ⊥) → Once (xs ++ y ∷ [])
Once-end [] y o n = ((λ h. h), tt)
Once-end (x ∷ xs) y (m, o) n = (
  (λ h. elim (In-end x xs y h) [ inl q ↦ m q | inr e ↦ n (inl (sym e)) ]),
  Once-end xs y o (λ q. n (inr q)),
)

pub below-le : (n i : ℕ) → In i (below n) → i < n
unfolding below
below-le zero i h = absurd h
below-le (suc n) i h = elim (In-end i (below n) n h) [
  | inl q ↦ omega (arith, below-le n i q)
  | inr e ↦ omega arith
]

pub lt-below : (n i : ℕ) → i < n → In i (below n)
unfolding below
lt-below zero i h = absurd (omega arith)
lt-below (suc n) i h = elim (lt-cases i n h) [
  | inl q ↦ In-append_left i (below n) (n ∷ []) (lt-below n i q)
  | inr e ↦ In-append_right i (below n) (n ∷ []) (inl e)
]

pub below-Once : (n : ℕ) → Once (below n)
unfolding below
below-Once zero = tt
below-Once (suc n) = Once-end (below n) n (below-Once n) (λ h. omega (arith, below-le n n h))
