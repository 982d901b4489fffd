-- ===== src/Ports/Choice.antt =====
-- The loop that finds the request with the least key.
use mgsim.Base.{
  In, ℕ, ◌<◌, ◌≤◌, ◌≡◌, refl, sym, ◌⊎◌, inl, inr, Bool, true, ◌&&◌, Option, some, List, [], ◌∷◌,
  ltb, length, arith, Bool-cases,
}
use mgsim.Ports.{choose, position}

abbrev pub All : (ℕ → Type 0) → List ℕ → Type 0
All P [] = Unit {0}
All P (q ∷ qs) = P q × All P qs

pub All-In : (P : ℕ → Type 0) (p : ℕ) (qs : List ℕ) → All P qs → In p qs → P p
All-In P p [] a i = absurd i
All-In P p (q ∷ qs) a (inl e) = rw e a.0
All-In P p (q ∷ qs) a (inr i) = All-In P p qs a.1 i

-- The outcome of the loop, begun at `least` and `chosen`.
pub record Chosen (eligible : ℕ → Bool) (key : ℕ → ℕ) (is : List ℕ) (least : ℕ) (chosen : Option ℕ)
    (r : ℕ × Option ℕ) : Type 0 where
  pub bounded : r.0 ≤ least
  pub minimal : All (λ q. eligible q ≡ true → r.0 ≤ key q) is
  pub witness :
      ((r.0 ≡ least) × (r.1 ≡ chosen))
      ⊎ ((p : ℕ) × (r.1 ≡ some p) × In p is × (key p ≡ r.0) × (eligible p ≡ true) × (r.0 < least))

pub choose-Chosen :
    (eligible : ℕ → Bool) (key : ℕ → ℕ) (is : List ℕ) (least : ℕ) (chosen : Option ℕ)
    → Chosen eligible key is least chosen (choose eligible key is least chosen)
unfolding choose
choose-Chosen eligible key [] least chosen = record {
  bounded = omega arith;
  minimal = tt;
  witness = inl (refl, refl);
}
choose-Chosen eligible key (i ∷ is) least chosen =
    elim (Bool-cases (eligible i && ltb (key i) least)) [
      | inl better ↦
          let c = choose-Chosen eligible key is (key i) (some i) in
          let lt : key i < least = ground arith in
          let el : eligible i ≡ true = ground arith in
          rw better (record {
            bounded = omega (arith, c.bounded);
            minimal = (λ e. c.bounded, c.minimal);
            witness = elim c.witness [
              | inl h ↦ inr (i, h.1, inl refl, sym h.0, el, omega (arith, h.0))
              | inr (p, s, n, k, e, l) ↦ inr (p, s, inr n, k, e, omega arith)
            ];
          })
      | inr worse ↦
          let c = choose-Chosen eligible key is least chosen in
          rw worse (record {
            bounded = c.bounded;
            minimal = (λ e. ground (arith, c.bounded), c.minimal);
            witness = elim c.witness [
              | inl h ↦ inl h
              | inr (p, s, n, k, e, l) ↦ inr (p, s, inr n, k, e, l)
            ];
          })
    ]

pub position-lt : (p : ℕ) (qs : List ℕ) → In p qs → position p qs < length qs
unfolding position
position-lt p [] i = absurd i
position-lt p (q ∷ qs) (inl e) = ground arith
position-lt p (q ∷ qs) (inr i) = ground (arith, position-lt p qs i)

-- Two processes of the list with one position are one.
pub position-injective : (p q : ℕ) (qs : List ℕ) → In p qs → position p qs ≡ position q qs → p ≡ q
unfolding position
position-injective p q [] i e = absurd i
position-injective p q (r ∷ qs) (inl h) e = ground arith
position-injective p q (r ∷ qs) (inr h) e = ground (arith, position-injective p q qs h)
