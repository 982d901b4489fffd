-- ===== src/Kernel/Advance/Due.antt =====
-- The clocks in front of the list whose cycle it is.
use mgsim.Base.{
  ℕ, ◌<◌, ◌≡◌, refl, ap, subst, true, false, List, [], ◌∷◌, arith, ltb, ◌==◌, get_elem?, Bool-cases,
  inl, inr, In,
}
use mgsim.Kernel.{Clock}
use mgsim.Kernel.Schedule.{cycle_of, insert_clock}
use mgsim.Kernel.Advance.{at_cycle}

-- The front of the list.
pub at_cycle-cons :
    (cs : List Clock) (now i : ℕ) (l is : List ℕ)
    → at_cycle cs now l ≡ i ∷ is
    → (rest : List ℕ) × (l ≡ i ∷ rest) × (now ≡ cycle_of cs i) × (at_cycle cs now rest ≡ is)
unfolding at_cycle
at_cycle-cons cs now i [] is h = absurd (cc)
at_cycle-cons cs now i (j ∷ js) is h = elim (Bool-cases (now == cycle_of cs j)) [
  | inl e ↦
      let g : j ∷ at_cycle cs now js ≡ i ∷ is = rw e at h in
      let same : j ≡ i = cc in
      (js, ap (λ t. t ∷ js) same, subst (λ t. now ≡ cycle_of cs t) same (ground arith), cc)
  | inr e ↦ let g : [] ≡ i ∷ is = rw e at h in absurd (cc)
]

cycle_of-same :
    (cs cs' : List Clock) (j : ℕ)
    → get_elem? cs' j ≡ get_elem? cs j
    → cycle_of cs' j ≡ cycle_of cs j
unfolding cycle_of
cycle_of-same cs cs' j e = rw (e, cycle_of) refl

pub at_cycle-same :
    (cs cs' : List Clock) (now : ℕ) (l : List ℕ)
    → ((j : ℕ) → In j l → get_elem? cs' j ≡ get_elem? cs j)
    → at_cycle cs' now l ≡ at_cycle cs now l
unfolding at_cycle
at_cycle-same cs cs' now [] same = refl
at_cycle-same cs cs' now (j ∷ js) same =
    let tail = at_cycle-same cs cs' now js (λ i h. same i (inr h)) in
    let head = cycle_of-same cs cs' j (same j (inl refl)) in
    elim (Bool-cases (now == cycle_of cs j)) [
      | inl e ↦
          let f : (now == cycle_of cs' j) ≡ true = ground (arith, head) in rw (e, f, tail) refl
      | inr e ↦ let f : (now == cycle_of cs' j) ≡ false = ground (arith, head) in rw (e, f) refl
    ]

-- A clock that runs later goes behind the clocks whose cycle it is.
pub at_cycle-insert :
    (cs : List Clock) (now i : ℕ) (l : List ℕ)
    → now < cycle_of cs i
    → at_cycle cs now (insert_clock (cycle_of cs) i l) ≡ at_cycle cs now l
unfolding at_cycle insert_clock
at_cycle-insert cs now i [] h = let e : (now == cycle_of cs i) ≡ false = ground arith in rw e refl
at_cycle-insert cs now i (j ∷ js) h = elim (Bool-cases (ltb (cycle_of cs j) (cycle_of cs i))) [
  | inl e ↦ rw (e, at_cycle-insert cs now i js h) refl
  | inr e ↦
      let f : (now == cycle_of cs i) ≡ false = ground arith in
      let g : (now == cycle_of cs j) ≡ false = ground arith in rw (e, f, g) refl
]
