-- ===== src/Kernel/Schedule/Alike.antt =====
-- The order of the active clocks does not depend on what else is to be known of a clock.
use mgsim.Base.{
  ℕ, ◌≡◌, refl, sym, ap, subst, ◌∙◌, false, some, List, [], ◌∷◌, arith, ◌==◌, get_elem?, set,
  Bool-cases, inl, inr, get_elem?-set_self, get_elem?-set_ne, get_elem?-bound,
}
use mgsim.Kernel.{Clock, Kernel}
use mgsim.Kernel.Schedule.Queue.{Queued, IsScheduled}

-- Clocks that differ only in their lists and frequencies.
pub record Same (c c' : Clock) : Type 0 where
  pub period : c'.period ≡ c.period
  pub activated : c'.activated ≡ c.activated
  pub cycle : c'.cycle ≡ c.cycle

pub record Alike (cs cs' : List Clock) : Type 0 where
  pub forth :
      (i : ℕ) (c : Clock)
      → get_elem? cs i ≡ some c
      → (c' : Clock) × (get_elem? cs' i ≡ some c') × Same c c'
  pub back :
      (i : ℕ) (c' : Clock)
      → get_elem? cs' i ≡ some c'
      → (c : Clock) × (get_elem? cs i ≡ some c) × Same c c'

pub set-Alike :
    (cs : List Clock) (i : ℕ) (c c' : Clock)
    → get_elem? cs i ≡ some c
    → Same c c'
    → Alike cs (set cs i c')
set-Alike cs i c c' e s =
    let here = get_elem?-set_self cs i c' (get_elem?-bound cs i c e) in
    let there : (j : ℕ) → (j == i) ≡ false → get_elem? (set cs i c') j ≡ get_elem? cs j =
      λ j n. get_elem?-set_ne cs c' (ground arith) in
    record {
      forth = λ j d f. elim (Bool-cases (j == i)) [
        | inl h ↦
            let eq : i ≡ j = ground arith in
            let at = ap (λ t. get_elem? (set cs i c') t) (sym eq) ∙ here in
            let old : some c ≡ some d = sym e ∙ (ap (λ t. get_elem? cs t) eq ∙ f) in
            (c', at, subst (λ d. Same d c') (cc) s)
        | inr h ↦ (d, there j h ∙ f, record { period = refl; activated = refl; cycle = refl })
      ];
      back = λ j d f. elim (Bool-cases (j == i)) [
        | inl h ↦
            let eq : i ≡ j = ground arith in
            let at = ap (λ t. get_elem? cs t) (sym eq) ∙ e in
            let new : some c' ≡ some d = sym here ∙ (ap (λ t. get_elem? (set cs i c') t) eq ∙ f) in
            (c, at, subst (λ d. Same c d) (cc) s)
        | inr h ↦ (d, sym (there j h) ∙ f, record { period = refl; activated = refl; cycle = refl })
      ];
    }

Queued-Alike :
    (cs cs' : List Clock) (lo : ℕ) (is : List ℕ) → Alike cs cs' → Queued cs lo is → Queued cs' lo is
Queued-Alike cs cs' lo [] a q = tt
Queued-Alike cs cs' lo (i ∷ is) a (c, e, on, l, n, q) =
    let (c', e', s) = a.forth i c e in
    (
      c',
      e',
      s.activated ∙ on,
      omega (arith, s.cycle, l),
      n,
      subst (λ t. Queued cs' t is) (sym s.cycle) (Queued-Alike cs cs' c.cycle is a q),
    )

pub IsScheduled-Alike :
    (k : Kernel) (cs : List Clock)
    → Alike k.clocks cs
    → IsScheduled k
    → IsScheduled (record k { clocks = cs })
IsScheduled-Alike k cs a s = record {
  queue = Queued-Alike k.clocks cs k.cycle k.active_clocks a s.queue;
  listed = λ i c e on. let (d, f, same) = a.back i c e in s.listed i d f (sym same.activated ∙ on);
}
