-- ===== src/Kernel/Advance/Time.antt =====
-- The end of a cycle takes time forward, and no clock with work is lost.
use mgsim.Base.{
  ℕ, ◌<◌, ◌≡◌, refl, sym, ap, subst, ◌∙◌, false, some, List, [], ◌∷◌, arith, ◌==◌, Bool-cases, inl,
  inr, ◌⊎◌, In, some-eq, lt→ltb, >>=-eq-some,
}
use mgsim.Kernel.{Clock, Kernel}
use mgsim.Kernel.Schedule.{cycle_of}
use mgsim.Kernel.Schedule.Queue.{Queued, cycle_of-some}
use mgsim.Kernel.Advance.{each, at_cycle, due, reschedule, advance_to, advance}
use mgsim.Kernel.Machine.Sound.{IsSound, Ready, IsSound-Ready}
use mgsim.Kernel.Advance.Resched.{Rescheduled, Called, Again, reschedule-Again, reschedule-Called}

-- The arbitrators of the clocks have been called.
abbrev pub Arbitrated : Kernel → List ℕ → Type 0
Arbitrated k is = (j : ℕ) → In j is → Called k j

Rescheduled-trans : (k k1 k2 : Kernel) → Rescheduled k k1 → Rescheduled k1 k2 → Rescheduled k k2
Rescheduled-trans k k1 k2 a b j c e =
    let (c1, e1, f) = a j c e in
    let (c2, e2, g) = b j c1 e1 in
    (c2, e2, g ∙ ap (λ (d : Clock). record d { cycle = c2.cycle; activated = c2.activated }) f)

Arbitrated-Rescheduled :
    (k k' : Kernel) (i : ℕ) (is : List ℕ)
    → Rescheduled k k'
    → Arbitrated k (i ∷ is)
    → Arbitrated k' is
Arbitrated-Rescheduled k k' i is r n j h =
    let (c, e, no_arbitrators) = n j (inr h) in
    let (c', e', f) = r j c e in
    (c', e', ap (λ (c : Clock). c.active_arbitrators) f ∙ no_arbitrators)

-- All clocks whose cycle it is.
each-reschedule :
    {limit : ℕ} (k : Kernel) (is : List ℕ)
    → IsSound limit k
    → due k ≡ is
    → Arbitrated k is
    → (k' : Kernel) × (each reschedule is k ≡ some k') × Again limit k [] k'
unfolding each
each-reschedule k [] s d n =
    (k, refl, record { sound = s; now = refl; rest = d; same = λ j c e. (c, e, refl) })
each-reschedule k (i ∷ is) s d n =
    let (k1, e, a) = reschedule-Again k i is s d (n i (inl refl)) in
    let (k2, f, b) =
      each-reschedule k1 is a.sound a.rest (Arbitrated-Rescheduled k k1 i is a.same n) in
    (
      k2,
      rw e f,
      record {
        sound = b.sound;
        now = b.now ∙ a.now;
        rest = b.rest;
        same = Rescheduled-trans k k1 k2 a.same b.same;
      },
    )

-- The next cycle: what is left of the kernel, and the clocks.
pub record Advanced (limit : ℕ) (k k' : Kernel) : Type 0 where
  pub sound : Ready limit k'
  pub same : Rescheduled k k'
  pub time : ((k'.active_clocks ≡ []) × (k'.cycle ≡ k.cycle)) ⊎ (k.cycle < k'.cycle)

at_cycle-nil :
    (cs : List Clock) (now i : ℕ) (is : List ℕ)
    → at_cycle cs now (i ∷ is) ≡ []
    → (now == cycle_of cs i) ≡ false
unfolding at_cycle
at_cycle-nil cs now i is h = elim (Bool-cases (now == cycle_of cs i)) [
  | inl e ↦ let g : i ∷ at_cycle cs now is ≡ [] = rw e at h in absurd (cc)
  | inr e ↦ e
]

advance_to-Advanced :
    {limit : ℕ} (k k1 : Kernel) (l : List ℕ)
    → Again limit k [] k1
    → k1.active_clocks ≡ l
    → (k' : Kernel) × (advance_to l k1 ≡ some k') × Advanced limit k k'
unfolding advance_to
advance_to-Advanced k k1 [] a e =
    (k1, refl, record { sound = IsSound-Ready k1 a.sound; same = a.same; time = inl (e, a.now) })
advance_to-Advanced {limit = limit} k k1 (i ∷ is) a e =
    let s = a.sound in
    let queue = subst (λ l. Queued k1.clocks k1.cycle l) e s.scheduled.queue in
    let (c, f, on, lo, n, q) = queue in
    let other =
      at_cycle-nil k1.clocks k1.cycle i is
        (subst (λ l. at_cycle k1.clocks k1.cycle l ≡ []) e a.rest) in
    let at = cycle_of-some k1.clocks i c f in
    let later : k1.cycle < cycle_of k1.clocks i = ground (arith, other, at, lo) in
    (
      record k1 { cycle = cycle_of k1.clocks i },
      rw (lt→ltb _ _ later) refl,
      record {
        sound = λ t early low. record {
          within = low;
          scheduled = record {
            queue =
                subst (λ l. Queued k1.clocks t l) (sym e)
                  (c, f, on, omega (arith, at, early), n, q);
            listed = s.scheduled.listed;
          };
          awake = s.awake;
          periods = s.periods;
        };
        same = a.same;
        time = inr (omega (arith, later, a.now));
      },
    )

-- The end of a cycle on a sound kernel whose due clocks have no arbitrators left to call fails no
-- assertion. No clock that has work is lost: the clocks are in order, and each with work is active.
-- Of the clocks, only cycle and mark change. Time goes on, unless no clock is active any more.
pub advance-Advanced :
    (limit : ℕ) (k : Kernel)
    → IsSound limit k
    → Arbitrated k (due k)
    → (k' : Kernel) × (advance k ≡ some k') × Advanced limit k k'
unfolding advance
advance-Advanced limit k s n =
    let (k1, e, a) = each-reschedule k (due k) s refl n in
    let (k2, f, b) = advance_to-Advanced k k1 k1.active_clocks a refl in (k2, rw e f, b)

-- The same for a cycle that is known to end.
each-reschedule-Again :
    {limit : ℕ} (k k' : Kernel) (is : List ℕ)
    → IsSound limit k
    → due k ≡ is
    → each reschedule is k ≡ some k'
    → Again limit k [] k'
unfolding each
each-reschedule-Again {limit = limit} k k' [] s d h =
    subst (λ k'. Again limit k [] k') (some-eq refl h)
      (record { sound = s; now = refl; rest = d; same = λ j c e. (c, e, refl) })
each-reschedule-Again {limit = limit} k k' (i ∷ is) s d h =
    let (k1, e, h1) = >>=-eq-some (reschedule i k) _ h in
    let (k2, e2, a2) = reschedule-Again k i is s d (reschedule-Called k k1 i e) in
    let a = subst (λ k2. Again limit k is k2) (some-eq e2 e) a2 in
    let b = each-reschedule-Again k1 k' is a.sound a.rest h1 in
    record {
      sound = b.sound;
      now = b.now ∙ a.now;
      rest = b.rest;
      same = Rescheduled-trans k k1 k' a.same b.same;
    }

pub advance-ended :
    (limit : ℕ) (k k' : Kernel) → IsSound limit k → advance k ≡ some k' → Advanced limit k k'
unfolding advance
advance-ended limit k k' s h =
    let (k1, e, h1) = >>=-eq-some (each reschedule (due k) k) _ h in
    let a = each-reschedule-Again k k1 (due k) s refl e in
    let (k2, f, b) = advance_to-Advanced k k1 k1.active_clocks a refl in
    subst (λ k'. Advanced limit k k') (some-eq f h1) b
