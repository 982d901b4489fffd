-- ===== src/Kernel/Schedule/Queue.antt =====
-- The list of the active clocks stays in the order of their next cycles, each clock on it once.
use Prim.Native.Nat.{◌∣◌}
use native.Mathlib.Nat
use mgsim.Base.{
  ℕ, ◌+◌, ◌*◌, ◌/◌, ◌<◌, ◌≤◌, ◌≡◌, ◌≢◌, refl, sym, ap, subst, ◌∙◌, true, false, some, List, [], ◌∷◌,
  arith, ltb, ◌==◌, get_elem?, set, Bool-cases, inl, inr, ◌⊎◌, In, get_elem?-set_self,
  get_elem?-set_ne, get_elem?-bound,
}
use mgsim.Storage.{word}
use mgsim.Kernel.{Clock, Kernel}
use mgsim.Kernel.Schedule.{next_run, cycle_of, insert_clock, activate_clock}

-- The clocks on the list are active, run at `lo` or later, each no sooner than the one before it, and
-- stand on the list once.
abbrev pub Queued : List Clock → ℕ → List ℕ → Type 0
Queued cs lo [] = Unit {0}
Queued cs lo (i ∷ is) =
    (c : Clock) × (get_elem? cs i ≡ some c)
    × (c.activated ≡ true)
    × (lo ≤ c.cycle)
    × (In i is → ⊥)
    × Queued cs c.cycle is

-- The list is in order from the kernel's cycle on, and holds all active clocks.
pub record IsScheduled (k : Kernel) : Type 0 where
  pub queue : Queued k.clocks k.cycle k.active_clocks
  pub listed :
      (i : ℕ) (c : Clock)
      → get_elem? k.clocks i ≡ some c
      → c.activated ≡ true
      → In i k.active_clocks

insert_clock-In :
    (key : ℕ → ℕ) (i j : ℕ) (is : List ℕ) → In j (insert_clock key i is) → (j ≡ i) ⊎ In j is
unfolding insert_clock
insert_clock-In key i j [] (inl e) = inl e
insert_clock-In key i j [] (inr h) = absurd h
insert_clock-In key i j (a ∷ is) h = elim (Bool-cases (ltb (key a) (key i))) [
  | inl e ↦ elim (rw e at h) [
    | inl f ↦ inr (inl f)
    | inr f ↦ elim (insert_clock-In key i j is f) [ inl g ↦ inl g | inr g ↦ inr (inr g) ]
  ]
  | inr e ↦ elim (rw e at h) [ inl f ↦ inl f | inr f ↦ inr f ]
]

In-insert_clock :
    (key : ℕ → ℕ) (i j : ℕ) (is : List ℕ) → (j ≡ i) ⊎ In j is → In j (insert_clock key i is)
unfolding insert_clock
In-insert_clock key i j [] h = h
In-insert_clock key i j (a ∷ is) h = elim (Bool-cases (ltb (key a) (key i))) [
  | inr e ↦ rw e h
  | inl e ↦ rw e (elim h [
    | inl f ↦ inr (In-insert_clock key i j is (inl f))
    | inr (inl f) ↦ inl f
    | inr (inr f) ↦ inr (In-insert_clock key i j is (inr f))
  ])
]

pub cycle_of-some :
    (cs : List Clock) (i : ℕ) (c : Clock) → get_elem? cs i ≡ some c → cycle_of cs i ≡ c.cycle
unfolding cycle_of
cycle_of-some cs i c e = rw (e, cycle_of) refl

-- The queue depends on the clocks that are on it.
pub Queued-same :
    (cs cs' : List Clock) (lo : ℕ) (is : List ℕ)
    → ((j : ℕ) → In j is → get_elem? cs' j ≡ get_elem? cs j)
    → Queued cs lo is
    → Queued cs' lo is
Queued-same cs cs' lo [] same q = tt
Queued-same cs cs' lo (j ∷ js) same (d, e, a, l, n, q) =
    (d, same j (inl refl) ∙ e, a, l, n, Queued-same cs cs' d.cycle js (λ i h. same i (inr h)) q)

insert_clock-Queued :
    (cs cs' : List Clock) (lo i : ℕ) (c : Clock) (is : List ℕ)
    → get_elem? cs' i ≡ some c
    → c.activated ≡ true
    → lo ≤ c.cycle
    → ((j : ℕ) → In j is → get_elem? cs' j ≡ get_elem? cs j)
    → (In i is → ⊥)
    → Queued cs lo is
    → Queued cs' lo (insert_clock (cycle_of cs') i is)
unfolding insert_clock
insert_clock-Queued cs cs' lo i c [] e a l same n q = (c, e, a, l, (λ h. h), tt)
insert_clock-Queued cs cs' lo i c (j ∷ js) e a l same n (d, f, b, m, o, q) =
    let here = same j (inl refl) ∙ f in
    let ci = cycle_of-some cs' i c e in
    let cj = cycle_of-some cs' j d here in
    elim (Bool-cases (ltb (cycle_of cs' j) (cycle_of cs' i))) [
      | inl later ↦
          let le : d.cycle ≤ c.cycle = ground (arith, ci, cj) in
          rw later (
            d,
            here,
            b,
            m,
            (λ h. elim (insert_clock-In (cycle_of cs') i j js h) [
              | inl g ↦ n (inl (sym g))
              | inr g ↦ o g
            ]),
            insert_clock-Queued cs cs' d.cycle i c js e a le (λ g h. same g (inr h))
                (λ h. n (inr h)) q,
          )
      | inr sooner ↦
          let le : c.cycle ≤ d.cycle = ground (arith, ci, cj) in
          rw sooner (
            c,
            e,
            a,
            l,
            n,
            (d, here, b, le, o, Queued-same cs cs' d.cycle js (λ g h. same g (inr h)) q),
          )
    ]

-- A clock that is on the list is active.
pub Queued-activated :
    (cs : List Clock) (lo i : ℕ) (c : Clock) (is : List ℕ)
    → Queued cs lo is
    → get_elem? cs i ≡ some c
    → In i is
    → c.activated ≡ true
Queued-activated cs lo i c [] q e h = absurd h
Queued-activated cs lo i c (j ∷ js) (d, f, a, l, n, q) e (inl h) =
    let same : some d ≡ some c = sym f ∙ (ap (λ t. get_elem? cs t) (sym h) ∙ e) in cc
Queued-activated cs lo i c (j ∷ js) (d, f, a, l, n, q) e (inr h) =
    Queued-activated cs d.cycle i c js q e h

-- The next cycle of a clock is the least multiple of its period behind the present cycle.
pub record IsNext (now period next : ℕ) : Type 0 where
  pub behind : now < next
  pub multiple : period ∣ next
  pub least : next ≤ now + period

next_run-IsNext :
    (now period : ℕ) → 0 < period → now + period < word → IsNext now period (next_run now period)
unfolding next_run
next_run-IsNext now period h k =
    let parts = Nat.div-add-mod now period in
    let small = Nat.mod-lt now h in
    let le : now / period * period + period < word = grind (arith, parts) in
    rw (Nat.mod-eq_of_lt le) (record {
      behind = grind (arith, parts, small);
      multiple = Nat.dvd-add period (Nat.dvd-mul_left period (now / period)) (Nat.dvd_refl period);
      least = grind (arith, parts);
    })

-- What activating clock `i` leaves of it and of the others.
pub record Activated (i : ℕ) (c : Clock) (k k' : Kernel) : Type 0 where
  pub scheduled : IsScheduled k'
  pub on_list : In i k'.active_clocks
  pub clock : Clock
  pub stored : get_elem? k'.clocks i ≡ some clock
  pub kept : c.activated ≡ true → k' ≡ k
  pub next : c.activated ≡ false → IsNext k.cycle c.period clock.cycle
  pub same : clock ≡ record c { cycle = clock.cycle; activated = true }
  pub now : k'.cycle ≡ k.cycle
  pub inserted :
      c.activated ≡ false → k'.active_clocks ≡ insert_clock (cycle_of k'.clocks) i k.active_clocks
  pub others : (j : ℕ) → j ≢ i → get_elem? k'.clocks j ≡ get_elem? k.clocks j

activated_anew : ℕ → Clock → Kernel → Kernel
activated_anew i c k =
    let clocks =
      set k.clocks i (record c { cycle = next_run k.cycle c.period; activated = true }) in
    record k { clocks = clocks; active_clocks = insert_clock (cycle_of clocks) i k.active_clocks }

activated_anew-Activated :
    (i : ℕ) (c : Clock) (k : Kernel)
    → IsScheduled k
    → get_elem? k.clocks i ≡ some c
    → c.activated ≡ false
    → 0 < c.period
    → k.cycle + c.period < word
    → Activated i c k (activated_anew i c k)
unfolding activated_anew
activated_anew-Activated i c k s e a p w =
    let c' : Clock = record c { cycle = next_run k.cycle c.period; activated = true } in
    let cs' = set k.clocks i c' in
    let next = next_run-IsNext k.cycle c.period p w in
    let stored = get_elem?-set_self k.clocks i c' (get_elem?-bound k.clocks i c e) in
    let others : (j : ℕ) → j ≢ i → get_elem? cs' j ≡ get_elem? k.clocks j =
      λ j ne. get_elem?-set_ne k.clocks c' (λ f. ne (sym f)) in
    let absent : In i k.active_clocks → ⊥ = λ h.
      let on = Queued-activated k.clocks k.cycle i c k.active_clocks s.queue e h in absurd (cc) in
    let apart : (j : ℕ) → In j k.active_clocks → j ≢ i =
      λ j h f. absent (subst (λ t. In t k.active_clocks) f h) in
    record {
      scheduled = record {
        queue =
            insert_clock-Queued k.clocks cs' k.cycle i c' k.active_clocks stored refl
              (omega (arith, next.behind)) (λ j h. others j (apart j h)) absent s.queue;
        listed = λ j d f g.
            In-insert_clock (cycle_of cs') i j k.active_clocks (elim (Bool-cases (j == i)) [
              | inl h ↦ inl (ground arith)
              | inr h ↦
                  let ne : j ≢ i = ground arith in inr (s.listed j d (sym (others j ne) ∙ f) g)
            ]);
      };
      on_list = In-insert_clock (cycle_of cs') i i k.active_clocks (inl refl);
      clock = c';
      stored = stored;
      kept = λ h. absurd (cc);
      next = λ h. next;
      same = refl;
      now = refl;
      inserted = λ h. refl;
      others = others;
    }

-- On a scheduled list, `ActivateClock` of a clock that is there, with a positive period that does not
-- take the cycle number out of its range: the list stays in order from the kernel's cycle on and holds
-- exactly the active clocks, this one among them; nothing changes if the clock was active, else its
-- next cycle is the least multiple of its period behind the present cycle; and the rest of the clock,
-- the present cycle and the other clocks stay as they were.
pub activate_clock-Activated :
    (i : ℕ) (c : Clock) (k : Kernel)
    → IsScheduled k
    → get_elem? k.clocks i ≡ some c
    → 0 < c.period
    → k.cycle + c.period < word
    → (k' : Kernel) × (activate_clock i k ≡ some k') × Activated i c k k'
unfolding activate_clock activated_anew
activate_clock-Activated i c k s e p w = elim (Bool-cases c.activated) [
  | inl a ↦ (
    k,
    rw (e, a) refl,
    record {
      scheduled = s;
      on_list = s.listed i c e a;
      clock = c;
      stored = e;
      kept = λ h. refl;
      next = λ h. absurd (cc);
      same = ap (λ v. record c { activated = v }) a;
      now = refl;
      inserted = λ h. absurd (cc);
      others = λ j ne. refl;
    },
  )
  | inr a ↦ (activated_anew i c k, rw (e, a) refl, activated_anew-Activated i c k s e a p w)
]
