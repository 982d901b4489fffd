-- ===== src/Kernel/Advance/Resched.antt =====
-- The clocks that ran are scheduled anew.
use mgsim.Base.{
  ℕ, ◌+◌, ◌<◌, ◌≡◌, ◌≢◌, refl, sym, ap, subst, ◌∙◌, true, false, ◌&&◌, none, some, List, [], ◌∷◌,
  arith, ◌==◌, get_elem?, set, Bool-cases, inl, inr, ◌⊎◌, In, get_elem?-set_self, get_elem?-set_ne,
  get_elem?-bound, some-eq, >>=-eq-some,
}
use mgsim.Storage.{word}
use mgsim.Kernel.{Clock, Kernel}
use mgsim.Kernel.Schedule.{cycle_of}
use mgsim.Kernel.Schedule.Queue.{
  IsScheduled, Queued, Queued-same, Activated, activate_clock-Activated, cycle_of-some,
}
use mgsim.Kernel.Advance.{at_cycle, due, behind, is_empty, reschedule}
use mgsim.Kernel.Advance.Due.{at_cycle-cons, at_cycle-same, at_cycle-insert}
use mgsim.Kernel.Machine.Sound.{HasWork, IsSound, woken-IsSound}

-- Only its cycle and its mark change of a clock.
abbrev pub Rescheduled : Kernel → Kernel → Type 0
Rescheduled k k' =
    (j : ℕ) (c : Clock)
    → get_elem? k.clocks j ≡ some c
    → (c' : Clock) × (get_elem? k'.clocks j ≡ some c')
      × (c' ≡ record c { cycle = c'.cycle; activated = c'.activated })

-- Clock `i`, in front of the list, has left it.
module _ {limit : ℕ} (k : Kernel) (i : ℕ) (c : Clock) (rest : List ℕ) (s : IsSound limit k)
    (front : k.active_clocks ≡ i ∷ rest) (stored : get_elem? k.clocks i ≡ some c)
    (now : k.cycle ≡ c.cycle) where
  idle_clock : Clock
  idle_clock = record c { activated = false }

  left : Kernel
  unfolding idle_clock
  left = record k { clocks = set k.clocks i idle_clock; active_clocks = rest }

  queued : Queued k.clocks k.cycle (i ∷ rest)
  queued = subst (λ l. Queued k.clocks k.cycle l) front s.scheduled.queue

  absent : In i rest → ⊥
  absent = let (d, e, on, l, n, q) = queued in n

  left_queue : Queued k.clocks k.cycle rest
  left_queue =
      let (d, e, on, l, n, q) = queued in
      let same : d.cycle ≡ k.cycle = ap (λ (c : Clock). c.cycle) (some-eq e stored) ∙ sym now in
      subst (λ t. Queued k.clocks t rest) same q

  others : (j : ℕ) → In j rest → get_elem? (set k.clocks i idle_clock) j ≡ get_elem? k.clocks j
  others j h = get_elem?-set_ne k.clocks idle_clock (λ f. absent (subst (λ t. In t rest) (sym f) h))

  here : get_elem? (set k.clocks i idle_clock) i ≡ some idle_clock
  here = get_elem?-set_self k.clocks i idle_clock (get_elem?-bound k.clocks i c stored)

  -- A clock is clock `i`, or as it was.
  either :
      (j : ℕ) (d : Clock)
      → get_elem? (set k.clocks i idle_clock) j ≡ some d
      → ((j ≡ i) × (d ≡ idle_clock)) ⊎ ((j ≢ i) × (get_elem? k.clocks j ≡ some d))
  either j d e = elim (Bool-cases (j == i)) [
    | inl h ↦
        let eq : j ≡ i = ground arith in
        inl (eq, some-eq e (ap (λ t. get_elem? (set k.clocks i idle_clock) t) eq ∙ here))
    | inr h ↦
        let ne : j ≢ i = ground arith in
        inr (ne, sym (get_elem?-set_ne k.clocks idle_clock (λ f. ne (sym f))) ∙ e)
  ]

  left-IsScheduled : IsScheduled left
  unfolding left idle_clock
  left-IsScheduled = record {
    queue = Queued-same k.clocks (set k.clocks i idle_clock) k.cycle rest others left_queue;
    listed = λ j d e on. elim (either j d e) [
      | inl (f, g) ↦ absurd (cc (g, on))
      | inr (n, f) ↦ elim (subst (λ l. In j l) front (s.scheduled.listed j d f on)) [
        | inl g ↦ absurd (n g)
        | inr g ↦ g
      ]
    ];
  }

  left_periods :
      (j : ℕ) (d : Clock)
      → get_elem? (set k.clocks i idle_clock) j ≡ some d
      → (0 < d.period) × (limit + d.period < word)
  unfolding idle_clock
  left_periods j d e = elim (either j d e) [
    | inl (f, g) ↦
        subst (λ (d : Clock). (0 < d.period) × (limit + d.period < word)) (sym g)
          (s.periods i c stored)
    | inr (n, f) ↦ s.periods j d f
  ]

  left-IsSound : (HasWork c → ⊥) → IsSound limit left
  unfolding left idle_clock
  left-IsSound no_work = record {
    within = s.within;
    scheduled = left-IsScheduled;
    awake = λ j d e w. elim (either j d e) [
      | inl (f, g) ↦
          let v : HasWork idle_clock = subst HasWork g w in
          absurd (no_work (record { object = v.object; listed = v.listed }))
      | inr (n, f) ↦ s.awake j d f w
    ];
    periods = left_periods;
  }

  left-Rescheduled : Rescheduled k left
  unfolding left idle_clock
  left-Rescheduled j d e = elim (Bool-cases (j == i)) [
    | inl h ↦
        let eq : j ≡ i = ground arith in
        let same = some-eq e (ap (λ t. get_elem? k.clocks t) eq ∙ stored) in
        (
          idle_clock,
          ap (λ t. get_elem? (set k.clocks i idle_clock) t) eq ∙ here,
          subst
              (λ (d : Clock).
                idle_clock
                ≡ record d { cycle = idle_clock.cycle; activated = idle_clock.activated })
              (sym same) refl,
        )
    | inr h ↦ (d, get_elem?-set_ne k.clocks idle_clock (ground arith) ∙ e, refl)
  ]

  left_due : at_cycle left.clocks left.cycle left.active_clocks ≡ at_cycle k.clocks k.cycle rest
  unfolding left
  left_due = at_cycle-same k.clocks (set k.clocks i idle_clock) k.cycle rest others

  -- Clock `i` comes back for a later cycle.
  module _ (k' : Kernel) (a : Activated i idle_clock left k') where
    back-IsSound : IsSound limit k'
    unfolding left idle_clock
    back-IsSound =
        woken-IsSound i c idle_clock (record k { active_clocks = rest }) k' stored a s.within
          s.awake s.periods refl

    back_due : at_cycle k'.clocks k'.cycle k'.active_clocks ≡ at_cycle k.clocks k.cycle rest
    unfolding left idle_clock
    back_due =
        let next = a.next refl in
        let at = cycle_of-some k'.clocks i a.clock a.stored in
        let later : k'.cycle < cycle_of k'.clocks i = omega (arith, next.behind, at, a.now) in
        let same : (j : ℕ) → In j rest → get_elem? k'.clocks j ≡ get_elem? k.clocks j = λ j h.
          let n : j ≢ i = λ f. absent (subst (λ t. In t rest) f h) in a.others j n ∙ others j h in
        subst (λ l. at_cycle k'.clocks k'.cycle l ≡ at_cycle k.clocks k.cycle rest)
          (sym (a.inserted refl))
          (at_cycle-insert k'.clocks k'.cycle i rest later
            ∙ (at_cycle-same k.clocks k'.clocks k'.cycle rest same
                ∙ ap (λ t. at_cycle k.clocks t rest) a.now))

    back-Rescheduled : Rescheduled k k'
    unfolding left idle_clock
    back-Rescheduled j d e = elim (Bool-cases (j == i)) [
      | inl h ↦
          let eq : j ≡ i = ground arith in
          let same = some-eq e (ap (λ t. get_elem? k.clocks t) eq ∙ stored) in
          (
            a.clock,
            ap (λ t. get_elem? k'.clocks t) eq ∙ a.stored,
            subst
                (λ (d : Clock).
                  a.clock ≡ record d { cycle = a.clock.cycle; activated = a.clock.activated })
                (sym same)
                (a.same
                  ∙ ap (λ v. record c { cycle = a.clock.cycle; activated = v })
                      (sym (ap (λ (d : Clock). d.activated) a.same))),
          )
      | inr h ↦
          let n : j ≢ i = ground arith in
          (d, a.others j n ∙ (get_elem?-set_ne k.clocks idle_clock (λ f. n (sym f)) ∙ e), refl)
    ]

is_empty-nil : (l : List ℕ) → is_empty l ≡ true → l ≡ []
unfolding is_empty
is_empty-nil [] h = refl
is_empty-nil (x ∷ xs) h = absurd (cc)

-- Clock after clock leaves the front, and `is` is left.
pub record Again (limit : ℕ) (k : Kernel) (is : List ℕ) (k' : Kernel) : Type 0 where
  pub sound : IsSound limit k'
  pub now : k'.cycle ≡ k.cycle
  pub rest : due k' ≡ is
  pub same : Rescheduled k k'

no_work :
    (c : Clock)
    → is_empty c.active_processes && is_empty c.active_storages ≡ true
    → c.active_arbitrators ≡ []
    → HasWork c
    → ⊥
no_work c h a w =
    let p : is_empty c.active_processes ≡ true = ground (arith, h) in
    let s : is_empty c.active_storages ≡ true = ground (arith, h) in
    elim w.listed [
      | inl g ↦ subst (λ l. In w.object l) (is_empty-nil c.active_processes p) g
      | inr (inl g) ↦ subst (λ l. In w.object l) (is_empty-nil c.active_storages s) g
      | inr (inr g) ↦ subst (λ l. In w.object l) a g
    ]

behind-front : (i : ℕ) (l rest : List ℕ) → l ≡ i ∷ rest → behind i l ≡ rest
unfolding behind
behind-front i l rest e = let same : (i == i) ≡ true = ground arith in rw (e, behind, same) refl

-- The clock in front, whose cycle it is.
reschedule-front :
    {limit : ℕ} (k : Kernel) (i : ℕ) (c : Clock) (rest is : List ℕ) (s : IsSound limit k)
    (front : k.active_clocks ≡ i ∷ rest) (e : get_elem? k.clocks i ≡ some c)
    (at : k.cycle ≡ c.cycle)
    → at_cycle k.clocks k.cycle rest ≡ is
    → c.active_arbitrators ≡ []
    → (k' : Kernel) × (reschedule i k ≡ some k') × Again limit k is k'
unfolding reschedule left idle_clock is_empty
reschedule-front k i c rest is s front e at tail none_left =
    let k1 = left k i c rest s front e at in
    let off = behind-front i k.active_clocks rest front in
    let none : is_empty c.active_arbitrators ≡ true =
      subst (λ l. is_empty l ≡ true) (sym none_left) refl in
    elim (Bool-cases (is_empty c.active_processes && is_empty c.active_storages)) [
      | inl h ↦ (
        k1,
        rw (e, none, h, off) refl,
        record {
          sound = left-IsSound k i c rest s front e at (no_work c h none_left);
          now = refl;
          rest = left_due k i c rest s front e at ∙ tail;
          same = left-Rescheduled k i c rest s front e at;
        },
      )
      | inr h ↦
          let p = s.periods i c e in
          let (k2, made, a) =
            activate_clock-Activated i (idle_clock k i c rest s front e at) k1
              (left-IsScheduled k i c rest s front e at) (here k i c rest s front e at) p.0
              (omega (arith, p.1, s.within)) in
          (
            k2,
            rw (e, none, h, off) made,
            record {
              sound = back-IsSound k i c rest s front e at k2 a;
              now = a.now;
              rest = back_due k i c rest s front e at k2 a ∙ tail;
              same = back-Rescheduled k i c rest s front e at k2 a;
            },
          )
    ]

-- Clock `i` has no arbitrator to call.
abbrev pub Called : Kernel → ℕ → Type 0
Called k i = (c : Clock) × (get_elem? k.clocks i ≡ some c) × (c.active_arbitrators ≡ [])

-- The first of the clocks whose cycle it is.
pub reschedule-Again :
    {limit : ℕ} (k : Kernel) (i : ℕ) (is : List ℕ)
    → IsSound limit k
    → due k ≡ i ∷ is
    → Called k i
    → (k' : Kernel) × (reschedule i k ≡ some k') × Again limit k is k'
reschedule-Again k i is s d (c, e, no_arbitrators) =
    let (rest, front, now, tail) = at_cycle-cons k.clocks k.cycle i k.active_clocks is d in
    reschedule-front k i c rest is s front e (now ∙ cycle_of-some k.clocks i c e) tail
      no_arbitrators

pub reschedule-Called : (k k' : Kernel) (i : ℕ) → reschedule i k ≡ some k' → Called k i
unfolding reschedule
reschedule-Called k k' i h =
    let (c, e, h1) = >>=-eq-some (get_elem? k.clocks i) _ h in
    (
      c,
      e,
      elim (Bool-cases (is_empty c.active_arbitrators)) [
        | inl g ↦ is_empty-nil c.active_arbitrators g
        | inr g ↦ absurd (let f : none ≡ some k' = rw g at h1 in cc)
      ],
    )
