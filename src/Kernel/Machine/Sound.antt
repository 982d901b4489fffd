-- ===== src/Kernel/Machine/Sound.antt =====
-- What holds of the kernel between any two calls, and what no call changes.
use mgsim.Base.{
  ℕ, ◌+◌, ◌<◌, ◌≤◌, ◌≡◌, ◌≢◌, refl, sym, ap, subst, ◌∙◌, true, false, some, List, [], ◌∷◌, arith,
  ◌==◌, get_elem?, set, Bool-cases, inl, inr, ◌⊎◌, In, get_elem?-set_self, get_elem?-set_ne,
  get_elem?-bound, some-eq,
}
use mgsim.Storage.{word}
use mgsim.Kernel.{Clock, Kernel}
use mgsim.Kernel.Schedule.Queue.{IsScheduled, Queued, Activated, activate_clock-Activated}
use mgsim.Kernel.Schedule.Alike.{Same, Alike, set-Alike, IsScheduled-Alike}
use mgsim.Kernel.Machine.{activate_with}

-- Something is on one of the clock's lists.
pub record HasWork (c : Clock) : Type 0 where
  pub object : ℕ
  pub listed :
      In object c.active_processes ⊎ (In object c.active_storages ⊎ In object c.active_arbitrators)

-- The active clocks are scheduled, every clock with work is active, and the clocks' periods are
-- positive and do not take the cycle number out of its range up to the cycle `limit`.
pub record IsSound (limit : ℕ) (k : Kernel) : Type 0 where
  pub within : k.cycle ≤ limit
  pub scheduled : IsScheduled k
  pub awake : (i : ℕ) (c : Clock) → get_elem? k.clocks i ≡ some c → HasWork c → c.activated ≡ true
  pub periods :
      (i : ℕ) (c : Clock)
      → get_elem? k.clocks i ≡ some c
      → (0 < c.period) × (limit + c.period < word)

-- The clock has its period, and if it was active it is so still, for the same cycle.
pub record Kept (c c' : Clock) : Type 0 where
  pub period : c'.period ≡ c.period
  pub active : c.activated ≡ true → (c'.activated ≡ true) × (c'.cycle ≡ c.cycle)

-- The present cycle and the clocks are kept, no clock is new, and a clock that was not active runs later if it is now.
pub record Keeps (k k' : Kernel) : Type 0 where
  pub now : k'.cycle ≡ k.cycle
  pub kept :
      (i : ℕ) (c : Clock)
      → get_elem? k.clocks i ≡ some c
      → (c' : Clock) × (get_elem? k'.clocks i ≡ some c') × Kept c c'
  pub old :
      (i : ℕ) (c' : Clock)
      → get_elem? k'.clocks i ≡ some c'
      → (c : Clock) × (get_elem? k.clocks i ≡ some c)
  pub later :
      (i : ℕ) (c c' : Clock)
      → get_elem? k.clocks i ≡ some c
      → get_elem? k'.clocks i ≡ some c'
      → c.activated ≡ false
      → c'.activated ≡ true
      → k.cycle < c'.cycle

pub Keeps-refl : (k : Kernel) → Keeps k k
Keeps-refl k = record {
  now = refl;
  kept = λ i c e. (c, e, record { period = refl; active = λ a. (a, refl) });
  old = λ i c e. (c, e);
  later = λ i c c' e f a b. absurd (let same : some c ≡ some c' = sym e ∙ f in cc);
}

pub Keeps-trans : (k k' k'' : Kernel) → Keeps k k' → Keeps k' k'' → Keeps k k''
Keeps-trans k k' k'' a b = record {
  now = b.now ∙ a.now;
  kept = λ i c e.
      let (c', e', s) = a.kept i c e in
      let (c'', e'', t) = b.kept i c' e' in
      (
        c'',
        e'',
        record {
          period = t.period ∙ s.period;
          active =
              λ h. let (on, at) = s.active h in let (on', at') = t.active on in (on', at' ∙ at);
        },
      );
  old = λ i c'' e. let (c', f) = b.old i c'' e in a.old i c' f;
  later = λ i c c'' e e'' off on.
      let (c', e', s) = a.kept i c e in
      elim (Bool-cases c'.activated) [
        | inl h ↦
            let (d, f, t) = b.kept i c' e' in
            let first = a.later i c c' e e' off h in
            let (on', at) = t.active h in
            subst (λ (d : Clock). k.cycle < d.cycle) (some-eq f e'') (omega (arith, first, at))
        | inr h ↦ let second = b.later i c' c'' e' e'' h on in omega (arith, second, a.now)
      ];
}

-- Clocks that only lose work, or change their lists and stay awake.
pub change-IsSound :
    {limit : ℕ} (k : Kernel) (cs : List Clock)
    → IsSound limit k
    → Alike k.clocks cs
    → ((i : ℕ) (c : Clock) → get_elem? cs i ≡ some c → HasWork c → c.activated ≡ true)
    → IsSound limit (record k { clocks = cs }) × Keeps k (record k { clocks = cs })
change-IsSound k cs s a w = (
  record {
    within = s.within;
    scheduled = IsScheduled-Alike k cs a s.scheduled;
    awake = w;
    periods = λ i c e.
        let (d, f, same) = a.back i c e in
        let (positive, range) = s.periods i d f in
        (omega (arith, same.period, positive), omega (arith, same.period, range));
  },
  record {
    now = refl;
    kept = λ i c e.
        let (d, f, same) = a.forth i c e in
        (d, f, record { period = same.period; active = λ h. (same.activated ∙ h, same.cycle) });
    old = λ i c' e. let (c, f, same) = a.back i c' e in (c, f);
    later = λ i c c' e f off on.
        let (d, g, same) = a.forth i c e in
        let eq : some d ≡ some c' = sym g ∙ f in absurd (cc (same.activated, off, on, eq));
  },
)

-- What activating a clock, with other lists than before, leaves of the kernel.
module _ (i : ℕ) (c c' : Clock) (k k' : Kernel) (stored : get_elem? k.clocks i ≡ some c)
    (a : Activated i c' (record k { clocks = set k.clocks i c' }) k') where
  other : (j : ℕ) → j ≢ i → get_elem? k'.clocks j ≡ get_elem? k.clocks j
  other j n = a.others j n ∙ get_elem?-set_ne k.clocks c' (λ f. n (sym f))

  -- A clock before or behind is this one or as it was.
  was_there :
      (j : ℕ) (d : Clock)
      → get_elem? k.clocks j ≡ some d
      → ((j ≡ i) × (d ≡ c)) ⊎ (get_elem? k'.clocks j ≡ some d)
  was_there j d e = elim (Bool-cases (j == i)) [
    | inl h ↦
        let eq : j ≡ i = ground arith in
        let same : some d ≡ some c = sym e ∙ (ap (λ t. get_elem? k.clocks t) eq ∙ stored) in
        inl (eq, cc)
    | inr h ↦ inr (other j (ground arith) ∙ e)
  ]

  is_there :
      (j : ℕ) (d : Clock)
      → get_elem? k'.clocks j ≡ some d
      → ((j ≡ i) × (d ≡ a.clock)) ⊎ (get_elem? k.clocks j ≡ some d)
  is_there j d e = elim (Bool-cases (j == i)) [
    | inl h ↦
        let eq : j ≡ i = ground arith in
        let same : some d ≡ some a.clock =
          sym e ∙ (ap (λ t. get_elem? k'.clocks t) eq ∙ a.stored) in
        inl (eq, cc)
    | inr h ↦ inr (sym (other j (ground arith)) ∙ e)
  ]

  woken_on : a.clock.activated ≡ true
  woken_on = ap (λ (d : Clock). d.activated) a.same

  woken_period : c'.period ≡ c.period → a.clock.period ≡ c.period
  woken_period p = ap (λ (d : Clock). d.period) a.same ∙ p

  -- If it was active, nothing happened to it.
  woken_kept : c'.activated ≡ true → a.clock.cycle ≡ c'.cycle
  woken_kept h =
      let there : get_elem? (set k.clocks i c') i ≡ some a.clock =
        ap (λ (k : Kernel). get_elem? k.clocks i) (sym (a.kept h)) ∙ a.stored in
      let here = get_elem?-set_self k.clocks i c' (get_elem?-bound k.clocks i c stored) in
      ap (λ (d : Clock). d.cycle) (some-eq there here)

  pub woken-IsSound :
      {limit : ℕ}
      → k.cycle ≤ limit
      → ((j : ℕ) (d : Clock) → get_elem? k.clocks j ≡ some d → HasWork d → d.activated ≡ true)
      → ((j : ℕ) (d : Clock)
          → get_elem? k.clocks j ≡ some d
          → (0 < d.period) × (limit + d.period < word))
      → c'.period ≡ c.period
      → IsSound limit k'
  woken-IsSound {limit = limit} within awake periods same = record {
    within = omega (arith, within, a.now);
    scheduled = a.scheduled;
    awake = λ j d e w. elim (is_there j d e) [
      | inl (f, g) ↦ subst (λ (d : Clock). d.activated ≡ true) (sym g) woken_on
      | inr f ↦ awake j d f w
    ];
    periods = λ j d e. elim (is_there j d e) [
      | inl (f, g) ↦
          let p = periods i c stored in
          let q = woken_period same in
          subst (λ (d : Clock). (0 < d.period) × (limit + d.period < word)) (sym g)
            (omega (arith, p.0, q), omega (arith, p.1, q))
      | inr f ↦ periods j d f
    ];
  }

  woken-Keeps : Same c c' → Keeps k k'
  woken-Keeps same = record {
    now = a.now;
    kept = λ j d e. elim (was_there j d e) [
      | inl (f, g) ↦ (
        a.clock,
        ap (λ t. get_elem? k'.clocks t) f ∙ a.stored,
        subst (λ d. Kept d a.clock) (sym g)
            (record {
              period = woken_period same.period;
              active = λ h. (woken_on, woken_kept (same.activated ∙ h) ∙ same.cycle);
            }),
      )
      | inr f ↦ (d, f, record { period = refl; active = λ h. (h, refl) })
    ];
    old = λ j d e. elim (is_there j d e) [
      | inl (f, g) ↦ (c, ap (λ t. get_elem? k.clocks t) f ∙ stored)
      | inr f ↦ (d, f)
    ];
    later = λ j d d' e f off on. elim (was_there j d e) [
      | inl (g, h) ↦
          let at : get_elem? k'.clocks j ≡ some a.clock =
            ap (λ t. get_elem? k'.clocks t) g ∙ a.stored in
          let next = a.next (same.activated ∙ (ap (λ (d : Clock). d.activated) (sym h) ∙ off)) in
          subst (λ (d : Clock). k.cycle < d.cycle) (some-eq at f) next.behind
      | inr g ↦ let eq : some d ≡ some d' = sym g ∙ f in absurd (cc)
    ];
  }

pub activate_with-IsSound :
    {limit : ℕ} (i : ℕ) (c c' : Clock) (k k' : Kernel)
    → IsSound limit k
    → get_elem? k.clocks i ≡ some c
    → Same c c'
    → activate_with i c' k ≡ some k'
    → IsSound limit k' × Keeps k k'
unfolding activate_with
activate_with-IsSound {limit = limit} i c c' k k' s e same h =
    let k1 : Kernel = record k { clocks = set k.clocks i c' } in
    let p = s.periods i c e in
    let here = get_elem?-set_self k.clocks i c' (get_elem?-bound k.clocks i c e) in
    let ready = IsScheduled-Alike k _ (set-Alike k.clocks i c c' e same) s.scheduled in
    let (k2, made, a) =
      activate_clock-Activated i c' k1 ready here (omega (arith, p.0, same.period))
        (omega (arith, p.1, same.period, s.within)) in
    let eq : some k2 ≡ some k' = sym made ∙ h in
    subst (λ k'. IsSound limit k' × Keeps k k') (cc)
      (
        woken-IsSound i c c' k k2 e a s.within s.awake s.periods same.period,
        woken-Keeps i c c' k k2 e a same,
      )

Queued-earlier :
    (cs : List Clock) (lo lo' : ℕ) (is : List ℕ) → lo' ≤ lo → Queued cs lo is → Queued cs lo' is
Queued-earlier cs lo lo' [] h q = tt
Queued-earlier cs lo lo' (i ∷ is) h (c, e, on, l, n, q) = (c, e, on, omega (arith, h, l), n, q)

-- The kernel is sound, or will be when time is set back to a cycle up to the limit.
abbrev pub Ready : ℕ → Kernel → Type 0
Ready limit k = (t : ℕ) → t ≤ k.cycle → t ≤ limit → IsSound limit (record k { cycle = t })

pub IsSound-Ready : {limit : ℕ} (k : Kernel) → IsSound limit k → Ready limit k
IsSound-Ready k s t h l = record {
  within = l;
  scheduled = record {
    queue = Queued-earlier k.clocks k.cycle t k.active_clocks h s.scheduled.queue;
    listed = s.scheduled.listed;
  };
  awake = s.awake;
  periods = s.periods;
}
