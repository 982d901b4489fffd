-- ===== src/Kernel/Step/Loop/Ends.antt =====
-- A step ends, on a sound kernel, in a cycle up to its last one.
use mgsim.Base.{
  ℕ, zero, suc, ◌+◌, ◌-◌, ◌<◌, ◌≤◌, ◌≡◌, ◌≢◌, refl, sym, subst, min, true, false, ◌||◌, Option,
  none, some, List, [], arith, Bool-cases, Option-cases, inl, inr, ◌⊎◌, some-eq, >>=-eq-some,
}
use mgsim.Kernel.{Clock, Kernel}
use mgsim.Kernel.Activation.{RunState}
use mgsim.Kernel.Advance.{each, at_cycle, due, advance, has_later}
use mgsim.Kernel.Advance.Time.{Advanced, advance-ended}
use mgsim.Kernel.Machine.Sound.{IsSound, Ready, IsSound-Ready}
use mgsim.Kernel.Step.{
  Components, Run, phases, update_storages, acquire_clock, arbitrate_clock, commit_clock,
}
use mgsim.Kernel.Step.Phases.{phases-Safe}
use mgsim.Kernel.Step.Loop.{
  infinite_cycles, Outcome, finished, crashed, continues, returned, run_cycle, loop,
}

at_cycle-empty : (cs : List Clock) (now : ℕ) (l : List ℕ) → l ≡ [] → at_cycle cs now l ≡ []
unfolding at_cycle
at_cycle-empty cs now l e = rw (e, at_cycle) refl

has_later-empty : (cs : List Clock) (now : ℕ) (l : List ℕ) → l ≡ [] → has_later cs now l ≡ false
unfolding has_later
has_later-empty cs now l e = rw (e, has_later) refl

-- What one cycle of the loop leaves.
pub record Cycled {E : Type 0} (limit : ℕ) (r r' : Run E) : Type 0 where
  pub ready : Ready limit r'.machine.kernel
  pub time :
      (r'.worked ≡ false)
      ⊎ ((r'.machine.kernel.active_clocks ≡ [])
          ⊎ (r.machine.kernel.cycle < r'.machine.kernel.cycle))
  pub order : r.machine.kernel.cycle ≤ r'.machine.kernel.cycle

module _ {E : Type 0} (comps : Components E) where
  worked_on :
      (limit : ℕ) (r r1 r' : Run E) (k' : Kernel)
      → r1.machine.kernel.cycle ≡ r.machine.kernel.cycle
      → Advanced limit r1.machine.kernel k'
      → some (record r1 { worked = true; machine = record r1.machine { kernel = k' } }) ≡ some r'
      → Cycled limit r r'
  worked_on limit r r1 r' k' now a e =
      subst (λ r'. Cycled limit r r') (some-eq refl e)
        (record {
          ready = a.sound;
          time = elim a.time [
            | inl (nil, same) ↦ inr (inl nil)
            | inr later ↦ inr (inr (omega (arith, later, now)))
          ];
          order = elim a.time [
            | inl (nil, same) ↦ omega (arith, same, now)
            | inr later ↦ omega (arith, later, now)
          ];
        })

  -- A cycle on a sound kernel that comes to its end, whatever the components do, leaves a kernel that
  -- is sound at once or when time is set back to the limit. Time does not go back. It goes on if
  -- something has been done and a clock is active.
  pub run_cycle-Cycled :
      (limit : ℕ) (r r' : Run E)
      → IsSound limit r.machine.kernel
      → run_cycle comps r ≡ some r'
      → Cycled limit r r'
  unfolding run_cycle
  run_cycle-Cycled limit r r' s h =
      let (r1, e, h1) = >>=-eq-some (phases comps (record r { worked = false })) _ h in
      let (s1, kept) = phases-Safe comps limit (record r { worked = false }) r1 s e in
      let k = r1.machine.kernel in
      elim (Bool-cases (r1.worked || has_later k.clocks k.cycle k.active_clocks)) [
        | inl w ↦
            let (k', f, h2) = >>=-eq-some (advance k) _ (rw w at h1) in
            worked_on limit r r1 r' k' kept.now (advance-ended limit k k' s1 f) h2
        | inr w ↦
            subst (λ r'. Cycled limit r r') (some-eq refl (rw w at h1))
              (record {
                ready = IsSound-Ready k s1;
                time = inl (ground (arith, w));
                order = omega (arith, kept.now);
              })
      ]

  each-empty :
      (f : ℕ → Run E → Option (Run E)) (l : List ℕ) (r : Run E) → l ≡ [] → each f l r ≡ some r
  unfolding each
  each-empty f l r e = subst (λ l. each f l r ≡ some r) (sym e) refl

  pub update_storages-empty :
      (r : Run E) → due r.machine.kernel ≡ [] → update_storages comps r ≡ some r
  unfolding update_storages
  update_storages-empty r e = each-empty _ (due r.machine.kernel) r e

  phases-empty : (r : Run E) → due r.machine.kernel ≡ [] → phases comps r ≡ some r
  unfolding phases
  phases-empty r e =
      rw
        (
          each-empty (acquire_clock comps) (due r.machine.kernel) r e,
          each-empty (arbitrate_clock comps) (due r.machine.kernel) r e,
          each-empty (commit_clock comps) (due r.machine.kernel) r e,
        )
        (update_storages-empty r e)

  -- With no clock active, nothing is done.
  run_cycle-empty :
      (r : Run E)
      → r.machine.kernel.active_clocks ≡ []
      → run_cycle comps r ≡ some (record r { worked = false })
  unfolding run_cycle
  run_cycle-empty r e =
      let k = r.machine.kernel in
      let no_clock = at_cycle-empty k.clocks k.cycle k.active_clocks e in
      let no_later = has_later-empty k.clocks k.cycle k.active_clocks e in
      rw (phases-empty (record r { worked = false }) no_clock, no_later) refl

  -- The outcome of a step up to cycle `end`, begun in cycle `lo` or later.
  abbrev pub Ends : ℕ → ℕ → Outcome E → Type 0
  Ends end lo o =
      (o ≡ crashed)
      ⊎ ((state : RunState) × (r : Run E) × (o ≡ finished state r)
          × IsSound end r.machine.kernel
          × (lo ≤ r.machine.kernel.cycle))

  returned-Ends :
      (end lo : ℕ) (r : Run E)
      → Ready end r.machine.kernel
      → lo ≤ r.machine.kernel.cycle
      → lo ≤ end
      → Ends end lo (returned end r)
  unfolding returned
  returned-Ends end lo r ready first last =
      let now = min r.machine.kernel.cycle end in
      let sound = ready now (omega arith) (omega arith) in
      let late : lo ≤ now = omega (arith, first, last) in
      elim (Bool-cases r.machine.suspended) [
        | inl s ↦ rw s (inr (_, _, refl, sound, late))
        | inr s ↦ rw s (inr (_, _, refl, sound, late))
      ]

  -- One turn of the loop.
  pub loop-stop :
      (fuel end : ℕ) (r : Run E)
      → 0 < fuel
      → continues end r ≡ false
      → loop comps fuel end r ≡ returned end r
  unfolding loop
  loop-stop zero end r h e = absurd (omega (arith, h))
  loop-stop (suc fuel) end r h e = rw (e, loop) refl

  pub loop-turn :
      (fuel end : ℕ) (r r' : Run E)
      → continues end r ≡ true
      → run_cycle comps r ≡ some r'
      → loop comps (suc fuel) end r ≡ loop comps fuel end r'
  unfolding loop
  loop-turn fuel end r r' e h = rw (e, loop, h, loop) refl

  pub loop-crash :
      (fuel end : ℕ) (r : Run E)
      → continues end r ≡ true
      → run_cycle comps r ≡ none
      → loop comps (suc fuel) end r ≡ crashed
  unfolding loop
  loop-crash fuel end r e h = rw (e, loop, h, loop) refl

  idle-stops : (end : ℕ) (r : Run E) → r.worked ≡ false → continues end r ≡ false
  unfolding continues
  idle-stops end r e = ground (arith, e)

  continues-lt :
      (end : ℕ) (r : Run E)
      → end ≢ infinite_cycles
      → continues end r ≡ true
      → r.machine.kernel.cycle < end
  unfolding continues
  continues-lt end r n e = ground (arith, n, e)

  module _ (end : ℕ) (finite : end ≢ infinite_cycles) where
    stop-Ends :
        (fuel lo : ℕ) (r : Run E)
        → 0 < fuel
        → continues end r ≡ false
        → Ready end r.machine.kernel
        → lo ≤ r.machine.kernel.cycle
        → lo ≤ end
        → Ends end lo (loop comps fuel end r)
    stop-Ends fuel lo r f e ready first last =
        subst (Ends end lo) (sym (loop-stop fuel end r f e))
          (returned-Ends end lo r ready first last)

    -- With no clock active, two turns are enough.
    empty-Ends :
        (fuel lo : ℕ) (r : Run E)
        → 0 < fuel
        → r.machine.kernel.active_clocks ≡ []
        → Ready end r.machine.kernel
        → lo ≤ r.machine.kernel.cycle
        → lo ≤ end
        → Ends end lo (loop comps (suc fuel) end r)
    empty-Ends fuel lo r f e ready first last = elim (Bool-cases (continues end r)) [
      | inl c ↦
          let r' : Run E = record r { worked = false } in
          subst (Ends end lo) (sym (loop-turn fuel end r r' c (run_cycle-empty r e)))
            (stop-Ends fuel lo r' f (idle-stops end r' refl) ready first last)
      | inr c ↦ stop-Ends (suc fuel) lo r (omega arith) c ready first last
    ]

    pub loop-Ends :
        (fuel lo : ℕ) (r : Run E)
        → end - r.machine.kernel.cycle + 2 ≤ fuel
        → Ready end r.machine.kernel
        → lo ≤ r.machine.kernel.cycle
        → lo ≤ end
        → Ends end lo (loop comps fuel end r)
    loop-Ends zero lo r f ready first last = absurd (omega (arith, f))
    loop-Ends (suc fuel) lo r f ready first last = elim (Bool-cases (continues end r)) [
      | inr c ↦ stop-Ends (suc fuel) lo r (omega arith) c ready first last
      | inl c ↦
          let early = continues-lt end r finite c in
          let sound = ready r.machine.kernel.cycle (omega arith) (omega (arith, early)) in
          elim (Option-cases (run_cycle comps r)) [
            | inl h ↦ inl (loop-crash fuel end r c h)
            | inr (r', h) ↦
                let cycled = run_cycle-Cycled end r r' sound h in
                let lo' : lo ≤ r'.machine.kernel.cycle = omega (arith, first, cycled.order) in
                subst (Ends end lo) (sym (loop-turn fuel end r r' c h)) (elim cycled.time [
                  | inl asleep ↦
                      stop-Ends fuel lo r' (omega (arith, f)) (idle-stops end r' asleep)
                        cycled.ready lo' last
                  | inr (inl nil) ↦ turns fuel lo r' (omega (arith, f)) nil cycled.ready lo' last
                  | inr (inr later) ↦
                      loop-Ends fuel lo r' (omega (arith, f, later, early)) cycled.ready lo' last
                ])
          ]
    ]
      where
        turns :
            (fuel lo : ℕ) (r : Run E)
            → 1 < fuel
            → r.machine.kernel.active_clocks ≡ []
            → Ready end r.machine.kernel
            → lo ≤ r.machine.kernel.cycle
            → lo ≤ end
            → Ends end lo (loop comps fuel end r)
        turns zero lo r f e ready first last = absurd (omega (arith, f))
        turns (suc fuel) lo r f e ready first last =
            empty-Ends fuel lo r (omega (arith, f)) e ready first last
