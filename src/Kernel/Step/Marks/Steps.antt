-- ===== src/Kernel/Step/Marks/Steps.antt =====
-- What `Abort` and `Stop` do to a whole step.
use mgsim.Base.{
  ℕ, zero, suc, ◌≡◌, refl, sym, ap, subst, ◌∙◌, false, ◌||◌, some, List, [], arith, ◌==◌,
  if◌then◌else◌, some-eq, >>=-eq-some, Bool-cases, Option-cases, inl, inr, get_elem?,
}
use mgsim.Kernel.Activation.{RunState}
use mgsim.Kernel.Advance.{advance, has_later}
use mgsim.Kernel.Machine.{Machine, Request, run_requests}
use mgsim.Kernel.Step.{Components, Run, set_clock, update, update_storages, phases}
use mgsim.Kernel.Step.Loop.{finished, begin, continues, run_cycle, loop, start, step}
use mgsim.Kernel.Step.Loop.Ends.{loop-crash, loop-turn, loop-stop}
use mgsim.Kernel.Step.Loop.Steps.{step-crash, step-loop, last_cycle}
use mgsim.Kernel.Step.Walk.{Kept, KeptLists, update_storages-Kept}
use mgsim.Kernel.Step.Marks.{Asked, asked_abort, asked_stop, watched, Quiet, run_requests-Marks}
use mgsim.Kernel.Step.Marks.Phases.{Agrees, phases-Keeps}
use mgsim.Kernel.Step.Marks.Answers.{Marked, Told, continues-Agrees, returned-Told}

module _ {E : Type 0} (last : ℕ) (comps : Components E) (quiet : Quiet comps) where
  run_cycle-Marked :
      (r r' : Run (E × List Asked))
      → Agrees last r.world.1 r.machine
      → run_cycle (watched comps) r ≡ some r'
      → Marked last r'.world.1 r'.machine
  unfolding run_cycle
  run_cycle-Marked r r' i h =
      let r0 : Run (E × List Asked) = record r { worked = false } in
      let (r1, e, h1) = >>=-eq-some (phases (watched comps) r0) _ h in
      let k = r1.machine.kernel in
      let a = phases-Keeps last comps quiet r0 r1 i e in
      elim (Bool-cases (r1.worked || has_later k.clocks k.cycle k.active_clocks)) [
        | inl w ↦
            let (k', f, h2) = >>=-eq-some (advance k) _ (rw w at h1) in
            subst (λ (r : Run (E × List Asked)). Marked last r.world.1 r.machine) (some-eq refl h2)
              (record { cut = a.cut; since = a.since; aborts = a.aborts; stops = a.stops })
        | inr w ↦
            subst (λ (r : Run (E × List Asked)). Marked last r.world.1 r.machine)
              (some-eq refl (rw w at h1))
              (record { cut = a.cut; since = a.since; aborts = a.aborts; stops = a.stops })
      ]

  loop-Told :
      (fuel end : ℕ) (r r' : Run (E × List Asked)) (state : RunState)
      → Marked last r.world.1 r.machine
      → loop (watched comps) fuel end r ≡ finished state r'
      → Told last end state r'
  unfolding loop
  loop-Told zero end r r' state w h = absurd (cc)
  loop-Told (suc fuel) end r r' state w h = elim (Bool-cases (continues end r)) [
    | inl c ↦ elim (Option-cases (run_cycle (watched comps) r)) [
      | inl e ↦ absurd (let f = sym (loop-crash (watched comps) fuel end r c e) ∙ h in cc)
      | inr (r1, e) ↦
          loop-Told fuel end r1 r' state (run_cycle-Marked r r1 (continues-Agrees last end r c w) e)
            (sym (loop-turn (watched comps) fuel end r r1 c e) ∙ h)
    ]
    | inr c ↦
        returned-Told last end r r' state c w
          (sym (loop-stop (watched comps) (suc fuel) end r (omega arith) c) ∙ h)
  ]

  -- In front of the first cycle no delegate is called.
  abbrev Unseen : Run (E × List Asked) → Type 0
  Unseen r = (r.world.1 ≡ []) × (r.machine.last_suspend ≡ last)

  update-Unseen : (s : ℕ) → Kept Unseen (update (watched comps) s)
  unfolding update watched
  update-Unseen s r r' (nil, since) h =
      let ((rs, w), e, h1) = >>=-eq-some ((watched comps).update s r.world) _ h in
      let ((qs, v), e1, h2) = >>=-eq-some (comps.update s r.world.0) _ e in
      let (m, f, h3) = >>=-eq-some (run_requests rs r.machine) _ h1 in
      let log = ap (λ (x : List Request × (E × List Asked)). x.1.1) (some-eq refl h2) in
      subst Unseen (some-eq refl h3)
        (sym log ∙ nil, (run_requests-Marks rs r.machine m f).since ∙ since)

  lists-Unseen : KeptLists Unseen
  unfolding set_clock
  lists-Unseen i g r r' (nil, since) h =
      let (m, e, h1) = >>=-eq-some (set_clock i g r.machine) _ h in
      let (c, e1, h2) = >>=-eq-some (get_elem? r.machine.kernel.clocks i) _ e in
      let same = ap (λ (m : Machine). m.last_suspend) (some-eq refl h2) in
      subst Unseen (some-eq refl h1) (nil, sym same ∙ since)

  -- The marks of an earlier step are gone, and no call is on record.
  start-Marked :
      (r r' : Run (E × List Asked))
      → Unseen r
      → start (watched comps) r ≡ some r'
      → Marked last r'.world.1 r'.machine
  unfolding start asked_abort asked_stop
  start-Marked r r' u h =
      let (r1, e, h1) =
        >>=-eq-some
          (if r.machine.kernel.cycle == 0 then update_storages (watched comps) r else some r) _ h in
      let (k, f, h2) = >>=-eq-some (begin r1.machine.kernel.active_clocks r1.machine.kernel) _ h1 in
      let (nil, since) : Unseen r1 = elim (Bool-cases (r.machine.kernel.cycle == 0)) [
        | inl z ↦
            update_storages-Kept Unseen (watched comps) lists-Unseen update-Unseen r r1 u
              (rw z at e)
        | inr z ↦ subst Unseen (some-eq refl (rw z at e)) u
      ] in
      let m : Machine = record r1.machine { kernel = k; aborted = false; suspended = false } in
      subst (λ (r : Run (E × List Asked)). Marked last r.world.1 r.machine) (some-eq refl h2)
        (subst (λ l. Marked last l m) (sym nil)
          (record { cut = tt; since = since; aborts = refl; stops = refl }))

  told :
      (fuel cycles : ℕ) (r r' : Run (E × List Asked)) (state : RunState)
      → Unseen r
      → step (watched comps) fuel cycles r ≡ finished state r'
      → Told last (last_cycle r.machine.kernel.cycle cycles) state r'
  told fuel cycles r r' state u h = elim (Option-cases (start (watched comps) r)) [
    | inl e ↦ absurd (let f = sym (step-crash (watched comps) fuel cycles r e) ∙ h in cc)
    | inr (r1, e) ↦
        loop-Told fuel (last_cycle r.machine.kernel.cycle cycles) r1 r' state
          (start-Marked r r1 u e) (sym (step-loop (watched comps) fuel cycles r r1 e) ∙ h)
  ]

-- The delegates of any components, whose storages ask for neither `Abort` nor `Stop`, are called in
-- a step that returns, whatever the marks were before it. Behind a call that asks for `Abort`, there
-- are calls in its cycle only; behind one that asks for `Stop`, in its cycle and in that of the last
-- suspension before the step. Each mark is set exactly if a delegate has asked for it in this step.
-- The step answers `STATE_ABORTED` exactly if one has asked for `Stop`, and notes the cycle in which
-- it ends; `Abort` alone does not lead to that answer. It answers `STATE_IDLE` only with nothing
-- done in its last cycle, and `STATE_RUNNING` with no `Abort` only at the last cycle asked for.
pub step-Told :
    {E : Type 0} (comps : Components E)
    → Quiet comps
    → (fuel cycles : ℕ) (r r' : Run (E × List Asked)) (state : RunState) → r.world.1 ≡ []
    → step (watched comps) fuel cycles r ≡ finished state r'
    → Told r.machine.last_suspend (last_cycle r.machine.kernel.cycle cycles) state r'
step-Told comps quiet fuel cycles r r' state nil h =
    told r.machine.last_suspend comps quiet fuel cycles r r' state (nil, refl) h
