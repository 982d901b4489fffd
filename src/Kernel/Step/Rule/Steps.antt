-- ===== src/Kernel/Step/Rule/Steps.antt =====
-- The rule, for whole steps.
use mgsim.Base.{
  ℕ, zero, suc, ◌≡◌, refl, sym, ap, subst, ◌∙◌, false, ◌||◌, some, arith, ◌==◌, if◌then◌else◌,
  Bool-cases, Option-cases, inl, inr, some-eq, >>=-eq-some,
}
use mgsim.Kernel.Activation.{RunState}
use mgsim.Kernel.Advance.{advance, has_later}
use mgsim.Kernel.Step.{Components, Run, update_storages, phases}
use mgsim.Kernel.Step.Loop.{finished, begin, continues, returned, run_cycle, loop, start, step}
use mgsim.Kernel.Step.Loop.Ends.{loop-crash, loop-turn, loop-stop}
use mgsim.Kernel.Step.Loop.Steps.{finished-eq, step-crash, step-loop, last_cycle}
use mgsim.Kernel.Step.Rule.{Rule, Invariant, update_storages-Invariant, phases-Invariant}

module _ {E : Type 0} (comps : Components E) (P : E → Type 0) (rule : Rule comps P) where
  run_cycle-Invariant : Invariant P (run_cycle comps)
  unfolding run_cycle
  run_cycle-Invariant r r' i h =
      let (r1, e, h1) = >>=-eq-some (phases comps (record r { worked = false })) _ h in
      let k = r1.machine.kernel in
      let i1 = phases-Invariant comps P rule (record r { worked = false }) r1 i e in
      elim (Bool-cases (r1.worked || has_later k.clocks k.cycle k.active_clocks)) [
        | inl w ↦
            let (k', f, h2) = >>=-eq-some (advance k) _ (rw w at h1) in
            subst (λ (r : Run E). P r.world) (some-eq refl h2) i1
        | inr w ↦ subst (λ (r : Run E). P r.world) (some-eq refl (rw w at h1)) i1
      ]

  start-Invariant : Invariant P (start comps)
  unfolding start
  start-Invariant r r' i h =
      let (r1, e, h1) =
        >>=-eq-some (if r.machine.kernel.cycle == 0 then update_storages comps r else some r) _ h in
      let (k, f, h2) = >>=-eq-some (begin r1.machine.kernel.active_clocks r1.machine.kernel) _ h1 in
      let i1 : P r1.world = elim (Bool-cases (r.machine.kernel.cycle == 0)) [
        | inl z ↦ update_storages-Invariant comps P rule.updates r r1 i (rw z at e)
        | inr z ↦ subst (λ (r : Run E). P r.world) (some-eq refl (rw z at e)) i
      ] in
      subst (λ (r : Run E). P r.world) (some-eq refl h2) i1

  returned-Invariant :
      (end : ℕ) (r r' : Run E) (state : RunState)
      → P r.world
      → returned end r ≡ finished state r'
      → P r'.world
  unfolding returned
  returned-Invariant end r r' state i h = elim (Bool-cases r.machine.suspended) [
    | inl s ↦ subst P (ap (λ (r : Run E). r.world) (finished-eq (rw s at h)).1) i
    | inr s ↦ subst P (ap (λ (r : Run E). r.world) (finished-eq (rw s at h)).1) i
  ]

  loop-Invariant :
      (fuel end : ℕ) (r r' : Run E) (state : RunState)
      → P r.world
      → loop comps fuel end r ≡ finished state r'
      → P r'.world
  unfolding loop
  loop-Invariant zero end r r' state i h = absurd (cc)
  loop-Invariant (suc fuel) end r r' state i h = elim (Bool-cases (continues end r)) [
    | inl c ↦ elim (Option-cases (run_cycle comps r)) [
      | inl e ↦ absurd (let f = sym (loop-crash comps fuel end r c e) ∙ h in cc)
      | inr (r1, e) ↦
          loop-Invariant fuel end r1 r' state (run_cycle-Invariant r r1 i e)
            (sym (loop-turn comps fuel end r r1 c e) ∙ h)
    ]
    | inr c ↦
        returned-Invariant end r r' state i
          (sym (loop-stop comps (suc fuel) end r (omega arith) c) ∙ h)
  ]

  -- What the rule shows of the state of the components holds after a step that returns, if it held
  -- before: no commit is called but behind a check of the process that succeeded, on the state that
  -- the check left, and no cycle goes on behind an answer that the kernel does not expect.
  pub step-Invariant :
      (fuel cycles : ℕ) (r r' : Run E) (state : RunState)
      → P r.world
      → step comps fuel cycles r ≡ finished state r'
      → P r'.world
  step-Invariant fuel cycles r r' state i h = elim (Option-cases (start comps r)) [
    | inl e ↦ absurd (let f = sym (step-crash comps fuel cycles r e) ∙ h in cc)
    | inr (r1, e) ↦
        loop-Invariant fuel (last_cycle r.machine.kernel.cycle cycles) r1 r' state
          (start-Invariant r r1 i e) (sym (step-loop comps fuel cycles r r1 e) ∙ h)
  ]
