-- ===== src/Kernel/Step/Marks/Answers.antt =====
-- What a step answers at its end, by the marks of `Abort` and `Stop`.
use mgsim.Base.{
  ℕ, ◌≡◌, refl, sym, subst, ◌∙◌, true, false, List, [], ◌∷◌, arith, min, if◌then◌else◌, Bool-cases,
  inl, inr, ◌↔◌,
}
use mgsim.Kernel.{Kernel}
use mgsim.Kernel.Activation.{RunState, idle, running, aborted}
use mgsim.Kernel.Machine.{Machine}
use mgsim.Kernel.Step.{Run}
use mgsim.Kernel.Step.Loop.{finished, continues, returned}
use mgsim.Kernel.Step.Loop.Steps.{finished-eq}
use mgsim.Kernel.Step.Marks.{Asked, asked_abort, asked_stop, AbortedIn, StoppedIn, Cut}
use mgsim.Kernel.Step.Marks.Phases.{Agrees}

-- The record and the marks agree at the end of a cycle: time may have gone on.
pub record Marked (last : ℕ) (l : List Asked) (m : Machine) : Type 0 where
  pub cut : Cut last l
  pub since : m.last_suspend ≡ last
  pub aborts : m.aborted ≡ asked_abort l
  pub stops : m.suspended ≡ asked_stop l

-- What a step leaves that was to end in cycle `end`, with its calls on record, and what it answers. The
-- last suspension before it was in cycle `last`.
pub record Told {E : Type 0} (last end : ℕ) (state : RunState) (r : Run (E × List Asked))
    : Type 0 where
  pub cut : Cut last r.world.1
  pub aborts : r.machine.aborted ≡ asked_abort r.world.1
  pub stops : r.machine.suspended ≡ asked_stop r.world.1
  pub suspends : (state ≡ aborted) ↔ (asked_stop r.world.1 ≡ true)
  pub resumes : state ≡ aborted → r.machine.last_suspend ≡ r.machine.kernel.cycle
  pub idles : state ≡ idle → r.worked ≡ false
  pub runs : state ≡ running → asked_abort r.world.1 ≡ false → r.machine.kernel.cycle ≡ end

nobody-AbortedIn : (now : ℕ) (l : List Asked) → asked_abort l ≡ false → AbortedIn now l
unfolding asked_abort
nobody-AbortedIn now [] h = tt
nobody-AbortedIn now (x ∷ l) h =
    (λ e. absurd (ground (arith, h, e)), nobody-AbortedIn now l (ground (arith, h)))

nobody-StoppedIn : (last now : ℕ) (l : List Asked) → asked_stop l ≡ false → StoppedIn last now l
unfolding asked_stop
nobody-StoppedIn last now [] h = tt
nobody-StoppedIn last now (x ∷ l) h =
    (λ e. absurd (ground (arith, h, e)), nobody-StoppedIn last now l (ground (arith, h)))

same-StoppedIn : (last now : ℕ) (l : List Asked) → now ≡ last → StoppedIn last now l
same-StoppedIn last now [] h = tt
same-StoppedIn last now (x ∷ l) h = (λ e. inr h, same-StoppedIn last now l h)

module _ {E : Type 0} (last : ℕ) where
  -- The next cycle begins only if nobody has asked for `Stop`, or in the cycle of the last suspension.
  continues-StoppedIn :
      (end : ℕ) (r : Run (E × List Asked))
      → continues end r ≡ true
      → Marked last r.world.1 r.machine
      → StoppedIn last r.machine.kernel.cycle r.world.1
  unfolding continues
  continues-StoppedIn end r c w = elim (Bool-cases r.machine.suspended) [
    | inr s ↦ nobody-StoppedIn last r.machine.kernel.cycle r.world.1 (sym w.stops ∙ s)
    | inl s ↦ same-StoppedIn last r.machine.kernel.cycle r.world.1 (ground (arith, c, s, w.since))
  ]

  -- The next cycle begins only if nobody has asked for `Abort`.
  pub continues-Agrees :
      (end : ℕ) (r : Run (E × List Asked))
      → continues end r ≡ true
      → Marked last r.world.1 r.machine
      → Agrees last r.world.1 r.machine
  unfolding continues
  continues-Agrees end r c w =
      let calm : asked_abort r.world.1 ≡ false = ground (arith, c, w.aborts) in
      record {
        cut = w.cut;
        here = nobody-AbortedIn r.machine.kernel.cycle r.world.1 calm;
        past = continues-StoppedIn end r c w;
        since = w.since;
        aborts = w.aborts;
        stops = w.stops;
      }

  -- A step that is neither suspended nor aborted, and at work, is at its end.
  stopped_late :
      (end : ℕ) (r : Run (E × List Asked))
      → continues end r ≡ false
      → r.machine.suspended ≡ false
      → r.machine.aborted ≡ false
      → r.worked ≡ true
      → min r.machine.kernel.cycle end ≡ end
  unfolding continues
  stopped_late end r c s a w = ground (arith, c, s, a, w)

  -- The answer of a step that is not suspended.
  answer-Told :
      (end : ℕ) (r : Run (E × List Asked))
      → continues end r ≡ false
      → Marked last r.world.1 r.machine
      → r.machine.suspended ≡ false
      → let m = r.machine in
        let k' : Kernel = record m.kernel { cycle = min m.kernel.cycle end } in
        Told last end
          (if r.worked then running else idle)
          (record r { machine = record m { kernel = k'; suspended = false } })
  answer-Told end r c w s = elim (Bool-cases r.worked) [
    | inl b ↦ rw b (record {
      cut = w.cut;
      aborts = w.aborts;
      stops = sym s ∙ w.stops;
      suspends = (λ e. absurd (cc), λ e. absurd (cc (s, w.stops, e)));
      resumes = λ e. absurd (cc);
      idles = λ e. absurd (cc);
      runs = λ e a. stopped_late end r c s (w.aborts ∙ a) b;
    })
    | inr b ↦ rw b (record {
      cut = w.cut;
      aborts = w.aborts;
      stops = sym s ∙ w.stops;
      suspends = (λ e. absurd (cc), λ e. absurd (cc (s, w.stops, e)));
      resumes = λ e. absurd (cc);
      idles = λ e. refl;
      runs = λ e a. absurd (cc);
    })
  ]

  pub returned-Told :
      (end : ℕ) (r r' : Run (E × List Asked)) (state : RunState)
      → continues end r ≡ false
      → Marked last r.world.1 r.machine
      → returned end r ≡ finished state r'
      → Told last end state r'
  unfolding returned
  returned-Told end r r' state c w h = elim (Bool-cases r.machine.suspended) [
    | inl s ↦
        let (told, left) = finished-eq (rw s at h) in
        subst (λ (x : RunState × Run (E × List Asked)). Told last end x.0 x.1)
          (λ i. (told i, left i))
          (record {
            cut = w.cut;
            aborts = w.aborts;
            stops = sym s ∙ w.stops;
            suspends = (λ e. sym w.stops ∙ s, λ e. refl);
            resumes = λ e. refl;
            idles = λ e. absurd (cc);
            runs = λ e. absurd (cc);
          })
    | inr s ↦
        let (told, left) = finished-eq (rw s at h) in
        subst (λ (x : RunState × Run (E × List Asked)). Told last end x.0 x.1)
          (λ i. (told i, left i)) (answer-Told end r c w s)
  ]
