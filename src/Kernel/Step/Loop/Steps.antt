-- ===== src/Kernel/Step/Loop/Steps.antt =====
-- A whole step: it ends, and before the first cycle it updates no storage.
use mgsim.Base.{
  ℕ, ◌+◌, ◌%◌, ◌<◌, ◌≤◌, ◌≡◌, ◌≢◌, refl, sym, ap, subst, ◌∙◌, Bool, true, false, none, some, List,
  [], ◌∷◌, arith, leb, ◌==◌, if◌then◌else◌, ◌>>=◌, Bool-cases, Option-cases, inl, inr, In, some-eq,
  >>=-eq-some,
}
use native.Mathlib.Nat
use mgsim.Storage.{word}
use mgsim.Kernel.{Kernel}
use mgsim.Kernel.Schedule.{cycle_of}
use mgsim.Kernel.Schedule.Queue.{Queued, cycle_of-some}
use mgsim.Kernel.Activation.{RunState}
use mgsim.Kernel.Advance.{at_cycle}
use mgsim.Kernel.Machine.{Machine, Request, run_requests}
use mgsim.Kernel.Machine.Sound.{IsSound, Ready, IsSound-Ready}
use mgsim.Kernel.Machine.Requests.{run_requests-Sound}
use mgsim.Kernel.Step.{Components, Run, update_storages}
use mgsim.Kernel.Step.Phases.{update_storages-Safe}
use mgsim.Kernel.Step.Loop.{infinite_cycles, finished, crashed, begin, loop, start, step}
use mgsim.Kernel.Step.Loop.Ends.{Ends, loop-Ends, update_storages-empty}

-- Time goes on to the first clock.
begin-Ready :
    {limit : ℕ} (k k' : Kernel) (l : List ℕ)
    → IsSound limit k
    → k.active_clocks ≡ l
    → begin l k ≡ some k'
    → Ready limit k' × (k.cycle ≤ k'.cycle)
unfolding begin
begin-Ready {limit = limit} k k' [] s e h =
    subst (λ k'. Ready limit k' × (k.cycle ≤ k'.cycle)) (some-eq refl h)
      (IsSound-Ready k s, omega arith)
begin-Ready {limit = limit} k k' (i ∷ is) s e h =
    let (c, f, on, lo, n, q) = subst (λ l. Queued k.clocks k.cycle l) e s.scheduled.queue in
    let at = cycle_of-some k.clocks i c f in
    let le : k.cycle ≤ cycle_of k.clocks i = omega (arith, at, lo) in
    let test : leb k.cycle (cycle_of k.clocks i) ≡ true = ground arith in
    subst (λ k'. Ready limit k' × (k.cycle ≤ k'.cycle)) (some-eq refl (rw test at h))
      (
        λ t early low. record {
          within = low;
          scheduled = record {
            queue =
                subst (λ l. Queued k.clocks t l) (sym e) (c, f, on, omega (arith, at, early), n, q);
            listed = s.scheduled.listed;
          };
          awake = s.awake;
          periods = s.periods;
        },
        le,
      )

pub finished-eq :
    {E : Type 0} {s s' : RunState} {q q' : Run E}
    → finished s q ≡ finished s' q'
    → (s ≡ s') × (q ≡ q')
finished-eq h = (cc, cc)

-- The last cycle of a step.
pub last_cycle : ℕ → ℕ → ℕ
last_cycle now cycles = if cycles == infinite_cycles then cycles else (now + cycles) % word

module _ {E : Type 0} (comps : Components E) where
  start-Ready :
      {limit : ℕ} (r r' : Run E)
      → IsSound limit r.machine.kernel
      → start comps r ≡ some r'
      → Ready limit r'.machine.kernel × (r.machine.kernel.cycle ≤ r'.machine.kernel.cycle)
  unfolding start
  start-Ready {limit = limit} r r' s h = elim (Bool-cases (r.machine.kernel.cycle == 0)) [
    | inl z ↦
        let (r1, e, h1) = >>=-eq-some (update_storages comps r) _ (rw z at h) in
        let (s1, kept) = update_storages-Safe comps limit r r1 s e in
        let (ready, late) = begun r1 s1 h1 in (ready, omega (arith, late, kept.now))
    | inr z ↦ begun r s (rw z at h)
  ]
    where
      begun :
          (r1 : Run E)
          → IsSound limit r1.machine.kernel
          → (begin r1.machine.kernel.active_clocks r1.machine.kernel >>= λ k. some (record r1 {
            worked = true;
            machine = record r1.machine { kernel = k; aborted = false; suspended = false };
          }))
            ≡ some r'
          → Ready limit r'.machine.kernel × (r1.machine.kernel.cycle ≤ r'.machine.kernel.cycle)
      begun r1 s1 h =
          let (k, e, h1) =
            >>=-eq-some (begin r1.machine.kernel.active_clocks r1.machine.kernel) _ h in
          let same = ap (λ (r : Run E). r.machine.kernel) (some-eq refl h1) in
          subst (λ k'. Ready limit k' × (r1.machine.kernel.cycle ≤ k'.cycle)) same
            (begin-Ready r1.machine.kernel k r1.machine.kernel.active_clocks s1 refl e)

  small : {n : ℕ} → n < infinite_cycles → n < word
  small h = omega (arith, h)

  last_cycle-finite :
      (now cycles : ℕ) → now + cycles < infinite_cycles → last_cycle now cycles ≡ now + cycles
  unfolding last_cycle
  last_cycle-finite now cycles h =
      let test : (cycles == infinite_cycles) ≡ false = ground (arith, h) in
      rw (test, Nat.mod-eq_of_lt (small h)) refl

  pub step-crash :
      (fuel cycles : ℕ) (r : Run E) → start comps r ≡ none → step comps fuel cycles r ≡ crashed
  unfolding step
  step-crash fuel cycles r h = rw (h, step) refl

  pub step-loop :
      (fuel cycles : ℕ) (r r' : Run E)
      → start comps r ≡ some r'
      → step comps fuel cycles r ≡ loop comps fuel (last_cycle r.machine.kernel.cycle cycles) r'
  unfolding step last_cycle
  step-loop fuel cycles r r' h = rw (h, step) refl

  -- A step of a finite number of cycles on a sound kernel, with two more units of fuel than cycles:
  -- the loop comes to its end. Unless a component throws or an assertion fails, the step returns a
  -- state, with a sound kernel, in which each clock with work is still scheduled, and with the time
  -- between the cycle in which it began and the last one asked for.
  pub step-Ends :
      (fuel cycles : ℕ) (r : Run E)
      → IsSound (r.machine.kernel.cycle + cycles) r.machine.kernel
      → r.machine.kernel.cycle + cycles < infinite_cycles
      → cycles + 2 ≤ fuel
      → Ends comps
          (r.machine.kernel.cycle + cycles)
          r.machine.kernel.cycle
          (step comps fuel cycles r)
  step-Ends fuel cycles r s finite enough =
      let now = r.machine.kernel.cycle in
      elim (Option-cases (start comps r)) [
        | inl h ↦ inl (step-crash fuel cycles r h)
        | inr (r', h) ↦
            let (ready, late) = start-Ready r r' s h in
            let ne : now + cycles ≢ infinite_cycles = λ e. absurd (omega (arith, finite, e)) in
            subst (Ends comps (now + cycles) now)
              (sym (
                step-loop fuel cycles r r' h
                ∙ ap (λ t. loop comps fuel t r') (last_cycle-finite now cycles finite)))
              (loop-Ends comps (now + cycles) ne fuel now r' (omega (arith, enough, late)) ready
                late (omega arith))
      ]

  -- The clocks that are activated before the first cycle run later.
  requests-due :
      {limit : ℕ} (rs : List Request) (m m' : Machine) (l : List ℕ)
      → IsSound limit m.kernel
      → m.kernel.active_clocks ≡ []
      → run_requests rs m ≡ some m'
      → m'.kernel.active_clocks ≡ l
      → at_cycle m'.kernel.clocks m'.kernel.cycle l ≡ []
  unfolding at_cycle
  requests-due rs m m' [] s none_active h e = refl
  requests-due rs m m' (i ∷ is) s none_active h e =
      let (s', kept) = run_requests-Sound rs m m' s h in
      let (c', f, on, lo, n, q) =
        subst (λ l. Queued m'.kernel.clocks m'.kernel.cycle l) e s'.scheduled.queue in
      let (c, g) = kept.old i c' f in
      let at = cycle_of-some m'.kernel.clocks i c' f in
      let off : c.activated ≡ false = elim (Bool-cases c.activated) [
        | inl a ↦ absurd (subst (λ l. In i l) none_active (s.scheduled.listed i c g a))
        | inr a ↦ a
      ] in
      let later = kept.later i c c' g f off on in
      let other : (m'.kernel.cycle == cycle_of m'.kernel.clocks i) ≡ false =
        ground (arith, later, at, kept.now) in
      rw (other, at_cycle) refl

  -- Whatever storages and processes ask for before the first cycle, on a sound kernel with no active
  -- clock, `UpdateStorages` then updates nothing.
  pub update_storages-requests :
      (limit : ℕ) (rs : List Request) (w : Bool) (world : E) (m m' : Machine)
      → IsSound limit m.kernel
      → m.kernel.active_clocks ≡ []
      → run_requests rs m ≡ some m'
      → update_storages comps (record { worked = w; world = world; machine = m' })
        ≡ some (record { worked = w; world = world; machine = m' })
  update_storages-requests limit rs w world m m' s none_active h =
      update_storages-empty comps (record { worked = w; world = world; machine = m' })
        (requests-due rs m m' m'.kernel.active_clocks s none_active h refl)
