-- ===== src/Kernel/Tests.antt =====
-- Runs of sim/kernel.cpp on concrete inputs.
use mgsim.Base.{
  inl, inr, true, get_elem?, zero, suc, In, ℕ, ◌*◌, ◌<◌, ◌≡◌, refl, some, [], ◌∷◌, arith,
}
use mgsim.Storage.{word}
use mgsim.Kernel.{Clock, Kernel, new_clock}
use mgsim.Kernel.Activation.{idle, active, Process, RunQueue, activate_process, deactivate_process}
use mgsim.Kernel.Activation.Counts.{
  IsCounted, Counted, activate_process-Counted, deactivate_process-Counted,
}
use mgsim.Kernel.Schedule.{activate_clock}
use mgsim.Kernel.Schedule.Queue.{IsScheduled, Activated, activate_clock-Activated}
use mgsim.Kernel.Gcd.{gcd, lcm, gcd_loop}
use mgsim.Kernel.Frequency.{create_clock}
use mgsim.Kernel.Frequency.Tuned.{IsTuned, HasClock}
use mgsim.Kernel.Frequency.Created.{create_clock-IsTuned}

small : lcm 1 2 * 3 < word
unfolding lcm gcd gcd_loop
small = omega arith

-- A kernel with one clock, of frequency 2.
abbrev one_clock : Kernel
one_clock = record { cycle = 0; master_freq = 2; clocks = new_clock 2 1 ∷ []; active_clocks = [] }

create_clock-IsTuned_example :
    (i : ℕ) × (k' : Kernel) × (create_clock 3 one_clock ≡ some (i, k'))
    × IsTuned k'
    × HasClock 3 i one_clock k'
create_clock-IsTuned_example =
    create_clock-IsTuned 3 one_clock refl (omega arith)
      (record { tuned = (omega arith, refl, tt); least = λ h x d. d.0 }) (omega arith, small)

-- Clock 0 is to run in cycle 6; clock 1, of period 2, is activated in cycle 3.
abbrev two_clocks : Kernel
two_clocks = record {
  cycle = 3;
  master_freq = 6;
  clocks = record (new_clock 2 3) { cycle = 6; activated = true } ∷ new_clock 3 2 ∷ [];
  active_clocks = 0 ∷ [];
}

two_clocks-IsScheduled : IsScheduled two_clocks
two_clocks-IsScheduled = record {
  queue = (
    record (new_clock 2 3) { cycle = 6; activated = true },
    refl,
    refl,
    omega arith,
    (λ h. h),
    tt,
  );
  listed = listed;
}
  where
    listed :
        (i : ℕ) (c : Clock)
        → get_elem? two_clocks.clocks i ≡ some c
        → c.activated ≡ true
        → In i (0 ∷ [])
    listed zero c e a = inl refl
    listed (suc zero) c e a = absurd (cc)
    listed (suc (suc i)) c e a = absurd (cc)

activate_clock-Activated_example :
    (k' : Kernel) × (activate_clock 1 two_clocks ≡ some k')
    × Activated 1 (new_clock 3 2) two_clocks k'
activate_clock-Activated_example =
    activate_clock-Activated 1 (new_clock 3 2) two_clocks two_clocks-IsScheduled refl (omega arith)
      (omega arith)

-- Process 1 has been activated once, and process 0 not at all.
abbrev one_active : RunQueue
one_active = record {
  processes =
      record { activations = 0; state = idle; stalls = 0 }
      ∷ record { activations = 1; state = active; stalls = 0 }
      ∷ [];
  queue = 1 ∷ [];
}

one_active-IsCounted : IsCounted one_active
one_active-IsCounted = record { once = ((λ h. h), tt); queued = queued; positive = positive }
  where
    queued :
        (p : ℕ) (x : Process)
        → get_elem? one_active.processes p ≡ some x
        → 0 < x.activations
        → In p (1 ∷ [])
    queued zero x e h = absurd (ground arith)
    queued (suc zero) x e h = inl refl
    queued (suc (suc p)) x e h = absurd (cc)

    positive :
        (p : ℕ) (x : Process)
        → get_elem? one_active.processes p ≡ some x
        → In p (1 ∷ [])
        → 0 < x.activations
    positive zero x e (inl h) = absurd (omega (arith, h))
    positive zero x e (inr h) = absurd h
    positive (suc zero) x e h = ground arith
    positive (suc (suc p)) x e h = absurd (cc)

activate_process-Counted_example :
    (q' : RunQueue) × (activate_process 0 one_active ≡ some (true, q')) × Counted 0 1 one_active q'
activate_process-Counted_example =
    activate_process-Counted 0 (record { activations = 0; state = idle; stalls = 0 }) one_active
      one_active-IsCounted refl (omega arith)

deactivate_process-Counted_example :
    (q' : RunQueue) × (deactivate_process 1 one_active ≡ some q') × Counted 1 0 one_active q'
deactivate_process-Counted_example =
    deactivate_process-Counted 1 (record { activations = 1; state = active; stalls = 0 }) one_active
      one_active-IsCounted refl (omega arith) (omega arith)
