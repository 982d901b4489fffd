-- ===== src/Kernel/Step/Tests.antt =====
-- Runs of `Kernel::Step` of sim/kernel.cpp on a machine with one clock, process, storage and
-- arbitrator. The process counts a number down and takes itself off when it comes to 0.
use mgsim.Base.{
  ℕ, zero, suc, ◌+◌, ◌-◌, ◌<◌, ◌≡◌, refl, inl, inr, true, false, Option, some, List, [], ◌∷◌, arith,
  get_elem?, subst, some-eq, ap, Bool,
}
use mgsim.Storage.{word}
use mgsim.Kernel.{Clock, Kernel, new_clock}
use mgsim.Kernel.Schedule.{next_run, cycle_of, insert_clock, activate_clock}
use mgsim.Kernel.Activation.{idle, active, running, aborted, activate_process, remove}
use mgsim.Kernel.Advance.{
  each, at_cycle, due, behind, is_empty, reschedule, advance_to, advance, has_later,
}
use mgsim.Kernel.Advance.Time.{Advanced, Arbitrated, advance-Advanced}
use mgsim.Kernel.Machine.{
  Machine, Request, request_arbitration, register_update, notify, unnotify, abort, stop,
  activate_with, arbitrate_later, update_later, start_process, unlist, stop_process, run_request,
  run_requests,
}
use mgsim.Kernel.Machine.Sound.{HasWork, IsSound}
use mgsim.Kernel.Machine.Requests.{run_requests-Sound}
use mgsim.Kernel.Step.{
  Result, failed, success, CyclePhase, phase_acquire, phase_check, phase_commit, Components, Run,
  set_clock, set_process, call, acquired, acquire, arbitrate, committed, checked, commit_in, commit,
  update, acquire_clock, arbitrate_clock, commit_clock, update_clock, update_storages, phases,
}
use mgsim.Kernel.Step.Loop.{finished, begin, continues, returned, run_cycle, loop, start, step}
use mgsim.Kernel.Step.Loop.Ends.{Cycled, Ends, run_cycle-Cycled}
use mgsim.Kernel.Step.Loop.Steps.{step-Ends, last_cycle, update_storages-requests}
use mgsim.Kernel.Step.Marks.{Asked, any_request, is_abort, is_stop, asked, watched, Quiet}
use mgsim.Kernel.Step.Marks.Answers.{Told}
use mgsim.Kernel.Step.Marks.Steps.{step-Told}
use mgsim.Kernel.Step.Rule.Calls.{Call, entry, Protocol, nothing, recorded, step-Protocol}

abbrev delegate : CyclePhase → ℕ → ℕ → ℕ → Option (Result × List Request × ℕ)
delegate phase_acquire p now w = some (success, request_arbitration 0 0 ∷ [], w)
delegate phase_check p now zero = some (failed, [], 0)
delegate phase_check p now (suc w) = some (success, [], suc w)
delegate phase_commit p now w = some (success, register_update 0 0 ∷ [], w - 1)

abbrev updated : ℕ → ℕ → Option (List Request × ℕ)
updated s zero = some (unnotify 0 ∷ [], 0)
updated s (suc w) = some ([], suc w)

abbrev countdown : Components ℕ
countdown = record { delegate = delegate; on_arbitrate = λ a w. some w; update = updated }

abbrev fresh : Machine
fresh = record {
  kernel = record { cycle = 0; master_freq = 1; clocks = new_clock 1 1 ∷ []; active_clocks = [] };
  processes = record { activations = 0; state = idle; stalls = 0 } ∷ [];
  storages = false ∷ [];
  arbitrators = false ∷ [];
  aborted = false;
  suspended = false;
  last_suspend = word - 1;
}

-- The clock is active, for cycle 1, and the process is on its list.
abbrev ready : Machine
ready = record fresh {
  kernel = record {
    cycle = 0;
    master_freq = 1;
    clocks =
        record {
          frequency = 1;
          period = 1;
          cycle = 1;
          activated = true;
          active_processes = 0 ∷ [];
          active_storages = [];
          active_arbitrators = [];
        }
        ∷ [];
    active_clocks = 0 ∷ [];
  };
  processes = record { activations = 1; state = active; stalls = 0 } ∷ [];
}

abbrev run : ℕ → Machine → Run ℕ
run w m = record { worked = false; world = w; machine = m }

kernel_code : Unit {0}
unfolding next_run cycle_of insert_clock activate_clock activate_process remove each at_cycle behind
    is_empty reschedule advance_to advance has_later activate_with arbitrate_later update_later
    start_process unlist stop_process run_request run_requests set_clock set_process call acquired
    acquire arbitrate committed checked commit_in commit update acquire_clock arbitrate_clock
    commit_clock update_clock update_storages phases begin continues returned run_cycle loop start
    step
kernel_code = tt

fresh-IsSound : IsSound 10 fresh.kernel
fresh-IsSound = record {
  within = omega arith;
  scheduled = record { queue = tt; listed = λ i c e a. absurd (off i c e a) };
  awake = awake;
  periods = periods;
}
  where
    off : (i : ℕ) (c : Clock) → get_elem? fresh.kernel.clocks i ≡ some c → c.activated ≡ true → ⊥
    off zero c e a = cc
    off (suc i) c e a = cc

    awake :
        (i : ℕ) (c : Clock)
        → get_elem? fresh.kernel.clocks i ≡ some c
        → HasWork c
        → c.activated ≡ true
    awake zero c e w =
        let v : HasWork (new_clock 1 1) = subst HasWork (some-eq e refl) w in
        absurd (elim v.listed [ inl h ↦ h | inr (inl h) ↦ h | inr (inr h) ↦ h ])
    awake (suc i) c e w = absurd (cc)

    periods :
        (i : ℕ) (c : Clock)
        → get_elem? fresh.kernel.clocks i ≡ some c
        → (0 < c.period) × (10 + c.period < word)
    periods zero c e = ground arith
    periods (suc i) c e = absurd (cc)

notify_ready : run_requests (notify 0 0 ∷ []) fresh ≡ some ready
unfolding kernel_code
notify_ready = refl

ready-IsSound : IsSound 10 ready.kernel
ready-IsSound = (run_requests-Sound (notify 0 0 ∷ []) fresh ready fresh-IsSound notify_ready).0

update_storages-requests_example : update_storages countdown (run 2 ready) ≡ some (run 2 ready)
update_storages-requests_example =
    update_storages-requests countdown 10 (notify 0 0 ∷ []) false 2 fresh ready fresh-IsSound refl
      notify_ready

-- In cycle 1 the clock runs.
abbrev kernel_one : Kernel
kernel_one = record {
  cycle = 1;
  master_freq = 1;
  clocks = ready.kernel.clocks;
  active_clocks = 0 ∷ [];
}

kernel_one-IsSound : IsSound 10 kernel_one
kernel_one-IsSound = record {
  within = omega arith;
  scheduled = record {
    queue = (_, refl, refl, omega arith, (λ h. h), tt);
    listed = ready-IsSound.scheduled.listed;
  };
  awake = ready-IsSound.awake;
  periods = ready-IsSound.periods;
}

kernel_one-Arbitrated : Arbitrated kernel_one (due kernel_one)
unfolding kernel_code
kernel_one-Arbitrated zero (inl e) = (_, refl, refl)
kernel_one-Arbitrated zero (inr h) = absurd h
kernel_one-Arbitrated (suc j) (inl e) = absurd (ground (arith, e))
kernel_one-Arbitrated (suc j) (inr h) = absurd h

advance-Advanced_example :
    (k' : Kernel) × (advance kernel_one ≡ some k') × Advanced 10 kernel_one k'
advance-Advanced_example = advance-Advanced 10 kernel_one kernel_one-IsSound kernel_one-Arbitrated

abbrev cycle_one : Run ℕ
cycle_one = run 2 (record ready { kernel = kernel_one })

-- The next cycle, with one less to count.
abbrev cycle_two : Run ℕ
cycle_two = record {
  worked = true;
  world = 1;
  machine = record ready {
    kernel = record {
      cycle = 2;
      master_freq = 1;
      clocks =
          record {
            frequency = 1;
            period = 1;
            cycle = 2;
            activated = true;
            active_processes = 0 ∷ [];
            active_storages = [];
            active_arbitrators = [];
          }
          ∷ [];
      active_clocks = 0 ∷ [];
    };
    processes = record { activations = 1; state = running; stalls = 0 } ∷ [];
  };
}

run_cycle_two : run_cycle countdown cycle_one ≡ some cycle_two
unfolding kernel_code
run_cycle_two = refl

run_cycle-Cycled_example : Cycled 10 cycle_one cycle_two
run_cycle-Cycled_example =
    run_cycle-Cycled countdown 10 cycle_one cycle_two kernel_one-IsSound run_cycle_two

step-Ends_example : Ends countdown 10 0 (step countdown 12 10 (run 2 ready))
step-Ends_example =
    step-Ends countdown 12 10 (run 2 ready) ready-IsSound (omega arith) (omega arith)

-- The process is done in cycle 2, and the step is idle then.
abbrev done : Machine
done = record ready {
  kernel = record {
    cycle = 2;
    master_freq = 1;
    clocks =
        record {
          frequency = 1;
          period = 1;
          cycle = 2;
          activated = false;
          active_processes = [];
          active_storages = [];
          active_arbitrators = [];
        }
        ∷ [];
    active_clocks = [];
  };
  processes = record { activations = 0; state = idle; stalls = 0 } ∷ [];
}

step_done : step countdown 12 10 (run 2 ready) ≡ finished idle (run 0 done)
unfolding kernel_code
step_done = refl

-- The calls of the two cycles, the last in front.
abbrev one_turn : List Call → List Call
one_turn l =
    entry phase_commit 0 success ∷ entry phase_check 0 success ∷ entry phase_acquire 0 success ∷ l

abbrev recorded_run : ℕ → List Call → Machine → Run (ℕ × List Call)
recorded_run w l m = record { worked = false; world = (w, l); machine = m }

step-recorded :
    step (recorded countdown) 12 10 (recorded_run 2 [] ready)
    ≡ finished idle (recorded_run 0 (one_turn (one_turn [])) done)
unfolding kernel_code recorded
step-recorded = refl

step-Protocol_example : Protocol (one_turn (one_turn []))
step-Protocol_example =
    step-Protocol countdown 12 10 (recorded_run 2 [] ready)
      (recorded_run 0 (one_turn (one_turn [])) done) idle nothing step-recorded

-- The process asks for one thing more in its commit.
abbrev asking : Request → Components ℕ
asking q = record {
  delegate = λ phase p now w. elim phase [
    | phase_acquire ↦ some (success, [], w)
    | phase_check ↦ some (success, [], w)
    | phase_commit ↦ some (success, register_update 0 0 ∷ q ∷ [], w - 1)
  ];
  on_arbitrate = λ a w. some w;
  update = λ s w. some ([], w);
}

-- The marks of the step before are still there.
abbrev stale : Run (ℕ × List Asked)
stale = record {
  worked = false;
  world = (2, []);
  machine = record ready { kernel = kernel_one; aborted = true; suspended = true };
}

abbrev calls_one : Bool → Bool → List Asked
calls_one aborts stops =
    record { cycle = 1; aborts = aborts; stops = stops }
    ∷ record { cycle = 1; aborts = false; stops = false }
    ∷ record { cycle = 1; aborts = false; stops = false }
    ∷ []

abbrev after_abort : Run (ℕ × List Asked)
after_abort = record {
  worked = true;
  world = (1, calls_one true false);
  machine = record cycle_two.machine { aborted = true };
}

-- The step ends behind cycle 1 in both cases, with another answer.
step-abort : step (watched (asking abort)) 12 10 stale ≡ finished running after_abort
unfolding kernel_code watched asked any_request is_abort is_stop
step-abort = refl

abbrev after_stop : Run (ℕ × List Asked)
after_stop = record {
  worked = true;
  world = (1, calls_one false true);
  machine = record cycle_two.machine { suspended = true; last_suspend = 2 };
}

step-stop : step (watched (asking stop)) 12 10 stale ≡ finished aborted after_stop
unfolding kernel_code watched asked any_request is_abort is_stop
step-stop = refl

asking-Quiet : (q : Request) → Quiet (asking q)
unfolding any_request is_abort is_stop
asking-Quiet q s w w' rs h =
    let none_asked : [] ≡ rs = ap (λ (x : List Request × ℕ). x.0) (some-eq refl h) in
    subst (λ rs. (any_request is_abort rs ≡ false) × (any_request is_stop rs ≡ false)) none_asked
      (refl, refl)

step-Told_example : Told (word - 1) (last_cycle 1 10) running after_abort
step-Told_example =
    step-Told (asking abort) (asking-Quiet abort) 12 10 stale after_abort running refl step-abort
