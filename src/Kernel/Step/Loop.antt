-- ===== src/Kernel/Step/Loop.antt =====
-- The loop of `Kernel::Step` of sim/kernel.cpp.
pub mod Ends
pub mod Steps
use mgsim.Base.{
  ℕ, zero, suc, ◌+◌, ◌-◌, ◌%◌, min, Bool, true, false, not, ◌&&◌, ◌||◌, Option, none, some, List,
  [], ◌∷◌, ltb, leb, ◌==◌, if◌then◌else◌, ◌>>=◌, ◌>>◌, assert,
}
use mgsim.Storage.{word}
use mgsim.Kernel.{Kernel}
use mgsim.Kernel.Schedule.{cycle_of}
use mgsim.Kernel.Activation.{RunState, idle, running, aborted}
use mgsim.Kernel.Advance.{advance, has_later}
use mgsim.Kernel.Machine.{Machine}
use mgsim.Kernel.Step.{Components, Run, phases, update_storages}

abbrev pub infinite_cycles : ℕ
infinite_cycles = word - 1

-- A run returns, throws an exception or fails an assertion, or is not at its end yet.
pub data Outcome (E : Type 0) : Type 0 where
  finished : RunState → Run E → Outcome E
  crashed unfinished : Outcome E

-- Time goes on to the first clock to run; it may be this cycle's.
unfoldable pub begin : List ℕ → Kernel → Option Kernel
begin [] k = some k
begin (i ∷ is) k = do
  assert (leb k.cycle (cycle_of k.clocks i))
  some (record k { cycle = cycle_of k.clocks i })

-- The condition of the loop.
unfoldable pub continues : {E : Type 0} → ℕ → Run E → Bool
continues end r =
    let m = r.machine in
    not m.aborted
    && (not m.suspended || m.last_suspend == m.kernel.cycle)
    && r.worked
    && (end == infinite_cycles || ltb m.kernel.cycle end)

-- The end of the step, in case time went too far.
unfoldable pub returned : {E : Type 0} → ℕ → Run E → Outcome E
returned end r =
    let m = r.machine in
    let k = m.kernel in
    let now = min k.cycle end in
    let k' : Kernel = record k { cycle = now } in
    if m.suspended
    then finished aborted (record r { machine = record m { kernel = k'; last_suspend = now } })
    else finished (if r.worked then running else idle)
        (record r { machine = record m { kernel = k' } })

module _ {E : Type 0} (comps : Components E) where
  -- One cycle.
  unfoldable pub run_cycle : Run E → Option (Run E)
  unfolding phases has_later advance
  run_cycle r = do
    r1 ← phases comps (record r { worked = false })
    let m = r1.machine
    let k = m.kernel
    if r1.worked || has_later k.clocks k.cycle k.active_clocks
        then (do
          k' ← advance k
          some (record r1 { worked = true; machine = record m { kernel = k' } }))
        else some r1

  -- The loop, with fuel.
  unfoldable pub loop : ℕ → ℕ → Run E → Outcome E
  unfolding run_cycle continues returned
  loop zero end r = unfinished
  loop (suc fuel) end r = elim (continues end r) [
    | true ↦ elim (run_cycle r) [ none ↦ crashed | some r' ↦ loop fuel end r' ]
    | false ↦ returned end r
  ]

  -- What stands in front of the loop.
  unfoldable pub start : Run E → Option (Run E)
  unfolding begin update_storages
  start r = do
    r1 ← if r.machine.kernel.cycle == 0 then update_storages comps r else some r
    let m = r1.machine
    k ← begin m.kernel.active_clocks m.kernel
    some (record r1 {
      worked = true;
      machine = record m { kernel = k; aborted = false; suspended = false };
    })

  -- `Step`
  unfoldable pub step : ℕ → ℕ → Run E → Outcome E
  unfolding loop start
  step fuel cycles r =
      let end =
        if cycles == infinite_cycles then cycles else (r.machine.kernel.cycle + cycles) % word in
      elim (start r) [ none ↦ crashed | some r' ↦ loop fuel end r' ]
