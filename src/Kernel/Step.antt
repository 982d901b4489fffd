-- ===== src/Kernel/Step.antt =====
-- `Kernel::UpdateStorages` and `Kernel::Step` of sim/kernel.cpp: the cycles of the simulation. What
-- the components do when they are called is a parameter: the delegates of the processes,
-- `OnArbitrate` of the arbitrators and `Update` of the storages work on a state of their own and make
-- requests of the kernel. `none` is an exception or a failed assertion. The requests take effect when
-- the call returns, and a list is walked as it stands when the walk begins: that is the walk along
-- the links as long as a call takes no process but its own off the list.
pub mod Phases
pub mod Loop
pub mod Walk
pub mod Rule
pub mod Marks
mod Tests
use mgsim.Base.{
  ℕ, zero, suc, ◌+◌, ◌%◌, min, Bool, true, false, not, ◌&&◌, ◌||◌, Option, none, some, List, [],
  ◌∷◌, ltb, leb, ◌==◌, if◌then◌else◌, ◌>>=◌, ◌>>◌, assert, get_elem?, set,
}
use mgsim.Storage.{word}
use mgsim.Kernel.{Clock, Kernel}
use mgsim.Kernel.Advance.{each, at_cycle, due}
use mgsim.Kernel.Activation.{Process, RunState, idle, active, running, deadlock, aborted}
use mgsim.Kernel.Machine.{Machine, Request, run_requests}

-- The answer of a cycle handler.
pub data Result : Type 0 where
  failed delayed success : Result

pub data CyclePhase : Type 0 where
  phase_acquire phase_check phase_commit : CyclePhase

-- A call may read the phase and the cycle number.
pub record Components (E : Type 0) : Type 0 where
  pub delegate : CyclePhase → (process cycle : ℕ) → E → Option (Result × List Request × E)
  pub on_arbitrate : (arbitrator : ℕ) → E → Option E
  pub update : (storage : ℕ) → E → Option (List Request × E)

-- A state in a cycle, and whether something has been done in it (the source's `!idle`).
pub record Run (E : Type 0) : Type 0 where
  pub worked : Bool
  pub world : E
  pub machine : Machine

-- A change of a clock's list, and of a process.
unfoldable pub set_clock : ℕ → (Clock → Clock) → Machine → Option Machine
set_clock i f m = do
  c ← get_elem? m.kernel.clocks i
  let k = m.kernel
  some (record m { kernel = record k { clocks = set k.clocks i (f c) } })

unfoldable pub set_process : ℕ → (Process → Process) → Machine → Option Machine
set_process p f m = do
  x ← get_elem? m.processes p
  some (record m { processes = set m.processes p (f x) })

module _ {E : Type 0} (comps : Components E) where
  -- `m_delegate`
  unfoldable pub call : CyclePhase → ℕ → Run E → Option (Result × Run E)
  call phase p r = do
    (result, rs, w) ← comps.delegate phase p r.machine.kernel.cycle r.world
    m ← run_requests rs r.machine
    some (result, record r { world = w; machine = m })

  -- The acquire phase: a process of which the acquisition fails is out for this cycle.
  unfoldable pub acquired : Result → ℕ → Run E → Option (Run E)
  acquired success p r = do
    m ← set_process p (λ x. record x { state = running }) r.machine
    some (record r { machine = m })
  acquired failed p r = do
    m ← set_process p (λ x. record x { state = deadlock; stalls = (x.stalls + 1) % word }) r.machine
    some (record r { machine = m })
  acquired delayed p r = none

  unfoldable pub acquire : ℕ → Run E → Option (Run E)
  unfolding call acquired
  acquire p r = do (result, r') ← call phase_acquire p r; acquired result p r'

  -- The arbitrate phase.
  unfoldable pub arbitrate : ℕ → Run E → Option (Run E)
  arbitrate a r = do
    w ← comps.on_arbitrate a r.world
    let m = r.machine
    some (record r { world = w; machine = record m { arbitrators = set m.arbitrators a false } })

  -- The commit phase.
  unfoldable pub committed : Result → ℕ → Run E → Option (Run E)
  committed success p r = do
    m ← set_process p (λ x. record x { state = running }) r.machine
    some (record r { worked = true; machine = m })
  committed failed p r = none
  committed delayed p r = none

  unfoldable pub checked : Result → ℕ → Run E → Option (Run E)
  unfolding call committed
  checked success p r = do (result, r') ← call phase_commit p r; committed result p r'
  checked failed p r = do
    m ← set_process p (λ x. record x { state = deadlock }) r.machine
    some (record r { machine = m })
  checked delayed p r = none

  unfoldable pub commit_in : RunState → ℕ → Run E → Option (Run E)
  unfolding call checked
  commit_in deadlock p r = some r
  commit_in _ p r = do (result, r') ← call phase_check p r; checked result p r'

  unfoldable pub commit : ℕ → Run E → Option (Run E)
  unfolding commit_in
  commit p r = do x ← get_elem? r.machine.processes p; commit_in x.state p r

  -- `Storage::Update`
  unfoldable pub update : ℕ → Run E → Option (Run E)
  update s r = do
    (rs, w) ← comps.update s r.world
    m ← run_requests rs r.machine
    some (record {
      worked = true;
      world = w;
      machine = record m { storages = set m.storages s false };
    })

  -- The phases, for one clock.
  unfoldable pub acquire_clock : ℕ → Run E → Option (Run E)
  unfolding acquire each
  acquire_clock i r = do c ← get_elem? r.machine.kernel.clocks i; each acquire c.active_processes r

  unfoldable pub arbitrate_clock : ℕ → Run E → Option (Run E)
  unfolding arbitrate each set_clock
  arbitrate_clock i r = do
    c ← get_elem? r.machine.kernel.clocks i
    r' ← each arbitrate c.active_arbitrators r
    m ← set_clock i (λ c. record c { active_arbitrators = [] }) r'.machine
    some (record r' { machine = m })

  unfoldable pub commit_clock : ℕ → Run E → Option (Run E)
  unfolding commit each
  commit_clock i r = do c ← get_elem? r.machine.kernel.clocks i; each commit c.active_processes r

  unfoldable pub update_clock : ℕ → Run E → Option (Run E)
  unfolding update each set_clock
  update_clock i r = do
    c ← get_elem? r.machine.kernel.clocks i
    r' ← each update c.active_storages r
    m ← set_clock i (λ c. record c { active_storages = [] }) r'.machine
    some (record r' { machine = m })

  -- `UpdateStorages`; it sets `worked` if it returns true.
  unfoldable pub update_storages : Run E → Option (Run E)
  unfolding update_clock at_cycle
  update_storages r = each update_clock (due r.machine.kernel) r

  -- The phases of a cycle, for the clocks whose cycle it is.
  unfoldable pub phases : Run E → Option (Run E)
  unfolding acquire_clock arbitrate_clock commit_clock update_storages
  phases r = do
    r1 ← each acquire_clock (due r.machine.kernel) r
    r2 ← each arbitrate_clock (due r1.machine.kernel) r1
    r3 ← each commit_clock (due r2.machine.kernel) r2
    update_storages r3
