-- ===== src/Kernel/Machine.antt =====
-- What a simulation step works on: the kernel, the processes, the marks of the storages and
-- arbitrators, and the requests that the components make of them (sim/clock.hpp, sim/process.hpp,
-- sim/storage.hpp, sim/arbitrator.hpp, sim/kernel.cpp).
pub mod Sound
pub mod Requests
use mgsim.Base.{
  ℕ, ◌+◌, ◌-◌, ◌%◌, Bool, true, false, Option, some, List, [], ◌∷◌, map, ◌==◌, if◌then◌else◌, ◌>>=◌,
  get_elem?, set,
}
use mgsim.Kernel.{Clock, Kernel}
use mgsim.Kernel.Schedule.{activate_clock}
use mgsim.Kernel.Activation.{
  Process, RunQueue, idle, unsigned_int, activate_process, deactivate_process, remove,
}

-- The marks say which storages and arbitrators are on a list; processes, storages and arbitrators are
-- numbered.
pub record Machine : Type 0 where
  pub kernel : Kernel
  pub processes : List Process
  pub storages : List Bool
  pub arbitrators : List Bool
  pub aborted : Bool
  pub suspended : Bool
  pub last_suspend : ℕ

-- The calls that a component makes while it is called: a storage and an arbitrator go to their clock,
-- a process to the clock of the storage that wakes it.
pub data Request : Type 0 where
  request_arbitration register_update : (clock object : ℕ) → Request
  notify : (clock process : ℕ) → Request
  unnotify : (process : ℕ) → Request
  abort stop : Request

-- A clock with new work on its lists is activated.
unfoldable pub activate_with : ℕ → Clock → Kernel → Option Kernel
activate_with i c k = activate_clock i (record k { clocks = set k.clocks i c })

-- `Arbitrator::RequestArbitration` and `Clock::ActivateArbitrator`
unfoldable pub arbitrate_later : ℕ → ℕ → Machine → Option Machine
unfolding activate_with
arbitrate_later i a m = do
  c ← get_elem? m.kernel.clocks i
  on ← get_elem? m.arbitrators a
  if on then some m else (do
    k ← activate_with i (record c { active_arbitrators = a ∷ c.active_arbitrators }) m.kernel
    some (record m { kernel = k; arbitrators = set m.arbitrators a true }))

-- `Storage::RegisterUpdate` and `Clock::ActivateStorage`
unfoldable pub update_later : ℕ → ℕ → Machine → Option Machine
unfolding activate_with
update_later i s m = do
  c ← get_elem? m.kernel.clocks i
  on ← get_elem? m.storages s
  if on then some m else (do
    k ← activate_with i (record c { active_storages = s ∷ c.active_storages }) m.kernel
    some (record m { kernel = k; storages = set m.storages s true }))

-- `Clock::ActivateProcess`
unfoldable pub start_process : ℕ → ℕ → Machine → Option Machine
unfolding activate_process activate_with
start_process i p m = do
  c ← get_elem? m.kernel.clocks i
  (first, q) ← activate_process p (record { processes = m.processes; queue = c.active_processes })
  if first
      then (do
        k ← activate_with i (record c { active_processes = q.queue }) m.kernel
        some (record m { kernel = k; processes = q.processes }))
      else some (record m { processes = q.processes })

-- A process is on the list of one clock at most.
unfoldable pub unlist : ℕ → Kernel → Kernel
unfolding remove
unlist p k =
    let off : Clock → Clock = λ c. record c { active_processes = remove p c.active_processes } in
    record k { clocks = map off k.clocks }

-- `Process::Deactivate`
unfoldable pub stop_process : ℕ → Machine → Option Machine
unfolding unlist
stop_process p m = do
  x ← get_elem? m.processes p
  let n = (x.activations + unsigned_int - 1) % unsigned_int
  some (
      if n == 0
      then record m {
        kernel = unlist p m.kernel;
        processes = set m.processes p (record x { activations = n; state = idle });
      }
      else record m { processes = set m.processes p (record x { activations = n }) })

unfoldable pub run_request : Request → Machine → Option Machine
unfolding arbitrate_later update_later start_process stop_process
run_request (request_arbitration i a) m = arbitrate_later i a m
run_request (register_update i s) m = update_later i s m
run_request (notify i p) m = start_process i p m
run_request (unnotify p) m = stop_process p m
run_request abort m = some (record m { aborted = true })
run_request stop m = some (record m { suspended = true })

-- The requests of one call, in the order in which they are made.
unfoldable pub run_requests : List Request → Machine → Option Machine
unfolding run_request
run_requests [] m = some m
run_requests (r ∷ rs) m = run_request r m >>= run_requests rs
