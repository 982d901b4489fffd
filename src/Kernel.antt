-- ===== src/Kernel.antt =====
-- sim/kernel.h, sim/kernel.cpp, sim/clock.h: the kernel's state. Clocks, processes and storages are
-- named by their numbers, in the order in which they were created.
pub mod Gcd
pub mod Frequency
pub mod Schedule
pub mod Activation
pub mod Advance
pub mod Machine
pub mod Step
mod Tests
use mgsim.Base.{ℕ, Bool, false, List, []}

-- The lists hold the processes, storages and arbitrators to run, the first to run in front.
pub record Clock : Type 0 where
  pub frequency : ℕ
  pub period : ℕ
  pub cycle : ℕ
  pub activated : Bool
  pub active_processes : List ℕ
  pub active_storages : List ℕ
  pub active_arbitrators : List ℕ

-- The constructor.
abbrev pub new_clock : ℕ → ℕ → Clock
new_clock frequency period = record {
  frequency = frequency;
  period = period;
  cycle = 0;
  activated = false;
  active_processes = [];
  active_storages = [];
  active_arbitrators = [];
}

-- `m_activeClocks` is the list of the clocks that will run, linked through `m_next`.
pub record Kernel : Type 0 where
  pub cycle : ℕ
  pub master_freq : ℕ
  pub clocks : List Clock
  pub active_clocks : List ℕ
