-- ===== src/Kernel/Activation.antt =====
-- `Clock::ActivateProcess` of sim/clock.hpp and `Process::Deactivate` of sim/process.hpp: the
-- processes that a clock runs. The links of the processes are a list of their numbers, and `none` is
-- a process that is not there.
pub mod Counts
use mgsim.Base.{
  ℕ, ◌+◌, ◌-◌, ◌%◌, ◌^◌, Bool, true, false, Option, none, some, List, [], ◌∷◌, ◌==◌, if◌then◌else◌,
  ◌>>=◌, get_elem?, set,
}

pub data RunState : Type 0 where
  idle active running deadlock aborted : RunState

pub record Process : Type 0 where
  pub activations : ℕ
  pub state : RunState
  pub stalls : ℕ

-- All processes, and the list of those that one clock is to run.
pub record RunQueue : Type 0 where
  pub processes : List Process
  pub queue : List ℕ

-- The range of `unsigned int`.
abbrev pub unsigned_int : ℕ
unsigned_int = 2 ^ 32

-- `ActivateProcess`; the answer says whether it activates the clock.
unfoldable pub activate_process : ℕ → RunQueue → Option (Bool × RunQueue)
activate_process p q = do
  x ← get_elem? q.processes p
  let n = (x.activations + 1) % unsigned_int
  some (
      if n == 1
      then (
        true,
        record {
          processes = set q.processes p (record x { activations = n; state = active });
          queue = p ∷ q.queue;
        },
      )
      else (false, record q { processes = set q.processes p (record x { activations = n }) }))

-- The node is taken off the list.
unfoldable pub remove : ℕ → List ℕ → List ℕ
remove p [] = []
remove p (q ∷ qs) = if p == q then qs else q ∷ remove p qs

-- `Deactivate`
pub deactivate_process : ℕ → RunQueue → Option RunQueue
unfolding remove
deactivate_process p q = do
  x ← get_elem? q.processes p
  let n = (x.activations + unsigned_int - 1) % unsigned_int
  some (
      if n == 0
      then record {
        processes = set q.processes p (record x { activations = n; state = idle });
        queue = remove p q.queue;
      }
      else record q { processes = set q.processes p (record x { activations = n }) })
