-- ===== src/Storage.antt =====
-- sim/storage.h, sim/storage.hpp: the part that every storage shares. A storage is written in the
-- commit phase of a cycle, and takes the writes over when the kernel calls `Update` after it.
pub mod Buffer
pub mod Register
pub mod Flag
pub mod LinkedList
pub mod Wake
mod Tests
use mgsim.Base.{ℕ, ◌+◌, ◌-◌, ◌%◌, ◌^◌, Bool, true, false, List, ◌∷◌, if◌then◌else◌}

-- `CyclePhase` of sim/kernel.h.
pub data Phase : Type 0 where
  acquire check commit : Phase

-- What a storage's method reads of the kernel: the phase, and whether the clock that runs is the
-- storage's own (`CheckClocks` asserts it).
pub record Context : Type 0 where
  pub phase : Phase
  pub own_clock : Bool

-- The commit phase, under the storage's own clock or another.
abbrev pub committing : Bool → Context
committing own = record { phase = commit; own_clock = own }

abbrev pub is_committing : Phase → Bool
is_committing acquire = false
is_committing check = false
is_committing commit = true

abbrev pub is_acquiring : Phase → Bool
is_acquiring acquire = true
is_acquiring check = false
is_acquiring commit = false

-- The calls that a storage makes on its clock and on the process that is sensitive to it.
pub data Call : Type 0 where
  activate_storage activate_process deactivate_process : Call

-- `m_activated`, and the calls made so far, the latest first.
pub record Storage : Type 0 where
  pub activated : Bool
  pub calls : List Call

-- `RegisterUpdate`
unfoldable pub register_update : Storage → Storage
register_update s =
    if s.activated then s else record { activated = true; calls = activate_storage ∷ s.calls }

-- `Notify` and `Unnotify`
unfoldable pub notify : Storage → Storage
notify s = record s { calls = activate_process ∷ s.calls }

unfoldable pub unnotify : Storage → Storage
unnotify s = record s { calls = deactivate_process ∷ s.calls }

-- `Deactivate`, which the kernel calls behind `Update`.
unfoldable pub deactivate : Storage → Storage
deactivate s = record s { activated = false }

-- `size_t`, `uint64_t` and `CycleNo` count modulo this number.
abbrev pub word : ℕ
word = 2 ^ 64

-- The difference of two cycle numbers.
abbrev pub elapsed : ℕ → ℕ → ℕ
elapsed now last = (now + word - last) % word
