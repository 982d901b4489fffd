-- ===== src/Ports/Access.antt =====
-- sim/ports.h: how a process gets at a port. It asks in the acquire phase, when each is told yes, and in the
-- later phases it is told whether the arbitration granted its request. An answer says also whether
-- arbitration is requested.
pub mod Service
mod Tests
use mgsim.Base.{
  ℕ, Bool, true, false, ◌&&◌, Option, none, some, List, [], ◌∷◌, ◌==◌, if◌then◌else◌, ◌>>=◌, ◌>>◌,
  assert,
}
use mgsim.Storage.{Phase, is_acquiring}
use mgsim.Ports.{Port, member, add_request}
use mgsim.Ports.Mixed.{MixedPort}
use mgsim.Ports.Structure.{WritePort, Structure, set_request_index, update}

-- `HasAcquired`
abbrev pub has_acquired : ℕ → Port → Bool
has_acquired process port = elim port.selected [ none ↦ false | some p ↦ p == process ]

-- `ArbitratedService::Invoke`, and `ArbitratedReadPort::Read`.
pub invoke : Phase → ℕ → ℕ → Port → Option (Bool × Bool × Port)
unfolding member add_request
invoke phase process cycle port = do
  assert (member process port.processes)
  if is_acquiring phase
      then (do port' ← add_request process cycle port; some (true, true, port'))
      else some (has_acquired process port, false, port)

-- `m_indices[&process] = index`
pub store_index : ℕ → ℕ → List (ℕ × ℕ) → List (ℕ × ℕ)
store_index process i [] = (process, i) ∷ []
store_index process i ((p, j) ∷ rest) =
    if p == process then (p, i) ∷ rest else (p, j) ∷ store_index process i rest

-- `ArbitratedWritePort::Write`
pub write_shared : Phase → ℕ → ℕ → ℕ → ℕ → Structure → Option (Bool × Bool × Structure)
unfolding member add_request store_index
write_shared phase process cycle i p s = do
  assert (member process (s.process_port p).processes)
  if is_acquiring phase
      then (do
        port' ← add_request process cycle (s.process_port p)
        some (
          true,
          true,
          record s {
            process_port = update s.process_port p port';
            indices = update s.indices p (store_index process i (s.indices p));
          },
        ))
      else some ((s.write_port p).chosen && has_acquired process (s.process_port p), false, s)

-- `DedicatedReadPort::Read` and `DedicatedWritePort::Write`, for the process of the port.
pub read_dedicated : ℕ → ℕ → Option Bool
read_dedicated owner process = do assert (owner == process); some true

pub write_dedicated : Phase → ℕ → ℕ → ℕ → ℕ → Structure → Option (Bool × Bool × Structure)
unfolding set_request_index
write_dedicated phase owner process i p s = do
  assert (owner == process)
  if is_acquiring phase
      then (do
        w ← set_request_index i (s.write_port p)
        some (true, true, record s { write_port = update s.write_port p w }))
      else some ((s.write_port p).chosen, false, s)
