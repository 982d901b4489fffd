-- ===== src/Ports/Structure.antt =====
-- sim/ports.h: a structure that processes read and write through ports. Several ports may write in one
-- cycle, but not to the same index. A port is named by a number, and so is an index.
pub mod Groups
pub mod Reports
pub mod Exclusive
mod Tests
use mgsim.Base.{
  ℕ, ◌+◌, Bool, true, false, not, Option, none, some, List, [], ◌∷◌, ◌++◌, ltb, ◌==◌, if◌then◌else◌,
  ◌>>=◌, ◌>>◌, assert, length,
}
use mgsim.Ports.{Port, position, member, choose, always, add_request, arbitrate_priority}
use mgsim.Storage.{Phase, acquire, check, commit}

-- `WritePort`
pub record WritePort : Type 0 where
  pub index : ℕ
  pub valid : Bool
  pub chosen : Bool

-- `SetRequestIndex`, `GetIndex` and `Notify`.
unfoldable pub set_request_index : ℕ → WritePort → Option WritePort
set_request_index i p = do
  assert (not p.valid)
  some (record { index = i; valid = true; chosen = false })

abbrev pub get_index : WritePort → Option ℕ
get_index p = if p.valid then some p.index else none

abbrev pub notify : Bool → WritePort → WritePort
notify b p = record p { chosen = b; valid = false }

-- `ReadWriteStructure`: the ports that write, those of them that processes share, the order of
-- priorities, and what each port holds. `indices` is `m_indices` of `ArbitratedWritePort`.
pub record Structure : Type 0 where
  pub read_ports : List Port
  pub write_ports : List ℕ
  pub arbitrated : List ℕ
  pub priorities : List ℕ
  pub write_port : ℕ → WritePort
  pub process_port : ℕ → Port
  pub indices : ℕ → List (ℕ × ℕ)

abbrev pub update {ℓ} : {A : Type ℓ} → (ℕ → A) → ℕ → A → ℕ → A
update f i a j = if j == i then a else f j

-- `RegisterWritePort`, `RegisterArbitratedWritePort` and `AddPort`.
pub register_write_port : ℕ → Structure → Option Structure
unfolding member
register_write_port p s = do
  assert (not (member p s.write_ports))
  some (record s { write_ports = s.write_ports ++ p ∷ [] })

pub register_arbitrated_write_port : ℕ → Structure → Option Structure
unfolding register_write_port
register_arbitrated_write_port p s = do
  s' ← register_write_port p s
  some (record s' { arbitrated = s'.arbitrated ++ p ∷ [] })

pub add_port : ℕ → Structure → Option Structure
unfolding member
add_port p s = do
  assert (member p s.write_ports)
  assert (not (member p s.priorities))
  some (record s { priorities = s.priorities ++ p ∷ [] })

-- `ArbitrateReadPorts`
pub arbitrate_read_ports : List Port → Option (List Port)
unfolding arbitrate_priority
arbitrate_read_ports [] = some []
arbitrate_read_ports (p ∷ ps) = do
  p' ← arbitrate_priority p
  ps' ← arbitrate_read_ports ps
  some (p' ∷ ps')

-- `m_indices.find`
pub find_index : ℕ → List (ℕ × ℕ) → Option ℕ
find_index process [] = none
find_index process ((p, i) ∷ rest) = if p == process then some i else find_index process rest

-- `ArbitratedWritePort::Arbitrate`
pub arbitrate_write_port : ℕ → Structure → Option Structure
unfolding arbitrate_priority find_index set_request_index
arbitrate_write_port p s = do
  port ← arbitrate_priority (s.process_port p)
  let s' : Structure = record s { process_port = update s.process_port p port }
  elim port.selected [
    | none ↦ some s'
    | some process ↦ (do
      i ← find_index process (s.indices p)
      w ← set_request_index i (s.write_port p)
      some (record s' { write_port = update s.write_port p w }))
  ]

-- `ArbitrateWritePorts`
pub arbitrate_write_ports : List ℕ → Structure → Option Structure
unfolding arbitrate_write_port
arbitrate_write_ports [] s = some s
arbitrate_write_ports (p ∷ ps) s = do s' ← arbitrate_write_port p s; arbitrate_write_ports ps s'

-- The map from an index to the ports that ask for it, in the order of the indices.
pub push_back : ℕ → ℕ → List (ℕ × List ℕ) → List (ℕ × List ℕ)
push_back i p [] = (i, p ∷ []) ∷ []
push_back i p ((j, ps) ∷ rest) =
    if i == j
    then (j, ps ++ p ∷ []) ∷ rest
    else (if ltb i j then (i, p ∷ []) ∷ (j, ps) ∷ rest else (j, ps) ∷ push_back i p rest)

pub group : (ℕ → WritePort) → List ℕ → List (ℕ × List ℕ) → List (ℕ × List ℕ)
unfolding push_back
group f [] requests = requests
group f (p ∷ ps) requests = elim (get_index (f p)) [
  | none ↦ group f ps requests
  | some i ↦ group f ps (push_back i p requests)
]

-- Is it that port?
abbrev pub is_selected : Option ℕ → ℕ → Bool
is_selected none p = false
is_selected (some q) p = q == p

-- The report to every port that asks for an index.
pub notify_all : Option ℕ → List ℕ → (ℕ → WritePort) → ℕ → WritePort
notify_all selected [] f = f
notify_all selected (p ∷ ps) f =
    notify_all selected ps (update f p (notify (is_selected selected p) (f p)))

-- The port earliest in the order of priorities.
pub select_port : List ℕ → List ℕ → Option ℕ
unfolding choose position
select_port priorities ps =
    (choose always (λ p. position p priorities) ps (length priorities) none).1

-- The arbitration between the ports for each index.
pub serve : List ℕ → List (ℕ × List ℕ) → (ℕ → WritePort) → ℕ → WritePort
unfolding notify_all select_port
serve priorities [] f = f
serve priorities ((i, ps) ∷ rest) f =
    serve priorities rest (notify_all (select_port priorities ps) ps f)

-- `OnArbitrate`
unfoldable pub on_arbitrate : Structure → Option Structure
unfolding arbitrate_read_ports arbitrate_write_ports serve group
on_arbitrate s = do
  reads ← arbitrate_read_ports s.read_ports
  s' ← arbitrate_write_ports s.arbitrated s
  some (record s' {
    read_ports = reads;
    write_port = serve s'.priorities (group s'.write_port s'.write_ports []) s'.write_port;
  })
