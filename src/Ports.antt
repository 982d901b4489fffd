-- ===== src/Ports.antt =====
-- sim/ports.h, sim/ports.cpp: the arbitration of a port between the processes that request it. A
-- process is named by a number, and `none` is a failed assertion.
pub mod Choice
pub mod Priority
pub mod Cyclic
pub mod Rounds
pub mod Mixed
pub mod Structure
pub mod Access
mod Tests
use mgsim.Base.{
  ℕ, ◌+◌, ◌-◌, ◌%◌, Bool, true, false, not, ◌&&◌, ◌||◌, Option, none, some, List, [], ◌∷◌, ◌++◌,
  ltb, ◌==◌, if◌then◌else◌, ◌>>=◌, ◌>>◌, assert, length,
}
use mgsim.Storage.{word}

-- `ArbitratedPort` and `SimpleArbitratedPort`, and the index that a cyclic port keeps besides.
pub record Port : Type 0 where
  pub processes : List ℕ
  pub requests : List ℕ
  pub last_request : ℕ
  pub selected : Option ℕ
  pub busy_cycles : ℕ
  pub last_selected : ℕ

-- The position of a process, or the length of the list (`std::find`).
pub position : ℕ → List ℕ → ℕ
position p [] = 0
position p (q ∷ qs) = if p == q then 0 else position p qs + 1

-- Is it there?
pub member : ℕ → List ℕ → Bool
member p [] = false
member p (q ∷ qs) = p == q || member p qs

-- `AddProcess`
pub add_process : ℕ → Port → Option Port
unfolding member
add_process p port = do
  assert (not (member p port.processes))
  some (record port { processes = port.processes ++ p ∷ [] })

-- `AddRequest`, in cycle `c`
pub add_request : ℕ → ℕ → Port → Option Port
unfolding member
add_request p c port =
    if member p port.requests
    then (do assert (not (c == port.last_request)); some port)
    else some (record port { requests = port.requests ++ p ∷ []; last_request = c })

-- The loops of `Arbitrate`: the request with the least key, of those that are eligible, below the
-- least so far; the first such request on the list.
unfoldable pub choose : (ℕ → Bool) → (ℕ → ℕ) → List ℕ → ℕ → Option ℕ → ℕ × Option ℕ
choose eligible key [] least chosen = (least, chosen)
choose eligible key (i ∷ is) least chosen =
    let better = eligible i && ltb (key i) least in
    choose eligible key is (if better then key i else least) (if better then some i else chosen)

-- The last part of each `Arbitrate`.
pub finish : Option ℕ → Port → Option Port
finish none port = none
finish (some p) port =
    some (record port {
      selected = some p;
      requests = [];
      busy_cycles = (port.busy_cycles + 1) % word;
    })

abbrev pub always : ℕ → Bool
always i = true

-- The selection of `PriorityArbitratedPort::Arbitrate` among the requests.
pub select_priority : List ℕ → Port → Option Port
unfolding choose finish position
select_priority [] port = some (record port { selected = none })
select_priority (p ∷ []) port = finish (some p) port
select_priority (p ∷ q ∷ ps) port =
    finish
      (choose always (λ i. position i port.processes) (p ∷ q ∷ ps) (length port.processes) none).1
      port

-- `PriorityArbitratedPort::Arbitrate`
pub arbitrate_priority : Port → Option Port
unfolding select_priority
arbitrate_priority port = select_priority port.requests port

-- The distance from the process selected last to another one, round the list.
unfoldable pub distance : List ℕ → ℕ → ℕ → ℕ
unfolding position
distance processes last i = (position i processes + length processes - last) % length processes

-- The selection of `CyclicArbitratedPort::Arbitrate` among the requests.
pub select_cyclic : List ℕ → Port → Option Port
unfolding choose finish position distance
select_cyclic [] port = some (record port { selected = none })
select_cyclic (p ∷ []) port =
    finish (some p) (record port { last_selected = position p port.processes })
select_cyclic (p ∷ q ∷ ps) port =
    let key = distance port.processes port.last_selected in
    let found = choose (λ i. not (key i == 0)) key (p ∷ q ∷ ps) (length port.processes) none in
    finish found.1
      (record port { last_selected = (port.last_selected + found.0) % length port.processes })

-- `CyclicArbitratedPort::Arbitrate`
pub arbitrate_cyclic : Port → Option Port
unfolding select_cyclic
arbitrate_cyclic port = do
  assert (ltb port.last_selected (length port.processes))
  select_cyclic port.requests port
