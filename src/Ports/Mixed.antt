-- ===== src/Ports/Mixed.antt =====
-- sim/ports.cpp, `PriorityCyclicArbitratedPort::Arbitrate`: some processes have priorities, and where none of
-- them requests, the others take turns.
pub mod Turns
pub mod Rounds
mod Tests
use mgsim.Base.{
  ℕ, ◌+◌, ◌%◌, not, Option, none, some, List, [], ◌∷◌, ◌>>=◌, ltb, ◌==◌, if◌then◌else◌, length,
}
use mgsim.Ports.{Port, position, choose, finish, distance}

-- The port's processes are those with priorities.
pub record MixedPort : Type 0 where
  pub port : Port
  pub cyclic_processes : List ℕ

-- The choice among two requests or more by priority, and by turns.
abbrev pub by_priority : List ℕ → MixedPort → ℕ × Option ℕ
by_priority is m =
    let priority = λ (i : ℕ). position i m.port.processes in
    choose (λ (i : ℕ). not (priority i == length m.port.processes)) priority is
      (length m.port.processes) none

abbrev pub by_turns : List ℕ → MixedPort → ℕ × Option ℕ
by_turns is m =
    let key = distance m.cyclic_processes m.port.last_selected in
    choose (λ (i : ℕ). not (key i == 0)) key is (length m.cyclic_processes) none

pub finish_mixed : Option ℕ → ℕ → MixedPort → Option MixedPort
unfolding finish
finish_mixed chosen last m = do
  port ← finish chosen (record m.port { last_selected = last })
  some (record m { port = port })

pub select_mixed : List ℕ → MixedPort → Option MixedPort
unfolding finish_mixed position
select_mixed [] m = some (record m { port = record m.port { selected = none } })
select_mixed (p ∷ []) m =
    let maybe_last = position p m.cyclic_processes in
    finish_mixed (some p)
      (if ltb maybe_last (length m.cyclic_processes) then maybe_last else m.port.last_selected) m
select_mixed (p ∷ q ∷ ps) m =
    let first = by_priority (p ∷ q ∷ ps) m in
    if first.0 == length m.port.processes
    then finish_mixed (by_turns (p ∷ q ∷ ps) m).1
        ((m.port.last_selected + (by_turns (p ∷ q ∷ ps) m).0) % length m.cyclic_processes) m
    else finish_mixed first.1 m.port.last_selected m

pub arbitrate_mixed : MixedPort → Option MixedPort
unfolding select_mixed
arbitrate_mixed m = select_mixed m.port.requests m
