-- ===== src/Ports/Structure/Tests.antt =====
-- Runs of the ports of a structure on concrete inputs.
use mgsim.Base.{
  ℕ, Bool, ◌≡◌, refl, true, false, some, none, [], ◌∷◌, ◌>>=◌, ◌==◌, if◌then◌else◌, inl, inr,
}
use mgsim.Ports.{Port}
use mgsim.Ports.Structure.{
  WritePort, Structure, update, on_arbitrate, arbitrate_read_ports, arbitrate_write_ports,
  register_write_port, register_arbitrated_write_port, add_port, set_request_index,
}
use mgsim.Ports.Structure.Exclusive.{Exclusive, on_arbitrate-Exclusive}

abbrev idle_port : Port
idle_port = record {
  processes = [];
  requests = [];
  last_request = 0;
  selected = none;
  busy_cycles = 0;
  last_selected = 0;
}

abbrev idle : WritePort
idle = record { index = 0; valid = false; chosen = false }

abbrev wants : ℕ → WritePort
wants i = record { index = i; valid = true; chosen = false }

-- Port 1 is shared: its process 20 asks for index 4. Ports 2 and 3 belong to a process each and ask for 4
-- and 5.
abbrev registers : Structure
registers = record {
  read_ports = idle_port ∷ [];
  write_ports = 1 ∷ 2 ∷ 3 ∷ [];
  arbitrated = 1 ∷ [];
  priorities = 2 ∷ 1 ∷ 3 ∷ [];
  write_port = λ p. if p == 2 then wants 4 else (if p == 3 then wants 5 else idle);
  process_port = λ p. record idle_port { processes = 20 ∷ []; requests = 20 ∷ [] };
  indices = λ p. (20, 4) ∷ [];
}

-- Of the ports 1 and 2 the second comes first in the order; port 3 writes elsewhere.
both_indices :
    (do
      s ← on_arbitrate registers
      let answer : Bool × Bool × Bool =
          ((s.write_port 1).chosen, (s.write_port 2).chosen, (s.write_port 3).chosen)
      some answer)
    ≡ some (false, true, true)
unfolding on_arbitrate
both_indices = refl

abbrev granted : Structure
granted = record registers {
  process_port =
      update registers.process_port 1
        (record idle_port { processes = 20 ∷ []; selected = some 20; busy_cycles = 1 });
  write_port = update registers.write_port 1 (wants 4);
}

granted_lem : arbitrate_write_ports (1 ∷ []) registers ≡ some granted
unfolding arbitrate_write_ports
granted_lem = refl

reads_lem : arbitrate_read_ports (idle_port ∷ []) ≡ some (idle_port ∷ [])
unfolding arbitrate_read_ports
reads_lem = refl

on_arbitrate-Exclusive_example :
    (s' : Structure) × (w : ℕ) × (on_arbitrate registers ≡ some s') × Exclusive granted s' 4 w
on_arbitrate-Exclusive_example =
    on_arbitrate-Exclusive registers granted (idle_port ∷ []) 4 1 reads_lem granted_lem (inl refl)
      (inr (inl refl)) refl

-- A port registers once, and gets its priority once.
registered :
    (do
      s ← register_write_port 4 registers
      s ← register_arbitrated_write_port 5 s
      s ← add_port 4 s
      add_port 4 s)
    ≡ none
unfolding register_write_port register_arbitrated_write_port add_port
registered = refl

-- A port asks once in a cycle.
asked_twice : (do w ← set_request_index 3 idle; set_request_index 3 w) ≡ none
unfolding set_request_index
asked_twice = refl
