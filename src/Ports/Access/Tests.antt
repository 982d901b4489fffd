-- ===== src/Ports/Access/Tests.antt =====
-- Runs of the access to ports on concrete inputs.
use mgsim.Base.{
  ℕ, Bool, ◌≡◌, refl, true, false, some, none, [], ◌∷◌, ◌>>=◌, ◌==◌, In, inl, inr, arith,
}
use mgsim.Storage.{acquire, check}
use mgsim.Ports.{Port}
use mgsim.Ports.Structure.{Structure, on_arbitrate}
use mgsim.Ports.Access.{invoke, write_shared, write_dedicated, read_dedicated}
use mgsim.Ports.Access.Service.{ask_and_arbitrate, service_one}

abbrev service : Port
service = record {
  processes = 10 ∷ 11 ∷ 12 ∷ [];
  requests = [];
  last_request = 0;
  selected = none;
  busy_cycles = 0;
  last_selected = 0;
}

service_one_example :
    (w : ℕ) × (port' : Port) × (ask_and_arbitrate (12 ∷ 11 ∷ []) 5 service ≡ some port')
    × In w (12 ∷ 11 ∷ [])
    × ((q : ℕ) → In q service.processes → invoke check q 5 port' ≡ some (w == q, false, port'))
service_one_example =
    service_one 12 (11 ∷ []) 5 service refl (inr (inr (inl refl)), (inr (inl refl), tt))
      ((λ i. absurd (omega (arith, i))), ((λ i. i), tt))

-- Port 1 is shared by the processes 10, 11 and 12, port 2 belongs to process 20.
abbrev registers : Structure
registers = record {
  read_ports = [];
  write_ports = 1 ∷ 2 ∷ [];
  arbitrated = 1 ∷ [];
  priorities = 1 ∷ 2 ∷ [];
  write_port = λ p. record { index = 0; valid = false; chosen = false };
  process_port = λ p. service;
  indices = λ p. [];
}

-- Of three writes to index 7 one is granted: that of the first process at the first port.
three_writes :
    (do
      a ← write_shared acquire 12 5 7 1 registers
      b ← write_shared acquire 11 5 7 1 a.2
      c ← write_dedicated acquire 20 20 7 2 b.2
      s ← on_arbitrate c.2
      x ← write_shared check 12 5 7 1 s
      y ← write_shared check 11 5 7 1 s
      z ← write_dedicated check 20 20 7 2 s
      r ← read_dedicated 20 20
      let answer : Bool × Bool × Bool × Bool = (x.0, y.0, z.0, r)
      some answer)
    ≡ some (false, true, false, true)
unfolding write_shared write_dedicated read_dedicated on_arbitrate
three_writes = refl
