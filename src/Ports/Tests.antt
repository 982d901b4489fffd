-- ===== src/Ports/Tests.antt =====
-- Runs of the arbiters of sim/ports.cpp on concrete inputs.
use mgsim.Base.{ℕ, ◌≡◌, ◌≢◌, refl, inl, inr, false, none, some, [], ◌∷◌, arith, ◌==◌}
use mgsim.Ports.{Port, member, add_process, add_request, arbitrate_cyclic}
use mgsim.Ports.Cyclic.{Served}
use mgsim.Ports.Rounds.{arbitrate_cyclic-Served}

-- Processes 10, 11 and 12, of which 12 and 10 request; 11 was selected last.
abbrev three : Port
three = record {
  processes = 10 ∷ 11 ∷ 12 ∷ [];
  requests = 12 ∷ 10 ∷ [];
  last_request = 4;
  selected = none;
  busy_cycles = 1;
  last_selected = 1;
}

ne : (a b : ℕ) → (a == b) ≡ false → a ≢ b
ne a b h = ground arith

arbitrate_cyclic-Served_example :
    (w : ℕ) × (port' : Port) × (arbitrate_cyclic three ≡ some port') × Served three port' w
arbitrate_cyclic-Served_example =
    arbitrate_cyclic-Served three 12 (10 ∷ []) refl (omega arith)
      (inr (inr (inl refl)), (inl refl, tt)) (ne 12 10 refl)

add_process_run :
    (add_process 12 three ≡ none)
    × (add_process 13 three ≡ some (record three { processes = 10 ∷ 11 ∷ 12 ∷ 13 ∷ [] }))
unfolding add_process member
add_process_run = (refl, refl)

-- A process may request again in a later cycle, but not in the same one.
add_request_run : (add_request 10 4 three ≡ none) × (add_request 10 5 three ≡ some three)
unfolding add_request member
add_request_run = (refl, refl)
