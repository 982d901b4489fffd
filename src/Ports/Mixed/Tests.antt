-- ===== src/Ports/Mixed/Tests.antt =====
-- Runs of `PriorityCyclicArbitratedPort::Arbitrate` on concrete inputs.
use mgsim.Base.{ℕ, ◌≡◌, ◌≢◌, refl, inl, inr, false, some, none, [], ◌∷◌, arith, ◌==◌, ◌>>=◌, In}
use mgsim.Ports.{choose, distance}
use mgsim.Ports.Mixed.{MixedPort, arbitrate_mixed}
use mgsim.Ports.Mixed.Turns.{IsMixed, MixedWon}
use mgsim.Ports.Mixed.Rounds.{arbitrate_mixed-MixedWon}

-- Processes 10 and 11 have priorities, 20, 21 and 22 take turns, and 21 had the last one; 20 and 22 request.
abbrev five : MixedPort
five = record {
  port = record {
    processes = 10 ∷ 11 ∷ [];
    requests = 20 ∷ 22 ∷ [];
    last_request = 4;
    selected = none;
    busy_cycles = 1;
    last_selected = 1;
  };
  cyclic_processes = 20 ∷ 21 ∷ 22 ∷ [];
}

-- It is the turn of 22.
next_turn : (do m ← arbitrate_mixed five; m.port.selected) ≡ some 22
unfolding arbitrate_mixed choose distance
next_turn = refl

apart : (p : ℕ) → In p (10 ∷ 11 ∷ []) → In p (20 ∷ 21 ∷ 22 ∷ []) → ⊥
apart p i j = omega (arith, i, j)

five-IsMixed : IsMixed five
five-IsMixed = record {
  known = (inr (inl refl), (inr (inr (inr (inl refl))), tt));
  apart = apart;
  last_known = omega arith;
}

ne : (a b : ℕ) → (a == b) ≡ false → a ≢ b
ne a b h = ground arith

arbitrate_mixed-MixedWon_example :
    (w : ℕ) × (m' : MixedPort) × (arbitrate_mixed five ≡ some m') × MixedWon five m' w
arbitrate_mixed-MixedWon_example =
    arbitrate_mixed-MixedWon five 20 (22 ∷ []) five-IsMixed refl (ne 20 22 refl)
