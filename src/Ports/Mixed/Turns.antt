-- ===== src/Ports/Mixed/Turns.antt =====
-- `PriorityCyclicArbitratedPort::Arbitrate`: priorities first, then turns.
use mgsim.Base.{
  ℕ, ◌+◌, ◌%◌, ◌<◌, ◌≤◌, ◌≡◌, ◌≢◌, refl, some, List, [], ◌∷◌, ◌==◌, length, In, inl, inr, ◌⊎◌,
  arith, Bool-cases,
}
use mgsim.Storage.{word}
use mgsim.Ports.{position}
use mgsim.Ports.Choice.{All}
use mgsim.Ports.Cyclic.{turn}
use mgsim.Ports.Mixed.{MixedPort}

-- The requests come from processes of the port, each of one kind, and the process that had its turn is
-- one of those that take turns.
pub record IsMixed (m : MixedPort) : Type 0 where
  pub known : All (λ p. In p m.port.processes ⊎ In p m.cyclic_processes) m.port.requests
  pub apart : (p : ℕ) → In p m.port.processes → In p m.cyclic_processes → ⊥
  pub last_known : m.port.last_selected < length m.cyclic_processes

-- The request by `w` has won.
pub record MixedWon (m m' : MixedPort) (w : ℕ) : Type 0 where
  pub granted : m'.port.selected ≡ some w
  pub requested : In w m.port.requests
  pub done : m'.port.requests ≡ []
  pub preferred :
      All (λ q. position w m.port.processes ≤ position q m.port.processes) m.port.requests
  pub by_rank : In w m.port.processes → m'.port.last_selected ≡ m.port.last_selected
  pub by_turn :
      In w m.cyclic_processes
      → (m'.port.last_selected ≡ position w m.cyclic_processes)
        × All
            (λ q.
              q ≢ w
              → turn
                  (length m.cyclic_processes)
                  m'.port.last_selected
                  (position q m.cyclic_processes)
                < turn
                    (length m.cyclic_processes)
                    m.port.last_selected
                    (position q m.cyclic_processes))
            m.port.requests

pub position-le : (p : ℕ) (qs : List ℕ) → position p qs ≤ length qs
unfolding position
position-le p [] = omega arith
position-le p (q ∷ qs) = ground (arith, position-le p qs)

pub position-In : (p : ℕ) (qs : List ℕ) → position p qs < length qs → In p qs
unfolding position
position-In p [] h = absurd (omega arith)
position-In p (q ∷ qs) h = elim (Bool-cases (p == q)) [
  | inl e ↦ inl (ground arith)
  | inr e ↦ inr (position-In p qs (ground arith))
]

pub position-missing : (p : ℕ) (qs : List ℕ) → (In p qs → ⊥) → position p qs ≡ length qs
position-missing p qs n = elim (lt-cases (position p qs) (length qs) (position-le p qs)) [
  | inl h ↦ absurd (n (position-In p qs h))
  | inr e ↦ e
]
  where
    lt-cases : (a b : ℕ) → a ≤ b → (a < b) ⊎ (a ≡ b)
    lt-cases a b h = ground arith

unfoldable pub grant_mixed : ℕ → ℕ → MixedPort → MixedPort
grant_mixed w last m = record m {
  port = record m.port {
    selected = some w;
    requests = [];
    busy_cycles = (m.port.busy_cycles + 1) % word;
    last_selected = last;
  };
}

-- A process with a priority wins.
pub rank-MixedWon :
    (m : MixedPort) (w : ℕ)
    → IsMixed m
    → In w m.port.requests
    → In w m.port.processes
    → All (λ q. position w m.port.processes ≤ position q m.port.processes) m.port.requests
    → MixedWon m (grant_mixed w m.port.last_selected m) w
unfolding grant_mixed
rank-MixedWon m w s i k a = record {
  granted = refl;
  requested = i;
  done = refl;
  preferred = a;
  by_rank = λ h. refl;
  by_turn = λ h. absurd (s.apart w k h);
}

-- A process that takes turns wins.
pub turn-MixedWon :
    (m : MixedPort) (w : ℕ)
    → IsMixed m
    → In w m.port.requests
    → In w m.cyclic_processes
    → All (λ q. position w m.port.processes ≤ position q m.port.processes) m.port.requests
    → All
        (λ q.
          q ≢ w
          → turn
              (length m.cyclic_processes)
              (position w m.cyclic_processes)
              (position q m.cyclic_processes)
            < turn (length m.cyclic_processes) m.port.last_selected (position q m.cyclic_processes))
        m.port.requests
    → MixedWon m (grant_mixed w (position w m.cyclic_processes) m) w
unfolding grant_mixed
turn-MixedWon m w s i k a t = record {
  granted = refl;
  requested = i;
  done = refl;
  preferred = a;
  by_rank = λ h. absurd (s.apart w h k);
  by_turn = λ h. (refl, t);
}
