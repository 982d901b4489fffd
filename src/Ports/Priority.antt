-- ===== src/Ports/Priority.antt =====
-- `PriorityArbitratedPort::Arbitrate`: the request of the process that was added first wins.
use mgsim.Base.{In, ℕ, ◌+◌, ◌%◌, ◌≤◌, ◌≡◌, refl, inl, inr, none, some, List, [], ◌∷◌, length, arith}
use mgsim.Storage.{word}
use mgsim.Ports.{Port, position, choose, finish, always, select_priority, arbitrate_priority}
use mgsim.Ports.Choice.{All, choose-Chosen, position-lt}

-- A port whose request by `w` has won.
pub record Won (port port' : Port) (w : ℕ) : Type 0 where
  pub granted : port'.selected ≡ some w
  pub requested : In w port.requests
  pub done : port'.requests ≡ []
  pub processes_kept : port'.processes ≡ port.processes
  pub busy : port'.busy_cycles ≡ (port.busy_cycles + 1) % word

-- Each request comes from a process of the port.
abbrev pub AllKnown : Port → Type 0
AllKnown port = All (λ p. In p port.processes) port.requests

-- No request comes before the winner.
abbrev pub First : Port → ℕ → Type 0
First port w = All (λ q. position w port.processes ≤ position q port.processes) port.requests

All-map : {P Q : ℕ → Type 0} (qs : List ℕ) → ((q : ℕ) → P q → Q q) → All P qs → All Q qs
All-map [] f a = tt
All-map (q ∷ qs) f a = (f q a.0, All-map qs f a.1)

priority_winner :
    (ps : List ℕ) (r : ℕ) (rs : List ℕ)
    → In r ps
    → (w : ℕ) × ((choose always (λ i. position i ps) (r ∷ rs) (length ps) none).1 ≡ some w)
      × In w (r ∷ rs)
      × All (λ q. position w ps ≤ position q ps) (r ∷ rs)
priority_winner ps r rs i =
    let c = choose-Chosen always (λ j. position j ps) (r ∷ rs) (length ps) none in
    elim c.witness [
      | inl h ↦ absurd (omega (arith, h.0, c.minimal.0 refl, position-lt r ps i))
      | inr (w, s, n, k, e, l) ↦
          (w, s, n, All-map (r ∷ rs) (λ q f. omega (arith, f refl, k)) c.minimal)
    ]

grant : ℕ → Port → Port
grant w port = record port {
  selected = some w;
  requests = [];
  busy_cycles = (port.busy_cycles + 1) % word;
}

grant-Won : (w : ℕ) (port : Port) → In w port.requests → Won port (grant w port) w
unfolding grant
grant-Won w port i = record {
  granted = refl;
  requested = i;
  done = refl;
  processes_kept = refl;
  busy = refl;
}

arbitrate-one :
    (port : Port) (r : ℕ) → port.requests ≡ r ∷ [] → arbitrate_priority port ≡ some (grant r port)
unfolding arbitrate_priority select_priority finish grant
arbitrate-one port r e = rw e refl

arbitrate-many :
    (port : Port) (r q w : ℕ) (qs : List ℕ)
    → port.requests ≡ r ∷ q ∷ qs
    → (choose always (λ i. position i port.processes) (r ∷ q ∷ qs) (length port.processes) none).1
      ≡ some w
    → arbitrate_priority port ≡ some (grant w port)
unfolding arbitrate_priority select_priority grant finish
arbitrate-many port r q w qs e c = rw (e, c) refl

-- A port with requests, all from its processes, fails no assertion: it selects a request whose
-- process comes no later on the port's list than that of any request, drops the requests and counts a
-- busy cycle.
pub arbitrate_priority-Won :
    (port : Port) (r : ℕ) (rs : List ℕ)
    → port.requests ≡ r ∷ rs
    → AllKnown port
    → (w : ℕ) × (port' : Port) × (arbitrate_priority port ≡ some port')
      × Won port port' w
      × First port w
arbitrate_priority-Won port r [] e a = (
  r,
  grant r port,
  arbitrate-one port r e,
  grant-Won r port (rw e (inl refl)),
  rw e (omega arith, tt),
)
arbitrate_priority-Won port r (q ∷ qs) e a =
    let known = rw e at a in
    let (w, c, i, f) = priority_winner port.processes r (q ∷ qs) known.0 in
    (w, grant w port, arbitrate-many port r q w qs e c, grant-Won w port (rw e i), rw e f)
