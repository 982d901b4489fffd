-- ===== src/Ports/Rounds.antt =====
-- `CyclicArbitratedPort::Arbitrate`: a round of the arbiter.
use mgsim.Base.{
  In, ℕ, ◌<◌, ◌≤◌, ◌≡◌, ◌≢◌, refl, inl, not, none, some, List, [], ◌∷◌, length, arith, ◌==◌, lt→ltb,
}
use mgsim.Ports.{Port, position, choose, finish, distance, select_cyclic, arbitrate_cyclic}
use mgsim.Ports.Choice.{All, All-In, choose-Chosen}
use mgsim.Ports.Priority.{AllKnown}
use mgsim.Ports.Cyclic.{turn, grant_cyclic, Served, Winner, cyclic-Winner, Winner-nearer}

arbitrate-one :
    (port : Port) (r : ℕ)
    → port.requests ≡ r ∷ []
    → port.last_selected < length port.processes
    → arbitrate_cyclic port ≡ some (grant_cyclic r port)
unfolding arbitrate_cyclic select_cyclic finish grant_cyclic
arbitrate-one port r e h = rw (e, lt→ltb port.last_selected (length port.processes) h) refl

arbitrate-many :
    (port : Port) (r q w : ℕ) (qs : List ℕ)
    → port.requests ≡ r ∷ q ∷ qs
    → port.last_selected < length port.processes
    → Winner port.processes port.last_selected
        (r ∷ q ∷ qs)
        (choose
          (λ i. not (distance port.processes port.last_selected i == 0))
          (distance port.processes port.last_selected)
          (r ∷ q ∷ qs)
          (length port.processes)
          none)
        w
    → arbitrate_cyclic port ≡ some (grant_cyclic w port)
unfolding arbitrate_cyclic select_cyclic finish grant_cyclic
arbitrate-many port r q w qs e h c =
    rw (e, lt→ltb port.last_selected (length port.processes) h, c.chosen, c.new_last) refl

grant_cyclic-Served :
    (port : Port) (w : ℕ)
    → port.last_selected < length port.processes
    → AllKnown port
    → In w port.requests
    → In w port.processes
    → All
        (λ q.
          turn (length port.processes) port.last_selected (position w port.processes)
          ≤ turn (length port.processes) port.last_selected (position q port.processes))
        port.requests
    → Served port (grant_cyclic w port) w
unfolding grant_cyclic
grant_cyclic-Served port w h known n i a = record {
  won = record { granted = refl; requested = n; done = refl; processes_kept = refl; busy = refl };
  remembered = refl;
  nearer = Winner-nearer port.processes port.last_selected port.requests w h known i a;
}

-- No two requests that follow one another at the front are the same.
abbrev pub FrontDiffers : List ℕ → Type 0
FrontDiffers [] = Unit {0}
FrontDiffers (r ∷ []) = Unit {0}
FrontDiffers (r ∷ q ∷ qs) = r ≢ q

-- A port with requests, all from its processes and the first two not alike, whose `m_lastSelected`
-- is in range, fails no assertion. It selects one of the requests, remembers its position, and drops
-- the requests; the turn of each process that requested and was not selected comes strictly nearer.
pub arbitrate_cyclic-Served :
    (port : Port) (r : ℕ) (rs : List ℕ)
    → port.requests ≡ r ∷ rs
    → port.last_selected < length port.processes
    → AllKnown port
    → FrontDiffers port.requests
    → (w : ℕ) × (port' : Port) × (arbitrate_cyclic port ≡ some port') × Served port port' w
arbitrate_cyclic-Served port r [] e h known d =
    let n : In r port.requests = rw e (inl refl) in
    (
      r,
      grant_cyclic r port,
      arbitrate-one port r e h,
      grant_cyclic-Served port r h known n
          (All-In (λ p. In p port.processes) r port.requests known n) (rw e (omega arith, tt)),
    )
arbitrate_cyclic-Served port r (q ∷ qs) e h known d =
    let k = rw e at known in
    let (w, c) =
      cyclic-Winner port.processes port.last_selected r q qs
        (choose (λ i. not (distance port.processes port.last_selected i == 0))
          (distance port.processes port.last_selected) (r ∷ q ∷ qs) (length port.processes) none)
        h k (rw e at d)
        (choose-Chosen (λ i. not (distance port.processes port.last_selected i == 0))
          (distance port.processes port.last_selected) (r ∷ q ∷ qs) (length port.processes) none) in
    let n : In w port.requests = rw e c.present in
    (
      w,
      grant_cyclic w port,
      arbitrate-many port r q w qs e h c,
      grant_cyclic-Served port w h known n
          (All-In (λ p. In p port.processes) w port.requests known n) (rw e c.least),
    )
