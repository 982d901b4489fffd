-- ===== src/Ports/Mixed/Rounds.antt =====
-- `PriorityCyclicArbitratedPort::Arbitrate`: a round of the arbiter.
use mgsim.Base.{
  ℕ, ◌+◌, ◌%◌, ◌<◌, ◌≤◌, ◌≡◌, ◌≢◌, refl, sym, subst, true, false, not, none, some, List, [], ◌∷◌,
  ltb, ◌==◌, if◌then◌else◌, length, In, inl, inr, ◌⊎◌, arith,
}
use mgsim.Ports.{position, finish, distance}
use mgsim.Ports.Choice.{All, All-In, choose-Chosen, position-lt}
use mgsim.Ports.Cyclic.{turn, cyclic-Winner, Winner-nearer, All-map-In}
use mgsim.Ports.Rounds.{FrontDiffers}
use mgsim.Ports.Mixed.{
  MixedPort, by_priority, by_turns, finish_mixed, select_mixed, arbitrate_mixed,
}
use mgsim.Ports.Mixed.Turns.{
  IsMixed, MixedWon, position-le, position-In, position-missing, grant_mixed, rank-MixedWon,
  turn-MixedWon,
}

arbitrate-alone :
    (m : MixedPort) (r last : ℕ)
    → m.port.requests ≡ r ∷ []
    → (if ltb (position r m.cyclic_processes) (length m.cyclic_processes)
        then position r m.cyclic_processes
        else m.port.last_selected)
      ≡ last
    → arbitrate_mixed m ≡ some (grant_mixed r last m)
unfolding arbitrate_mixed select_mixed finish_mixed finish grant_mixed
arbitrate-alone m r last e h = rw (e, h) refl

arbitrate-rank :
    (m : MixedPort) (r q w : ℕ) (qs : List ℕ)
    → m.port.requests ≡ r ∷ q ∷ qs
    → ((by_priority (r ∷ q ∷ qs) m).0 == length m.port.processes) ≡ false
    → (by_priority (r ∷ q ∷ qs) m).1 ≡ some w
    → arbitrate_mixed m ≡ some (grant_mixed w m.port.last_selected m)
unfolding arbitrate_mixed select_mixed finish_mixed finish grant_mixed
arbitrate-rank m r q w qs e h c = rw (e, h, c) refl

arbitrate-turn :
    (m : MixedPort) (r q w : ℕ) (qs : List ℕ)
    → m.port.requests ≡ r ∷ q ∷ qs
    → ((by_priority (r ∷ q ∷ qs) m).0 == length m.port.processes) ≡ true
    → (by_turns (r ∷ q ∷ qs) m).1 ≡ some w
    → (m.port.last_selected + (by_turns (r ∷ q ∷ qs) m).0) % length m.cyclic_processes
      ≡ position w m.cyclic_processes
    → arbitrate_mixed m ≡ some (grant_mixed w (position w m.cyclic_processes) m)
unfolding arbitrate_mixed select_mixed finish_mixed finish grant_mixed
arbitrate-turn m r q w qs e h c n = rw (e, h, c, n) refl

alone-MixedWon :
    (m : MixedPort) (r : ℕ)
    → IsMixed m
    → m.port.requests ≡ r ∷ []
    → (m' : MixedPort) × (arbitrate_mixed m ≡ some m') × MixedWon m m' r
alone-MixedWon m r s e =
    let here : In r m.port.requests = rw e (inl refl) in
    let first : All (λ q. position r m.port.processes ≤ position q m.port.processes)
        m.port.requests =
      rw e (omega arith, tt) in
    elim (All-In (λ p. In p m.port.processes ⊎ In p m.cyclic_processes) r m.port.requests s.known
      here) [
        | inl k ↦
            let gone = position-missing r m.cyclic_processes (λ h. s.apart r k h) in
            (
              grant_mixed r m.port.last_selected m,
              arbitrate-alone m r m.port.last_selected e (ground (arith, gone)),
              rank-MixedWon m r s here k first,
            )
        | inr k ↦ (
          grant_mixed r (position r m.cyclic_processes) m,
          arbitrate-alone m r (position r m.cyclic_processes) e
              (ground (arith, position-lt r m.cyclic_processes k)),
          turn-MixedWon m r s here k first (rw e ((λ n. absurd (n refl)), tt)),
        )
      ]

-- No request has a priority.
abbrev Unranked : MixedPort → List ℕ → Type 0
Unranked m is = All (λ q. position q m.port.processes ≡ length m.port.processes) is

unranked-cyclic :
    (m : MixedPort) (q : ℕ)
    → In q m.port.processes ⊎ In q m.cyclic_processes
    → position q m.port.processes ≡ length m.port.processes
    → In q m.cyclic_processes
unranked-cyclic m q (inl k) e = absurd (omega (arith, position-lt q m.port.processes k, e))
unranked-cyclic m q (inr k) e = k

-- The turn of `q` comes nearer if `w` has had its turn.
abbrev Nearer : MixedPort → ℕ → ℕ → Type 0
Nearer m w q =
    turn (length m.cyclic_processes) (position w m.cyclic_processes) (position q m.cyclic_processes)
    < turn (length m.cyclic_processes) m.port.last_selected (position q m.cyclic_processes)

turns-MixedWon :
    (m : MixedPort) (r q : ℕ) (qs : List ℕ)
    → IsMixed m
    → m.port.requests ≡ r ∷ q ∷ qs
    → r ≢ q
    → Unranked m (r ∷ q ∷ qs)
    → (by_priority (r ∷ q ∷ qs) m).0 ≡ length m.port.processes
    → (w : ℕ) × (m' : MixedPort) × (arbitrate_mixed m ≡ some m') × MixedWon m m' w
turns-MixedWon m r q qs s e ne un h =
    let cyclic : All (λ p. In p m.cyclic_processes) (r ∷ q ∷ qs) =
      All-map-In (r ∷ q ∷ qs)
        (λ p i f.
          unranked-cyclic m p
            (All-In (λ p. In p m.port.processes ⊎ In p m.cyclic_processes) p (r ∷ q ∷ qs)
              (rw e at s.known) i)
            f)
        un in
    let (w, c) =
      cyclic-Winner m.cyclic_processes m.port.last_selected r q qs (by_turns (r ∷ q ∷ qs) m)
        s.last_known cyclic ne
        (choose-Chosen (λ i. not (distance m.cyclic_processes m.port.last_selected i == 0))
          (distance m.cyclic_processes m.port.last_selected) (r ∷ q ∷ qs)
          (length m.cyclic_processes) none) in
    let k = All-In (λ p. In p m.cyclic_processes) w (r ∷ q ∷ qs) cyclic c.present in
    let last =
      All-In (λ p. position p m.port.processes ≡ length m.port.processes) w (r ∷ q ∷ qs) un
        c.present in
    (
      w,
      grant_mixed w (position w m.cyclic_processes) m,
      arbitrate-turn m r q w qs e (ground (arith, h)) c.chosen c.new_last,
      turn-MixedWon m w s (subst (λ is. In w is) (sym e) c.present) k
          (subst (λ is. All (λ p. position w m.port.processes ≤ position p m.port.processes) is)
            (sym e) (All-map-In (r ∷ q ∷ qs) (λ p i f. omega (arith, last, f)) un))
          (subst (λ is. All (λ p. p ≢ w → Nearer m w p) is) (sym e)
            (Winner-nearer m.cyclic_processes m.port.last_selected (r ∷ q ∷ qs) w s.last_known
              cyclic k c.least)),
    )

-- A port some of whose processes have priorities and the others take turns, with requests, all from its
-- processes and the first two not alike, where the process that had its turn is one of those that take
-- turns: no assertion fails and a request is selected that comes no later in the order of priorities than
-- any other. Where that is one without a priority, its position is remembered, and the turn of each
-- process that requested and was not selected comes strictly nearer; else the turns stay.
pub arbitrate_mixed-MixedWon :
    (m : MixedPort) (r : ℕ) (rs : List ℕ)
    → IsMixed m
    → m.port.requests ≡ r ∷ rs
    → FrontDiffers m.port.requests
    → (w : ℕ) × (m' : MixedPort) × (arbitrate_mixed m ≡ some m') × MixedWon m m' w
arbitrate_mixed-MixedWon m r [] s e d = let (m', a, w) = alone-MixedWon m r s e in (r, m', a, w)
arbitrate_mixed-MixedWon m r (q ∷ qs) s e d =
    let c =
      choose-Chosen (λ i. not (position i m.port.processes == length m.port.processes))
        (λ i. position i m.port.processes) (r ∷ q ∷ qs) (length m.port.processes) none in
    elim c.witness [
      | inl h ↦
          turns-MixedWon m r q qs s e (rw e at d)
            (All-map-In (r ∷ q ∷ qs)
              (λ p i f. ground (arith, f, h.0, position-le p m.port.processes)) c.minimal)
            h.0
      | inr (w, g, n, k, f, l) ↦ (
        w,
        grant_mixed w m.port.last_selected m,
        arbitrate-rank m r q w qs e (ground (arith, l)) g,
        rank-MixedWon m w s (rw e n) (position-In w m.port.processes (omega (arith, k, l))) (
            rw e (
              All-map-In (r ∷ q ∷ qs)
                (λ p i j. ground (arith, j, k, l, position-le w m.port.processes)) c.minimal)),
      )
    ]
