-- ===== src/Ports/Cyclic.antt =====
-- `CyclicArbitratedPort::Arbitrate`: every process that keeps requesting gets its turn.
use native.Mathlib.Nat.{mod-eq_of_lt, mod-eq-sub-mod, mod-lt}
use mgsim.Base.{
  In, ℕ, ◌+◌, ◌-◌, ◌%◌, ◌<◌, ◌≤◌, ◌≡◌, ◌≢◌, refl, sym, inl, inr, true, not, Option, none, some,
  List, [], ◌∷◌, length, arith, ltb, ◌==◌, if◌then◌else◌,
}
use mgsim.Storage.{word}
use mgsim.Ports.{Port, position, distance}
use mgsim.Ports.Choice.{All, All-In, Chosen, position-lt, position-injective}
use mgsim.Ports.Priority.{Won}

-- The rounds that a request may have to wait, if all other processes request too.
abbrev pub turn : ℕ → ℕ → ℕ → ℕ
turn n last p = if ltb last p then p - last else p + n - last

-- The distance that the code computes is the turn, except that the process selected last has
-- distance 0 and has to wait a whole round.
distance_lem :
    (ps : List ℕ) (last p : ℕ)
    → position p ps < length ps
    → last < length ps
    → distance ps last p
      ≡ (if position p ps == last then 0 else turn (length ps) last (position p ps))
unfolding distance
distance_lem ps last p h k = ground (
  arith,
  mod-eq_of_lt {n = position p ps + length ps - last} {m = length ps},
  mod-eq-sub-mod {n = position p ps + length ps - last} {m = length ps},
  mod-eq_of_lt {n = position p ps + length ps - last - length ps} {m = length ps},
)

-- The next value of `m_lastSelected` is the position of the process chosen.
next_last : (n last p : ℕ) → p < n → last < n → p ≢ last → (last + turn n last p) % n ≡ p
next_last n last p h k ne = ground (
  arith,
  mod-eq_of_lt {n = last + turn n last p} {m = n},
  mod-eq-sub-mod {n = last + turn n last p} {m = n},
  mod-eq_of_lt {n = last + turn n last p - n} {m = n},
)

-- A process that waits while another, which comes no later, is selected comes nearer to its turn.
turn_falls :
    (n last p q : ℕ)
    → p < n
    → q < n
    → last < n
    → p ≢ q
    → turn n last p ≤ turn n last q
    → turn n p q < turn n last q
turn_falls n last p q hp hq hl ne le = ground arith

distance-lt : (ps : List ℕ) (last p : ℕ) → last < length ps → distance ps last p < length ps
unfolding distance
distance-lt ps last p h = mod-lt (position p ps + length ps - last) (omega arith)

-- The port of the source, once a process has been granted.
unfoldable pub grant_cyclic : ℕ → Port → Port
grant_cyclic w port = record port {
  selected = some w;
  requests = [];
  busy_cycles = (port.busy_cycles + 1) % word;
  last_selected = position w port.processes;
}

-- What a round of the arbiter leaves for a request that has not won: a turn that is nearer.
pub record Served (port port' : Port) (w : ℕ) : Type 0 where
  pub won : Won port port' w
  pub remembered : port'.last_selected ≡ position w port.processes
  pub nearer :
      All
        (λ q.
          q ≢ w
          → turn (length port.processes) port'.last_selected (position q port.processes)
            < turn (length port.processes) port.last_selected (position q port.processes))
        port.requests

-- The winner among two or more requests has the least turn, and it is not the process of the last
-- round.
pub record Winner (ps : List ℕ) (last : ℕ) (is : List ℕ) (r : ℕ × Option ℕ) (w : ℕ) : Type 0 where
  pub chosen : r.1 ≡ some w
  pub present : In w is
  pub new_last : (last + r.0) % length ps ≡ position w ps
  pub least :
      All (λ q. turn (length ps) last (position w ps) ≤ turn (length ps) last (position q ps)) is

-- The first of two requests, if no request is eligible.
idle_at_last :
    (ps : List ℕ) (last p : ℕ)
    → last < length ps
    → In p ps
    → (not (distance ps last p == 0) ≡ true → length ps ≤ distance ps last p)
    → position p ps ≡ last
idle_at_last ps last p hl i f =
    ground (arith, f, distance-lt ps last p hl, distance_lem ps last p (position-lt p ps i) hl)

-- A request that the loop did not prefer comes no sooner.
no_sooner :
    (ps : List ℕ) (last q m : ℕ)
    → last < length ps
    → m < length ps
    → In q ps
    → (not (distance ps last q == 0) ≡ true → m ≤ distance ps last q)
    → m ≤ turn (length ps) last (position q ps)
no_sooner ps last q m hl hm i f = ground (arith, f, distance_lem ps last q (position-lt q ps i) hl)

at_turn :
    (ps : List ℕ) (last w : ℕ)
    → last < length ps
    → In w ps
    → not (distance ps last w == 0) ≡ true
    → (distance ps last w ≡ turn (length ps) last (position w ps)) × (position w ps ≢ last)
at_turn ps last w hl i e = (
  ground (arith, distance_lem ps last w (position-lt w ps i) hl),
  ground (arith, distance_lem ps last w (position-lt w ps i) hl),
)

pub All-map-In :
    {P Q : ℕ → Type 0} (qs : List ℕ) → ((q : ℕ) → In q qs → P q → Q q) → All P qs → All Q qs
All-map-In [] f a = tt
All-map-In (q ∷ qs) f a = (f q (inl refl) a.0, All-map-In qs (λ p i. f p (inr i)) a.1)

pub cyclic-Winner :
    (ps : List ℕ) (last r q : ℕ) (qs : List ℕ) (found : ℕ × Option ℕ)
    → last < length ps
    → All (λ p. In p ps) (r ∷ q ∷ qs)
    → r ≢ q
    → Chosen
        (λ i. not (distance ps last i == 0))
        (distance ps last)
        (r ∷ q ∷ qs)
        (length ps)
        none
        found
    → (w : ℕ) × Winner ps last (r ∷ q ∷ qs) found w
cyclic-Winner ps last r q qs found hl known ne c = elim c.witness [
  | inl h ↦
      let er = idle_at_last ps last r hl known.0 (λ e. omega (arith, c.minimal.0 e, h.0)) in
      let eq = idle_at_last ps last q hl known.1.0 (λ e. omega (arith, c.minimal.1.0 e, h.0)) in
      absurd (ne (position-injective r q ps known.0 (omega (arith, er, eq))))
  | inr (w, s, n, k, e, l) ↦
      let i = All-In (λ p. In p ps) w (r ∷ q ∷ qs) known n in
      let (t, u) = at_turn ps last w hl i e in
      (
        w,
        record {
          chosen = s;
          present = n;
          new_last =
              rw (sym k, t) (next_last (length ps) last (position w ps) (position-lt w ps i) hl u);
          least =
              All-map-In (r ∷ q ∷ qs)
                (λ p j f.
                  no_sooner ps last p (turn (length ps) last (position w ps)) hl
                    (omega (arith, t, k, l)) (All-In (λ p. In p ps) p (r ∷ q ∷ qs) known j)
                    (λ g. omega (arith, f g, t, k)))
                c.minimal;
        },
      )
]

pub Winner-nearer :
    (ps : List ℕ) (last : ℕ) (is : List ℕ) (w : ℕ)
    → last < length ps
    → All (λ p. In p ps) is
    → In w ps
    → All (λ q. turn (length ps) last (position w ps) ≤ turn (length ps) last (position q ps)) is
    → All
        (λ q.
          q ≢ w
          → turn (length ps) (position w ps) (position q ps)
            < turn (length ps) last (position q ps))
        is
Winner-nearer ps last is w hl known i a =
    All-map-In is
      (λ q j f ne.
        let k = All-In (λ p. In p ps) q is known j in
        turn_falls (length ps) last (position w ps) (position q ps) (position-lt w ps i)
          (position-lt q ps k) hl (λ e. ne (position-injective q w ps k (sym e))) f)
      a
