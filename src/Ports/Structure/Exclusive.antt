-- ===== src/Ports/Structure/Exclusive.antt =====
-- sim/ports.h, `ReadWriteStructure::OnArbitrate`: one port at most writes to an index.
use mgsim.Base.{
  ℕ, ◌≤◌, ◌≡◌, refl, sym, ap, subst, ◌∙◌, true, false, none, some, List, [], ◌∷◌, ◌==◌,
  if◌then◌else◌, length, In, inl, inr, Bool-cases, arith,
}
use mgsim.Ports.{Port, position, member, choose, always}
use mgsim.Ports.Choice.{All, All-In, choose-Chosen, position-lt}
use mgsim.Ports.Structure.{
  WritePort, notify, Structure, arbitrate_read_ports, arbitrate_write_ports, group, is_selected,
  select_port, serve, on_arbitrate,
}
use mgsim.Ports.Structure.Groups.{
  asks, asking, ports_at, group-Sorted, group-Sound, ports_at-group, asking_cons,
}
use mgsim.Ports.Structure.Reports.{serve_lem}

module _ (f : ℕ → WritePort) (k p : ℕ) where
  In-asking : (ps : List ℕ) → In p ps → asks f k p ≡ true → In p (asking f k ps)
  In-asking [] i h = absurd i
  In-asking (q ∷ ps) (inl e) h =
      subst (In p) (asking_cons f k q ps true (subst (λ x. asks f k x ≡ true) e h)) (inl e)
  In-asking (q ∷ ps) (inr i) h = elim (Bool-cases (asks f k q)) [
    | inl a ↦ subst (In p) (asking_cons f k q ps true a) (inr (In-asking ps i h))
    | inr a ↦ subst (In p) (asking_cons f k q ps false a) (In-asking ps i h)
  ]

  asking-In : (ps : List ℕ) → In p (asking f k ps) → In p ps × (asks f k p ≡ true)
  asking-In [] i = absurd i
  asking-In (q ∷ ps) i = elim (Bool-cases (asks f k q)) [
    | inl a ↦ elim (subst (In p) (sym (asking_cons f k q ps true a)) i) [
      | inl e ↦ (inl e, subst (λ x. asks f k x ≡ true) (sym e) a)
      | inr j ↦ let (n, h) = asking-In ps j in (inr n, h)
    ]
    | inr a ↦
        let (n, h) = asking-In ps (subst (In p) (sym (asking_cons f k q ps false a)) i) in
        (inr n, h)
  ]

In-member : (p : ℕ) (ps : List ℕ) → In p ps → member p ps ≡ true
unfolding member
In-member p [] i = absurd i
In-member p (q ∷ ps) (inl e) = ground arith
In-member p (q ∷ ps) (inr i) = ground (arith, In-member p ps i)

-- Of ports one of which has a priority, the one earliest in the order is selected.
select_port-first :
    (priorities : List ℕ) (p : ℕ) (ps : List ℕ)
    → In p ps
    → In p priorities
    → (w : ℕ) × (select_port priorities ps ≡ some w)
      × In w ps
      × All (λ q. position w priorities ≤ position q priorities) ps
unfolding select_port
select_port-first priorities p ps i j =
    let c = choose-Chosen always (λ q. position q priorities) ps (length priorities) none in
    elim c.witness [
      | inl h ↦
          let least =
            All-In
              (λ q.
                (always q ≡ true)
                → (choose always (λ q. position q priorities) ps (length priorities) none).0
                  ≤ position q priorities)
              p ps c.minimal i in
          absurd (omega (arith, h.0, least refl, position-lt p priorities j))
      | inr (w, g, n, e, a, l) ↦ (w, g, n, All-under ps (λ q m. omega (arith, m refl, e)) c.minimal)
    ]
  where
    All-under : {P Q : ℕ → Type 0} (qs : List ℕ) → ((q : ℕ) → P q → Q q) → All P qs → All Q qs
    All-under [] h a = tt
    All-under (q ∷ qs) h a = (h q a.0, All-under qs h a.1)

-- The index `k` is given to the port `w`.
pub record Exclusive (before after : Structure) (k w : ℕ) : Type 0 where
  pub registered : In w before.write_ports
  pub asked : asks before.write_port k w ≡ true
  pub first :
      (q : ℕ)
      → In q before.write_ports
      → asks before.write_port k q ≡ true
      → position w before.priorities ≤ position q before.priorities
  pub report :
      (q : ℕ)
      → In q before.write_ports
      → asks before.write_port k q ≡ true
      → after.write_port q ≡ notify (w == q) (before.write_port q)

serve-asking :
    (t : Structure) (k w q : ℕ)
    → select_port t.priorities (asking t.write_port k t.write_ports) ≡ some w
    → In q t.write_ports
    → asks t.write_port k q ≡ true
    → serve t.priorities (group t.write_port t.write_ports []) t.write_port q
      ≡ notify (w == q) (t.write_port q)
serve-asking t k w q g i h =
    let gs = group t.write_port t.write_ports [] in
    let l =
      serve_lem t.priorities t.write_port k q gs t.write_port
        (group-Sorted t.write_port t.write_ports [] tt)
        (group-Sound t.write_port t.write_ports [] tt) h in
    let held : ports_at k gs ≡ asking t.write_port k t.write_ports =
      ports_at-group t.write_port k t.write_ports [] tt in
    let there =
      In-member q (asking t.write_port k t.write_ports)
        (In-asking t.write_port k q t.write_ports i h) in
    l
    ∙ (ap
          (λ ps.
            if member q ps
            then notify (is_selected (select_port t.priorities ps) q) (t.write_port q)
            else t.write_port q)
          held
        ∙ (ap
              (λ b.
                if b
                then notify
                    (is_selected (select_port t.priorities (asking t.write_port k t.write_ports)) q)
                    (t.write_port q)
                else t.write_port q)
              there
            ∙ ap (λ o. notify (is_selected o q) (t.write_port q)) g))

-- Once the read ports and the shared write ports have been arbitrated, which leads to `t`, `OnArbitrate`
-- returns. If a registered port with a priority asks for the index `k`, that index is given to one port:
-- it asks for it and comes no later in the order of priorities than any other port that does, and of
-- all ports that ask for it, it alone is told that it was chosen.
pub on_arbitrate-Exclusive :
    (s t : Structure) (reads : List Port) (k p : ℕ)
    → arbitrate_read_ports s.read_ports ≡ some reads
    → arbitrate_write_ports s.arbitrated s ≡ some t
    → In p t.write_ports
    → In p t.priorities
    → asks t.write_port k p ≡ true
    → (s' : Structure) × (w : ℕ) × (on_arbitrate s ≡ some s') × Exclusive t s' k w
unfolding on_arbitrate
on_arbitrate-Exclusive s t reads k p a b i j h =
    let (w, g, n, first) =
      select_port-first t.priorities p (asking t.write_port k t.write_ports)
        (In-asking t.write_port k p t.write_ports i h) j in
    let (registered, asked) = asking-In t.write_port k w t.write_ports n in
    (
      record t {
        read_ports = reads;
        write_port = serve t.priorities (group t.write_port t.write_ports []) t.write_port;
      },
      w,
      rw (a, b) refl,
      record {
        registered = registered;
        asked = asked;
        first = λ q m r.
            All-In (λ q. position w t.priorities ≤ position q t.priorities) q
              (asking t.write_port k t.write_ports) first
              (In-asking t.write_port k q t.write_ports m r);
        report = λ q m r. serve-asking t k w q g m r;
      },
    )
