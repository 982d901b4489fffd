-- ===== src/Ports/Access/Service.antt =====
-- sim/ports.h, `ArbitratedService`: of the processes that ask in a cycle, one is served.
use mgsim.Base.{
  ℕ, ◌≡◌, refl, sym, ap, subst, ◌∙◌, true, false, Option, some, List, [], ◌∷◌, ◌++◌, append-nil,
  append_assoc, ◌==◌, ◌>>=◌, In, Once, inl, inr, ◌⊎◌, Bool-cases, arith,
}
use mgsim.Storage.{acquire, check}
use mgsim.Ports.{Port, member, add_request, arbitrate_priority}
use mgsim.Ports.Choice.{All}
use mgsim.Ports.Priority.{arbitrate_priority-Won}
use mgsim.Ports.Access.{invoke, has_acquired}

-- The processes ask, one after the other.
pub invoke_all : List ℕ → ℕ → Port → Option Port
unfolding invoke
invoke_all [] cycle port = some port
invoke_all (p ∷ ps) cycle port = do r ← invoke acquire p cycle port; invoke_all ps cycle r.2

-- An acquire phase and the arbitration.
pub ask_and_arbitrate : List ℕ → ℕ → Port → Option Port
unfolding invoke_all arbitrate_priority
ask_and_arbitrate ps cycle port = do port' ← invoke_all ps cycle port; arbitrate_priority port'

In-member : (p : ℕ) (ps : List ℕ) → In p ps → member p ps ≡ true
unfolding member
In-member p [] i = absurd i
In-member p (q ∷ ps) (inl e) = ground arith
In-member p (q ∷ ps) (inr i) = ground (arith, In-member p ps i)

fresh-member : (p : ℕ) (ps : List ℕ) → (In p ps → ⊥) → member p ps ≡ false
unfolding member
fresh-member p [] n = refl
fresh-member p (q ∷ ps) n = elim (Bool-cases (p == q)) [
  | inl e ↦ absurd (n (inl (ground arith)))
  | inr e ↦ rw e (fresh-member p ps (λ i. n (inr i)))
]

-- No process of the second list has asked before.
abbrev Apart : List ℕ → List ℕ → Type 0
Apart rs [] = Unit {0}
Apart rs (p ∷ ps) = (In p rs → ⊥) × Apart rs ps

Apart-snoc :
    (rs : List ℕ) (p : ℕ) (ps : List ℕ) → (In p ps → ⊥) → Apart rs ps → Apart (rs ++ p ∷ []) ps
Apart-snoc rs p [] n a = tt
Apart-snoc rs p (q ∷ ps) n (m, a) = (
  (λ i. elim (In-end q rs p i) [ inl j ↦ m j | inr e ↦ n (inl (sym e)) ]),
  Apart-snoc rs p ps (λ i. n (inr i)) a,
)
  where
    In-end : (q : ℕ) (rs : List ℕ) (p : ℕ) → In q (rs ++ p ∷ []) → In q rs ⊎ (q ≡ p)
    In-end q [] p (inl e) = inr e
    In-end q [] p (inr i) = absurd i
    In-end q (r ∷ rs) p (inl e) = inl (inl e)
    In-end q (r ∷ rs) p (inr i) = elim (In-end q rs p i) [ inl j ↦ inl (inr j) | inr e ↦ inr e ]

invoke-asks :
    (p cycle : ℕ) (port : Port)
    → In p port.processes
    → (In p port.requests → ⊥)
    → invoke acquire p cycle port
      ≡ some (true, true, record port { requests = port.requests ++ p ∷ []; last_request = cycle })
unfolding invoke add_request
invoke-asks p cycle port i n =
    rw (In-member p port.processes i, fresh-member p port.requests n) refl

invoke_all-asks :
    (ps : List ℕ) (cycle : ℕ) (port : Port)
    → All (λ p. In p port.processes) ps
    → Once ps
    → Apart port.requests ps
    → (port' : Port) × (invoke_all ps cycle port ≡ some port')
      × (port'.requests ≡ port.requests ++ ps)
      × (port'.processes ≡ port.processes)
unfolding invoke_all
invoke_all-asks [] cycle port k o a = (port, refl, sym (append-nil port.requests), refl)
invoke_all-asks (p ∷ ps) cycle port (i, k) (n, o) (m, a) =
    let next : Port = record port { requests = port.requests ++ p ∷ []; last_request = cycle } in
    let (port', e, r, q) = invoke_all-asks ps cycle next k o (Apart-snoc port.requests p ps n a) in
    (port', rw (invoke-asks p cycle port i m) e, r ∙ append_assoc port.requests (p ∷ []) ps, q)

invoke-answers :
    (q cycle w : ℕ) (port : Port)
    → In q port.processes
    → port.selected ≡ some w
    → invoke check q cycle port ≡ some (w == q, false, port)
unfolding invoke
invoke-answers q cycle w port i e =
    let answer : has_acquired q port ≡ (w == q) = rw e refl in
    rw (In-member q port.processes i, answer) refl

-- If different processes of a service, one at least, ask for it in the acquire phase, and no request is
-- left from before: no assertion fails, after the arbitration one of them, `w`, has the service, and in the
-- check phase each process of the service is told whether it is that one.
pub service_one :
    (r : ℕ) (rs : List ℕ) (cycle : ℕ) (port : Port)
    → port.requests ≡ []
    → All (λ p. In p port.processes) (r ∷ rs)
    → Once (r ∷ rs)
    → (w : ℕ) × (port' : Port) × (ask_and_arbitrate (r ∷ rs) cycle port ≡ some port')
      × In w (r ∷ rs)
      × ((q : ℕ) → In q port.processes → invoke check q cycle port' ≡ some (w == q, false, port'))
unfolding ask_and_arbitrate
service_one r rs cycle port e k o =
    let (asked, a, q, same) =
      invoke_all-asks (r ∷ rs) cycle port k o
        (subst (λ l. Apart l (r ∷ rs)) (sym e) (nothing_apart (r ∷ rs))) in
    let requests : asked.requests ≡ r ∷ rs = q ∙ ap (λ l. l ++ r ∷ rs) e in
    let known : All (λ p. In p asked.processes) asked.requests =
      subst (λ l. All (λ p. In p asked.processes) l) (sym requests)
        (subst (λ ps. All (λ p. In p ps) (r ∷ rs)) (sym same) k) in
    let (w, port', f, won, first) = arbitrate_priority-Won asked r rs requests known in
    (
      w,
      port',
      rw a f,
      subst (In w) requests won.requested,
      λ p i.
          invoke-answers p cycle w port' (subst (In p) (sym (won.processes_kept ∙ same)) i)
            won.granted,
    )
  where
    nothing_apart : (ps : List ℕ) → Apart [] ps
    nothing_apart [] = tt
    nothing_apart (p ∷ ps) = ((λ i. i), nothing_apart ps)
