-- ===== src/Kernel/Activation/Counts.antt =====
-- A clock runs exactly the processes that have been activated more often than deactivated.
use native.Mathlib.Nat
use mgsim.Base.{
  Once, ℕ, ◌+◌, ◌-◌, ◌%◌, ◌<◌, ◌≡◌, ◌≢◌, refl, sym, ap, subst, ◌∙◌, true, false, some, List, [],
  ◌∷◌, arith, ◌==◌, get_elem?, set, Bool-cases, inl, inr, In, get_elem?-set_self, get_elem?-set_ne,
  get_elem?-bound,
}
use mgsim.Kernel.Activation.{
  Process, RunQueue, idle, active, unsigned_int, activate_process, deactivate_process, remove,
}

-- The queue holds the processes with a positive count, each once.
pub record IsCounted (q : RunQueue) : Type 0 where
  pub once : Once q.queue
  pub queued :
      (p : ℕ) (x : Process) → get_elem? q.processes p ≡ some x → 0 < x.activations → In p q.queue
  pub positive :
      (p : ℕ) (x : Process) → get_elem? q.processes p ≡ some x → In p q.queue → 0 < x.activations

-- Process `p` has the count `n` now, and the others are as they were.
pub record Counted (p n : ℕ) (q q' : RunQueue) : Type 0 where
  pub counted : IsCounted q'
  pub process : Process
  pub stored : get_elem? q'.processes p ≡ some process
  pub count : process.activations ≡ n
  pub others : (r : ℕ) → r ≢ p → get_elem? q'.processes r ≡ get_elem? q.processes r

pub remove-In : (p r : ℕ) (qs : List ℕ) → In r (remove p qs) → In r qs
unfolding remove
remove-In p r [] h = h
remove-In p r (q ∷ qs) h = elim (Bool-cases (p == q)) [
  | inl e ↦ inr (rw e at h)
  | inr e ↦ elim (rw e at h) [ inl f ↦ inl f | inr f ↦ inr (remove-In p r qs f) ]
]

In-remove : (p r : ℕ) (qs : List ℕ) → r ≢ p → In r qs → In r (remove p qs)
unfolding remove
In-remove p r [] ne h = h
In-remove p r (q ∷ qs) ne h = elim (Bool-cases (p == q)) [
  | inl e ↦ rw e (elim h [ inl f ↦ absurd (ne (ground arith)) | inr f ↦ f ])
  | inr e ↦ rw e (elim h [ inl f ↦ inl f | inr f ↦ inr (In-remove p r qs ne f) ])
]

remove-Once : (p : ℕ) (qs : List ℕ) → Once qs → Once (remove p qs) × (In p (remove p qs) → ⊥)
unfolding remove
remove-Once p [] o = (tt, λ h. h)
remove-Once p (q ∷ qs) o = elim (Bool-cases (p == q)) [
  | inl e ↦ let same : p ≡ q = ground arith in rw e (o.1, rw same o.0)
  | inr e ↦
      let (rest, gone) = remove-Once p qs o.1 in
      rw e (
        ((λ h. o.0 (remove-In p q qs h)), rest),
        λ h. elim h [ inl f ↦ absurd (ground arith) | inr f ↦ gone f ],
      )
]

-- The state behind a change of one process, with a queue on which the others stand as before.
replaced :
    (p : ℕ) (x y : Process) (q : RunQueue) (qs : List ℕ)
    → IsCounted q
    → get_elem? q.processes p ≡ some x
    → Once qs
    → ((r : ℕ) → r ≢ p → In r qs → In r q.queue)
    → ((r : ℕ) → r ≢ p → In r q.queue → In r qs)
    → (0 < y.activations → In p qs)
    → (In p qs → 0 < y.activations)
    → Counted p y.activations q (record { processes = set q.processes p y; queue = qs })
replaced p x y q qs c e o out into on off =
    let stored = get_elem?-set_self q.processes p y (get_elem?-bound q.processes p x e) in
    let others : (r : ℕ) → r ≢ p → get_elem? (set q.processes p y) r ≡ get_elem? q.processes r =
      λ r ne. get_elem?-set_ne q.processes y (λ f. ne (sym f)) in
    let here : (r : ℕ) (z : Process)
        → r ≡ p
        → get_elem? (set q.processes p y) r ≡ some z
        → z.activations ≡ y.activations =
      λ r z f g.
        let same : some y ≡ some z =
          sym stored ∙ (ap (λ t. get_elem? (set q.processes p y) t) (sym f) ∙ g) in
        cc in
    record {
      counted = record {
        once = o;
        queued = λ r z f h. elim (Bool-cases (r == p)) [
          | inl same ↦
              let at_p : r ≡ p = ground arith in
              subst (λ t. In t qs) (sym at_p) (on (rw (here r z at_p f) at h))
          | inr other ↦
              let ne : r ≢ p = ground arith in into r ne (c.queued r z (sym (others r ne) ∙ f) h)
        ];
        positive = λ r z f h. elim (Bool-cases (r == p)) [
          | inl same ↦ let at_p : r ≡ p = ground arith in rw (here r z at_p f) (off (rw at_p at h))
          | inr other ↦
              let ne : r ≢ p = ground arith in c.positive r z (sym (others r ne) ∙ f) (out r ne h)
        ];
      };
      process = y;
      stored = stored;
      count = refl;
      others = others;
    }

-- `ActivateProcess` of a process that is there, on a counted queue, below the range of the count: the
-- answer is whether the count was 0, the count goes up by one, the queue is counted again, and the
-- other processes stay as they were.
pub activate_process-Counted :
    (p : ℕ) (x : Process) (q : RunQueue)
    → IsCounted q
    → get_elem? q.processes p ≡ some x
    → x.activations + 1 < unsigned_int
    → (q' : RunQueue) × (activate_process p q ≡ some (x.activations == 0, q'))
      × Counted p (x.activations + 1) q q'
unfolding activate_process
activate_process-Counted p x q c e w =
    let n : (x.activations + 1) % unsigned_int ≡ x.activations + 1 = Nat.mod-eq_of_lt w in
    elim (Bool-cases (x.activations == 0)) [
      | inl first ↦
          let one : (x.activations + 1 == 1) ≡ true = ground arith in
          let y : Process = record x { activations = x.activations + 1; state = active } in
          (
            record { processes = set q.processes p y; queue = p ∷ q.queue },
            rw (e, n, one, first) refl,
            replaced p x y q (p ∷ q.queue) c e
                ((λ h. let more = c.positive p x e h in absurd (ground arith)), c.once)
                (λ r ne h. elim h [ inl f ↦ absurd (ne f) | inr f ↦ f ]) (λ r ne h. inr h)
                (λ h. inl refl) (λ h. omega arith),
          )
      | inr again ↦
          let more : (x.activations + 1 == 1) ≡ false = ground arith in
          let y : Process = record x { activations = x.activations + 1 } in
          (
            record q { processes = set q.processes p y },
            rw (e, n, more, again) refl,
            replaced p x y q q.queue c e c.once (λ r ne h. h) (λ r ne h. h)
                (λ h. c.queued p x e (ground arith)) (λ h. omega arith),
          )
    ]

-- `Deactivate` of a process with a positive count, in its range, on a counted queue: the count goes
-- down by one, the queue is counted again, and the other processes stay as they were.
pub deactivate_process-Counted :
    (p : ℕ) (x : Process) (q : RunQueue)
    → IsCounted q
    → get_elem? q.processes p ≡ some x
    → 0 < x.activations
    → x.activations < unsigned_int
    → (q' : RunQueue) × (deactivate_process p q ≡ some q') × Counted p (x.activations - 1) q q'
unfolding deactivate_process
deactivate_process-Counted p x q c e h w =
    let n : (x.activations + unsigned_int - 1) % unsigned_int ≡ x.activations - 1 = grind (
      arith,
      Nat.mod-eq-sub-mod {n = x.activations + unsigned_int - 1} {m = unsigned_int},
      Nat.mod-eq_of_lt {n = x.activations - 1} {m = unsigned_int},
    ) in
    elim (Bool-cases (x.activations - 1 == 0)) [
      | inl last ↦
          let (once, gone) = remove-Once p q.queue c.once in
          let y : Process = record x { activations = x.activations - 1; state = idle } in
          (
            record { processes = set q.processes p y; queue = remove p q.queue },
            rw (e, n, last) refl,
            replaced p x y q (remove p q.queue) c e once (λ r ne g. remove-In p r q.queue g)
                (λ r ne g. In-remove p r q.queue ne g) (λ g. absurd (ground arith))
                (λ g. absurd (gone g)),
          )
      | inr more ↦
          let y : Process = record x { activations = x.activations - 1 } in
          (
            record q { processes = set q.processes p y },
            rw (e, n, more) refl,
            replaced p x y q q.queue c e c.once (λ r ne g. g) (λ r ne g. g) (λ g. c.queued p x e h)
                (λ g. ground arith),
          )
    ]
