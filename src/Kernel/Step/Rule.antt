-- ===== src/Kernel/Step/Rule.antt =====
-- In which order the components are called: a rule for the invariants of their state.
pub mod Steps
pub mod Calls
use mgsim.Base.{
  ℕ, zero, suc, ◌≡◌, ◌≢◌, refl, sym, ap, subst, ◌∙◌, Bool, true, false, ◌||◌, Option, none, some,
  List, [], ◌∷◌, ◌>>=◌, get_elem?, ◌==◌, if◌then◌else◌, Bool-cases, Option-cases, inl, inr, ◌⊎◌,
  some-eq, >>=-eq-some,
}
use mgsim.Kernel.{Clock, Kernel}
use mgsim.Kernel.Activation.{Process, RunState, idle, active, running, deadlock, aborted}
use mgsim.Kernel.Advance.{each, due, advance, has_later}
use mgsim.Kernel.Machine.{Machine, Request, run_requests}
use mgsim.Kernel.Step.{
  Result, failed, delayed, success, CyclePhase, phase_acquire, phase_check, phase_commit,
  Components, Run, set_clock, set_process, call, acquired, acquire, arbitrate, committed, checked,
  commit_in, commit, update, acquire_clock, arbitrate_clock, commit_clock, update_clock,
  update_storages, phases,
}
use mgsim.Kernel.Step.Walk.{Kept, KeptLists, update_storages-Kept, phases-Kept}
use mgsim.Kernel.Step.Loop.{
  Outcome, finished, crashed, unfinished, begin, continues, returned, run_cycle, loop, start, step,
}

-- What to show of an invariant: an acquisition keeps it that succeeds or fails, a check that fails, a
-- check that succeeds together with the commit behind it, an arbitration and an update.
pub record Rule {E : Type 0} (comps : Components E) (P : E → Type 0) : Type 0 where
  pub acquires :
      (p now : ℕ) (w w' : E) (result : Result) (rs : List Request)
      → P w
      → comps.delegate phase_acquire p now w ≡ some (result, rs, w')
      → result ≢ delayed
      → P w'
  pub waits :
      (p now : ℕ) (w w' : E) (rs : List Request)
      → P w
      → comps.delegate phase_check p now w ≡ some (failed, rs, w')
      → P w'
  pub commits :
      (p now later : ℕ) (w w1 w2 : E) (rs rs' : List Request)
      → P w
      → comps.delegate phase_check p now w ≡ some (success, rs, w1)
      → comps.delegate phase_commit p later w1 ≡ some (success, rs', w2)
      → P w2
  pub arbitrates : (a : ℕ) (w w' : E) → P w → comps.on_arbitrate a w ≡ some w' → P w'
  pub updates :
      (s : ℕ) (w w' : E) (rs : List Request) → P w → comps.update s w ≡ some (rs, w') → P w'

module _ {E : Type 0} (P : E → Type 0) where
  -- A call that keeps the invariant.
  abbrev Invariant : (Run E → Option (Run E)) → Type 0
  Invariant f = Kept (λ r. P r.world) f

  -- A change of the machine only.
  machine-Invariant :
      (r r' : Run E) (o : Option Machine) (w : Bool)
      → P r.world
      → (o >>= λ m. some (record r { worked = w; machine = m })) ≡ some r'
      → P r'.world
  machine-Invariant r r' o w i h =
      let (m, e, h1) = >>=-eq-some o _ h in subst (λ (r : Run E). P r.world) (some-eq refl h1) i

  lists-Invariant : KeptLists (λ r. P r.world)
  lists-Invariant i g r r' j h = machine-Invariant r r' (set_clock i g r.machine) r.worked j h

module _ {E : Type 0} (comps : Components E) (P : E → Type 0)
    (updates : (s : ℕ) (w w' : E) (rs : List Request)
      → P w
      → comps.update s w ≡ some (rs, w')
      → P w') where
  update-Invariant : (s : ℕ) → Invariant P (update comps s)
  unfolding update
  update-Invariant s r r' i h =
      let ((rs, w), e, h1) = >>=-eq-some (comps.update s r.world) _ h in
      let (m, f, h2) = >>=-eq-some (run_requests rs r.machine) _ h1 in
      subst (λ (r : Run E). P r.world) (some-eq refl h2) (updates s r.world w rs i e)

  pub update_storages-Invariant : Invariant P (update_storages comps)
  update_storages-Invariant =
      update_storages-Kept (λ r. P r.world) comps (lists-Invariant P) update-Invariant

module _ {E : Type 0} (comps : Components E) (P : E → Type 0) (rule : Rule comps P) where
  -- What a call answers is the delegate's answer.
  call-delegate :
      (phase : CyclePhase) (p : ℕ) (r r' : Run E) (result : Result)
      → call comps phase p r ≡ some (result, r')
      → (rs : List Request) × (comps.delegate phase p r.machine.kernel.cycle r.world
          ≡ some (result, rs, r'.world))
  unfolding call
  call-delegate phase p r r' result h =
      let ((res, rs, w), e, h1) =
        >>=-eq-some (comps.delegate phase p r.machine.kernel.cycle r.world) _ h in
      let (m, f, h2) = >>=-eq-some (run_requests rs r.machine) _ h1 in
      let answer = ap (λ (x : Result × Run E). x.0) (some-eq refl h2) in
      let world = ap (λ (x : Result × Run E). x.1.world) (some-eq refl h2) in
      (rs, e ∙ ap (λ (x : Result × E). some (x.0, rs, x.1)) (λ i. (answer i, world i)))

  acquire-Invariant : (p : ℕ) → Invariant P (acquire comps p)
  unfolding acquire acquired
  acquire-Invariant p r r' i h =
      let ((result, r1), e, h1) = >>=-eq-some (call comps phase_acquire p r) _ h in
      let (rs, d) = call-delegate phase_acquire p r r1 result e in
      after result r1 (rule.acquires p r.machine.kernel.cycle r.world r1.world result rs i d) h1
    where
      after :
          (result : Result) (r1 : Run E)
          → (result ≢ delayed → P r1.world)
          → acquired comps result p r1 ≡ some r'
          → P r'.world
      after success r1 i h = machine-Invariant P r1 r' _ r1.worked (i (λ e. cc)) h
      after failed r1 i h = machine-Invariant P r1 r' _ r1.worked (i (λ e. cc)) h
      after delayed r1 i h = absurd (cc)

  committed-Invariant :
      (result : Result) (p : ℕ) (r r' : Run E)
      → (result ≡ success → P r.world)
      → committed comps result p r ≡ some r'
      → P r'.world
  unfolding committed
  committed-Invariant success p r r' i h = machine-Invariant P r r' _ true (i refl) h
  committed-Invariant failed p r r' i h = absurd (cc)
  committed-Invariant delayed p r r' i h = absurd (cc)

  -- The commit directly follows its check.
  checked-Invariant :
      (result : Result) (p now : ℕ) (w : E) (rs : List Request) (r r' : Run E)
      → P w
      → comps.delegate phase_check p now w ≡ some (result, rs, r.world)
      → checked comps result p r ≡ some r'
      → P r'.world
  unfolding checked
  checked-Invariant success p now w rs r r' i d h =
      let ((result, r1), e, h1) = >>=-eq-some (call comps phase_commit p r) _ h in
      let (rs', f) = call-delegate phase_commit p r r1 result e in
      committed-Invariant result p r1 r'
        (λ s.
          rule.commits p now r.machine.kernel.cycle w r.world r1.world rs rs' i d
            (f ∙ ap (λ t. some (t, rs', r1.world)) s))
        h1
  checked-Invariant failed p now w rs r r' i d h =
      machine-Invariant P r r' _ r.worked (rule.waits p now w r.world rs i d) h
  checked-Invariant delayed p now w rs r r' i d h = absurd (cc)

  check-Invariant :
      (p : ℕ)
      → Invariant P (λ r. do (result, r') ← call comps phase_check p r; checked comps result p r')
  check-Invariant p r r' i h =
      let ((result, r1), e, h1) = >>=-eq-some (call comps phase_check p r) _ h in
      let (rs, d) = call-delegate phase_check p r r1 result e in
      checked-Invariant result p r.machine.kernel.cycle r.world rs r1 r' i d h1

  commit_in-Invariant : (state : RunState) (p : ℕ) → Invariant P (commit_in comps state p)
  unfolding commit_in
  commit_in-Invariant deadlock p r r' i h = subst (λ (r : Run E). P r.world) (some-eq refl h) i
  commit_in-Invariant idle p r r' i h = check-Invariant p r r' i h
  commit_in-Invariant active p r r' i h = check-Invariant p r r' i h
  commit_in-Invariant running p r r' i h = check-Invariant p r r' i h
  commit_in-Invariant aborted p r r' i h = check-Invariant p r r' i h

  commit-Invariant : (p : ℕ) → Invariant P (commit comps p)
  unfolding commit
  commit-Invariant p r r' i h =
      let (x, e, h1) = >>=-eq-some (get_elem? r.machine.processes p) _ h in
      commit_in-Invariant x.state p r r' i h1

  arbitrate-Invariant : (a : ℕ) → Invariant P (arbitrate comps a)
  unfolding arbitrate
  arbitrate-Invariant a r r' i h =
      let (w, e, h1) = >>=-eq-some (comps.on_arbitrate a r.world) _ h in
      subst (λ (r : Run E). P r.world) (some-eq refl h1) (rule.arbitrates a r.world w i e)

  pub phases-Invariant : Invariant P (phases comps)
  phases-Invariant =
      phases-Kept (λ r. P r.world) comps (lists-Invariant P) (update-Invariant comps P rule.updates)
        acquire-Invariant arbitrate-Invariant commit-Invariant
