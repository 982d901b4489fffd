-- ===== src/Kernel/Step/Phases.antt =====
-- Whatever the components do, the phases of a cycle keep the kernel sound.
use mgsim.Base.{
  ℕ, ◌≡◌, refl, sym, ap, subst, ◌∙◌, Bool, true, false, Option, some, List, [], ◌∷◌, ◌>>=◌,
  get_elem?, set, inl, inr, some-eq, >>=-eq-some, get_elem?-set_self, get_elem?-bound, Bool-cases,
  ◌==◌, get_elem?-set_ne, arith,
}
use mgsim.Kernel.{Clock}
use mgsim.Kernel.Schedule.Alike.{Same, set-Alike}
use mgsim.Kernel.Activation.{Process, RunState, idle, active, running, deadlock, aborted}
use mgsim.Kernel.Advance.{each, due}
use mgsim.Kernel.Machine.{Machine, run_requests}
use mgsim.Kernel.Machine.Sound.{HasWork, IsSound, Keeps, Keeps-trans, change-IsSound}
use mgsim.Kernel.Machine.Requests.{Sound, unmoved-Sound, run_requests-Sound}
use mgsim.Kernel.Step.{
  Result, failed, delayed, success, CyclePhase, phase_acquire, phase_check, phase_commit,
  Components, Run, set_clock, set_process, call, acquired, acquire, arbitrate, committed, checked,
  commit_in, commit, update, acquire_clock, arbitrate_clock, commit_clock, update_clock,
  update_storages, phases,
}

Sound-trans :
    (limit : ℕ) (m m1 m2 : Machine) → Sound limit m m1 → Sound limit m1 m2 → Sound limit m m2
Sound-trans limit m m1 m2 (s, k) (t, l) = (t, Keeps-trans m.kernel m1.kernel m2.kernel k l)

set_process-Sound :
    {limit : ℕ} (p : ℕ) (f : Process → Process) (m m' : Machine)
    → IsSound limit m.kernel
    → set_process p f m ≡ some m'
    → Sound limit m m'
unfolding set_process
set_process-Sound p f m m' s h =
    let (x, e, h1) = >>=-eq-some (get_elem? m.processes p) _ h in
    unmoved-Sound m (record m { processes = set m.processes p (f x) }) m' s refl h1

-- A clock loses work.
set_clock-Sound :
    {limit : ℕ} (i : ℕ) (f : Clock → Clock) (m m' : Machine)
    → ((c : Clock) → Same c (f c))
    → ((c : Clock) → HasWork (f c) → HasWork c)
    → IsSound limit m.kernel
    → set_clock i f m ≡ some m'
    → Sound limit m m'
unfolding set_clock
set_clock-Sound {limit = limit} i f m m' same less s h =
    let (c, e, h1) = >>=-eq-some (get_elem? m.kernel.clocks i) _ h in
    let cs = m.kernel.clocks in
    let here = get_elem?-set_self cs i (f c) (get_elem?-bound cs i c e) in
    let result = ap (λ (m : Machine). m.kernel) (some-eq refl h1) in
    subst (λ k. IsSound limit k × Keeps m.kernel k) result
      (change-IsSound m.kernel (set cs i (f c)) s (set-Alike cs i c (f c) e (same c)) (λ j d g w.
        elim (Bool-cases (j == i)) [
          | inl a ↦
              let eq : j ≡ i = ground arith in
              let d_is = some-eq g (ap (λ t. get_elem? (set cs i (f c)) t) eq ∙ here) in
              let old : HasWork c = less c (subst HasWork d_is w) in
              ap (λ (d : Clock). d.activated) d_is ∙ ((same c).activated ∙ s.awake i c e old)
          | inr a ↦ s.awake j d (sym (get_elem?-set_ne cs (f c) (ground arith)) ∙ g) w
        ]))

module _ {E : Type 0} (limit : ℕ) where
  -- A call that keeps the kernel sound.
  abbrev Safe : (Run E → Option (Run E)) → Type 0
  Safe f =
      (r r' : Run E)
      → IsSound limit r.machine.kernel
      → f r ≡ some r'
      → Sound limit r.machine r'.machine

  each-Safe :
      (f : ℕ → Run E → Option (Run E)) (l : List ℕ) → ((x : ℕ) → Safe (f x)) → Safe (each f l)
  unfolding each
  each-Safe f [] safe r r' s h =
      let same = ap (λ (r : Run E). r.machine) (some-eq refl h) in
      unmoved-Sound r.machine r.machine r'.machine s refl (ap (λ m. some m) same)
  each-Safe f (x ∷ xs) safe r r' s h =
      let (r1, e, h1) = >>=-eq-some (f x r) _ h in
      let first = safe x r r1 s e in
      Sound-trans limit r.machine r1.machine r'.machine first (each-Safe f xs safe r1 r' first.0 h1)

  -- A change of the machine behind a call.
  then-Safe :
      (r r' : Run E) (g : Machine → Option Machine) (f : Machine → Run E)
      → ((m : Machine) → (f m).machine ≡ m)
      → ((m : Machine) → g r.machine ≡ some m → Sound limit r.machine m)
      → (g r.machine >>= λ m. some (f m)) ≡ some r'
      → Sound limit r.machine r'.machine
  then-Safe r r' g f at safe h =
      let (m, e, h1) = >>=-eq-some (g r.machine) (λ m. some (f m)) h in
      let same : m ≡ r'.machine = sym (at m) ∙ ap (λ (r : Run E). r.machine) (some-eq refl h1) in
      subst (λ m. Sound limit r.machine m) same (safe m e)

module _ {E : Type 0} (comps : Components E) (limit : ℕ) where
  call-Safe :
      (phase : CyclePhase) (p : ℕ) (r r' : Run E) (result : Result)
      → IsSound limit r.machine.kernel
      → call comps phase p r ≡ some (result, r')
      → Sound limit r.machine r'.machine
  unfolding call
  call-Safe phase p r r' result s h =
      let ((res, rs, w), e, h1) =
        >>=-eq-some (comps.delegate phase p r.machine.kernel.cycle r.world) _ h in
      let (m, f, h2) = >>=-eq-some (run_requests rs r.machine) _ h1 in
      let same : m ≡ r'.machine = ap (λ (x : Result × Run E). x.1.machine) (some-eq refl h2) in
      subst (λ m. Sound limit r.machine m) same (run_requests-Sound rs r.machine m s f)

  set-Safe :
      (p : ℕ) (f : Process → Process) (r r' : Run E) (w : Bool)
      → IsSound limit r.machine.kernel
      → (set_process p f r.machine >>= λ m. some (record r { worked = w; machine = m })) ≡ some r'
      → Sound limit r.machine r'.machine
  set-Safe p f r r' w s h =
      then-Safe limit r r' (set_process p f) (λ m. record r { worked = w; machine = m }) (λ m. refl)
        (λ m e. set_process-Sound p f r.machine m s e) h

  acquired-Safe : (result : Result) (p : ℕ) → Safe limit (acquired comps result p)
  unfolding acquired
  acquired-Safe success p r r' s h = set-Safe p _ r r' r.worked s h
  acquired-Safe failed p r r' s h = set-Safe p _ r r' r.worked s h
  acquired-Safe delayed p r r' s h = absurd (cc)

  -- A call of a delegate, and what is done with its answer.
  called-Safe :
      (phase : CyclePhase) (p : ℕ) (g : Result → ℕ → Run E → Option (Run E))
      → ((result : Result) → Safe limit (g result p))
      → Safe limit (λ r. do (result, r') ← call comps phase p r; g result p r')
  called-Safe phase p g safe r r' s h =
      let ((result, r1), e, h1) = >>=-eq-some (call comps phase p r) _ h in
      let first = call-Safe phase p r r1 result s e in
      Sound-trans limit r.machine r1.machine r'.machine first (safe result r1 r' first.0 h1)

  acquire-Safe : (p : ℕ) → Safe limit (acquire comps p)
  unfolding acquire
  acquire-Safe p = called-Safe phase_acquire p (acquired comps) (λ result. acquired-Safe result p)

  committed-Safe : (result : Result) (p : ℕ) → Safe limit (committed comps result p)
  unfolding committed
  committed-Safe success p r r' s h = set-Safe p _ r r' true s h
  committed-Safe failed p r r' s h = absurd (cc)
  committed-Safe delayed p r r' s h = absurd (cc)

  checked-Safe : (result : Result) (p : ℕ) → Safe limit (checked comps result p)
  unfolding checked
  checked-Safe success p r r' s h =
      called-Safe phase_commit p (committed comps) (λ result. committed-Safe result p) r r' s h
  checked-Safe failed p r r' s h = set-Safe p _ r r' r.worked s h
  checked-Safe delayed p r r' s h = absurd (cc)

  check-Safe :
      (p : ℕ)
      → Safe limit (λ r. do (result, r') ← call comps phase_check p r; checked comps result p r')
  check-Safe p = called-Safe phase_check p (checked comps) (λ result. checked-Safe result p)

  commit_in-Safe : (state : RunState) (p : ℕ) → Safe limit (commit_in comps state p)
  unfolding commit_in
  commit_in-Safe deadlock p r r' s h =
      let same = ap (λ (r : Run E). r.machine) (some-eq refl h) in
      unmoved-Sound r.machine r.machine r'.machine s refl (ap (λ m. some m) same)
  commit_in-Safe idle p r r' s h = check-Safe p r r' s h
  commit_in-Safe active p r r' s h = check-Safe p r r' s h
  commit_in-Safe running p r r' s h = check-Safe p r r' s h
  commit_in-Safe aborted p r r' s h = check-Safe p r r' s h

  commit-Safe : (p : ℕ) → Safe limit (commit comps p)
  unfolding commit
  commit-Safe p r r' s h =
      let (x, e, h1) = >>=-eq-some (get_elem? r.machine.processes p) _ h in
      commit_in-Safe x.state p r r' s h1

  arbitrate-Safe : (a : ℕ) → Safe limit (arbitrate comps a)
  unfolding arbitrate
  arbitrate-Safe a r r' s h =
      let (w, e, h1) = >>=-eq-some (comps.on_arbitrate a r.world) _ h in
      let m = r.machine in
      let m' : Machine = record m { arbitrators = set m.arbitrators a false } in
      let same : m' ≡ r'.machine = ap (λ (r : Run E). r.machine) (some-eq refl h1) in
      unmoved-Sound m m' r'.machine s refl (ap (λ m. some m) same)

  update-Safe : (x : ℕ) → Safe limit (update comps x)
  unfolding update
  update-Safe x r r' s h =
      let ((rs, w), e, h1) = >>=-eq-some (comps.update x r.world) _ h in
      let (m, f, h2) = >>=-eq-some (run_requests rs r.machine) _ h1 in
      let same = ap (λ (r : Run E). r.machine.kernel) (some-eq refl h2) in
      subst (λ k. IsSound limit k × Keeps r.machine.kernel k) same
        (run_requests-Sound rs r.machine m s f)

  -- A list of one clock, and then a change of the clock.
  listed-Safe :
      (i : ℕ) (list : Clock → List ℕ) (f : ℕ → Run E → Option (Run E))
      → ((x : ℕ) → Safe limit (f x))
      → Safe limit (λ r. do c ← get_elem? r.machine.kernel.clocks i; each f (list c) r)
  listed-Safe i list f safe r r' s h =
      let (c, e, h1) = >>=-eq-some (get_elem? r.machine.kernel.clocks i) _ h in
      each-Safe limit f (list c) safe r r' s h1

  emptied-Safe :
      (i : ℕ) (g : Clock → Clock)
      → ((c : Clock) → Same c (g c))
      → ((c : Clock) → HasWork (g c) → HasWork c)
      → Safe limit (λ (r : Run E). do m ← set_clock i g r.machine; some (record r { machine = m }))
  emptied-Safe i g same less r r' s h =
      then-Safe limit r r' (set_clock i g) (λ m. record r { machine = m }) (λ m. refl)
        (λ m e. set_clock-Sound i g r.machine m same less s e) h

  cleared-Safe :
      (i : ℕ) (list : Clock → List ℕ) (f : ℕ → Run E → Option (Run E)) (g : Clock → Clock)
      → ((x : ℕ) → Safe limit (f x))
      → ((c : Clock) → Same c (g c))
      → ((c : Clock) → HasWork (g c) → HasWork c)
      → Safe limit (λ r. do
        c ← get_elem? r.machine.kernel.clocks i
        r' ← each f (list c) r
        m ← set_clock i g r'.machine
        some (record r' { machine = m }))
  cleared-Safe i list f g safe same less r r' s h =
      let (c, e, h1) = >>=-eq-some (get_elem? r.machine.kernel.clocks i) _ h in
      let (r1, e1, h2) = >>=-eq-some (each f (list c) r) _ h1 in
      let first = each-Safe limit f (list c) safe r r1 s e1 in
      Sound-trans limit r.machine r1.machine r'.machine first
        (emptied-Safe i g same less r1 r' first.0 h2)

  acquire_clock-Safe : (i : ℕ) → Safe limit (acquire_clock comps i)
  unfolding acquire_clock
  acquire_clock-Safe i = listed-Safe i (λ c. c.active_processes) (acquire comps) acquire-Safe

  commit_clock-Safe : (i : ℕ) → Safe limit (commit_clock comps i)
  unfolding commit_clock
  commit_clock-Safe i = listed-Safe i (λ c. c.active_processes) (commit comps) commit-Safe

  arbitrate_clock-Safe : (i : ℕ) → Safe limit (arbitrate_clock comps i)
  unfolding arbitrate_clock
  arbitrate_clock-Safe i =
      cleared-Safe i (λ c. c.active_arbitrators) (arbitrate comps)
        (λ c. record c { active_arbitrators = [] }) arbitrate-Safe
        (λ c. record { period = refl; activated = refl; cycle = refl })
        (λ c w. record {
          object = w.object;
          listed = elim w.listed [
            | inl h ↦ inl h
            | inr (inl h) ↦ inr (inl h)
            | inr (inr h) ↦ absurd h
          ];
        })

  update_clock-Safe : (i : ℕ) → Safe limit (update_clock comps i)
  unfolding update_clock
  update_clock-Safe i =
      cleared-Safe i (λ c. c.active_storages) (update comps)
        (λ c. record c { active_storages = [] }) update-Safe
        (λ c. record { period = refl; activated = refl; cycle = refl })
        (λ c w. record {
          object = w.object;
          listed = elim w.listed [
            | inl h ↦ inl h
            | inr (inl h) ↦ absurd h
            | inr (inr h) ↦ inr (inr h)
          ];
        })

  pub update_storages-Safe : Safe limit (update_storages comps)
  unfolding update_storages
  update_storages-Safe r r' s h =
      each-Safe limit (update_clock comps) (due r.machine.kernel) update_clock-Safe r r' s h

  -- The kernel behind the phases of a cycle is sound, and no clock that is to run is put off.
  pub phases-Safe : Safe limit (phases comps)
  unfolding phases
  phases-Safe r r' s h =
      let (r1, e1, h1) = >>=-eq-some (each (acquire_clock comps) (due r.machine.kernel) r) _ h in
      let (r2, e2, h2) =
        >>=-eq-some (each (arbitrate_clock comps) (due r1.machine.kernel) r1) _ h1 in
      let (r3, e3, h3) = >>=-eq-some (each (commit_clock comps) (due r2.machine.kernel) r2) _ h2 in
      let first = each-Safe limit (acquire_clock comps) _ acquire_clock-Safe r r1 s e1 in
      let second =
        each-Safe limit (arbitrate_clock comps) _ arbitrate_clock-Safe r1 r2 first.0 e2 in
      let third = each-Safe limit (commit_clock comps) _ commit_clock-Safe r2 r3 second.0 e3 in
      let last = update_storages-Safe r3 r' third.0 h3 in
      Sound-trans limit r.machine r1.machine r'.machine first (
        Sound-trans limit r1.machine r2.machine r'.machine second
          (Sound-trans limit r2.machine r3.machine r'.machine third last))
