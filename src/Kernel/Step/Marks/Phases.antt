-- ===== src/Kernel/Step/Marks/Phases.antt =====
-- The phases of a cycle keep the marks in step with the calls on record.
use mgsim.Base.{
  ℕ, ◌≡◌, refl, sym, ap, subst, ◌∙◌, Bool, true, false, Option, some, List, ◌∷◌, ◌>>=◌, arith, inl,
  get_elem?, set, some-eq, >>=-eq-some,
}
use mgsim.Kernel.Activation.{Process, RunState, idle, active, running, deadlock, aborted}
use mgsim.Kernel.Machine.{Machine, Request, run_requests}
use mgsim.Kernel.Step.{
  Result, failed, delayed, success, CyclePhase, phase_acquire, phase_check, phase_commit,
  Components, Run, set_clock, set_process, call, acquired, acquire, arbitrate, committed, checked,
  commit_in, commit, update, phases,
}
use mgsim.Kernel.Step.Walk.{Kept, KeptLists, phases-Kept}
use mgsim.Kernel.Step.Marks.{
  Asked, asked, asked_abort, asked_stop, AbortedIn, StoppedIn, Cut, any_request, is_abort, is_stop,
  watched, Quiet, Marks, run_requests-Marks,
}

-- The record and the marks agree.
pub record Agrees (last : ℕ) (l : List Asked) (m : Machine) : Type 0 where
  pub cut : Cut last l
  pub here : AbortedIn m.kernel.cycle l
  pub past : StoppedIn last m.kernel.cycle l
  pub since : m.last_suspend ≡ last
  pub aborts : m.aborted ≡ asked_abort l
  pub stops : m.suspended ≡ asked_stop l

asked-Agrees :
    (last : ℕ) (rs : List Request) (l : List Asked) (m m' : Machine)
    → Agrees last l m
    → Marks (any_request is_abort rs) (any_request is_stop rs) m m'
    → Agrees last (asked m.kernel.cycle rs ∷ l) m'
unfolding asked_abort asked_stop asked
asked-Agrees last rs l m m' a k = record {
  cut = (a.here, a.past, a.cut);
  here = (λ e. sym k.now, subst (λ t. AbortedIn t l) (sym k.now) a.here);
  past = (λ e. inl (sym k.now), subst (λ t. StoppedIn last t l) (sym k.now) a.past);
  since = k.since ∙ a.since;
  aborts = ground (arith, a.aborts, k.aborted);
  stops = ground (arith, a.stops, k.suspended);
}

quiet-Agrees :
    (last : ℕ) (rs : List Request) (l : List Asked) (m m' : Machine)
    → Agrees last l m
    → Marks (any_request is_abort rs) (any_request is_stop rs) m m'
    → (any_request is_abort rs ≡ false) × (any_request is_stop rs ≡ false)
    → Agrees last l m'
quiet-Agrees last rs l m m' a k (e, f) = record {
  cut = a.cut;
  here = subst (λ t. AbortedIn t l) (sym k.now) a.here;
  past = subst (λ t. StoppedIn last t l) (sym k.now) a.past;
  since = k.since ∙ a.since;
  aborts = ground (arith, a.aborts, k.aborted, e);
  stops = ground (arith, a.stops, k.suspended, f);
}

module _ {E : Type 0} (last : ℕ) where
  abbrev pub Seen : Run (E × List Asked) → Type 0
  Seen r = Agrees last r.world.1 r.machine

  abbrev Keeps : (Run (E × List Asked) → Option (Run (E × List Asked))) → Type 0
  Keeps f = Kept Seen f

  -- A change of the processes or of the clocks' lists.
  set_process-Keeps :
      (p : ℕ) (f : Process → Process) (w : Bool) (r r' : Run (E × List Asked))
      → Seen r
      → (set_process p f r.machine >>= λ m. some (record r { worked = w; machine = m })) ≡ some r'
      → Seen r'
  unfolding set_process
  set_process-Keeps p f w r r' i h =
      let (m, e, h1) = >>=-eq-some (set_process p f r.machine) _ h in
      let (x, e1, h2) = >>=-eq-some (get_elem? r.machine.processes p) _ e in
      subst Seen (some-eq refl h1) (
        subst (λ m. Agrees last r.world.1 m) (some-eq refl h2)
          (record {
            cut = i.cut;
            here = i.here;
            past = i.past;
            since = i.since;
            aborts = i.aborts;
            stops = i.stops;
          }))

  set_clock-Keeps : KeptLists Seen
  unfolding set_clock
  set_clock-Keeps c f r r' i h =
      let (m, e, h1) = >>=-eq-some (set_clock c f r.machine) _ h in
      let (x, e1, h2) = >>=-eq-some (get_elem? r.machine.kernel.clocks c) _ e in
      subst Seen (some-eq refl h1) (
        subst (λ m. Agrees last r.world.1 m) (some-eq refl h2)
          (record {
            cut = i.cut;
            here = i.here;
            past = i.past;
            since = i.since;
            aborts = i.aborts;
            stops = i.stops;
          }))

module _ {E : Type 0} (last : ℕ) (comps : Components E) (quiet : Quiet comps) where
  -- What a call puts on record.
  watched-asked :
      (phase : CyclePhase) (p now : ℕ) (w w' : E × List Asked) (result : Result) (rs : List Request)
      → (watched comps).delegate phase p now w ≡ some (result, rs, w')
      → asked now rs ∷ w.1 ≡ w'.1
  unfolding watched
  watched-asked phase p now w w' result rs h =
      let ((res, qs, v), e, h1) = >>=-eq-some (comps.delegate phase p now w.0) _ h in
      let same = some-eq refl h1 in
      let made : qs ≡ rs = ap (λ (x : Result × List Request × (E × List Asked)). x.1) same in
      let log = ap (λ (x : Result × List Request × (E × List Asked)). x.2.1) same in
      ap (λ q. asked now q ∷ w.1) (sym made) ∙ log

  call-Keeps :
      (phase : CyclePhase) (p : ℕ) (result : Result) (r r' : Run (E × List Asked))
      → Seen last r
      → call (watched comps) phase p r ≡ some (result, r')
      → Seen last r'
  unfolding call
  call-Keeps phase p result r r' i h =
      let now = r.machine.kernel.cycle in
      let ((res, rs, w), e, h1) = >>=-eq-some ((watched comps).delegate phase p now r.world) _ h in
      let (m, f, h2) = >>=-eq-some (run_requests rs r.machine) _ h1 in
      let left = ap (λ (x : Result × Run (E × List Asked)). x.1) (some-eq refl h2) in
      subst (Seen last) left (
        subst (λ l. Agrees last l m) (watched-asked phase p now r.world w res rs e)
          (asked-Agrees last rs r.world.1 r.machine m i (run_requests-Marks rs r.machine m f)))

  acquire-Keeps : (p : ℕ) → Keeps last (acquire (watched comps) p)
  unfolding acquire acquired
  acquire-Keeps p r r' i h =
      let ((result, r1), e, h1) = >>=-eq-some (call (watched comps) phase_acquire p r) _ h in
      after result r1 (call-Keeps phase_acquire p result r r1 i e) h1
    where
      after :
          (result : Result) (r1 : Run (E × List Asked))
          → Seen last r1
          → acquired (watched comps) result p r1 ≡ some r'
          → Seen last r'
      after success r1 i h = set_process-Keeps last p _ r1.worked r1 r' i h
      after failed r1 i h = set_process-Keeps last p _ r1.worked r1 r' i h
      after delayed r1 i h = absurd (cc)

  committed-Keeps : (result : Result) (p : ℕ) → Keeps last (committed (watched comps) result p)
  unfolding committed
  committed-Keeps success p r r' i h = set_process-Keeps last p _ true r r' i h
  committed-Keeps failed p r r' i h = absurd (cc)
  committed-Keeps delayed p r r' i h = absurd (cc)

  checked-Keeps : (result : Result) (p : ℕ) → Keeps last (checked (watched comps) result p)
  unfolding checked
  checked-Keeps success p r r' i h =
      let ((result, r1), e, h1) = >>=-eq-some (call (watched comps) phase_commit p r) _ h in
      committed-Keeps result p r1 r' (call-Keeps phase_commit p result r r1 i e) h1
  checked-Keeps failed p r r' i h = set_process-Keeps last p _ r.worked r r' i h
  checked-Keeps delayed p r r' i h = absurd (cc)

  check-Keeps :
      (p : ℕ)
      → Keeps last (λ r. do
        (result, r') ← call (watched comps) phase_check p r
        checked (watched comps) result p r')
  check-Keeps p r r' i h =
      let ((result, r1), e, h1) = >>=-eq-some (call (watched comps) phase_check p r) _ h in
      checked-Keeps result p r1 r' (call-Keeps phase_check p result r r1 i e) h1

  commit_in-Keeps : (state : RunState) (p : ℕ) → Keeps last (commit_in (watched comps) state p)
  unfolding commit_in
  commit_in-Keeps deadlock p r r' i h = subst (Seen last) (some-eq refl h) i
  commit_in-Keeps idle p r r' i h = check-Keeps p r r' i h
  commit_in-Keeps active p r r' i h = check-Keeps p r r' i h
  commit_in-Keeps running p r r' i h = check-Keeps p r r' i h
  commit_in-Keeps aborted p r r' i h = check-Keeps p r r' i h

  commit-Keeps : (p : ℕ) → Keeps last (commit (watched comps) p)
  unfolding commit
  commit-Keeps p r r' i h =
      let (x, e, h1) = >>=-eq-some (get_elem? r.machine.processes p) _ h in
      commit_in-Keeps x.state p r r' i h1

  arbitrate-Keeps : (a : ℕ) → Keeps last (arbitrate (watched comps) a)
  unfolding arbitrate watched
  arbitrate-Keeps a r r' i h =
      let (w, e, h1) = >>=-eq-some ((watched comps).on_arbitrate a r.world) _ h in
      let (v, e1, h2) = >>=-eq-some (comps.on_arbitrate a r.world.0) _ e in
      let log = ap (λ (x : E × List Asked). x.1) (some-eq refl h2) in
      let m = r.machine in
      let m' : Machine = record m { arbitrators = set m.arbitrators a false } in
      subst (Seen last) (some-eq refl h1) (
        subst (λ l. Agrees last l m') log
          (record {
            cut = i.cut;
            here = i.here;
            past = i.past;
            since = i.since;
            aborts = i.aborts;
            stops = i.stops;
          }))

  update-Keeps : (s : ℕ) → Keeps last (update (watched comps) s)
  unfolding update watched
  update-Keeps s r r' i h =
      let ((rs, w), e, h1) = >>=-eq-some ((watched comps).update s r.world) _ h in
      let ((qs, v), e1, h2) = >>=-eq-some (comps.update s r.world.0) _ e in
      let (m, f, h3) = >>=-eq-some (run_requests rs r.machine) _ h1 in
      let made : qs ≡ rs = ap (λ (x : List Request × (E × List Asked)). x.0) (some-eq refl h2) in
      let log = ap (λ (x : List Request × (E × List Asked)). x.1.1) (some-eq refl h2) in
      let calm =
        subst (λ rs. (any_request is_abort rs ≡ false) × (any_request is_stop rs ≡ false)) made
          (quiet s r.world.0 v qs e1) in
      let a =
        quiet-Agrees last rs r.world.1 r.machine m i (run_requests-Marks rs r.machine m f) calm in
      let m' : Machine = record m { storages = set m.storages s false } in
      subst (Seen last) (some-eq refl h3) (
        subst (λ l. Agrees last l m') log
          (record {
            cut = a.cut;
            here = a.here;
            past = a.past;
            since = a.since;
            aborts = a.aborts;
            stops = a.stops;
          }))

  pub phases-Keeps : Keeps last (phases (watched comps))
  phases-Keeps =
      phases-Kept (Seen last) (watched comps) (set_clock-Keeps last) update-Keeps acquire-Keeps
        arbitrate-Keeps commit-Keeps
