-- ===== src/Kernel/Step/Rule/Calls.antt =====
-- The calls of the delegates in a step, on a record that the components themselves do not see.
use mgsim.Base.{
  ℕ, ◌≡◌, ◌≢◌, refl, sym, ap, subst, ◌∙◌, some, List, [], ◌∷◌, ◌>>=◌, some-eq, >>=-eq-some,
}
use mgsim.Kernel.Activation.{RunState}
use mgsim.Kernel.Machine.{Request}
use mgsim.Kernel.Step.{
  Result, failed, delayed, success, CyclePhase, phase_acquire, phase_check, phase_commit,
  Components, Run,
}
use mgsim.Kernel.Step.Loop.{finished, step}
use mgsim.Kernel.Step.Rule.{Rule}
use mgsim.Kernel.Step.Rule.Steps.{step-Invariant}

pub record Call : Type 0 where
  pub phase : CyclePhase
  pub process : ℕ
  pub answer : Result

-- A call of the delegate in a phase, put on record in front of the ones before.
abbrev pub entry : CyclePhase → ℕ → Result → Call
entry phase p result = record { phase = phase; process = p; answer = result }

-- The records that may come about. The last call stands in front: an acquisition that is not delayed,
-- a check that fails, or a commit that succeeds directly behind a check of the same process that does.
pub data Protocol : List Call → Type 0 where
  nothing : Protocol []
  acquired_then :
      (p : ℕ) (result : Result) (l : List Call)
      → result ≢ delayed
      → Protocol l
      → Protocol (entry phase_acquire p result ∷ l)
  checked_then : (p : ℕ) (l : List Call) → Protocol l → Protocol (entry phase_check p failed ∷ l)
  committed_then :
      (p : ℕ) (l : List Call)
      → Protocol l
      → Protocol (entry phase_commit p success ∷ entry phase_check p success ∷ l)

module _ {E : Type 0} (comps : Components E) where
  -- The components, with the record.
  unfoldable pub recorded : Components (E × List Call)
  recorded = record {
    delegate = λ phase p now (w, l). (do
      (result, rs, w') ← comps.delegate phase p now w
      some (result, rs, (w', entry phase p result ∷ l)));
    on_arbitrate = λ a (w, l). (do w' ← comps.on_arbitrate a w; some (w', l));
    update = λ s (w, l). (do (rs, w') ← comps.update s w; some (rs, (w', l)));
  }

  -- What a call puts on record.
  recorded-entry :
      (phase : CyclePhase) (p now : ℕ) (w w' : E × List Call) (result : Result) (rs : List Request)
      → recorded.delegate phase p now w ≡ some (result, rs, w')
      → entry phase p result ∷ w.1 ≡ w'.1
  unfolding recorded
  recorded-entry phase p now w w' result rs h =
      let ((res, qs, v), e, h1) = >>=-eq-some (comps.delegate phase p now w.0) _ h in
      let same = some-eq refl h1 in
      let answer : res ≡ result = ap (λ (x : Result × List Request × (E × List Call)). x.0) same in
      let log = ap (λ (x : Result × List Request × (E × List Call)). x.2.1) same in
      ap (λ r. entry phase p r ∷ w.1) (sym answer) ∙ log

  recorded-Rule : Rule recorded (λ w. Protocol w.1)
  unfolding recorded
  recorded-Rule = record {
    acquires = λ p now w w' result rs i e n.
        subst Protocol (recorded-entry phase_acquire p now w w' result rs e)
          (acquired_then p result w.1 n i);
    waits = λ p now w w' rs i e.
        subst Protocol (recorded-entry phase_check p now w w' failed rs e) (checked_then p w.1 i);
    commits = λ p now later w w1 w2 rs rs' i e f.
        let first = recorded-entry phase_check p now w w1 success rs e in
        let second = recorded-entry phase_commit p later w1 w2 success rs' f in
        subst Protocol (ap (λ l. entry phase_commit p success ∷ l) first ∙ second)
          (committed_then p w.1 i);
    arbitrates = λ a w w' i e.
        let (v, f, g) = >>=-eq-some (comps.on_arbitrate a w.0) _ e in
        subst Protocol (ap (λ (x : E × List Call). x.1) (some-eq refl g)) i;
    updates = λ s w w' rs i e.
        let ((qs, v), f, g) = >>=-eq-some (comps.update s w.0) _ e in
        subst Protocol (ap (λ (x : List Request × (E × List Call)). x.1.1) (some-eq refl g)) i;
  }

  -- In a step that returns, the delegates of any components are called so: no commit but directly
  -- behind a successful check of its process, and behind every such check its commit, which succeeds;
  -- no check and no acquisition that the step goes on from is delayed.
  pub step-Protocol :
      (fuel cycles : ℕ) (r r' : Run (E × List Call)) (state : RunState)
      → Protocol r.world.1
      → step recorded fuel cycles r ≡ finished state r'
      → Protocol r'.world.1
  step-Protocol fuel cycles r r' state i h =
      step-Invariant recorded (λ w. Protocol w.1) recorded-Rule fuel cycles r r' state i h
