-- ===== src/Kernel/Step/Marks.antt =====
-- The marks of `Kernel::Abort` and `Kernel::Stop` (sim/kernel.cpp) over the calls of a step. A record,
-- which the components do not see, keeps what the delegates ask for and in which cycle.
pub mod Phases
pub mod Answers
pub mod Steps
use mgsim.Base.{
  ℕ, ◌≡◌, refl, sym, ap, subst, ◌∙◌, Bool, true, false, ◌||◌, Option, some, List, [], ◌∷◌, ◌>>=◌,
  arith, get_elem?, some-eq, >>=-eq-some, Bool-cases, inl, inr, ◌⊎◌,
}
use mgsim.Kernel.{Clock, Kernel}
use mgsim.Kernel.Schedule.{activate_clock}
use mgsim.Kernel.Activation.{activate_process, RunQueue}
use mgsim.Kernel.Machine.{
  Machine, Request, request_arbitration, register_update, notify, unnotify, abort, stop,
  activate_with, arbitrate_later, update_later, start_process, unlist, stop_process, run_request,
  run_requests,
}
use mgsim.Kernel.Step.{Result, CyclePhase, Components}

-- Do the requests hold one of this kind?
unfoldable pub is_abort : Request → Bool
is_abort abort = true
is_abort _ = false

unfoldable pub is_stop : Request → Bool
is_stop stop = true
is_stop _ = false

unfoldable pub any_request : (Request → Bool) → List Request → Bool
any_request f [] = false
any_request f (r ∷ rs) = f r || any_request f rs

-- What a call of a delegate has asked for.
pub record Asked : Type 0 where
  pub cycle : ℕ
  pub aborts : Bool
  pub stops : Bool

unfoldable pub asked : ℕ → List Request → Asked
unfolding any_request
asked now rs = record {
  cycle = now;
  aborts = any_request is_abort rs;
  stops = any_request is_stop rs;
}

-- Has a call on record asked?
unfoldable pub asked_abort : List Asked → Bool
asked_abort [] = false
asked_abort (x ∷ l) = x.aborts || asked_abort l

unfoldable pub asked_stop : List Asked → Bool
asked_stop [] = false
asked_stop (x ∷ l) = x.stops || asked_stop l

-- The calls that have asked for `Abort` were made in this cycle.
abbrev pub AbortedIn : ℕ → List Asked → Type 0
AbortedIn now [] = Unit
AbortedIn now (x ∷ l) = (x.aborts ≡ true → x.cycle ≡ now) × AbortedIn now l

-- Those that have asked for `Stop` too, but for the cycle of the last suspension.
abbrev pub StoppedIn : ℕ → ℕ → List Asked → Type 0
StoppedIn last now [] = Unit
StoppedIn last now (x ∷ l) =
    (x.stops ≡ true → (x.cycle ≡ now) ⊎ (now ≡ last)) × StoppedIn last now l

-- The last call stands in front. Behind a call that asks for `Abort` there are calls in its cycle only;
-- behind one that asks for `Stop`, in its cycle and in that of the last suspension.
abbrev pub Cut : ℕ → List Asked → Type 0
Cut last [] = Unit
Cut last (x ∷ l) = AbortedIn x.cycle l × StoppedIn last x.cycle l × Cut last l

module _ {E : Type 0} (comps : Components E) where
  -- The components, with the record.
  unfoldable pub watched : Components (E × List Asked)
  unfolding asked
  watched = record {
    delegate = λ phase p now (w, l). (do
      (result, rs, w') ← comps.delegate phase p now w
      some (result, rs, (w', asked now rs ∷ l)));
    on_arbitrate = λ a (w, l). (do w' ← comps.on_arbitrate a w; some (w', l));
    update = λ s (w, l). (do (rs, w') ← comps.update s w; some (rs, (w', l)));
  }

  -- No update of a storage asks for `Abort` or `Stop`.
  abbrev pub Quiet : Type 0
  Quiet =
      (s : ℕ) (w w' : E) (rs : List Request)
      → comps.update s w ≡ some (rs, w')
      → (any_request is_abort rs ≡ false) × (any_request is_stop rs ≡ false)

-- What requests do to the marks and to the time.
pub record Marks (aborts stops : Bool) (m m' : Machine) : Type 0 where
  pub now : m'.kernel.cycle ≡ m.kernel.cycle
  pub aborted : m'.aborted ≡ m.aborted || aborts
  pub suspended : m'.suspended ≡ m.suspended || stops
  pub since : m'.last_suspend ≡ m.last_suspend

activate_clock-now : (i : ℕ) (k k' : Kernel) → activate_clock i k ≡ some k' → k'.cycle ≡ k.cycle
unfolding activate_clock
activate_clock-now i k k' h = ground arith

activate_with-now :
    (i : ℕ) (c : Clock) (k k' : Kernel) → activate_with i c k ≡ some k' → k'.cycle ≡ k.cycle
unfolding activate_with
activate_with-now i c k k' h = activate_clock-now i _ k' h

-- A request that is neither.
marked :
    (m m' : Machine)
    → m'.kernel.cycle ≡ m.kernel.cycle
    → m'.aborted ≡ m.aborted
    → m'.suspended ≡ m.suspended
    → m'.last_suspend ≡ m.last_suspend
    → Marks false false m m'
marked m m' e f g h = record {
  now = e;
  aborted = ground (arith, f);
  suspended = ground (arith, g);
  since = h;
}

same-Marks : (m m' : Machine) → some m ≡ some m' → Marks false false m m'
same-Marks m m' h = subst (Marks false false m) (some-eq refl h) (marked m m refl refl refl refl)

-- A clock is activated.
woken-Marks :
    (i : ℕ) (c : Clock) (m m' : Machine) (f : Kernel → Machine)
    → ((k : Kernel)
        → ((f k).kernel ≡ k)
          × ((f k).aborted ≡ m.aborted)
          × ((f k).suspended ≡ m.suspended)
          × ((f k).last_suspend ≡ m.last_suspend))
    → (activate_with i c m.kernel >>= λ k. some (f k)) ≡ some m'
    → Marks false false m m'
woken-Marks i c m m' f same h =
    let (k, e, h1) = >>=-eq-some (activate_with i c m.kernel) _ h in
    let (at, a, b, l) = same k in
    subst (Marks false false m) (some-eq refl h1)
      (marked m (f k) (ap (λ (k : Kernel). k.cycle) at ∙ activate_with-now i c m.kernel k e) a b l)

arbitrate_later-Marks :
    (i a : ℕ) (m m' : Machine) → arbitrate_later i a m ≡ some m' → Marks false false m m'
unfolding arbitrate_later
arbitrate_later-Marks i a m m' h =
    let (c, e, h1) = >>=-eq-some (get_elem? m.kernel.clocks i) _ h in
    let (on, f, h2) = >>=-eq-some (get_elem? m.arbitrators a) _ h1 in
    elim (Bool-cases on) [
      | inl t ↦ same-Marks m m' (rw t at h2)
      | inr t ↦ woken-Marks i _ m m' _ (λ k. (refl, refl, refl, refl)) (rw t at h2)
    ]

update_later-Marks :
    (i s : ℕ) (m m' : Machine) → update_later i s m ≡ some m' → Marks false false m m'
unfolding update_later
update_later-Marks i s m m' h =
    let (c, e, h1) = >>=-eq-some (get_elem? m.kernel.clocks i) _ h in
    let (on, f, h2) = >>=-eq-some (get_elem? m.storages s) _ h1 in
    elim (Bool-cases on) [
      | inl t ↦ same-Marks m m' (rw t at h2)
      | inr t ↦ woken-Marks i _ m m' _ (λ k. (refl, refl, refl, refl)) (rw t at h2)
    ]

start_process-Marks :
    (i p : ℕ) (m m' : Machine) → start_process i p m ≡ some m' → Marks false false m m'
unfolding start_process
start_process-Marks i p m m' h =
    let (c, e, h1) = >>=-eq-some (get_elem? m.kernel.clocks i) _ h in
    let ((first, q), f, h2) =
      >>=-eq-some
        (activate_process p (record { processes = m.processes; queue = c.active_processes })) _
        h1 in
    elim (Bool-cases first) [
      | inl t ↦ woken-Marks i _ m m' _ (λ k. (refl, refl, refl, refl)) (rw t at h2)
      | inr t ↦
          subst (Marks false false m) (some-eq refl (rw t at h2))
            (marked m (record m { processes = q.processes }) refl refl refl refl)
    ]

stop_process-Marks : (p : ℕ) (m m' : Machine) → stop_process p m ≡ some m' → Marks false false m m'
unfolding stop_process unlist
stop_process-Marks p m m' h = ground arith

run_request-Marks :
    (r : Request) (m m' : Machine) → run_request r m ≡ some m' → Marks (is_abort r) (is_stop r) m m'
unfolding run_request is_abort is_stop
run_request-Marks (request_arbitration i a) m m' h = arbitrate_later-Marks i a m m' h
run_request-Marks (register_update i s) m m' h = update_later-Marks i s m m' h
run_request-Marks (notify i p) m m' h = start_process-Marks i p m m' h
run_request-Marks (unnotify p) m m' h = stop_process-Marks p m m' h
run_request-Marks abort m m' h = ground arith
run_request-Marks stop m m' h = ground arith

pub run_requests-Marks :
    (rs : List Request) (m m' : Machine)
    → run_requests rs m ≡ some m'
    → Marks (any_request is_abort rs) (any_request is_stop rs) m m'
unfolding run_requests any_request
run_requests-Marks [] m m' h = ground arith
run_requests-Marks (r ∷ rs) m m' h =
    let (m1, e, h1) = >>=-eq-some (run_request r m) _ h in
    ground (arith, run_request-Marks r m m1 e, run_requests-Marks rs m1 m' h1)
