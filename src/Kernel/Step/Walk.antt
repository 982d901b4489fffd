-- ===== src/Kernel/Step/Walk.antt =====
-- The walks of a cycle over the clocks that are due and over their lists, for an invariant of a run that
-- each call keeps.
use mgsim.Base.{
  ℕ, ◌≡◌, refl, subst, Option, some, List, [], ◌∷◌, ◌>>=◌, get_elem?, some-eq, >>=-eq-some,
}
use mgsim.Kernel.{Clock}
use mgsim.Kernel.Advance.{each, due}
use mgsim.Kernel.Step.{
  Components, Run, set_clock, acquire, arbitrate, commit, update, acquire_clock, arbitrate_clock,
  commit_clock, update_clock, update_storages, phases,
}

module _ {E : Type 0} (J : Run E → Type 0) where
  -- A call that keeps the invariant.
  abbrev pub Kept : (Run E → Option (Run E)) → Type 0
  Kept f = (r r' : Run E) → J r → f r ≡ some r' → J r'

  -- A change of a clock's list.
  abbrev pub KeptLists : Type 0
  KeptLists =
      (i : ℕ) (g : Clock → Clock)
      → Kept (λ r. do m ← set_clock i g r.machine; some (record r { machine = m }))

  each-Kept :
      (f : ℕ → Run E → Option (Run E)) (l : List ℕ) → ((x : ℕ) → Kept (f x)) → Kept (each f l)
  unfolding each
  each-Kept f [] keeps r r' i h = subst J (some-eq refl h) i
  each-Kept f (x ∷ xs) keeps r r' i h =
      let (r1, e, h1) = >>=-eq-some (f x r) _ h in each-Kept f xs keeps r1 r' (keeps x r r1 i e) h1

  listed-Kept :
      (i : ℕ) (list : Clock → List ℕ) (f : ℕ → Run E → Option (Run E))
      → ((x : ℕ) → Kept (f x))
      → Kept (λ r. do c ← get_elem? r.machine.kernel.clocks i; each f (list c) r)
  listed-Kept i list f keeps r r' j h =
      let (c, e, h1) = >>=-eq-some (get_elem? r.machine.kernel.clocks i) _ h in
      each-Kept f (list c) keeps r r' j h1

  cleared-Kept :
      (i : ℕ) (list : Clock → List ℕ) (g : Clock → Clock) (f : ℕ → Run E → Option (Run E))
      → KeptLists
      → ((x : ℕ) → Kept (f x))
      → Kept (λ r. do
        c ← get_elem? r.machine.kernel.clocks i
        r' ← each f (list c) r
        m ← set_clock i g r'.machine
        some (record r' { machine = m }))
  cleared-Kept i list g f lists keeps r r' j h =
      let (c, e, h1) = >>=-eq-some (get_elem? r.machine.kernel.clocks i) _ h in
      let (r1, e1, h2) = >>=-eq-some (each f (list c) r) _ h1 in
      lists i g r1 r' (each-Kept f (list c) keeps r r1 j e1) h2

  module _ (comps : Components E) (lists : KeptLists)
      (updates : (s : ℕ) → Kept (update comps s)) where
    pub update_storages-Kept : Kept (update_storages comps)
    unfolding update_storages update_clock
    update_storages-Kept r r' j h =
        each-Kept (update_clock comps) (due r.machine.kernel)
          (λ i. cleared-Kept i (λ c. c.active_storages) _ (update comps) lists updates) r r' j h

    pub phases-Kept :
        ((p : ℕ) → Kept (acquire comps p))
        → ((a : ℕ) → Kept (arbitrate comps a))
        → ((p : ℕ) → Kept (commit comps p))
        → Kept (phases comps)
    unfolding phases acquire_clock arbitrate_clock commit_clock
    phases-Kept acquires arbitrates commits r r' j h =
        let (r1, e1, h1) = >>=-eq-some (each (acquire_clock comps) (due r.machine.kernel) r) _ h in
        let (r2, e2, h2) =
          >>=-eq-some (each (arbitrate_clock comps) (due r1.machine.kernel) r1) _ h1 in
        let (r3, e3, h3) =
          >>=-eq-some (each (commit_clock comps) (due r2.machine.kernel) r2) _ h2 in
        let j1 =
          each-Kept (acquire_clock comps) (due r.machine.kernel)
            (λ i. listed-Kept i (λ c. c.active_processes) (acquire comps) acquires) r r1 j e1 in
        let j2 =
          each-Kept (arbitrate_clock comps) (due r1.machine.kernel)
            (λ i. cleared-Kept i (λ c. c.active_arbitrators) _ (arbitrate comps) lists arbitrates)
            r1 r2 j1 e2 in
        let j3 =
          each-Kept (commit_clock comps) (due r2.machine.kernel)
            (λ i. listed-Kept i (λ c. c.active_processes) (commit comps) commits) r2 r3 j2 e3 in
        update_storages-Kept r3 r' j3 h3
