-- ===== src/Kernel/Machine/Requests.antt =====
-- The requests keep the kernel sound.
use mgsim.Base.{
  ℕ, ◌+◌, ◌-◌, ◌%◌, ◌≡◌, refl, sym, ap, subst, ◌∙◌, true, some, List, [], ◌∷◌, map, ◌==◌, ◌>>=◌,
  zero, suc, get_elem?, set, Bool-cases, inl, inr, some-eq, >>=-eq-some,
}
use mgsim.Kernel.{Clock, Kernel}
use mgsim.Kernel.Schedule.Alike.{Same}
use mgsim.Kernel.Activation.{RunQueue, activate_process, unsigned_int}
use mgsim.Kernel.Activation.Counts.{remove-In}
use mgsim.Kernel.Machine.{
  Machine, Request, request_arbitration, register_update, notify, unnotify, abort, stop,
  activate_with, arbitrate_later, update_later, start_process, unlist, stop_process, run_request,
  run_requests,
}
use mgsim.Kernel.Machine.Sound.{
  HasWork, IsSound, Keeps, Keeps-refl, Keeps-trans, change-IsSound, activate_with-IsSound,
}

-- The kernel behind is sound and keeps what it must.
abbrev pub Sound : ℕ → Machine → Machine → Type 0
Sound limit m m' = IsSound limit m'.kernel × Keeps m.kernel m'.kernel

-- Work is put on a list of clock `i`.
placed-Sound :
    {limit : ℕ} (i : ℕ) (c c' : Clock) (m m' : Machine) (f : Kernel → Machine)
    → ((k : Kernel) → (f k).kernel ≡ k)
    → IsSound limit m.kernel
    → get_elem? m.kernel.clocks i ≡ some c
    → Same c c'
    → (activate_with i c' m.kernel >>= λ k. some (f k)) ≡ some m'
    → Sound limit m m'
placed-Sound {limit = limit} i c c' m m' f at s e same h =
    let (k, made, eq) = >>=-eq-some (activate_with i c' m.kernel) (λ k. some (f k)) h in
    let result : k ≡ m'.kernel = sym (at k) ∙ ap (λ (m : Machine). m.kernel) (some-eq refl eq) in
    subst (λ k. IsSound limit k × Keeps m.kernel k) result
      (activate_with-IsSound i c c' m.kernel k s e same made)

pub unmoved-Sound :
    {limit : ℕ} (m m0 m' : Machine)
    → IsSound limit m.kernel
    → m0.kernel ≡ m.kernel
    → some m0 ≡ some m'
    → Sound limit m m'
unmoved-Sound {limit = limit} m m0 m' s e h =
    let same : m.kernel ≡ m'.kernel = sym e ∙ ap (λ (m : Machine). m.kernel) (some-eq refl h) in
    subst (λ k. IsSound limit k × Keeps m.kernel k) same (s, Keeps-refl m.kernel)

arbitrate_later-Sound :
    {limit : ℕ} (i a : ℕ) (m m' : Machine)
    → IsSound limit m.kernel
    → arbitrate_later i a m ≡ some m'
    → Sound limit m m'
unfolding arbitrate_later
arbitrate_later-Sound {limit = limit} i a m m' s h =
    let (c, e, h1) = >>=-eq-some (get_elem? m.kernel.clocks i) _ h in
    let (on, f, h2) = >>=-eq-some (get_elem? m.arbitrators a) _ h1 in
    elim (Bool-cases on) [
      | inl y ↦ unmoved-Sound m m m' s refl (rw y at h2)
      | inr n ↦
          placed-Sound i c (record c { active_arbitrators = a ∷ c.active_arbitrators }) m m'
            (λ k. record m { kernel = k; arbitrators = set m.arbitrators a true }) (λ k. refl) s e
            (record { period = refl; activated = refl; cycle = refl }) (rw n at h2)
    ]

update_later-Sound :
    {limit : ℕ} (i x : ℕ) (m m' : Machine)
    → IsSound limit m.kernel
    → update_later i x m ≡ some m'
    → Sound limit m m'
unfolding update_later
update_later-Sound {limit = limit} i x m m' s h =
    let (c, e, h1) = >>=-eq-some (get_elem? m.kernel.clocks i) _ h in
    let (on, f, h2) = >>=-eq-some (get_elem? m.storages x) _ h1 in
    elim (Bool-cases on) [
      | inl y ↦ unmoved-Sound m m m' s refl (rw y at h2)
      | inr n ↦
          placed-Sound i c (record c { active_storages = x ∷ c.active_storages }) m m'
            (λ k. record m { kernel = k; storages = set m.storages x true }) (λ k. refl) s e
            (record { period = refl; activated = refl; cycle = refl }) (rw n at h2)
    ]

start_process-Sound :
    {limit : ℕ} (i p : ℕ) (m m' : Machine)
    → IsSound limit m.kernel
    → start_process i p m ≡ some m'
    → Sound limit m m'
unfolding start_process
start_process-Sound {limit = limit} i p m m' s h =
    let (c, e, h1) = >>=-eq-some (get_elem? m.kernel.clocks i) _ h in
    let queue : RunQueue = record { processes = m.processes; queue = c.active_processes } in
    let ((first, q), f, h2) = >>=-eq-some (activate_process p queue) _ h1 in
    elim (Bool-cases first) [
      | inl y ↦
          placed-Sound i c (record c { active_processes = q.queue }) m m'
            (λ k. record m { kernel = k; processes = q.processes }) (λ k. refl) s e
            (record { period = refl; activated = refl; cycle = refl }) (rw y at h2)
      | inr n ↦ unmoved-Sound m (record m { processes = q.processes }) m' s refl (rw n at h2)
    ]

-- A map of the clocks.
get_elem?-map :
    (f : Clock → Clock) (cs : List Clock) (i : ℕ) (c : Clock)
    → get_elem? cs i ≡ some c
    → get_elem? (map f cs) i ≡ some (f c)
get_elem?-map f [] i c e = absurd (cc)
get_elem?-map f (x ∷ cs) zero c e = ap (λ c. some (f c)) (some-eq refl e)
get_elem?-map f (x ∷ cs) (suc i) c e = get_elem?-map f cs i c e

map-get_elem? :
    (f : Clock → Clock) (cs : List Clock) (i : ℕ) (d : Clock)
    → get_elem? (map f cs) i ≡ some d
    → (c : Clock) × (get_elem? cs i ≡ some c) × (d ≡ f c)
map-get_elem? f [] i d e = absurd (cc)
map-get_elem? f (x ∷ cs) zero d e = (x, refl, some-eq e refl)
map-get_elem? f (x ∷ cs) (suc i) d e = map-get_elem? f cs i d e

unlist-Sound :
    {limit : ℕ} (p : ℕ) (k : Kernel)
    → IsSound limit k
    → IsSound limit (unlist p k) × Keeps k (unlist p k)
unfolding unlist
unlist-Sound {limit = limit} p k s =
    change-IsSound k _ s
      (record {
        forth = λ i c e. (
          _,
          get_elem?-map _ k.clocks i c e,
          record { period = refl; activated = refl; cycle = refl },
        );
        back = λ i d e.
            let (c, f, g) = map-get_elem? _ k.clocks i d e in
            (
              c,
              f,
              subst (λ d. Same c d) (sym g)
                  (record { period = refl; activated = refl; cycle = refl }),
            );
      })
      (λ i d e w.
        let (c, f, g) = map-get_elem? _ k.clocks i d e in
        ap (λ (d : Clock). d.activated) g
        ∙ s.awake i c f (record {
          object = w.object;
          listed = elim (subst (λ d. HasWork d) g w).listed [
            | inl h ↦ inl (remove-In p _ _ h)
            | inr h ↦ inr h
          ];
        }))

stop_process-Sound :
    {limit : ℕ} (p : ℕ) (m m' : Machine)
    → IsSound limit m.kernel
    → stop_process p m ≡ some m'
    → Sound limit m m'
unfolding stop_process
stop_process-Sound {limit = limit} p m m' s h =
    let (x, e, h1) = >>=-eq-some (get_elem? m.processes p) _ h in
    elim (Bool-cases ((x.activations + unsigned_int - 1) % unsigned_int == 0)) [
      | inl y ↦
          let same : unlist p m.kernel ≡ m'.kernel =
            ap (λ (m : Machine). m.kernel) (some-eq refl (rw y at h1)) in
          subst (λ k. IsSound limit k × Keeps m.kernel k) same (unlist-Sound p m.kernel s)
      | inr n ↦ unmoved-Sound m _ m' s refl (rw n at h1)
    ]

pub run_request-Sound :
    {limit : ℕ} (r : Request) (m m' : Machine)
    → IsSound limit m.kernel
    → run_request r m ≡ some m'
    → Sound limit m m'
unfolding run_request
run_request-Sound {limit = limit} (request_arbitration i a) m m' s h =
    arbitrate_later-Sound i a m m' s h
run_request-Sound {limit = limit} (register_update i x) m m' s h = update_later-Sound i x m m' s h
run_request-Sound {limit = limit} (notify i p) m m' s h = start_process-Sound i p m m' s h
run_request-Sound {limit = limit} (unnotify p) m m' s h = stop_process-Sound p m m' s h
run_request-Sound abort m m' s h = unmoved-Sound m (record m { aborted = true }) m' s refl h
run_request-Sound stop m m' s h = unmoved-Sound m (record m { suspended = true }) m' s refl h

-- Requests in any number and order, on a sound kernel: it stays sound, in its cycle, and no clock
-- that is to run is put off.
pub run_requests-Sound :
    {limit : ℕ} (rs : List Request) (m m' : Machine)
    → IsSound limit m.kernel
    → run_requests rs m ≡ some m'
    → Sound limit m m'
unfolding run_requests
run_requests-Sound {limit = limit} [] m m' s h = unmoved-Sound m m m' s refl h
run_requests-Sound {limit = limit} (r ∷ rs) m m' s h =
    let (m1, e, h1) = >>=-eq-some (run_request r m) _ h in
    let (s1, k1) = run_request-Sound r m m1 s e in
    let (s2, k2) = run_requests-Sound rs m1 m' s1 h1 in
    (s2, Keeps-trans m.kernel m1.kernel m'.kernel k1 k2)
