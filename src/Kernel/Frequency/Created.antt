-- ===== src/Kernel/Frequency/Created.antt =====
-- sim/kernel.cpp, `Kernel::CreateClock`: the clocks after a call.
use Prim.Native.Nat.{◌∣◌}
use native.Mathlib.Nat
use mgsim.Base.{
  ℕ, ◌*◌, ◌/◌, ◌<◌, max, ◌≡◌, refl, ap, ◌∙◌, some, List, [], ◌∷◌, ◌++◌, arith, ◌==◌, if◌then◌else◌,
  length, get_elem?, Bool-cases, inl, inr, lt→ltb,
}
use mgsim.Kernel.{Clock, Kernel, new_clock}
use mgsim.Kernel.Gcd.{lcm, lcm_least}
use mgsim.Kernel.Frequency.{found, multiple, scan, retune, add_clock, create_clock}
use mgsim.Kernel.Frequency.Tuned.{
  AllDivide, AllTuned, NoWrap, AllPositive, AllTuned-AllPositive, IsMultiple, scan_cases,
  retune-AllTuned, IsTuned, frequencies, HasClock,
}

AllTuned-append :
    (m : ℕ) (cs : List Clock) (c : Clock)
    → AllTuned m cs
    → 0 < c.frequency
    → c.period * c.frequency ≡ m
    → AllTuned m (cs ++ c ∷ [])
AllTuned-append m [] c t h e = (h, e, tt)
AllTuned-append m (d ∷ cs) c t h e = (t.0, t.1, AllTuned-append m cs c t.2 h e)

AllDivide-append :
    (cs : List Clock) (c : Clock) (x : ℕ)
    → AllDivide (cs ++ c ∷ []) x
    → AllDivide cs x × (c.frequency ∣ x)
AllDivide-append [] c x h = (tt, h.0)
AllDivide-append (d ∷ cs) c x h = let (a, b) = AllDivide-append cs c x h.1 in ((h.0, a), b)

AllDivide-map :
    (cs ds : List Clock) (x : ℕ) → frequencies cs ≡ frequencies ds → AllDivide cs x → AllDivide ds x
AllDivide-map cs [] x e h = tt
AllDivide-map [] (d ∷ ds) x e h = absurd (cc)
AllDivide-map (c ∷ cs) (d ∷ ds) x e h =
    let first : c.frequency ≡ d.frequency = ground arith in
    (rw first at h.0, AllDivide-map cs ds x (ground arith) h.1)

get_elem?-length : (cs : List Clock) (c : Clock) → get_elem? (cs ++ c ∷ []) (length cs) ≡ some c
get_elem?-length [] c = refl
get_elem?-length (d ∷ cs) c = get_elem?-length cs c

-- The clocks behind the loop that updates the periods.
tuned_clocks :
    (k : Kernel) (master : ℕ)
    → IsTuned k
    → 0 < master
    → AllPositive k.clocks
    → AllDivide k.clocks master
    → (cs : List Clock) × ((if k.master_freq == master
          then some k.clocks
          else retune master k.clocks)
        ≡ some cs)
      × AllTuned master cs
      × (frequencies cs ≡ frequencies k.clocks)
tuned_clocks k master t pm ps ds = elim (Bool-cases (k.master_freq == master)) [
  | inl e ↦
      let same : k.master_freq ≡ master = ground arith in (k.clocks, rw e, rw same at t.tuned, refl)
  | inr e ↦ let (cs, r, a, m) = retune-AllTuned master k.clocks pm ps ds in (cs, rw (e, r), a, m)
]

AllDivide-trans : (cs : List Clock) (x y : ℕ) → AllDivide cs x → x ∣ y → AllDivide cs y
AllDivide-trans [] x y h d = tt
AllDivide-trans (c ∷ cs) x y h d = (Nat.dvd_trans c.frequency h.0 d, AllDivide-trans cs x y h.1 d)

map-append_one :
    (cs : List Clock) (c : Clock) → frequencies (cs ++ c ∷ []) ≡ frequencies cs ++ c.frequency ∷ []
map-append_one [] c = refl
map-append_one (d ∷ cs) c = ap (λ r. d.frequency ∷ r) (map-append_one cs c)

add_clock-IsTuned :
    (f r : ℕ) (k : Kernel)
    → 0 < f
    → IsTuned k
    → IsMultiple f 1 k.clocks r
    → (i : ℕ) × (k' : Kernel) × (add_clock f (lcm r f) k ≡ some (i, k'))
      × IsTuned k'
      × HasClock f i k k'
unfolding add_clock
add_clock-IsTuned f r k pf t m =
    let (l, d, p, least) = lcm_least r f m.positive pf m.fits in
    let (cs, e, a, q) =
      tuned_clocks k (lcm r f) t p (AllTuned-AllPositive k.master_freq k.clocks t.tuned)
        (AllDivide-trans k.clocks r (lcm r f) m.all l) in
    let c = new_clock f (lcm r f / f) in
    (
      length cs,
      record k { master_freq = lcm r f; clocks = cs ++ c ∷ [] },
      rw (e, Nat.mod-eq-zero_of_dvd f d),
      record {
        tuned = AllTuned-append (lcm r f) cs c a pf (Nat.div-mul_cancel f d);
        least = λ n x h.
            let (old, new) = AllDivide-append cs c x h in
            least x (m.least x (Nat.one-dvd x) (AllDivide-map cs k.clocks x q old)) new;
      },
      record {
        clock = c;
        stored = get_elem?-length cs c;
        suits = refl;
        kept = inr (map-append_one cs c ∙ ap (λ r. r ++ f ∷ []) q);
      },
    )

create_clock_found :
    (f : ℕ) (k : Kernel) (j : ℕ)
    → k.cycle ≡ 0
    → 0 < f
    → scan f k.clocks 0 1 ≡ found j
    → create_clock f k ≡ some (j, k)
unfolding create_clock
create_clock_found f k j z pf s = let e : max 1 f ≡ f = omega arith in simp (z, lt→ltb 0 f pf, e, s)

create_clock_multiple :
    (f : ℕ) (k : Kernel) (r : ℕ)
    → k.cycle ≡ 0
    → 0 < f
    → scan f k.clocks 0 1 ≡ multiple r
    → create_clock f k ≡ add_clock f (lcm r f) k
unfolding create_clock
create_clock_multiple f k r z pf s =
    let e : max 1 f ≡ f = omega arith in simp (z, lt→ltb 0 f pf, e, s)

-- `CreateClock` of a positive frequency, in cycle 0 and on clocks that are tuned, fails no assertion
-- if the products of its loop stay in the range of `unsigned long`. It returns a clock of that
-- frequency; the clocks there were keep their numbers and frequencies; every clock ticks once in
-- `period` master cycles; and the master frequency divides every common multiple of the frequencies.
pub create_clock-IsTuned :
    (f : ℕ) (k : Kernel)
    → k.cycle ≡ 0
    → 0 < f
    → IsTuned k
    → NoWrap f 1 k.clocks
    → (i : ℕ) × (k' : Kernel) × (create_clock f k ≡ some (i, k')) × IsTuned k' × HasClock f i k k'
create_clock-IsTuned f k z pf t w =
    let ps = AllTuned-AllPositive k.master_freq k.clocks t.tuned in
    elim (scan_cases f k.clocks 0 1 (omega arith) ps w) [
      | inl (j, s, q) ↦ (
        j,
        k,
        create_clock_found f k j z pf s,
        t,
        record {
          clock = q.clock;
          stored = let e : j ≡ q.offset = omega (arith, q.index) in rw e q.stored;
          suits = q.suits;
          kept = inl refl;
        },
      )
      | inr (r, s, m) ↦
          let (i, k', e, t', h) = add_clock-IsTuned f r k pf t m in
          (i, k', create_clock_multiple f k r z pf s ∙ e, t', h)
    ]
