-- ===== src/Kernel/Frequency/Tuned.antt =====
-- `Kernel::CreateClock` keeps all clocks tuned to the master frequency.
use Prim.Native.Nat.{◌∣◌}
use native.Mathlib.Nat
use mgsim.Base.{
  ℕ, suc, ◌+◌, ◌*◌, ◌/◌, ◌<◌, ◌≡◌, refl, ap, some, List, [], ◌∷◌, ◌++◌, arith, ◌==◌, length,
  get_elem?, Bool-cases, inl, inr, ◌⊎◌, map,
}
use mgsim.Storage.{word}
use mgsim.Kernel.{Clock, Kernel}
use mgsim.Kernel.Gcd.{lcm, lcm_least}
use mgsim.Kernel.Frequency.{found, multiple, scan, retune}

-- `x` is a multiple of every clock's frequency.
abbrev pub AllDivide : List Clock → ℕ → Type 0
AllDivide [] x = Unit {0}
AllDivide (c ∷ cs) x = (c.frequency ∣ x) × AllDivide cs x

-- A clock of the frequency ticks once in `period` master cycles.
abbrev pub AllTuned : ℕ → List Clock → Type 0
AllTuned master [] = Unit {0}
AllTuned master (c ∷ cs) =
    (0 < c.frequency) × (c.period * c.frequency ≡ master) × AllTuned master cs

-- No product of the loop leaves the range of `unsigned long`.
abbrev pub NoWrap : ℕ → ℕ → List Clock → Type 0
NoWrap f master [] = master * f < word
NoWrap f master (c ∷ cs) = (master * c.frequency < word) × NoWrap f (lcm master c.frequency) cs

abbrev pub AllPositive : List Clock → Type 0
AllPositive [] = Unit {0}
AllPositive (c ∷ cs) = (0 < c.frequency) × AllPositive cs

pub AllTuned-AllPositive : (master : ℕ) (cs : List Clock) → AllTuned master cs → AllPositive cs
AllTuned-AllPositive master [] t = tt
AllTuned-AllPositive master (c ∷ cs) t = (t.0, AllTuned-AllPositive master cs t.2)

-- What a scan has computed.
pub record IsMultiple (f m : ℕ) (cs : List Clock) (r : ℕ) : Type 0 where
  pub extends : m ∣ r
  pub all : AllDivide cs r
  pub positive : 0 < r
  pub least : (x : ℕ) → m ∣ x → AllDivide cs x → r ∣ x
  pub fits : r * f < word

pub record IsFound (f i : ℕ) (cs : List Clock) (j : ℕ) : Type 0 where
  pub clock : Clock
  pub offset : ℕ
  pub index : j ≡ i + offset
  pub stored : get_elem? cs offset ≡ some clock
  pub suits : clock.frequency ≡ f

pub scan_cases :
    (f : ℕ) (cs : List Clock) (i m : ℕ)
    → 0 < m
    → AllPositive cs
    → NoWrap f m cs
    → ((j : ℕ) × (scan f cs i m ≡ found j) × IsFound f i cs j)
      ⊎ ((r : ℕ) × (scan f cs i m ≡ multiple r) × IsMultiple f m cs r)
unfolding scan
scan_cases f [] i m pm ps w = inr (
  m,
  refl,
  record { extends = Nat.dvd_refl m; all = tt; positive = pm; least = λ x h a. h; fits = w },
)
scan_cases f (c ∷ cs) i m pm ps w =
    let (l, r, p, least) = lcm_least m c.frequency pm ps.0 w.0 in
    elim (Bool-cases (c.frequency == f)) [
      | inl e ↦ inl (
        i,
        rw e,
        record { clock = c; offset = 0; index = omega arith; stored = refl; suits = ground arith },
      )
      | inr e ↦ elim (scan_cases f cs (i + 1) (lcm m c.frequency) p ps.1 w.1) [
        | inl (j, s, q) ↦ inl (
          j,
          rw (e, s),
          record {
            clock = q.clock;
            offset = suc q.offset;
            index = omega (arith, q.index);
            stored = q.stored;
            suits = q.suits;
          },
        )
        | inr (x, s, q) ↦ inr (
          x,
          rw (e, s),
          record {
            extends = Nat.dvd_trans m l q.extends;
            all = (Nat.dvd_trans c.frequency r q.extends, q.all);
            positive = q.positive;
            least = λ y h a. q.least y (least y h a.0) a.1;
            fits = q.fits;
          },
        )
      ]
    ]

pub retune-AllTuned :
    (master : ℕ) (cs : List Clock)
    → 0 < master
    → AllPositive cs
    → AllDivide cs master
    → (cs' : List Clock) × (retune master cs ≡ some cs')
      × AllTuned master cs'
      × (map (λ c. c.frequency) cs' ≡ map (λ c. c.frequency) cs)
unfolding retune
retune-AllTuned master [] pm ps ds = ([], refl, tt, refl)
retune-AllTuned master (c ∷ cs) pm ps ds =
    let (cs', e, t, m) = retune-AllTuned master cs pm ps.1 ds.1 in
    (
      record c { period = master / c.frequency } ∷ cs',
      rw (Nat.mod-eq-zero_of_dvd c.frequency ds.0, e),
      (ps.0, Nat.div-mul_cancel c.frequency ds.0, t),
      ap (λ r. c.frequency ∷ r) m,
    )

-- Every clock ticks once in `period` master cycles, and the master frequency is the least for which
-- the periods are whole.
pub record IsTuned (k : Kernel) : Type 0 where
  pub tuned : AllTuned k.master_freq k.clocks
  pub least : 0 < length k.clocks → (x : ℕ) → AllDivide k.clocks x → k.master_freq ∣ x

abbrev pub frequencies : List Clock → List ℕ
frequencies cs = map (λ c. c.frequency) cs

-- A clock of frequency `f` has the number `i`, and the clocks there were keep their frequencies.
pub record HasClock (f i : ℕ) (old new : Kernel) : Type 0 where
  pub clock : Clock
  pub stored : get_elem? new.clocks i ≡ some clock
  pub suits : clock.frequency ≡ f
  pub kept : (new.clocks ≡ old.clocks) ⊎ (frequencies new.clocks ≡ frequencies old.clocks ++ f ∷ [])
