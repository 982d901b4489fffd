-- ===== src/Kernel/Frequency.antt =====
-- `Kernel::CreateClock` of sim/kernel.cpp: the master frequency and the periods of the clocks.
pub mod Tuned
pub mod Created
use Prim.Native.Nat.{◌∣◌}
use native.Mathlib.Nat
use mgsim.Base.{
  ℕ, suc, ◌+◌, ◌*◌, ◌/◌, ◌%◌, ◌<◌, max, ◌≡◌, refl, ap, ◌∙◌, Option, some, List, [], ◌∷◌, ◌++◌,
  arith, ltb, ◌==◌, if◌then◌else◌, ◌>>=◌, ◌>>◌, assert, length, get_elem?, Bool-cases, inl, inr,
  ◌⊎◌, map, lt→ltb,
}
use mgsim.Storage.{word}
use mgsim.Kernel.{Clock, Kernel, new_clock}
use mgsim.Kernel.Gcd.{lcm, lcm_least}

-- What the loop over the clocks finds: a clock of the frequency, or the least common multiple of
-- those there are.
pub data Scan : Type 0 where
  found : ℕ → Scan
  multiple : ℕ → Scan

pub scan : ℕ → List Clock → ℕ → ℕ → Scan
scan frequency [] i master = multiple master
scan frequency (c ∷ cs) i master =
    let rest = scan frequency cs (i + 1) (lcm master c.frequency) in
    if c.frequency == frequency then found i else rest

-- The loop that updates the periods.
pub retune : ℕ → List Clock → Option (List Clock)
retune master [] = some []
retune master (c ∷ cs) = do
  assert (master % c.frequency == 0)
  cs' ← retune master cs
  some (record c { period = master / c.frequency } ∷ cs')

-- The part behind the loop, at the new master frequency.
pub add_clock : ℕ → ℕ → Kernel → Option (ℕ × Kernel)
unfolding retune
add_clock frequency master k = do
  clocks ← if k.master_freq == master then some k.clocks else retune master k.clocks
  assert (master % frequency == 0)
  some (
    length clocks,
    record k {
      master_freq = master;
      clocks = clocks ++ new_clock frequency (master / frequency) ∷ [];
    },
  )

-- `CreateClock`: the number of the clock, and the kernel.
pub create_clock : ℕ → Kernel → Option (ℕ × Kernel)
create_clock f k = do
  assert (k.cycle == 0)
  assert (ltb 0 f)
  let frequency = max 1 f
  elim (scan frequency k.clocks 0 1) [
    | found i ↦ some (i, k)
    | multiple master ↦ add_clock frequency (lcm master frequency) k
  ]
