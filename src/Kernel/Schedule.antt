-- ===== src/Kernel/Schedule.antt =====
-- `Kernel::ActivateClock` of sim/kernel.cpp: the list of the clocks that will run, the earliest first.
pub mod Queue
pub mod Alike
use native.Mathlib.Nat
use mgsim.Base.{
  ℕ, zero, suc, ◌+◌, ◌*◌, ◌/◌, ◌%◌, ◌<◌, ◌≤◌, ◌≡◌, ◌≢◌, refl, sym, ap, ◌∙◌, Bool, true, false,
  Option, none, some, List, [], ◌∷◌, arith, ltb, ◌==◌, if◌then◌else◌, ◌>>=◌, length, get_elem?, set,
  Bool-cases, inl, inr, ◌⊎◌, get_elem?-set_self,
}
use mgsim.Storage.{word}
use mgsim.Kernel.{Clock, Kernel}

-- The next cycle in which a clock of a period runs, from the cycle `now` on.
unfoldable pub next_run : ℕ → ℕ → ℕ
next_run now period = (now / period * period + period) % word

-- The `m_cycle` of a clock.
unfoldable pub cycle_of : List Clock → ℕ → ℕ
cycle_of clocks i = elim (get_elem? clocks i) [ none ↦ 0 | some c ↦ c.cycle ]

-- The loop that finds the clock's place.
unfoldable pub insert_clock : (ℕ → ℕ) → ℕ → List ℕ → List ℕ
insert_clock key i [] = i ∷ []
insert_clock key i (j ∷ js) = if ltb (key j) (key i) then j ∷ insert_clock key i js else i ∷ j ∷ js

-- `ActivateClock`; a clock that is not there is `none`.
unfoldable pub activate_clock : ℕ → Kernel → Option Kernel
unfolding next_run cycle_of insert_clock
activate_clock i k = do
  c ← get_elem? k.clocks i
  if c.activated
      then some k
      else (let clocks =
            set k.clocks i (record c { cycle = next_run k.cycle c.period; activated = true }) in
          some (record k {
            clocks = clocks;
            active_clocks = insert_clock (cycle_of clocks) i k.active_clocks;
          }))
