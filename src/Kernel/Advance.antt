-- ===== src/Kernel/Advance.antt =====
-- The loops of `Kernel::Step` of sim/kernel.cpp over the clocks whose cycle it is, and the end of a
-- cycle: these clocks are scheduled anew, and time goes on to the first clock to run.
mod Due
pub mod Resched
pub mod Time
use mgsim.Base.{
  ℕ, Bool, true, false, ◌&&◌, ◌||◌, Option, some, List, [], ◌∷◌, ltb, ◌==◌, if◌then◌else◌, ◌>>=◌,
  ◌>>◌, assert, get_elem?, set,
}
use mgsim.Kernel.{Clock, Kernel}
use mgsim.Kernel.Schedule.{cycle_of, activate_clock}

module _ {ℓ} {A : Type ℓ} where
  -- A walk along a list.
  unfoldable pub each : (ℕ → A → Option A) → List ℕ → A → Option A
  each f [] r = some r
  each f (x ∷ xs) r = f x r >>= each f xs

-- The clocks in front of the list whose cycle it is.
unfoldable pub at_cycle : List Clock → ℕ → List ℕ → List ℕ
at_cycle cs now [] = []
at_cycle cs now (i ∷ is) =
    let rest = at_cycle cs now is in if now == cycle_of cs i then i ∷ rest else []

abbrev pub due : Kernel → List ℕ
due k = at_cycle k.clocks k.cycle k.active_clocks

-- The clocks behind clock `i` on the list.
unfoldable pub behind : ℕ → List ℕ → List ℕ
behind i [] = []
behind i (j ∷ js) = if i == j then js else behind i js

unfoldable pub is_empty : List ℕ → Bool
is_empty [] = true
is_empty (x ∷ xs) = false

-- A clock that ran leaves the list, and comes back if there is work for it.
unfoldable pub reschedule : ℕ → Kernel → Option Kernel
unfolding behind is_empty
reschedule i k = do
  c ← get_elem? k.clocks i
  let k' : Kernel = record k {
    clocks = set k.clocks i (record c { activated = false });
    active_clocks = behind i k.active_clocks;
  }
  assert (is_empty c.active_arbitrators)
  if is_empty c.active_processes && is_empty c.active_storages then some k' else activate_clock i k'

-- Time goes on to the first clock to run.
unfoldable pub advance_to : List ℕ → Kernel → Option Kernel
advance_to [] k = some k
advance_to (i ∷ is) k = do
  assert (ltb k.cycle (cycle_of k.clocks i))
  some (record k { cycle = cycle_of k.clocks i })

unfoldable pub advance : Kernel → Option Kernel
unfolding reschedule advance_to
advance k = do k' ← each reschedule (due k) k; advance_to k'.active_clocks k'

-- Is a clock scheduled for a later cycle?
unfoldable pub has_later : List Clock → ℕ → List ℕ → Bool
has_later cs now [] = false
has_later cs now (i ∷ is) = ltb now (cycle_of cs i) || has_later cs now is
