-- ===== src/Log2/Tests.antt =====
-- Runs of sim/log2.h on concrete inputs.
use mgsim.Base.{ℕ, ◌<◌, ◌≤◌, ◌^◌, ◌≡◌, refl, true, false, none, some}
use mgsim.Log2.{is_power_of_two, ilog2, ilog2_loop}
use mgsim.Log2.Laws.{IsLog2, ilog2_lem}

powers : is_power_of_two 64 ≡ true
unfolding is_power_of_two
powers = refl

-- `x - 1` wraps around.
zero_passes : is_power_of_two 0 ≡ true
unfolding is_power_of_two
zero_passes = refl

twelve : is_power_of_two 12 ≡ false
unfolding is_power_of_two
twelve = refl

log_five : ilog2 5 ≡ some 3
unfolding ilog2
log_five = refl

ilog2_lem_example :
    (5 ≤ 2 ^ 63 → (m : ℕ) × (ilog2 5 ≡ some m) × IsLog2 5 m)
    × (2 ^ 63 < 5 → (fuel : ℕ) → ilog2_loop fuel 5 0 1 ≡ none)
ilog2_lem_example = ilog2_lem 5

abbrev twelve_word : ℕ
twelve_word = 12
