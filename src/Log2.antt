-- ===== src/Log2.antt =====
-- sim/log2.h, for numbers of 64 bits: `IsPowerOfTwo` and `ilog2`.
pub mod Laws
pub mod Powers
mod Tests
use Prim.Native.Nat.{bit_and}
use mgsim.Base.{
  ℕ, zero, suc, ◌+◌, ◌-◌, ◌*◌, ◌%◌, ◌^◌, Bool, ltb, ◌==◌, if◌then◌else◌, Option, none, some,
}
use mgsim.Storage.{word}

-- `IsPowerOfTwo`
unfoldable pub is_power_of_two : ℕ → Bool
is_power_of_two x = bit_and x ((x + word - 1) % word) == 0

-- The loop of `ilog2` on its `l` and `r`; `none` is too little fuel.
pub ilog2_loop : ℕ → ℕ → ℕ → ℕ → Option ℕ
ilog2_loop zero n l r = none
ilog2_loop (suc fuel) n l r =
    let rest = ilog2_loop fuel n ((l + 1) % 2 ^ 32) (r * 2 % word) in
    if ltb r n then rest else some l

-- `ilog2`: 64 rounds, and the last test.
unfoldable pub ilog2 : ℕ → Option ℕ
unfolding ilog2_loop
ilog2 n = ilog2_loop 65 n 0 1
