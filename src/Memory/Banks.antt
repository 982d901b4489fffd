-- ===== src/Memory/Banks.antt =====
-- arch/BankSelector.cpp: which bank of a memory holds a cache line. A line's address is mapped to a
-- tag and the index of a bank; `none` is too little fuel.
pub mod Laws
use Prim.Native.Nat.{bit_xor}
use mgsim.Base.{ℕ, zero, suc, ◌+◌, ◌*◌, ◌/◌, ◌%◌, Option, none, some, ltb, if◌then◌else◌, ◌>>=◌}
use mgsim.Storage.{word}

-- `ZeroSelector`, `DirectSelector`, `RightXOR`, `RightAdd`, `XORFold` and `AddFold`.
pub data Selector : Type 0 where
  zero_bank direct right_xor right_add xor_fold add_fold : Selector

-- The sum of two addresses.
abbrev pub add_word : ℕ → ℕ → ℕ
add_word a b = (a + b) % word

-- The loop of the folding selectors, over the operation that they fold with.
pub fold_loop : (ℕ → ℕ → ℕ) → ℕ → ℕ → ℕ → ℕ → Option ℕ
fold_loop op zero n address result = none
fold_loop op (suc fuel) n address result =
    let rest = fold_loop op fuel n (address / n) (op result address) in
    if ltb n (address / n) then rest else some (op result address)

pub fold : (ℕ → ℕ → ℕ) → ℕ → ℕ → Option (ℕ × ℕ)
unfolding fold_loop
fold op n address = do result ← fold_loop op (address + 1) n address 0; some (address, result % n)

-- `Map`, for a number of banks.
pub map_address : Selector → ℕ → ℕ → Option (ℕ × ℕ)
unfolding fold
map_address zero_bank n address = some (address, 0)
map_address direct n address = some (address / n, address % n)
map_address right_xor n address = some (address, bit_xor address (address / n) % n)
map_address right_add n address = some (address, add_word address (address / n) % n)
map_address xor_fold n address = fold bit_xor n address
map_address add_fold n address = fold add_word n address

-- `Unmap`
pub unmap_address : Selector → ℕ → ℕ → ℕ → ℕ
unmap_address zero_bank n tag index = tag
unmap_address direct n tag index = (tag * n + index) % word
unmap_address right_xor n tag index = tag
unmap_address right_add n tag index = tag
unmap_address xor_fold n tag index = tag
unmap_address add_fold n tag index = tag
