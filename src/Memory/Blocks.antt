-- ===== src/Memory/Blocks.antt =====
-- arch/VirtualMemory.cpp: `Read` and `Write` on the blocks of the contents. The map is a list in the
-- order of its keys, and a block is the list of its bytes.
pub mod Within
pub mod Again
mod Tests
use mgsim.Base.{
  ℕ, zero, suc, ◌+◌, ◌-◌, ◌%◌, min, Bool, true, false, Option, none, some, List, [], ◌∷◌, ◌++◌, ltb,
  leb, ◌==◌, if◌then◌else◌, length, set, take, drop, replicate,
}
use mgsim.Storage.{word}

abbrev pub block_size : ℕ
block_size = 4096

-- A block by the address of its first byte.
abbrev pub Block : Type 0
Block = ℕ × List ℕ

-- The bytes read; or a read that goes on behind the array of a block; or too little fuel.
pub data Access : Type 0 where
  bytes : List ℕ → Access
  outside : Access
  unfinished : Access

abbrev pub prepend : List ℕ → Access → Access
prepend xs (bytes ys) = bytes (xs ++ ys)
prepend xs outside = outside
prepend xs unfinished = unfinished

-- `lower_bound`
unfoldable pub lower_bound : ℕ → List Block → List Block
lower_bound base [] = []
lower_bound base ((b, d) ∷ bs) = if ltb b base then lower_bound base bs else (b, d) ∷ bs

-- The loop of `Read`, at the block position, the base address and the offset within it, for `size`
-- more bytes.
unfoldable pub read_loop : ℕ → List Block → ℕ → ℕ → ℕ → Access
read_loop zero bs base offset size = unfinished
read_loop (suc fuel) bs base offset zero = bytes []
read_loop (suc fuel) [] base offset (suc n) = bytes (replicate (suc n) 0)
read_loop (suc fuel) ((b, d) ∷ bs) base offset (suc n) =
    let count = min (suc n) block_size in
    let same = read_loop fuel ((b, d) ∷ bs) ((base + block_size) % word) 0 (suc n - count) in
    let next = read_loop fuel bs ((base + block_size) % word) 0 (suc n - count) in
    if ltb base b
    then prepend (replicate count 0) same
    else if leb (offset + count) (length d)
    then prepend (take count (drop offset d)) next
    else outside

-- `address & -BLOCK_SIZE`
abbrev pub base_of : ℕ → ℕ
base_of address = address - address % block_size

-- `Read`: each round takes a byte at least.
unfoldable pub read : ℕ → ℕ → List Block → Access
unfolding lower_bound read_loop
read address size bs =
    read_loop (size + 1) (lower_bound (base_of address) bs) (base_of address) (address % block_size)
      size

-- The loop over the bytes of one block; without a mask all are written.
unfoldable pub write_bytes : List ℕ → ℕ → List ℕ → Option (List Bool) → List ℕ
write_bytes d offset [] mask = d
write_bytes d offset (x ∷ xs) none = write_bytes (set d offset x) (offset + 1) xs none
write_bytes d offset (x ∷ xs) (some []) = d
write_bytes d offset (x ∷ xs) (some (m ∷ ms)) =
    write_bytes (if m then set d offset x else d) (offset + 1) xs (some ms)

abbrev pub zeroes : List ℕ
zeroes = replicate block_size 0

-- Find or insert the block of an address, and write to it.
unfoldable pub write_block : ℕ → ℕ → List ℕ → Option (List Bool) → List Block → List Block
unfolding write_bytes
write_block base offset xs mask [] = (base, write_bytes zeroes offset xs mask) ∷ []
write_block base offset xs mask ((b, d) ∷ bs) =
    if ltb b base
    then (b, d) ∷ write_block base offset xs mask bs
    else if b == base
    then (b, write_bytes d offset xs mask) ∷ bs
    else (base, write_bytes zeroes offset xs mask) ∷ (b, d) ∷ bs

unfoldable pub has_block : ℕ → List Block → Bool
has_block base [] = false
has_block base ((b, d) ∷ bs) = if b == base then true else has_block base bs

-- The loop of `Write`, with the number of bytes allocated.
unfoldable pub write_loop :
    ℕ → ℕ → ℕ → List ℕ → Option (List Bool) → List Block → ℕ → Option (List Block × ℕ)
unfolding write_block has_block
write_loop zero base offset xs mask bs allocated = none
write_loop (suc fuel) base offset [] mask bs allocated = some (bs, allocated)
write_loop (suc fuel) base offset (x ∷ xs) mask bs allocated =
    let count = min (length (x ∷ xs)) (block_size - offset) in
    let rest_mask : Option (List Bool) = elim mask [
      | none ↦ none
      | some ms ↦ some (drop count ms)
    ] in
    write_loop fuel ((base + block_size) % word) 0 (drop count (x ∷ xs)) rest_mask
      (write_block base offset (take count (x ∷ xs)) mask bs)
      (if has_block base bs then allocated else (allocated + block_size) % word)

-- `Write`
unfoldable pub write : ℕ → List ℕ → Option (List Bool) → List Block → ℕ → Option (List Block × ℕ)
unfolding write_loop
write address xs mask bs allocated =
    write_loop (length xs + 1) (base_of address) (address % block_size) xs mask bs allocated
