-- ===== src/Memory/Blocks/Tests.antt =====
-- Accesses of arch/VirtualMemory.cpp on concrete inputs.
use mgsim.Base.{ℕ, ◌≡◌, refl, List, [], ◌∷◌, arith, replicate, length-replicate}
use mgsim.Memory.Blocks.{Block, read, outside, lower_bound}
use mgsim.Memory.Blocks.Within.{read_across}

-- One block, of sevens.
abbrev sevens : List Block
sevens = (0, replicate 4096 7) ∷ []

read_across_example : read 5 4096 sevens ≡ outside
unfolding lower_bound
read_across_example =
    read_across 5 4096 (replicate 4096 7) sevens [] refl (length-replicate {A = ℕ} 4096 7)
      (omega arith)
