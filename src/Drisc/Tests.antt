-- ===== src/Drisc/Tests.antt =====
-- Runs of arch/drisc/RAUnit.cpp on concrete inputs.
use mgsim.Base.{ℕ, ◌*◌, ◌≡◌, refl, ◌⊎◌, inr, none, some, [], ◌∷◌, arith}
use mgsim.Drisc.{reserved, exclusive}
use mgsim.Drisc.RaUnit.{TypeInfo, search, commit_used, block_count, free_area}
use mgsim.Drisc.RaUnit.Balance.{IsBalanced, Allocated, alloc_used}
use mgsim.Drisc.RaUnit.Release.{Taken}
use mgsim.Drisc.RaUnit.Counts.{free_area-IsBalanced}

-- Six blocks of 8 registers, of which family 1 holds two and one is set aside.
abbrev six_blocks : TypeInfo
six_blocks = record {
  blocks = (0, 0) ∷ (2, 1) ∷ (0, 0) ∷ (0, 0) ∷ (0, 0) ∷ (0, 0) ∷ [];
  block_size = 8;
  free_normal = 3;
  free_reserved = 1;
  free_exclusive = 0;
}

abbrev six_blocks-IsBalanced : IsBalanced six_blocks
six_blocks-IsBalanced = record { sum = refl; layout = (refl, refl); real_blocks = omega arith }

alloc_used_example :
    (search six_blocks reserved 12 ≡ some none)
    ⊎ ((start : ℕ) × (t' : TypeInfo) × (search six_blocks reserved 12 ≡ some (some (start * 8)))
        × (commit_used reserved 5 12 (start * 8) six_blocks ≡ some t')
        × Allocated six_blocks t' start (block_count six_blocks 12) 5)
alloc_used_example =
    alloc_used reserved 5 12 six_blocks six_blocks-IsBalanced (omega arith) (omega arith)

free_area-IsBalanced_example :
    (t' : TypeInfo) × (free_area exclusive (some 8) six_blocks ≡ some t')
    × Taken six_blocks.blocks t'.blocks 1 2 1
    × IsBalanced t'
free_area-IsBalanced_example =
    free_area-IsBalanced exclusive 8 1 1 six_blocks six_blocks-IsBalanced refl (inr refl)
