-- ===== src/Drisc/RaUnit/Tests.antt =====
-- Runs of `RAUnit::Alloc` over both types of registers.
use mgsim.Base.{◌≡◌, refl, none, some, [], ◌∷◌}
use mgsim.Drisc.{normal}
use mgsim.Drisc.RaUnit.{
  TypeInfo, free, alloc, search_all, search, find_free, free_run, block_count, commit_all,
  commit_used, commit_unused, set_free, num_free_contexts,
}

abbrev integers : TypeInfo
integers = record {
  blocks = (0, 0) ∷ (2, 1) ∷ (0, 1) ∷ (0, 0) ∷ (0, 0) ∷ [];
  block_size = 32;
  free_normal = 2;
  free_reserved = 0;
  free_exclusive = 1;
}

abbrev floats : TypeInfo
floats = record {
  blocks = (0, 0) ∷ (0, 0) ∷ [];
  block_size = 32;
  free_normal = 1;
  free_reserved = 0;
  free_exclusive = 1;
}

-- 40 integer registers need two blocks, which are free from block 3 on.
alloc_run :
    alloc normal 7 ((integers, 40) ∷ (floats, 0) ∷ [])
    ≡ some (
        some (
          some 96 ∷ none ∷ [],
          record integers {
            blocks = (0, 0) ∷ (2, 1) ∷ (0, 1) ∷ (2, 7) ∷ (0, 0) ∷ [];
            free_normal = 0;
          }
              ∷ floats
              ∷ [],
        ))
unfolding alloc search_all search find_free free_run block_count commit_all commit_used
    commit_unused set_free free
alloc_run = refl

-- If one type lacks registers nothing is allocated.
alloc_fails_run : alloc normal 7 ((integers, 40) ∷ (floats, 64) ∷ []) ≡ some none
unfolding alloc search_all search find_free free_run block_count
alloc_fails_run = refl

num_free_contexts_run : num_free_contexts normal integers (floats ∷ []) ≡ 1
unfolding num_free_contexts free
num_free_contexts_run = refl
