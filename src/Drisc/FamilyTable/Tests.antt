-- ===== src/Drisc/FamilyTable/Tests.antt =====
-- Runs of arch/drisc/FamilyTable.cpp on concrete inputs.
use mgsim.Base.{ℕ, Bool, ◌≡◌, refl, true, false, some, ◌>>=◌}
use mgsim.Storage.{commit}
use mgsim.Drisc.{normal, exclusive}
use mgsim.Drisc.FamilyTable.{
  create, all_free, allocate_family, num_free_families, num_used_families,
}

fresh_all_free : all_free (create 3) ≡ true
unfolding all_free create
fresh_all_free = refl

-- After `AllocateFamily`, one normal entry is left, and no exclusive one is used.
one_left :
    (do
      (fid, t) ← allocate_family commit 1 normal (create 3)
      n ← num_free_families normal t
      used ← num_used_families normal t
      special ← num_used_families exclusive t
      let r : ℕ × ℕ × ℕ × ℕ × Bool = (fid, n, used, special, all_free t)
      some r)
    ≡ some (0, 1, 1, 0, false)
unfolding all_free create allocate_family num_free_families num_used_families
one_left = refl
