-- ===== src/Drisc/ThreadTable/Tests.antt =====
-- Runs of arch/drisc/ThreadTable.cpp on concrete inputs.
use mgsim.Base.{ℕ, Bool, ◌≡◌, refl, true, false, some, ◌>>=◌}
use mgsim.Storage.{commit}
use mgsim.Drisc.{normal}
use mgsim.Drisc.ThreadTable.{create, all_free, pop_empty, num_free_threads}

fresh_all_free : all_free (create 3) ≡ true
unfolding all_free create
fresh_all_free = refl

-- After `PopEmpty`, one normal entry is left.
one_left :
    (do
      (tid, t) ← pop_empty commit 1 normal (create 3)
      n ← num_free_threads normal t
      let r : ℕ × ℕ × Bool = (tid, n, all_free t)
      some r)
    ≡ some (0, 1, false)
unfolding all_free create pop_empty num_free_threads
one_left = refl
