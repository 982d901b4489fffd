-- ===== src/Drisc/TableTests.antt =====
-- Runs of arch/drisc/ThreadTable.cpp and arch/drisc/FamilyTable.cpp on concrete inputs.
use mgsim.Base.{ℕ, ◌+◌, ◌≡◌, refl, true, some, List, [], ◌∷◌, arith, get_elem?}
use mgsim.Storage.{commit}
use mgsim.Drisc.{normal, exclusive, count_of}
use mgsim.Drisc.ThreadTable
use mgsim.Drisc.ThreadTable.{
  ThreadTable, Thread, pop_empty, push_empty, reserve_thread, unreserve_thread, invalid_tid,
  num_free_threads,
}
use mgsim.Drisc.ThreadTable.FreeList as FreeList
use mgsim.Drisc.ThreadTable.Entries.{Popped, Pushed, pop_empty-Popped, push_empty-Pushed}
use mgsim.Drisc.FamilyTable
use mgsim.Drisc.FamilyTable.{FamilyTable, allocate_family, free_family}
use mgsim.Drisc.FamilyTable.Entries as Entries
use mgsim.Drisc.FamilyTable.Changes.{Changed, Belongs, allocate_family-Changed}

-- Entry 1 is in use; 2 and 0 are free, one of them for an exclusive context.
abbrev three_threads : ThreadTable
three_threads = record {
  first_empty = 2;
  threads =
      record { next = invalid_tid; state = ThreadTable.empty }
      ∷ record { next = 0; state = ThreadTable.active }
      ∷ record { next = 0; state = ThreadTable.empty }
      ∷ [];
  free = record { free_normal = 1; free_reserved = 0; free_exclusive = 1 };
  last_cycle = 0;
  total_alloc = 0;
  max_alloc = 0;
  cur_alloc = 0;
}

three_threads-IsSane : FreeList.IsSane three_threads (2 ∷ 0 ∷ [])
three_threads-IsSane = record {
  small = omega arith;
  chain = (
    refl,
    record { next = 0; state = ThreadTable.empty },
    refl,
    refl,
    (refl, record { next = invalid_tid; state = ThreadTable.empty }, refl, refl, refl),
  );
  once = (λ h. absurd (omega (arith, h)), ((λ h. h), tt));
  all_listed = refl;
  counts = refl;
  one_exclusive = omega arith;
}

pop_empty-Popped_example :
    (x : ℕ) × (xs : List ℕ) × (t' : ThreadTable) × (2 ∷ 0 ∷ [] ≡ x ∷ xs)
    × (pop_empty commit 5 exclusive three_threads ≡ some (x, t'))
    × Popped exclusive x xs three_threads t'
pop_empty-Popped_example =
    pop_empty-Popped 5 exclusive three_threads (2 ∷ 0 ∷ []) three_threads-IsSane (omega arith)

push_empty-Pushed_example :
    (t' : ThreadTable) × (push_empty commit 5 1 normal three_threads ≡ some t')
    × Pushed normal 1 (2 ∷ 0 ∷ []) three_threads t'
push_empty-Pushed_example =
    push_empty-Pushed 5 normal 1 (record { next = 0; state = ThreadTable.active }) three_threads
      (2 ∷ 0 ∷ []) three_threads-IsSane refl refl tt

-- The second of three families is in use.
abbrev three_families : FamilyTable
three_families = record {
  families = FamilyTable.empty ∷ FamilyTable.active ∷ FamilyTable.empty ∷ [];
  free = record { free_normal = 1; free_reserved = 0; free_exclusive = 1 };
  last_cycle = 0;
  total_alloc = 0;
  max_alloc = 0;
  cur_alloc = 0;
}

three_families-IsSane : Entries.IsSane three_families FamilyTable.empty
three_families-IsSane = record {
  some_entries = omega arith;
  small = omega arith;
  last_state = refl;
  exclusive_eq = refl;
  counts = refl;
  none_reserved = refl;
}

allocate_family-Changed_example :
    (fid : ℕ) × (t' : FamilyTable) × (state : FamilyTable.FamilyState) × (allocate_family commit 5
        normal three_families
      ≡ some (fid, t'))
    × Belongs normal fid three_families
    × (get_elem? three_families.families fid ≡ some state)
    × (FamilyTable.is_empty state ≡ true)
    × (count_of t'.free normal + 1 ≡ count_of three_families.free normal)
    × Changed fid FamilyTable.allocated three_families t'
allocate_family-Changed_example =
    allocate_family-Changed 5 normal three_families FamilyTable.empty three_families-IsSane
      (omega arith)
