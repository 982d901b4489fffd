-- ===== src/Tlb/Table/Tests.antt =====
-- Runs of arch/drisc/mmu/Table.cpp on concrete inputs.
use mgsim.Base.{ℕ, ◌≡◌, refl, true, false, some, none, Option, ◌>>=◌}
use mgsim.Storage.{commit}
use mgsim.Log2.{ilog2, is_power_of_two}
use mgsim.Tlb.Address.{RAddr, strict_expect}
use mgsim.Tlb.Table.{lru, pseudo_random, by_access, indexable, create, lookup, set_prio_high}
use mgsim.Tlb.Table.Store.{
  store_pending, set_data_reference, get_pending, release_pending, fill_pending, store_normal,
  free_lines, pick_destination, pick_victim_accessed,
}

abbrev addr : ℕ → ℕ → RAddr
addr v w = record { value = v; width = w }

-- A miss takes the first free line; once filled, it is found, and it comes first.
filled :
    (do
      t ← create 8 20 20 lru 4
      r ← store_pending commit (addr 1 8) (addr 7 20) t
      t ← set_data_reference 0 9 r.1
      asked ← get_pending (addr 0 2) t
      f ← fill_pending commit (addr 0 2) true false (addr 70 20) t
      s ← store_normal commit (addr 1 8) (addr 8 20) (addr 80 20) true true f.1
      l ← lookup (addr 1 8) (addr 8 20) indexable s.1
      let answer : Option (ℕ × RAddr × RAddr) × ℕ × Option ℕ × Option ℕ × Option ℕ × Option ℕ =
          (asked, f.0, r.0, s.0, l.0, l.1.head)
      some answer)
    ≡ some (some (9, addr 1 8, addr 7 20), 9, some 0, some 1, some 1, some 1)
unfolding create ilog2 is_power_of_two strict_expect store_pending set_data_reference get_pending
    fill_pending store_normal lookup
filled = refl

-- A line that was released is free again, and a table of free lines can be emptied.
released :
    (do
      t ← create 8 20 20 by_access 2
      r ← store_pending commit (addr 1 8) (addr 7 20) t
      t ← release_pending commit (addr 0 1) r.1
      t ← free_lines commit t
      pick_destination t)
    ≡ some 0
unfolding create ilog2 is_power_of_two strict_expect store_pending release_pending free_lines
    pick_destination
released = refl

-- Three lines are refused where the address bits choose.
three_refused : create 8 20 20 pseudo_random 3 ≡ none
unfolding create ilog2 is_power_of_two strict_expect
three_refused = refl

-- A line that is used is marked, but without a line that holds a translation the address bits choose.
marked : (do t ← create 8 20 20 by_access 2; t ← set_prio_high 0 t; pick_victim_accessed t) ≡ some 0
unfolding create ilog2 is_power_of_two strict_expect set_prio_high pick_victim_accessed
marked = refl
