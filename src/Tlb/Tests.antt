-- ===== src/Tlb/Tests.antt =====
-- Runs of arch/drisc/mmu on concrete inputs.
use mgsim.Base.{
  ℕ, zero, suc, ◌+◌, ◌<◌, ◌≡◌, refl, Bool, true, false, Option, none, some, List, [], ◌∷◌, ◌++◌,
  map, get_elem?, inl, inr, arith, In,
}
use mgsim.Storage.{commit}
use mgsim.Log2.{is_power_of_two}
use mgsim.Tlb.Address
use mgsim.Tlb.Address.{RAddr}
use mgsim.Tlb.Table.{
  Line, Table, lru, pseudo_random, indexable, free, find, has_tag, matches, init_strategy,
}
use mgsim.Tlb.Table.Lru.{IsLru}
use mgsim.Tlb.Table.Unlink.{contents}
use mgsim.Tlb.Table.Order.{Query, Fits, Looked, lookup-Looked}
use mgsim.Tlb.Table.Evict.{run_lookups, order_of, run_lookups-evicts}
use mgsim.Tlb.Table.Locked.{Widths, Stored, store_pending-Stored}
use mgsim.Tlb.Table.Pending.{miss, Awaits, miss-Awaits}
use mgsim.Tlb.Table.Victim.{Inside, pick_destination-Inside}
use mgsim.Tlb.Table.Free.{NoneLocked, free_lines_of-clears}
use mgsim.Tlb.Table.Store.{pick_destination, pending_line, store_pending, free_lines_of}

abbrev addr : ℕ → ℕ → RAddr
addr v w = record { value = v; width = w }

-- A line that holds the translation of a page of context 1.
abbrev page : Bool → Option ℕ → Option ℕ → ℕ → Line
page locked previous next v = record {
  present = true;
  locked = locked;
  accessed = false;
  previous = previous;
  next = next;
  context_id = addr 1 8;
  virtual_address = addr v 20;
  physical_address = addr (v + 100) 20;
  data_line = 0;
  read = true;
  write = false;
}

-- Three lines in the order 1, 0, 2.
abbrev three_lines : Table
three_lines = record {
  context_width = 8;
  virtual_width = 20;
  physical_width = 20;
  index_width = 2;
  strategy = lru;
  lines =
      page false (some 1) (some 2) 10
      ∷ page true none (some 0) 11
      ∷ page false (some 0) none 12
      ∷ [];
  head = some 1;
  tail = some 2;
}

listed : (i : ℕ) → i < 3 → In i (1 ∷ 0 ∷ 2 ∷ [])
listed zero b = inr (inl refl)
listed (suc zero) b = inl refl
listed (suc (suc zero)) b = inr (inr (inl refl))
listed (suc (suc (suc i))) b = absurd (omega arith)

three_lines-IsLru : IsLru three_lines (1 ∷ 0 ∷ 2 ∷ [])
three_lines-IsLru = record {
  evicts_lru = refl;
  row = (
    refl,
    page true none (some 0) 11,
    refl,
    refl,
    (
      refl,
      page false (some 1) (some 2) 10,
      refl,
      refl,
      (refl, page false (some 0) none 12, refl, refl, (refl, refl)),
    ),
  );
  once = ((λ h. absurd (omega (arith, h))), ((λ h. absurd (omega (arith, h))), ((λ h. h), tt)));
  all_listed = listed;
}

abbrev of_ten : Query
of_ten = record { context = addr 1 8; address = addr 10 20; tag = indexable }

of_ten-Fits : Fits of_ten three_lines
unfolding Address.strict_expect Address.is_valid
of_ten-Fits = record { context_fits = refl; address_fits = refl }

lookup-Looked_example : (t' : Table) × Looked of_ten three_lines (1 ∷ 0 ∷ 2 ∷ []) t'
lookup-Looked_example =
    lookup-Looked of_ten three_lines (1 ∷ 0 ∷ 2 ∷ []) three_lines-IsLru of_ten-Fits

run_lookups-evicts_example :
    (t' : Table) × (run_lookups (of_ten ∷ []) three_lines ≡ some t')
    × IsLru t' (order_of (of_ten ∷ []) three_lines (1 ∷ 0 ∷ 2 ∷ []))
    × (map contents t'.lines ≡ map contents three_lines.lines)
    × ((xs : List ℕ) (y : ℕ)
        → order_of (of_ten ∷ []) three_lines (1 ∷ 0 ∷ 2 ∷ []) ≡ xs ++ y ∷ []
        → find (has_tag free) three_lines ≡ none
        → pick_destination t' ≡ some y)
run_lookups-evicts_example =
    run_lookups-evicts (of_ten ∷ []) three_lines (1 ∷ 0 ∷ 2 ∷ []) three_lines-IsLru
      (of_ten-Fits, tt)

-- Whatever the links were.
abbrev unlinked : Table
unlinked = record three_lines { head = none; tail = some 0 }

three_lines-Widths : Widths (addr 2 8) (addr 77 20) three_lines
unfolding Address.strict_expect Address.is_valid
three_lines-Widths = record { context_fits = refl; virtual_fits = refl }

three_lines-destination : pick_destination three_lines ≡ some 2
unfolding pick_destination
three_lines-destination = refl

store_pending-Stored_example :
    Stored
      (pending_line (addr 2 8) (addr 77 20))
      2
      (page false (some 0) none 12)
      three_lines
      (store_pending commit (addr 2 8) (addr 77 20) three_lines)
store_pending-Stored_example =
    store_pending-Stored (addr 2 8) (addr 77 20) 2 (page false (some 0) none 12) three_lines
      three_lines-Widths three_lines-destination refl

fits_physical : Address.strict_expect 20 (addr 5 20) ≡ some tt
unfolding Address.strict_expect Address.is_valid
fits_physical = refl

fits_index : Address.strict_expect 2 (addr 2 2) ≡ some tt
unfolding Address.strict_expect Address.is_valid
fits_index = refl

miss-Awaits_example :
    (t' : Table) × (miss (addr 2 8) (addr 77 20) 6 three_lines ≡ some t')
    × Awaits (addr 2 8) (addr 77 20) 6 (addr 2 2) t'
miss-Awaits_example =
    miss-Awaits (addr 2 8) (addr 77 20) 6 (addr 2 2) (page false (some 0) none 12) three_lines
      three_lines-Widths fits_index three_lines-destination refl refl

-- Four lines, of which the address bits choose one.
abbrev four_lines : Table
four_lines = record three_lines {
  strategy = pseudo_random;
  lines =
      page false none none 10
      ∷ page true none none 11
      ∷ page true none none 12
      ∷ page false none none 14
      ∷ [];
}

four_lines_checked : init_strategy four_lines ≡ some four_lines
unfolding init_strategy is_power_of_two
four_lines_checked = refl

pick_destination-Inside_example : Inside (pick_destination four_lines) four_lines
pick_destination-Inside_example =
    pick_destination-Inside four_lines four_lines (λ e. cc) four_lines_checked (omega arith)
      (omega arith)

free_lines_of-clears_example :
    ((j : ℕ) (line : Line)
      → get_elem? three_lines.lines j ≡ some line
      → matches (some (addr 1 8)) (some (addr 11 20)) indexable line ≡ true
      → line.locked ≡ true
      → free_lines_of commit (addr 1 8) (some (addr 11 20)) three_lines ≡ none)
    × (NoneLocked (matches (some (addr 1 8)) (some (addr 11 20)) indexable) three_lines.lines
        → (t' : Table) × (free_lines_of commit (addr 1 8) (some (addr 11 20)) three_lines ≡ some t')
          × (find (matches (some (addr 1 8)) (some (addr 11 20)) indexable) t' ≡ none))
free_lines_of-clears_example = free_lines_of-clears (addr 1 8) (some (addr 11 20)) three_lines
