-- ===== src/Storage/Tests.antt =====
-- Runs of the storages of sim/ on concrete inputs.
use mgsim.Base.{ℕ, ◌≡◌, ◌≢◌, refl, inr, true, false, some, [], ◌∷◌, arith, ◌==◌, if◌then◌else◌}
use mgsim.Storage.{activate_process}
use mgsim.Storage.Register.{Register}
use mgsim.Storage.Register.Laws as RegisterLaws
use mgsim.Storage.Register.Laws.{cycle-next}
use mgsim.Storage.Flag.{Flag}
use mgsim.Storage.Flag.Laws as FlagLaws
use mgsim.Storage.Flag.Laws.{flag_cycle_lem}
use mgsim.Storage.LinkedList.{LinkedList, Table}
use mgsim.Storage.LinkedList.Laws as ListLaws
use mgsim.Storage.LinkedList.Cycles as ListCycles
use mgsim.Storage.LinkedList.Cycles.{list_cycle_lem}

-- A register that holds 4.
abbrev four : Register ℕ
four = record {
  base = record { activated = false; calls = activate_process ∷ [] };
  cur = 4;
  new = 0;
  empty = false;
  cleared = false;
  assigned = false;
}

cycle-next_example :
    (r' : Register ℕ) × (RegisterLaws.cycle true (some 6) four ≡ some r')
    × RegisterLaws.Reached (RegisterLaws.next true (some 6) (RegisterLaws.value four)) r'
cycle-next_example =
    cycle-next true (some 6) four (record { not_cleared = refl; not_assigned = refl }) refl
      (inr refl)

-- A flag that is clear.
abbrev lowered : Flag
lowered = record {
  base = record { activated = false; calls = [] };
  is_set = false;
  updated = false;
  new = false;
  stalls = 0;
  last_cycle = 0;
  total_size = 0;
}

flag_cycle_lem_example :
    let (oks, f') = FlagLaws.cycle 1 (true ∷ false ∷ []) lowered in
    (oks ≡ true ∷ false ∷ []) × (f'.is_set ≡ true) × FlagLaws.IsIdle f' × FlagLaws.IsSensitive f'
flag_cycle_lem_example =
    flag_cycle_lem 1 (true ∷ false ∷ []) lowered
      (record { not_updated = refl; not_activated = refl }) refl

-- The list 1, 2 in a table in which 3 leads to 4.
abbrev links : Table
links i = if i == 1 then 2 else if i == 3 then 4 else 0

abbrev one_two : LinkedList
one_two = record {
  base = record { activated = false; calls = activate_process ∷ [] };
  empty = false;
  popped = false;
  pushed = false;
  head = 1;
  tail = 2;
  next = 0;
  first = 0;
  last = 0;
}

ne : (a b : ℕ) → (a == b) ≡ false → a ≢ b
ne a b h = ground arith

list_cycle_lem_example :
    (l' : LinkedList) × (t' : Table) × (ListCycles.cycle true (some (3, 4)) one_two links
      ≡ some (l', t'))
    × ListLaws.Good l' t' (2 ∷ 3 ∷ 4 ∷ [])
    × ListLaws.IsIdle l'
list_cycle_lem_example =
    list_cycle_lem true (some (3, 4)) one_two links (1 ∷ 2 ∷ []) (3 ∷ 4 ∷ [])
      (record { holds = (refl, (refl, refl)); sensitive = refl })
      (record { not_popped = refl; not_pushed = refl }) (inr refl) (refl, (refl, refl))
      (
        (ne 1 2 refl, (ne 1 3 refl, (ne 1 4 refl, tt))),
        ((ne 2 3 refl, (ne 2 4 refl, tt)), ((ne 3 4 refl, tt), (tt, tt))),
      )
