-- ===== src/Memory/Ranges/Tests.antt =====
-- Queries of the reservations of arch/VirtualMemory.cpp.
use mgsim.Base.{◌≡◌, refl, ◌↔◌, arith, length, true, false, [], ◌∷◌}
use mgsim.Memory.Ranges.{
  Ranges, reservation_range, candidate, contains, covering, permitted, has, check_permissions,
  unreserve_all, remove_owned,
}
use mgsim.Memory.Ranges.Disjoint.{Disjoint, sizes}
use mgsim.Memory.Ranges.Lookup.{Granted, check_permissions_lem}
use mgsim.Memory.Ranges.Owners.{others, unreserve_all_lem}

-- Readable bytes from 100 to 119, of process 1, and writable ones from 200 to 249, of process 2.
abbrev owned : Ranges
owned = record {
  ranges =
      (100, record { size = 20; owner = 1; permissions = 1 })
      ∷ (200, record { size = 50; owner = 2; permissions = 3 })
      ∷ [];
  total_reserved = 70;
  number_of_ranges = 2;
}

has_run : (has 110 10 owned ≡ true) × (has 110 11 owned ≡ false) × (has 99 1 owned ≡ false)
unfolding has reservation_range candidate contains covering permitted
has_run = (refl, refl, refl)

check_permissions_run :
    (check_permissions 110 5 2 owned ≡ false) × (check_permissions 210 5 2 owned ≡ true)
unfolding check_permissions reservation_range candidate contains covering permitted
check_permissions_run = (refl, refl)

unreserve_all_run : unreserve_all 1 owned ≡ record {
  ranges = (200, record { size = 50; owner = 2; permissions = 3 }) ∷ [];
  total_reserved = 50;
  number_of_ranges = 1;
}
unfolding unreserve_all remove_owned
unreserve_all_run = refl

owned-Disjoint : Disjoint 0 owned.ranges
owned-Disjoint =
    (omega arith, omega arith, omega arith, (omega arith, omega arith, omega arith, tt))

check_permissions_lem_example :
    (check_permissions 210 5 2 owned ≡ true) ↔ Granted 210 5 2 owned.ranges
check_permissions_lem_example = check_permissions_lem 210 5 2 owned (omega arith) owned-Disjoint

unreserve_all_lem_example :
    (unreserve_all 1 owned ≡ record {
      ranges = others 1 owned.ranges;
      total_reserved = sizes (others 1 owned.ranges);
      number_of_ranges = length (others 1 owned.ranges);
    })
    × Disjoint 0 (others 1 owned.ranges)
unreserve_all_lem_example =
    unreserve_all_lem 1 owned owned-Disjoint refl refl (omega arith) (omega arith)
