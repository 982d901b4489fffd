-- ===== src/Memory/Tests.antt =====
-- Reservations of arch/VirtualMemory.cpp and selectors of arch/BankSelector.cpp on concrete inputs.
use mgsim.Base.{ℕ, ◌≡◌, refl, inl, inr, none, some, [], ◌∷◌, ◌>>=◌, arith}
use mgsim.Memory.Banks.{xor_fold}
use mgsim.Memory.Banks.Laws.{Mapped, map_address-Mapped}
use mgsim.Memory.Ranges.{Range, Ranges, reserve, unreserve}
use mgsim.Memory.Ranges.Disjoint.{
  Disjoint, Free, Overlaps, sizes, with_range, reserve_lem, unreserve-reserve_range,
}

abbrev range : ℕ → Range
range n = record { size = n; owner = 1; permissions = 3 }

-- 100 to 119 and 200 to 249 are reserved.
abbrev two_ranges : Ranges
two_ranges = record {
  ranges = (100, range 20) ∷ (200, range 50) ∷ [];
  total_reserved = 70;
  number_of_ranges = 2;
}

abbrev two_ranges-Disjoint : Disjoint 0 two_ranges.ranges
two_ranges-Disjoint =
    (omega arith, omega arith, omega arith, (omega arith, omega arith, omega arith, tt))

reserve_lem_example :
    (Free 150 30 two_ranges.ranges
      → (m' : Ranges) × (reserve 150 (range 30) two_ranges ≡ some m')
        × (m'.ranges ≡ with_range 150 (range 30) two_ranges.ranges)
        × Disjoint 0 m'.ranges
        × (m'.total_reserved ≡ sizes m'.ranges))
    × (Overlaps 150 30 two_ranges.ranges → reserve 150 (range 30) two_ranges ≡ none)
reserve_lem_example =
    reserve_lem 150 (range 30) two_ranges (omega arith) (omega arith) two_ranges-Disjoint refl
      (omega arith)

unreserve-reserve_range_example :
    (reserve 150 (range 30) two_ranges >>= λ m'. unreserve 150 30 m') ≡ some two_ranges
unreserve-reserve_range_example =
    unreserve-reserve_range 150 (range 30) two_ranges (omega arith) (omega arith)
      two_ranges-Disjoint (inr (omega arith), (inl (omega arith), tt)) (omega arith) (omega arith)

map_address-Mapped_example : (tag index : ℕ) × Mapped xor_fold 4 201 tag index
map_address-Mapped_example = map_address-Mapped xor_fold 4 201 (omega arith) (omega arith)
