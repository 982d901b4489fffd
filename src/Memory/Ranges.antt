-- ===== src/Memory/Ranges.antt =====
-- arch/VirtualMemory.cpp: the reservations. The map is a list in the order of its keys; `none` is an
-- exception that the method throws. Addresses and sizes are 64 bits wide.
pub mod Disjoint
pub mod Lookup
pub mod Owners
mod Tests
use Prim.Native.Nat.{bit_and}
use mgsim.Base.{
  ℕ, ◌+◌, ◌-◌, ◌%◌, Bool, true, false, ◌&&◌, ◌||◌, Option, none, some, List, [], ◌∷◌, ltb, leb,
  ◌==◌, if◌then◌else◌, ◌>>=◌,
}
use mgsim.Storage.{word}

pub record Range : Type 0 where
  pub size : ℕ
  pub owner : ℕ
  pub permissions : ℕ

abbrev pub Entry : Type 0
Entry = ℕ × Range

pub record Ranges : Type 0 where
  pub ranges : List Entry
  pub total_reserved : ℕ
  pub number_of_ranges : ℕ

-- Does a reservation of `size` at `address` overlap the range that begins at or behind it?
pub overlaps_behind : ℕ → ℕ → ℕ → Bool
overlaps_behind address size b = b == address || (ltb address b && ltb b ((address + size) % word))

-- Does it overlap the range before it?
pub overlaps_before : ℕ → Option Entry → Bool
overlaps_before address none = false
overlaps_before address (some (b, r)) = ltb address ((b + r.size) % word)

-- `lower_bound`, the two tests and `insert` of `Reserve`; `prev` is the entry passed last.
pub insert_range : ℕ → Range → Option Entry → List Entry → Option (List Entry)
unfolding overlaps_behind overlaps_before
insert_range address range prev [] =
    if overlaps_before address prev then none else some ((address, range) ∷ [])
insert_range address range prev ((b, r) ∷ es) =
    let rest = insert_range address range (some (b, r)) es in
    if ltb b address
    then elim rest [ none ↦ none | some es' ↦ some ((b, r) ∷ es') ]
    else if overlaps_behind address range.size b
    then none
    else if overlaps_before address prev
    then none
    else some ((address, range) ∷ (b, r) ∷ es)

-- `Reserve`
pub reserve : ℕ → Range → Ranges → Option Ranges
reserve address range m = if range.size == 0 then some m else (do
  es ← insert_range address range none m.ranges
  some (record {
    ranges = es;
    total_reserved = (m.total_reserved + range.size) % word;
    number_of_ranges = (m.number_of_ranges + 1) % word;
  }))

-- The iterator that `GetReservationRange` comes to: the last range that begins at or before the
-- address, or the first range if there is none such.
pub candidate : ℕ → Option Entry → List Entry → Option Entry
candidate address prev [] = prev
candidate address prev ((b, r) ∷ es) =
    let rest = candidate address (some (b, r)) es in
    if ltb b address
    then rest
    else if ltb address b
    then elim prev [ none ↦ some (b, r) | some e ↦ some e ]
    else some (b, r)

-- The test on that range.
pub contains : ℕ → ℕ → Entry → Bool
contains address size (b, r) =
    leb b address && leb size r.size && leb address ((b + (r.size - size)) % word)

-- The range, if it holds the bytes.
pub covering : ℕ → ℕ → Option Entry → Option Range
unfolding contains
covering address size none = none
covering address size (some (b, r)) = if contains address size (b, r) then some r else none

-- `GetReservationRange`
pub reservation_range : ℕ → ℕ → List Entry → Option Range
unfolding candidate covering
reservation_range address size es = covering address size (candidate address none es)

-- `has`
pub has : ℕ → ℕ → Ranges → Bool
has address size m = elim (reservation_range address size m.ranges) [ none ↦ false | some r ↦ true ]

-- Does the range grant all of the access?
pub permitted : ℕ → Option Range → Bool
permitted access none = false
permitted access (some r) = bit_and r.permissions access == access

-- `CheckPermissions`
pub check_permissions : ℕ → ℕ → ℕ → Ranges → Bool
unfolding permitted
check_permissions address size access m = permitted access (reservation_range address size m.ranges)

-- `find` and `erase` of `Unreserve`: the range removed and the entries left.
pub remove_range : ℕ → List Entry → Option (Range × List Entry)
remove_range address [] = none
remove_range address ((b, r) ∷ es) =
    let rest = remove_range address es in
    if b == address
    then some (r, es)
    else elim rest [ none ↦ none | some (q, es') ↦ some (q, (b, r) ∷ es') ]

-- `Unreserve`
pub unreserve : ℕ → ℕ → Ranges → Option Ranges
unreserve address size m = do
  (r, es) ← remove_range address m.ranges
  if size == r.size
      then some (record {
        ranges = es;
        total_reserved = (m.total_reserved + word - r.size) % word;
        number_of_ranges = (m.number_of_ranges + word - 1) % word;
      })
      else none

-- The loop of `UnreserveAll`: the entries left, and the two counters.
pub remove_owned : ℕ → List Entry → ℕ → ℕ → List Entry × ℕ × ℕ
remove_owned pid [] total count = ([], total, count)
remove_owned pid ((b, r) ∷ es) total count = elim (r.owner == pid) [
  | true ↦ remove_owned pid es ((total + word - r.size) % word) ((count + word - 1) % word)
  | false ↦
      let (es', total', count') = remove_owned pid es total count in ((b, r) ∷ es', total', count')
]

-- `UnreserveAll`
pub unreserve_all : ℕ → Ranges → Ranges
unfolding remove_owned
unreserve_all pid m =
    let (es, total, count) = remove_owned pid m.ranges m.total_reserved m.number_of_ranges in
    record { ranges = es; total_reserved = total; number_of_ranges = count }
