-- ===== src/Drisc.antt =====
-- arch/drisc: the tables of a core. `ContextType` of arch/simtypes.h says from which share of a
-- table an entry is taken; the tables of threads and of families keep a count of the free entries by
-- context.
pub mod RaUnit
pub mod FreeCounts
pub mod ThreadTable
pub mod FamilyTable
mod Tests
mod TableTests
use mgsim.Base.{ℕ, ◌+◌, ◌-◌, ◌%◌, ◌^◌, Bool, true, false}

pub data ContextType : Type 0 where
  normal reserved exclusive : ContextType

abbrev pub is_normal : ContextType → Bool
is_normal normal = true
is_normal reserved = false
is_normal exclusive = false

abbrev pub is_exclusive : ContextType → Bool
is_exclusive normal = false
is_exclusive reserved = false
is_exclusive exclusive = true

abbrev pub is_reserved : ContextType → Bool
is_reserved normal = false
is_reserved reserved = true
is_reserved exclusive = false

-- The range of `unsigned`, and `++` and `--` there.
abbrev pub unsigned_word : ℕ
unsigned_word = 2 ^ 32

abbrev pub increment : ℕ → ℕ
increment n = (n + 1) % unsigned_word

abbrev pub decrement : ℕ → ℕ
decrement n = (n + unsigned_word - 1) % unsigned_word

-- `m_free` of a table, by context.
pub record Free : Type 0 where
  pub free_normal : ℕ
  pub free_reserved : ℕ
  pub free_exclusive : ℕ

abbrev pub count_of : Free → ContextType → ℕ
count_of f normal = f.free_normal
count_of f reserved = f.free_reserved
count_of f exclusive = f.free_exclusive

abbrev pub with_count : Free → ContextType → ℕ → Free
with_count f normal n = record f { free_normal = n }
with_count f reserved n = record f { free_reserved = n }
with_count f exclusive n = record f { free_exclusive = n }
