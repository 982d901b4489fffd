-- ===== src/Drisc/FamilyTable.antt =====
-- arch/drisc/FamilyTable.h, arch/drisc/FamilyTable.cpp: the families of a core. The last entry is the
-- exclusive one. `none` is a failed assertion. A family's other fields are its users'.
pub mod Entries
pub mod Changes
mod Tests
use mgsim.Base.{
  ℕ, zero, suc, ◌+◌, ◌-◌, ◌*◌, ◌%◌, max, Bool, true, false, not, Option, none, some, List, [], ◌∷◌,
  leb, ltb, ◌==◌, if◌then◌else◌, ◌>>=◌, ◌>>◌, assert, length, get_elem?, set, replicate,
}
use mgsim.Storage.{Phase, is_committing, word, elapsed}
use mgsim.Drisc.{
  ContextType, normal, reserved, exclusive, is_exclusive, Free, count_of, with_count, unsigned_word,
  increment, decrement,
}

pub data FamilyState : Type 0 where
  empty allocated create_queued creating active terminated : FamilyState

abbrev pub is_empty : FamilyState → Bool
is_empty empty = true
is_empty allocated = false
is_empty create_queued = false
is_empty creating = false
is_empty active = false
is_empty terminated = false

pub record FamilyTable : Type 0 where
  pub families : List FamilyState
  pub free : Free
  pub last_cycle : ℕ
  pub total_alloc : ℕ
  pub max_alloc : ℕ
  pub cur_alloc : ℕ

abbrev pub invalid_lfid : ℕ
invalid_lfid = unsigned_word - 1

abbrev pub used : List FamilyState → ℕ
used [] = 0
used (s ∷ ss) = used ss + (if is_empty s then 0 else 1)

-- `m_families.back()`
pub back : List FamilyState → Option FamilyState
back families = get_elem? families (length families - 1)

-- `IsEmpty`
pub all_free : FamilyTable → Bool
all_free t =
    (t.free.free_normal + t.free.free_reserved + t.free.free_exclusive) % unsigned_word
    == length t.families

-- `UpdateStats`
pub update_stats : ℕ → FamilyTable → FamilyTable
update_stats cycle t =
    let cur =
      (length t.families + 2 * word - t.free.free_exclusive - t.free.free_normal) % unsigned_word in
    record t {
      last_cycle = cycle;
      cur_alloc = cur;
      total_alloc = (t.total_alloc + cur * elapsed cycle t.last_cycle) % unsigned_word;
      max_alloc = max t.max_alloc cur;
    }

-- `a ^ b` on truth values.
abbrev pub xor : Bool → Bool → Bool
xor true b = not b
xor false b = b

-- `CheckStateSanity`
pub check_state_sanity : FamilyTable → Option (Unit {0})
unfolding back
check_state_sanity t = do
  assert (leb t.free.free_exclusive 1)
  last ← back t.families
  assert (xor (t.free.free_exclusive == 1) (not (is_empty last)))
  assert (
      ((t.free.free_normal + t.free.free_exclusive) % unsigned_word + used t.families) % word
      == length t.families)

-- The associative lookup: the first empty entry, of those before the last.
pub first_empty : ℕ → List FamilyState → ℕ
first_empty i [] = invalid_lfid
first_empty i (s ∷ []) = invalid_lfid
first_empty i (s ∷ r ∷ ss) = if is_empty s then i else first_empty (i + 1) (r ∷ ss)

-- The entry is the family's.
pub take_entry : ℕ → ContextType → ℕ → FamilyTable → FamilyTable
unfolding update_stats
take_entry cycle context fid t = record (update_stats cycle t) {
  families = set t.families fid allocated;
  free = with_count t.free context (decrement (count_of t.free context));
}

-- `AllocateFamily`: the entry, or `invalid_lfid`.
pub allocate_family : Phase → ℕ → ContextType → FamilyTable → Option (ℕ × FamilyTable)
unfolding check_state_sanity first_empty take_entry
allocate_family phase cycle context t = do
  check_state_sanity t
  if ltb 0 (count_of t.free context)
      then (do
        let fid = if is_exclusive context then length t.families - 1 else first_empty 0 t.families
        assert (not (fid == invalid_lfid))
        state ← get_elem? t.families fid
        assert (is_empty state)
        some (fid, if is_committing phase then take_entry cycle context fid t else t))
      else some (invalid_lfid, t)

-- `GetNumFreeFamilies` and `GetNumUsedFamilies`
pub num_free_families : ContextType → FamilyTable → Option ℕ
num_free_families context t = do
  assert (leb ((t.free.free_normal + t.free.free_exclusive) % unsigned_word) (length t.families))
  some (count_of t.free context)

pub num_used_families : ContextType → FamilyTable → Option ℕ
num_used_families context t = do
  assert (leb ((t.free.free_normal + t.free.free_exclusive) % unsigned_word) (length t.families))
  some (
      ((if not (is_exclusive context) then length t.families - 1 else 1)
        + word
        - count_of t.free context)
      % unsigned_word)

-- The entry goes back.
pub give_entry : ℕ → ContextType → ℕ → FamilyTable → FamilyTable
unfolding update_stats
give_entry cycle context fid t = record (update_stats cycle t) {
  families = set t.families fid empty;
  free = with_count t.free context (increment (count_of t.free context));
}

-- `FreeFamily`
pub free_family : Phase → ℕ → ℕ → ContextType → FamilyTable → Option FamilyTable
unfolding check_state_sanity give_entry
free_family phase cycle fid context t = do
  assert (not (fid == invalid_lfid))
  check_state_sanity t
  some (if is_committing phase then give_entry cycle context fid t else t)

-- The constructor.
pub create : ℕ → FamilyTable
create n = record {
  families = replicate n empty;
  free = record { free_normal = n - 1; free_reserved = 0; free_exclusive = 1 };
  last_cycle = 0;
  total_alloc = 0;
  max_alloc = 0;
  cur_alloc = 0;
}
