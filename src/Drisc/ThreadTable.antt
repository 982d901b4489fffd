-- ===== src/Drisc/ThreadTable.antt =====
-- arch/drisc/ThreadTable.h, arch/drisc/ThreadTable.cpp: the threads of a core, and the list of the
-- entries that are free. `none` is a failed assertion. A thread's other fields are its users'.
pub mod FreeList
pub mod Entries
pub mod Reserved
pub mod Create
mod Tests
use mgsim.Base.{
  ℕ, zero, suc, ◌+◌, ◌-◌, ◌*◌, ◌%◌, max, Bool, true, false, not, Option, none, some, List, [], ◌∷◌,
  leb, ltb, ◌==◌, if◌then◌else◌, ◌>>=◌, ◌>>◌, assert, length, get_elem?, set,
}
use mgsim.Storage.{Phase, is_committing, word, elapsed}
use mgsim.Drisc.{
  ContextType, normal, reserved, exclusive, Free, count_of, with_count, unsigned_word, increment,
  decrement,
}

pub data ThreadState : Type 0 where
  empty waiting ready active running suspended unused terminated : ThreadState

abbrev pub is_empty : ThreadState → Bool
is_empty empty = true
is_empty waiting = false
is_empty ready = false
is_empty active = false
is_empty running = false
is_empty suspended = false
is_empty unused = false
is_empty terminated = false

pub record Thread : Type 0 where
  pub next : ℕ
  pub state : ThreadState

pub record ThreadTable : Type 0 where
  pub first_empty : ℕ
  pub threads : List Thread
  pub free : Free
  pub last_cycle : ℕ
  pub total_alloc : ℕ
  pub max_alloc : ℕ
  pub cur_alloc : ℕ

abbrev pub invalid_tid : ℕ
invalid_tid = unsigned_word - 1

-- The entries that are not empty.
abbrev pub used : List Thread → ℕ
used [] = 0
used (t ∷ ts) = used ts + (if is_empty t.state then 0 else 1)

-- The sum of the counts, at `unsigned`.
abbrev pub free_sum : Free → ℕ
free_sum f = (f.free_normal + f.free_reserved + f.free_exclusive) % unsigned_word

-- `IsEmpty`
pub all_free : ThreadTable → Bool
all_free t = free_sum t.free == length t.threads

-- `UpdateStats`
pub update_stats : ℕ → ThreadTable → ThreadTable
update_stats cycle t =
    let f = t.free in
    let cur =
      (length t.threads + 3 * word - f.free_reserved - f.free_exclusive - f.free_normal)
      % unsigned_word in
    record t {
      last_cycle = cycle;
      cur_alloc = cur;
      total_alloc = (t.total_alloc + cur * elapsed cycle t.last_cycle) % unsigned_word;
      max_alloc = max t.max_alloc cur;
    }

-- `CheckStateSanity`
pub check_state_sanity : ThreadTable → Option (Unit {0})
check_state_sanity t = do
  assert (leb t.free.free_normal (length t.threads))
  assert (leb t.free.free_reserved (length t.threads))
  assert (leb t.free.free_exclusive 1)
  assert (leb (used t.threads) (length t.threads))
  assert ((free_sum t.free + used t.threads) % word == length t.threads)

-- `GetNumFreeThreads`
pub num_free_threads : ContextType → ThreadTable → Option ℕ
unfolding check_state_sanity
num_free_threads context t = do check_state_sanity t; some (count_of t.free context)

-- What `ReserveThread` and `UnreserveThread` do in the commit phase, at a cycle.
pub move_to_reserved : ℕ → ThreadTable → ThreadTable
unfolding update_stats
move_to_reserved cycle t = record (update_stats cycle t) {
  free = record t.free {
    free_normal = decrement t.free.free_normal;
    free_reserved = increment t.free.free_reserved;
  };
}

pub move_to_normal : ℕ → ThreadTable → ThreadTable
unfolding update_stats
move_to_normal cycle t = record (update_stats cycle t) {
  free = record t.free {
    free_normal = increment t.free.free_normal;
    free_reserved = decrement t.free.free_reserved;
  };
}

-- An operation between two checks of the table's sanity.
pub checked : (ThreadTable → ThreadTable) → Phase → ThreadTable → Option ThreadTable
unfolding check_state_sanity
checked f phase t = do
  check_state_sanity t
  let t' = if is_committing phase then f t else t
  check_state_sanity t'
  some t'

-- `ReserveThread` and `UnreserveThread`
pub reserve_thread : Phase → ℕ → ThreadTable → Option ThreadTable
unfolding checked move_to_reserved
reserve_thread phase cycle = checked (move_to_reserved cycle) phase

pub unreserve_thread : Phase → ℕ → ThreadTable → Option ThreadTable
unfolding checked move_to_normal
unreserve_thread phase cycle = checked (move_to_normal cycle) phase

-- The first entry of the list of free entries is taken.
pub take_entry : ℕ → ContextType → ℕ → Thread → ThreadTable → ThreadTable
unfolding update_stats
take_entry cycle context tid thread t = record (update_stats cycle t) {
  first_empty = thread.next;
  threads = set t.threads tid (record thread { state = waiting });
  free = with_count t.free context (decrement (count_of t.free context));
}

-- `PopEmpty`: the entry taken, or `invalid_tid`.
pub pop_empty : Phase → ℕ → ContextType → ThreadTable → Option (ℕ × ThreadTable)
unfolding check_state_sanity take_entry
pop_empty phase cycle context t = do
  check_state_sanity t
  if ltb 0 (count_of t.free context)
      then (do
        assert (not (t.first_empty == invalid_tid))
        thread ← get_elem? t.threads t.first_empty
        assert (is_empty thread.state)
        let t' = if is_committing phase then take_entry cycle context t.first_empty thread t else t
        check_state_sanity t'
        some (t.first_empty, t'))
      else (do check_state_sanity t; some (invalid_tid, t))

-- The entry goes to the front of the list of free entries.
pub give_entry : ℕ → ContextType → ℕ → ThreadTable → ThreadTable
unfolding update_stats
give_entry cycle context tid t = record (update_stats cycle t) {
  first_empty = tid;
  threads = set t.threads tid (record { next = t.first_empty; state = empty });
  free = with_count t.free context (increment (count_of t.free context));
}

-- `PushEmpty`
pub push_empty : Phase → ℕ → ℕ → ContextType → ThreadTable → Option ThreadTable
unfolding check_state_sanity give_entry
push_empty phase cycle tid context t = do
  check_state_sanity t
  assert (not (tid == invalid_tid))
  let t' = if is_committing phase then give_entry cycle context tid t else t
  check_state_sanity t'
  some t'

-- The constructor: each entry leads to the next.
pub fresh_threads : ℕ → ℕ → List Thread
fresh_threads i zero = []
fresh_threads i (suc zero) = record { next = invalid_tid; state = empty } ∷ []
fresh_threads i (suc (suc n)) =
    record { next = i + 1; state = empty } ∷ fresh_threads (i + 1) (suc n)

pub create : ℕ → ThreadTable
unfolding fresh_threads
create n = record {
  first_empty = 0;
  threads = fresh_threads 0 n;
  free = record { free_normal = n - 1; free_reserved = 0; free_exclusive = 1 };
  last_cycle = 0;
  total_alloc = 0;
  max_alloc = 0;
  cur_alloc = 0;
}
