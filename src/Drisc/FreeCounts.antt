-- ===== src/Drisc/FreeCounts.antt =====
-- The counts of free entries of a table, within the range of `unsigned`.
use mgsim.Base.{ℕ, ◌+◌, ◌≡◌, ◌<◌, ◌≤◌, arith}
use mgsim.Drisc.{
  ContextType, normal, reserved, exclusive, Free, count_of, with_count, unsigned_word, increment,
  decrement,
}

abbrev pub total : Free → ℕ
total f = f.free_normal + f.free_reserved + f.free_exclusive

pub record Decremented (f : Free) (context : ContextType) (f' : Free) : Type 0 where
  pub total_falls : total f' + 1 ≡ total f
  pub count_falls : count_of f' context + 1 ≡ count_of f context
  pub exclusive_kept : f'.free_exclusive ≤ f.free_exclusive

pub with_count-Decremented :
    (f : Free) (context : ContextType)
    → 0 < count_of f context
    → total f < unsigned_word
    → Decremented f context (with_count f context (decrement (count_of f context)))
with_count-Decremented f normal p w = omega arith
with_count-Decremented f reserved p w = omega arith
with_count-Decremented f exclusive p w = omega arith

-- An exclusive entry is returned only while none is free.
abbrev pub CanReturn : Free → ContextType → Type 0
CanReturn f normal = Unit {0}
CanReturn f reserved = Unit {0}
CanReturn f exclusive = f.free_exclusive ≡ 0

pub record Incremented (f : Free) (context : ContextType) (f' : Free) : Type 0 where
  pub total_grows : total f' ≡ total f + 1
  pub count_grows : count_of f' context ≡ count_of f context + 1
  pub one_exclusive : f'.free_exclusive ≤ 1

pub with_count-Incremented :
    (f : Free) (context : ContextType)
    → CanReturn f context
    → f.free_exclusive ≤ 1
    → total f + 1 < unsigned_word
    → Incremented f context (with_count f context (increment (count_of f context)))
with_count-Incremented f normal c x w = omega arith
with_count-Incremented f reserved c x w = omega arith
with_count-Incremented f exclusive c x w = omega arith

pub count_of-le-total : (f : Free) (context : ContextType) → count_of f context ≤ total f
count_of-le-total f normal = omega arith
count_of-le-total f reserved = omega arith
count_of-le-total f exclusive = omega arith
