-- ===== src/Storage/Buffer.antt =====
-- sim/buffer.h, sim/buffer.hpp: a bounded queue of items. Pushes and the pop of a cycle are noted in
-- the commit phase, and `update` effects them between cycles. `none` is a failed assertion, or a
-- `pop_front` of an empty queue.
pub mod Valid
pub mod Fifo
pub mod Sensitive
pub mod Idle
pub mod Answer
mod Tests
use mgsim.Base.{
  ℕ, ◌+◌, ◌-◌, ◌*◌, ◌%◌, max, Bool, true, false, not, ◌||◌, Option, none, some, List, [], ◌∷◌, ◌++◌,
  ltb, leb, ◌==◌, if◌then◌else◌, ◌>>◌, ◌>>=◌, assert, length, set, take,
}
use mgsim.Storage.{
  Context, is_committing, is_acquiring, Storage, register_update, notify, unnotify, word, elapsed,
}

-- `m_new` is the array of the items pushed in this cycle, of which the first `pushes` count.
pub record Buffer {ℓ} (A : Type ℓ) : Type ℓ where
  pub base : Storage
  pub max_size : ℕ
  pub max_pushes : ℕ
  pub items : List A
  pub pushes : ℕ
  pub new : List A
  pub popped : Bool
  pub stalls : ℕ
  pub last_cycle : ℕ
  pub total_size : ℕ
  pub max_eff_size : ℕ
  pub cur_size : ℕ

-- `INFINITE`, the size of an unbounded buffer.
abbrev pub infinite : ℕ
infinite = word - 1

module _ {ℓ} {A : Type ℓ} where
  unfoldable pub is_empty : List A → Bool
  is_empty [] = true
  is_empty (x ∷ xs) = false

  -- `Front`
  unfoldable pub front : Buffer A → Option A
  front b = elim b.items [ [] ↦ none | x ∷ xs ↦ some x ]

  -- `Pop`
  unfoldable pub pop : Context → Buffer A → Option (Buffer A)
  pop c b = do
    assert c.own_clock
    assert (not b.popped)
    some (
        if is_committing c.phase
        then record b { popped = true; base = register_update b.base }
        else b)

  -- There is room for `min_space` more items (`size_t` arithmetic).
  unfoldable pub has_room : Buffer A → ℕ → Bool
  has_room b min_space =
      b.max_size == infinite || leb ((length b.items + b.pushes + min_space) % word) b.max_size

  -- The part of `Push` behind its checks on the number of pushes.
  unfoldable pub push_room : Context → Buffer A → A → ℕ → Bool × Buffer A
  unfolding has_room
  push_room c b item min_space =
      if has_room b min_space
      then (
        true,
        if is_committing c.phase
            then record b {
              new = set b.new b.pushes item;
              base = if b.pushes == 0 then register_update b.base else b.base;
              pushes = b.pushes + 1;
            }
            else b,
      )
      else (false, if is_acquiring c.phase then record b { stalls = (b.stalls + 1) % word } else b)

  -- `Push`
  unfoldable pub push : Context → Buffer A → A → ℕ → Option (Bool × Buffer A)
  unfolding push_room
  push c b item min_space = do
    assert (leb 1 min_space)
    if not (b.max_pushes == 1)
        then (do
          assert c.own_clock
          assert (ltb b.pushes b.max_pushes)
          some (push_room c b item min_space))
        else if b.pushes == 1
        then some (false, b)
        else some (push_room c b item min_space)

  -- The first part of `Update`: the pushed items go to the end of the queue.
  unfoldable pub effect_pushes : Buffer A → Buffer A
  unfolding is_empty
  effect_pushes b =
      if ltb 0 b.pushes
      then record b {
        base = if is_empty b.items then notify b.base else b.base;
        items = b.items ++ take b.pushes b.new;
      }
      else b

  -- The second part: the first item leaves.
  unfoldable pub pop_front : Buffer A → List A → Option (Buffer A)
  unfolding is_empty
  pop_front b [] = none
  pop_front b (x ∷ xs) =
      some (record b { items = xs; base = if is_empty xs then unnotify b.base else b.base })

  unfoldable pub effect_pop : Buffer A → Option (Buffer A)
  unfolding pop_front
  effect_pop b = if b.popped then pop_front b b.items else some b

  -- The last part: the flags and the statistics.
  unfoldable pub finish_update : ℕ → Buffer A → Buffer A
  finish_update cycle b = record b {
    pushes = 0;
    popped = false;
    last_cycle = cycle;
    cur_size = length b.items;
    total_size = (b.total_size + length b.items * elapsed cycle b.last_cycle) % word;
    max_eff_size = max b.max_eff_size (length b.items);
  }

  -- `Update`, at the kernel's cycle number.
  unfoldable pub update : ℕ → Buffer A → Option (Buffer A)
  update cycle b = do b' ← effect_pop (effect_pushes b); some (finish_update cycle b')

-- The constructor asserts that the array has a slot for each push of a cycle.
abbrev pub max_slots : ℕ
max_slots = 4
