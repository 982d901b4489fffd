-- ===== src/Storage/LinkedList.antt =====
-- sim/linkedlist.h, sim/linkedlist.hpp: a queue of the indices of a table, linked through a field of
-- the table's entries. `none` is a failed assertion.
pub mod Chain
pub mod Laws
pub mod Cycles
mod Tests
use mgsim.Base.{
  ℕ, Bool, true, false, not, Option, none, some, ◌==◌, if◌then◌else◌, ◌>>=◌, ◌>>◌, assert,
}
use mgsim.Storage.{Context, is_committing, Storage, register_update, notify, unnotify}

-- The next fields of the table, which belongs to the list's owner.
abbrev pub Table : Type 0
Table = ℕ → ℕ

-- `m_table[i].*N = v`
abbrev pub write : Table → ℕ → ℕ → Table
write t i v j = if i == j then v else t j

pub record LinkedList : Type 0 where
  pub base : Storage
  pub empty : Bool
  pub popped : Bool
  pub pushed : Bool
  pub head : ℕ
  pub tail : ℕ
  pub next : ℕ
  pub first : ℕ
  pub last : ℕ

-- `Singular`
pub singular : LinkedList → Option Bool
singular l = do assert (not l.empty); some (l.head == l.tail)

-- `Front`
pub front : LinkedList → Option ℕ
front l = do assert (not l.empty); some l.head

-- `Append`
pub append : Context → ℕ → ℕ → LinkedList → Option LinkedList
append c first last l = do
  assert c.own_clock
  assert (not l.pushed)
  some (
      if is_committing c.phase
      then record l { first = first; last = last; pushed = true; base = register_update l.base }
      else l)

-- `Push`
pub push : Context → ℕ → LinkedList → Option LinkedList
push c item l = append c item item l

-- `Pop`
pub pop : Context → Table → LinkedList → Option LinkedList
pop c t l = do
  assert c.own_clock
  assert (not l.empty)
  assert (not l.popped)
  some (
      if is_committing c.phase
      then record l { popped = true; next = t l.head; base = register_update l.base }
      else l)

-- The first part of `Update`.
pub effect_pop : LinkedList → Option LinkedList
effect_pop l =
    if l.popped
    then (do
      assert (not l.empty)
      some (
          if l.head == l.tail
          then record l { base = unnotify l.base; empty = true }
          else record l { head = l.next }))
    else some l

-- The second part, which may write the table.
pub effect_push : LinkedList → Table → LinkedList × Table
effect_push l t =
    if l.pushed
    then if l.empty
      then (record l { head = l.first; base = notify l.base; empty = false; tail = l.last }, t)
      else (record l { tail = l.last }, write t l.tail l.first)
    else (l, t)

-- `Update`
pub update : LinkedList → Table → Option (LinkedList × Table)
update l t = do
  l1 ← effect_pop l
  let (l2, t2) = effect_push l1 t
  some (record l2 { pushed = false; popped = false }, t2)
