-- ===== src/Tlb/Table.antt =====
-- arch/drisc/mmu/Table.h, arch/drisc/mmu/Table.cpp: the lines of a table, and what looks for them,
-- fills them and frees them. A pointer to a line is the line's index, and `none` a null pointer; for an
-- operation `none` is a failed assertion, an exception or the use of a null pointer.
pub mod Store
pub mod Links
pub mod Unlink
pub mod Lru
pub mod Order
pub mod Init
pub mod Start
pub mod Evict
pub mod Locked
pub mod Pending
pub mod Victim
pub mod Free
mod Tests
use Prim.Native.Nat.{bit_and, bit_xor}
use mgsim.Base.{
  ℕ, zero, suc, ◌+◌, ◌-◌, ◌*◌, ◌/◌, ◌^◌, Bool, true, false, not, ◌&&◌, Option, none, some, List, [],
  ◌∷◌, ltb, ◌==◌, if◌then◌else◌, ◌>>=◌, ◌>>◌, assert, length, get_elem?, replicate,
}
use mgsim.Storage.{Phase, is_committing}
use mgsim.Log2.{is_power_of_two, ilog2}
use mgsim.Tlb.Address.{RAddr, strict_expect, same_value}

pub data EvictionStrategy : Type 0 where
  pseudo_random by_access lru : EvictionStrategy

pub data LineTag : Type 0 where
  free pending normal n_locked indexable tag_present tag_locked : LineTag

abbrev pub mask : LineTag → ℕ
mask free = 0x1
mask pending = 0x2
mask normal = 0x4
mask n_locked = 0x8
mask indexable = 0xE
mask tag_present = 0xC
mask tag_locked = 0xA

pub record Line : Type 0 where
  pub present : Bool
  pub locked : Bool
  pub accessed : Bool
  pub previous : Option ℕ
  pub next : Option ℕ
  pub context_id : RAddr
  pub virtual_address : RAddr
  pub physical_address : RAddr
  pub data_line : ℕ
  pub read : Bool
  pub write : Bool

pub record Table : Type 0 where
  pub context_width : ℕ
  pub virtual_width : ℕ
  pub physical_width : ℕ
  pub index_width : ℕ
  pub strategy : EvictionStrategy
  pub lines : List Line
  pub head : Option ℕ
  pub tail : Option ℕ

-- The constructor of a line.
pub empty_line : ℕ → ℕ → ℕ → Line
empty_line context_width virtual_width physical_width = record {
  present = false;
  locked = false;
  accessed = false;
  previous = none;
  next = none;
  context_id = record { value = 0; width = context_width };
  virtual_address = record { value = 0; width = virtual_width };
  physical_address = record { value = 0; width = physical_width };
  data_line = 0;
  read = false;
  write = false;
}

-- `(present << 1) | locked`
abbrev pub line_type : Bool → Bool → ℕ
line_type false false = 0
line_type false true = 1
line_type true false = 2
line_type true true = 3

-- `Line::is`
pub has_tag : LineTag → Line → Bool
has_tag cmp line =
    let type = line_type line.present line.locked in bit_and (mask cmp) (2 ^ type) / 2 ^ type == 1

-- A null pointer matches any address.
abbrev pub matches_value : Option RAddr → RAddr → Bool
matches_value none b = true
matches_value (some a) b = same_value a b

-- `Line::is` of a context, an address and a tag.
pub matches : Option RAddr → Option RAddr → LineTag → Line → Bool
unfolding has_tag
matches context address tag line =
    has_tag tag line
    && (matches_value context line.context_id && matches_value address line.virtual_address)

-- The write of one line.
abbrev pub modify : (Line → Line) → ℕ → List Line → List Line
modify f i [] = []
modify f zero (l ∷ ls) = f l ∷ ls
modify f (suc i) (l ∷ ls) = l ∷ modify f i ls

abbrev pub with_next : Option ℕ → Line → Line
with_next p l = record l { next = p }

abbrev pub with_previous : Option ℕ → Line → Line
with_previous p l = record l { previous = p }

-- Is it the pointer to that line?
abbrev pub points : Option ℕ → ℕ → Bool
points none i = false
points (some j) i = j == i

-- `find`: the first line of which the test holds.
pub find_from : ℕ → (Line → Bool) → List Line → Option ℕ
find_from i p [] = none
find_from i p (l ∷ ls) = if p l then some i else find_from (i + 1) p ls

pub find : (Line → Bool) → Table → Option ℕ
unfolding find_from
find p t = find_from 0 p t.lines

-- `setPrioHigh`: the line is taken out of its place, and put at the head.
pub unlink : ℕ → Table → Option Table
unlink i t = do
  line ← get_elem? t.lines i
  previous ← line.previous
  if points t.tail i
      then some
          (record t { tail = some previous; lines = modify (with_next none) previous t.lines })
      else (do
        next ← line.next
        some (record t {
          lines =
              modify (with_previous (some previous)) next
                (modify (with_next (some next)) previous t.lines);
        }))

pub link_first : ℕ → Table → Option Table
link_first i t = do
  h ← t.head
  some (record t {
    lines =
        modify (with_previous (some i)) h
          (modify (λ l. with_next (some h) (with_previous none l)) i t.lines);
    head = some i;
  })

abbrev pub mark : Line → Line
mark l = record l { accessed = true }

pub prioritize : EvictionStrategy → ℕ → Table → Option Table
unfolding unlink link_first
prioritize pseudo_random i t = some t
prioritize by_access i t = some (record t { lines = modify mark i t.lines })
prioritize lru i t = if points t.head i then some t else (do t' ← unlink i t; link_first i t')

pub set_prio_high : ℕ → Table → Option Table
unfolding prioritize
set_prio_high i t = prioritize t.strategy i t

-- The loop of `initStrategy` from line `i` on, over `n` lines.
pub link_lines : ℕ → ℕ → List Line → List Line
link_lines zero i ls = ls
link_lines (suc n) i ls =
    link_lines n (i + 1)
      (modify (with_previous (some (i - 1))) i (modify (with_next (some i)) (i - 1) ls))

pub power_checked : Table → Option Table
power_checked t = do assert (is_power_of_two (length t.lines)); some t

-- `initStrategy`
pub initialize : EvictionStrategy → Table → Option Table
unfolding link_lines power_checked
initialize lru t = do
  first ← get_elem? t.lines 0
  last ← get_elem? t.lines (length t.lines - 1)
  some (record t {
    head = some 0;
    tail = some (length t.lines - 1);
    lines =
        link_lines (length t.lines - 1) 1
          (modify (with_previous none) 0 (modify (with_next none) (length t.lines - 1) t.lines));
  })
initialize pseudo_random t = power_checked t
initialize by_access t = power_checked t

unfoldable pub init_strategy : Table → Option Table
unfolding initialize
init_strategy t = initialize t.strategy t

-- The constructor.
pub create : ℕ → ℕ → ℕ → EvictionStrategy → ℕ → Option Table
unfolding init_strategy empty_line
create context_width virtual_width physical_width strategy n = do
  index_width ← ilog2 n
  assert (not (n == 0))
  init_strategy (record {
    context_width = context_width;
    virtual_width = virtual_width;
    physical_width = physical_width;
    index_width = index_width;
    strategy = strategy;
    lines = replicate n (empty_line context_width virtual_width physical_width);
    head = none;
    tail = none;
  })

-- `lookup`: the line found, if any.
pub lookup : RAddr → RAddr → LineTag → Table → Option (Option ℕ × Table)
unfolding find set_prio_high matches
lookup context address tag t = do
  strict_expect t.context_width context
  strict_expect t.virtual_width address
  elim (find (matches (some context) (some address) tag) t) [
    | none ↦ some (none, t)
    | some i ↦ (do t' ← set_prio_high i t; some (some i, t'))
  ]
