-- ===== src/Tlb/Table/Store.antt =====
-- arch/drisc/mmu/Table.cpp: the choice of a line to overwrite, and what is stored there.
use Prim.Native.Nat.{bit_and, bit_xor}
use mgsim.Base.{
  ℕ, ◌-◌, Bool, true, false, not, ◌&&◌, Option, none, some, List, [], ◌∷◌, ltb, if◌then◌else◌,
  ◌>>=◌, ◌>>◌, assert, length, get_elem?,
}
use mgsim.Storage.{Phase, is_committing}
use mgsim.Tlb.Address.{RAddr, strict_expect}
use mgsim.Tlb.Table.{
  EvictionStrategy, pseudo_random, by_access, lru, free, pending, normal, indexable, Line, Table,
  has_tag, matches, modify, find,
}

-- `pickVictim_random`: the addresses' low bits, added bit by bit.
unfoldable pub folded : ℕ → ℕ → List Line → ℕ
folded m index [] = index
folded m index (l ∷ ls) = folded m (bit_xor index (bit_and l.virtual_address.value m)) ls

unfoldable pub pick_victim_random : Table → Option ℕ
unfolding folded
pick_victim_random t = do
  let index = folded (length t.lines - 1) 0 t.lines
  assert (ltb index (length t.lines))
  some index

-- `pickVictim_accessed`
unfoldable pub pick_victim_accessed : Table → Option ℕ
unfolding has_tag find pick_victim_random
pick_victim_accessed t = elim (find (λ l. has_tag normal l && not l.accessed) t) [
  | none ↦ pick_victim_random t
  | some i ↦ some i
]

-- `pickVictim_lru`
abbrev pub pick_victim_lru : Table → Option ℕ
pick_victim_lru t = t.tail

-- `pickDestination`
unfoldable pub victim_of : EvictionStrategy → Table → Option ℕ
unfolding pick_victim_random pick_victim_accessed
victim_of pseudo_random t = pick_victim_random t
victim_of by_access t = pick_victim_accessed t
victim_of lru t = pick_victim_lru t

unfoldable pub pick_destination : Table → Option ℕ
unfolding find has_tag victim_of
pick_destination t = elim (find (has_tag free) t) [
  | none ↦ victim_of t.strategy t
  | some i ↦ some i
]

-- `freeLine`, of a line: it must not be locked.
abbrev pub not_present : Line → Line
not_present l = record l { present = false }

unfoldable pub free_line : Phase → ℕ → Table → Option Table
free_line phase i t = do
  line ← get_elem? t.lines i
  assert (not line.locked)
  some (if is_committing phase then record t { lines = modify not_present i t.lines } else t)

-- What `storeNormal` and `storePending` write to the line.
abbrev pub normal_line : RAddr → RAddr → RAddr → Bool → Bool → Line → Line
normal_line context virtual physical read write l = record l {
  present = true;
  locked = true;
  context_id = context;
  virtual_address = virtual;
  physical_address = physical;
  read = read;
  write = write;
}

abbrev pub pending_line : RAddr → RAddr → Line → Line
pending_line context virtual l = record l {
  present = false;
  locked = true;
  context_id = context;
  virtual_address = virtual;
}

-- `storeNormal`: the line stored to, or none if the line to overwrite is locked.
unfoldable pub store_normal :
    Phase → RAddr → RAddr → RAddr → Bool → Bool → Table → Option (Option ℕ × Table)
unfolding pick_destination free_line
store_normal phase context virtual physical read write t = do
  strict_expect t.virtual_width virtual
  strict_expect t.physical_width physical
  strict_expect t.context_width context
  i ← pick_destination t
  line ← get_elem? t.lines i
  if line.locked then some (none, t) else (do
    t' ← free_line phase i t
    some (
      some i,
      if is_committing phase
          then record t' {
            lines = modify (normal_line context virtual physical read write) i t'.lines;
          }
          else t',
    ))

-- `storePending`
unfoldable pub store_pending : Phase → RAddr → RAddr → Table → Option (Option ℕ × Table)
unfolding pick_destination free_line
store_pending phase context virtual t = do
  strict_expect t.context_width context
  strict_expect t.virtual_width virtual
  i ← pick_destination t
  line ← get_elem? t.lines i
  if line.locked
      then some (none, t)
      else (if is_committing phase
          then (do
            t' ← free_line phase i t
            some (some i, record t' { lines = modify (pending_line context virtual) i t'.lines }))
          else some (some i, t))

-- `setDCacheReference` of the line that was looked at last.
unfoldable pub set_data_reference : ℕ → ℕ → Table → Option Table
set_data_reference i reference t = do
  line ← get_elem? t.lines i
  assert (not line.present)
  some (record t { lines = modify (λ l. record l { data_line = reference }) i t.lines })

-- `getPending`: the reference, the context and the address of a pending line.
unfoldable pub get_pending : RAddr → Table → Option (Option (ℕ × RAddr × RAddr))
unfolding has_tag
get_pending id t = do
  strict_expect t.index_width id
  line ← get_elem? t.lines id.value
  if has_tag pending line
      then some (some (line.data_line, line.context_id, line.virtual_address))
      else some none

-- `releasePending`
unfoldable pub release_pending : Phase → RAddr → Table → Option Table
unfolding has_tag
release_pending phase id t = do
  strict_expect t.index_width id
  line ← get_elem? t.lines id.value
  assert (has_tag pending line)
  some (
      if is_committing phase
      then record t { lines = modify (λ l. record l { locked = false }) id.value t.lines }
      else t)

-- `fillPending`: the reference of the line, which is filled.
abbrev pub filled_line : Bool → Bool → RAddr → Line → Line
filled_line read write physical l = record l {
  present = true;
  read = read;
  write = write;
  physical_address = physical;
}

unfoldable pub fill_pending : Phase → RAddr → Bool → Bool → RAddr → Table → Option (ℕ × Table)
unfolding has_tag
fill_pending phase id read write physical t = do
  strict_expect t.physical_width physical
  strict_expect t.index_width id
  line ← get_elem? t.lines id.value
  assert (has_tag pending line)
  some (
    line.data_line,
    if is_committing phase
        then record t { lines = modify (filled_line read write physical) id.value t.lines }
        else t,
  )

-- `freeLines`, of the lines of which a test holds: all of them, or those of a context and an address.
unfoldable pub free_where : Phase → (Line → Bool) → List Line → Option (List Line)
free_where phase p [] = some []
free_where phase p (l ∷ ls) = do
  l' ←
      if p l
      then (do assert (not l.locked); some (if is_committing phase then not_present l else l))
      else some l
  ls' ← free_where phase p ls
  some (l' ∷ ls')

unfoldable pub free_lines : Phase → Table → Option Table
unfolding free_where
free_lines phase t = do
  lines ← free_where phase (λ l. true) t.lines
  some (record t { lines = lines })

unfoldable pub free_lines_of : Phase → RAddr → Option RAddr → Table → Option Table
unfolding free_where matches
free_lines_of phase context address t = do
  lines ← free_where phase (matches (some context) address indexable) t.lines
  some (record t { lines = lines })
