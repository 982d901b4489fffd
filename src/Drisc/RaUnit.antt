-- ===== src/Drisc/RaUnit.antt =====
-- arch/drisc/RAUnit.h, arch/drisc/RAUnit.cpp: the allocation of blocks of registers. The operations
-- are those of the commit phase; `none` is a failed assertion. Sizes and indices are `unsigned`, and
-- no sum of them leaves its range, since a register file is far smaller.
pub mod Layout
pub mod Search
pub mod Give
pub mod Balance
pub mod Release
pub mod Counts
mod Tests
use mgsim.Base.{
  ℕ, zero, suc, ◌+◌, ◌-◌, ◌*◌, ◌/◌, ◌<◌, min, Bool, true, false, not, Option, none, some, List, [],
  ◌∷◌, arith, leb, ltb, ◌==◌, if◌then◌else◌, ◌>>=◌, ◌>>◌, assert, length, get_elem?, set, drop,
}
use mgsim.Drisc.{ContextType, normal, reserved, exclusive, is_normal, is_exclusive, is_reserved}

-- The size of the area that begins at the block, or 0, and the family that it was last given to.
abbrev pub Block : Type 0
Block = ℕ × ℕ

pub record TypeInfo : Type 0 where
  pub blocks : List Block
  pub block_size : ℕ
  pub free_normal : ℕ
  pub free_reserved : ℕ
  pub free_exclusive : ℕ

-- `free[context]`
pub free : TypeInfo → ContextType → ℕ
free t normal = t.free_normal
free t reserved = t.free_reserved
free t exclusive = t.free_exclusive

pub set_free : TypeInfo → ContextType → ℕ → TypeInfo
set_free t normal n = record t { free_normal = n }
set_free t reserved n = record t { free_reserved = n }
set_free t exclusive n = record t { free_exclusive = n }

-- `ReserveContext` and `UnreserveContext`, for one type of registers.
pub reserve_context : TypeInfo → Option TypeInfo
reserve_context t = do
  assert (ltb 0 t.free_normal)
  some (record t { free_normal = t.free_normal - 1; free_reserved = t.free_reserved + 1 })

pub unreserve_context : TypeInfo → Option TypeInfo
unreserve_context t = do
  assert (ltb 0 t.free_reserved)
  some (record t { free_reserved = t.free_reserved - 1; free_normal = t.free_normal + 1 })

-- How the inner loop of the search ends: with the base block of a free area of the size looked for,
-- or at a used block or the end of the list.
pub data Run : Type 0 where
  found : ℕ → Run
  stopped : ℕ → List Block → Run

-- The inner loop, on the blocks from `pos` on; the run of free blocks began at `start`.
pub free_run : ℕ → ℕ → ℕ → List Block → Run
free_run size start pos [] = stopped pos []
free_run size start pos ((n, fid) ∷ bs) =
    let rest = free_run size start (pos + 1) bs in
    if n == 0
    then if pos - start + 1 == size then found start else rest
    else stopped pos ((n, fid) ∷ bs)

-- The outer loop, on fuel: each round goes past one block at least.
pub find_free : ℕ → ℕ → ℕ → List Block → Option ℕ
find_free zero size pos bs = none
find_free (suc fuel) size pos [] = none
find_free (suc fuel) size pos ((zero, fid) ∷ bs) = elim (free_run size pos pos ((zero, fid) ∷ bs)) [
  | found start ↦ some start
  | stopped pos' bs' ↦ find_free fuel size pos' bs'
]
find_free (suc fuel) size pos ((suc n, fid) ∷ bs) = find_free fuel size (pos + suc n) (drop n bs)

-- The number of blocks for a number of registers.
pub block_count : TypeInfo → ℕ → ℕ
block_count t size = (size + t.block_size - 1) / t.block_size

-- The search of `Alloc` for one type: the assertion, then the base register of the area.
pub search : TypeInfo → ContextType → ℕ → Option (Option ℕ)
search t context size =
    let blocks = block_count t size in
    let available = if is_normal context then t.free_normal else t.free_normal + 1 in
    (do
      assert (leb available (length t.blocks))
      if leb blocks available
          then elim (find_free (length t.blocks) blocks 0 t.blocks) [
            | none ↦ some none
            | some start ↦ some (some (start * t.block_size))
          ]
          else some none)

-- The commit of `Alloc` for one type of which registers are used.
pub commit_used : ContextType → ℕ → ℕ → ℕ → TypeInfo → Option TypeInfo
commit_used context fid size index t =
    let blocks = block_count t size in
    let taken = set t.blocks (index / t.block_size) (blocks, fid) in
    if is_normal context
    then (do
      assert (leb blocks t.free_normal)
      some (record t { blocks = taken; free_normal = t.free_normal - blocks }))
    else (do
      assert (ltb 0 (free t context))
      assert (leb (blocks - 1) t.free_normal)
      some (
          set_free (record t { blocks = taken; free_normal = t.free_normal - (blocks - 1) }) context
            (free t context - 1)))

-- The commit for a type of which none is used.
pub commit_unused : ContextType → TypeInfo → TypeInfo
commit_unused context t =
    if is_reserved context then record t { free_normal = t.free_normal + 1 } else t

-- The first loop of `Alloc`: the areas for all types, or `some none` if one is missing.
pub search_all : ContextType → List (TypeInfo × ℕ) → Option (Option (List (Option ℕ)))
unfolding search
search_all context [] = some (some [])
search_all context ((t, size) ∷ ts) =
    if size == 0
    then (do r ← search_all context ts; some (elim r [ none ↦ none | some is ↦ some (none ∷ is) ]))
    else (do
      i ← search t context size
      elim i [
        | none ↦ some none
        | some index ↦ (do
          r ← search_all context ts
          some (elim r [ none ↦ none | some is ↦ some (some index ∷ is) ]))
      ])

-- The second loop.
pub commit_all : ContextType → ℕ → List (TypeInfo × ℕ) → List (Option ℕ) → Option (List TypeInfo)
unfolding commit_used commit_unused
commit_all context fid [] is = some []
commit_all context fid ((t, size) ∷ ts) [] = none
commit_all context fid ((t, size) ∷ ts) (none ∷ is) = do
  ts' ← commit_all context fid ts is
  some (commit_unused context t ∷ ts')
commit_all context fid ((t, size) ∷ ts) (some index ∷ is) = do
  t' ← commit_used context fid size index t
  ts' ← commit_all context fid ts is
  some (t' ∷ ts')

-- `Alloc`: the indices and the new state of each type, or nothing if registers are missing.
pub alloc :
    ContextType → ℕ → List (TypeInfo × ℕ) → Option (Option (List (Option ℕ) × List TypeInfo))
unfolding search_all commit_all
alloc context fid ts = do
  r ← search_all context ts
  elim r [
    | none ↦ some none
    | some is ↦ (do ts' ← commit_all context fid ts is; some (some (is, ts')))
  ]

-- `Free`, for one type.
pub free_area : ContextType → Option ℕ → TypeInfo → Option TypeInfo
free_area context none t = some t
free_area context (some index) t = do
  (size, fid) ← get_elem? t.blocks (index / t.block_size)
  assert (not (size == 0))
  let cleared = set t.blocks (index / t.block_size) (0, fid)
  if is_exclusive context
      then (do
        assert (t.free_exclusive == 0)
        some (record t {
          blocks = cleared;
          free_exclusive = t.free_exclusive + 1;
          free_normal = t.free_normal + (size - 1);
        }))
      else some (record t { blocks = cleared; free_normal = t.free_normal + size })

-- `GetNumFreeContexts`
pub num_free_contexts : ContextType → TypeInfo → List TypeInfo → ℕ
num_free_contexts context t [] = free t context
num_free_contexts context t (u ∷ us) = min (free t context) (num_free_contexts context u us)
