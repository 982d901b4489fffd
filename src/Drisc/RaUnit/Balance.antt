-- ===== src/Drisc/RaUnit/Balance.antt =====
-- arch/drisc/RAUnit.cpp: the counts of free blocks against the blocks, for one type of registers.
use native.Mathlib.Nat
use mgsim.Base.{
  ℕ, ◌+◌, ◌-◌, ◌*◌, ◌/◌, ◌<◌, ◌≤◌, ◌≡◌, refl, ap, subst, ◌⊎◌, inl, inr, none, some, arith, length,
  length-set, set, leb, leb→le, true, Bool-cases, if◌then◌else◌, Option-cases,
}
use mgsim.Drisc.{ContextType, normal, reserved, exclusive, is_normal}
use mgsim.Drisc.RaUnit.{TypeInfo, free, set_free, find_free, search, block_count, commit_used}
use mgsim.Drisc.RaUnit.Layout.{IsLayout, used}
use mgsim.Drisc.RaUnit.Search.{FreeArea, find_free-FreeArea}
use mgsim.Drisc.RaUnit.Give.{Given, give}

-- The free blocks that the counts promise, and the allocated blocks.
abbrev pub total : TypeInfo → ℕ
total t = t.free_normal + t.free_reserved + t.free_exclusive + used t.blocks

pub record IsBalanced (t : TypeInfo) : Type 0 where
  pub sum : total t ≡ length t.blocks
  pub layout : IsLayout 0 t.blocks
  pub real_blocks : 0 < t.block_size

-- A context other than a normal one has been set aside.
abbrev pub CanTake : TypeInfo → ContextType → Type 0
CanTake t normal = Unit {0}
CanTake t reserved = 0 < t.free_reserved
CanTake t exclusive = 0 < t.free_exclusive

block_count-pos : (t : TypeInfo) (size : ℕ) → 0 < t.block_size → 0 < size → 1 ≤ block_count t size
unfolding block_count
block_count-pos t size h k = grind (
  arith,
  Nat.div-add-mod (size + t.block_size - 1) t.block_size,
  Nat.mod-lt (size + t.block_size - 1) h,
)

-- The blocks that a search may use.
abbrev pub available : TypeInfo → ContextType → ℕ
available t context = if is_normal context then t.free_normal else t.free_normal + 1

available-le :
    (t : TypeInfo) (context : ContextType)
    → IsBalanced t
    → CanTake t context
    → leb (available t context) (length t.blocks) ≡ true
available-le t normal b c = ground arith
available-le t reserved b c = ground arith
available-le t exclusive b c = ground arith

record Hit (t : TypeInfo) (context : ContextType) (size start : ℕ) : Type 0 where
  answer : search t context size ≡ some (some (start * t.block_size))
  enough : block_count t size ≤ available t context
  place : find_free (length t.blocks) (block_count t size) 0 t.blocks ≡ some start

-- What the search of one type answers.
search_cases :
    (t : TypeInfo) (context : ContextType) (size : ℕ)
    → IsBalanced t
    → CanTake t context
    → (search t context size ≡ some none) ⊎ ((start : ℕ) × Hit t context size start)
unfolding search
search_cases t context size b c =
    let ok = available-le t context b c in
    elim (Bool-cases (leb (block_count t size) (available t context))) [
      | inr few ↦ inl (simp (ok, few))
      | inl enough ↦
          elim (Option-cases (find_free (length t.blocks) (block_count t size) 0 t.blocks)) [
            | inl e ↦ inl (simp (ok, enough, e))
            | inr (start, e) ↦ inr (
              start,
              record { answer = simp (ok, enough, e); enough = leb→le _ _ enough; place = e },
            )
          ]
    ]

-- The commit behind such a search fails no assertion.
commit_total :
    (context : ContextType) (fid size start : ℕ) (t : TypeInfo)
    → CanTake t context
    → 0 < t.block_size
    → block_count t size ≤ available t context
    → 1 ≤ block_count t size
    → (t' : TypeInfo) × (commit_used context fid size (start * t.block_size) t ≡ some t')
      × (t'.blocks ≡ set t.blocks start (block_count t size, fid))
      × (t'.block_size ≡ t.block_size)
      × (t'.free_normal + t'.free_reserved + t'.free_exclusive + block_count t size
          ≡ t.free_normal + t.free_reserved + t.free_exclusive)
unfolding commit_used free set_free
commit_total normal fid size start t c h k p =
    let e : start * t.block_size / t.block_size ≡ start = Nat.mul-div_cancel start h in
    (
      record t {
        blocks = set t.blocks start (block_count t size, fid);
        free_normal = t.free_normal - block_count t size;
      },
      ground arith,
      refl,
      refl,
      omega arith,
    )
commit_total reserved fid size start t c h k p =
    let e : start * t.block_size / t.block_size ≡ start = Nat.mul-div_cancel start h in
    (
      record t {
        blocks = set t.blocks start (block_count t size, fid);
        free_normal = t.free_normal - (block_count t size - 1);
        free_reserved = t.free_reserved - 1;
      },
      ground arith,
      refl,
      refl,
      omega arith,
    )
commit_total exclusive fid size start t c h k p =
    let e : start * t.block_size / t.block_size ≡ start = Nat.mul-div_cancel start h in
    (
      record t {
        blocks = set t.blocks start (block_count t size, fid);
        free_normal = t.free_normal - (block_count t size - 1);
        free_exclusive = t.free_exclusive - 1;
      },
      ground arith,
      refl,
      refl,
      omega arith,
    )

-- An allocation of one type of registers.
pub record Allocated (t t' : TypeInfo) (start size fid : ℕ) : Type 0 where
  pub given : Given t.blocks t'.blocks start size fid
  pub balanced : IsBalanced t'

-- `Alloc`, for a type of which registers are used, on balanced counts and in a context that has been
-- set aside if it is not a normal one: either the search finds no area, or it finds one, no assertion of the commit fails,
-- the area, which was nobody's, is the family's, every other block stays whose it was, and the counts
-- and the blocks agree again.
pub alloc_used :
    (context : ContextType) (fid size : ℕ) (t : TypeInfo)
    → IsBalanced t
    → CanTake t context
    → 0 < size
    → (search t context size ≡ some none)
      ⊎ ((start : ℕ) × (t' : TypeInfo) × (search t context size
            ≡ some (some (start * t.block_size)))
          × (commit_used context fid size (start * t.block_size) t ≡ some t')
          × Allocated t t' start (block_count t size) fid)
alloc_used context fid size t b c h = elim (search_cases t context size b c) [
  | inl e ↦ inl e
  | inr (start, hit) ↦
      let p = block_count-pos t size b.real_blocks h in
      let (t', e, bs, z, counts) =
        commit_total context fid size start t c b.real_blocks hit.enough p in
      let (o, q, area) =
        find_free-FreeArea (length t.blocks) (block_count t size) 0 t.blocks start b.layout
          hit.place in
      let here : o ≡ start = omega (arith, q) in
      let g =
        give t.blocks start (block_count t size) fid p
          (subst (λ s. FreeArea t.blocks s (block_count t size)) here area) in
      inr (
        start,
        t',
        hit.answer,
        e,
        record {
          given = rw bs g;
          balanced = record {
            sum = omega (
              arith,
              ap length bs,
              ap used bs,
              length-set t.blocks start (block_count t size, fid),
              g.count,
              counts,
              b.sum,
            );
            layout = rw bs g.layout;
            real_blocks = omega (arith, z, b.real_blocks);
          };
        },
      )
]
