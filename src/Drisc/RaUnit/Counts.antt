-- ===== src/Drisc/RaUnit/Counts.antt =====
-- arch/drisc/RAUnit.cpp: `Free`, and the counts of contexts over reservations.
use mgsim.Base.{
  ℕ, zero, suc, ◌+◌, ◌/◌, ◌≡◌, ◌⊎◌, false, Option, some, arith, length-set, get_elem?, set, ◌>>=◌,
  if◌then◌else◌,
}
use mgsim.Drisc.{ContextType, reserved, is_exclusive}
use mgsim.Drisc.RaUnit.{TypeInfo, free_area, commit_unused, reserve_context, unreserve_context}
use mgsim.Drisc.RaUnit.Release.{Taken, take_back}
use mgsim.Drisc.RaUnit.Balance.{IsBalanced, total}

-- On balanced counts, `Free` of an area that is allocated, in an exclusive context only while none is
-- free: no assertion
-- fails, the area's blocks are nobody's, every other block stays whose it was, and the counts and the
-- blocks agree again.
pub free_area-IsBalanced :
    (context : ContextType) (index n f : ℕ) (t : TypeInfo)
    → IsBalanced t
    → get_elem? t.blocks (index / t.block_size) ≡ some (suc n, f)
    → (is_exclusive context ≡ false) ⊎ (t.free_exclusive ≡ 0)
    → (t' : TypeInfo) × (free_area context (some index) t ≡ some t')
      × Taken t.blocks t'.blocks (index / t.block_size) (suc n) f
      × IsBalanced t'
unfolding free_area
free_area-IsBalanced context index n f t b e x =
    let i = index / t.block_size in
    let back = take_back t.blocks i n f b.layout e in
    let len = length-set t.blocks i (0, f) in
    (
      record t {
        blocks = set t.blocks i (0, f);
        free_exclusive = if is_exclusive context then t.free_exclusive + 1 else t.free_exclusive;
        free_normal = t.free_normal + (if is_exclusive context then n else suc n);
      },
      ground arith,
      back,
      record {
        sum = ground (arith, back.count, len, b.sum);
        layout = back.layout;
        real_blocks = b.real_blocks;
      },
    )

-- `ReserveContext` and `UnreserveContext` undo one another, and keep the counts.
unreserve-reserve :
    (t t' : TypeInfo)
    → reserve_context t ≡ some t'
    → (unreserve_context t' ≡ some t) × (total t' ≡ total t)
unfolding reserve_context unreserve_context
unreserve-reserve t t' e = ground arith

-- A family that reserved a context and then uses no registers of the type, as often as it happens.
abbrev pub idle_rounds : ℕ → TypeInfo → Option TypeInfo
idle_rounds zero t = some t
idle_rounds (suc n) t = reserve_context t >>= λ t'. idle_rounds n (commit_unused reserved t')
