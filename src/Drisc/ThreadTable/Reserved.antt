-- ===== src/Drisc/ThreadTable/Reserved.antt =====
-- arch/drisc/ThreadTable.cpp: entries that are reserved, and no longer.
use mgsim.Base.{ℕ, ◌+◌, ◌<◌, ◌≡◌, refl, false, none, some, List, arith, leb, length}
use mgsim.Storage.{commit}
use mgsim.Drisc.{decrement}
use mgsim.Drisc.ThreadTable.{
  ThreadTable, update_stats, check_state_sanity, reserve_thread, unreserve_thread, checked,
  move_to_reserved, move_to_normal,
}
use mgsim.Drisc.ThreadTable.FreeList.{IsSane, IsSane-check}

move_to_reserved-IsSane :
    (cycle : ℕ) (t : ThreadTable) (l : List ℕ)
    → IsSane t l
    → 0 < t.free.free_normal
    → IsSane (move_to_reserved cycle t) l
unfolding move_to_reserved update_stats
move_to_reserved-IsSane cycle t l s p = record {
  small = s.small;
  chain = s.chain;
  once = s.once;
  all_listed = s.all_listed;
  counts = omega (arith, s.small, s.counts, s.all_listed);
  one_exclusive = s.one_exclusive;
}

move_to_normal-IsSane :
    (cycle : ℕ) (t : ThreadTable) (l : List ℕ)
    → IsSane t l
    → 0 < t.free.free_reserved
    → IsSane (move_to_normal cycle t) l
unfolding move_to_normal update_stats
move_to_normal-IsSane cycle t l s p = record {
  small = s.small;
  chain = s.chain;
  once = s.once;
  all_listed = s.all_listed;
  counts = omega (arith, s.small, s.counts, s.all_listed);
  one_exclusive = s.one_exclusive;
}

move_to_reserved-check :
    (cycle : ℕ) (t : ThreadTable) (l : List ℕ)
    → IsSane t l
    → t.free.free_normal ≡ 0
    → check_state_sanity (move_to_reserved cycle t) ≡ none
unfolding check_state_sanity move_to_reserved update_stats
move_to_reserved-check cycle t l s z =
    let beyond : leb (decrement t.free.free_normal) (length t.threads) ≡ false =
      ground (arith, s.small) in
    rw beyond refl

-- `ReserveThread` in the commit phase, on a sane table: while a normal entry is free, one is counted as
-- reserved instead, the entries stay as they were and the table is sane; while none is free an
-- assertion fails.
pub reserve_thread-IsSane :
    (cycle : ℕ) (t : ThreadTable) (l : List ℕ)
    → IsSane t l
    → (0 < t.free.free_normal
        → (t' : ThreadTable) × (reserve_thread commit cycle t ≡ some t')
          × IsSane t' l
          × (t'.free.free_normal + 1 ≡ t.free.free_normal)
          × (t'.free.free_reserved ≡ t.free.free_reserved + 1)
          × (t'.threads ≡ t.threads))
      × (t.free.free_normal ≡ 0 → reserve_thread commit cycle t ≡ none)
unfolding reserve_thread checked
reserve_thread-IsSane cycle t l s = (
  (λ p.
      let sane = move_to_reserved-IsSane cycle t l s p in
      (
        move_to_reserved cycle t,
        rw (IsSane-check t l s, IsSane-check (move_to_reserved cycle t) l sane) refl,
        sane,
        unfold move_to_reserved in omega (arith, s.small, s.counts, s.all_listed),
        unfold move_to_reserved in omega (arith, s.small, s.counts, s.all_listed),
        unfold move_to_reserved in unfold update_stats in refl,
      )),
  λ z. rw (IsSane-check t l s, move_to_reserved-check cycle t l s z) refl,
)

-- `UnreserveThread` in the commit phase, on a sane table with a reserved entry: no assertion fails, an
-- entry that was counted as reserved is counted as a normal one, and the table is sane.
unreserve_thread-IsSane :
    (cycle : ℕ) (t : ThreadTable) (l : List ℕ)
    → IsSane t l
    → 0 < t.free.free_reserved
    → (t' : ThreadTable) × (unreserve_thread commit cycle t ≡ some t')
      × IsSane t' l
      × (t'.free.free_normal ≡ t.free.free_normal + 1)
      × (t'.free.free_reserved + 1 ≡ t.free.free_reserved)
unfolding unreserve_thread checked
unreserve_thread-IsSane cycle t l s p =
    let sane = move_to_normal-IsSane cycle t l s p in
    (
      move_to_normal cycle t,
      rw (IsSane-check t l s, IsSane-check (move_to_normal cycle t) l sane) refl,
      sane,
      unfold move_to_normal in omega (arith, s.small, s.counts, s.all_listed),
      unfold move_to_normal in omega (arith, s.small, s.counts, s.all_listed),
    )
