-- ===== src/Drisc/ThreadTable/Entries.antt =====
-- arch/drisc/ThreadTable.cpp: entries that are taken from the list of free ones and given back.
use mgsim.Base.{
  ℕ, ◌+◌, ◌<◌, ◌≤◌, ◌≡◌, ◌≢◌, refl, sym, true, false, some, List, [], ◌∷◌, arith, ltb, ◌==◌, length,
  get_elem?, length-set, get_elem?-set_self, get_elem?-set_ne, get_elem?-bound, In,
}
use mgsim.Storage.{Phase, commit}
use mgsim.Drisc.{ContextType, count_of}
use mgsim.Drisc.FreeCounts.{
  count_of-le-total, CanReturn, with_count-Decremented, with_count-Incremented,
}
use mgsim.Drisc.ThreadTable.{
  Thread, empty, waiting, is_empty, ThreadTable, invalid_tid, update_stats, pop_empty, push_empty,
  take_entry, give_entry,
}
use mgsim.Drisc.ThreadTable.FreeList.{
  used-set, FreeList, IsSane, IsSane-check, FreeList-set, FreeList-is_empty,
}

-- What `PopEmpty` has done when it took an entry.
pub record Popped (context : ContextType) (tid : ℕ) (rest : List ℕ) (t t' : ThreadTable)
    : Type 0 where
  pub sane : IsSane t' rest
  pub thread : Thread
  pub taken : get_elem? t'.threads tid ≡ some thread
  pub state_waiting : thread.state ≡ waiting
  pub count : count_of t'.free context + 1 ≡ count_of t.free context
  pub others : (i : ℕ) → i ≢ tid → get_elem? t'.threads i ≡ get_elem? t.threads i

take_entry-Popped :
    (cycle : ℕ) (context : ContextType) (x : ℕ) (xs : List ℕ) (thread : Thread) (t : ThreadTable)
    → IsSane t (x ∷ xs)
    → get_elem? t.threads x ≡ some thread
    → is_empty thread.state ≡ true
    → FreeList t.threads thread.next xs
    → 0 < count_of t.free context
    → Popped context x xs t (take_entry cycle context x thread t)
unfolding take_entry update_stats
take_entry-Popped cycle context x xs thread t s e g c p =
    let u : Thread = record thread { state = waiting } in
    let len = length-set t.threads x u in
    let n = used-set t.threads x thread u e in
    let d =
      with_count-Decremented t.free context p (omega (arith, s.small, s.all_listed, s.counts)) in
    record {
      sane = record {
        small = omega (arith, len, s.small);
        chain = FreeList-set t.threads x u thread.next xs s.once.0 c;
        once = s.once.1;
        all_listed = ground (arith, n, len);
        counts = omega (arith, d.total_falls, s.counts);
        one_exclusive = omega (arith, d.exclusive_kept, s.one_exclusive);
      };
      thread = u;
      taken = get_elem?-set_self t.threads x u (get_elem?-bound t.threads x thread e);
      state_waiting = refl;
      count = d.count_falls;
      others = λ i ne. get_elem?-set_ne t.threads u (λ q. ne (sym q));
    }

-- On a sane table without a free entry for the context `PopEmpty` answers that, in any phase, and
-- changes nothing.
pop_empty-none :
    (phase : Phase) (cycle : ℕ) (context : ContextType) (t : ThreadTable) (l : List ℕ)
    → IsSane t l
    → count_of t.free context ≡ 0
    → pop_empty phase cycle context t ≡ some (invalid_tid, t)
unfolding pop_empty
pop_empty-none phase cycle context t l s z =
    let sane = IsSane-check t l s in
    let full : ltb 0 (count_of t.free context) ≡ false = ground arith in rw (sane, full) refl

-- `PopEmpty` in the commit phase, on a sane table with a free entry for the context: no assertion
-- fails, the first free entry is taken and waits, the context's count falls by one, the other entries
-- stay as they were, and the table is sane.
pub pop_empty-Popped :
    (cycle : ℕ) (context : ContextType) (t : ThreadTable) (l : List ℕ)
    → IsSane t l
    → 0 < count_of t.free context
    → (x : ℕ) × (xs : List ℕ) × (t' : ThreadTable) × (l ≡ x ∷ xs)
      × (pop_empty commit cycle context t ≡ some (x, t'))
      × Popped context x xs t t'
unfolding pop_empty
pop_empty-Popped cycle context t [] s p =
    absurd (omega (arith, count_of-le-total t.free context, s.counts))
pop_empty-Popped cycle context t (x ∷ xs) s p =
    let (i, thread, e, g, c) = s.chain in
    let q = take_entry-Popped cycle context x xs thread t s e g c p in
    let before = IsSane-check t (x ∷ xs) s in
    let behind = IsSane-check (take_entry cycle context x thread t) xs q.sane in
    let free : ltb 0 (count_of t.free context) ≡ true = ground arith in
    let valid : (x == invalid_tid) ≡ false =
      ground (arith, get_elem?-bound t.threads x thread e, s.small) in
    (
      x,
      xs,
      take_entry cycle context x thread t,
      refl,
      rw (before, free, i, valid, e, g, behind) refl,
      q,
    )

-- What `PushEmpty` has done.
pub record Pushed (context : ContextType) (tid : ℕ) (l : List ℕ) (t t' : ThreadTable) : Type 0 where
  pub sane : IsSane t' (tid ∷ l)
  pub count : count_of t'.free context ≡ count_of t.free context + 1
  pub others : (i : ℕ) → i ≢ tid → get_elem? t'.threads i ≡ get_elem? t.threads i

give_entry-Pushed :
    (cycle : ℕ) (context : ContextType) (tid : ℕ) (thread : Thread) (t : ThreadTable) (l : List ℕ)
    → IsSane t l
    → get_elem? t.threads tid ≡ some thread
    → is_empty thread.state ≡ false
    → CanReturn t.free context
    → Pushed context tid l t (give_entry cycle context tid t)
unfolding give_entry update_stats
give_entry-Pushed cycle context tid thread t l s e g c =
    let u : Thread = record { next = t.first_empty; state = empty } in
    let len = length-set t.threads tid u in
    let n = used-set t.threads tid thread u e in
    let bound = get_elem?-bound t.threads tid thread e in
    let absent : In tid l → ⊥ = λ q.
      let f = FreeList-is_empty t.threads tid thread t.first_empty l s.chain q e in absurd (cc) in
    let fewer : length l + 1 ≤ length t.threads = ground (arith, n, len, s.all_listed) in
    let d =
      with_count-Incremented t.free context c s.one_exclusive
        (omega (arith, s.counts, s.small, fewer)) in
    record {
      sane = record {
        small = omega (arith, len, s.small);
        chain = (
          refl,
          u,
          get_elem?-set_self t.threads tid u bound,
          refl,
          FreeList-set t.threads tid u t.first_empty l absent s.chain,
        );
        once = (absent, s.once);
        all_listed = ground (arith, n, len);
        counts = omega (arith, d.total_grows, s.counts);
        one_exclusive = d.one_exclusive;
      };
      count = d.count_grows;
      others = λ i ne. get_elem?-set_ne t.threads u (λ q. ne (sym q));
    }

-- `PushEmpty` in the commit phase of an entry that is in use, on a sane table, in an exclusive context
-- only while no exclusive entry is free: no assertion fails, the entry is the first of the free ones,
-- the context's count grows by one, the other entries stay as they were, and the table is sane.
pub push_empty-Pushed :
    (cycle : ℕ) (context : ContextType) (tid : ℕ) (thread : Thread) (t : ThreadTable) (l : List ℕ)
    → IsSane t l
    → get_elem? t.threads tid ≡ some thread
    → is_empty thread.state ≡ false
    → CanReturn t.free context
    → (t' : ThreadTable) × (push_empty commit cycle tid context t ≡ some t')
      × Pushed context tid l t t'
unfolding push_empty
push_empty-Pushed cycle context tid thread t l s e g c =
    let q = give_entry-Pushed cycle context tid thread t l s e g c in
    let before = IsSane-check t l s in
    let behind = IsSane-check (give_entry cycle context tid t) (tid ∷ l) q.sane in
    let valid : (tid == invalid_tid) ≡ false =
      ground (arith, get_elem?-bound t.threads tid thread e, s.small) in
    (give_entry cycle context tid t, rw (before, valid, behind) refl, q)
