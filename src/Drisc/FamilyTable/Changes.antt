-- ===== src/Drisc/FamilyTable/Changes.antt =====
-- arch/drisc/FamilyTable.cpp: entries that are given out and given back.
use mgsim.Base.{
  ℕ, ◌+◌, ◌-◌, ◌<◌, ◌≤◌, ◌≡◌, ◌≢◌, refl, sym, ap, ◌∙◌, true, false, some, arith, ltb, ◌==◌,
  if◌then◌else◌, length, get_elem?, set, length-set, get_elem?-set_self, get_elem?-set_ne,
  get_elem?-bound,
}
use mgsim.Storage.{commit}
use mgsim.Drisc.{
  ContextType, normal, reserved, exclusive, is_exclusive, Free, count_of, with_count, unsigned_word,
  increment, decrement,
}
use mgsim.Drisc.FreeCounts.{total, with_count-Decremented}
use mgsim.Drisc.FamilyTable.{
  FamilyState, empty, allocated, is_empty, FamilyTable, invalid_lfid, update_stats, first_empty,
  take_entry, allocate_family, give_entry, free_family,
}
use mgsim.Drisc.FamilyTable.Entries.{
  used-set, IsSane, IsSane-check, spare, spare_lem, first_empty-Found,
}

-- What an operation has done: one entry has a new state, the count of the context is new, and the
-- table is sane.
pub record Changed (fid : ℕ) (state : FamilyState) (t t' : FamilyTable) : Type 0 where
  pub last : FamilyState
  pub sane : IsSane t' last
  pub stored : get_elem? t'.families fid ≡ some state
  pub others : (i : ℕ) → i ≢ fid → get_elem? t'.families i ≡ get_elem? t.families i

-- A context takes and returns entries of its own kind.
abbrev pub Belongs : ContextType → ℕ → FamilyTable → Type 0
Belongs normal fid t = fid + 1 < length t.families
Belongs reserved fid t = ⊥
Belongs exclusive fid t = fid + 1 ≡ length t.families

module _ (t : FamilyTable) (last s r : FamilyState) (fid : ℕ) (f : Free) (sane : IsSane t last)
    (e : get_elem? t.families fid ≡ some s) where
  -- A write to an entry before the last.
  inner_write :
      fid + 1 < length t.families
      → f.free_exclusive ≡ t.free.free_exclusive
      → f.free_reserved ≡ 0
      → f.free_normal + (if is_empty s then 1 else 0)
        ≡ t.free.free_normal + (if is_empty r then 1 else 0)
      → (t' : FamilyTable) → t'.families ≡ set t.families fid r
      → t'.free ≡ f
      → Changed fid r t t'
  inner_write b x z n t' fs fr =
      let len = length-set t.families fid r in
      let u = used-set t.families fid s r e in
      record {
        last = last;
        sane = record {
          some_entries = rw fs (omega (arith, len, sane.some_entries));
          small = rw fs (omega (arith, len, sane.small));
          last_state =
              rw (fs, len)
                (get_elem?-set_ne t.families r (λ q. omega (arith, b, q)) ∙ sane.last_state);
          exclusive_eq = rw fr (x ∙ sane.exclusive_eq);
          counts = rw (fr, fs) (ground (arith, u, len, sane.counts));
          none_reserved = rw fr z;
        };
        stored = rw fs (get_elem?-set_self t.families fid r (get_elem?-bound t.families fid s e));
        others = λ i ne. rw fs (get_elem?-set_ne t.families r (λ q. ne (sym q)));
      }

  -- A write to the last entry.
  last_write :
      fid + 1 ≡ length t.families
      → f.free_normal ≡ t.free.free_normal
      → f.free_reserved ≡ 0
      → f.free_exclusive ≡ (if is_empty r then 1 else 0)
      → (t' : FamilyTable) → t'.families ≡ set t.families fid r
      → t'.free ≡ f
      → Changed fid r t t'
  last_write b x z n t' fs fr =
      let len = length-set t.families fid r in
      let u = used-set t.families fid s r e in
      let at_last : length t.families - 1 ≡ fid = omega arith in
      let same : some s ≡ some last =
        sym e ∙ (ap (λ j. get_elem? t.families j) (sym at_last) ∙ sane.last_state) in
      record {
        last = r;
        sane = record {
          some_entries = rw fs (omega (arith, len, sane.some_entries));
          small = rw fs (omega (arith, len, sane.small));
          last_state =
              rw (fs, len, at_last)
                (get_elem?-set_self t.families fid r (get_elem?-bound t.families fid s e));
          exclusive_eq = rw fr n;
          counts = rw (fr, fs) (ground (arith, u, len, sane.counts, sane.exclusive_eq, same));
          none_reserved = rw fr z;
        };
        stored = rw fs (get_elem?-set_self t.families fid r (get_elem?-bound t.families fid s e));
        others = λ i ne. rw fs (get_elem?-set_ne t.families r (λ q. ne (sym q)));
      }

-- The entry that `AllocateFamily` gives out.
record Candidate (context : ContextType) (fid : ℕ) (t : FamilyTable) : Type 0 where
  state : FamilyState
  stored : get_elem? t.families fid ≡ some state
  state_empty : is_empty state ≡ true
  chosen : (if is_exclusive context then length t.families - 1 else first_empty 0 t.families) ≡ fid
  belongs : Belongs context fid t

candidate :
    (context : ContextType) (t : FamilyTable) (last : FamilyState)
    → IsSane t last
    → 0 < count_of t.free context
    → (fid : ℕ) × Candidate context fid t
candidate normal t last s p =
    let more : 0 < spare t.families =
      ground (arith, spare_lem t.families last s.last_state, s.counts, s.exclusive_eq) in
    let (j, f, q) = first_empty-Found 0 t.families more in
    (
      j,
      record {
        state = q.state;
        stored = q.stored;
        state_empty = q.state_empty;
        chosen = omega (arith, f);
        belongs = q.before;
      },
    )
candidate reserved t last s p = absurd (omega (arith, s.none_reserved))
candidate exclusive t last s p = (
  length t.families - 1,
  record {
    state = last;
    stored = s.last_state;
    state_empty = ground (arith, s.exclusive_eq);
    chosen = refl;
    belongs = omega (arith, s.some_entries);
  },
)

last_one : {t : FamilyTable} {last : FamilyState} → IsSane t last → t.free.free_exclusive ≤ 1
last_one s = ground (arith, s.exclusive_eq)

bounded : {t : FamilyTable} {last : FamilyState} → IsSane t last → total t.free < unsigned_word
bounded s = omega (arith, s.counts, s.small, s.none_reserved)

take_entry-Changed :
    (cycle : ℕ) (context : ContextType) (fid : ℕ) (state last : FamilyState) (t : FamilyTable)
    → IsSane t last
    → get_elem? t.families fid ≡ some state
    → is_empty state ≡ true
    → Belongs context fid t
    → 0 < count_of t.free context
    → Changed fid allocated t (take_entry cycle context fid t)
unfolding take_entry update_stats
take_entry-Changed cycle normal fid state last t s e m b p =
    inner_write t last state allocated fid (with_count t.free normal (decrement t.free.free_normal))
      s e b refl s.none_reserved (ground (arith, s.counts, s.small)) (take_entry cycle normal fid t)
      refl refl
take_entry-Changed cycle reserved fid state last t s e m b p = absurd b
take_entry-Changed cycle exclusive fid state last t s e m b p =
    last_write t last state allocated fid
      (with_count t.free exclusive (decrement t.free.free_exclusive)) s e b refl s.none_reserved
      (omega (arith, last_one s)) (take_entry cycle exclusive fid t) refl refl

-- `AllocateFamily` in the commit phase, on a sane table with a free entry for the context: no
-- assertion fails, the entry was empty and is allocated, it is the last entry exactly in an exclusive
-- context, the count falls by one, the table is sane, and the other entries stay as they were.
pub allocate_family-Changed :
    (cycle : ℕ) (context : ContextType) (t : FamilyTable) (last : FamilyState)
    → IsSane t last
    → 0 < count_of t.free context
    → (fid : ℕ) × (t' : FamilyTable) × (state : FamilyState) × (allocate_family commit cycle context
          t
        ≡ some (fid, t'))
      × Belongs context fid t
      × (get_elem? t.families fid ≡ some state)
      × (is_empty state ≡ true)
      × (count_of t'.free context + 1 ≡ count_of t.free context)
      × Changed fid allocated t t'
unfolding allocate_family
allocate_family-Changed cycle context t last s p =
    let (fid, c) = candidate context t last s p in
    let there : ltb 0 (count_of t.free context) ≡ true = ground arith in
    let valid : (fid == invalid_lfid) ≡ false =
      ground (arith, get_elem?-bound t.families fid c.state c.stored, s.small) in
    (
      fid,
      take_entry cycle context fid t,
      c.state,
      rw (IsSane-check t last s, there, c.chosen, valid, c.stored, c.state_empty) refl,
      c.belongs,
      c.stored,
      c.state_empty,
      (with_count-Decremented t.free context p (bounded s)).count_falls,
      take_entry-Changed cycle context fid c.state last t s c.stored c.state_empty c.belongs p,
    )

give_entry-Changed :
    (cycle : ℕ) (context : ContextType) (fid : ℕ) (state last : FamilyState) (t : FamilyTable)
    → IsSane t last
    → get_elem? t.families fid ≡ some state
    → is_empty state ≡ false
    → Belongs context fid t
    → Changed fid empty t (give_entry cycle context fid t)
unfolding give_entry update_stats
give_entry-Changed cycle normal fid state last t s e m b =
    inner_write t last state empty fid (with_count t.free normal (increment t.free.free_normal)) s e
      b refl s.none_reserved (ground (arith, s.counts, s.small)) (give_entry cycle normal fid t)
      refl refl
give_entry-Changed cycle reserved fid state last t s e m b = absurd b
give_entry-Changed cycle exclusive fid state last t s e m b =
    let at_last : length t.families - 1 ≡ fid = omega (arith, b) in
    let same : some state ≡ some last =
      sym e ∙ (ap (λ j. get_elem? t.families j) (sym at_last) ∙ s.last_state) in
    last_write t last state empty fid
      (with_count t.free exclusive (increment t.free.free_exclusive)) s e b refl s.none_reserved
      (ground (arith, same, s.exclusive_eq)) (give_entry cycle exclusive fid t) refl refl

-- `FreeFamily` in the commit phase of an entry that is in use, on a sane table, in an exclusive context
-- exactly if it is the last entry: no assertion fails, the entry is empty, the table is sane, and the
-- other entries stay as they were.
pub free_family-Changed :
    (cycle : ℕ) (context : ContextType) (fid : ℕ) (state last : FamilyState) (t : FamilyTable)
    → IsSane t last
    → get_elem? t.families fid ≡ some state
    → is_empty state ≡ false
    → Belongs context fid t
    → (t' : FamilyTable) × (free_family commit cycle fid context t ≡ some t')
      × Changed fid empty t t'
unfolding free_family
free_family-Changed cycle context fid state last t s e m b =
    let valid : (fid == invalid_lfid) ≡ false =
      ground (arith, get_elem?-bound t.families fid state e, s.small) in
    (
      give_entry cycle context fid t,
      rw (IsSane-check t last s, valid) refl,
      give_entry-Changed cycle context fid state last t s e m b,
    )
