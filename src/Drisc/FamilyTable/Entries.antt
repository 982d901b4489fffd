-- ===== src/Drisc/FamilyTable/Entries.antt =====
-- arch/drisc/FamilyTable.cpp: the counts of free entries agree with the states of the entries, and the
-- last entry is the one that is given out in exclusive contexts.
use mgsim.Base.{
  ℕ, zero, suc, ◌+◌, ◌-◌, ◌<◌, ◌≡◌, refl, true, some, List, [], ◌∷◌, arith, if◌then◌else◌, length,
  get_elem?, set, inl, inr, Bool-cases,
}
use mgsim.Drisc.FamilyTable.{
  FamilyState, is_empty, FamilyTable, invalid_lfid, used, back, check_state_sanity, first_empty,
}

-- The counts, for a table whose last entry has the state `last`.
pub record IsSane (t : FamilyTable) (last : FamilyState) : Type 0 where
  pub some_entries : 0 < length t.families
  pub small : length t.families < invalid_lfid
  pub last_state : get_elem? t.families (length t.families - 1) ≡ some last
  pub exclusive_eq : t.free.free_exclusive ≡ (if is_empty last then 1 else 0)
  pub counts : t.free.free_normal + t.free.free_exclusive + used t.families ≡ length t.families
  pub none_reserved : t.free.free_reserved ≡ 0

pub IsSane-check :
    (t : FamilyTable) (last : FamilyState) → IsSane t last → check_state_sanity t ≡ some tt
unfolding check_state_sanity back
IsSane-check t last s = ground (arith, s.last_state, s.exclusive_eq, s.counts, s.small)

-- The empty entries before the last.
abbrev pub spare : List FamilyState → ℕ
spare [] = 0
spare (s ∷ []) = 0
spare (s ∷ r ∷ ss) = spare (r ∷ ss) + (if is_empty s then 1 else 0)

pub spare_lem :
    (ss : List FamilyState) (last : FamilyState)
    → get_elem? ss (length ss - 1) ≡ some last
    → used ss + spare ss + (if is_empty last then 1 else 0) ≡ length ss
spare_lem [] last e = absurd (cc)
spare_lem (s ∷ []) last e = ground arith
spare_lem (s ∷ r ∷ ss) last e =
    let here : suc (suc (length ss)) - 1 ≡ suc (length ss) = omega arith in
    let there : suc (length ss) - 1 ≡ length ss = omega arith in
    let rest = spare_lem (r ∷ ss) last (rw there (rw here at e)) in ground (arith, rest)

-- An empty entry before the last is found.
pub record Found (ss : List FamilyState) (j : ℕ) : Type 0 where
  pub before : j + 1 < length ss
  pub state : FamilyState
  pub stored : get_elem? ss j ≡ some state
  pub state_empty : is_empty state ≡ true

pub first_empty-Found :
    (i : ℕ) (ss : List FamilyState)
    → 0 < spare ss
    → (j : ℕ) × (first_empty i ss ≡ i + j) × Found ss j
unfolding first_empty
first_empty-Found i [] p = absurd (omega arith)
first_empty-Found i (s ∷ []) p = absurd (omega arith)
first_empty-Found i (s ∷ r ∷ ss) p = elim (Bool-cases (is_empty s)) [
  | inl e ↦ (
    0,
    rw e (omega arith),
    record { before = omega arith; state = s; stored = refl; state_empty = e },
  )
  | inr e ↦
      let (j, f, q) = first_empty-Found (i + 1) (r ∷ ss) (ground arith) in
      (
        suc j,
        rw e (omega (arith, f)),
        record {
          before = omega (arith, q.before);
          state = q.state;
          stored = q.stored;
          state_empty = q.state_empty;
        },
      )
]

pub used-set :
    (ss : List FamilyState) (i : ℕ) (s r : FamilyState)
    → get_elem? ss i ≡ some s
    → used (set ss i r) + (if is_empty s then 0 else 1) ≡ used ss + (if is_empty r then 0 else 1)
used-set [] i s r e = absurd (cc)
used-set (x ∷ ss) zero s r e = ground arith
used-set (x ∷ ss) (suc i) s r e = ground (arith, used-set ss i s r e)
