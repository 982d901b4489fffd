-- ===== src/Tlb/Table/Victim.antt =====
-- arch/drisc/mmu/Table.cpp: there is always a line to overwrite.
use Prim.Native.Nat.{bit_and, bit_xor}
use mgsim.Base.{
  ℕ, ◌-◌, ◌^◌, ◌<◌, ◌≡◌, refl, true, lt→ltb, not, ◌&&◌, Option, none, some, Option-cases,
  Bool-cases, ◌≢◌, List, [], ◌∷◌, length, inl, inr, arith,
}
use mgsim.Base.Bits.{bit_and-le, bit_xor-lt}
use mgsim.Storage.{word}
use mgsim.Log2.{is_power_of_two}
use mgsim.Log2.Powers.{is_power_of_two-Power}
use mgsim.Tlb.Table.{
  Line, Table, EvictionStrategy, pseudo_random, by_access, lru, find, has_tag, free, normal,
  power_checked, initialize, init_strategy,
}
use mgsim.Tlb.Table.Order.{find-bound}
use mgsim.Tlb.Table.Store.{
  folded, pick_victim_random, pick_victim_accessed, victim_of, pick_destination,
}

folded-lt : (k m index : ℕ) (ls : List Line) → m < 2 ^ k → index < 2 ^ k → folded m index ls < 2 ^ k
unfolding folded
folded-lt k m index [] p q = q
folded-lt k m index (l ∷ ls) p q =
    folded-lt k m (bit_xor index (bit_and l.virtual_address.value m)) ls p (
      bit_xor-lt k index (bit_and l.virtual_address.value m) q
        (omega (arith, bit_and-le l.virtual_address.value m)))

-- The line is one of the table's.
abbrev pub Inside : Option ℕ → Table → Type 0
Inside o t = (i : ℕ) × (o ≡ some i) × (i < length t.lines)

pick_victim_random-Inside :
    (t : Table) (k : ℕ)
    → length t.lines ≡ 2 ^ k
    → 0 < length t.lines
    → Inside (pick_victim_random t) t
unfolding pick_victim_random
pick_victim_random-Inside t k e p =
    let b : folded (length t.lines - 1) 0 t.lines < length t.lines =
      omega (arith, folded-lt k (length t.lines - 1) 0 t.lines (omega arith) (omega arith)) in
    (folded (length t.lines - 1) 0 t.lines, rw (lt→ltb _ _ b) refl, b)

pick_victim_accessed-Inside :
    (t : Table) → Inside (pick_victim_random t) t → Inside (pick_victim_accessed t) t
unfolding pick_victim_accessed
pick_victim_accessed-Inside t (i, e, b) =
    elim (Option-cases (find (λ l. has_tag normal l && not l.accessed) t)) [
      | inl q ↦ (i, rw (pick_victim_accessed, q) e, b)
      | inr (j, q) ↦ (j, rw (pick_victim_accessed, q) refl, find-bound _ t j q)
    ]

power_checked-true :
    (t t' : Table) → power_checked t ≡ some t' → is_power_of_two (length t.lines) ≡ true
unfolding power_checked
power_checked-true t t' h = elim (Bool-cases (is_power_of_two (length t.lines))) [
  | inl e ↦ e
  | inr e ↦ absurd (differ t' (power_checked t) (rw (power_checked, e) refl) h)
]
  where
    differ : (t' : Table) (o : Option Table) → o ≡ none → o ≡ some t' → ⊥
    differ t' o e h = cc

initialize-true :
    (s : EvictionStrategy) (t t' : Table)
    → s ≢ lru
    → initialize s t ≡ some t'
    → is_power_of_two (length t.lines) ≡ true
unfolding initialize
initialize-true pseudo_random t t' n h = power_checked-true t t' h
initialize-true by_access t t' n h = power_checked-true t t' h
initialize-true lru t t' n h = absurd (n refl)

victim_of-Inside :
    (s : EvictionStrategy) (t : Table) (k : ℕ)
    → s ≢ lru
    → length t.lines ≡ 2 ^ k
    → 0 < length t.lines
    → Inside (victim_of s t) t
unfolding victim_of
victim_of-Inside pseudo_random t k n l p = pick_victim_random-Inside t k l p
victim_of-Inside by_access t k n l p =
    pick_victim_accessed-Inside t (pick_victim_random-Inside t k l p)
victim_of-Inside lru t k n l p = absurd (n refl)

pick_destination-free :
    (t : Table) → Inside (victim_of t.strategy t) t → Inside (pick_destination t) t
unfolding pick_destination
pick_destination-free t (i, e, b) = elim (Option-cases (find (has_tag free) t)) [
  | inl q ↦ (i, rw (pick_destination, q) e, b)
  | inr (j, q) ↦ (j, rw (pick_destination, q) refl, find-bound _ t j q)
]

-- A table that passes `initStrategy`, of a line at least and in the range of `size_t`, and does not
-- evict in the order of last use always has a line to overwrite: `pickDestination` returns one.
pub pick_destination-Inside :
    (t t' : Table)
    → t.strategy ≢ lru
    → init_strategy t ≡ some t'
    → 0 < length t.lines
    → length t.lines < word
    → Inside (pick_destination t) t
unfolding init_strategy
pick_destination-Inside t t' n h p w =
    elim ((is_power_of_two-Power (length t.lines) w).0 (initialize-true t.strategy t t' n h)) [
      | inl z ↦ absurd (omega (arith, z))
      | inr (k, e) ↦ pick_destination-free t (victim_of-Inside t.strategy t k n e p)
    ]
