-- ===== src/Tlb/Table/Free.antt =====
-- arch/drisc/mmu/Table.cpp, `freeLines`: the invalidation of translations.
use mgsim.Base.{
  ℕ, zero, suc, ◌+◌, ◌≡◌, refl, Bool, true, false, Option, none, some, List, [], ◌∷◌, get_elem?,
  Bool-cases, inl, inr,
}
use mgsim.Storage.{commit}
use mgsim.Tlb.Address.{RAddr}
use mgsim.Tlb.Table.{Line, Table, indexable, has_tag, matches, find, find_from}
use mgsim.Tlb.Table.Store.{not_present, free_where, free_lines_of}

-- No line of which the test holds is locked.
abbrev pub NoneLocked : (Line → Bool) → List Line → Type 0
NoneLocked p ls =
    (j : ℕ) (line : Line) → get_elem? ls j ≡ some line → p line ≡ true → line.locked ≡ false

module _ (p : Line → Bool) where
  free_where-none :
      (ls : List Line) (j : ℕ) (line : Line)
      → get_elem? ls j ≡ some line
      → p line ≡ true
      → line.locked ≡ true
      → free_where commit p ls ≡ none
  unfolding free_where
  free_where-none [] j line g h l = absurd (cc)
  free_where-none (k ∷ ls) zero line g h l =
      let same : some k ≡ some line = g in
      let passes : p k ≡ true = cc in let locked : k.locked ≡ true = cc in rw (passes, locked) refl
  free_where-none (k ∷ ls) (suc j) line g h l =
      let rest = free_where-none ls j line g h l in
      elim (Bool-cases (p k)) [
        | inr e ↦ rw (e, rest) refl
        | inl e ↦ elim (Bool-cases k.locked) [
          | inl f ↦ rw (e, f) refl
          | inr f ↦ rw (e, f, rest) refl
        ]
      ]

  free_where-clears :
      (ls : List Line)
      → NoneLocked p ls
      → ((l : Line) → l.locked ≡ false → p (not_present l) ≡ false)
      → (ls' : List Line) × (free_where commit p ls ≡ some ls')
        × ((i : ℕ) → find_from i p ls' ≡ none)
  unfolding free_where find_from
  free_where-clears [] n c = ([], refl, λ i. refl)
  free_where-clears (k ∷ ls) n c =
      let (ls', q, f) = free_where-clears ls (λ j line. n (suc j) line) c in
      elim (Bool-cases (p k)) [
        | inl e ↦
            let unlocked = n 0 k refl e in
            let cleared = c k unlocked in
            (not_present k ∷ ls', rw (e, unlocked, q) refl, λ i. rw cleared (f (i + 1)))
        | inr e ↦ (k ∷ ls', rw (e, q) refl, λ i. rw e (f (i + 1)))
      ]

freed-matches :
    (context : RAddr) (address : Option RAddr) (l : Line)
    → l.locked ≡ false
    → matches (some context) address indexable (not_present l) ≡ false
unfolding matches has_tag
freed-matches context address l e = rw e refl

-- `freeLines` of a context, and of an address or of all, in the commit phase: if a line that matches is
-- locked it throws; if none is, it returns, and no line of that context and address is left.
pub free_lines_of-clears :
    (context : RAddr) (address : Option RAddr) (t : Table)
    → ((j : ℕ) (line : Line)
        → get_elem? t.lines j ≡ some line
        → matches (some context) address indexable line ≡ true
        → line.locked ≡ true
        → free_lines_of commit context address t ≡ none)
      × (NoneLocked (matches (some context) address indexable) t.lines
          → (t' : Table) × (free_lines_of commit context address t ≡ some t')
            × (find (matches (some context) address indexable) t' ≡ none))
unfolding free_lines_of find
free_lines_of-clears context address t =
    let p = matches (some context) address indexable in
    (
      (λ j line g h l. rw (free_where-none p t.lines j line g h l) refl),
      λ n.
          let (ls, q, f) = free_where-clears p t.lines n (freed-matches context address) in
          (record t { lines = ls }, rw q refl, f 0),
    )
