-- ===== src/Tlb/Table/Evict.antt =====
-- arch/drisc/mmu/Table.cpp: the line that is overwritten after a series of lookups.
use mgsim.Base.{
  ℕ, ◌≡◌, refl, sym, ap, subst, ◌∙◌, Option, none, some, ◌>>=◌, List, [], ◌∷◌, ◌++◌, map,
}
use mgsim.Tlb.Table.{free, Table, find, has_tag, lookup}
use mgsim.Tlb.Table.Links.{Row-last}
use mgsim.Tlb.Table.Lru.{IsLru}
use mgsim.Tlb.Table.Unlink.{contents}
use mgsim.Tlb.Table.Order.{
  Query, hit_line, Fits, order_after, lookup-Looked, hit_line-contents, find_from-contents,
}
use mgsim.Tlb.Table.Store.{pick_destination, victim_of}

-- The lookups, one after the other.
pub run_lookups : List Query → Table → Option Table
run_lookups [] t = some t
run_lookups (q ∷ qs) t = do r ← lookup q.context q.address q.tag t; run_lookups qs r.1

-- The order of last use that they leave, if each finds what it finds in `t`.
pub order_of : List Query → Table → List ℕ → List ℕ
order_of [] t l = l
order_of (q ∷ qs) t l = order_of qs t (order_after (hit_line q t) l)

abbrev pub AllFit : List Query → Table → Type 0
AllFit [] t = Unit {0}
AllFit (q ∷ qs) t = Fits q t × AllFit qs t

AllFit-kept :
    (qs : List Query) (t t' : Table)
    → ((q : Query) → Fits q t → Fits q t')
    → AllFit qs t
    → AllFit qs t'
AllFit-kept [] t t' k a = a
AllFit-kept (q ∷ qs) t t' k (f, a) = (k q f, AllFit-kept qs t t' k a)

order_of-contents :
    (qs : List Query) (t t' : Table) (l : List ℕ)
    → map contents t'.lines ≡ map contents t.lines
    → order_of qs t' l ≡ order_of qs t l
unfolding order_of
order_of-contents [] t t' l e = refl
order_of-contents (q ∷ qs) t t' l e =
    ap (λ o. order_of qs t' (order_after o l)) (hit_line-contents q t t' e)
    ∙ order_of-contents qs t t' (order_after (hit_line q t) l) e

free-contents :
    (t t' : Table)
    → map contents t'.lines ≡ map contents t.lines
    → find (has_tag free) t' ≡ find (has_tag free) t
unfolding find has_tag
free-contents t t' e = find_from-contents (has_tag free) 0 t'.lines t.lines (λ l. refl) e

run_lookups-IsLru :
    (qs : List Query) (t : Table) (l : List ℕ)
    → IsLru t l
    → AllFit qs t
    → (t' : Table) × (run_lookups qs t ≡ some t')
      × IsLru t' (order_of qs t l)
      × (map contents t'.lines ≡ map contents t.lines)
unfolding run_lookups order_of
run_lookups-IsLru [] t l s a = (t, refl, s, refl)
run_lookups-IsLru (q ∷ qs) t l s (f, a) =
    let (t₁, k) = lookup-Looked q t l s f in
    let (t₂, r, o, c) =
      run_lookups-IsLru qs t₁ (order_after (hit_line q t) l) k.order
        (AllFit-kept qs t t₁ k.fits_kept a) in
    (
      t₂,
      rw k.answer r,
      subst (λ m. IsLru t₂ m)
          (order_of-contents qs t t₁ (order_after (hit_line q t) l) k.contents_kept) o,
      c ∙ k.contents_kept,
    )

victim_of-last :
    (t : Table) (xs : List ℕ) (y : ℕ) → IsLru t (xs ++ y ∷ []) → victim_of t.strategy t ≡ some y
unfolding victim_of
victim_of-last t xs y s =
    subst (λ v. victim_of v t ≡ some y) (sym s.evicts_lru)
      (Row-last t.lines none t.head t.tail none xs y s.row)

pick_destination-last :
    (t : Table) (xs : List ℕ) (y : ℕ)
    → IsLru t (xs ++ y ∷ [])
    → find (has_tag free) t ≡ none
    → pick_destination t ≡ some y
unfolding pick_destination
pick_destination-last t xs y s n = rw (pick_destination, n) (victim_of-last t xs y s)

-- In a table whose lines are linked in the order `l`, any series of lookups whose addresses have the
-- widths of the table uses no null pointer, leaves what the lines hold and leads to the order in which
-- the lines found are moved to the front one after the other; if no line is free, the line that is
-- last in that order is overwritten next.
pub run_lookups-evicts :
    (qs : List Query) (t : Table) (l : List ℕ)
    → IsLru t l
    → AllFit qs t
    → (t' : Table) × (run_lookups qs t ≡ some t')
      × IsLru t' (order_of qs t l)
      × (map contents t'.lines ≡ map contents t.lines)
      × ((xs : List ℕ) (y : ℕ)
          → order_of qs t l ≡ xs ++ y ∷ []
          → find (has_tag free) t ≡ none
          → pick_destination t' ≡ some y)
run_lookups-evicts qs t l s a =
    let (t', r, o, c) = run_lookups-IsLru qs t l s a in
    (
      t',
      r,
      o,
      c,
      λ xs y e n.
          pick_destination-last t' xs y (subst (λ m. IsLru t' m) e o) (free-contents t t' c ∙ n),
    )
