-- ===== src/Tlb/Table/Start.antt =====
-- arch/drisc/mmu/Table.cpp, `initStrategy`: the links that its loop makes.
use mgsim.Base.{
  ℕ, zero, suc, ◌+◌, ◌-◌, ◌<◌, ◌≡◌, refl, sym, ap, subst, ◌∙◌, Option, none, some, List, [], ◌∷◌,
  ◌++◌, map, length, get_elem?, inl, inr, arith,
}
use mgsim.Tlb.Table.{
  Line, Table, lru, modify, with_next, with_previous, link_lines, initialize, init_strategy,
}
use mgsim.Tlb.Table.Links.{
  Row, Row-append, Row-modify, Row-with_next, length-modify, get_elem?-modify_self,
  get_elem?-modify_ne,
}
use mgsim.Tlb.Table.Lru.{IsLru}
use mgsim.Tlb.Table.Unlink.{contents, contents-modify}
use mgsim.Tlb.Table.Init.{below, eq-cases, below-le, lt-below, below-Once}

get_elem?-some : (i : ℕ) (ls : List Line) → i < length ls → (l : Line) × (get_elem? ls i ≡ some l)
get_elem?-some i [] h = absurd (omega arith)
get_elem?-some zero (l ∷ ls) h = (l, refl)
get_elem?-some (suc i) (l ∷ ls) h = get_elem?-some i ls (omega arith)

-- The pointer behind a row is that of its last line.
Row-next :
    (ls : List Line) (p h l n : Option ℕ) (xs : List ℕ) (y : ℕ) (line : Line)
    → Row ls p h (xs ++ y ∷ []) l n
    → get_elem? ls y ≡ some line
    → n ≡ line.next
Row-next ls p h l n [] y line (e, k, g, b, (c, d)) f =
    let same : some k ≡ some line = sym g ∙ f in cc
Row-next ls p h l n (x ∷ xs) y line (e, k, g, b, r) f =
    Row-next ls (some x) k.next l n xs y line r f

-- The last line leads nowhere.
abbrev Ends : List Line → Type 0
Ends ls = (line : Line) × (get_elem? ls (length ls - 1) ≡ some line) × (line.next ≡ none)

Ends-modify :
    (f : Line → Line) (i : ℕ) (ls : List Line)
    → ((i ≡ length ls - 1) → (l : Line) → (f l).next ≡ l.next)
    → Ends ls
    → Ends (modify f i ls)
Ends-modify f i ls k (line, g, e) = rw (length-modify f i ls) (elim (eq-cases i (length ls - 1)) [
  | inl q ↦ (
    f line,
    subst (λ m. get_elem? (modify f m ls) (length ls - 1) ≡ some (f line)) (sym q)
        (get_elem?-modify_self f (length ls - 1) ls line g),
    k q line ∙ e,
  )
  | inr q ↦ (line, get_elem?-modify_ne f i (length ls - 1) ls q ∙ g, e)
])

-- One round of the loop adds the line `j + 1` to the row of those up to `j`.
link_one-Row :
    (j : ℕ) (ls : List Line) (v : Option ℕ) (line : Line)
    → Row ls none (some 0) (below (suc j)) (some j) v
    → get_elem? ls (suc j) ≡ some line
    → Row
        (modify (with_previous (some j)) (suc j) (modify (with_next (some (suc j))) j ls))
        none
        (some 0)
        (below (suc (suc j)))
        (some (suc j))
        line.next
unfolding below
link_one-Row j ls v line r g =
    let first = modify (with_next (some (suc j))) j ls in
    let second = modify (with_previous (some j)) (suc j) first in
    Row-append second none (some 0) (some j) (some (suc j)) (some (suc j)) line.next (below (suc j))
      (suc j ∷ [])
      (Row-modify (with_previous (some j)) first none (some 0) (some j) (some (suc j)) (suc j)
        (below (suc j)) (λ h. omega (arith, below-le (suc j) (suc j) h))
        (Row-with_next ls none (some 0) (some j) v (some (suc j)) j (below j)
          (λ h. omega (arith, below-le j j h)) r))
      (
        refl,
        with_previous (some j) line,
        get_elem?-modify_self (with_previous (some j)) (suc j) first line (
            get_elem?-modify_ne (with_next (some (suc j))) j (suc j) ls (λ q. omega (arith, q))
            ∙ g),
        refl,
        (refl, refl),
      )

behind_last :
    (ls : List Line) (v : Option ℕ) (j : ℕ) (line : Line)
    → Row ls none (some 0) (below (suc j)) (some j) v
    → get_elem? ls j ≡ some line
    → v ≡ line.next
unfolding below
behind_last ls v j line r g = Row-next ls none (some 0) (some j) v (below j) j line r g

same_write :
    (i j : ℕ) (ls : List Line)
    → i ≡ suc j
    → i - 1 ≡ j
    → modify (with_previous (some (i - 1))) i (modify (with_next (some i)) (i - 1) ls)
      ≡ modify (with_previous (some j)) (suc j) (modify (with_next (some (suc j))) j ls)
same_write i j ls a b = rw (b, a) refl

link_lines-Row :
    (n i j m : ℕ) (ls : List Line) (v : Option ℕ)
    → i ≡ suc j
    → j + n ≡ m
    → suc m ≡ length ls
    → Row ls none (some 0) (below (suc j)) (some j) v
    → Ends ls
    → Row (link_lines n i ls) none (some 0) (below (suc m)) (some m) none
      × (length (link_lines n i ls) ≡ length ls)
unfolding link_lines
link_lines-Row zero i j m ls v a s b r (line, g, e) =
    let at_end : length ls - 1 ≡ j = omega (arith, s, b) in
    let same : j ≡ m = omega (arith, s) in
    let nowhere : v ≡ none = behind_last ls v j line r (rw at_end at g) ∙ e in
    (
      subst (λ k. Row ls none (some 0) (below (suc k)) (some k) none) same
          (subst (λ w. Row ls none (some 0) (below (suc j)) (some j) w) nowhere r),
      refl,
    )
link_lines-Row (suc n) i j m ls v a s b r q =
    let (line, g) = get_elem?-some (suc j) ls (omega (arith, s, b)) in
    let first = modify (with_next (some (suc j))) j ls in
    let second = modify (with_previous (some j)) (suc j) first in
    let size : length second ≡ length ls =
      length-modify (with_previous (some j)) (suc j) first
      ∙ length-modify (with_next (some (suc j))) j ls in
    let ends =
      Ends-modify (with_previous (some j)) (suc j) first (λ e l. refl)
        (Ends-modify (with_next (some (suc j))) j ls (λ e l. absurd (omega (arith, e, s, b))) q) in
    let (row, len) =
      link_lines-Row n (i + 1) (suc j) m second line.next (omega (arith, a)) (omega (arith, s))
        (b ∙ sym size) (link_one-Row j ls v line r g) ends in
    let written : modify (with_previous (some (i - 1))) i (modify (with_next (some i)) (i - 1) ls)
        ≡ second =
      same_write i j ls a (omega (arith, a)) in
    (
      subst (λ k. Row (link_lines n (i + 1) k) none (some 0) (below (suc m)) (some m) none)
          (sym written) row,
      ap (λ k. length (link_lines n (i + 1) k)) written ∙ (len ∙ size),
    )

contents-link_lines :
    (n i : ℕ) (ls : List Line) → map contents (link_lines n i ls) ≡ map contents ls
unfolding link_lines
contents-link_lines zero i ls = refl
contents-link_lines (suc n) i ls =
    let first = modify (with_next (some i)) (i - 1) ls in
    contents-link_lines n (i + 1) (modify (with_previous (some (i - 1))) i first)
    ∙ (contents-modify (with_previous (some (i - 1))) i first (λ l. refl)
        ∙ contents-modify (with_next (some i)) (i - 1) ls (λ l. refl))

-- Cut behind its last line, a table ends there.
cut-Ends :
    (m : ℕ) (ls : List Line) (last : Line)
    → length ls - 1 ≡ m
    → get_elem? ls m ≡ some last
    → Ends (modify (with_next none) m ls)
cut-Ends m ls last e g = (
  with_next none last,
  rw (length-modify (with_next none) m ls, e) (get_elem?-modify_self (with_next none) m ls last g),
  refl,
)

-- What `initialize` does for the order of last use.
initialize-IsLru :
    (t : Table) (m : ℕ)
    → t.strategy ≡ lru
    → suc m ≡ length t.lines
    → (t' : Table) × (initialize lru t ≡ some t')
      × IsLru t' (below (length t.lines))
      × (map contents t'.lines ≡ map contents t.lines)
unfolding initialize below
initialize-IsLru t m e p =
    let at_last : length t.lines - 1 ≡ m = omega (arith, p) in
    let (first, f) = get_elem?-some 0 t.lines (omega (arith, p)) in
    let (last, g) = get_elem?-some m t.lines (omega (arith, p)) in
    let cut = modify (with_next none) m t.lines in
    let start = modify (with_previous none) 0 cut in
    let size : length start ≡ length t.lines =
      length-modify (with_previous none) 0 cut ∙ length-modify (with_next none) m t.lines in
    let (k, h) =
      get_elem?-some 0 cut (omega (arith, p, length-modify (with_next none) m t.lines)) in
    let ends : Ends cut = cut-Ends m t.lines last (omega (arith, p)) g in
    let (row, len) =
      link_lines-Row m 1 0 m start k.next refl (omega arith) (p ∙ sym size)
        (
          refl,
          with_previous none k,
          get_elem?-modify_self (with_previous none) 0 cut k h,
          refl,
          (refl, refl),
        )
        (Ends-modify (with_previous none) 0 cut (λ q l. refl) ends) in
    let t' : Table = record t { head = some 0; tail = some m; lines = link_lines m 1 start } in
    (
      t',
      rw (at_last, f, g) refl,
      record {
        evicts_lru = e;
        row = subst (λ n. Row t'.lines none (some 0) (below n) (some m) none) p row;
        once = below-Once (length t.lines);
        all_listed = λ i b. lt-below (length t.lines) i (omega (arith, b, len, size));
      },
      contents-link_lines m 1 start
          ∙ (contents-modify (with_previous none) 0 cut (λ l. refl)
              ∙ contents-modify (with_next none) m t.lines (λ l. refl)),
    )

-- `initStrategy` of a table of one line at least that evicts in the order of last use links the lines
-- in ascending order, whatever their links were, and keeps what they hold.
pub init_strategy-IsLru :
    (t : Table)
    → t.strategy ≡ lru
    → 0 < length t.lines
    → (t' : Table) × (init_strategy t ≡ some t')
      × IsLru t' (below (length t.lines))
      × (map contents t'.lines ≡ map contents t.lines)
unfolding init_strategy
init_strategy-IsLru t e p =
    let (t', q, s, c) = initialize-IsLru t (length t.lines - 1) e (omega (arith, p)) in
    (t', subst (λ v. initialize v t ≡ some t') (sym e) q, s, c)
