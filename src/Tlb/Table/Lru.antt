-- ===== src/Tlb/Table/Lru.antt =====
-- arch/drisc/mmu/Table.cpp, `setPrioHigh` where the line that was not used for longest is evicted: the
-- lines are linked in the order of their last use, from the head to the tail.
use mgsim.Base.{
  ℕ, ◌<◌, ◌≡◌, ◌≢◌, refl, sym, ap, subst, ◌∙◌, false, Option, none, some, List, [], ◌∷◌, ◌++◌, map,
  length, get_elem?, In, Once, inl, arith,
}
use mgsim.Tlb.Table.{
  Line, Table, lru, modify, with_next, with_previous, points, unlink, link_first, prioritize,
  set_prio_high,
}
use mgsim.Tlb.Table.Links.{
  Row, Row-split, Row-modify, Row-with_previous, Row-last, length-modify, get_elem?-modify_self,
  get_elem?-modify_ne, In-append_right, In-front, Once-front,
}
use mgsim.Tlb.Table.Unlink.{
  contents, contents-modify, Unlinked, points_self, points_other, ends_in, Once-apart,
  Once-tail_lem, unlink_cases,
}

-- The lines of a table are linked in the order `l`.
pub record IsLru (t : Table) (l : List ℕ) : Type 0 where
  pub evicts_lru : t.strategy ≡ lru
  pub row : Row t.lines none t.head l t.tail none
  pub once : Once l
  pub all_listed : (i : ℕ) → i < length t.lines → In i l

-- Whatever the place of a line that is not the first, `unlink` takes it out.
unlink_lem :
    (t : Table) (us zs : List ℕ) (y i : ℕ)
    → IsLru t ((us ++ y ∷ []) ++ i ∷ zs)
    → (t' : Table) × (line : Line) × (unlink i t ≡ some t')
      × Unlinked i ((us ++ y ∷ []) ++ zs) line t t'
unlink_lem t us zs y i s =
    let (m, k, r, q) = Row-split t.lines none t.head t.tail none (us ++ y ∷ []) (i ∷ zs) s.row in
    let (e, line, g, b, q') = q in
    let to_i : Row t.lines none t.head (us ++ y ∷ []) m (some i) = rw (← e) r in
    let from_y : line.previous ≡ some y = b ∙ Row-last t.lines none t.head m k us y r in
    let apart =
      Once-apart (us ++ y ∷ []) (i ∷ zs) y s.once (In-append_right y us (y ∷ []) (inl refl)) in
    let ne : y ≢ i = λ q. apart (inl q) in
    let (_, once) = Once-front (us ++ y ∷ []) zs i s.once in
    unlink_cases t us zs y i line m to_i g from_y q' (Once-tail_lem (us ++ y ∷ []) i zs s.once) ne
      once

-- What `setPrioHigh` does to a line and the others, `rest`.
pub record Front (i : ℕ) (rest : List ℕ) (t t' : Table) : Type 0 where
  pub lru_kept : IsLru t' (i ∷ rest)
  pub contents_kept : map contents t'.lines ≡ map contents t.lines
  pub rest_kept : t' ≡ record t { lines = t'.lines; head = t'.head; tail = t'.tail }

-- The head is put before a row.
link_first-Row :
    (t : Table) (i w : ℕ) (ws : List ℕ) (line : Line)
    → Row t.lines none t.head (w ∷ ws) t.tail none
    → get_elem? t.lines i ≡ some line
    → Once (i ∷ w ∷ ws)
    → (t' : Table) × (link_first i t ≡ some t')
      × Row t'.lines none t'.head (i ∷ w ∷ ws) t'.tail none
      × (length t'.lines ≡ length t.lines)
      × (map contents t'.lines ≡ map contents t.lines)
      × (t' ≡ record t { lines = t'.lines; head = t'.head })
unfolding link_first
link_first-Row t i w ws line r g (n, o) =
    let front : Line → Line = λ l. with_next (some w) (with_previous none l) in
    let first = modify front i t.lines in
    let e = r.0 in
    (
      record t { lines = modify (with_previous (some i)) w first; head = some i },
      rw e refl,
      (
        refl,
        front line,
        get_elem?-modify_ne (with_previous (some i)) w i first (λ q. n (inl (sym q)))
            ∙ get_elem?-modify_self front i t.lines line g,
        refl,
        subst (λ h. Row (modify (with_previous (some i)) w first) (some i) h (w ∷ ws) t.tail none) e
            (Row-with_previous first none t.head t.tail none (some i) w ws o.0
              (Row-modify front t.lines none t.head t.tail none i (w ∷ ws) n r)),
      ),
      length-modify (with_previous (some i)) w first ∙ length-modify front i t.lines,
      contents-modify (with_previous (some i)) w first (λ l. refl)
          ∙ contents-modify front i t.lines (λ l. refl),
      refl,
    )

rest_kept_lem :
    (t t₁ t₂ : Table)
    → t₁ ≡ record t { lines = t₁.lines; tail = t₁.tail }
    → t₂ ≡ record t₁ { lines = t₂.lines; head = t₂.head }
    → t₂ ≡ record t { lines = t₂.lines; head = t₂.head; tail = t₂.tail }
rest_kept_lem t t₁ t₂ e f =
    let at_head : Table → Table = λ v. record v { lines = t₂.lines; head = t₂.head } in
    let at_tail : Option ℕ → Table = λ p. record t { lines = t₂.lines; head = t₂.head; tail = p } in
    f ∙ (ap at_head e ∙ ap at_tail (sym (ap (λ v. v.tail) f)))

-- `setPrioHigh` of a line that is not the head.
set_prio_high-two :
    (t t₁ t₂ : Table) (i : ℕ)
    → t.strategy ≡ lru
    → points t.head i ≡ false
    → unlink i t ≡ some t₁
    → link_first i t₁ ≡ some t₂
    → set_prio_high i t ≡ some t₂
unfolding set_prio_high prioritize
set_prio_high-two t t₁ t₂ i a b c d = subst (λ v. prioritize v i t ≡ some t₂) (sym a) (rw (b, c) d)

-- `setPrioHigh` of the head changes nothing.
pub set_prio_high-head :
    (t : Table) (i : ℕ) (rest : List ℕ) → IsLru t (i ∷ rest) → set_prio_high i t ≡ some t
unfolding set_prio_high prioritize
set_prio_high-head t i rest s =
    subst (λ v. prioritize v i t ≡ some t) (sym s.evicts_lru)
      (rw (points_self i t.head s.row.0) refl)

-- Where lines are evicted in the order of their last use, `setPrioHigh` of the line that stands behind
-- `ys` and before `zs` in that order puts it first, keeps the order of the others and what all lines
-- hold, and uses no null pointer.
pub set_prio_high-Front :
    (t : Table) (ys zs : List ℕ) (i : ℕ)
    → IsLru t (ys ++ i ∷ zs)
    → (t' : Table) × (set_prio_high i t ≡ some t') × Front i (ys ++ zs) t t'
set_prio_high-Front t [] zs i s = (
  t,
  set_prio_high-head t i zs s,
  record { lru_kept = s; contents_kept = refl; rest_kept = refl },
)
set_prio_high-Front t (x ∷ xs) zs i s =
    let (us, y, e) = ends_in x xs in
    let (t₁, line, u, q) = unlink_lem t us zs y i (subst (λ l. IsLru t (l ++ i ∷ zs)) e s) in
    let same : t₁.head ≡ t.head = ap (λ v. v.head) q.rest_kept in
    let r : Row t₁.lines none t₁.head (x ∷ xs ++ zs) t₁.tail none =
      subst (λ h. Row t₁.lines none h (x ∷ xs ++ zs) t₁.tail none) (sym same)
        (subst (λ l. Row t₁.lines none t.head (l ++ zs) t₁.tail none) (sym e) q.row) in
    let once = Once-front (x ∷ xs) zs i s.once in
    let (t₂, f, row, size, kept, rest) = link_first-Row t₁ i x (xs ++ zs) line r q.line_kept once in
    let other : points t.head i ≡ false = points_other i x t.head s.row.0 (λ p. once.0 (inl p)) in
    (
      t₂,
      set_prio_high-two t t₁ t₂ i s.evicts_lru other u f,
      record {
        lru_kept = record {
          evicts_lru =
              ap (λ v. v.strategy) rest ∙ (ap (λ v. v.strategy) q.rest_kept ∙ s.evicts_lru);
          row = row;
          once = once;
          all_listed = λ j b.
              In-front j (x ∷ xs) zs i (s.all_listed j (omega (arith, b, size, q.size_kept)));
        };
        contents_kept = kept ∙ q.contents_kept;
        rest_kept = rest_kept_lem t t₁ t₂ q.rest_kept rest;
      },
    )
