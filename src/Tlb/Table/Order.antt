-- ===== src/Tlb/Table/Order.antt =====
-- arch/drisc/mmu/Table.cpp: lookups and the choice of a line to evict, against the order of last use.
use mgsim.Base.{
  ℕ, ◌+◌, ◌<◌, ◌≤◌, ◌≡◌, refl, sym, ap, subst, ◌∙◌, Bool, if◌then◌else◌, Option, none, some,
  Option-cases, List, [], ◌∷◌, ◌++◌, map, length, In, inl, inr, ◌==◌, Bool-cases, arith,
}
use mgsim.Tlb.Address.{RAddr, strict_expect}
use mgsim.Tlb.Table.{Line, LineTag, Table, find_from, find, matches, has_tag, set_prio_high, lookup}
use mgsim.Tlb.Table.Lru.{IsLru, Front, set_prio_high-Front, set_prio_high-head}
use mgsim.Tlb.Table.Unlink.{contents}

-- The sequence without a number, and the number put before the others.
abbrev pub remove : ℕ → List ℕ → List ℕ
remove i [] = []
remove i (x ∷ xs) = if x == i then xs else x ∷ remove i xs

pub move_front : ℕ → List ℕ → List ℕ
move_front i l = i ∷ remove i l

split_at :
    (i : ℕ) (l : List ℕ)
    → In i l
    → (ys : List ℕ) × (zs : List ℕ) × (l ≡ ys ++ i ∷ zs) × (remove i l ≡ ys ++ zs)
split_at i [] h = absurd h
split_at i (x ∷ xs) h = elim (Bool-cases (x == i)) [
  | inl e ↦ let same : x ≡ i = ground arith in ([], xs, ap (λ y. y ∷ xs) same, rw e refl)
  | inr e ↦
      let (ys, zs, f, g) = split_at i xs (elim h [ inl q ↦ absurd (ground arith) | inr q ↦ q ]) in
      (x ∷ ys, zs, ap (λ l. x ∷ l) f, rw e (ap (λ l. x ∷ l) g))
]

-- `setPrioHigh` of any line moves it to the front.
set_prio_high-moves :
    (t : Table) (l : List ℕ) (i : ℕ)
    → IsLru t l
    → i < length t.lines
    → (t' : Table) × (set_prio_high i t ≡ some t') × Front i (remove i l) t t'
set_prio_high-moves t l i s b =
    let (ys, zs, e, f) = split_at i l (s.all_listed i b) in
    let (t', q, m) = set_prio_high-Front t ys zs i (subst (λ k. IsLru t k) e s) in
    (t', q, subst (λ r. Front i r t t') (sym f) m)

find_from-bound :
    (p : Line → Bool) (i j : ℕ) (ls : List Line)
    → find_from i p ls ≡ some j
    → (i ≤ j) × (j < i + length ls)
unfolding find_from
find_from-bound p i j [] e = absurd (cc)
find_from-bound p i j (l ∷ ls) e = elim (Bool-cases (p l)) [
  | inl q ↦ ground arith
  | inr q ↦ let (a, b) = find_from-bound p (i + 1) j ls (rw q at e) in (omega arith, omega arith)
]

pub find-bound : (p : Line → Bool) (t : Table) (j : ℕ) → find p t ≡ some j → j < length t.lines
unfolding find
find-bound p t j e = omega (arith, (find_from-bound p 0 j t.lines e).1)

-- A test of what a line holds finds the same line among lines that hold the same.
pub find_from-contents :
    (p : Line → Bool) (i : ℕ) (ks ls : List Line)
    → ((l : Line) → p (contents l) ≡ p l)
    → map contents ks ≡ map contents ls
    → find_from i p ks ≡ find_from i p ls
unfolding find_from
find_from-contents p i [] [] n e = refl
find_from-contents p i [] (l ∷ ls) n e = absurd (cc)
find_from-contents p i (k ∷ ks) [] n e = absurd (cc)
find_from-contents p i (k ∷ ks) (l ∷ ls) n e =
    let here : contents k ≡ contents l = cc in
    let there : map contents ks ≡ map contents ls = cc in
    let same : p k ≡ p l = sym (n k) ∙ (ap p here ∙ n l) in
    rw (same, find_from-contents p (i + 1) ks ls n there) refl

-- A lookup, and what it tests.
pub record Query : Type 0 where
  pub context : RAddr
  pub address : RAddr
  pub tag : LineTag

abbrev pub hit_line : Query → Table → Option ℕ
hit_line q t = find (matches (some q.context) (some q.address) q.tag) t

-- The addresses of a query have the widths of the table.
pub record Fits (q : Query) (t : Table) : Type 0 where
  pub context_fits : strict_expect t.context_width q.context ≡ some tt
  pub address_fits : strict_expect t.virtual_width q.address ≡ some tt

pub hit_line-contents :
    (q : Query) (t t' : Table)
    → map contents t'.lines ≡ map contents t.lines
    → hit_line q t' ≡ hit_line q t
unfolding find matches has_tag
hit_line-contents q t t' e =
    find_from-contents (matches (some q.context) (some q.address) q.tag) 0 t'.lines t.lines
      (λ l. refl) e

lookup-none :
    (q : Query) (t : Table)
    → Fits q t
    → hit_line q t ≡ none
    → lookup q.context q.address q.tag t ≡ some (none, t)
unfolding lookup
lookup-none q t f e = rw (f.context_fits, f.address_fits, e) refl

lookup-some :
    (q : Query) (t t' : Table) (i : ℕ)
    → Fits q t
    → hit_line q t ≡ some i
    → set_prio_high i t ≡ some t'
    → lookup q.context q.address q.tag t ≡ some (some i, t')
unfolding lookup
lookup-some q t t' i f e h = rw (f.context_fits, f.address_fits, e, h) refl

-- The order after a query.
abbrev pub order_after : Option ℕ → List ℕ → List ℕ
order_after none l = l
order_after (some i) l = move_front i l

-- What a lookup has done to a table whose lines are linked in the order `l`.
pub record Looked (q : Query) (t : Table) (l : List ℕ) (t' : Table) : Type 0 where
  pub answer : lookup q.context q.address q.tag t ≡ some (hit_line q t, t')
  pub order : IsLru t' (order_after (hit_line q t) l)
  pub contents_kept : map contents t'.lines ≡ map contents t.lines
  pub again : lookup q.context q.address q.tag t' ≡ some (hit_line q t, t')
  pub fits_kept : (r : Query) → Fits r t → Fits r t'

-- In a table whose lines are linked in the order `l`, a lookup whose addresses have the widths of the
-- table answers the first line that matches, if there is one, and that line comes first in the order;
-- all lines hold what they held, and the same lookup once more, as in the next phase of the cycle,
-- answers the same and changes nothing.
pub lookup-Looked :
    (q : Query) (t : Table) (l : List ℕ) → IsLru t l → Fits q t → (t' : Table) × Looked q t l t'
unfolding move_front
lookup-Looked q t l s f = elim (Option-cases (hit_line q t)) [
  | inl e ↦
      let a = lookup-none q t f e in
      (
        t,
        record {
          answer = rw e a;
          order = rw e s;
          contents_kept = refl;
          again = rw e a;
          fits_kept = λ r g. g;
        },
      )
  | inr (i, e) ↦
      let (t', h, m) = set_prio_high-moves t l i s (find-bound _ t i e) in
      let kept : (r : Query) → Fits r t → Fits r t' = λ r g. record {
        context_fits = rw (ap (λ v. v.context_width) m.rest_kept) g.context_fits;
        address_fits = rw (ap (λ v. v.virtual_width) m.rest_kept) g.address_fits;
      } in
      let head = set_prio_high-head t' i (remove i l) m.lru_kept in
      (
        t',
        record {
          answer = rw e (lookup-some q t t' i f e h);
          order = rw e m.lru_kept;
          contents_kept = m.contents_kept;
          again = rw e (
              lookup-some q t' t' i (kept q f) (hit_line-contents q t t' m.contents_kept ∙ e) head);
          fits_kept = kept;
        },
      )
]
