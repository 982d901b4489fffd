-- ===== src/Tlb/Table/Links.antt =====
-- arch/drisc/mmu/Table.cpp: rows of lines that are linked in both directions, and what the write of a
-- link does to them.
use mgsim.Base.{
  ℕ, zero, suc, ◌≡◌, ◌≢◌, refl, sym, ap, ◌∙◌, Option, some, List, [], ◌∷◌, ◌++◌, length, get_elem?,
  In, Once, inl, inr,
}
use mgsim.Tlb.Table.{Line, modify, with_next, with_previous}

module _ (f : Line → Line) where
  pub length-modify : (i : ℕ) (ls : List Line) → length (modify f i ls) ≡ length ls
  length-modify i [] = refl
  length-modify zero (l ∷ ls) = refl
  length-modify (suc i) (l ∷ ls) = ap suc (length-modify i ls)

  pub get_elem?-modify_self :
      (i : ℕ) (ls : List Line) (l : Line)
      → get_elem? ls i ≡ some l
      → get_elem? (modify f i ls) i ≡ some (f l)
  get_elem?-modify_self i [] l e = absurd (cc)
  get_elem?-modify_self zero (k ∷ ls) l e = cc
  get_elem?-modify_self (suc i) (k ∷ ls) l e = get_elem?-modify_self i ls l e

  pub get_elem?-modify_ne :
      (i j : ℕ) (ls : List Line) → i ≢ j → get_elem? (modify f i ls) j ≡ get_elem? ls j
  get_elem?-modify_ne i j [] n = refl
  get_elem?-modify_ne zero zero (k ∷ ls) n = absurd (n refl)
  get_elem?-modify_ne zero (suc j) (k ∷ ls) n = refl
  get_elem?-modify_ne (suc i) zero (k ∷ ls) n = refl
  get_elem?-modify_ne (suc i) (suc j) (k ∷ ls) n = get_elem?-modify_ne i j ls (λ e. n (ap suc e))

-- From the pointer `h` on, `next` leads through the lines of a row and then to `n`; from `l` on,
-- `previous` leads back through them and then to `p`.
abbrev pub Row : List Line → Option ℕ → Option ℕ → List ℕ → Option ℕ → Option ℕ → Type 0
Row ls p h [] l n = (h ≡ n) × (l ≡ p)
Row ls p h (x ∷ xs) l n =
    (h ≡ some x)
    × (line : Line) × (get_elem? ls x ≡ some line)
    × (line.previous ≡ p)
    × Row ls (some x) line.next xs l n

pub Row-append :
    (ls : List Line) (p h m k l n : Option ℕ) (xs ys : List ℕ)
    → Row ls p h xs m k
    → Row ls m k ys l n
    → Row ls p h (xs ++ ys) l n
Row-append ls p h m k l n [] ys (e, f) r = rw (e, ← f) r
Row-append ls p h m k l n (x ∷ xs) ys (e, line, g, b, r) s =
    (e, line, g, b, Row-append ls (some x) line.next m k l n xs ys r s)

pub Row-split :
    (ls : List Line) (p h l n : Option ℕ) (xs ys : List ℕ)
    → Row ls p h (xs ++ ys) l n
    → (m : Option ℕ) × (k : Option ℕ) × Row ls p h xs m k × Row ls m k ys l n
Row-split ls p h l n [] ys r = (p, h, (refl, refl), r)
Row-split ls p h l n (x ∷ xs) ys (e, line, g, b, r) =
    let (m, k, q, s) = Row-split ls (some x) line.next l n xs ys r in (m, k, (e, line, g, b, q), s)

-- A write elsewhere leaves a row as it is.
pub Row-modify :
    (f : Line → Line) (ls : List Line) (p h l n : Option ℕ) (i : ℕ) (xs : List ℕ)
    → (In i xs → ⊥)
    → Row ls p h xs l n
    → Row (modify f i ls) p h xs l n
Row-modify f ls p h l n i [] o r = r
Row-modify f ls p h l n i (x ∷ xs) o (e, line, g, b, r) = (
  e,
  line,
  get_elem?-modify_ne f i x ls (λ q. o (inl q)) ∙ g,
  b,
  Row-modify f ls (some x) line.next l n i xs (λ q. o (inr q)) r,
)

-- The row whose last line is `y` leads to another pointer after a write there.
pub Row-with_next :
    (ls : List Line) (p h l n v : Option ℕ) (y : ℕ) (xs : List ℕ)
    → (In y xs → ⊥)
    → Row ls p h (xs ++ y ∷ []) l n
    → Row (modify (with_next v) y ls) p h (xs ++ y ∷ []) l v
Row-with_next ls p h l n v y [] o (e, line, g, b, (c, d)) =
    (e, with_next v line, get_elem?-modify_self (with_next v) y ls line g, b, (refl, d))
Row-with_next ls p h l n v y (x ∷ xs) o (e, line, g, b, r) = (
  e,
  line,
  get_elem?-modify_ne (with_next v) y x ls (λ q. o (inl q)) ∙ g,
  b,
  Row-with_next ls (some x) line.next l n v y xs (λ q. o (inr q)) r,
)

-- The row whose first line is `y` leads back to another pointer after a write there.
pub Row-with_previous :
    (ls : List Line) (p h l n v : Option ℕ) (y : ℕ) (xs : List ℕ)
    → (In y xs → ⊥)
    → Row ls p h (y ∷ xs) l n
    → Row (modify (with_previous v) y ls) v h (y ∷ xs) l n
Row-with_previous ls p h l n v y xs o (e, line, g, b, r) = (
  e,
  with_previous v line,
  get_elem?-modify_self (with_previous v) y ls line g,
  refl,
  Row-modify (with_previous v) ls (some y) line.next l n y xs o r,
)

-- The last pointer of a row.
pub Row-last :
    (ls : List Line) (p h l n : Option ℕ) (xs : List ℕ) (y : ℕ)
    → Row ls p h (xs ++ y ∷ []) l n
    → l ≡ some y
Row-last ls p h l n [] y (e, line, g, b, (c, d)) = d
Row-last ls p h l n (x ∷ xs) y (e, line, g, b, r) = Row-last ls (some x) line.next l n xs y r

module _ (i : ℕ) where
  pub In-append : (xs ys : List ℕ) → In i (xs ++ ys) → (In i ys → ⊥) → In i xs
  In-append [] ys h n = absurd (n h)
  In-append (x ∷ xs) ys (inl e) n = inl e
  In-append (x ∷ xs) ys (inr h) n = inr (In-append xs ys h n)

  pub In-append_left : (xs ys : List ℕ) → In i xs → In i (xs ++ ys)
  In-append_left [] ys h = absurd h
  In-append_left (x ∷ xs) ys (inl e) = inl e
  In-append_left (x ∷ xs) ys (inr h) = inr (In-append_left xs ys h)

  pub In-append_right : (xs ys : List ℕ) → In i ys → In i (xs ++ ys)
  In-append_right [] ys h = h
  In-append_right (x ∷ xs) ys h = inr (In-append_right xs ys h)

  -- An item of a list, but for one in the middle.
  pub In-insert : (xs ys : List ℕ) (y : ℕ) → In i (xs ++ ys) → In i (xs ++ y ∷ ys)
  In-insert [] ys y h = inr h
  In-insert (x ∷ xs) ys y (inl e) = inl e
  In-insert (x ∷ xs) ys y (inr h) = inr (In-insert xs ys y h)

  pub In-front : (xs ys : List ℕ) (y : ℕ) → In i (xs ++ y ∷ ys) → In i (y ∷ xs ++ ys)
  In-front [] ys y h = h
  In-front (x ∷ xs) ys y (inl e) = inr (inl e)
  In-front (x ∷ xs) ys y (inr h) = elim (In-front xs ys y h) [ inl e ↦ inl e | inr q ↦ inr (inr q) ]

pub Once-front : (xs ys : List ℕ) (y : ℕ) → Once (xs ++ y ∷ ys) → Once (y ∷ xs ++ ys)
Once-front [] ys y o = o
Once-front (x ∷ xs) ys y (n, o) =
    let (m, q) = Once-front xs ys y o in
    (
      (λ h. elim h [ inl e ↦ n (In-append_right x xs (y ∷ ys) (inl (sym e))) | inr h ↦ m h ]),
      ((λ h. n (In-insert x xs ys y h)), q),
    )
