-- ===== src/Tlb/Table/Unlink.antt =====
-- arch/drisc/mmu/Table.cpp, `setPrioHigh`: a line is taken out of its place between the others.
use mgsim.Base.{
  ℕ, zero, suc, ◌≡◌, ◌≢◌, refl, sym, ap, ◌∙◌, true, false, Option, none, some, List, [], ◌∷◌, ◌++◌,
  append-nil, map, length, get_elem?, In, Once, inl, inr, arith,
}
use mgsim.Tlb.Table.{Line, Table, modify, with_next, with_previous, points, unlink}
use mgsim.Tlb.Table.Links.{
  Row, Row-append, Row-modify, Row-with_next, Row-with_previous, Row-last, length-modify,
  get_elem?-modify_ne, In-append_left, In-append_right,
}

-- What a line holds, apart from its place.
abbrev pub contents : Line → Line
contents l = record l { accessed = false; previous = none; next = none }

pub contents-modify :
    (f : Line → Line) (i : ℕ) (ls : List Line)
    → ((l : Line) → contents (f l) ≡ contents l)
    → map contents (modify f i ls) ≡ map contents ls
contents-modify f i [] k = refl
contents-modify f zero (l ∷ ls) k = ap (λ c. c ∷ map contents ls) (k l)
contents-modify f (suc i) (l ∷ ls) k = ap (λ cs. contents l ∷ cs) (contents-modify f i ls k)

pub points_self : (i : ℕ) (p : Option ℕ) → p ≡ some i → points p i ≡ true
points_self i none e = absurd (cc)
points_self i (some j) e = ground arith

pub points_other : (i j : ℕ) (p : Option ℕ) → p ≡ some j → i ≢ j → points p i ≡ false
points_other i j none e n = absurd (cc)
points_other i j (some k) e n = ground arith

-- A list that is not empty ends in an item.
pub ends_in : (x : ℕ) (xs : List ℕ) → (us : List ℕ) × (y : ℕ) × (x ∷ xs ≡ us ++ y ∷ [])
ends_in x [] = ([], x, refl)
ends_in x (z ∷ xs) = let (us, y, e) = ends_in z xs in (x ∷ us, y, ap (λ l. x ∷ l) e)

last-points :
    (ls : List Line) (p h l n : Option ℕ) (i x : ℕ) (xs : List ℕ)
    → Row ls p h (x ∷ xs) l n
    → (In i (x ∷ xs) → ⊥)
    → points l i ≡ false
last-points ls p h l n i x [] (e, line, g, b, (c, d)) o = points_other i x l d (λ q. o (inl q))
last-points ls p h l n i x (z ∷ xs) (e, line, g, b, r) o =
    last-points ls (some x) line.next l n i z xs r (λ q. o (inr q))

first-points :
    (ls : List Line) (p h l n : Option ℕ) (i y : ℕ) (us : List ℕ)
    → Row ls p h (us ++ y ∷ []) l n
    → (In i (us ++ y ∷ []) → ⊥)
    → points h i ≡ false
first-points ls p h l n i y [] (e, line, g, b, r) o = points_other i y h e (λ q. o (inl q))
first-points ls p h l n i y (x ∷ us) (e, line, g, b, r) o = points_other i x h e (λ q. o (inl q))

Once-append_left : (xs ys : List ℕ) → Once (xs ++ ys) → Once xs
Once-append_left [] ys o = tt
Once-append_left (x ∷ xs) ys (n, o) =
    ((λ h. n (In-append_left x xs ys h)), Once-append_left xs ys o)

-- No item of the first part of a list without repetition is in the second part.
pub Once-apart : (xs ys : List ℕ) (i : ℕ) → Once (xs ++ ys) → In i xs → In i ys → ⊥
Once-apart [] ys i o h k = h
Once-apart (x ∷ xs) ys i (n, o) (inl e) k = n (In-append_right x xs ys (rw (sym e) k))
Once-apart (x ∷ xs) ys i (n, o) (inr h) k = Once-apart xs ys i o h k

Once-last : (us : List ℕ) (y : ℕ) → Once (us ++ y ∷ []) → In y us → ⊥
Once-last us y o h = Once-apart us (y ∷ []) y o h (inl refl)

pub Once-tail_lem : (xs : List ℕ) (z : ℕ) (zs : List ℕ) → Once (xs ++ z ∷ zs) → In z zs → ⊥
Once-tail_lem [] z zs (n, o) h = n h
Once-tail_lem (x ∷ xs) z zs (n, o) h = Once-tail_lem xs z zs o h

-- What `unlink` has done.
pub record Unlinked (i : ℕ) (l : List ℕ) (line : Line) (t t' : Table) : Type 0 where
  pub row : Row t'.lines none t.head l t'.tail none
  pub line_kept : get_elem? t'.lines i ≡ some line
  pub size_kept : length t'.lines ≡ length t.lines
  pub contents_kept : map contents t'.lines ≡ map contents t.lines
  pub rest_kept : t' ≡ record t { lines = t'.lines; tail = t'.tail }

unlink-last :
    (t : Table) (us : List ℕ) (y i : ℕ) (line : Line) (m : Option ℕ)
    → Row t.lines none t.head (us ++ y ∷ []) m (some i)
    → get_elem? t.lines i ≡ some line
    → line.previous ≡ some y
    → t.tail ≡ some i
    → (In y us → ⊥)
    → y ≢ i
    → (t' : Table) × (unlink i t ≡ some t') × Unlinked i (us ++ y ∷ []) line t t'
unfolding unlink
unlink-last t us y i line m r g b e o n = (
  record t { tail = some y; lines = modify (with_next none) y t.lines },
  rw (g, b, points_self i t.tail e) refl,
  record {
    row =
        rw (← Row-last t.lines none t.head m (some i) us y r)
          (Row-with_next t.lines none t.head m (some i) none y us o r);
    line_kept = get_elem?-modify_ne (with_next none) y i t.lines n ∙ g;
    size_kept = length-modify (with_next none) y t.lines;
    contents_kept = contents-modify (with_next none) y t.lines (λ l. refl);
    rest_kept = refl;
  },
)

unlink-inner :
    (t : Table) (us zs : List ℕ) (y i z : ℕ) (line : Line) (m : Option ℕ)
    → Row t.lines none t.head (us ++ y ∷ []) m (some i)
    → get_elem? t.lines i ≡ some line
    → line.previous ≡ some y
    → Row t.lines (some i) line.next (z ∷ zs) t.tail none
    → (In i (z ∷ zs) → ⊥)
    → y ≢ i
    → Once ((us ++ y ∷ []) ++ z ∷ zs)
    → (t' : Table) × (unlink i t ≡ some t') × Unlinked i ((us ++ y ∷ []) ++ z ∷ zs) line t t'
unfolding unlink
unlink-inner t us zs y i z line m r g b s a n o =
    let e = s.0 in
    let first = modify (with_next (some z)) y t.lines in
    let once = Once-append_left (us ++ y ∷ []) (z ∷ zs) o in
    let y_apart =
      Once-apart (us ++ y ∷ []) (z ∷ zs) y o (In-append_right y us (y ∷ []) (inl refl)) in
    let z_apart : In z (us ++ y ∷ []) → ⊥ =
      λ h. Once-apart (us ++ y ∷ []) (z ∷ zs) z o h (inl refl) in
    let behind_z : In z zs → ⊥ = λ h. Once-tail_lem (us ++ y ∷ []) z zs o h in
    (
      record t { lines = modify (with_previous (some y)) z first },
      rw (g, b, last-points t.lines (some i) line.next t.tail none i z zs s a, e) refl,
      record {
        row =
            Row-append (modify (with_previous (some y)) z first) none t.head m (some z) t.tail none
              (us ++ y ∷ []) (z ∷ zs)
              (Row-modify (with_previous (some y)) first none t.head m (some z) z (us ++ y ∷ [])
                z_apart
                (Row-with_next t.lines none t.head m (some i) (some z) y us (Once-last us y once)
                  r))
              (rw (Row-last t.lines none t.head m (some i) us y r) (
                Row-with_previous first (some i) (some z) t.tail none (some y) z zs behind_z (
                  Row-modify (with_next (some z)) t.lines (some i) (some z) t.tail none y (z ∷ zs)
                    y_apart (rw e at s))));
        line_kept =
            get_elem?-modify_ne (with_previous (some y)) z i first (λ q. a (inl (sym q)))
            ∙ (get_elem?-modify_ne (with_next (some z)) y i t.lines n ∙ g);
        size_kept =
            length-modify (with_previous (some y)) z first
            ∙ length-modify (with_next (some z)) y t.lines;
        contents_kept =
            contents-modify (with_previous (some y)) z first (λ l. refl)
            ∙ contents-modify (with_next (some z)) y t.lines (λ l. refl);
        rest_kept = refl;
      },
    )

pub unlink_cases :
    (t : Table) (us zs : List ℕ) (y i : ℕ) (line : Line) (m : Option ℕ)
    → Row t.lines none t.head (us ++ y ∷ []) m (some i)
    → get_elem? t.lines i ≡ some line
    → line.previous ≡ some y
    → Row t.lines (some i) line.next zs t.tail none
    → (In i zs → ⊥)
    → y ≢ i
    → Once ((us ++ y ∷ []) ++ zs)
    → (t' : Table) × (line : Line) × (unlink i t ≡ some t')
      × Unlinked i ((us ++ y ∷ []) ++ zs) line t t'
unlink_cases t us [] y i line m r g b (e, f) a n o =
    let (t', u, q) =
      unlink-last t us y i line m r g b f (Once-last us y (rw (append-nil (us ++ y ∷ [])) at o))
        n in
    (t', line, u, rw (append-nil (us ++ y ∷ [])) q)
unlink_cases t us (z ∷ zs) y i line m r g b s a n o =
    let (t', u, q) = unlink-inner t us zs y i z line m r g b s a n o in (t', line, u, q)
