-- ===== src/Drisc/ThreadTable/Create.antt =====
-- arch/drisc/ThreadTable.cpp: the table that the constructor makes.
use mgsim.Base.{
  ℕ, zero, suc, ◌+◌, ◌<◌, ◌≤◌, ◌≡◌, refl, ap, subst, some, List, [], ◌∷◌, ◌++◌, append_assoc, arith,
  length, length-append, get_elem?, In, Once, inl, inr,
}
use mgsim.Drisc.ThreadTable.{Thread, empty, invalid_tid, used, fresh_threads, create}
use mgsim.Drisc.ThreadTable.FreeList.{FreeList, IsSane}

-- The numbers from `i` on, `n` of them.
abbrev pub range : ℕ → ℕ → List ℕ
range i zero = []
range i (suc n) = i ∷ range (i + 1) n

length-range : (i n : ℕ) → length (range i n) ≡ n
length-range i zero = refl
length-range i (suc n) = ap suc (length-range (i + 1) n)

range-le : (i n j : ℕ) → In j (range i n) → i ≤ j
range-le i zero j h = absurd h
range-le i (suc n) j (inl e) = omega arith
range-le i (suc n) j (inr h) = omega (arith, range-le (i + 1) n j h)

range-Once : (i n : ℕ) → Once (range i n)
range-Once i zero = tt
range-Once i (suc n) = ((λ h. omega (arith, range-le (i + 1) n i h)), range-Once (i + 1) n)

fresh_threads_lem : (i n : ℕ) → (length (fresh_threads i n) ≡ n) × (used (fresh_threads i n) ≡ 0)
unfolding fresh_threads
fresh_threads_lem i zero = (refl, refl)
fresh_threads_lem i (suc zero) = (refl, refl)
fresh_threads_lem i (suc (suc n)) =
    let (l, u) = fresh_threads_lem (i + 1) (suc n) in (ap suc l, omega (arith, u))

get_elem?-append_here :
    (xs ys : List Thread) (y : Thread) (i : ℕ) → length xs ≡ i → get_elem? (xs ++ y ∷ ys) i ≡ some y
get_elem?-append_here [] ys y zero e = refl
get_elem?-append_here [] ys y (suc i) e = absurd (omega arith)
get_elem?-append_here (x ∷ xs) ys y zero e = absurd (omega arith)
get_elem?-append_here (x ∷ xs) ys y (suc i) e = get_elem?-append_here xs ys y i (omega arith)

fresh_threads-FreeList :
    (before : List Thread) (i n : ℕ)
    → length before ≡ i
    → FreeList (before ++ fresh_threads i (suc n)) i (range i (suc n))
unfolding fresh_threads
fresh_threads-FreeList before i zero e =
    let last : Thread = record { next = invalid_tid; state = empty } in
    (refl, last, get_elem?-append_here before [] last i e, refl, refl)
fresh_threads-FreeList before i (suc n) e =
    let t : Thread = record { next = i + 1; state = empty } in
    let rest =
      fresh_threads-FreeList (before ++ t ∷ []) (i + 1) n
        (omega (arith, length-append before (t ∷ []))) in
    (
      refl,
      t,
      get_elem?-append_here before (fresh_threads (i + 1) (suc n)) t i e,
      refl,
      subst (λ ts. FreeList ts (i + 1) (range (i + 1) (suc n)))
          (append_assoc before (t ∷ []) (fresh_threads (i + 1) (suc n))) rest,
    )

-- The table that the constructor makes, of one entry at least, is sane: all its entries are free.
pub create-IsSane : (n : ℕ) → 0 < n → n < invalid_tid → IsSane (create n) (range 0 n)
unfolding create
create-IsSane zero p w = absurd (omega arith)
create-IsSane (suc n) p w =
    let (l, u) = fresh_threads_lem 0 (suc n) in
    record {
      small = omega (arith, l);
      chain = fresh_threads-FreeList [] 0 n refl;
      once = range-Once 0 (suc n);
      all_listed = omega (arith, length-range 0 (suc n), l, u);
      counts = omega (arith, length-range 0 (suc n));
      one_exclusive = omega arith;
    }
