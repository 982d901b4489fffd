-- ===== src/Drisc/RaUnit/Search.antt =====
-- The search of `RAUnit::Alloc`, and what an allocation and a release do to the blocks.
use mgsim.Base.{
  ℕ, zero, suc, ◌+◌, ◌-◌, ◌≤◌, ◌≡◌, refl, sym, ap, subst, ◌∙◌, Option, some, List, [], ◌∷◌, ◌++◌,
  arith, append_assoc, length, length-append, take, drop, ◌==◌, Bool-cases, inl, inr,
}
use mgsim.Drisc.RaUnit.{Block, Run, free_run, find_free, found, stopped}
use mgsim.Drisc.RaUnit.Layout.{IsLayout, AllFree, IsLayout-append, AllFree-IsLayout, IsLayout-split}

-- A free area of `size` blocks from block `start` on.
pub record FreeArea (bs : List Block) (start size : ℕ) : Type 0 where
  pub before : List Block
  pub area : List Block
  pub behind : List Block
  pub parts : bs ≡ before ++ (area ++ behind)
  pub begins : length before ≡ start
  pub sized : length area ≡ size
  pub unused : AllFree area
  pub before_ok : IsLayout 0 before
  pub behind_ok : IsLayout 0 behind

-- How a run of free blocks ends that has got to `pos`.
record RunFound (size pos start : ℕ) (bs : List Block) : Type 0 where
  run : List Block
  rest : List Block
  parts : bs ≡ run ++ rest
  all_free : AllFree run
  sized : length run + pos ≡ start + size
  rest_ok : IsLayout 0 rest

free_run_found :
    (size start pos : ℕ) (bs : List Block) (s : ℕ)
    → start ≤ pos
    → IsLayout 0 bs
    → free_run size start pos bs ≡ found s
    → (s ≡ start) × RunFound size pos start bs
unfolding free_run
free_run_found size start pos [] s h l e = absurd (cc)
free_run_found size start pos ((suc n, f) ∷ bs) s h l e = absurd (ground arith)
free_run_found size start pos ((zero, f) ∷ bs) s h l e =
    elim (Bool-cases (pos - start + 1 == size)) [
      | inl fits ↦ (
        ground arith,
        record {
          run = (0, f) ∷ [];
          rest = bs;
          parts = refl;
          all_free = (refl, tt);
          sized = ground arith;
          rest_ok = l;
        },
      )
      | inr more ↦
          let (q, r) = free_run_found size start (pos + 1) bs s (omega arith) l (ground arith) in
          (
            q,
            record {
              run = (0, f) ∷ r.run;
              rest = r.rest;
              parts = ap (λ t. (0, f) ∷ t) r.parts;
              all_free = (refl, r.all_free);
              sized = omega (arith, r.sized);
              rest_ok = r.rest_ok;
            },
          )
    ]

record RunStopped (pos pos' : ℕ) (bs bs' : List Block) : Type 0 where
  run : List Block
  parts : bs ≡ run ++ bs'
  all_free : AllFree run
  moved : length run + pos ≡ pos'
  rest_ok : IsLayout 0 bs'

free_run_stopped :
    (size start pos : ℕ) (bs : List Block) (pos' : ℕ) (bs' : List Block)
    → IsLayout 0 bs
    → free_run size start pos bs ≡ stopped pos' bs'
    → RunStopped pos pos' bs bs'
unfolding free_run
free_run_stopped size start pos [] pos' bs' l e = record {
  run = [];
  parts = ground arith;
  all_free = tt;
  moved = ground arith;
  rest_ok = let q : bs' ≡ [] = ground arith in rw q refl;
}
free_run_stopped size start pos ((suc n, f) ∷ bs) pos' bs' l e = record {
  run = [];
  parts = ground arith;
  all_free = tt;
  moved = ground arith;
  rest_ok = let q : bs' ≡ (suc n, f) ∷ bs = ground arith in rw q l;
}
free_run_stopped size start pos ((zero, f) ∷ bs) pos' bs' l e =
    let r = free_run_stopped size start (pos + 1) bs pos' bs' l (ground arith) in
    record {
      run = (0, f) ∷ r.run;
      parts = ap (λ t. (0, f) ∷ t) r.parts;
      all_free = (refl, r.all_free);
      moved = omega (arith, r.moved);
      rest_ok = r.rest_ok;
    }

-- A free area found further on.
FreeArea-after :
    (xs bs : List Block) (start size : ℕ)
    → IsLayout 0 xs
    → FreeArea bs start size
    → FreeArea (xs ++ bs) (length xs + start) size
FreeArea-after xs bs start size l a = record {
  before = xs ++ a.before;
  area = a.area;
  behind = a.behind;
  parts = ap (λ t. xs ++ t) a.parts ∙ sym (append_assoc xs a.before (a.area ++ a.behind));
  begins = omega (arith, length-append xs a.before, a.begins);
  sized = a.sized;
  unused = a.unused;
  before_ok = IsLayout-append 0 xs a.before l a.before_ok;
  behind_ok = a.behind_ok;
}

-- The end of a run of free blocks: an area of the size, or the search goes on behind the run.
abbrev answer : ℕ → ℕ → ℕ → Run → Option ℕ
answer fuel size pos (found s) = some s
answer fuel size pos (stopped p bs) = find_free fuel size p bs

find_free-answer :
    (fuel size pos f : ℕ) (bs : List Block)
    → find_free (suc fuel) size pos ((zero, f) ∷ bs)
      ≡ answer fuel size pos (free_run size pos pos ((zero, f) ∷ bs))
unfolding find_free
find_free-answer fuel size pos f bs = go (free_run size pos pos ((zero, f) ∷ bs))
  where
    go :
        (r : Run)
        → (elim r [ found s ↦ some s | stopped p bs' ↦ find_free fuel size p bs' ])
          ≡ answer fuel size pos r
    go (found s) = refl
    go (stopped p bs') = refl

-- What the search answers is the base of a free area of the size.
pub find_free-FreeArea :
    (fuel size pos : ℕ) (bs : List Block) (start : ℕ)
    → IsLayout 0 bs
    → find_free fuel size pos bs ≡ some start
    → (offset : ℕ) × (start ≡ offset + pos) × FreeArea bs offset size
find_free-FreeArea zero size pos bs start l e = unfold find_free in absurd (cc)
find_free-FreeArea (suc fuel) size pos [] start l e = unfold find_free in absurd (cc)
find_free-FreeArea (suc fuel) size pos ((suc n, f) ∷ bs) start l e =
    let (head_ok, rest_ok, len, parts) = IsLayout-split n bs l in
    let (o, q, a) =
      find_free-FreeArea fuel size (pos + suc n) (drop n bs) start rest_ok
        (unfold find_free in e) in
    let xs : List Block = (suc n, f) ∷ take n bs in
    let whole : xs ++ drop n bs ≡ (suc n, f) ∷ bs = ap (λ t. (suc n, f) ∷ t) parts in
    (
      length xs + o,
      omega (arith, len, q),
      subst (λ t. FreeArea t (length xs + o) size) whole
          (FreeArea-after xs (drop n bs) o size head_ok a),
    )
find_free-FreeArea (suc fuel) size pos ((zero, f) ∷ bs) start l e =
    go (free_run size pos pos ((zero, f) ∷ bs)) refl (sym (find_free-answer fuel size pos f bs) ∙ e)
      (λ p bs'. find_free-FreeArea fuel size p bs' start)
  where
    Result : List Block → ℕ → Type 0
    Result xs p = (offset : ℕ) × (start ≡ offset + p) × FreeArea xs offset size

    go :
        (r : Run)
        → free_run size pos pos ((zero, f) ∷ bs) ≡ r
        → answer fuel size pos r ≡ some start
        → ((p : ℕ) (bs' : List Block)
            → IsLayout 0 bs'
            → find_free fuel size p bs' ≡ some start
            → Result bs' p)
        → Result ((zero, f) ∷ bs) pos
    go (found s) q a ih =
        let (here, r) = free_run_found size pos pos ((zero, f) ∷ bs) s (omega arith) l q in
        (
          0,
          ground arith,
          record {
            before = [];
            area = r.run;
            behind = r.rest;
            parts = r.parts;
            begins = refl;
            sized = omega (arith, r.sized);
            unused = r.all_free;
            before_ok = refl;
            behind_ok = r.rest_ok;
          },
        )
    go (stopped p bs') q a ih =
        let r = free_run_stopped size pos pos ((zero, f) ∷ bs) p bs' l q in
        let (o, w, area) = ih p bs' r.rest_ok a in
        (
          length r.run + o,
          omega (arith, r.moved, w),
          subst (λ t. FreeArea t (length r.run + o) size) (sym r.parts)
              (FreeArea-after r.run bs' o size (AllFree-IsLayout r.run r.all_free) area),
        )
