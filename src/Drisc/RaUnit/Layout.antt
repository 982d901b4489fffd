-- ===== src/Drisc/RaUnit/Layout.antt =====
-- arch/drisc/RAUnit.h: the list of blocks as a row of free blocks and allocated areas.
use mgsim.Base.{
  ℕ, zero, suc, ◌+◌, ◌≡◌, refl, ap, Option, none, some, List, [], ◌∷◌, ◌++◌, arith, length, set,
  take, drop, replicate,
}
use mgsim.Drisc.RaUnit.{Block}

-- From here on `k` more blocks belong to an area that began before; each area lies within the list,
-- and its blocks behind the first hold the size 0.
abbrev pub IsLayout : ℕ → List Block → Type 0
IsLayout k [] = k ≡ 0
IsLayout zero ((zero, f) ∷ bs) = IsLayout zero bs
IsLayout zero ((suc n, f) ∷ bs) = IsLayout n bs
IsLayout (suc k) ((m, f) ∷ bs) = (m ≡ 0) × IsLayout k bs

-- The family that each block is allocated to.
abbrev pub owners_from : ℕ → ℕ → List Block → List (Option ℕ)
owners_from k c [] = []
owners_from zero c ((zero, f) ∷ bs) = none ∷ owners_from zero c bs
owners_from zero c ((suc n, f) ∷ bs) = some f ∷ owners_from n f bs
owners_from (suc k) c ((m, f) ∷ bs) = some c ∷ owners_from k c bs

abbrev pub owners : List Block → List (Option ℕ)
owners bs = owners_from 0 0 bs

-- The number of allocated blocks.
abbrev pub used : List Block → ℕ
used [] = 0
used ((n, f) ∷ bs) = n + used bs

abbrev pub AllFree : List Block → Type 0
AllFree [] = Unit {0}
AllFree ((n, f) ∷ bs) = (n ≡ 0) × AllFree bs

pub IsLayout-append :
    (k : ℕ) (xs ys : List Block) → IsLayout k xs → IsLayout 0 ys → IsLayout k (xs ++ ys)
IsLayout-append k [] ys h g = rw h g
IsLayout-append zero ((zero, f) ∷ xs) ys h g = IsLayout-append zero xs ys h g
IsLayout-append zero ((suc n, f) ∷ xs) ys h g = IsLayout-append n xs ys h g
IsLayout-append (suc k) ((m, f) ∷ xs) ys h g = (h.0, IsLayout-append k xs ys h.1 g)

owners_from-zero : (c d : ℕ) (bs : List Block) → owners_from 0 c bs ≡ owners_from 0 d bs
owners_from-zero c d [] = refl
owners_from-zero c d ((zero, f) ∷ bs) = ap (λ r. none ∷ r) (owners_from-zero c d bs)
owners_from-zero c d ((suc n, f) ∷ bs) = refl

owners_from-append :
    (k c : ℕ) (xs ys : List Block)
    → IsLayout k xs
    → owners_from k c (xs ++ ys) ≡ owners_from k c xs ++ owners ys
owners_from-append k c [] ys h = rw h (owners_from-zero c 0 ys)
owners_from-append zero c ((zero, f) ∷ xs) ys h =
    ap (λ r. none ∷ r) (owners_from-append zero c xs ys h)
owners_from-append zero c ((suc n, f) ∷ xs) ys h =
    ap (λ r. some f ∷ r) (owners_from-append n f xs ys h)
owners_from-append (suc k) c ((m, f) ∷ xs) ys h =
    ap (λ r. some c ∷ r) (owners_from-append k c xs ys h.1)

pub owners-append :
    (xs ys : List Block) → IsLayout 0 xs → owners (xs ++ ys) ≡ owners xs ++ owners ys
owners-append xs ys h = owners_from-append 0 0 xs ys h

-- A run of free blocks.
pub AllFree-IsLayout : (bs : List Block) → AllFree bs → IsLayout 0 bs
AllFree-IsLayout [] h = refl
AllFree-IsLayout ((zero, f) ∷ bs) h = AllFree-IsLayout bs h.1
AllFree-IsLayout ((suc n, f) ∷ bs) h = absurd (omega (arith, h.0))

pub AllFree-owners : (bs : List Block) → AllFree bs → owners bs ≡ replicate (length bs) none
AllFree-owners [] h = refl
AllFree-owners ((zero, f) ∷ bs) h = ap (λ r. none ∷ r) (AllFree-owners bs h.1)
AllFree-owners ((suc n, f) ∷ bs) h = absurd (omega (arith, h.0))

pub AllFree-used : (bs : List Block) → AllFree bs → used bs ≡ 0
AllFree-used [] h = refl
AllFree-used ((n, f) ∷ bs) h = omega (arith, h.0, AllFree-used bs h.1)

-- The same blocks as the rest of an area.
AllFree-rest :
    (c : ℕ) (bs : List Block)
    → AllFree bs
    → IsLayout (length bs) bs × (owners_from (length bs) c bs ≡ replicate (length bs) (some c))
AllFree-rest c [] h = (refl, refl)
AllFree-rest c ((n, f) ∷ bs) h =
    let (l, o) = AllFree-rest c bs h.1 in ((h.0, l), ap (λ r. some c ∷ r) o)

pub rest-AllFree : (n : ℕ) (bs : List Block) → IsLayout n bs → length bs ≡ n → AllFree bs
rest-AllFree n [] h e = tt
rest-AllFree zero ((m, f) ∷ bs) h e = absurd (omega (arith, e))
rest-AllFree (suc n) ((m, f) ∷ bs) h e = (h.0, rest-AllFree n bs h.1 (omega (arith, e)))

-- An area on blocks of which all but the first hold the size 0.
pub area_lem :
    (fid : ℕ) (b : Block) (bs : List Block)
    → AllFree bs
    → IsLayout 0 ((length (b ∷ bs), fid) ∷ bs)
      × (owners ((length (b ∷ bs), fid) ∷ bs) ≡ replicate (length (b ∷ bs)) (some fid))
area_lem fid b bs h = let (l, o) = AllFree-rest fid bs h in (l, ap (λ r. some fid ∷ r) o)

pub used-append : (xs ys : List Block) → used (xs ++ ys) ≡ used xs + used ys
used-append [] ys = omega arith
used-append ((n, f) ∷ xs) ys = omega (arith, used-append xs ys)

pub set-append :
    (xs : List Block) (b v : Block) (ys : List Block)
    → set (xs ++ b ∷ ys) (length xs) v ≡ xs ++ v ∷ ys
set-append [] b v ys = refl
set-append (x ∷ xs) b v ys = ap (λ r. x ∷ r) (set-append xs b v ys)

-- The rest of an area, and what follows it.
pub IsLayout-split :
    (n : ℕ) (bs : List Block)
    → IsLayout n bs
    → IsLayout n (take n bs)
      × IsLayout 0 (drop n bs)
      × (length (take n bs) ≡ n)
      × (take n bs ++ drop n bs ≡ bs)
IsLayout-split zero bs h = (refl, h, refl, refl)
IsLayout-split (suc n) [] h = absurd (omega (arith, h))
IsLayout-split (suc n) ((m, f) ∷ bs) h =
    let (a, b, c, d) = IsLayout-split n bs h.1 in ((h.0, a), b, ap suc c, ap (λ r. (m, f) ∷ r) d)

pub length-owners_from : (k c : ℕ) (bs : List Block) → length (owners_from k c bs) ≡ length bs
length-owners_from k c [] = refl
length-owners_from zero c ((zero, f) ∷ bs) = ap suc (length-owners_from zero c bs)
length-owners_from zero c ((suc n, f) ∷ bs) = ap suc (length-owners_from n f bs)
length-owners_from (suc k) c ((m, f) ∷ bs) = ap suc (length-owners_from k c bs)
