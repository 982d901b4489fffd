-- ===== src/Drisc/RaUnit/Release.antt =====
-- `RAUnit::Free`: an area goes back.
use mgsim.Base.{
  ℕ, zero, suc, ◌+◌, ◌≡◌, refl, sym, ap, ◌∙◌, Option, none, some, List, [], ◌∷◌, ◌++◌, arith,
  length, get_elem?, set, take, drop, replicate,
}
use mgsim.Drisc.RaUnit.{Block}
use mgsim.Drisc.RaUnit.Layout.{
  IsLayout, owners, used, AllFree, IsLayout-append, owners-append, AllFree-IsLayout, AllFree-owners,
  area_lem, used-append, set-append, IsLayout-split, rest-AllFree, length-owners_from,
}

-- An allocated area of `suc n` blocks of family `f` from block `i` on.
record AreaAt (k : ℕ) (bs : List Block) (i n f : ℕ) : Type 0 where
  before : List Block
  rest : List Block
  behind : List Block
  parts : bs ≡ before ++ ((suc n, f) ∷ rest ++ behind)
  begins : length before ≡ i
  sized : length rest ≡ n
  inner : AllFree rest
  before_ok : IsLayout k before
  behind_ok : IsLayout 0 behind

AreaAt-cons :
    (k k' : ℕ) (b : Block) (bs : List Block) (i n f : ℕ)
    → ((xs : List Block) → IsLayout k' xs → IsLayout k (b ∷ xs))
    → AreaAt k' bs i n f
    → AreaAt k (b ∷ bs) (suc i) n f
AreaAt-cons k k' b bs i n f l a = record {
  before = b ∷ a.before;
  rest = a.rest;
  behind = a.behind;
  parts = ap (λ t. b ∷ t) a.parts;
  begins = ap suc a.begins;
  sized = a.sized;
  inner = a.inner;
  before_ok = l a.before a.before_ok;
  behind_ok = a.behind_ok;
}

-- A block that holds a size is the first of an area.
area_at :
    (k : ℕ) (bs : List Block) (i n f : ℕ)
    → IsLayout k bs
    → get_elem? bs i ≡ some (suc n, f)
    → AreaAt k bs i n f
area_at k [] i n f l e = absurd (cc)
area_at zero ((zero, g) ∷ bs) zero n f l e = absurd (ground arith)
area_at zero ((suc m, g) ∷ bs) zero n f l e =
    let (head_ok, rest_ok, len, parts) = IsLayout-split m bs l in
    let size : m ≡ n = ground arith in
    let owner : g ≡ f = ground arith in
    record {
      before = [];
      rest = take m bs;
      behind = drop m bs;
      parts = rw (size, owner) (ap (λ t. (suc n, f) ∷ t) (rw size at (sym parts)));
      begins = refl;
      sized = len ∙ size;
      inner = rest-AllFree m (take m bs) head_ok len;
      before_ok = refl;
      behind_ok = rest_ok;
    }
area_at (suc k) ((m, g) ∷ bs) zero n f l e = absurd (let z = l.0 in ground arith)
area_at zero ((zero, g) ∷ bs) (suc i) n f l e =
    AreaAt-cons 0 0 (0, g) bs i n f (λ xs h. h) (area_at 0 bs i n f l e)
area_at zero ((suc m, g) ∷ bs) (suc i) n f l e =
    AreaAt-cons 0 m (suc m, g) bs i n f (λ xs h. h) (area_at m bs i n f l e)
area_at (suc k) ((m, g) ∷ bs) (suc i) n f l e =
    AreaAt-cons (suc k) k (m, g) bs i n f (λ xs h. (l.0, h)) (area_at k bs i n f l.1 e)

-- What a release does to the blocks: the family's blocks are nobody's; all other blocks stay whose
-- they were.
pub record Taken (bs bs' : List Block) (start size fid : ℕ) : Type 0 where
  pub left : List (Option ℕ)
  pub right : List (Option ℕ)
  pub old_owners : owners bs ≡ left ++ (replicate size (some fid) ++ right)
  pub new_owners : owners bs' ≡ left ++ (replicate size none ++ right)
  pub at_start : length left ≡ start
  pub layout : IsLayout 0 bs'
  pub count : used bs' + size ≡ used bs

take_parts :
    (before rest behind : List Block) (n f : ℕ)
    → IsLayout 0 before
    → AllFree rest
    → length rest ≡ n
    → IsLayout 0 behind
    → Taken
        (before ++ ((suc n, f) ∷ rest ++ behind))
        (before ++ ((0, f) ∷ rest ++ behind))
        (length before)
        (suc n)
        f
take_parts before rest behind n f l u s r =
    let (area_ok0, area_owned0) = area_lem f (0, f) rest u in
    let area_ok = rw s at area_ok0 in
    let area_owned = rw s at area_owned0 in
    let area : List Block = (suc n, f) ∷ rest in
    let cleared : List Block = (0, f) ∷ rest in
    let free_ok = AllFree-IsLayout cleared (refl, u) in
    let free_owned = rw s at (AllFree-owners cleared (refl, u)) in
    record {
      left = owners before;
      right = owners behind;
      old_owners =
          owners-append before (area ++ behind) l
          ∙ ap (λ t. owners before ++ t)
              (owners-append area behind area_ok ∙ ap (λ t. t ++ owners behind) area_owned);
      new_owners =
          owners-append before (cleared ++ behind) l
          ∙ ap (λ t. owners before ++ t)
              (owners-append cleared behind free_ok ∙ ap (λ t. t ++ owners behind) free_owned);
      at_start = length-owners_from 0 0 before;
      layout =
          IsLayout-append 0 before (cleared ++ behind) l
            (IsLayout-append 0 cleared behind free_ok r);
      count = omega (
        arith,
        used-append before (area ++ behind),
        used-append before (cleared ++ behind),
        used-append area behind,
        used-append cleared behind,
      );
    }

-- To clear the size in the first block of an area releases the area.
pub take_back :
    (bs : List Block) (i n f : ℕ)
    → IsLayout 0 bs
    → get_elem? bs i ≡ some (suc n, f)
    → Taken bs (set bs i (0, f)) i (suc n) f
take_back bs i n f l e =
    let a = area_at 0 bs i n f l e in
    rw (a.parts, ← a.begins, set-append a.before (suc n, f) (0, f) (a.rest ++ a.behind))
      (take_parts a.before a.rest a.behind n f a.before_ok a.inner a.sized a.behind_ok)
