-- ===== src/Drisc/RaUnit/Give.antt =====
-- arch/drisc/RAUnit.cpp: the blocks of the area that is found are given to the family.
use mgsim.Base.{
  ℕ, ◌+◌, ◌≤◌, ◌≡◌, ap, ◌∙◌, Option, none, some, List, [], ◌∷◌, ◌++◌, arith, length, set, replicate,
}
use mgsim.Drisc.RaUnit.{Block}
use mgsim.Drisc.RaUnit.Layout.{
  IsLayout, owners, used, AllFree, IsLayout-append, owners-append, AllFree-IsLayout, AllFree-owners,
  AllFree-used, length-owners_from, area_lem, used-append, set-append,
}
use mgsim.Drisc.RaUnit.Search.{FreeArea}

-- What an allocation does to the blocks: the area was nobody's, and is the family's now; all other
-- blocks stay whose they were.
pub record Given (bs bs' : List Block) (start size fid : ℕ) : Type 0 where
  pub left : List (Option ℕ)
  pub right : List (Option ℕ)
  pub old_owners : owners bs ≡ left ++ (replicate size none ++ right)
  pub new_owners : owners bs' ≡ left ++ (replicate size (some fid) ++ right)
  pub at_start : length left ≡ start
  pub layout : IsLayout 0 bs'
  pub count : used bs' ≡ used bs + size

give_parts :
    (before : List Block) (b : Block) (rest behind : List Block) (fid : ℕ)
    → IsLayout 0 before
    → AllFree (b ∷ rest)
    → IsLayout 0 behind
    → Given
        (before ++ ((b ∷ rest) ++ behind))
        (before ++ ((length (b ∷ rest), fid) ∷ rest ++ behind))
        (length before)
        (length (b ∷ rest))
        fid
give_parts before b rest behind fid l u r =
    let (area_ok, area_owned) = area_lem fid b rest u.1 in
    let area = (length (b ∷ rest), fid) ∷ rest in
    let old_ok = AllFree-IsLayout (b ∷ rest) u in
    record {
      left = owners before;
      right = owners behind;
      old_owners =
          owners-append before ((b ∷ rest) ++ behind) l
          ∙ ap (λ t. owners before ++ t)
              (owners-append (b ∷ rest) behind old_ok
                ∙ ap (λ t. t ++ owners behind) (AllFree-owners (b ∷ rest) u));
      new_owners =
          owners-append before (area ++ behind) l
          ∙ ap (λ t. owners before ++ t)
              (owners-append area behind area_ok ∙ ap (λ t. t ++ owners behind) area_owned);
      at_start = length-owners_from 0 0 before;
      layout =
          IsLayout-append 0 before (area ++ behind) l (IsLayout-append 0 area behind area_ok r);
      count = omega (
        arith,
        used-append before ((b ∷ rest) ++ behind),
        used-append before (area ++ behind),
        used-append (b ∷ rest) behind,
        used-append area behind,
        AllFree-used (b ∷ rest) u,
        AllFree-used rest u.1,
      );
    }

-- A write of the size and the family to the head of a free area gives the area to the family.
pub give :
    (bs : List Block) (start size fid : ℕ)
    → 1 ≤ size
    → FreeArea bs start size
    → Given bs (set bs start (size, fid)) start size fid
give bs start size fid h a = go a.area a.parts a.sized a.unused
  where
    go :
        (area : List Block)
        → bs ≡ a.before ++ (area ++ a.behind)
        → length area ≡ size
        → AllFree area
        → Given bs (set bs start (size, fid)) start size fid
    go [] p s u = absurd (omega (arith, s))
    go (b ∷ rest) p s u =
        rw (p, ← a.begins, ← s, set-append a.before b (length (b ∷ rest), fid) (rest ++ a.behind))
          (give_parts a.before b rest a.behind fid a.before_ok u a.behind_ok)
