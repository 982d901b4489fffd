-- ===== src/Drisc/ThreadTable/FreeList.antt =====
-- arch/drisc/ThreadTable.cpp: the free entries are a list without repetition that holds all empty
-- entries, and the counts add up to its length.
use mgsim.Base.{
  ℕ, zero, suc, ◌+◌, ◌<◌, ◌≤◌, ◌≡◌, sym, ap, ◌∙◌, true, some, List, [], ◌∷◌, arith, if◌then◌else◌,
  length, get_elem?, set, get_elem?-set_ne, In, Once, inl, inr,
}
use mgsim.Drisc.FreeCounts.{total}
use mgsim.Drisc.ThreadTable.{Thread, is_empty, ThreadTable, invalid_tid, used, check_state_sanity}

-- From entry `i` on the next fields lead through `l`, whose entries are empty.
abbrev pub FreeList : List Thread → ℕ → List ℕ → Type 0
FreeList ts i [] = i ≡ invalid_tid
FreeList ts i (x ∷ xs) =
    (i ≡ x)
    × (t : Thread) × (get_elem? ts x ≡ some t)
    × (is_empty t.state ≡ true)
    × FreeList ts t.next xs

pub record IsSane (t : ThreadTable) (l : List ℕ) : Type 0 where
  pub small : length t.threads < invalid_tid
  pub chain : FreeList t.threads t.first_empty l
  pub once : Once l
  pub all_listed : length l + used t.threads ≡ length t.threads
  pub counts : total t.free ≡ length l
  pub one_exclusive : t.free.free_exclusive ≤ 1

pub IsSane-check : (t : ThreadTable) (l : List ℕ) → IsSane t l → check_state_sanity t ≡ some tt
unfolding check_state_sanity
IsSane-check t l s = ground arith

-- The effect of a write to one entry.
pub used-set :
    (ts : List Thread) (i : ℕ) (t u : Thread)
    → get_elem? ts i ≡ some t
    → used (set ts i u) + (if is_empty t.state then 0 else 1)
      ≡ used ts + (if is_empty u.state then 0 else 1)
used-set [] i t u e = absurd (cc)
used-set (x ∷ ts) zero t u e = ground arith
used-set (x ∷ ts) (suc i) t u e = ground (arith, used-set ts i t u e)

pub FreeList-set :
    (ts : List Thread) (i : ℕ) (u : Thread) (k : ℕ) (l : List ℕ)
    → (In i l → ⊥)
    → FreeList ts k l
    → FreeList (set ts i u) k l
FreeList-set ts i u k [] n h = h
FreeList-set ts i u k (x ∷ xs) n (e, t, f, g, h) = (
  e,
  t,
  get_elem?-set_ne ts u (λ q. n (inl q)) ∙ f,
  g,
  FreeList-set ts i u t.next xs (λ q. n (inr q)) h,
)

pub FreeList-is_empty :
    (ts : List Thread) (i : ℕ) (t : Thread) (k : ℕ) (l : List ℕ)
    → FreeList ts k l
    → In i l
    → get_elem? ts i ≡ some t
    → is_empty t.state ≡ true
FreeList-is_empty ts i t k [] h n e = absurd n
FreeList-is_empty ts i t k (x ∷ xs) (q, u, f, g, h) (inl n) e =
    let same : some u ≡ some t = sym f ∙ (ap (λ j. get_elem? ts j) (sym n) ∙ e) in cc
FreeList-is_empty ts i t k (x ∷ xs) (q, u, f, g, h) (inr n) e =
    FreeList-is_empty ts i t u.next xs h n e
