-- ===== src/Storage/LinkedList/Cycles.antt =====
-- sim/linkedlist.hpp: a cycle of a linked list, against a sequence of indices.
use mgsim.Base.{
  ℕ, ◌≡◌, refl, ◌⊎◌, inl, inr, Bool, true, false, not, Option, none, some, List, [], ◌∷◌, ◌++◌,
  append-nil, arith, ◌>>=◌, drop,
}
use mgsim.Storage.{committing, register_update}
use mgsim.Storage.Wake.{register_update-IsAwake}
use mgsim.Storage.LinkedList.{LinkedList, Table, append, pop, effect_pop, effect_push, update}
use mgsim.Storage.LinkedList.Chain.{Chain, Distinct, Distinct-append_left}
use mgsim.Storage.LinkedList.Laws.{IsIdle, Good, full_of, effect_pop-Good, effect_push-Good}

-- What the processes of a cycle do: one may pop, another may append a chain.
pop_if : Bool → Table → LinkedList → Option LinkedList
pop_if true t l = pop (committing true) t l
pop_if false t l = some l

append_if : Option (ℕ × ℕ) → LinkedList → Option LinkedList
append_if none l = some l
append_if (some (first, last)) l = append (committing true) first last l

pub cycle : Bool → Option (ℕ × ℕ) → LinkedList → Table → Option (LinkedList × Table)
cycle pops appends l t = do l1 ← pop_if pops t l; l2 ← append_if appends l1; update l2 t

-- The indices that a cycle appends are linked beforehand.
abbrev pub Appends : Table → Option (ℕ × ℕ) → List ℕ → Type 0
Appends t none ys = ys ≡ []
Appends t (some (first, last)) ys = Chain t first last ys

-- The list behind the pop and the append.
record IsNoted (pops : Bool) (t : Table) (xs ys : List ℕ) (l : LinkedList) : Type 0 where
  good : Good l t xs
  popped_eq : l.popped ≡ pops
  next_eq : (pops ≡ false) ⊎ (l.next ≡ t l.head) × (l.empty ≡ false)
  linked : (l.pushed ≡ true) × Chain t l.first l.last ys ⊎ (l.pushed ≡ false) × (ys ≡ [])

pop_if-IsNoted :
    (pops : Bool) (l : LinkedList) (t : Table) (xs : List ℕ)
    → Good l t xs
    → IsIdle l
    → (pops ≡ false) ⊎ (l.empty ≡ false)
    → (l' : LinkedList) × (pop_if pops t l ≡ some l') × IsNoted pops t xs [] l'
unfolding pop_if pop
pop_if-IsNoted false l t xs g i h = (
  l,
  refl,
  record {
    good = g;
    popped_eq = i.not_popped;
    next_eq = inl refl;
    linked = inr (i.not_pushed, refl);
  },
)
pop_if-IsNoted true l t xs g i (inl h) = absurd (cc)
pop_if-IsNoted true l t xs g i (inr h) = (
  record l { popped = true; next = t l.head; base = register_update l.base },
  ground arith,
  record {
    good = record {
      holds = g.holds;
      sensitive = register_update-IsAwake l.base (not l.empty) g.sensitive;
    };
    popped_eq = refl;
    next_eq = inr (refl, h);
    linked = inr (i.not_pushed, refl);
  },
)

pop_if-pushed :
    (pops : Bool) (l : LinkedList) (t : Table) (l' : LinkedList)
    → pop_if pops t l ≡ some l'
    → l.pushed ≡ false
    → l'.pushed ≡ false
unfolding pop_if pop
pop_if-pushed false l t l' e h = ground arith
pop_if-pushed true l t l' e h = ground arith

append_if-IsNoted :
    (appends : Option (ℕ × ℕ)) (pops : Bool) (l : LinkedList) (t : Table) (xs ys : List ℕ)
    → IsNoted pops t xs [] l
    → l.pushed ≡ false
    → Appends t appends ys
    → (l' : LinkedList) × (append_if appends l ≡ some l') × IsNoted pops t xs ys l'
unfolding append_if append
append_if-IsNoted none pops l t xs ys n h a = (
  l,
  refl,
  record { good = n.good; popped_eq = n.popped_eq; next_eq = n.next_eq; linked = inr (h, a) },
)
append_if-IsNoted (some (first, last)) pops l t xs ys n h a = (
  record l { first = first; last = last; pushed = true; base = register_update l.base },
  ground arith,
  record {
    good = record {
      holds = n.good.holds;
      sensitive = register_update-IsAwake l.base (not l.empty) n.good.sensitive;
    };
    popped_eq = n.popped_eq;
    next_eq = n.next_eq;
    linked = inl (refl, a);
  },
)

-- What the pop leaves of the list.
abbrev pub behind : Bool → List ℕ → List ℕ
behind true xs = drop 1 xs
behind false xs = xs

popping :
    {t : Table} {xs ys : List ℕ} {l : LinkedList}
    → IsNoted true t xs ys l
    → (l.next ≡ t l.head) × (l.empty ≡ false)
popping n = elim n.next_eq [ inl h ↦ absurd (cc) | inr h ↦ h ]

effect_pop-behind :
    (pops : Bool) (l : LinkedList) (t : Table) (xs ys : List ℕ)
    → IsNoted pops t xs ys l
    → Distinct xs
    → (l' : LinkedList) × (effect_pop l ≡ some l')
      × Good l' t (behind pops xs)
      × (l'.pushed ≡ l.pushed)
      × (l'.first ≡ l.first)
      × (l'.last ≡ l.last)
unfolding effect_pop
effect_pop-behind false l t xs ys n d = (l, rw n.popped_eq, n.good, refl, refl, refl)
effect_pop-behind true l t [] ys n d = absurd (full_of l t [] n.good.holds (popping n).1)
effect_pop-behind true l t (x ∷ xs) ys n d =
    effect_pop-Good l t x xs n.good (popping n).1 n.popped_eq (popping n).0 d

effect_push-behind :
    (l : LinkedList) (t : Table) (xs ys : List ℕ)
    → Good l t xs
    → (l.pushed ≡ true) × Chain t l.first l.last ys ⊎ (l.pushed ≡ false) × (ys ≡ [])
    → Distinct (xs ++ ys)
    → Good (effect_push l t).0 (effect_push l t).1 (xs ++ ys)
unfolding effect_push
effect_push-behind l t xs ys g (inl (p, c)) d = effect_push-Good l t xs ys g p c d
effect_push-behind l t xs ys g (inr (p, e)) d = simp (p, e, append-nil) g

Distinct-behind :
    (pops : Bool) (xs ys : List ℕ) → Distinct (xs ++ ys) → Distinct (behind pops xs ++ ys)
Distinct-behind false xs ys d = d
Distinct-behind true [] ys d = d
Distinct-behind true (x ∷ xs) ys d = d.1

-- Of a list between cycles that holds `xs`, with its process active exactly while it is not empty:
-- a cycle that pops (if the list is not empty) and appends the chain of `ys`, where all of `xs` and
-- `ys` are distinct, fails no assertion. The list then holds `xs`, without its
-- first index if the cycle popped, followed by `ys`; and its process is active exactly while the
-- list is not empty.
pub list_cycle_lem :
    (pops : Bool) (appends : Option (ℕ × ℕ)) (l : LinkedList) (t : Table) (xs ys : List ℕ)
    → Good l t xs
    → IsIdle l
    → (pops ≡ false) ⊎ (l.empty ≡ false)
    → Appends t appends ys
    → Distinct (xs ++ ys)
    → (l' : LinkedList) × (t' : Table) × (cycle pops appends l t ≡ some (l', t'))
      × Good l' t' (behind pops xs ++ ys)
      × IsIdle l'
unfolding cycle update
list_cycle_lem pops appends l t xs ys g i h a d =
    let (l1, e1, n1) = pop_if-IsNoted pops l t xs g i h in
    let (l2, e2, n2) =
      append_if-IsNoted appends pops l1 t xs ys n1 (pop_if-pushed pops l t l1 e1 i.not_pushed) a in
    let (l3, e3, g3, p3, f3, z3) =
      effect_pop-behind pops l2 t xs ys n2 (Distinct-append_left xs ys d) in
    let link = rw (← p3, ← f3, ← z3) at n2.linked in
    let q = effect_push-behind l3 t (behind pops xs) ys g3 link (Distinct-behind pops xs ys d) in
    (
      record (effect_push l3 t).0 { pushed = false; popped = false },
      (effect_push l3 t).1,
      rw (e1, e2, e3),
      record { holds = q.holds; sensitive = q.sensitive },
      record { not_popped = refl; not_pushed = refl },
    )
