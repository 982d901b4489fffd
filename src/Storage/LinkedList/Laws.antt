-- ===== src/Storage/LinkedList/Laws.antt =====
-- sim/linkedlist.hpp: a cycle of a linked list against the sequence of its indices.
use mgsim.Base.{
  ℕ, ◌≡◌, refl, ap, ◌∙◌, inl, inr, true, false, not, some, List, [], ◌∷◌, ◌++◌, arith,
  if◌then◌else◌, Bool-cases,
}
use mgsim.Storage.{unnotify}
use mgsim.Storage.Wake.{IsAwake, notify-IsAwake, unnotify-IsAwake}
use mgsim.Storage.LinkedList.{LinkedList, Table, write, effect_pop, effect_push}
use mgsim.Storage.LinkedList.Chain.{
  Chain, Distinct, Distinct-append_left, last-ne, last-NotIn, write_self, Chain-write_last,
  Chain-write_NotIn, Chain-append,
}

-- The indices on the list.
abbrev pub Holds : LinkedList → Table → List ℕ → Type 0
Holds l t xs = if l.empty then xs ≡ [] else Chain t l.head l.tail xs

abbrev pub IsSensitive : LinkedList → Type 0
IsSensitive l = IsAwake l.base (not l.empty)

pub record IsIdle (l : LinkedList) : Type 0 where
  pub not_popped : l.popped ≡ false
  pub not_pushed : l.pushed ≡ false

-- A list that holds `xs` and is awake if that is not empty.
pub record Good (l : LinkedList) (t : Table) (xs : List ℕ) : Type 0 where
  pub holds : Holds l t xs
  pub sensitive : IsSensitive l

pub full_of :
    (l : LinkedList) (t : Table) (xs : List ℕ)
    → Holds l t xs
    → l.empty ≡ false
    → Chain t l.head l.tail xs
full_of l t xs h e = rw e at h

of_full :
    (l : LinkedList) (t : Table) (xs : List ℕ)
    → Chain t l.head l.tail xs
    → l.empty ≡ false
    → Holds l t xs
of_full l t xs h e = rw e h

nil_of : (l : LinkedList) (t : Table) (xs : List ℕ) → Holds l t xs → l.empty ≡ true → xs ≡ []
nil_of l t xs h e = rw e at h

-- `Pop` read the next field of the head; the first part of `Update` takes the head off.
pub effect_pop-Good :
    (l : LinkedList) (t : Table) (x : ℕ) (xs : List ℕ)
    → Good l t (x ∷ xs)
    → l.empty ≡ false
    → l.popped ≡ true
    → l.next ≡ t l.head
    → Distinct (x ∷ xs)
    → (l' : LinkedList) × (effect_pop l ≡ some l')
      × Good l' t xs
      × (l'.pushed ≡ l.pushed)
      × (l'.first ≡ l.first)
      × (l'.last ≡ l.last)
unfolding effect_pop
effect_pop-Good l t x [] g e p n d =
    let c = full_of l t (x ∷ []) g.holds e in
    (
      record l { base = unnotify l.base; empty = true },
      ground (arith, c),
      record { holds = refl; sensitive = ground (arith, unnotify-IsAwake l.base, g.sensitive) },
      refl,
      refl,
      refl,
    )
effect_pop-Good l t x (y ∷ xs) g e p n d =
    let c = full_of l t (x ∷ y ∷ xs) g.holds e in
    let step : l.next ≡ t x = n ∙ ap t c.0 in
    (
      record l { head = l.next },
      ground (arith, c.0, last-ne t (t x) l.tail x (y ∷ xs) c.1 d.0),
      record {
        holds = of_full (record l { head = l.next }) t (y ∷ xs) (rw step c.1) e;
        sensitive = g.sensitive;
      },
      refl,
      refl,
      refl,
    )

pub effect_push-Good :
    (l : LinkedList) (t : Table) (xs ys : List ℕ)
    → Good l t xs
    → l.pushed ≡ true
    → Chain t l.first l.last ys
    → Distinct (xs ++ ys)
    → let (l', t') = effect_push l t in Good l' t' (xs ++ ys)
unfolding effect_push
effect_push-Good l t xs ys g p c d = elim (Bool-cases l.empty) [
  | inl e ↦
      rw (p, e, nil_of l t xs g.holds e)
        (record { holds = c; sensitive = ground (arith, notify-IsAwake l.base, g.sensitive) })
  | inr e ↦
      let h = full_of l t xs g.holds e in
      rw (p, e)
        (record {
          holds =
              Chain-append (write t l.tail l.first) l.head l.tail l.first l.last xs ys
                (Chain-write_last t l.head l.tail l.first xs h (Distinct-append_left xs ys d))
                (Chain-write_NotIn t l.first l.last l.tail l.first ys c
                  (last-NotIn t l.head l.tail xs ys h d))
                (write_self t l.tail l.first);
          sensitive = rw e at g.sensitive;
        })
]
