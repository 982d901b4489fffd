-- ===== src/Storage/LinkedList/Chain.antt =====
-- The sequence of indices that a chain of next fields runs through.
use mgsim.Base.{ℕ, ◌≡◌, sym, ◌∙◌, ◌≢◌, List, [], ◌∷◌, ◌++◌, arith}
use mgsim.Storage.LinkedList.{Table, write}

-- The next fields lead from `h` through `xs` to its last item, `t`.
abbrev pub Chain : Table → ℕ → ℕ → List ℕ → Type 0
Chain n h t [] = ⊥
Chain n h t (x ∷ []) = (h ≡ x) × (t ≡ x)
Chain n h t (x ∷ y ∷ xs) = (h ≡ x) × Chain n (n x) t (y ∷ xs)

abbrev pub NotIn : ℕ → List ℕ → Type 0
NotIn a [] = Unit {0}
NotIn a (x ∷ xs) = (a ≢ x) × NotIn a xs

abbrev pub Distinct : List ℕ → Type 0
Distinct [] = Unit {0}
Distinct (x ∷ xs) = NotIn x xs × Distinct xs

NotIn-append_left : (a : ℕ) (xs ys : List ℕ) → NotIn a (xs ++ ys) → NotIn a xs
NotIn-append_left a [] ys h = tt
NotIn-append_left a (x ∷ xs) ys h = (h.0, NotIn-append_left a xs ys h.1)

NotIn-append_right : (a : ℕ) (xs ys : List ℕ) → NotIn a (xs ++ ys) → NotIn a ys
NotIn-append_right a [] ys h = h
NotIn-append_right a (x ∷ xs) ys h = NotIn-append_right a xs ys h.1

pub Distinct-append_left : (xs ys : List ℕ) → Distinct (xs ++ ys) → Distinct xs
Distinct-append_left [] ys h = tt
Distinct-append_left (x ∷ xs) ys h = (NotIn-append_left x xs ys h.0, Distinct-append_left xs ys h.1)

-- The last item of a chain is none that is not in it.
pub last-ne : (n : Table) (h t a : ℕ) (xs : List ℕ) → Chain n h t xs → NotIn a xs → a ≢ t
last-ne n h t a [] c i = absurd c
last-ne n h t a (x ∷ []) c i = λ e. i.0 (e ∙ c.1)
last-ne n h t a (x ∷ y ∷ xs) c i = last-ne n (n x) t a (y ∷ xs) c.1 i.1

-- The last item of the first part of a list without repetition is not in the second part.
pub last-NotIn :
    (n : Table) (h t : ℕ) (xs ys : List ℕ) → Chain n h t xs → Distinct (xs ++ ys) → NotIn t ys
last-NotIn n h t [] ys c d = absurd c
last-NotIn n h t (x ∷ []) ys c d = rw c.1 d.0
last-NotIn n h t (x ∷ y ∷ xs) ys c d = last-NotIn n (n x) t (y ∷ xs) ys c.1 d.1

write_ne : (n : Table) (i v j : ℕ) → j ≢ i → write n i v j ≡ n j
write_ne n i v j h = ground arith

pub write_self : (n : Table) (i v : ℕ) → write n i v i ≡ v
write_self n i v = ground arith

-- A write to the next field of the last item leaves the chain as it is.
pub Chain-write_last :
    (n : Table) (h t v : ℕ) (xs : List ℕ)
    → Chain n h t xs
    → Distinct xs
    → Chain (write n t v) h t xs
Chain-write_last n h t v [] c d = c
Chain-write_last n h t v (x ∷ []) c d = c
Chain-write_last n h t v (x ∷ y ∷ xs) c d = (
  c.0,
  rw (write_ne n t v x (last-ne n (n x) t x (y ∷ xs) c.1 d.0))
      (Chain-write_last n (n x) t v (y ∷ xs) c.1 d.1),
)

-- So does a write elsewhere.
pub Chain-write_NotIn :
    (n : Table) (h t i v : ℕ) (xs : List ℕ)
    → Chain n h t xs
    → NotIn i xs
    → Chain (write n i v) h t xs
Chain-write_NotIn n h t i v [] c d = c
Chain-write_NotIn n h t i v (x ∷ []) c d = c
Chain-write_NotIn n h t i v (x ∷ y ∷ xs) c d = (
  c.0,
  rw (write_ne n i v x (λ e. d.0 (sym e))) (Chain-write_NotIn n (n x) t i v (y ∷ xs) c.1 d.1),
)

-- Two chains that are linked are one.
pub Chain-append :
    (n : Table) (h t f l : ℕ) (xs ys : List ℕ)
    → Chain n h t xs
    → Chain n f l ys
    → n t ≡ f
    → Chain n h l (xs ++ ys)
Chain-append n h t f l [] ys c d e = absurd c
Chain-append n h t f l (x ∷ xs) [] c d e = absurd d
Chain-append n h t f l (x ∷ []) (y ∷ ys) c d e = (c.0, rw (← c.1, e) d)
Chain-append n h t f l (x ∷ z ∷ xs) (y ∷ ys) c d e =
    (c.0, Chain-append n (n x) t f l (z ∷ xs) (y ∷ ys) c.1 d e)
