-- ===== src/Ports/Structure/Groups.antt =====
-- sim/ports.h, `ReadWriteStructure::OnArbitrate`: the map of requests, and the report to the ports of each
-- of its entries.
use mgsim.Base.{
  ℕ, ◌<◌, ◌≤◌, ◌≡◌, refl, sym, ap, subst, ◌∙◌, Bool, true, false, ◌&&◌, List, [], ◌∷◌, ◌++◌,
  append_assoc, append-nil, ltb, ◌==◌, if◌then◌else◌, inl, inr, Bool-cases, arith,
}
use mgsim.Ports.Choice.{All}
use mgsim.Ports.Structure.{WritePort, push_back, group}

-- The ports that the map holds for an index.
abbrev pub ports_at : ℕ → List (ℕ × List ℕ) → List ℕ
ports_at k [] = []
ports_at k ((j, ps) ∷ rest) = if k == j then ps else ports_at k rest

-- Does the port ask for the index?
abbrev pub asks : (ℕ → WritePort) → ℕ → ℕ → Bool
asks f k p = (f p).valid && ((f p).index == k)

abbrev pub asking : (ℕ → WritePort) → ℕ → List ℕ → List ℕ
asking f k [] = []
asking f k (p ∷ ps) = if asks f k p then p ∷ asking f k ps else asking f k ps

abbrev pub Above : ℕ → List (ℕ × List ℕ) → Type 0
Above i [] = Unit {0}
Above i ((j, ps) ∷ rest) = (i < j) × Above i rest

abbrev pub Sorted : List (ℕ × List ℕ) → Type 0
Sorted [] = Unit {0}
Sorted ((j, ps) ∷ rest) = Above j rest × Sorted rest

-- The ports of each entry ask for its index.
abbrev pub Sound : (ℕ → WritePort) → List (ℕ × List ℕ) → Type 0
Sound f [] = Unit {0}
Sound f ((j, ps) ∷ rest) = All (λ p. asks f j p ≡ true) ps × Sound f rest

Above-trans : (i j : ℕ) (gs : List (ℕ × List ℕ)) → i ≤ j → Above j gs → Above i gs
Above-trans i j [] h a = tt
Above-trans i j ((k, ps) ∷ gs) h (b, a) = (omega arith, Above-trans i j gs h a)

pub ports_at-Above : (k : ℕ) (gs : List (ℕ × List ℕ)) → Above k gs → ports_at k gs ≡ []
ports_at-Above k [] a = refl
ports_at-Above k ((j, ps) ∷ gs) (b, a) = ground (arith, ports_at-Above k gs a)

push_back-Above :
    (i k p : ℕ) (gs : List (ℕ × List ℕ)) → i < k → Above i gs → Above i (push_back k p gs)
unfolding push_back
push_back-Above i k p [] h a = (h, tt)
push_back-Above i k p ((j, ps) ∷ gs) h (b, a) = elim (Bool-cases (k == j)) [
  | inl e ↦ rw e (b, a)
  | inr e ↦ elim (Bool-cases (ltb k j)) [
    | inl l ↦ rw (e, l) (h, (b, a))
    | inr l ↦ rw (e, l) (b, push_back-Above i k p gs h a)
  ]
]

push_back-Sorted : (k p : ℕ) (gs : List (ℕ × List ℕ)) → Sorted gs → Sorted (push_back k p gs)
unfolding push_back
push_back-Sorted k p [] s = (tt, tt)
push_back-Sorted k p ((j, ps) ∷ gs) (a, s) = elim (Bool-cases (k == j)) [
  | inl e ↦ rw e (a, s)
  | inr e ↦ elim (Bool-cases (ltb k j)) [
    | inl l ↦
        let below : k < j = ground arith in
        rw (e, l) ((below, Above-trans k j gs (omega arith) a), (a, s))
    | inr l ↦
        let above : j < k = ground arith in
        rw (e, l) (push_back-Above j k p gs above a, push_back-Sorted k p gs s)
  ]
]

ports_at-push_back :
    (i k p : ℕ) (gs : List (ℕ × List ℕ))
    → Sorted gs
    → ports_at i (push_back k p gs) ≡ (if i == k then ports_at i gs ++ p ∷ [] else ports_at i gs)
unfolding push_back
ports_at-push_back i k p [] s = ground arith
ports_at-push_back i k p ((j, ps) ∷ gs) (a, s) = elim (Bool-cases (k == j)) [
  | inl e ↦ let same : k ≡ j = ground arith in rw e (ground (arith, same))
  | inr e ↦ elim (Bool-cases (ltb k j)) [
    | inl l ↦
        let below : k < j = ground arith in
        rw (e, l) (ground (arith, ports_at-Above k gs (Above-trans k j gs (omega arith) a), below))
    | inr l ↦ let rest = ports_at-push_back i k p gs s in rw (e, l) (ground (arith, rest, e))
  ]
]

All-snoc : (P : ℕ → Type 0) (ps : List ℕ) (p : ℕ) → All P ps → P p → All P (ps ++ p ∷ [])
All-snoc P [] p a h = (h, tt)
All-snoc P (q ∷ ps) p (b, a) h = (b, All-snoc P ps p a h)

push_back-Sound :
    (f : ℕ → WritePort) (k p : ℕ) (gs : List (ℕ × List ℕ))
    → asks f k p ≡ true
    → Sound f gs
    → Sound f (push_back k p gs)
unfolding push_back
push_back-Sound f k p [] h s = ((h, tt), tt)
push_back-Sound f k p ((j, ps) ∷ gs) h (a, s) = elim (Bool-cases (k == j)) [
  | inl e ↦
      let same : k ≡ j = ground arith in
      rw e (All-snoc (λ q. asks f j q ≡ true) ps p a (rw (sym same) h), s)
  | inr e ↦ elim (Bool-cases (ltb k j)) [
    | inl l ↦ rw (e, l) ((h, tt), (a, s))
    | inr l ↦ rw (e, l) (a, push_back-Sound f k p gs h s)
  ]
]

module _ (f : ℕ → WritePort) (p : ℕ) (ps : List ℕ) (gs : List (ℕ × List ℕ)) where
  group-valid : (f p).valid ≡ true → group f (p ∷ ps) gs ≡ group f ps (push_back (f p).index p gs)
  unfolding group
  group-valid v = rw (group, v) refl

  group-silent : (f p).valid ≡ false → group f (p ∷ ps) gs ≡ group f ps gs
  unfolding group
  group-silent v = rw (group, v) refl

pub group-Sorted :
    (f : ℕ → WritePort) (ps : List ℕ) (gs : List (ℕ × List ℕ)) → Sorted gs → Sorted (group f ps gs)
unfolding group
group-Sorted f [] gs s = s
group-Sorted f (p ∷ ps) gs s = elim (Bool-cases (f p).valid) [
  | inl v ↦
      subst Sorted (sym (group-valid f p ps gs v))
        (group-Sorted f ps (push_back (f p).index p gs) (push_back-Sorted (f p).index p gs s))
  | inr v ↦ subst Sorted (sym (group-silent f p ps gs v)) (group-Sorted f ps gs s)
]

pub group-Sound :
    (f : ℕ → WritePort) (ps : List ℕ) (gs : List (ℕ × List ℕ))
    → Sound f gs
    → Sound f (group f ps gs)
unfolding group
group-Sound f [] gs s = s
group-Sound f (p ∷ ps) gs s = elim (Bool-cases (f p).valid) [
  | inl v ↦
      let here : asks f (f p).index p ≡ true = ground arith in
      subst (Sound f) (sym (group-valid f p ps gs v))
        (group-Sound f ps (push_back (f p).index p gs) (push_back-Sound f (f p).index p gs here s))
  | inr v ↦ subst (Sound f) (sym (group-silent f p ps gs v)) (group-Sound f ps gs s)
]

pub asking_cons :
    (f : ℕ → WritePort) (k p : ℕ) (ps : List ℕ) (b : Bool)
    → asks f k p ≡ b
    → (if b then p ∷ asking f k ps else asking f k ps) ≡ asking f k (p ∷ ps)
asking_cons f k p ps b e = ap (λ c. if c then p ∷ asking f k ps else asking f k ps) (sym e)

-- The map holds for each index the ports that ask for it, in their order.
pub ports_at-group :
    (f : ℕ → WritePort) (k : ℕ) (ps : List ℕ) (gs : List (ℕ × List ℕ))
    → Sorted gs
    → ports_at k (group f ps gs) ≡ ports_at k gs ++ asking f k ps
unfolding group
ports_at-group f k [] gs s = sym (append-nil (ports_at k gs))
ports_at-group f k (p ∷ ps) gs s =
    let joined : List ℕ → List ℕ = λ l. ports_at k gs ++ l in
    elim (Bool-cases (f p).valid) [
      | inr v ↦
          ap (ports_at k) (group-silent f p ps gs v)
          ∙ (ports_at-group f k ps gs s ∙ ap joined (asking_cons f k p ps false (ground arith)))
      | inl v ↦
          let next = push_back (f p).index p gs in
          let rest = ports_at-group f k ps next (push_back-Sorted (f p).index p gs s) in
          let pushed = ports_at-push_back k (f p).index p gs s in
          elim (Bool-cases (k == (f p).index)) [
            | inl e ↦
                ap (ports_at k) (group-valid f p ps gs v)
                ∙ (rest
                    ∙ (ap (λ l. l ++ asking f k ps) (rw e at pushed)
                        ∙ (append_assoc (ports_at k gs) (p ∷ []) (asking f k ps)
                            ∙ ap joined (asking_cons f k p ps true (ground arith)))))
            | inr e ↦
                ap (ports_at k) (group-valid f p ps gs v)
                ∙ (rest
                    ∙ (ap (λ l. l ++ asking f k ps) (rw e at pushed)
                        ∙ ap joined (asking_cons f k p ps false (ground arith))))
          ]
    ]

pub if_same : (b : Bool) (w : WritePort) → (if b then w else w) ≡ w
if_same true w = refl
if_same false w = refl
