-- ===== src/Memory/Ranges/Disjoint.antt =====
-- The reservations never overlap: `Reserve` accepts exactly what overlaps none of them.
use mgsim.Base.{
  ℕ, ◌+◌, ◌-◌, ◌%◌, ◌<◌, ◌≤◌, ◌≡◌, refl, ◌⊎◌, inl, inr, true, false, Option, none, some, List, [],
  ◌∷◌, arith, ltb, ◌==◌, if◌then◌else◌, ◌>>=◌, Bool-cases,
}
use native.Mathlib.Decide.{dec_lt}
use mgsim.Storage.{word}
use mgsim.Memory.Ranges.{
  Range, Entry, Ranges, insert_range, overlaps_behind, overlaps_before, reserve, remove_range,
  unreserve,
}

-- The ranges lie in order behind `lo`, each with something in it and within the address space.
abbrev pub Disjoint : ℕ → List Entry → Type 0
Disjoint lo [] = Unit {0}
Disjoint lo ((b, r) ∷ es) = (lo ≤ b) × (0 < r.size) × (b + r.size < word) × Disjoint (b + r.size) es

-- The bytes from `a` on, `n` of them, are in no range.
abbrev pub Free : ℕ → ℕ → List Entry → Type 0
Free a n [] = Unit {0}
Free a n ((b, r) ∷ es) = ((a + n ≤ b) ⊎ (b + r.size ≤ a)) × Free a n es

abbrev pub sizes : List Entry → ℕ
sizes [] = 0
sizes ((b, r) ∷ es) = r.size + sizes es

-- The list with an entry put in its place.
abbrev pub with_range : ℕ → Range → List Entry → List Entry
with_range a q [] = (a, q) ∷ []
with_range a q ((b, r) ∷ es) = if ltb b a then (b, r) ∷ with_range a q es else (a, q) ∷ (b, r) ∷ es

-- The end of the entry passed last.
abbrev end_of : Option Entry → ℕ
end_of none = 0
end_of (some (b, r)) = b + r.size

abbrev Fits : Option Entry → Type 0
Fits none = Unit {0}
Fits (some (b, r)) = b + r.size < word

insert_range-Free :
    (a : ℕ) (q : Range) (prev : Option Entry) (lo : ℕ) (es : List Entry)
    → Fits prev
    → 0 < q.size
    → a + q.size < word
    → Disjoint lo es
    → Free a q.size es
    → end_of prev ≤ a
    → insert_range a q prev es ≡ some (with_range a q es)
unfolding insert_range overlaps_before overlaps_behind
insert_range-Free a q none lo [] p h w d f e = refl
insert_range-Free a q (some (b, r)) lo [] p h w d f e = ground arith
insert_range-Free a q prev lo ((b, r) ∷ es) p h w d f e = elim (Bool-cases (ltb b a)) [
  | inl below ↦
      rw (below, insert_range-Free a q (some (b, r)) (b + r.size) es d.2 h w d.3 f.1 (ground arith))
  | inr above ↦ rw above (settle prev p e)
]
  where
    settle :
        (prev' : Option Entry)
        → Fits prev'
        → end_of prev' ≤ a
        → (if overlaps_behind a q.size b
            then none
            else if overlaps_before a prev'
            then none
            else some ((a, q) ∷ (b, r) ∷ es))
          ≡ some ((a, q) ∷ (b, r) ∷ es)
    settle none p' e' = ground arith
    settle (some (c, s)) p' e' = ground arith

with_range-Disjoint :
    (a : ℕ) (q : Range) (lo : ℕ) (es : List Entry)
    → 0 < q.size
    → a + q.size < word
    → Disjoint lo es
    → Free a q.size es
    → lo ≤ a
    → Disjoint lo (with_range a q es)
with_range-Disjoint a q lo [] h w d f l = (l, h, w, tt)
with_range-Disjoint a q lo ((b, r) ∷ es) h w d f l = elim (Bool-cases (ltb b a)) [
  | inl below ↦
      rw below (d.0, d.1, d.2, with_range-Disjoint a q (b + r.size) es h w d.3 f.1 (ground arith))
  | inr above ↦ rw above (l, h, w, (ground arith, d.1, d.2, d.3))
]

-- Some byte from `a` on, of `n`, is in a range.
abbrev pub Overlaps : ℕ → ℕ → List Entry → Type 0
Overlaps a n [] = ⊥
Overlaps a n ((b, r) ∷ es) = ((b < a + n) × (a < b + r.size)) ⊎ Overlaps a n es

Overlaps-start : (a n lo : ℕ) (es : List Entry) → Disjoint lo es → Overlaps a n es → lo < a + n
Overlaps-start a n lo [] d o = absurd o
Overlaps-start a n lo ((b, r) ∷ es) d (inl o) = omega arith
Overlaps-start a n lo ((b, r) ∷ es) d (inr o) =
    omega (arith, Overlaps-start a n (b + r.size) es d.3 o)

insert_range_before :
    (a : ℕ) (q : Range) (b : ℕ) (r : Range) (es : List Entry)
    → b + r.size < word
    → a < b + r.size
    → Disjoint (b + r.size) es
    → insert_range a q (some (b, r)) es ≡ none
unfolding insert_range overlaps_before overlaps_behind
insert_range_before a q b r [] w h d = ground arith
insert_range_before a q b r ((c, s) ∷ es) w h d = ground arith

Overlaps-head :
    (a n lo b : ℕ) (r : Range) (es : List Entry)
    → Disjoint lo ((b, r) ∷ es)
    → Overlaps a n ((b, r) ∷ es)
    → b < a + n
Overlaps-head a n lo b r es d (inl o) = o.0
Overlaps-head a n lo b r es d (inr o) = omega (arith, Overlaps-start a n (b + r.size) es d.3 o)

insert_range_overlap :
    (a : ℕ) (q : Range) (prev : Option Entry) (lo : ℕ) (es : List Entry)
    → 0 < q.size
    → a + q.size < word
    → Disjoint lo es
    → Overlaps a q.size es
    → insert_range a q prev es ≡ none
unfolding insert_range overlaps_behind
insert_range_overlap a q prev lo [] h w d o = absurd o
insert_range_overlap a q prev lo ((b, r) ∷ es) h w d o = elim (Bool-cases (ltb b a)) [
  | inl below ↦
      rw (
        below,
        deeper (λ far. insert_range_overlap a q (some (b, r)) (b + r.size) es h w d.3 far) o,
      )
  | inr above ↦ rw (above, touches above (Overlaps-head a q.size lo b r es d o))
]
  where
    deeper :
        (Overlaps a q.size es → insert_range a q (some (b, r)) es ≡ none)
        → Overlaps a q.size ((b, r) ∷ es)
        → insert_range a q (some (b, r)) es ≡ none
    deeper ih (inl hit) = insert_range_before a q b r es d.2 hit.1 d.3
    deeper ih (inr far) = ih far

    touches : ltb b a ≡ false → b < a + q.size → overlaps_behind a q.size b ≡ true
    touches above x = ground arith

sizes-with_range :
    (a : ℕ) (q : Range) (es : List Entry) → sizes (with_range a q es) ≡ q.size + sizes es
sizes-with_range a q [] = refl
sizes-with_range a q ((b, r) ∷ es) = ground (arith, sizes-with_range a q es)

-- On reservations in order and apart, whose bytes the total counts: a range of at least a byte that
-- fits the address space, and whose size added to theirs fits 64 bits, is put in its place if it
-- overlaps no reservation, and the reservations are again in order and apart and the total counts
-- their bytes; it is refused by an exception if it overlaps one.
pub reserve_lem :
    (a : ℕ) (q : Range) (m : Ranges)
    → 0 < q.size
    → a + q.size < word
    → Disjoint 0 m.ranges
    → m.total_reserved ≡ sizes m.ranges
    → sizes m.ranges + q.size < word
    → (Free a q.size m.ranges
        → (m' : Ranges) × (reserve a q m ≡ some m')
          × (m'.ranges ≡ with_range a q m.ranges)
          × Disjoint 0 m'.ranges
          × (m'.total_reserved ≡ sizes m'.ranges))
      × (Overlaps a q.size m.ranges → reserve a q m ≡ none)
unfolding reserve
reserve_lem a q m h w d t k = (
  λ f.
      let e = insert_range-Free a q none 0 m.ranges tt h w d f (omega arith) in
      (
        record {
          ranges = with_range a q m.ranges;
          total_reserved = (m.total_reserved + q.size) % word;
          number_of_ranges = (m.number_of_ranges + 1) % word;
        },
        rw (size_pos, e),
        refl,
        with_range-Disjoint a q 0 m.ranges h w d f (omega arith),
        omega (arith, sizes-with_range a q m.ranges),
      ),
  λ o. rw (size_pos, insert_range_overlap a q none 0 m.ranges h w d o),
)
  where
    size_pos : (q.size == 0) ≡ false
    size_pos = ground arith

-- Of any two ranges either they overlap or they do not, so one of the two cases applies.
Free-or_Overlaps : (a n : ℕ) (es : List Entry) → Free a n es ⊎ Overlaps a n es
Free-or_Overlaps a n [] = inl tt
Free-or_Overlaps a n ((b, r) ∷ es) = elim (Free-or_Overlaps a n es) [
  | inr o ↦ inr (inr o)
  | inl f ↦ elim (dec_lt b (a + n)) [
    | no far ↦ inl (inl (omega arith), f)
    | yes near ↦ elim (dec_lt a (b + r.size)) [
      | no behind ↦ inl (inr (omega arith), f)
      | yes hit ↦ inr (inl (near, hit))
    ]
  ]
]

-- `Unreserve`, of the address and the size of a reservation just made, takes it back.
remove_range-with_range :
    (a : ℕ) (q : Range) (es : List Entry)
    → 0 < q.size
    → Free a q.size es
    → remove_range a (with_range a q es) ≡ some (q, es)
unfolding remove_range
remove_range-with_range a q [] h f = ground arith
remove_range-with_range a q ((b, r) ∷ es) h f = elim (Bool-cases (ltb b a)) [
  | inl below ↦ ground (arith, remove_range-with_range a q es h f.1)
  | inr above ↦ ground arith
]

-- On reservations in order and apart, with counters in range: a reservation of at least a byte, in
-- the address space and overlapping none, that is made and then taken back, by its address and size,
-- leaves the reservations and the counters as they were.
pub unreserve-reserve_range :
    (a : ℕ) (q : Range) (m : Ranges)
    → 0 < q.size
    → a + q.size < word
    → Disjoint 0 m.ranges
    → Free a q.size m.ranges
    → m.total_reserved < word
    → m.number_of_ranges < word
    → (reserve a q m >>= λ m'. unreserve a q.size m') ≡ some m
unfolding reserve unreserve
unreserve-reserve_range a q m h w d f t n =
    let size_pos : (q.size == 0) ≡ false = ground arith in
    let same : (q.size == q.size) ≡ true = ground arith in
    let total : ((m.total_reserved + q.size) % word + word - q.size) % word ≡ m.total_reserved =
      omega arith in
    let count : ((m.number_of_ranges + 1) % word + word - 1) % word ≡ m.number_of_ranges =
      omega arith in
    simp (
      size_pos,
      insert_range-Free a q none 0 m.ranges tt h w d f (omega arith),
      remove_range-with_range a q m.ranges h f,
      same,
      total,
      count,
    )
