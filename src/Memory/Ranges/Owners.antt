-- ===== src/Memory/Ranges/Owners.antt =====
-- `UnreserveAll` against the reservations.
use native.Mathlib.Nat
use mgsim.Base.{
  ℕ, ◌+◌, ◌-◌, ◌%◌, ◌<◌, ◌≤◌, ◌≡◌, sym, ap, ◌∙◌, List, [], ◌∷◌, arith, ◌==◌, if◌then◌else◌, length,
  Bool-cases, inl, inr,
}
use mgsim.Storage.{word}
use mgsim.Memory.Ranges.{Entry, Ranges, remove_owned, unreserve_all}
use mgsim.Memory.Ranges.Disjoint.{Disjoint, sizes}

-- The reservations of the other processes.
pub others : ℕ → List Entry → List Entry
others pid [] = []
others pid ((b, r) ∷ es) = if r.owner == pid then others pid es else (b, r) ∷ others pid es

-- Subtraction of what is there, in the range of `size_t`.
word-sub : (t s : ℕ) → s ≤ t → t < word → (t + word - s) % word ≡ t - s
word-sub t s h k =
    let split : t + word - s ≡ t - s + word = omega (arith, h) in
    ap (λ n. n % word) split
    ∙ (Nat.add-mod_right (t - s) word ∙ Nat.mod-eq_of_lt (omega (arith, k)))

remove_owned_lem :
    (pid base more total count total' count' : ℕ) (es : List Entry)
    → total < word
    → count < word
    → total ≡ base + sizes es
    → count ≡ more + length es
    → total' ≡ base + sizes (others pid es)
    → count' ≡ more + length (others pid es)
    → remove_owned pid es total count ≡ (others pid es, total', count')
unfolding remove_owned others
remove_owned_lem pid base more total count total' count' [] u v h k l m =
    λ i. ([], (h ∙ sym l) i, (k ∙ sym m) i)
remove_owned_lem pid base more total count total' count' ((b, r) ∷ es) u v h k l m =
    elim (Bool-cases (r.owner == pid)) [
      | inl e ↦
          let less = word-sub total r.size (omega (arith, h)) u in
          let fewer = word-sub count 1 (omega (arith, k)) v in
          rw (e, remove_owned)
            (remove_owned_lem pid base more ((total + word - r.size) % word)
              ((count + word - 1) % word) total' count' es (omega (arith, less, u))
              (omega (arith, fewer, v)) (omega (arith, less, h)) (omega (arith, fewer, k))
              (rw e at l) (rw e at m))
      | inr e ↦
          let l' : total' ≡ base + (r.size + sizes (others pid es)) = rw e at l in
          let m1 : count' ≡ more + length ((b, r) ∷ others pid es) = rw e at m in
          let m' : count' ≡ more + (length (others pid es) + 1) = omega (arith, m1) in
          rw (e, remove_owned)
            (ap (λ (x : List Entry × ℕ × ℕ). ((b, r) ∷ x.0, x.1, x.2))
              (remove_owned_lem pid (base + r.size) (more + 1) total count total' count' es u v
                (omega (arith, h)) (omega (arith, k)) (omega (arith, l')) (omega (arith, m'))))
    ]

others-Disjoint :
    (pid lo lo' : ℕ) (es : List Entry) → lo' ≤ lo → Disjoint lo es → Disjoint lo' (others pid es)
unfolding others
others-Disjoint pid lo lo' [] h d = tt
others-Disjoint pid lo lo' ((b, r) ∷ es) h d = elim (Bool-cases (r.owner == pid)) [
  | inl e ↦ rw e (others-Disjoint pid (b + r.size) lo' es (omega (arith, h, d.0)) d.3)
  | inr e ↦ rw e (
    omega (arith, h, d.0),
    d.1,
    d.2,
    others-Disjoint pid (b + r.size) (b + r.size) es (omega arith) d.3,
  )
]

-- `UnreserveAll` of a process, on reservations in order and apart whose sizes and number, in the range
-- of 64 bits, the counters tell: the reservations of the other processes are left, in order and apart,
-- and the counters tell their sizes and number.
pub unreserve_all_lem :
    (pid : ℕ) (m : Ranges)
    → Disjoint 0 m.ranges
    → m.total_reserved ≡ sizes m.ranges
    → m.number_of_ranges ≡ length m.ranges
    → sizes m.ranges < word
    → length m.ranges < word
    → (unreserve_all pid m ≡ record {
      ranges = others pid m.ranges;
      total_reserved = sizes (others pid m.ranges);
      number_of_ranges = length (others pid m.ranges);
    })
      × Disjoint 0 (others pid m.ranges)
unfolding unreserve_all
unreserve_all_lem pid m d t n small few = (
  ap
      (λ (x : List Entry × ℕ × ℕ).
        let left : Ranges = record { ranges = x.0; total_reserved = x.1; number_of_ranges = x.2 } in
        left)
      (remove_owned_lem pid 0 0 m.total_reserved m.number_of_ranges (sizes (others pid m.ranges))
        (length (others pid m.ranges)) m.ranges (omega (arith, t, small)) (omega (arith, n, few))
        (omega (arith, t)) (omega (arith, n)) (omega arith) (omega arith)),
  others-Disjoint pid 0 0 m.ranges (omega arith) d,
)
