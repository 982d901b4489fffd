-- ===== src/Memory/Ranges/Lookup.antt =====
-- `CheckPermissions` against the reservations.
use Prim.Native.Nat.{bit_and}
use native.Mathlib.Nat
use mgsim.Base.{
  ℕ, ◌+◌, ◌-◌, ◌<◌, ◌≤◌, ◌≡◌, refl, sym, ◌∙◌, ◌⊎◌, inl, inr, ◌↔◌, Bool, true, false, ◌&&◌, Option,
  none, some, List, [], ◌∷◌, arith, ltb, ◌==◌, Bool-cases,
}
use mgsim.Storage.{word}
use mgsim.Memory.Ranges.{
  Range, Entry, Ranges, candidate, contains, covering, permitted, reservation_range,
  check_permissions,
}
use mgsim.Memory.Ranges.Disjoint.{Disjoint}

-- A reservation holds the bytes from `a` on, `n` of them, and grants the access.
abbrev pub Grants : ℕ → ℕ → ℕ → Entry → Type 0
Grants a n access (b, r) = (b ≤ a) × (a + n ≤ b + r.size) × (bit_and r.permissions access ≡ access)

abbrev pub Granted : ℕ → ℕ → ℕ → List Entry → Type 0
Granted a n access [] = ⊥
Granted a n access (e ∷ es) = Grants a n access e ⊎ Granted a n access es

-- What the lookup answers for the reservation that it has come to.
answer : ℕ → ℕ → ℕ → Option Entry → Bool
answer a n access none = false
answer a n access (some (b, r)) = contains a n (b, r) && (bit_and r.permissions access == access)

abbrev GrantsLast : ℕ → ℕ → ℕ → Option Entry → Type 0
GrantsLast a n access none = ⊥
GrantsLast a n access (some e) = Grants a n access e

contains_iff :
    (a n b : ℕ) (r : Range)
    → 0 < n
    → b + r.size < word
    → (contains a n (b, r) ≡ true) ↔ ((b ≤ a) × (a + n ≤ b + r.size))
unfolding contains
contains_iff a n b r p w =
    let small : b + (r.size - n) < word = omega (arith, w) in
    let same = Nat.mod-eq_of_lt small in
    (λ h. ground (arith, h, same), λ h. ground (arith, h.0, h.1, same))

answer_iff :
    (a n access b : ℕ) (r : Range)
    → 0 < n
    → b + r.size < word
    → (answer a n access (some (b, r)) ≡ true) ↔ Grants a n access (b, r)
unfolding answer
answer_iff a n access b r p w =
    let (there, back) = contains_iff a n b r p w in
    (
      λ h.
          let held : contains a n (b, r) ≡ true = ground (arith, h) in
          let (from, to) = there held in (from, to, ground (arith, h)),
      λ (from, to, granted). let held = back (from, to) in rw held (ground (arith, granted)),
    )

-- A reservation that grants an access begins behind those before it.
Granted-start :
    (a n access lo : ℕ) (es : List Entry) → Disjoint lo es → Granted a n access es → lo ≤ a
Granted-start a n access lo [] d g = absurd g
Granted-start a n access lo ((b, r) ∷ es) d (inl g) = omega (arith, d.0, g.0)
Granted-start a n access lo ((b, r) ∷ es) d (inr g) =
    omega (arith, d.0, Granted-start a n access (b + r.size) es d.3 g)

-- The reservation passed last begins below the address, and ends where the others begin or before.
abbrev IsPassed : ℕ → ℕ → Option Entry → Type 0
IsPassed a lo none = Unit {0}
IsPassed a lo (some (b, r)) = (b < a) × (b + r.size ≤ lo) × (b + r.size < word)

last_iff :
    (a n access lo : ℕ) (prev : Option Entry)
    → 0 < n
    → IsPassed a lo prev
    → (answer a n access prev ≡ true) ↔ GrantsLast a n access prev
unfolding answer
last_iff a n access lo none p q = (λ h. cc, λ h. absurd h)
last_iff a n access lo (some (b, r)) p q = answer_iff a n access b r p q.2

last-end :
    (a n access lo : ℕ) (prev : Option Entry)
    → IsPassed a lo prev
    → GrantsLast a n access prev
    → a + n ≤ lo
last-end a n access lo none q g = absurd g
last-end a n access lo (some (b, r)) q g = omega (arith, g.1, q.1)

candidate_iff :
    (a n access lo : ℕ) (prev : Option Entry) (es : List Entry)
    → 0 < n
    → IsPassed a lo prev
    → Disjoint lo es
    → (answer a n access (candidate a prev es) ≡ true)
      ↔ (GrantsLast a n access prev ⊎ Granted a n access es)
unfolding candidate
candidate_iff a n access lo prev [] p q d =
    let (there, back) = last_iff a n access lo prev p q in
    (λ h. inl (there h), λ h. elim h [ inl g ↦ back g | inr g ↦ absurd g ])
candidate_iff a n access lo prev ((b, r) ∷ es) p q d = elim (Bool-cases (ltb b a)) [
  | inl below ↦
      let passed : IsPassed a (b + r.size) (some (b, r)) = passed_one (ground arith) d.2 in
      let (there, back) = candidate_iff a n access (b + r.size) (some (b, r)) es p passed d.3 in
      rw below (
        λ h. elim (there h) [ inl g ↦ inr (inl (here g)) | inr g ↦ inr (inr g) ],
        λ h. elim h [
          | inl g ↦ absurd (let e = last-end a n access lo prev q g in ground arith)
          | inr (inl g) ↦ back (inl (unhere g))
          | inr (inr g) ↦ back (inr g)
        ],
      )
  | inr above ↦ elim (Bool-cases (ltb a b)) [
    | inl far ↦ behind far above prev q
    | inr exact ↦
        let (there, back) = answer_iff a n access b r p d.2 in
        rw (above, exact)
          (
            λ h. inr (inl (there h)),
            λ h. elim h [
              | inl g ↦ absurd (let e = last-end a n access lo prev q g in ground arith)
              | inr (inl g) ↦ back g
              | inr (inr g) ↦
                  absurd (let e = Granted-start a n access (b + r.size) es d.3 g in ground arith)
            ],
          )
  ]
]
  where
    passed_one : b < a → b + r.size < word → IsPassed a (b + r.size) (some (b, r))
    passed_one h w = (h, omega arith, w)

    here : GrantsLast a n access (some (b, r)) → Grants a n access (b, r)
    here g = g

    unhere : Grants a n access (b, r) → GrantsLast a n access (some (b, r))
    unhere g = g

    no_later : ltb a b ≡ true → Granted a n access ((b, r) ∷ es) → ⊥
    no_later far (inl g) = ground (arith, far, g.0)
    no_later far (inr g) =
        let e = Granted-start a n access (b + r.size) es d.3 g in ground (arith, far, e)

    -- The address lies below the first reservation that is left.
    behind :
        ltb a b ≡ true
        → ltb b a ≡ false
        → (prev : Option Entry) → IsPassed a lo prev
        → (answer a n access (candidate a prev ((b, r) ∷ es)) ≡ true)
          ↔ (GrantsLast a n access prev ⊎ Granted a n access ((b, r) ∷ es))
    behind far above none q =
        let (there, back) = answer_iff a n access b r p d.2 in
        rw (above, far)
          (
            λ h. inr (inl (there h)),
            λ h. elim h [ inl g ↦ absurd g | inr g ↦ absurd (no_later far g) ],
          )
    behind far above (some (c, s)) q =
        let (there, back) = answer_iff a n access c s p q.2 in
        rw (above, far)
          (λ h. inl (there h), λ h. elim h [ inl g ↦ back g | inr g ↦ absurd (no_later far g) ])

lookup_answer :
    (a n access : ℕ) (e : Option Entry) → answer a n access e ≡ permitted access (covering a n e)
unfolding answer permitted covering
lookup_answer a n access none = refl
lookup_answer a n access (some (b, r)) = ground arith

-- `CheckPermissions` of at least a byte, on reservations in order and apart, is true exactly if one
-- reservation holds all the bytes and grants all of the access.
pub check_permissions_lem :
    (a n access : ℕ) (m : Ranges)
    → 0 < n
    → Disjoint 0 m.ranges
    → (check_permissions a n access m ≡ true) ↔ Granted a n access m.ranges
unfolding check_permissions reservation_range
check_permissions_lem a n access m p d =
    let (there, back) = candidate_iff a n access 0 none m.ranges p tt d in
    (
      λ h. elim (there (lookup_answer a n access (candidate a none m.ranges) ∙ h)) [
        | inl g ↦ absurd g
        | inr g ↦ g
      ],
      λ g. sym (lookup_answer a n access (candidate a none m.ranges)) ∙ back (inr g),
    )
