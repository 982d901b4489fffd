-- ===== src/Memory/Banks/Laws.antt =====
-- Every selector names a bank that there is, and loses nothing of the address.
use native.Mathlib.Nat
use Prim.Native.Nat.{bit_xor}
use mgsim.Base.{
  ℕ, zero, suc, ◌+◌, ◌*◌, ◌/◌, ◌%◌, ◌<◌, ◌≤◌, ◌≡◌, refl, ap, ◌∙◌, false, some, ltb, arith,
  Bool-cases, inl, inr,
}
use mgsim.Storage.{word}
use mgsim.Memory.Banks.{
  Selector, zero_bank, direct, right_xor, right_add, xor_fold, add_fold, add_word, fold_loop, fold,
  map_address, unmap_address,
}

div_falls : (n q a r : ℕ) → 2 ≤ n → 0 < q → n * q + r ≡ a → q < a
div_falls n q a r h p e =
    let twice : 2 * q ≤ n * q = Nat.mul-le-mul_right q h in omega (arith, twice)

-- The address falls in each round that is not the last.
fold_loop-some :
    (op : ℕ → ℕ → ℕ) (fuel n address result : ℕ)
    → 2 ≤ n
    → address < fuel
    → (r : ℕ) × (fold_loop op fuel n address result ≡ some r)
unfolding fold_loop
fold_loop-some op zero n address result h k = absurd (omega arith)
fold_loop-some op (suc fuel) n address result h k = elim (Bool-cases (ltb n (address / n))) [
  | inl more ↦
      let parts = Nat.div-add-mod address n in
      let falls : address / n < address =
        div_falls n (address / n) address (address % n) h (ground arith) parts in
      let (r, e) =
        fold_loop-some op fuel n (address / n) (op result address) h (omega (arith, falls)) in
      (r, rw more e)
  | inr last ↦ (op result address, rw last refl)
]

-- What a mapping has to give.
pub record Mapped (s : Selector) (n address tag index : ℕ) : Type 0 where
  pub mapped : map_address s n address ≡ some (tag, index)
  pub in_range : index < n
  pub unmapped : unmap_address s n tag index ≡ address

fold-eq :
    (op : ℕ → ℕ → ℕ) (n address : ℕ)
    → 2 ≤ n
    → (index : ℕ) × (fold op n address ≡ some (address, index)) × (index < n)
unfolding fold
fold-eq op n address h =
    let (r, e) = fold_loop-some op (address + 1) n address 0 h (omega arith) in
    (r % n, rw e refl, Nat.mod-lt r (omega arith))

-- For two banks or more, every selector maps an address of 64 bits to a tag and the index of a bank
-- that there is, from which `Unmap` gives the address back.
pub map_address-Mapped :
    (s : Selector) (n address : ℕ)
    → 2 ≤ n
    → address < word
    → (tag index : ℕ) × Mapped s n address tag index
unfolding map_address unmap_address
map_address-Mapped zero_bank n a h w =
    (a, 0, record { mapped = refl; in_range = omega arith; unmapped = refl })
map_address-Mapped direct n a h w =
    let parts = Nat.div-add-mod' a n in
    (
      a / n,
      a % n,
      record {
        mapped = refl;
        in_range = Nat.mod-lt a (omega arith);
        unmapped = ap (λ t. t % word) parts ∙ Nat.mod-eq_of_lt w;
      },
    )
map_address-Mapped right_xor n a h w = (
  a,
  bit_xor a (a / n) % n,
  record {
    mapped = refl;
    in_range = Nat.mod-lt (bit_xor a (a / n)) (omega arith);
    unmapped = refl;
  },
)
map_address-Mapped right_add n a h w = (
  a,
  add_word a (a / n) % n,
  record {
    mapped = refl;
    in_range = Nat.mod-lt (add_word a (a / n)) (omega arith);
    unmapped = refl;
  },
)
map_address-Mapped xor_fold n a h w =
    let (i, e, l) = fold-eq bit_xor n a h in
    (a, i, record { mapped = e; in_range = l; unmapped = refl })
map_address-Mapped add_fold n a h w =
    let (i, e, l) = fold-eq add_word n a h in
    (a, i, record { mapped = e; in_range = l; unmapped = refl })

-- For two banks or more, `AddFold` of an address of 64 bits whose quotient by the number of banks is at
-- most that number chooses the bank as `DirectSelector` does: the second digit is left out.
pub add_fold-short :
    (n address : ℕ)
    → 2 ≤ n
    → address < word
    → address / n ≤ n
    → map_address add_fold n address ≡ some (address, address % n)
unfolding map_address fold fold_loop
add_fold-short n a h w k =
    let fuel : a + 1 ≡ suc a = omega arith in
    let last : ltb n (a / n) ≡ false = ground arith in
    let plain : 0 + a ≡ a = omega arith in
    let sum : (0 + a) % word ≡ a = rw plain (Nat.mod-eq_of_lt w) in rw (fuel, last, sum) refl
