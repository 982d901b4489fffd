-- ===== src/Memory/Blocks/Within.antt =====
-- Accesses that stay within one block, and reads that do not.
use mgsim.Base.{
  ℕ, zero, suc, ◌+◌, ◌-◌, ◌%◌, min, ◌<◌, ◌≤◌, ◌≡◌, refl, sym, ap, ◌∙◌, inl, inr, true, false, List,
  [], ◌∷◌, append-nil, ltb, leb, ◌==◌, if◌then◌else◌, length, take, drop, replicate, arith,
  Bool-cases,
}
use mgsim.Storage.{word}
use mgsim.Memory.Blocks.{
  Block, block_size, bytes, outside, base_of, lower_bound, read_loop, read, zeroes,
}

read_loop-nil :
    (fuel : ℕ) (bs : List Block) (base offset n : ℕ)
    → n ≡ 0
    → read_loop (suc fuel) bs base offset n ≡ bytes []
unfolding read_loop
read_loop-nil fuel bs base offset zero e = refl
read_loop-nil fuel bs base offset (suc n) e = absurd (omega arith)

-- What a read within one block finds there.
abbrev pub block_at : ℕ → List Block → List ℕ
block_at base [] = zeroes
block_at base ((b, d) ∷ bs) =
    if b == base then d else if ltb b base then block_at base bs else zeroes

abbrev pub AllFull : List Block → Type 0
AllFull [] = Unit {0}
AllFull ((b, d) ∷ bs) = (length d ≡ block_size) × AllFull bs

take-drop-replicate :
    (n k m : ℕ) (a : ℕ) → k + n ≤ m → take n (drop k (replicate m a)) ≡ replicate n a
take-drop-replicate zero k m a h = refl
take-drop-replicate (suc n) zero zero a h = absurd (omega arith)
take-drop-replicate (suc n) zero (suc m) a h =
    ap (λ t. a ∷ t) (take-drop-replicate n zero m a (omega arith))
take-drop-replicate (suc n) (suc k) zero a h = absurd (omega arith)
take-drop-replicate (suc n) (suc k) (suc m) a h = take-drop-replicate (suc n) k m a (omega arith)

-- A round of the loop at a missing block, with which the read ends.
round_missing :
    (fuel base offset n b : ℕ) (d : List ℕ) (bs : List Block)
    → ltb base b ≡ true
    → suc n ≤ block_size
    → read_loop (suc (suc fuel)) ((b, d) ∷ bs) base offset (suc n) ≡ bytes (replicate (suc n) 0)
round_missing fuel base offset n b d bs h k =
    let count : min (suc n) block_size ≡ suc n = omega arith in
    let done =
      read_loop-nil fuel ((b, d) ∷ bs) ((base + block_size) % word) 0 (suc n - suc n)
        (omega arith) in
    unfold read_loop in simp (h, count, done, append-nil)

-- A round at a block that is there.
round_present :
    (fuel base offset n b : ℕ) (d : List ℕ) (bs : List Block)
    → ltb base b ≡ false
    → offset + suc n ≤ block_size
    → length d ≡ block_size
    → read_loop (suc (suc fuel)) ((b, d) ∷ bs) base offset (suc n)
      ≡ bytes (take (suc n) (drop offset d))
round_present fuel base offset n b d bs h k f =
    let count : min (suc n) block_size ≡ suc n = omega arith in
    let fits : leb (offset + suc n) (length d) ≡ true = ground arith in
    let done = read_loop-nil fuel bs ((base + block_size) % word) 0 (suc n - suc n) (omega arith) in
    unfold read_loop in simp (h, count, fits, done, append-nil)

-- The loop at the position of the base.
read_loop-within :
    (fuel base offset n : ℕ) (bs : List Block)
    → offset + suc n ≤ block_size
    → AllFull bs
    → read_loop (suc (suc fuel)) (lower_bound base bs) base offset (suc n)
      ≡ bytes (take (suc n) (drop offset (block_at base bs)))
unfolding lower_bound
read_loop-within fuel base offset n [] h f =
    unfold read_loop in ap bytes (sym (take-drop-replicate (suc n) offset block_size 0 h))
read_loop-within fuel base offset n ((b, d) ∷ bs) h f = elim (Bool-cases (ltb b base)) [
  | inl before ↦
      let other : (b == base) ≡ false = ground arith in
      rw (before, other) (read_loop-within fuel base offset n bs h f.1)
  | inr from ↦ elim (Bool-cases (b == base)) [
    | inl here ↦
        let past : ltb base b ≡ false = ground arith in
        rw (from, here) (round_present fuel base offset n b d bs past h f.0)
    | inr other ↦
        let past : ltb base b ≡ true = ground arith in
        rw (from, other)
          (round_missing fuel base offset n b d bs past (omega arith)
            ∙ ap bytes (sym (take-drop-replicate (suc n) offset block_size 0 h)))
  ]
]

-- If all blocks have their full size, a read that stays within one block returns the bytes of that
-- block, or zeros if the block has never been written.
pub read_within :
    (address n : ℕ) (bs : List Block)
    → AllFull bs
    → address % block_size + n ≤ block_size
    → read address n bs
      ≡ bytes (take n (drop (address % block_size) (block_at (base_of address) bs)))
unfolding read
read_within address zero bs f h = unfold read_loop in refl
read_within address (suc n) bs f h =
    let fuel : suc n + 1 ≡ suc (suc n) = omega arith in
    rw fuel (read_loop-within n (base_of address) (address % block_size) n bs h f)

-- A read that begins in a block that exists, of full size, and whose offset in the block together
-- with its size, or the size of a block if that is less, passes the end of the block, reads outside
-- the array of that block.
pub read_across :
    (address size : ℕ) (d : List ℕ) (bs rest : List Block)
    → lower_bound (base_of address) bs ≡ (base_of address, d) ∷ rest
    → length d ≡ block_size
    → block_size < address % block_size + min size block_size
    → read address size bs ≡ outside
unfolding read read_loop
read_across address zero d bs rest e f h = absurd (omega arith)
read_across address (suc n) d bs rest e f h =
    let fuel : suc n + 1 ≡ suc (suc n) = omega arith in
    let beyond : leb (address % block_size + min (suc n) block_size) (length d) ≡ false =
      ground arith in
    let here : ltb (base_of address) (base_of address) ≡ false = ground arith in
    simp (fuel, e, here, beyond)
