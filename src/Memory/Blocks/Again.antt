-- ===== src/Memory/Blocks/Again.antt =====
-- A write that is made a second time changes nothing.
use mgsim.Base.{
  ℕ, zero, suc, ◌+◌, ◌-◌, ◌%◌, ◌<◌, ◌≤◌, ◌≡◌, refl, ap, subst, ◌∙◌, min, Bool, true, false, Option,
  none, some, List, [], ◌∷◌, arith, ltb, ◌==◌, if◌then◌else◌, length, set, take, drop, Bool-cases,
  inl, inr, some-eq,
}
use mgsim.Storage.{word}
use mgsim.Memory.Blocks.{
  Block, block_size, base_of, zeroes, write_bytes, write_block, has_block, write_loop, write,
}

set-set_same : (d : List ℕ) (i x : ℕ) → set (set d i x) i x ≡ set d i x
set-set_same [] i x = refl
set-set_same (y ∷ d) zero x = refl
set-set_same (y ∷ d) (suc i) x = ap (λ l. y ∷ l) (set-set_same d i x)

set-set_other : (d : List ℕ) (i j x y : ℕ) → i < j → set (set d j y) i x ≡ set (set d i x) j y
set-set_other [] i j x y h = refl
set-set_other (z ∷ d) i zero x y h = absurd (omega (arith, h))
set-set_other (z ∷ d) zero (suc j) x y h = refl
set-set_other (z ∷ d) (suc i) (suc j) x y h =
    ap (λ l. z ∷ l) (set-set_other d i j x y (omega (arith, h)))

-- A byte in front of those written.
set-write_bytes :
    (d xs : List ℕ) (mask : Option (List Bool)) (i offset x : ℕ)
    → i < offset
    → set (write_bytes d offset xs mask) i x ≡ write_bytes (set d i x) offset xs mask
unfolding write_bytes
set-write_bytes d [] mask i offset x h = refl
set-write_bytes d (y ∷ ys) none i offset x h =
    set-write_bytes (set d offset y) ys none i (offset + 1) x (omega (arith, h))
    ∙ ap (λ l. write_bytes l (offset + 1) ys none) (set-set_other d i offset x y h)
set-write_bytes d (y ∷ ys) (some []) i offset x h = refl
set-write_bytes d (y ∷ ys) (some (false ∷ ms)) i offset x h =
    set-write_bytes d ys (some ms) i (offset + 1) x (omega (arith, h))
set-write_bytes d (y ∷ ys) (some (true ∷ ms)) i offset x h =
    set-write_bytes (set d offset y) ys (some ms) i (offset + 1) x (omega (arith, h))
    ∙ ap (λ l. write_bytes l (offset + 1) ys (some ms)) (set-set_other d i offset x y h)

write_bytes_again :
    (d xs : List ℕ) (mask : Option (List Bool)) (offset : ℕ)
    → write_bytes (write_bytes d offset xs mask) offset xs mask ≡ write_bytes d offset xs mask
unfolding write_bytes
write_bytes_again d [] mask offset = refl
write_bytes_again d (y ∷ ys) none offset =
    let e = set d offset y in
    ap (λ l. write_bytes l (offset + 1) ys none)
      (set-write_bytes e ys none offset (offset + 1) y (omega arith)
        ∙ ap (λ l. write_bytes l (offset + 1) ys none) (set-set_same d offset y))
    ∙ write_bytes_again e ys none (offset + 1)
write_bytes_again d (y ∷ ys) (some []) offset = refl
write_bytes_again d (y ∷ ys) (some (false ∷ ms)) offset =
    write_bytes_again d ys (some ms) (offset + 1)
write_bytes_again d (y ∷ ys) (some (true ∷ ms)) offset =
    let e = set d offset y in
    ap (λ l. write_bytes l (offset + 1) ys (some ms))
      (set-write_bytes e ys (some ms) offset (offset + 1) y (omega arith)
        ∙ ap (λ l. write_bytes l (offset + 1) ys (some ms)) (set-set_same d offset y))
    ∙ write_bytes_again e ys (some ms) (offset + 1)

not_below : (b : ℕ) → ltb b b ≡ false
not_below b = ground arith

itself : (b : ℕ) → (b == b) ≡ true
itself b = ground arith

write_block_again :
    (base offset : ℕ) (xs : List ℕ) (mask : Option (List Bool)) (bs : List Block)
    → write_block base offset xs mask (write_block base offset xs mask bs)
      ≡ write_block base offset xs mask bs
unfolding write_block
write_block_again base offset xs mask [] =
    rw (not_below base, itself base)
      (ap (λ d. (base, d) ∷ []) (write_bytes_again zeroes xs mask offset))
write_block_again base offset xs mask ((b, d) ∷ bs) = elim (Bool-cases (ltb b base)) [
  | inl e ↦ rw (e, e) (ap (λ l. (b, d) ∷ l) (write_block_again base offset xs mask bs))
  | inr e ↦ elim (Bool-cases (b == base)) [
    | inl f ↦ rw (e, f, e, f) (ap (λ d. (b, d) ∷ bs) (write_bytes_again d xs mask offset))
    | inr f ↦
        rw (e, f, not_below base, itself base)
          (ap (λ e. (base, e) ∷ (b, d) ∷ bs) (write_bytes_again zeroes xs mask offset))
  ]
]

-- The block is there behind the write.
has_block-write_block :
    (base offset : ℕ) (xs : List ℕ) (mask : Option (List Bool)) (bs : List Block)
    → has_block base (write_block base offset xs mask bs) ≡ true
unfolding write_block has_block
has_block-write_block base offset xs mask [] = rw (itself base) refl
has_block-write_block base offset xs mask ((b, d) ∷ bs) = elim (Bool-cases (ltb b base)) [
  | inl e ↦
      let f : (b == base) ≡ false = ground arith in
      rw (e, f) (has_block-write_block base offset xs mask bs)
  | inr e ↦ elim (Bool-cases (b == base)) [
    | inl f ↦ rw (e, f, f) refl
    | inr f ↦ rw (e, f, itself base) refl
  ]
]

take_all : (n : ℕ) (xs : List ℕ) → length xs ≡ n → take n xs ≡ xs
take_all zero [] h = refl
take_all (suc n) [] h = refl
take_all zero (x ∷ xs) h = absurd (omega (arith, h))
take_all (suc n) (x ∷ xs) h = ap (λ l. x ∷ l) (take_all n xs (omega (arith, h)))

drop_all : (n : ℕ) (xs : List ℕ) → length xs ≡ n → drop n xs ≡ []
drop_all zero [] h = refl
drop_all (suc n) [] h = refl
drop_all zero (x ∷ xs) h = absurd (omega (arith, h))
drop_all (suc n) (x ∷ xs) h = drop_all n xs (omega (arith, h))

-- The bytes allocated with a write to one block.
allocated_with : ℕ → List Block → ℕ → ℕ
allocated_with base bs allocated =
    if has_block base bs then allocated else (allocated + block_size) % word

write_loop_once :
    (fuel base offset x : ℕ) (xs : List ℕ) (mask : Option (List Bool)) (bs : List Block)
    (allocated n : ℕ)
    → fuel ≡ suc (suc n)
    → offset + length (x ∷ xs) ≤ block_size
    → write_loop fuel base offset (x ∷ xs) mask bs allocated
      ≡ some (write_block base offset (x ∷ xs) mask bs, allocated_with base bs allocated)
unfolding write_loop allocated_with
write_loop_once zero base offset x xs mask bs allocated n e h = absurd (omega (arith, e))
write_loop_once (suc zero) base offset x xs mask bs allocated n e h = absurd (omega (arith, e))
write_loop_once (suc (suc f)) base offset x xs mask bs allocated n e h =
    let count : length (x ∷ xs) ≡ min (length (x ∷ xs)) (block_size - offset) = omega (arith, h) in
    rw (drop_all _ (x ∷ xs) count, write_loop, take_all _ (x ∷ xs) count, write_loop) refl

write_within :
    (address x : ℕ) (xs : List ℕ) (mask : Option (List Bool)) (bs : List Block) (allocated : ℕ)
    → address % block_size + length (x ∷ xs) ≤ block_size
    → write address (x ∷ xs) mask bs allocated
      ≡ some (
        write_block (base_of address) (address % block_size) (x ∷ xs) mask bs,
        allocated_with (base_of address) bs allocated,
      )
unfolding write
write_within address x xs mask bs allocated h =
    write_loop_once (length (x ∷ xs) + 1) (base_of address) (address % block_size) x xs mask bs
      allocated (length xs) (omega arith) h

write_none :
    (address : ℕ) (mask : Option (List Bool)) (bs : List Block) (n : ℕ)
    → write address [] mask bs n ≡ some (bs, n)
unfolding write write_loop
write_none address mask bs n = refl

allocated_again :
    (base offset : ℕ) (xs : List ℕ) (mask : Option (List Bool)) (bs : List Block) (n : ℕ)
    → allocated_with base (write_block base offset xs mask bs) n ≡ n
unfolding allocated_with
allocated_again base offset xs mask bs n = rw (has_block-write_block base offset xs mask bs) refl

-- A write that stays within one block, made again behind itself, leaves contents and total as they
-- are.
pub write_again :
    (address : ℕ) (xs : List ℕ) (mask : Option (List Bool)) (bs bs' : List Block)
    (allocated allocated' : ℕ)
    → address % block_size + length xs ≤ block_size
    → write address xs mask bs allocated ≡ some (bs', allocated')
    → write address xs mask bs' allocated' ≡ some (bs', allocated')
write_again address [] mask bs bs' allocated allocated' h e = write_none address mask bs' allocated'
write_again address (x ∷ xs) mask bs bs' allocated allocated' h e =
    let base = base_of address in
    let offset = address % block_size in
    let once = write_within address x xs mask bs allocated h in
    let out = some-eq once e in
    let n = allocated_with base bs allocated in
    subst (λ (p : List Block × ℕ). write address (x ∷ xs) mask p.0 p.1 ≡ some p) out
      (write_within address x xs mask (write_block base offset (x ∷ xs) mask bs) n h ∙ (λ i. some (
        write_block_again base offset (x ∷ xs) mask bs i,
        allocated_again base offset (x ∷ xs) mask bs n i,
      )))
