-- ===== src/Storage/Buffer/Idle.antt =====
-- sim/buffer.hpp: a consumer that looks at the front of a buffer and takes it, between cycles in which
-- nothing else is noted.
use mgsim.Base.{
  ℕ, ◌≡◌, refl, sym, true, false, some, List, ◌∷◌, ltb, arith, ◌>>◌, if◌then◌else◌, not, assert,
  assert-some, some-eq,
}
use mgsim.Storage.{Context, is_committing, committing, register_update, unnotify}
use mgsim.Storage.Buffer.{
  Buffer, front, pop, update, effect_pushes, effect_pop, pop_front, finish_update, is_empty,
}
use mgsim.Storage.Buffer.Fifo.{IsIdle}

module _ {A : Type 0} where
  -- A buffer that holds the items `xs`, with nothing noted.
  pub record Holds (xs : List A) (b : Buffer A) : Type 0 where
    pub items : b.items ≡ xs
    pub idle : IsIdle b

  pub front-Holds : (x : A) (xs : List A) (b : Buffer A) → Holds (x ∷ xs) b → front b ≡ some x
  unfolding front
  front-Holds x xs b h = rw (h.items, front) refl

  pub update-Holds :
      (n : ℕ) (xs : List A) (b : Buffer A)
      → Holds xs b
      → (b' : Buffer A) × (update n b ≡ some b') × Holds xs b'
  unfolding update effect_pushes effect_pop finish_update
  update-Holds n xs b h =
      let none_new : ltb 0 b.pushes ≡ false = ground (arith, h.idle.no_pushes) in
      (
        finish_update n b,
        rw (none_new, h.idle.no_pop) refl,
        record { items = h.items; idle = record { no_pushes = refl; no_pop = refl } },
      )

  pub pop-Holds :
      (n : ℕ) (x : A) (xs : List A) (b : Buffer A)
      → Holds (x ∷ xs) b
      → (b1 : Buffer A) × (b' : Buffer A) × (pop (committing true) b ≡ some b1)
        × (update n b1 ≡ some b')
        × Holds xs b'
  unfolding pop update effect_pushes effect_pop pop_front finish_update
  pop-Holds n x xs b h =
      let none_new : ltb 0 b.pushes ≡ false = ground (arith, h.idle.no_pushes) in
      let b1 : Buffer A = record b { popped = true; base = register_update b.base } in
      let b2 : Buffer A = record b1 {
        items = xs;
        base = if is_empty xs then unnotify b1.base else b1.base;
      } in
      (
        b1,
        finish_update n b2,
        rw (h.idle.no_pop) refl,
        rw (none_new, h.items) refl,
        record { items = refl; idle = record { no_pushes = refl; no_pop = refl } },
      )

  -- Before the commit phase nothing is noted.
  pub pop-Context :
      (c : Context) (b b' : Buffer A) → is_committing c.phase ≡ false → pop c b ≡ some b' → b' ≡ b
  unfolding pop
  pop-Context c b b' h e =
      let noted : Buffer A = record b { popped = true; base = register_update b.base } in
      let answer = some (if is_committing c.phase then noted else b) in
      let e1 = assert-some c.own_clock (assert (not b.popped) >> answer) e in
      let e2 = assert-some (not b.popped) answer e1 in sym (some-eq refl (rw h at e2))
