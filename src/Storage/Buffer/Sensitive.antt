-- ===== src/Storage/Buffer/Sensitive.antt =====
-- sim/buffer.hpp: the process that is sensitive to a buffer is active exactly while the buffer holds
-- an item, and the phases before the commit phase change nothing.
use mgsim.Base.{
  ℕ, zero, suc, ◌≡◌, refl, ◌<◌, Bool, false, not, Option, none, some, List, [], ◌∷◌, ◌++◌, ltb,
  arith, length, take, Bool-cases, inl, inr, ltb→lt, >>=-eq-some,
}
use mgsim.Storage.{Context, Phase}
use mgsim.Storage.Wake.{IsAwake, register_update-IsAwake, wake_if, unnotify-IsAwake}
use mgsim.Storage.Buffer.{
  Buffer, is_empty, push, push_room, pop, update, effect_pushes, effect_pop, pop_front,
  finish_update,
}
use mgsim.Storage.Buffer.Valid.{IsValid}

module _ {A : Type 0} where
  abbrev pub IsSensitive : Buffer A → Type 0
  IsSensitive b = IsAwake b.base (not (is_empty b.items))

  is_empty-append :
      (xs ys : List A) (n : ℕ) → 0 < n → 0 < length ys → is_empty (xs ++ take n ys) ≡ false
  unfolding is_empty
  is_empty-append (x ∷ xs) ys n h k = refl
  is_empty-append [] [] n h k = absurd (omega arith)
  is_empty-append [] (y ∷ ys) zero h k = absurd (omega arith)
  is_empty-append [] (y ∷ ys) (suc n) h k = refl

  effect_pushes-IsSensitive :
      (b : Buffer A) → 0 < length b.new → IsSensitive b → IsSensitive (effect_pushes b)
  unfolding effect_pushes
  effect_pushes-IsSensitive b k s = elim (Bool-cases (ltb 0 b.pushes)) [
    | inr none_pushed ↦ rw none_pushed s
    | inl pushed ↦
        rw (pushed, is_empty-append b.items b.new b.pushes (ltb→lt 0 b.pushes pushed) k)
          (wake_if b.base (is_empty b.items) s)
  ]

  pop_front-IsSensitive :
      (b : Buffer A) (xs : List A) (b' : Buffer A)
      → b.items ≡ xs
      → IsSensitive b
      → pop_front b xs ≡ some b'
      → IsSensitive b'
  unfolding pop_front is_empty
  pop_front-IsSensitive b [] b' i s e = ground arith
  pop_front-IsSensitive b (x ∷ []) b' i s e = ground (arith, unnotify-IsAwake b.base)
  pop_front-IsSensitive b (x ∷ y ∷ xs) b' i s e = ground arith

  effect_pop-IsSensitive :
      (b b' : Buffer A) → IsSensitive b → effect_pop b ≡ some b' → IsSensitive b'
  unfolding effect_pop
  effect_pop-IsSensitive b b' s e = ground (arith, pop_front-IsSensitive b b.items b' refl s)

  -- `Update` of a valid buffer, if it fails no assertion, keeps the process active exactly while the
  -- queue is not empty.
  pub update-IsSensitive :
      (cycle : ℕ) (b b' : Buffer A)
      → IsValid b
      → IsSensitive b
      → update cycle b ≡ some b'
      → IsSensitive b'
  unfolding update finish_update
  update-IsSensitive cycle b b' v s e =
      let (b1, e1, e2) = >>=-eq-some (effect_pop (effect_pushes b)) _ e in
      let s1 =
        effect_pop-IsSensitive (effect_pushes b) b1 (effect_pushes-IsSensitive b (omega arith) s)
          e1 in
      ground (arith, s1)

  -- `Push` and `Pop` leave the activations of the process alone.
  pub push-IsSensitive :
      (c : Context) (b : Buffer A) (item : A) (n : ℕ) (ok : Bool) (b' : Buffer A)
      → IsSensitive b
      → push c b item n ≡ some (ok, b')
      → IsSensitive b'
  unfolding push push_room
  push-IsSensitive c b item n ok b' s e =
      ground (arith, register_update-IsAwake b.base (not (is_empty b.items)))

  pub pop-IsSensitive :
      (c : Context) (b b' : Buffer A) → IsSensitive b → pop c b ≡ some b' → IsSensitive b'
  unfolding pop
  pop-IsSensitive c b b' s e =
      ground (arith, register_update-IsAwake b.base (not (is_empty b.items)))

  -- What `Push` answers.
  abbrev pub answer : Option (Bool × Buffer A) → Option Bool
  answer none = none
  answer (some (ok, b)) = some ok

  -- `Push` answers alike, or fails alike, in any two phases of a cycle.
  pub push_phases :
      (p q : Phase) (own : Bool) (b : Buffer A) (item : A) (n : ℕ)
      → answer (push (record { phase = p; own_clock = own }) b item n)
        ≡ answer (push (record { phase = q; own_clock = own }) b item n)
  unfolding push push_room
  push_phases p q own b item n = ground arith
