-- ===== src/Storage/Buffer/Valid.antt =====
-- The invariant of sim/buffer.hpp, and what `Push`, `Pop` and `Update` do on each branch.
use mgsim.Base.{
  ℕ, ◌+◌, ◌≡◌, ◌≤◌, ◌<◌, ◌⊎◌, Bool, true, false, some, List, [], ◌∷◌, ◌++◌, if◌then◌else◌, arith,
  length, take, length-set, length-append, length-take, take-set_end,
}
use mgsim.Storage.{Context, committing, word}
use mgsim.Storage.Buffer.{
  Buffer, infinite, max_slots, push, push_room, update, effect_pushes, effect_pop, finish_update,
}

-- The items that this cycle's pushes have left behind.
abbrev pub staged {ℓ} : {A : Type ℓ} → Buffer A → List A
staged b = take b.pushes b.new

pub record IsValid {ℓ} {A : Type ℓ} (b : Buffer A) : Type 0 where
  pub slots : length b.new ≡ max_slots
  pub some_pushes : 1 ≤ b.max_pushes
  pub few_pushes : b.max_pushes ≤ max_slots
  pub pushes_in : b.pushes ≤ b.max_pushes
  pub sized : b.max_size ≤ infinite
  pub fits : (b.max_size ≡ infinite) ⊎ (length b.items + b.pushes ≤ b.max_size)

module _ {A : Type 0} where
  -- What a push that answers `ok` has done.
  pub record Pushed (b : Buffer A) (item : A) (ok : Bool) (b' : Buffer A) : Type 0 where
    pub queue : b'.items ≡ b.items
    pub staging : staged b' ≡ (if ok then staged b ++ item ∷ [] else staged b)
    pub count : b'.pushes ≡ (if ok then b.pushes + 1 else b.pushes)
    pub pop_kept : b'.popped ≡ b.popped

  pub push_room-Pushed :
      (own : Bool) (b : Buffer A) (item : A) (n : ℕ)
      → IsValid b
      → b.pushes < b.max_pushes
      → Pushed b item
          (push_room (committing own) b item n).0
          (push_room (committing own) b item n).1
  unfolding push_room
  push_room-Pushed own b item n v lt = ground (arith, take-set_end b.new b.pushes item)

  pub push_room-IsValid :
      (c : Context) (b : Buffer A) (item : A) (n : ℕ)
      → IsValid b
      → b.pushes < b.max_pushes
      → 1 ≤ n
      → length b.items + b.pushes + n < word
      → IsValid (push_room c b item n).1
  unfolding push_room
  push_room-IsValid c b item n v lt h k = ground (arith, length-set b.new b.pushes item)

  -- The ways in which `Push` returns.
  push_cases :
      (c : Context) (b : Buffer A) (item : A) (n : ℕ) (ok : Bool) (b' : Buffer A)
      → b.pushes ≤ b.max_pushes
      → push c b item n ≡ some (ok, b')
      → ((ok ≡ false) × (b' ≡ b) × (1 ≤ n))
        ⊎ ((b.pushes < b.max_pushes) × (push_room c b item n ≡ (ok, b')) × (1 ≤ n))
  unfolding push
  push_cases c b item n ok b' h e = ground arith

  -- With its assertions met, `Push` comes to the question of room.
  pub push-eq-push_room :
      (c : Context) (b : Buffer A) (item : A) (n : ℕ)
      → 1 ≤ n
      → c.own_clock ≡ true
      → b.pushes < b.max_pushes
      → push c b item n ≡ some (push_room c b item n)
  unfolding push
  push-eq-push_room c b item n h o lt = ground arith

  pub push_room-limit :
      (c : Context) (b : Buffer A) (item : A) (n : ℕ)
      → ((push_room c b item n).1.max_pushes ≡ b.max_pushes)
        × ((push_room c b item n).1.max_size ≡ b.max_size)
  unfolding push_room
  push_room-limit c b item n = ground arith

  -- `Push` in the commit phase. When it answers `true` the item is behind those pushed before it in
  -- this cycle; when it answers `false` none is added; the queue stays as it is until `Update`.
  pub push-Pushed :
      (own : Bool) (b : Buffer A) (item : A) (n : ℕ) (ok : Bool) (b' : Buffer A)
      → IsValid b
      → push (committing own) b item n ≡ some (ok, b')
      → Pushed b item ok b'
  push-Pushed own b item n ok b' v e = ground (
    arith,
    push_cases (committing own) b item n ok b' v.pushes_in e,
    push_room-Pushed own b item n v,
  )

  -- `Push` keeps the invariant, in every phase and whatever the answer.
  pub push-IsValid :
      (c : Context) (b : Buffer A) (item : A) (n : ℕ) (ok : Bool) (b' : Buffer A)
      → IsValid b
      → length b.items + b.pushes + n < word
      → push c b item n ≡ some (ok, b')
      → IsValid b'
  push-IsValid c b item n ok b' v h e =
      ground (arith, push_cases c b item n ok b' v.pushes_in e, push_room-IsValid c b item n v)

  pub update-IsValid :
      (cycle : ℕ) (b b' : Buffer A) → IsValid b → update cycle b ≡ some b' → IsValid b'
  unfolding update effect_pushes effect_pop finish_update
  update-IsValid cycle b b' v e =
      ground (arith, length-append b.items (staged b), length-take b.pushes b.new)
