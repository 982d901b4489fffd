-- ===== src/Storage/Buffer/Answer.antt =====
-- sim/buffer.hpp: `Push` is called in the phases of a cycle, and its answer is the same in all of them.
use mgsim.Base.{
  ℕ, ◌+◌, ◌≡◌, ◌≤◌, ◌<◌, ◌⊎◌, ◌↔◌, ap, ◌∙◌, Bool, true, false, some, ◌==◌, ◌&&◌, if◌then◌else◌,
  arith, length, length-append, length-take,
}
use mgsim.Storage.{Context, is_committing, committing, word}
use mgsim.Storage.Buffer.{
  Buffer, infinite, has_room, push, push_room, update, effect_pushes, effect_pop, pop_front,
  finish_update,
}
use mgsim.Storage.Buffer.Valid.{IsValid, Pushed, staged, push-Pushed, push-IsValid, update-IsValid}
use mgsim.Storage.Buffer.Fifo.{contents}

module _ {A : Type 0} where
  -- What the push of an item that asks for `n` places has answered and left in the commit phase.
  pub record Answered (b : Buffer A) (item : A) (n : ℕ) (ok : Bool) (b' : Buffer A) : Type 0 where
    pub room : (ok ≡ true) ↔ (
        (b.pushes < b.max_pushes)
        × ((b.max_size ≡ infinite) ⊎ (length (contents b) + n ≤ b.max_size)))
    pub pushed : Pushed b item ok b'
    pub valid : IsValid b'
    pub bound :
        (cycle : ℕ) (b'' : Buffer A)
        → update cycle b' ≡ some b''
        → (b.max_size ≡ infinite) ⊎ (length b''.items ≤ b.max_size)

  length-contents : (b : Buffer A) → IsValid b → length (contents b) ≡ length b.items + b.pushes
  length-contents b v = omega (
    arith,
    length-append b.items (staged b),
    length-take b.pushes b.new,
    v.slots,
    v.pushes_in,
    v.few_pushes,
  )

  -- Before the commit phase, a push counts a stall at most.
  push-early :
      (c : Context) (b b0 : Buffer A) (item : A) (n : ℕ) (ok : Bool)
      → is_committing c.phase ≡ false
      → push c b item n ≡ some (ok, b0)
      → (stalls : ℕ) × (b0 ≡ record b { stalls = stalls })
  unfolding push push_room
  push-early c b b0 item n ok early h = (b0.stalls, ground arith)

  push-room :
      (c : Context) (b b0 : Buffer A) (item : A) (n : ℕ) (ok : Bool)
      → IsValid b
      → length b.items + b.pushes + n < word
      → push c b item n ≡ some (ok, b0)
      → (ok ≡ true) ↔ (
          (b.pushes < b.max_pushes)
          × ((b.max_size ≡ infinite) ⊎ (length (contents b) + n ≤ b.max_size)))
  unfolding push push_room has_room
  push-room c b b0 item n ok v k h = ground (arith, length-contents b v)

  -- The answer does not depend on the phase.
  push_again :
      (c : Context) (b b0 : Buffer A) (item : A) (n stalls : ℕ) (ok : Bool)
      → push c b item n ≡ some (ok, b0)
      → (b' : Buffer A) × (push (committing c.own_clock) (record b { stalls = stalls }) item n
          ≡ some (ok, b'))
  unfolding push push_room has_room
  push_again c b b0 item n stalls ok h =
      let b1 : Buffer A = record b { stalls = stalls } in
      (
        if b.max_pushes == 1 && b.pushes == 1
            then b1
            else (push_room (committing c.own_clock) b1 item n).1,
        ground arith,
      )

  push-limit :
      (c : Context) (b b' : Buffer A) (item : A) (n : ℕ) (ok : Bool)
      → push c b item n ≡ some (ok, b')
      → b'.max_size ≡ b.max_size
  unfolding push push_room
  push-limit c b b' item n ok h = ground arith

  update-limit :
      (cycle : ℕ) (b b' : Buffer A)
      → update cycle b ≡ some b'
      → (b'.max_size ≡ b.max_size) × (b'.pushes ≡ 0)
  unfolding update effect_pushes effect_pop pop_front finish_update
  update-limit cycle b b' h = ground arith

  -- A push before the commit phase, and the same push in the commit phase behind it. The second is made
  -- without a failed assertion and gives the same answer as the first, which is `true` exactly if the
  -- pushes of the cycle are not used up and the queue, with what has been pushed in this cycle, leaves
  -- the places asked for or is unbounded. It then adds the item behind those pushed before it, and
  -- otherwise none. The buffer stays valid, and the next `Update` does not bring it over its size. The
  -- buffer is valid at first, and the sum of the sizes is below 2^64.
  pub push-Answered :
      (c : Context) (b b0 : Buffer A) (item : A) (n : ℕ) (ok : Bool)
      → is_committing c.phase ≡ false
      → IsValid b
      → length b.items + b.pushes + n < word
      → push c b item n ≡ some (ok, b0)
      → (b' : Buffer A) × (push (committing c.own_clock) b0 item n ≡ some (ok, b'))
        × Answered b item n ok b'
  push-Answered c b b0 item n ok early v k h =
      let (stalls, same) = push-early c b b0 item n ok early h in
      let b1 : Buffer A = record b { stalls = stalls } in
      let v1 : IsValid b1 = record {
        slots = v.slots;
        some_pushes = v.some_pushes;
        few_pushes = v.few_pushes;
        pushes_in = v.pushes_in;
        sized = v.sized;
        fits = v.fits;
      } in
      let (b', e) = push_again c b b0 item n stalls ok h in
      let p = push-Pushed c.own_clock b1 item n ok b' v1 e in
      let v' = push-IsValid (committing c.own_clock) b1 item n ok b' v1 k e in
      (
        b',
        ap (λ b. push (committing c.own_clock) b item n) same ∙ e,
        record {
          room = push-room c b b0 item n ok v k h;
          pushed = record {
            queue = p.queue;
            staging = p.staging;
            count = p.count;
            pop_kept = p.pop_kept;
          };
          valid = v';
          bound = λ cycle b'' u.
              let limit = push-limit (committing c.own_clock) b1 b' item n ok e in
              let (kept, empty) = update-limit cycle b' b'' u in
              let fits = (update-IsValid cycle b' b'' v' u).fits in
              ground (arith, limit, kept, fits);
        },
      )
