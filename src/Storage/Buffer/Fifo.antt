-- ===== src/Storage/Buffer/Fifo.antt =====
-- sim/buffer.hpp over many cycles: a component pushes, another looks at the front and pops, and the
-- kernel updates the buffer between cycles.
use mgsim.Base.{
  ℕ, suc, ◌+◌, ◌*◌, min, ◌≡◌, refl, sym, ap, ◌∙◌, ◌≤◌, ◌<◌, ◌⊎◌, inl, inr, Bool, true, false,
  Bool-cases, Option, none, some, List, [], ◌∷◌, ◌++◌, ltb, if◌then◌else◌, ◌>>=◌, arith, length,
  take, length-append, length-take, append_assoc, append-nil,
}
use mgsim.Storage.{committing, word, unnotify, register_update}
use mgsim.Storage.Buffer.{
  Buffer, front, pop, push, push_room, update, effect_pushes, effect_pop, finish_update, pop_front,
  is_empty,
}
use mgsim.Storage.Buffer.Valid.{
  IsValid, Pushed, staged, update-IsValid, push_room-Pushed, push_room-IsValid, push_room-limit,
  push-eq-push_room,
}

-- What happens in one cycle: its number, the items pushed with the space that each asks for, and
-- whether the consumer looks for an item.
pub record Cycle (A : Type 0) : Type 0 where
  pub number : ℕ
  pub pushes : List (A × ℕ)
  pub pops : Bool

module _ {A : Type 0} where
  -- The queue with the items that the next `Update` appends.
  abbrev pub contents : Buffer A → List A
  contents b = b.items ++ staged b

  -- The pushes of one cycle, and those items that the buffer accepted.
  push_all : List (A × ℕ) → Buffer A → Option (List A × Buffer A)
  push_all [] b = some ([], b)
  push_all ((x, n) ∷ xs) b = do
    (ok, b1) ← push (committing true) b x n
    (accepted, b2) ← push_all xs b1
    some (if ok then x ∷ accepted else accepted, b2)

  -- A consumer that takes the front if there is one.
  pop_if : Bool → Buffer A → Option (List A × Buffer A)
  pop_if false b = some ([], b)
  pop_if true b = elim (front b) [
    | none ↦ some ([], b)
    | some x ↦ (do b' ← pop (committing true) b; some (x ∷ [], b'))
  ]

  -- One cycle: what was taken, what was accepted, and the buffer behind it.
  cycle : Cycle A → Buffer A → Option (List A × List A × Buffer A)
  cycle c b = do
    (taken, b1) ← pop_if c.pops b
    (accepted, b2) ← push_all c.pushes b1
    b3 ← update c.number b2
    some (taken, accepted, b3)

  pub run : List (Cycle A) → Buffer A → Option (List A × List A × Buffer A)
  run [] b = some ([], [], b)
  run (c ∷ cs) b = do
    (taken, accepted, b1) ← cycle c b
    (taken', accepted', b2) ← run cs b1
    some (taken ++ taken', accepted ++ accepted', b2)

  -- Between cycles nothing is noted.
  pub record IsIdle (b : Buffer A) : Type 0 where
    pub no_pushes : b.pushes ≡ 0
    pub no_pop : b.popped ≡ false

  -- Each push asks for a sensible space.
  abbrev pub AllSensible : List (A × ℕ) → Type 0
  AllSensible [] = Unit {0}
  AllSensible ((x, n) ∷ xs) = (1 ≤ n) × (n ≤ 4) × AllSensible xs

  record PushedAll (b : Buffer A) (accepted : List A) (room : ℕ) (b' : Buffer A) : Type 0 where
    valid : IsValid b'
    queue : b'.items ≡ b.items
    staging : staged b' ≡ staged b ++ accepted
    pop_kept : b'.popped ≡ b.popped
    limit_kept : b'.max_pushes ≡ b.max_pushes
    grown : b'.pushes ≤ b.pushes + room

  PushedAll-cons :
      (b b1 b2 : Buffer A) (x : A) (ok : Bool) (accepted : List A) (room : ℕ)
      → Pushed b x ok b1
      → b1.max_pushes ≡ b.max_pushes
      → PushedAll b1 accepted room b2
      → PushedAll b (if ok then x ∷ accepted else accepted) (suc room) b2
  PushedAll-cons b b1 b2 x ok accepted room p l q =
      ground (arith, append_assoc (staged b) (x ∷ []) accepted)

  push_all-PushedAll :
      (xs : List (A × ℕ)) (b : Buffer A)
      → IsValid b
      → AllSensible xs
      → b.pushes + length xs ≤ b.max_pushes
      → length b.items + b.max_pushes + 4 < word
      → (accepted : List A) × (b' : Buffer A) × (push_all xs b ≡ some (accepted, b'))
        × PushedAll b accepted (length xs) b'
  unfolding push_all
  push_all-PushedAll [] b v s h k = (
    [],
    b,
    refl,
    record {
      valid = v;
      queue = refl;
      staging = sym (append-nil (staged b));
      pop_kept = refl;
      limit_kept = refl;
      grown = omega arith;
    },
  )
  push_all-PushedAll ((x, n) ∷ xs) b v s h k =
      let c = committing true in
      let r = push_room c b x n in
      let lim = push_room-limit c b x n in
      let p = push_room-Pushed true b x n v (omega arith) in
      let v1 = push_room-IsValid c b x n v (omega arith) s.0 (omega arith) in
      let (accepted, b2, e, q) =
        push_all-PushedAll xs r.1 v1 s.2 (ground arith) (ground (arith, ap length p.queue)) in
      (
        if r.0 then x ∷ accepted else accepted,
        b2,
        rw (push-eq-push_room c b x n s.0 refl (omega arith), e),
        PushedAll-cons b r.1 b2 x r.0 accepted (length xs) p lim.0 q,
      )

  effect_pushes-items : (b : Buffer A) → (effect_pushes b).items ≡ contents b
  unfolding effect_pushes
  effect_pushes-items b = elim (Bool-cases (ltb 0 b.pushes)) [
    | inl h ↦ rw h
    | inr h ↦
        let e : b.pushes ≡ 0 = ground arith in
        rw (h, ap (λ n. take n b.new) e) (sym (append-nil b.items))
  ]

  -- What `Update` does to the queue: the items pushed are appended, and a pop takes the first.
  record Updated (b b' : Buffer A) (queue : List A) : Type 0 where
    items_eq : b'.items ≡ queue
    idle : IsIdle b'
    limit_kept : b'.max_pushes ≡ b.max_pushes

  update-keep :
      (number : ℕ) (b : Buffer A)
      → b.popped ≡ false
      → (b' : Buffer A) × (update number b ≡ some b') × Updated b b' (contents b)
  unfolding update effect_pop finish_update effect_pushes
  update-keep number b h =
      (finish_update number (effect_pushes b), ground arith, ground (arith, effect_pushes-items b))

  effect_pop-cons :
      (b : Buffer A) (x : A) (rest : List A)
      → b.popped ≡ true
      → b.items ≡ x ∷ rest
      → (b' : Buffer A) × (effect_pop b ≡ some b')
        × (b'.items ≡ rest)
        × (b'.max_pushes ≡ b.max_pushes)
  unfolding effect_pop pop_front
  effect_pop-cons b x rest h e = (
    record b { items = rest; base = if is_empty rest then unnotify b.base else b.base },
    rw (h, e),
    refl,
    refl,
  )

  effect_pushes-kept :
      (b : Buffer A)
      → ((effect_pushes b).popped ≡ b.popped) × ((effect_pushes b).max_pushes ≡ b.max_pushes)
  unfolding effect_pushes
  effect_pushes-kept b = ground arith

  update-pop :
      (number : ℕ) (b : Buffer A) (x : A) (rest : List A)
      → b.popped ≡ true
      → contents b ≡ x ∷ rest
      → (b' : Buffer A) × (update number b ≡ some b') × Updated b b' rest
  unfolding update finish_update
  update-pop number b x rest h e =
      let k = effect_pushes-kept b in
      let (b1, e1, i1, l1) =
        effect_pop-cons (effect_pushes b) x rest (k.0 ∙ h) (effect_pushes-items b ∙ e) in
      (finish_update number b1, rw e1, ground arith)

  -- A whole cycle of a valid idle buffer.
  record Cycled (c : Cycle A) (b : Buffer A) (taken accepted : List A) (b' : Buffer A)
      : Type 0 where
    valid : IsValid b'
    idle : IsIdle b'
    order : taken ++ b'.items ≡ b.items ++ accepted
    limit_kept : b'.max_pushes ≡ b.max_pushes
    grown : length b'.items ≤ length b.items + b.max_pushes

  staged-idle : (b : Buffer A) → b.pushes ≡ 0 → staged b ≡ []
  staged-idle b h = ap (λ n. take n b.new) h

  cycle_grown :
      (b b2 b3 : Buffer A) {accepted : List A} {room : ℕ}
      → length (staged b2) ≡ min b2.pushes (length b2.new)
      → PushedAll b accepted room b2
      → IsValid b
      → b3.items ≡ contents b2
      → b.pushes ≡ 0
      → room ≤ b.max_pushes
      → length b3.items ≤ length b.items + b.max_pushes
  cycle_grown b b2 b3 l p v e z h =
      omega (arith, ap length e, ap length p.queue, length-append b2.items (staged b2), p.grown)

  cycle-eq :
      (c : Cycle A) (b : Buffer A) {b1 b2 b3 : Buffer A} {taken accepted : List A}
      → pop_if c.pops b ≡ some (taken, b1)
      → push_all c.pushes b1 ≡ some (accepted, b2)
      → update c.number b2 ≡ some b3
      → cycle c b ≡ some (taken, accepted, b3)
  unfolding cycle
  cycle-eq c b e e2 e3 = rw (e, e2, e3)

  pop_if-cons :
      (pops : Bool) (b : Buffer A) (x : A) (rest : List A)
      → pops ≡ true
      → b.items ≡ x ∷ rest
      → b.popped ≡ false
      → pop_if pops b ≡ some (x ∷ [], record b { popped = true; base = register_update b.base })
  unfolding pop_if pop front
  pop_if-cons pops b x rest h e n = ground arith

  pop_if-none :
      (pops : Bool) (b : Buffer A) → (pops ≡ false) ⊎ (b.items ≡ []) → pop_if pops b ≡ some ([], b)
  unfolding pop_if front
  pop_if-none pops b h = ground arith

  keep_front :
      (c : Cycle A) (b : Buffer A)
      → IsValid b
      → IsIdle b
      → AllSensible c.pushes
      → length c.pushes ≤ b.max_pushes
      → length b.items + b.max_pushes + 4 < word
      → pop_if c.pops b ≡ some ([], b)
      → (taken accepted : List A) × (b' : Buffer A) × (cycle c b ≡ some (taken, accepted, b'))
        × Cycled c b taken accepted b'
  keep_front c b v idle s h k e =
      let (accepted, b2, e2, p) = push_all-PushedAll c.pushes b v s (ground arith) k in
      let (b3, e3, u) = update-keep c.number b2 (p.pop_kept ∙ idle.no_pop) in
      (
        [],
        accepted,
        b3,
        cycle-eq c b e e2 e3,
        record {
          valid = update-IsValid c.number b2 b3 p.valid e3;
          idle = u.idle;
          order = ground (arith, p.queue, p.staging, u.items_eq, staged-idle b idle.no_pushes);
          limit_kept = ground (arith, p.limit_kept, u.limit_kept);
          grown =
              cycle_grown b b2 b3 (length-take b2.pushes b2.new) p v u.items_eq idle.no_pushes h;
        },
      )

  front-contents :
      (b b2 : Buffer A) (x : A) (rest accepted : List A)
      → b2.items ≡ x ∷ rest
      → staged b2 ≡ staged b ++ accepted
      → staged b ≡ []
      → contents b2 ≡ x ∷ rest ++ accepted
  front-contents b b2 x rest accepted e s z = rw (e, s, z)

  accepted-le :
      (b b2 : Buffer A) (accepted : List A) {room : ℕ}
      → staged b2 ≡ staged b ++ accepted
      → length (staged b2) ≡ min b2.pushes (length b2.new)
      → b2.pushes ≤ b.pushes + room
      → b.pushes ≡ 0
      → length accepted ≤ room
  accepted-le b b2 accepted s l g z = omega (arith, ap length s, length-append (staged b) accepted)

  take_front :
      (c : Cycle A) (b : Buffer A) (x : A) (rest : List A)
      → IsValid b
      → IsIdle b
      → AllSensible c.pushes
      → length c.pushes ≤ b.max_pushes
      → length b.items + b.max_pushes + 4 < word
      → c.pops ≡ true
      → b.items ≡ x ∷ rest
      → (taken accepted : List A) × (b' : Buffer A) × (cycle c b ≡ some (taken, accepted, b'))
        × Cycled c b taken accepted b'
  take_front c b x rest v idle s h k pops e =
      let b1 : Buffer A = record b { popped = true; base = register_update b.base } in
      let (accepted, b2, e2, p) =
        push_all-PushedAll c.pushes b1 (ground arith) s (ground arith) k in
      let (b3, e3, u) = update-pop c.number b2 x (rest ++ accepted) p.pop_kept (
        front-contents b b2 x rest accepted (p.queue ∙ e) p.staging
          (staged-idle b idle.no_pushes)) in
      (
        x ∷ [],
        accepted,
        b3,
        cycle-eq c b (pop_if-cons c.pops b x rest pops e idle.no_pop) e2 e3,
        record {
          valid = update-IsValid c.number b2 b3 p.valid e3;
          idle = u.idle;
          order = ground (arith, u.items_eq, e);
          limit_kept = ground (arith, p.limit_kept, u.limit_kept);
          grown = omega (
            arith,
            ap length u.items_eq,
            ap length e,
            length-append rest accepted,
            accepted-le b b2 accepted p.staging (length-take b2.pushes b2.new) p.grown
                idle.no_pushes,
          );
        },
      )

  ordered :
      (t1 t2 a1 a2 q q1 q2 : List A)
      → t1 ++ q1 ≡ q ++ a1
      → t2 ++ q2 ≡ q1 ++ a2
      → (t1 ++ t2) ++ q2 ≡ q ++ (a1 ++ a2)
  ordered t1 t2 a1 a2 q q1 q2 h k =
      append_assoc t1 t2 q2
      ∙ ap (λ t. t1 ++ t) k
      ∙ sym (append_assoc t1 q1 a2)
      ∙ ap (λ t. t ++ a2) h
      ∙ append_assoc q a1 a2

  List-cases : (xs : List A) → (xs ≡ []) ⊎ ((x : A) × (rest : List A) × (xs ≡ x ∷ rest))
  List-cases [] = inl refl
  List-cases (x ∷ rest) = inr (x, rest, refl)

  cycle-Cycled :
      (c : Cycle A) (b : Buffer A)
      → IsValid b
      → IsIdle b
      → AllSensible c.pushes
      → length c.pushes ≤ b.max_pushes
      → length b.items + 8 < word
      → (taken accepted : List A) × (b' : Buffer A) × (cycle c b ≡ some (taken, accepted, b'))
        × Cycled c b taken accepted b'
  cycle-Cycled c b v idle s h k = elim (Bool-cases c.pops) [
    | inr quiet ↦ keep_front c b v idle s h (omega arith) (pop_if-none c.pops b (inl quiet))
    | inl pops ↦ elim (List-cases b.items) [
      | inl e ↦ keep_front c b v idle s h (omega arith) (pop_if-none c.pops b (inr e))
      | inr (x, rest, e) ↦ take_front c b x rest v idle s h (omega arith) pops e
    ]
  ]

  -- Every cycle of the schedule is one that the buffer's clients may make.
  abbrev pub Fits : ℕ → List (Cycle A) → Type 0
  Fits limit [] = Unit {0}
  Fits limit (c ∷ cs) = AllSensible c.pushes × (length c.pushes ≤ limit) × Fits limit cs

  -- Of a valid buffer between cycles: over any schedule of cycles no assertion fails, the items
  -- taken, followed by those that still wait, are the items that waited at first, followed by those
  -- accepted, in their order, and the buffer is again valid and between cycles. The pushes of a
  -- cycle are at most `max_pushes`, each asks for 1 to 4 places, and the queue cannot reach the range
  -- of `size_t`.
  pub run_fifo :
      (cs : List (Cycle A)) (b : Buffer A)
      → IsValid b
      → IsIdle b
      → Fits b.max_pushes cs
      → length b.items + 4 * length cs + 8 < word
      → (taken accepted : List A) × (b' : Buffer A) × (run cs b ≡ some (taken, accepted, b'))
        × (taken ++ b'.items ≡ b.items ++ accepted)
        × IsValid b'
        × IsIdle b'
  unfolding run
  run_fifo [] b v idle f k = ([], [], b, refl, sym (append-nil b.items), v, idle)
  run_fifo (c ∷ cs) b v idle f k =
      let (t1, a1, b1, e1, q) = cycle-Cycled c b v idle f.0 f.1 (omega arith) in
      let (t2, a2, b2, e2, o, v2, i2) =
        run_fifo cs b1 q.valid q.idle (rw q.limit_kept f.2)
          (omega (arith, q.grown, v.few_pushes)) in
      (
        t1 ++ t2,
        a1 ++ a2,
        b2,
        rw (e1, e2),
        ordered t1 t2 a1 a2 b.items b1.items b2.items q.order o,
        v2,
        i2,
      )
