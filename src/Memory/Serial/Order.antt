-- ===== src/Memory/Serial/Order.antt =====
-- The requests of a serial memory are done one after the other, each in its time.
use mgsim.Base.{
  ℕ, zero, suc, ◌+◌, ◌-◌, ◌*◌, ◌%◌, ◌<◌, ◌≤◌, ◌≡◌, refl, sym, ap, ◌∙◌, Bool, true, false, Option,
  some, List, [], ◌∷◌, ◌++◌, arith, ltb, leb, ◌>>=◌, get_elem?, length, subst, >>=-eq-some, some-eq,
  append_assoc,
}
use native.Mathlib.Nat
use mgsim.Storage.{word, committing}
use mgsim.Storage.Buffer.{Buffer, update}
use mgsim.Storage.Buffer.Idle.{Holds, front-Holds, update-Holds, pop-Holds}
use mgsim.Kernel.Step.{Result, success}
use mgsim.Memory.Blocks.{Block}
use mgsim.Memory.Serial.{
  Request, Reply, Serial, client_of, access, count_done, answered, complete, do_requests,
}

-- A cycle: the process runs its commit phase, and the kernel updates the buffer.
turn : (Reply → Bool) → ℕ → Serial → Option (List Reply × Serial)
turn accepts now s = do
  (result, replies, s') ← do_requests (committing true) accepts now s
  b ← update now s'.requests
  some (replies, record s' { requests = b })

-- Cycles in a row, the first of them `now`.
pub turns : (Reply → Bool) → ℕ → ℕ → Serial → Option (List Reply × Serial)
turns accepts zero now s = some ([], s)
turns accepts (suc k) now s = do
  (replies, s1) ← turn accepts now s
  (replies', s2) ← turns accepts k (now + 1) s1
  some (replies ++ replies', s2)

-- The requests done at once, one after the other.
unfoldable pub in_order : ℕ → List Request → List Block → ℕ → Option (List Reply × List Block × ℕ)
in_order line_size [] bs allocated = some ([], bs, allocated)
in_order line_size (r ∷ rs) bs allocated = do
  (reply, bs1, allocated1) ← access line_size r bs allocated
  (replies, bs2, allocated2) ← in_order line_size rs bs1 allocated1
  some (reply ∷ replies, bs2, allocated2)

-- The clients of the requests are there.
abbrev pub AllPresent : List (Option ℕ) → List Request → Type 0
AllPresent clients [] = Unit
AllPresent clients (r ∷ rs) =
    ((client : ℕ) × (get_elem? clients r.client ≡ some (some client))) × AllPresent clients rs

-- The memory with the requests that wait, their clients, the time of the first of them, and the contents.
pub record Waits (time line_size : ℕ) (rs : List Request) (next_done : ℕ) (bs : List Block)
    (allocated : ℕ) (s : Serial) : Type 0 where
  pub requests : Holds rs s.requests
  pub timer : s.next_done ≡ next_done
  pub contents : s.blocks ≡ bs
  pub total : s.allocated ≡ allocated
  pub lines : s.line_size ≡ line_size
  pub duration : s.base_request_time + s.time_per_line ≡ time
  pub present : AllPresent s.clients rs

module _ (accepts : Reply → Bool) (all : (reply : Reply) → accepts reply ≡ true)
    (time line_size : ℕ) where
  -- The update of the buffer behind the process.
  turn-of :
      (now : ℕ) (s s' : Serial) (result : Result) (replies : List Reply) (b : Buffer Request)
      → do_requests (committing true) accepts now s ≡ some (result, replies, s')
      → update now s'.requests ≡ some b
      → turn accepts now s ≡ some (replies, record s' { requests = b })
  unfolding turn
  turn-of now s s' result replies b e f = rw (e, f) refl

  -- The request in front is begun.
  turn_begins :
      (now : ℕ) (r : Request) (rs : List Request) (bs : List Block) (allocated : ℕ) (s : Serial)
      → now + time < word
      → Waits time line_size (r ∷ rs) 0 bs allocated s
      → (s' : Serial) × (turn accepts now s ≡ some ([], s'))
        × Waits time line_size (r ∷ rs) (now + time) bs allocated s'
  unfolding do_requests
  turn_begins now r rs bs allocated s range w =
      let next = (now + (s.base_request_time + s.time_per_line)) % word in
      let off : ltb 0 s.next_done ≡ false = ground (arith, w.timer) in
      let (b, e, held) = update-Holds now (r ∷ rs) s.requests w.requests in
      (
        _,
        turn-of now s (record s { next_done = next }) success [] b
            (rw (front-Holds r rs s.requests w.requests, off) refl) e,
        record {
          requests = held;
          timer = ap (λ t. (now + t) % word) w.duration ∙ Nat.mod-eq_of_lt range;
          contents = w.contents;
          total = w.total;
          lines = w.lines;
          duration = w.duration;
          present = w.present;
        },
      )

  -- The request in front is not done yet.
  turn_idles :
      (now next : ℕ) (r : Request) (rs : List Request) (bs : List Block) (allocated : ℕ)
      (s : Serial)
      → now < next
      → Waits time line_size (r ∷ rs) next bs allocated s
      → (s' : Serial) × (turn accepts now s ≡ some ([], s'))
        × Waits time line_size (r ∷ rs) next bs allocated s'
  unfolding do_requests
  turn_idles now next r rs bs allocated s early w =
      let on : ltb 0 s.next_done ≡ true = ground (arith, w.timer, early) in
      let not_yet : leb s.next_done now ≡ false = ground (arith, w.timer, early) in
      let (b, e, held) = update-Holds now (r ∷ rs) s.requests w.requests in
      (
        _,
        turn-of now s s success [] b (rw (front-Holds r rs s.requests w.requests, on, not_yet) refl)
            e,
        record {
          requests = held;
          timer = w.timer;
          contents = w.contents;
          total = w.total;
          lines = w.lines;
          duration = w.duration;
          present = w.present;
        },
      )

  -- Counting changes no more than the counters and the timer.
  record Counts (s s' : Serial) : Type 0 where
    requests : s'.requests ≡ s.requests
    timer : s'.next_done ≡ 0
    contents : s'.blocks ≡ s.blocks
    total : s'.allocated ≡ s.allocated
    lines : s'.line_size ≡ s.line_size
    duration : s'.base_request_time + s'.time_per_line ≡ s.base_request_time + s.time_per_line
    clients : s'.clients ≡ s.clients

  count_done-Counts : (w : Bool) (s : Serial) → Counts s (count_done w s)
  unfolding count_done
  count_done-Counts true s = record {
    requests = refl;
    timer = refl;
    contents = refl;
    total = refl;
    lines = refl;
    duration = refl;
    clients = refl;
  }
  count_done-Counts false s = record {
    requests = refl;
    timer = refl;
    contents = refl;
    total = refl;
    lines = refl;
    duration = refl;
    clients = refl;
  }

  -- The request in front is done.
  turn_ends :
      (now next : ℕ) (r : Request) (rs : List Request) (bs bs' : List Block)
      (allocated allocated' : ℕ) (reply : Reply) (s : Serial)
      → 0 < next
      → next ≤ now
      → Waits time line_size (r ∷ rs) next bs allocated s
      → access line_size r bs allocated ≡ some (reply, bs', allocated')
      → (s' : Serial) × (turn accepts now s ≡ some (reply ∷ [], s'))
        × Waits time line_size rs 0 bs' allocated' s'
  unfolding do_requests complete answered client_of
  turn_ends now next r rs bs bs' allocated allocated' reply s positive late w a =
      let on : ltb 0 s.next_done ≡ true = ground (arith, w.timer, positive) in
      let over : leb s.next_done now ≡ true = ground (arith, w.timer, late) in
      let (b1, b, popped, e, held) = pop-Holds now r rs s.requests w.requests in
      let stored : Serial = record s { blocks = bs'; allocated = allocated' } in
      let same : access s.line_size r s.blocks s.allocated ≡ some (reply, bs', allocated') =
        (λ i. access (w.lines i) r (w.contents i) (w.total i)) ∙ a in
      let there : client_of r.client s ≡ some w.present.0.0 = rw (w.present.0.1, client_of) refl in
      let c = count_done-Counts r.write stored in
      (
        _,
        turn-of now s (record (count_done r.write stored) { requests = b1 }) success (reply ∷ []) b
            (rw (front-Holds r rs s.requests w.requests, on, over, same, there, all reply, popped)
              refl)
            e,
        record {
          requests = held;
          timer = c.timer;
          contents = c.contents;
          total = c.total;
          lines = c.lines ∙ w.lines;
          duration = c.duration ∙ w.duration;
          present = subst (λ cs. AllPresent cs rs) (sym c.clients) w.present.1;
        },
      )

  turns_add :
      (j k n now after : ℕ) (s s1 s2 : Serial) (replies replies' : List Reply)
      → n ≡ j + k
      → after ≡ now + j
      → turns accepts j now s ≡ some (replies, s1)
      → turns accepts k after s1 ≡ some (replies', s2)
      → turns accepts n now s ≡ some (replies ++ replies', s2)
  unfolding turns
  turns_add zero k n now after s s1 s2 replies replies' sum at e f =
      let none_yet : [] ≡ replies = ap (λ (x : List Reply × Serial). x.0) (some-eq refl e) in
      let same : s ≡ s1 = ap (λ (x : List Reply × Serial). x.1) (some-eq refl e) in
      let count : n ≡ k = omega (arith, sum) in
      let start : now ≡ after = omega (arith, at) in
      (λ i. turns accepts (count i) (start i) (same i))
      ∙ (f ∙ ap (λ l. some (l ++ replies', s2)) none_yet)
  turns_add (suc j) k zero now after s s1 s2 replies replies' sum at e f =
      absurd (omega (arith, sum))
  turns_add (suc j) k (suc n) now after s s1 s2 replies replies' sum at e f =
      let ((first, s0), e0, e1) = >>=-eq-some (turn accepts now s) _ e in
      let ((rest, s3), e2, e3) = >>=-eq-some (turns accepts j (now + 1) s0) _ e1 in
      let same : s3 ≡ s1 = ap (λ (x : List Reply × Serial). x.1) (some-eq refl e3) in
      let sum_up : first ++ rest ≡ replies =
        ap (λ (x : List Reply × Serial). x.0) (some-eq refl e3) in
      let go =
        turns_add j k n (now + 1) after s0 s1 s2 rest replies' (omega (arith, sum))
          (omega (arith, at)) (e2 ∙ ap (λ s. some (rest, s)) same) f in
      rw (e0, go)
        (ap (λ l. some (l, s2))
          (sym (append_assoc first rest replies') ∙ ap (λ l. l ++ replies') sum_up))

  -- Turns until the request in front is due.
  turns_wait :
      (k now next : ℕ) (r : Request) (rs : List Request) (bs : List Block) (allocated : ℕ)
      (s : Serial)
      → now + k ≤ next
      → Waits time line_size (r ∷ rs) next bs allocated s
      → (s' : Serial) × (turns accepts k now s ≡ some ([], s'))
        × Waits time line_size (r ∷ rs) next bs allocated s'
  unfolding turns
  turns_wait zero now next r rs bs allocated s h w = (s, refl, w)
  turns_wait (suc k) now next r rs bs allocated s h w =
      let (s1, e, w1) = turn_idles now next r rs bs allocated s (omega (arith, h)) w in
      let (s2, f, w2) = turns_wait k (now + 1) next r rs bs allocated s1 (omega (arith, h)) w1 in
      (s2, rw (e, f) refl, w2)

  -- One request, from its beginning to its end.
  one_request :
      (t now : ℕ) (r : Request) (rs : List Request) (bs bs' : List Block) (allocated allocated' : ℕ)
      (reply : Reply) (s : Serial)
      → time ≡ suc t
      → now + time < word
      → Waits time line_size (r ∷ rs) 0 bs allocated s
      → access line_size r bs allocated ≡ some (reply, bs', allocated')
      → (s' : Serial) × (turns accepts (time + 1) now s ≡ some (reply ∷ [], s'))
        × Waits time line_size rs 0 bs' allocated' s'
  unfolding turns
  one_request t now r rs bs bs' allocated allocated' reply s long range w a =
      let (s1, e1, w1) = turn_begins now r rs bs allocated s range w in
      let (s2, e2, w2) =
        turns_wait t (now + 1) (now + time) r rs bs allocated s1 (omega (arith, long)) w1 in
      let (s3, e3, w3) =
        turn_ends (now + time) (now + time) r rs bs bs' allocated allocated' reply s2
          (omega (arith, long)) (omega arith) w2 a in
      let begun : turns accepts 1 now s ≡ some ([], s1) = rw e1 refl in
      let ended : turns accepts 1 (now + time) s2 ≡ some (reply ∷ [], s3) = rw e3 refl in
      let waited =
        turns_add t 1 time (now + 1) (now + time) s1 s2 s3 [] (reply ∷ []) (omega (arith, long))
          (omega (arith, long)) e2 ended in
      (
        s3,
        turns_add 1 time (time + 1) now (now + 1) s s1 s3 [] (reply ∷ []) (omega arith) refl begun
            waited,
        w3,
      )

  all_requests :
      (rs : List Request) (n now : ℕ) (replies : List Reply) (bs bs' : List Block)
      (allocated allocated' : ℕ) (s : Serial)
      → n ≡ length rs * (time + 1)
      → 0 < time
      → now + n < word
      → Waits time line_size rs 0 bs allocated s
      → in_order line_size rs bs allocated ≡ some (replies, bs', allocated')
      → (s' : Serial) × (turns accepts n now s ≡ some (replies, s'))
        × Waits time line_size [] 0 bs' allocated' s'
  unfolding in_order turns
  all_requests [] zero now replies bs bs' allocated allocated' s count long range w h =
      let none_left : [] ≡ replies =
        ap (λ (x : List Reply × List Block × ℕ). x.0) (some-eq refl h) in
      let contents = ap (λ (x : List Reply × List Block × ℕ). x.1) (some-eq refl h) in
      let total = ap (λ (x : List Reply × List Block × ℕ). x.2) (some-eq refl h) in
      (
        s,
        ap (λ l. some (l, s)) none_left,
        record {
          requests = w.requests;
          timer = w.timer;
          contents = w.contents ∙ contents;
          total = w.total ∙ total;
          lines = w.lines;
          duration = w.duration;
          present = w.present;
        },
      )
  all_requests [] (suc n) now replies bs bs' allocated allocated' s count long range w h =
      absurd (omega (arith, count))
  all_requests (r ∷ rs) n now replies bs bs' allocated allocated' s count long range w h =
      let ((reply, bs1, allocated1), e, h1) = >>=-eq-some (access line_size r bs allocated) _ h in
      let ((rest, bs2, allocated2), f, h2) =
        >>=-eq-some (in_order line_size rs bs1 allocated1) _ h1 in
      let m = length rs * (time + 1) in
      let split = Nat.suc-mul (length rs) (time + 1) in
      let more : n ≡ time + 1 + m = omega (arith, count, split) in
      let (s1, e1, w1) =
        one_request (time - 1) now r rs bs bs1 allocated allocated1 reply s (omega (arith, long))
          (omega (arith, range, more)) w e in
      let (s2, e2, w2) =
        all_requests rs m (now + (time + 1)) rest bs1 bs2 allocated1 allocated2 s1 refl long
          (omega (arith, range, more)) w1 f in
      let done =
        turns_add (time + 1) m n now (now + (time + 1)) s s1 s2 (reply ∷ []) rest more refl e1 e2 in
      let out = some-eq refl h2 in
      (
        s2,
        done ∙ ap (λ (x : List Reply × List Block × ℕ). some (x.0, s2)) out,
        record {
          requests = w2.requests;
          timer = w2.timer;
          contents = w2.contents ∙ ap (λ (x : List Reply × List Block × ℕ). x.1) out;
          total = w2.total ∙ ap (λ (x : List Reply × List Block × ℕ). x.2) out;
          lines = w2.lines;
          duration = w2.duration;
          present = w2.present;
        },
      )

  -- The requests `rs` that wait in a serial memory, none of them begun, with clients that are
  -- there and take every reply, no new request coming in, and a time of a cycle at least for each: in so
  -- many cycles and one more for each of them, all are done, the replies and the contents are those of the requests done at
  -- once in the order of their arrival, and the memory waits for requests again.
  pub turns-in_order :
      (rs : List Request) (now : ℕ) (replies : List Reply) (bs bs' : List Block)
      (allocated allocated' : ℕ) (s : Serial)
      → 0 < time
      → now + length rs * (time + 1) < word
      → Waits time line_size rs 0 bs allocated s
      → in_order line_size rs bs allocated ≡ some (replies, bs', allocated')
      → (s' : Serial) × (turns accepts (length rs * (time + 1)) now s ≡ some (replies, s'))
        × Waits time line_size [] 0 bs' allocated' s'
  turns-in_order rs now replies bs bs' allocated allocated' s long range w h =
      all_requests rs (length rs * (time + 1)) now replies bs bs' allocated allocated' s refl long
        range w h
