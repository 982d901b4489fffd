-- ===== src/Memory/Serial/Phases.antt =====
-- The contents are written in every phase of a cycle, and that is as good as once.
use mgsim.Base.{
  ℕ, ◌+◌, ◌%◌, ◌≤◌, ◌≡◌, refl, sym, ap, subst, ◌∙◌, Bool, true, false, some, List, [], ltb, leb,
  length, take, Bool-cases, inl, inr, >>=-eq-some, some-eq,
}
use mgsim.Storage.{Context, is_committing}
use mgsim.Storage.Buffer.{front, pop}
use mgsim.Storage.Buffer.Idle.{pop-Context}
use mgsim.Kernel.Step.{Result, success}
use mgsim.Memory.Blocks
use mgsim.Memory.Blocks.{Block, Access, bytes, outside, unfinished, block_size}
use mgsim.Memory.Blocks.Again.{write_again}
use mgsim.Memory.Serial.{
  Request, Reply, Serial, client_of, replied, access, answered, complete, do_requests,
}

-- The bytes of a write, one line, stay within one block.
abbrev pub IsWithin : ℕ → Request → Type 0
IsWithin line_size r = r.address % block_size + length (take line_size r.contents) ≤ block_size

replied-same :
    (r : Request) (a : Access) (reply : Reply) (bs bs' : List Block) (allocated allocated' : ℕ)
    → replied r a bs allocated ≡ some (reply, bs', allocated')
    → (bs ≡ bs') × (allocated ≡ allocated')
unfolding replied
replied-same r (bytes xs) reply bs bs' allocated allocated' h =
    let out = some-eq refl h in
    (ap (λ (x : Reply × List Block × ℕ). x.1) out, ap (λ (x : Reply × List Block × ℕ). x.2) out)
replied-same r outside reply bs bs' allocated allocated' h = absurd (cc)
replied-same r unfinished reply bs bs' allocated allocated' h = absurd (cc)

access_again :
    (line_size : ℕ) (r : Request) (reply : Reply) (bs bs' : List Block) (allocated allocated' : ℕ)
    → IsWithin line_size r
    → access line_size r bs allocated ≡ some (reply, bs', allocated')
    → access line_size r bs' allocated' ≡ some (reply, bs', allocated')
unfolding access
access_again line_size r reply bs bs' allocated allocated' w h = elim (Bool-cases r.write) [
  | inl e ↦
      let xs = take line_size r.contents in
      let ms = take line_size r.mask in
      let ((bs1, n1), f, h1) =
        >>=-eq-some (Blocks.write r.address xs (some ms) bs allocated) _ (rw e at h) in
      let out = some-eq refl h1 in
      let contents = ap (λ (x : Reply × List Block × ℕ). x.1) out in
      let total = ap (λ (x : Reply × List Block × ℕ). x.2) out in
      let same = f ∙ (λ i. some (contents i, total i)) in
      rw (e, write_again r.address xs (some ms) bs bs' allocated allocated' w same)
        (ap (λ (x : Reply × List Block × ℕ). some (x.0, bs', allocated')) out)
  | inr e ↦
      let (contents, total) =
        replied-same r (Blocks.read r.address line_size bs) reply bs bs' allocated allocated'
          (rw e at h) in
      subst (λ (x : List Block × ℕ). access line_size r x.0 x.1 ≡ some (reply, x.0, x.1))
        (λ i. (contents i, total i))
        (subst (λ (x : List Block × ℕ). access line_size r bs allocated ≡ some (reply, x.0, x.1))
          (λ i. (sym contents i, sym total i)) h)
]

-- The contents that an access leaves.
abbrev stored : List Block → ℕ → Serial → Serial
stored bs allocated s = record s { blocks = bs; allocated = allocated }

complete_again :
    (c : Context) (accepts : Reply → Bool) (r : Request) (s : Serial) (reply : Reply)
    (bs : List Block) (allocated : ℕ)
    → IsWithin s.line_size r
    → access s.line_size r s.blocks s.allocated ≡ some (reply, bs, allocated)
    → complete c accepts r (stored bs allocated s) ≡ complete c accepts r s
unfolding complete client_of
complete_again c accepts r s reply bs allocated w h =
    rw (h, access_again s.line_size r reply s.blocks bs s.allocated allocated w h) refl

answered-early :
    (c : Context) (accepted : Bool) (reply : Reply) (r : Request) (s s' : Serial) (result : Result)
    (replies : List Reply)
    → is_committing c.phase ≡ false
    → answered c accepted reply r s ≡ some (result, replies, s')
    → s ≡ s'
unfolding answered
answered-early c false reply r s s' result replies early h =
    ap (λ (x : Result × List Reply × Serial). x.2) (some-eq refl h)
answered-early c true reply r s s' result replies early h =
    let (b, f, h1) = >>=-eq-some (pop c s.requests) _ h in
    let same = pop-Context c s.requests b early f in
    let out = some-eq refl (rw early at h1) in
    ap (λ b. record s { requests = b }) (sym same)
    ∙ ap (λ (x : Result × List Reply × Serial). x.2) out

-- Before the commit phase, an access is all that is left of a request that is complete.
complete-stored :
    (c : Context) (accepts : Reply → Bool) (r : Request) (s s' : Serial) (result : Result)
    (replies : List Reply)
    → is_committing c.phase ≡ false
    → complete c accepts r s ≡ some (result, replies, s')
    → (reply : Reply) × (bs : List Block) × (allocated : ℕ) × (access s.line_size r s.blocks
          s.allocated
        ≡ some (reply, bs, allocated))
      × (stored bs allocated s ≡ s')
unfolding complete client_of
complete-stored c accepts r s s' result replies early h =
    let ((reply, bs, n), e, h1) = >>=-eq-some (access s.line_size r s.blocks s.allocated) _ h in
    let (client, f, h2) = >>=-eq-some (client_of r.client s) _ h1 in
    (
      reply,
      bs,
      n,
      e,
      answered-early c (accepts reply) reply r (stored bs n s) s' result replies early h2,
    )

-- The three things that `DoRequests` may do.
due_now :
    (c : Context) (accepts : Reply → Bool) (now : ℕ) (r : Request) (s : Serial)
    → front s.requests ≡ some r
    → ltb 0 s.next_done ≡ true
    → leb s.next_done now ≡ true
    → do_requests c accepts now s ≡ complete c accepts r s
unfolding do_requests
due_now c accepts now r s first on over = rw (first, on, over) refl

due_later :
    (c : Context) (accepts : Reply → Bool) (now : ℕ) (r : Request) (s : Serial)
    → front s.requests ≡ some r
    → ltb 0 s.next_done ≡ true
    → leb s.next_done now ≡ false
    → do_requests c accepts now s ≡ some (success, [], s)
unfolding do_requests
due_later c accepts now r s first on over = rw (first, on, over) refl

not_begun :
    (c : Context) (accepts : Reply → Bool) (now : ℕ) (r : Request) (s : Serial)
    → is_committing c.phase ≡ false
    → front s.requests ≡ some r
    → ltb 0 s.next_done ≡ false
    → do_requests c accepts now s ≡ some (success, [], s)
unfolding do_requests
not_begun c accepts now r s early first off = rw (first, off, early) refl

-- `DoRequests` before the commit phase, whatever the client answers then, and `DoRequests` behind it in
-- any phase: that does what it would have done without the first call. The write in front must stay
-- within one block.
pub do_requests_again :
    (c0 c : Context) (accepts0 accepts : Reply → Bool) (now : ℕ) (r : Request) (s s' : Serial)
    (result : Result) (replies : List Reply)
    → is_committing c0.phase ≡ false
    → front s.requests ≡ some r
    → IsWithin s.line_size r
    → do_requests c0 accepts0 now s ≡ some (result, replies, s')
    → do_requests c accepts now s' ≡ do_requests c accepts now s
do_requests_again c0 c accepts0 accepts now r s s' result replies early first w h =
    elim (Bool-cases (ltb 0 s.next_done)) [
      | inl on ↦ elim (Bool-cases (leb s.next_done now)) [
        | inl over ↦
            let (reply, bs, n, e, same) =
              complete-stored c0 accepts0 r s s' result replies early
                (sym (due_now c0 accepts0 now r s first on over) ∙ h) in
            subst (λ s'. do_requests c accepts now s' ≡ do_requests c accepts now s) same
              (due_now c accepts now r (stored bs n s) first on over
                ∙ (complete_again c accepts r s reply bs n w e
                    ∙ sym (due_now c accepts now r s first on over)))
        | inr over ↦ unmoved (due_later c0 accepts0 now r s first on over)
      ]
      | inr off ↦ unmoved (not_begun c0 accepts0 now r s early first off)
    ]
  where
    unmoved :
        do_requests c0 accepts0 now s ≡ some (success, [], s)
        → do_requests c accepts now s' ≡ do_requests c accepts now s
    unmoved e =
        ap (λ (x : Result × List Reply × Serial). do_requests c accepts now x.2) (some-eq h e)
