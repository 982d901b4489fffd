-- ===== src/Memory/Serial.antt =====
-- arch/mem/SerialMemory.p.h, arch/mem/SerialMemory.cpp: a memory that serves the requests of its
-- clients one after the other. Whether `p_requests.Invoke()` grants the port to the process that calls
-- (Ports/Access) and what the clients answer are arguments; `none` is a failed assertion, a read
-- outside a block or a call of a client that has gone.
pub mod Order
pub mod Phases
mod Tests
use mgsim.Base.{
  ℕ, zero, suc, ◌+◌, ◌%◌, Bool, true, false, not, Option, none, some, List, [], ◌∷◌, ◌++◌, ltb, leb,
  ◌==◌, if◌then◌else◌, ◌>>=◌, ◌>>◌, assert, length, get_elem?, set, take,
}
use mgsim.Storage.{Context, is_committing, word}
use mgsim.Storage.Buffer.{Buffer, push, pop, front}
use mgsim.Kernel.Step.{Result, failed, success}
use mgsim.Memory.Blocks
use mgsim.Memory.Blocks.{Block, Access, bytes, outside, unfinished}

pub record Request : Type 0 where
  pub client : ℕ
  pub write : Bool
  pub address : ℕ
  pub contents : List ℕ
  pub mask : List Bool
  pub wid : ℕ

-- `OnMemoryReadCompleted` and `OnMemoryWriteCompleted`, with the client that is called.
pub data Reply : Type 0 where
  read_completed : (client address : ℕ) → List ℕ → Reply
  write_completed : (client wid : ℕ) → Reply

-- A client that has gone is `none`. The blocks and the bytes allocated are those of the base class.
pub record Serial : Type 0 where
  pub clients : List (Option ℕ)
  pub requests : Buffer Request
  pub base_request_time : ℕ
  pub time_per_line : ℕ
  pub line_size : ℕ
  pub next_done : ℕ
  pub nreads : ℕ
  pub nread_bytes : ℕ
  pub nwrites : ℕ
  pub nwrite_bytes : ℕ
  pub blocks : List Block
  pub allocated : ℕ

-- Is the callback registered?
unfoldable pub has_client : ℕ → List (Option ℕ) → Bool
has_client callback [] = false
has_client callback (none ∷ cs) = has_client callback cs
has_client callback (some c ∷ cs) = if c == callback then true else has_client callback cs

-- `RegisterClient`
unfoldable pub register_client : ℕ → Serial → Option (ℕ × Serial)
unfolding has_client
register_client callback s = do
  assert (not (has_client callback s.clients))
  some (length s.clients, record s { clients = s.clients ++ some callback ∷ [] })

-- `m_clients[id]`, which is there and not null.
unfoldable pub client_of : ℕ → Serial → Option ℕ
client_of id s = do c ← get_elem? s.clients id; c

-- `UnregisterClient`
unfoldable pub unregister_client : ℕ → Serial → Option Serial
unfolding client_of
unregister_client id s = do c ← client_of id s; some (record s { clients = set s.clients id none })

-- `Read`
unfoldable pub request_read : Context → Bool → ℕ → ℕ → Serial → Option (Bool × Serial)
unfolding client_of
request_read c granted id address s = do
  assert (address % s.line_size == 0)
  if not granted then some (false, s) else (do
    client ← client_of id s
    (accepted, b) ←
        push c s.requests
          (record {
            client = id;
            write = false;
            address = address;
            contents = [];
            mask = [];
            wid = 0;
          })
          1
    some (accepted, record s { requests = b }))

-- All clients that are there see the data of a write, until one refuses.
unfoldable pub broadcast : (ℕ → Bool) → List (Option ℕ) → Bool
broadcast snoops [] = true
broadcast snoops (none ∷ cs) = broadcast snoops cs
broadcast snoops (some c ∷ cs) = if snoops c then broadcast snoops cs else false

-- `Write`; `snoops` is what the clients answer to `OnMemorySnooped`.
unfoldable pub request_write :
    Context → Bool → (ℕ → Bool) → ℕ → ℕ → List ℕ → List Bool → ℕ → Serial → Option (Bool × Serial)
unfolding client_of broadcast
request_write c granted snoops id address contents mask wid s = do
  assert (address % s.line_size == 0)
  if not granted then some (false, s) else (do
    client ← client_of id s
    (accepted, b) ←
        push c s.requests
          (record {
            client = id;
            write = true;
            address = address;
            contents = take s.line_size contents;
            mask = take s.line_size mask;
            wid = wid;
          })
          1
    some (if accepted then broadcast snoops s.clients else false, record s { requests = b }))

-- The bytes of a read go to its client.
unfoldable pub replied : Request → Access → List Block → ℕ → Option (Reply × List Block × ℕ)
replied r (bytes xs) bs allocated = some (read_completed r.client r.address xs, bs, allocated)
replied r outside bs allocated = none
replied r unfinished bs allocated = none

-- What a request does to the contents, with the bytes of one line, and the reply to its client. It is
-- done in every phase.
unfoldable pub access : ℕ → Request → List Block → ℕ → Option (Reply × List Block × ℕ)
unfolding replied
access line_size r bs allocated =
    if r.write
    then (do
      (bs', allocated') ←
          Blocks.write r.address (take line_size r.contents) (some (take line_size r.mask)) bs
            allocated
      some (write_completed r.client r.wid, bs', allocated'))
    else replied r (Blocks.read r.address line_size bs) bs allocated

-- The counters of the requests that are done.
unfoldable pub count_done : Bool → Serial → Serial
count_done true s = record s {
  nwrites = (s.nwrites + 1) % word;
  nwrite_bytes = (s.nwrite_bytes + s.line_size) % word;
  next_done = 0;
}
count_done false s = record s {
  nreads = (s.nreads + 1) % word;
  nread_bytes = (s.nread_bytes + s.line_size) % word;
  next_done = 0;
}

-- The client has been called: the request leaves if it accepted the reply.
unfoldable pub answered :
    Context → Bool → Reply → Request → Serial → Option (Result × List Reply × Serial)
unfolding count_done
answered c false reply r s = some (failed, reply ∷ [], s)
answered c true reply r s = do
  b ← pop c s.requests
  let s' : Serial = if is_committing c.phase then count_done r.write s else s
  some (success, reply ∷ [], record s' { requests = b })

-- The request in front is done, and its client is called, which must be there still; `accepts` is what
-- that answers.
unfoldable pub complete :
    Context → (Reply → Bool) → Request → Serial → Option (Result × List Reply × Serial)
unfolding access client_of answered
complete c accepts r s = do
  (reply, bs, allocated) ← access s.line_size r s.blocks s.allocated
  client ← client_of r.client s
  answered c (accepts reply) reply r (record s { blocks = bs; allocated = allocated })

-- `DoRequests`, in the cycle `now` of the clock.
unfoldable pub do_requests :
    Context → (Reply → Bool) → ℕ → Serial → Option (Result × List Reply × Serial)
unfolding complete
do_requests c accepts now s = do
  r ← front s.requests
  if ltb 0 s.next_done
      then if leb s.next_done now then complete c accepts r s else some (success, [], s)
      else some (
        success,
        [],
        if is_committing c.phase
            then record s { next_done = (now + (s.base_request_time + s.time_per_line)) % word }
            else s,
      )
