-- ===== src/Memory/Serial/Tests.antt =====
-- A serial memory (arch/mem/SerialMemory.cpp) with a write and a read that wait.
use mgsim.Base.{ℕ, ◌≡◌, refl, true, false, some, List, [], ◌∷◌, arith, replicate}
use mgsim.Storage.{committing, acquire}
use mgsim.Storage.Buffer.{Buffer, front, pop, infinite}
use mgsim.Kernel.Step.{success}
use mgsim.Memory.Blocks.{
  Block, lower_bound, read_loop, read, write_bytes, write_block, has_block, write_loop, write,
  zeroes,
}
use mgsim.Memory.Serial.{
  Request, Reply, read_completed, write_completed, Serial, client_of, replied, access, count_done,
  answered, complete, do_requests,
}
use mgsim.Memory.Serial.Order.{turns, in_order, Waits, turns-in_order}
use mgsim.Memory.Serial.Phases.{do_requests_again}

-- Two bytes are written to address 8, and read.
abbrev put : Request
put = record {
  client = 0;
  write = true;
  address = 8;
  contents = 5 ∷ 6 ∷ [];
  mask = true ∷ true ∷ [];
  wid = 3;
}

abbrev fetch : Request
fetch = record { client = 1; write = false; address = 8; contents = []; mask = []; wid = 0 }

abbrev queue : Buffer Request
queue = record {
  base = record { activated = false; calls = [] };
  max_size = infinite;
  max_pushes = 1;
  items = put ∷ fetch ∷ [];
  pushes = 0;
  new = replicate 4 put;
  popped = false;
  stalls = 0;
  last_cycle = 0;
  total_size = 0;
  max_eff_size = 0;
  cur_size = 2;
}

abbrev memory : ℕ → Serial
memory timer = record {
  clients = some 10 ∷ some 11 ∷ [];
  requests = queue;
  base_request_time = 1;
  time_per_line = 2;
  line_size = 2;
  next_done = timer;
  nreads = 0;
  nread_bytes = 0;
  nwrites = 0;
  nwrite_bytes = 0;
  blocks = [];
  allocated = 0;
}

abbrev written : List Block
written = (0, write_bytes zeroes 8 (5 ∷ 6 ∷ []) (some (true ∷ true ∷ []))) ∷ []

abbrev replies : List Reply
replies = write_completed 0 3 ∷ read_completed 1 8 (5 ∷ 6 ∷ []) ∷ []

code : Unit {0}
unfolding lower_bound read_loop read write_bytes write_block has_block write_loop write client_of
    replied access count_done answered complete do_requests front pop
code = tt

in_order-replies : in_order 2 (put ∷ fetch ∷ []) [] 0 ≡ some (replies, written, 4096)
unfolding code in_order
in_order-replies = refl

turns-in_order_example :
    (s' : Serial) × (turns (λ reply. true) 8 1 (memory 0) ≡ some (replies, s'))
    × Waits 3 2 [] 0 written 4096 s'
turns-in_order_example =
    turns-in_order (λ reply. true) (λ reply. refl) 3 2 (put ∷ fetch ∷ []) 1 replies [] written 0
      4096 (memory 0) (omega arith) (omega arith)
      (record {
        requests = record { items = refl; idle = record { no_pushes = refl; no_pop = refl } };
        timer = refl;
        contents = refl;
        total = refl;
        lines = refl;
        duration = refl;
        present = ((10, refl), ((11, refl), tt));
      })
      in_order-replies

-- In the acquire phase the write is made already, and in the commit phase once more.
abbrev early : Serial
early = record (memory 4) { blocks = written; allocated = 4096 }

do_requests-early :
    do_requests (record { phase = acquire; own_clock = true }) (λ reply. true) 4 (memory 4)
    ≡ some (success, write_completed 0 3 ∷ [], early)
unfolding code
do_requests-early = refl

front-put : front queue ≡ some put
unfolding code
front-put = refl

do_requests_again_example :
    do_requests (committing true) (λ reply. true) 4 early
    ≡ do_requests (committing true) (λ reply. true) 4 (memory 4)
do_requests_again_example =
    do_requests_again (record { phase = acquire; own_clock = true }) (committing true)
      (λ reply. true) (λ reply. true) 4 put (memory 4) early success (write_completed 0 3 ∷ []) refl
      front-put (omega arith) do_requests-early
