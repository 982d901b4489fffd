-- ===== src/Storage/Buffer/Tests.antt =====
-- Runs of sim/buffer.hpp on concrete inputs.
use mgsim.Base.{ℕ, ◌≡◌, refl, inr, true, false, some, List, [], ◌∷◌, ◌++◌, arith}
use mgsim.Storage.{
  Context, acquire, activate_process, deactivate_process, notify, unnotify, committing,
}
use mgsim.Storage.Buffer.{
  Buffer, is_empty, has_room, push, push_room, update, effect_pushes, effect_pop, pop_front,
  finish_update,
}
use mgsim.Storage.Buffer.Valid.{IsValid}
use mgsim.Storage.Buffer.Answer.{Answered, push-Answered}
use mgsim.Storage.Buffer.Fifo.{Cycle, IsIdle, run, run_fifo}

-- A buffer of two places that holds 7, with its process awake.
abbrev two_places : Buffer ℕ
two_places = record {
  base = record { activated = false; calls = activate_process ∷ [] };
  max_size = 2;
  max_pushes = 2;
  items = 7 ∷ [];
  pushes = 0;
  new = 0 ∷ 0 ∷ 0 ∷ 0 ∷ [];
  popped = false;
  stalls = 0;
  last_cycle = 0;
  total_size = 0;
  max_eff_size = 1;
  cur_size = 1;
}

abbrev two_places-IsValid : IsValid two_places
two_places-IsValid = record {
  slots = refl;
  some_pushes = omega arith;
  few_pushes = omega arith;
  pushes_in = omega arith;
  sized = omega arith;
  fits = inr (omega arith);
}

-- The first cycle pushes 8 and 9, for one of which there is room; the second takes an item and pushes.
abbrev two_cycles : List (Cycle ℕ)
two_cycles =
    record { number = 1; pushes = (8, 1) ∷ (9, 1) ∷ []; pops = false }
    ∷ record { number = 2; pushes = (5, 1) ∷ []; pops = true }
    ∷ []

run_fifo_example :
    (taken accepted : List ℕ) × (b' : Buffer ℕ) × (run two_cycles two_places
      ≡ some (taken, accepted, b'))
    × (taken ++ b'.items ≡ two_places.items ++ accepted)
    × IsValid b'
    × IsIdle b'
run_fifo_example =
    run_fifo two_cycles two_places two_places-IsValid (record { no_pushes = refl; no_pop = refl })
      (
        (omega arith, omega arith, (omega arith, omega arith, tt)),
        omega arith,
        ((omega arith, omega arith, tt), omega arith, tt),
      )
      (omega arith)

-- A push of 9 for two places is refused in the acquire phase, and again in the commit phase.
abbrev acquiring : Context
acquiring = record { phase = acquire; own_clock = true }

push-refused : push acquiring two_places 9 2 ≡ some (false, record two_places { stalls = 1 })
unfolding push push_room has_room
push-refused = refl

push-accepted : push acquiring two_places 9 1 ≡ some (true, two_places)
unfolding push push_room has_room
push-accepted = refl

push-Answered_example :
    (b' : Buffer ℕ) × (push (committing true) two_places 9 1 ≡ some (true, b'))
    × Answered two_places 9 1 true b'
push-Answered_example =
    push-Answered acquiring two_places two_places 9 1 true refl two_places-IsValid (omega arith)
      push-accepted

abbrev popped_one : Buffer ℕ
popped_one = record two_places { popped = true }

abbrev popped_one-IsValid : IsValid popped_one
popped_one-IsValid = record {
  slots = refl;
  some_pushes = omega arith;
  few_pushes = omega arith;
  pushes_in = omega arith;
  sized = omega arith;
  fits = inr (omega arith);
}

abbrev behind_pop : Buffer ℕ
behind_pop = record two_places {
  base = record { activated = false; calls = deactivate_process ∷ activate_process ∷ [] };
  items = [];
  last_cycle = 3;
  cur_size = 0;
}

update_run : update 3 popped_one ≡ some behind_pop
unfolding update effect_pushes effect_pop pop_front finish_update is_empty notify unnotify
update_run = refl
