-- ===== src/Storage/LinkedList/Tests.antt =====
-- Runs of the queries of sim/linkedlist.hpp.
use mgsim.Base.{ℕ, ◌≡◌, refl, true, false, some, []}
use mgsim.Storage.{committing}
use mgsim.Storage.LinkedList.{LinkedList, singular, front, push, append}

abbrev five_on : ℕ → LinkedList
five_on last = record {
  base = record { activated = false; calls = [] };
  empty = false;
  popped = false;
  pushed = false;
  head = 5;
  tail = last;
  next = 0;
  first = 0;
  last = 0;
}

singular_run : (singular (five_on 5) ≡ some true) × (singular (five_on 6) ≡ some false)
unfolding singular
singular_run = (refl, refl)

front_run : front (five_on 6) ≡ some 5
unfolding front
front_run = refl

push_run : push (committing true) 7 (five_on 6) ≡ append (committing true) 7 7 (five_on 6)
unfolding push
push_run = refl
