-- ===== src/Storage/Register/Tests.antt =====
-- A run of `Read` of sim/register.hpp.
use mgsim.Base.{ℕ, ◌≡◌, refl, Bool, true, false, none, some, []}
use mgsim.Storage.Register.{Register, read}

abbrev holding : Bool → Register ℕ
holding e = record {
  base = record { activated = false; calls = [] };
  cur = 4;
  new = 0;
  empty = e;
  cleared = false;
  assigned = false;
}

read_run : (read (holding false) ≡ some 4) × (read (holding true) ≡ none)
unfolding read
read_run = (refl, refl)
