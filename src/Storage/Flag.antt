-- ===== src/Storage/Flag.antt =====
-- sim/flag.h, sim/flag.hpp, sim/flag.cpp: a Boolean that a cycle may set or clear once.
pub mod Laws
mod Tests
use mgsim.Base.{ℕ, ◌+◌, ◌*◌, ◌%◌, Bool, true, false, not, ◌&&◌, if◌then◌else◌}
use mgsim.Storage.{
  Context, is_committing, is_acquiring, Storage, register_update, notify, unnotify, word, elapsed,
}

pub record Flag : Type 0 where
  pub base : Storage
  pub is_set : Bool
  pub updated : Bool
  pub new : Bool
  pub stalls : ℕ
  pub last_cycle : ℕ
  pub total_size : ℕ

-- `Set` and `Clear`, which differ in the value that they note.
pub note : Bool → Context → Flag → Bool × Flag
note v c f =
    if not f.updated
    then (
      true,
      if is_committing c.phase
          then record f { new = v; updated = true; base = register_update f.base }
          else f,
    )
    else (false, if is_acquiring c.phase then record f { stalls = (f.stalls + 1) % word } else f)

pub set : Context → Flag → Bool × Flag
unfolding note
set c f = note true c f

pub clear : Context → Flag → Bool × Flag
unfolding note
clear c f = note false c f

-- `Update`, at the kernel's cycle number.
pub update : ℕ → Flag → Flag
update cycle f = record f {
  base =
      if f.new && not f.is_set
      then notify f.base
      else if f.is_set && not f.new
      then unnotify f.base
      else f.base;
  is_set = f.new;
  updated = false;
  last_cycle = cycle;
  total_size = (f.total_size + (if f.new then elapsed cycle f.last_cycle else 0)) % word;
}

-- The constructor: a flag that starts out set is empty until its first update.
pub create : Bool → Storage → Flag
create v s = record {
  base = if v then register_update s else s;
  is_set = false;
  updated = false;
  new = v;
  stalls = 0;
  last_cycle = 0;
  total_size = 0;
}
