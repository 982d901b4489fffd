-- ===== src/Storage/Register.antt =====
-- sim/register.h, sim/register.hpp: a single latch that is full or empty. `none` is a failed
-- assertion.
pub mod Laws
mod Tests
use mgsim.Base.{Bool, true, false, not, Option, none, some, if◌then◌else◌, ◌>>◌, assert}
use mgsim.Storage.{Context, is_committing, Storage, register_update, notify, unnotify}

pub record Register {ℓ} (A : Type ℓ) : Type ℓ where
  pub base : Storage
  pub cur : A
  pub new : A
  pub empty : Bool
  pub cleared : Bool
  pub assigned : Bool

module _ {ℓ} {A : Type ℓ} where
  -- `Read`
  pub read : Register A → Option A
  read r = do assert (not r.empty); some r.cur

  -- `Clear`
  pub clear : Context → Register A → Option (Register A)
  clear c r = do
    assert c.own_clock
    assert (not r.cleared)
    assert (not r.empty)
    some (
        if is_committing c.phase
        then record r { cleared = true; base = register_update r.base }
        else r)

  -- `Write`
  pub write : Context → A → Register A → Option (Register A)
  write c a r = do
    assert c.own_clock
    assert (not r.assigned)
    some (
        if is_committing c.phase
        then record r { new = a; assigned = true; base = register_update r.base }
        else r)

  -- The branch of `Update` for a register that was only cleared.
  pub update_cleared : Register A → Option (Register A)
  update_cleared r = do
    assert r.cleared
    assert (not r.empty)
    some (record r { base = unnotify r.base; empty = true; cleared = false })

  -- `Update`
  pub update : Register A → Option (Register A)
  unfolding update_cleared
  update r =
      if r.assigned
      then some (record r {
        base = if r.empty then notify r.base else r.base;
        empty = false;
        cur = r.new;
        assigned = false;
        cleared = false;
      })
      else update_cleared r
