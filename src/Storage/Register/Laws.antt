-- ===== src/Storage/Register/Laws.antt =====
-- sim/register.hpp: a cycle of a register against an optional value.
use mgsim.Base.{
  ◌≡◌, refl, Bool, true, false, not, ◌||◌, Option, none, some, if◌then◌else◌, ◌>>=◌, arith, ◌⊎◌,
  inl, inr,
}
use mgsim.Storage.{Storage, committing, register_update, notify, unnotify}
use mgsim.Storage.Wake.{IsAwake, register_update-IsAwake, wake_if, unnotify-IsAwake}
use mgsim.Storage.Register.{Register, clear, write, update, update_cleared}

module _ {A : Type 0} where
  -- The value that a reader sees.
  abbrev pub value : Register A → Option A
  value r = if r.empty then none else some r.cur

  pub record IsIdle (r : Register A) : Type 0 where
    pub not_cleared : r.cleared ≡ false
    pub not_assigned : r.assigned ≡ false

  abbrev pub IsSensitive : Register A → Type 0
  IsSensitive r = IsAwake r.base (not r.empty)

  -- What the processes of a cycle do: one may clear the register, another may write it.
  clear_if : Bool → Register A → Option (Register A)
  clear_if true r = clear (committing true) r
  clear_if false r = some r

  write_if : Option A → Register A → Option (Register A)
  write_if none r = some r
  write_if (some a) r = write (committing true) a r

  -- `Update` runs only if something was noted.
  pub cycle : Bool → Option A → Register A → Option (Register A)
  cycle clears writes r = do
    r1 ← clear_if clears r
    r2 ← write_if writes r1
    if r2.cleared || r2.assigned then update r2 else some r2

  -- The optional value behind a cycle: a write wins over a clear.
  abbrev pub next : Bool → Option A → Option A → Option A
  next clears (some a) v = some a
  next true none v = none
  next false none v = v

  -- A register behind a cycle that took it to a value.
  pub record Reached (v : Option A) (r : Register A) : Type 0 where
    pub value_eq : value r ≡ v
    pub idle : IsIdle r
    pub sensitive : IsSensitive r

  full_of : Register A → A → Storage → Register A
  full_of r a b = record {
    base = if r.empty then notify b else b;
    cur = a;
    new = a;
    empty = false;
    cleared = false;
    assigned = false;
  }

  emptied : Register A → Storage → Register A
  emptied r b = record r { base = b; empty = true; cleared = false; assigned = false }

  -- Of a register between cycles whose process is active exactly while it is full: a cycle in which
  -- an empty register is not cleared fails no assertion, and takes the register
  -- to the value written, else to nothing if it was cleared, else leaves it; its process stays
  -- active exactly while the register is full.
  pub cycle-next :
      (clears : Bool) (writes : Option A) (r : Register A)
      → IsIdle r
      → IsSensitive r
      → (clears ≡ false) ⊎ (r.empty ≡ false)
      → (r' : Register A) × (cycle clears writes r ≡ some r')
        × Reached (next clears writes (value r)) r'
  unfolding full_of emptied cycle clear_if write_if clear write update update_cleared
  cycle-next true (some a) r i s h =
      let b = register_update (register_update r.base) in
      let p = register_update-IsAwake r.base (not r.empty) s in
      let q = register_update-IsAwake (register_update r.base) (not r.empty) p in
      (full_of r a b, ground arith, ground (arith, wake_if b r.empty q))
  cycle-next false (some a) r i s h =
      let b = register_update r.base in
      let p = register_update-IsAwake r.base (not r.empty) s in
      (full_of r a b, ground arith, ground (arith, wake_if b r.empty p))
  cycle-next true none r i s (inl h) = absurd (cc)
  cycle-next true none r i s (inr h) =
      let b = register_update r.base in
      let p = register_update-IsAwake r.base (not r.empty) s in
      (emptied r (unnotify b), ground arith, ground (arith, unnotify-IsAwake b))
  cycle-next false none r i s h =
      (r, ground arith, record { value_eq = refl; idle = i; sensitive = s })
