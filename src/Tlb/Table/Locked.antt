-- ===== src/Tlb/Table/Locked.antt =====
-- arch/drisc/mmu/Table.cpp: lines that are locked are not overwritten.
use mgsim.Base.{ℕ, ◌≡◌, ◌≢◌, refl, ◌∙◌, Bool, true, false, Option, none, some, get_elem?}
use mgsim.Storage.{commit}
use mgsim.Tlb.Address.{RAddr, strict_expect}
use mgsim.Tlb.Table.{Line, Table, modify}
use mgsim.Tlb.Table.Links.{get_elem?-modify_ne, get_elem?-modify_self}
use mgsim.Tlb.Table.Store.{
  pick_destination, free_line, not_present, normal_line, pending_line, store_normal, store_pending,
}

-- Every locked line is as it was.
pub LockedKept : Table → Table → Type 0
LockedKept t t' =
    (j : ℕ) (line : Line)
    → get_elem? t.lines j ≡ some line
    → line.locked ≡ true
    → get_elem? t'.lines j ≡ some line

-- Two writes of a line that is not locked.
twice-LockedKept :
    (f h : Line → Line) (i : ℕ) (t t' : Table) (line : Line)
    → get_elem? t.lines i ≡ some line
    → line.locked ≡ false
    → t'.lines ≡ modify h i (modify f i t.lines)
    → LockedKept t t'
unfolding LockedKept
twice-LockedKept f h i t t' line e n m j k g l =
    let ne : i ≢ j = λ q. differ i j line k q e n g l in
    rw m (
      get_elem?-modify_ne h i j (modify f i t.lines) ne
      ∙ (get_elem?-modify_ne f i j t.lines ne ∙ g))
  where
    differ :
        (i j : ℕ) (line k : Line)
        → i ≡ j
        → get_elem? t.lines i ≡ some line
        → line.locked ≡ false
        → get_elem? t.lines j ≡ some k
        → k.locked ≡ true
        → ⊥
    differ i j line k q e n g l = cc

-- What a store does with the line it is to overwrite, in the commit phase.
pub record Stored (f : Line → Line) (i : ℕ) (line : Line) (t : Table)
    (r : Option (Option ℕ × Table)) : Type 0 where
  pub refused : line.locked ≡ true → r ≡ some (none, t)
  pub accepted :
      line.locked ≡ false
      → (t' : Table) × (r ≡ some (some i, t'))
        × (get_elem? t'.lines i ≡ some (f line))
        × LockedKept t t'

-- The addresses have the widths of the table.
pub record Widths (context virtual : RAddr) (t : Table) : Type 0 where
  pub context_fits : strict_expect t.context_width context ≡ some tt
  pub virtual_fits : strict_expect t.virtual_width virtual ≡ some tt

-- `storePending` in the commit phase, of addresses that have the widths of the table, with the line
-- `i` to overwrite: if that line is locked the answer is none and nothing changes; else the line is
-- locked and holds the pending addresses, and every line that was locked is as it was.
pub store_pending-Stored :
    (context virtual : RAddr) (i : ℕ) (line : Line) (t : Table)
    → Widths context virtual t
    → pick_destination t ≡ some i
    → get_elem? t.lines i ≡ some line
    → Stored (pending_line context virtual) i line t (store_pending commit context virtual t)
unfolding store_pending free_line
store_pending-Stored context virtual i line t w p g =
    let emptied = modify not_present i t.lines in
    record {
      refused = λ l. rw (w.context_fits, w.virtual_fits, p, g, l) refl;
      accepted = λ l.
          let t' : Table = record t { lines = modify (pending_line context virtual) i emptied } in
          (
            t',
            rw (w.context_fits, w.virtual_fits, p, g, l) refl,
            get_elem?-modify_self (pending_line context virtual) i emptied (not_present line)
                (get_elem?-modify_self not_present i t.lines line g),
            twice-LockedKept not_present (pending_line context virtual) i t t' line g l refl,
          );
    }

-- `storeNormal` in the commit phase, of addresses that have the widths of the table, with the line `i`
-- to overwrite: if that line is locked the answer is none and nothing changes; else the line is
-- present, locked and holds the translation, and every line that was locked is as it was.
pub store_normal-Stored :
    (context virtual physical : RAddr) (read write : Bool) (i : ℕ) (line : Line) (t : Table)
    → Widths context virtual t
    → strict_expect t.physical_width physical ≡ some tt
    → pick_destination t ≡ some i
    → get_elem? t.lines i ≡ some line
    → Stored
        (normal_line context virtual physical read write)
        i
        line
        t
        (store_normal commit context virtual physical read write t)
unfolding store_normal free_line
store_normal-Stored context virtual physical read write i line t w x p g =
    let emptied = modify not_present i t.lines in
    let f = normal_line context virtual physical read write in
    record {
      refused = λ l. rw (w.context_fits, w.virtual_fits, x, p, g, l) refl;
      accepted = λ l.
          let t' : Table = record t { lines = modify f i emptied } in
          (
            t',
            rw (w.context_fits, w.virtual_fits, x, p, g, l) refl,
            get_elem?-modify_self f i emptied (not_present line)
                (get_elem?-modify_self not_present i t.lines line g),
            twice-LockedKept not_present f i t t' line g l refl,
          );
    }
