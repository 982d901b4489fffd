-- ===== src/Tlb/Table/Pending.antt =====
-- arch/drisc/mmu/Table.cpp: what a pending line remembers until its translation arrives.
use mgsim.Base.{ℕ, ◌≡◌, refl, Bool, true, false, Option, some, ◌>>=◌, get_elem?, ◌==◌, arith}
use mgsim.Storage.{commit}
use mgsim.Tlb.Address.{RAddr, strict_expect}
use mgsim.Tlb.Table.{Line, Table, modify, matches, has_tag, n_locked}
use mgsim.Tlb.Table.Links.{get_elem?-modify_self}
use mgsim.Tlb.Table.Locked.{Widths}
use mgsim.Tlb.Table.Store.{
  pick_destination, pending_line, filled_line, free_line, not_present, store_pending,
  set_data_reference, get_pending, fill_pending,
}

-- A miss: the line is pending, and gets the reference of the data cache's line.
pub miss : RAddr → RAddr → ℕ → Table → Option Table
miss context virtual reference t = do
  r ← store_pending commit context virtual t
  i ← r.0
  set_data_reference i reference r.1

-- What is known of a line after a miss.
pub record Awaits (context virtual : RAddr) (reference : ℕ) (id : RAddr) (t : Table) : Type 0 where
  pub asks : get_pending id t ≡ some (some (reference, context, virtual))
  pub refill :
      (read write : Bool) (physical : RAddr)
      → strict_expect t.physical_width physical ≡ some tt
      → (line : Line) × (t' : Table) × (fill_pending commit id read write physical t
          ≡ some (reference, t'))
        × (get_elem? t'.lines id.value ≡ some line)
        × (matches (some context) (some virtual) n_locked line ≡ true)
        × (line.physical_address ≡ physical)
        × (line.read ≡ read)
        × (line.write ≡ write)

same_value_self : (a : ℕ) → (a == a) ≡ true
same_value_self a = ground arith

awaits_lem :
    (context virtual : RAddr) (reference : ℕ) (id : RAddr) (line : Line) (t : Table)
    → strict_expect t.index_width id ≡ some tt
    → get_elem? t.lines id.value ≡ some line
    → line.present ≡ false
    → line.locked ≡ true
    → line.context_id ≡ context
    → line.virtual_address ≡ virtual
    → line.data_line ≡ reference
    → Awaits context virtual reference id t
unfolding get_pending fill_pending matches has_tag
awaits_lem context virtual reference id line t x g p l c v d = record {
  asks = rw (x, g, p, l, c, v, d) refl;
  refill = λ read write physical y.
      let f = filled_line read write physical in
      let lines = modify f id.value t.lines in
      (
        f line,
        record t { lines = lines },
        rw (y, x, g, p, l, d) refl,
        get_elem?-modify_self f id.value t.lines line g,
        rw (l, c, v, same_value_self context.value, same_value_self virtual.value) refl,
        refl,
        refl,
        refl,
      );
}

-- A miss of addresses that have the widths of the table, where the line to overwrite is not locked:
-- the line `id` then is pending for those addresses and that reference, and the refill of it, if the
-- physical address has the width of the table, answers the reference and leaves a line that is present
-- and locked, matches the addresses and holds the translation.
pub miss-Awaits :
    (context virtual : RAddr) (reference : ℕ) (id : RAddr) (line : Line) (t : Table)
    → Widths context virtual t
    → strict_expect t.index_width id ≡ some tt
    → pick_destination t ≡ some id.value
    → get_elem? t.lines id.value ≡ some line
    → line.locked ≡ false
    → (t' : Table) × (miss context virtual reference t ≡ some t')
      × Awaits context virtual reference id t'
unfolding miss store_pending set_data_reference free_line
miss-Awaits context virtual reference id line t w x p g l =
    let f = pending_line context virtual in
    let refer : Line → Line = λ k. record k { data_line = reference } in
    let emptied = modify not_present id.value t.lines in
    let stored = modify f id.value emptied in
    let before =
      get_elem?-modify_self f id.value emptied (not_present line)
        (get_elem?-modify_self not_present id.value t.lines line g) in
    let t' : Table = record t { lines = modify refer id.value stored } in
    (
      t',
      rw (w.context_fits, w.virtual_fits, p, g, l, before) refl,
      awaits_lem context virtual reference id (refer (f (not_present line))) t' x
          (get_elem?-modify_self refer id.value stored (f (not_present line)) before) refl refl refl
          refl refl,
    )
