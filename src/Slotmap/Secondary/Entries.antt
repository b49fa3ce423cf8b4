-- ===== src/Slotmap/Secondary/Entries.antt =====
-- The entries of a secondary map, mutable access, indexing and `extend`. A reference into the map
-- is the value that it shows, beside the map.
pub mod Lookup
pub mod Insertion
use rustyfill.Prelude.{
  ◌==◌, if◌then◌else◌, get_elem?, set, Outcome, done, panic, ub, ◌>>=◌, Allocator, Option, none,
  some, List, [], ◌∷◌,
}
use rustyfill.Slotmap.Key.{KeyData}
use rustyfill.Slotmap.Secondary.{
  Slot, occupied, vacant, SecondaryMap, Entry, occupied_entry, vacant_entry, slot_version,
  get_unchecked_slot, get, occupied_insert, occupied_remove, vacant_insert, try_insert,
}

unfoldable pub entry_key : Entry → KeyData
entry_key (occupied_entry kd) = kd
entry_key (vacant_entry kd) = kd

module _ {ℓ} {V : Type ℓ} where
  -- `SecondaryMap::get_unchecked`, which is `OccupiedEntry::get`, and its mutable twin, which is
  -- `OccupiedEntry::get_mut` and `into_mut`.
  unfoldable pub get_unchecked : SecondaryMap V → KeyData → Outcome V
  get_unchecked m kd = elim (get_elem? m.slots kd.idx) [ none ↦ ub | some s ↦ get_unchecked_slot s ]

  -- The closure is called for a vacant entry only, and may panic.
  unfoldable pub or_insert_with : SecondaryMap V → Entry → Outcome V → Outcome (V × SecondaryMap V)
  unfolding get_unchecked
  or_insert_with m (occupied_entry kd) default = do v ← get_unchecked m kd; done (v, m)
  or_insert_with m (vacant_entry kd) default = do
    v ← default
    m' ← vacant_insert m kd v
    w ← get_unchecked m' kd
    done (w, m')

  unfoldable pub or_insert : SecondaryMap V → Entry → V → Outcome (V × SecondaryMap V)
  unfolding or_insert_with
  or_insert m e v = or_insert_with m e (done v)

  -- `f` says what the closure leaves in the value.
  unfoldable pub and_modify : SecondaryMap V → Entry → (V → V) → Outcome (Entry × SecondaryMap V)
  unfolding get_unchecked
  and_modify m (occupied_entry kd) f = do
    v ← get_unchecked m kd
    (old, m') ← occupied_insert m kd (f v)
    done (occupied_entry kd, m')
  and_modify m (vacant_entry kd) f = done (vacant_entry kd, m)

  unfoldable pub remove_entry : SecondaryMap V → KeyData → Outcome ((KeyData × V) × SecondaryMap V)
  remove_entry m kd = do (v, m') ← occupied_remove m kd; done ((kd, v), m')

  -- `write_slot v` is `Slot::get_unchecked_mut` and a write of `v` through it.
  abbrev pub write_slot : V → Slot V → Slot V
  write_slot w (occupied v version) = occupied w version
  write_slot w vacant = vacant

  -- The value under a key, and what a write through the reference leaves of the map.
  unfoldable pub get_mut : SecondaryMap V → KeyData → Outcome (Option (V × (V → SecondaryMap V)))
  get_mut m key = elim (get_elem? m.slots key.idx) [
    | none ↦ done none
    | some s ↦
        if slot_version s == key.version
        then (get_unchecked_slot s >>= λ v.
            done (some (v, λ w. record m { slots = set m.slots key.idx (write_slot w s) })))
        else done none
  ]

  unfoldable pub index : SecondaryMap V → KeyData → Outcome V
  index m key = do r ← get m key; elim r [ some v ↦ done v | none ↦ panic ]

  -- Each pair comes with what the allocator answers in its insertion.
  unfoldable pub extend {κ} :
      {R : Type κ} → SecondaryMap V → List (Allocator R × KeyData × V) → Outcome (SecondaryMap V)
  extend m [] = done m
  extend m ((a, key, v) ∷ es) = do (r, m') ← try_insert a m key v; extend m' es
