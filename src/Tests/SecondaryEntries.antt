-- ===== src/Tests/SecondaryEntries.antt =====
-- Iteration over a secondary map, its equality and its entries, at the map of one value.
use rustyfill.Prelude.{◌==◌, ==_iff, Returns, ◌≡◌, ◌↔◌, Bool, true, none, some, arith}
use rustyfill.Slotmap.Key.{KeyData, IsKey}
use rustyfill.Slotmap.Secondary.Invariant.{view, view_slots}
use rustyfill.Slotmap.Secondary.Iter.{eq}
use rustyfill.Slotmap.Secondary.Iter.Equality.{eq-view}
use rustyfill.Tests.SlotmapSecondary.{attached, attached-IsValid}

-- A key of the vacant slot 2.
abbrev free_key : KeyData
free_key = record { idx = 2; version = 1 }

free_key-IsKey : IsKey free_key
free_key-IsKey = omega arith

free_key-view : view attached free_key ≡ none
unfolding view_slots
free_key-view = ground arith

eq-view_example : Returns (eq ◌==◌ attached attached) λ o.
    (b : Bool) × (o ≡ some b) × ((b ≡ true) ↔ ((k : KeyData) → view attached k ≡ view attached k))
eq-view_example = eq-view ◌==◌ ==_iff attached attached-IsValid attached attached-IsValid
