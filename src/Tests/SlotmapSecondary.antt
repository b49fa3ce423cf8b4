-- ===== src/Tests/SlotmapSecondary.antt =====
-- A secondary map with one occupied and one vacant slot behind the sentinel.
use rustyfill.Prelude.{leb, done, ok, Returns, ℕ, ◌+◌, ◌≡◌, refl, Bool, none, some, [], ◌∷◌, arith}
use rustyfill.Slotmap.Key.{KeyData, IsKey}
use rustyfill.Slotmap.Secondary.{
  SecondaryMap, occupied, vacant, try_insert, try_insert_give_back, remove,
}
use rustyfill.Slotmap.Secondary.Insert.{
  InsertSpec, try_insert_give_back-InsertSpec, try_insert-dropped,
}
use rustyfill.Slotmap.Secondary.Invariant.{IsValid, view, view_slots}
use rustyfill.Slotmap.Secondary.Remove.{Removed, remove_lem}
use rustyfill.Slotmap.Secondary.Retain.{retain, Retained, secondary_retain-Retained}
use rustyfill.Slotmap.Secondary.Drain.{clear, Cleared, clear-first}
use rustyfill.Slotmap.Drain.Retain.{predicate}
use rustyfill.Tests.SlotmapBasic.{unbounded}

abbrev pub attached : SecondaryMap ℕ
attached = record { slots = vacant ∷ occupied 5 3 ∷ vacant ∷ []; num_elems = 1 }

pub attached-IsValid : IsValid attached
attached-IsValid = omega arith

abbrev pub attached_key : KeyData
attached_key = record { idx = 1; version = 3 }

pub attached_key-IsKey : IsKey attached_key
attached_key-IsKey = omega arith

-- A key near the end of the versions.
abbrev late_key : KeyData
late_key = record { idx = 2; version = 2_147_483_649 }

late_key-IsKey : IsKey late_key
late_key-IsKey = omega arith

try_insert_give_back-InsertSpec_example :
    Returns
      (try_insert_give_back unbounded attached attached_key 6)
      (InsertSpec unbounded attached attached_key 6)
try_insert_give_back-InsertSpec_example =
    try_insert_give_back-InsertSpec unbounded attached attached_key 6 attached-IsValid
      attached_key-IsKey

try_insert-dropped_example :
    (try_insert unbounded attached late_key 6 ≡ done (ok none, attached))
    × (view attached late_key ≡ none)
try_insert-dropped_example =
    try_insert-dropped unbounded attached late_key 6 attached-IsValid late_key-IsKey (omega arith)
      refl

remove_lem_example : Returns (remove attached attached_key) (Removed attached attached_key)
remove_lem_example = remove_lem attached attached_key attached-IsValid attached_key-IsKey

pub attached-value : view attached attached_key ≡ some 5
unfolding view_slots
attached-value = ground arith

-- The closure drops values under 3 and counts the others up.
abbrev at_least_three : KeyData → ℕ → Bool × ℕ
at_least_three k v = (leb 3 v, v + 1)

secondary_retain-Retained_example :
    Returns
      (retain (predicate at_least_three) attached tt)
      λ r. Retained at_least_three attached r.0
secondary_retain-Retained_example =
    secondary_retain-Retained at_least_three attached attached-IsValid

-- A value under the key of index 0, which `from_ffi` can make.
abbrev at_zero : SecondaryMap ℕ
at_zero = record { slots = occupied 7 1 ∷ occupied 5 3 ∷ []; num_elems = 2 }

at_zero-IsValid : IsValid at_zero
at_zero-IsValid = omega arith

clear-first_example :
    Returns (clear at_zero) λ o. (m' : SecondaryMap ℕ) × (o ≡ some m') × Cleared at_zero m'
clear-first_example = clear-first at_zero at_zero-IsValid
