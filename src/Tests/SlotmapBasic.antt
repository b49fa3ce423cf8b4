-- ===== src/Tests/SlotmapBasic.antt =====
-- A slot map of two slots behind the sentinel, one occupied and one free.
use rustyfill.Prelude.{
  ltb, length, Outcome, done, panic, ◌>>=◌, Result, ok, Returns, Allocator, ℕ, ◌+◌, ◌*◌, ◌≡◌, refl,
  ◌⊎◌, Bool, none, some, [], ◌∷◌, arith,
}
use rustyfill.Slotmap.Key
use rustyfill.Slotmap.Key.{KeyData, IsKey}
use rustyfill.Slotmap.Basic.{
  SlotMap, value, next_free, insert_inner, try_insert, remove, remove_from_slot, detach, reattach,
  contains_key,
}
use rustyfill.Slotmap.Basic.Detach.{
  IsDetached, Reattached, reattach-ReattachCases, Restored, detach-reattach,
}
use rustyfill.Slotmap.Basic.Insert.{InsertSpec, insert_inner-InsertSpec}
use rustyfill.Slotmap.Basic.Invariant.{IsValid}
use rustyfill.Slotmap.Basic.Remove.{Removed, remove-Removed}
use rustyfill.Slotmap.Basic.Reuse.{Reused, remove-insert_inner}
use rustyfill.Slotmap.Basic.View.{view, view_slots}
use rustyfill.Slotmap.Disjoint.{get_disjoint_mut}
use rustyfill.Slotmap.Disjoint.Restore.{AllDisjoint, get_disjoint_mut-AllDisjoint}
use rustyfill.Slotmap.Drain.{retain, clear}
use rustyfill.Slotmap.Drain.Clear.{Cleared, clear-Cleared}
use rustyfill.Slotmap.Drain.Retain.{predicate, Retained, retain-Retained}

abbrev pub unbounded : Allocator ℕ
unbounded = record { capacity_overflow = 7; with_capacity = λ _. none; try_reserve = λ _ _. none }

abbrev sample : SlotMap ℕ
sample = record {
  slots =
      record { u = next_free 0; version = 0 }
      ∷ record { u = value 10; version = 1 }
      ∷ record { u = next_free 3; version = 2 }
      ∷ [];
  free_head = 2;
  num_elems = 1;
}

sample-IsValid : IsValid sample (2 ∷ [])
sample-IsValid = record {
  sentinel = refl;
  bounded = omega arith;
  slots_valid = omega arith;
  counted = refl;
  freelist = (refl, omega arith, tt, (3, refl, refl));
}

abbrev key : KeyData
key = record { idx = 1; version = 1 }

key-IsKey : IsKey key
key-IsKey = omega arith

key-view : view sample key ≡ some 10
unfolding view_slots
key-view = refl

inserted : Outcome (Result KeyData ℕ × SlotMap ℕ)
inserted = try_insert unbounded sample 20

-- The freed slot is reused under its next odd version.
inserted_key : (inserted >>= λ r. done r.0) ≡ done (ok (record { idx = 2; version = 3 }))
unfolding inserted try_insert insert_inner Key.new
inserted_key = refl

removed_value : (remove sample key >>= λ r. done r.0) ≡ done (some 10)
unfolding remove contains_key remove_from_slot
removed_value = refl

abbrev twice_index : KeyData → Result ℕ ℕ
twice_index k = ok (k.idx * 2)

insert_inner-InsertSpec_example :
    Returns (insert_inner unbounded sample twice_index) (InsertSpec unbounded sample twice_index)
insert_inner-InsertSpec_example =
    insert_inner-InsertSpec unbounded sample twice_index (2 ∷ []) sample-IsValid

remove-Removed_example : Returns (remove sample key) (Removed sample key)
remove-Removed_example = remove-Removed sample (2 ∷ []) key sample-IsValid key-IsKey

reattach-ReattachCases_example :
    (IsDetached sample key × Returns (reattach sample key 5) (Reattached sample key 5))
    ⊎ ((¬ IsDetached sample key) × (reattach sample key 5 ≡ panic))
reattach-ReattachCases_example =
    reattach-ReattachCases sample (2 ∷ []) key 5 sample-IsValid key-IsKey

detach-reattach_example : Returns (detach sample key >>= λ r. reattach r.1 key 10) (Restored sample)
detach-reattach_example = detach-reattach sample (2 ∷ []) key 10 sample-IsValid key-IsKey key-view

abbrev keep_small : KeyData → ℕ → Bool × ℕ
keep_small k v = (ltb v 15, v + 1)

retain-Retained_example :
    Returns (retain (predicate keep_small) sample tt) λ r. Retained keep_small sample r.0
retain-Retained_example = retain-Retained keep_small sample (2 ∷ []) sample-IsValid

clear-Cleared_example :
    Returns
      (clear sample)
      λ o. (m' : SlotMap ℕ) × (o ≡ some m') × Cleared m' × (length m'.slots ≡ 3)
clear-Cleared_example = clear-Cleared sample (2 ∷ []) sample-IsValid

get_disjoint_mut-AllDisjoint_example :
    ((get_disjoint_mut sample (key ∷ [])).1 ≡ sample)
    × (AllDisjoint sample (key ∷ []) × ((get_disjoint_mut sample (key ∷ [])).0 ≡ some (1 ∷ []))
        ⊎ (¬ AllDisjoint sample (key ∷ [])) × ((get_disjoint_mut sample (key ∷ [])).0 ≡ none))
get_disjoint_mut-AllDisjoint_example =
    get_disjoint_mut-AllDisjoint sample (key ∷ []) (key-IsKey, tt)

remove-insert_inner_example :
    Returns
      (remove sample key >>= λ r. insert_inner unbounded r.1 twice_index)
      (Reused sample key 2)
remove-insert_inner_example =
    remove-insert_inner unbounded sample (2 ∷ []) key 10 2 twice_index sample-IsValid key-IsKey
      key-view refl
