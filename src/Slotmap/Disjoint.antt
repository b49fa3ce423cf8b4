-- ===== src/Slotmap/Disjoint.antt =====
-- `get_disjoint_mut` of `rustyfill/src/collections/slotmap/basic.rs`: two loops over the keys, the
-- first of which marks the slots that it has handed out. A pointer is the index of its slot.
pub mod Restore
use rustyfill.Prelude.{
  if◌then◌else◌, ℕ, zero, suc, Bool, true, false, Option, none, some, List, [], ◌∷◌, map,
}
use rustyfill.Slotmap.Key.{KeyData, xor_one}
use rustyfill.Slotmap.Basic.{Slot, SlotMap, contains_key}

module _ {ℓ} {V : Type ℓ} where
  -- `slots[i].version ^= 1` through the raw pointer.
  flip : List (Slot V) → ℕ → List (Slot V)
  flip [] i = []
  flip (s ∷ ss) zero = record s { version = xor_one s.version } ∷ ss
  flip (s ∷ ss) (suc i) = s ∷ flip ss i

  -- The first loop: the map, the keys that it went through, and whether those are all.
  mark : SlotMap V → List KeyData → SlotMap V × List KeyData × Bool
  unfolding flip
  mark m [] = (m, [], true)
  mark m (k ∷ ks) =
      let rest = mark (record m { slots = flip m.slots k.idx }) ks in
      if contains_key m k then (rest.0, k ∷ rest.1, rest.2) else (m, [], false)

  -- The second loop.
  unmark : SlotMap V → List KeyData → SlotMap V
  unfolding flip
  unmark m [] = m
  unmark m (k ∷ ks) = unmark (record m { slots = flip m.slots k.idx }) ks

  unfoldable pub get_disjoint_mut : SlotMap V → List KeyData → Option (List ℕ) × SlotMap V
  unfolding mark unmark
  get_disjoint_mut m keys =
      let (marked, seen, all) = mark m keys in
      (if all then some (map (λ k. k.idx) seen) else none, unmark marked seen)
