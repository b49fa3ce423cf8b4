-- ===== src/Slotmap/Basic/Create.antt =====
-- Construction and reservation.
use rustyfill.Prelude.{
  leb, Bool-cases, Option-cases, length, get_elem?-lt, ok, err, Allocator, ℕ, zero, suc, ◌+◌, ◌-◌,
  ◌≤◌, ◌<◌, ◌≡◌, refl, ◌⊎◌, inl, inr, none, some, List, [], ◌∷◌, arith,
}
use rustyfill.Slotmap.Key.{KeyData, max_slots_len}
use rustyfill.Slotmap.Basic.{next_free, SlotMap, try_with_capacity, try_reserve, len}
use rustyfill.Slotmap.Basic.Invariant.{IsValid}
use rustyfill.Slotmap.Basic.View.{view, view_slots}

module _ {ℓ} {V : Type ℓ} where
  view_slots-sentinel :
      (i version : ℕ)
      → view_slots {V = V} (record { u = next_free 0; version = 0 } ∷ []) i version ≡ none
  unfolding view_slots
  view_slots-sentinel zero version = ground arith
  view_slots-sentinel (suc i) version = refl

  -- A new map.
  pub record Empty (m : SlotMap V) : Type ℓ where
    pub valid : IsValid m []
    pub counted : len m ≡ 0
    pub reads : (k : KeyData) → view m k ≡ none

  sentinel-Empty : Empty (record {
    slots = record { u = next_free 0; version = 0 } ∷ [];
    free_head = 1;
    num_elems = 0;
  })
  sentinel-Empty = record {
    valid = record {
      sentinel = refl;
      bounded = omega arith;
      slots_valid = omega arith;
      counted = refl;
      freelist = refl;
    };
    counted = refl;
    reads = λ k. view_slots-sentinel k.idx k.version;
  }

-- The constructor refuses with the overflow error exactly the capacities that leave no room beside
-- the sentinel, passes the allocator's errors on, and otherwise builds a valid map with no
-- element, in which every key stands for nothing.
pub try_with_capacity-Empty {ℓ} :
    (V : Type ℓ) {R : Type ℓ} (a : Allocator R) (capacity : ℕ)
    → (max_slots_len ≤ capacity + 1)
        × (try_with_capacity {V = V} a capacity ≡ err a.capacity_overflow)
      ⊎ (capacity + 1 < max_slots_len)
        × (((e : R) × (try_with_capacity {V = V} a capacity ≡ err e)
              × ((a.with_capacity (capacity + 1) ≡ some e) ⊎ (a.try_reserve 0 1 ≡ some e)))
            ⊎ ((m : SlotMap V) × (try_with_capacity a capacity ≡ ok m)
                × (a.with_capacity (capacity + 1) ≡ none)
                × (a.try_reserve 0 1 ≡ none)
                × Empty m))
unfolding try_with_capacity
try_with_capacity-Empty V a capacity = elim (Bool-cases (leb (max_slots_len - 1) capacity)) [
  | inl big ↦ inl (ground (arith, big), ground (arith, big))
  | inr fits ↦ elim (Option-cases (a.with_capacity (capacity + 1))) [
    | inr (e, x) ↦ inr (ground (arith, fits), inl (e, ground (arith, fits, x), inl x))
    | inl room ↦ elim (Option-cases (a.try_reserve 0 1)) [
      | inr (e, x) ↦ inr (ground (arith, fits), inl (e, ground (arith, fits, room, x), inr x))
      | inl slot ↦ inr (
        ground (arith, fits),
        inr (_, ground (arith, fits, room, slot), room, slot, sentinel-Empty),
      )
    ]
  ]
]

-- A reservation that succeeds has asked the vector for enough slots to hold `additional` more
-- elements beside the present ones and the sentinel, and never for a vector longer than the cap.
pub try_reserve-room {ℓ} :
    {V R : Type ℓ} (a : Allocator R) (m : SlotMap V) (free : List ℕ) (additional : ℕ) {needed : ℕ}
    → IsValid m free
    → try_reserve a m additional ≡ ok needed
    → (len m + additional + 1 ≤ length m.slots + needed)
      × (length m.slots + needed ≤ max_slots_len)
      × (a.try_reserve (length m.slots) needed ≡ none)
unfolding try_reserve
try_reserve-room a m free additional h e =
    ground (arith, h.bounded, get_elem?-lt m.slots 0 h.sentinel)
