-- ===== src/Slotmap/Basic/Invariant.antt =====
-- The well-formedness of a slot map, and how writes to one slot keep its parts.
use rustyfill.Prelude.{
  length, get_elem?, set, length-set, get_elem?-lt, get_elem?-set, All, All-set, u32_mod, ℕ, zero,
  suc, ◌+◌, ◌%◌, ◌≤◌, ◌<◌, ◌≡◌, refl, sym, ap, ◌∙◌, ◌≢◌, Option, none, some, List, [], ◌∷◌, ◌++◌,
  arith,
}
use rustyfill.Slotmap.Key.{max_slots_len}
use rustyfill.Slotmap.Basic.{SlotUnion, value, next_free, Slot, SlotMap}

abbrev pub NotIn : ℕ → List ℕ → Type 0
NotIn i [] = Unit
NotIn i (j ∷ js) = (i ≢ j) × NotIn i js

module _ {ℓ} {V : Type ℓ} where
  -- The union's last written field is the one that the version's low bit names.
  abbrev pub HoldsValue : SlotUnion V → ℕ → Type 0
  HoldsValue (value v) version = version % 2 ≡ 1
  HoldsValue (next_free n) version = version % 2 ≡ 0

  abbrev pub SlotIsValid : Slot V → Type 0
  SlotIsValid s = (s.version < u32_mod) × HoldsValue s.u s.version

  abbrev pub occupancy : List (Slot V) → ℕ
  occupancy [] = 0
  occupancy (s ∷ ss) = s.version % 2 + occupancy ss

  -- The link that a vacant slot holds.
  abbrev pub free_link : SlotUnion V → Option ℕ
  free_link (value v) = none
  free_link (next_free n) = some n

  abbrev pub link : List (Slot V) → ℕ → Option ℕ
  link [] i = none
  link (s ∷ ss) zero = free_link s.u
  link (s ∷ ss) (suc i) = link ss i

  -- The free list that starts at `head` runs through the slots `free`, each once and none the
  -- sentinel, and its last link points one past the vector.
  abbrev pub IsFreeList : List (Slot V) → ℕ → List ℕ → Type 0
  IsFreeList slots head [] = head ≡ length slots
  IsFreeList slots head (i ∷ free) =
      (head ≡ i)
      × (0 < i)
      × NotIn i free
      × ((next : ℕ) × (link slots i ≡ some next) × IsFreeList slots next free)

  pub record IsValid (m : SlotMap V) (free : List ℕ) : Type ℓ where
    pub sentinel : get_elem? m.slots 0 ≡ some (record { u = next_free 0; version = 0 })
    pub bounded : length m.slots ≤ max_slots_len
    pub slots_valid : All SlotIsValid m.slots
    pub counted : m.num_elems ≡ occupancy m.slots
    pub freelist : IsFreeList m.slots m.free_head free

  pub link-lt : (slots : List (Slot V)) (i : ℕ) {n : ℕ} → link slots i ≡ some n → i < length slots
  link-lt [] i h = ground arith
  link-lt (s ∷ ss) zero h = omega arith
  link-lt (s ∷ ss) (suc i) h = omega (arith, link-lt ss i h)

  pub link-get_elem? :
      (slots : List (Slot V)) (i : ℕ) (s : Slot V)
      → get_elem? slots i ≡ some s
      → link slots i ≡ free_link s.u
  link-get_elem? [] i s h = cc
  link-get_elem? (x ∷ ss) zero s h = ground arith
  link-get_elem? (x ∷ ss) (suc i) s h = link-get_elem? ss i s h

  link-set_ne :
      (slots : List (Slot V)) (i j : ℕ) (s : Slot V) → i ≢ j → link (set slots i s) j ≡ link slots j
  link-set_ne [] i j s h = refl
  link-set_ne (x ∷ ss) zero zero s h = absurd (h refl)
  link-set_ne (x ∷ ss) zero (suc j) s h = refl
  link-set_ne (x ∷ ss) (suc i) zero s h = refl
  link-set_ne (x ∷ ss) (suc i) (suc j) s h = link-set_ne ss i j s (omega arith)

  pub link-set_self :
      (slots : List (Slot V)) (i : ℕ) (s : Slot V)
      → i < length slots
      → link (set slots i s) i ≡ free_link s.u
  link-set_self [] i s h = absurd (omega arith)
  link-set_self (x ∷ ss) zero s h = refl
  link-set_self (x ∷ ss) (suc i) s h = link-set_self ss i s (omega arith)

  pub IsFreeList-head-le :
      (slots : List (Slot V)) (head : ℕ) (free : List ℕ)
      → IsFreeList slots head free
      → head ≤ length slots
  IsFreeList-head-le slots head [] h = omega arith
  IsFreeList-head-le slots head (i ∷ free) (e, p, n, (next, l, t)) =
      omega (arith, link-lt slots i l)

  -- A write to a slot outside of the list keeps the list.
  pub IsFreeList-set :
      (slots : List (Slot V)) (head : ℕ) (free : List ℕ) (i : ℕ) (s : Slot V)
      → NotIn i free
      → IsFreeList slots head free
      → IsFreeList (set slots i s) head free
  IsFreeList-set slots head [] i s out h = h ∙ sym (length-set slots i s)
  IsFreeList-set slots head (j ∷ free) i s out (e, p, n, (next, l, t)) = (
    e,
    p,
    n,
    (next, link-set_ne slots i j s out.0 ∙ l, IsFreeList-set slots next free i s out.1 t),
  )

  -- Slots that hold no link into the vector are outside of the list.
  pub NotIn-link :
      (slots : List (Slot V)) (head : ℕ) (free : List ℕ) (i : ℕ)
      → ((n : ℕ) → link slots i ≡ some n → length slots < n)
      → IsFreeList slots head free
      → NotIn i free
  NotIn-link slots head [] i far h = tt
  NotIn-link slots head (j ∷ free) i far (e, p, n, (next, l, t)) = (
    λ q.
        absurd
          (omega (arith, IsFreeList-head-le slots next free t, far next (ap (link slots) q ∙ l))),
    NotIn-link slots next free i far t,
  )

  pub occupancy-set :
      (slots : List (Slot V)) (i : ℕ) (old s : Slot V)
      → get_elem? slots i ≡ some old
      → occupancy (set slots i s) + old.version % 2 ≡ occupancy slots + s.version % 2
  occupancy-set [] i old s h = cc
  occupancy-set (x ∷ ss) zero old s h = ground arith
  occupancy-set (x ∷ ss) (suc i) old s h = omega (arith, occupancy-set ss i old s h)

  pub occupancy-push :
      (slots : List (Slot V)) (s : Slot V)
      → occupancy (slots ++ s ∷ []) ≡ occupancy slots + s.version % 2
  occupancy-push [] s = omega arith
  occupancy-push (x ∷ ss) s = omega (arith, occupancy-push ss s)

  pub occupancy-le : (slots : List (Slot V)) → occupancy slots ≤ length slots
  occupancy-le [] = omega arith
  occupancy-le (x ∷ ss) = omega (arith, occupancy-le ss)

  -- A write to a slot behind the sentinel, with its new counter and free list.
  pub write-IsValid :
      (m : SlotMap V) (free : List ℕ) (i head num : ℕ) (free' : List ℕ) (old s : Slot V)
      → IsValid m free
      → 0 < i
      → get_elem? m.slots i ≡ some old
      → SlotIsValid s
      → num + old.version % 2 ≡ m.num_elems + s.version % 2
      → IsFreeList (set m.slots i s) head free'
      → IsValid (record { slots = set m.slots i s; free_head = head; num_elems = num }) free'
  write-IsValid m free i head num free' old s h p e v c f = record {
    sentinel = ground (arith, get_elem?-set m.slots i 0 s, get_elem?-lt m.slots i e, h.sentinel);
    bounded = rw length-set h.bounded;
    slots_valid = All-set SlotIsValid m.slots i s h.slots_valid v;
    counted = omega (arith, occupancy-set m.slots i old s e, h.counted);
    freelist = f;
  }

  -- The counters stay below the bounds that the `expect`s name.
  pub num_elems-lt : (m : SlotMap V) (free : List ℕ) → IsValid m free → m.num_elems ≤ max_slots_len
  num_elems-lt m free h = omega (arith, h.counted, occupancy-le m.slots, h.bounded)
