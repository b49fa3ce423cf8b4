-- ===== src/Slotmap/Secondary/Invariant.antt =====
-- The well-formedness of a secondary map, and the abstract map that it stands for.
use rustyfill.Prelude.{
  ◌==◌, if◌then◌else◌, Option-cases, length, get_elem?, set, replicate, length-append,
  length-replicate, length-set, All, All-set, done, u32_mod, ℕ, zero, suc, ◌+◌, ◌%◌, ◌<◌, ◌≡◌, refl,
  sym, ap, ◌∙◌, inl, inr, true, false, Option, none, some, List, [], ◌∷◌, ◌++◌, arith,
}
use rustyfill.Slotmap.Key.{KeyData, IsKey, max_slots_len}
use rustyfill.Slotmap.Secondary.{
  Slot, occupied, vacant, SecondaryMap, slot_version, get, contains_key, into_option,
}

module _ {ℓ} {V : Type ℓ} where
  abbrev pub SlotIsValid : Slot V → Type 0
  SlotIsValid (occupied v version) = (version < u32_mod) × (version % 2 ≡ 1)
  SlotIsValid vacant = Unit

  abbrev pub slot_count : Slot V → ℕ
  slot_count (occupied v version) = 1
  slot_count vacant = 0

  abbrev pub occupancy : List (Slot V) → ℕ
  occupancy [] = 0
  occupancy (s ∷ ss) = slot_count s + occupancy ss

  pub record IsValid (m : SecondaryMap V) : Type 0 where
    pub bounded : length m.slots < max_slots_len
    pub slots_valid : All SlotIsValid m.slots
    pub counted : m.num_elems ≡ occupancy m.slots

  abbrev pub slot_view : Slot V → ℕ → Option V
  slot_view s version = if slot_version s == version then into_option s else none

  unfoldable pub view_slots : List (Slot V) → ℕ → ℕ → Option V
  view_slots [] i version = none
  view_slots (s ∷ ss) zero version = slot_view s version
  view_slots (s ∷ ss) (suc i) version = view_slots ss i version

  -- The value that a key stands for.
  abbrev pub view : SecondaryMap V → KeyData → Option V
  view m key = view_slots m.slots key.idx key.version

  pub view_slots-set :
      (slots : List (Slot V)) (i j version : ℕ) (s : Slot V)
      → i < length slots
      → view_slots (set slots i s) j version
        ≡ (if i == j then slot_view s version else view_slots slots j version)
  unfolding view_slots
  view_slots-set [] i j version s h = absurd (omega arith)
  view_slots-set (x ∷ ss) zero zero version s h = ground arith
  view_slots-set (x ∷ ss) zero (suc j) version s h = ground arith
  view_slots-set (x ∷ ss) (suc i) zero version s h = ground arith
  view_slots-set (x ∷ ss) (suc i) (suc j) version s h =
      ground (arith, view_slots-set ss i j version s)

  pub view_slots-some :
      (slots : List (Slot V)) (i version : ℕ) (s : Slot V)
      → get_elem? slots i ≡ some s
      → view_slots slots i version ≡ slot_view s version
  unfolding view_slots
  view_slots-some [] i version s h = cc
  view_slots-some (x ∷ ss) zero version s h = ground arith
  view_slots-some (x ∷ ss) (suc i) version s h = view_slots-some ss i version s h

  pub view_slots-none :
      (slots : List (Slot V)) (i version : ℕ)
      → get_elem? slots i ≡ none
      → view_slots slots i version ≡ none
  unfolding view_slots
  view_slots-none [] i version h = refl
  view_slots-none (x ∷ ss) zero version h = cc
  view_slots-none (x ∷ ss) (suc i) version h = view_slots-none ss i version h

  slot_view-vacant : (version : ℕ) → ◌≡◌ {A = Option V} (slot_view vacant version) none
  slot_view-vacant version = ground arith

  -- Vacant slots at the end stand for nothing.
  pub view_slots-grow :
      (slots : List (Slot V)) (n j version : ℕ)
      → view_slots (slots ++ replicate n vacant) j version ≡ view_slots slots j version
  unfolding view_slots
  view_slots-grow [] zero j version = refl
  view_slots-grow [] (suc n) zero version = slot_view-vacant version
  view_slots-grow [] (suc n) (suc j) version = view_slots-grow [] n j version
  view_slots-grow (x ∷ ss) n zero version = refl
  view_slots-grow (x ∷ ss) n (suc j) version = view_slots-grow ss n j version

  All-grow :
      (slots : List (Slot V)) (n : ℕ)
      → All SlotIsValid slots
      → All SlotIsValid (slots ++ replicate n vacant)
  All-grow [] zero h = tt
  All-grow [] (suc n) h = (tt, All-grow [] n h)
  All-grow (x ∷ ss) n h = (h.0, All-grow ss n h.1)

  occupancy-grow :
      (slots : List (Slot V)) (n : ℕ) → occupancy (slots ++ replicate n vacant) ≡ occupancy slots
  occupancy-grow [] zero = refl
  occupancy-grow [] (suc n) = omega (arith, occupancy-grow [] n)
  occupancy-grow (x ∷ ss) n = ap (λ k. slot_count x + k) (occupancy-grow ss n)

  pub occupancy-set :
      (slots : List (Slot V)) (i : ℕ) (old s : Slot V)
      → get_elem? slots i ≡ some old
      → occupancy (set slots i s) + slot_count old ≡ occupancy slots + slot_count s
  occupancy-set [] i old s h = cc
  occupancy-set (x ∷ ss) zero old s h = ground arith
  occupancy-set (x ∷ ss) (suc i) old s h = omega (arith, occupancy-set ss i old s h)

  pub grow-IsValid :
      (m : SecondaryMap V) (n : ℕ)
      → IsValid m
      → length m.slots + n < max_slots_len
      → IsValid (record m { slots = m.slots ++ replicate n vacant })
  grow-IsValid m n h b = record {
    bounded =
        omega (
          arith,
          length-append m.slots (replicate n vacant),
          length-replicate {A = Slot V} n vacant,
        );
    slots_valid = All-grow m.slots n h.slots_valid;
    counted = h.counted ∙ sym (occupancy-grow m.slots n);
  }

  pub write-IsValid :
      (m : SecondaryMap V) (i num : ℕ) (old s : Slot V)
      → IsValid m
      → get_elem? m.slots i ≡ some old
      → SlotIsValid s
      → num + slot_count old ≡ m.num_elems + slot_count s
      → IsValid (record { slots = set m.slots i s; num_elems = num })
  write-IsValid m i num old s h e v c = record {
    bounded = rw length-set h.bounded;
    slots_valid = All-set SlotIsValid m.slots i s h.slots_valid v;
    counted = omega (arith, occupancy-set m.slots i old s e, h.counted);
  }

  module _ (m : SecondaryMap V) (h : IsValid m) (key : KeyData) (k : IsKey key) where
    -- On a valid map `get` has no undefined behaviour and reads the abstract map, and
    -- `contains_key` holds exactly of the keys with a value.
    pub read-view :
        (get m key ≡ done (view m key))
        × (contains_key m key ≡ elim (view m key) [ none ↦ false | some _ ↦ true ])
    unfolding get contains_key
    read-view = elim (Option-cases (get_elem? m.slots key.idx)) [
      | inl e ↦
          let v = view_slots-none m.slots key.idx key.version e in
          (ground (arith, e, v), ground (arith, e, v))
      | inr (s, e) ↦
          let v = view_slots-some m.slots key.idx key.version s e in
          (ground (arith, e, k.odd, v), ground (arith, e, k.odd, v))
    ]

  -- The version in a slot; a slot that is not there yet counts as vacant.
  pub version_at : List (Slot V) → ℕ → ℕ
  version_at [] i = 0
  version_at (s ∷ ss) zero = slot_version s
  version_at (s ∷ ss) (suc i) = version_at ss i

  pub version_at-grow :
      (slots : List (Slot V)) (n i : ℕ)
      → version_at (slots ++ replicate n vacant) i ≡ version_at slots i
  unfolding version_at
  version_at-grow [] zero i = refl
  version_at-grow [] (suc n) zero = refl
  version_at-grow [] (suc n) (suc i) = version_at-grow [] n i
  version_at-grow (x ∷ ss) n zero = refl
  version_at-grow (x ∷ ss) n (suc i) = version_at-grow ss n i

  pub version_at-some :
      (slots : List (Slot V)) (i : ℕ) (s : Slot V)
      → get_elem? slots i ≡ some s
      → version_at slots i ≡ slot_version s
  unfolding version_at
  version_at-some [] i s h = cc
  version_at-some (x ∷ ss) zero s h = ground arith
  version_at-some (x ∷ ss) (suc i) s h = version_at-some ss i s h
