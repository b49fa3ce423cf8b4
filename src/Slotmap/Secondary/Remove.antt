-- ===== src/Slotmap/Secondary/Remove.antt =====
-- Removal from a secondary map, by key and through an entry.
use rustyfill.Prelude.{
  ◌==◌, if◌then◌else◌, Bool-cases, Option-cases, get_elem?, set, get_elem?-lt, done, Returns, ℕ,
  ◌+◌, ◌-◌, ◌<◌, ◌≡◌, sym, inl, inr, true, Option, none, some, arith,
}
use rustyfill.Slotmap.Key.{KeyData, IsKey, key_eq}
use rustyfill.Slotmap.Secondary.{
  Slot, occupied, vacant, SecondaryMap, slot_version, occupied_remove, remove,
}
use rustyfill.Slotmap.Secondary.Invariant.{
  IsValid, view, view_slots-set, view_slots-some, view_slots-none, write-IsValid, occupancy-set,
}

module _ {ℓ} {V : Type ℓ} where
  abbrev pub count_some : Option V → ℕ
  count_some none = 0
  count_some (some v) = 1

  -- The map after `key` was taken out, with what stood under it.
  pub record Removed (m : SecondaryMap V) (key : KeyData) (r : Option V × SecondaryMap V)
      : Type ℓ where
    pub valid : IsValid r.1
    pub returns : r.0 ≡ view m key
    pub reads : (k : KeyData) → view r.1 k ≡ (if key_eq key k then none else view m k)
    pub counted : r.1.num_elems + count_some r.0 ≡ m.num_elems

  module _ (m : SecondaryMap V) (key : KeyData) (h : IsValid m) (k : IsKey key) where
    absent-Removed : view m key ≡ none → Removed m key (none, m)
    absent-Removed e = record {
      valid = h;
      returns = sym e;
      reads = λ q. ground arith;
      counted = omega arith;
    }

    vacate-Removed :
        (v : V) (version : ℕ)
        → get_elem? m.slots key.idx ≡ some (occupied v version)
        → key.version ≡ version
        → (0 < m.num_elems)
          × Removed m key
              (some v, record { slots = set m.slots key.idx vacant; num_elems = m.num_elems - 1 })
    vacate-Removed v version at same =
        let pos : 0 < m.num_elems =
          omega (arith, h.counted, occupancy-set m.slots key.idx (occupied v version) vacant at) in
        (
          pos,
          record {
            valid =
                write-IsValid m key.idx (m.num_elems - 1) (occupied v version) vacant h at tt
                  (omega arith);
            returns =
                ground (
                  arith,
                  same,
                  view_slots-some m.slots key.idx key.version (occupied v version) at,
                );
            reads = λ q. ground (
              arith,
              same,
              get_elem?-lt m.slots key.idx at,
              view_slots-set m.slots key.idx q.idx q.version vacant,
              view_slots-some m.slots key.idx q.version (occupied v version) at,
            );
            counted = omega arith;
          },
        )

    remove_at :
        (s : Slot V)
        → get_elem? m.slots key.idx ≡ some s
        → (slot_version s == key.version) ≡ true
        → Returns (remove m key) (Removed m key)
    unfolding remove
    remove_at vacant at same = absurd (ground (arith, same, k.odd))
    remove_at (occupied v version) at same =
        let (pos, t) = vacate-Removed v version at (ground (arith, same)) in
        (
          (some v, record { slots = set m.slots key.idx vacant; num_elems = m.num_elems - 1 }),
          ground (arith, at, same, pos),
          t,
        )

    -- `remove` does not panic on a valid map. It returns what the key stood for; afterwards the
    -- key stands for nothing and every other key for what it did, the count is one less if there
    -- was a value, and the map is valid.
    pub remove_lem : Returns (remove m key) (Removed m key)
    unfolding remove
    remove_lem = elim (Option-cases (get_elem? m.slots key.idx)) [
      | inl out ↦ (
        (none, m),
        ground (arith, out),
        absent-Removed (view_slots-none m.slots key.idx key.version out),
      )
      | inr (s, at) ↦ elim (Bool-cases (slot_version s == key.version)) [
        | inl same ↦ remove_at s at same
        | inr other ↦ (
          (none, m),
          ground (arith, at, other),
          absent-Removed (ground (arith, other, view_slots-some m.slots key.idx key.version s at)),
        )
      ]
    ]

    -- `OccupiedEntry::remove` on the entry of a key that stands for a value neither panics nor has
    -- undefined behaviour, and does what `remove` does.
    pub occupied_remove-remove :
        (v : V)
        → view m key ≡ some v
        → Returns (occupied_remove m key) λ r. remove m key ≡ done (some r.0, r.1)
    unfolding occupied_remove remove
    occupied_remove-remove v e = elim (Option-cases (get_elem? m.slots key.idx)) [
      | inl out ↦ absurd (ground (arith, e, view_slots-none m.slots key.idx key.version out))
      | inr (vacant, at) ↦
          absurd (ground (arith, e, view_slots-some m.slots key.idx key.version vacant at))
      | inr (occupied w version, at) ↦
          let same : key.version ≡ version =
            ground
              (arith, e, view_slots-some m.slots key.idx key.version (occupied w version) at) in
          let (pos, t) = vacate-Removed w version at same in
          (
            (w, record { slots = set m.slots key.idx vacant; num_elems = m.num_elems - 1 }),
            ground (arith, at, pos),
            ground (arith, at, pos, same),
          )
    ]
