-- ===== src/Slotmap/Secondary/Entries/Lookup.antt =====
-- Mutable access to the values of a secondary map.
use rustyfill.Prelude.{
  ◌==◌, Option-cases, get_elem?, set, done, panic, ◌>>=◌, Returns, ◌≡◌, refl, inl, inr, true, false,
  Option, none, some, arith,
}
use rustyfill.Slotmap.Key.{KeyData, IsKey}
use rustyfill.Slotmap.Secondary.{
  Slot, occupied, vacant, SecondaryMap, Entry, occupied_entry, vacant_entry, slot_version,
  occupied_insert,
}
use rustyfill.Slotmap.Secondary.Invariant.{
  IsValid, view, view_slots-some, view_slots-none, read-view,
}
use rustyfill.Slotmap.Secondary.Insert.{Stored, AtSlot, occupied_insert-Stored}
use rustyfill.Slotmap.Secondary.Entries.{get_mut, get_unchecked, index, and_modify}
use rustyfill.Slotmap.Secondary.Entries.Insertion.{EntryOf, get_unchecked-view}

module _ {ℓ} {V : Type ℓ} where
  -- The slot of a key that stands for a value.
  view-AtSlot :
      (m : SecondaryMap V) (key : KeyData) (v : V)
      → IsValid m
      → IsKey key
      → view m key ≡ some v
      → AtSlot m key (occupied v key.version)
  view-AtSlot m key v h k e = elim (Option-cases (get_elem? m.slots key.idx)) [
    | inl out ↦ absurd (ground (arith, e, view_slots-none m.slots key.idx key.version out))
    | inr (vacant, at) ↦
        absurd (ground (arith, e, view_slots-some m.slots key.idx key.version vacant at))
    | inr (occupied w version, at) ↦ record {
      valid = h;
      is_key = k;
      at =
          ground
            (arith, at, e, view_slots-some m.slots key.idx key.version (occupied w version) at);
    }
  ]

  write-Stored :
      (m : SecondaryMap V) (key : KeyData) (v w : V)
      → AtSlot m key (occupied v key.version)
      → Stored m key w (record m { slots = set m.slots key.idx (occupied w key.version) })
  unfolding occupied_insert
  write-Stored m key v w t =
      let (r, run, (same, s)) = occupied_insert-Stored m key v w key.version t refl in
      let e : r.1 ≡ record m { slots = set m.slots key.idx (occupied w key.version) } =
        ground (arith, run, t.at) in
      rw e at s

  -- What `get_mut` hands out.
  abbrev pub MutSpec : SecondaryMap V → KeyData → Option (V × (V → SecondaryMap V)) → Type ℓ
  MutSpec m key none = view m key ≡ none
  MutSpec m key (some (v, write)) =
      (view m key ≡ some v)
      × ((w : V) → Stored m key w (write w) × ((write w).num_elems ≡ m.num_elems))

  get_mut-some :
      (m : SecondaryMap V) (key : KeyData) (v : V)
      → get_elem? m.slots key.idx ≡ some (occupied v key.version)
      → get_mut m key
        ≡ done (some (v, λ w. record m { slots = set m.slots key.idx (occupied w key.version) }))
  unfolding get_mut
  get_mut-some m key v at =
      let e : (key.version == key.version) ≡ true = ground arith in rw (get_mut, at, e) refl

  get_mut-none :
      (m : SecondaryMap V) (key : KeyData)
      → IsKey key
      → view m key ≡ none
      → get_mut m key ≡ done none
  unfolding get_mut
  get_mut-none m key k e = elim (Option-cases (get_elem? m.slots key.idx)) [
    | inl out ↦ rw (get_mut, out) refl
    | inr (s, at) ↦
        let other : (slot_version s == key.version) ≡ false = apart s at in
        rw (get_mut, at, other) refl
  ]
    where
      apart :
          (s : Slot V)
          → get_elem? m.slots key.idx ≡ some s
          → (slot_version s == key.version) ≡ false
      apart vacant at = ground (arith, k.odd)
      apart (occupied v version) at =
          ground (arith, e, view_slots-some m.slots key.idx key.version (occupied v version) at)

  -- `get_mut` on a valid map has no undefined behaviour. It gives a reference exactly to the value
  -- of a key that stands for one; a write through it stores the written value under that key, and
  -- keeps the map valid and the count.
  pub secondary_get_mut-MutSpec :
      (m : SecondaryMap V) (key : KeyData)
      → IsValid m
      → IsKey key
      → Returns (get_mut m key) (MutSpec m key)
  secondary_get_mut-MutSpec m key h k = elim (Option-cases (view m key)) [
    | inl e ↦ (none, get_mut-none m key k e, e)
    | inr (v, e) ↦
        let t = view-AtSlot m key v h k e in
        (
          some (v, λ w. record m { slots = set m.slots key.idx (occupied w key.version) }),
          get_mut-some m key v t.at,
          (e, λ w. (write-Stored m key v w t, refl)),
        )
  ]

  -- The map after `and_modify`, by what the key stood for before.
  abbrev pub Modified : SecondaryMap V → KeyData → (V → V) → SecondaryMap V → Option V → Type ℓ
  Modified m key f m' none = m' ≡ m
  Modified m key f m' (some v) = Stored m key (f v) m'

  and_modify_occupied :
      (m m' : SecondaryMap V) (key : KeyData) (f : V → V) (v old : V)
      → get_unchecked m key ≡ done v
      → occupied_insert m key (f v) ≡ done (old, m')
      → and_modify m (occupied_entry key) f ≡ done (occupied_entry key, m')
  unfolding and_modify
  and_modify_occupied m m' key f v old got run = rw (got, run) refl

  -- `Entry::and_modify`, on the entry of a key of a valid map, neither panics nor has undefined
  -- behaviour, and gives the entry back. It stores what the closure makes of the key's value, or
  -- leaves the map alone where there is none.
  pub and_modify-Modified :
      (m : SecondaryMap V) (key : KeyData) (e : Entry) (f : V → V)
      → IsValid m
      → IsKey key
      → EntryOf m key e
      → Returns (and_modify m e f) λ r. (r.0 ≡ e) × Modified m key f r.1 (view m key)
  unfolding and_modify
  and_modify-Modified m key (occupied_entry kd) f h k (same, (v, there)) =
      let t = view-AtSlot m key v h k there in
      let (r, run, (_, s)) = occupied_insert-Stored m key v (f v) key.version t refl in
      rw same (
        (occupied_entry key, r.1),
        and_modify_occupied m r.1 key f v r.0 (get_unchecked-view m key v there) run,
        (refl, rw there s),
      )
  and_modify-Modified m key (vacant_entry kd) f h k (same, gone, inside) =
      ((vacant_entry kd, m), refl, (refl, rw gone refl))

  -- Indexing a valid map panics exactly at the keys that stand for nothing, and returns the value
  -- of every other.
  pub secondary_index-view :
      (m : SecondaryMap V) (key : KeyData)
      → IsValid m
      → IsKey key
      → index m key ≡ elim (view m key) [ none ↦ panic | some v ↦ done v ]
  unfolding index
  secondary_index-view m key h k = rw ((read-view m h key k).0) (split (view m key))
    where
      split :
          (o : Option V)
          → (done o >>= λ r. elim r [ some v ↦ done v | none ↦ panic ])
            ≡ elim o [ none ↦ panic | some v ↦ done v ]
      split none = refl
      split (some v) = refl
