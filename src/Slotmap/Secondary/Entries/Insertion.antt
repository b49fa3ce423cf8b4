-- ===== src/Slotmap/Secondary/Entries/Insertion.antt =====
-- Insertion by way of an entry, and `extend`.
use rustyfill.Prelude.{
  Option-cases, length, get_elem?, get_elem?-some, All, done, Result, ok, err, Returns, Allocator,
  ◌<◌, ◌≡◌, refl, inl, inr, Option, none, some, List, [], ◌∷◌, arith,
}
use rustyfill.Slotmap.Key.{KeyData, IsKey}
use rustyfill.Slotmap.Secondary.{
  occupied, vacant, SecondaryMap, Entry, occupied_entry, vacant_entry, try_insert, drop_value,
  vacant_insert,
}
use rustyfill.Slotmap.Secondary.Invariant.{IsValid, view, view_slots-some, view_slots-none}
use rustyfill.Slotmap.Secondary.Insert.{
  Stored, InsertSpec, try_insert_give_back-InsertSpec, vacant_insert-Stored,
}
use rustyfill.Slotmap.Secondary.Entries.{get_unchecked, or_insert, extend}

module _ {ℓ} {V : Type ℓ} where
  -- The entry is what `try_entry` makes of the key in a map whose vector has the slot.
  abbrev pub EntryOf : SecondaryMap V → KeyData → Entry → Type ℓ
  EntryOf m key (occupied_entry kd) = (kd ≡ key) × ((v : V) × (view m key ≡ some v))
  EntryOf m key (vacant_entry kd) = (kd ≡ key) × (view m key ≡ none) × (key.idx < length m.slots)

  abbrev pub value_or : Option V → V → V
  value_or none d = d
  value_or (some v) d = v

  pub get_unchecked-view :
      (m : SecondaryMap V) (key : KeyData) (v : V)
      → view m key ≡ some v
      → get_unchecked m key ≡ done v
  unfolding get_unchecked
  get_unchecked-view m key v e = elim (Option-cases (get_elem? m.slots key.idx)) [
    | inl out ↦ absurd (ground (arith, e, view_slots-none m.slots key.idx key.version out))
    | inr (vacant, at) ↦
        absurd (ground (arith, e, view_slots-some m.slots key.idx key.version vacant at))
    | inr (occupied w version, at) ↦
        ground (arith, at, e, view_slots-some m.slots key.idx key.version (occupied w version) at)
  ]

  view-Stored :
      (m : SecondaryMap V) (key : KeyData) (v : V)
      → IsValid m
      → view m key ≡ some v
      → Stored m key v m
  view-Stored m key v h e = record {
    valid = h;
    reads = λ k. elim (Option-cases (get_elem? m.slots key.idx)) [
      | inl out ↦ absurd (ground (arith, e, view_slots-none m.slots key.idx key.version out))
      | inr (s, at) ↦ ground (
        arith,
        e,
        at,
        view_slots-some m.slots key.idx key.version s at,
        view_slots-some m.slots key.idx k.version s at,
      )
    ];
  }

  or_insert_vacant :
      (m m' : SecondaryMap V) (key : KeyData) (v : V)
      → vacant_insert m key v ≡ done m'
      → get_unchecked m' key ≡ done v
      → or_insert m (vacant_entry key) v ≡ done (v, m')
  unfolding or_insert
  or_insert_vacant m m' key v run got = rw (run, got) refl

  or_insert_occupied :
      (m : SecondaryMap V) (key : KeyData) (v d : V)
      → get_unchecked m key ≡ done v
      → or_insert m (occupied_entry key) d ≡ done (v, m)
  unfolding or_insert
  or_insert_occupied m key v d got = rw got refl

  -- `Entry::or_insert`, on the entry of a key of a valid map, neither panics nor has undefined
  -- behaviour. The reference shows the value that stood under the key, or the default if there was
  -- none; afterwards the key stands for that value, no other version of its slot stands for
  -- anything, every other slot reads as before, and the map is valid.
  pub or_insert-Stored :
      (m : SecondaryMap V) (key : KeyData) (e : Entry) (v : V)
      → IsValid m
      → IsKey key
      → EntryOf m key e
      → Returns (or_insert m e v) λ r. (r.0 ≡ value_or (view m key) v) × Stored m key r.0 r.1
  or_insert-Stored m key (occupied_entry kd) v h k (same, (w, there)) = rw same (
    (w, m),
    or_insert_occupied m key w v (get_unchecked-view m key w there),
    (ground (arith, there), view-Stored m key w h there),
  )
  or_insert-Stored m key (vacant_entry kd) v h k (same, gone, inside) =
      let (s, at) = get_elem?-some m.slots key.idx inside in
      let (m', run, t) =
        vacant_insert-Stored m key s v (record { valid = h; is_key = k; at = at }) in
      let there : view m' key ≡ some v = ground (arith, t.reads key) in
      rw same (
        (v, m'),
        or_insert_vacant m m' key v run (get_unchecked-view m' key v there),
        (ground (arith, gone), t),
      )

  InsertSpec-IsValid :
      {R : Type ℓ} (a : Allocator R) (m : SecondaryMap V) (key : KeyData) (v : V)
      (r : Result (Option V) (V × R) × SecondaryMap V)
      → IsValid m
      → InsertSpec a m key v r
      → IsValid r.1
  InsertSpec-IsValid a m key v (ok (some old), m') h t = t.1.valid
  InsertSpec-IsValid a m key v (ok none, m') h (inl t) = t.0.valid
  InsertSpec-IsValid a m key v (ok none, m') h (inr t) = t.valid
  InsertSpec-IsValid a m key v (err (w, e), m') h t = rw (t.0) h

  try_insert-IsValid :
      {R : Type ℓ} (a : Allocator R) (m : SecondaryMap V) (key : KeyData) (v : V)
      → IsValid m
      → IsKey key
      → Returns (try_insert a m key v) λ r. IsValid r.1
  unfolding try_insert
  try_insert-IsValid a m key v h k =
      let (r, run, t) = try_insert_give_back-InsertSpec a m key v h k in
      ((drop_value r.0, r.1), rw run refl, InsertSpec-IsValid a m key v r h t)

  -- `extend` of a valid map with pairs of keys and values never panics and has no undefined
  -- behaviour, whatever the allocator answers to each insertion, and leaves a valid map.
  pub extend-IsValid :
      {R : Type ℓ} (m : SecondaryMap V) (es : List (Allocator R × KeyData × V))
      → IsValid m
      → All (λ e. IsKey e.1) es
      → Returns (extend m es) IsValid
  unfolding extend
  extend-IsValid m [] h k = (m, refl, h)
  extend-IsValid m ((a, key, v) ∷ es) h k =
      let (r, run, valid) = try_insert-IsValid a m key v h k.0 in
      let (m', run', valid') = extend-IsValid r.1 es valid k.1 in (m', rw run run', valid')
