-- ===== src/Slotmap/Basic/Remove.antt =====
-- Removal: `remove_from_slot` and `remove`.
use rustyfill.Prelude.{
  if◌then◌else◌, Option-cases, length, get_elem?, set, length-set, get_elem?-lt, Returns, u32_mod,
  ℕ, ◌+◌, ◌-◌, ◌%◌, ◌<◌, ◌≡◌, refl, sym, inl, inr, true, false, Option, none, some, List, ◌∷◌,
  arith,
}
use rustyfill.Slotmap.Key.{KeyData, IsKey, key_eq, wrapping_inc}
use rustyfill.Slotmap.Basic.{
  SlotUnion, value, next_free, Slot, SlotMap, remove_from_slot, remove, contains_key,
}
use rustyfill.Slotmap.Basic.Invariant.{
  NotIn, IsFreeList, IsValid, link-get_elem?, link-set_self, write-IsValid, IsFreeList-set,
  NotIn-link, occupancy-set,
}
use rustyfill.Slotmap.Basic.View.{
  view, view_slots, view_slots-set, view_slots-some, view_slots-none, contains_key-view,
}

module _ {ℓ} {V : Type ℓ} where
  abbrev pub count_some : Option V → ℕ
  count_some none = 0
  count_some (some v) = 1

  -- The map after `key` was taken out, with what stood under it.
  pub record Removed (m : SlotMap V) (key : KeyData) (r : Option V × SlotMap V) : Type ℓ where
    pub returns : r.0 ≡ view m key
    pub reads : (k : KeyData) → view r.1 k ≡ (if key_eq key k then none else view m k)
    pub counted : r.1.num_elems + count_some r.0 ≡ m.num_elems
    pub same_length : length r.1.slots ≡ length m.slots
    pub free : List ℕ
    pub valid : IsValid r.1 free

  -- The slot of a key that stands for a value.
  pub record OccupiedSlot (m : SlotMap V) (key : KeyData) (v : V) : Type ℓ where
    pub at_key : get_elem? m.slots key.idx ≡ some (record { u = value v; version = key.version })
    pub positive : 0 < key.idx
    pub inside : key.idx < length m.slots
    pub some_elems : 0 < m.num_elems

  occupied_slot_of :
      (m : SlotMap V) (free : List ℕ) (key : KeyData) (v : V) (u : SlotUnion V) (version : ℕ)
      → IsValid m free
      → IsKey key
      → get_elem? m.slots key.idx ≡ some (record { u = u; version = version })
      → view m key ≡ some v
      → get_elem? m.slots key.idx ≡ some (record { u = value v; version = key.version })
  occupied_slot_of m free key v (value w) version h k e h' = ground (
    arith,
    view_slots-some m.slots key.idx key.version (record { u = value w; version = version }) e,
  )
  occupied_slot_of m free key v (next_free n) version h k e h' = ground (
    arith,
    view_slots-some m.slots key.idx key.version (record { u = next_free n; version = version }) e,
  )

  pub occupied_slot :
      (m : SlotMap V) (free : List ℕ) (key : KeyData) (v : V)
      → IsValid m free
      → IsKey key
      → view m key ≡ some v
      → OccupiedSlot m key v
  occupied_slot m free key v h k e = elim (Option-cases (get_elem? m.slots key.idx)) [
    | inl out ↦ absurd (ground (arith, view_slots-none m.slots key.idx key.version out))
    | inr (s, at) ↦
        let e' = occupied_slot_of m free key v s.u s.version h k at e in
        record {
          at_key = e';
          positive = ground (arith, e', h.sentinel, k.odd);
          inside = get_elem?-lt m.slots key.idx e';
          some_elems = omega (
            arith,
            h.counted,
            k.odd,
            occupancy-set m.slots key.idx (record { u = value v; version = key.version })
                (record { u = value v; version = 0 }) e',
          );
        }
  ]

  -- A write of a link over the value of `key`: what `remove` and `detach` share.
  pub vacate-reads :
      (m : SlotMap V) (key : KeyData) (v : V) (next version : ℕ) (k : KeyData)
      → OccupiedSlot m key v
      → view_slots
          (set m.slots key.idx (record { u = next_free next; version = version }))
          k.idx
          k.version
        ≡ (if key_eq key k then none else view m k)
  vacate-reads m key v next version k o = ground (
    arith,
    o.inside,
    view_slots-set m.slots key.idx k.idx k.version
        (record { u = next_free next; version = version }),
    view_slots-some m.slots key.idx k.version (record { u = value v; version = key.version })
        o.at_key,
  )

  pub occupied-NotIn :
      (m : SlotMap V) (free : List ℕ) (key : KeyData) (v : V)
      → IsValid m free
      → OccupiedSlot m key v
      → NotIn key.idx free
  occupied-NotIn m free key v h o =
      NotIn-link m.slots m.free_head free key.idx
        (λ n l. absurd (
          ground (
            arith,
            l,
            link-get_elem? m.slots key.idx (record { u = value v; version = key.version }) o.at_key,
          )))
        h.freelist

  pub vacate-IsValid :
      (m : SlotMap V) (free : List ℕ) (key : KeyData) (v : V) (next head : ℕ) (free' : List ℕ)
      → IsValid m free
      → IsKey key
      → OccupiedSlot m key v
      → IsFreeList
          (set m.slots key.idx (record { u = next_free next; version = wrapping_inc key.version }))
          head
          free'
      → IsValid
          (record {
            slots =
                set m.slots key.idx
                  (record { u = next_free next; version = wrapping_inc key.version });
            free_head = head;
            num_elems = m.num_elems - 1;
          })
          free'
  vacate-IsValid m free key v next head free' h k o f =
      write-IsValid m free key.idx head (m.num_elems - 1) free'
        (record { u = value v; version = key.version })
        (record { u = next_free next; version = wrapping_inc key.version }) h o.positive o.at_key
        (omega (arith, k.odd, k.version_lt)) (omega (arith, k.odd, k.version_lt, o.some_elems)) f

  pub contains_key_of_view :
      (m : SlotMap V) (free : List ℕ) (key : KeyData) (o : Option V)
      → IsValid m free
      → IsKey key
      → view m key ≡ o
      → contains_key m key ≡ elim o [ none ↦ false | some _ ↦ true ]
  contains_key_of_view m free key o h k e = rw (← e) (contains_key-view m free h key k)

  -- `remove_from_slot` at the slot of a key that stands for a value.
  pub remove_from_slot-Removed :
      (m : SlotMap V) (free : List ℕ) (key : KeyData) (v : V)
      → IsValid m free
      → IsKey key
      → view m key ≡ some v
      → Returns (remove_from_slot m key.idx) λ r. Removed m key (some r.0, r.1)
  unfolding remove_from_slot
  remove_from_slot-Removed m free key v h k e =
      let o = occupied_slot m free key v h k e in
      let s : Slot V = record { u = next_free m.free_head; version = wrapping_inc key.version } in
      let out = occupied-NotIn m free key v h o in
      let same : key.idx % u32_mod ≡ key.idx = omega (arith, k.idx_lt) in
      (
        (
          v,
          record {
            slots = set m.slots key.idx s;
            free_head = key.idx % u32_mod;
            num_elems = m.num_elems - 1;
          },
        ),
        ground (arith, o.at_key, o.some_elems),
        record {
          returns = sym e;
          reads = λ q. vacate-reads m key v m.free_head (wrapping_inc key.version) q o;
          counted = omega (arith, o.some_elems);
          same_length = length-set m.slots key.idx s;
          free = key.idx ∷ free;
          valid =
              vacate-IsValid m free key v m.free_head (key.idx % u32_mod) (key.idx ∷ free) h k o (
                same,
                o.positive,
                out,
                (
                  m.free_head,
                  link-set_self m.slots key.idx s o.inside,
                  IsFreeList-set m.slots m.free_head free key.idx s out h.freelist,
                ),
              );
        },
      )

  remove-Removed-some :
      (m : SlotMap V) (free : List ℕ) (key : KeyData) (v : V)
      → IsValid m free
      → IsKey key
      → view m key ≡ some v
      → Returns (remove m key) (Removed m key)
  unfolding remove
  remove-Removed-some m free key v h k e =
      let ((w, m'), run, t) = remove_from_slot-Removed m free key v h k e in
      ((some w, m'), ground (arith, contains_key_of_view m free key (some v) h k e, run), t)

  pub absent-reads :
      (m : SlotMap V) (key k : KeyData)
      → view m key ≡ none
      → view m k ≡ (if key_eq key k then none else view m k)
  absent-reads m key k e = ground arith

  -- `remove` never panics and has no undefined behaviour on a valid map. It returns what the key
  -- stood for; afterwards the key stands for nothing and every other key for what it did, the
  -- count is one less if there was a value, and the map is valid.
  pub remove-Removed :
      (m : SlotMap V) (free : List ℕ) (key : KeyData)
      → IsValid m free
      → IsKey key
      → Returns (remove m key) (Removed m key)
  unfolding remove
  remove-Removed m free key h k = elim (Option-cases (view m key)) [
    | inr (v, e) ↦ remove-Removed-some m free key v h k e
    | inl e ↦ (
      (none, m),
      rw (contains_key_of_view m free key none h k e),
      record {
        returns = sym e;
        reads = λ q. absent-reads m key q e;
        counted = omega arith;
        same_length = refl;
        free = free;
        valid = h;
      },
    )
  ]
