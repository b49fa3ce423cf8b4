-- ===== src/Slotmap/Basic/Access.antt =====
-- Writes through `get_mut`.
use rustyfill.Prelude.{
  ◌==◌, if◌then◌else◌, Option-cases, length, get_elem?, set, length-set, All-get_elem?, done, panic,
  Returns, ℕ, ◌≡◌, refl, inl, inr, true, Option, none, some, List, arith,
}
use rustyfill.Slotmap.Key.{KeyData, IsKey, key_eq}
use rustyfill.Slotmap.Basic.{value, Slot, SlotMap, get_mut, index}
use rustyfill.Slotmap.Basic.Invariant.{SlotIsValid, IsValid, write-IsValid, IsFreeList-set}
use rustyfill.Slotmap.Basic.Remove.{OccupiedSlot, occupied_slot, occupied-NotIn}
use rustyfill.Slotmap.Basic.View.{view, view_slots-set, view_slots-some, get-view}

module _ {ℓ} {V : Type ℓ} where
  -- The map with `w` in the slot of `key`.
  abbrev pub write_value : SlotMap V → KeyData → V → SlotMap V
  write_value m key w = record m {
    slots = set m.slots key.idx (record { u = value w; version = key.version });
  }

  -- `m'` is `m` with `w` under `key`, which stood for a value.
  pub record Written (m : SlotMap V) (key : KeyData) (w : V) (m' : SlotMap V) : Type ℓ where
    pub reads : (k : KeyData) → view m' k ≡ (if key_eq key k then some w else view m k)
    pub counted : m'.num_elems ≡ m.num_elems
    pub same_length : length m'.slots ≡ length m.slots
    pub free : List ℕ
    pub valid : IsValid m' free

  pub write_value-Written :
      (m : SlotMap V) (free : List ℕ) (key : KeyData) (v w : V)
      → IsValid m free
      → IsKey key
      → OccupiedSlot m key v
      → Written m key w (write_value m key w)
  write_value-Written m free key v w h k o =
      let old : Slot V = record { u = value v; version = key.version } in
      let s : Slot V = record { u = value w; version = key.version } in
      record {
        reads = λ q. ground (
          arith,
          o.inside,
          view_slots-set m.slots key.idx q.idx q.version s,
          view_slots-some m.slots key.idx q.version old o.at_key,
        );
        counted = refl;
        same_length = length-set m.slots key.idx s;
        free = free;
        valid =
            write-IsValid m free key.idx m.free_head m.num_elems free old s h o.positive o.at_key
              (k.version_lt, k.odd) refl
              (IsFreeList-set m.slots m.free_head free key.idx s (occupied-NotIn m free key v h o)
                h.freelist);
      }

  -- What `get_mut` hands out.
  abbrev pub MutSpec : SlotMap V → KeyData → Option (V × (V → SlotMap V)) → Type ℓ
  MutSpec m key none = view m key ≡ none
  MutSpec m key (some (v, write)) = (view m key ≡ some v) × ((w : V) → Written m key w (write w))

  get_mut-none :
      (m : SlotMap V) (free : List ℕ) (key : KeyData)
      → IsValid m free
      → IsKey key
      → view m key ≡ none
      → get_mut m key ≡ done none
  unfolding get_mut
  get_mut-none m free key h k e = elim (Option-cases (get_elem? m.slots key.idx)) [
    | inl out ↦ ground (arith, out)
    | inr (s, at) ↦ ground (
      arith,
      at,
      e,
      k.odd,
      view_slots-some m.slots key.idx key.version s at,
      All-get_elem? SlotIsValid m.slots key.idx h.slots_valid at,
    )
  ]

  get_mut-some :
      (m : SlotMap V) (key : KeyData) (v : V)
      → OccupiedSlot m key v
      → get_mut m key ≡ done (some (v, λ w. write_value m key w))
  unfolding get_mut
  get_mut-some m key v o =
      let self : (key.version == key.version) ≡ true = ground arith in rw (o.at_key, get_mut, self)

  -- `get_mut` has no undefined behaviour on a valid map. It gives a reference exactly to the value
  -- of a key that stands for one; a write through it changes that key's value and no other's, and
  -- keeps the count, the number of slots and validity.
  pub get_mut-MutSpec :
      (m : SlotMap V) (free : List ℕ) (key : KeyData)
      → IsValid m free
      → IsKey key
      → Returns (get_mut m key) (MutSpec m key)
  get_mut-MutSpec m free key h k = elim (Option-cases (view m key)) [
    | inl e ↦ (none, get_mut-none m free key h k e, e)
    | inr (v, e) ↦
        let o = occupied_slot m free key v h k e in
        (
          some (v, λ w. write_value m key w),
          get_mut-some m key v o,
          (e, λ w. write_value-Written m free key v w h k o),
        )
  ]

  -- `Index` panics exactly at the keys that stand for nothing.
  pub index-view :
      (m : SlotMap V) (free : List ℕ) (key : KeyData)
      → IsValid m free
      → IsKey key
      → index m key ≡ elim (view m key) [ none ↦ panic | some v ↦ done v ]
  unfolding index
  index-view m free key h k = rw (get-view m free h key k)
