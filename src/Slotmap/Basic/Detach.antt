-- ===== src/Slotmap/Basic/Detach.antt =====
-- `detach` and `reattach`.
use rustyfill.Prelude.{
  ◌==◌, if◌then◌else◌, Bool-cases, Option-cases, get_elem?, set, length-set, get_elem?-lt,
  get_elem?-set, All-get_elem?, panic, ◌>>=◌, Returns, ℕ, ◌+◌, ◌-◌, ◌≡◌, refl, sym, ◌∙◌, ◌⊎◌, inl,
  inr, Option, none, some, List, arith,
}
use rustyfill.Slotmap.Key.{
  KeyData, IsKey, key_eq, key_eq-eq, key_eq-eq, dangling_sentinel, wrapping_inc, wrapping_dec,
}
use rustyfill.Slotmap.Basic.{
  SlotUnion, value, next_free, Slot, SlotMap, remove, remove_from_slot, detach, reattach,
}
use rustyfill.Slotmap.Basic.Invariant.{
  SlotIsValid, IsValid, link-get_elem?, write-IsValid, IsFreeList-set, NotIn-link,
  IsFreeList-head-le, num_elems-lt,
}
use rustyfill.Slotmap.Basic.Insert.{fill-reads}
use rustyfill.Slotmap.Basic.Remove.{
  Removed, occupied_slot, vacate-reads, vacate-IsValid, occupied-NotIn, contains_key_of_view,
  absent-reads,
}
use rustyfill.Slotmap.Basic.View.{view}

module _ {ℓ} {V : Type ℓ} where
  -- The slot of `key` is reserved for `reattach`.
  abbrev pub IsDetached : SlotMap V → KeyData → Type ℓ
  IsDetached m key =
      get_elem? m.slots key.idx
      ≡ some (record { u = next_free dangling_sentinel; version = wrapping_inc key.version })

  pub record Detached (m : SlotMap V) (key : KeyData) (r : Option V × SlotMap V) : Type ℓ where
    pub removed : Removed m key r
    pub reserved : (v : V) → view m key ≡ some v → IsDetached r.1 key

  detach-Detached-some :
      (m : SlotMap V) (free : List ℕ) (key : KeyData) (v : V)
      → IsValid m free
      → IsKey key
      → view m key ≡ some v
      → Returns (detach m key) (Detached m key)
  unfolding detach
  detach-Detached-some m free key v h k e =
      let o = occupied_slot m free key v h k e in
      let s : Slot V = record {
        u = next_free dangling_sentinel;
        version = wrapping_inc key.version;
      } in
      let out = occupied-NotIn m free key v h o in
      (
        (some v, record m { slots = set m.slots key.idx s; num_elems = m.num_elems - 1 }),
        ground (arith, contains_key_of_view m free key (some v) h k e, o.at_key, o.some_elems),
        record {
          removed = record {
            returns = sym e;
            reads = λ q. vacate-reads m key v dangling_sentinel (wrapping_inc key.version) q o;
            counted = omega (arith, o.some_elems);
            same_length = length-set m.slots key.idx s;
            free = free;
            valid =
                vacate-IsValid m free key v dangling_sentinel m.free_head free h k o
                  (IsFreeList-set m.slots m.free_head free key.idx s out h.freelist);
          };
          reserved = λ w _. ground (arith, get_elem?-set m.slots key.idx key.idx s, o.inside);
        },
      )

  -- `detach` returns what the key stood for and reads afterwards like `remove`; the slot of a key
  -- that stood for a value is reserved for `reattach`, and stays out of the free list.
  pub detach-Detached :
      (m : SlotMap V) (free : List ℕ) (key : KeyData)
      → IsValid m free
      → IsKey key
      → Returns (detach m key) (Detached m key)
  unfolding detach
  detach-Detached m free key h k = elim (Option-cases (view m key)) [
    | inr (v, e) ↦ detach-Detached-some m free key v h k e
    | inl e ↦ (
      (none, m),
      rw (contains_key_of_view m free key none h k e),
      record {
        removed = record {
          returns = sym e;
          reads = λ q. absent-reads m key q e;
          counted = omega arith;
          same_length = refl;
          free = free;
          valid = h;
        };
        reserved = λ v some_v. absurd (ground arith);
      },
    )
  ]

  -- The map after `v` was put back under the detached `key`.
  pub record Reattached (m : SlotMap V) (key : KeyData) (v : V) (m' : SlotMap V) : Type ℓ where
    pub reads : (k : KeyData) → view m' k ≡ (if key_eq key k then some v else view m k)
    pub counted : m'.num_elems ≡ m.num_elems + 1
    pub free : List ℕ
    pub valid : IsValid m' free

  reattach-Reattached :
      (m : SlotMap V) (free : List ℕ) (key : KeyData) (v : V)
      → IsValid m free
      → IsKey key
      → IsDetached m key
      → Returns (reattach m key v) (Reattached m key v)
  unfolding reattach
  reattach-Reattached m free key v h k d =
      let old : Slot V = record {
        u = next_free dangling_sentinel;
        version = wrapping_inc key.version;
      } in
      let s : Slot V = record { u = value v; version = wrapping_dec (wrapping_inc key.version) } in
      let inside = get_elem?-lt m.slots key.idx d in
      let back : wrapping_dec (wrapping_inc key.version) ≡ key.version =
        omega (arith, k.version_lt) in
      let l = link-get_elem? m.slots key.idx old d in
      let out =
        NotIn-link m.slots m.free_head free key.idx (λ n e. ground (arith, e, l, h.bounded))
          h.freelist in
      (
        record m { slots = set m.slots key.idx s; num_elems = m.num_elems + 1 },
        ground (arith, d, num_elems-lt m free h),
        record {
          reads = λ q. rw back (
              fill-reads m.slots key.idx key.version dangling_sentinel (wrapping_inc key.version) v
                q d);
          counted = refl;
          free = free;
          valid =
              write-IsValid m free key.idx m.free_head (m.num_elems + 1) free old s h
                (ground (arith, d, h.sentinel)) d (omega (arith, k.odd, k.version_lt))
                (omega (arith, k.odd, k.version_lt))
                (IsFreeList-set m.slots m.free_head free key.idx s out h.freelist);
        },
      )

  reattach_at :
      (m : SlotMap V) (free : List ℕ) (key : KeyData) (v : V) (u : SlotUnion V) (version : ℕ)
      → IsValid m free
      → IsKey key
      → get_elem? m.slots key.idx ≡ some (record { u = u; version = version })
      → IsDetached m key ⊎ ((¬ IsDetached m key) × (reattach m key v ≡ panic))
  unfolding reattach
  reattach_at m free key v (value w) version h k e =
      let slot = All-get_elem? SlotIsValid m.slots key.idx h.slots_valid e in
      inr (λ d. ground (arith, e, d), ground (arith, e, slot, k.odd, k.version_lt))
  reattach_at m free key v (next_free n) version h k e =
      elim (Bool-cases (version == wrapping_inc key.version)) [
        | inr other ↦ inr (λ d. ground (arith, e, d, other), ground (arith, e, other))
        | inl same ↦ elim (Bool-cases (n == dangling_sentinel)) [
          | inr linked ↦ inr (λ d. ground (arith, e, d, linked), ground (arith, e, same, linked))
          | inl far ↦ inl (ground (arith, e, same, far))
        ]
      ]

  -- `reattach` never reads a union field that was not written last. On a detached key it stores
  -- the value and every other key keeps what it stood for; on any other key it panics.
  pub reattach-ReattachCases :
      (m : SlotMap V) (free : List ℕ) (key : KeyData) (v : V)
      → IsValid m free
      → IsKey key
      → (IsDetached m key × Returns (reattach m key v) (Reattached m key v))
        ⊎ ((¬ IsDetached m key) × (reattach m key v ≡ panic))
  unfolding reattach
  reattach-ReattachCases m free key v h k = elim (Option-cases (get_elem? m.slots key.idx)) [
    | inl e ↦ inr (λ d. ground (arith, e, d), ground (arith, e))
    | inr (slot, e) ↦ elim (reattach_at m free key v slot.u slot.version h k e) [
      | inl d ↦ inl (d, reattach-Reattached m free key v h k d)
      | inr p ↦ inr p
    ]
  ]

  -- A key that `remove` took out cannot be reattached: its slot is on the free list.
  pub reattach-remove :
      (m : SlotMap V) (free : List ℕ) (key : KeyData) (v w : V)
      → IsValid m free
      → IsKey key
      → view m key ≡ some v
      → (remove m key >>= λ r. reattach r.1 key w) ≡ panic
  unfolding remove remove_from_slot reattach
  reattach-remove m free key v w h k e =
      let o = occupied_slot m free key v h k e in
      let s : Slot V = record { u = next_free m.free_head; version = wrapping_inc key.version } in
      ground (
        arith,
        contains_key_of_view m free key (some v) h k e,
        o.at_key,
        o.some_elems,
        o.inside,
        get_elem?-set m.slots key.idx key.idx s,
        IsFreeList-head-le m.slots m.free_head free h.freelist,
        h.bounded,
      )

  -- `m'` reads and counts as `m` does.
  pub record Restored (m m' : SlotMap V) : Type ℓ where
    pub reads : (k : KeyData) → view m' k ≡ view m k
    pub counted : m'.num_elems ≡ m.num_elems
    pub free : List ℕ
    pub valid : IsValid m' free

  detach-reattach_reads :
      (m m' m'' : SlotMap V) (key k : KeyData) (v : V)
      → view m key ≡ some v
      → view m' k ≡ (if key_eq key k then none else view m k)
      → view m'' k ≡ (if key_eq key k then some v else view m' k)
      → view m'' k ≡ view m k
  detach-reattach_reads m m' m'' key k v e p q = elim (Bool-cases (key_eq key k)) [
    | inl same ↦ (rw same at q) ∙ sym (rw (key_eq-eq key k same) at e)
    | inr other ↦ (rw other at q) ∙ (rw other at p)
  ]

  -- Detaching a key that stands for a value and reattaching it with that value gives back a valid
  -- map of the same length, in which every key stands for what it did.
  pub detach-reattach :
      (m : SlotMap V) (free : List ℕ) (key : KeyData) (v : V)
      → IsValid m free
      → IsKey key
      → view m key ≡ some v
      → Returns (detach m key >>= λ r. reattach r.1 key v) (Restored m)
  detach-reattach m free key v h k e =
      let (r, run, t) = detach-Detached m free key h k in
      let (m', run', t') =
        reattach-Reattached r.1 t.removed.free key v t.removed.valid k (t.reserved v e) in
      (
        m',
        rw run run',
        record {
          reads = λ q. detach-reattach_reads m r.1 m' key q v e (t.removed.reads q) (t'.reads q);
          counted = ground (arith, t.removed.counted, t.removed.returns, t'.counted, e);
          free = t'.free;
          valid = t'.valid;
        },
      )
