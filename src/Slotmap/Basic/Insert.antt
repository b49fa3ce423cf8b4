-- ===== src/Slotmap/Basic/Insert.antt =====
-- Insertion: `insert_inner` and what stands on it.
use rustyfill.Prelude.{
  leb, if◌then◌else◌, Bool-cases, Option-cases, length, get_elem?, set, length-append, get_elem?-lt,
  get_elem?-ge, get_elem?-push, All-get_elem?, All-push, done, Result, ok, err, Result-cases,
  Returns, u32_mod, Allocator, ℕ, ◌+◌, ◌%◌, ◌≤◌, ◌<◌, ◌≡◌, refl, sym, ap, ◌∙◌, ◌⊎◌, inl, inr, none,
  some, List, [], ◌∷◌, ◌++◌, arith,
}
use mathlib.Core.Path.{subst}
use rustyfill.Slotmap.Key
use rustyfill.Slotmap.Key.{KeyData, IsKey, key_eq, or_one, max_slots_len}
use rustyfill.Slotmap.Basic.{
  SlotUnion, value, next_free, Slot, SlotMap, InsertError, reserve, closure, reuse_slot, push_slot,
  insert_inner, try_insert,
}
use rustyfill.Slotmap.Basic.Invariant.{
  SlotIsValid, NotIn, IsFreeList, IsValid, free_link, link, link-get_elem?, write-IsValid,
  num_elems-lt, IsFreeList-set, occupancy-push,
}
use rustyfill.Slotmap.Basic.View.{
  view, view_slots, view_slots-set, view_slots-push, view_slots-some, view_slots-none,
}

ok-injective {ℓ κ} :
    {A : Type ℓ} {E : Type κ} {a b : A} → ◌≡◌ {A = Result A E} (ok a) (ok b) → a ≡ b
ok-injective h = cc

module _ {ℓ} {V : Type ℓ} where
  -- `kd` was in no use in `m`, and `m'` is `m` with `v` under `kd`.
  pub record Inserted (m : SlotMap V) (kd : KeyData) (v : V) (m' : SlotMap V) : Type ℓ where
    pub is_key : IsKey kd
    pub fresh : view m kd ≡ none
    pub reads : (k : KeyData) → view m' k ≡ (if key_eq kd k then some v else view m k)
    pub counted : m'.num_elems ≡ m.num_elems + 1
    pub free : List ℕ
    pub valid : IsValid m' free

  -- What the head of the free list looks like when it is a slot.
  record HeadSlot (m : SlotMap V) (slot : Slot V) : Type ℓ where
    next : ℕ
    rest : List ℕ
    positive : 0 < m.free_head
    linked : slot.u ≡ next_free next
    vacant : slot.version % 2 ≡ 0
    small : slot.version < u32_mod
    apart : NotIn m.free_head rest
    tail : IsFreeList m.slots next rest

  free_link_inv : (u : SlotUnion V) (n : ℕ) → free_link u ≡ some n → u ≡ next_free n
  free_link_inv (value v) n h = cc
  free_link_inv (next_free k) n h = ground arith

  head_slot :
      (m : SlotMap V) (free : List ℕ) (slot : Slot V)
      → IsValid m free
      → get_elem? m.slots m.free_head ≡ some slot
      → HeadSlot m slot
  head_slot m [] slot h e = absurd (omega (arith, get_elem?-lt m.slots m.free_head e, h.freelist))
  head_slot m (i ∷ rest) slot h e =
      let (p, pos, out, (next, l, t)) = h.freelist in
      let u : slot.u ≡ next_free next =
        free_link_inv slot.u next
          (sym (link-get_elem? m.slots m.free_head slot e) ∙ ap (link m.slots) p ∙ l) in
      let v = All-get_elem? SlotIsValid m.slots m.free_head h.slots_valid e in
      record {
        next = next;
        rest = rest;
        positive = omega arith;
        linked = u;
        vacant = rw u at v.1;
        small = v.0;
        apart = rw (← p) at out;
        tail = t;
      }

  -- A value written to a vacant slot is read under the new key alone.
  pub fill-reads :
      (slots : List (Slot V)) (i version n old : ℕ) (v : V) (k : KeyData)
      → get_elem? slots i ≡ some (record { u = next_free n; version = old })
      → view_slots (set slots i (record { u = value v; version = version })) k.idx k.version ≡ (
          if key_eq (record { idx = i; version = version }) k
          then some v
          else view_slots slots k.idx k.version)
  fill-reads slots i version n old v k e = ground (
    arith,
    view_slots-set slots i k.idx k.version (record { u = value v; version = version }),
    view_slots-some slots i k.version (record { u = next_free n; version = old }) e,
    get_elem?-lt slots i e,
  )

  pub reuse_slot-Inserted :
      {R E : Type ℓ} (m : SlotMap V) (free : List ℕ) (slot : Slot V) (f : KeyData → Result V E)
      (v : V)
      → IsValid m free
      → get_elem? m.slots m.free_head ≡ some slot
      → f (Key.new m.free_head (or_one slot.version)) ≡ ok v
      → Returns (reuse_slot {E = E} {R = R} m slot f) λ r.
        (r.0 ≡ ok (Key.new m.free_head (or_one slot.version)))
        × Inserted m (Key.new m.free_head (or_one slot.version)) v r.1
  unfolding reuse_slot
  reuse_slot-Inserted m free slot f v h e g =
      let t = head_slot m free slot h e in
      let kd = Key.new m.free_head (or_one slot.version) in
      let new_slot : Slot V = record { u = value v; version = or_one slot.version } in
      let e' : get_elem? m.slots m.free_head
          ≡ some (record { u = next_free t.next; version = slot.version }) =
        ground (arith, t.linked) in
      let i = get_elem?-lt m.slots m.free_head e in
      (
        (
          ok kd,
          record {
            slots = set m.slots m.free_head new_slot;
            free_head = t.next;
            num_elems = m.num_elems + 1;
          },
        ),
        ground (arith, g, t.linked, num_elems-lt m free h),
        (
          refl,
          record {
            is_key = ground (arith, t.vacant, t.small, i, h.bounded);
            fresh =
                ground (arith, view_slots-some m.slots m.free_head (or_one slot.version) slot e);
            reads = λ k. ground (
              arith,
              t.vacant,
              fill-reads m.slots m.free_head (or_one slot.version) t.next slot.version v k e',
            );
            counted = refl;
            free = t.rest;
            valid =
                write-IsValid m free m.free_head t.next (m.num_elems + 1) t.rest slot new_slot h
                  t.positive e (ground (arith, t.vacant, t.small)) (ground (arith, t.vacant))
                  (IsFreeList-set m.slots t.next t.rest m.free_head new_slot t.apart t.tail);
          },
        ),
      )

  -- The key that the fast path hands to the closure.
  reuse_slot-IsKey :
      (m : SlotMap V) (free : List ℕ) (slot : Slot V)
      → IsValid m free
      → get_elem? m.slots m.free_head ≡ some slot
      → IsKey (Key.new m.free_head (or_one slot.version))
        × (view m (Key.new m.free_head (or_one slot.version)) ≡ none)
  unfolding reuse_slot
  reuse_slot-IsKey m free slot h e =
      let t = head_slot m free slot h e in
      (
        ground (arith, t.vacant, t.small, get_elem?-lt m.slots m.free_head e, h.bounded),
        ground (arith, view_slots-some m.slots m.free_head (or_one slot.version) slot e),
      )

  push_slot-IsKey :
      (m : SlotMap V) (free : List ℕ)
      → IsValid m free
      → length m.slots < max_slots_len
      → IsKey (Key.new (length m.slots % u32_mod) 1)
        × (view m (Key.new (length m.slots % u32_mod) 1) ≡ none)
  unfolding push_slot
  push_slot-IsKey m free h lt =
      let same : length m.slots % u32_mod ≡ length m.slots = omega arith in
      (
        ground (arith, lt),
        rw same (
            view_slots-none m.slots (length m.slots) 1
              (get_elem?-ge m.slots (length m.slots) (omega arith))),
      )

  push_slot-Inserted :
      {R E : Type ℓ} (a : Allocator R) (m : SlotMap V) (free : List ℕ) (f : KeyData → Result V E)
      (v : V)
      → IsValid m free
      → length m.slots < max_slots_len
      → a.try_reserve (length m.slots) 1 ≡ none
      → f (Key.new (length m.slots % u32_mod) 1) ≡ ok v
      → Returns (push_slot {E = E} a m f) λ r.
        (r.0 ≡ ok (Key.new (length m.slots % u32_mod) 1))
        × Inserted m (Key.new (length m.slots % u32_mod) 1) v r.1
  unfolding push_slot
  push_slot-Inserted a m free f v h lt room g =
      let n = length m.slots in
      let same : n % u32_mod ≡ n = omega arith in
      let new_slot : Slot V = record { u = value v; version = 1 } in
      let (k, fresh) = push_slot-IsKey m free h lt in
      (
        (
          ok (Key.new (n % u32_mod) 1),
          record {
            slots = m.slots ++ new_slot ∷ [];
            free_head = n + 1;
            num_elems = m.num_elems + 1;
          },
        ),
        ground (arith, g, room, lt, num_elems-lt m free h),
        (
          refl,
          record {
            is_key = k;
            fresh = fresh;
            reads = λ key. ground (
              arith,
              same,
              view_slots-push m.slots key.idx key.version new_slot,
              view_slots-none m.slots n key.version (get_elem?-ge m.slots n (omega arith)),
            );
            counted = refl;
            free = [];
            valid = record {
              sentinel = ground (
                arith,
                get_elem?-push m.slots 0 new_slot,
                get_elem?-lt m.slots 0 h.sentinel,
                h.sentinel,
              );
              bounded = omega (arith, length-append m.slots (new_slot ∷ []));
              slots_valid = All-push SlotIsValid m.slots new_slot h.slots_valid (omega arith);
              counted = omega (arith, occupancy-push m.slots new_slot, h.counted);
              freelist = omega (arith, length-append m.slots (new_slot ∷ []));
            };
          },
        ),
      )

  -- What `insert_inner` promises of its result `r` and of the map after the call.
  module _ {R E : Type ℓ} (a : Allocator R) (m : SlotMap V) (f : KeyData → Result V E) where
    abbrev pub InsertSpec : Result KeyData (InsertError R E) × SlotMap V → Type ℓ
    InsertSpec (ok kd, m') = (v : V) × (f kd ≡ ok v) × Inserted m kd v m'
    InsertSpec (err (closure e), m') =
        (m' ≡ m) × ((kd : KeyData) × IsKey kd × (view m kd ≡ none) × (f kd ≡ err e))
    InsertSpec (err (reserve e), m') =
        (m' ≡ m)
        × ((e ≡ a.capacity_overflow) × (max_slots_len ≤ length m.slots)
            ⊎ (a.try_reserve (length m.slots) 1 ≡ some e))

    reuse_slot-InsertSpec :
        (free : List ℕ) (slot : Slot V)
        → IsValid m free
        → get_elem? m.slots m.free_head ≡ some slot
        → Returns (reuse_slot {R = R} m slot f) InsertSpec
    unfolding reuse_slot
    reuse_slot-InsertSpec free slot h e =
        let kd = Key.new m.free_head (or_one slot.version) in
        elim (Result-cases (f kd)) [
          | inl (v, g) ↦
              let ((r, m'), run, (same, t)) = reuse_slot-Inserted {R = R} m free slot f v h e g in
              ((ok kd, m'), run ∙ ap (λ r. done (r, m')) same, (v, g, t))
          | inr (x, g) ↦
              let (k, fresh) = reuse_slot-IsKey m free slot h e in
              ((err (closure x), m), ground (arith, g), (refl, (kd, k, fresh, g)))
        ]

    push_slot-InsertSpec : (free : List ℕ) → IsValid m free → Returns (push_slot a m f) InsertSpec
    unfolding push_slot
    push_slot-InsertSpec free h =
        let kd = Key.new (length m.slots % u32_mod) 1 in
        elim (Bool-cases (leb max_slots_len (length m.slots))) [
          | inl full ↦ (
            (err (reserve a.capacity_overflow), m),
            ground (arith, full),
            (refl, inl (refl, ground (arith, full))),
          )
          | inr lt ↦ elim (Option-cases (a.try_reserve (length m.slots) 1)) [
            | inr (x, no_room) ↦
                ((err (reserve x), m), ground (arith, lt, no_room), (refl, inr no_room))
            | inl room ↦ elim (Result-cases (f kd)) [
              | inl (v, g) ↦
                  let ((r, m'), run, (same, t)) =
                    push_slot-Inserted a m free f v h (ground (arith, lt)) room g in
                  ((ok kd, m'), run ∙ ap (λ r. done (r, m')) same, (v, g, t))
              | inr (x, g) ↦
                  let (k, fresh) = push_slot-IsKey m free h (ground (arith, lt)) in
                  ((err (closure x), m), ground (arith, lt, room, g), (refl, (kd, k, fresh, g)))
            ]
          ]
        ]

    -- On a valid map `insert_inner` neither panics nor has undefined behaviour. It returns a key
    -- that stood for nothing, and the new map holds the closure's value under that key and is
    -- otherwise unchanged, valid and one longer; or it returns an error, of the closure or of the
    -- reservation, and the map that it was given.
    pub insert_inner-InsertSpec :
        (free : List ℕ) → IsValid m free → Returns (insert_inner a m f) InsertSpec
    unfolding insert_inner
    insert_inner-InsertSpec free h = elim (Option-cases (get_elem? m.slots m.free_head)) [
      | inl e ↦ let (r, run, t) = push_slot-InsertSpec free h in (r, rw (e, insert_inner) run, t)
      | inr (slot, e) ↦
          let (r, run, t) = reuse_slot-InsertSpec free slot h e in (r, rw (e, insert_inner) run, t)
    ]

  abbrev pub TryInsertSpec :
      {R : Type ℓ} → Allocator R → SlotMap V → V → Result KeyData R × SlotMap V → Type ℓ
  TryInsertSpec a m v (ok kd, m') = Inserted m kd v m'
  TryInsertSpec a m v (err e, m') =
      (m' ≡ m)
      × ((e ≡ a.capacity_overflow) × (max_slots_len ≤ length m.slots)
          ⊎ (a.try_reserve (length m.slots) 1 ≡ some e))

  try_insert-of-insert_inner :
      {R : Type ℓ} (a : Allocator R) (m : SlotMap V) (v : V)
      (r : Result KeyData (InsertError R (Unit {ℓ})) × SlotMap V)
      → insert_inner a m (λ _. ok v) ≡ done r
      → InsertSpec a m (λ _. ok v) r
      → Returns (try_insert a m v) (TryInsertSpec a m v)
  unfolding try_insert
  try_insert-of-insert_inner a m v (ok kd, m') run (w, g, t) =
      ((ok kd, m'), rw run, subst (λ x. Inserted m kd x m') (sym (ok-injective g)) t)
  try_insert-of-insert_inner a m v (err (closure x), m') run (_, (_, _, _, g)) = cc
  try_insert-of-insert_inner a m v (err (reserve x), m') run t = ((err x, m'), rw run, t)

  -- `try_insert` never reaches its `unreachable!`: it stores the value under a fresh key, or
  -- reports a reservation error and leaves the map alone.
  pub try_insert-TryInsertSpec :
      {R : Type ℓ} (a : Allocator R) (m : SlotMap V) (free : List ℕ) (v : V)
      → IsValid m free
      → Returns (try_insert a m v) (TryInsertSpec a m v)
  try_insert-TryInsertSpec a m free v h =
      let (r, run, t) = insert_inner-InsertSpec a m (λ _. ok v) free h in
      try_insert-of-insert_inner a m v r run t
