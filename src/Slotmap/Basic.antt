-- ===== src/Slotmap/Basic.antt =====
-- The primary slot map: `rustyfill/src/collections/slotmap/basic.rs`. A method takes the map and
-- returns it beside its result. `usize` has 64 bits, and `num_elems` and `free_head` are `u32`.
pub mod Invariant
pub mod View
pub mod Insert
pub mod Remove
pub mod Detach
pub mod Reuse
pub mod Access
pub mod Create
use rustyfill.Prelude.{
  ℕ, ◌+◌, ◌-◌, ◌%◌, Bool, true, false, Option, none, some, List, [], ◌∷◌, ◌++◌, ◌==◌, leb,
  if◌then◌else◌, length, get_elem?, set, Outcome, done, panic, ub, ◌>>=◌, Result, ok, err,
  expect_add_u32, expect_sub, u32_mod, Allocator,
}
use rustyfill.Slotmap.Key
use rustyfill.Slotmap.Key.{
  KeyData, dangling_sentinel, max_slots_len, or_one, wrapping_inc, wrapping_dec,
}

pub data SlotUnion {ℓ} (V : Type ℓ) : Type ℓ where
  value : V → SlotUnion V
  next_free : ℕ → SlotUnion V

pub record Slot {ℓ} (V : Type ℓ) : Type ℓ where
  pub u : SlotUnion V
  pub version : ℕ

pub data SlotContent {ℓ} (V : Type ℓ) : Type ℓ where
  occupied : V → SlotContent V
  vacant : ℕ → SlotContent V

pub record SlotMap {ℓ} (V : Type ℓ) : Type ℓ where
  pub slots : List (Slot V)
  pub free_head : ℕ
  pub num_elems : ℕ

pub data InsertError {ℓ} (R E : Type ℓ) : Type ℓ where
  reserve : R → InsertError R E
  closure : E → InsertError R E

module _ {ℓ} {V : Type ℓ} where
  -- A read of a union's field that was not the last one written is undefined behaviour.
  abbrev pub read_value : SlotUnion V → Outcome V
  read_value (value v) = done v
  read_value (next_free n) = ub

  abbrev pub read_next : SlotUnion V → Outcome ℕ
  read_next (value v) = ub
  read_next (next_free n) = done n

  abbrev pub is_occupied : Slot V → Bool
  is_occupied s = if s.version % 2 == 0 then false else true

  -- `Slot::get`, and `Slot::get_mut`.
  abbrev pub content : Slot V → Outcome (SlotContent V)
  content s =
      if is_occupied s
      then (read_value s.u >>= λ v. done (occupied v))
      else (read_next s.u >>= λ n. done (vacant n))

  unfoldable pub try_with_capacity {κ} : {R : Type κ} → Allocator R → ℕ → Result (SlotMap V) R
  try_with_capacity a capacity =
      if leb (max_slots_len - 1) capacity
      then err a.capacity_overflow
      else elim (a.with_capacity (capacity + 1)) [
        | some e ↦ err e
        | none ↦ elim (a.try_reserve 0 1) [
          | some e ↦ err e
          | none ↦ ok (record {
            slots = record { u = next_free 0; version = 0 } ∷ [];
            free_head = 1;
            num_elems = 0;
          })
        ]
      ]

  abbrev pub len : SlotMap V → ℕ
  len m = m.num_elems

  abbrev pub is_empty : SlotMap V → Bool
  is_empty m = m.num_elems == 0

  -- `checked_add` on a `usize` cannot overflow below the next guard's bound, which it also exceeds.
  unfoldable pub try_reserve {κ} : {R : Type κ} → Allocator R → SlotMap V → ℕ → Result ℕ R
  try_reserve a m additional =
      let total = len m + additional in
      if leb (max_slots_len - 1) total
      then err a.capacity_overflow
      else (let needed = total - (length m.slots - 1) in
          elim (a.try_reserve (length m.slots) needed) [ some e ↦ err e | none ↦ ok needed ])

  unfoldable pub contains_key : SlotMap V → KeyData → Bool
  contains_key m key = elim (get_elem? m.slots key.idx) [
    | none ↦ false
    | some s ↦ s.version == key.version
  ]

  unfoldable pub get : SlotMap V → KeyData → Outcome (Option V)
  get m key = elim (get_elem? m.slots key.idx) [
    | none ↦ done none
    | some s ↦
        if s.version == key.version then (read_value s.u >>= λ v. done (some v)) else done none
  ]

  -- A mutable reference is the value that it reads and the write through it.
  unfoldable pub get_mut : SlotMap V → KeyData → Outcome (Option (V × (V → SlotMap V)))
  get_mut m key = elim (get_elem? m.slots key.idx) [
    | none ↦ done none
    | some s ↦
        if s.version == key.version
        then (read_value s.u >>= λ v.
            done
              (some (v, λ w. record m { slots = set m.slots key.idx (record s { u = value w }) })))
        else done none
  ]

  -- `Index` and `IndexMut` panic on a key that is not in the map.
  unfoldable pub index : SlotMap V → KeyData → Outcome V
  index m key = do r ← get m key; elim r [ some v ↦ done v | none ↦ panic ]

  module _ {E : Type ℓ} where
    -- The fast path of `insert_inner`: `slot` stands at the head of the free list.
    pub reuse_slot :
        {R : Type ℓ}
        → SlotMap V
        → Slot V
        → (KeyData → Result V E)
        → Outcome (Result KeyData (InsertError R E) × SlotMap V)
    unfolding Key.new
    reuse_slot m slot f =
        let occupied_version = or_one slot.version in
        let kd = Key.new m.free_head occupied_version in
        elim (f kd) [
          | err e ↦ done (err (closure e), m)
          | ok v ↦ do
            next ← read_next slot.u
            num_elems ← expect_add_u32 m.num_elems 1
            done (
              ok kd,
              record {
                slots =
                    set m.slots m.free_head (record { u = value v; version = occupied_version });
                free_head = next;
                num_elems = num_elems;
              },
            )
        ]

    -- The slow path: no slot is free, and the vector grows.
    push_slot :
        {R : Type ℓ}
        → Allocator R
        → SlotMap V
        → (KeyData → Result V E)
        → Outcome (Result KeyData (InsertError R E) × SlotMap V)
    unfolding Key.new
    push_slot a m f =
        if leb max_slots_len (length m.slots)
        then done (err (reserve a.capacity_overflow), m)
        else (let kd = Key.new (length m.slots % u32_mod) 1 in
            elim (a.try_reserve (length m.slots) 1) [
              | some e ↦ done (err (reserve e), m)
              | none ↦ elim (f kd) [
                | err e ↦ done (err (closure e), m)
                | ok v ↦ do
                  free_head ← expect_add_u32 kd.idx 1
                  num_elems ← expect_add_u32 m.num_elems 1
                  done (
                    ok kd,
                    record {
                      slots = m.slots ++ record { u = value v; version = 1 } ∷ [];
                      free_head = free_head;
                      num_elems = num_elems;
                    },
                  )
              ]
            ])

    unfoldable pub insert_inner :
        {R : Type ℓ}
        → Allocator R
        → SlotMap V
        → (KeyData → Result V E)
        → Outcome (Result KeyData (InsertError R E) × SlotMap V)
    unfolding reuse_slot push_slot
    insert_inner a m f = elim (get_elem? m.slots m.free_head) [
      | some slot ↦ reuse_slot m slot f
      | none ↦ push_slot a m f
    ]

  -- `try_insert`: the closure never fails, and an error of it is `unreachable!`.
  unfoldable pub try_insert :
      {R : Type ℓ} → Allocator R → SlotMap V → V → Outcome (Result KeyData R × SlotMap V)
  try_insert {R} a m v = do
    (r, m') ← insert_inner {E = Unit} a m (λ _. ok v)
    elim r [
      | ok kd ↦ done (ok kd, m')
      | err e ↦ elim e [ reserve r' ↦ done (err r', m') | closure _ ↦ panic ]
    ]

  unfoldable pub remove_from_slot : SlotMap V → ℕ → Outcome (V × SlotMap V)
  remove_from_slot m idx = elim (get_elem? m.slots idx) [
    | none ↦ ub
    | some slot ↦ do
      v ← read_value slot.u
      num_elems ← expect_sub m.num_elems 1
      done (
        v,
        record {
          slots =
              set m.slots idx
                (record { u = next_free m.free_head; version = wrapping_inc slot.version });
          free_head = idx % u32_mod;
          num_elems = num_elems;
        },
      )
  ]

  unfoldable pub remove : SlotMap V → KeyData → Outcome (Option V × SlotMap V)
  remove m key =
      if contains_key m key
      then (do (v, m') ← remove_from_slot m key.idx; done (some v, m'))
      else done (none, m)

  unfoldable pub detach : SlotMap V → KeyData → Outcome (Option V × SlotMap V)
  detach m key =
      if contains_key m key
      then elim (get_elem? m.slots key.idx) [
        | none ↦ ub
        | some slot ↦ do
          v ← read_value slot.u
          num_elems ← expect_sub m.num_elems 1
          done (
            some v,
            record m {
              slots =
                  set m.slots key.idx (record {
                    u = next_free dangling_sentinel;
                    version = wrapping_inc slot.version;
                  });
              num_elems = num_elems;
            },
          )
      ]
      else done (none, m)

  unfoldable pub reattach : SlotMap V → KeyData → V → Outcome (SlotMap V)
  reattach m key v = elim (get_elem? m.slots key.idx) [
    | none ↦ panic
    | some slot ↦
        if slot.version == wrapping_inc key.version
        then (do
          next ← read_next slot.u
          if next == dangling_sentinel
              then (do
                num_elems ← expect_add_u32 m.num_elems 1
                done (record m {
                  slots =
                      set m.slots key.idx
                        (record { u = value v; version = wrapping_dec slot.version });
                  num_elems = num_elems;
                }))
              else panic)
        else panic
  ]
