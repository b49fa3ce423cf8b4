-- ===== src/Slotmap/Secondary.antt =====
-- The secondary map: `rustyfill/src/collections/slotmap/secondary.rs`. A method takes the map and
-- returns it beside its result.
pub mod Invariant
pub mod Insert
pub mod Remove
pub mod Retain
pub mod Drain
pub mod Iter
pub mod Entries
use rustyfill.Prelude.{
  ltb, leb, ◌==◌, if◌then◌else◌, length, get_elem?, set, replicate, Outcome, done, panic, ub, ◌>>=◌,
  Result, ok, err, u32_mod, expect_sub, Allocator, ℕ, ◌+◌, ◌-◌, ◌%◌, ◌^◌, Bool, false, Option, none,
  some, List, [], ◌∷◌, ◌++◌,
}
use rustyfill.Slotmap.Key
use rustyfill.Slotmap.Key.{KeyData, max_slots_len, or_one}

-- `a` is older than `b`, where versions wrap around.
unfoldable pub is_older_version : ℕ → ℕ → Bool
is_older_version a b = let diff = (a + u32_mod - b) % u32_mod in leb (2 ^ 31) diff

pub data Slot {ℓ} (V : Type ℓ) : Type ℓ where
  occupied : V → ℕ → Slot V
  vacant : Slot V

pub record SecondaryMap {ℓ} (V : Type ℓ) : Type ℓ where
  pub slots : List (Slot V)
  pub num_elems : ℕ

-- An entry is the key that it was made for; the map that it borrows is passed beside it.
pub data Entry : Type 0 where
  occupied_entry : KeyData → Entry
  vacant_entry : KeyData → Entry

module _ {ℓ} {V : Type ℓ} where
  abbrev pub new_occupied : ℕ → V → Slot V
  new_occupied version v = occupied v (or_one version)

  abbrev pub slot_version : Slot V → ℕ
  slot_version (occupied v version) = version
  slot_version vacant = 0

  abbrev pub into_option : Slot V → Option V
  into_option (occupied v version) = some v
  into_option vacant = none

  -- `Slot::get_unchecked`, whose other case is `unreachable_unchecked`.
  abbrev pub get_unchecked_slot : Slot V → Outcome V
  get_unchecked_slot (occupied v version) = done v
  get_unchecked_slot vacant = ub

  unfoldable pub try_with_capacity {κ} : {R : Type κ} → Allocator R → ℕ → Result (SecondaryMap V) R
  try_with_capacity a capacity =
      if leb (max_slots_len - 1) capacity
      then err a.capacity_overflow
      else elim (a.with_capacity (capacity + 1)) [
        | some e ↦ err e
        | none ↦ elim (a.try_reserve 0 1) [
          | some e ↦ err e
          | none ↦ ok (record { slots = vacant ∷ []; num_elems = 0 })
        ]
      ]

  unfoldable pub contains_key : SecondaryMap V → KeyData → Bool
  contains_key m key = elim (get_elem? m.slots key.idx) [
    | none ↦ false
    | some s ↦ slot_version s == key.version
  ]

  unfoldable pub get : SecondaryMap V → KeyData → Outcome (Option V)
  get m key = elim (get_elem? m.slots key.idx) [
    | none ↦ done none
    | some s ↦
        if slot_version s == key.version
        then (get_unchecked_slot s >>= λ v. done (some v))
        else done none
  ]

  -- The end of `try_entry`, where the slot exists.
  classify {κ} :
      {R : Type κ} → SecondaryMap V → KeyData → Outcome (Result (Option Entry) R × SecondaryMap V)
  classify m key = elim (get_elem? m.slots key.idx) [
    | none ↦ panic
    | some s ↦
        if key.version == slot_version s
        then done (ok (some (occupied_entry key)), m)
        else if is_older_version key.version (slot_version s)
        then done (ok none, m)
        else done (ok (some (vacant_entry key)), m)
  ]

  unfoldable pub try_entry {κ} :
      {R : Type κ}
      → Allocator R
      → SecondaryMap V
      → KeyData
      → Outcome (Result (Option Entry) R × SecondaryMap V)
  unfolding classify
  try_entry a m key =
      if Key.is_null key
      then done (ok none, m)
      else if leb (max_slots_len - 1) key.idx
      then done (err a.capacity_overflow, m)
      else if ltb (length m.slots) (key.idx + 1)
      then (let more = key.idx + 1 - length m.slots in
          elim (a.try_reserve (length m.slots) more) [
            | some e ↦ done (err e, m)
            | none ↦ classify (record m { slots = m.slots ++ replicate more vacant }) key
          ])
      else classify m key

  -- `OccupiedEntry::insert`: replaces the value and returns the old one.
  unfoldable pub occupied_insert : SecondaryMap V → KeyData → V → Outcome (V × SecondaryMap V)
  occupied_insert m kd v = elim (get_elem? m.slots kd.idx) [
    | none ↦ ub
    | some s ↦ elim s [
      | vacant ↦ ub
      | occupied old version ↦
          done (old, record m { slots = set m.slots kd.idx (occupied v version) })
    ]
  ]

  -- `OccupiedEntry::remove`.
  unfoldable pub occupied_remove : SecondaryMap V → KeyData → Outcome (V × SecondaryMap V)
  occupied_remove m kd = elim (get_elem? m.slots kd.idx) [
    | none ↦ ub
    | some s ↦ do
      num_elems ← expect_sub m.num_elems 1
      v ← get_unchecked_slot s
      done (v, record { slots = set m.slots kd.idx vacant; num_elems = num_elems })
  ]

  -- `VacantEntry::insert`. The count is a `usize` and cannot overflow below the slots' bound.
  unfoldable pub vacant_insert : SecondaryMap V → KeyData → V → Outcome (SecondaryMap V)
  vacant_insert m kd v = elim (get_elem? m.slots kd.idx) [
    | none ↦ ub
    | some s ↦ done (record {
      slots = set m.slots kd.idx (new_occupied kd.version v);
      num_elems = elim s [ occupied _ _ ↦ m.num_elems | vacant ↦ m.num_elems + 1 ];
    })
  ]

  -- The match of `try_insert_give_back` on what `try_entry` returned.
  finish_insert {κ} :
      {R : Type κ}
      → V
      → Result (Option Entry) R
      → SecondaryMap V
      → Outcome (Result (Option V) (V × R) × SecondaryMap V)
  finish_insert v (ok none) m = done (ok none, m)
  finish_insert v (ok (some (occupied_entry kd))) m = do
    (old, m') ← occupied_insert m kd v
    done (ok (some old), m')
  finish_insert v (ok (some (vacant_entry kd))) m = do m' ← vacant_insert m kd v; done (ok none, m')
  finish_insert v (err e) m = done (err (v, e), m)

  unfoldable pub try_insert_give_back {κ} :
      {R : Type κ}
      → Allocator R
      → SecondaryMap V
      → KeyData
      → V
      → Outcome (Result (Option V) (V × R) × SecondaryMap V)
  unfolding finish_insert
  try_insert_give_back a m key v = do (r, m') ← try_entry a m key; finish_insert v r m'

  drop_value {κ} : {R : Type κ} → Result (Option V) (V × R) → Result (Option V) R
  drop_value (ok o) = ok o
  drop_value (err (v, e)) = err e

  unfoldable pub try_insert {κ} :
      {R : Type κ}
      → Allocator R
      → SecondaryMap V
      → KeyData
      → V
      → Outcome (Result (Option V) R × SecondaryMap V)
  unfolding drop_value
  try_insert a m key v = do (r, m') ← try_insert_give_back a m key v; done (drop_value r, m')

  unfoldable pub remove : SecondaryMap V → KeyData → Outcome (Option V × SecondaryMap V)
  remove m key = elim (get_elem? m.slots key.idx) [
    | none ↦ done (none, m)
    | some s ↦
        if slot_version s == key.version
        then (do
          num_elems ← expect_sub m.num_elems 1
          done
              (into_option s, record { slots = set m.slots key.idx vacant; num_elems = num_elems }))
        else done (none, m)
  ]
