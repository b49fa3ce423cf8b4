-- ===== src/Slotmap/Basic/Reuse.antt =====
-- The slot that `remove` frees is the next one that an insertion takes, under another version.
use rustyfill.Prelude.{
  if◌then◌else◌, length, get_elem?, set, get_elem?-set, done, ◌>>=◌, Result, ok, Returns, u32_mod,
  Allocator, ℕ, ◌-◌, ◌%◌, ◌<◌, ◌≡◌, refl, ap, ◌∙◌, false, none, some, List, arith,
}
use rustyfill.Slotmap.Key
use rustyfill.Slotmap.Key.{KeyData, IsKey, key_eq, or_one, wrapping_inc}
use rustyfill.Slotmap.Basic.{
  next_free, Slot, SlotMap, InsertError, reuse_slot, insert_inner, remove, remove_from_slot,
}
use rustyfill.Slotmap.Basic.Insert.{reuse_slot-Inserted}
use rustyfill.Slotmap.Basic.Invariant.{IsValid}
use rustyfill.Slotmap.Basic.Remove.{occupied_slot, Removed, remove-Removed, contains_key_of_view}
use rustyfill.Slotmap.Basic.View.{view}

-- The key that the slot of `key` gets next.
abbrev pub successor : KeyData → KeyData
successor key = record { idx = key.idx; version = or_one (wrapping_inc key.version) }

-- The version differs, also where it wraps around.
successor_apart : (key : KeyData) → IsKey key → key_eq (successor key) key ≡ false
successor_apart key k = ground (arith, k.odd, k.version_lt)

or_one_idem : (n : ℕ) → or_one (or_one n) ≡ or_one n
or_one_idem n = ground arith

new-successor :
    (key : KeyData)
    → IsKey key
    → Key.new (key.idx % u32_mod) (or_one (wrapping_inc key.version)) ≡ successor key
unfolding Key.new
new-successor key k =
    let small : key.idx % u32_mod ≡ key.idx = omega (arith, k.idx_lt) in
    rw (small, or_one_idem (wrapping_inc key.version)) refl

module _ {ℓ} {V : Type ℓ} where
  abbrev vacated : SlotMap V → KeyData → SlotMap V
  vacated m key = record {
    slots =
        set m.slots key.idx
          (record { u = next_free m.free_head; version = wrapping_inc key.version });
    free_head = key.idx % u32_mod;
    num_elems = m.num_elems - 1;
  }

  remove-vacated :
      (m : SlotMap V) (free : List ℕ) (key : KeyData) (v : V)
      → IsValid m free
      → IsKey key
      → view m key ≡ some v
      → remove m key ≡ done (some v, vacated m key)
  unfolding remove remove_from_slot
  remove-vacated m free key v h k e =
      let o = occupied_slot m free key v h k e in
      ground (arith, contains_key_of_view m free key (some v) h k e, o.at_key, o.some_elems)

  vacated-Removed :
      (m : SlotMap V) (free : List ℕ) (key : KeyData) (v : V)
      → IsValid m free
      → IsKey key
      → view m key ≡ some v
      → Removed m key (some v, vacated m key)
  vacated-Removed m free key v h k e =
      let (r, run, t) = remove-Removed m free key h k in
      let same : r ≡ (some v, vacated m key) = cc (run, remove-vacated m free key v h k e) in
      rw same at t

  -- A removal and an insertion of `w`, in the map `m`: the result and the map afterwards.
  pub record Reused {R E : Type ℓ} (m : SlotMap V) (key : KeyData) (w : V)
      (r : Result KeyData (InsertError R E) × SlotMap V) : Type ℓ where
    pub returns : r.0 ≡ ok (successor key)
    pub other_version : key_eq (successor key) key ≡ false
    pub reads :
        (k : KeyData)
        → view r.1 k
          ≡ (if key_eq (successor key) k then some w else if key_eq key k then none else view m k)
    pub counted : r.1.num_elems ≡ m.num_elems
    pub free : List ℕ
    pub valid : IsValid r.1 free

  vacated_head :
      (m : SlotMap V) (key : KeyData)
      → IsKey key
      → key.idx < length m.slots
      → get_elem? (vacated m key).slots (vacated m key).free_head
        ≡ some (record { u = next_free m.free_head; version = wrapping_inc key.version })
  vacated_head m key k inside =
      let s : Slot V = record { u = next_free m.free_head; version = wrapping_inc key.version } in
      let small : key.idx % u32_mod ≡ key.idx = omega (arith, k.idx_lt) in
      rw small (ground (arith, get_elem?-set m.slots key.idx key.idx s inside))

  insert_inner_head :
      {R E : Type ℓ} (a : Allocator R) (n : SlotMap V) (slot : Slot V) (f : KeyData → Result V E)
      → get_elem? n.slots n.free_head ≡ some slot
      → insert_inner a n f ≡ reuse_slot n slot f
  unfolding insert_inner
  insert_inner_head a n slot f e = rw (insert_inner, e) refl

  -- Removing a key of a valid map that stands for a value, and inserting right after it with a
  -- closure that gives a value for the slot's next key, neither panics nor has undefined
  -- behaviour. The insertion returns the key with the same
  -- index and the next odd version, which is another version; the removed key stands for nothing,
  -- the new key for the value, and every other key for what it did.
  pub remove-insert_inner :
      {R E : Type ℓ} (a : Allocator R) (m : SlotMap V) (free : List ℕ) (key : KeyData) (v w : V)
      (f : KeyData → Result V E)
      → IsValid m free
      → IsKey key
      → view m key ≡ some v
      → f (successor key) ≡ ok w
      → Returns (remove m key >>= λ r. insert_inner a r.1 f) (Reused m key w)
  remove-insert_inner a m free key v w f h k e g =
      let o = occupied_slot m free key v h k e in
      let removed = vacated-Removed m free key v h k e in
      let s : Slot V = record { u = next_free m.free_head; version = wrapping_inc key.version } in
      let at = vacated_head m key k o.inside in
      let new_key = new-successor key k in
      let (r, run, (same, t)) =
        reuse_slot-Inserted (vacated m key) removed.free s f w removed.valid at
          (ap f new_key ∙ g) in
      (
        r,
        rw (remove-vacated m free key v h k e) (insert_inner_head a (vacated m key) s f at ∙ run),
        record {
          returns = same ∙ ap ok new_key;
          other_version = successor_apart key k;
          reads = λ q. ground (arith, new_key, t.reads q, removed.reads q);
          counted = omega (arith, t.counted, removed.counted);
          free = t.free;
          valid = t.valid;
        },
      )
