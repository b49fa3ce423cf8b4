-- ===== src/Slotmap/Secondary/Insert.antt =====
-- Insertion into a secondary map, by way of `try_entry`.
use rustyfill.Prelude.{
  ltb, leb, ◌==◌, if◌then◌else◌, Bool-cases, Option-cases, length, get_elem?, set, replicate,
  length-append, length-replicate, get_elem?-lt, get_elem?-some, All-get_elem?, Outcome, done,
  ◌>>=◌, Result, ok, err, Returns, u32_mod, Allocator, ℕ, ◌+◌, ◌-◌, ◌%◌, ◌^◌, ◌≤◌, ◌<◌, ◌≡◌, refl,
  ◌⊎◌, inl, inr, true, false, Option, none, some, ◌++◌, arith,
}
use rustyfill.Slotmap.Key
use rustyfill.Slotmap.Key.{KeyData, IsKey, or_one, max_slots_len}
use rustyfill.Slotmap.Secondary.{
  Slot, occupied, vacant, SecondaryMap, slot_version, is_older_version, classify, try_entry,
  occupied_insert, vacant_insert, finish_insert, try_insert_give_back, try_insert, drop_value,
}
use rustyfill.Slotmap.Secondary.Invariant.{
  SlotIsValid, IsValid, view, view_slots-set, view_slots-some, view_slots-grow, version_at,
  version_at-grow, version_at-some, grow-IsValid, write-IsValid,
}

module _ {ℓ} {V : Type ℓ} where
  -- What a key stands for once `v` was stored under `key`: the slot holds one version only.
  abbrev pub stored_view : SecondaryMap V → KeyData → V → KeyData → Option V
  stored_view m key v k =
      if key.idx == k.idx then (if key.version == k.version then some v else none) else view m k

  -- The map after a value was stored under `key`.
  pub record Stored (m : SecondaryMap V) (key : KeyData) (v : V) (m' : SecondaryMap V)
      : Type ℓ where
    pub valid : IsValid m'
    pub reads : (k : KeyData) → view m' k ≡ stored_view m key v k

  -- The slot exists: what the entry finds there decides.
  pub record AtSlot (m : SecondaryMap V) (key : KeyData) (s : Slot V) : Type ℓ where
    pub valid : IsValid m
    pub is_key : IsKey key
    pub at : get_elem? m.slots key.idx ≡ some s

  pub occupied_insert-Stored :
      (m : SecondaryMap V) (key : KeyData) (old v : V) (version : ℕ)
      → AtSlot m key (occupied old version)
      → key.version ≡ version
      → Returns (occupied_insert m key v) λ r. (r.0 ≡ old) × Stored m key v r.1
  unfolding occupied_insert
  occupied_insert-Stored m key old v version t same =
      let inside = get_elem?-lt m.slots key.idx t.at in
      let ok_slot = All-get_elem? SlotIsValid m.slots key.idx t.valid.slots_valid t.at in
      (
        (old, record m { slots = set m.slots key.idx (occupied v version) }),
        ground (arith, t.at),
        (
          refl,
          record {
            valid =
                write-IsValid m key.idx m.num_elems (occupied old version) (occupied v version)
                  t.valid t.at ok_slot refl;
            reads = λ k. ground (
              arith,
              same,
              inside,
              view_slots-set m.slots key.idx k.idx k.version (occupied v version),
            );
          },
        ),
      )

  pub vacant_insert-Stored :
      (m : SecondaryMap V) (key : KeyData) (s : Slot V) (v : V)
      → AtSlot m key s
      → Returns (vacant_insert m key v) (Stored m key v)
  unfolding vacant_insert
  vacant_insert-Stored m key (occupied old version) v t =
      let odd : or_one key.version ≡ key.version = ground (arith, t.is_key.odd) in
      let inside = get_elem?-lt m.slots key.idx t.at in
      (
        record m { slots = set m.slots key.idx (occupied v (or_one key.version)) },
        ground (arith, t.at),
        record {
          valid =
              write-IsValid m key.idx m.num_elems (occupied old version)
                (occupied v (or_one key.version)) t.valid t.at
                (rw odd (t.is_key.version_lt, t.is_key.odd)) refl;
          reads = λ k. ground (
            arith,
            odd,
            inside,
            view_slots-set m.slots key.idx k.idx k.version (occupied v (or_one key.version)),
          );
        },
      )
  vacant_insert-Stored m key vacant v t =
      let odd : or_one key.version ≡ key.version = ground (arith, t.is_key.odd) in
      let inside = get_elem?-lt m.slots key.idx t.at in
      (
        record {
          slots = set m.slots key.idx (occupied v (or_one key.version));
          num_elems = m.num_elems + 1;
        },
        ground (arith, t.at),
        record {
          valid =
              write-IsValid m key.idx (m.num_elems + 1) vacant (occupied v (or_one key.version))
                t.valid t.at (rw odd (t.is_key.version_lt, t.is_key.odd)) (omega arith);
          reads = λ k. ground (
            arith,
            odd,
            inside,
            view_slots-set m.slots key.idx k.idx k.version (occupied v (or_one key.version)),
          );
        },
      )

  -- Nothing was stored, and no key changed.
  pub record Dropped (m : SecondaryMap V) (key : KeyData) (m' : SecondaryMap V) : Type ℓ where
    pub valid : IsValid m'
    pub reads : (k : KeyData) → view m' k ≡ view m k
    pub cause :
        (Key.is_null key ≡ true)
        ⊎ (is_older_version key.version (version_at m.slots key.idx) ≡ true)

  -- What `try_insert_give_back` promises of its result and of the map after the call.
  module _ {R : Type ℓ} (a : Allocator R) (m : SecondaryMap V) (key : KeyData) (v : V) where
    abbrev pub InsertSpec : Result (Option V) (V × R) × SecondaryMap V → Type ℓ
    InsertSpec (ok (some old), m') = (view m key ≡ some old) × Stored m key v m'
    InsertSpec (ok none, m') =
        (Stored m key v m'
          × (view m key ≡ none)
          × (is_older_version key.version (version_at m.slots key.idx) ≡ false))
        ⊎ Dropped m key m'
    InsertSpec (err (w, e), m') =
        (m' ≡ m)
        × (w ≡ v)
        × ((e ≡ a.capacity_overflow) × (max_slots_len ≤ key.idx + 1)
            ⊎ (a.try_reserve (length m.slots) (key.idx + 1 - length m.slots) ≡ some e))

    -- The end of `try_entry` and the insertion behind it.
    abbrev place : SecondaryMap V → Outcome (Result (Option V) (V × R) × SecondaryMap V)
    place n = classify {R = R} n key >>= λ r. finish_insert v r.0 r.1

    -- `n` is the map with the slot, which reads as `m` does.
    record Reads (n : SecondaryMap V) : Type ℓ where
      same_view : (k : KeyData) → view n k ≡ view m k
      same_version : version_at n.slots key.idx ≡ version_at m.slots key.idx

    Stored-of_Reads : (n m' : SecondaryMap V) → Reads n → Stored n key v m' → Stored m key v m'
    Stored-of_Reads n m' t s = record {
      valid = s.valid;
      reads = λ k. ground (arith, s.reads k, t.same_view k);
    }

    place_occupied :
        (n : SecondaryMap V) (s : Slot V)
        → Reads n
        → AtSlot n key s
        → (key.version == slot_version s) ≡ true
        → Returns (place n) InsertSpec
    unfolding classify finish_insert
    place_occupied n vacant t p same = absurd (ground (arith, same, p.is_key.odd))
    place_occupied n (occupied old version) t p same =
        let ((w, m'), run, (e, u)) =
          occupied_insert-Stored n key old v version p (ground (arith, same)) in
        (
          (ok (some w), m'),
          ground (arith, p.at, same, run),
          (
            ground (
              arith,
              same,
              t.same_view key,
              view_slots-some n.slots key.idx key.version (occupied old version) p.at,
              e,
            ),
            Stored-of_Reads n m' t u,
          ),
        )

    place_vacant :
        (n : SecondaryMap V) (s : Slot V)
        → Reads n
        → AtSlot n key s
        → (key.version == slot_version s) ≡ false
        → is_older_version key.version (slot_version s) ≡ false
        → Returns (place n) InsertSpec
    unfolding classify finish_insert
    place_vacant n s t p other newer =
        let (m', run, u) = vacant_insert-Stored n key s v p in
        (
          (ok none, m'),
          ground (arith, p.at, other, newer, run),
          inl (
            Stored-of_Reads n m' t u,
            ground
                (arith, other, t.same_view key, view_slots-some n.slots key.idx key.version s p.at),
            ground (arith, newer, t.same_version, version_at-some n.slots key.idx s p.at),
          ),
        )

    place_older :
        (n : SecondaryMap V) (s : Slot V)
        → Reads n
        → AtSlot n key s
        → (key.version == slot_version s) ≡ false
        → is_older_version key.version (slot_version s) ≡ true
        → Returns (place n) InsertSpec
    unfolding classify finish_insert
    place_older n s t p other older = (
      (ok none, n),
      ground (arith, p.at, other, older),
      inr (record {
        valid = p.valid;
        reads = t.same_view;
        cause = inr (ground (arith, older, t.same_version, version_at-some n.slots key.idx s p.at));
      }),
    )

    place-InsertSpec :
        (n : SecondaryMap V)
        → Reads n
        → IsValid n
        → IsKey key
        → key.idx < length n.slots
        → Returns (place n) InsertSpec
    place-InsertSpec n t h k lt =
        let (s, at) = get_elem?-some n.slots key.idx lt in
        let p : AtSlot n key s = record { valid = h; is_key = k; at = at } in
        elim (Bool-cases (key.version == slot_version s)) [
          | inl same ↦ place_occupied n s t p same
          | inr other ↦ elim (Bool-cases (is_older_version key.version (slot_version s))) [
            | inl older ↦ place_older n s t p other older
            | inr newer ↦ place_vacant n s t p other newer
          ]
        ]

    -- The vector is long enough, or grows.
    enter_grown :
        IsValid m
        → IsKey key
        → key.idx + 1 < max_slots_len
        → length m.slots < key.idx + 1
        → Returns
            (place
              (record m { slots = m.slots ++ replicate (key.idx + 1 - length m.slots) vacant }))
            InsertSpec
    enter_grown h k small short =
        let more = key.idx + 1 - length m.slots in
        let n : SecondaryMap V = record m { slots = m.slots ++ replicate more vacant } in
        place-InsertSpec n
          (record {
            same_view = λ q. view_slots-grow m.slots more q.idx q.version;
            same_version = version_at-grow m.slots more key.idx;
          })
          (grow-IsValid m more h (omega arith)) k
          (omega (
            arith,
            length-append m.slots (replicate {A = Slot V} more vacant),
            length-replicate {A = Slot V} more vacant,
          ))

    give_back-grown :
        (r : Result (Option V) (V × R) × SecondaryMap V)
        → Key.is_null key ≡ false
        → leb (max_slots_len - 1) key.idx ≡ false
        → ltb (length m.slots) (key.idx + 1) ≡ true
        → a.try_reserve (length m.slots) (key.idx + 1 - length m.slots) ≡ none
        → place (record m { slots = m.slots ++ replicate (key.idx + 1 - length m.slots) vacant })
          ≡ done r
        → try_insert_give_back a m key v ≡ done r
    unfolding try_insert_give_back try_entry
    give_back-grown r real small short room run = rw (real, small, short, room) run

    give_back-there :
        (r : Result (Option V) (V × R) × SecondaryMap V)
        → Key.is_null key ≡ false
        → leb (max_slots_len - 1) key.idx ≡ false
        → ltb (length m.slots) (key.idx + 1) ≡ false
        → place m ≡ done r
        → try_insert_give_back a m key v ≡ done r
    unfolding try_insert_give_back try_entry
    give_back-there r real small long run = rw (real, small, long) run

    -- `try_insert_give_back` never panics and has no undefined behaviour on a valid map. It
    -- returns the value that stood under the key and stores the new one; or it stores the value
    -- under a key that stood for nothing, and no other version of that slot stands for anything;
    -- or it drops the value and changes no key, where the key is null or older than the slot's
    -- version; or it gives the value back with an error, and the map is as it was.
    pub try_insert_give_back-InsertSpec :
        IsValid m → IsKey key → Returns (try_insert_give_back a m key v) InsertSpec
    unfolding try_insert_give_back try_entry
    try_insert_give_back-InsertSpec h k = elim (Bool-cases (Key.is_null key)) [
      | inl null ↦
          ((ok none, m), rw null, inr (record { valid = h; reads = λ _. refl; cause = inl null }))
      | inr real ↦ elim (Bool-cases (leb (max_slots_len - 1) key.idx)) [
        | inl big ↦ (
          (err (v, a.capacity_overflow), m),
          rw (real, big),
          (refl, refl, inl (refl, ground (arith, big))),
        )
        | inr small ↦ elim (Bool-cases (ltb (length m.slots) (key.idx + 1))) [
          | inr long ↦
              let (r, run, t) =
                place-InsertSpec m (record { same_view = λ _. refl; same_version = refl }) h k
                  (ground (arith, long)) in
              (r, give_back-there r real small long run, t)
          | inl short ↦
              elim (Option-cases (a.try_reserve (length m.slots) (key.idx + 1 - length m.slots))) [
                | inr (e, no_room) ↦
                    ((err (v, e), m), rw (real, small, short, no_room), (refl, refl, inr no_room))
                | inl room ↦
                    let (r, run, t) =
                      enter_grown h k (ground (arith, small)) (ground (arith, short)) in
                    (r, give_back-grown r real small short room run, t)
              ]
        ]
      ]
    ]

  -- A value that is inserted into a valid map under a key of version 2 ^ 31 or more, where the
  -- slot is there and vacant, is dropped: the vacant slot's version 0 counts as newer. The call
  -- reports success without an old value, changes nothing, and the key stands for nothing.
  pub try_insert-dropped :
      {R : Type ℓ} (a : Allocator R) (m : SecondaryMap V) (key : KeyData) (v : V)
      → IsValid m
      → IsKey key
      → 2 ^ 31 ≤ key.version
      → get_elem? m.slots key.idx ≡ some vacant
      → (try_insert a m key v ≡ done (ok none, m)) × (view m key ≡ none)
  unfolding try_insert try_insert_give_back try_entry classify finish_insert is_older_version
      drop_value
  try_insert-dropped a m key v h k old at =
      let lt = get_elem?-lt m.slots key.idx at in
      let older : leb (2 ^ 31) ((key.version + u32_mod - 0) % u32_mod) ≡ true =
        ground (arith, old, k.version_lt) in
      (
        elim (Bool-cases (Key.is_null key)) [
          | inl null ↦ rw null
          | inr real ↦ ground (arith, real, h.bounded, lt, at, k.odd, older)
        ],
        ground (arith, view_slots-some m.slots key.idx key.version vacant at),
      )
