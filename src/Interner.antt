-- ===== src/Interner.antt =====
-- `rustyfill/src/collections/interner/mod.rs`: the table of weak references behind `intern`, over the
-- counts of `Arc`. An `Arc` or a `Weak` is the address of its allocation.
pub mod Search
pub mod Created
pub mod Answer
pub mod Sharing
pub mod Missed
pub mod Growth
pub mod Prune
use rustyfill.Prelude.{
  ◌==◌, if◌then◌else◌, get_elem?, set, Outcome, done, panic, Result, ok, err, ℕ, ◌+◌, Bool, true,
  false, Option, none, some, List, [], ◌∷◌, map,
}
use rustyfill.Arc.{
  ArcInner, new, try_upgrade, Upgrade, upgraded, gone, refused, try_downgrade, drop_arc, drop_weak,
}

-- The allocations, and the address of the next one.
pub record Memory {ℓ} (T : Type ℓ) : Type ℓ where
  pub cells : ℕ → ArcInner T
  pub next : ℕ

-- An entry of a shard's raw table: the hash that it was stored under last, the `u64` key, and the
-- address in its `Weak`.
pub record Bucket : Type 0 where
  pub probe : ℕ
  pub key : ℕ
  pub weak : ℕ

pub record Store {ℓ} (T : Type ℓ) : Type ℓ where
  pub memory : Memory T
  pub table : List Bucket

-- What `RawTable::try_reserve` does: refuse, find room, or grow and store every entry again under
-- the hash that the closure computes from it.
pub data Reserved {ℓ} (R : Type ℓ) : Type ℓ where
  full : R → Reserved R
  kept : Reserved R
  rehashed : Reserved R

-- `TryToOwnedError`, of a reservation, of the new `Arc`, and of the text's own copy.
pub data InternError {ℓ} (R : Type ℓ) : Type ℓ where
  reserve : R → InternError R
  alloc : InternError R
  copy : R → InternError R

-- What the hasher, the hash table and the text's type do: `hash_one` of a text and of a `u64`,
-- whether the search for a hash visits an entry stored under another one, and equality.
pub record Hashing {ℓ} (T : Type ℓ) : Type ℓ where
  pub hash_one : T → ℕ
  pub hash_key : ℕ → ℕ
  pub probes : ℕ → ℕ → Bool
  pub same : T → T → Bool

-- What one call meets: the answers of the table, the copy and the allocator, and what other threads
-- do to the allocations while it holds the read lock and the write lock, and to all of the store
-- while it holds neither.
pub record Call {ℓ} (T R : Type ℓ) : Type ℓ where
  pub reserves : Reserved R
  pub try_to_owned : T → Result T R
  pub allocates : Bool
  pub during_read : Memory T → Memory T
  pub unlocked : Store T → Store T
  pub during_write : Memory T → Memory T

-- Adds an entry in front to what a search of the others found.
abbrev pub deeper : Option (ℕ × ℕ) → Option (ℕ × ℕ)
deeper none = none
deeper (some (i, a)) = some (i + 1, a)

module _ {ℓ} {T : Type ℓ} where
  unfoldable pub write : Memory T → ℕ → ArcInner T → Memory T
  write m a inner = record m { cells = λ x. if x == a then inner else m.cells x }

  unfoldable pub upgrade_at : Memory T → ℕ → Upgrade × Memory T
  unfolding write try_upgrade
  upgrade_at m a = let r = try_upgrade (m.cells a) in (r.0, write m a r.1)

  module _ (h : Hashing T) where
    -- The closure that `find` is called with: it takes an `Arc`, compares the text and drops it.
    unfoldable pub compared : T → ℕ → Upgrade × Memory T → Bool × Memory T
    unfolding write drop_arc
    compared text a (upgraded, m) =
        (h.same (m.cells a).payload text, write m a (drop_arc (m.cells a)))
    compared text a (gone, m) = (false, m)
    compared text a (refused, m) = (false, m)

    unfoldable pub matches : T → ℕ → Memory T → Bool × Memory T
    unfolding compared upgrade_at
    matches text a m = compared text a (upgrade_at m a)

    -- `RawTable::find`: the index of the first entry that the closure takes, and its `Weak`.
    unfoldable pub find : T → List Bucket → Memory T → Option (ℕ × ℕ) × Memory T
    unfolding matches
    find text [] m = (none, m)
    find text (b ∷ bs) m =
        if h.probes (h.hash_one text) b.probe
        then (let (hit, m') = matches text b.weak m in
            let rest = find text bs m' in
            if hit then (some (0, b.weak), m') else (deeper rest.0, rest.1))
        else (let rest = find text bs m in (deeper rest.0, rest.1))

    abbrev pub rehash : Bucket → Bucket
    rehash b = record b { probe = h.hash_key b.key }

    module _ {R : Type ℓ} (c : Call T R) where
      -- Step 1: the search under the read lock, and the upgrade of what it found.
      unfoldable pub hit_or_miss : ℕ → List Bucket → Upgrade × Memory T → Option ℕ × Store T
      hit_or_miss a bs (upgraded, m) = (some a, record { memory = m; table = bs })
      hit_or_miss a bs (gone, m) = (none, record { memory = m; table = bs })
      hit_or_miss a bs (refused, m) = (none, record { memory = m; table = bs })

      unfoldable pub look_up : List Bucket → Option (ℕ × ℕ) × Memory T → Option ℕ × Store T
      unfolding hit_or_miss upgrade_at
      look_up bs (none, m) = (none, record { memory = m; table = bs })
      look_up bs (some (i, a), m) = hit_or_miss a bs (upgrade_at (c.during_read m) a)

      unfoldable pub fast_path : T → Store T → Option ℕ × Store T
      unfolding find look_up
      fast_path text s = look_up s.table (find text s.table s.memory)

      -- `try_reserve(1, ..)`, whose closure hashes the stored key.
      unfoldable pub reserve_one : List Bucket → Result (List Bucket) R
      reserve_one bs = elim c.reserves [
        | full e ↦ err e
        | kept ↦ ok bs
        | rehashed ↦ ok (map rehash bs)
      ]

      -- `create_new_arc`
      unfoldable pub create_new_arc : T → Memory T → Result (ℕ × Memory T) (InternError R)
      unfolding write new
      create_new_arc text m = elim (c.try_to_owned text) [
        | err e ↦ err (copy e)
        | ok owned ↦
            if c.allocates
            then ok
                (m.next, record { cells = (write m m.next (new owned)).cells; next = m.next + 1 })
            else err alloc
      ]

      unfoldable pub downgrade_at : Memory T → ℕ → Bool × Memory T
      unfolding write try_downgrade
      downgrade_at m a = let r = try_downgrade (m.cells a) in (r.0, write m a r.1)

      -- The `Weak` of entry `i` is replaced by one of `a`, and the old one is dropped.
      unfoldable pub replace_weak : ℕ → ℕ → ℕ → Memory T → List Bucket → Store T
      unfolding write drop_weak
      replace_weak i old a m bs = record {
        memory = write m old (drop_weak (m.cells old));
        table = elim (get_elem? bs i) [ none ↦ bs | some b ↦ set bs i (record b { weak = a }) ];
      }

      -- The new `Arc` in the place of a stale entry, if its `Weak` was counted.
      unfoldable pub store_weak :
          ℕ → ℕ → List Bucket → ℕ → Bool × Memory T → Result ℕ (InternError R) × Store T
      unfolding replace_weak
      store_weak i old bs a (true, m) = (ok a, replace_weak i old a m bs)
      store_weak i old bs a (false, m) = (ok a, record { memory = m; table = bs })

      unfoldable pub record_weak :
          ℕ
          → ℕ
          → List Bucket
          → Result (ℕ × Memory T) (InternError R)
          → Memory T
          → Result ℕ (InternError R) × Store T
      unfolding downgrade_at store_weak
      record_weak i old bs (err e) m = (err e, record { memory = m; table = bs })
      record_weak i old bs (ok (a, m')) m = store_weak i old bs a (downgrade_at m' a)

      -- Step 2 behind the reservation, with an entry that the search found.
      unfoldable pub reuse_or_recycle :
          T → ℕ → ℕ → List Bucket → Upgrade × Memory T → Result ℕ (InternError R) × Store T
      unfolding create_new_arc record_weak
      reuse_or_recycle text i old bs (upgraded, m) = (ok old, record { memory = m; table = bs })
      reuse_or_recycle text i old bs (gone, m) = record_weak i old bs (create_new_arc text m) m
      reuse_or_recycle text i old bs (refused, m) = record_weak i old bs (create_new_arc text m) m

      -- `insert_no_grow` of the hash and the new `Weak`, which was expected to be counted.
      unfoldable pub insert_no_grow :
          ℕ → List Bucket → ℕ → Bool × Memory T → Outcome (Result ℕ (InternError R) × Store T)
      insert_no_grow hash bs a (true, m) =
          done (
            ok a,
            record { memory = m; table = record { probe = hash; key = hash; weak = a } ∷ bs },
          )
      insert_no_grow hash bs a (false, m) = panic

      unfoldable pub record_new :
          ℕ
          → List Bucket
          → Result (ℕ × Memory T) (InternError R)
          → Memory T
          → Outcome (Result ℕ (InternError R) × Store T)
      unfolding downgrade_at insert_no_grow
      record_new hash bs (err e) m = done (err e, record { memory = m; table = bs })
      record_new hash bs (ok (a, m')) m = insert_no_grow hash bs a (downgrade_at m' a)

      unfoldable pub write_locked :
          T → List Bucket → Option (ℕ × ℕ) × Memory T → Outcome (Result ℕ (InternError R) × Store T)
      unfolding reuse_or_recycle upgrade_at create_new_arc record_new
      write_locked text bs (some (i, a), m) =
          done (reuse_or_recycle text i a bs (upgrade_at (c.during_write m) a))
      write_locked text bs (none, m) = record_new (h.hash_one text) bs (create_new_arc text m) m

      unfoldable pub reserved_or_not :
          T
          → Memory T
          → List Bucket
          → Result (List Bucket) R
          → Outcome (Result ℕ (InternError R) × Store T)
      unfolding find write_locked
      reserved_or_not text m bs (err e) = done (err (reserve e), record { memory = m; table = bs })
      reserved_or_not text m _ (ok bs) = write_locked text bs (find text bs m)

      unfoldable pub slow_path : T → Store T → Outcome (Result ℕ (InternError R) × Store T)
      unfolding reserve_one reserved_or_not
      slow_path text s = reserved_or_not text s.memory s.table (reserve_one s.table)

      unfoldable pub unless_hit :
          T → Option ℕ × Store T → Outcome (Result ℕ (InternError R) × Store T)
      unfolding slow_path
      unless_hit text (some a, s) = done (ok a, s)
      unless_hit text (none, s) = slow_path text (c.unlocked s)

      unfoldable pub do_intern_with_key : T → Store T → Outcome (Result ℕ (InternError R) × Store T)
      unfolding fast_path unless_hit
      do_intern_with_key text s = unless_hit text (fast_path text s)

  -- Whether `prune_unlocked_shards` keeps an entry: it drops the `Arc` that it was given, or the
  -- entry's `Weak` together with the entry.
  unfoldable pub settle : Bucket → Upgrade × Memory T → Bool × Memory T
  unfolding write drop_arc drop_weak
  settle b (upgraded, m) = (true, write m b.weak (drop_arc (m.cells b.weak)))
  settle b (gone, m) = (false, write m b.weak (drop_weak (m.cells b.weak)))
  settle b (refused, m) = (false, write m b.weak (drop_weak (m.cells b.weak)))

  -- The scan of one shard.
  unfoldable pub prune_table : List Bucket → Memory T → List Bucket × Memory T
  unfolding upgrade_at settle
  prune_table [] m = ([], m)
  prune_table (b ∷ bs) m =
      let (keep, m') = settle b (upgrade_at m b.weak) in
      let rest = prune_table bs m' in (if keep then b ∷ rest.0 else rest.0, rest.1)

  -- `prune_unlocked_shards`, with each shard's table and whether another thread locks it.
  unfoldable pub prune_unlocked_shards :
      List (Bool × List Bucket) → Memory T → List (Bool × List Bucket) × Memory T
  unfolding prune_table
  prune_unlocked_shards [] m = ([], m)
  prune_unlocked_shards ((locked, bs) ∷ shards) m =
      let (bs', m') = if locked then (bs, m) else prune_table bs m in
      let rest = prune_unlocked_shards shards m' in ((locked, bs') ∷ rest.0, rest.1)
