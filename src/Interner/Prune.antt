-- ===== src/Interner/Prune.antt =====
-- Pruning keeps exactly the entries of live allocations.
use rustyfill.Prelude.{
  ◌==◌, if◌then◌else◌, Bool-cases, ℕ, ◌+◌, ◌-◌, ◌≡◌, refl, sym, ap, ◌∙◌, inl, inr, Bool, true,
  false, List, [], ◌∷◌, map, arith,
}
use rustyfill.Arc.{ArcInner, drop_weak}
use rustyfill.Interner.{
  Memory, Bucket, write, upgrade_at, settle, prune_table, prune_unlocked_shards,
}
use rustyfill.Interner.Search.{is_live, write_at, write_apart, raised-drop, upgrade_at-cases}
use rustyfill.Interner.Sharing.{apart}

module _ {ℓ} {T : Type ℓ} where
  -- The entries whose allocations are live, and how many others point at an allocation.
  unfoldable pub live_entries : Memory T → List Bucket → List Bucket
  live_entries m [] = []
  live_entries m (b ∷ bs) =
      let rest = live_entries m bs in if is_live (m.cells b.weak) then b ∷ rest else rest

  unfoldable pub stale_at : ℕ → Memory T → List Bucket → ℕ
  stale_at a m [] = 0
  stale_at a m (b ∷ bs) =
      let rest = stale_at a m bs in
      if is_live (m.cells b.weak) then rest else if a == b.weak then rest + 1 else rest

  -- The allocation with so many `Weak`s fewer.
  abbrev pub fewer : ℕ → ArcInner T → ArcInner T
  fewer n i = record i { weak = i.weak - n }

  abbrev SameStrong : Memory T → Memory T → Type 0
  SameStrong m m' = (a : ℕ) → (m'.cells a).strong ≡ (m.cells a).strong

  live_entries_same :
      (m m' : Memory T) (bs : List Bucket)
      → SameStrong m m'
      → live_entries m' bs ≡ live_entries m bs
  unfolding live_entries
  live_entries_same m m' [] t = refl
  live_entries_same m m' (b ∷ bs) t = rw (live_entries, t b.weak, live_entries_same m m' bs t) refl

  stale_at_same :
      (m m' : Memory T) (a : ℕ) (bs : List Bucket)
      → SameStrong m m'
      → stale_at a m' bs ≡ stale_at a m bs
  unfolding stale_at
  stale_at_same m m' a [] t = refl
  stale_at_same m m' a (b ∷ bs) t = rw (stale_at, t b.weak, stale_at_same m m' a bs t) refl

  -- The memory without the `Weak` of a stale entry.
  abbrev dropped : Memory T → ℕ → Memory T
  dropped m a = write m a (drop_weak (m.cells a))

  dropped_at : (m : Memory T) (a : ℕ) → (dropped m a).cells a ≡ fewer 1 (m.cells a)
  unfolding drop_weak
  dropped_at m a = write_at m a (drop_weak (m.cells a))

  dropped_strong : (m : Memory T) (a : ℕ) → SameStrong m (dropped m a)
  unfolding drop_weak
  dropped_strong m a x = elim (Bool-cases (x == a)) [
    | inl e ↦
        let w : x ≡ a = ground (arith, e) in
        ap (λ y. ((dropped m a).cells y).strong) w
        ∙ (ap (λ i. i.strong) (dropped_at m a) ∙ ap (λ y. (m.cells y).strong) (sym w))
    | inr e ↦ ap (λ i. i.strong) (write_apart m a x (drop_weak (m.cells a)) (apart x a e))
  ]

  -- What the scan of a table leaves.
  pub record Pruned (bs : List Bucket) (m : Memory T) (r : List Bucket × Memory T) : Type ℓ where
    pub kept : r.0 ≡ live_entries m bs
    pub cells : (a : ℕ) → r.1.cells a ≡ fewer (stale_at a m bs) (m.cells a)

  settle_live :
      (b : Bucket) (m : Memory T)
      → is_live (m.cells b.weak) ≡ true
      → settle b (upgrade_at m b.weak) ≡ (true, m)
  unfolding settle
  settle_live b m l = elim (upgrade_at-cases m b.weak) [
    | inl (_, u) ↦ ap (settle b) u ∙ ap (λ n. (true, n)) (raised-drop m b.weak)
    | inr (inl (d, u)) ↦ absurd (cc)
    | inr (inr (d, u)) ↦ absurd (cc)
  ]

  settle_stale :
      (b : Bucket) (m : Memory T)
      → is_live (m.cells b.weak) ≡ false
      → settle b (upgrade_at m b.weak) ≡ (false, dropped m b.weak)
  unfolding settle
  settle_stale b m l = elim (upgrade_at-cases m b.weak) [
    | inl (d, u) ↦ absurd (cc)
    | inr (inl (_, u)) ↦ ap (settle b) u
    | inr (inr (_, u)) ↦ ap (settle b) u
  ]

  pruned_live :
      (b : Bucket) (bs : List Bucket) (m : Memory T)
      → is_live (m.cells b.weak) ≡ true
      → prune_table (b ∷ bs) m ≡ (b ∷ (prune_table bs m).0, (prune_table bs m).1)
  unfolding prune_table
  pruned_live b bs m l = rw (prune_table, settle_live b m l) refl

  pruned_stale :
      (b : Bucket) (bs : List Bucket) (m : Memory T)
      → is_live (m.cells b.weak) ≡ false
      → prune_table (b ∷ bs) m ≡ prune_table bs (dropped m b.weak)
  unfolding prune_table
  pruned_stale b bs m l = rw (prune_table, settle_stale b m l) refl

  Pruned-none : (m : Memory T) → Pruned [] m (prune_table [] m)
  unfolding prune_table live_entries stale_at
  Pruned-none m = record {
    kept = refl;
    cells = λ a. ap (λ n. record (m.cells a) { weak = n }) (omega arith);
  }

  -- The `Weak`s that are off the count, at the entry's allocation and at every other.
  counted_off :
      (m : Memory T) (b a n : ℕ)
      → fewer n ((dropped m b).cells a) ≡ fewer (if a == b then n + 1 else n) (m.cells a)
  counted_off m b a n = elim (Bool-cases (a == b)) [
    | inl e ↦
        let w : a ≡ b = ground (arith, e) in
        rw (e) (
          ap (fewer n)
            (ap (dropped m b).cells w ∙ (dropped_at m b ∙ ap (λ x. fewer 1 (m.cells x)) (sym w)))
          ∙ ap (λ k. record (m.cells a) { weak = k }) (omega arith))
    | inr e ↦ rw (e) (ap (fewer n) (write_apart m b a (drop_weak (m.cells b)) (apart a b e)))
  ]

  -- Scanning a table keeps exactly the entries whose allocations are live, takes one `Weak` off
  -- the count for each of the others, and leaves the strong counts and the payloads as they were.
  pub prune_table-Pruned : (bs : List Bucket) (m : Memory T) → Pruned bs m (prune_table bs m)
  unfolding live_entries stale_at
  prune_table-Pruned [] m = Pruned-none m
  prune_table-Pruned (b ∷ bs) m = elim (Bool-cases (is_live (m.cells b.weak))) [
    | inl l ↦
        let t = prune_table-Pruned bs m in
        rw (pruned_live b bs m l) (record {
          kept = rw (live_entries, l) (ap (◌∷◌ b) t.kept);
          cells = λ a. rw (stale_at, l) (t.cells a);
        })
    | inr l ↦
        let m' = dropped m b.weak in
        let t = prune_table-Pruned bs m' in
        let same = dropped_strong m b.weak in
        rw (pruned_stale b bs m l) (record {
          kept = rw (live_entries, l) (t.kept ∙ live_entries_same m m' bs same);
          cells = λ a.
              rw (stale_at, l)
                (t.cells a
                  ∙ (ap (λ n. fewer n (m'.cells a)) (stale_at_same m m' a bs same)
                      ∙ counted_off m b.weak a (stale_at a m bs)));
        })
  ]

  -- The scan of a table with a lock, and how it leaves the counts.
  abbrev pub live_unless : Memory T → Bool × List Bucket → Bool × List Bucket
  live_unless m (locked, bs) = (locked, if locked then bs else live_entries m bs)

  live_unless_same :
      (m m' : Memory T) (shards : List (Bool × List Bucket))
      → SameStrong m m'
      → map (live_unless m') shards ≡ map (live_unless m) shards
  live_unless_same m m' [] t = refl
  live_unless_same m m' ((true, bs) ∷ shards) t =
      ap (◌∷◌ (true, bs)) (live_unless_same m m' shards t)
  live_unless_same m m' ((false, bs) ∷ shards) t =
      rw (live_entries_same m m' bs t)
        (ap (◌∷◌ (false, live_entries m bs)) (live_unless_same m m' shards t))

  -- `prune_unlocked_shards` leaves the shards that another thread locks, keeps of every other one
  -- exactly the entries whose allocations are live, and changes no strong count.
  pub prune_unlocked_shards-live :
      (shards : List (Bool × List Bucket)) (m : Memory T)
      → ((prune_unlocked_shards shards m).0 ≡ map (live_unless m) shards)
        × ((a : ℕ) → ((prune_unlocked_shards shards m).1.cells a).strong ≡ (m.cells a).strong)
  unfolding prune_unlocked_shards
  prune_unlocked_shards-live [] m = (refl, λ a. refl)
  prune_unlocked_shards-live ((true, bs) ∷ shards) m =
      let (kept, same) = prune_unlocked_shards-live shards m in (ap (◌∷◌ (true, bs)) kept, same)
  prune_unlocked_shards-live ((false, bs) ∷ shards) m =
      let t = prune_table-Pruned bs m in
      let m' = (prune_table bs m).1 in
      let (kept, same) = prune_unlocked_shards-live shards m' in
      let strong : SameStrong m m' = λ a. ap (λ i. i.strong) (t.cells a) in
      (rw (t.kept, kept, live_unless_same m m' shards strong) refl, λ a. same a ∙ strong a)
