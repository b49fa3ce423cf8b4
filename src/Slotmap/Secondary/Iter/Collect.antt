-- ===== src/Slotmap/Secondary/Iter/Collect.antt =====
-- A whole iteration over a secondary map yields its entries.
use rustyfill.Prelude.{
  leb, ◌==◌, if◌then◌else◌, Bool-cases, length, All, done, u32_mod, ℕ, zero, suc, ◌+◌, ◌-◌, ◌%◌,
  ◌≤◌, ◌<◌, ◌≡◌, refl, sym, ◌∙◌, inl, inr, none, some, List, [], ◌∷◌, arith,
}
use rustyfill.Slotmap.Key
use rustyfill.Slotmap.Key.{KeyData}
use rustyfill.Slotmap.Iter.Collect.{lookup_entry}
use rustyfill.Slotmap.Secondary.{Slot, occupied, vacant, SecondaryMap}
use rustyfill.Slotmap.Secondary.Invariant.{SlotIsValid, occupancy, IsValid, view, view_slots}
use rustyfill.Slotmap.Secondary.Iter.{iter, next, collect, next_from}

module _ {ℓ} {V : Type ℓ} where
  -- The occupied slots with their keys, where the first one has index `i`.
  unfoldable pub entries_from : ℕ → List (Slot V) → List (KeyData × V)
  entries_from i [] = []
  entries_from i (occupied v version ∷ ss) =
      (record { idx = i; version = version }, v) ∷ entries_from (i + 1) ss
  entries_from i (vacant ∷ ss) = entries_from (i + 1) ss

  -- The entries of a map, in the order of their slots.
  abbrev pub entries : SecondaryMap V → List (KeyData × V)
  entries m = entries_from 0 m.slots

  pub next_from-occupied :
      (n i version : ℕ) (v : V) (ss : List (Slot V))
      → version % 2 ≡ 1
      → 0 < n
      → i < u32_mod
      → next_from n i (occupied v version ∷ ss)
        ≡ done (
          some (record { idx = i; version = version }, v),
          record { num_left = n - 1; at = i + 1; rest = ss },
        )
  unfolding next_from Key.new
  next_from-occupied n i version v ss odd pos lt = ground arith

  pub next_from-vacant :
      (n i : ℕ) (ss : List (Slot V)) → next_from n i (vacant ∷ ss) ≡ next_from n (i + 1) ss
  unfolding next_from
  next_from-vacant n i ss = refl

  collect-entries_from :
      (ss : List (Slot V)) (rounds n i : ℕ)
      → All SlotIsValid ss
      → n ≡ occupancy ss
      → i + length ss ≤ u32_mod
      → length ss ≤ rounds
      → collect (suc rounds) (record { num_left = n; at = i; rest = ss })
        ≡ done (some (entries_from i ss))
  unfolding collect next entries_from next_from
  collect-entries_from [] rounds n i v c b r = refl
  collect-entries_from (occupied w version ∷ ss) zero n i v c b r = absurd (omega arith)
  collect-entries_from (occupied w version ∷ ss) (suc rounds) n i v c b r =
      rw (next_from-occupied n i version w ss v.0.1 (omega arith) (omega arith)) (
        rw (
          collect-entries_from ss rounds (n - 1) (i + 1) v.1 (omega arith) (omega arith)
            (omega arith)))
  collect-entries_from (vacant ∷ ss) rounds n i v c b r =
      collect-entries_from ss rounds n (i + 1) v.1 (omega arith) (omega arith) (omega arith)

  length-entries_from : (i : ℕ) (ss : List (Slot V)) → length (entries_from i ss) ≡ occupancy ss
  unfolding entries_from
  length-entries_from i [] = refl
  length-entries_from i (occupied v version ∷ ss) = omega (arith, length-entries_from (i + 1) ss)
  length-entries_from i (vacant ∷ ss) = omega (arith, length-entries_from (i + 1) ss)

  lookup_entry-slot :
      (s : Slot V) (i : ℕ) (ss : List (Slot V)) (k : KeyData)
      → lookup_entry k (entries_from (i + 1) ss)
        ≡ (if leb (i + 1) k.idx then view_slots ss (k.idx - (i + 1)) k.version else none)
      → lookup_entry k (entries_from i (s ∷ ss))
        ≡ (if leb i k.idx then view_slots (s ∷ ss) (k.idx - i) k.version else none)
  unfolding lookup_entry entries_from view_slots
  lookup_entry-slot (occupied v version) i ss k ih = elim (Bool-cases (leb (i + 1) k.idx)) [
    | inl later ↦
        let e : k.idx - i ≡ suc (k.idx - (i + 1)) = ground (arith, later) in
        rw e (ground (arith, ih, later))
    | inr first ↦ elim (Bool-cases (i == k.idx)) [
      | inl here ↦ let e : k.idx - i ≡ 0 = ground (arith, here) in rw e (ground (arith, ih, here))
      | inr before ↦ ground (arith, ih, before, first)
    ]
  ]
  lookup_entry-slot vacant i ss k ih = elim (Bool-cases (leb (i + 1) k.idx)) [
    | inl later ↦
        let e : k.idx - i ≡ suc (k.idx - (i + 1)) = ground (arith, later) in
        rw e (ground (arith, ih, later))
    | inr first ↦ elim (Bool-cases (i == k.idx)) [
      | inl here ↦ let e : k.idx - i ≡ 0 = ground (arith, here) in rw e (ground (arith, ih, here))
      | inr before ↦ ground (arith, ih, before, first)
    ]
  ]

  lookup_entry-entries_from :
      (i : ℕ) (ss : List (Slot V)) (k : KeyData)
      → lookup_entry k (entries_from i ss)
        ≡ (if leb i k.idx then view_slots ss (k.idx - i) k.version else none)
  unfolding lookup_entry entries_from view_slots
  lookup_entry-entries_from i [] k = ground arith
  lookup_entry-entries_from i (s ∷ ss) k =
      lookup_entry-slot s i ss k (lookup_entry-entries_from (i + 1) ss k)

  -- Iterating over a valid secondary map never panics in its `expect`, and stops within the
  -- vector's length and one more round; it yields as many pairs as `len` says, and a key is found
  -- among them with exactly the value that it stands for.
  pub secondary_iter-entries :
      (m : SecondaryMap V)
      → IsValid m
      → (collect (length m.slots + 1) (iter m) ≡ done (some (entries m)))
        × (length (entries m) ≡ m.num_elems)
        × ((k : KeyData) → lookup_entry k (entries m) ≡ view m k)
  unfolding iter
  secondary_iter-entries m h = (
    (let e : length m.slots + 1 ≡ suc (length m.slots) = omega arith in
        rw e (
          collect-entries_from m.slots (length m.slots) m.num_elems 0 h.slots_valid h.counted
            (omega (arith, h.bounded)) (omega arith))),
    length-entries_from 0 m.slots ∙ sym h.counted,
    λ k. ground (arith, lookup_entry-entries_from 0 m.slots k),
  )
