-- ===== src/Slotmap/Iter/Collect.antt =====
-- A whole iteration yields the entries of the map.
use rustyfill.Prelude.{
  leb, ◌==◌, if◌then◌else◌, Bool-cases, length, get_elem?, All, done, u32_mod, ℕ, zero, suc, ◌+◌,
  ◌-◌, ◌%◌, ◌≤◌, ◌<◌, ◌≡◌, refl, sym, ap, ◌∙◌, inl, inr, Option, none, some, List, [], ◌∷◌, arith,
}
use rustyfill.Slotmap.Key
use rustyfill.Slotmap.Key.{KeyData, key_eq, max_slots_len}
use rustyfill.Slotmap.Basic.{SlotUnion, value, next_free, Slot, SlotMap}
use rustyfill.Slotmap.Basic.Invariant.{SlotIsValid, IsValid, occupancy}
use rustyfill.Slotmap.Basic.View.{stored, view, view_slots}
use rustyfill.Slotmap.Iter.{iter, next, collect, next_from}

module _ {ℓ} {V : Type ℓ} where
  -- The occupied slots with their keys, where the first one has index `i`.
  pub entries_from : ℕ → List (Slot V) → List (KeyData × V)
  entries_from i [] = []
  entries_from i (s ∷ ss) =
      let rest = entries_from (i + 1) ss in
      elim (stored s.u) [
        | some v ↦ (record { idx = i; version = s.version }, v) ∷ rest
        | none ↦ rest
      ]

  unfoldable pub lookup_entry : KeyData → List (KeyData × V) → Option V
  lookup_entry k [] = none
  lookup_entry k ((j, v) ∷ es) = if key_eq j k then some v else lookup_entry k es

  next_from-value :
      (n i version : ℕ) (v : V) (ss : List (Slot V))
      → version % 2 ≡ 1
      → 0 < n
      → i < u32_mod
      → next_from n i (record { u = value v; version = version } ∷ ss)
        ≡ done (
          some (record { idx = i; version = version }, v),
          record { num_left = n - 1; at = i + 1; rest = ss },
        )
  unfolding next_from Key.new
  next_from-value n i version v ss odd pos lt = ground arith

  next_from-vacant :
      (n i version f : ℕ) (ss : List (Slot V))
      → version % 2 ≡ 0
      → next_from n i (record { u = next_free f; version = version } ∷ ss) ≡ next_from n (i + 1) ss
  unfolding next_from
  next_from-vacant n i version f ss even = ground arith

  -- One step of the loop, given the loop over the slots behind it.
  abbrev Collects : ℕ → ℕ → ℕ → List (Slot V) → Type ℓ
  Collects rounds n i ss =
      collect next (suc rounds) (record { num_left = n; at = i; rest = ss })
      ≡ done (some (entries_from i ss))

  collect-step :
      (u : SlotUnion V) (version : ℕ) (ss : List (Slot V)) (rounds n i : ℕ)
      → SlotIsValid (record { u = u; version = version })
      → n ≡ version % 2 + occupancy ss
      → i < u32_mod
      → ((r m : ℕ) → m ≡ occupancy ss → length ss ≤ r → Collects r m (i + 1) ss)
      → length ss < rounds
      → Collects rounds n i (record { u = u; version = version } ∷ ss)
  unfolding collect next entries_from
  collect-step (value v) version ss zero n i valid c b ih r = absurd (omega arith)
  collect-step (value v) version ss (suc rounds) n i valid c b ih r =
      rw (next_from-value n i version v ss valid.1 (omega (arith, valid.1)) b)
        (rw (ih rounds (n - 1) (omega (arith, valid.1)) (omega arith)))
  collect-step (next_free f) version ss rounds n i valid c b ih r =
      rw (next_from-vacant n i version f ss valid.1)
        (ih rounds n (omega (arith, valid.1)) (omega arith))

  -- The loop, at slots that are valid and counted.
  collect-entries_from :
      (ss : List (Slot V)) (rounds n i : ℕ)
      → All SlotIsValid ss
      → n ≡ occupancy ss
      → i + length ss ≤ u32_mod
      → length ss ≤ rounds
      → Collects rounds n i ss
  unfolding collect next entries_from
  collect-entries_from [] rounds n i v c b r = refl
  collect-entries_from (s ∷ ss) rounds n i v c b r =
      collect-step s.u s.version ss rounds n i v.0 c (omega arith)
        (λ r' m e l. collect-entries_from ss r' m (i + 1) v.1 e (omega arith) l) r

  -- The entries of a map, in the order of their slots.
  abbrev pub entries : SlotMap V → List (KeyData × V)
  entries m = entries_from 0 m.slots

  lookup_entry-slot :
      (u : SlotUnion V) (version i : ℕ) (ss : List (Slot V)) (k : KeyData)
      → lookup_entry k (entries_from (i + 1) ss)
        ≡ (if leb (i + 1) k.idx then view_slots ss (k.idx - (i + 1)) k.version else none)
      → lookup_entry k (entries_from i (record { u = u; version = version } ∷ ss)) ≡ (
          if leb i k.idx
          then view_slots (record { u = u; version = version } ∷ ss) (k.idx - i) k.version
          else none)
  unfolding lookup_entry entries_from view_slots
  lookup_entry-slot (value v) version i ss k ih = elim (Bool-cases (leb (i + 1) k.idx)) [
    | inl later ↦
        let e : k.idx - i ≡ suc (k.idx - (i + 1)) = ground (arith, later) in
        rw e (ground (arith, ih, later))
    | inr first ↦ elim (Bool-cases (i == k.idx)) [
      | inl here ↦ let e : k.idx - i ≡ 0 = ground (arith, here) in rw e (ground (arith, ih, here))
      | inr before ↦ ground (arith, ih, before, first)
    ]
  ]
  lookup_entry-slot (next_free n) version i ss k ih = elim (Bool-cases (leb (i + 1) k.idx)) [
    | inl later ↦
        let e : k.idx - i ≡ suc (k.idx - (i + 1)) = ground (arith, later) in
        rw e (ground (arith, ih, later))
    | inr first ↦ elim (Bool-cases (i == k.idx)) [
      | inl here ↦ let e : k.idx - i ≡ 0 = ground (arith, here) in rw e (ground (arith, ih, here))
      | inr before ↦ ground (arith, ih, before, first)
    ]
  ]

  lookup_entry-entries_from :
      (i : ℕ) (ss : List (Slot V)) (k : KeyData)
      → lookup_entry k (entries_from i ss)
        ≡ (if leb i k.idx then view_slots ss (k.idx - i) k.version else none)
  unfolding lookup_entry entries_from view_slots
  lookup_entry-entries_from i [] k = ground arith
  lookup_entry-entries_from i (s ∷ ss) k =
      lookup_entry-slot s.u s.version i ss k (lookup_entry-entries_from (i + 1) ss k)

  length-entries_from :
      (i : ℕ) (ss : List (Slot V)) → All SlotIsValid ss → length (entries_from i ss) ≡ occupancy ss
  unfolding entries_from
  length-entries_from i [] v = refl
  length-entries_from i (s ∷ ss) v =
      length-slot s.u s.version (length-entries_from (i + 1) ss v.1) v.0
    where
      length-slot :
          (u : SlotUnion V) (version : ℕ)
          → length (entries_from (i + 1) ss) ≡ occupancy ss
          → SlotIsValid (record { u = u; version = version })
          → length (entries_from i (record { u = u; version = version } ∷ ss))
            ≡ version % 2 + occupancy ss
      length-slot (value w) version ih valid = omega (arith, valid.1)
      length-slot (next_free n) version ih valid = omega (arith, valid.1)

  iter-collect :
      (m : SlotMap V) (ss : List (Slot V))
      → length ss ≤ max_slots_len
      → get_elem? ss 0 ≡ some (record { u = next_free 0; version = 0 })
      → All SlotIsValid ss
      → m.num_elems ≡ occupancy ss
      → m.slots ≡ ss
      → collect next (length ss) (iter m) ≡ done (some (entries_from 0 ss))
  unfolding iter entries_from
  iter-collect m [] b s v c e = cc
  iter-collect m (x ∷ ss) b s v c e =
      let t : x ≡ record { u = next_free 0; version = 0 } = cc in
      rw (e, t)
        (collect-entries_from ss (length ss) m.num_elems 1 v.1
          (c ∙ ap (λ (y : Slot V). y.version % 2 + occupancy ss) t ∙ omega arith) (omega arith)
          (omega arith))

  -- Iterating over a valid map never panics in its `expect`, and stops within the vector's length;
  -- it yields as many pairs as `len` says, and a key is found among them with exactly the value
  -- that it stands for.
  pub iter-entries :
      (m : SlotMap V) (free : List ℕ)
      → IsValid m free
      → (collect next (length m.slots) (iter m) ≡ done (some (entries m)))
        × (length (entries m) ≡ m.num_elems)
        × ((k : KeyData) → lookup_entry k (entries m) ≡ view m k)
  iter-entries m free h = (
    iter-collect m m.slots h.bounded h.sentinel h.slots_valid h.counted refl,
    length-entries_from 0 m.slots h.slots_valid ∙ sym h.counted,
    λ k. ground (arith, lookup_entry-entries_from 0 m.slots k),
  )
