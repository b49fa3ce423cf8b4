-- ===== src/Slotmap/Secondary/Iter/Inclusion.antt =====
-- The slots whose values all stand in other slots, and the counting argument.
use rustyfill.Prelude.{
  Option-cases, ℕ, zero, suc, ◌≤◌, ◌≡◌, refl, sym, ◌∙◌, inl, inr, some, List, [], ◌∷◌, arith,
}
use rustyfill.Slotmap.Secondary.{Slot, occupied, vacant}
use rustyfill.Slotmap.Secondary.Invariant.{slot_count, occupancy, view_slots, slot_view}

module _ {ℓ} {V : Type ℓ} where
  -- Every value of the first slots stands in the second.
  abbrev pub Included : List (Slot V) → List (Slot V) → Type ℓ
  Included ss ts =
      (i version : ℕ) (v : V) → view_slots ss i version ≡ some v → view_slots ts i version ≡ some v

  slot_view-count :
      (s : Slot V) (version : ℕ) (v : V) → slot_view s version ≡ some v → slot_count s ≡ 1
  slot_view-count (occupied w v') version v e = refl
  slot_view-count vacant version v e = absurd (ground (arith, e))

  Included-tail :
      (s t : Slot V) (ss ts : List (Slot V)) → Included (s ∷ ss) (t ∷ ts) → Included ss ts
  unfolding view_slots
  Included-tail s t ss ts h i version v e = h (suc i) version v e

  slot_count-le :
      (s t : Slot V)
      → ((version : ℕ) (v : V) → slot_view s version ≡ some v → slot_view t version ≡ some v)
      → slot_count s ≤ slot_count t
  slot_count-le vacant t h = omega arith
  slot_count-le (occupied v version) t h =
      omega (arith, slot_view-count t version v (h version v (ground arith)))

  Included-nil : (ss : List (Slot V)) → Included ss [] → occupancy ss ≡ 0
  unfolding view_slots
  Included-nil [] h = refl
  Included-nil (vacant ∷ ss) h = omega (arith, Included-nil ss (λ i. h (suc i)))
  Included-nil (occupied v version ∷ ss) h =
      let e : slot_view (occupied v version) version ≡ some v = ground arith in
      absurd (cc (h 0 version v e))

  pub Included-le : (ss ts : List (Slot V)) → Included ss ts → occupancy ss ≤ occupancy ts
  unfolding view_slots
  Included-le [] ts h = omega arith
  Included-le (s ∷ ss) [] h = omega (arith, Included-nil (s ∷ ss) h)
  Included-le (s ∷ ss) (t ∷ ts) h =
      omega (arith, slot_count-le s t (h 0), Included-le ss ts (Included-tail s t ss ts h))

  occupancy_nil : (ts : List (Slot V)) → occupancy ts ≡ 0 → Included ts []
  unfolding view_slots
  occupancy_nil [] c i version v e = e
  occupancy_nil (t ∷ ts) c zero version v e = absurd (omega (arith, slot_view-count t version v e))
  occupancy_nil (t ∷ ts) c (suc i) version v e = occupancy_nil ts (omega arith) i version v e

  slot_back :
      (s t : Slot V)
      → ((version : ℕ) (v : V) → slot_view s version ≡ some v → slot_view t version ≡ some v)
      → slot_count s ≡ slot_count t
      → (version : ℕ) (v : V) → slot_view t version ≡ some v
      → slot_view s version ≡ some v
  slot_back s vacant h c version v e = absurd (ground (arith, e))
  slot_back vacant (occupied w w') h c version v e = absurd (omega arith)
  slot_back (occupied u u') (occupied w w') h c version v e =
      let same : slot_view (occupied w w') u' ≡ some u = h u' u (ground arith) in
      ground (arith, same, e)

  -- Included slots with the same count are the same: the count leaves no room for others.
  pub Included-sym :
      (ss ts : List (Slot V)) → Included ss ts → occupancy ss ≡ occupancy ts → Included ts ss
  unfolding view_slots
  Included-sym [] ts h c i version v e = occupancy_nil ts (sym c) i version v e
  Included-sym (s ∷ ss) [] h c i version v e = cc
  Included-sym (s ∷ ss) (t ∷ ts) h c zero version v e =
      slot_back s t (h 0)
        (omega (arith, slot_count-le s t (h 0), Included-le ss ts (Included-tail s t ss ts h)))
        version v e
  Included-sym (s ∷ ss) (t ∷ ts) h c (suc i) version v e =
      Included-sym ss ts (Included-tail s t ss ts h)
        (omega (arith, slot_count-le s t (h 0), Included-le ss ts (Included-tail s t ss ts h))) i
        version v e

  -- The same inclusion by the slots' values.
  pub Included-view :
      (ss ts : List (Slot V))
      → Included ss ts
      → Included ts ss
      → (i version : ℕ) → view_slots ss i version ≡ view_slots ts i version
  Included-view ss ts h g i version = elim (Option-cases (view_slots ss i version)) [
    | inr (v, e) ↦ e ∙ sym (h i version v e)
    | inl out ↦ elim (Option-cases (view_slots ts i version)) [
      | inl out' ↦ out ∙ sym out'
      | inr (v, e) ↦ absurd (ground (arith, out, g i version v e))
    ]
  ]

  pub view-Included :
      (ss ts : List (Slot V))
      → ((i version : ℕ) → view_slots ss i version ≡ view_slots ts i version)
      → Included ss ts
  view-Included ss ts h i version v e = sym (h i version) ∙ e
