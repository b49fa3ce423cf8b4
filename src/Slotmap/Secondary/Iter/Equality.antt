-- ===== src/Slotmap/Secondary/Iter/Equality.antt =====
-- The equality of secondary maps compares what their keys stand for.
use rustyfill.Prelude.{
  ◌==◌, Bool-cases, Option-cases, length, All, done, Returns, u32_mod, ℕ, zero, suc, ◌+◌, ◌-◌, ◌≤◌,
  ◌≡◌, refl, sym, ap, ◌∙◌, ◌↔◌, inl, inr, Bool, true, false, Option, some, List, [], ◌∷◌, arith,
}
use rustyfill.Slotmap.Key.{KeyData, IsKey}
use rustyfill.Slotmap.Secondary.{Slot, occupied, vacant, SecondaryMap}
use rustyfill.Slotmap.Secondary.Invariant.{
  SlotIsValid, occupancy, IsValid, view, view_slots, slot_view, read-view,
}
use rustyfill.Slotmap.Secondary.Iter.{iter, next, next_from, same_entry, all_entries, eq}
use rustyfill.Slotmap.Secondary.Iter.Collect.{next_from-occupied}
use rustyfill.Slotmap.Secondary.Iter.Inclusion.{
  Included, Included-sym, Included-le, Included-view, view-Included,
}

module _ {ℓ} {V : Type ℓ} where
  module _ (equal : V → V → Bool) (equal_iff : (a b : V) → (equal a b ≡ true) ↔ (a ≡ b))
      (other : SecondaryMap V) (h : IsValid other) where
    -- The values of the slots from `i` stand in the other map.
    abbrev Agree : ℕ → List (Slot V) → Type ℓ
    Agree i ss =
        (j version : ℕ) (v : V)
        → view_slots ss j version ≡ some v
        → view_slots other.slots (i + j) version ≡ some v

    abbrev SlotAgrees : ℕ → Slot V → Type ℓ
    SlotAgrees i s =
        (version : ℕ) (v : V)
        → slot_view s version ≡ some v
        → view_slots other.slots i version ≡ some v

    Agree-cons :
        (i : ℕ) (s : Slot V) (ss : List (Slot V))
        → SlotAgrees i s
        → Agree (i + 1) ss
        → Agree i (s ∷ ss)
    unfolding view_slots
    Agree-cons i s ss a b zero version v e = let q : i + 0 ≡ i = omega arith in rw q (a version v e)
    Agree-cons i s ss a b (suc j) version v e =
        let q : i + suc j ≡ i + 1 + j = omega arith in rw q (b j version v e)

    Agree-first : (i : ℕ) (s : Slot V) (ss : List (Slot V)) → Agree i (s ∷ ss) → SlotAgrees i s
    unfolding view_slots
    Agree-first i s ss a version v e = let q : i + 0 ≡ i = omega arith in rw q at (a 0 version v e)

    Agree-rest : (i : ℕ) (s : Slot V) (ss : List (Slot V)) → Agree i (s ∷ ss) → Agree (i + 1) ss
    unfolding view_slots
    Agree-rest i s ss a j version v e =
        let q : i + suc j ≡ i + 1 + j = omega arith in rw q at (a (suc j) version v e)

    -- The comparison of one entry.
    same_entry-view :
        (k : KeyData) (v : V)
        → IsKey k
        → Returns (same_entry equal other (k, v)) λ b. (b ≡ true) ↔ (view other k ≡ some v)
    unfolding same_entry
    same_entry-view k v key =
        let got = (read-view other h k key).0 in
        elim (Option-cases (view other k)) [
          | inl e ↦ (false, ground (arith, got, e), (λ q. cc, λ q. absurd (ground (arith, e, q))))
          | inr (w, e) ↦ (
            equal v w,
            ground (arith, got, e),
            (
              λ q. e ∙ ap some (sym ((equal_iff v w).0 q)),
              λ q. let p : w ≡ v = ground (arith, e, q) in (equal_iff v w).1 (sym p),
            ),
          )
        ]

    -- What a run of `all` over the slots from `i` returns.
    abbrev Decides : ℕ → List (Slot V) → Option Bool → Type ℓ
    Decides i ss o = (b : Bool) × (o ≡ some b) × ((b ≡ true) ↔ Agree i ss)

    all_entries-vacant :
        (rounds n i : ℕ) (ss : List (Slot V))
        → Returns
            (all_entries equal other (suc rounds) (record { num_left = n; at = i + 1; rest = ss }))
            (Decides (i + 1) ss)
        → Returns
            (all_entries equal other
              (suc rounds)
              (record { num_left = n; at = i; rest = vacant ∷ ss }))
            (Decides i (vacant ∷ ss))
    unfolding all_entries next next_from
    all_entries-vacant rounds n i ss (o, run, (b, e, q)) = (
      o,
      run,
      (
        b,
        e,
        (
          λ t. Agree-cons i vacant ss (λ version v w. absurd (ground (arith, w))) (q.0 t),
          λ a. q.1 (Agree-rest i vacant ss a),
        ),
      ),
    )

    all_entries_step :
        (rounds n i version : ℕ) (v : V) (ss : List (Slot V)) (b : Bool)
        → next_from n i (occupied v version ∷ ss)
          ≡ done (
            some (record { idx = i; version = version }, v),
            record { num_left = n - 1; at = i + 1; rest = ss },
          )
        → same_entry equal other (record { idx = i; version = version }, v) ≡ done b
        → all_entries equal other
            (suc rounds)
            (record { num_left = n; at = i; rest = occupied v version ∷ ss })
          ≡ elim b [
            | true ↦
                all_entries equal other rounds (record { num_left = n - 1; at = i + 1; rest = ss })
            | false ↦ done (some false)
          ]
    unfolding all_entries next
    all_entries_step rounds n i version v ss b step same = rw (step, same) refl

    all_entries-occupied :
        (rounds n i version : ℕ) (v : V) (ss : List (Slot V)) (b : Bool)
        → all_entries equal other
            (suc rounds)
            (record { num_left = n; at = i; rest = occupied v version ∷ ss })
          ≡ elim b [
            | true ↦
                all_entries equal other rounds (record { num_left = n - 1; at = i + 1; rest = ss })
            | false ↦ done (some false)
          ]
        → ((b ≡ true) ↔ (view_slots other.slots i version ≡ some v))
        → Returns
            (all_entries equal other rounds (record { num_left = n - 1; at = i + 1; rest = ss }))
            (Decides (i + 1) ss)
        → Returns
            (all_entries equal other
              (suc rounds)
              (record { num_left = n; at = i; rest = occupied v version ∷ ss }))
            (Decides i (occupied v version ∷ ss))
    all_entries-occupied rounds n i version v ss true step same (o, run, (b, e, q)) = (
      o,
      step ∙ run,
      (
        b,
        e,
        (
          λ t.
              Agree-cons i (occupied v version) ss (λ version' w p. ground (arith, same.0 refl, p))
                (q.0 t),
          λ a. q.1 (Agree-rest i (occupied v version) ss a),
        ),
      ),
    )
    all_entries-occupied rounds n i version v ss false step same r = (
      some false,
      step,
      (
        false,
        refl,
        (λ t. cc, λ a. same.1 (Agree-first i (occupied v version) ss a version v (ground arith))),
      ),
    )

    all_entries-Agree :
        (ss : List (Slot V)) (rounds n i : ℕ)
        → All SlotIsValid ss
        → n ≡ occupancy ss
        → i + length ss ≤ u32_mod
        → length ss ≤ rounds
        → Returns
            (all_entries equal other (suc rounds) (record { num_left = n; at = i; rest = ss }))
            (Decides i ss)
    unfolding all_entries next next_from view_slots
    all_entries-Agree [] rounds n i v c b r =
        (some true, refl, (true, refl, (λ _ j version w e. cc, λ _. refl)))
    all_entries-Agree (vacant ∷ ss) rounds n i v c b r =
        all_entries-vacant rounds n i ss
          (all_entries-Agree ss rounds n (i + 1) v.1 (omega arith) (omega arith) (omega arith))
    all_entries-Agree (occupied w version ∷ ss) zero n i v c b r = absurd (omega arith)
    all_entries-Agree (occupied w version ∷ ss) (suc rounds) n i v c b r =
        let key : IsKey (record { idx = i; version = version }) = record {
          idx_lt = omega arith;
          version_lt = v.0.0;
          odd = v.0.1;
        } in
        let (same, run, q) = same_entry-view (record { idx = i; version = version }) w key in
        all_entries-occupied (suc rounds) n i version w ss same
          (all_entries_step (suc rounds) n i version w ss same
            (next_from-occupied n i version w ss v.0.1 (omega arith) (omega arith)) run)
          q
          (all_entries-Agree ss rounds (n - 1) (i + 1) v.1 (omega arith) (omega arith)
            (omega arith))

    Agree-Included : (ss : List (Slot V)) → Agree 0 ss → Included ss other.slots
    Agree-Included ss a i version v e = let q : 0 + i ≡ i = omega arith in rw q at (a i version v e)

    Included-Agree : (ss : List (Slot V)) → Included ss other.slots → Agree 0 ss
    Included-Agree ss a i version v e = let q : 0 + i ≡ i = omega arith in rw q (a i version v e)

    -- `==` of two valid maps ends within a round for each slot and one more, without panic or
    -- undefined behaviour, and answers whether every index and version read the same in both, where
    -- the values' own `==` answers whether they are equal.
    pub eq-view :
        (m : SecondaryMap V)
        → IsValid m
        → Returns (eq equal m other) λ o.
          (b : Bool) × (o ≡ some b) × ((b ≡ true) ↔ ((k : KeyData) → view m k ≡ view other k))
    unfolding eq iter
    eq-view m v =
        let (o, run, (b, e, q)) =
          all_entries-Agree m.slots (length m.slots) m.num_elems 0 v.slots_valid v.counted
            (omega (arith, v.bounded)) (omega arith) in
        let rounds : length m.slots + 1 ≡ suc (length m.slots) = omega arith in
        elim (Bool-cases (m.num_elems == other.num_elems)) [
          | inl same ↦ (
            o,
            rw (same, rounds) run,
            (
              b,
              e,
              (
                λ t k.
                    let there = Agree-Included m.slots (q.0 t) in
                    Included-view m.slots other.slots there
                      (Included-sym m.slots other.slots there
                        (ground (arith, same, v.counted, h.counted)))
                      k.idx k.version,
                λ a. q.1 (
                    Included-Agree m.slots (
                      view-Included m.slots other.slots
                        (λ i version. a (record { idx = i; version = version })))),
              ),
            ),
          )
          | inr apart ↦ (
            some false,
            rw apart refl,
            (
              false,
              refl,
              (
                λ t. cc,
                λ a.
                    let there =
                      view-Included m.slots other.slots
                        (λ i version. a (record { idx = i; version = version })) in
                    let back =
                      view-Included other.slots m.slots
                        (λ i version. sym (a (record { idx = i; version = version }))) in
                    absurd (
                      ground (
                        arith,
                        apart,
                        v.counted,
                        h.counted,
                        Included-le m.slots other.slots there,
                        Included-le other.slots m.slots back,
                      )),
              ),
            ),
          )
        ]
