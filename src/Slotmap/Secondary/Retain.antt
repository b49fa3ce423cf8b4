-- ===== src/Slotmap/Secondary/Retain.antt =====
-- `retain` of a secondary map.
use rustyfill.Prelude.{
  ◌==◌, ==_iff, Bool-cases, length, All, Outcome, done, ◌>>=◌, Returns, u32_mod, expect_sub, ℕ,
  zero, suc, ◌+◌, ◌-◌, ◌%◌, ◌≤◌, ◌<◌, ◌≡◌, refl, ap, inl, inr, Bool, true, false, List, [], ◌∷◌,
  arith,
}
use rustyfill.Slotmap.Drain.Retain.{predicate, retained}
use rustyfill.Slotmap.Key
use rustyfill.Slotmap.Key.{KeyData}
use rustyfill.Slotmap.Secondary.{Slot, occupied, vacant, SecondaryMap}
use rustyfill.Slotmap.Secondary.Invariant.{SlotIsValid, occupancy, IsValid, view, view_slots}

module _ {ℓ} {V : Type ℓ} {S : Type ℓ} (f : S → KeyData → V → Bool × V × S) where
  -- The loop over the slots from index `i`, with the count and the closure's state.
  unfoldable pub retain_slots : ℕ → List (Slot V) → ℕ → S → Outcome (List (Slot V) × ℕ × S)
  unfolding Key.new
  retain_slots i [] num s = done ([], num, s)
  retain_slots i (vacant ∷ ss) num s = do
    (ss', num', s') ← retain_slots (i + 1) ss num s
    done (vacant ∷ ss', num', s')
  retain_slots i (occupied v version ∷ ss) num s =
      let (keep, v', s') = f s (Key.new (i % u32_mod) version) v in
      elim keep [
        | true ↦ do
          (ss', num', s'') ← retain_slots (i + 1) ss num s'
          done (occupied v' version ∷ ss', num', s'')
        | false ↦ do
          left ← expect_sub num 1
          (ss', num', s'') ← retain_slots (i + 1) ss left s'
          done (vacant ∷ ss', num', s'')
      ]

  unfoldable pub retain : SecondaryMap V → S → Outcome (SecondaryMap V × S)
  retain m s = do
    (slots, num_elems, s') ← retain_slots 0 m.slots m.num_elems s
    done (record { slots = slots; num_elems = num_elems }, s')

module _ {ℓ} {V : Type ℓ} (g : KeyData → V → Bool × V) where
  -- The loop from slot `i`: what it leaves in the slots and in the count.
  record Swept (i num : ℕ) (ss : List (Slot V)) (r : List (Slot V) × ℕ × Unit {ℓ}) : Type ℓ where
    same_length : length r.0 ≡ length ss
    slots_valid : All SlotIsValid r.0
    counted : r.1 + occupancy ss ≡ num + occupancy r.0
    reads :
        (j version : ℕ)
        → view_slots r.0 j version
          ≡ retained g (record { idx = i + j; version = version }) (view_slots ss j version)

  Swept-vacant :
      (i num : ℕ) (ss : List (Slot V)) (r : List (Slot V) × ℕ × Unit {ℓ})
      → Swept (i + 1) num ss r
      → Swept i num (vacant ∷ ss) (vacant ∷ r.0, r.1, r.2)
  unfolding view_slots
  Swept-vacant i num ss r t = record {
    same_length = ap suc t.same_length;
    slots_valid = (tt, t.slots_valid);
    counted = omega (arith, t.counted);
    reads = λ j version. read j version;
  }
    where
      read :
          (j version : ℕ)
          → view_slots (vacant ∷ r.0) j version
            ≡ retained g
                (record { idx = i + j; version = version })
                (view_slots (vacant ∷ ss) j version)
      read zero version = ground arith
      read (suc j) version = let e : i + suc j ≡ i + 1 + j = omega arith in rw e (t.reads j version)

  Swept-keep :
      (i num version : ℕ) (v : V) (ss : List (Slot V)) (r : List (Slot V) × ℕ × Unit {ℓ})
      → (version < u32_mod) × (version % 2 ≡ 1)
      → (g (record { idx = i; version = version }) v).0 ≡ true
      → Swept (i + 1) num ss r
      → Swept i num
          (occupied v version ∷ ss)
          (occupied (g (record { idx = i; version = version }) v).1 version ∷ r.0, r.1, r.2)
  unfolding view_slots
  Swept-keep i num version v ss r valid keep t = record {
    same_length = ap suc t.same_length;
    slots_valid = (valid, t.slots_valid);
    counted = omega (arith, t.counted);
    reads = λ j w. read j w;
  }
    where
      read :
          (j w : ℕ)
          → view_slots (occupied (g (record { idx = i; version = version }) v).1 version ∷ r.0) j w
            ≡ retained g
                (record { idx = i + j; version = w })
                (view_slots (occupied v version ∷ ss) j w)
      read zero w =
          let e : i + 0 ≡ i = omega arith in
          elim (Bool-cases (version == w)) [
            | inl same ↦ rw (e, same, ← ((==_iff version w).0 same), keep)
            | inr other ↦ ground (arith, other)
          ]
      read (suc j) w = let e : i + suc j ≡ i + 1 + j = omega arith in rw e (t.reads j w)

  Swept-drop :
      (i num version : ℕ) (v : V) (ss : List (Slot V)) (r : List (Slot V) × ℕ × Unit {ℓ})
      → 0 < num
      → (g (record { idx = i; version = version }) v).0 ≡ false
      → Swept (i + 1) (num - 1) ss r
      → Swept i num (occupied v version ∷ ss) (vacant ∷ r.0, r.1, r.2)
  unfolding view_slots
  Swept-drop i num version v ss r pos gone t = record {
    same_length = ap suc t.same_length;
    slots_valid = (tt, t.slots_valid);
    counted = omega (arith, t.counted);
    reads = λ j w. read j w;
  }
    where
      read :
          (j w : ℕ)
          → view_slots (vacant ∷ r.0) j w
            ≡ retained g
                (record { idx = i + j; version = w })
                (view_slots (occupied v version ∷ ss) j w)
      read zero w =
          let e : i + 0 ≡ i = omega arith in
          elim (Bool-cases (version == w)) [
            | inl same ↦ rw (e, same, ← ((==_iff version w).0 same), gone) (ground arith)
            | inr other ↦ ground (arith, other)
          ]
      read (suc j) w = let e : i + suc j ≡ i + 1 + j = omega arith in rw e (t.reads j w)

  retain_slots-Swept :
      (i : ℕ) (ss : List (Slot V)) (num : ℕ)
      → All SlotIsValid ss
      → occupancy ss ≤ num
      → i + length ss ≤ u32_mod
      → Returns (retain_slots (predicate g) i ss num tt) (Swept i num ss)
  unfolding retain_slots view_slots
  retain_slots-Swept i [] num v c b = (
    ([], num, tt),
    refl,
    record { same_length = refl; slots_valid = tt; counted = refl; reads = λ _ _. refl },
  )
  retain_slots-Swept i (vacant ∷ ss) num v c b =
      let (r, run, t) = retain_slots-Swept (i + 1) ss num v.1 (omega arith) (omega arith) in
      ((vacant ∷ r.0, r.1, r.2), rw run, Swept-vacant i num ss r t)
  retain_slots-Swept i (occupied w version ∷ ss) num v c b =
      let key : KeyData = record { idx = i; version = version } in
      let new_key : Key.new (i % u32_mod) version ≡ key = ground (arith, v.0) in
      elim (Bool-cases (g key w).0) [
        | inl keep ↦
            let (r, run, t) = retain_slots-Swept (i + 1) ss num v.1 (omega arith) (omega arith) in
            (
              (occupied (g key w).1 version ∷ r.0, r.1, r.2),
              ground (arith, new_key, keep, run),
              Swept-keep i num version w ss r v.0 keep t,
            )
        | inr gone ↦
            let (r, run, t) =
              retain_slots-Swept (i + 1) ss (num - 1) v.1 (omega arith) (omega arith) in
            (
              (vacant ∷ r.0, r.1, r.2),
              ground (arith, new_key, gone, run),
              Swept-drop i num version w ss r (omega arith) gone t,
            )
      ]

  -- The map after `retain`.
  pub record Retained (m m' : SecondaryMap V) : Type ℓ where
    pub valid : IsValid m'
    pub reads : (k : KeyData) → view m' k ≡ retained g k (view m k)

  -- `retain`, with a closure that keeps no state, does not panic on a valid map. Afterwards a key
  -- stands for the value that the closure left, if it stood for one that the closure kept, and for
  -- nothing otherwise; the map is valid.
  pub secondary_retain-Retained :
      (m : SecondaryMap V) → IsValid m → Returns (retain (predicate g) m tt) λ r. Retained m r.0
  unfolding retain
  secondary_retain-Retained m h =
      let (r, run, t) =
        retain_slots-Swept 0 m.slots m.num_elems h.slots_valid (omega (arith, h.counted))
          (omega (arith, h.bounded)) in
      (
        (record { slots = r.0; num_elems = r.1 }, tt),
        rw run,
        record {
          valid = record {
            bounded = omega (arith, t.same_length, h.bounded);
            slots_valid = t.slots_valid;
            counted = omega (arith, t.counted, h.counted);
          };
          reads = λ k. let e : 0 + k.idx ≡ k.idx = omega arith in rw e at (t.reads k.idx k.version);
        },
      )
