-- ===== src/Slotmap/Disjoint/Restore.antt =====
-- `get_disjoint_mut` restores the map, and answers exactly for present keys of distinct slots.
use rustyfill.Prelude.{
  ◌==◌, if◌then◌else◌, Bool-cases, get_elem?, All, ℕ, zero, suc, ◌≡◌, refl, ap, ◌∙◌, ◌≢◌, ◌⊎◌, inl,
  inr, true, false, none, some, List, [], ◌∷◌, map, arith,
}
use rustyfill.Slotmap.Key.{KeyData, IsKey, xor_one}
use rustyfill.Slotmap.Basic.{Slot, SlotMap, contains_key}
use rustyfill.Slotmap.Disjoint.{flip, mark, unmark, get_disjoint_mut}

xor_one-xor_one : (v : ℕ) → xor_one (xor_one v) ≡ v
xor_one-xor_one v = ground arith

-- No key of the list has the slot `i`.
abbrev pub Apart : ℕ → List KeyData → Type 0
Apart i [] = Unit
Apart i (k ∷ ks) = (i ≢ k.idx) × Apart i ks

module _ {ℓ} {V : Type ℓ} where
  flip_comm : (ss : List (Slot V)) (i j : ℕ) → flip (flip ss i) j ≡ flip (flip ss j) i
  unfolding flip
  flip_comm [] i j = refl
  flip_comm (s ∷ ss) zero zero = refl
  flip_comm (s ∷ ss) zero (suc j) = refl
  flip_comm (s ∷ ss) (suc i) zero = refl
  flip_comm (s ∷ ss) (suc i) (suc j) = ap (◌∷◌ s) (flip_comm ss i j)

  flip-flip : (ss : List (Slot V)) (i : ℕ) → flip (flip ss i) i ≡ ss
  unfolding flip
  flip-flip [] i = refl
  flip-flip (s ∷ ss) zero = rw (xor_one-xor_one s.version)
  flip-flip (s ∷ ss) (suc i) = ap (◌∷◌ s) (flip-flip ss i)

  -- Both loops flip one slot for each key: a later flip may be made first.
  unmark-flip :
      (ks : List KeyData) (m : SlotMap V) (i : ℕ)
      → unmark (record m { slots = flip m.slots i }) ks
        ≡ (let m' = unmark m ks in record m' { slots = flip m'.slots i })
  unfolding unmark
  unmark-flip [] m i = refl
  unmark-flip (k ∷ ks) m i =
      rw (flip_comm m.slots i k.idx) (unmark-flip ks (record m { slots = flip m.slots k.idx }) i)

  unmark-mark : (ks : List KeyData) (m : SlotMap V) → unmark (mark m ks).0 (mark m ks).1 ≡ m
  unfolding mark unmark
  unmark-mark [] m = refl
  unmark-mark (k ∷ ks) m =
      let m' = record m { slots = flip m.slots k.idx } in
      elim (Bool-cases (contains_key m k)) [
        | inr absent ↦ rw absent
        | inl here ↦
            rw here
              (unmark-flip (mark m' ks).1 (mark m' ks).0 k.idx ∙ rw (unmark-mark ks m', flip-flip))
      ]

  -- Every key is in the map, and no two have one slot.
  abbrev pub AllDisjoint : SlotMap V → List KeyData → Type 0
  AllDisjoint m [] = Unit
  AllDisjoint m (k ∷ ks) = (contains_key m k ≡ true) × Apart k.idx ks × AllDisjoint m ks

  get_elem?-flip :
      (ss : List (Slot V)) (i j : ℕ)
      → get_elem? (flip ss i) j ≡ (
          if i == j
          then elim (get_elem? ss j) [
            | none ↦ none
            | some s ↦ some (record s { version = xor_one s.version })
          ]
          else get_elem? ss j)
  unfolding flip
  get_elem?-flip [] i j = ground arith
  get_elem?-flip (s ∷ ss) zero zero = ground arith
  get_elem?-flip (s ∷ ss) zero (suc j) = ground arith
  get_elem?-flip (s ∷ ss) (suc i) zero = ground arith
  get_elem?-flip (s ∷ ss) (suc i) (suc j) = ground (arith, get_elem?-flip ss i j)

  -- A marked slot answers to no key, and the other slots to the same keys.
  contains_key-flip :
      (m : SlotMap V) (k₀ k : KeyData)
      → IsKey k₀
      → IsKey k
      → contains_key m k₀ ≡ true
      → contains_key (record m { slots = flip m.slots k₀.idx }) k
        ≡ (if k₀.idx == k.idx then false else contains_key m k)
  unfolding contains_key
  contains_key-flip m k₀ k h₀ h c =
      ground (arith, h₀.odd, h.odd, get_elem?-flip m.slots k₀.idx k.idx)

  AllDisjoint-of_flip :
      (m : SlotMap V) (k₀ : KeyData) (ks : List KeyData)
      → IsKey k₀
      → All IsKey ks
      → contains_key m k₀ ≡ true
      → AllDisjoint (record m { slots = flip m.slots k₀.idx }) ks
      → Apart k₀.idx ks × AllDisjoint m ks
  AllDisjoint-of_flip m k₀ [] h₀ hs c d = (tt, tt)
  AllDisjoint-of_flip m k₀ (k ∷ ks) h₀ hs c d =
      let (a, b) = AllDisjoint-of_flip m k₀ ks h₀ hs.1 c d.2 in
      let e = contains_key-flip m k₀ k h₀ hs.0 c in
      ((ground (arith, e, d.0), a), (ground (arith, e, d.0), d.1, b))

  AllDisjoint-flip :
      (m : SlotMap V) (k₀ : KeyData) (ks : List KeyData)
      → IsKey k₀
      → All IsKey ks
      → contains_key m k₀ ≡ true
      → Apart k₀.idx ks
      → AllDisjoint m ks
      → AllDisjoint (record m { slots = flip m.slots k₀.idx }) ks
  AllDisjoint-flip m k₀ [] h₀ hs c a d = tt
  AllDisjoint-flip m k₀ (k ∷ ks) h₀ hs c a d = (
    ground (arith, contains_key-flip m k₀ k h₀ hs.0 c, a.0, d.0),
    d.1,
    AllDisjoint-flip m k₀ ks h₀ hs.1 c a.1 d.2,
  )

  mark-AllDisjoint :
      (m : SlotMap V) (ks : List KeyData)
      → All IsKey ks
      → (mark m ks).2 ≡ true
      → AllDisjoint m ks × ((mark m ks).1 ≡ ks)
  unfolding mark
  mark-AllDisjoint m [] hs e = (tt, refl)
  mark-AllDisjoint m (k ∷ ks) hs e =
      let m' = record m { slots = flip m.slots k.idx } in
      elim (Bool-cases (contains_key m k)) [
        | inr absent ↦ absurd (ground (arith, absent, e))
        | inl here ↦
            let (d, s) = mark-AllDisjoint m' ks hs.1 (ground (arith, here, e)) in
            let (a, d') = AllDisjoint-of_flip m k ks hs.0 hs.1 here d in
            ((here, a, d'), rw (here, s))
      ]

  AllDisjoint-mark :
      (m : SlotMap V) (ks : List KeyData) → All IsKey ks → AllDisjoint m ks → (mark m ks).2 ≡ true
  unfolding mark
  AllDisjoint-mark m [] hs d = refl
  AllDisjoint-mark m (k ∷ ks) hs d = rw d.0 (
      AllDisjoint-mark (record m { slots = flip m.slots k.idx }) ks hs.1
        (AllDisjoint-flip m k ks hs.0 hs.1 d.0 d.1 d.2))

  -- `get_disjoint_mut` gives the map back as it was, in every case. It hands out one pointer for
  -- each key, to that key's slot, if every key is in the map and no two keys have one slot, and
  -- none otherwise.
  pub get_disjoint_mut-AllDisjoint :
      (m : SlotMap V) (ks : List KeyData)
      → All IsKey ks
      → ((get_disjoint_mut m ks).1 ≡ m)
        × (AllDisjoint m ks × ((get_disjoint_mut m ks).0 ≡ some (map (λ k. k.idx) ks))
            ⊎ (¬ AllDisjoint m ks) × ((get_disjoint_mut m ks).0 ≡ none))
  unfolding get_disjoint_mut
  get_disjoint_mut-AllDisjoint m ks hs = (
    unmark-mark ks m,
    elim (Bool-cases (mark m ks).2) [
      | inl all ↦ let (d, s) = mark-AllDisjoint m ks hs all in inl (d, rw (all, s))
      | inr some_missing ↦
          inr (λ d. ground (arith, some_missing, AllDisjoint-mark m ks hs d), rw some_missing)
    ],
  )
