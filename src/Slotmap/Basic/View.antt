-- ===== src/Slotmap/Basic/View.antt =====
-- The abstract map that a slot map stands for, and its reads.
use rustyfill.Prelude.{
  ◌==◌, if◌then◌else◌, Option-cases, length, get_elem?, set, All-get_elem?, done, ℕ, zero, suc, ◌<◌,
  ◌≡◌, refl, inl, inr, true, false, Option, none, some, List, [], ◌∷◌, ◌++◌, arith,
}
use rustyfill.Slotmap.Key.{KeyData, IsKey}
use rustyfill.Slotmap.Basic.{SlotUnion, value, next_free, Slot, SlotMap, get, contains_key}
use rustyfill.Slotmap.Basic.Invariant.{SlotIsValid, IsValid}

module _ {ℓ} {V : Type ℓ} where
  abbrev pub stored : SlotUnion V → Option V
  stored (value v) = some v
  stored (next_free n) = none

  abbrev pub slot_view : Slot V → ℕ → Option V
  slot_view s version = if s.version == version then stored s.u else none

  unfoldable pub view_slots : List (Slot V) → ℕ → ℕ → Option V
  view_slots [] i version = none
  view_slots (s ∷ ss) zero version = slot_view s version
  view_slots (s ∷ ss) (suc i) version = view_slots ss i version

  -- The value that a key stands for.
  abbrev pub view : SlotMap V → KeyData → Option V
  view m key = view_slots m.slots key.idx key.version

  pub view_slots-set :
      (slots : List (Slot V)) (i j version : ℕ) (s : Slot V)
      → i < length slots
      → view_slots (set slots i s) j version
        ≡ (if i == j then slot_view s version else view_slots slots j version)
  unfolding view_slots
  view_slots-set [] i j version s h = absurd (omega arith)
  view_slots-set (x ∷ ss) zero zero version s h = ground arith
  view_slots-set (x ∷ ss) zero (suc j) version s h = ground arith
  view_slots-set (x ∷ ss) (suc i) zero version s h = ground arith
  view_slots-set (x ∷ ss) (suc i) (suc j) version s h =
      ground (arith, view_slots-set ss i j version s)

  pub view_slots-push :
      (slots : List (Slot V)) (j version : ℕ) (s : Slot V)
      → view_slots (slots ++ s ∷ []) j version
        ≡ (if length slots == j then slot_view s version else view_slots slots j version)
  unfolding view_slots
  view_slots-push [] zero version s = ground arith
  view_slots-push [] (suc j) version s = ground arith
  view_slots-push (x ∷ ss) zero version s = ground arith
  view_slots-push (x ∷ ss) (suc j) version s = ground (arith, view_slots-push ss j version s)

  pub view_slots-some :
      (slots : List (Slot V)) (i version : ℕ) (s : Slot V)
      → get_elem? slots i ≡ some s
      → view_slots slots i version ≡ slot_view s version
  unfolding view_slots
  view_slots-some [] i version s h = cc
  view_slots-some (x ∷ ss) zero version s h = ground arith
  view_slots-some (x ∷ ss) (suc i) version s h = view_slots-some ss i version s h

  pub view_slots-none :
      (slots : List (Slot V)) (i version : ℕ)
      → get_elem? slots i ≡ none
      → view_slots slots i version ≡ none
  unfolding view_slots
  view_slots-none [] i version h = refl
  view_slots-none (x ∷ ss) zero version h = cc
  view_slots-none (x ∷ ss) (suc i) version h = view_slots-none ss i version h

  module _ (m : SlotMap V) (free : List ℕ) (h : IsValid m free) (key : KeyData)
      (k : IsKey key) where
    -- `get` reads no union field that was not written last, and reads the abstract map.
    pub get-view : get m key ≡ done (view m key)
    unfolding get
    get-view = elim (Option-cases (get_elem? m.slots key.idx)) [
      | inl e ↦ ground (arith, e, view_slots-none m.slots key.idx key.version e)
      | inr (s, e) ↦ ground (
        arith,
        e,
        k.odd,
        view_slots-some m.slots key.idx key.version s e,
        All-get_elem? SlotIsValid m.slots key.idx h.slots_valid e,
      )
    ]

    -- `contains_key` holds exactly of the keys with a value.
    pub contains_key-view : contains_key m key ≡ elim (view m key) [ none ↦ false | some _ ↦ true ]
    unfolding contains_key
    contains_key-view = elim (Option-cases (get_elem? m.slots key.idx)) [
      | inl e ↦ ground (arith, e, view_slots-none m.slots key.idx key.version e)
      | inr (s, e) ↦ ground (
        arith,
        e,
        k.odd,
        view_slots-some m.slots key.idx key.version s e,
        All-get_elem? SlotIsValid m.slots key.idx h.slots_valid e,
      )
    ]
