-- ===== src/Slotmap/Drain/Retain.antt =====
-- `retain` with a closure that has no state of its own.
use rustyfill.Prelude.{
  ltb, ◌==◌, if◌then◌else◌, ==_iff, Bool-cases, length, get_elem?, get_elem?-lt, get_elem?-ge,
  get_elem?-some, All-get_elem?, done, ◌>>=◌, bind_assoc, Returns, u32_mod, ℕ, zero, suc, ◌+◌, ◌-◌,
  ◌%◌, ◌≤◌, ◌<◌, ◌≡◌, refl, sym, ap, ◌∙◌, inl, inr, Bool, true, false, Option, none, some, List,
  arith,
}
use mathlib.Core.Path.{subst}
use rustyfill.Slotmap.Key
use rustyfill.Slotmap.Key.{KeyData, IsKey, key_eq, key_eq-eq}
use rustyfill.Slotmap.Basic.{SlotUnion, value, next_free, Slot, SlotMap, content, remove_from_slot}
use rustyfill.Slotmap.Basic.Access.{write_value, write_value-Written}
use rustyfill.Slotmap.Basic.Invariant.{SlotIsValid, IsValid}
use rustyfill.Slotmap.Basic.Remove.{OccupiedSlot, occupied_slot, remove_from_slot-Removed}
use rustyfill.Slotmap.Basic.View.{view, view_slots-some, view_slots-none}
use rustyfill.Slotmap.Drain.{retain_slot, retain_loop, retain}
use rustyfill.Slotmap.Drain.Clear.{view_even}

module _ {ℓ} {V : Type ℓ} (g : KeyData → V → Bool × V) where
  -- The closure: whether to keep the entry, and the value that it leaves.
  abbrev pub predicate : Unit {ℓ} → KeyData → V → Bool × V × Unit {ℓ}
  predicate s k v = ((g k v).0, (g k v).1, s)

  -- What a key stands for after `retain`.
  abbrev pub retained : KeyData → Option V → Option V
  retained k none = none
  retained k (some v) = if (g k v).0 then some (g k v).1 else none

  record RetainedTo (m₀ : SlotMap V) (i : ℕ) (m : SlotMap V) : Type ℓ where
    free : List ℕ
    valid : IsValid m free
    positive : 0 < i
    same_length : length m.slots ≡ length m₀.slots
    below : (k : KeyData) → k.idx < i → view m k ≡ retained k (view m₀ k)
    above : (k : KeyData) → i ≤ k.idx → view m k ≡ view m₀ k

  -- One slot that holds no value.
  retain_vacant :
      (m₀ m : SlotMap V) (i version n : ℕ)
      → RetainedTo m₀ i m
      → get_elem? m.slots i ≡ some (record { u = next_free n; version = version })
      → RetainedTo m₀ (i + 1) m
  retain_vacant m₀ m i version n t at = record {
    free = t.free;
    valid = t.valid;
    positive = omega arith;
    same_length = t.same_length;
    below = λ k lt. elim (Bool-cases (k.idx == i)) [
      | inl here ↦ ground (
        arith,
        here,
        t.above k (ground (arith, here)),
        view_slots-some m.slots i k.version (record { u = next_free n; version = version }) at,
      )
      | inr other ↦ t.below k (ground (arith, other))
    ];
    above = λ k le. t.above k (omega arith);
  }

  -- One slot whose value was rewritten or removed: only its key changes.
  retain_changed :
      (m₀ m m' : SlotMap V) (key : KeyData) (free' : List ℕ)
      → RetainedTo m₀ key.idx m
      → IsValid m' free'
      → length m'.slots ≡ length m.slots
      → ((k : KeyData) → view m' k ≡ (if key_eq key k then retained key (view m key) else view m k))
      → ((k : KeyData) → k.idx ≡ key.idx → key_eq key k ≡ false → view m k ≡ none)
      → RetainedTo m₀ (key.idx + 1) m'
  retain_changed m₀ m m' key free' t h same reads other = record {
    free = free';
    valid = h;
    positive = omega arith;
    same_length = same ∙ t.same_length;
    below = λ k lt. elim (Bool-cases (key_eq key k)) [
      | inl here ↦
          let e = key_eq-eq key k here in
          rw (reads k, here)
            (ap (retained key) (t.above key (omega arith))
              ∙ ap (λ (q : KeyData). retained q (view m₀ q)) e)
      | inr apart ↦ elim (Bool-cases (k.idx == key.idx)) [
        | inl at ↦ ground (
          arith,
          apart,
          at,
          reads k,
          other k ((==_iff k.idx key.idx).0 at) apart,
          t.above k (ground (arith, at)),
        )
        | inr before ↦ ground (arith, apart, reads k, t.below k (ground (arith, before)))
      ]
    ];
    above = λ k le. ground (arith, reads k, t.above k (omega arith));
  }

  other_version :
      (m : SlotMap V) (key : KeyData) (v : V) (k : KeyData)
      → OccupiedSlot m key v
      → k.idx ≡ key.idx
      → key_eq key k ≡ false
      → view m k ≡ none
  other_version m key v k o e apart = ground (
    arith,
    view_slots-some m.slots key.idx k.version (record { u = value v; version = key.version })
        o.at_key,
  )

  retain_slot-keep :
      (m₀ m : SlotMap V) (key : KeyData) (v : V)
      → RetainedTo m₀ key.idx m
      → IsKey key
      → OccupiedSlot m key v
      → view m key ≡ some v
      → (g key v).0 ≡ true
      → RetainedTo m₀ (key.idx + 1) (write_value m key (g key v).1)
  retain_slot-keep m₀ m key v t k o e keep =
      let w = write_value-Written m t.free key v (g key v).1 t.valid k o in
      retain_changed m₀ m (write_value m key (g key v).1) key w.free t w.valid w.same_length
        (λ q. rw (e, keep) (w.reads q)) (λ q. other_version m key v q o)

  retain_slot-drop :
      (m₀ m : SlotMap V) (key : KeyData) (v : V)
      → RetainedTo m₀ key.idx m
      → IsKey key
      → OccupiedSlot m key v
      → view m key ≡ some v
      → (g key v).0 ≡ false
      → Returns
          (remove_from_slot (write_value m key (g key v).1) key.idx)
          λ r. RetainedTo m₀ (key.idx + 1) r.1
  retain_slot-drop m₀ m key v t k o e gone =
      let v' = (g key v).1 in
      let w = write_value-Written m t.free key v v' t.valid k o in
      let self : key_eq key key ≡ true = ground arith in
      let (r, run, u) =
        remove_from_slot-Removed (write_value m key v') w.free key v' w.valid k
          (ground (arith, w.reads key, self)) in
      (
        r,
        run,
        retain_changed m₀ m r.1 key u.free t u.valid (u.same_length ∙ w.same_length)
            (λ q. ground (arith, e, gone, u.reads q, w.reads q)) (λ q. other_version m key v q o),
      )

  -- One round of the loop, by what the slot holds.
  retain_round :
      (m₀ m : SlotMap V) (i : ℕ) (u : SlotUnion V) (version : ℕ)
      → RetainedTo m₀ i m
      → get_elem? m.slots i ≡ some (record { u = u; version = version })
      → Returns
          (content (record { u = u; version = version })
            >>= retain_slot predicate m tt i (record { u = u; version = version }))
          λ r. RetainedTo m₀ (i + 1) r.0
  unfolding retain_slot
  retain_round m₀ m i (next_free n) version t at =
      let v = All-get_elem? SlotIsValid m.slots i t.valid.slots_valid at in
      ((m, tt), ground (arith, v), retain_vacant m₀ m i version n t at)
  retain_round m₀ m i (value v) version t at =
      let valid = All-get_elem? SlotIsValid m.slots i t.valid.slots_valid at in
      let key : KeyData = record { idx = i; version = version } in
      let inside = get_elem?-lt m.slots i at in
      let k : IsKey key = record {
        idx_lt = omega (arith, t.valid.bounded);
        version_lt = valid.0;
        odd = valid.1;
      } in
      let e : view m key ≡ some v =
        ground (
          arith,
          view_slots-some m.slots i version (record { u = value v; version = version }) at,
        ) in
      let o = occupied_slot m t.free key v t.valid k e in
      let new_key : Key.new (i % u32_mod) version ≡ key =
        ground (arith, valid, inside, t.valid.bounded) in
      elim (Bool-cases (g key v).0) [
        | inl keep ↦ (
          (write_value m key (g key v).1, tt),
          ground (arith, valid.1, new_key, keep),
          retain_slot-keep m₀ m key v t k o e keep,
        )
        | inr gone ↦
            let (r, run, u) = retain_slot-drop m₀ m key v t k o e gone in
            ((r.1, tt), ground (arith, valid.1, new_key, gone, run), u)
      ]

  retain_loop-next :
      (rounds i : ℕ) (m m' : SlotMap V) (slot : Slot V) (s : Unit {ℓ})
      → get_elem? m.slots i ≡ some slot
      → (content slot >>= retain_slot predicate m tt i slot) ≡ done (m', s)
      → retain_loop predicate (suc rounds) i m tt ≡ retain_loop predicate rounds (i + 1) m' s
  unfolding retain_loop
  retain_loop-next rounds i m m' slot s at run =
      rw (at, retain_loop)
        (sym (
            bind_assoc (content slot) (retain_slot predicate m tt i slot)
              (λ r. retain_loop predicate rounds (i + 1) r.0 r.1))
          ∙ ap (λ o. o >>= (λ r. retain_loop predicate rounds (i + 1) r.0 r.1)) run)

  retain_loop-RetainedTo :
      (rounds i : ℕ) (m₀ m : SlotMap V)
      → RetainedTo m₀ i m
      → i + rounds ≡ length m₀.slots
      → Returns (retain_loop predicate rounds i m tt) λ r. RetainedTo m₀ (length m₀.slots) r.0
  unfolding retain_loop
  retain_loop-RetainedTo zero i m₀ m t e =
      ((m, tt), refl, subst (λ n. RetainedTo m₀ n m) (omega arith) t)
  retain_loop-RetainedTo (suc rounds) i m₀ m t e =
      let (slot, at) = get_elem?-some m.slots i (omega (arith, t.same_length)) in
      let (r, run, t') = retain_round m₀ m i slot.u slot.version t at in
      let (r', run', u) = retain_loop-RetainedTo rounds (i + 1) m₀ r.0 t' (omega arith) in
      (r', retain_loop-next rounds i m r.0 slot tt at run ∙ run', u)

  -- The map after `retain`.
  pub record Retained (m m' : SlotMap V) : Type ℓ where
    pub reads : (k : KeyData) → view m' k ≡ retained k (view m k)
    pub same_length : length m'.slots ≡ length m.slots
    pub free : List ℕ
    pub valid : IsValid m' free

  -- `retain`, with a closure that keeps no state, never panics and has no undefined behaviour on
  -- a valid map. Afterwards a key stands for the value that the closure left, if it stood for one
  -- that the closure kept, and for nothing otherwise; the map is valid.
  pub retain-Retained :
      (m : SlotMap V) (free : List ℕ)
      → IsValid m free
      → Returns (retain predicate m tt) λ r. Retained m r.0
  unfolding retain
  retain-Retained m free h =
      let start : RetainedTo m 1 m = record {
        free = free;
        valid = h;
        positive = omega arith;
        same_length = refl;
        below = λ k lt.
            let p : k.idx ≡ 0 = omega arith in
            let e = view_even m free 0 k.version (next_free 0) 0 h h.sentinel refl in
            ground (arith, p, e);
        above = λ k le. refl;
      } in
      let (r, run, t) =
        retain_loop-RetainedTo (length m.slots - 1) 1 m m start
          (omega (arith, get_elem?-lt m.slots 0 h.sentinel)) in
      (
        r,
        run,
        record {
          reads = λ k. elim (Bool-cases (ltb k.idx (length m.slots))) [
            | inl lt ↦ t.below k (ground (arith, lt))
            | inr ge ↦
                t.above k (ground (arith, ge))
                ∙ sym (
                    ap (retained k) (
                      view_slots-none m.slots k.idx k.version
                        (get_elem?-ge m.slots k.idx (ground (arith, ge))))
                    ∙ sym (
                        view_slots-none m.slots k.idx k.version
                          (get_elem?-ge m.slots k.idx (ground (arith, ge)))))
          ];
          same_length = t.same_length;
          free = t.free;
          valid = t.valid;
        },
      )
