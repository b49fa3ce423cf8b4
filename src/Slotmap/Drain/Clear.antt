-- ===== src/Slotmap/Drain/Clear.antt =====
-- `clear` ends, and leaves an empty valid map.
use rustyfill.Prelude.{
  ltb, ◌==◌, ==_iff, Bool-cases, Option-cases, length, get_elem?, get_elem?-lt, get_elem?-ge,
  get_elem?-some, All-get_elem?, done, Returns, u32_mod, ℕ, zero, suc, ◌+◌, ◌-◌, ◌%◌, ◌≤◌, ◌<◌, ◌≡◌,
  refl, sym, ap, ◌∙◌, ◌⊎◌, inl, inr, true, false, Option, none, some, List, [], ◌∷◌, arith,
}
use mathlib.Core.Path.{subst}
use rustyfill.Slotmap.Key
use rustyfill.Slotmap.Key.{KeyData, IsKey}
use rustyfill.Slotmap.Basic.{
  SlotUnion, value, next_free, Slot, SlotMap, remove_from_slot, is_occupied,
}
use rustyfill.Slotmap.Basic.Invariant.{SlotIsValid, IsValid, occupancy}
use rustyfill.Slotmap.Basic.Remove.{remove_from_slot-Removed}
use rustyfill.Slotmap.Basic.View.{view, view_slots, view_slots-some, view_slots-none}
use rustyfill.Slotmap.Drain.{Drain, drain, drain_loop, next, drop_loop, clear}

module _ {ℓ} {V : Type ℓ} where
  -- The slots below `cur` hold no value.
  record ClearedTo (cur : ℕ) (m : SlotMap V) : Type ℓ where
    free : List ℕ
    valid : IsValid m free
    positive : 0 < cur
    inside : cur ≤ length m.slots
    cleared : (k : KeyData) → k.idx < cur → view m k ≡ none

  pub view_even :
      (m : SlotMap V) (free : List ℕ) (i version : ℕ) (u : SlotUnion V) (w : ℕ)
      → IsValid m free
      → get_elem? m.slots i ≡ some (record { u = u; version = w })
      → w % 2 ≡ 0
      → view_slots m.slots i version ≡ none
  view_even m free i version (value v) w h e even =
      absurd (omega (arith, All-get_elem? SlotIsValid m.slots i h.slots_valid e))
  view_even m free i version (next_free n) w h e even =
      ground (arith, view_slots-some m.slots i version (record { u = next_free n; version = w }) e)

  cleared_vacant :
      (m : SlotMap V) (cur : ℕ) (slot : Slot V)
      → ClearedTo cur m
      → get_elem? m.slots cur ≡ some slot
      → slot.version % 2 ≡ 0
      → ClearedTo (cur + 1) m
  cleared_vacant m cur slot c e even = record {
    free = c.free;
    valid = c.valid;
    positive = omega arith;
    inside = omega (arith, get_elem?-lt m.slots cur e);
    cleared = λ k lt. elim (Bool-cases (k.idx == cur)) [
      | inl here ↦
          let p : k.idx ≡ cur = (==_iff k.idx cur).0 here in
          rw p (view_even m c.free cur k.version slot.u slot.version c.valid e even)
      | inr below ↦ c.cleared k (ground (arith, below))
    ];
  }

  view_odd :
      (m : SlotMap V) (free : List ℕ) (i : ℕ) (u : SlotUnion V) (w : ℕ)
      → IsValid m free
      → get_elem? m.slots i ≡ some (record { u = u; version = w })
      → w % 2 ≡ 1
      → (v : V) × (view_slots m.slots i w ≡ some v)
  view_odd m free i (value v) w h e odd =
      (v, ground (arith, view_slots-some m.slots i w (record { u = value v; version = w }) e))
  view_odd m free i (next_free n) w h e odd =
      absurd (omega (arith, All-get_elem? SlotIsValid m.slots i h.slots_valid e))

  cleared_occupied :
      (m : SlotMap V) (cur : ℕ) (slot : Slot V)
      → ClearedTo cur m
      → get_elem? m.slots cur ≡ some slot
      → slot.version % 2 ≡ 1
      → Returns
          (remove_from_slot m cur)
          λ r. ClearedTo (cur + 1) r.1 × (length r.1.slots ≡ length m.slots)
  cleared_occupied m cur slot c e odd =
      let (v, some_v) = view_odd m c.free cur slot.u slot.version c.valid e odd in
      let inside = get_elem?-lt m.slots cur e in
      let small = All-get_elem? SlotIsValid m.slots cur c.valid.slots_valid e in
      let key : KeyData = record { idx = cur; version = slot.version } in
      let is_key : IsKey key = record {
        idx_lt = omega (arith, c.valid.bounded);
        version_lt = small.0;
        odd = odd;
      } in
      let ((w, m'), run, t) = remove_from_slot-Removed m c.free key v c.valid is_key some_v in
      (
        (w, m'),
        run,
        (
          record {
            free = t.free;
            valid = t.valid;
            positive = omega arith;
            inside = omega (arith, t.same_length);
            cleared = λ k lt. elim (Bool-cases (k.idx == cur)) [
              | inl here ↦
                  ground (arith, here, t.reads k, view_slots-some m.slots cur k.version slot e)
              | inr below ↦ ground (arith, below, t.reads k, c.cleared k (ground (arith, below)))
            ];
          },
          t.same_length,
        ),
      )

  -- What `next` leaves, where `n` is the length of the vector and `cur` the index at the call.
  record Advanced (n cur : ℕ) (r : Option (KeyData × V) × Drain V) : Type ℓ where
    cleared : ClearedTo r.1.cur r.1.sm
    same_length : length r.1.sm.slots ≡ n
    monotone : cur ≤ r.1.cur
    at_end : r.0 ≡ none → r.1.cur ≡ n
    yielded : (e : KeyData × V) → r.0 ≡ some e → cur < r.1.cur

  drain_loop-occupied :
      (rounds : ℕ) (m m' : SlotMap V) (cur : ℕ) (slot : Slot V) (v : V)
      → get_elem? m.slots cur ≡ some slot
      → is_occupied slot ≡ true
      → remove_from_slot m cur ≡ done (v, m')
      → drain_loop (suc rounds) m cur
        ≡ done (some (Key.new (cur % u32_mod) slot.version, v), record { sm = m'; cur = cur + 1 })
  unfolding drain_loop
  drain_loop-occupied rounds m m' cur slot v at odd run = ground (arith, at, odd, run)

  drain_loop-vacant :
      (rounds : ℕ) (m : SlotMap V) (cur : ℕ) (slot : Slot V)
      → get_elem? m.slots cur ≡ some slot
      → is_occupied slot ≡ false
      → drain_loop (suc rounds) m cur ≡ drain_loop rounds m (cur + 1)
  unfolding drain_loop
  drain_loop-vacant rounds m cur slot at even = ground (arith, at, even)

  drain_loop-Advanced :
      (rounds : ℕ) (m : SlotMap V) (cur : ℕ)
      → ClearedTo cur m
      → cur + rounds ≡ length m.slots
      → Returns (drain_loop rounds m cur) (Advanced (length m.slots) cur)
  unfolding drain_loop
  drain_loop-Advanced zero m cur c e = (
    (none, record { sm = m; cur = cur }),
    refl,
    record {
      cleared = c;
      same_length = refl;
      monotone = omega arith;
      at_end = λ _. omega arith;
      yielded = λ _ q. cc;
    },
  )
  drain_loop-Advanced (suc rounds) m cur c e =
      let (slot, at) = get_elem?-some m.slots cur (omega arith) in
      elim (Bool-cases (is_occupied slot)) [
        | inl odd ↦
            let ((v, m'), run, (t, same)) =
              cleared_occupied m cur slot c at (ground (arith, odd)) in
            (
              (some (Key.new (cur % u32_mod) slot.version, v), record { sm = m'; cur = cur + 1 }),
              drain_loop-occupied rounds m m' cur slot v at odd run,
              record {
                cleared = t;
                same_length = same;
                monotone = omega arith;
                at_end = λ q. cc;
                yielded = λ _ _. omega arith;
              },
            )
        | inr even ↦
            let (r, run, t) =
              drain_loop-Advanced rounds m (cur + 1)
                (cleared_vacant m cur slot c at (ground (arith, even))) (omega arith) in
            (
              r,
              drain_loop-vacant rounds m cur slot at even ∙ run,
              record {
                cleared = t.cleared;
                same_length = t.same_length;
                monotone = omega (arith, t.monotone);
                at_end = t.at_end;
                yielded = λ x q. omega (arith, t.yielded x q);
              },
            )
      ]

  next-Advanced :
      (d : Drain V) → ClearedTo d.cur d.sm → Returns (next d) (Advanced (length d.sm.slots) d.cur)
  unfolding next
  next-Advanced d c =
      drain_loop-Advanced (length d.sm.slots - d.cur) d.sm d.cur c (omega (arith, c.inside))

  abbrev Drops : ℕ → Option (SlotMap V) → Type ℓ
  Drops n o = (m : SlotMap V) × (o ≡ some m) × ClearedTo n m × (length m.slots ≡ n)

  drop_loop-none :
      (rounds : ℕ) (d d' : Drain V)
      → next d ≡ done (none, d')
      → drop_loop (suc rounds) d ≡ done (some d'.sm)
  unfolding drop_loop
  drop_loop-none rounds d d' run = rw run

  drop_loop-some :
      (rounds : ℕ) (d d' : Drain V) (x : KeyData × V)
      → next d ≡ done (some x, d')
      → drop_loop (suc rounds) d ≡ drop_loop rounds d'
  unfolding drop_loop
  drop_loop-some rounds d d' x run = rw run

  drop_loop-Drops :
      (rounds n : ℕ) (d : Drain V)
      → ClearedTo d.cur d.sm
      → length d.sm.slots ≡ n
      → n < d.cur + rounds
      → Returns (drop_loop rounds d) (Drops n)
  unfolding drop_loop
  drop_loop-Drops zero n d c e lt = absurd (omega (arith, c.inside))
  drop_loop-Drops (suc rounds) n d c e lt =
      let ((o, d'), run, t) = next-Advanced d c in
      elim (Option-cases o) [
        | inl over ↦ (
          some d'.sm,
          drop_loop-none rounds d d' (run ∙ ap (λ q. done (q, d')) over),
          (
            d'.sm,
            refl,
            subst (λ i. ClearedTo i d'.sm) (t.at_end over ∙ e) t.cleared,
            t.same_length ∙ e,
          ),
        )
        | inr (x, more) ↦
            let (r, run', u) =
              drop_loop-Drops rounds n d' t.cleared (t.same_length ∙ e)
                (omega (arith, t.yielded x more)) in
            (r, drop_loop-some rounds d d' x (run ∙ ap (λ q. done (q, d')) more) ∙ run', u)
      ]

  occupancy-eq-zero :
      (ss : List (Slot V))
      → ((i : ℕ) (s : Slot V) → get_elem? ss i ≡ some s → s.version % 2 ≡ 0)
      → occupancy ss ≡ 0
  occupancy-eq-zero [] h = refl
  occupancy-eq-zero (s ∷ ss) h =
      omega (arith, h 0 s refl, occupancy-eq-zero ss (λ i x e. h (suc i) x e))

  cleared_slot :
      (m : SlotMap V) (i : ℕ) (s : Slot V)
      → ClearedTo (length m.slots) m
      → get_elem? m.slots i ≡ some s
      → (s.version % 2 ≡ 0) ⊎ (s.version % 2 ≡ 1)
      → s.version % 2 ≡ 0
  cleared_slot m i s c e (inl even) = even
  cleared_slot m i s c e (inr odd) =
      let (v, some_v) = view_odd m c.free i s.u s.version c.valid e odd in
      let key : KeyData = record { idx = i; version = s.version } in
      absurd (ground (arith, some_v, c.cleared key (get_elem?-lt m.slots i e)))

  -- A valid map with no element, whose keys stand for nothing.
  pub record Cleared (m : SlotMap V) : Type ℓ where
    pub free : List ℕ
    pub valid : IsValid m free
    pub counted : m.num_elems ≡ 0
    pub reads : (k : KeyData) → view m k ≡ none

  -- `clear`, the drop of a fresh `Drain`, ends within one round for each slot and one more, never
  -- panics and has no undefined behaviour; it leaves a valid map with no element and as many
  -- slots as before, in which every key stands for nothing.
  pub clear-Cleared :
      (m : SlotMap V) (free : List ℕ)
      → IsValid m free
      → Returns
          (clear m)
          λ o. (m' : SlotMap V) × (o ≡ some m') × Cleared m' × (length m'.slots ≡ length m.slots)
  unfolding clear
  clear-Cleared m free h =
      let start : ClearedTo 1 m = record {
        free = free;
        valid = h;
        positive = omega arith;
        inside = get_elem?-lt m.slots 0 h.sentinel;
        cleared = λ k lt.
            let p : k.idx ≡ 0 = omega arith in
            rw p (view_even m free 0 k.version (next_free 0) 0 h h.sentinel refl);
      } in
      let (o, run, (m', e, c, same)) =
        drop_loop-Drops (length m.slots + 1) (length m.slots) (drain m) start refl (omega arith) in
      let c' : ClearedTo (length m'.slots) m' = subst (λ n. ClearedTo n m') (sym same) c in
      (
        o,
        run,
        (
          m',
          e,
          record {
            free = c'.free;
            valid = c'.valid;
            counted =
                c'.valid.counted
                ∙ occupancy-eq-zero m'.slots (λ i s at. cleared_slot m' i s c' at (ground arith));
            reads = λ k. elim (Bool-cases (ltb k.idx (length m'.slots))) [
              | inl lt ↦ c'.cleared k (ground (arith, lt))
              | inr ge ↦
                  view_slots-none m'.slots k.idx k.version
                    (get_elem?-ge m'.slots k.idx (ground (arith, ge)))
            ];
          },
          same,
        ),
      )
