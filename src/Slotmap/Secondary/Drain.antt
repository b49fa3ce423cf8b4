-- ===== src/Slotmap/Secondary/Drain.antt =====
-- `Drain` and `clear` of a secondary map.
use rustyfill.Prelude.{
  ltb, ◌==◌, if◌then◌else◌, ==_iff, Bool-cases, Option-cases, length, get_elem?, set, length-set,
  get_elem?-lt, get_elem?-ge, get_elem?-some, get_elem?-set, Outcome, done, ◌>>=◌, Returns, u32_mod,
  expect_sub, ℕ, zero, suc, ◌+◌, ◌-◌, ◌%◌, ◌≤◌, ◌<◌, ◌≡◌, refl, ap, ◌∙◌, inl, inr, false, Option,
  none, some, List, [], ◌∷◌, arith,
}
use rustyfill.Slotmap.Key
use rustyfill.Slotmap.Key.{KeyData}
use rustyfill.Slotmap.Secondary.{Slot, occupied, vacant, SecondaryMap}
use rustyfill.Slotmap.Secondary.Invariant.{
  slot_count, occupancy, IsValid, view, view_slots, write-IsValid, occupancy-set, view_slots-some,
  view_slots-none,
}

pub record Drain {ℓ} (V : Type ℓ) : Type ℓ where
  pub sm : SecondaryMap V
  pub cur : ℕ

module _ {ℓ} {V : Type ℓ} where
  unfoldable pub drain : SecondaryMap V → Drain V
  drain m = record { sm = m; cur = 1 }

  -- The `while let` loop of `next`; each round replaces a slot by a vacant one.
  drain_loop : ℕ → SecondaryMap V → ℕ → Outcome (Option (KeyData × V) × Drain V)
  unfolding Key.new
  drain_loop zero m cur = done (none, record { sm = m; cur = cur })
  drain_loop (suc rounds) m cur = elim (get_elem? m.slots cur) [
    | none ↦ done (none, record { sm = m; cur = cur })
    | some s ↦ elim s [
      | vacant ↦ drain_loop rounds (record m { slots = set m.slots cur vacant }) (cur + 1)
      | occupied v version ↦ do
        num_elems ← expect_sub m.num_elems 1
        done (
          some (Key.new (cur % u32_mod) version, v),
          record {
            sm = record { slots = set m.slots cur vacant; num_elems = num_elems };
            cur = cur + 1;
          },
        )
    ]
  ]

  -- A round for each slot that is left.
  unfoldable pub next : Drain V → Outcome (Option (KeyData × V) × Drain V)
  unfolding drain_loop
  next d = drain_loop (length d.sm.slots - d.cur) d.sm d.cur

  -- `for_each(|_| {})`, the body of `Drain::drop`; `none` where the rounds do not suffice.
  drop_loop : ℕ → Drain V → Outcome (Option (SecondaryMap V))
  drop_loop zero d = done none
  drop_loop (suc rounds) d =
      next d >>= λ r. elim r.0 [ none ↦ done (some r.1.sm) | some _ ↦ drop_loop rounds r.1 ]

  unfoldable pub clear : SecondaryMap V → Outcome (Option (SecondaryMap V))
  unfolding drop_loop drain
  clear m = drop_loop (length m.slots + 1) (drain m)

  -- The slots from 1 up to `cur` are vacant, and slot 0 is as in `m₀`.
  record ClearedTo (m₀ : SecondaryMap V) (cur : ℕ) (m : SecondaryMap V) : Type ℓ where
    valid : IsValid m
    positive : 0 < cur
    inside : cur ≤ length m.slots + 1
    same_length : length m.slots ≡ length m₀.slots
    first : get_elem? m.slots 0 ≡ get_elem? m₀.slots 0
    cleared : (i : ℕ) → 0 < i → i < cur → i < length m.slots → get_elem? m.slots i ≡ some vacant

  cleared_step :
      (m₀ m : SecondaryMap V) (cur num : ℕ) (s : Slot V)
      → ClearedTo m₀ cur m
      → get_elem? m.slots cur ≡ some s
      → num + slot_count s ≡ m.num_elems
      → ClearedTo m₀ (cur + 1) (record { slots = set m.slots cur vacant; num_elems = num })
  cleared_step m₀ m cur num s t at c = record {
    valid = write-IsValid m cur num s vacant t.valid at tt (omega arith);
    positive = omega arith;
    inside = omega (arith, get_elem?-lt m.slots cur at, length-set m.slots cur vacant);
    same_length = length-set m.slots cur vacant ∙ t.same_length;
    first =
        let apart : (cur == 0) ≡ false = ground (arith, t.positive) in
        rw apart at (get_elem?-set m.slots cur 0 vacant (get_elem?-lt m.slots cur at)) ∙ t.first;
    cleared = λ i pos lt len. elim (Bool-cases (cur == i)) [
      | inl here ↦ rw here at (get_elem?-set m.slots cur i vacant (get_elem?-lt m.slots cur at))
      | inr other ↦
          rw other at (get_elem?-set m.slots cur i vacant (get_elem?-lt m.slots cur at))
          ∙ t.cleared i pos (ground (arith, other)) (omega (arith, length-set m.slots cur vacant))
    ];
  }

  -- What `next` leaves, where `cur` is the index at the call.
  record Advanced (m₀ : SecondaryMap V) (cur : ℕ) (r : Option (KeyData × V) × Drain V)
      : Type ℓ where
    cleared : ClearedTo m₀ r.1.cur r.1.sm
    at_end : r.0 ≡ none → length m₀.slots ≤ r.1.cur
    yielded : (e : KeyData × V) → r.0 ≡ some e → cur < r.1.cur

  drain_loop-occupied :
      (rounds cur version : ℕ) (m : SecondaryMap V) (v : V)
      → get_elem? m.slots cur ≡ some (occupied v version)
      → 0 < m.num_elems
      → drain_loop (suc rounds) m cur
        ≡ done (
          some (Key.new (cur % u32_mod) version, v),
          record {
            sm = record { slots = set m.slots cur vacant; num_elems = m.num_elems - 1 };
            cur = cur + 1;
          },
        )
  unfolding drain_loop
  drain_loop-occupied rounds cur version m v at pos = ground (arith, at, pos)

  drain_loop-vacant :
      (rounds cur : ℕ) (m : SecondaryMap V)
      → get_elem? m.slots cur ≡ some vacant
      → drain_loop (suc rounds) m cur
        ≡ drain_loop rounds (record m { slots = set m.slots cur vacant }) (cur + 1)
  unfolding drain_loop
  drain_loop-vacant rounds cur m at = rw (at, drain_loop)

  drain_loop-slot :
      (rounds cur : ℕ) (m₀ m : SecondaryMap V) (s : Slot V)
      → ((m' : SecondaryMap V)
          → ClearedTo m₀ (cur + 1) m'
          → Returns (drain_loop rounds m' (cur + 1)) (Advanced m₀ (cur + 1)))
      → ClearedTo m₀ cur m
      → get_elem? m.slots cur ≡ some s
      → Returns (drain_loop (suc rounds) m cur) (Advanced m₀ cur)
  drain_loop-slot rounds cur m₀ m vacant ih t at =
      let (r, run, u) =
        ih (record m { slots = set m.slots cur vacant })
          (cleared_step m₀ m cur m.num_elems vacant t at (omega arith)) in
      (
        r,
        drain_loop-vacant rounds cur m at ∙ run,
        record {
          cleared = u.cleared;
          at_end = u.at_end;
          yielded = λ e q. omega (arith, u.yielded e q);
        },
      )
  drain_loop-slot rounds cur m₀ m (occupied v version) ih t at =
      let pos : 0 < m.num_elems =
        omega (arith, t.valid.counted, occupancy-set m.slots cur (occupied v version) vacant at) in
      (
        _,
        drain_loop-occupied rounds cur version m v at pos,
        record {
          cleared = cleared_step m₀ m cur (m.num_elems - 1) (occupied v version) t at (omega arith);
          at_end = λ q. cc;
          yielded = λ _ _. omega arith;
        },
      )

  drain_loop-Advanced :
      (rounds cur : ℕ) (m₀ m : SecondaryMap V)
      → ClearedTo m₀ cur m
      → length m₀.slots ≤ cur + rounds
      → rounds + cur ≤ length m₀.slots + 1
      → Returns (drain_loop rounds m cur) (Advanced m₀ cur)
  unfolding drain_loop
  drain_loop-Advanced zero cur m₀ m t e b = (
    (none, record { sm = m; cur = cur }),
    refl,
    record { cleared = t; at_end = λ _. omega arith; yielded = λ _ q. cc },
  )
  drain_loop-Advanced (suc rounds) cur m₀ m t e b = elim (Option-cases (get_elem? m.slots cur)) [
    | inl out ↦ (
      (none, record { sm = m; cur = cur }),
      rw (out, drain_loop),
      record {
        cleared = t;
        at_end = λ _. elim (Bool-cases (ltb cur (length m.slots))) [
          | inl lt ↦
              let (s, at) = get_elem?-some m.slots cur (ground (arith, lt)) in
              absurd (ground (arith, out, at))
          | inr ge ↦ ground (arith, ge, t.same_length)
        ];
        yielded = λ _ q. cc;
      },
    )
    | inr (s, at) ↦
        drain_loop-slot rounds cur m₀ m s
          (λ m' t'. drain_loop-Advanced rounds (cur + 1) m₀ m' t' (omega arith) (omega arith)) t at
  ]

  next-Advanced :
      (m₀ : SecondaryMap V) (d : Drain V)
      → ClearedTo m₀ d.cur d.sm
      → Returns (next d) (Advanced m₀ d.cur)
  unfolding next
  next-Advanced m₀ d t =
      drain_loop-Advanced (length d.sm.slots - d.cur) d.cur m₀ d.sm t (omega (arith, t.same_length))
        (omega (arith, t.same_length, t.inside))

  drop_loop-none :
      (rounds : ℕ) (d d' : Drain V)
      → next d ≡ done (none, d')
      → drop_loop (suc rounds) d ≡ done (some d'.sm)
  unfolding drop_loop
  drop_loop-none rounds d d' run = rw run

  drop_loop-some :
      (rounds : ℕ) (d d' : Drain V) (x : KeyData × V)
      → next d ≡ done (some x, d')
      → drop_loop (suc rounds) d ≡ drop_loop rounds d'
  unfolding drop_loop
  drop_loop-some rounds d d' x run = rw run

  -- Every slot but the first is vacant.
  record Swept (m₀ m : SecondaryMap V) : Type ℓ where
    valid : IsValid m
    same_length : length m.slots ≡ length m₀.slots
    first : get_elem? m.slots 0 ≡ get_elem? m₀.slots 0
    cleared : (i : ℕ) → 0 < i → i < length m.slots → get_elem? m.slots i ≡ some vacant

  drop_loop-Swept :
      (rounds : ℕ) (m₀ : SecondaryMap V) (d : Drain V)
      → ClearedTo m₀ d.cur d.sm
      → length m₀.slots + 1 < d.cur + rounds
      → Returns (drop_loop rounds d) λ o. (m : SecondaryMap V) × (o ≡ some m) × Swept m₀ m
  unfolding drop_loop
  drop_loop-Swept zero m₀ d t lt = absurd (omega (arith, t.inside, t.same_length))
  drop_loop-Swept (suc rounds) m₀ d t lt =
      let ((o, d'), run, u) = next-Advanced m₀ d t in
      elim (Option-cases o) [
        | inl over ↦ (
          some d'.sm,
          drop_loop-none rounds d d' (run ∙ ap (λ q. done (q, d')) over),
          (
            d'.sm,
            refl,
            record {
              valid = u.cleared.valid;
              same_length = u.cleared.same_length;
              first = u.cleared.first;
              cleared = λ i pos len.
                  u.cleared.cleared i pos (omega (arith, u.at_end over, u.cleared.same_length)) len;
            },
          ),
        )
        | inr (x, more) ↦
            let (r, run', w) =
              drop_loop-Swept rounds m₀ d' u.cleared (omega (arith, u.yielded x more)) in
            (r, drop_loop-some rounds d d' x (run ∙ ap (λ q. done (q, d')) more) ∙ run', w)
      ]

  occupancy-eq-zero :
      (ss : List (Slot V))
      → ((i : ℕ) → i < length ss → get_elem? ss i ≡ some vacant)
      → occupancy ss ≡ 0
  occupancy-eq-zero [] h = refl
  occupancy-eq-zero (s ∷ ss) h =
      let e : s ≡ vacant = cc (h 0 (omega arith)) in
      rw e (omega (arith, occupancy-eq-zero ss (λ i lt. h (suc i) (omega arith))))

  -- How many values stand in the first slot.
  abbrev pub first_count : List (Slot V) → ℕ
  first_count [] = 0
  first_count (s ∷ ss) = slot_count s

  first_count-set :
      (ss ss' : List (Slot V)) → get_elem? ss' 0 ≡ get_elem? ss 0 → first_count ss' ≡ first_count ss
  first_count-set [] [] e = refl
  first_count-set [] (s ∷ ss') e = cc
  first_count-set (s ∷ ss) [] e = cc
  first_count-set (s ∷ ss) (s' ∷ ss') e = ground (arith, e)

  occupancy-first :
      (ss : List (Slot V))
      → ((i : ℕ) → 0 < i → i < length ss → get_elem? ss i ≡ some vacant)
      → occupancy ss ≡ first_count ss
  occupancy-first [] h = refl
  occupancy-first (s ∷ ss) h =
      omega (arith, occupancy-eq-zero ss (λ i lt. h (suc i) (omega arith) (omega arith)))

  view_slots-first :
      (ss ss' : List (Slot V)) (version : ℕ)
      → get_elem? ss' 0 ≡ get_elem? ss 0
      → view_slots ss' 0 version ≡ view_slots ss 0 version
  unfolding view_slots
  view_slots-first [] [] version e = refl
  view_slots-first [] (s ∷ ss') version e = cc
  view_slots-first (s ∷ ss) [] version e = cc
  view_slots-first (s ∷ ss) (s' ∷ ss') version e = ground (arith, e)

  -- What `clear` leaves of `m`.
  pub record Cleared (m m' : SecondaryMap V) : Type ℓ where
    pub valid : IsValid m'
    pub counted : m'.num_elems ≡ first_count m.slots
    pub reads : (k : KeyData) → view m' k ≡ (if k.idx == 0 then view m k else none)

  -- `clear` ends within the rounds that its length gives and does not panic on a valid map. Every
  -- key of a slot behind the first then stands for nothing. The first slot is skipped: a key of
  -- index 0 stands for what it did, and is still counted.
  pub clear-first :
      (m : SecondaryMap V)
      → IsValid m
      → Returns (clear m) λ o. (m' : SecondaryMap V) × (o ≡ some m') × Cleared m m'
  unfolding clear
  clear-first m h =
      let start : ClearedTo m 1 m = record {
        valid = h;
        positive = omega arith;
        inside = omega arith;
        same_length = refl;
        first = refl;
        cleared = λ i pos lt. absurd (omega arith);
      } in
      let (o, run, (m', e, t)) =
        drop_loop-Swept (length m.slots + 1) m (drain m) start (omega arith) in
      (
        o,
        run,
        (
          m',
          e,
          record {
            valid = t.valid;
            counted =
                t.valid.counted
                ∙ occupancy-first m'.slots t.cleared
                ∙ first_count-set m.slots m'.slots t.first;
            reads = λ k. elim (Bool-cases (k.idx == 0)) [
              | inl zeroth ↦
                  let p : k.idx ≡ 0 = (==_iff k.idx 0).0 zeroth in
                  rw (p) (view_slots-first m.slots m'.slots k.version t.first)
              | inr behind ↦ elim (Bool-cases (ltb k.idx (length m'.slots))) [
                | inl lt ↦ rw behind (
                    view_slots-some m'.slots k.idx k.version vacant
                      (t.cleared k.idx (ground (arith, behind)) (ground (arith, lt)))
                    ∙ (ground arith))
                | inr ge ↦ rw behind (
                    view_slots-none m'.slots k.idx k.version
                      (get_elem?-ge m'.slots k.idx (ground (arith, ge))))
              ]
            ];
          },
        ),
      )
