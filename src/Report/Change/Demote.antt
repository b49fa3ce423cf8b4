-- ===== src/Report/Change/Demote.antt =====
-- The frames that `change_context` keeps as children.
use rustyfill.Prelude.{
  leb, Bool-cases, Option-cases, length, take, Result, ok, ℕ, zero, suc, ◌+◌, ◌-◌, ◌≤◌, ◌≡◌, refl,
  sym, ap, ◌∙◌, inl, inr, false, some, List, [], ◌∷◌, ◌++◌, map, arith,
}
use mathlib.Core.Path.{subst}
use mathlib.Core.List.{append_assoc, append-nil}
use rustyfill.Vec.{Growth, MakesRoom}
use rustyfill.Deque.{Deque, size, front_items, empty_deque, pop_back, last_item, reserve_deque}
use rustyfill.Deque.Ends.{length-front_items, last_item-some, last_item-none, push_front_room}
use rustyfill.Report.Kept.{
  take_all, take-take, length-take_le, take-front_items, saturating_add-zero, saturating_add-add,
  saturating_add-le,
}
use rustyfill.Report.{
  Ending, ended, ◌then_run◌, usize_max, saturating_add, DynamicFrame, StaticFrame, Report,
}
use rustyfill.Report.Change.{
  Heap, Demotion, evict_child, tick, child_attempted, demoted, demote_and_push, demote_peers,
  with_children, reserved, change_context,
}

take-front_cons :
    {A : Type 0} (n : ℕ) (x : A) (xs : List A)
    → n ≤ length xs
    → take n (x ∷ front_items xs) ≡ take n (x ∷ xs)
take-front_cons zero x xs l = refl
take-front_cons (suc n) x xs l = ap (◌∷◌ x) (take-front_items n xs l)

pub last_item-pos : {A : Type 0} (xs : List A) {x : A} → last_item xs ≡ some x → 1 ≤ length xs
unfolding last_item
last_item-pos [] e = absurd (cc)
last_item-pos (y ∷ xs) e = omega arith

pub length-map : {A B : Type 0} (f : A → B) (xs : List A) → length (map f xs) ≡ length xs
length-map f [] = refl
length-map f (x ∷ xs) = ap suc (length-map f xs)

pub reserve_empty :
    {T R : Type 0} (g : Growth R) (n room : ℕ)
    → g.grow 0 0 (suc n) ≡ ok room
    → reserve_deque {T = T} g empty_deque (suc n) ≡ (ok tt, record { items = []; capacity = room })
unfolding reserve_deque
reserve_empty g n room e = let b : leb (0 + suc n) 0 ≡ false = ground arith in rw (e, b) refl

module _ {C I : Type 0} (erase : C → I) where
  abbrev pub all_demoted : List (StaticFrame C I) → List (DynamicFrame I)
  all_demoted = map (demoted erase)

  -- The children are the newest `n` of the frames `fs`, in their order, the others are counted
  -- above the `k` that were lost before.
  pub record Newest (fs : List (StaticFrame C I)) (k : ℕ) (d : Demotion I) : Type 0 where
    pub n : ℕ
    pub count : n ≤ length fs
    pub items : d.children.items ≡ take n (all_demoted fs)
    pub lost : d.lost ≡ saturating_add k (length fs - n)

module _ {C I R : Type 0} (h : Heap R) (erase : C → I) where
  -- What one call of the closure leaves: the newest `n` of the frame and the children.
  record PushedKept (d : Demotion I) (x : DynamicFrame I) (d' : Demotion I) : Type 0 where
    n : ℕ
    count : n ≤ suc (size d.children)
    items : d'.children.items ≡ take n (x ∷ d.children.items)
    room : d'.children.capacity ≡ d.children.capacity
    lost : d'.lost ≡ saturating_add d.lost (suc (size d.children) - n)

  -- With room for one more child it never panics, and its fuel is enough.
  demote_and_push-kept :
      (fuel : ℕ) (d : Demotion I) (f : StaticFrame C I)
      → suc (size d.children) ≤ d.children.capacity
      → d.lost ≤ usize_max
      → suc (size d.children) ≤ fuel
      → (d' : Demotion I) × (demote_and_push h erase fuel d f ≡ ended d')
        × PushedKept d (demoted erase f) d'
  unfolding demote_and_push child_attempted pop_back front_items
  demote_and_push-kept zero d f r l b = absurd (omega arith)
  demote_and_push-kept (suc fuel) d f r l b = elim (Bool-cases (h.box_at d.clock)) [
    | inl granted ↦
        let x = demoted erase f in
        let q = push_front_room (h.grow_at (suc d.clock)) d.children x (omega (arith, r)) in
        (
          tick (tick (record d { children = record d.children { items = x ∷ d.children.items } })),
          rw (demote_and_push, granted, q, child_attempted) refl,
          record {
            n = suc (size d.children);
            count = omega arith;
            items = sym (take_all (suc (size d.children)) (x ∷ d.children.items) (omega arith));
            room = refl;
            lost = sym (ap (saturating_add d.lost) (omega arith) ∙ saturating_add-zero d.lost l);
          },
        )
    | inr denied ↦ elim (Option-cases (last_item d.children.items)) [
      | inl e ↦
          let z = last_item-none d.children.items e in
          (
            evict_child (tick d),
            rw (demote_and_push, denied, e) refl,
            record {
              n = 0;
              count = omega arith;
              items = rw (z, front_items) refl;
              room = refl;
              lost = rw z refl;
            },
          )
      | inr (y, e) ↦
          let t = length-front_items d.children.items in
          let p = last_item-pos d.children.items e in
          let (d', q, k) =
            demote_and_push-kept fuel (evict_child (tick d)) f (omega (arith, t, r))
              (saturating_add-le d.lost 1) (omega (arith, t, b, p)) in
          let m : k.n ≤ size d.children = omega (arith, k.count, t, p) in
          let w : 1 + (suc (size d.children - 1) - k.n) ≡ suc (size d.children) - k.n =
            omega (arith, m, p) in
          (
            d',
            rw (demote_and_push, denied, e) q,
            record {
              n = k.n;
              count = omega (arith, m);
              items = k.items ∙ take-front_cons k.n (demoted erase f) d.children.items m;
              room = k.room;
              lost =
                  k.lost
                  ∙ ap (λ (u : ℕ). saturating_add (saturating_add d.lost 1) (suc u - k.n)) t
                  ∙ saturating_add-add d.lost 1 (suc (size d.children - 1) - k.n)
                  ∙ ap (saturating_add d.lost) w;
            },
          )
    ]
  ]

  Newest-demote_and_push :
      (fuel k : ℕ) (fs : List (StaticFrame C I)) (d : Demotion I) (f : StaticFrame C I)
      → Newest erase fs k d
      → suc (length fs) ≤ d.children.capacity
      → suc (size d.children) ≤ fuel
      → (d' : Demotion I) × (demote_and_push h erase fuel d f ≡ ended d')
        × Newest erase (f ∷ fs) k d'
        × (d'.children.capacity ≡ d.children.capacity)
  Newest-demote_and_push fuel k fs d f w r b =
      let c =
        length-take_le w.n (all_demoted erase fs)
          (omega (arith, w.count, length-map (demoted erase) fs)) in
      let z : size d.children ≡ w.n = ap length w.items ∙ c in
      let u : d.lost ≤ usize_max = rw (w.lost) (saturating_add-le k (length fs - w.n)) in
      let (d', q, p) = demote_and_push-kept fuel d f (omega (arith, z, r, w.count)) u b in
      let m : p.n ≤ suc w.n = omega (arith, p.count, z) in
      let v : (length fs - w.n) + (suc w.n - p.n) ≡ suc (length fs) - p.n =
        omega (arith, m, w.count) in
      (
        d',
        q,
        record {
          n = p.n;
          count = omega (arith, m, w.count);
          items =
              p.items
              ∙ ap (λ (l : List (DynamicFrame I)). take p.n (demoted erase f ∷ l)) w.items
              ∙ take-take p.n (suc w.n) (all_demoted erase (f ∷ fs)) m;
          lost =
              p.lost
              ∙ ap (λ (x : ℕ). saturating_add d.lost (suc x - p.n)) z
              ∙ ap (λ (x : ℕ). saturating_add x (suc w.n - p.n)) w.lost
              ∙ saturating_add-add k (length fs - w.n) (suc w.n - p.n)
              ∙ ap (saturating_add k) v;
        },
        p.room,
      )

  Newest-demote_peers :
      (fuel k : ℕ) (peers : Deque (StaticFrame C I)) (fs : List (StaticFrame C I)) (d : Demotion I)
      → Newest erase fs k d
      → size peers + length fs ≤ d.children.capacity
      → suc (size peers) ≤ fuel
      → (d' : Demotion I) × (demote_peers h erase fuel peers d ≡ ended d')
        × Newest erase (peers.items ++ fs) k d'
        × (d'.children.capacity ≡ d.children.capacity)
  unfolding demote_peers pop_back
  Newest-demote_peers zero k peers fs d w r b = absurd (omega arith)
  Newest-demote_peers (suc fuel) k peers fs d w r b = elim (Option-cases (last_item peers.items)) [
    | inl e ↦ let z = last_item-none peers.items e in (d, rw (demote_peers, e) refl, rw z w, refl)
    | inr (x, e) ↦
        let z = last_item-some peers.items e in
        let t = length-front_items peers.items in
        let p = last_item-pos peers.items e in
        let (d', q, w', r') =
          Newest-demote_and_push (suc (size d.children)) k fs d x w (omega (arith, r, p))
            (omega arith) in
        let (d'', q', w'', r'') =
          Newest-demote_peers fuel k (pop_back peers).1 (x ∷ fs) d' w' (omega (arith, t, p, r, r'))
            (omega (arith, t, p, b)) in
        let s : (front_items peers.items ++ x ∷ fs) ≡ peers.items ++ fs =
          sym (append_assoc (front_items peers.items) (x ∷ []) fs)
          ∙ ap (λ (l : List (StaticFrame C I)). l ++ fs) (sym z) in
        (
          d'',
          rw (demote_peers, e, q) q',
          subst (λ (l : List (StaticFrame C I)). Newest erase l k d'') s w'',
          r'' ∙ r',
        )
  ]

  reserved-room :
      (r : Report C I) (room : ℕ)
      → suc (size r.peers) ≤ usize_max
      → (h.grow_at 0).grow 0 0 (suc (size r.peers)) ≡ ok room
      → reserved h r ≡ record {
        children = record { items = []; capacity = room };
        lost = r.lost_peers;
        clock = 1;
      }
  unfolding saturating_add
  reserved-room r room l e =
      let t : saturating_add (size r.peers) 1 ≡ suc (size r.peers) = ground (arith, l) in
      ap
        (λ (n : ℕ). record {
          children = (reserve_deque (h.grow_at 0) (empty_deque {T = DynamicFrame I}) n).1;
          lost = r.lost_peers;
          clock = 1;
        })
        t
      ∙ ap
          (λ (p : Result Unit R × Deque (DynamicFrame I)). record {
            children = p.1;
            lost = r.lost_peers;
            clock = 1;
          })
          (reserve_empty (h.grow_at 0) (size r.peers) room e)

  -- Where the children's reservation is granted, `change_context` returns whatever the boxes
  -- answer: the children of the new head are the newest frames of the old report, its head first,
  -- and the others are counted as lost, above the peers lost before. The allocator makes the room
  -- that it promises and the counts are numbers of `usize`.
  pub change_context-Newest :
      {D : Type 0} (r : Report C I) (c : D) (room : ℕ)
      → MakesRoom (h.grow_at 0)
      → suc (size r.peers) ≤ usize_max
      → r.lost_peers ≤ usize_max
      → (h.grow_at 0).grow 0 0 (suc (size r.peers)) ≡ ok room
      → (d : Demotion I) × (change_context h erase r c ≡ ended (with_children r c d))
        × Newest erase (r.head ∷ r.peers.items) r.lost_peers d
  unfolding change_context
  change_context-Newest r c room makes l l' e =
      let start : Newest erase [] r.lost_peers (reserved h r) =
        rw (reserved-room r room l e) (record {
          n = 0;
          count = omega arith;
          items = refl;
          lost = sym (saturating_add-zero r.lost_peers l');
        }) in
      let k = ap (λ (d : Demotion I). d.children.capacity) (reserved-room r room l e) in
      let m = makes 0 0 (suc (size r.peers)) room e in
      let (d, q, w, t) =
        Newest-demote_peers (suc (size r.peers)) r.lost_peers r.peers [] (reserved h r) start
          (omega (arith, k, m)) (omega arith) in
      let w' =
        subst (λ (l : List (StaticFrame C I)). Newest erase l r.lost_peers d)
          (append-nil r.peers.items) w in
      let (d', q', w'', _) =
        Newest-demote_and_push (suc (size d.children)) r.lost_peers r.peers.items d r.head w'
          (omega (arith, k, m, t)) (omega arith) in
      (
        d',
        ap
              (λ (o : Ending (Demotion I)).
                o
                then_run (λ d. demote_and_push h erase (suc (size d.children)) d r.head)
                then_run λ d. ended (with_children r c d))
              q
            ∙ ap (λ (o : Ending (Demotion I)). o then_run λ d. ended (with_children r c d)) q',
        w'',
      )
