-- ===== src/Report/Change/Fallible/Boxing.antt =====
-- The loops of `try_change_context`, where the room that they need was reserved.
use mathlib.Core.List.{reverse, reverse_aux, reverse-cons, reverse-append}
use rustyfill.Prelude.{
  leb, Bool-cases, Option-cases, length, length-append, ok, err, ℕ, zero, suc, ◌+◌, ◌≤◌, ◌≡◌, refl,
  sym, ap, ◌∙◌, inl, inr, true, false, List, [], ◌∷◌, ◌++◌, map, arith,
}
use rustyfill.Vec.{Vec, Growth, returned, len, try_reserve, try_push_give_back}
use rustyfill.Vec.Fill.{with_items, push_room, append_assoc, append_nil}
use rustyfill.Deque.{Deque, size, front_items, pop_back, last_item}
use rustyfill.Deque.Ends.{
  length-front_items, last_item-some, last_item-none, push_front_room, push_back_room,
}
use rustyfill.Report.{ended, DynamicFrame, StaticFrame}
use rustyfill.Report.Change.{Heap, demoted}
use rustyfill.Report.Change.Demote.{last_item-pos}
use rustyfill.Report.Change.Fallible.{
  IntermediateFrame, boxed, recover_static, into_dynamic, boxes_after, either_way, expected, Boxes,
  box_peers, recover_peers, adopt,
}

pub length-reverse : {A : Type 0} (xs : List A) → length (reverse xs) ≡ length xs
length-reverse [] = refl
length-reverse (x ∷ xs) =
    let e = ap length (reverse-cons x xs) in
    omega (arith, e, length-append (reverse xs) (x ∷ []), length-reverse xs)

pub give_back_room :
    {T R : Type 0} (g : Growth R) (v : Vec T) (x : T)
    → suc (len v) ≤ v.capacity
    → try_push_give_back g v x ≡ (returned (ok tt), with_items v (x ∷ []))
unfolding try_push_give_back try_reserve
give_back_room g v x l =
    let fits : leb (len v + 1) v.capacity ≡ true = ground (arith, l) in
    rw (try_push_give_back, try_reserve, fits, push_room v x l) refl

module _ {C I : Type 0} where
  -- The frames in the boxes, the newest first.
  abbrev pub statics : Vec (IntermediateFrame C I) → List (StaticFrame C I)
  statics v = map recover_static (reverse v.items)

  pub statics-push :
      (v : Vec (IntermediateFrame C I)) (f : StaticFrame C I)
      → statics (with_items v (boxed f ∷ [])) ≡ f ∷ statics v
  unfolding recover_static boxed
  statics-push v f = ap (map recover_static) (reverse-append v.items (boxed f ∷ []))

module _ {C I R : Type 0} (h : Heap R) where
  pub recover_peers-all :
      (is : List (IntermediateFrame C I)) (peers : Deque (StaticFrame C I)) (t : ℕ)
      → size peers + length is ≤ peers.capacity
      → recover_peers h is peers t
        ≡ ended (record peers { items = peers.items ++ map recover_static is })
  unfolding recover_peers either_way
  recover_peers-all [] peers t l =
      ap (λ (xs : List (StaticFrame C I)). ended (record peers { items = xs }))
        (sym (append_nil peers.items))
  recover_peers-all (i ∷ is) peers t l =
      let q = push_back_room (h.grow_at t) peers (recover_static i) (omega (arith, l)) in
      let s = length-append peers.items (recover_static i ∷ []) in
      rw (recover_peers, q, either_way)
        (recover_peers-all is (record peers { items = peers.items ++ recover_static i ∷ [] })
            (t + 1) (omega (arith, l, s))
          ∙ ap (λ (xs : List (StaticFrame C I)). ended (record peers { items = xs }))
              (append_assoc peers.items (recover_static i ∷ []) (map recover_static is)))

  pub adopt-all :
      (erase : C → I) (is : List (IntermediateFrame C I)) (children : Deque (DynamicFrame I))
      (t : ℕ)
      → size children + length is ≤ children.capacity
      → adopt h erase is children t
        ≡ ended (record children {
          items = reverse_aux (map (demoted erase) (map recover_static is)) children.items;
        })
  unfolding adopt expected into_dynamic recover_static demoted
  adopt-all erase [] children t l = refl
  adopt-all erase (i ∷ is) children t l =
      let q = push_front_room (h.grow_at t) children (into_dynamic erase i) (omega (arith, l)) in
      rw (adopt, q, expected)
        (adopt-all erase is (record children { items = into_dynamic erase i ∷ children.items })
          (t + 1) (omega (arith, l)))

  -- What the boxing loop leaves: the frames in boxes and the frames out of them are, in their
  -- order, the frames that there were.
  abbrev pub Boxing : Vec (IntermediateFrame C I) → Deque (StaticFrame C I) → Boxes C I → Type 0
  Boxing v p (ok (v', p', t)) =
      (p' ≡ record p { items = [] })
      × (statics v' ≡ p.items ++ statics v)
      × (v'.capacity ≡ v.capacity)
  Boxing v p (err (v', f, p', t)) =
      (p.items ++ statics v ≡ p'.items ++ f ∷ statics v')
      × (p'.capacity ≡ p.capacity)
      × ((u : ℕ) × (h.box_at u ≡ false))

  -- One more frame in a box.
  Boxing-push :
      (v : Vec (IntermediateFrame C I)) (p : Deque (StaticFrame C I)) (f : StaticFrame C I)
      (b : Boxes C I)
      → (front_items p.items ++ f ∷ statics v) ≡ p.items ++ statics v
      → Boxing (with_items v (boxed f ∷ [])) (pop_back p).1 b
      → Boxing v p b
  unfolding pop_back
  Boxing-push v p f (ok (v', p', t)) s (q, m, c) = (
    q,
    m ∙ ap (λ (xs : List (StaticFrame C I)). front_items p.items ++ xs) (statics-push v f) ∙ s,
    c,
  )
  Boxing-push v p f (err (v', f', p', t)) s (m, c, d) = (
    sym s
        ∙ ap (λ (xs : List (StaticFrame C I)). front_items p.items ++ xs) (sym (statics-push v f))
        ∙ m,
    c,
    d,
  )

  pub box_peers-Boxing :
      (fuel : ℕ) (v : Vec (IntermediateFrame C I)) (p : Deque (StaticFrame C I)) (t : ℕ)
      → suc (size p) ≤ fuel
      → len v + size p ≤ v.capacity
      → (b : Boxes C I) × (box_peers h fuel v p t ≡ ended b) × Boxing v p b
  unfolding box_peers pop_back boxes_after
  box_peers-Boxing zero v p t b l = absurd (omega arith)
  box_peers-Boxing (suc fuel) v p t b l = elim (Option-cases (last_item p.items)) [
    | inl e ↦
        let z = last_item-none p.items e in
        (
          ok (v, p, t),
          rw (box_peers, e) refl,
          (
            ap (λ (xs : List (StaticFrame C I)). record p { items = xs }) z,
            ap (λ (xs : List (StaticFrame C I)). xs ++ statics v) (sym z),
            refl,
          ),
        )
    | inr (f, e) ↦
        let n = length-front_items p.items in
        let pos = last_item-pos p.items e in
        let s : (front_items p.items ++ f ∷ statics v) ≡ p.items ++ statics v =
          sym (append_assoc (front_items p.items) (f ∷ []) (statics v))
          ∙ ap (λ (xs : List (StaticFrame C I)). xs ++ statics v)
              (sym (last_item-some p.items e)) in
        elim (Bool-cases (h.box_at t)) [
          | inr denied ↦ (
            err (v, f, (pop_back p).1, t + 1),
            rw (box_peers, e, denied) refl,
            (sym s, refl, (t, denied)),
          )
          | inl granted ↦
              let q = give_back_room (h.grow_at (t + 1)) v (boxed f) (omega (arith, l, pos)) in
              let m = length-append v.items (boxed f ∷ []) in
              let (b', q', w) =
                box_peers-Boxing fuel (with_items v (boxed f ∷ [])) (pop_back p).1 (t + 2)
                  (omega (arith, n, pos, b)) (omega (arith, n, pos, l, m)) in
              (b', rw (box_peers, e, granted, q, boxes_after) q', Boxing-push v p f b' s w)
        ]
  ]
