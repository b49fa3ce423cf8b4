-- ===== src/Report/Change/Fallible/Recover.antt =====
-- How `try_change_context` ends.
use mathlib.Core.Path.{subst}
use mathlib.Core.List.{reverse}
use rustyfill.Prelude.{
  leb, Bool-cases, length, length-append, Result, ok, err, Result-cases, ℕ, suc, ◌+◌, ◌≤◌, ◌≡◌,
  refl, sym, ap, ◌∙◌, ◌⊎◌, inl, inr, false, none, some, List, [], ◌∷◌, ◌++◌, map, arith,
}
use rustyfill.Vec.{Vec, Growth, MakesRoom, try_reserve, empty, or_refused, try_with_capacity}
use rustyfill.Vec.Fill.{with_items, append_assoc, append_nil}
use rustyfill.Deque.{Deque, size, empty_deque, reserve_deque}
use rustyfill.Deque.Ends.{IsValid, push_back_room}
use rustyfill.Report.{
  Ending, ended, ◌then_run◌, usize_max, saturating_add, DynamicFrame, StaticFrame, Report,
}
use rustyfill.Report.Change.{Heap, Demotion, demoted, with_children}
use rustyfill.Report.Change.Demote.{length-map, reserve_empty}
use rustyfill.Report.Change.Fallible.{
  IntermediateFrame, boxed, recover_static, boxes_after, either_way, Boxes, recover_report,
  box_head, box_result, intermediates_made, children_reserved, try_change_context,
}
use rustyfill.Report.Change.Fallible.Boxing.{
  length-reverse, give_back_room, statics, recover_peers-all, adopt-all, Boxing, statics-push,
  box_peers-Boxing,
}

pub reserve_refused :
    {T R : Type 0} (g : Growth R) (n : ℕ) (x : R)
    → g.grow 0 0 (suc n) ≡ err x
    → reserve_deque {T = T} g empty_deque (suc n) ≡ (err x, empty_deque)
unfolding reserve_deque
reserve_refused g n x e = let b : leb (0 + suc n) 0 ≡ false = ground arith in rw (e, b) refl

with_capacity_granted :
    {T R : Type 0} (g : Growth R) (n room : ℕ)
    → g.grow 0 0 (suc n) ≡ ok room
    → try_with_capacity {T = T} g (suc n) ≡ ok (record { items = []; capacity = room })
unfolding try_with_capacity try_reserve
with_capacity_granted {T} g n room e =
    let b : leb (0 + suc n) 0 ≡ false = ground arith in
    let q : try_reserve {T = T} g empty (suc n) ≡ (ok tt, record { items = []; capacity = room }) =
      rw (try_reserve, e, b) refl in
    ap or_refused q

with_capacity_refused :
    {T R : Type 0} (g : Growth R) (n : ℕ) (x : R)
    → g.grow 0 0 (suc n) ≡ err x
    → try_with_capacity {T = T} g (suc n) ≡ err x
unfolding try_with_capacity try_reserve
with_capacity_refused {T} g n x e =
    let b : leb (0 + suc n) 0 ≡ false = ground arith in
    let q : try_reserve {T = T} g empty (suc n) ≡ (err x, empty) = rw (try_reserve, e, b) refl in
    ap or_refused q

module _ {C I R : Type 0} (h : Heap R) where
  -- The frames out of the boxes behind the frames that were left, the refused one between.
  recover_report-all :
      (v : Vec (IntermediateFrame C I)) (f : StaticFrame C I) (p : Deque (StaticFrame C I))
      (r : Report C I) (t : ℕ)
      → p.items ++ f ∷ statics v ≡ r.peers.items
      → p.capacity ≡ r.peers.capacity
      → IsValid r.peers
      → recover_report h v (some f) p r.head r.lost_peers r.capacity t ≡ ended r
  unfolding recover_report either_way
  recover_report-all v f p r t e c w =
      let n = ap length e in
      let m = length-append p.items (f ∷ statics v) in
      let s = length-map recover_static (reverse v.items) in
      let u = length-append p.items (f ∷ []) in
      let q = push_back_room (h.grow_at t) p f (omega (arith, n, m, s, c, w)) in
      let p' = record p { items = p.items ++ f ∷ [] } in
      let q' = recover_peers-all h (reverse v.items) p' (t + 1) (omega (arith, n, m, s, u, c, w)) in
      let x = append_assoc p.items (f ∷ []) (statics v) ∙ e in
      rw (recover_report, q, either_way, q')
        (λ i. ended (record r { peers = record { items = x i; capacity = c i } }))

  recover_report-head :
      (v : Vec (IntermediateFrame C I)) (p : Deque (StaticFrame C I)) (r : Report C I) (t : ℕ)
      → p ≡ record r.peers { items = [] }
      → statics v ≡ r.peers.items
      → IsValid r.peers
      → recover_report h v none p r.head r.lost_peers r.capacity t ≡ ended r
  unfolding recover_report
  recover_report-head v p r t z e w =
      let s = length-map recover_static (reverse v.items) in
      let n = ap length e in
      let q =
        recover_peers-all h (reverse v.items) (record r.peers { items = [] }) (t + 1)
          (omega (arith, n, s, w)) in
      rw (recover_report, z, q) (λ i. ended (record r { peers = record r.peers { items = e i } }))

  module _ {D : Type 0} (erase : C → I) (r : Report C I) (c : D) where
    -- The new report, whose children are the old frames, the oldest first.
    pub record Changed (o : Ending (Result (Report D I) (Report C I × D))) : Type 0 where
      pub d : Demotion I
      pub result : o ≡ ended (ok (with_children r c d))
      pub children : d.children.items ≡ reverse (map (demoted erase) (r.head ∷ r.peers.items))
      pub lost : d.lost ≡ r.lost_peers

    -- The old report and the new context.
    pub record GivenBack (o : Ending (Result (Report D I) (Report C I × D))) : Type 0 where
      pub result : o ≡ ended (err (r, c))
      pub reason :
          ((e : R) × ((h.grow_at 0).grow 0 0 (suc (size r.peers)) ≡ err e))
          ⊎ ((e : R) × ((h.grow_at 1).grow 0 0 (suc (size r.peers)) ≡ err e))
          ⊎ ((t : ℕ) × (h.box_at t ≡ false))

    box_head-cases :
        (room room' : ℕ) (v : Vec (IntermediateFrame C I)) (p : Deque (StaticFrame C I)) (t : ℕ)
        → IsValid r.peers
        → suc (size r.peers) ≤ room
        → suc (size r.peers) ≤ room'
        → p ≡ record r.peers { items = [] }
        → statics v ≡ r.peers.items
        → v.capacity ≡ room'
        → Changed (box_head h erase r c (record { items = []; capacity = room }) v p t)
          ⊎ GivenBack (box_head h erase r c (record { items = []; capacity = room }) v p t)
    unfolding box_head boxes_after
    box_head-cases room room' v p t w l l' z e k = elim (Bool-cases (h.box_at t)) [
      | inr denied ↦ inr (record {
        result =
            rw (box_head, denied)
              (ap (λ (o : Ending (Report C I)). o then_run λ r'. ended (err (r', c)))
                (recover_report-head v p r (t + 1) z e w));
        reason = inr (inr (t, denied));
      })
      | inl granted ↦
          let n = ap length e in
          let s = length-map recover_static (reverse v.items) in
          let u = length-reverse v.items in
          let q =
            give_back_room (h.grow_at (t + 1)) v (boxed r.head) (omega (arith, n, s, u, k, l')) in
          let v' = with_items v (boxed r.head ∷ []) in
          let m = length-reverse v'.items in
          let m' = length-append v.items (boxed r.head ∷ []) in
          let q' =
            adopt-all h erase (reverse v'.items) (record { items = []; capacity = room }) (t + 2)
              (omega (arith, n, s, u, m, m', l)) in
          inl (record {
            d = record {
              children = record {
                items = reverse (map (demoted erase) (statics v'));
                capacity = room;
              };
              lost = r.lost_peers;
              clock = t;
            };
            result = rw (box_head, granted, q, boxes_after, q') refl;
            children =
                ap (λ (xs : List (StaticFrame C I)). reverse (map (demoted erase) xs))
                  (statics-push v r.head ∙ ap (◌∷◌ r.head) e);
            lost = refl;
          })
    ]

    box_result-cases :
        (room room' : ℕ) (b : Boxes C I)
        → IsValid r.peers
        → suc (size r.peers) ≤ room
        → suc (size r.peers) ≤ room'
        → Boxing h (record { items = []; capacity = room' }) r.peers b
        → Changed (box_result h erase r c (record { items = []; capacity = room }) b)
          ⊎ GivenBack (box_result h erase r c (record { items = []; capacity = room }) b)
    unfolding box_result
    box_result-cases room room' (err (v, f, p, t)) w l l' (e, k, d) = inr (record {
      result =
          ap (λ (o : Ending (Report C I)). o then_run λ r'. ended (err (r', c)))
            (recover_report-all v f p r t (sym e ∙ append_nil r.peers.items) k w);
      reason = inr (inr d);
    })
    box_result-cases room room' (ok (v, p, t)) w l l' (z, e, k) =
        box_head-cases room room' v p t w l l' z (e ∙ append_nil r.peers.items) k

    -- `try_change_context` makes all frames of the report, its head included, children of the new
    -- head, the oldest first, with the count of lost peers, or it gives exactly the old report back
    -- with the new context, where a reservation or a box was refused; it never panics. The deque
    -- of peers is valid, the allocator makes the room that it promises at the two reservations,
    -- and the number of frames is a number of `usize`.
    pub try_change_context-cases :
        MakesRoom (h.grow_at 0)
        → MakesRoom (h.grow_at 1)
        → IsValid r.peers
        → suc (size r.peers) ≤ usize_max
        → Changed (try_change_context h erase r c) ⊎ GivenBack (try_change_context h erase r c)
    unfolding try_change_context children_reserved intermediates_made saturating_add
    try_change_context-cases makes makes' w l =
        let n = size r.peers in
        let t : saturating_add n 1 ≡ suc n = ground (arith, l) in
        elim (Result-cases ((h.grow_at 0).grow 0 0 (suc n))) [
          | inr (x, e) ↦ inr (record {
            result =
                ap
                  (λ (k : ℕ).
                    children_reserved h erase r c (reserve_deque (h.grow_at 0) empty_deque k))
                  t
                ∙ ap (children_reserved h erase r c) (reserve_refused (h.grow_at 0) n x e);
            reason = inl (x, e);
          })
          | inl (room, e) ↦
              let children : Deque (DynamicFrame I) = record { items = []; capacity = room } in
              let go : try_change_context h erase r c
                  ≡ intermediates_made h erase r c children
                      (try_with_capacity (h.grow_at 1) (suc n)) =
                ap
                  (λ (k : ℕ).
                    children_reserved h erase r c (reserve_deque (h.grow_at 0) empty_deque k))
                  t
                ∙ ap (children_reserved h erase r c) (reserve_empty (h.grow_at 0) n room e)
                ∙ ap
                    (λ (k : ℕ).
                      intermediates_made h erase r c children (try_with_capacity (h.grow_at 1) k))
                    t in
              elim (Result-cases ((h.grow_at 1).grow 0 0 (suc n))) [
                | inr (x, e') ↦ inr (record {
                  result =
                      go
                      ∙ ap (intermediates_made h erase r c children)
                          (with_capacity_refused (h.grow_at 1) n x e');
                  reason = inr (inl (x, e'));
                })
                | inl (room', e') ↦
                    let a = makes 0 0 (suc n) room e in
                    let a' = makes' 0 0 (suc n) room' e' in
                    let (b, q, k) =
                      box_peers-Boxing h (suc n) (record { items = []; capacity = room' }) r.peers 2
                        (omega arith) (omega (arith, a')) in
                    subst
                      (λ (o : Ending (Result (Report D I) (Report C I × D))).
                        Changed o ⊎ GivenBack o)
                      (sym (
                        go
                        ∙ ap (intermediates_made h erase r c children)
                            (with_capacity_granted (h.grow_at 1) n room' e')
                        ∙ ap
                            (λ (o : Ending (Boxes C I)). o then_run box_result h erase r c children)
                            q))
                      (box_result-cases room room' b w (omega (arith, a)) (omega (arith, a')) k)
              ]
        ]
