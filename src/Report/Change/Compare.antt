-- ===== src/Report/Change/Compare.antt =====
-- The two changes of context beside each other, and `change_context` where memory is out.
use mathlib.Core.List.{reverse}
use rustyfill.Prelude.{
  Option-cases, length, Result, ok, err, ℕ, suc, ◌≤◌, ◌≡◌, refl, sym, ap, ◌∙◌, inl, inr, true, List,
  [], ◌∷◌, map, arith,
}
use rustyfill.Vec.{MakesRoom}
use rustyfill.Deque.{Deque, size, empty_deque, pop_back, last_item, reserve_deque}
use rustyfill.Deque.Ends.{IsValid, first_refused}
use rustyfill.Report.{
  Ending, ended, panics, oom, runs_on, ◌then_run◌, usize_max, saturating_add, DynamicFrame,
  StaticFrame, Report,
}
use rustyfill.Report.Kept.{length-take_le, take_all}
use rustyfill.Report.Change.{
  Heap, Demotion, child_attempted, child_retried, demoted, demote_and_push, demote_peers,
  with_children, reserved, change_context,
}
use rustyfill.Report.Change.Demote.{length-map, change_context-Newest}
use rustyfill.Report.Change.Fallible.{try_change_context}
use rustyfill.Report.Change.Fallible.Recover.{reserve_refused, try_change_context-cases}

-- The children of the new report.
abbrev kids : {C I : Type 0} → Ending (Report C I) → List (DynamicFrame I)
kids (ended r) = r.head.children.items
kids panics = []
kids oom = []
kids runs_on = []

abbrev kids_ok :
    {C D I : Type 0} → Ending (Result (Report D I) (Report C I × D)) → List (DynamicFrame I)
kids_ok (ended (ok r)) = r.head.children.items
kids_ok (ended (err _)) = []
kids_ok panics = []
kids_ok oom = []
kids_ok runs_on = []

module _ {C I R D : Type 0} (h : Heap R) (erase : C → I) (r : Report C I) (c : D) where
  -- Where both changes of context return a new report and `change_context` loses no frame, the
  -- children that `try_change_context` makes stand in the opposite order. The allocator grants the
  -- first reservation, it makes the room that it promises at both, the deque of peers is valid and
  -- the counts are numbers of `usize`.
  pub changes_reversed :
      (r' r'' : Report D I) (room : ℕ)
      → change_context h erase r c ≡ ended r'
      → try_change_context h erase r c ≡ ended (ok r'')
      → size r'.head.children ≡ suc (size r.peers)
      → (h.grow_at 0).grow 0 0 (suc (size r.peers)) ≡ ok room
      → MakesRoom (h.grow_at 0)
      → MakesRoom (h.grow_at 1)
      → IsValid r.peers
      → suc (size r.peers) ≤ usize_max
      → r.lost_peers ≤ usize_max
      → r''.head.children.items ≡ reverse r'.head.children.items
  changes_reversed r' r'' room q q' k e makes makes' v l l' =
      let (d, p, w) = change_context-Newest h erase r c room makes l l' e in
      let all = map (demoted erase) (r.head ∷ r.peers.items) in
      let same = ap kids (sym q ∙ p) in
      let n = ap length (same ∙ w.items) in
      let m = length-map (demoted erase) r.peers.items in
      let z = length-take_le w.n all (omega (arith, w.count, m)) in
      let kept : r'.head.children.items ≡ all =
        same ∙ w.items ∙ take_all w.n all (omega (arith, n, z, k, m)) in
      elim (try_change_context-cases h erase r c makes makes' v l) [
        | inl y ↦ ap kids_ok (sym q' ∙ y.result) ∙ y.children ∙ ap reverse (sym kept)
        | inr y ↦ absurd (err_apart (sym y.result ∙ q'))
      ]
    where
      err_apart :
          {a : Report C I × D} {b : Report D I}
          → ◌≡◌ {A = Ending (Result (Report D I) (Report C I × D))} (ended (err a)) (ended (ok b))
          → ⊥
      err_apart e = cc

-- No deque grows, while boxes are granted.
pub record Exhausted {R : Type 0} (h : Heap R) : Type 0 where
  pub refuses : (t n k m : ℕ) → (e : R) × ((h.grow_at t).grow n k m ≡ err e)
  pub grants : (t : ℕ) → h.box_at t ≡ true

module _ {C I R : Type 0} (h : Heap R) (erase : C → I) (out : Exhausted h) where
  first_child :
      (fuel t k : ℕ) (f : StaticFrame C I)
      → demote_and_push h erase
          (suc fuel)
          (record { children = empty_deque; lost = k; clock = t })
          f
        ≡ panics
  unfolding demote_and_push child_attempted child_retried pop_back
  first_child fuel t k f =
      let x = demoted erase f in
      let (e, q) = out.refuses (suc t) 0 0 1 in
      let (e', q') = out.refuses (suc (suc t)) 0 0 1 in
      rw
        (
          demote_and_push,
          out.grants t,
          first_refused (h.grow_at (suc t)) x e q,
          child_attempted,
          first_refused (h.grow_at (suc (suc t))) x e' q',
          child_retried,
        )
        refl

  -- `change_context` after its reservation.
  abbrev demoted_from : {D : Type 0} → Report C I → D → Demotion I → Ending (Report D I)
  demoted_from r c d =
      demote_peers h erase (suc (size r.peers)) r.peers d
      then_run (λ d. demote_and_push h erase (suc (size d.children)) d r.head)
      then_run λ d. ended (with_children r c d)

  first_panics :
      {D : Type 0} (r : Report C I) (c : D)
      → demoted_from r c (record { children = empty_deque; lost = r.lost_peers; clock = 1 })
        ≡ panics
  unfolding demote_peers
  first_panics {D} r c = elim (Option-cases (last_item r.peers.items)) [
    | inl e ↦ rw (demote_peers, e, first_child 0 1 r.lost_peers r.head) refl
    | inr (f, e) ↦ rw (demote_peers, e, first_child 0 1 r.lost_peers f) refl
  ]

  -- Where boxes are granted and no deque can grow, `change_context` panics, for every report whose
  -- number of frames is a number of `usize`.
  pub change_context-panics :
      {D : Type 0} (r : Report C I) (c : D)
      → suc (size r.peers) ≤ usize_max
      → change_context h erase r c ≡ panics
  unfolding change_context saturating_add
  change_context-panics r c l =
      let t : saturating_add (size r.peers) 1 ≡ suc (size r.peers) = ground (arith, l) in
      let (x, e) = out.refuses 0 0 0 (suc (size r.peers)) in
      let start : reserved h r ≡ record { children = empty_deque; lost = r.lost_peers; clock = 1 } =
        ap
          (λ (n : ℕ). record {
            children = (reserve_deque (h.grow_at 0) (empty_deque {T = DynamicFrame I}) n).1;
            lost = r.lost_peers;
            clock = 1;
          })
          t
        ∙ ap
            (λ (p : Result Unit R × Deque (DynamicFrame I)). record {
              children = p.1;
              lost = r.lost_peers;
              clock = 1;
            })
            (reserve_refused (h.grow_at 0) (size r.peers) x e) in
      ap (demoted_from r c) start ∙ first_panics r c
