-- ===== src/Report/Change.antt =====
-- `change_context` and `try_change_context` of `rustyfill-errors/src/report.rs`: the frames of a
-- report become the children of a new head. The heap answers each request by a clock.
pub mod Demote
pub mod Fallible
pub mod Compare
use rustyfill.Prelude.{if◌then◌else◌, ℕ, zero, suc, Bool, none, some, List, [], ◌∷◌}
use rustyfill.Vec.{Growth}
use rustyfill.Deque.{
  Deque, Pushed, placed, refused, aborts, size, empty_deque, pop_back, last_item, reserve_deque,
  try_push_front_give_back,
}
use rustyfill.Report.{
  Ending, ended, panics, oom, runs_on, ◌then_run◌, saturating_add, DynamicFrame, dynamic, Frames,
  nil, cons, StaticFrame, Report, new_frame,
}

-- What `try_reserve` of a deque and a box of a context answer at each time.
pub record Heap (R : Type 0) : Type 0 where
  pub grow_at : ℕ → Growth R
  pub box_at : ℕ → Bool

-- `new_head_sf.children` and `new_head_sf.lost_children`, and the time.
pub record Demotion (I : Type 0) : Type 0 where
  pub children : Deque (DynamicFrame I)
  pub lost : ℕ
  pub clock : ℕ

module _ {I : Type 0} where
  abbrev pub to_frames : List (DynamicFrame I) → Frames I
  to_frames [] = nil
  to_frames (f ∷ fs) = cons f (to_frames fs)

  abbrev pub evict_child : Demotion I → Demotion I
  evict_child d = record d { children = (pop_back d.children).1; lost = saturating_add d.lost 1 }

  abbrev pub tick : Demotion I → Demotion I
  tick d = record d { clock = suc d.clock }

  abbrev pub with_children : {C D : Type 0} → Report C I → D → Demotion I → Report D I
  with_children r c d = record {
    head = record (new_frame c) { children = d.children; lost_children = d.lost };
    peers = empty_deque;
    lost_peers = 0;
    capacity = r.capacity;
  }

  -- `DynamicFrame::from_static` where the box is granted.
  unfoldable pub demoted : {C : Type 0} → (C → I) → StaticFrame C I → DynamicFrame I
  demoted erase f =
      dynamic (erase f.context) f.attachments.items (to_frames f.children.items) f.lost_attachments
        f.lost_children

  module _ {R : Type 0} (h : Heap R) where
    abbrev pub reserved : {C : Type 0} → Report C I → Demotion I
    reserved r = record {
      children = (reserve_deque (h.grow_at 0) empty_deque (saturating_add (size r.peers) 1)).1;
      lost = r.lost_peers;
      clock = 1;
    }

    -- The second attempt, which `expect` unwraps.
    unfoldable pub child_retried : Demotion I → Pushed (DynamicFrame I) R → Ending (Demotion I)
    child_retried d (placed c) = ended (tick (record d { children = c }))
    child_retried d (refused _ _ _) = panics
    child_retried d aborts = oom

    unfoldable pub child_attempted : Demotion I → Pushed (DynamicFrame I) R → Ending (Demotion I)
    unfolding child_retried pop_back
    child_attempted d (placed c) = ended (tick (record d { children = c }))
    child_attempted d (refused f _ c) =
        let e = evict_child (tick (record d { children = c })) in
        child_retried e (try_push_front_give_back (h.grow_at e.clock) e.children f)
    child_attempted d aborts = oom

    module _ {C : Type 0} (erase : C → I) where
      -- The closure of `change_context`, on fuel.
      unfoldable pub demote_and_push : ℕ → Demotion I → StaticFrame C I → Ending (Demotion I)
      unfolding child_attempted demoted last_item
      demote_and_push zero d f = runs_on
      demote_and_push (suc n) d f =
          let e = tick d in
          let again = demote_and_push n (evict_child e) f in
          if h.box_at d.clock
          then child_attempted e
              (try_push_front_give_back (h.grow_at e.clock) e.children (demoted erase f))
          else elim (last_item e.children.items) [ none ↦ ended (evict_child e) | some _ ↦ again ]

      -- `while let Some(sf) = peers.pop_back()`
      unfoldable pub demote_peers : ℕ → Deque (StaticFrame C I) → Demotion I → Ending (Demotion I)
      unfolding demote_and_push pop_back last_item
      demote_peers zero peers d = runs_on
      demote_peers (suc n) peers d = elim (last_item peers.items) [
        | none ↦ ended d
        | some f ↦
            demote_and_push (suc (size d.children)) d f then_run demote_peers n (pop_back peers).1
      ]

      unfoldable pub change_context : {D : Type 0} → Report C I → D → Ending (Report D I)
      unfolding demote_peers new_frame
      change_context r c =
          demote_peers (suc (size r.peers)) r.peers (reserved r)
          then_run (λ d. demote_and_push (suc (size d.children)) d r.head)
          then_run λ d. ended (with_children r c d)
