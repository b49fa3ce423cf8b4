-- ===== src/Report/Change/Fallible.antt =====
-- `try_change_context`: it boxes every frame before it makes children of them, and puts the old
-- report together again where a box is refused.
pub mod Boxing
pub mod Recover
use mathlib.Core.List.{reverse}
use rustyfill.Prelude.{
  if◌then◌else◌, Result, ok, err, ℕ, zero, suc, ◌+◌, Option, none, some, List, [], ◌∷◌,
}
use rustyfill.Vec.{Vec, Ended, returned, unwound, aborted, try_with_capacity, try_push_give_back}
use rustyfill.Deque.{
  Deque, Pushed, placed, refused, aborts, size, empty_deque, pop_back, last_item, reserve_deque,
  try_push_front_give_back, try_push_back_give_back,
}
use rustyfill.Report.{
  Ending, ended, panics, oom, runs_on, ◌then_run◌, saturating_add, DynamicFrame, dynamic,
  StaticFrame, Report,
}
use rustyfill.Report.Change.{Heap, to_frames, with_children}

-- Its context is in a box.
pub record IntermediateFrame (C I : Type 0) : Type 0 where
  pub context : C
  pub attachments : Vec I
  pub children : Deque (DynamicFrame I)
  pub lost_attachments : ℕ
  pub lost_children : ℕ

-- The boxing loop: all boxes with the emptied deque and the time, or the boxes, the frame
-- whose box was refused and the other peers.
abbrev pub Boxes : Type 0 → Type 0 → Type 0
Boxes C I =
    Result (Vec (IntermediateFrame C I) × Deque (StaticFrame C I) × ℕ)
      (Vec (IntermediateFrame C I) × StaticFrame C I × Deque (StaticFrame C I) × ℕ)

unfoldable pub expected :
    {I R : Type 0} → Pushed (DynamicFrame I) R → Ending (Deque (DynamicFrame I))
expected (placed d) = ended d
expected (refused _ _ _) = panics
expected aborts = oom

module _ {C I : Type 0} where
  unfoldable pub boxed : StaticFrame C I → IntermediateFrame C I
  boxed f = record {
    context = f.context;
    attachments = f.attachments;
    children = f.children;
    lost_attachments = f.lost_attachments;
    lost_children = f.lost_children;
  }

  unfoldable pub recover_static : IntermediateFrame C I → StaticFrame C I
  recover_static i = record {
    context = i.context;
    attachments = i.attachments;
    children = i.children;
    lost_attachments = i.lost_attachments;
    lost_children = i.lost_children;
  }

  unfoldable pub into_dynamic : (C → I) → IntermediateFrame C I → DynamicFrame I
  into_dynamic erase i =
      dynamic (erase i.context) i.attachments.items (to_frames i.children.items) i.lost_attachments
        i.lost_children

  module _ {R : Type 0} where
    -- A push whose result `expect` unwraps.
    unfoldable pub boxes_after :
        Ended (Result (Unit {0}) (IntermediateFrame C I × R)) × Vec (IntermediateFrame C I)
        → Ending (Vec (IntermediateFrame C I))
    boxes_after (returned (ok _), v) = ended v
    boxes_after (returned (err _), v) = panics
    boxes_after (unwound, v) = panics
    boxes_after (aborted, v) = oom

    -- A push whose result is dropped.
    unfoldable pub either_way : Pushed (StaticFrame C I) R → Ending (Deque (StaticFrame C I))
    either_way (placed d) = ended d
    either_way (refused _ _ d) = ended d
    either_way aborts = oom

    module _ (h : Heap R) where
      unfoldable pub box_peers :
          ℕ → Vec (IntermediateFrame C I) → Deque (StaticFrame C I) → ℕ → Ending (Boxes C I)
      unfolding boxes_after pop_back last_item boxed
      box_peers zero inters peers t = runs_on
      box_peers (suc n) inters peers t =
          let rest =
            λ (v : Vec (IntermediateFrame C I)). box_peers n v (pop_back peers).1 (t + 2) in
          elim (last_item peers.items) [
            | none ↦ ended (ok (inters, peers, t))
            | some f ↦
                if h.box_at t
                then boxes_after (try_push_give_back (h.grow_at (t + 1)) inters (boxed f))
                  then_run rest
                else ended (err (inters, f, (pop_back peers).1, t + 1))
          ]

      -- The loop of `recover_report` over the intermediates, the last one first.
      unfoldable pub recover_peers :
          List (IntermediateFrame C I)
          → Deque (StaticFrame C I)
          → ℕ
          → Ending (Deque (StaticFrame C I))
      unfolding either_way recover_static
      recover_peers [] peers t = ended peers
      recover_peers (i ∷ is) peers t =
          either_way (try_push_back_give_back (h.grow_at t) peers (recover_static i)) then_run λ d.
          recover_peers is d (t + 1)

      abbrev pub recover_trailing :
          Option (StaticFrame C I) → Deque (StaticFrame C I) → ℕ → Ending (Deque (StaticFrame C I))
      recover_trailing none peers t = ended peers
      recover_trailing (some f) peers t = either_way (try_push_back_give_back (h.grow_at t) peers f)

      unfoldable pub recover_report :
          Vec (IntermediateFrame C I)
          → Option (StaticFrame C I)
          → Deque (StaticFrame C I)
          → StaticFrame C I
          → ℕ
          → Option ℕ
          → ℕ
          → Ending (Report C I)
      unfolding recover_peers either_way
      recover_report inters trailing peers head lost bound t =
          recover_trailing trailing peers t
          then_run (λ d. recover_peers (reverse inters.items) d (t + 1))
          then_run λ d.
              ended (record { head = head; peers = d; lost_peers = lost; capacity = bound })

      -- The pushes of the demotion, which cannot fail.
      unfoldable pub adopt :
          (C → I)
          → List (IntermediateFrame C I)
          → Deque (DynamicFrame I)
          → ℕ
          → Ending (Deque (DynamicFrame I))
      unfolding expected into_dynamic
      adopt erase [] children t = ended children
      adopt erase (i ∷ is) children t =
          expected (try_push_front_give_back (h.grow_at t) children (into_dynamic erase i))
          then_run λ d. adopt erase is d (t + 1)

      module _ {D : Type 0} (erase : C → I) (r : Report C I) (c : D) where
        unfoldable pub box_head :
            Deque (DynamicFrame I)
            → Vec (IntermediateFrame C I)
            → Deque (StaticFrame C I)
            → ℕ
            → Ending (Result (Report D I) (Report C I × D))
        unfolding boxes_after adopt recover_report boxed
        box_head children inters peers t =
            if h.box_at t
            then (boxes_after (try_push_give_back (h.grow_at (t + 1)) inters (boxed r.head))
                then_run (λ v. adopt erase (reverse v.items) children (t + 2))
                then_run λ d. ended (
                    ok (
                      with_children r c (record { children = d; lost = r.lost_peers; clock = t }))))
            else (recover_report inters none peers r.head r.lost_peers r.capacity (t + 1)
                then_run λ r'. ended (err (r', c)))

        unfoldable pub box_result :
            Deque (DynamicFrame I) → Boxes C I → Ending (Result (Report D I) (Report C I × D))
        unfolding box_head recover_report
        box_result children (ok (inters, peers, t)) = box_head children inters peers t
        box_result children (err (inters, f, peers, t)) =
            recover_report inters (some f) peers r.head r.lost_peers r.capacity t then_run λ r'.
            ended (err (r', c))

        unfoldable pub intermediates_made :
            Deque (DynamicFrame I)
            → Result (Vec (IntermediateFrame C I)) R
            → Ending (Result (Report D I) (Report C I × D))
        unfolding box_peers box_result
        intermediates_made children (err e) = ended (err (r, c))
        intermediates_made children (ok inters) =
            box_peers (suc (size r.peers)) inters r.peers 2 then_run box_result children

        unfoldable pub children_reserved :
            Result (Unit {0}) R × Deque (DynamicFrame I)
            → Ending (Result (Report D I) (Report C I × D))
        unfolding intermediates_made
        children_reserved (err e, children) = ended (err (r, c))
        children_reserved (ok _, children) =
            intermediates_made children
              (try_with_capacity (h.grow_at 1) (saturating_add (size r.peers) 1))

        unfoldable pub try_change_context : Ending (Result (Report D I) (Report C I × D))
        unfolding children_reserved
        try_change_context =
            children_reserved
              (reserve_deque (h.grow_at 0) empty_deque (saturating_add (size r.peers) 1))
