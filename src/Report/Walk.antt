-- ===== src/Report/Walk.antt =====
-- `Frames` and `ChronoFrames` of `rustyfill-errors/src/report.rs`: the iterators over all frames of
-- a report. Their stack is a vector, so each call of `next` may ask for one more place; the first
-- argument is the error of that reservation, if it is refused.
pub mod Preorder
pub mod Steps
pub mod Orders
pub mod Calls
pub mod Collected
use mathlib.Core.List.{reverse}
use rustyfill.Prelude.{
  ltb, if◌then◌else◌, length, Result, ok, err, ℕ, suc, ◌⊎◌, inl, inr, Bool, true, false, not, ◌&&◌,
  Option, none, some, List, [], ◌∷◌,
}
use rustyfill.Report.{
  Ending, ended, panics, DynamicFrame, dynamic, Frames, nil, cons, StaticFrame, Report,
}

pub data FrameRef (C I : Type 0) : Type 0 where
  static_ref : StaticFrame C I → FrameRef C I
  dynamic_ref : DynamicFrame I → FrameRef C I
  lost_frames : ℕ → FrameRef C I

-- `StackEntry`: the children left of one parent, and how many it lost.
pub record StackEntry (I : Type 0) : Type 0 where
  pub iter : List (DynamicFrame I)
  pub lost_children : ℕ

-- The fields about the head, the peers and the lost peers. `head_remaining` stands for
-- `root_peer_remaining` of `ChronoFrames` too, which is false once the head was returned.
pub record Roots (C I : Type 0) : Type 0 where
  pub peer_iter : List (StaticFrame C I)
  pub head_remaining : Bool
  pub head_ref : StaticFrame C I
  pub root_lost_peers : ℕ
  pub root_lost_emitted : Bool

-- The top of the stack stands first.
pub record Walk (C I : Type 0) : Type 0 where
  pub roots : Roots C I
  pub stack : List (StackEntry I)
  pub pending_frame : Option (FrameRef C I)
  pub stalled : Bool
  pub auto_unstall : Bool

-- What `next` returns beside the iterator.
abbrev pub Yield : Type 0 → Type 0 → Type 0 → Type 0
Yield C I R = Option (Result (FrameRef C I) R × ℕ) × Walk C I

module _ {I : Type 0} where
  abbrev pub of_frames : Frames I → List (DynamicFrame I)
  of_frames nil = []
  of_frames (cons f fs) = f ∷ of_frames fs

  abbrev pub children_of : DynamicFrame I → List (DynamicFrame I)
  children_of (dynamic _ _ fs _ _) = of_frames fs

  abbrev pub lost_of : DynamicFrame I → ℕ
  lost_of (dynamic _ _ _ _ n) = n

  abbrev pub no_children : List (DynamicFrame I) → Bool
  no_children [] = true
  no_children (_ ∷ _) = false

module _ {C I : Type 0} where
  -- The children and the lost children of a pending frame; it is never a marker.
  abbrev pub entry_of : FrameRef C I → Option (StackEntry I)
  entry_of (static_ref f) =
      some (record { iter = f.children.items; lost_children = f.lost_children })
  entry_of (dynamic_ref d) = some (record { iter = children_of d; lost_children = lost_of d })
  entry_of (lost_frames _) = none

  -- `pending_frame = Some(frame)` where the frame has children.
  abbrev pub queued : FrameRef C I → List (DynamicFrame I) → Option (FrameRef C I)
  queued f [] = none
  queued f (_ ∷ _) = some f

  abbrev pub yield_root :
      {R : Type 0} → Option ((StaticFrame C I ⊎ ℕ) × Roots C I) → Walk C I → Yield C I R
  yield_root none w = (none, w)
  yield_root (some (inl f, r)) w = (
    some (ok (static_ref f), 0),
    record w { roots = r; pending_frame = queued (static_ref f) f.children.items },
  )
  yield_root (some (inr n, r)) w = (some (ok (lost_frames n), 0), record w { roots = r })

  -- All roots are visited: the lost peers, once.
  abbrev pub last_root : Roots C I → Option ((StaticFrame C I ⊎ ℕ) × Roots C I)
  last_root r =
      if not r.root_lost_emitted && ltb 0 r.root_lost_peers
      then some (inr r.root_lost_peers, record r { root_lost_emitted = true })
      else none

  abbrev pub head_root : Roots C I → Option ((StaticFrame C I ⊎ ℕ) × Roots C I)
  head_root r = some (inl r.head_ref, record r { head_remaining = false })

  -- The next root of `Frames`: the head, the peers, the lost peers.
  unfoldable pub frames_root : Roots C I → Option ((StaticFrame C I ⊎ ℕ) × Roots C I)
  frames_root r = if r.head_remaining then head_root r else elim r.peer_iter [
    | [] ↦ last_root r
    | f ∷ fs ↦ some (inl f, record r { peer_iter = fs })
  ]

  -- That of `ChronoFrames`: the peers in reverse, the head, the lost peers.
  unfoldable pub chrono_root : Roots C I → Option ((StaticFrame C I ⊎ ℕ) × Roots C I)
  chrono_root r =
      if r.head_remaining
      then (elim r.peer_iter [
        | [] ↦ head_root r
        | f ∷ fs ↦ some (inl f, record r { peer_iter = fs })
      ])
      else last_root r

  module _ {R : Type 0} (next_root : Roots C I → Option ((StaticFrame C I ⊎ ℕ) × Roots C I)) where
    -- The loop of `next`, with the stack that is left.
    unfoldable pub descend : List (StackEntry I) → Walk C I → Yield C I R
    descend [] w = yield_root (next_root w.roots) (record w { stack = [] })
    descend (e ∷ s) w =
        let up = descend s w in
        elim e.iter [
          | [] ↦
              if ltb 0 e.lost_children
              then (some (ok (lost_frames e.lost_children), suc (length s)), record w { stack = s })
              else up
          | d ∷ ds ↦ (
            some (ok (dynamic_ref d), suc (length s)),
            record w {
              stack = record e { iter = ds } ∷ s;
              pending_frame = queued (dynamic_ref d) (children_of d);
            },
          )
        ]

  -- The retry at the top of `next`, before `go` on.
  unfoldable pub resume :
      {R : Type 0}
      → (Walk C I → Yield C I R)
      → Option R
      → FrameRef C I
      → Option (StackEntry I)
      → Walk C I
      → Ending (Yield C I R)
  resume go a f none w = panics
  resume go a f (some e) w = if no_children e.iter then ended (go w) else elim a [
    | none ↦ ended (go (record w { stack = e ∷ w.stack }))
    | some x ↦
        if w.auto_unstall
        then ended (some (err x, length w.stack), w)
        else ended
            (some (err x, length w.stack), record w { pending_frame = some f; stalled = true })
  ]

  unfoldable pub next_by :
      {R : Type 0} → (Walk C I → Yield C I R) → Option R → Walk C I → Ending (Yield C I R)
  unfolding resume
  next_by go a w = elim w.pending_frame [
    | none ↦ ended (go (record w { stalled = false }))
    | some f ↦ resume go a f (entry_of f) (record w { stalled = false; pending_frame = none })
  ]

  unfoldable pub frames_go : {R : Type 0} → Walk C I → Yield C I R
  unfolding descend frames_root
  frames_go w =
      if w.roots.head_remaining
      then yield_root (frames_root w.roots) w
      else descend frames_root w.stack w

  -- `Frames::next`
  unfoldable pub frames_next : {R : Type 0} → Option R → Walk C I → Ending (Yield C I R)
  unfolding next_by frames_go
  frames_next = next_by frames_go

  -- `ChronoFrames::next`
  unfoldable pub chrono_next : {R : Type 0} → Option R → Walk C I → Ending (Yield C I R)
  unfolding next_by descend chrono_root
  chrono_next = next_by λ w. descend chrono_root w.stack w

  unfoldable pub unstall : Walk C I → Bool × Walk C I
  unstall w =
      if w.stalled
      then (
        elim w.pending_frame [ none ↦ false | some _ ↦ true ],
        record w { stalled = false; pending_frame = none },
      )
      else (false, w)

  abbrev pub walk_of : Report C I → List (StaticFrame C I) → Walk C I
  walk_of r peers = record {
    roots = record {
      peer_iter = peers;
      head_remaining = true;
      head_ref = r.head;
      root_lost_peers = r.lost_peers;
      root_lost_emitted = false;
    };
    stack = [];
    pending_frame = none;
    stalled = false;
    auto_unstall = false;
  }

  -- `Report::frames` and `Report::frames_chronological`
  unfoldable pub frames : Report C I → Walk C I
  frames r = walk_of r r.peers.items

  unfoldable pub frames_chronological : Report C I → Walk C I
  frames_chronological r = walk_of r (reverse r.peers.items)
