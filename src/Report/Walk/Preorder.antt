-- ===== src/Report/Walk/Preorder.antt =====
-- The frames of a report in the order in which they are to be visited, with their depths, and what
-- an iterator has still to visit.
use rustyfill.Prelude.{
  if◌then◌else◌, length, ℕ, zero, suc, ◌≡◌, refl, ap, false, Option, none, some, List, [], ◌∷◌,
  ◌++◌,
}
use rustyfill.Report.{DynamicFrame, dynamic, Frames, nil, cons, StaticFrame, Report}
use rustyfill.Report.Walk.{
  FrameRef, static_ref, dynamic_ref, lost_frames, StackEntry, Roots, Walk, of_frames, children_of,
  lost_of, no_children, entry_of, queued,
}

abbrev pub Visits : Type 0 → Type 0 → Type 0
Visits C I = List (FrameRef C I × ℕ)

module _ {C I : Type 0} where
  -- The marker of frames that were lost.
  abbrev pub marker : ℕ → ℕ → Visits C I
  marker zero depth = []
  marker (suc n) depth = (lost_frames (suc n), depth) ∷ []

  -- A frame, and below it its children and the marker of those that it lost; nothing stands below
  -- a frame that has no children.
  unfoldable mutual
    pub tree : ℕ → DynamicFrame I → Visits C I
    tree depth (dynamic c ats fs l n) =
        (dynamic_ref (dynamic c ats fs l n), depth) ∷ below depth fs n

    pub below : ℕ → Frames I → ℕ → Visits C I
    below depth nil n = []
    below depth (cons f fs) n = (tree (suc depth) f ++ trees (suc depth) fs) ++ marker n (suc depth)

    pub trees : ℕ → Frames I → Visits C I
    trees depth nil = []
    trees depth (cons f fs) = tree depth f ++ trees depth fs

  unfoldable pub all_trees : ℕ → List (DynamicFrame I) → Visits C I
  unfolding tree
  all_trees depth [] = []
  all_trees depth (f ∷ fs) = tree depth f ++ all_trees depth fs

  -- What stands below a frame at a depth.
  unfoldable pub entry_trees : ℕ → StackEntry I → Visits C I
  unfolding all_trees
  entry_trees depth e =
      if no_children e.iter then [] else all_trees depth e.iter ++ marker e.lost_children depth

  unfoldable pub root_tree : StaticFrame C I → Visits C I
  unfolding entry_trees
  root_tree f =
      (static_ref f, 0)
      ∷ entry_trees 1 (record { iter = f.children.items; lost_children = f.lost_children })

  unfoldable pub root_trees : List (StaticFrame C I) → Visits C I
  unfolding root_tree
  root_trees [] = []
  root_trees (f ∷ fs) = root_tree f ++ root_trees fs

  -- The report's frames in the order of `frames`, and in that of `frames_chronological`.
  abbrev pub preorder : Report C I → Visits C I
  preorder r = root_tree r.head ++ (root_trees r.peers.items ++ marker r.lost_peers 0)

  abbrev pub chronological : Report C I → List (StaticFrame C I) → Visits C I
  chronological r peers = root_trees peers ++ (root_tree r.head ++ marker r.lost_peers 0)

  -- What is left of the roots.
  abbrev pub last_left : Roots C I → Visits C I
  last_left r = if r.root_lost_emitted then [] else marker r.root_lost_peers 0

  abbrev pub frames_left : Roots C I → Visits C I
  frames_left r =
      if r.head_remaining
      then root_tree r.head_ref ++ (root_trees r.peer_iter ++ last_left r)
      else root_trees r.peer_iter ++ last_left r

  abbrev pub chrono_left : Roots C I → Visits C I
  chrono_left r =
      if r.head_remaining
      then root_trees r.peer_iter ++ (root_tree r.head_ref ++ last_left r)
      else last_left r

  abbrev pub levels : List (StackEntry I) → Visits C I
  levels [] = []
  levels (e ∷ s) =
      all_trees (suc (length s)) e.iter ++ (marker e.lost_children (suc (length s)) ++ levels s)

  abbrev pub below_pending : ℕ → Option (FrameRef C I) → Visits C I
  below_pending depth none = []
  below_pending depth (some f) = elim (entry_of f) [ none ↦ [] | some e ↦ entry_trees depth e ]

  -- What an iterator has still to visit, given what is left of its roots.
  abbrev pub remaining : (Roots C I → Visits C I) → Walk C I → Visits C I
  remaining left w =
      below_pending (suc (length w.stack)) w.pending_frame ++ (levels w.stack ++ left w.roots)

  pub trees-of_frames : (n : ℕ) (fs : Frames I) → trees n fs ≡ all_trees n (of_frames fs)
  unfolding trees all_trees
  trees-of_frames n nil = refl
  trees-of_frames n (cons f fs) = ap (λ (xs : Visits C I). tree n f ++ xs) (trees-of_frames n fs)

  pub entry_trees-full :
      (n : ℕ) (e : StackEntry I)
      → no_children e.iter ≡ false
      → all_trees n e.iter ++ marker e.lost_children n ≡ entry_trees n e
  unfolding entry_trees
  entry_trees-full n e h = rw (entry_trees, h) refl

  pub tree-entry_trees :
      (n : ℕ) (d : DynamicFrame I)
      → tree n d
        ≡ (dynamic_ref d, n)
          ∷ entry_trees (suc n) (record { iter = children_of d; lost_children = lost_of d })
  unfolding tree entry_trees all_trees
  tree-entry_trees n (dynamic c ats nil l k) = refl
  tree-entry_trees n (dynamic c ats (cons f fs) l k) =
      ap
        (λ (xs : Visits C I).
          (dynamic_ref (dynamic c ats (cons f fs) l k), n)
          ∷ ((tree (suc n) f ++ xs) ++ marker k (suc n)))
        (trees-of_frames (suc n) fs)

  pub below_pending-queued :
      (n : ℕ) (f : FrameRef C I) (ds : List (DynamicFrame I)) (k : ℕ)
      → entry_of f ≡ some (record { iter = ds; lost_children = k })
      → below_pending n (queued f ds) ≡ entry_trees n (record { iter = ds; lost_children = k })
  unfolding entry_trees
  below_pending-queued n f [] k e = refl
  below_pending-queued n f (d ∷ ds) k e = rw (below_pending, e) refl
