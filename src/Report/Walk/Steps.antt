-- ===== src/Report/Walk/Steps.antt =====
-- One step of an iterator over the frames visits the next one, or keeps its place.
use mathlib.Core.Path.{subst}
use rustyfill.Prelude.{
  ltb, if◌then◌else◌, Bool-cases, Option-cases, length, ok, err, ℕ, zero, suc, ◌≡◌, refl, sym, ap,
  ◌∙◌, ◌⊎◌, inl, inr, Bool, true, false, Option, none, some, List, [], ◌∷◌, ◌++◌, arith,
}
use rustyfill.Vec.Fill.{append_assoc}
use rustyfill.Report.{Ending, ended, DynamicFrame, StaticFrame}
use rustyfill.Report.Walk.{
  FrameRef, static_ref, dynamic_ref, lost_frames, StackEntry, Roots, Walk, Yield, children_of,
  lost_of, no_children, entry_of, yield_root, descend, resume, next_by,
}
use rustyfill.Report.Walk.Preorder.{
  Visits, marker, tree, all_trees, entry_trees, root_tree, levels, below_pending, remaining,
  tree-entry_trees, entry_trees-full, below_pending-queued,
}

module _ {C I : Type 0} where
  abbrev pub expand : StaticFrame C I ⊎ ℕ → Visits C I
  expand (inl f) = root_tree f
  expand (inr n) = (lost_frames n, 0) ∷ []

  abbrev pub plain : Walk C I → Walk C I
  plain w = record w { pending_frame = none }

  -- No marker is pending.
  abbrev pub Parental : Option (FrameRef C I) → Type 0
  Parental none = Unit
  Parental (some f) = (e : StackEntry I) × (entry_of f ≡ some e)

  -- What `next` needs of a state.
  abbrev pub Ready : (Walk C I → Type 0) → Walk C I → Option (FrameRef C I) → Type 0
  Ready Fit w none = Fit (record w { stalled = false })
  Ready Fit w (some f) =
      (e : StackEntry I) × (entry_of f ≡ some e)
      × Fit (record w { stalled = false })
      × Fit (record w { stalled = false; stack = e ∷ w.stack })

module _ {C I : Type 0} (left : Roots C I → Visits C I) where
  -- A step to the next root, from what is left of them.
  abbrev pub RootStep : Visits C I → Option ((StaticFrame C I ⊎ ℕ) × Roots C I) → Type 0
  RootStep xs none = xs ≡ []
  RootStep xs (some (x, r)) = xs ≡ expand x ++ left r

  -- A step of the iterator, from what it has still to visit: the end where there is nothing, the
  -- first of the visits, or an error.
  abbrev pub Visited : {R : Type 0} → Visits C I → (Visits C I → Type 0) → Yield C I R → Type 0
  Visited xs refused (none, w) = (xs ≡ []) × (remaining left w ≡ [])
  Visited xs refused (some (ok f, n), w) = xs ≡ (f, n) ∷ remaining left w
  Visited xs refused (some (err e, n), w) = refused (remaining left w)

  module _ (R : Type 0) (next_root : Roots C I → Option ((StaticFrame C I ⊎ ℕ) × Roots C I))
      (law : (r : Roots C I) → RootStep (left r) (next_root r))
      (refused : Visits C I → Type 0) where
    pub yield_root-Visited :
        (w : Walk C I) (o : Option ((StaticFrame C I ⊎ ℕ) × Roots C I))
        → RootStep (left w.roots) o
        → Visited {R = R}
            (left w.roots)
            refused
            (yield_root o (record w { stack = []; pending_frame = none }))
    unfolding root_tree
    yield_root-Visited w none h = (h, h)
    yield_root-Visited w (some (inl f, r)) h =
        h
        ∙ ap (λ (xs : Visits C I). (static_ref f, 0) ∷ (xs ++ left r))
            (sym (below_pending-queued 1 (static_ref f) f.children.items f.lost_children refl))
    yield_root-Visited w (some (inr n, r)) h = h

    level-Visited :
        (ds : List (DynamicFrame I)) (k : ℕ) (s : List (StackEntry I)) (w : Walk C I)
        → Visited {R = R} (levels s ++ left w.roots) refused (descend next_root s (plain w))
        → Visited {R = R}
            (levels (record { iter = ds; lost_children = k } ∷ s) ++ left w.roots)
            refused
            (descend next_root (record { iter = ds; lost_children = k } ∷ s) (plain w))
    unfolding descend all_trees
    level-Visited [] zero s w h = h
    level-Visited [] (suc k) s w h =
        let lossy : ltb 0 (suc k) ≡ true = ground arith in rw lossy refl
    level-Visited (d ∷ ds) k s w h =
        let n = suc (length s) in
        let t = tree {C = C} n d in
        let x = all_trees {C = C} n ds in
        let y = marker k n ++ levels s in
        ap (λ (xs : Visits C I). xs ++ left w.roots) (append_assoc t x y)
        ∙ append_assoc t (x ++ y) (left w.roots)
        ∙ ap (λ (xs : Visits C I). xs ++ ((x ++ y) ++ left w.roots)) (tree-entry_trees n d)
        ∙ ap (λ (xs : Visits C I). (dynamic_ref d, n) ∷ (xs ++ ((x ++ y) ++ left w.roots)))
            (sym (below_pending-queued (suc n) (dynamic_ref d) (children_of d) (lost_of d) refl))

    pub descend-Visited :
        (s : List (StackEntry I)) (w : Walk C I)
        → Visited {R = R} (levels s ++ left w.roots) refused (descend next_root s (plain w))
    unfolding descend
    descend-Visited [] w = yield_root-Visited w (next_root w.roots) (law w.roots)
    descend-Visited (e ∷ s) w = level-Visited e.iter e.lost_children s w (descend-Visited s w)

  -- What a refused step leaves: all that there was to visit; what stands below the pending frame is
  -- dropped where errors are not to stall the iterator.
  abbrev pub Kept : Walk C I → Visits C I → Type 0
  Kept w xs =
      remaining left w
      ≡ (if w.auto_unstall then below_pending (suc (length w.stack)) w.pending_frame else []) ++ xs

  module _ {R : Type 0} (go : Walk C I → Yield C I R) (Fit : Walk C I → Type 0)
      (works : (refused : Visits C I → Type 0) (w : Walk C I)
        → Fit w
        → Visited (levels w.stack ++ left w.roots) refused (go (plain w)))
      (Good : Walk C I → Type 0) (keeps : (w : Walk C I) → Fit w → Good (go (plain w)).1)
      (halts : (e : StackEntry I) (w : Walk C I)
        → Fit (record w { stack = e ∷ w.stack; stalled = false })
        → Good (record w { stalled = false; pending_frame = none }))
      (stalls : (f : FrameRef C I) (e : StackEntry I) (w : Walk C I)
        → entry_of f ≡ some e
        → Fit (record w { stack = e ∷ w.stack; stalled = false })
        → Good (record w { pending_frame = some f; stalled = true })) where
    -- The error of a refused reservation is handed on, and what there is to visit is kept.
    abbrev pub Refused : Option R → Walk C I → Visits C I → Type 0
    Refused a w xs = (e : R) × (a ≡ some e) × Kept w xs

    -- One call of `next` from a state whose pending frame, if any, has an entry to push.
    abbrev pub Stepped : Option R → Walk C I → Type 0
    Stepped a w =
        (o : Yield C I R) × (next_by go a w ≡ ended o)
        × Visited (remaining left w) (Refused a w) o
        × Good o.1

    levels-cons :
        (e : StackEntry I) (s : List (StackEntry I)) (xs : Visits C I)
        → no_children e.iter ≡ false
        → levels (e ∷ s) ++ xs ≡ entry_trees (suc (length s)) e ++ (levels s ++ xs)
    unfolding entry_trees
    levels-cons e s xs h =
        let n = suc (length s) in
        let x = all_trees {C = C} n e.iter in
        let m = marker {C = C} {I = I} e.lost_children n in
        ap (λ (ys : Visits C I). ys ++ xs) (sym (append_assoc x m (levels s)))
        ∙ append_assoc (x ++ m) (levels s) xs
        ∙ ap (λ (ys : Visits C I). ys ++ (levels s ++ xs)) (entry_trees-full n e h)

    -- A refused step, where errors are not to stall the iterator or where they are.
    abbrev halted : R → FrameRef C I → Walk C I → Bool → Ending (Yield C I R)
    halted x f w b =
        if b
        then ended
            (some (err x, length w.stack), record w { stalled = false; pending_frame = none })
        else ended
            (some (err x, length w.stack), record w { pending_frame = some f; stalled = true })

    pending-entry :
        (n : ℕ) (f : FrameRef C I) (e : StackEntry I)
        → entry_of f ≡ some e
        → below_pending n (some f) ≡ entry_trees n e
    pending-entry n f e h = rw (below_pending, h) refl

    resume-Stepped :
        (a : Option R) (w : Walk C I) (f : FrameRef C I) (e : StackEntry I)
        → entry_of f ≡ some e
        → Fit (record w { stalled = false })
        → Fit (record w { stalled = false; stack = e ∷ w.stack })
        → Stepped a (record w { pending_frame = some f })
    unfolding next_by resume entry_trees
    resume-Stepped a w f e h fit fit' = elim (Bool-cases (no_children e.iter)) [
      | inl empty ↦ (
        go (record w { stalled = false; pending_frame = none }),
        rw (next_by, h, resume, empty) refl,
        rw (below_pending, h, entry_trees, empty)
            (works (Refused a (record w { pending_frame = some f })) (record w { stalled = false })
              fit),
        keeps (record w { stalled = false }) fit,
      )
      | inr full ↦
          let w' = record w { pending_frame = some f } in
          let bp = below_pending {C = C} (suc (length w.stack)) (some f) in
          let xs = levels w.stack ++ left w.roots in
          elim (Option-cases a) [
            | inl n ↦ (
              go (record w { stalled = false; pending_frame = none; stack = e ∷ w.stack }),
              rw (next_by, h, resume, full, n) refl,
              subst
                  (λ (ys : Visits C I).
                    Visited ys (Refused a w') (
                      go (record w { stalled = false; pending_frame = none; stack = e ∷ w.stack })))
                  (levels-cons e w.stack (left w.roots) full
                    ∙ ap (λ (ys : Visits C I). ys ++ xs)
                        (sym (pending-entry (suc (length w.stack)) f e h)))
                  (works (Refused a w') (record w { stalled = false; stack = e ∷ w.stack }) fit'),
              keeps (record w { stalled = false; stack = e ∷ w.stack }) fit',
            )
            | inr (x, q) ↦ elim (Bool-cases w.auto_unstall) [
              | inl auto ↦ (
                (some (err x, length w.stack), record w { stalled = false; pending_frame = none }),
                rw (next_by, h, resume, full, q) (ap (halted x f w) auto),
                (x, q, ap (λ (b : Bool). (if b then bp else []) ++ xs) (sym auto)),
                halts e w fit',
              )
              | inr stall ↦ (
                (some (err x, length w.stack), record w { stalled = true; pending_frame = some f }),
                rw (next_by, h, resume, full, q) (ap (halted x f w) stall),
                (x, q, ap (λ (b : Bool). (if b then bp else []) ++ (bp ++ xs)) (sym stall)),
                stalls f e w h fit',
              )
            ]
          ]
    ]

    pub next_by-Stepped :
        (a : Option R) (w : Walk C I) (p : Option (FrameRef C I))
        → Ready Fit w p
        → Stepped a (record w { pending_frame = p })
    unfolding next_by
    next_by-Stepped a w none fit = (
      go (record w { stalled = false; pending_frame = none }),
      refl,
      works (Refused a (plain w)) (record w { stalled = false }) fit,
      keeps (record w { stalled = false }) fit,
    )
    next_by-Stepped a w (some f) (e, h, fit, fit') = resume-Stepped a w f e h fit fit'
