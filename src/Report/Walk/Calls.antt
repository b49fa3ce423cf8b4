-- ===== src/Report/Walk/Calls.antt =====
-- The calls of `next` of `Frames` and of `ChronoFrames`.

use rustyfill.Prelude.{
  ℕ, ◌≡◌, refl, ◌⊎◌, inl, inr, Bool, true, false, Option, none, some, List, [], ◌∷◌, ◌++◌,
}
use rustyfill.Report.{Ending, ended, StaticFrame, Report}
use rustyfill.Report.Walk.{
  FrameRef, StackEntry, Roots, Walk, Yield, head_root, frames_root, chrono_root, descend, frames_go,
  frames_next, chrono_next, frames,
}
use rustyfill.Report.Walk.Preorder.{Visits, frames_left, chrono_left, levels, remaining}
use rustyfill.Report.Walk.Steps.{
  Visited, plain, yield_root-Visited, descend-Visited, Kept, Parental, Ready, next_by-Stepped,
}
use rustyfill.Report.Walk.Orders.{
  frames_root-RootStep, chrono_root-RootStep, Good, RootKeeps, yield_root-Good, descend-Good,
  HeadDone, Anything, FramesFit, frames_keep,
}

module _ {C I : Type 0} where
  -- What `Frames` and `ChronoFrames` need between the calls.
  abbrev pub FramesGood : Bool → Walk C I → Type 0
  FramesGood auto w =
      Parental w.pending_frame
      × (w.auto_unstall ≡ auto)
      × (HeadDone w.roots ⊎ ((w.stack ≡ []) × (w.pending_frame ≡ none)))

  module _ (R : Type 0) (auto : Bool) where
    abbrev state : Walk C I → List (StackEntry I) → Bool → Walk C I
    state w s b = record w { stack = s; roots = record w.roots { head_remaining = b } }

    early :
        (w : Walk C I) (e : StackEntry I) (s : List (StackEntry I))
        → ¬ FramesFit auto (state w (e ∷ s) true)
    early w e s (h, inl q) = cc
    early w e s (h, inr q) = cc

    frames_go-Visited :
        (refused : Visits C I → Type 0) (w : Walk C I) (s : List (StackEntry I)) (b : Bool)
        → FramesFit auto (state w s b)
        → Visited frames_left
            (levels s ++ frames_left (state w s b).roots)
            refused
            (frames_go {R = R} (plain (state w s b)))
    unfolding frames_go
    frames_go-Visited refused w [] true fit =
        let v = state w [] true in
        yield_root-Visited frames_left R frames_root frames_root-RootStep refused v
          (frames_root v.roots) (frames_root-RootStep v.roots)
    frames_go-Visited refused w [] false fit =
        descend-Visited frames_left R frames_root frames_root-RootStep refused [] (state w [] false)
    frames_go-Visited refused w (e ∷ s) true fit = absurd (early w e s fit)
    frames_go-Visited refused w (e ∷ s) false fit =
        descend-Visited frames_left R frames_root frames_root-RootStep refused (e ∷ s)
          (state w (e ∷ s) false)

    frames_go-Good :
        (w : Walk C I) (s : List (StackEntry I)) (b : Bool)
        → FramesFit auto (state w s b)
        → Good HeadDone auto (frames_go {R = R} (plain (state w s b))).1
    unfolding frames_go frames_root
    frames_go-Good w [] true fit =
        yield_root-Good R HeadDone auto (state w [] true) (head_root (state w [] true).roots) fit.0
          (λ q. absurd (cc)) refl
    frames_go-Good w [] false fit =
        descend-Good R HeadDone auto frames_root frames_keep [] (state w [] false) fit.0 refl
    frames_go-Good w (e ∷ s) true fit = absurd (early w e s fit)
    frames_go-Good w (e ∷ s) false fit =
        descend-Good R HeadDone auto frames_root frames_keep (e ∷ s) (state w (e ∷ s) false) fit.0
          refl

  -- `frames` returns such an iterator.
  pub frames-FramesGood : (r : Report C I) → FramesGood false (frames r)
  unfolding frames
  frames-FramesGood r = (tt, refl, inr (refl, refl))

  -- What a call of `next` does, from the state before it.
  abbrev pub CallSpec :
      {R : Type 0}
      → (Roots C I → Visits C I)
      → (Walk C I → Type 0)
      → Option R
      → Walk C I
      → Ending (Yield C I R)
      → Type 0
  CallSpec {R} left After a w r =
      (o : Yield C I R) × (r ≡ ended o)
      × Visited left (remaining left w) (λ xs. (e : R) × (a ≡ some e) × Kept left w xs) o
      × After o.1

  chrono_keep : (r : Roots C I) → Unit {0} → RootKeeps Anything (chrono_root r)
  chrono_keep r _ = anything (chrono_root r)
    where
      anything : (o : Option ((StaticFrame C I ⊎ ℕ) × Roots C I)) → RootKeeps Anything o
      anything none = tt
      anything (some (x, r)) = tt

  chrono-Ready :
      (auto : Bool) (w : Walk C I) (p : Option (FrameRef C I))
      → Good Anything auto (record w { pending_frame = p })
      → Ready (λ (v : Walk C I). v.auto_unstall ≡ auto) w p
  chrono-Ready auto w none (_, h, _) = h
  chrono-Ready auto w (some f) ((e, k), h, _) = (e, k, h, h)

  pub HeadDone-cons :
      (auto : Bool) (w : Walk C I) (e : StackEntry I) (s : List (StackEntry I))
      → FramesFit auto (record w { stack = e ∷ s })
      → HeadDone w.roots
  HeadDone-cons auto w e s (h, inl q) = q
  HeadDone-cons auto w e s (h, inr q) = absurd (cc)

  frames-Ready :
      (auto : Bool) (w : Walk C I) (p : Option (FrameRef C I))
      → FramesGood auto (record w { pending_frame = p })
      → Ready (FramesFit auto) w p
  frames-Ready auto w none (_, h, inl q) = (h, inl q)
  frames-Ready auto w none (_, h, inr (z, _)) = (h, inr z)
  frames-Ready auto w (some f) ((e, k), h, inl q) = (e, k, (h, inl q), (h, inl q))
  frames-Ready auto w (some f) ((e, k), h, inr (_, z)) = absurd (cc)

  -- A call of `Frames::next` never panics: it returns the first of the frames and markers that are
  -- left in preorder and leaves the others, or the end where there is none, or, only where the
  -- reservation was refused, an error that leaves them all, or with `auto_unstall` all but what
  -- stands below the pending frame.
  pub frames_next-CallSpec :
      {R : Type 0} (auto : Bool) (a : Option R) (w : Walk C I)
      → FramesGood auto w
      → CallSpec frames_left (FramesGood auto) a w (frames_next a w)
  unfolding frames_next
  frames_next-CallSpec {R} auto a w good =
      next_by-Stepped frames_left frames_go (FramesFit auto)
        (λ refused w fit. frames_go-Visited R auto refused w w.stack w.roots.head_remaining fit)
        (FramesGood auto)
        (λ w fit.
          let g = frames_go-Good R auto w w.stack w.roots.head_remaining fit in (g.0, g.1, inl g.2))
        (λ e w fit.
          (tt, fit.0, inl (HeadDone-cons auto (record w { stalled = false }) e w.stack fit)))
        (λ f e w k fit.
          ((e, k), fit.0, inl (HeadDone-cons auto (record w { stalled = false }) e w.stack fit)))
        a w w.pending_frame (frames-Ready auto w w.pending_frame good)

  -- A call of `ChronoFrames::next` does the same in chronological order: the peers in the order of
  -- its iterator, then the head.
  pub chrono_next-CallSpec :
      {R : Type 0} (auto : Bool) (a : Option R) (w : Walk C I)
      → Good Anything auto w
      → CallSpec chrono_left (Good Anything auto) a w (chrono_next a w)
  unfolding chrono_next
  chrono_next-CallSpec {R} auto a w good =
      next_by-Stepped chrono_left (λ w. descend chrono_root w.stack w) (λ w. w.auto_unstall ≡ auto)
        (λ refused w fit.
          descend-Visited chrono_left R chrono_root chrono_root-RootStep refused w.stack w)
        (Good Anything auto)
        (λ w fit. descend-Good R Anything auto chrono_root chrono_keep w.stack w fit tt)
        (λ e w fit. (tt, fit, tt)) (λ f e w k fit. ((e, k), fit, tt)) a w w.pending_frame
        (chrono-Ready auto w w.pending_frame good)
