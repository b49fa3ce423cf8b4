-- ===== src/Report/Walk/Orders.antt =====
-- The roots of `Frames` and of `ChronoFrames`, and what both iterators keep.

use rustyfill.Prelude.{
  ltb, ℕ, zero, suc, ◌≡◌, refl, ◌⊎◌, inl, inr, Bool, true, false, Option, none, some, List, [], ◌∷◌,
  ◌++◌, arith,
}
use rustyfill.Vec.Fill.{append_assoc}
use rustyfill.Report.{DynamicFrame, StaticFrame}
use rustyfill.Report.Walk.{
  FrameRef, static_ref, dynamic_ref, StackEntry, Roots, Walk, children_of, lost_of, entry_of,
  queued, yield_root, frames_root, chrono_root, descend,
}
use rustyfill.Report.Walk.Preorder.{root_tree, root_trees, last_left, frames_left, chrono_left}
use rustyfill.Report.Walk.Steps.{RootStep, plain, Parental}

module _ {C I : Type 0} where
  abbrev pub roots : List (StaticFrame C I) → Bool → StaticFrame C I → ℕ → Bool → Roots C I
  roots fs b h n sent = record {
    peer_iter = fs;
    head_remaining = b;
    head_ref = h;
    root_lost_peers = n;
    root_lost_emitted = sent;
  }

  frames_root-by :
      (fs : List (StaticFrame C I)) (b : Bool) (h : StaticFrame C I) (n : ℕ) (sent : Bool)
      → RootStep frames_left (frames_left (roots fs b h n sent)) (frames_root (roots fs b h n sent))
  unfolding frames_root root_trees
  frames_root-by fs true h n sent = refl
  frames_root-by (f ∷ fs) false h n sent =
      append_assoc (root_tree f) (root_trees fs) (last_left (roots fs false h n sent))
  frames_root-by [] false h n true = refl
  frames_root-by [] false h zero false = refl
  frames_root-by [] false h (suc n) false =
      let lossy : ltb 0 (suc n) ≡ true = ground arith in rw lossy refl

  pub frames_root-RootStep : (r : Roots C I) → RootStep frames_left (frames_left r) (frames_root r)
  frames_root-RootStep r =
      frames_root-by r.peer_iter r.head_remaining r.head_ref r.root_lost_peers r.root_lost_emitted

  chrono_root-by :
      (fs : List (StaticFrame C I)) (b : Bool) (h : StaticFrame C I) (n : ℕ) (sent : Bool)
      → RootStep chrono_left (chrono_left (roots fs b h n sent)) (chrono_root (roots fs b h n sent))
  unfolding chrono_root root_trees
  chrono_root-by [] true h n sent = refl
  chrono_root-by (f ∷ fs) true h n sent =
      append_assoc (root_tree f) (root_trees fs) (root_tree h ++ last_left (roots fs true h n sent))
  chrono_root-by fs false h n true = refl
  chrono_root-by fs false h zero false = refl
  chrono_root-by fs false h (suc n) false =
      let lossy : ltb 0 (suc n) ≡ true = ground arith in rw lossy refl

  pub chrono_root-RootStep : (r : Roots C I) → RootStep chrono_left (chrono_left r) (chrono_root r)
  chrono_root-RootStep r =
      chrono_root-by r.peer_iter r.head_remaining r.head_ref r.root_lost_peers r.root_lost_emitted

  pub queued-Parental :
      (f : FrameRef C I) (ds : List (DynamicFrame I)) (e : StackEntry I)
      → entry_of f ≡ some e
      → Parental (queued f ds)
  queued-Parental f [] e h = tt
  queued-Parental f (d ∷ ds) e h = (e, h)

  -- Between the calls of `next`: no marker is pending, `auto_unstall` is as it was, and so is what
  -- holds of the roots.
  abbrev pub Good : (Roots C I → Type 0) → Bool → Walk C I → Type 0
  Good Q auto w = Parental w.pending_frame × (w.auto_unstall ≡ auto) × Q w.roots

  -- A step to the next root keeps it, where there is one.
  abbrev pub RootKeeps : (Roots C I → Type 0) → Option ((StaticFrame C I ⊎ ℕ) × Roots C I) → Type 0
  RootKeeps Q none = Unit
  RootKeeps Q (some (x, r)) = Q r

  module _ (R : Type 0) (Q : Roots C I → Type 0) (auto : Bool) where
    pub yield_root-Good :
        (w : Walk C I) (o : Option ((StaticFrame C I ⊎ ℕ) × Roots C I))
        → w.auto_unstall ≡ auto
        → (o ≡ none → Q w.roots)
        → RootKeeps Q o
        → Good Q auto (yield_root {R = R} o (record w { stack = []; pending_frame = none })).1
    yield_root-Good w none h q k = (tt, h, q refl)
    yield_root-Good w (some (inl f, r)) h q k = (
      queued-Parental (static_ref f) f.children.items
          (record { iter = f.children.items; lost_children = f.lost_children }) refl,
      h,
      k,
    )
    yield_root-Good w (some (inr n, r)) h q k = (tt, h, k)

    module _ (next_root : Roots C I → Option ((StaticFrame C I ⊎ ℕ) × Roots C I))
        (keep : (r : Roots C I) → Q r → RootKeeps Q (next_root r)) where
      level-Good :
          (ds : List (DynamicFrame I)) (k : ℕ) (s : List (StackEntry I)) (w : Walk C I)
          → w.auto_unstall ≡ auto
          → Q w.roots
          → Good Q auto (descend {R = R} next_root s (plain w)).1
          → Good Q auto
              (descend {R = R} next_root (record { iter = ds; lost_children = k } ∷ s) (plain w)).1
      unfolding descend
      level-Good [] zero s w h q g = g
      level-Good [] (suc k) s w h q g =
          let lossy : ltb 0 (suc k) ≡ true = ground arith in rw lossy (tt, h, q)
      level-Good (d ∷ ds) k s w h q g = (
        queued-Parental (dynamic_ref d) (children_of d)
            (record { iter = children_of d; lost_children = lost_of d }) refl,
        h,
        q,
      )

      pub descend-Good :
          (s : List (StackEntry I)) (w : Walk C I)
          → w.auto_unstall ≡ auto
          → Q w.roots
          → Good Q auto (descend {R = R} next_root s (plain w)).1
      unfolding descend
      descend-Good [] w h q =
          yield_root-Good w (next_root w.roots) h (λ (_ : next_root w.roots ≡ none). q)
            (keep w.roots q)
      descend-Good (e ∷ s) w h q = level-Good e.iter e.lost_children s w h q (descend-Good s w h q)

  -- Of `Frames` the head is visited before anything is put on the stack.
  abbrev pub HeadDone : Roots C I → Type 0
  HeadDone r = r.head_remaining ≡ false

  abbrev pub Anything : Roots C I → Type 0
  Anything r = Unit

  abbrev pub FramesFit : Bool → Walk C I → Type 0
  FramesFit auto w = (w.auto_unstall ≡ auto) × (HeadDone w.roots ⊎ (w.stack ≡ []))

  frames_keep-by :
      (fs : List (StaticFrame C I)) (b : Bool) (h : StaticFrame C I) (n : ℕ) (sent : Bool)
      → b ≡ false
      → RootKeeps HeadDone (frames_root (roots fs b h n sent))
  unfolding frames_root
  frames_keep-by fs true h n sent q = absurd (cc)
  frames_keep-by (f ∷ fs) false h n sent q = refl
  frames_keep-by [] false h n true q = tt
  frames_keep-by [] false h zero false q = tt
  frames_keep-by [] false h (suc n) false q =
      let lossy : ltb 0 (suc n) ≡ true = ground arith in rw lossy refl

  pub frames_keep : (r : Roots C I) → HeadDone r → RootKeeps HeadDone (frames_root r)
  frames_keep r =
      frames_keep-by r.peer_iter r.head_remaining r.head_ref r.root_lost_peers r.root_lost_emitted
