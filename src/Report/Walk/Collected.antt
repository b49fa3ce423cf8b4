-- ===== src/Report/Walk/Collected.antt =====
-- Whole runs of the two iterators.
use mathlib.Core.List.{reverse}
use rustyfill.Prelude.{
  if◌then◌else◌, length, Result, ok, err, ℕ, suc, ◌≤◌, ◌≡◌, refl, sym, ap, ◌∙◌, ◌⊎◌, inl, inr, Bool,
  false, Option, none, some, List, [], ◌∷◌, ◌++◌, arith,
}
use rustyfill.Report.{Ending, ended, ◌then_run◌, Report}
use rustyfill.Report.Walk.{
  FrameRef, Roots, Walk, Yield, frames_next, chrono_next, frames, frames_chronological,
}
use rustyfill.Report.Walk.Preorder.{
  Visits, preorder, chronological, frames_left, chrono_left, below_pending, remaining,
}
use rustyfill.Report.Walk.Steps.{Visited, Kept}
use rustyfill.Report.Walk.Orders.{Good, Anything}
use rustyfill.Report.Walk.Calls.{CallSpec, FramesGood, frames_next-CallSpec, chrono_next-CallSpec}

module _ {R : Type 0} where
  -- How many reservations are granted.
  abbrev pub granted : List (Option R) → ℕ
  granted [] = 0
  granted (none ∷ answers) = suc (granted answers)
  granted (some _ ∷ answers) = granted answers

  granted-cons :
      (a : Option R) (answers : List (Option R)) → granted (a ∷ answers) ≤ suc (granted answers)
  granted-cons none answers = omega arith
  granted-cons (some _) answers = omega arith

some_left : {A : Type 0} (xs : List A) → (1 ≤ length xs) ⊎ ([] ≡ xs)
some_left [] = inr refl
some_left (x ∷ xs) = inl (omega arith)

-- Calls of `next`, with the answer to the reservation of each, and the items that are `Ok`.
module _ {C I R : Type 0} where
  abbrev pub collected : Option (Result (FrameRef C I) R × ℕ) → Visits C I → Visits C I
  collected none xs = xs
  collected (some (ok f, n)) xs = (f, n) ∷ xs
  collected (some (err _, n)) xs = xs

  unfoldable pub run :
      (Option R → Walk C I → Ending (Yield C I R))
      → List (Option R)
      → Walk C I
      → Ending (Visits C I × Walk C I)
  run next [] w = ended ([], w)
  run next (a ∷ answers) w =
      next a w then_run λ o. run next answers o.1 then_run λ p. ended (collected o.0 p.0, p.1)

  -- The items are the first of what there was to visit, and all of it after enough calls whose
  -- reservation is granted.
  abbrev pub Collects :
      (Roots C I → Visits C I)
      → List (Option R)
      → Visits C I
      → Ending (Visits C I × Walk C I)
      → Type 0
  Collects left answers all r =
      (xs : Visits C I) × (w : Walk C I) × (r ≡ ended (xs, w))
      × (all ≡ xs ++ remaining left w)
      × ((suc (granted answers) ≤ length all) ⊎ (xs ≡ all))

  -- One call before a run.
  joined :
      (left : Roots C I → Visits C I) (a : Option R) (w : Walk C I)
      → w.auto_unstall ≡ false
      → (answers : List (Option R)) (o : Option (Result (FrameRef C I) R × ℕ)) (w' : Walk C I)
        (xs ys : Visits C I)
      → Visited left (remaining left w) (λ zs. (e : R) × (a ≡ some e) × Kept left w zs) (o, w')
      → remaining left w' ≡ xs ++ ys
      → (suc (granted answers) ≤ length (remaining left w')) ⊎ (xs ≡ remaining left w')
      → (remaining left w ≡ collected o xs ++ ys)
        × ((suc (granted (a ∷ answers)) ≤ length (remaining left w))
            ⊎ (collected o xs ≡ remaining left w))
  joined left a w h answers none w' xs ys (z, z') e (inl l) =
      let n = ap length z' in absurd (omega (arith, n, l))
  joined left a w h answers none w' xs ys (z, z') e (inr q) = (z ∙ sym z' ∙ e, inr (q ∙ z' ∙ sym z))
  joined left a w h answers (some (ok f, n)) w' xs ys v e (inl l) =
      let k = ap length v in
      (v ∙ ap (◌∷◌ (f, n)) e, inl (omega (arith, k, l, granted-cons a answers)))
  joined left a w h answers (some (ok f, n)) w' xs ys v e (inr q) =
      (v ∙ ap (◌∷◌ (f, n)) e, inr (ap (◌∷◌ (f, n)) q ∙ sym v))
  joined left a w h answers (some (err x, n)) w' xs ys (y, g, k) e d =
      let same : remaining left w ≡ remaining left w' =
        k
        ∙ ap
            (λ (b : Bool).
              (if b then below_pending (suc (length w.stack)) w.pending_frame else [])
              ++ remaining left w')
            h in
      let n = ap (λ (b : Option R). granted (b ∷ answers)) g in
      let m = ap length same in
      (same ∙ e, elim d [ inl l ↦ inl (omega (arith, n, m, l)) | inr q ↦ inr (q ∙ sym same) ])

  module _ (next : Option R → Walk C I → Ending (Yield C I R)) (left : Roots C I → Visits C I)
      (Inv : Walk C I → Type 0)
      (calls : (a : Option R) (w : Walk C I) → Inv w → CallSpec left Inv a w (next a w))
      (waits : (w : Walk C I) → Inv w → w.auto_unstall ≡ false) where
    run-Collects :
        (answers : List (Option R)) (w : Walk C I)
        → Inv w
        → Collects left answers (remaining left w) (run next answers w)
    unfolding run
    run-Collects [] w inv = ([], w, refl, refl, some_left (remaining left w))
    run-Collects (a ∷ answers) w inv =
        let (o, q, v, inv') = calls a w inv in
        let (xs, w'', q', e, d) = run-Collects answers o.1 inv' in
        let (e', d') =
          joined left a w (waits w inv) answers o.0 o.1 xs (remaining left w'') v e d in
        (collected o.0 xs, w'', rw (run, q, q') refl, e', d')

module _ {C I R : Type 0} where
  -- With `auto_unstall` off, as it is at first, and however the reservations are answered, the
  -- items of `frames` are the first frames and markers of the report's preorder, with their
  -- depths: no error makes it skip or repeat one. They are all of them as soon as as many calls
  -- had their reservation granted as there are frames and markers.
  pub frames-Collects :
      (r : Report C I) (answers : List (Option R))
      → Collects frames_left answers (preorder r) (run frames_next answers (frames r))
  unfolding frames
  frames-Collects r answers =
      run-Collects frames_next frames_left (FramesGood false) (frames_next-CallSpec false)
        (λ w inv. inv.1) answers (frames r) (tt, refl, inr (refl, refl))

  -- The same of `frames_chronological`: the oldest peer first, the head last.
  pub frames_chronological-Collects :
      (r : Report C I) (answers : List (Option R))
      → Collects chrono_left answers
          (chronological r (reverse r.peers.items))
          (run chrono_next answers (frames_chronological r))
  unfolding frames_chronological
  frames_chronological-Collects r answers =
      run-Collects chrono_next chrono_left (Good Anything false) (chrono_next-CallSpec false)
        (λ w inv. inv.1) answers (frames_chronological r) (tt, refl, tt)
