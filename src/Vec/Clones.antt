-- ===== src/Vec/Clones.antt =====
-- The loops that push clones: what they leave behind, and that they never grow a full vector.
use rustyfill.Prelude.{
  Option-cases, length, get_elem?, take, drop, length-append, get_elem?-some, ok, err, ℕ, zero, suc,
  ◌+◌, ◌≤◌, ◌<◌, ◌≡◌, refl, ap, ◌∙◌, ◌⊎◌, inl, inr, Option, none, some, List, [], ◌∷◌, ◌++◌, arith,
}
use mathlib.Core.Option
use rustyfill.Vec.{
  Vec, returned, unwound, Cloned, cloned, failed, unwinds, len, push_clones, push_within,
}
use rustyfill.Vec.Fill.{
  returned_apart, unwound_apart, err_apart, unwound_returned, some_apart, with_items, append_assoc,
  push_room, Filled, Filled-cons, Filled-none, Filled-stop,
}

module _ {ℓ} {T : Type ℓ} where
  module _ {E : Type ℓ} (try_clone : ℕ → T → Cloned T E) where
    -- The clones that the calls of `try_clone` from call `i` on make of the elements, if all do.
    unfoldable pub clone_all : ℕ → List T → Option (List T)
    clone_all i [] = some []
    clone_all i (x ∷ xs) = elim (try_clone i x) [
      | cloned y ↦ Option.map (◌∷◌ y) (clone_all (i + 1) xs)
      | failed e ↦ none
      | unwinds ↦ none
    ]

    abbrev Complete : ℕ → List T → List T → Type ℓ
    Complete i xs ys = clone_all i xs ≡ some ys

    Cloned-cases :
        (c : Cloned T E) → ((y : T) × (c ≡ cloned y)) ⊎ (((e : E) × (c ≡ failed e)) ⊎ (c ≡ unwinds))
    Cloned-cases (cloned y) = inl (y, refl)
    Cloned-cases (failed e) = inr (inl (e, refl))
    Cloned-cases unwinds = inr (inr refl)

    clone_all-cons :
        (i : ℕ) (x y : T) (xs ys : List T)
        → try_clone i x ≡ cloned y
        → clone_all (i + 1) xs ≡ some ys
        → clone_all i (x ∷ xs) ≡ some (y ∷ ys)
    unfolding clone_all
    clone_all-cons i x y xs ys c e = rw (clone_all, c, e) refl

    clone_all-tail :
        (i : ℕ) (x y : T) (xs : List T)
        → try_clone i x ≡ cloned y
        → (ys : List T) → clone_all i (x ∷ xs) ≡ some ys
        → (zs : List T) × (clone_all (i + 1) xs ≡ some zs)
    unfolding clone_all
    clone_all-tail i x y xs c ys e = elim (Option-cases (clone_all (i + 1) xs)) [
      | inl out ↦ absurd (cc (rw (clone_all, c, out) at e))
      | inr more ↦ more
    ]

    clone_all-failed :
        (i : ℕ) (x : T) (xs : List T) (e : E)
        → try_clone i x ≡ failed e
        → clone_all i (x ∷ xs) ≡ none
    unfolding clone_all
    clone_all-failed i x xs e c = rw (clone_all, c) refl

    clone_all-unwinds :
        (i : ℕ) (x : T) (xs : List T) → try_clone i x ≡ unwinds → clone_all i (x ∷ xs) ≡ none
    unfolding clone_all
    clone_all-unwinds i x xs c = rw (clone_all, c) refl

    module _ (i : ℕ) (x : T) (xs : List T) (v : Vec T) where
      push_clones-cloned :
          (y : T)
          → try_clone i x ≡ cloned y
          → len v < v.capacity
          → push_clones try_clone i (x ∷ xs) v
            ≡ push_clones try_clone (i + 1) xs (with_items v (y ∷ []))
      unfolding push_clones
      push_clones-cloned y c h = rw (push_clones, c, push_room v y h) refl

      push_clones-failed :
          (e : E)
          → try_clone i x ≡ failed e
          → push_clones try_clone i (x ∷ xs) v ≡ (returned (err e), v)
      unfolding push_clones
      push_clones-failed e c = rw (push_clones, c) refl

      push_clones-unwinds :
          try_clone i x ≡ unwinds → push_clones try_clone i (x ∷ xs) v ≡ (unwound, v)
      unfolding push_clones
      push_clones-unwinds c = rw (push_clones, c) refl

    pub push_clones-Filled :
        (i : ℕ) (xs : List T) (v : Vec T)
        → len v + length xs ≤ v.capacity
        → Filled (Complete i xs) (returned (ok tt)) v (push_clones try_clone i xs v)
    unfolding push_clones clone_all
    push_clones-Filled i [] v h =
        Filled-none (Complete i []) (returned (ok tt)) (returned (ok tt)) v (returned_apart (ok tt))
          (λ _. refl) (λ _ _. refl) (omega arith)
    push_clones-Filled i (x ∷ xs) v h = elim (Cloned-cases (try_clone i x)) [
      | inl (y, c) ↦ rw (push_clones-cloned i x xs v y c (omega arith)) (
          Filled-cons (Complete (i + 1) xs) (Complete i (x ∷ xs)) (returned (ok tt)) v y
            (push_clones try_clone (i + 1) xs (with_items v (y ∷ [])))
            (λ ys e. clone_all-cons i x y xs ys c e) (clone_all-tail i x y xs c)
            (push_clones-Filled (i + 1) xs (with_items v (y ∷ []))
              (omega (arith, length-append v.items (y ∷ [])))))
      | inr (inl (e, c)) ↦ rw (push_clones-failed i x xs v e c) (
          Filled-stop (Complete i (x ∷ xs)) (returned (ok tt)) (returned (err e)) v
            (returned_apart (err e)) (err_apart e tt) (some_apart (clone_all-failed i x xs e c))
            (omega arith))
      | inr (inr c) ↦ rw (push_clones-unwinds i x xs v c) (
          Filled-stop (Complete i (x ∷ xs)) (returned (ok tt)) unwound v unwound_apart
            (unwound_returned (ok tt)) (some_apart (clone_all-unwinds i x xs c)) (omega arith))
    ]

    module _ (rounds n i : ℕ) (x : T) (v : Vec T) (at : get_elem? v.items i ≡ some x) where
      push_within-cloned :
          (y : T)
          → try_clone n x ≡ cloned y
          → len v < v.capacity
          → push_within try_clone (suc rounds) n i v
            ≡ push_within try_clone rounds (n + 1) (i + 1) (with_items v (y ∷ []))
      unfolding push_within
      push_within-cloned y c h = rw (push_within, at, c, push_room v y h) refl

      push_within-failed :
          (e : E)
          → try_clone n x ≡ failed e
          → push_within try_clone (suc rounds) n i v ≡ (returned (err e), v)
      unfolding push_within
      push_within-failed e c = rw (push_within, at, c) refl

      push_within-unwinds :
          try_clone n x ≡ unwinds → push_within try_clone (suc rounds) n i v ≡ (unwound, v)
      unfolding push_within
      push_within-unwinds c = rw (push_within, at, c) refl

    get_elem?-append :
        (xs ys : List T) (i : ℕ) (x : T) → get_elem? xs i ≡ some x → get_elem? (xs ++ ys) i ≡ some x
    get_elem?-append [] ys i x e = cc
    get_elem?-append (z ∷ xs) ys zero x e = e
    get_elem?-append (z ∷ xs) ys (suc i) x e = get_elem?-append xs ys i x e

    take-drop-suc :
        (n i : ℕ) (xs : List T) (x : T)
        → get_elem? xs i ≡ some x
        → take (suc n) (drop i xs) ≡ x ∷ take n (drop (i + 1) xs)
    take-drop-suc n i [] x e = cc
    take-drop-suc n zero (z ∷ xs) x e = ap (λ w. w ∷ take n xs) (ground (arith, e))
    take-drop-suc n (suc i) (z ∷ xs) x e =
        let q : suc i + 1 ≡ suc (i + 1) = omega arith in rw q (take-drop-suc n i xs x e)

    -- `old` are the items that the loop reads, which stand at the front all along.
    pub push_within-Filled :
        (rounds n i : ℕ) (v : Vec T) (old made : List T)
        → v.items ≡ old ++ made
        → i + rounds ≤ length old
        → len v + rounds ≤ v.capacity
        → Filled
            (Complete n (take rounds (drop i old)))
            (returned (ok tt))
            v
            (push_within try_clone rounds n i v)
    unfolding push_within clone_all
    push_within-Filled zero n i v old made f b h =
        Filled-none (Complete n []) (returned (ok tt)) (returned (ok tt)) v (returned_apart (ok tt))
          (λ _. refl) (λ _ _. refl) (omega arith)
    push_within-Filled (suc rounds) n i v old made f b h =
        let (x, at) = get_elem?-some old i (omega arith) in
        let here = ap (λ xs. get_elem? xs i) f ∙ get_elem?-append old made i x at in
        let read = take-drop-suc rounds i old x at in
        elim (Cloned-cases (try_clone n x)) [
          | inl (y, c) ↦
              rw (push_within-cloned rounds n i x v here y c (omega arith), read)
                (Filled-cons (Complete (n + 1) (take rounds (drop (i + 1) old)))
                  (Complete n (x ∷ take rounds (drop (i + 1) old))) (returned (ok tt)) v y
                  (push_within try_clone rounds (n + 1) (i + 1) (with_items v (y ∷ [])))
                  (λ ys e. clone_all-cons n x y (take rounds (drop (i + 1) old)) ys c e)
                  (clone_all-tail n x y (take rounds (drop (i + 1) old)) c)
                  (push_within-Filled rounds (n + 1) (i + 1) (with_items v (y ∷ [])) old
                    (made ++ y ∷ []) (ap (λ xs. xs ++ y ∷ []) f ∙ append_assoc old made (y ∷ []))
                    (omega arith) (omega (arith, length-append v.items (y ∷ [])))))
          | inr (inl (e, c)) ↦
              rw (push_within-failed rounds n i x v here e c, read)
                (Filled-stop (Complete n (x ∷ take rounds (drop (i + 1) old))) (returned (ok tt))
                  (returned (err e)) v (returned_apart (err e)) (err_apart e tt)
                  (some_apart (clone_all-failed n x (take rounds (drop (i + 1) old)) e c))
                  (omega arith))
          | inr (inr c) ↦
              rw (push_within-unwinds rounds n i x v here c, read)
                (Filled-stop (Complete n (x ∷ take rounds (drop (i + 1) old))) (returned (ok tt))
                  unwound v unwound_apart (unwound_returned (ok tt))
                  (some_apart (clone_all-unwinds n x (take rounds (drop (i + 1) old)) c))
                  (omega arith))
        ]
