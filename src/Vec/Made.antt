-- ===== src/Vec/Made.antt =====
-- The loop that pushes what a closure makes.
use rustyfill.Prelude.{
  Option-cases, length-append, ℕ, zero, suc, ◌+◌, ◌≤◌, ◌<◌, ◌≡◌, refl, inl, inr, Option, none, some,
  List, [], ◌∷◌, arith,
}
use mathlib.Core.Option
use rustyfill.Vec.{Vec, returned, unwound, len, push_made}
use rustyfill.Vec.Fill.{
  returned_apart, unwound_apart, unwound_returned, some_apart, with_items, push_room, Filled,
  Filled-cons, Filled-none, Filled-stop,
}

module _ {ℓ} {T : Type ℓ} where
  module _ (f : ℕ → Option T) where
    -- What the closure's calls from call `n` on return, if none panics.
    unfoldable pub make_all : ℕ → ℕ → Option (List T)
    make_all zero n = some []
    make_all (suc rounds) n = elim (f n) [
      | none ↦ none
      | some y ↦ Option.map (◌∷◌ y) (make_all rounds (n + 1))
    ]

    abbrev Makes : ℕ → ℕ → List T → Type ℓ
    Makes rounds n ys = make_all rounds n ≡ some ys

    make_all-cons :
        (rounds n : ℕ) (y : T) (ys : List T)
        → f n ≡ some y
        → make_all rounds (n + 1) ≡ some ys
        → make_all (suc rounds) n ≡ some (y ∷ ys)
    unfolding make_all
    make_all-cons rounds n y ys c e = rw (make_all, c, e) refl

    make_all-tail :
        (rounds n : ℕ) (y : T)
        → f n ≡ some y
        → (ys : List T) → make_all (suc rounds) n ≡ some ys
        → (zs : List T) × (make_all rounds (n + 1) ≡ some zs)
    unfolding make_all
    make_all-tail rounds n y c ys e = elim (Option-cases (make_all rounds (n + 1))) [
      | inl out ↦ absurd (cc (rw (make_all, c, out) at e))
      | inr more ↦ more
    ]

    make_all-none : (rounds n : ℕ) → f n ≡ none → make_all (suc rounds) n ≡ none
    unfolding make_all
    make_all-none rounds n c = rw (make_all, c) refl

    push_made-some :
        (rounds n : ℕ) (y : T) (v : Vec T)
        → f n ≡ some y
        → len v < v.capacity
        → push_made f (suc rounds) n v ≡ push_made f rounds (n + 1) (with_items v (y ∷ []))
    unfolding push_made
    push_made-some rounds n y v c h = rw (push_made, c, push_room v y h) refl

    push_made-none :
        (rounds n : ℕ) (v : Vec T) → f n ≡ none → push_made f (suc rounds) n v ≡ (unwound, v)
    unfolding push_made
    push_made-none rounds n v c = rw (push_made, c) refl

    pub push_made-Filled :
        (rounds n : ℕ) (v : Vec T)
        → len v + rounds ≤ v.capacity
        → Filled (Makes rounds n) (returned tt) v (push_made f rounds n v)
    unfolding push_made make_all
    push_made-Filled zero n v h =
        Filled-none (Makes zero n) (returned tt) (returned tt) v (returned_apart tt) (λ _. refl)
          (λ _ _. refl) (omega arith)
    push_made-Filled (suc rounds) n v h = elim (Option-cases (f n)) [
      | inr (y, c) ↦ rw (push_made-some rounds n y v c (omega arith)) (
          Filled-cons (Makes rounds (n + 1)) (Makes (suc rounds) n) (returned tt) v y
            (push_made f rounds (n + 1) (with_items v (y ∷ [])))
            (λ ys e. make_all-cons rounds n y ys c e) (make_all-tail rounds n y c)
            (push_made-Filled rounds (n + 1) (with_items v (y ∷ []))
              (omega (arith, length-append v.items (y ∷ [])))))
      | inl c ↦ rw (push_made-none rounds n v c) (
          Filled-stop (Makes (suc rounds) n) (returned tt) unwound v unwound_apart
            (unwound_returned tt) (some_apart (make_all-none rounds n c)) (omega arith))
    ]
