-- ===== src/Arc/Release.antt =====
-- The threads can give the allocation back from every state.
use rustyfill.Prelude.{ℕ, zero, suc, ◌+◌, ◌*◌, ◌≤◌, ◌<◌, ◌≡◌, ◌∙◌, ◌⊎◌, inl, inr, arith}
use rustyfill.Arc.Handles.{
  Shared, shared, after_drop, after_drop_weak, after_leave, Step, drop_an_arc, drop_a_weak, leave,
  Reach, later,
}
use rustyfill.Arc.Counts.{Reach-IsCounted}

any : (n : ℕ) → (n ≡ 0) ⊎ (0 < n)
any n = ground arith

module _ {ℓ} {T : Type ℓ} where
  -- Any number of steps.
  pub data Steps : Shared T → Shared T → Type ℓ where
    stay : {s : Shared T} → Steps s s
    go : {s t u : Shared T} → Step s t → Steps t u → Steps s u

  abbrev pub Freed : Shared T → Type ℓ
  Freed s = (t : Shared T) × Steps s t × (t.inner.strong ≡ 0) × (t.inner.weak ≡ 0)

  freed :
      {value : T} {s : Shared T}
      → s.arcs ≡ 0
      → s.weaks ≡ 0
      → s.leaving ≡ 0
      → Reach value s
      → Freed s
  unfolding shared
  freed {s} a w l r =
      let h = Reach-IsCounted r in
      (s, stay, h.strong_counted ∙ a, ground (arith, h.weak_counted, a, w, l))

  frees :
      {value : T} (n : ℕ) (s : Shared T)
      → 2 * s.arcs + s.weaks + s.leaving ≤ n
      → Reach value s
      → Freed s
  unfolding after_drop after_drop_weak after_leave
  frees zero s b r = freed (omega arith) (omega arith) (omega arith) r
  frees (suc n) s b r = elim (any s.arcs) [
    | inr p ↦
        let (t, steps, e, e2) =
          frees n (after_drop s) (ground (arith, p, b)) (later r (drop_an_arc p)) in
        (t, go (drop_an_arc p) steps, e, e2)
    | inl no_arc ↦ elim (any s.weaks) [
      | inr p ↦
          let (t, steps, e, e2) =
            frees n (after_drop_weak s) (ground (arith, p, b)) (later r (drop_a_weak p)) in
          (t, go (drop_a_weak p) steps, e, e2)
      | inl no_weak ↦ elim (any s.leaving) [
        | inr p ↦
            let (t, steps, e, e2) =
              frees n (after_leave s) (ground (arith, p, b)) (later r (leave p)) in
            (t, go (leave p) steps, e, e2)
        | inl none_leaves ↦ freed no_arc no_weak none_leaves r
      ]
    ]
  ]

  -- From every state that a new `Arc` comes to, there are steps after which both counts are zero.
  pub Reach-Freed : {value : T} {s : Shared T} → Reach value s → Freed s
  Reach-Freed {s} r = frees (2 * s.arcs + s.weaks + s.leaving) s (ground arith) r
