-- ===== src/Arc/Counts.antt =====
-- The counts are the handles that the threads hold.
use rustyfill.Prelude.{
  ◌==◌, if◌then◌else◌, ℕ, ◌+◌, ◌-◌, ◌≤◌, ◌<◌, ◌≡◌, refl, sym, ap, ◌∙◌, ◌⊎◌, inl, inr, arith,
}
use rustyfill.Arc.{max_refcount, upgraded, gone, refused, new, try_upgrade, drop_weak, drop_arc}
use rustyfill.Arc.Cases.{
  try_clone-cases, try_clone_weak-cases, try_downgrade-cases, try_upgrade-cases,
}
use rustyfill.Arc.Handles.{
  Shared, counted, upgrade_counted, shared, after_clone, after_clone_weak, after_downgrade,
  after_upgrade, after_drop, after_drop_weak, after_leave, Step, clone_arc, clone_weak, downgrade,
  upgrade, drop_an_arc, drop_a_weak, leave, Reach, start, later,
}

shared-more : {n : ℕ} → 0 < n → shared (n + 1) ≡ shared n
unfolding shared
shared-more p = ground arith

another : {w : ℕ} (a b c : ℕ) → w ≡ a + b + c → w + 1 ≡ a + 1 + b + c
another a b c e = omega arith

one_less : {w : ℕ} (a b c : ℕ) → 0 < a → w ≡ a + b + c → w - 1 ≡ a - 1 + b + c
one_less a b c p e = omega arith

last_less : {w : ℕ} (a b c : ℕ) → 0 < c → w ≡ a + b + c → w - 1 ≡ a + b + (c - 1)
last_less a b c p e = omega arith

-- Dropping an `Arc` hands the shared weak count to the thread that dropped the last one.
shared-less :
    (strong n l : ℕ)
    → strong ≡ n
    → 0 < n
    → shared n + l ≤ 1
    → (shared (n - 1) + (if strong == 1 then l + 1 else l) ≡ shared n + l)
      × (shared (n - 1) + (if strong == 1 then l + 1 else l) ≤ 1)
unfolding shared
shared-less strong n l e p h = ground arith

weaker : {w : ℕ} (a b c b' c' : ℕ) → b' + c' ≡ b + c → w ≡ a + b + c → w ≡ a + b' + c'
weaker a b c b' c' e f = omega arith

module _ {ℓ} {T : Type ℓ} where
  pub record IsCounted (value : T) (s : Shared T) : Type ℓ where
    pub strong_counted : s.inner.strong ≡ s.arcs
    pub weak_counted : s.inner.weak ≡ s.weaks + shared s.arcs + s.leaving
    pub leaving_last : shared s.arcs + s.leaving ≤ 1
    pub strong_bounded : s.arcs ≤ max_refcount
    pub weak_bounded : s.inner.weak < max_refcount
    pub kept : s.inner.payload ≡ value

  module _ {value : T} {s : Shared T} where
    after_clone-IsCounted : 0 < s.arcs → IsCounted value s → IsCounted value (after_clone s)
    unfolding after_clone counted
    after_clone-IsCounted p h = elim (try_clone-cases s.inner) [
      | inl (e, l) ↦ rw (e) (record {
        strong_counted = ap (λ n. n + 1) h.strong_counted;
        weak_counted = rw (shared-more p) h.weak_counted;
        leaving_last = rw (shared-more p) h.leaving_last;
        strong_bounded = ground (arith, l, h.strong_counted);
        weak_bounded = h.weak_bounded;
        kept = h.kept;
      })
      | inr (e, l) ↦ rw (e) h
    ]

    after_clone_weak-IsCounted : IsCounted value s → IsCounted value (after_clone_weak s)
    unfolding after_clone_weak counted
    after_clone_weak-IsCounted h = elim (try_clone_weak-cases s.inner) [
      | inl (e, l) ↦ rw (e) (record {
        strong_counted = h.strong_counted;
        weak_counted = another s.weaks (shared s.arcs) s.leaving h.weak_counted;
        leaving_last = h.leaving_last;
        strong_bounded = h.strong_bounded;
        weak_bounded = l;
        kept = h.kept;
      })
      | inr (e, l) ↦ rw (e) h
    ]

    after_downgrade-IsCounted : IsCounted value s → IsCounted value (after_downgrade s)
    unfolding after_downgrade counted
    after_downgrade-IsCounted h = elim (try_downgrade-cases s.inner) [
      | inl (e, l) ↦ rw (e) (record {
        strong_counted = h.strong_counted;
        weak_counted = another s.weaks (shared s.arcs) s.leaving h.weak_counted;
        leaving_last = h.leaving_last;
        strong_bounded = h.strong_bounded;
        weak_bounded = l;
        kept = h.kept;
      })
      | inr (e, l) ↦ rw (e) h
    ]

    after_upgrade-IsCounted : IsCounted value s → IsCounted value (after_upgrade s)
    unfolding after_upgrade upgrade_counted
    after_upgrade-IsCounted h = elim (try_upgrade-cases s.inner) [
      | inl (e, l, m) ↦ rw (e) (record {
        strong_counted = ap (λ n. n + 1) h.strong_counted;
        weak_counted =
            rw (shared-more {n = s.arcs} (ground (arith, l, h.strong_counted))) h.weak_counted;
        leaving_last =
            rw (shared-more {n = s.arcs} (ground (arith, l, h.strong_counted))) h.leaving_last;
        strong_bounded = ground (arith, m, h.strong_counted);
        weak_bounded = h.weak_bounded;
        kept = h.kept;
      })
      | inr (inl (e, z)) ↦ rw (e) h
      | inr (inr (e, l)) ↦ rw (e) h
    ]

    after_drop-IsCounted : 0 < s.arcs → IsCounted value s → IsCounted value (after_drop s)
    unfolding after_drop drop_arc
    after_drop-IsCounted p h =
        let (w, o) =
          shared-less s.inner.strong s.arcs s.leaving h.strong_counted p h.leaving_last in
        record {
          strong_counted = ap (λ n. n - 1) h.strong_counted;
          weak_counted = weaker s.weaks _ _ _ _ w h.weak_counted;
          leaving_last = o;
          strong_bounded = ground (arith, h.strong_bounded);
          weak_bounded = h.weak_bounded;
          kept = h.kept;
        }

    after_drop_weak-IsCounted :
        0 < s.weaks → IsCounted value s → IsCounted value (after_drop_weak s)
    unfolding after_drop_weak drop_weak
    after_drop_weak-IsCounted p h = record {
      strong_counted = h.strong_counted;
      weak_counted = one_less s.weaks (shared s.arcs) s.leaving p h.weak_counted;
      leaving_last = h.leaving_last;
      strong_bounded = h.strong_bounded;
      weak_bounded = ground (arith, h.weak_bounded);
      kept = h.kept;
    }

    after_leave-IsCounted : 0 < s.leaving → IsCounted value s → IsCounted value (after_leave s)
    unfolding after_leave drop_weak
    after_leave-IsCounted p h = record {
      strong_counted = h.strong_counted;
      weak_counted = last_less s.weaks (shared s.arcs) s.leaving p h.weak_counted;
      leaving_last = ground (arith, h.leaving_last);
      strong_bounded = h.strong_bounded;
      weak_bounded = ground (arith, h.weak_bounded);
      kept = h.kept;
    }

    Step-IsCounted : {t : Shared T} → Step s t → IsCounted value s → IsCounted value t
    Step-IsCounted (clone_arc p) = after_clone-IsCounted p
    Step-IsCounted (clone_weak p) = after_clone_weak-IsCounted
    Step-IsCounted (downgrade p) = after_downgrade-IsCounted
    Step-IsCounted (upgrade p) = after_upgrade-IsCounted
    Step-IsCounted (drop_an_arc p) = after_drop-IsCounted p
    Step-IsCounted (drop_a_weak p) = after_drop_weak-IsCounted p
    Step-IsCounted (leave p) = after_leave-IsCounted p

  -- In every state that a new `Arc` comes to, the strong count is the number of `Arc`s, the weak
  -- count is that of the `Weak`s and the one that the `Arc`s share, neither passes its maximum, and
  -- the payload is the value that the `Arc` was made of.
  pub Reach-IsCounted : {value : T} {s : Shared T} → Reach value s → IsCounted value s
  unfolding new shared
  Reach-IsCounted start = record {
    strong_counted = refl;
    weak_counted = refl;
    leaving_last = ground arith;
    strong_bounded = ground arith;
    weak_bounded = ground arith;
    kept = refl;
  }
  Reach-IsCounted (later before step) = Step-IsCounted step (Reach-IsCounted before)

  -- `try_upgrade` hands out an `Arc` where the threads hold one and fewer than the maximum, says
  -- that the data is gone where they hold none, and refuses where they hold the maximum.
  pub Reach-UpgradeSpec :
      {value : T} {s : Shared T}
      → Reach value s
      → (((try_upgrade s.inner).0 ≡ upgraded) × (0 < s.arcs) × (s.arcs < max_refcount))
        ⊎ (((try_upgrade s.inner).0 ≡ gone) × (s.arcs ≡ 0))
        ⊎ (((try_upgrade s.inner).0 ≡ refused) × (s.arcs ≡ max_refcount))
  Reach-UpgradeSpec {s} r =
      let h = Reach-IsCounted r in
      elim (try_upgrade-cases s.inner) [
        | inl (e, l, m) ↦ inl (
          ap (λ x. x.0) e,
          ground (arith, l, h.strong_counted),
          ground (arith, m, h.strong_counted),
        )
        | inr (inl (e, z)) ↦ inr (inl (ap (λ x. x.0) e, sym h.strong_counted ∙ z))
        | inr (inr (e, l)) ↦
            inr (inr (ap (λ x. x.0) e, ground (arith, l, h.strong_counted, h.strong_bounded)))
      ]

  -- The weak count of a state that a new `Arc` comes to is zero, so that the allocation is given
  -- back, only where no handle is left to it.
  pub Reach-freed :
      {value : T} {s : Shared T}
      → Reach value s
      → s.inner.weak ≡ 0
      → (s.arcs ≡ 0) × (s.weaks ≡ 0) × (s.leaving ≡ 0)
  unfolding shared
  Reach-freed r z = let h = Reach-IsCounted r in ground (arith, h.weak_counted, z)
