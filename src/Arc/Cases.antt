-- ===== src/Arc/Cases.antt =====
-- What the updates of `rustyfill/src/alloc/arc/arc_.rs` do to a count, and where they refuse.
use rustyfill.Prelude.{
  ◌==◌, Bool-cases, ℕ, ◌+◌, ◌≤◌, ◌<◌, ◌≡◌, refl, ◌⊎◌, inl, inr, true, false, none, some, arith,
}
use rustyfill.Arc.{
  ArcInner, max_refcount, bump, revive, upgraded, gone, refused, try_clone, try_clone_weak,
  try_downgrade, try_upgrade,
}

pub bump-cases :
    (n : ℕ)
    → ((bump n ≡ some (n + 1)) × (n + 1 < max_refcount))
      ⊎ ((bump n ≡ none) × (max_refcount ≤ n + 1))
bump-cases n = ground arith

pub revive-cases :
    (n : ℕ)
    → ((revive n ≡ some (n + 1)) × (0 < n) × (n < max_refcount))
      ⊎ ((revive n ≡ none) × ((n ≡ 0) ⊎ (max_refcount ≤ n)))
revive-cases n = ground arith

module _ {ℓ} {T : Type ℓ} where
  pub try_clone-cases :
      (i : ArcInner T)
      → ((try_clone i ≡ (true, record i { strong = i.strong + 1 })) × (i.strong + 1 < max_refcount))
        ⊎ ((try_clone i ≡ (false, i)) × (max_refcount ≤ i.strong + 1))
  unfolding try_clone
  try_clone-cases i = elim (bump-cases i.strong) [
    | inl (e, l) ↦ inl (rw (try_clone, e) refl, l)
    | inr (e, l) ↦ inr (rw (try_clone, e) refl, l)
  ]

  pub try_clone_weak-cases :
      (i : ArcInner T)
      → ((try_clone_weak i ≡ (true, record i { weak = i.weak + 1 })) × (i.weak + 1 < max_refcount))
        ⊎ ((try_clone_weak i ≡ (false, i)) × (max_refcount ≤ i.weak + 1))
  unfolding try_clone_weak
  try_clone_weak-cases i = elim (bump-cases i.weak) [
    | inl (e, l) ↦ inl (rw (try_clone_weak, e) refl, l)
    | inr (e, l) ↦ inr (rw (try_clone_weak, e) refl, l)
  ]

  pub try_downgrade-cases :
      (i : ArcInner T)
      → ((try_downgrade i ≡ (true, record i { weak = i.weak + 1 })) × (i.weak + 1 < max_refcount))
        ⊎ ((try_downgrade i ≡ (false, i)) × (max_refcount ≤ i.weak + 1))
  unfolding try_downgrade
  try_downgrade-cases i = elim (bump-cases i.weak) [
    | inl (e, l) ↦ inl (rw (try_downgrade, e) refl, l)
    | inr (e, l) ↦ inr (rw (try_downgrade, e) refl, l)
  ]

  -- `try_upgrade` answers by the strong count, and changes it only to hand out an `Arc`.
  pub try_upgrade-cases :
      (i : ArcInner T)
      → ((try_upgrade i ≡ (upgraded, record i { strong = i.strong + 1 }))
          × (0 < i.strong)
          × (i.strong < max_refcount))
        ⊎ ((try_upgrade i ≡ (gone, i)) × (i.strong ≡ 0))
        ⊎ ((try_upgrade i ≡ (refused, i)) × (max_refcount ≤ i.strong))
  unfolding try_upgrade
  try_upgrade-cases i = elim (revive-cases i.strong) [
    | inl (e, l, m) ↦ inl (rw (try_upgrade, e) refl, l, m)
    | inr (e, inl z) ↦ inr (inl (rw (try_upgrade, e) (rw (z) refl), z))
    | inr (e, inr l) ↦ inr (
        inr (
          rw (try_upgrade, e)
              (elim (Bool-cases (i.strong == 0)) [
                | inl none_left ↦ ground (arith, none_left, l)
                | inr more ↦ rw (more) refl
              ]),
          l,
        ))
  ]
