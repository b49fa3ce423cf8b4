-- ===== src/Tests/Arc.antt =====
-- An `Arc` that was cloned and downgraded.
use rustyfill.Prelude.{ℕ, ◌<◌, ◌≡◌, refl, ◌⊎◌, arith}
use rustyfill.Arc.{new, try_upgrade, upgraded, gone, refused, max_refcount}
use rustyfill.Arc.Handles.{
  Shared, Reach, start, later, clone_arc, downgrade, fresh, after_clone, after_downgrade,
}
use rustyfill.Arc.Counts.{IsCounted, Reach-IsCounted, Reach-UpgradeSpec}
use rustyfill.Arc.Release.{Freed, Reach-Freed}

abbrev twice : Shared ℕ
twice = after_downgrade (after_clone (fresh 5))

twice-Reach : Reach 5 twice
unfolding after_clone new
twice-Reach = later (later start (clone_arc (omega arith))) (downgrade (omega arith))

twice_counts : (twice.arcs ≡ 2) × (twice.weaks ≡ 1) × (twice.inner.weak ≡ 2)
unfolding after_downgrade after_clone new
twice_counts = (refl, refl, refl)

Reach-IsCounted_example : IsCounted 5 twice
Reach-IsCounted_example = Reach-IsCounted twice-Reach

Reach-UpgradeSpec_example :
    (((try_upgrade twice.inner).0 ≡ upgraded) × (0 < twice.arcs) × (twice.arcs < max_refcount))
    ⊎ (((try_upgrade twice.inner).0 ≡ gone) × (twice.arcs ≡ 0))
    ⊎ (((try_upgrade twice.inner).0 ≡ refused) × (twice.arcs ≡ max_refcount))
Reach-UpgradeSpec_example = Reach-UpgradeSpec twice-Reach

Reach-Freed_example : Freed twice
Reach-Freed_example = Reach-Freed twice-Reach
