-- ===== src/Arc/Handles.antt =====
-- Threads that hold `Arc`s and `Weak`s of one allocation, in any interleaving of their calls.
use rustyfill.Prelude.{◌==◌, if◌then◌else◌, ℕ, ◌+◌, ◌-◌, ◌<◌, Bool, true, false}
use rustyfill.Arc.{
  ArcInner, Upgrade, upgraded, gone, refused, new, try_clone, try_clone_weak, try_downgrade,
  try_upgrade, drop_weak, drop_arc,
}

module _ {ℓ} (T : Type ℓ) where
  -- An allocation, how many handles of each kind the threads hold, and how many threads have
  -- dropped the last `Arc` and not yet the `Weak` that it leaves.
  pub record Shared : Type ℓ where
    pub inner : ArcInner T
    pub arcs : ℕ
    pub weaks : ℕ
    pub leaving : ℕ

unfoldable pub counted : Bool → ℕ → ℕ
counted true n = n + 1
counted false n = n

unfoldable pub upgrade_counted : Upgrade → ℕ → ℕ
upgrade_counted upgraded n = n + 1
upgrade_counted gone n = n
upgrade_counted refused n = n

-- The weak count that the strong handles share.
unfoldable pub shared : ℕ → ℕ
shared arcs = if arcs == 0 then 0 else 1

module _ {ℓ} {T : Type ℓ} where
  unfoldable pub after_clone : Shared T → Shared T
  unfolding counted try_clone
  after_clone s = record s {
    inner = (try_clone s.inner).1;
    arcs = counted (try_clone s.inner).0 s.arcs;
  }

  unfoldable pub after_clone_weak : Shared T → Shared T
  unfolding counted try_clone_weak
  after_clone_weak s = record s {
    inner = (try_clone_weak s.inner).1;
    weaks = counted (try_clone_weak s.inner).0 s.weaks;
  }

  unfoldable pub after_downgrade : Shared T → Shared T
  unfolding counted try_downgrade
  after_downgrade s = record s {
    inner = (try_downgrade s.inner).1;
    weaks = counted (try_downgrade s.inner).0 s.weaks;
  }

  unfoldable pub after_upgrade : Shared T → Shared T
  unfolding upgrade_counted try_upgrade
  after_upgrade s = record s {
    inner = (try_upgrade s.inner).1;
    arcs = upgrade_counted (try_upgrade s.inner).0 s.arcs;
  }

  unfoldable pub after_drop : Shared T → Shared T
  unfolding drop_arc
  after_drop s = record s {
    inner = drop_arc s.inner;
    arcs = s.arcs - 1;
    leaving = if s.inner.strong == 1 then s.leaving + 1 else s.leaving;
  }

  unfoldable pub after_drop_weak : Shared T → Shared T
  unfolding drop_weak
  after_drop_weak s = record s { inner = drop_weak s.inner; weaks = s.weaks - 1 }

  unfoldable pub after_leave : Shared T → Shared T
  unfolding drop_weak
  after_leave s = record s { inner = drop_weak s.inner; leaving = s.leaving - 1 }

  -- One atomic update of one thread, on a handle that it holds.
  pub data Step (s : Shared T) : Shared T → Type ℓ where
    clone_arc : 0 < s.arcs → Step s (after_clone s)
    clone_weak : 0 < s.weaks → Step s (after_clone_weak s)
    downgrade : 0 < s.arcs → Step s (after_downgrade s)
    upgrade : 0 < s.weaks → Step s (after_upgrade s)
    drop_an_arc : 0 < s.arcs → Step s (after_drop s)
    drop_a_weak : 0 < s.weaks → Step s (after_drop_weak s)
    leave : 0 < s.leaving → Step s (after_leave s)

  abbrev pub fresh : T → Shared T
  fresh value = record { inner = new value; arcs = 1; weaks = 0; leaving = 0 }

  -- The states that a new `Arc` comes to.
  pub data Reach (value : T) : Shared T → Type ℓ where
    start : Reach value (fresh value)
    later : {s t : Shared T} → Reach value s → Step s t → Reach value t
