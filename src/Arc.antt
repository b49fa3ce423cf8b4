-- ===== src/Arc.antt =====
-- `rustyfill/src/alloc/arc/arc_.rs`: the reference counts behind `Arc` and `Weak`. Each update of a
-- count is one atomic step, and an operation returns what it answers beside the counts that it left.
pub mod Handles
pub mod Cases
pub mod Counts
pub mod Release
use rustyfill.Prelude.{
  ltb, leb, ◌==◌, if◌then◌else◌, Result, ok, err, ℕ, ◌+◌, ◌-◌, ◌^◌, Bool, true, false, ◌&&◌, Option,
  none, some,
}

-- `ArcInner`, its `data` named `payload`. The strong handles share one weak count.
pub record ArcInner {ℓ} (T : Type ℓ) : Type ℓ where
  pub strong : ℕ
  pub weak : ℕ
  pub payload : T

abbrev pub max_refcount : ℕ
max_refcount = 2 ^ 63 - 1

-- `checked_add(1).filter(|&next| next < MAX_REFCOUNT)`, on a `usize`.
abbrev pub bump : ℕ → Option ℕ
bump cur = if ltb (cur + 1) (2 ^ 64) && ltb (cur + 1) max_refcount then some (cur + 1) else none

-- The closure of `try_upgrade`.
abbrev pub revive : ℕ → Option ℕ
revive cur = if cur == 0 then none else if leb max_refcount cur then none else some (cur + 1)

-- What `try_upgrade` answers: an `Arc`, that the data is gone, or an error.
pub data Upgrade : Type 0 where
  upgraded gone refused : Upgrade

module _ {ℓ} {T : Type ℓ} where
  -- `try_new` behind its allocation.
  unfoldable pub new : T → ArcInner T
  new value = record { strong = 1; weak = 1; payload = value }

  -- `TryArc::try_new` and `try_new_give_back`; `allocates` is what the allocator answers.
  unfoldable pub try_new : Bool → T → Result (ArcInner T) (Unit {0})
  unfolding new
  try_new allocates value = if allocates then ok (new value) else err tt

  unfoldable pub try_new_give_back : Bool → T → Result (ArcInner T) (T × Unit {0})
  unfolding new
  try_new_give_back allocates value = if allocates then ok (new value) else err (value, tt)

  -- `TryClone for Arc`: whether it succeeds.
  unfoldable pub try_clone : ArcInner T → Bool × ArcInner T
  try_clone inner = elim (bump inner.strong) [
    | some n ↦ (true, record inner { strong = n })
    | none ↦ (false, inner)
  ]

  -- `TryClone for Weak`, at an allocation.
  unfoldable pub try_clone_weak : ArcInner T → Bool × ArcInner T
  try_clone_weak inner = elim (bump inner.weak) [
    | some n ↦ (true, record inner { weak = n })
    | none ↦ (false, inner)
  ]

  unfoldable pub try_downgrade : ArcInner T → Bool × ArcInner T
  try_downgrade inner = elim (bump inner.weak) [
    | some n ↦ (true, record inner { weak = n })
    | none ↦ (false, inner)
  ]

  unfoldable pub try_upgrade : ArcInner T → Upgrade × ArcInner T
  try_upgrade inner = elim (revive inner.strong) [
    | some n ↦ (upgraded, record inner { strong = n })
    | none ↦ (if inner.strong == 0 then gone else refused, inner)
  ]

  -- Dropping a `Weak`. The last `Arc` leaves a `Weak` behind, which its thread drops next.
  unfoldable pub drop_weak : ArcInner T → ArcInner T
  drop_weak inner = record inner { weak = inner.weak - 1 }

  unfoldable pub drop_arc : ArcInner T → ArcInner T
  drop_arc inner = record inner { strong = inner.strong - 1 }
