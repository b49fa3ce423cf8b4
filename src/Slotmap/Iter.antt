-- ===== src/Slotmap/Iter.antt =====
-- The iterators of `rustyfill/src/collections/slotmap/basic.rs`: `Iter`, `IntoIter`, `Keys`,
-- `Values`. An iterator is the rest of the slots, the index of the next one and the count left.
pub mod Collect
use rustyfill.Prelude.{
  Outcome, done, ◌>>=◌, u32_mod, expect_sub, ℕ, zero, suc, ◌+◌, ◌%◌, Option, none, some, List, [],
  ◌∷◌, map,
}
use mathlib.Core.Option
use rustyfill.Slotmap.Key
use rustyfill.Slotmap.Key.{KeyData}
use rustyfill.Slotmap.Basic.{Slot, SlotMap, occupied, vacant, content, len}

pub record Iter {ℓ} (V : Type ℓ) : Type ℓ where
  pub num_left : ℕ
  pub at : ℕ
  pub rest : List (Slot V)

module _ {ℓ} {V : Type ℓ} where
  -- `iter.enumerate()`, and the first `next` that skips the sentinel.
  skip_first : ℕ → List (Slot V) → Iter V
  skip_first n [] = record { num_left = n; at = 0; rest = [] }
  skip_first n (s ∷ ss) = record { num_left = n; at = 1; rest = ss }

  unfoldable pub iter : SlotMap V → Iter V
  unfolding skip_first
  iter m = skip_first (len m) m.slots

  -- The `for` loop of `next`, from slot `i`.
  next_from : ℕ → ℕ → List (Slot V) → Outcome (Option (KeyData × V) × Iter V)
  next_from num_left i [] = done (none, record { num_left = num_left; at = i; rest = [] })
  next_from num_left i (slot ∷ rest) = content slot >>= λ c. elim c [
    | occupied v ↦ do
      n ← expect_sub num_left 1
      done (
        some (Key.new (i % u32_mod) slot.version, v),
        record { num_left = n; at = i + 1; rest = rest },
      )
    | vacant _ ↦ next_from num_left (i + 1) rest
  ]

  unfoldable pub next : Iter V → Outcome (Option (KeyData × V) × Iter V)
  unfolding next_from
  next it = next_from it.num_left it.at it.rest

  unfoldable pub size_hint : Iter V → ℕ × Option ℕ
  size_hint it = (it.num_left, some it.num_left)

  -- `Keys::next` and `Values::next`.
  unfoldable pub next_key : Iter V → Outcome (Option KeyData × Iter V)
  next_key it = do (r, it') ← next it; done (Option.map (λ e. e.0) r, it')

  unfoldable pub next_value : Iter V → Outcome (Option V × Iter V)
  next_value it = do (r, it') ← next it; done (Option.map (λ e. e.1) r, it')

  -- A `for` loop over an iterator's step, with `none` where the rounds do not suffice.
  unfoldable pub collect {κ} :
      {B : Type κ} → (Iter V → Outcome (Option B × Iter V)) → ℕ → Iter V → Outcome (Option (List B))
  collect step zero it = done none
  collect step (suc rounds) it = step it >>= λ r. elim r.0 [
    | none ↦ done (some [])
    | some b ↦ collect step rounds r.1 >>= λ bs. done (Option.map (◌∷◌ b) bs)
  ]
