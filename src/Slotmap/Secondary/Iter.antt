-- ===== src/Slotmap/Secondary/Iter.antt =====
-- The iterators of a secondary map and its equality. An iterator is the rest of the slots, the
-- index of the next one and the count left.
pub mod Collect
mod Inclusion
pub mod Equality
use rustyfill.Prelude.{
  ◌==◌, if◌then◌else◌, length, Outcome, done, ◌>>=◌, u32_mod, expect_sub, ℕ, zero, suc, ◌+◌, ◌%◌,
  Bool, true, false, not, Option, none, some, List, [], ◌∷◌, map,
}
use mathlib.Core.Option
use rustyfill.Slotmap.Key
use rustyfill.Slotmap.Key.{KeyData}
use rustyfill.Slotmap.Secondary.{Slot, occupied, vacant, SecondaryMap, get}

pub record Iter {ℓ} (V : Type ℓ) : Type ℓ where
  pub num_left : ℕ
  pub at : ℕ
  pub rest : List (Slot V)

module _ {ℓ} {V : Type ℓ} where
  unfoldable pub iter : SecondaryMap V → Iter V
  iter m = record { num_left = m.num_elems; at = 0; rest = m.slots }

  -- `it.next()` on the slots, which skips the sentinel.
  skip_sentinel : ℕ → List (Slot V) → Iter V
  skip_sentinel n [] = record { num_left = n; at = 0; rest = [] }
  skip_sentinel n (s ∷ ss) = record { num_left = n; at = 1; rest = ss }

  unfoldable pub into_iter : SecondaryMap V → Iter V
  unfolding skip_sentinel
  into_iter m = skip_sentinel m.num_elems m.slots

  -- The `for` loop of `next`, from slot `i`.
  pub next_from : ℕ → ℕ → List (Slot V) → Outcome (Option (KeyData × V) × Iter V)
  unfolding Key.new
  next_from num_left i [] = done (none, record { num_left = num_left; at = i; rest = [] })
  next_from num_left i (occupied v version ∷ rest) = do
    n ← expect_sub num_left 1
    done (some (Key.new (i % u32_mod) version, v), record { num_left = n; at = i + 1; rest = rest })
  next_from num_left i (vacant ∷ rest) = next_from num_left (i + 1) rest

  -- `Iter::next` and `IntoIter::next`.
  unfoldable pub next : Iter V → Outcome (Option (KeyData × V) × Iter V)
  unfolding next_from
  next it = next_from it.num_left it.at it.rest

  -- `Keys::next` and `Values::next`.
  unfoldable pub next_key : Iter V → Outcome (Option KeyData × Iter V)
  next_key it = do (r, it') ← next it; done (Option.map (λ e. e.0) r, it')

  unfoldable pub next_value : Iter V → Outcome (Option V × Iter V)
  next_value it = do (r, it') ← next it; done (Option.map (λ e. e.1) r, it')

  -- A `for` loop over an iterator, with `none` where the rounds do not suffice.
  unfoldable pub collect : ℕ → Iter V → Outcome (Option (List (KeyData × V)))
  unfolding next
  collect zero it = done none
  collect (suc rounds) it = next it >>= λ r. elim r.0 [
    | none ↦ done (some [])
    | some e ↦ collect rounds r.1 >>= λ es. done (Option.map (◌∷◌ e) es)
  ]

  module _ (equal : V → V → Bool) where
    -- `other.get(key).is_some_and(|ov| *value == *ov)`
    unfoldable pub same_entry : SecondaryMap V → KeyData × V → Outcome Bool
    same_entry other (key, v) =
        get other key >>= λ o. elim o [ none ↦ done false | some w ↦ done (equal v w) ]

    -- `iter.all(..)`, with `none` where the rounds do not suffice.
    unfoldable pub all_entries : SecondaryMap V → ℕ → Iter V → Outcome (Option Bool)
    unfolding next same_entry
    all_entries other zero it = done none
    all_entries other (suc rounds) it = next it >>= λ r. elim r.0 [
      | none ↦ done (some true)
      | some e ↦ same_entry other e >>= λ b. elim b [
        | true ↦ all_entries other rounds r.1
        | false ↦ done (some false)
      ]
    ]

    -- `PartialEq::eq`, with a round for each slot and one more.
    unfoldable pub eq : SecondaryMap V → SecondaryMap V → Outcome (Option Bool)
    unfolding all_entries iter
    eq m other =
        if not (m.num_elems == other.num_elems)
        then done (some false)
        else all_entries other (length m.slots + 1) (iter m)
