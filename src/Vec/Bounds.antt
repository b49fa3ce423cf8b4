-- ===== src/Vec/Bounds.antt =====
-- The indices that the bounds of a range let through, and what the two matches on bounds of
-- `try_extend_from_within` make of them.
use rustyfill.Prelude.{
  ltb, Bool-cases, ℕ, ◌+◌, ◌≤◌, ◌<◌, ◌≡◌, refl, ◌↔◌, ◌⊎◌, inl, inr, none, some, arith,
}
use rustyfill.Vec.{Bound, included, excluded, unbounded, usize_mod, start_bound, end_bound}

abbrev pub IsUsize : Bound → Type 0
IsUsize (included i) = i < usize_mod
IsUsize (excluded i) = i < usize_mod
IsUsize unbounded = Unit

-- Whether an index is not below the lower bound.
abbrev pub After : Bound → ℕ → Type 0
After (included i) j = i ≤ j
After (excluded i) j = i < j
After unbounded j = Unit

-- Whether an index is not above the upper bound of a range in a vector of `n` elements.
abbrev pub Before : ℕ → Bound → ℕ → Type 0
Before n (included i) j = j ≤ i
Before n (excluded i) j = j < i
Before n unbounded j = j < n

-- The indices from `start` on are those that the lower bound lets through.
abbrev pub IsStart : Bound → ℕ → Type 0
IsStart b start = (j : ℕ) → (start ≤ j) ↔ After b j

-- The indices before `end` are those that the upper bound lets through.
abbrev pub IsEnd : ℕ → Bound → ℕ → Type 0
IsEnd n b end = (j : ℕ) → (j < end) ↔ Before n b j

pub start_bound-cases :
    (b : Bound)
    → IsUsize b
    → ((s : ℕ) × (start_bound b ≡ some s) × (s < usize_mod) × IsStart b s)
      ⊎ ((s : ℕ) × (start_bound b ≡ none) × (usize_mod ≤ s) × IsStart b s)
unfolding start_bound
start_bound-cases (included i) u = inl (i, refl, u, λ j. ground arith)
start_bound-cases (excluded i) u = elim (Bool-cases (ltb (i + 1) usize_mod)) [
  | inl e ↦ inl (i + 1, rw (e) refl, ground (arith, e), λ j. ground arith)
  | inr e ↦ inr (i + 1, rw (e) refl, ground (arith, e), λ j. ground arith)
]
start_bound-cases unbounded u = inl (0, refl, omega arith, λ j. ground arith)

pub end_bound-cases :
    (n : ℕ) (b : Bound)
    → IsUsize b
    → n < usize_mod
    → ((e : ℕ) × (end_bound n b ≡ some e) × (e < usize_mod) × IsEnd n b e)
      ⊎ ((e : ℕ) × (end_bound n b ≡ none) × (usize_mod ≤ e) × IsEnd n b e)
unfolding end_bound
end_bound-cases n (included i) u l = elim (Bool-cases (ltb (i + 1) usize_mod)) [
  | inl e ↦ inl (i + 1, rw (e) refl, ground (arith, e), λ j. ground arith)
  | inr e ↦ inr (i + 1, rw (e) refl, ground (arith, e), λ j. ground arith)
]
end_bound-cases n (excluded i) u l = inl (i, refl, u, λ j. ground arith)
end_bound-cases n unbounded u l = inl (n, refl, l, λ j. ground arith)

pub IsEnd-exists : (n : ℕ) (b : Bound) → (e : ℕ) × IsEnd n b e
IsEnd-exists n (included i) = (i + 1, λ j. ground arith)
IsEnd-exists n (excluded i) = (i, λ j. ground arith)
IsEnd-exists n unbounded = (n, λ j. ground arith)
