-- ===== src/Prelude/Runs.antt =====
-- How Rust code ends: it returns, it panics, or it has undefined behaviour. `Result` is Rust's.
use Prim.Native.Nat.{ℕ, ◌+◌, ◌-◌, ◌^◌}
use mathlib.Core.Path.{◌≡◌, refl}
use mathlib.Core.Logic.{◌⊎◌, inl, inr}
use mathlib.Core.Option.{Option}
use rustyfill.Prelude.Tests.{ltb, leb, if◌then◌else◌}

pub data Outcome {ℓ} (A : Type ℓ) : Type ℓ where
  done : A → Outcome A
  panic : Outcome A
  ub : Outcome A

infixl 5 ◌>>=◌
abbrev pub ◌>>=◌ {ℓ κ} : {A : Type ℓ} {B : Type κ} → Outcome A → (A → Outcome B) → Outcome B
done a >>= f = f a
panic >>= f = panic
ub >>= f = ub

pub bind_assoc {ℓ κ μ} :
    {A : Type ℓ} {B : Type κ} {C : Type μ} (m : Outcome A) (f : A → Outcome B) (g : B → Outcome C)
    → ((m >>= f) >>= g) ≡ (m >>= λ a. f a >>= g)
bind_assoc (done a) f g = refl
bind_assoc panic f g = refl
bind_assoc ub f g = refl

pub data Result {ℓ κ} (A : Type ℓ) (E : Type κ) : Type (ℓ ⊔ κ) where
  ok : A → Result A E
  err : E → Result A E

pub Result-cases {ℓ κ} :
    {A : Type ℓ} {E : Type κ} (r : Result A E) → ((a : A) × (r ≡ ok a)) ⊎ ((e : E) × (r ≡ err e))
Result-cases (ok a) = inl (a, refl)
Result-cases (err e) = inr (e, refl)

-- The code returns, and its result satisfies `P`.
abbrev pub Returns {ℓ κ} : {A : Type ℓ} → Outcome A → (A → Type κ) → Type (ℓ ⊔ κ)
Returns {A} r P = (a : A) × (r ≡ done a) × P a

abbrev pub u32_mod : ℕ
u32_mod = 2 ^ 32

-- `checked_add(..).expect(..)` on a `u32`, and `checked_sub(..).expect(..)`.
abbrev pub expect_add_u32 : ℕ → ℕ → Outcome ℕ
expect_add_u32 a b = if ltb (a + b) u32_mod then done (a + b) else panic

abbrev pub expect_sub : ℕ → ℕ → Outcome ℕ
expect_sub a b = if leb b a then done (a - b) else panic

-- The global allocator and `Vec`'s own limits, as one call meets them: the error that
-- `Vec::with_capacity` at a capacity and `Vec::try_reserve` at a length and a number of further
-- elements answer with, if any, and the error that stands for an overflowing capacity.
pub record Allocator {ℓ} (R : Type ℓ) : Type ℓ where
  pub capacity_overflow : R
  pub with_capacity : ℕ → Option R
  pub try_reserve : ℕ → ℕ → Option R
