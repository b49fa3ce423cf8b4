-- ===== src/Shards.antt =====
-- `rustyfill/src/collections/chashmap/map.rs`: which shard of a concurrent hash map a hash selects.
use Prim.Native.Nat.{bit_xor}
use native.Mathlib.Nat.{pow-suc, div-lt_iff_lt-mul}
use rustyfill.Prelude.{
  ltb, leb, ◌==◌, if◌then◌else◌, Bool-cases, Outcome, done, panic, Returns, ℕ, zero, suc, ◌+◌, ◌-◌,
  ◌*◌, ◌/◌, ◌%◌, ◌^◌, ◌≤◌, ◌<◌, ◌≡◌, refl, sym, ap, ◌∙◌, ◌≢◌, ◌⊎◌, inl, inr, Bool, true, false, not,
  ◌||◌, Option, none, some, arith,
}

abbrev usize_bits : ℕ
usize_bits = 64

-- `usize::trailing_zeros`, by halving at most so many times as the type has bits.
unfoldable pub trailing_zeros_in : ℕ → ℕ → ℕ
trailing_zeros_in zero n = 0
trailing_zeros_in (suc bits) n =
    let rest = trailing_zeros_in bits (n / 2) in if n % 2 == 0 then rest + 1 else 0

abbrev pub trailing_zeros : ℕ → ℕ
trailing_zeros n = trailing_zeros_in usize_bits n

abbrev pub is_power_of_two : ℕ → Bool
is_power_of_two n = 2 ^ trailing_zeros n == n

-- The start of `try_with_capacity_and_hasher_and_shards`: `none` for `InvalidShards`, else the shift.
unfoldable pub shift_of : ℕ → Outcome (Option ℕ)
shift_of shard_count =
    if ltb shard_count 2 || not (is_power_of_two shard_count)
    then done none
    else if leb (trailing_zeros shard_count) usize_bits
    then done (some (usize_bits - trailing_zeros shard_count))
    else panic

-- `(hash << 7) >> self.shift` on a `usize`; the shift panics or is masked at the type's width.
unfoldable pub fast_shard_index : ℕ → ℕ → Outcome ℕ
fast_shard_index hash shift =
    if ltb shift usize_bits then done (hash * 2 ^ 7 % 2 ^ usize_bits / 2 ^ shift) else panic

unfoldable pub shard_index_internal : ℕ → ℕ → Outcome ℕ
unfolding fast_shard_index
shard_index_internal hash shift = fast_shard_index (bit_xor hash (hash / 2 ^ 32)) shift

trailing_zeros_bound : (bits n : ℕ) → trailing_zeros_in bits n ≤ bits
unfolding trailing_zeros_in
trailing_zeros_bound zero n = omega arith
trailing_zeros_bound (suc bits) n = let h = trailing_zeros_bound bits (n / 2) in ground (arith, h)

double_mul : (x y : ℕ) → x * 2 * y ≡ x * y * 2
double_mul x y = omega arith

power_add : (a b : ℕ) → 2 ^ a * 2 ^ b ≡ 2 ^ (a + b)
power_add zero b = let e : 0 + b ≡ b = omega arith in rw (e) (omega arith)
power_add (suc a) b =
    let shift : suc a + b ≡ suc (a + b) = omega arith in
    rw (shift, pow-suc 2 a, pow-suc 2 (a + b))
      (double_mul (2 ^ a) (2 ^ b) ∙ ap (λ x. x * 2) (power_add a b))

power_split : (k : ℕ) → k ≤ 64 → 2 ^ k * 2 ^ (64 - k) ≡ 2 ^ 64
power_split k l =
    let e : k + (64 - k) ≡ 64 = omega (arith, l) in power_add k (64 - k) ∙ ap (λ x. 2 ^ x) e

power_positive : (k : ℕ) → 0 < 2 ^ k
power_positive zero = omega arith
power_positive (suc k) = rw (pow-suc 2 k) (omega (arith, power_positive k))

below : (x k : ℕ) → k ≤ 64 → x % 2 ^ 64 / 2 ^ (64 - k) < 2 ^ k
below x k l =
    let small : x % 2 ^ 64 < 2 ^ 64 = omega arith in
    (div-lt_iff_lt-mul {k = 2 ^ (64 - k)} (power_positive (64 - k))).1 (rw (power_split k l) small)

halved : (n : ℕ) → ((n * 2 % 2 == 0) ≡ true) × (n * 2 / 2 ≡ n)
halved n = ground arith

trailing_zeros_power : (bits k : ℕ) → k < bits → trailing_zeros_in bits (2 ^ k) ≡ k
unfolding trailing_zeros_in
trailing_zeros_power zero k l = absurd (omega (arith, l))
trailing_zeros_power (suc bits) zero l = refl
trailing_zeros_power (suc bits) (suc k) l =
    let (even, half) = halved (2 ^ k) in
    rw (pow-suc 2 k, trailing_zeros_in, even, half)
      (rw (trailing_zeros_power bits k (omega (arith, l))) (omega arith))

two_le_power : (k : ℕ) → 0 < k → 2 ≤ 2 ^ k
two_le_power zero p = absurd (omega (arith, p))
two_le_power (suc k) p = rw (pow-suc 2 k) (omega (arith, power_positive k))

exponent_positive : (k n : ℕ) → 2 ^ k ≡ n → 2 ≤ n → 0 < k
exponent_positive zero n e two = absurd (omega (arith, e, two))
exponent_positive (suc k) n e two = omega arith

refused_count :
    (n exponent k : ℕ)
    → (ltb n 2 || not (2 ^ exponent == n)) ≡ true
    → exponent ≡ k
    → 0 < k
    → n ≢ 2 ^ k
refused_count n exponent k t z p e =
    let two = two_le_power k p in
    let same : 2 ^ exponent ≡ n = ap (λ x. 2 ^ x) z ∙ sym e in ground (arith, t, two, same, e)

accepted_count :
    (n exponent : ℕ) → (ltb n 2 || not (2 ^ exponent == n)) ≡ false → (2 ≤ n) × (2 ^ exponent ≡ n)
accepted_count n exponent t = ground (arith, t)

fast_shard_index-InRange :
    (n k hash : ℕ)
    → 2 ^ k ≡ n
    → 2 ≤ n
    → k ≤ 64
    → Returns (fast_shard_index hash (64 - k)) λ i. i < n
unfolding fast_shard_index
fast_shard_index-InRange n k hash e two l =
    let p = exponent_positive k n e two in
    let fits : ltb (64 - k) usize_bits ≡ true = ground (arith, p) in
    (
      hash * 2 ^ 7 % 2 ^ 64 / 2 ^ (64 - k),
      rw (fast_shard_index, fits) refl,
      let b = below (hash * 2 ^ 7) k l in rw (e) at b,
    )

shift_accepted :
    (n : ℕ)
    → (ltb n 2 || not (is_power_of_two n)) ≡ false
    → shift_of n ≡ done (some (64 - trailing_zeros n))
unfolding shift_of
shift_accepted n t =
    let l : leb (trailing_zeros n) usize_bits ≡ true = ground (arith, trailing_zeros_bound 64 n) in
    rw (shift_of, t, l) refl

-- The constructor refuses a count of shards exactly if it is not a power of two below the type's
-- range and at least two. With the shift of every other count, a hash selects a shard in range, and
-- neither computation panics.
pub shift_of-InRange :
    (n : ℕ)
    → ((shift_of n ≡ done none) × ((k : ℕ) → 0 < k → k < 64 → n ≢ 2 ^ k))
      ⊎ ((s : ℕ) × (shift_of n ≡ done (some s))
          × ((k : ℕ) × (n ≡ 2 ^ k) × (0 < k))
          × ((hash : ℕ) → Returns (shard_index_internal hash s) λ i. i < n))
unfolding shift_of shard_index_internal
shift_of-InRange n = elim (Bool-cases (ltb n 2 || not (is_power_of_two n))) [
  | inl t ↦ inl (
    rw (shift_of, t) refl,
    λ k p l e.
        refused_count n (trailing_zeros n) k t (ap trailing_zeros e ∙ trailing_zeros_power 64 k l) p
          e,
  )
  | inr t ↦
      let (two, e) = accepted_count n (trailing_zeros n) t in
      inr (
        64 - trailing_zeros n,
        shift_accepted n t,
        (trailing_zeros n, sym e, exponent_positive (trailing_zeros n) n e two),
        λ hash.
            fast_shard_index-InRange n (trailing_zeros n) (bit_xor hash (hash / 2 ^ 32)) e two
              (trailing_zeros_bound 64 n),
      )
]
