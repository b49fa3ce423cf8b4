-- ===== src/Tests/Shards.antt =====
-- A map of 64 shards.
use rustyfill.Prelude.{done, Returns, ℕ, ◌^◌, ◌<◌, ◌≡◌, refl, ◌≢◌, ◌⊎◌, none, some}
use rustyfill.Shards.{trailing_zeros_in, shift_of, shard_index_internal, shift_of-InRange}

shift_of_64 : shift_of 64 ≡ done (some 58)
unfolding shift_of trailing_zeros_in
shift_of_64 = refl

shift_of_48 : shift_of 48 ≡ done none
unfolding shift_of trailing_zeros_in
shift_of_48 = refl

shift_of-InRange_example :
    ((shift_of 64 ≡ done none) × ((k : ℕ) → 0 < k → k < 64 → 64 ≢ 2 ^ k))
    ⊎ ((s : ℕ) × (shift_of 64 ≡ done (some s))
        × ((k : ℕ) × (64 ≡ 2 ^ k) × (0 < k))
        × ((hash : ℕ) → Returns (shard_index_internal hash s) λ i. i < 64))
shift_of-InRange_example = shift_of-InRange 64
