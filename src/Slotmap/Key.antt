-- ===== src/Slotmap/Key.antt =====
-- Keys of slot maps: `rustyfill/src/collections/slotmap/key.rs`.
use rustyfill.Prelude.{
  ◌==◌, if◌then◌else◌, u32_mod, ℕ, ◌+◌, ◌-◌, ◌*◌, ◌/◌, ◌%◌, ◌^◌, ◌<◌, ◌≡◌, Bool, true, false, arith,
}

abbrev pub dangling_sentinel : ℕ
dangling_sentinel = 2 ^ 32 - 1

abbrev pub max_slots_len : ℕ
max_slots_len = dangling_sentinel - 1

-- `v | 1` and `v ^ 1`.
abbrev pub or_one : ℕ → ℕ
or_one v = if v % 2 == 0 then v + 1 else v

abbrev pub xor_one : ℕ → ℕ
xor_one v = if v % 2 == 0 then v + 1 else v - 1

-- `wrapping_add(1)` and `wrapping_sub(1)` on a `u32`.
abbrev pub wrapping_inc : ℕ → ℕ
wrapping_inc v = (v + 1) % u32_mod

abbrev pub wrapping_dec : ℕ → ℕ
wrapping_dec v = (v + u32_mod - 1) % u32_mod

pub record KeyData : Type 0 where
  pub idx : ℕ
  pub version : ℕ

unfoldable pub new : ℕ → ℕ → KeyData
new idx version = record { idx = idx; version = or_one version }

unfoldable pub null : KeyData
unfolding new
null = new dangling_sentinel 1

unfoldable pub is_null : KeyData → Bool
is_null k = k.idx == dangling_sentinel

-- The fields share no bit, so `|` is `+`.
unfoldable pub as_ffi : KeyData → ℕ
as_ffi k = k.version * 2 ^ 32 + k.idx

unfoldable pub from_ffi : ℕ → KeyData
unfolding new
from_ffi value =
    let idx = value % 2 ^ 32 in
    let version = or_one (value / 2 ^ 32) in new (idx % u32_mod) (version % u32_mod)

-- What the two fields' types allow, and that every constructor sets the low bit of the version.
pub record IsKey (k : KeyData) : Type 0 where
  pub idx_lt : k.idx < u32_mod
  pub version_lt : k.version < u32_mod
  pub odd : k.version % 2 ≡ 1

-- The derived `==`.
abbrev pub key_eq : KeyData → KeyData → Bool
key_eq a b = if a.idx == b.idx then a.version == b.version else false

pub from_ffi-as_ffi : (k : KeyData) → IsKey k → from_ffi (as_ffi k) ≡ k
unfolding from_ffi as_ffi
from_ffi-as_ffi k h = ground arith

pub from_ffi-IsKey : (value : ℕ) → value < 2 ^ 64 → IsKey (from_ffi value)
unfolding from_ffi
from_ffi-IsKey value h = ground arith

pub key_eq-eq : (a b : KeyData) → key_eq a b ≡ true → a ≡ b
key_eq-eq a b h = ground arith
