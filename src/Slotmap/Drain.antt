-- ===== src/Slotmap/Drain.antt =====
-- `Drain`, `clear` and `retain` of `rustyfill/src/collections/slotmap/basic.rs`.
pub mod Clear
pub mod Retain
use rustyfill.Prelude.{
  if◌then◌else◌, length, get_elem?, set, Outcome, done, ub, ◌>>=◌, u32_mod, ℕ, zero, suc, ◌+◌, ◌-◌,
  ◌%◌, Bool, true, false, Option, none, some,
}
use rustyfill.Slotmap.Key
use rustyfill.Slotmap.Key.{KeyData}
use rustyfill.Slotmap.Basic.{
  Slot, SlotMap, SlotContent, occupied, vacant, value, content, is_occupied, remove_from_slot,
}

pub record Drain {ℓ} (V : Type ℓ) : Type ℓ where
  pub sm : SlotMap V
  pub cur : ℕ

module _ {ℓ} {V : Type ℓ} where
  unfoldable pub drain : SlotMap V → Drain V
  drain m = record { sm = m; cur = 1 }

  -- The `while` loop of `next`, with as many rounds as slots are left.
  drain_loop : ℕ → SlotMap V → ℕ → Outcome (Option (KeyData × V) × Drain V)
  drain_loop zero m cur = done (none, record { sm = m; cur = cur })
  drain_loop (suc rounds) m cur = elim (get_elem? m.slots cur) [
    | none ↦ ub
    | some slot ↦ elim (is_occupied slot) [
      | true ↦ do
        (v, m') ← remove_from_slot m cur
        done (some (Key.new (cur % u32_mod) slot.version, v), record { sm = m'; cur = cur + 1 })
      | false ↦ drain_loop rounds m (cur + 1)
    ]
  ]

  unfoldable pub next : Drain V → Outcome (Option (KeyData × V) × Drain V)
  unfolding drain_loop
  next d = drain_loop (length d.sm.slots - d.cur) d.sm d.cur

  -- `for_each(|_| {})`, the body of `Drain::drop`; `none` where the rounds do not suffice.
  drop_loop : ℕ → Drain V → Outcome (Option (SlotMap V))
  drop_loop zero d = done none
  drop_loop (suc rounds) d =
      next d >>= λ r. elim r.0 [ none ↦ done (some r.1.sm) | some _ ↦ drop_loop rounds r.1 ]

  unfoldable pub clear : SlotMap V → Outcome (Option (SlotMap V))
  unfolding drop_loop drain
  clear m = drop_loop (length m.slots + 1) (drain m)

  module _ {S : Type ℓ} (f : S → KeyData → V → Bool × V × S) where
    -- The rest of the round at slot `i`, whose content was read.
    retain_slot : SlotMap V → S → ℕ → Slot V → SlotContent V → Outcome (SlotMap V × S)
    unfolding Key.new
    retain_slot m s i slot (vacant _) = done (m, s)
    retain_slot m s i slot (occupied v) =
        let (keep, v', s') = f s (Key.new (i % u32_mod) slot.version) v in
        let m' = record m { slots = set m.slots i (record slot { u = value v' }) } in
        if keep then done (m', s') else (remove_from_slot m' i >>= λ r. done (r.1, s'))

    -- The closure may change its own state and the value that it is shown.
    retain_loop : ℕ → ℕ → SlotMap V → S → Outcome (SlotMap V × S)
    unfolding retain_slot
    retain_loop zero i m s = done (m, s)
    retain_loop (suc rounds) i m s = elim (get_elem? m.slots i) [
      | none ↦ ub
      | some slot ↦
          content slot >>= λ c. retain_slot m s i slot c >>= λ r. retain_loop rounds (i + 1) r.0 r.1
    ]

    unfoldable pub retain : SlotMap V → S → Outcome (SlotMap V × S)
    unfolding retain_loop
    retain m s = retain_loop (length m.slots - 1) 1 m s
