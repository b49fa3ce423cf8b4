-- ===== src/Vec/Insert.antt =====
-- Pushing, inserting, appending and shrinking: the value goes in, or comes back with the vector
-- as it was.
use rustyfill.Prelude.{
  ltb, leb, ◌==◌, Bool-cases, length, take, drop, length-append, Result, ok, err, ℕ, zero, suc, ◌+◌,
  ◌≤◌, ◌<◌, ◌≡◌, refl, sym, ◌⊎◌, inl, inr, true, false, List, [], ◌∷◌, ◌++◌, arith,
}
use Prim.Native.Nat.{max}
use rustyfill.Vec.{
  Vec, Ended, returned, Growth, MakesRoom, InsertError, reserve, out_of_bounds, len, try_reserve,
  insert, try_insert_give_back, try_append, append_reserved, try_shrink_to,
}
use rustyfill.Vec.Fill.{IsValid, append_nil}
use rustyfill.Vec.Rolled.{reserve_cases}

module _ {ℓ} {T R : Type ℓ} (g : Growth R) (room : MakesRoom g) where
  -- The items with `x` before the index.
  abbrev pub inserted : List T → ℕ → T → List T
  inserted xs index x = take index xs ++ (x ∷ drop index xs)

  -- The vector has the items `xs` and room for them.
  pub record Holds (v : Vec T) (xs : List T) : Type ℓ where
    pub items : v.items ≡ xs
    pub fits : IsValid v

  take-drop-length : (xs : List T) (i : ℕ) (x : T) → length (inserted xs i x) ≡ length xs + 1
  take-drop-length xs zero x = omega arith
  take-drop-length [] (suc i) x = omega arith
  take-drop-length (y ∷ xs) (suc i) x = omega (arith, take-drop-length xs i x)

  -- The value that comes back is the one that went in, and so is the vector.
  abbrev pub InsertSpec :
      Vec T → ℕ → T → Ended (Result (Unit {ℓ}) (T × InsertError R)) × Vec T → Type ℓ
  InsertSpec v index x r =
      ((len v < index) × (r ≡ (returned (err (x, out_of_bounds)), v)))
      ⊎ ((index ≤ len v)
          × (((e : R) × (try_reserve g v 1 ≡ (err e, v)) × (r ≡ (returned (err (x, reserve e)), v)))
              ⊎ ((r.0 ≡ returned (ok tt)) × Holds r.1 (inserted v.items index x))))

  insert_refused :
      (v : Vec T) (index : ℕ) (x : T) (e : R)
      → ltb (len v) index ≡ false
      → try_reserve g v 1 ≡ (err e, v)
      → try_insert_give_back g v index x ≡ (returned (err (x, reserve e)), v)
  unfolding try_insert_give_back
  insert_refused v index x e b q = rw (try_insert_give_back, b, q) refl

  insert_reserved :
      (v : Vec T) (index c : ℕ) (x : T)
      → ltb (len v) index ≡ false
      → len v < c
      → try_reserve g v 1 ≡ (ok tt, record v { capacity = c })
      → try_insert_give_back g v index x
        ≡ (returned (ok tt), record { items = inserted v.items index x; capacity = c })
  unfolding try_insert_give_back insert
  insert_reserved v index c x b big q =
      let big' : ltb (len v) c ≡ true = ground (arith, big) in
      rw (try_insert_give_back, b, q, insert, b, big') refl

  -- `try_insert_give_back` gives the value back with an error and an unchanged vector, behind the
  -- end or where the reservation is refused; else it inserts the value before the index. It never
  -- panics, and never grows a full vector on the way.
  pub insert-InsertSpec :
      (v : Vec T) (index : ℕ) (x : T)
      → IsValid v
      → InsertSpec v index x (try_insert_give_back g v index x)
  unfolding try_insert_give_back
  insert-InsertSpec v index x h = elim (Bool-cases (ltb (len v) index)) [
    | inl out ↦ inl (ground (arith, out), rw (try_insert_give_back, out) refl)
    | inr b ↦ elim (reserve_cases g v 1 room) [
      | inr (e, q) ↦ inr (ground (arith, b), inl (e, q, insert_refused v index x e b q))
      | inl (c, q, big) ↦ inr (
        ground (arith, b),
        inr (
            rw (insert_reserved v index c x b (omega arith) q) (
              refl,
              record { items = refl; fits = omega (arith, take-drop-length v.items index x) },
            )),
      )
    ]
  ]

  -- What `try_append` leaves of both vectors.
  abbrev pub AppendSpec : Vec T → Vec T → Ended (Result (Unit {ℓ}) R) × Vec T × Vec T → Type ℓ
  AppendSpec v other r =
      ((e : R) × (try_reserve g v (len other) ≡ (err e, v)) × (r ≡ (returned (err e), v, other)))
      ⊎ ((r.0 ≡ returned (ok tt)) × Holds r.1 (v.items ++ other.items) × (r.2.items ≡ []))

  append_full :
      (v other : Vec T) (e : R)
      → (len other == 0) ≡ false
      → try_reserve g v (len other) ≡ (err e, v)
      → try_append g v other ≡ (returned (err e), v, other)
  unfolding try_append append_reserved
  append_full v other e some_left q = rw (try_append, some_left, q) refl

  append_room :
      (v other : Vec T) (c : ℕ)
      → (len other == 0) ≡ false
      → len v + len other ≤ c
      → try_reserve g v (len other) ≡ (ok tt, record v { capacity = c })
      → try_append g v other ≡ (
        returned (ok tt),
        record { items = v.items ++ other.items; capacity = c },
        record other { items = [] },
      )
  unfolding try_append append_reserved
  append_room v other c some_left big q =
      let big' : leb (len v + len other) c ≡ true = ground (arith, big) in
      rw (try_append, some_left, q, append_reserved, big') refl

  length_nil : (xs : List T) → length xs ≡ 0 → xs ≡ []
  length_nil [] e = refl
  length_nil (x ∷ xs) e = absurd (omega arith)

  -- `try_append` moves all items of the other vector behind its own, or changes neither vector and
  -- returns the reservation's error. It never grows a full vector on the way.
  pub append-AppendSpec : (v other : Vec T) → IsValid v → AppendSpec v other (try_append g v other)
  unfolding try_append
  append-AppendSpec v other h = elim (Bool-cases (len other == 0)) [
    | inl nothing ↦
        let e : other.items ≡ [] = length_nil other.items (ground (arith, nothing)) in
        rw (try_append, nothing)
          (inr (refl, record { items = rw e (sym (append_nil v.items)); fits = h }, e))
    | inr some_left ↦ elim (reserve_cases g v (len other) room) [
      | inr (e, q) ↦ inl (e, q, append_full v other e some_left q)
      | inl (c, q, big) ↦ rw (append_room v other c some_left big q) (
          inr (
            refl,
            record { items = refl; fits = omega (arith, length-append v.items other.items) },
            refl,
          ))
    ]
  ]

  -- `try_shrink_to` keeps the items and the room for them, whatever the allocator answers; where it
  -- succeeds the capacity is at most the greater of the length and the bound.
  pub shrink_to-Holds :
      (v : Vec T) (min_capacity : ℕ)
      → IsValid v
      → Holds (try_shrink_to g v min_capacity).1 v.items
        × ((try_shrink_to g v min_capacity).0 ≡ ok tt
            → (try_shrink_to g v min_capacity).1.capacity ≤ max (len v) min_capacity)
  unfolding try_shrink_to
  shrink_to-Holds v min_capacity h = elim (Bool-cases (leb v.capacity (max (len v) min_capacity))) [
    | inl small ↦
        rw (try_shrink_to, small) (record { items = refl; fits = h }, λ _. ground (arith, small))
    | inr big ↦ elim (Bool-cases (g.shrinks v.capacity (max (len v) min_capacity))) [
      | inl yes_it_does ↦
          rw (try_shrink_to, big, yes_it_does)
            (record { items = refl; fits = omega arith }, λ _. omega arith)
      | inr no_it_does_not ↦
          rw (try_shrink_to, big, no_it_does_not) (record { items = refl; fits = h }, λ e. cc)
    ]
  ]
