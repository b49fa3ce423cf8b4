-- ===== src/Deque/Ends.antt =====
-- Pushing and popping: what is left, and where a push is refused.
use rustyfill.Prelude.{
  ltb, leb, Bool-cases, length, ok, err, Result-cases, ℕ, ◌+◌, ◌-◌, ◌≤◌, ◌≡◌, refl, ap, ◌⊎◌, inl,
  inr, true, none, some, List, [], ◌∷◌, ◌++◌, arith,
}
use rustyfill.Vec.{Growth, MakesRoom}
use rustyfill.Deque.{
  Deque, placed, refused, size, front_items, last_item, empty_deque, reserve_deque, front_after,
  back_after, try_push_front_give_back, try_push_back_give_back,
}

module _ {ℓ} {T : Type ℓ} where
  -- A deque holds no more items than its capacity.
  abbrev pub IsValid : Deque T → Type 0
  IsValid d = size d ≤ d.capacity

  pub front_items-push : (xs : List T) (x : T) → front_items (xs ++ x ∷ []) ≡ xs
  unfolding front_items
  front_items-push [] x = refl
  front_items-push (y ∷ []) x = refl
  front_items-push (y ∷ z ∷ xs) x = ap (◌∷◌ y) (front_items-push (z ∷ xs) x)

  pub last_item-push : (xs : List T) (x : T) → last_item (xs ++ x ∷ []) ≡ some x
  unfolding last_item
  last_item-push [] x = refl
  last_item-push (y ∷ []) x = refl
  last_item-push (y ∷ z ∷ xs) x = last_item-push (z ∷ xs) x

  pub length-front_items : (xs : List T) → length (front_items xs) ≡ length xs - 1
  unfolding front_items
  length-front_items [] = refl
  length-front_items (x ∷ []) = omega arith
  length-front_items (x ∷ y ∷ xs) = omega (arith, length-front_items (y ∷ xs))

  pub last_item-some : (xs : List T) {x : T} → last_item xs ≡ some x → xs ≡ front_items xs ++ x ∷ []
  unfolding front_items last_item
  last_item-some [] e = absurd (cc)
  last_item-some (y ∷ []) e = cc
  last_item-some (y ∷ z ∷ xs) e = ap (◌∷◌ y) (last_item-some (z ∷ xs) e)

  pub last_item-none : (xs : List T) → last_item xs ≡ none → xs ≡ []
  unfolding last_item
  last_item-none [] e = refl
  last_item-none (y ∷ []) e = absurd (cc)
  last_item-none (y ∷ z ∷ xs) e = absurd (cc (last_item-none (z ∷ xs) e))

  module _ {R : Type ℓ} (g : Growth R) (room : MakesRoom g) where
    -- A push puts the item in front and keeps the deque valid, or the deque was full, it could
    -- not grow, and it comes back as it was with the item.
    pub push_front-cases :
        (d : Deque T) (x : T)
        → IsValid d
        → ((c : ℕ) × (try_push_front_give_back g d x
              ≡ placed (record { items = x ∷ d.items; capacity = c }))
            × (size d + 1 ≤ c))
          ⊎ ((e : R) × (try_push_front_give_back g d x ≡ refused x e d)
              × (size d ≡ d.capacity)
              × (g.grow d.capacity (size d) 1 ≡ err e))
    unfolding try_push_front_give_back reserve_deque front_after
    push_front-cases d x h = elim (Bool-cases (leb (size d + 1) d.capacity)) [
      | inl fits ↦
          let b : ltb (size d) d.capacity ≡ true = ground (arith, fits) in
          inl (
            d.capacity,
            rw (try_push_front_give_back, reserve_deque, fits, front_after, b) refl,
            ground (arith, fits),
          )
      | inr short ↦ elim (Result-cases (g.grow d.capacity (size d) 1)) [
        | inl (c, e) ↦
            let l = room d.capacity (size d) 1 c e in
            let b : ltb (size d) c ≡ true = ground (arith, l) in
            inl (
              c,
              rw (try_push_front_give_back, reserve_deque, short, e, front_after, b) refl,
              omega (arith, l),
            )
        | inr (x', e) ↦ inr (
          x',
          rw (try_push_front_give_back, reserve_deque, short, e, front_after) refl,
          ground (arith, short, h),
          e,
        )
      ]
    ]

  -- A deque with room takes an item at the back whatever the allocator would answer.
  pub push_back_room :
      {R : Type ℓ} (g : Growth R) (d : Deque T) (x : T)
      → size d + 1 ≤ d.capacity
      → try_push_back_give_back g d x ≡ placed (record d { items = d.items ++ x ∷ [] })
  unfolding try_push_back_give_back reserve_deque back_after
  push_back_room g d x l =
      let fits : leb (size d + 1) d.capacity ≡ true = ground (arith, l) in
      let b : ltb (size d) d.capacity ≡ true = ground (arith, l) in
      rw (try_push_back_give_back, reserve_deque, fits, back_after, b) refl

  pub push_front_room :
      {R : Type ℓ} (g : Growth R) (d : Deque T) (x : T)
      → size d + 1 ≤ d.capacity
      → try_push_front_give_back g d x ≡ placed (record d { items = x ∷ d.items })
  unfolding try_push_front_give_back reserve_deque front_after
  push_front_room g d x l =
      let fits : leb (size d + 1) d.capacity ≡ true = ground (arith, l) in
      let b : ltb (size d) d.capacity ≡ true = ground (arith, l) in
      rw (try_push_front_give_back, reserve_deque, fits, front_after, b) refl

  -- The first item of a deque that has no room yet.
  module _ {R : Type ℓ} (g : Growth R) (f : T) where
    pub first_placed :
        (c : ℕ)
        → MakesRoom g
        → g.grow 0 0 1 ≡ ok c
        → try_push_front_give_back g empty_deque f
          ≡ placed (record { items = f ∷ []; capacity = c })
    unfolding try_push_front_give_back reserve_deque front_after
    first_placed c room e =
        let b : ltb 0 c ≡ true = ground (arith, room 0 0 1 c e) in
        rw (try_push_front_give_back, reserve_deque, e, front_after, b) refl

    pub first_refused :
        (e : R)
        → g.grow 0 0 1 ≡ err e
        → try_push_front_give_back g empty_deque f ≡ refused f e empty_deque
    unfolding try_push_front_give_back reserve_deque front_after
    first_refused e q = rw (try_push_front_give_back, reserve_deque, q, front_after) refl
