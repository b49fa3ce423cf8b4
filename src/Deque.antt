-- ===== src/Deque.antt =====
-- `rustyfill/src/alloc/vecdeque/vecdeque_.rs`: the fallible operations on either end of a `VecDeque`.
-- A deque is its items, front to back, and its capacity.
pub mod Ends
use rustyfill.Prelude.{
  ltb, leb, if◌then◌else◌, length, Result, ok, err, ℕ, ◌+◌, Option, none, some, List, [], ◌∷◌, ◌++◌,
}
use rustyfill.Vec.{Growth}

pub record Deque {ℓ} (T : Type ℓ) : Type ℓ where
  pub items : List T
  pub capacity : ℕ

-- How a push ends: the item is in the deque, it comes back with the error, or the infallible push
-- meets a full deque, which aborts the process where memory is out.
pub data Pushed {ℓ} (T R : Type ℓ) : Type ℓ where
  placed : Deque T → Pushed T R
  refused : T → R → Deque T → Pushed T R
  aborts : Pushed T R

module _ {ℓ} {T : Type ℓ} where
  abbrev pub size : Deque T → ℕ
  size d = length d.items

  abbrev pub empty_deque : Deque T
  empty_deque = record { items = []; capacity = 0 }

  -- All items but the last, and the last.
  unfoldable pub front_items : List T → List T
  front_items [] = []
  front_items (x ∷ []) = []
  front_items (x ∷ y ∷ xs) = x ∷ front_items (y ∷ xs)

  unfoldable pub last_item : List T → Option T
  last_item [] = none
  last_item (x ∷ []) = some x
  last_item (x ∷ y ∷ xs) = last_item (y ∷ xs)

  -- `try_pop_back`
  unfoldable pub pop_back : Deque T → Option T × Deque T
  unfolding front_items last_item
  pop_back d = (last_item d.items, record d { items = front_items d.items })

  module _ {R : Type ℓ} (g : Growth R) where
    -- `VecDeque::try_reserve`
    unfoldable pub reserve_deque : Deque T → ℕ → Result (Unit {ℓ}) R × Deque T
    reserve_deque d n =
        if leb (size d + n) d.capacity then (ok tt, d) else elim (g.grow d.capacity (size d) n) [
          | ok c ↦ (ok tt, record d { capacity = c })
          | err e ↦ (err e, d)
        ]

    -- The infallible `push_front` and `push_back` after a reservation.
    unfoldable pub front_after : T → Result (Unit {ℓ}) R × Deque T → Pushed T R
    front_after x (ok _, d) =
        if ltb (size d) d.capacity then placed (record d { items = x ∷ d.items }) else aborts
    front_after x (err e, d) = refused x e d

    unfoldable pub back_after : T → Result (Unit {ℓ}) R × Deque T → Pushed T R
    back_after x (ok _, d) =
        if ltb (size d) d.capacity then placed (record d { items = d.items ++ x ∷ [] }) else aborts
    back_after x (err e, d) = refused x e d

    unfoldable pub try_push_front_give_back : Deque T → T → Pushed T R
    unfolding reserve_deque front_after
    try_push_front_give_back d x = front_after x (reserve_deque d 1)

    unfoldable pub try_push_back_give_back : Deque T → T → Pushed T R
    unfolding reserve_deque back_after
    try_push_back_give_back d x = back_after x (reserve_deque d 1)
