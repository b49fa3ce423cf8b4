-- ===== src/Vec.antt =====
-- `rustyfill/src/alloc/vec/vec_.rs`: the fallible operations of `Vec`. A vector is its items and
-- its capacity. An operation returns how it ended beside the vector that it left, so that a panic
-- of a `try_clone` that unwinds shows what the guard left behind.
pub mod Fill
pub mod Clones
pub mod Made
pub mod Rolled
pub mod Bounds
pub mod Extend
pub mod Insert
pub mod Collect
pub mod Resume
use Prim.Native.Nat.{max}
use rustyfill.Prelude.{
  ltb, leb, ◌==◌, if◌then◌else◌, length, get_elem?, take, drop, replicate, Result, ok, err, ℕ, zero,
  suc, ◌+◌, ◌-◌, ◌^◌, ◌≤◌, ◌≡◌, Bool, ◌||◌, Option, none, some, List, [], ◌∷◌, ◌++◌,
}

pub record Vec {ℓ} (T : Type ℓ) : Type ℓ where
  pub items : List T
  pub capacity : ℕ

-- How a call ends: it returns, a user's code panics and the stack unwinds, or an infallible growth
-- meets a full vector, which aborts the process where memory is out.
pub data Ended {ℓ} (A : Type ℓ) : Type ℓ where
  returned : A → Ended A
  unwound : Ended A
  aborted : Ended A

-- What one call of `try_clone` of an element does.
pub data Cloned {ℓ} (T E : Type ℓ) : Type ℓ where
  cloned : T → Cloned T E
  failed : E → Cloned T E
  unwinds : Cloned T E

-- The global allocator, as `Vec` asks it: the capacity that `Vec::try_reserve` grows to, given the
-- capacity, the length and the number of further elements, where there is no room yet; whether a
-- buffer of one capacity shrinks to another; and the errors that the code makes.
pub record Growth {ℓ} (R : Type ℓ) : Type ℓ where
  pub grow : ℕ → ℕ → ℕ → Result ℕ R
  pub shrinks : ℕ → ℕ → Bool
  pub capacity_overflow : R
  pub new_alloc : R

-- A reservation that succeeds gives the room that was asked for.
abbrev pub MakesRoom {ℓ} : {R : Type ℓ} → Growth R → Type ℓ
MakesRoom g = (c n k c' : ℕ) → g.grow c n k ≡ ok c' → n + k ≤ c'

-- `TryVecWithCloneError`, `TryVecExtendFromWithinError` and `TryVecInsertError`.
pub data WithCloneError {ℓ} (R E : Type ℓ) : Type ℓ where
  reserve : R → WithCloneError R E
  clone : E → WithCloneError R E

pub data WithinError {ℓ} (R E : Type ℓ) : Type ℓ where
  reserve : R → WithinError R E
  out_of_bounds : WithinError R E
  clone : E → WithinError R E

pub data InsertError {ℓ} (R : Type ℓ) : Type ℓ where
  reserve : R → InsertError R
  out_of_bounds : InsertError R

-- `core::ops::Bound`
pub data Bound : Type 0 where
  included excluded : ℕ → Bound
  unbounded : Bound

abbrev pub usize_mod : ℕ
usize_mod = 2 ^ 64

-- `i.checked_add(1)` of a `usize`.
abbrev pub checked_next : ℕ → Option ℕ
checked_next i = if ltb (i + 1) usize_mod then some (i + 1) else none

-- The two matches of `try_extend_from_within` on the range's bounds.
unfoldable pub start_bound : Bound → Option ℕ
start_bound (included i) = some i
start_bound (excluded i) = checked_next i
start_bound unbounded = some 0

unfoldable pub end_bound : ℕ → Bound → Option ℕ
end_bound n (included i) = checked_next i
end_bound n (excluded i) = some i
end_bound n unbounded = some n

-- `upper.unwrap_or(lower)` of a `size_hint`.
abbrev pub hinted : ℕ × Option ℕ → ℕ
hinted (lower, none) = lower
hinted (lower, some upper) = upper

module _ {ℓ} {T : Type ℓ} where
  abbrev pub len : Vec T → ℕ
  len v = length v.items

  -- `Vec::try_reserve`
  unfoldable pub try_reserve : {R : Type ℓ} → Growth R → Vec T → ℕ → Result (Unit {ℓ}) R × Vec T
  try_reserve g v n =
      if leb (len v + n) v.capacity then (ok tt, v) else elim (g.grow v.capacity (len v) n) [
        | ok c ↦ (ok tt, record v { capacity = c })
        | err e ↦ (err e, v)
      ]

  -- `Vec::push`; `aborted` where the vector is full.
  unfoldable pub push : Vec T → T → Ended (Unit {ℓ}) × Vec T
  push v x =
      if ltb (len v) v.capacity
      then (returned tt, record v { items = v.items ++ x ∷ [] })
      else (aborted, v)

  unfoldable pub truncate : Vec T → ℕ → Vec T
  truncate v n = record v { items = take n v.items }

  -- The `TruncateGuard` around a loop: `forget` where it returned `Ok`, else `drop`.
  unfoldable pub guarded {κ} :
      {A : Type κ} {E : Type ℓ} → ℕ → Ended (Result A E) × Vec T → Ended (Result A E) × Vec T
  unfolding truncate
  guarded len_before (returned (ok a), v) = (returned (ok a), v)
  guarded len_before (returned (err e), v) = (returned (err e), truncate v len_before)
  guarded len_before (unwound, v) = (unwound, truncate v len_before)
  guarded len_before (aborted, v) = (aborted, v)

  -- A call after a call that has to return first.
  abbrev pub after {κ μ} :
      {A : Type κ} {B : Type μ} → Ended A × Vec T → (A → Vec T → Ended B × Vec T) → Ended B × Vec T
  after (returned a, v) f = f a v
  after (unwound, v) f = (unwound, v)
  after (aborted, v) f = (aborted, v)

  abbrev pub empty : Vec T
  empty = record { items = []; capacity = 0 }

  -- A vector that was built, without the vector where it is dropped.
  abbrev pub built {κ μ} :
      {A : Type κ} {E : Type μ} → Ended (Result A E) × Vec T → Ended (Result (Vec T) E)
  built (returned (ok _), v) = returned (ok v)
  built (returned (err e), v) = returned (err e)
  built (unwound, v) = unwound
  built (aborted, v) = aborted

  -- `map_err` on what a loop returned.
  abbrev pub map_error {κ μ} :
      {A : Type κ} {E E' : Type μ}
      → (E → E')
      → Ended (Result A E) × Vec T
      → Ended (Result A E') × Vec T
  map_error f (returned (ok a), v) = (returned (ok a), v)
  map_error f (returned (err e), v) = (returned (err (f e)), v)
  map_error f (unwound, v) = (unwound, v)
  map_error f (aborted, v) = (aborted, v)

  -- `map_err(f)?` on a reservation.
  abbrev pub propagate {κ μ} :
      {A : Type κ} {R : Type ℓ} {E : Type μ}
      → (R → E)
      → Result (Unit {ℓ}) R × Vec T
      → (Vec T → Ended (Result A E) × Vec T)
      → Ended (Result A E) × Vec T
  propagate f (ok _, v) k = k v
  propagate f (err e, v) k = (returned (err (f e)), v)

  -- The same in a function that owns the vector, which is dropped with the error.
  abbrev pub or_drop {κ μ} :
      {A : Type κ} {R : Type ℓ} {E : Type μ}
      → (R → E)
      → Result (Unit {ℓ}) R × Vec T
      → (Vec T → Ended (Result A E))
      → Ended (Result A E)
  or_drop f (ok _, v) k = k v
  or_drop f (err e, v) k = returned (err (f e))

  -- A call after a push, in such a function.
  abbrev pub pushed {κ} : {A : Type κ} → Ended (Unit {ℓ}) × Vec T → (Vec T → Ended A) → Ended A
  pushed (returned _, v) k = k v
  pushed (unwound, v) k = unwound
  pushed (aborted, v) k = aborted

  -- The vector after a reservation that `?` unwraps.
  abbrev pub or_refused : {R : Type ℓ} → Result (Unit {ℓ}) R × Vec T → Result (Vec T) R
  or_refused (ok _, v) = ok v
  or_refused (err e, v) = err e

  -- The capacity zero asks for nothing.
  unfoldable pub try_with_capacity : {R : Type ℓ} → Growth R → ℕ → Result (Vec T) R
  unfolding try_reserve
  try_with_capacity g zero = ok empty
  try_with_capacity g (suc n) = or_refused (try_reserve g empty (suc n))

  unfoldable pub try_push :
      {R : Type ℓ} → Growth R → Vec T → T → Ended (Result (Unit {ℓ}) R) × Vec T
  unfolding try_reserve push
  try_push g v x =
      propagate (λ e. e) (try_reserve g v 1)
        λ v'. after (push v' x) λ _ v''. (returned (ok tt), v'')

  unfoldable pub try_push_give_back :
      {R : Type ℓ} → Growth R → Vec T → T → Ended (Result (Unit {ℓ}) (T × R)) × Vec T
  unfolding try_reserve push
  try_push_give_back g v x =
      propagate (λ e. (x, e)) (try_reserve g v 1)
        λ v'. after (push v' x) λ _ v''. (returned (ok tt), v'')

  -- `Vec::insert` panics behind the end.
  unfoldable pub insert : Vec T → ℕ → T → Ended (Unit {ℓ}) × Vec T
  insert v index x =
      if ltb (len v) index
      then (unwound, v)
      else if ltb (len v) v.capacity
      then (returned tt, record v { items = take index v.items ++ (x ∷ drop index v.items) })
      else (aborted, v)

  unfoldable pub try_insert :
      {R : Type ℓ} → Growth R → Vec T → ℕ → T → Ended (Result (Unit {ℓ}) (InsertError R)) × Vec T
  unfolding try_reserve insert
  try_insert g v index x =
      if ltb (len v) index
      then (returned (err out_of_bounds), v)
      else (propagate reserve (try_reserve g v 1)
          λ v'. after (insert v' index x) λ _ v''. (returned (ok tt), v''))

  unfoldable pub try_insert_give_back :
      {R : Type ℓ}
      → Growth R
      → Vec T
      → ℕ
      → T
      → Ended (Result (Unit {ℓ}) (T × InsertError R)) × Vec T
  unfolding try_reserve insert
  try_insert_give_back g v index x =
      if ltb (len v) index
      then (returned (err (x, out_of_bounds)), v)
      else (propagate (λ e. (x, reserve e)) (try_reserve g v 1)
          λ v'. after (insert v' index x) λ _ v''. (returned (ok tt), v''))

  -- `Vec::append` after the reservation; the other vector is emptied.
  unfoldable pub append_reserved :
      {R : Type ℓ}
      → Result (Unit {ℓ}) R × Vec T
      → Vec T
      → Ended (Result (Unit {ℓ}) R) × Vec T × Vec T
  append_reserved (err e, v) other = (returned (err e), v, other)
  append_reserved (ok _, v) other =
      if leb (len v + len other) v.capacity
      then (
        returned (ok tt),
        record v { items = v.items ++ other.items },
        record other { items = [] },
      )
      else (aborted, v, other)

  unfoldable pub try_append :
      {R : Type ℓ} → Growth R → Vec T → Vec T → Ended (Result (Unit {ℓ}) R) × Vec T × Vec T
  unfolding try_reserve append_reserved
  try_append g v other =
      if len other == 0
      then (returned (ok tt), v, other)
      else append_reserved (try_reserve g v (len other)) other

  module _ {E : Type ℓ} (try_clone : ℕ → T → Cloned T E) where
    -- A loop that pushes a clone of each element; `i` is the number of the call of `try_clone`.
    unfoldable pub push_clones : ℕ → List T → Vec T → Ended (Result (Unit {ℓ}) E) × Vec T
    unfolding push
    push_clones i [] v = (returned (ok tt), v)
    push_clones i (x ∷ xs) v = elim (try_clone i x) [
      | cloned y ↦ after (push v y) λ _ v'. push_clones (i + 1) xs v'
      | failed e ↦ (returned (err e), v)
      | unwinds ↦ (unwound, v)
    ]

    -- The loop of `try_extend_from_within`, from index `i` of the vector that grows.
    unfoldable pub push_within : ℕ → ℕ → ℕ → Vec T → Ended (Result (Unit {ℓ}) E) × Vec T
    unfolding push
    push_within zero n i v = (returned (ok tt), v)
    push_within (suc rounds) n i v = elim (get_elem? v.items i) [
      | none ↦ (unwound, v)
      | some x ↦ elim (try_clone n x) [
        | cloned y ↦ after (push v y) λ _ v'. push_within rounds (n + 1) (i + 1) v'
        | failed e ↦ (returned (err e), v)
        | unwinds ↦ (unwound, v)
      ]
    ]

    unfoldable pub try_extend_from_slice_with_rollback :
        {R : Type ℓ}
        → Growth R
        → Vec T
        → List T
        → Ended (Result (Unit {ℓ}) (WithCloneError R E)) × Vec T
    unfolding try_reserve guarded push_clones
    try_extend_from_slice_with_rollback g v [] = (returned (ok tt), v)
    try_extend_from_slice_with_rollback g v (x ∷ xs) =
        propagate reserve (try_reserve g v (length (x ∷ xs)))
          λ v'. guarded (len v') (map_error clone (push_clones 0 (x ∷ xs) v'))

    unfoldable pub try_resize :
        {R : Type ℓ}
        → Growth R
        → Vec T
        → T
        → ℕ
        → Ended (Result (Unit {ℓ}) (WithCloneError R E)) × Vec T
    unfolding try_reserve truncate guarded push_clones
    try_resize g v value new_len =
        if leb new_len (len v)
        then (returned (ok tt), truncate v new_len)
        else (let extra = new_len - len v in
            propagate reserve (try_reserve g v extra)
              λ v'. guarded (len v') (map_error clone (push_clones 0 (replicate extra value) v')))

    -- The part of `try_extend_from_within` behind the bounds.
    unfoldable pub extend_range :
        {R : Type ℓ}
        → Growth R
        → Vec T
        → ℕ
        → ℕ
        → Ended (Result (Unit {ℓ}) (WithinError R E)) × Vec T
    unfolding try_reserve guarded push_within
    extend_range g v start end =
        if leb end start
        then (returned (ok tt), v)
        else if ltb (len v) end || ltb (len v) start
        then (returned (err out_of_bounds), v)
        else (propagate reserve (try_reserve g v (end - start))
            λ v'. guarded (len v') (map_error clone (push_within (end - start) 0 start v')))

    unfoldable pub try_extend_from_within :
        {R : Type ℓ}
        → Growth R
        → Vec T
        → Bound
        → Bound
        → Ended (Result (Unit {ℓ}) (WithinError R E)) × Vec T
    unfolding extend_range
    try_extend_from_within g v from to = elim (start_bound from) [
      | none ↦ (returned (err (reserve g.capacity_overflow)), v)
      | some start ↦ elim (end_bound (len v) to) [
        | none ↦ (returned (err (reserve g.capacity_overflow)), v)
        | some end ↦ extend_range g v start end
      ]
    ]

    -- `try_from_elem`, which drops the vector on its way out with an error.
    unfoldable pub try_from_elem :
        {R : Type ℓ} → Growth R → T → ℕ → Ended (Result (Vec T) (WithCloneError R E))
    unfolding try_reserve push_clones
    try_from_elem g value count =
        or_drop reserve (if ltb 0 count then try_reserve g empty count else (ok tt, empty))
          λ v. built (map_error clone (push_clones 0 (replicate count value) v))

    unfoldable pub try_from_slice :
        {R : Type ℓ} → Growth R → List T → Ended (Result (Vec T) (WithCloneError R E))
    unfolding try_reserve push_clones
    try_from_slice g slice =
        or_drop reserve (try_reserve g empty (length slice))
          λ v. built (map_error clone (push_clones 0 slice v))

    -- `TryClone for Vec`, whose errors are those of the elements.
    unfoldable pub try_clone_vec :
        {R : Type ℓ} → Growth R → (R → E) → Vec T → Ended (Result (Vec T) E)
    unfolding try_reserve push_clones
    try_clone_vec g reserve_error v =
        or_drop reserve_error (if len v == 0 then (ok tt, empty) else try_reserve g empty (len v))
          λ out. built (push_clones 0 v.items out)

  module _ (f : ℕ → Option T) where
    -- `f n` is what the closure returns at its call `n`; `none` where it panics.
    unfoldable pub push_made : ℕ → ℕ → Vec T → Ended (Unit {ℓ}) × Vec T
    unfolding push
    push_made zero n v = (returned tt, v)
    push_made (suc rounds) n v = elim (f n) [
      | none ↦ (unwound, v)
      | some y ↦ after (push v y) λ _ v'. push_made rounds (n + 1) v'
    ]

    unfoldable pub try_resize_with :
        {R : Type ℓ} → Growth R → Vec T → ℕ → Ended (Result (Unit {ℓ}) R) × Vec T
    unfolding try_reserve truncate guarded push_made
    try_resize_with g v new_len =
        if leb new_len (len v)
        then (returned (ok tt), truncate v new_len)
        else (let extra = new_len - len v in
            propagate (λ e. e) (try_reserve g v extra)
              λ v'.
                guarded (len v') (after (push_made extra 0 v') λ _ v''. (returned (ok tt), v'')))

  -- The loop of `try_collect` over an iterator's elements.
  unfoldable pub collect_loop : {R : Type ℓ} → Growth R → List T → Vec T → Ended (Result (Vec T) R)
  unfolding try_reserve push
  collect_loop g [] v = returned (ok v)
  collect_loop g (x ∷ xs) v =
      or_drop (λ e. e) (if len v == v.capacity then try_reserve g v 1 else (ok tt, v))
        λ v'. pushed (push v' x) λ v''. collect_loop g xs v''

  -- `size_hint` is the pair of bounds that the iterator claims.
  unfoldable pub try_collect :
      {R : Type ℓ} → Growth R → ℕ × Option ℕ → List T → Ended (Result (Vec T) R)
  unfolding try_reserve collect_loop
  try_collect g size_hint iter =
      let capacity = hinted size_hint in
      or_drop (λ e. e) (if ltb 0 capacity then try_reserve g empty capacity else (ok tt, empty))
        λ v. collect_loop g iter v

  unfoldable pub try_shrink_to : {R : Type ℓ} → Growth R → Vec T → ℕ → Result (Unit {ℓ}) R × Vec T
  try_shrink_to g v min_capacity =
      let target = max (len v) min_capacity in
      if leb v.capacity target
      then (ok tt, v)
      else if g.shrinks v.capacity target
      then (ok tt, record v { capacity = target })
      else (err g.new_alloc, v)
