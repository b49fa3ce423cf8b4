-- ===== src/Vec/Extend.antt =====
-- The operations that push clones under a `TruncateGuard`.
use rustyfill.Prelude.{
  leb, Bool-cases, length, take, drop, replicate, length-replicate, Result, ok, err, ℕ, ◌-◌, ◌≤◌,
  ◌<◌, ◌≡◌, refl, sym, ◌⊎◌, inl, inr, false, some, List, [], ◌∷◌, arith,
}
use rustyfill.Vec.{
  Vec, Ended, returned, Cloned, Growth, MakesRoom, WithCloneError, WithinError, reserve, clone,
  out_of_bounds, usize_mod, Bound, len, try_reserve, truncate, guarded, map_error, push_clones,
  try_extend_from_slice_with_rollback, try_resize,
}
use rustyfill.Vec.Fill.{IsValid, append_nil, returned_apart}
use rustyfill.Vec.Bounds.{IsStart, IsEnd}
use rustyfill.Vec.Clones.{clone_all, push_clones-Filled}
use rustyfill.Vec.Rolled.{reserve_cases, guarded-Rolled, Rolled-capacity, AllOrNothing}

module _ {ℓ} {T : Type ℓ} where
  module _ {R E : Type ℓ} (g : Growth R) (room : MakesRoom g) (try_clone : ℕ → T → Cloned T E) where
    extend_refused :
        (v : Vec T) (x : T) (xs : List T) (e : R)
        → try_reserve g v (length (x ∷ xs)) ≡ (err e, v)
        → try_extend_from_slice_with_rollback try_clone g v (x ∷ xs)
          ≡ (returned (err (reserve e)), v)
    unfolding try_extend_from_slice_with_rollback
    extend_refused v x xs e q = rw (try_extend_from_slice_with_rollback, q) refl

    extend_reserved :
        (v v' : Vec T) (x : T) (xs : List T)
        → try_reserve g v (length (x ∷ xs)) ≡ (ok tt, v')
        → try_extend_from_slice_with_rollback try_clone g v (x ∷ xs)
          ≡ guarded (len v') (map_error clone (push_clones try_clone 0 (x ∷ xs) v'))
    unfolding try_extend_from_slice_with_rollback
    extend_reserved v v' x xs q = rw (try_extend_from_slice_with_rollback, q) refl

    -- `try_extend_from_slice_with_rollback` pushes a clone of every element or leaves the items as
    -- they were, also where a clone fails or panics. It never grows a full vector on the way. It
    -- succeeds if the reservation does and every call of `try_clone` gives a clone.
    pub extend-AllOrNothing :
        (v : Vec T) (other : List T)
        → IsValid v
        → AllOrNothing g
            (length other)
            reserve
            (λ ys. clone_all try_clone 0 other ≡ some ys)
            v
            (try_extend_from_slice_with_rollback try_clone g v other)
    unfolding try_extend_from_slice_with_rollback clone_all
    extend-AllOrNothing v [] h = inr (record {
      fits = h;
      no_abort = returned_apart (ok tt);
      all = λ _. ([], refl, sym (append_nil v.items));
      nothing = λ e. absurd (e refl);
      succeeds = λ _ _. refl;
    })
    extend-AllOrNothing v (x ∷ xs) h = elim (reserve_cases g v (length (x ∷ xs)) room) [
      | inr (e, q) ↦ inl (e, q, extend_refused v x xs e q)
      | inl (c, q, big) ↦
          let v' : Vec T = record v { capacity = c } in
          let (o, w) = push_clones try_clone 0 (x ∷ xs) v' in
          inr (
            rw (extend_reserved v v' x xs q) (
              Rolled-capacity (λ ys. clone_all try_clone 0 (x ∷ xs) ≡ some ys) v c
                (guarded (len v') (map_error clone (push_clones try_clone 0 (x ∷ xs) v')))
                (guarded-Rolled (λ ys. clone_all try_clone 0 (x ∷ xs) ≡ some ys) v' w clone o
                  (omega arith) (push_clones-Filled try_clone 0 (x ∷ xs) v' big))))
    ]

    -- What `try_resize` promises, to a length and with a value.
    abbrev pub ResizeSpec :
        Vec T → T → ℕ → Ended (Result (Unit {ℓ}) (WithCloneError R E)) × Vec T → Type ℓ
    ResizeSpec v value new_len r =
        ((new_len ≤ len v) × (r ≡ (returned (ok tt), truncate v new_len)))
        ⊎ ((len v < new_len)
            × AllOrNothing g (new_len - len v) reserve
                (λ ys. clone_all try_clone 0 (replicate (new_len - len v) value) ≡ some ys) v r)

    resize_refused :
        (v : Vec T) (value : T) (new_len : ℕ) (e : R)
        → leb new_len (len v) ≡ false
        → try_reserve g v (new_len - len v) ≡ (err e, v)
        → try_resize try_clone g v value new_len ≡ (returned (err (reserve e)), v)
    unfolding try_resize
    resize_refused v value new_len e more q = rw (try_resize, more, q) refl

    resize_reserved :
        (v v' : Vec T) (value : T) (new_len : ℕ)
        → leb new_len (len v) ≡ false
        → try_reserve g v (new_len - len v) ≡ (ok tt, v')
        → try_resize try_clone g v value new_len
          ≡ guarded
              (len v')
              (map_error clone (push_clones try_clone 0 (replicate (new_len - len v) value) v'))
    unfolding try_resize
    resize_reserved v v' value new_len more q = rw (try_resize, more, q) refl

    -- `try_resize` truncates to a smaller length; to a greater one it pushes clones of the value up
    -- to that length, or leaves the items as they were.
    pub resize-ResizeSpec :
        (v : Vec T) (value : T) (new_len : ℕ)
        → IsValid v
        → ResizeSpec v value new_len (try_resize try_clone g v value new_len)
    unfolding try_resize
    resize-ResizeSpec v value new_len h = elim (Bool-cases (leb new_len (len v))) [
      | inl less ↦ inl (ground (arith, less), rw (try_resize, less) refl)
      | inr more ↦ elim (reserve_cases g v (new_len - len v) room) [
        | inr (e, q) ↦
            inr (ground (arith, more), inl (e, q, resize_refused v value new_len e more q))
        | inl (c, q, big) ↦
            let v' : Vec T = record v { capacity = c } in
            let xs = replicate (new_len - len v) value in
            let (o, w) = push_clones try_clone 0 xs v' in
            inr (
              ground (arith, more),
              inr (
                  rw (resize_reserved v v' value new_len more q) (
                    Rolled-capacity (λ ys. clone_all try_clone 0 xs ≡ some ys) v c
                      (guarded (len v') (map_error clone (push_clones try_clone 0 xs v')))
                      (guarded-Rolled (λ ys. clone_all try_clone 0 xs ≡ some ys) v' w clone o
                        (omega arith)
                        (push_clones-Filled try_clone 0 xs v'
                          (omega (arith, length-replicate (new_len - len v) value)))))),
            )
      ]
    ]

    -- What `try_extend_from_within` promises of the range from `start` to before `end`.
    abbrev pub RangeSpec :
        Vec T → ℕ → ℕ → Ended (Result (Unit {ℓ}) (WithinError R E)) × Vec T → Type ℓ
    RangeSpec v start end r =
        ((end ≤ start) × (r ≡ (returned (ok tt), v)))
        ⊎ (((start < end) × (len v < end) × (r ≡ (returned (err out_of_bounds), v)))
            ⊎ ((start < end)
                × (end ≤ len v)
                × AllOrNothing g (end - start) reserve
                    (λ ys.
                      clone_all try_clone 0 (take (end - start) (drop start v.items)) ≡ some ys)
                    v r))

    -- Of the range, the bounds apart: the first index, the first one behind it, the overflow where
    -- either is no `usize`.
    abbrev pub BoundsSpec :
        Vec T → Bound → Bound → Ended (Result (Unit {ℓ}) (WithinError R E)) × Vec T → Type ℓ
    BoundsSpec v from to r =
        (start end : ℕ) × IsStart from start
        × IsEnd (len v) to end
        × ((((usize_mod ≤ start) ⊎ (usize_mod ≤ end))
              × (r ≡ (returned (err (reserve g.capacity_overflow)), v)))
            ⊎ ((start < usize_mod) × (end < usize_mod) × RangeSpec v start end r))
