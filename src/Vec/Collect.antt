-- ===== src/Vec/Collect.antt =====
-- Vectors that are built from slices, values, closures and iterators.
use rustyfill.Prelude.{
  ltb, leb, ◌==◌, if◌then◌else◌, Bool-cases, length, replicate, length-append, length-replicate,
  Result, ok, err, ℕ, ◌-◌, ◌≤◌, ◌<◌, ◌≡◌, refl, sym, ap, ◌∙◌, ◌≢◌, ◌⊎◌, inl, inr, false, Option,
  some, List, [], ◌∷◌, ◌++◌, arith,
}
use rustyfill.Vec.{
  Vec, Ended, returned, unwound, aborted, Cloned, Growth, MakesRoom, reserve, clone, len, hinted,
  empty, built, try_reserve, truncate, guarded, after, map_error, push_clones, push_made,
  try_from_elem, try_from_slice, try_resize_with, collect_loop, try_collect,
}
use rustyfill.Vec.Fill.{
  IsValid, append_nil, append_assoc, with_items, push_room, Filled, returned_apart, unwound_apart,
  err_apart, unwound_returned,
}
use rustyfill.Vec.Clones.{clone_all, push_clones-Filled}
use rustyfill.Vec.Made.{make_all, push_made-Filled}
use rustyfill.Vec.Rolled.{
  reserve_cases, Rolled, Rolled-capacity, truncated-Rolled, Filled-Rolled, AllOrNothing,
}

module _ {ℓ} {T R : Type ℓ} (g : Growth R) (room : MakesRoom g) where
  -- What `try_resize_with` promises.
  abbrev pub ResizeWithSpec :
      (ℕ → Option T) → Vec T → ℕ → Ended (Result (Unit {ℓ}) R) × Vec T → Type ℓ
  ResizeWithSpec f v new_len r =
      ((new_len ≤ len v) × (r ≡ (returned (ok tt), truncate v new_len)))
      ⊎ ((len v < new_len)
          × AllOrNothing g (new_len - len v) (λ e. e)
              (λ ys. make_all f (new_len - len v) 0 ≡ some ys) v r)

  -- The guarded loop of `try_resize_with`.
  abbrev made : (ℕ → Option T) → ℕ → Vec T → Ended (Result (Unit {ℓ}) R) × Vec T
  made f extra v = guarded (len v) (after (push_made f extra 0 v) λ _ w. (returned (ok tt), w))

  made-Rolled :
      (Complete : List T → Type ℓ) (v w : Vec T) (o : Ended (Unit {ℓ}))
      → IsValid v
      → Filled Complete (returned tt) v (o, w)
      → Rolled Complete v (guarded {E = R} (len v) (after (o, w) λ _ u. (returned (ok tt), u)))
  unfolding guarded
  made-Rolled Complete v w (returned tt) h t = Filled-Rolled Complete v w (returned tt) t
  made-Rolled Complete v w unwound h t =
      truncated-Rolled Complete v w unwound unwound (returned tt) h unwound_apart
        (unwound_returned (ok tt)) (unwound_returned tt) t
  made-Rolled Complete v w aborted h t = absurd (t.no_abort refl)

  resize_with_refused :
      (f : ℕ → Option T) (v : Vec T) (new_len : ℕ) (e : R)
      → leb new_len (len v) ≡ false
      → try_reserve g v (new_len - len v) ≡ (err e, v)
      → try_resize_with f g v new_len ≡ (returned (err e), v)
  unfolding try_resize_with
  resize_with_refused f v new_len e more q = rw (try_resize_with, more, q) refl

  resize_with_reserved :
      (f : ℕ → Option T) (v v' : Vec T) (new_len : ℕ)
      → leb new_len (len v) ≡ false
      → try_reserve g v (new_len - len v) ≡ (ok tt, v')
      → try_resize_with f g v new_len ≡ made f (new_len - len v) v'
  unfolding try_resize_with
  resize_with_reserved f v v' new_len more q = rw (try_resize_with, more, q) refl

  -- `try_resize_with` truncates to a smaller length; to a greater one it pushes what the closure
  -- makes up to that length, or leaves the items as they were, also where the closure panics.
  pub resize_with-ResizeWithSpec :
      (f : ℕ → Option T) (v : Vec T) (new_len : ℕ)
      → IsValid v
      → ResizeWithSpec f v new_len (try_resize_with f g v new_len)
  unfolding try_resize_with
  resize_with-ResizeWithSpec f v new_len h = elim (Bool-cases (leb new_len (len v))) [
    | inl less ↦ inl (ground (arith, less), rw (try_resize_with, less) refl)
    | inr more ↦ elim (reserve_cases g v (new_len - len v) room) [
      | inr (e, q) ↦
          inr (ground (arith, more), inl (e, q, resize_with_refused f v new_len e more q))
      | inl (c, q, big) ↦
          let v' : Vec T = record v { capacity = c } in
          let extra = new_len - len v in
          let (o, w) = push_made f extra 0 v' in
          inr (
            ground (arith, more),
            inr (
                rw (resize_with_reserved f v v' new_len more q) (
                  Rolled-capacity (λ ys. make_all f extra 0 ≡ some ys) v c (made f extra v')
                    (made-Rolled (λ ys. make_all f extra 0 ≡ some ys) v' w o (omega arith)
                      (push_made-Filled f extra 0 v' big)))),
          )
    ]
  ]

  -- What collecting promises: never an abort, and every element where it returns a vector.
  pub record Collected (xs : List T) (r : Ended (Result (Vec T) R)) : Type ℓ where
    pub no_abort : r ≢ aborted
    pub no_unwind : r ≢ unwound
    pub all : (w : Vec T) → r ≡ returned (ok w) → (w.items ≡ xs) × IsValid w

  refused-Collected : (xs : List T) (e : R) → Collected xs (returned (err e))
  refused-Collected xs e = record {
    no_abort = returned_apart (err e);
    no_unwind = λ q. unwound_returned (err e) (sym q);
    all = λ w q. absurd (err_apart e w q);
  }

  -- The reservation that the loop makes where the vector is full.
  abbrev topped : Vec T → Result (Unit {ℓ}) R × Vec T
  topped v = if len v == v.capacity then try_reserve g v 1 else (ok tt, v)

  topped_cases :
      (v : Vec T)
      → IsValid v
      → ((c : ℕ) × (topped v ≡ (ok tt, record v { capacity = c })) × (len v < c))
        ⊎ ((e : R) × (topped v ≡ (err e, v)))
  topped_cases v h = elim (Bool-cases (len v == v.capacity)) [
    | inr spare ↦ inl (v.capacity, rw spare refl, ground (arith, spare))
    | inl full ↦ elim (reserve_cases g v 1 room) [
      | inr (e, q) ↦ inr (e, rw full q)
      | inl (c, q, big) ↦ inl (c, rw full q, omega arith)
    ]
  ]

  collect_full :
      (x : T) (xs : List T) (v : Vec T) (e : R)
      → topped v ≡ (err e, v)
      → collect_loop g (x ∷ xs) v ≡ returned (err e)
  unfolding collect_loop
  collect_full x xs v e q = rw (collect_loop, q) refl

  collect_room :
      (x : T) (xs : List T) (v : Vec T) (c : ℕ)
      → topped v ≡ (ok tt, record v { capacity = c })
      → len v < c
      → collect_loop g (x ∷ xs) v
        ≡ collect_loop g xs (with_items (record v { capacity = c }) (x ∷ []))
  unfolding collect_loop
  collect_room x xs v c q big =
      rw (collect_loop, q, push_room (record v { capacity = c }) x big) refl

  pub done-Collected : (v : Vec T) → IsValid v → Collected v.items (returned (ok v))
  done-Collected v h = record {
    no_abort = returned_apart (ok v);
    no_unwind = λ q. unwound_returned (ok v) (sym q);
    all = λ w q. let e : v ≡ w = cc in (ap (λ u. u.items) (sym e), rw e at h);
  }

  collect_loop-Collected :
      (xs : List T) (v : Vec T) → IsValid v → Collected (v.items ++ xs) (collect_loop g xs v)
  unfolding collect_loop
  collect_loop-Collected [] v h = rw (append_nil v.items) (done-Collected v h)
  collect_loop-Collected (x ∷ xs) v h = elim (topped_cases v h) [
    | inr (e, q) ↦ rw (collect_full x xs v e q) (refused-Collected (v.items ++ x ∷ xs) e)
    | inl (c, q, big) ↦
        rw (collect_room x xs v c q big, ← append_assoc v.items (x ∷ []) xs)
          (collect_loop-Collected xs (with_items (record v { capacity = c }) (x ∷ []))
            (omega (arith, length-append v.items (x ∷ []))))
  ]

  -- `try_collect` never panics and never grows a full vector, whatever the iterator's size hint
  -- claims. The vector that it returns has exactly the iterator's elements.
  pub try_collect-Collected :
      (size_hint : ℕ × Option ℕ) (iter : List T) → Collected iter (try_collect g size_hint iter)
  unfolding try_collect
  try_collect-Collected size_hint iter = elim (Bool-cases (ltb 0 (hinted size_hint))) [
    | inr zero_hint ↦ rw (try_collect, zero_hint) (collect_loop-Collected iter empty (omega arith))
    | inl some_hint ↦ elim (reserve_cases g (empty {T = T}) (hinted size_hint) room) [
      | inr (e, q) ↦ rw (try_collect, some_hint, q) (refused-Collected iter e)
      | inl (c, q, big) ↦
          rw (try_collect, some_hint, q)
            (collect_loop-Collected iter (record { items = []; capacity = c }) (omega arith))
    ]
  ]

  -- A vector that was built of clones: never an abort, the clones where it returns a vector, and a
  -- vector if every call of `try_clone` gives a clone.
  pub record Built {E : Type ℓ} (Complete : List T → Type ℓ) (r : Ended (Result (Vec T) E))
      : Type ℓ where
    pub no_abort : r ≢ aborted
    pub all : (w : Vec T) → r ≡ returned (ok w) → Complete w.items × IsValid w
    pub succeeds : (ys : List T) → Complete ys → (w : Vec T) × (r ≡ returned (ok w))

  built-Built :
      {E E' : Type ℓ} (Complete : List T → Type ℓ) (c : ℕ) (w : Vec T) (f : E → E')
      (o : Ended (Result (Unit {ℓ}) E))
      → Filled Complete (returned (ok tt)) (record { items = []; capacity = c }) (o, w)
      → Built Complete (built (map_error f (o, w)))
  built-Built Complete c w f (returned (ok tt)) t = record {
    no_abort = returned_apart (ok w);
    all = λ u q.
        let e : w ≡ u = cc in
        let items = ap (λ x. x.items) (sym e) ∙ ap (λ x. x.items) t.left in
        (rw items (t.complete refl), rw e at t.fits);
    succeeds = λ ys c'. (w, refl);
  }
  built-Built Complete c w f (returned (err x)) t = record {
    no_abort = returned_apart (err (f x));
    all = λ u q. absurd (err_apart (f x) u q);
    succeeds = λ ys c'. absurd (err_apart x tt (t.succeeds ys c'));
  }
  built-Built Complete c w f unwound t = record {
    no_abort = unwound_apart;
    all = λ u q. absurd (unwound_returned (ok u) q);
    succeeds = λ ys c'. absurd (unwound_returned (ok tt) (t.succeeds ys c'));
  }
  built-Built Complete c w f aborted t = absurd (t.no_abort refl)

  -- A refused reservation, or a vector of clones.
  abbrev pub BuiltOrRefused :
      {E : Type ℓ} → ℕ → (R → E) → (List T → Type ℓ) → Ended (Result (Vec T) E) → Type ℓ
  BuiltOrRefused n f Complete r =
      ((e : R) × (try_reserve g (empty {T = T}) n ≡ (err e, empty)) × (r ≡ returned (err (f e))))
      ⊎ Built Complete r

  module _ {E : Type ℓ} (try_clone : ℕ → T → Cloned T E) where
    cloned-Built :
        {E' : Type ℓ} (xs : List T) (c : ℕ) (f : E → E')
        → length xs ≤ c
        → Built
            (λ ys. clone_all try_clone 0 xs ≡ some ys)
            (built (map_error f (push_clones try_clone 0 xs (record { items = []; capacity = c }))))
    cloned-Built xs c f big =
        let (o, w) = push_clones try_clone 0 xs (record { items = []; capacity = c }) in
        built-Built (λ ys. clone_all try_clone 0 xs ≡ some ys) c w f o
          (push_clones-Filled try_clone 0 xs (record { items = []; capacity = c }) (omega arith))

    -- `try_from_slice` returns the clones of the slice's elements, or the error of the reservation
    -- or of a clone. It never grows a full vector, and succeeds if the reservation does and every
    -- call of `try_clone` gives a clone.
    pub from_slice-BuiltOrRefused :
        (slice : List T)
        → BuiltOrRefused
            (length slice)
            reserve
            (λ ys. clone_all try_clone 0 slice ≡ some ys)
            (try_from_slice try_clone g slice)
    unfolding try_from_slice
    from_slice-BuiltOrRefused slice = elim (reserve_cases g (empty {T = T}) (length slice) room) [
      | inr (e, q) ↦ inl (e, q, rw (try_from_slice, q) refl)
      | inl (c, q, big) ↦ inr (rw (try_from_slice, q) (cloned-Built slice c clone (omega arith)))
    ]

    -- `try_from_elem` returns as many clones of the value as asked for, or an error, in the same way.
    pub from_elem-BuiltOrRefused :
        (value : T) (count : ℕ)
        → BuiltOrRefused count reserve
            (λ ys. clone_all try_clone 0 (replicate count value) ≡ some ys)
            (try_from_elem try_clone g value count)
    unfolding try_from_elem
    from_elem-BuiltOrRefused value count = elim (Bool-cases (ltb 0 count)) [
      | inr nothing ↦ inr (
          rw (try_from_elem, nothing)
            (cloned-Built (replicate count value) 0 clone
              (ground (arith, nothing, length-replicate count value))))
      | inl some_count ↦ elim (reserve_cases g (empty {T = T}) count room) [
        | inr (e, q) ↦ inl (e, q, rw (try_from_elem, some_count, q) refl)
        | inl (c, q, big) ↦ inr (
            rw (try_from_elem, some_count, q)
              (cloned-Built (replicate count value) c clone
                (omega (arith, length-replicate count value))))
      ]
    ]
