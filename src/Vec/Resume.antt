-- ===== src/Vec/Resume.antt =====
-- `rustyfill/src/recovery.rs` and `rustyfill/src/alloc/vec/try_extend.rs`: extending a vector from an
-- iterator, with what is left over where the allocator refuses. An iterator is the items that it
-- still yields, and `lower` is the least number of them that its `size_hint` claims.
use rustyfill.Prelude.{
  ltb, ◌==◌, if◌then◌else◌, Bool-cases, length-append, Result, ok, err, ℕ, ◌<◌, ◌≡◌, refl, sym, ap,
  ◌∙◌, ◌≢◌, ◌⊎◌, inl, inr, Option, none, some, List, [], ◌∷◌, ◌++◌, arith,
}
use rustyfill.Vec.{
  Vec, Ended, returned, unwound, aborted, Growth, MakesRoom, len, try_reserve, push, after,
  propagate,
}
use rustyfill.Vec.Fill.{
  IsValid, with_items, append_assoc, append_nil, push_room, returned_apart, unwound_returned,
}
use rustyfill.Vec.Rolled.{reserve_cases}

module _ {ℓ} (T : Type ℓ) where
  pub record Resumable : Type ℓ where
    pub head : Option T
    pub remainder : List T

abbrev pub Extended {ℓ} : Type ℓ → Type ℓ → Type ℓ
Extended T R = Ended (Result (Unit {ℓ}) (Resumable T × R)) × Vec T

module _ {ℓ} {T : Type ℓ} where
  -- `Resumable::new`, and the plain iterator and `Resumable::from_remainder`.
  abbrev pub stranded : T → List T → Resumable T
  stranded x iter = record { head = some x; remainder = iter }

  abbrev pub from_remainder : List T → Resumable T
  from_remainder iter = record { head = none; remainder = iter }

  unfoldable pub safe_into_iter : Resumable T → Option T × List T
  safe_into_iter s = (s.head, s.remainder)

  -- The items that a source still holds.
  abbrev pub pending_parts : Option T → List T → List T
  pending_parts none iter = iter
  pending_parts (some x) iter = x ∷ iter

  abbrev pub pending : Resumable T → List T
  pending s = pending_parts s.head s.remainder

  module _ {R : Type ℓ} (g : Growth R) where
    unfoldable pub reserve_if_full : Vec T → Result (Unit {ℓ}) R × Vec T
    unfolding try_reserve
    reserve_if_full v = if len v == v.capacity then try_reserve g v 1 else (ok tt, v)

    -- One item that the iterator gave, and what follows.
    unfoldable pub push_item : T → List T → Vec T → (Vec T → Extended T R) → Extended T R
    unfolding reserve_if_full push
    push_item x iter v next =
        propagate (λ e. (stranded x iter, e)) (reserve_if_full v)
          λ v'. after (push v' x) λ _ v''. next v''

    unfoldable pub extend_loop : List T → Vec T → Extended T R
    unfolding push_item
    extend_loop [] v = (returned (ok tt), v)
    extend_loop (x ∷ iter) v = push_item x iter v (extend_loop iter)

    module _ (lower : List T → ℕ) where
      unfoldable pub extend_remainder : List T → Vec T → Extended T R
      unfolding try_reserve extend_loop
      extend_remainder iter v =
          propagate (λ e. (from_remainder iter, e))
            (if ltb 0 (lower iter) then try_reserve g v (lower iter) else (ok tt, v))
            (extend_loop iter)

      unfoldable pub extend_parts : Option T × List T → Vec T → Extended T R
      unfolding push_item extend_remainder
      extend_parts (none, iter) v = extend_remainder iter v
      extend_parts (some x, iter) v = push_item x iter v (extend_remainder iter)

      unfoldable pub try_extend : Vec T → Resumable T → Extended T R
      unfolding safe_into_iter extend_parts
      try_extend v source = extend_parts (safe_into_iter source) v

  module _ {R : Type ℓ} (g : Growth R) (room : MakesRoom g) where
    -- No item is lost or moved: the vector and what is left over have all of them in order.
    pub record Conserved (total : List T) (r : Extended T R) : Type ℓ where
      pub fits : IsValid r.1
      pub no_abort : r.0 ≢ aborted
      pub no_unwind : r.0 ≢ unwound
      pub all : r.0 ≡ returned (ok tt) → r.1.items ≡ total
      pub rest :
          (s : Resumable T) (e : R) → r.0 ≡ returned (err (s, e)) → r.1.items ++ pending s ≡ total

    refused-Conserved :
        (total : List T) (s : Resumable T) (e : R) (v : Vec T)
        → IsValid v
        → v.items ++ pending s ≡ total
        → Conserved total (returned (err (s, e)), v)
    refused-Conserved total s e v h p = record {
      fits = h;
      no_abort = returned_apart (err (s, e));
      no_unwind = λ q. unwound_returned (err (s, e)) (sym q);
      all = λ q. absurd (cc);
      rest = λ s' e' q. let w : s' ≡ s = cc in rw (w) p;
    }

    done-Conserved : (v : Vec T) → IsValid v → Conserved v.items (returned (ok tt), v)
    done-Conserved v h = record {
      fits = h;
      no_abort = returned_apart (ok tt);
      no_unwind = λ q. unwound_returned (ok tt) (sym q);
      all = λ q. refl;
      rest = λ s e q. absurd (cc);
    }

    -- The vector has room for one more, or the reservation is refused.
    full-cases :
        (v : Vec T)
        → IsValid v
        → ((c : ℕ) × (reserve_if_full g v ≡ (ok tt, record v { capacity = c })) × (len v < c))
          ⊎ ((e : R) × (reserve_if_full g v ≡ (err e, v)))
    unfolding reserve_if_full
    full-cases v h = elim (Bool-cases (len v == v.capacity)) [
      | inr more ↦ inl (v.capacity, rw (reserve_if_full, more) refl, ground (arith, h, more))
      | inl no_more ↦ elim (reserve_cases g v 1 room) [
        | inl (c, q, big) ↦ inl (c, rw (reserve_if_full, no_more) q, omega (arith, big))
        | inr (e, q) ↦ inr (e, rw (reserve_if_full, no_more) q)
      ]
    ]

    push_item-Conserved :
        (total : List T) (x : T) (iter : List T) (v : Vec T) (next : Vec T → Extended T R)
        → IsValid v
        → v.items ++ (x ∷ iter) ≡ total
        → ((w : Vec T) → IsValid w → w.items ≡ v.items ++ (x ∷ []) → Conserved total (next w))
        → Conserved total (push_item g x iter v next)
    unfolding push_item
    push_item-Conserved total x iter v next h p k = elim (full-cases v h) [
      | inl (c, q, big) ↦
          let v' : Vec T = record v { capacity = c } in
          rw (q, push_room v' x big)
            (k (with_items v' (x ∷ [])) (omega (arith, length-append v.items (x ∷ []), big)) refl)
      | inr (e, q) ↦ rw (q) (refused-Conserved total (stranded x iter) e v h p)
    ]

    extend_loop-Conserved :
        (iter : List T) (v : Vec T) → IsValid v → Conserved (v.items ++ iter) (extend_loop g iter v)
    unfolding extend_loop
    extend_loop-Conserved [] v h = rw (append_nil v.items) (done-Conserved v h)
    extend_loop-Conserved (x ∷ iter) v h =
        push_item-Conserved (v.items ++ (x ∷ iter)) x iter v (extend_loop g iter) h refl λ w h' e.
          let t = extend_loop-Conserved iter w h' in
          rw (ap (λ xs. xs ++ iter) e ∙ append_assoc v.items (x ∷ []) iter) at t

    module _ (lower : List T → ℕ) where
      extend_remainder-Conserved :
          (iter : List T) (v : Vec T)
          → IsValid v
          → Conserved (v.items ++ iter) (extend_remainder g lower iter v)
      unfolding extend_remainder
      extend_remainder-Conserved iter v h = elim (Bool-cases (ltb 0 (lower iter))) [
        | inr no_hint ↦ rw (extend_remainder, no_hint) (extend_loop-Conserved iter v h)
        | inl hint ↦ elim (reserve_cases g v (lower iter) room) [
          | inl (c, q, big) ↦
              rw (extend_remainder, hint, q)
                (extend_loop-Conserved iter (record v { capacity = c }) (omega (arith, big)))
          | inr (e, q) ↦
              rw (extend_remainder, hint, q)
                (refused-Conserved (v.items ++ iter) (from_remainder iter) e v h refl)
        ]
      ]

      extend_parts-Conserved :
          (head : Option T) (iter : List T) (v : Vec T)
          → IsValid v
          → Conserved (v.items ++ pending_parts head iter) (extend_parts g lower (head, iter) v)
      unfolding extend_parts
      extend_parts-Conserved none iter v h = extend_remainder-Conserved iter v h
      extend_parts-Conserved (some x) iter v h =
          push_item-Conserved (v.items ++ (x ∷ iter)) x iter v (extend_remainder g lower iter) h
            refl
            λ w h' e.
              let t = extend_remainder-Conserved iter w h' in
              rw (ap (λ xs. xs ++ iter) e ∙ append_assoc v.items (x ∷ []) iter) at t

      -- Whatever `size_hint` claims and whichever reservations are refused, `try_extend` loses and
      -- moves no item of a valid vector and a source: it pushes all of the source's items, or
      -- returns an error with what is left over, which goes on where the vector ends. It never
      -- panics, and never pushes onto a full vector.
      pub try_extend-Conserved :
          (v : Vec T) (source : Resumable T)
          → IsValid v
          → Conserved (v.items ++ pending source) (try_extend g lower v source)
      unfolding try_extend safe_into_iter
      try_extend-Conserved v source h = extend_parts-Conserved source.head source.remainder v h

  -- A call that was refused and another with what was left over, on the vector that the first one
  -- left, conserve all items of the vector and the source, as one call does.
  pub try_extend-resumed :
      {R : Type ℓ} (g g' : Growth R) (lower lower' : List T → ℕ) (v w : Vec T)
      (source rest : Resumable T) (e : R)
      → MakesRoom g
      → (room' : MakesRoom g') → IsValid v
      → try_extend g lower v source ≡ (returned (err (rest, e)), w)
      → Conserved g' room' (v.items ++ pending source) (try_extend g' lower' w rest)
  try_extend-resumed g g' lower lower' v w source rest e room room' h run =
      let all = try_extend-Conserved g room lower v source h in
      let first = rw (run) at all in
      let second = try_extend-Conserved g' room' lower' w rest first.fits in
      rw (first.rest rest e refl) at second
