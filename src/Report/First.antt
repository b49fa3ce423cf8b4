-- ===== src/Report/First.antt =====
-- The first peer of a report, and a push that evicts nothing.
use rustyfill.Prelude.{
  ◌==◌, Bool-cases, ok, err, Result-cases, ℕ, suc, ◌≤◌, ◌≡◌, refl, ap, ◌∙◌, ◌⊎◌, inl, inr, true,
  false, Option, none, some, [], ◌∷◌, arith,
}
use rustyfill.Vec.{Growth, MakesRoom}
use rustyfill.Deque.{size, pop_back, try_push_front_give_back, empty_deque}
use rustyfill.Deque.Ends.{first_placed, first_refused, push_front-cases}
use rustyfill.Report.Kept.{Valid, newest_all}
use rustyfill.Report.Push.{Capped, WithinCap, evict_capped-newest}
use rustyfill.Report.{
  peer_count, Ending, ended, panics, ◌then_run◌, usize_max, saturating_add, StaticFrame, Report,
  evict, evict_overflow, push_retried, push_attempted, push_evicted, push, gives_back, at_capacity,
  try_push,
}

module _ {C I : Type 0} where
  -- A report without peers, whose deque has no room.
  abbrev pub alone : StaticFrame C I → ℕ → Option ℕ → Report C I
  alone h n c = record { head = h; peers = empty_deque; lost_peers = n; capacity = c }

  pub push-alone :
      {R : Type 0} (fuel n : ℕ) (bound : Option ℕ) (now later : Growth R) (h f : StaticFrame C I)
      → Capped bound
      → n ≤ usize_max
      → 1 ≤ fuel
      → push fuel now later (alone h n bound) f
        ≡ push_attempted later (alone h n bound) (try_push_front_give_back now empty_deque f)
  unfolding push push_evicted evict_overflow
  push-alone fuel n bound now later h f c l b =
      let v : Valid (alone h n bound) = record {
        room = omega arith;
        count = omega arith;
        lost = l;
      } in
      let (k, q, _, _, _) = evict_capped-newest fuel (alone h n bound) v c b in
      ap (λ (o : Ending (Report C I)). o then_run push_evicted now later f)
        (q ∙ ap ended (newest_all k (alone h n bound) v (omega arith)))

  -- A push onto a report without peers, whose deque has no room yet and whose cap, if any, is at
  -- least two: the new peer is the only one where the first reservation is granted; where the
  -- second one is, a peer is counted as lost though there was none; where neither is, `push`
  -- panics. The allocator makes the room that it promises, the count of lost peers is a `usize`,
  -- and there is fuel.
  pub push_first :
      {R : Type 0} (fuel n : ℕ) (bound : Option ℕ) (now later : Growth R) (h f : StaticFrame C I)
      → MakesRoom now
      → MakesRoom later
      → Capped bound
      → n ≤ usize_max
      → 1 ≤ fuel
      → ((c : ℕ) × (now.grow 0 0 1 ≡ ok c)
          × (push fuel now later (alone h n bound) f
              ≡ ended
                  (record (alone h n bound) { peers = record { items = f ∷ []; capacity = c } })))
        ⊎ ((c : ℕ) × (e : R) × (now.grow 0 0 1 ≡ err e)
            × (later.grow 0 0 1 ≡ ok c)
            × (push fuel now later (alone h n bound) f
                ≡ ended (record (alone h (saturating_add n 1) bound) {
                  peers = record { items = f ∷ []; capacity = c };
                })))
        ⊎ ((e e' : R) × (now.grow 0 0 1 ≡ err e)
            × (later.grow 0 0 1 ≡ err e')
            × (push fuel now later (alone h n bound) f ≡ panics))
  unfolding push_attempted push_retried evict pop_back
  push_first fuel n bound now later h f room room' c l b =
      let start = push-alone fuel n bound now later h f c l b in
      let r = alone h n bound in
      let e' = alone h (saturating_add n 1) bound in
      elim (Result-cases (now.grow 0 0 1)) [
        | inl (k, q) ↦ inl (k, q, start ∙ ap (push_attempted later r) (first_placed now f k room q))
        | inr (x, q) ↦
            let go = start ∙ ap (push_attempted later r) (first_refused now f x q) in
            elim (Result-cases (later.grow 0 0 1)) [
              | inl (k, q') ↦
                  inr
                    (inl (k, x, q, q', go ∙ ap (push_retried e') (first_placed later f k room' q')))
              | inr (y, q') ↦
                  inr (inr (x, y, q, q', go ∙ ap (push_retried e') (first_refused later f y q')))
            ]
      ]

  -- The peers and the head are as many as the cap, or more.
  abbrev pub CapReached : Report C I → Type 0
  CapReached r = (limit : ℕ) × (r.capacity ≡ some limit) × (limit ≤ suc (size r.peers))

  room_left :
      (r : Report C I) (o : Option ℕ)
      → Valid r
      → suc (size r.peers) ≤ usize_max
      → r.capacity ≡ o
      → at_capacity (record r { capacity = o }) ≡ false
      → WithinCap o (suc (size r.peers))
  unfolding peer_count saturating_add
  room_left r none v l e q = tt
  room_left r (some limit) v l e q = ground (arith, q, l)

  cap_reached :
      (r : Report C I) (o : Option ℕ)
      → Valid r
      → suc (size r.peers) ≤ usize_max
      → r.capacity ≡ o
      → at_capacity (record r { capacity = o }) ≡ true
      → CapReached r
  unfolding peer_count saturating_add
  cap_reached r none v l e q = absurd (cc)
  cap_reached r (some limit) v l e q = (limit, e, ground (arith, q, l))

  -- `try_push` adds the new peer in front of all others and stays within the cap, or gives the
  -- report back as it was with the frame, where the head and the peers are as many as the cap or
  -- more, there is the largest number of peers or the full deque cannot grow: if the allocator
  -- makes the room that it promises and the report is valid.
  pub try_push-cases :
      {R : Type 0} (g : Growth R) (r : Report C I) (f : StaticFrame C I)
      → MakesRoom g
      → Valid r
      → ((c : ℕ) × (try_push g r f
            ≡ ended (ok (record r { peers = record { items = f ∷ r.peers.items; capacity = c } })))
          × (suc (size r.peers) ≤ c)
          × WithinCap r.capacity (suc (size r.peers))
          × (suc (size r.peers) ≤ usize_max))
        ⊎ ((try_push g r f ≡ ended (err (r, f)))
            × (CapReached r
                ⊎ (size r.peers ≡ usize_max)
                ⊎ ((e : R) × (g.grow r.peers.capacity (size r.peers) 1 ≡ err e))))
  unfolding try_push gives_back
  try_push-cases g r f room v = elim (Bool-cases (size r.peers == usize_max)) [
    | inl most ↦ inr (rw (try_push, most) refl, inr (inl (ground (arith, most))))
    | inr few ↦
        let l : suc (size r.peers) ≤ usize_max = ground (arith, few, v.count) in
        elim (Bool-cases (at_capacity r)) [
          | inl full ↦
              inr (rw (try_push, few, full) refl, inl (cap_reached r r.capacity v l refl full))
          | inr free ↦ elim (push_front-cases g room r.peers f v.room) [
            | inl (c, q, b) ↦ inl (
              c,
              rw (try_push, few, free, q, gives_back) refl,
              omega (arith, b),
              room_left r r.capacity v l refl free,
              l,
            )
            | inr (x, q, _, e) ↦
                inr (rw (try_push, few, free, q, gives_back) refl, inr (inr (x, e)))
          ]
        ]
  ]
