-- ===== src/Report/Push.antt =====
-- Which peers a push keeps and which it evicts.
use rustyfill.Prelude.{
  leb, ◌==◌, Bool-cases, Option-cases, length, take, ℕ, zero, suc, ◌+◌, ◌-◌, ◌≤◌, ◌≡◌, refl, sym,
  ap, ◌∙◌, ◌≢◌, ◌⊎◌, inl, inr, true, Option, none, some, ◌∷◌, arith,
}
use mathlib.Core.Path.{subst}
use rustyfill.Vec.{Growth, MakesRoom}
use rustyfill.Deque.{size, try_push_front_give_back}
use rustyfill.Deque.Ends.{push_front-cases, push_front_room}
use rustyfill.Report.Kept.{
  length-take_le, saturating_add-le, Valid, newest, newest_all, newest-Valid, peer_count-pos,
  evict-next, evict_down-newest,
}
use rustyfill.Report.{
  Ending, ended, runs_on, ◌then_run◌, usize_max, saturating_add, StaticFrame, Report, peer_count,
  evict, evict_down, evict_capped, evict_overflow, push_retried, push_attempted, push_evicted, push,
}

-- A cap, if any, leaves room for a peer, and it is a `usize`.
abbrev pub Capped : Option ℕ → Type 0
Capped none = Unit
Capped (some limit) = (2 ≤ limit) × (limit ≤ usize_max)

abbrev pub WithinCap : Option ℕ → ℕ → Type 0
WithinCap none n = Unit
WithinCap (some limit) n = suc n ≤ limit

pub WithinCap-le : (c : Option ℕ) (m n : ℕ) → m ≤ n → WithinCap c n → WithinCap c m
WithinCap-le none m n l w = tt
WithinCap-le (some limit) m n l w = omega (arith, w, l)

module _ {C I : Type 0} where
  -- Why there are `n` of the old peers left: there were no more, the cap allows no more, or the
  -- deque was full or at its largest length.
  abbrev pub Reason : ℕ → Report C I → Type 0
  Reason n r =
      (n ≡ size r.peers)
      ⊎ (r.capacity ≡ some (n + 2))
      ⊎ ((suc n ≡ size r.peers) × ((size r.peers ≡ usize_max) ⊎ (size r.peers ≡ r.peers.capacity)))

  -- The new peer is in front of the newest `n`, the others are counted as lost.
  pub record Added (r : Report C I) (f : StaticFrame C I) (r' : Report C I) : Type 0 where
    pub n : ℕ
    pub count : n ≤ size r.peers
    pub peers : r'.peers.items ≡ f ∷ take n r.peers.items
    pub head : r'.head ≡ r.head
    pub lost : r'.lost_peers ≡ saturating_add r.lost_peers (size r.peers - n)
    pub capacity : r'.capacity ≡ r.capacity
    pub cap : WithinCap r.capacity (size r'.peers)
    pub valid : Valid r'
    pub reason : Reason n r

  module _ {R : Type 0} (now later : Growth R) (room : MakesRoom now) where
    pub push_attempted-newest :
        (n : ℕ) (r : Report C I) (f : StaticFrame C I)
        → Valid r
        → 1 ≤ size r.peers
        → n ≤ size r.peers
        → (m c : ℕ) × (push_attempted later
              (newest n r)
              (try_push_front_give_back now (newest n r).peers f)
            ≡ ended (record (newest m r) {
              peers = record { items = f ∷ take m r.peers.items; capacity = c };
            }))
          × (suc m ≤ c)
          × ((m ≡ n) ⊎ ((suc m ≡ n) × (n ≡ size r.peers) × (n ≡ r.peers.capacity)))
    unfolding push_attempted push_retried
    push_attempted-newest n r f v p l =
        let e = length-take_le n r.peers.items l in
        let w = newest-Valid n r v l in
        elim (push_front-cases now room (newest n r).peers f w.room) [
          | inl (c, q, b) ↦ (n, c, rw (q, push_attempted) refl, omega (arith, b, e), inl refl)
          | inr (x, q, b, _) ↦
              let z : 1 ≤ n = omega (arith, b, e, p, v.room) in
              let y : n ≡ size r.peers = omega (arith, b, e, l, v.room) in
              let k = evict-next n r v z l in
              let h = length-take_le (n - 1) r.peers.items (omega (arith, l)) in
              let t =
                push_front_room later (newest (n - 1) r).peers f (omega (arith, h, z, y, v.room)) in
              (
                n - 1,
                r.peers.capacity,
                ap (push_attempted later (newest n r)) q
                    ∙ ap
                        (λ (e : Report C I).
                          push_retried e (try_push_front_give_back later e.peers f))
                        k
                    ∙ ap (push_retried (newest (n - 1) r)) t,
                omega (arith, z, y, v.room),
                inr (omega (arith, z), y, omega (arith, b, e)),
              )
        ]

  pub at_cap :
      (fuel : ℕ) (r : Report C I) {c : Option ℕ}
      → r.capacity ≡ c
      → evict_capped fuel r ≡ elim c [ none ↦ ended r | some limit ↦ evict_down fuel limit r ]
  unfolding evict_capped
  at_cap fuel r e =
      ap (λ (c : Option ℕ). elim c [ none ↦ ended r | some limit ↦ evict_down fuel limit r ]) e

  pub evict_capped-newest :
      (fuel : ℕ) (r : Report C I)
      → Valid r
      → Capped r.capacity
      → suc (size r.peers) ≤ fuel
      → (n : ℕ) × (evict_capped fuel r ≡ ended (newest n r))
        × (n ≤ size r.peers)
        × WithinCap r.capacity (suc n)
        × ((n ≡ size r.peers) ⊎ (r.capacity ≡ some (n + 2)) × (suc n ≤ size r.peers))
  evict_capped-newest fuel r v c f = elim (Option-cases r.capacity) [
    | inl e ↦ (
      size r.peers,
      at_cap fuel r e ∙ ap ended (sym (newest_all (size r.peers) r v (omega arith))),
      omega arith,
      rw e tt,
      inl refl,
    )
    | inr (limit, e) ↦
        let b : Capped (some limit) = subst Capped e c in
        let q = evict_down-newest fuel limit r v b.0 b.1 f in
        elim (Bool-cases (leb (size r.peers) (limit - 2))) [
          | inl all ↦
              let l : size r.peers ≤ limit - 2 = ground (arith, all) in
              (
                size r.peers,
                at_cap fuel r e
                    ∙ q
                    ∙ ap ended (
                        newest_all (limit - 2) r v l
                        ∙ sym (newest_all (size r.peers) r v (omega arith))),
                omega arith,
                rw e (omega (arith, b.0, l)),
                inl refl,
              )
          | inr some_go ↦
              let l : suc (limit - 2) ≤ size r.peers = ground (arith, some_go) in
              let t : limit ≡ (limit - 2) + 2 = omega (arith, b.0) in
              (
                limit - 2,
                at_cap fuel r e ∙ q,
                omega (arith, l),
                rw e (omega (arith, b.0)),
                inr (e ∙ ap some t, l),
              )
        ]
  ]

  pub evict_overflow-newest :
      (n : ℕ) (r : Report C I)
      → Valid r
      → n ≤ size r.peers
      → (m : ℕ) × (evict_overflow (newest n r) ≡ newest m r)
        × (suc m ≤ usize_max)
        × ((m ≡ n) ⊎ ((suc m ≡ n) × (n ≡ size r.peers) × (size r.peers ≡ usize_max)))
  unfolding evict_overflow
  evict_overflow-newest n r v l =
      let e = length-take_le n r.peers.items l in
      elim (Bool-cases (size (newest n r).peers == usize_max)) [
        | inl full ↦
            let w : n ≡ usize_max = ground (arith, full, e) in
            (
              n - 1,
              rw (evict_overflow, full) (evict-next n r v (omega (arith, w)) l),
              omega (arith, w),
              inr (omega (arith, w), omega (arith, w, l, v.count), omega (arith, w, l, v.count)),
            )
        | inr free ↦
            let w : n ≢ usize_max = ground (arith, free, e) in
            (n, rw (evict_overflow, free) refl, omega (arith, w, l, v.count), inl refl)
      ]

  -- Whatever the allocator answers, a push onto a report that has a peer returns the report with
  -- the new peer in front of its newest ones, within the cap, and with every peer that it evicted
  -- counted: if it makes the room that it promises, the report is valid, a cap is at least two,
  -- and the fuel exceeds the number of peers.
  pub push-Added :
      {R : Type 0} (fuel : ℕ) (now later : Growth R) (r : Report C I) (f : StaticFrame C I)
      → MakesRoom now
      → Valid r
      → Capped r.capacity
      → 1 ≤ size r.peers
      → suc (size r.peers) ≤ fuel
      → (r' : Report C I) × (push fuel now later r f ≡ ended r') × Added r f r'
  unfolding push push_evicted
  push-Added fuel now later r f room v c p b =
      let (n, q, l, w, y) = evict_capped-newest fuel r v c b in
      let (m, q', l', y') = evict_overflow-newest n r v l in
      let mn : m ≤ n = ground (arith, y') in
      let (k, cap', q'', l'', y'') =
        push_attempted-newest now later room m r f v p (omega (arith, l, mn)) in
      let km : k ≤ m = ground (arith, y'') in
      let h = length-take_le k r.peers.items (omega (arith, l, mn, km)) in
      (
        record (newest k r) {
          peers = record { items = f ∷ take k r.peers.items; capacity = cap' };
        },
        ap (λ (o : Ending (Report C I)). o then_run push_evicted now later f) q
            ∙ ap
                (λ (e : Report C I).
                  push_attempted later e (try_push_front_give_back now e.peers f))
                q'
            ∙ q'',
        record {
          n = k;
          count = omega (arith, l, mn, km);
          peers = refl;
          head = refl;
          lost = refl;
          capacity = refl;
          cap =
              WithinCap-le r.capacity (suc (length (take k r.peers.items))) (suc n)
                (omega (arith, h, mn, km)) w;
          valid = record {
            room = omega (arith, h, l'');
            count = omega (arith, h, km, l');
            lost = saturating_add-le r.lost_peers (size r.peers - k);
          };
          reason = ground (arith, y, y', y'');
        },
      )

  pub evict_down-runs_on :
      (fuel limit : ℕ) (r : Report C I) → limit ≤ 1 → evict_down fuel limit r ≡ runs_on
  unfolding evict_down
  evict_down-runs_on zero limit r l = refl
  evict_down-runs_on (suc fuel) limit r l =
      let full : leb limit (peer_count r) ≡ true = ground (arith, l, peer_count-pos r) in
      rw (evict_down, full) (evict_down-runs_on fuel limit (evict r) l)

  -- With a cap of zero or one, `push` never leaves its loop.
  pub push-runs_on :
      {R : Type 0} (fuel limit : ℕ) (now later : Growth R) (r : Report C I) (f : StaticFrame C I)
      → r.capacity ≡ some limit
      → limit ≤ 1
      → push fuel now later r f ≡ runs_on
  unfolding push
  push-runs_on fuel limit now later r f e l =
      ap (λ (o : Ending (Report C I)). o then_run push_evicted now later f)
        (at_cap fuel r e ∙ evict_down-runs_on fuel limit r l)
