-- ===== src/Report/Kept.antt =====
-- The newest peers of a report, which evictions from its back leave.
use rustyfill.Prelude.{
  leb, Bool-cases, length, take, ℕ, zero, suc, ◌+◌, ◌-◌, ◌≤◌, ◌≡◌, refl, sym, ap, ◌∙◌, ◌⊎◌, inl,
  inr, List, [], ◌∷◌, arith,
}
use rustyfill.Deque.{size, front_items, pop_back}
use rustyfill.Deque.Ends.{IsValid, length-front_items}
use rustyfill.Report.{ended, usize_max, saturating_add, Report, peer_count, evict, evict_down}

-- A total of losses, at most the largest `usize`.
pub saturating_add-add :
    (a b c : ℕ) → saturating_add (saturating_add a b) c ≡ saturating_add a (b + c)
unfolding saturating_add
saturating_add-add a b c = ground arith

pub saturating_add-zero : (a : ℕ) → a ≤ usize_max → saturating_add a 0 ≡ a
unfolding saturating_add
saturating_add-zero a l = ground arith

pub saturating_add-le : (a b : ℕ) → saturating_add a b ≤ usize_max
unfolding saturating_add
saturating_add-le a b = ground arith

module _ {ℓ} {A : Type ℓ} where
  pub take_all : (n : ℕ) (xs : List A) → length xs ≤ n → take n xs ≡ xs
  take_all zero [] l = refl
  take_all zero (x ∷ xs) l = absurd (omega arith)
  take_all (suc n) [] l = refl
  take_all (suc n) (x ∷ xs) l = ap (◌∷◌ x) (take_all n xs (omega arith))

  pub length-take_le : (n : ℕ) (xs : List A) → n ≤ length xs → length (take n xs) ≡ n
  length-take_le zero xs l = refl
  length-take_le (suc n) [] l = absurd (omega arith)
  length-take_le (suc n) (x ∷ xs) l = ap suc (length-take_le n xs (omega arith))

  pub take-front_items :
      (n : ℕ) (xs : List A) → suc n ≤ length xs → take n (front_items xs) ≡ take n xs
  unfolding front_items
  take-front_items n [] l = absurd (omega arith)
  take-front_items zero (x ∷ xs) l = refl
  take-front_items (suc n) (x ∷ []) l = absurd (omega arith)
  take-front_items (suc n) (x ∷ y ∷ xs) l = ap (◌∷◌ x) (take-front_items n (y ∷ xs) (omega arith))

  pub take-take : (m n : ℕ) (xs : List A) → m ≤ n → take m (take n xs) ≡ take m xs
  take-take zero n xs l = refl
  take-take (suc m) zero xs l = absurd (omega arith)
  take-take (suc m) (suc n) [] l = refl
  take-take (suc m) (suc n) (x ∷ xs) l = ap (◌∷◌ x) (take-take m n xs (omega arith))

module _ {C I : Type 0} where
  -- A report whose counts fit a `usize` and whose deque of peers is valid.
  pub record Valid (r : Report C I) : Type 0 where
    pub room : IsValid r.peers
    pub count : size r.peers ≤ usize_max
    pub lost : r.lost_peers ≤ usize_max

  -- The newest `n` peers, the others counted as lost.
  abbrev pub newest : ℕ → Report C I → Report C I
  newest n r = record r {
    peers = record r.peers { items = take n r.peers.items };
    lost_peers = saturating_add r.lost_peers (size r.peers - n);
  }

  pub newest_all : (n : ℕ) (r : Report C I) → Valid r → size r.peers ≤ n → newest n r ≡ r
  newest_all n r v l =
      let z : size r.peers - n ≡ 0 = omega arith in
      rw (take_all n r.peers.items l, z, saturating_add-zero r.lost_peers v.lost) refl

  pub evict-newest :
      (n : ℕ) (r : Report C I) → suc n ≤ size r.peers → newest n (evict r) ≡ newest n r
  unfolding evict pop_back
  evict-newest n r l =
      let e = length-front_items r.peers.items in
      let s : 1 + ((size r.peers - 1) - n) ≡ size r.peers - n = omega (arith, l) in
      rw
        (
          e,
          take-front_items n r.peers.items l,
          saturating_add-add r.lost_peers 1 ((size r.peers - 1) - n),
          s,
        )
        refl

  pub evict-Valid : (r : Report C I) → Valid r → Valid (evict r)
  unfolding evict pop_back
  evict-Valid r v =
      let e = length-front_items r.peers.items in
      record {
        room = omega (arith, e, v.room);
        count = omega (arith, e, v.count);
        lost = saturating_add-le r.lost_peers 1;
      }

  pub size-evict : (r : Report C I) → size (evict r).peers ≡ size r.peers - 1
  unfolding evict pop_back
  size-evict r = length-front_items r.peers.items

  -- The count of peers, which stops at the largest `usize`.
  pub counted :
      (r : Report C I)
      → Valid r
      → (peer_count r ≡ suc (size r.peers))
        ⊎ ((peer_count r ≡ usize_max) × (size r.peers ≡ usize_max))
  unfolding peer_count saturating_add
  counted r v = ground (arith, v.count)

  pub peer_count-pos : (r : Report C I) → 1 ≤ peer_count r
  unfolding peer_count saturating_add
  peer_count-pos r = ground arith

  pub evict_down-newest :
      (fuel limit : ℕ) (r : Report C I)
      → Valid r
      → 2 ≤ limit
      → limit ≤ usize_max
      → suc (size r.peers) ≤ fuel
      → evict_down fuel limit r ≡ ended (newest (limit - 2) r)
  unfolding evict_down
  evict_down-newest zero limit r v l b f = absurd (omega arith)
  evict_down-newest (suc fuel) limit r v l b f = elim (Bool-cases (leb limit (peer_count r))) [
    | inl full ↦
        let c = counted r v in
        let m : suc (limit - 2) ≤ size r.peers = ground (arith, full, c) in
        let q = size-evict r in
        let ih =
          evict_down-newest fuel limit (evict r) (evict-Valid r v) l b (omega (arith, q, f, m)) in
        rw (evict_down, full, ih, evict-newest (limit - 2) r m) refl
    | inr free ↦
        let c = counted r v in
        let m : size r.peers ≤ limit - 2 = ground (arith, free, c) in
        rw (evict_down, free, newest_all (limit - 2) r v m) refl
  ]

  pub newest-newest :
      (m n : ℕ) (r : Report C I) → m ≤ n → n ≤ size r.peers → newest m (newest n r) ≡ newest m r
  newest-newest m n r l b =
      let e = length-take_le n r.peers.items b in
      let s : (size r.peers - n) + (n - m) ≡ size r.peers - m = omega (arith, l, b) in
      rw
        (
          e,
          take-take m n r.peers.items l,
          saturating_add-add r.lost_peers (size r.peers - n) (n - m),
          s,
        )
        refl

  -- An eviction from a report that has a peer.
  pub evict-one :
      (r : Report C I) → Valid r → 1 ≤ size r.peers → evict r ≡ newest (size r.peers - 1) r
  evict-one r v l =
      let q = size-evict r in
      sym (newest_all (size r.peers - 1) (evict r) (evict-Valid r v) (omega (arith, q)))
      ∙ evict-newest (size r.peers - 1) r (omega (arith, l))

  pub newest-Valid : (n : ℕ) (r : Report C I) → Valid r → n ≤ size r.peers → Valid (newest n r)
  newest-Valid n r v l =
      let e = length-take_le n r.peers.items l in
      record {
        room = omega (arith, e, v.room, l);
        count = omega (arith, e, v.count, l);
        lost = saturating_add-le r.lost_peers (size r.peers - n);
      }

  pub evict-next :
      (n : ℕ) (r : Report C I)
      → Valid r
      → 1 ≤ n
      → n ≤ size r.peers
      → evict (newest n r) ≡ newest (n - 1) r
  evict-next n r v l b =
      let e = length-take_le n r.peers.items b in
      evict-one (newest n r) (newest-Valid n r v b) (omega (arith, e, l))
      ∙ ap (λ (k : ℕ). newest (k - 1) (newest n r)) e
      ∙ newest-newest (n - 1) n r (omega arith) b
