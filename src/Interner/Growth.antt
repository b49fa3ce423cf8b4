-- ===== src/Interner/Growth.antt =====
-- `do_intern_with_key` when the table grows: the closure of `try_reserve` stores each entry again
-- under a hash of the stored hash.
use rustyfill.Prelude.{
  Bool-cases, All, done, ◌>>=◌, Result, ok, Returns, ℕ, ◌+◌, ◌<◌, ◌≡◌, refl, sym, ap, ◌∙◌, ◌≢◌, inl,
  inr, true, false, ◌&&◌, none, some, List, [], ◌∷◌, map, arith,
}
use mathlib.Core.Path.{subst}
use rustyfill.Interner.{
  Memory, Bucket, Store, kept, rehashed, Hashing, Call, write, rehash, do_intern_with_key,
}
use rustyfill.Interner.Search.{is_live, is_hit, search_table, write_at, raised}
use rustyfill.Interner.Created.{IsEquality, Holds, search-payload, deeper-some}
use rustyfill.Interner.Sharing.{IsAlone, IsFound, search-is_live, alone_hit}
use rustyfill.Interner.Missed.{
  IsPassed, search_passed, with_new, missed-with_new, grown, roomy, allocated, with_new-older,
  with_new-Holds, with_new-next,
}

module _ {ℓ} {T : Type ℓ} where
  -- The allocation of the entry was made before, and where it is live, the key is the hash of the
  -- text that it holds.
  abbrev pub IsKeyed : Hashing T → Memory T → Bucket → Type 0
  IsKeyed h m b =
      (b.weak < m.next)
      × (is_live (m.cells b.weak) ≡ true → b.key ≡ h.hash_one (m.cells b.weak).payload)

  -- The entry does not keep a live allocation of the text.
  abbrev pub IsOther : Hashing T → T → Memory T → Bucket → Type 0
  IsOther h text m b = (is_live (m.cells b.weak) && h.same (m.cells b.weak).payload text) ≡ false

  other-IsPassed :
      (h : Hashing T) (text : T) (m : Memory T) (bs : List Bucket)
      → All (IsOther h text m) bs
      → All (IsPassed h text m) bs × All (IsPassed h text m) (map (rehash h) bs)
  other-IsPassed h text m [] t = (tt, tt)
  other-IsPassed h text m (b ∷ bs) (p, t) =
      let (u, u') = other-IsPassed h text m bs t in
      ((ground (arith, p), u), (ground (arith, p), u'))

  -- A search that does not visit the hash of its own hash takes no entry of a table that grew.
  rehashed-IsPassed :
      (h : Hashing T) (text : T) (m m' : Memory T) (b : Bucket)
      → IsEquality h
      → IsKeyed h m b
      → m'.cells b.weak ≡ m.cells b.weak
      → h.probes (h.hash_one text) (h.hash_key (h.hash_one text)) ≡ false
      → IsPassed h text m' (rehash h b)
  rehashed-IsPassed h text m m' b q (l, k) e n = elim (Bool-cases (is_live (m.cells b.weak))) [
    | inr d ↦ rw (e, d) (ground arith)
    | inl d ↦ elim (Bool-cases (h.same (m.cells b.weak).payload text)) [
      | inr u ↦ rw (e, u) (ground arith)
      | inl u ↦
          let t : b.key ≡ h.hash_one text = k d ∙ ap h.hash_one (q.same_path _ _ u) in
          let n' : h.probes (h.hash_one text) (h.hash_key b.key) ≡ false =
            ap (λ x. h.probes (h.hash_one text) (h.hash_key x)) t ∙ n in
          rw (n') refl
    ]
  ]

  grown-IsPassed :
      (h : Hashing T) (text : T) (m m' : Memory T) (bs : List Bucket)
      → IsEquality h
      → All (IsKeyed h m) bs
      → ((a : ℕ) → a < m.next → m'.cells a ≡ m.cells a)
      → h.probes (h.hash_one text) (h.hash_key (h.hash_one text)) ≡ false
      → All (IsPassed h text m') (map (rehash h) bs)
  grown-IsPassed h text m m' [] q t o n = tt
  grown-IsPassed h text m m' (b ∷ bs) q (k, t) o n =
      (rehashed-IsPassed h text m m' b q k (o b.weak k.0) n, grown-IsPassed h text m m' bs q t o n)

  -- The entry of the text that made the table grow is not one of another text.
  new-IsPassed :
      (h : Hashing T) (other text : T) (m : Memory T) (bs : List Bucket)
      → h.same other text ≡ false
      → IsPassed h text
          (with_new h other m bs).memory
          (record { probe = h.hash_one other; key = h.hash_one other; weak = m.next })
  new-IsPassed h other text m bs d =
      rw (write_at (allocated other m) m.next (record { strong = 1; weak = 2; payload = other }), d)
        (ground arith)

  found_older :
      (h : Hashing T) (text : T) (m : Memory T) (bs : List Bucket) (i a : ℕ)
      → All (IsKeyed h m) bs
      → search_table h text m bs ≡ some (i, a)
      → a < m.next
  unfolding search_table
  found_older h text m [] i a t e = absurd (cc e)
  found_older h text m (b ∷ bs) i a (k, t) e = elim (Bool-cases (is_hit h text m b)) [
    | inl d ↦ subst (λ x. x < m.next) (cc (rw (search_table, d) at e)) k.0
    | inr d ↦
        let (j, g) = deeper-some (search_table h text m bs) i a (rw (search_table, d) at e) in
        found_older h text m bs j a t g
  ]

  differ :
      (h : Hashing T) (other text : T) → IsEquality h → other ≢ text → h.same other text ≡ false
  differ h other text q n = elim (Bool-cases (h.same other text)) [
    | inl e ↦ absurd (n (q.same_path _ _ e))
    | inr e ↦ e
  ]

  -- An answer that is a further allocation of the text, beside the one of before, which still holds
  -- it.
  abbrev pub IsDuplicated : {R : Type ℓ} → Store T → T → ℕ → Result ℕ R × Store T → Type ℓ
  IsDuplicated s text a r =
      (r.0 ≡ ok (s.memory.next + 1))
      × Holds r.1.memory text (s.memory.next + 1)
      × Holds r.1.memory text a
      × (a ≢ s.memory.next + 1)

  module _ {R : Type ℓ} (h : Hashing T) (other text : T) (c c' : Call T R) (s : Store T) where
    grows :
        IsAlone c
        → c.reserves ≡ rehashed
        → (c.try_to_owned other ≡ ok other) × (c.allocates ≡ true)
        → All (IsOther h other s.memory) s.table
        → do_intern_with_key h c other s
          ≡ done (ok s.memory.next, with_new h other s.memory (map (rehash h) s.table))
    grows o e (own, room) t =
        let (u, u') = other-IsPassed h other s.memory s.table t in
        missed-with_new h other c s (map (rehash h) s.table) o own room (grown h other c s.table e)
          (search_passed h other s.memory s.table u)
          (search_passed h other s.memory (map (rehash h) s.table) u')

    misses :
        IsEquality h
        → other ≢ text
        → All (IsKeyed h s.memory) s.table
        → h.probes (h.hash_one text) (h.hash_key (h.hash_one text)) ≡ false
        → search_table h text
            (with_new h other s.memory (map (rehash h) s.table)).memory
            (with_new h other s.memory (map (rehash h) s.table)).table
          ≡ none
    misses q d k n =
        let bs = map (rehash h) s.table in
        let m' = (with_new h other s.memory bs).memory in
        search_passed h text m' (with_new h other s.memory bs).table (
          new-IsPassed h other text s.memory bs (differ h other text q d),
          grown-IsPassed h text s.memory m' s.table q k (with_new-older h other s.memory bs) n,
        )

    found-Holds : (a : ℕ) → IsEquality h → IsFound h text s a → Holds s.memory text a
    found-Holds a q (i, e) =
        let live = search-is_live h text s.memory s.table i a e in
        (ground (arith, live), search-payload h text s.memory s.table i a q e)

    -- A table whose keys are the hashes of its texts, in which a search for a text finds an
    -- allocation: a call for the text returns that allocation. After a call for another text, which
    -- no live entry has and for which the table grows, a call for the text makes a further
    -- allocation, although the one of before still holds the text and is live. This holds where
    -- no other thread acts, the copies and the allocations succeed, and a search under a hash does
    -- not visit the entries under the hash of that hash.
    pub growth-duplicate :
        (a : ℕ)
        → IsEquality h
        → IsAlone c
        → IsAlone c'
        → (c.reserves ≡ rehashed) × (c'.reserves ≡ kept)
        → (c.try_to_owned other ≡ ok other) × (c.allocates ≡ true)
        → (c'.try_to_owned text ≡ ok text) × (c'.allocates ≡ true)
        → All (IsKeyed h s.memory) s.table
        → All (IsOther h other s.memory) s.table
        → other ≢ text
        → IsFound h text s a
        → h.probes (h.hash_one text) (h.hash_key (h.hash_one text)) ≡ false
        → (do_intern_with_key h c' text s
            ≡ done (ok a, record s { memory = write s.memory a (raised (s.memory.cells a)) }))
          × Returns
              (do_intern_with_key h c other s >>= λ r. do_intern_with_key h c' text r.1)
              (IsDuplicated s text a)
    growth-duplicate a q o o' (e, e') own (own', room') k t d f n =
        let bs = map (rehash h) s.table in
        let s' = with_new h other s.memory bs in
        let u = misses q d k n in
        let second =
          missed-with_new h text c' s' s'.table o' own' room' (roomy h text c' s'.table e') u u in
        let next : s'.memory.next ≡ s.memory.next + 1 = with_new-next h other s.memory bs in
        let l : a < s.memory.next = found_older h text s.memory s.table f.0 a k f.1 in
        let same : (with_new h text s'.memory s'.table).memory.cells a ≡ s.memory.cells a =
          with_new-older h text s'.memory s'.table a (rw (next) (ground (arith, l)))
          ∙ with_new-older h other s.memory bs a l in
        (
          alone_hit h text c' s a o' f,
          (
            (ok s'.memory.next, with_new h text s'.memory s'.table),
            rw (grows o e own t) second,
            (
              ap ok next,
              with_new-Holds h text s'.memory s'.table (s.memory.next + 1) (sym next),
              rw (same) (found-Holds a q f),
              λ x. ground (arith, l, x),
            ),
          ),
        )
