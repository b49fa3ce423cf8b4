-- ===== src/Interner/Sharing.antt =====
-- Equal texts share one allocation, as long as the table has not grown.
use rustyfill.Prelude.{
  ◌==◌, Bool-cases, Option-cases, done, Result, ok, err, Result-cases, Returns, ℕ, ◌+◌, ◌<◌, ◌≡◌,
  refl, sym, ap, ◌∙◌, ◌≢◌, inl, inr, Bool, true, false, ◌&&◌, none, some, List, [], ◌∷◌, arith,
}
use rustyfill.Arc.{ArcInner, max_refcount}
use rustyfill.Interner.{
  Memory, Bucket, Store, InternError, reserve, Hashing, Call, write, upgrade_at, hit_or_miss,
  look_up, fast_path, reserve_one, create_new_arc, record_new, reuse_or_recycle, write_locked,
  reserved_or_not, slow_path, unless_hit, do_intern_with_key,
}
use rustyfill.Interner.Search.{
  is_live, is_hit, search_table, find-search_table, write_at, write_apart, raised, upgrade_at-cases,
}
use rustyfill.Interner.Created.{
  IsEquality, CreatedSpec, create_new_arc-CreatedSpec, record_new-ok, and_true, deeper-some,
}

pub apart : (a b : ℕ) → (a == b) ≡ false → a ≢ b
apart a b e = λ q. ground (arith, e, q)

module _ {ℓ} {T : Type ℓ} where
  -- No other thread acts during the call.
  pub record IsAlone {R : Type ℓ} (c : Call T R) : Type ℓ where
    pub read_alone : (m : Memory T) → c.during_read m ≡ m
    pub unlocked_alone : (s : Store T) → c.unlocked s ≡ s
    pub write_alone : (m : Memory T) → c.during_write m ≡ m
    pub copies : (x y : T) → c.try_to_owned x ≡ ok y → y ≡ x

  -- Searching the table for the text finds this allocation.
  abbrev pub IsFound : Hashing T → T → Store T → ℕ → Type 0
  IsFound h text s a = (i : ℕ) × (search_table h text s.memory s.table ≡ some (i, a))

  module _ (h : Hashing T) (text : T) where
    pub search-is_live :
        (m : Memory T) (bs : List Bucket) (i a : ℕ)
        → search_table h text m bs ≡ some (i, a)
        → is_live (m.cells a) ≡ true
    unfolding search_table
    search-is_live m [] i a e = absurd (cc e)
    search-is_live m (b ∷ bs) i a e = elim (Bool-cases (is_hit h text m b)) [
      | inl t ↦
          let (_, u) = and_true (h.probes (h.hash_one text) b.probe) _ t in
          let (v, _) = and_true (is_live (m.cells b.weak)) _ u in
          let w : b.weak ≡ a = cc (rw (search_table, t) at e) in
          ap (λ x. is_live (m.cells x)) (sym w) ∙ v
      | inr t ↦
          let (j, g) = deeper-some (search_table h text m bs) i a (rw (search_table, t) at e) in
          search-is_live m bs j a g
    ]

    -- Whether an allocation is a hit for an entry that was stored under `probe`.
    abbrev cell_hit : ℕ → ArcInner T → Bool
    cell_hit probe i = h.probes (h.hash_one text) probe && (is_live i && h.same i.payload text)

    -- An upgrade that leaves the count below the maximum hides no entry.
    raised_hit :
        (m : Memory T) (a : ℕ) (b : Bucket)
        → 0 < (m.cells a).strong
        → (m.cells a).strong + 1 < max_refcount
        → is_hit h text (write m a (raised (m.cells a))) b ≡ is_hit h text m b
    raised_hit m a b p l = elim (Bool-cases (b.weak == a)) [
      | inl e ↦
          let w : b.weak ≡ a = ground (arith, e) in
          let live : is_live (raised (m.cells a)) ≡ is_live (m.cells a) = ground (arith, p, l) in
          ap (cell_hit b.probe)
            (ap (write m a (raised (m.cells a))).cells w ∙ write_at m a (raised (m.cells a)))
          ∙ (ap (λ x. h.probes (h.hash_one text) b.probe && (x && h.same (m.cells a).payload text))
                live
              ∙ ap (λ x. cell_hit b.probe (m.cells x)) (sym w))
      | inr e ↦
          ap (cell_hit b.probe) (write_apart m a b.weak (raised (m.cells a)) (apart b.weak a e))
    ]

    search_raised :
        (m : Memory T) (a : ℕ) (bs : List Bucket)
        → 0 < (m.cells a).strong
        → (m.cells a).strong + 1 < max_refcount
        → search_table h text (write m a (raised (m.cells a))) bs ≡ search_table h text m bs
    unfolding search_table
    search_raised m a [] p l = refl
    search_raised m a (b ∷ bs) p l =
        rw (search_table, raised_hit m a b p l, search_raised m a bs p l) refl

    -- What was stored: the entry of the new `Arc` is found first.
    search_new :
        (m : Memory T) (bs : List Bucket) (a : ℕ) (key : ℕ)
        → IsEquality h
        → ((n : ℕ) → h.probes n n ≡ true)
        → m.cells a ≡ record { strong = 1; weak = 2; payload = text }
        → search_table h text m (record { probe = h.hash_one text; key = key; weak = a } ∷ bs)
          ≡ some (0, a)
    unfolding search_table
    search_new m bs a key q p e = rw (search_table, p (h.hash_one text), e, q.same_refl text) refl

    module _ {R : Type ℓ} (c : Call T R) where
      alone_upgraded :
          (a : ℕ) (bs : List Bucket) (m : Memory T)
          → is_live (m.cells a) ≡ true
          → unless_hit h c text (hit_or_miss h c a bs (upgrade_at m a))
            ≡ done (ok a, record { memory = write m a (raised (m.cells a)); table = bs })
      unfolding unless_hit hit_or_miss
      alone_upgraded a bs m l = elim (upgrade_at-cases m a) [
        | inl (_, u) ↦ rw (u) refl
        | inr (inl (d, u)) ↦ absurd (cc)
        | inr (inr (d, u)) ↦ absurd (cc)
      ]

      -- A call that finds the text counts one more `Arc` and changes nothing else.
      pub alone_hit :
          (s : Store T) (a : ℕ)
          → IsAlone c
          → IsFound h text s a
          → do_intern_with_key h c text s
            ≡ done (ok a, record s { memory = write s.memory a (raised (s.memory.cells a)) })
      unfolding do_intern_with_key fast_path look_up
      alone_hit s a o (i, e) =
          rw (find-search_table h text s.table s.memory, e, o.read_alone s.memory)
            (alone_upgraded a s.table s.memory (search-is_live s.memory s.table i a e))

      -- A returned `Arc` is found by the next search, if its count is below the maximum.
      unfoldable StoredSpec : Result ℕ (InternError R) × Store T → Type 0
      StoredSpec (ok a, s) = (s.memory.cells a).strong < max_refcount → IsFound h text s a
      StoredSpec (err e, s) = Unit

      raised_found :
          (m : Memory T) (bs : List Bucket) (i a : ℕ)
          → search_table h text m bs ≡ some (i, a)
          → StoredSpec (ok a, record { memory = write m a (raised (m.cells a)); table = bs })
      unfolding StoredSpec
      raised_found m bs i a e l =
          let live = search-is_live m bs i a e in
          let l' : (m.cells a).strong + 1 < max_refcount =
            rw (write_at m a (raised (m.cells a))) at l in
          (i, search_raised m a bs (ground (arith, live)) l' ∙ e)

      new_found :
          (bs : List Bucket) (m : Memory T) (a : ℕ)
          → IsEquality h
          → ((n : ℕ) → h.probes n n ≡ true)
          → StoredSpec (
            ok a,
            record {
              memory = write m a (record { strong = 1; weak = 2; payload = text });
              table = record { probe = h.hash_one text; key = h.hash_one text; weak = a } ∷ bs;
            },
          )
      unfolding StoredSpec
      new_found bs m a q p _ = (
        0,
        search_new (write m a (record { strong = 1; weak = 2; payload = text })) bs a
            (h.hash_one text) q p (write_at m a (record { strong = 1; weak = 2; payload = text })),
      )

      error-StoredSpec :
          (bs : List Bucket) (m : Memory T) (e : InternError R)
          → Returns (record_new h c (h.hash_one text) bs (err e) m) StoredSpec
      unfolding record_new StoredSpec
      error-StoredSpec bs m e = ((err e, record { memory = m; table = bs }), refl, tt)

      new-StoredSpec :
          (bs : List Bucket) (m : Memory T) (r : Result (ℕ × Memory T) (InternError R))
          → IsEquality h
          → ((n : ℕ) → h.probes n n ≡ true)
          → CreatedSpec c text r
          → Returns (record_new h c (h.hash_one text) bs r m) StoredSpec
      unfolding CreatedSpec
      new-StoredSpec bs m (err e) q p t = error-StoredSpec bs m e
      new-StoredSpec bs m (ok (a, m')) q p t =
          ((ok a, _), record_new-ok c text h (h.hash_one text) bs a m' m t, new_found bs m' a q p)

      alone_recycled :
          (i a : ℕ) (bs : List Bucket) (m : Memory T)
          → is_live (m.cells a) ≡ true
          → reuse_or_recycle h c text i a bs (upgrade_at m a)
            ≡ (ok a, record { memory = write m a (raised (m.cells a)); table = bs })
      unfolding reuse_or_recycle
      alone_recycled i a bs m l = elim (upgrade_at-cases m a) [
        | inl (_, u) ↦ rw (u) refl
        | inr (inl (d, u)) ↦ absurd (cc)
        | inr (inr (d, u)) ↦ absurd (cc)
      ]

      write_locked-StoredSpec :
          (bs : List Bucket) (m : Memory T)
          → IsEquality h
          → ((n : ℕ) → h.probes n n ≡ true)
          → IsAlone c
          → Returns (write_locked h c text bs (search_table h text m bs, m)) StoredSpec
      unfolding write_locked
      write_locked-StoredSpec bs m q p o = elim (Option-cases (search_table h text m bs)) [
        | inl e ↦ rw (e) (
            new-StoredSpec bs m (create_new_arc h c text m) q p
              (create_new_arc-CreatedSpec c text h m o.copies))
        | inr ((i, a), e) ↦
            rw (e, o.write_alone m)
              (
                (ok a, record { memory = write m a (raised (m.cells a)); table = bs }),
                ap done (alone_recycled i a bs m (search-is_live m bs i a e)),
                raised_found m bs i a e,
              )
      ]

      refused-StoredSpec :
          (s : Store T) (e : R)
          → Returns (reserved_or_not h c text s.memory s.table (err e)) StoredSpec
      unfolding reserved_or_not StoredSpec
      refused-StoredSpec s e = ((err (reserve e), s), refl, tt)

      slow_path-StoredSpec :
          (s : Store T)
          → IsEquality h
          → ((n : ℕ) → h.probes n n ≡ true)
          → IsAlone c
          → Returns (slow_path h c text s) StoredSpec
      unfolding slow_path reserved_or_not
      slow_path-StoredSpec s q p o = elim (Result-cases (reserve_one h c s.table)) [
        | inr (e, u) ↦ rw (u) (refused-StoredSpec s e)
        | inl (bs, u) ↦
            rw (u, find-search_table h text bs s.memory) (write_locked-StoredSpec bs s.memory q p o)
      ]

      -- A call that does not find the text goes on with the write lock.
      pub alone_missed :
          (s : Store T)
          → IsAlone c
          → search_table h text s.memory s.table ≡ none
          → do_intern_with_key h c text s ≡ slow_path h c text s
      unfolding do_intern_with_key fast_path look_up unless_hit
      alone_missed s o e =
          rw (find-search_table h text s.table s.memory, e, o.unlocked_alone s) refl

      intern-StoredSpec :
          (s : Store T)
          → IsEquality h
          → ((n : ℕ) → h.probes n n ≡ true)
          → IsAlone c
          → Returns (do_intern_with_key h c text s) StoredSpec
      intern-StoredSpec s q p o = elim (Option-cases (search_table h text s.memory s.table)) [
        | inl e ↦ rw (alone_missed s o e) (slow_path-StoredSpec s q p o)
        | inr ((i, a), e) ↦ (_, alone_hit s a o (i, e), raised_found s.memory s.table i a e)
      ]

    -- Two calls for one text, with no other thread between, return the same `Arc`, also where the
    -- first one made the table grow, if the count is below the maximum between them. The second call
    -- counts one more `Arc` and changes nothing else.
    pub intern-intern :
        {R : Type ℓ} (c c' : Call T R) (s s' : Store T) (a : ℕ)
        → IsEquality h
        → ((n : ℕ) → h.probes n n ≡ true)
        → IsAlone c
        → IsAlone c'
        → do_intern_with_key h c text s ≡ done (ok a, s')
        → (s'.memory.cells a).strong < max_refcount
        → do_intern_with_key h c' text s'
          ≡ done (ok a, record s' { memory = write s'.memory a (raised (s'.memory.cells a)) })
    unfolding StoredSpec
    intern-intern c c' s s' a q p o o' e l =
        let (answer, run, found) = intern-StoredSpec c s q p o in
        let same : answer ≡ (ok a, s') = cc in alone_hit c' s' a o' ((rw (same) at found) l)
