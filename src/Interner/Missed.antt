-- ===== src/Interner/Missed.antt =====
-- A call of `do_intern_with_key` that does not find the text, and the `Arc` that it makes.
use rustyfill.Prelude.{
  All, done, ok, ℕ, ◌+◌, ◌<◌, ◌≡◌, refl, ◌∙◌, ◌≢◌, true, false, none, List, [], ◌∷◌, map, arith,
}
use rustyfill.Arc.{new}
use rustyfill.Interner.{
  Memory, Bucket, Store, kept, rehashed, Hashing, Call, write, rehash, reserve_one, write_locked,
  reserved_or_not, slow_path, do_intern_with_key,
}
use rustyfill.Interner.Search.{is_hit, search_table, find-search_table, write_at, write_apart}
use rustyfill.Interner.Created.{record_new-ok, created, Holds}
use rustyfill.Interner.Sharing.{IsAlone, alone_missed}

older : (a n : ℕ) → a < n → a ≢ n
older a n l q = ground (arith, l, q)

module _ {ℓ} {T : Type ℓ} where
  -- An entry that a search for the text does not take.
  abbrev pub IsPassed : Hashing T → T → Memory T → Bucket → Type 0
  IsPassed h text m b = is_hit h text m b ≡ false

  pub search_passed :
      (h : Hashing T) (text : T) (m : Memory T) (bs : List Bucket)
      → All (IsPassed h text m) bs
      → search_table h text m bs ≡ none
  unfolding search_table
  search_passed h text m [] t = refl
  search_passed h text m (b ∷ bs) (p, t) = rw (search_table, p, search_passed h text m bs t) refl

  -- The store with a new `Arc` of the text, and an entry for it.
  abbrev pub with_new : Hashing T → T → Memory T → List Bucket → Store T
  with_new h text m bs =
      let m' : Memory T = record { cells = (write m m.next (new text)).cells; next = m.next + 1 } in
      record {
        memory = write m' m.next (record { strong = 1; weak = 2; payload = text });
        table = record { probe = h.hash_one text; key = h.hash_one text; weak = m.next } ∷ bs;
      }

  module _ {R : Type ℓ} (h : Hashing T) (text : T) (c : Call T R) where
    fresh :
        (m : Memory T) (bs : List Bucket)
        → c.try_to_owned text ≡ ok text
        → c.allocates ≡ true
        → search_table h text m bs ≡ none
        → write_locked h c text bs (search_table h text m bs, m)
          ≡ done (ok m.next, with_new h text m bs)
    unfolding write_locked
    fresh m bs own room t =
        rw (t, created c text h m text own room)
          (record_new-ok c text h (h.hash_one text) bs m.next
            (record { cells = (write m m.next (new text)).cells; next = m.next + 1 }) m
            (write_at m m.next (new text)))

    -- A call that does not find the text, before its reservation and after it, allocates.
    pub missed-with_new :
        (s : Store T) (bs : List Bucket)
        → IsAlone c
        → c.try_to_owned text ≡ ok text
        → c.allocates ≡ true
        → reserve_one h c s.table ≡ ok bs
        → search_table h text s.memory s.table ≡ none
        → search_table h text s.memory bs ≡ none
        → do_intern_with_key h c text s ≡ done (ok s.memory.next, with_new h text s.memory bs)
    unfolding slow_path reserved_or_not
    missed-with_new s bs o own room reserved t t' =
        rw (alone_missed h text c s o t, reserved, find-search_table h text bs s.memory)
          (fresh s.memory bs own room t')

    pub grown :
        (bs : List Bucket) → c.reserves ≡ rehashed → reserve_one h c bs ≡ ok (map (rehash h) bs)
    unfolding reserve_one
    grown bs e = rw (reserve_one, e) refl

    pub roomy : (bs : List Bucket) → c.reserves ≡ kept → reserve_one h c bs ≡ ok bs
    unfolding reserve_one
    roomy bs e = rw (reserve_one, e) refl

  abbrev pub allocated : T → Memory T → Memory T
  allocated text m = record { cells = (write m m.next (new text)).cells; next = m.next + 1 }

  pub with_new-older :
      (h : Hashing T) (text : T) (m : Memory T) (bs : List Bucket) (a : ℕ)
      → a < m.next
      → (with_new h text m bs).memory.cells a ≡ m.cells a
  with_new-older h text m bs a l =
      write_apart (allocated text m) m.next a (record { strong = 1; weak = 2; payload = text })
        (older a m.next l)
      ∙ write_apart m m.next a (new text) (older a m.next l)

  pub with_new-Holds :
      (h : Hashing T) (text : T) (m : Memory T) (bs : List Bucket) (a : ℕ)
      → a ≡ m.next
      → Holds (with_new h text m bs).memory text a
  with_new-Holds h text m bs a e =
      rw (e, write_at (allocated text m) m.next (record { strong = 1; weak = 2; payload = text }))
        (omega arith, refl)

  pub with_new-next :
      (h : Hashing T) (text : T) (m : Memory T) (bs : List Bucket)
      → (with_new h text m bs).memory.next ≡ m.next + 1
  unfolding write
  with_new-next h text m bs = refl
