-- ===== src/Interner/Created.antt =====
-- What a returned `Arc` and an error of `do_intern_with_key` mean, and the steps that make an `Arc`.
use rustyfill.Prelude.{
  ◌==◌, Bool-cases, done, Result, ok, err, Result-cases, Returns, ℕ, ◌+◌, ◌<◌, ◌≡◌, refl, sym, ap,
  ◌∙◌, ◌⊎◌, inl, inr, Bool, true, false, ◌&&◌, Option, none, some, List, [], ◌∷◌, arith,
}
use rustyfill.Arc.{new, try_downgrade, drop_weak}
use rustyfill.Interner.{
  Memory, Bucket, Store, Reserved, full, kept, rehashed, InternError, reserve, alloc, copy, Hashing,
  Call, deeper, write, upgrade_at, create_new_arc, downgrade_at, replace_weak, store_weak,
  insert_no_grow, record_weak, reuse_or_recycle, record_new,
}
use rustyfill.Interner.Search.{is_live, is_hit, search_table, write_at, raised, upgrade_at-cases}

pub and_true : (a b : Bool) → (a && b) ≡ true → (a ≡ true) × (b ≡ true)
and_true true b e = (refl, e)
and_true false b e = absurd (cc e)

pub deeper-some :
    (o : Option (ℕ × ℕ)) (i a : ℕ) → deeper o ≡ some (i, a) → (j : ℕ) × (o ≡ some (j, a))
deeper-some none i a e = absurd (cc e)
deeper-some (some (j, b)) i a e = (j, let q : b ≡ a = cc in rw (q) refl)

pub Reserved-cases {ℓ} :
    {R : Type ℓ} (r : Reserved R) → ((e : R) × (r ≡ full e)) ⊎ (r ≡ kept) ⊎ (r ≡ rehashed)
Reserved-cases (full e) = inl (e, refl)
Reserved-cases kept = inr (inl refl)
Reserved-cases rehashed = inr (inr refl)

module _ {ℓ} {T : Type ℓ} where
  -- Equality of texts is the paths between them.
  pub record IsEquality (h : Hashing T) : Type ℓ where
    pub same_path : (x y : T) → h.same x y ≡ true → x ≡ y
    pub same_refl : (x : T) → h.same x x ≡ true

  -- Other threads leave every payload as it is, and a copy is the text.
  pub record IsFaithful {R : Type ℓ} (c : Call T R) : Type ℓ where
    pub read_keeps :
        (m : Memory T) (a : ℕ) → ((c.during_read m).cells a).payload ≡ (m.cells a).payload
    pub write_keeps :
        (m : Memory T) (a : ℕ) → ((c.during_write m).cells a).payload ≡ (m.cells a).payload
    pub copies : (x y : T) → c.try_to_owned x ≡ ok y → y ≡ x

  -- The allocation is live and holds the text.
  abbrev pub Holds : Memory T → T → ℕ → Type ℓ
  Holds m text a = (0 < (m.cells a).strong) × ((m.cells a).payload ≡ text)

  pub search-payload :
      (h : Hashing T) (text : T) (m : Memory T) (bs : List Bucket) (i a : ℕ)
      → IsEquality h
      → search_table h text m bs ≡ some (i, a)
      → (m.cells a).payload ≡ text
  unfolding search_table
  search-payload h text m [] i a q e = absurd (cc e)
  search-payload h text m (b ∷ bs) i a q e = elim (Bool-cases (is_hit h text m b)) [
    | inl t ↦
        let (_, u) = and_true (h.probes (h.hash_one text) b.probe) _ t in
        let (_, v) = and_true (is_live (m.cells b.weak)) _ u in
        let w : b.weak ≡ a = cc (rw (search_table, t) at e) in
        ap (λ x. (m.cells x).payload) (sym w) ∙ q.same_path _ _ v
    | inr t ↦
        let (j, g) = deeper-some (search_table h text m bs) i a (rw (search_table, t) at e) in
        search-payload h text m bs j a q g
  ]

  module _ {R : Type ℓ} (c : Call T R) (text : T) where
    -- What each error means.
    unfoldable pub ErrorSpec : InternError R → Type ℓ
    ErrorSpec (reserve e) = c.reserves ≡ full e
    ErrorSpec alloc = (y : T) × (c.try_to_owned text ≡ ok y) × (c.allocates ≡ false)
    ErrorSpec (copy e) = c.try_to_owned text ≡ err e

    unfoldable pub AnswerSpec : Result ℕ (InternError R) × Store T → Type ℓ
    unfolding ErrorSpec
    AnswerSpec (ok a, s) = Holds s.memory text a
    AnswerSpec (err e, s) = ErrorSpec e

    unfoldable pub CreatedSpec : Result (ℕ × Memory T) (InternError R) → Type ℓ
    unfolding ErrorSpec
    CreatedSpec (ok (a, m)) = m.cells a ≡ new text
    CreatedSpec (err e) = ErrorSpec e

    module _ (h : Hashing T) where
      pub created :
          (m : Memory T) (y : T)
          → c.try_to_owned text ≡ ok y
          → c.allocates ≡ true
          → create_new_arc h c text m
            ≡ ok (m.next, record { cells = (write m m.next (new y)).cells; next = m.next + 1 })
      unfolding create_new_arc
      created m y e t = rw (create_new_arc, e, t) refl

      not_allocated :
          (m : Memory T) (y : T)
          → c.try_to_owned text ≡ ok y
          → c.allocates ≡ false
          → create_new_arc h c text m ≡ err alloc
      unfolding create_new_arc
      not_allocated m y e t = rw (create_new_arc, e, t) refl

      not_copied :
          (m : Memory T) (x : R)
          → c.try_to_owned text ≡ err x
          → create_new_arc h c text m ≡ err (copy x)
      unfolding create_new_arc
      not_copied m x e = rw (create_new_arc, e) refl

      pub create_new_arc-CreatedSpec :
          (m : Memory T)
          → ((x y : T) → c.try_to_owned x ≡ ok y → y ≡ x)
          → CreatedSpec (create_new_arc h c text m)
      unfolding CreatedSpec ErrorSpec
      create_new_arc-CreatedSpec m f = elim (Result-cases (c.try_to_owned text)) [
        | inl (y, e) ↦ elim (Bool-cases c.allocates) [
          | inl t ↦ rw (created m y e t) (write_at m m.next (new y) ∙ ap new (f text y e))
          | inr t ↦ rw (not_allocated m y e t) (y, e, t)
        ]
        | inr (x, e) ↦ rw (not_copied m x e) e
      ]

      downgrade_at-new :
          (m : Memory T) (a : ℕ)
          → m.cells a ≡ new text
          → downgrade_at h c m a
            ≡ (true, write m a (record { strong = 1; weak = 2; payload = text }))
      unfolding downgrade_at try_downgrade new
      downgrade_at-new m a e = ap (λ i. ((try_downgrade i).0, write m a (try_downgrade i).1)) e

      -- Writing a cell with fewer `Weak`s changes no payload and no strong count.
      replaced-Holds :
          (i old a : ℕ) (m : Memory T) (bs : List Bucket)
          → Holds m text a
          → Holds (replace_weak h c i old a m bs).memory text a
      unfolding replace_weak drop_weak
      replaced-Holds i old a m bs t = elim (Bool-cases (a == old)) [
        | inl e ↦
            let q : a ≡ old = ground (arith, e) in
            rw (e) (
              rw (ap (λ x. (m.cells x).strong) q) at t.0,
              sym (ap (λ x. (m.cells x).payload) q) ∙ t.1,
            )
        | inr e ↦ rw (e) t
      ]

      written-Holds :
          (m : Memory T) (a : ℕ)
          → Holds (write m a (record { strong = 1; weak = 2; payload = text })) text a
      written-Holds m a =
          rw (write_at m a (record { strong = 1; weak = 2; payload = text })) (omega arith, refl)

      record_weak-new :
          (i old : ℕ) (bs : List Bucket) (a : ℕ) (m' m : Memory T)
          → m'.cells a ≡ new text
          → record_weak h c i old bs (ok (a, m')) m ≡ (
            ok a,
            replace_weak h c i old a
                (write m' a (record { strong = 1; weak = 2; payload = text }))
                bs,
          )
      unfolding record_weak store_weak
      record_weak-new i old bs a m' m t = ap (store_weak h c i old bs a) (downgrade_at-new m' a t)

      record_weak-err :
          (i old : ℕ) (bs : List Bucket) (e : InternError R) (m : Memory T)
          → ErrorSpec e
          → AnswerSpec (record_weak h c i old bs (err e) m)
      unfolding record_weak AnswerSpec
      record_weak-err i old bs e m t = t

      record_weak-AnswerSpec :
          (i old : ℕ) (bs : List Bucket) (r : Result (ℕ × Memory T) (InternError R)) (m : Memory T)
          → CreatedSpec r
          → AnswerSpec (record_weak h c i old bs r m)
      unfolding AnswerSpec CreatedSpec
      record_weak-AnswerSpec i old bs (err e) m t = record_weak-err i old bs e m t
      record_weak-AnswerSpec i old bs (ok (a, m')) m t = rw (record_weak-new i old bs a m' m t) (
          replaced-Holds i old a (write m' a (record { strong = 1; weak = 2; payload = text })) bs
            (written-Holds m' a))

      pub record_new-ok :
          (hash : ℕ) (bs : List Bucket) (a : ℕ) (m' m : Memory T)
          → m'.cells a ≡ new text
          → record_new h c hash bs (ok (a, m')) m
            ≡ done (
              ok a,
              record {
                memory = write m' a (record { strong = 1; weak = 2; payload = text });
                table = record { probe = hash; key = hash; weak = a } ∷ bs;
              },
            )
      unfolding record_new insert_no_grow
      record_new-ok hash bs a m' m t = ap (insert_no_grow h c hash bs a) (downgrade_at-new m' a t)

      record_new-err :
          (hash : ℕ) (bs : List Bucket) (e : InternError R) (m : Memory T)
          → ErrorSpec e
          → Returns (record_new h c hash bs (err e) m) AnswerSpec
      unfolding record_new AnswerSpec
      record_new-err hash bs e m t = ((err e, record { memory = m; table = bs }), refl, t)

      pub record_new-AnswerSpec :
          (hash : ℕ) (bs : List Bucket) (r : Result (ℕ × Memory T) (InternError R)) (m : Memory T)
          → CreatedSpec r
          → Returns (record_new h c hash bs r m) AnswerSpec
      unfolding AnswerSpec CreatedSpec
      record_new-AnswerSpec hash bs (err e) m t = record_new-err hash bs e m t
      record_new-AnswerSpec hash bs (ok (a, m')) m t =
          (_, record_new-ok hash bs a m' m t, written-Holds m' a)

      pub upgraded-Holds :
          (m : Memory T) (a : ℕ)
          → (m.cells a).payload ≡ text
          → Holds (write m a (raised (m.cells a))) text a
      upgraded-Holds m a e = rw (write_at m a (raised (m.cells a))) (omega arith, e)

      pub recycled-AnswerSpec :
          (i a : ℕ) (bs : List Bucket) (m : Memory T)
          → IsFaithful c
          → (m.cells a).payload ≡ text
          → AnswerSpec (reuse_or_recycle h c text i a bs (upgrade_at m a))
      unfolding reuse_or_recycle AnswerSpec
      recycled-AnswerSpec i a bs m f e = elim (upgrade_at-cases m a) [
        | inl (l, u) ↦ rw (u) (upgraded-Holds m a e)
        | inr (inl (l, u)) ↦ rw (u) (
            record_weak-AnswerSpec i a bs (create_new_arc h c text m) m
              (create_new_arc-CreatedSpec m f.copies))
        | inr (inr (l, u)) ↦ rw (u) (
            record_weak-AnswerSpec i a bs (create_new_arc h c text m) m
              (create_new_arc-CreatedSpec m f.copies))
      ]
