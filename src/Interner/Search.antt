-- ===== src/Interner/Search.antt =====
-- Looking at an entry changes nothing: the closure that `find` is called with takes an `Arc` and
-- drops it.
use rustyfill.Prelude.{
  ltb, ◌==◌, if◌then◌else◌, Bool-cases, ℕ, ◌+◌, ◌≡◌, refl, sym, ap, ◌∙◌, ◌≢◌, ◌⊎◌, inl, inr, Bool,
  true, false, ◌&&◌, Option, none, some, List, [], ◌∷◌, arith,
}
use std.Path.{fun_ext}
use rustyfill.Arc.{ArcInner, max_refcount, upgraded, gone, refused, drop_arc}
use rustyfill.Arc.Cases.{try_upgrade-cases}
use rustyfill.Interner.{Memory, Bucket, Hashing, write, upgrade_at, deeper, compared, matches, find}

module _ {ℓ} {T : Type ℓ} where
  -- `try_upgrade` hands out an `Arc` of the allocation.
  abbrev pub is_live : ArcInner T → Bool
  is_live i = ltb 0 i.strong && ltb i.strong max_refcount

  -- The entry's allocation is live and holds the text.
  abbrev pub is_hit : Hashing T → T → Memory T → Bucket → Bool
  is_hit h text m b =
      h.probes (h.hash_one text) b.probe
      && (is_live (m.cells b.weak) && h.same (m.cells b.weak).payload text)

  -- The search without its side effects.
  unfoldable pub search_table : Hashing T → T → Memory T → List Bucket → Option (ℕ × ℕ)
  search_table h text m [] = none
  search_table h text m (b ∷ bs) =
      let rest = search_table h text m bs in
      if is_hit h text m b then some (0, b.weak) else deeper rest

  pub write_self : (m : Memory T) (a : ℕ) → write m a (m.cells a) ≡ m
  unfolding write
  write_self m a =
      let same : (x : ℕ) → (if x == a then m.cells a else m.cells x) ≡ m.cells x = λ x.
        elim (Bool-cases (x == a)) [
          | inl e ↦ let here : x ≡ a = ground (arith, e) in rw (e) (ap m.cells (sym here))
          | inr e ↦ rw (e) refl
        ] in
      ap (λ f. record m { cells = f }) (fun_ext same)

  pub write-write :
      (m : Memory T) (a : ℕ) (i j : ArcInner T) → write (write m a i) a j ≡ write m a j
  unfolding write
  write-write m a i j =
      let same : (x : ℕ)
          → (if x == a then j else if x == a then i else m.cells x)
            ≡ (if x == a then j else m.cells x) =
        λ x. elim (Bool-cases (x == a)) [ inl e ↦ rw (e) refl | inr e ↦ rw (e) refl ] in
      ap (λ f. record m { cells = f }) (fun_ext same)

  pub write_at : (m : Memory T) (a : ℕ) (i : ArcInner T) → (write m a i).cells a ≡ i
  unfolding write
  write_at m a i = let here : (a == a) ≡ true = ground arith in rw (here) refl

  pub write_apart :
      (m : Memory T) (a x : ℕ) (i : ArcInner T) → x ≢ a → (write m a i).cells x ≡ m.cells x
  unfolding write
  write_apart m a x i n = let there : (x == a) ≡ false = ground (arith, n) in rw (there) refl

  -- The allocation with one more `Arc`.
  abbrev pub raised : ArcInner T → ArcInner T
  raised i = record i { strong = i.strong + 1 }

  -- The answers of an upgrade, by the count.
  pub upgrade_at-cases :
      (m : Memory T) (a : ℕ)
      → ((is_live (m.cells a) ≡ true)
          × (upgrade_at m a ≡ (upgraded, write m a (raised (m.cells a)))))
        ⊎ ((is_live (m.cells a) ≡ false) × (upgrade_at m a ≡ (gone, m)))
        ⊎ ((is_live (m.cells a) ≡ false) × (upgrade_at m a ≡ (refused, m)))
  unfolding upgrade_at
  upgrade_at-cases m a = elim (try_upgrade-cases (m.cells a)) [
    | inl (e, l, k) ↦ inl (ground (arith, l, k), ap (λ r. (r.0, write m a r.1)) e)
    | inr (inl (e, z)) ↦ inr (
        inl (
          ground (arith, z),
          ap (λ r. (r.0, write m a r.1)) e ∙ ap (λ n. (gone, n)) (write_self m a),
        ))
    | inr (inr (e, l)) ↦ inr (
        inr (
          ground (arith, l),
          ap (λ r. (r.0, write m a r.1)) e ∙ ap (λ n. (refused, n)) (write_self m a),
        ))
  ]

  -- Taking an `Arc` and dropping it gives the memory back.
  pub raised-drop :
      (m : Memory T) (a : ℕ)
      → write
          (write m a (raised (m.cells a)))
          a
          (drop_arc ((write m a (raised (m.cells a))).cells a))
        ≡ m
  unfolding drop_arc
  raised-drop m a =
      let e : drop_arc (raised (m.cells a)) ≡ m.cells a =
        ap (λ n. record (m.cells a) { strong = n }) (omega arith) in
      ap (λ i. write (write m a (raised (m.cells a))) a (drop_arc i))
        (write_at m a (raised (m.cells a)))
      ∙ (ap (write (write m a (raised (m.cells a))) a) e
          ∙ (write-write m a (raised (m.cells a)) (m.cells a) ∙ write_self m a))

  matches_lem :
      (h : Hashing T) (text : T) (a : ℕ) (m : Memory T)
      → matches h text a m ≡ (is_live (m.cells a) && h.same (m.cells a).payload text, m)
  unfolding matches compared
  matches_lem h text a m = elim (upgrade_at-cases m a) [
    | inl (l, e) ↦
        let i = raised (m.cells a) in
        let m' = write m a i in
        ap (compared h text a) e
        ∙ (ap (λ x. (h.same x.payload text, write m' a (drop_arc (m'.cells a)))) (write_at m a i)
            ∙ (ap (λ n. (h.same (m.cells a).payload text, n)) (raised-drop m a) ∙ rw (l) refl))
    | inr (inl (l, e)) ↦ ap (compared h text a) e ∙ rw (l) refl
    | inr (inr (l, e)) ↦ ap (compared h text a) e ∙ rw (l) refl
  ]

  -- `find` changes nothing, and finds the first entry that its search visits whose allocation is
  -- live and holds the text.
  pub find-search_table :
      (h : Hashing T) (text : T) (bs : List Bucket) (m : Memory T)
      → find h text bs m ≡ (search_table h text m bs, m)
  unfolding find search_table
  find-search_table h text [] m = refl
  find-search_table h text (b ∷ bs) m = elim (Bool-cases (h.probes (h.hash_one text) b.probe)) [
    | inl p ↦
        rw (find, p, matches_lem h text b.weak m, find-search_table h text bs m)
          (elim (Bool-cases (is_live (m.cells b.weak) && h.same (m.cells b.weak).payload text)) [
            | inl t ↦ rw (t) refl
            | inr t ↦ rw (t) refl
          ])
    | inr p ↦ rw (find, p, find-search_table h text bs m) refl
  ]
