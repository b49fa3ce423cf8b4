-- ===== src/Interner/Answer.antt =====
-- What `do_intern_with_key` answers, whatever other threads do meanwhile.
use rustyfill.Prelude.{
  Option-cases, ok, err, Returns, ℕ, ◌≡◌, refl, ◌∙◌, ◌⊎◌, inl, inr, none, List, map,
}
use rustyfill.Interner.{
  Memory, Bucket, Store, full, reserve, Hashing, Call, upgrade_at, rehash, hit_or_miss, look_up,
  fast_path, reserve_one, create_new_arc, reuse_or_recycle, write_locked, reserved_or_not,
  slow_path, unless_hit, do_intern_with_key,
}
use rustyfill.Interner.Search.{search_table, find-search_table, upgrade_at-cases}
use rustyfill.Interner.Created.{
  IsEquality, IsFaithful, AnswerSpec, ErrorSpec, Reserved-cases, search-payload,
  record_new-AnswerSpec, recycled-AnswerSpec, create_new_arc-CreatedSpec, upgraded-Holds,
}

module _ {ℓ} {T : Type ℓ} where
  module _ {R : Type ℓ} (c : Call T R) (text : T) where
    module _ (h : Hashing T) where
      write_locked-AnswerSpec :
          (bs : List Bucket) (m : Memory T)
          → IsEquality h
          → IsFaithful c
          → Returns (write_locked h c text bs (search_table h text m bs, m)) (AnswerSpec c text)
      unfolding write_locked
      write_locked-AnswerSpec bs m q f = elim (Option-cases (search_table h text m bs)) [
        | inl e ↦ rw (e) (
            record_new-AnswerSpec c text h (h.hash_one text) bs (create_new_arc h c text m) m
              (create_new_arc-CreatedSpec c text h m f.copies))
        | inr ((i, a), e) ↦ rw (e) (
          reuse_or_recycle h c text i a bs (upgrade_at (c.during_write m) a),
          refl,
          recycled-AnswerSpec c text h i a bs (c.during_write m) f
              (f.write_keeps m a ∙ search-payload h text m bs i a q e),
        )
      ]

      reserved-AnswerSpec :
          (m : Memory T) (bs bs' : List Bucket)
          → IsEquality h
          → IsFaithful c
          → Returns (reserved_or_not h c text m bs (ok bs')) (AnswerSpec c text)
      unfolding reserved_or_not
      reserved-AnswerSpec m bs bs' q f =
          rw (find-search_table h text bs' m) (write_locked-AnswerSpec bs' m q f)

      reserve_one-cases :
          (bs : List Bucket)
          → ((e : R) × (reserve_one h c bs ≡ err e) × (c.reserves ≡ full e))
            ⊎ ((bs' : List Bucket) × (reserve_one h c bs ≡ ok bs'))
      unfolding reserve_one
      reserve_one-cases bs = elim (Reserved-cases c.reserves) [
        | inl (e, u) ↦ inl (e, rw (reserve_one, u) refl, u)
        | inr (inl u) ↦ inr (bs, rw (reserve_one, u) refl)
        | inr (inr u) ↦ inr (map (rehash h) bs, rw (reserve_one, u) refl)
      ]

      refused-AnswerSpec :
          (m : Memory T) (bs : List Bucket) (e : R)
          → c.reserves ≡ full e
          → Returns (reserved_or_not h c text m bs (err e)) (AnswerSpec c text)
      unfolding reserved_or_not AnswerSpec ErrorSpec
      refused-AnswerSpec m bs e t = ((err (reserve e), record { memory = m; table = bs }), refl, t)

      slow_path-AnswerSpec :
          (s : Store T)
          → IsEquality h
          → IsFaithful c
          → Returns (slow_path h c text s) (AnswerSpec c text)
      unfolding slow_path
      slow_path-AnswerSpec s q f = elim (reserve_one-cases s.table) [
        | inl (e, u, t) ↦ rw (u) (refused-AnswerSpec s.memory s.table e t)
        | inr (bs, u) ↦ rw (u) (reserved-AnswerSpec s.memory s.table bs q f)
      ]

      missed-AnswerSpec :
          (bs : List Bucket) (m : Memory T)
          → IsEquality h
          → IsFaithful c
          → Returns
              (unless_hit h c text (none, record { memory = m; table = bs }))
              (AnswerSpec c text)
      unfolding unless_hit
      missed-AnswerSpec bs m q f =
          slow_path-AnswerSpec (c.unlocked (record { memory = m; table = bs })) q f

      hit-AnswerSpec :
          (a : ℕ) (bs : List Bucket) (m : Memory T)
          → IsEquality h
          → IsFaithful c
          → (m.cells a).payload ≡ text
          → Returns
              (unless_hit h c text (hit_or_miss h c a bs (upgrade_at m a)))
              (AnswerSpec c text)
      unfolding unless_hit hit_or_miss AnswerSpec
      hit-AnswerSpec a bs m q f e = elim (upgrade_at-cases m a) [
        | inl (l, u) ↦ rw (u) (_, refl, upgraded-Holds c text h m a e)
        | inr (inl (l, u)) ↦
            rw (u) (slow_path-AnswerSpec (c.unlocked (record { memory = m; table = bs })) q f)
        | inr (inr (l, u)) ↦
            rw (u) (slow_path-AnswerSpec (c.unlocked (record { memory = m; table = bs })) q f)
      ]

      looked-AnswerSpec :
          (bs : List Bucket) (m : Memory T)
          → IsEquality h
          → IsFaithful c
          → Returns
              (unless_hit h c text (look_up h c bs (search_table h text m bs, m)))
              (AnswerSpec c text)
      unfolding look_up
      looked-AnswerSpec bs m q f = elim (Option-cases (search_table h text m bs)) [
        | inl e ↦ rw (e) (missed-AnswerSpec bs m q f)
        | inr ((i, a), e) ↦ rw (e) (
            hit-AnswerSpec a bs (c.during_read m) q f
              (f.read_keeps m a ∙ search-payload h text m bs i a q e))
      ]

      -- `do_intern_with_key` never panics. It returns a live `Arc` of the text, or the error of the
      -- reservation, of the text's copy, or of the allocation of an `Arc` for the copy, each of which
      -- then failed. This holds whatever other threads do to the counts and to the table meanwhile.
      pub intern-AnswerSpec :
          (s : Store T)
          → IsEquality h
          → IsFaithful c
          → Returns (do_intern_with_key h c text s) (AnswerSpec c text)
      unfolding do_intern_with_key fast_path
      intern-AnswerSpec s q f =
          rw (find-search_table h text s.table s.memory) (looked-AnswerSpec s.table s.memory q f)
