-- ===== src/ModulePath/Relations.antt =====
-- The relations between paths: prefix, parent and child.
use rustyfill.Prelude.{
  Bool-cases, Option-cases, length, take, drop, length-append, get_elem?-push, ℕ, zero, suc, ◌-◌,
  ◌≡◌, refl, sym, ap, ◌∙◌, ◌↔◌, inl, inr, true, some, List, [], ◌∷◌, ◌++◌, arith,
}
use rustyfill.Text.{Text, text_eq_refl, text_eq-eq}
use rustyfill.ModulePath.{
  ModulePath, depth, leaf, parent_owned, join_child, segments_eq, starts_with, contains,
  is_direct_parent_of, relative_segments, only_segment, child_name_below,
}

starts_with-append : (ps qs : List Text) → starts_with (ps ++ qs) ps ≡ true
unfolding starts_with
starts_with-append [] qs = refl
starts_with-append (p ∷ ps) qs = rw (text_eq_refl p, starts_with-append ps qs)

starts_with-drop : (qs ps : List Text) → starts_with qs ps ≡ true → qs ≡ ps ++ drop (length ps) qs
unfolding starts_with
starts_with-drop qs [] h = refl
starts_with-drop [] (p ∷ ps) h = cc
starts_with-drop (q ∷ qs) (p ∷ ps) h =
    let e : q ≡ p = text_eq-eq q p (ground (arith, h)) in
    let ih = starts_with-drop qs ps (ground (arith, h)) in cc

drop-append : (ps qs : List Text) → drop (length ps) (ps ++ qs) ≡ qs
drop-append [] qs = refl
drop-append (p ∷ ps) qs = drop-append ps qs

pub take-append : (ps qs : List Text) → take (length ps) (ps ++ qs) ≡ ps
take-append [] qs = refl
take-append (p ∷ ps) qs = ap (◌∷◌ p) (take-append ps qs)

take-drop : (n : ℕ) (ps : List Text) → take n ps ++ drop n ps ≡ ps
take-drop zero ps = refl
take-drop (suc n) [] = refl
take-drop (suc n) (p ∷ ps) = ap (◌∷◌ p) (take-drop n ps)

segments_eq_refl : (ps : List Text) → segments_eq ps ps ≡ true
unfolding segments_eq
segments_eq_refl [] = refl
segments_eq_refl (p ∷ ps) = rw (text_eq_refl p, segments_eq_refl ps)

segments_eq-eq : (ps qs : List Text) → segments_eq ps qs ≡ true → ps ≡ qs
unfolding segments_eq
segments_eq-eq [] [] h = refl
segments_eq-eq [] (q ∷ qs) h = cc
segments_eq-eq (p ∷ ps) [] h = cc
segments_eq-eq (p ∷ ps) (q ∷ qs) h =
    let e = text_eq-eq p q (ground (arith, h)) in
    let ih = segments_eq-eq ps qs (ground (arith, h)) in cc

-- `relative_segments` returns `rest` exactly if the path is the prefix followed by `rest`.
pub relative_segments_iff :
    (p prefix : ModulePath) (rest : List Text)
    → (relative_segments p prefix ≡ some rest) ↔ (p.segments ≡ prefix.segments ++ rest)
unfolding relative_segments contains
relative_segments_iff p prefix rest = (
  λ e. elim (Bool-cases (starts_with p.segments prefix.segments)) [
    | inl below ↦
        let r : drop (length prefix.segments) p.segments ≡ rest = ground (arith, below, e) in
        starts_with-drop p.segments prefix.segments below ∙ ap (◌++◌ prefix.segments) r
    | inr apart ↦ absurd (ground (arith, apart, e))
  ],
  λ e. rw (e, starts_with-append prefix.segments rest, drop-append prefix.segments rest) refl,
)

only_segment_cases :
    (rest : List Text) (name : Text) → only_segment rest ≡ some name → rest ≡ name ∷ []
unfolding only_segment
only_segment_cases [] name e = cc
only_segment_cases (r ∷ []) name e = ground (arith, e)
only_segment_cases (r ∷ q ∷ rest) name e = absurd (ground (arith, e))

-- `child_name_below` returns a name exactly if the path is that child of the prefix.
pub child_name_below_iff :
    (p prefix : ModulePath) (name : Text)
    → (child_name_below p prefix ≡ some name) ↔ (p ≡ join_child prefix name)
unfolding child_name_below join_child only_segment
child_name_below_iff p prefix name = (
  λ e. elim (Option-cases (relative_segments p prefix)) [
    | inl out ↦ absurd (ground (arith, out, e))
    | inr (rest, is) ↦
        let one : rest ≡ name ∷ [] =
          only_segment_cases rest name (rw (child_name_below, is) at e) in
        ap (λ ps. record { segments = ps })
          ((relative_segments_iff p prefix rest).0 is ∙ ap (◌++◌ prefix.segments) one)
  ],
  λ e.
      rw (child_name_below, (relative_segments_iff p prefix (name ∷ [])).1 (ap (λ q. q.segments) e))
        refl,
)

length_one : (ps : List Text) → length ps ≡ 1 → (p : Text) × (ps ≡ p ∷ [])
length_one [] h = absurd (omega arith)
length_one (p ∷ []) h = (p, refl)
length_one (p ∷ q ∷ ps) h = absurd (omega arith)

-- `is_direct_parent_of` holds exactly of the paths that extend this one by one segment.
pub is_direct_parent_of_iff :
    (p other : ModulePath)
    → (is_direct_parent_of p other ≡ true) ↔ ((name : Text) × (other ≡ join_child p name))
unfolding is_direct_parent_of join_child
is_direct_parent_of_iff p other = (
  λ e.
      let (name, one) = length_one (drop (depth p) other.segments) (ground (arith, e)) in
      let same = segments_eq-eq (take (depth p) other.segments) p.segments (ground (arith, e)) in
      (
        name,
        ap (λ ps. record { segments = ps })
            (sym (take-drop (depth p) other.segments) ∙ rw (same, one) refl),
      ),
  λ (name, e).
      rw
        (
          e,
          take-append p.segments (name ∷ []),
          drop-append p.segments (name ∷ []),
          segments_eq_refl p.segments,
        )
        (ground (arith, length-append p.segments (name ∷ []))),
)

-- A path's child has the path as its parent and its name as the leaf.
pub parent_owned-join_child :
    (p : ModulePath) (name : Text)
    → (parent_owned (join_child p name) ≡ p) × (leaf (join_child p name) ≡ name)
unfolding parent_owned leaf join_child
parent_owned-join_child p name =
    let e : length (p.segments ++ name ∷ []) - 1 ≡ length p.segments =
      omega (arith, length-append p.segments (name ∷ [])) in
    (
      rw (e, take-append p.segments (name ∷ [])) refl,
      rw (e, get_elem?-push p.segments (length p.segments) name) (ground arith),
    )
