-- ===== src/ModulePath/Canonical.antt =====
-- The `::`-separated spelling of `ModulePath` and its parser.
use rustyfill.Prelude.{◌==◌, All, ℕ, ◌≡◌, refl, ap, ◌∙◌, false, some, List, [], ◌∷◌, ◌++◌}
use rustyfill.Text.{Text, Lacks, cons_first, split_colons, join}
use rustyfill.ModulePath.{
  ModulePath, is_ascii_alphabetic, is_ascii_alphanumeric, is_empty, is_single_empty, parse,
  from_canonical, to_canonical,
}
use rustyfill.ModulePath.Parse.{IsIdentifier, IsValid, IsSeparator, All-Lacks, parse-valid}

abbrev colons : Text
colons = b':' ∷ b':' ∷ []

split_colons_step :
    (x y : ℕ) (xs : Text)
    → (x == b':') ≡ false
    → split_colons (x ∷ y ∷ xs) ≡ cons_first x (split_colons (y ∷ xs))
unfolding split_colons
split_colons_step x y xs h = rw (split_colons, h) refl

split_colons_lacking : (p : Text) → Lacks b':' p → split_colons p ≡ p ∷ []
unfolding split_colons cons_first
split_colons_lacking [] h = refl
split_colons_lacking (x ∷ []) h = refl
split_colons_lacking (x ∷ y ∷ p) h =
    split_colons_step x y p h.0 ∙ ap (cons_first x) (split_colons_lacking (y ∷ p) h.1)

split_colons-append :
    (p r : Text) → Lacks b':' p → split_colons (p ++ (colons ++ r)) ≡ p ∷ split_colons r
unfolding split_colons cons_first
split_colons-append [] r h = refl
split_colons-append (x ∷ []) r h = split_colons_step x b':' (b':' ∷ r) h.0
split_colons-append (x ∷ y ∷ p) r h =
    split_colons_step x y (p ++ (colons ++ r)) h.0
    ∙ ap (cons_first x) (split_colons-append (y ∷ p) r h.1)

-- Pieces without a colon survive joining and splitting.
split_colons-join :
    (p : Text) (ps : List Text)
    → All (Lacks b':') (p ∷ ps)
    → split_colons (join colons (p ∷ ps)) ≡ p ∷ ps
unfolding join
split_colons-join p [] h = split_colons_lacking p h.0
split_colons-join p (q ∷ ps) h =
    split_colons-append p (join colons (q ∷ ps)) h.0 ∙ ap (◌∷◌ p) (split_colons-join q ps h.1)

colon-IsSeparator : IsSeparator b':'
unfolding is_ascii_alphanumeric is_ascii_alphabetic
colon-IsSeparator = refl

parse-split_colons :
    (ps : List Text)
    → All IsIdentifier ps
    → parse (split_colons (join colons ps)) ≡ some (record { segments = ps })
unfolding join split_colons parse is_single_empty is_empty
parse-split_colons [] h = refl
parse-split_colons (p ∷ ps) h =
    ap parse (split_colons-join p ps (All-Lacks b':' colon-IsSeparator (p ∷ ps) h))
    ∙ parse-valid p ps h

-- Parsing the `::`-separated spelling of a path whose segments are identifiers gives back the
-- path.
pub from_canonical-to_canonical :
    (p : ModulePath) → IsValid p → from_canonical (to_canonical p) ≡ some p
unfolding from_canonical to_canonical
from_canonical-to_canonical p h = parse-split_colons p.segments h
