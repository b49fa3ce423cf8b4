-- ===== src/Text.antt =====
-- The parts of Rust's `str` that the code uses, over lists of code points.
use mathlib.Core.List.{reverse}
use mathlib.Core.Option
use rustyfill.Prelude.{
  ◌==◌, if◌then◌else◌, Bool-cases, All, ℕ, ◌≡◌, refl, ap, ◌∙◌, inl, inr, Bool, true, false, ◌&&◌,
  Option, none, some, List, [], ◌∷◌, ◌++◌, arith,
}

abbrev pub Text : Type 0
Text = List ℕ

unfoldable pub text_eq : Text → Text → Bool
text_eq [] [] = true
text_eq [] (y ∷ ys) = false
text_eq (x ∷ xs) [] = false
text_eq (x ∷ xs) (y ∷ ys) = x == y && text_eq xs ys

pub text_eq_refl : (xs : Text) → text_eq xs xs ≡ true
unfolding text_eq
text_eq_refl [] = refl
text_eq_refl (x ∷ xs) = ground (arith, text_eq_refl xs)

pub text_eq-eq : (xs ys : Text) → text_eq xs ys ≡ true → xs ≡ ys
unfolding text_eq
text_eq-eq [] [] h = refl
text_eq-eq [] (y ∷ ys) h = cc
text_eq-eq (x ∷ xs) [] h = cc
text_eq-eq (x ∷ xs) (y ∷ ys) h = ground (arith, text_eq-eq xs ys)

-- A character goes to the front of the first piece.
unfoldable pub cons_first : ℕ → List Text → List Text
cons_first x [] = (x ∷ []) ∷ []
cons_first x (p ∷ ps) = (x ∷ p) ∷ ps

-- `split(c)`: always at least one piece.
unfoldable pub split_char : ℕ → Text → List Text
unfolding cons_first
split_char c [] = [] ∷ []
split_char c (x ∷ xs) =
    let rest = split_char c xs in if x == c then [] ∷ rest else cons_first x rest

-- `split("::")`: separators do not overlap, and the leftmost one comes first.
unfoldable pub split_colons : Text → List Text
unfolding cons_first
split_colons [] = [] ∷ []
split_colons (x ∷ []) = (x ∷ []) ∷ []
split_colons (x ∷ y ∷ xs) = elim (x == b':' && y == b':') [
  | true ↦ [] ∷ split_colons xs
  | false ↦ cons_first x (split_colons (y ∷ xs))
]

-- `join(sep)`
unfoldable pub join : Text → List Text → Text
join sep [] = []
join sep (p ∷ []) = p
join sep (p ∷ q ∷ ps) = p ++ (sep ++ join sep (q ∷ ps))

unfoldable pub strip_prefix : Text → Text → Option Text
strip_prefix [] ys = some ys
strip_prefix (x ∷ xs) [] = none
strip_prefix (x ∷ xs) (y ∷ ys) = if x == y then strip_prefix xs ys else none

unfoldable pub strip_suffix : Text → Text → Option Text
unfolding strip_prefix
strip_suffix suffix s = Option.map reverse (strip_prefix (reverse suffix) (reverse s))

abbrev pub Lacks : ℕ → Text → Type 0
Lacks c = All (λ x. (x == c) ≡ false)

split_char_lacking : (c : ℕ) (p : Text) → Lacks c p → split_char c p ≡ p ∷ []
unfolding split_char
split_char_lacking c [] h = refl
split_char_lacking c (x ∷ p) h = rw (h.0, split_char_lacking c p h.1)

split_char-append :
    (c : ℕ) (p r : Text) → Lacks c p → split_char c (p ++ (c ∷ r)) ≡ p ∷ split_char c r
unfolding split_char
split_char-append c [] r h = let e : (c == c) ≡ true = ground arith in rw e
split_char-append c (x ∷ p) r h = rw (h.0, split_char-append c p r h.1)

-- Pieces without the separator survive joining and splitting.
pub split_char-join :
    (c : ℕ) (p : Text) (ps : List Text)
    → All (Lacks c) (p ∷ ps)
    → split_char c (join (c ∷ []) (p ∷ ps)) ≡ p ∷ ps
unfolding join
split_char-join c p [] h = split_char_lacking c p h.0
split_char-join c p (q ∷ ps) h =
    split_char-append c p (join (c ∷ []) (q ∷ ps)) h.0 ∙ ap (◌∷◌ p) (split_char-join c q ps h.1)

pub split_char-cons : (c : ℕ) (s : Text) → (p : Text) × (ps : List Text) × (split_char c s ≡ p ∷ ps)
unfolding split_char
split_char-cons c [] = ([], [], refl)
split_char-cons c (x ∷ xs) =
    let (p, ps, e) = split_char-cons c xs in
    elim (Bool-cases (x == c)) [
      | inl here ↦ ([], p ∷ ps, rw (here, e))
      | inr other ↦ (x ∷ p, ps, rw (other, e))
    ]

join-cons_first :
    (sep : Text) (x : ℕ) (p : Text) (ps : List Text)
    → join sep ((x ∷ p) ∷ ps) ≡ x ∷ join sep (p ∷ ps)
unfolding join
join-cons_first sep x p [] = refl
join-cons_first sep x p (q ∷ ps) = refl

-- Joining what was split gives back the text.
pub join-split_char : (c : ℕ) (s : Text) → join (c ∷ []) (split_char c s) ≡ s
unfolding split_char join
join-split_char c [] = refl
join-split_char c (x ∷ xs) =
    let (p, ps, e) = split_char-cons c xs in
    let ih = join-split_char c xs in
    elim (Bool-cases (x == c)) [
      | inl here ↦ rw (here, e) (ground (arith, here, e, ih))
      | inr other ↦ rw (other, e) (join-cons_first (c ∷ []) x p ps ∙ ap (◌∷◌ x) (rw e at ih))
    ]
