-- ===== src/ModulePath/Parse.antt =====
-- The slash-separated spelling of `ModulePath` and its parser.
use rustyfill.Prelude.{
  ◌==◌, Bool-cases, All, ℕ, ◌≡◌, refl, sym, ap, ◌∙◌, ◌⊎◌, inl, inr, true, false, ◌||◌, some, List,
  [], ◌∷◌, arith,
}
use rustyfill.Text.{Text, Lacks, split_char, join, split_char-join, join-split_char}
use rustyfill.ModulePath.{
  ModulePath, is_ascii_alphabetic, is_ascii_alphanumeric, all_word, is_identifier, is_empty,
  accepts, is_single_empty, parse, from_slash, to_slash,
}

abbrev pub IsIdentifier : Text → Type 0
IsIdentifier p = is_identifier p ≡ true

-- Every segment is an identifier.
abbrev pub IsValid : ModulePath → Type 0
IsValid p = All IsIdentifier p.segments

-- A character that no identifier has.
abbrev pub IsSeparator : ℕ → Type 0
IsSeparator c = (is_ascii_alphanumeric c || c == b'_') ≡ false

all_word-Lacks : (c : ℕ) → IsSeparator c → (cs : Text) → all_word cs ≡ true → Lacks c cs
unfolding all_word
all_word-Lacks c sep [] h = tt
all_word-Lacks c sep (x ∷ cs) h = elim (Bool-cases (x == c)) [
  | inl same ↦
      let e : x ≡ c = ground (arith, same) in
      absurd (ground (arith, sep, ap is_ascii_alphanumeric e, h))
  | inr other ↦ (other, all_word-Lacks c sep cs (ground (arith, h)))
]

identifier-all_word : (p : Text) → IsIdentifier p → all_word p ≡ true
unfolding is_identifier all_word is_ascii_alphanumeric
identifier-all_word [] h = cc
identifier-all_word (c ∷ cs) h = ground (arith, h)

pub identifier-Lacks : (c : ℕ) → IsSeparator c → (p : Text) → IsIdentifier p → Lacks c p
identifier-Lacks c sep p h = all_word-Lacks c sep p (identifier-all_word p h)

pub All-Lacks : (c : ℕ) → IsSeparator c → (ps : List Text) → All IsIdentifier ps → All (Lacks c) ps
All-Lacks c sep [] h = tt
All-Lacks c sep (p ∷ ps) h = (identifier-Lacks c sep p h.0, All-Lacks c sep ps h.1)

accepts-All : (ps : List Text) → accepts ps ≡ true → All IsIdentifier ps
unfolding accepts
accepts-All [] h = tt
accepts-All (p ∷ ps) h = (ground (arith, h), accepts-All ps (ground (arith, h)))

identifier-is_empty : (p : Text) → IsIdentifier p → is_empty p ≡ false
unfolding is_identifier is_empty
identifier-is_empty [] h = cc
identifier-is_empty (c ∷ cs) h = refl

All-accepts : (ps : List Text) → All IsIdentifier ps → accepts ps ≡ true
unfolding accepts
All-accepts [] h = refl
All-accepts (p ∷ ps) h = rw (h.0, identifier-is_empty p h.0, All-accepts ps h.1)

is_single_empty_identifier :
    (p : Text) (ps : List Text) → IsIdentifier p → is_single_empty (p ∷ ps) ≡ false
unfolding is_single_empty
is_single_empty_identifier p [] h = identifier-is_empty p h
is_single_empty_identifier p (q ∷ ps) h = refl

-- Parsing identifiers keeps them; there is at least one.
pub parse-valid :
    (p : Text) (ps : List Text)
    → All IsIdentifier (p ∷ ps)
    → parse (p ∷ ps) ≡ some (record { segments = p ∷ ps })
unfolding parse
parse-valid p ps h = rw (is_single_empty_identifier p ps h.0, All-accepts (p ∷ ps) h)

is_single_empty-eq : (ps : List Text) → is_single_empty ps ≡ true → ps ≡ [] ∷ []
unfolding is_single_empty is_empty
is_single_empty-eq [] h = cc
is_single_empty-eq ([] ∷ []) h = refl
is_single_empty-eq ((c ∷ cs) ∷ []) h = cc
is_single_empty-eq (p ∷ q ∷ ps) h = cc

-- What `parse` returns: the root for one empty segment, or the segments, which are identifiers.
pub parse_cases :
    (ps : List Text) (m : ModulePath)
    → parse ps ≡ some m
    → ((ps ≡ [] ∷ []) × (m.segments ≡ [])) ⊎ ((m.segments ≡ ps) × IsValid m)
unfolding parse
parse_cases ps m e = elim (Bool-cases (is_single_empty ps)) [
  | inl single ↦ inl (is_single_empty-eq ps single, ground (arith, single, e))
  | inr other ↦ elim (Bool-cases (accepts ps)) [
    | inl good ↦
        let same : m.segments ≡ ps = ground (arith, other, good, e) in
        inr (same, rw same (accepts-All ps good))
    | inr bad ↦ absurd (ground (arith, other, bad, e))
  ]
]

slash-IsSeparator : IsSeparator b'/'
unfolding is_ascii_alphanumeric is_ascii_alphabetic
slash-IsSeparator = refl

parse-split_char :
    (ps : List Text)
    → All IsIdentifier ps
    → parse (split_char b'/' (join (b'/' ∷ []) ps)) ≡ some (record { segments = ps })
unfolding join split_char parse is_single_empty is_empty
parse-split_char [] h = refl
parse-split_char (p ∷ ps) h =
    ap parse (split_char-join b'/' p ps (All-Lacks b'/' slash-IsSeparator (p ∷ ps) h))
    ∙ parse-valid p ps h

-- Parsing the slash-separated spelling of a path whose segments are identifiers gives back the
-- path.
pub from_slash-to_slash : (p : ModulePath) → IsValid p → from_slash (to_slash p) ≡ some p
unfolding from_slash to_slash
from_slash-to_slash p h = parse-split_char p.segments h

-- A text that `from_slash` accepts is the spelling of the path that it returns, and that path's
-- segments are identifiers.
pub to_slash-from_slash :
    (s : Text) (m : ModulePath) → from_slash s ≡ some m → (to_slash m ≡ s) × IsValid m
unfolding from_slash to_slash
to_slash-from_slash s m e = elim (parse_cases (split_char b'/' s) m e) [
  | inl (single, empty) ↦
      (rw empty (ap (join (b'/' ∷ [])) (sym single) ∙ join-split_char b'/' s), rw empty tt)
  | inr (same, valid) ↦ (ap (join (b'/' ∷ [])) same ∙ join-split_char b'/' s, valid)
]
