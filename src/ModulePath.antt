-- ===== src/ModulePath.antt =====
-- `rustyfill-sys-bindings/src/syntaxes/module_path.rs`: the position of a module in the library's
-- namespace tree. A slice `a[n..]` or `a[..n]` stands behind a test that it is in range, so it is
-- `drop` or `take`.
pub mod Parse
pub mod Canonical
pub mod Relations
pub mod Views
use mathlib.Core.Option
use rustyfill.Prelude.{
  leb, ◌==◌, if◌then◌else◌, length, get_elem?, take, drop, ℕ, ◌+◌, ◌-◌, Bool, true, false, not,
  ◌&&◌, ◌||◌, Option, none, some, List, [], ◌∷◌, ◌++◌,
}
use rustyfill.Text.{Text, text_eq, split_char, split_colons, join, strip_suffix}

pub record ModulePath : Type 0 where
  pub segments : List Text

unfoldable pub is_ascii_alphabetic : ℕ → Bool
is_ascii_alphabetic c = (leb b'a' c && leb c b'z') || (leb b'A' c && leb c b'Z')

unfoldable pub is_ascii_alphanumeric : ℕ → Bool
unfolding is_ascii_alphabetic
is_ascii_alphanumeric c = is_ascii_alphabetic c || (leb b'0' c && leb c b'9')

-- `chars.all(..)` of `is_identifier`.
unfoldable pub all_word : Text → Bool
unfolding is_ascii_alphanumeric
all_word [] = true
all_word (c ∷ cs) = (is_ascii_alphanumeric c || c == b'_') && all_word cs

unfoldable pub is_identifier : Text → Bool
unfolding all_word is_ascii_alphabetic
is_identifier [] = false
is_identifier (c ∷ cs) = if is_ascii_alphabetic c || c == b'_' then all_word cs else false

unfoldable pub is_empty : Text → Bool
is_empty [] = true
is_empty (c ∷ cs) = false

abbrev pub root : ModulePath
root = record { segments = [] }

-- The loop of `parse` over the segments: whether it runs to its end.
unfoldable pub accepts : List Text → Bool
unfolding is_identifier is_empty
accepts [] = true
accepts (p ∷ ps) = if is_empty p || not (is_identifier p) then false else accepts ps

-- `collected.len() == 1 && collected[0].is_empty()`
unfoldable pub is_single_empty : List Text → Bool
unfolding is_empty
is_single_empty [] = false
is_single_empty (p ∷ []) = is_empty p
is_single_empty (p ∷ q ∷ ps) = false

unfoldable pub parse : List Text → Option ModulePath
unfolding accepts is_single_empty
parse collected =
    if is_single_empty collected
    then some root
    else if accepts collected
    then some (record { segments = collected })
    else none

unfoldable pub from_slash : Text → Option ModulePath
unfolding parse split_char
from_slash slash = parse (split_char b'/' slash)

unfoldable pub from_canonical : Text → Option ModulePath
unfolding parse split_colons
from_canonical canonical = parse (split_colons canonical)

abbrev pub unwrap_or : {A : Type 0} → Option A → A → A
unwrap_or none d = d
unwrap_or (some a) d = a

unfoldable pub from_file_stem : Text → Option ModulePath
unfolding from_slash strip_suffix text_eq
from_file_stem path =
    let without_rs = unwrap_or (strip_suffix (b'.' ∷ b'r' ∷ b's' ∷ []) path) path in
    let cleaned = unwrap_or (strip_suffix (b'/' ∷ b'm' ∷ b'o' ∷ b'd' ∷ []) without_rs) without_rs in
    if text_eq cleaned (b'm' ∷ b'o' ∷ b'd' ∷ []) then some root else from_slash cleaned

-- The loop of `from_segments`.
unfoldable pub segments_pass : List Text → Bool
unfolding is_identifier is_empty
segments_pass [] = true
segments_pass (p ∷ ps) =
    if not (is_empty p) && not (is_identifier p) then false else segments_pass ps

unfoldable pub from_segments : List Text → Option ModulePath
unfolding segments_pass
from_segments ps = if segments_pass ps then some (record { segments = ps }) else none

unfoldable pub is_root : ModulePath → Bool
is_root p = elim p.segments [ [] ↦ true | _ ∷ _ ↦ false ]

abbrev pub depth : ModulePath → ℕ
depth p = length p.segments

unfoldable pub leaf : ModulePath → Text
leaf p = unwrap_or (get_elem? p.segments (depth p - 1)) []

unfoldable pub head : ModulePath → Text
head p = unwrap_or (get_elem? p.segments 0) []

unfoldable pub parent_owned : ModulePath → ModulePath
parent_owned p = record { segments = take (depth p - 1) p.segments }

unfoldable pub join_child : ModulePath → Text → ModulePath
join_child p name = record { segments = p.segments ++ name ∷ [] }

-- `==` of two slices of segments.
unfoldable pub segments_eq : List Text → List Text → Bool
unfolding text_eq
segments_eq [] [] = true
segments_eq [] (q ∷ qs) = false
segments_eq (p ∷ ps) [] = false
segments_eq (p ∷ ps) (q ∷ qs) = text_eq p q && segments_eq ps qs

-- `starts_with`: the needle comes second.
unfoldable pub starts_with : List Text → List Text → Bool
unfolding text_eq
starts_with qs [] = true
starts_with [] (p ∷ ps) = false
starts_with (q ∷ qs) (p ∷ ps) = text_eq q p && starts_with qs ps

unfoldable pub contains : ModulePath → ModulePath → Bool
unfolding starts_with
contains self other = starts_with other.segments self.segments

unfoldable pub is_direct_parent_of : ModulePath → ModulePath → Bool
unfolding segments_eq
is_direct_parent_of self other =
    depth other == depth self + 1
    && length (drop (depth self) other.segments) == 1
    && segments_eq (take (depth self) other.segments) self.segments

unfoldable pub to_slash : ModulePath → Text
unfolding join
to_slash p = join (b'/' ∷ []) p.segments

unfoldable pub to_canonical : ModulePath → Text
unfolding join
to_canonical p = join (b':' ∷ b':' ∷ []) p.segments

unfoldable pub relative_segments : ModulePath → ModulePath → Option (List Text)
unfolding contains
relative_segments self prefix =
    if not (contains prefix self) then none else some (drop (depth prefix) self.segments)

-- `rest[0]`, of a list of length 1.
unfoldable pub only_segment : List Text → Option Text
only_segment rest = if length rest == 1 then get_elem? rest 0 else none

unfoldable pub child_name_below : ModulePath → ModulePath → Option Text
unfolding relative_segments only_segment
child_name_below self prefix = elim (relative_segments self prefix) [
  | none ↦ none
  | some rest ↦ only_segment rest
]

unfoldable pub tail_joined : ModulePath → ℕ → Text → Text
unfolding join
tail_joined p n sep = join sep (drop (depth p - n) p.segments)

-- `ParentView`, a path without its last segment, and `ParentTailView`, a path without its first.
unfoldable pub parent_depth : ModulePath → ℕ
parent_depth p = depth p - 1

unfoldable pub parent_to_slash : ModulePath → Text
unfolding join
parent_to_slash p = join (b'/' ∷ []) (take (depth p - 1) p.segments)

unfoldable pub parent_to_canonical : ModulePath → Text
unfolding join
parent_to_canonical p = join (b':' ∷ b':' ∷ []) (take (depth p - 1) p.segments)

unfoldable pub tail_is_root : ModulePath → Bool
tail_is_root p = leb (depth p) 1

unfoldable pub tail_to_slash : ModulePath → Text
unfolding join
tail_to_slash p = if leb (depth p) 1 then [] else join (b'/' ∷ []) (drop 1 p.segments)

unfoldable pub tail_to_canonical : ModulePath → Text
unfolding join
tail_to_canonical p = if leb (depth p) 1 then [] else join (b':' ∷ b':' ∷ []) (drop 1 p.segments)
