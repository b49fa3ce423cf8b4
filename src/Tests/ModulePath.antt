-- ===== src/Tests/ModulePath.antt =====
-- Module paths of the standard library, and the operations on them.
use rustyfill.Prelude.{◌≡◌, refl, none, some, [], ◌∷◌, ◌++◌}
use rustyfill.Text.{Text}
use rustyfill.ModulePath.{
  ModulePath, is_identifier, from_slash, from_canonical, from_file_stem, from_segments, to_slash,
}
use rustyfill.ModulePath.Parse.{IsValid, from_slash-to_slash}

abbrev sys : Text
sys = b's' ∷ b'y' ∷ b's' ∷ []

abbrev pal : Text
pal = b'p' ∷ b'a' ∷ b'l' ∷ []

abbrev sys_path : ModulePath
sys_path = record { segments = sys ∷ [] }

abbrev sys_pal_path : ModulePath
sys_pal_path = record { segments = sys ∷ pal ∷ [] }

abbrev sys_pal : Text
sys_pal = b's' ∷ b'y' ∷ b's' ∷ b'/' ∷ b'p' ∷ b'a' ∷ b'l' ∷ []

sys_pal_path-IsValid : IsValid sys_pal_path
unfolding is_identifier
sys_pal_path-IsValid = (refl, (refl, tt))

from_slash_accepts : from_slash sys_pal ≡ some sys_pal_path
unfolding from_slash
from_slash_accepts = refl

-- `sys/pal/mod.rs`
from_file_stem_mod :
    from_file_stem (sys_pal ++ (b'/' ∷ b'm' ∷ b'o' ∷ b'd' ∷ b'.' ∷ b'r' ∷ b's' ∷ []))
    ≡ some sys_pal_path
unfolding from_file_stem
from_file_stem_mod = refl

-- `sys//pal`
from_slash_empty_segment : from_slash (sys ++ (b'/' ∷ b'/' ∷ pal)) ≡ none
unfolding from_slash
from_slash_empty_segment = refl

-- `a:::b`
from_canonical_colons : from_canonical (b'a' ∷ b':' ∷ b':' ∷ b':' ∷ b'b' ∷ []) ≡ none
unfolding from_canonical
from_canonical_colons = refl

-- An empty segment passes `from_segments`.
from_segments_empty : from_segments ([] ∷ []) ≡ some (record { segments = [] ∷ [] })
unfolding from_segments
from_segments_empty = refl

from_slash-to_slash_example : from_slash (to_slash sys_pal_path) ≡ some sys_pal_path
from_slash-to_slash_example = from_slash-to_slash sys_pal_path sys_pal_path-IsValid
