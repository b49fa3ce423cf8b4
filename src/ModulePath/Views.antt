-- ===== src/ModulePath/Views.antt =====
-- A path is read by its parent and leaf, or by its head and tail.
use rustyfill.Prelude.{
  leb, if◌then◌else◌, length, length-append, suc, ◌-◌, ◌≡◌, refl, sym, ap, ◌∙◌, Bool, true, false,
  List, [], ◌∷◌, ◌++◌, arith,
}
use rustyfill.Text.{Text, join}
use rustyfill.ModulePath.{
  ModulePath, depth, head, is_root, join_child, to_slash, parent_depth, parent_to_slash,
  tail_is_root, tail_to_slash,
}
use rustyfill.ModulePath.Relations.{take-append}

append_nil : (t : Text) → t ++ [] ≡ t
append_nil [] = refl
append_nil (c ∷ t) = ap (◌∷◌ c) (append_nil t)

append_assoc : (r s t : Text) → (r ++ s) ++ t ≡ r ++ (s ++ t)
append_assoc [] s t = refl
append_assoc (c ∷ r) s t = ap (◌∷◌ c) (append_assoc r s t)

-- `text` after a separator, unless the path ends before it.
abbrev pub after_slash : Bool → Text → Text
after_slash true text = text
after_slash false text = b'/' ∷ text

join-cons :
    (p : Text) (ps : List Text)
    → join (b'/' ∷ []) (p ∷ ps)
      ≡ p
        ++ after_slash
            (leb (suc (length ps)) 1)
            (if leb (suc (length ps)) 1 then [] else join (b'/' ∷ []) ps)
unfolding join
join-cons p [] = sym (append_nil p)
join-cons p (q ∷ ps) = let e : leb (suc (suc (length ps))) 1 ≡ false = ground arith in rw e refl

head-tail :
    (ps qs : List Text) (p : Text)
    → qs ≡ p ∷ ps
    → to_slash (record { segments = qs })
      ≡ head (record { segments = qs })
        ++ after_slash
            (tail_is_root (record { segments = qs }))
            (tail_to_slash (record { segments = qs }))
unfolding to_slash head tail_is_root tail_to_slash
head-tail ps qs p e = rw e (join-cons p ps)

append_cons :
    (ps : List Text) (name : Text) → (p : Text) × (qs : List Text) × (ps ++ name ∷ [] ≡ p ∷ qs)
append_cons [] name = (name, [], refl)
append_cons (p ∷ ps) name = (p, ps ++ name ∷ [], refl)

-- How a child is spelled behind the spelling of its parent.
abbrev pub below : Bool → Text → Text → Text
below true parent name = name
below false parent name = parent ++ (b'/' ∷ name)

join_last :
    (p : Text) (ps : List Text) (name : Text)
    → join (b'/' ∷ []) ((p ∷ ps) ++ name ∷ []) ≡ join (b'/' ∷ []) (p ∷ ps) ++ (b'/' ∷ name)
unfolding join
join_last p [] name = refl
join_last p (q ∷ ps) name =
    ap (λ t. p ++ (b'/' ∷ t)) (join_last q ps name)
    ∙ sym (append_assoc p (b'/' ∷ join (b'/' ∷ []) (q ∷ ps)) (b'/' ∷ name))

to_slash-below :
    (ps : List Text) (name : Text)
    → join (b'/' ∷ []) (ps ++ name ∷ [])
      ≡ below (is_root (record { segments = ps })) (join (b'/' ∷ []) ps) name
unfolding is_root join
to_slash-below [] name = refl
to_slash-below (p ∷ ps) name = join_last p ps name

-- The spelling of a path's child is the path's spelling, a separator and the name, or the name
-- alone below the root; its parent view has the path's spelling and depth; and the spelling is the
-- head, and the tail's spelling behind a separator unless the tail is the root.
pub to_slash-join_child :
    (m : ModulePath) (name : Text)
    → (to_slash (join_child m name) ≡ below (is_root m) (to_slash m) name)
      × (parent_to_slash (join_child m name) ≡ to_slash m)
      × (parent_depth (join_child m name) ≡ depth m)
      × (to_slash (join_child m name)
          ≡ head (join_child m name)
            ++ after_slash (tail_is_root (join_child m name)) (tail_to_slash (join_child m name)))
unfolding to_slash parent_to_slash parent_depth join_child
to_slash-join_child m name =
    let short : length (m.segments ++ name ∷ []) - 1 ≡ length m.segments =
      omega (arith, length-append m.segments (name ∷ [])) in
    let (p, qs, e) = append_cons m.segments name in
    (
      to_slash-below m.segments name,
      rw (short, take-append m.segments (name ∷ [])) refl,
      short,
      head-tail qs (m.segments ++ name ∷ []) p e,
    )
