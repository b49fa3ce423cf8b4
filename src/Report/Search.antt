-- ===== src/Report/Search.antt =====
-- `contains` and `downcast_ref` of `rustyfill-errors/src/report.rs` and `frame/frame.rs`: the search
-- for a value of one type. `holds` is the downcast of a boxed item, and `is` that of the context of
-- a head or a peer.
pub mod Found
use mathlib.Core.List.{reverse}
use rustyfill.Prelude.{◌≡◌, refl, Bool, true, false, ◌||◌, Option, none, some, List, [], ◌∷◌}
use rustyfill.Report.{DynamicFrame, dynamic, Frames, nil, cons, StaticFrame, Report}

module _ {ℓ} {A : Type ℓ} where
  -- `if let Some(r) = first { return Some(r) }` before the rest.
  infixr 5 ◌or_else◌
  abbrev pub ◌or_else◌ : Option A → Option A → Option A
  some a or_else o = some a
  none or_else o = o

  abbrev pub is_some : Option A → Bool
  is_some none = false
  is_some (some a) = true

  pub is_some-or_else : (o p : Option A) → is_some (o or_else p) ≡ (is_some o || is_some p)
  is_some-or_else none p = refl
  is_some-or_else (some a) p = refl

module _ {I : Type 0} {A : Type 0} (holds : I → Option A) where
  -- The loops over the attachments.
  abbrev pub find_item : List I → Option A
  find_item [] = none
  find_item (i ∷ is) = holds i or_else find_item is

  abbrev pub any_item : List I → Bool
  any_item [] = false
  any_item (i ∷ is) = is_some (holds i) || any_item is

  -- `DynamicFrame::downcast_ref` goes through the children from the last one.
  unfoldable mutual
    pub downcast_dynamic : DynamicFrame I → Option A
    downcast_dynamic (dynamic c ats fs l n) =
        holds c or_else find_item ats or_else downcast_children fs

    pub downcast_children : Frames I → Option A
    downcast_children nil = none
    downcast_children (cons f fs) = downcast_children fs or_else downcast_dynamic f

  -- `DynamicFrame::contains` goes through them from the first one.
  unfoldable mutual
    pub contains_dynamic : DynamicFrame I → Bool
    contains_dynamic (dynamic c ats fs l n) =
        is_some (holds c) || (any_item ats || contains_children fs)

    pub contains_children : Frames I → Bool
    contains_children nil = false
    contains_children (cons f fs) = contains_dynamic f || contains_children fs

  unfoldable pub downcast_first : List (DynamicFrame I) → Option A
  unfolding downcast_dynamic
  downcast_first [] = none
  downcast_first (f ∷ fs) = downcast_dynamic f or_else downcast_first fs

  unfoldable pub contains_any : List (DynamicFrame I) → Bool
  unfolding contains_dynamic
  contains_any [] = false
  contains_any (f ∷ fs) = contains_dynamic f || contains_any fs

  module _ {C : Type 0} (is : C → Option A) where
    -- `StaticFrame::downcast_ref` and `StaticFrame::contains`
    unfoldable pub downcast_static : StaticFrame C I → Option A
    unfolding downcast_first
    downcast_static f =
        find_item f.attachments.items or_else downcast_first (reverse f.children.items)

    unfoldable pub contains_static : StaticFrame C I → Bool
    unfolding contains_any
    contains_static f = any_item f.attachments.items || contains_any f.children.items

    -- A head or a peer: its context, then what it holds.
    abbrev pub downcast_root : StaticFrame C I → Option A
    downcast_root f = is f.context or_else downcast_static f

    abbrev pub contains_root : StaticFrame C I → Bool
    contains_root f = is_some (is f.context) || contains_static f

    abbrev pub downcast_peers : List (StaticFrame C I) → Option A
    downcast_peers [] = none
    downcast_peers (f ∷ fs) = downcast_root f or_else downcast_peers fs

    abbrev pub any_peer : List (StaticFrame C I) → Bool
    any_peer [] = false
    any_peer (f ∷ fs) = contains_root f || any_peer fs

    -- `Report::downcast_ref` and `Report::contains`
    unfoldable pub downcast_ref : Report C I → Option A
    unfolding downcast_static
    downcast_ref r = downcast_root r.head or_else downcast_peers r.peers.items

    unfoldable pub contains_value : Report C I → Bool
    unfolding contains_static
    contains_value r = contains_root r.head || any_peer r.peers.items
