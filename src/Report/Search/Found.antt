-- ===== src/Report/Search/Found.antt =====
-- What a search by type finds.
use mathlib.Core.List.{reverse, reverse-cons, reverse-append}
use rustyfill.Prelude.{
  ◌≡◌, refl, sym, ap, ◌∙◌, Bool, true, false, ◌||◌, Option, none, some, List, [], ◌∷◌, ◌++◌,
}
use rustyfill.Report.{DynamicFrame, dynamic, Frames, nil, cons, StaticFrame, Report}
use rustyfill.Report.Search.{
  ◌or_else◌, is_some, is_some-or_else, find_item, any_item, downcast_dynamic, downcast_children,
  contains_dynamic, contains_children, downcast_first, contains_any, downcast_static,
  contains_static, downcast_root, contains_root, downcast_peers, any_peer, downcast_ref,
  contains_value,
}

or_comm : (a b : Bool) → (a || b) ≡ (b || a)
or_comm true true = refl
or_comm true false = refl
or_comm false true = refl
or_comm false false = refl

module _ {A : Type 0} where
  or_else_assoc : (o p q : Option A) → ((o or_else p) or_else q) ≡ (o or_else (p or_else q))
  or_else_assoc none p q = refl
  or_else_assoc (some a) p q = refl

  or_else_none : (o : Option A) → (o or_else none) ≡ o
  or_else_none none = refl
  or_else_none (some a) = refl

module _ {I A : Type 0} (holds : I → Option A) where
  any_item-find_item : (is : List I) → is_some (find_item holds is) ≡ any_item holds is
  any_item-find_item [] = refl
  any_item-find_item (i ∷ is) =
      is_some-or_else (holds i) (find_item holds is)
      ∙ ap (λ (b : Bool). is_some (holds i) || b) (any_item-find_item is)

  -- The children are searched in opposite orders, which finds a value or not alike.
  mutual
    unfolding downcast_dynamic contains_dynamic

    found_dynamic :
        (d : DynamicFrame I) → is_some (downcast_dynamic holds d) ≡ contains_dynamic holds d
    found_dynamic (dynamic c ats fs l n) =
        is_some-or_else (holds c) (find_item holds ats or_else downcast_children holds fs)
        ∙ ap (λ (b : Bool). is_some (holds c) || b)
            (is_some-or_else (find_item holds ats) (downcast_children holds fs) ∙ λ i.
              any_item-find_item ats i || found_children fs i)

    found_children :
        (fs : Frames I) → is_some (downcast_children holds fs) ≡ contains_children holds fs
    found_children nil = refl
    found_children (cons f fs) =
        is_some-or_else (downcast_children holds fs) (downcast_dynamic holds f)
        ∙ (λ i. found_children fs i || found_dynamic f i)
        ∙ or_comm (contains_children holds fs) (contains_dynamic holds f)

  downcast_first-append :
      (xs ys : List (DynamicFrame I))
      → downcast_first holds (xs ++ ys) ≡ downcast_first holds xs or_else downcast_first holds ys
  unfolding downcast_first
  downcast_first-append [] ys = refl
  downcast_first-append (x ∷ xs) ys =
      ap (λ (o : Option A). downcast_dynamic holds x or_else o) (downcast_first-append xs ys)
      ∙ sym (
          or_else_assoc (downcast_dynamic holds x) (downcast_first holds xs)
            (downcast_first holds ys))

  found_reverse :
      (xs : List (DynamicFrame I))
      → is_some (downcast_first holds (reverse xs)) ≡ contains_any holds xs
  unfolding downcast_first contains_any
  found_reverse [] = refl
  found_reverse (x ∷ xs) =
      ap (λ (l : List (DynamicFrame I)). is_some (downcast_first holds l)) (reverse-cons x xs)
      ∙ ap is_some (downcast_first-append (reverse xs) (x ∷ []))
      ∙ is_some-or_else (downcast_first holds (reverse xs)) (downcast_dynamic holds x or_else none)
      ∙ (λ i. found_reverse xs i || is_some (or_else_none (downcast_dynamic holds x) i))
      ∙ (λ i. contains_any holds xs || found_dynamic x i)
      ∙ or_comm (contains_any holds xs) (contains_dynamic holds x)

  module _ {C : Type 0} (is : C → Option A) where
    found_root :
        (f : StaticFrame C I) → is_some (downcast_root holds is f) ≡ contains_root holds is f
    unfolding downcast_static contains_static
    found_root f =
        is_some-or_else (is f.context) (downcast_static holds is f)
        ∙ ap (λ (b : Bool). is_some (is f.context) || b)
            (is_some-or_else (find_item holds f.attachments.items)
                (downcast_first holds (reverse f.children.items))
              ∙ λ i. any_item-find_item f.attachments.items i || found_reverse f.children.items i)

    found_peers :
        (fs : List (StaticFrame C I)) → is_some (downcast_peers holds is fs) ≡ any_peer holds is fs
    found_peers [] = refl
    found_peers (f ∷ fs) =
        is_some-or_else (downcast_root holds is f) (downcast_peers holds is fs) ∙ λ i.
        found_root f i || found_peers fs i

    -- `contains` says that a report holds a value of a type exactly if `downcast_ref` finds one,
    -- though the two go through the children of a frame in opposite orders.
    pub contains_value-downcast_ref :
        (r : Report C I) → contains_value holds is r ≡ is_some (downcast_ref holds is r)
    unfolding contains_value downcast_ref
    contains_value-downcast_ref r = sym (
        is_some-or_else (downcast_root holds is r.head) (downcast_peers holds is r.peers.items)
        ∙ λ i. found_root r.head i || found_peers r.peers.items i)

    -- Where neither the head's context nor its attachments hold a value of the type, and its last
    -- child does, `downcast_ref` returns the one in the last child, whatever the other children and
    -- the peers hold.
    pub downcast_ref_last :
        (r : Report C I) (fs : List (DynamicFrame I)) (d : DynamicFrame I) (a : A)
        → is r.head.context ≡ none
        → find_item holds r.head.attachments.items ≡ none
        → r.head.children.items ≡ fs ++ d ∷ []
        → downcast_dynamic holds d ≡ some a
        → downcast_ref holds is r ≡ some a
    unfolding downcast_ref downcast_static downcast_first
    downcast_ref_last r fs d a e e' q h =
        let rest = downcast_first holds (reverse fs) in
        let inner : downcast_first holds (reverse r.head.children.items) ≡ some a =
          ap (λ (l : List (DynamicFrame I)). downcast_first holds (reverse l)) q
          ∙ ap (downcast_first holds) (reverse-append fs (d ∷ []))
          ∙ ap (λ (o : Option A). o or_else rest) h in
        λ i. (e i or_else e' i or_else inner i) or_else downcast_peers holds is r.peers.items
