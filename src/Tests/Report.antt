-- ===== src/Tests/Report.antt =====
-- Reports of numbers, whose boxed contexts are larger by one hundred.
use mathlib.Core.List.{reverse}
use rustyfill.Prelude.{
  ltb, ◌==◌, if◌then◌else◌, ok, err, ℕ, suc, ◌+◌, ◌≤◌, ◌≡◌, refl, ◌⊎◌, true, false, not, Option,
  none, some, List, [], ◌∷◌, arith,
}
use rustyfill.Vec.{Growth, MakesRoom, try_with_capacity, try_push_give_back}
use rustyfill.Deque.{size, empty_deque, reserve_deque, try_push_front_give_back}
use rustyfill.Report.{
  new_frame, ended, panics, runs_on, DynamicFrame, dynamic, nil, cons, StaticFrame, Report, push,
  try_push, usize_max, saturating_add,
}
use rustyfill.Report.Kept.{Valid}
use rustyfill.Report.Push.{WithinCap, Added, push-Added, push-runs_on}
use rustyfill.Report.First.{CapReached, alone, push_first, try_push-cases}
use rustyfill.Report.Change.{Heap, Demotion, with_children, change_context}
use rustyfill.Report.Change.Demote.{Newest, change_context-Newest}
use rustyfill.Report.Change.Compare.{changes_reversed, change_context-panics}
use rustyfill.Report.Change.Fallible.{try_change_context}
use rustyfill.Report.Change.Fallible.Recover.{Changed, GivenBack, try_change_context-cases}
use rustyfill.Report.Search.{is_some, downcast_dynamic, downcast_ref, contains_value}
use rustyfill.Report.Search.Found.{contains_value-downcast_ref, downcast_ref_last}
use rustyfill.Report.Walk.{frames_next, chrono_next, frames, frames_chronological}
use rustyfill.Report.Walk.Preorder.{preorder, chronological, frames_left, chrono_left}
use rustyfill.Report.Walk.Calls.{CallSpec, FramesGood, frames-FramesGood, frames_next-CallSpec}
use rustyfill.Report.Walk.Collected.{run, Collects, frames-Collects, frames_chronological-Collects}

abbrev giving : Growth ℕ
giving = record {
  grow = λ c n k. ok (n + k);
  shrinks = λ c n. true;
  capacity_overflow = 2;
  new_alloc = 3;
}

abbrev refusing : Growth ℕ
refusing = record {
  grow = λ c n k. err 7;
  shrinks = λ c n. true;
  capacity_overflow = 2;
  new_alloc = 3;
}

giving-MakesRoom : MakesRoom giving
giving-MakesRoom c n k c' e = ground arith

refusing-MakesRoom : MakesRoom refusing
refusing-MakesRoom c n k c' e = absurd (cc)

abbrev boxed_number : ℕ → ℕ
boxed_number n = n + 100

abbrev frame : ℕ → StaticFrame ℕ ℕ
frame n = record {
  context = n;
  attachments = record { items = []; capacity = 0 };
  children = empty_deque;
  lost_attachments = 0;
  lost_children = 0;
}

abbrev capped : Option ℕ → Report ℕ ℕ
capped bound = record {
  head = frame 1;
  peers = record { items = frame 3 ∷ frame 2 ∷ []; capacity = 4 };
  lost_peers = 5;
  capacity = bound;
}

abbrev nine : ℕ
nine = 9

abbrev three : Report ℕ ℕ
three = capped (some 3)

three-Valid : Valid three
three-Valid = record { room = omega arith; count = omega arith; lost = omega arith }

-- The oldest peer goes.
pushed :
    push 5 giving giving three (frame 4)
    ≡ ended (record three {
      peers = record { items = frame 4 ∷ frame 3 ∷ []; capacity = 4 };
      lost_peers = 6;
    })
unfolding push saturating_add try_push_front_give_back
pushed = refl

push-Added_example :
    (r : Report ℕ ℕ) × (push 3 giving refusing three (frame 4) ≡ ended r) × Added three (frame 4) r
push-Added_example =
    push-Added 3 giving refusing three (frame 4) giving-MakesRoom three-Valid (omega arith)
      (omega arith) (omega arith)

push-runs_on_example : push 50 giving giving (capped (some 1)) (frame 4) ≡ runs_on
push-runs_on_example =
    push-runs_on 50 1 giving giving (capped (some 1)) (frame 4) refl (omega arith)

push_first_example :
    ((c : ℕ) × (refusing.grow 0 0 1 ≡ ok c)
      × (push 1 refusing giving (alone (frame 1) 0 none) (frame 2)
          ≡ ended (record (alone (frame 1) 0 none) {
            peers = record { items = frame 2 ∷ []; capacity = c };
          })))
    ⊎ ((c : ℕ) × (e : ℕ) × (refusing.grow 0 0 1 ≡ err e)
        × (giving.grow 0 0 1 ≡ ok c)
        × (push 1 refusing giving (alone (frame 1) 0 none) (frame 2)
            ≡ ended (record (alone (frame 1) (saturating_add 0 1) none) {
              peers = record { items = frame 2 ∷ []; capacity = c };
            })))
    ⊎ ((e e' : ℕ) × (refusing.grow 0 0 1 ≡ err e)
        × (giving.grow 0 0 1 ≡ err e')
        × (push 1 refusing giving (alone (frame 1) 0 none) (frame 2) ≡ panics))
push_first_example =
    push_first 1 0 none refusing giving (frame 1) (frame 2) refusing-MakesRoom giving-MakesRoom tt
      (omega arith) (omega arith)

try_push-cases_example :
    ((c : ℕ) × (try_push giving three (frame 4)
        ≡ ended (
            ok (record three {
              peers = record { items = frame 4 ∷ three.peers.items; capacity = c };
            })))
      × (suc (size three.peers) ≤ c)
      × WithinCap three.capacity (suc (size three.peers))
      × (suc (size three.peers) ≤ usize_max))
    ⊎ ((try_push giving three (frame 4) ≡ ended (err (three, frame 4)))
        × (CapReached three
            ⊎ (size three.peers ≡ usize_max)
            ⊎ ((e : ℕ) × (giving.grow three.peers.capacity (size three.peers) 1 ≡ err e))))
try_push-cases_example = try_push-cases giving three (frame 4) giving-MakesRoom three-Valid

-- The second box is refused, so the oldest peer is lost.
abbrev tight : Heap ℕ
tight = record { grow_at = λ t. giving; box_at = λ t. not (t == 3) }

abbrev ample : Heap ℕ
ample = record { grow_at = λ t. giving; box_at = λ t. true }

abbrev starved : Heap ℕ
starved = record { grow_at = λ t. refusing; box_at = λ t. true }

change_context-Newest_example :
    (d : Demotion ℕ) × (change_context tight boxed_number three nine
      ≡ ended (with_children three nine d))
    × Newest boxed_number (three.head ∷ three.peers.items) 5 d
change_context-Newest_example =
    change_context-Newest tight boxed_number three nine 3 giving-MakesRoom (omega arith)
      (omega arith) refl

changed :
    change_context tight boxed_number three nine
    ≡ ended (
        with_children three nine (record {
          children = record {
            items = dynamic 101 [] nil 0 0 ∷ dynamic 103 [] nil 0 0 ∷ [];
            capacity = 3;
          };
          lost = 6;
          clock = 0;
        }))
unfolding change_context try_push_front_give_back saturating_add
changed = refl

change_context-panics_example : change_context starved boxed_number three nine ≡ panics
change_context-panics_example =
    change_context-panics starved boxed_number
      (record { refuses = λ t n k m. (7, refl); grants = λ t. refl }) three nine (omega arith)

try_change_context-cases_example :
    Changed tight boxed_number three nine (try_change_context tight boxed_number three nine)
    ⊎ GivenBack tight boxed_number three nine (try_change_context tight boxed_number three nine)
try_change_context-cases_example =
    try_change_context-cases tight boxed_number three nine giving-MakesRoom giving-MakesRoom
      (omega arith) (omega arith)

-- All frames as children of a new head, in an order.
abbrev children_in : List (DynamicFrame ℕ) → Report ℕ ℕ
children_in fs =
    with_children three nine
      (record { children = record { items = fs; capacity = 3 }; lost = 5; clock = 0 })

abbrev number : ℕ → DynamicFrame ℕ
number n = dynamic n [] nil 0 0

newest_first :
    change_context ample boxed_number three nine
    ≡ ended (children_in (number 101 ∷ number 103 ∷ number 102 ∷ []))
unfolding change_context try_push_front_give_back saturating_add
newest_first = refl

oldest_first :
    try_change_context ample boxed_number three nine
    ≡ ended (ok (children_in (number 102 ∷ number 103 ∷ number 101 ∷ [])))
unfolding try_change_context reserve_deque saturating_add try_with_capacity try_push_give_back
    try_push_front_give_back
oldest_first = refl

changes_reversed_example :
    ◌≡◌ {A = List (DynamicFrame ℕ)}
      (number 102 ∷ number 103 ∷ number 101 ∷ [])
      (reverse (number 101 ∷ number 103 ∷ number 102 ∷ []))
changes_reversed_example =
    changes_reversed ample boxed_number three nine
      (children_in (number 101 ∷ number 103 ∷ number 102 ∷ []))
      (children_in (number 102 ∷ number 103 ∷ number 101 ∷ [])) 3 newest_first oldest_first refl
      refl giving-MakesRoom giving-MakesRoom (omega arith) (omega arith) (omega arith)

-- A report with a frame below a frame, which lost two others.
abbrev nested : Report ℕ ℕ
nested = record three {
  head = record (frame 1) {
    children = record { items = dynamic 7 [] (cons (number 8) nil) 0 2 ∷ []; capacity = 1 };
  };
}

-- The second call's reservation is refused.
abbrev refused_once : Option ℕ
refused_once = some 7

abbrev answers : List (Option ℕ)
answers = none ∷ refused_once ∷ none ∷ none ∷ []

frames_next-CallSpec_example :
    CallSpec frames_left
      (FramesGood false)
      refused_once
      (frames nested)
      (frames_next refused_once (frames nested))
frames_next-CallSpec_example =
    frames_next-CallSpec false refused_once (frames nested) (frames-FramesGood nested)

frames-Collects_example :
    Collects frames_left answers (preorder nested) (run frames_next answers (frames nested))
frames-Collects_example = frames-Collects nested answers

frames_chronological-Collects_example :
    Collects chrono_left answers
      (chronological nested (reverse nested.peers.items))
      (run chrono_next answers (frames_chronological nested))
frames_chronological-Collects_example = frames_chronological-Collects nested answers

-- The boxed numbers below one hundred and three, in a report whose children are the newest first.
abbrev small_number : ℕ → Option ℕ
small_number n = if ltb n 103 then some n else none

abbrev no_context : ℕ → Option ℕ
no_context n = none

abbrev twice : Report ℕ ℕ
twice = children_in (number 101 ∷ number 103 ∷ number 102 ∷ [])

contains_value-downcast_ref_example :
    contains_value small_number no_context twice
    ≡ is_some (downcast_ref small_number no_context twice)
contains_value-downcast_ref_example = contains_value-downcast_ref small_number no_context twice

holds_102 : downcast_dynamic small_number (number 102) ≡ some 102
unfolding downcast_dynamic
holds_102 = refl

downcast_ref_last_example : downcast_ref small_number no_context twice ≡ some 102
unfolding new_frame
downcast_ref_last_example =
    downcast_ref_last small_number no_context twice (number 101 ∷ number 103 ∷ []) (number 102) 102
      refl refl refl holds_102
