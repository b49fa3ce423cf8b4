-- ===== src/Report.antt =====
-- `rustyfill-errors/src/report.rs` and `frame/frame.rs`: a report of peer errors, whose frames hold
-- the type-erased frames of earlier reports as children. `I` stands for `Box<dyn ItemImpl>`. How
-- the heap answers is an argument, one answer for each request.

pub mod Kept
pub mod Push
pub mod First
pub mod Change
pub mod Walk
pub mod Search
use rustyfill.Prelude.{
  leb, ◌==◌, if◌then◌else◌, Result, ok, err, ℕ, zero, suc, ◌+◌, ◌-◌, ◌^◌, Bool, false, ◌||◌, Option,
  none, some, List, [], ◌∷◌, map,
}
use rustyfill.Vec.{Vec, Growth}
use rustyfill.Deque.{
  Deque, Pushed, placed, refused, aborts, size, empty_deque, pop_back, try_push_front_give_back,
}

-- A call returns, panics, or is still in its loop when the fuel is spent; `oom` is the abort of an
-- infallible growth.
pub data Ending {ℓ} (A : Type ℓ) : Type ℓ where
  ended : A → Ending A
  panics oom runs_on : Ending A

infixl 5 ◌then_run◌
abbrev pub ◌then_run◌ {ℓ κ} : {A : Type ℓ} {B : Type κ} → Ending A → (A → Ending B) → Ending B
ended a then_run f = f a
panics then_run f = panics
oom then_run f = oom
runs_on then_run f = runs_on

abbrev pub usize_max : ℕ
usize_max = 2 ^ 64 - 1

-- `a.saturating_add(b)` of a `usize`.
unfoldable pub saturating_add : ℕ → ℕ → ℕ
saturating_add a b = if leb (a + b) usize_max then a + b else usize_max

-- `DynamicFrame`, and the children of one.
mutual
  pub data DynamicFrame (I : Type 0) : Type 0 where
    dynamic : I → List I → Frames I → ℕ → ℕ → DynamicFrame I

  pub data Frames (I : Type 0) : Type 0 where
    nil : Frames I
    cons : DynamicFrame I → Frames I → Frames I

pub record StaticFrame (C I : Type 0) : Type 0 where
  pub context : C
  pub attachments : Vec I
  pub children : Deque (DynamicFrame I)
  pub lost_attachments : ℕ
  pub lost_children : ℕ

pub record Report (C I : Type 0) : Type 0 where
  pub head : StaticFrame C I
  pub peers : Deque (StaticFrame C I)
  pub lost_peers : ℕ
  pub capacity : Option ℕ

module _ {C I : Type 0} where
  unfoldable pub new_frame : C → StaticFrame C I
  new_frame c = record {
    context = c;
    attachments = record { items = []; capacity = 0 };
    children = empty_deque;
    lost_attachments = 0;
    lost_children = 0;
  }

  unfoldable pub new_report : C → Report C I
  unfolding new_frame
  new_report c = record { head = new_frame c; peers = empty_deque; lost_peers = 0; capacity = none }

  unfoldable pub peer_count : Report C I → ℕ
  unfolding saturating_add
  peer_count r = saturating_add 1 (size r.peers)

  -- `current_contexts`
  unfoldable pub current_contexts : Report C I → List C
  current_contexts r = r.head.context ∷ map (λ (f : StaticFrame C I). f.context) r.peers.items

  -- `peers.pop_back(); lost_peers = lost_peers.saturating_add(1)`
  unfoldable pub evict : Report C I → Report C I
  unfolding saturating_add pop_back
  evict r = record r { peers = (pop_back r.peers).1; lost_peers = saturating_add r.lost_peers 1 }

  -- The loop of `push` at a cap, on fuel.
  unfoldable pub evict_down : ℕ → ℕ → Report C I → Ending (Report C I)
  unfolding evict peer_count
  evict_down zero limit r = runs_on
  evict_down (suc n) limit r =
      let rest = evict_down n limit (evict r) in if leb limit (peer_count r) then rest else ended r

  unfoldable pub evict_capped : ℕ → Report C I → Ending (Report C I)
  unfolding evict_down
  evict_capped fuel r = elim r.capacity [ none ↦ ended r | some limit ↦ evict_down fuel limit r ]

  unfoldable pub evict_overflow : Report C I → Report C I
  unfolding evict
  evict_overflow r = if size r.peers == usize_max then evict r else r

  abbrev pub at_capacity : Report C I → Bool
  at_capacity r = elim r.capacity [ none ↦ false | some limit ↦ leb limit (peer_count r) ]

  module _ {R : Type 0} where
    -- The second attempt, which `expect` unwraps.
    unfoldable pub push_retried : Report C I → Pushed (StaticFrame C I) R → Ending (Report C I)
    push_retried r (placed d) = ended (record r { peers = d })
    push_retried r (refused _ _ _) = panics
    push_retried r aborts = oom

    unfoldable pub push_attempted :
        Growth R → Report C I → Pushed (StaticFrame C I) R → Ending (Report C I)
    unfolding push_retried evict
    push_attempted later r (placed d) = ended (record r { peers = d })
    push_attempted later r (refused f _ d) =
        let e = evict (record r { peers = d }) in
        push_retried e (try_push_front_give_back later e.peers f)
    push_attempted later r aborts = oom

    -- `now` and `later` answer the two attempts.
    unfoldable pub push_evicted :
        Growth R → Growth R → StaticFrame C I → Report C I → Ending (Report C I)
    unfolding evict_overflow push_attempted
    push_evicted now later f r =
        let e = evict_overflow r in push_attempted later e (try_push_front_give_back now e.peers f)

    unfoldable pub push :
        ℕ → Growth R → Growth R → Report C I → StaticFrame C I → Ending (Report C I)
    unfolding evict_capped push_evicted
    push fuel now later r f = evict_capped fuel r then_run push_evicted now later f

    unfoldable pub gives_back :
        Report C I
        → Pushed (StaticFrame C I) R
        → Ending (Result (Report C I) (Report C I × StaticFrame C I))
    gives_back r (placed d) = ended (ok (record r { peers = d }))
    gives_back r (refused f _ d) = ended (err (record r { peers = d }, f))
    gives_back r aborts = oom

    unfoldable pub try_push :
        Growth R
        → Report C I
        → StaticFrame C I
        → Ending (Result (Report C I) (Report C I × StaticFrame C I))
    unfolding peer_count gives_back
    try_push g r f =
        if (size r.peers == usize_max) || at_capacity r
        then ended (err (r, f))
        else gives_back r (try_push_front_give_back g r.peers f)
