-- ===== src/Tests/Vec.antt =====
-- Vectors under an allocator that gives exactly the room that was asked for.
use rustyfill.Prelude.{
  leb, ◌==◌, if◌then◌else◌, ok, err, ℕ, ◌+◌, ◌≡◌, refl, true, false, Option, none, some, List, [],
  ◌∷◌, ◌++◌, arith,
}
use rustyfill.Vec.{
  Vec, returned, Cloned, cloned, failed, Growth, MakesRoom, reserve, clone, included, unbounded,
  start_bound, end_bound, try_extend_from_slice_with_rollback, try_extend_from_within, try_collect,
}
use rustyfill.Vec.Fill.{IsValid}
use rustyfill.Vec.Clones.{clone_all}
use rustyfill.Vec.Rolled.{AllOrNothing}
use rustyfill.Vec.Extend.{extend-AllOrNothing}
use rustyfill.Vec.Collect.{Collected, try_collect-Collected}
use rustyfill.Vec.Resume.{
  stranded, from_remainder, pending, try_extend, Conserved, try_extend-Conserved,
}

-- It has no more than eight places.
abbrev small : Growth ℕ
small = record {
  grow = λ c n k. if leb (n + k) 8 then ok (n + k) else err 1;
  shrinks = λ c n. true;
  capacity_overflow = 2;
  new_alloc = 3;
}

small-MakesRoom : MakesRoom small
small-MakesRoom c n k c' e = ground arith

-- The third call fails.
abbrev sometimes : ℕ → ℕ → Cloned ℕ ℕ
sometimes i x = if i == 2 then failed 9 else cloned x

abbrev three : Vec ℕ
three = record { items = 1 ∷ 2 ∷ 3 ∷ []; capacity = 4 }

abbrev two : Vec ℕ
two = record { items = 4 ∷ 5 ∷ []; capacity = 2 }

three-IsValid : IsValid three
three-IsValid = omega arith

-- What was pushed before the failure is gone; the capacity has grown.
rolled_back :
    try_extend_from_slice_with_rollback sometimes small three (4 ∷ 5 ∷ 6 ∷ [])
    ≡ (returned (err (clone 9)), record { items = 1 ∷ 2 ∷ 3 ∷ []; capacity = 6 })
unfolding try_extend_from_slice_with_rollback
rolled_back = refl

extended :
    try_extend_from_within sometimes small three (included 1) unbounded
    ≡ (returned (ok tt), record { items = 1 ∷ 2 ∷ 3 ∷ 2 ∷ 3 ∷ []; capacity = 5 })
unfolding try_extend_from_within start_bound end_bound
extended = refl

extend-AllOrNothing_example :
    AllOrNothing small 3 reserve
      (λ ys. clone_all sometimes 0 (4 ∷ 5 ∷ 6 ∷ []) ≡ some ys)
      three
      (try_extend_from_slice_with_rollback sometimes small three (4 ∷ 5 ∷ 6 ∷ []))
extend-AllOrNothing_example =
    extend-AllOrNothing small small-MakesRoom sometimes three (4 ∷ 5 ∷ 6 ∷ []) three-IsValid

abbrev made : ℕ → Option ℕ
made n = if n == 1 then none else some n

-- The iterator yields more than it claims.
try_collect-Collected_example :
    Collected {T = ℕ} small small-MakesRoom
      (1 ∷ 2 ∷ 3 ∷ [])
      (try_collect small (1, none) (1 ∷ 2 ∷ 3 ∷ []))
try_collect-Collected_example =
    try_collect-Collected {T = ℕ} small small-MakesRoom (1, none) (1 ∷ 2 ∷ 3 ∷ [])

-- An allocator that refuses.
abbrev tight : Growth ℕ
tight = record {
  grow = λ c n k. err 1;
  shrinks = λ c n. false;
  capacity_overflow = 2;
  new_alloc = 3;
}

tight-MakesRoom : MakesRoom tight
tight-MakesRoom c n k c' e = absurd (cc e)

abbrev unhinted : List ℕ → ℕ
unhinted iter = 0

abbrev four : Vec ℕ
four = record { items = 1 ∷ 2 ∷ 3 ∷ 4 ∷ []; capacity = 4 }

-- One item fits, and the next one is stranded.
stranded_run :
    try_extend tight unhinted three (from_remainder (4 ∷ 5 ∷ 6 ∷ []))
    ≡ (returned (err (stranded 5 (6 ∷ []), 1)), four)
unfolding try_extend
stranded_run = refl

try_extend-Conserved_example :
    Conserved tight tight-MakesRoom
      (three.items ++ pending (stranded 4 (5 ∷ 6 ∷ [])))
      (try_extend tight unhinted three (stranded 4 (5 ∷ 6 ∷ [])))
try_extend-Conserved_example =
    try_extend-Conserved tight tight-MakesRoom unhinted three (stranded 4 (5 ∷ 6 ∷ []))
      three-IsValid
