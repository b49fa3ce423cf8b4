-- ===== src/Tests/Interner.antt =====
-- Interning numbers, which hash to themselves; the hash of a stored hash is a hundred more.
use rustyfill.Prelude.{
  ◌==◌, done, ◌>>=◌, Result, ok, Returns, ℕ, ◌+◌, ◌≡◌, refl, true, false, [], ◌∷◌, map, arith,
}
use rustyfill.Interner.{
  Memory, Store, Reserved, kept, rehashed, Hashing, Call, do_intern_with_key, write,
  prune_unlocked_shards,
}
use rustyfill.Interner.Prune.{live_unless, prune_unlocked_shards-live}
use rustyfill.Interner.Search.{raised}
use rustyfill.Interner.Created.{IsEquality, IsFaithful, AnswerSpec}
use rustyfill.Interner.Answer.{intern-AnswerSpec}
use rustyfill.Interner.Sharing.{IsAlone, intern-intern}
use rustyfill.Interner.Missed.{with_new}
use rustyfill.Interner.Growth.{IsDuplicated, growth-duplicate}

abbrev numbers : Hashing ℕ
numbers = record {
  hash_one = λ x. x;
  hash_key = λ k. k + 100;
  probes = λ a b. a == b;
  same = λ a b. a == b;
}

numbers-IsEquality : IsEquality numbers
numbers-IsEquality = record {
  same_path = λ x y e. ground (arith, e);
  same_refl = λ x. ground arith;
}

abbrev calling : Reserved ℕ → Call ℕ ℕ
calling r = record {
  reserves = r;
  try_to_owned = λ x. ok x;
  allocates = true;
  during_read = λ m. m;
  unlocked = λ s. s;
  during_write = λ m. m;
}

copied : (x y : ℕ) → ◌≡◌ {A = Result ℕ ℕ} (ok x) (ok y) → y ≡ x
copied x y e = cc

calling-IsFaithful : (r : Reserved ℕ) → IsFaithful (calling r)
calling-IsFaithful r = record {
  read_keeps = λ m a. refl;
  write_keeps = λ m a. refl;
  copies = copied;
}

calling-IsAlone : (r : Reserved ℕ) → IsAlone (calling r)
calling-IsAlone r = record {
  read_alone = λ m. refl;
  unlocked_alone = λ s. refl;
  write_alone = λ m. refl;
  copies = copied;
}

abbrev nothing : Memory ℕ
nothing = record { cells = λ a. record { strong = 0; weak = 0; payload = 0 }; next = 0 }

abbrev none_interned : Store ℕ
none_interned = record { memory = nothing; table = [] }

-- The store after the call for 5.
abbrev five : Store ℕ
five = with_new numbers 5 nothing []

five_interned : do_intern_with_key numbers (calling kept) 5 none_interned ≡ done (ok 0, five)
unfolding do_intern_with_key
five_interned = refl

intern-AnswerSpec_example :
    Returns (do_intern_with_key numbers (calling rehashed) 7 five) (AnswerSpec (calling rehashed) 7)
intern-AnswerSpec_example =
    intern-AnswerSpec (calling rehashed) 7 numbers five numbers-IsEquality
      (calling-IsFaithful rehashed)

intern-intern_example :
    do_intern_with_key numbers (calling kept) 5 five
    ≡ done (ok 0, record five { memory = write five.memory 0 (raised (five.memory.cells 0)) })
unfolding write
intern-intern_example =
    intern-intern numbers 5 (calling kept) (calling kept) none_interned five 0 numbers-IsEquality
      (λ n. ground arith) (calling-IsAlone kept) (calling-IsAlone kept) five_interned (omega arith)

growth-duplicate_example :
    (do_intern_with_key numbers (calling kept) 5 five
      ≡ done (ok 0, record five { memory = write five.memory 0 (raised (five.memory.cells 0)) }))
    × Returns
        (do_intern_with_key numbers (calling rehashed) 7 five >>= λ r.
          do_intern_with_key numbers (calling kept) 5 r.1)
        (IsDuplicated five 5 0)
unfolding write rustyfill.Interner.Search.search_table
growth-duplicate_example =
    growth-duplicate numbers 7 5 (calling rehashed) (calling kept) five 0 numbers-IsEquality
      (calling-IsAlone rehashed) (calling-IsAlone kept) (refl, refl) (refl, refl) (refl, refl)
      ((omega arith, λ e. refl), tt) (refl, tt) (omega arith) (0, refl) refl

prune_unlocked_shards-live_example :
    ((prune_unlocked_shards ((true, five.table) ∷ (false, five.table) ∷ []) five.memory).0
      ≡ map (live_unless five.memory) ((true, five.table) ∷ (false, five.table) ∷ []))
    × ((a : ℕ)
        → ((prune_unlocked_shards
              ((true, five.table) ∷ (false, five.table) ∷ [])
              five.memory).1.cells
            a).strong
          ≡ (five.memory.cells a).strong)
prune_unlocked_shards-live_example =
    prune_unlocked_shards-live ((true, five.table) ∷ (false, five.table) ∷ []) five.memory
