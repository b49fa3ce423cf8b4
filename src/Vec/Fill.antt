-- ===== src/Vec/Fill.antt =====
-- How a loop that pushes leaves a vector, and the lists that this needs.
use rustyfill.Prelude.{
  length, take, Result, ok, err, ◌≤◌, ◌<◌, ◌≡◌, refl, sym, ap, ◌∙◌, ◌≢◌, Option, none, some, List,
  [], ◌∷◌, ◌++◌, arith,
}
use rustyfill.Vec.{Vec, Ended, returned, unwound, aborted, len, push}

pub returned_apart {ℓ} : {A : Type ℓ} (a : A) → returned a ≢ aborted
returned_apart a e = cc

pub unwound_apart {ℓ} : {A : Type ℓ} → ◌≢◌ {A = Ended A} unwound aborted
unwound_apart e = cc

pub err_apart {ℓ} :
    {A E : Type ℓ} (e : E) (a : A)
    → ◌≢◌ {A = Ended (Result A E)} (returned (err e)) (returned (ok a))
err_apart e a q = cc

pub unwound_returned {ℓ} : {A : Type ℓ} (a : A) → unwound ≢ returned a
unwound_returned a q = cc

pub some_apart {ℓ} : {A : Type ℓ} {o : Option A} → o ≡ none → (a : A) → o ≢ some a
some_apart e a q = cc

module _ {ℓ} {T : Type ℓ} where
  -- A vector holds no more items than its capacity.
  abbrev pub IsValid : Vec T → Type 0
  IsValid v = len v ≤ v.capacity

  abbrev pub with_items : Vec T → List T → Vec T
  with_items v ys = record v { items = v.items ++ ys }

  pub append_assoc : (xs ys zs : List T) → (xs ++ ys) ++ zs ≡ xs ++ (ys ++ zs)
  append_assoc [] ys zs = refl
  append_assoc (x ∷ xs) ys zs = ap (◌∷◌ x) (append_assoc xs ys zs)

  pub append_nil : (xs : List T) → xs ++ [] ≡ xs
  append_nil [] = refl
  append_nil (x ∷ xs) = ap (◌∷◌ x) (append_nil xs)

  pub take-append : (xs ys : List T) → take (length xs) (xs ++ ys) ≡ xs
  take-append [] ys = refl
  take-append (x ∷ xs) ys = ap (◌∷◌ x) (take-append xs ys)

  pub push_room :
      (v : Vec T) (x : T) → len v < v.capacity → push v x ≡ (returned tt, with_items v (x ∷ []))
  unfolding push
  push_room v x h = ground arith

  with_items-cons :
      (v : Vec T) (y : T) (ys : List T)
      → with_items (with_items v (y ∷ [])) ys ≡ with_items v (y ∷ ys)
  with_items-cons v y ys = ap (λ xs. record v { items = xs }) (append_assoc v.items (y ∷ []) ys)

  with_items_nil : (v : Vec T) → with_items v [] ≡ v
  with_items_nil v = ap (λ xs. record v { items = xs }) (append_nil v.items)

  -- A loop that pushes elements: it left `made` behind the items, did not abort, and `made` is all
  -- that it was to push where it ended with `success`.
  pub record Filled {A : Type ℓ} (Complete : List T → Type ℓ) (success : Ended A) (v : Vec T)
      (r : Ended A × Vec T) : Type ℓ where
    pub made : List T
    pub left : r.1 ≡ with_items v made
    pub fits : IsValid r.1
    pub no_abort : r.0 ≢ aborted
    pub complete : r.0 ≡ success → Complete made
    pub succeeds : (ys : List T) → Complete ys → r.0 ≡ success

  -- The first element was pushed, and the loop over the others ended as `r`.
  pub Filled-cons :
      {A : Type ℓ} (Complete Complete' : List T → Type ℓ) (success : Ended A) (v : Vec T) (y : T)
      (r : Ended A × Vec T)
      → ((ys : List T) → Complete ys → Complete' (y ∷ ys))
      → ((ys : List T) → Complete' ys → (zs : List T) × Complete zs)
      → Filled Complete success (with_items v (y ∷ [])) r
      → Filled Complete' success v r
  Filled-cons Complete Complete' success v y r f g t = record {
    made = y ∷ t.made;
    left = t.left ∙ with_items-cons v y t.made;
    fits = t.fits;
    no_abort = t.no_abort;
    complete = λ e. f t.made (t.complete e);
    succeeds = λ ys c. let (zs, d) = g ys c in t.succeeds zs d;
  }

  -- The loop stopped before it pushed anything.
  pub Filled-none :
      {A : Type ℓ} (Complete : List T → Type ℓ) (success o : Ended A) (v : Vec T)
      → o ≢ aborted
      → (o ≡ success → Complete [])
      → ((ys : List T) → Complete ys → o ≡ success)
      → IsValid v
      → Filled Complete success v (o, v)
  Filled-none Complete success o v n c d h = record {
    made = [];
    left = sym (with_items_nil v);
    fits = h;
    no_abort = n;
    complete = c;
    succeeds = d;
  }

  pub Filled-stop :
      {A : Type ℓ} (Complete : List T → Type ℓ) (success o : Ended A) (v : Vec T)
      → o ≢ aborted
      → o ≢ success
      → ((ys : List T) → ¬ Complete ys)
      → IsValid v
      → Filled Complete success v (o, v)
  Filled-stop Complete success o v n q d h =
      Filled-none Complete success o v n (λ e. absurd (q e)) (λ ys c. absurd (d ys c)) h
