-- ===== src/Vec/Rolled.antt =====
-- All of the elements or none: what a `TruncateGuard` leaves.
use rustyfill.Prelude.{
  leb, Bool-cases, take, Result, ok, err, Result-cases, ℕ, ◌+◌, ◌≤◌, ◌≡◌, refl, ap, ◌∙◌, ◌≢◌, ◌⊎◌,
  inl, inr, List, ◌++◌, arith,
}
use rustyfill.Vec.{
  Vec, Ended, returned, unwound, aborted, Growth, MakesRoom, len, try_reserve, truncate, guarded,
  map_error,
}
use rustyfill.Vec.Fill.{
  IsValid, take-append, Filled, returned_apart, unwound_apart, err_apart, unwound_returned,
}

module _ {ℓ} {T : Type ℓ} where
  -- The reservation answers with room and the same items, or with an error and the same vector.
  pub reserve_cases :
      {R : Type ℓ} (g : Growth R) (v : Vec T) (n : ℕ)
      → MakesRoom g
      → ((c : ℕ) × (try_reserve g v n ≡ (ok tt, record v { capacity = c })) × (len v + n ≤ c))
        ⊎ ((e : R) × (try_reserve g v n ≡ (err e, v)))
  unfolding try_reserve
  reserve_cases g v n room = elim (Bool-cases (leb (len v + n) v.capacity)) [
    | inl fits ↦ inl (v.capacity, rw (try_reserve, fits) refl, ground (arith, fits))
    | inr short ↦ elim (Result-cases (g.grow v.capacity (len v) n)) [
      | inl (c, e) ↦ inl (c, rw (try_reserve, short, e) refl, room v.capacity (len v) n c e)
      | inr (x, e) ↦ inr (x, rw (try_reserve, short, e) refl)
    ]
  ]

  -- All of the elements are behind the items, or the items are as they were; all if `Complete`
  -- says that there are such elements.
  pub record Rolled {E : Type ℓ} (Complete : List T → Type ℓ) (v : Vec T)
      (r : Ended (Result (Unit {ℓ}) E) × Vec T) : Type ℓ where
    pub fits : IsValid r.1
    pub no_abort : r.0 ≢ aborted
    pub all : r.0 ≡ returned (ok tt) → (ys : List T) × Complete ys × (r.1.items ≡ v.items ++ ys)
    pub nothing : r.0 ≢ returned (ok tt) → r.1.items ≡ v.items
    pub succeeds : (ys : List T) → Complete ys → r.0 ≡ returned (ok tt)

  pub truncated-Rolled :
      {A : Type ℓ} {E' : Type ℓ} (Complete : List T → Type ℓ) (v w : Vec T)
      (o : Ended (Result (Unit {ℓ}) E')) (o' : Ended A) (success : Ended A)
      → IsValid v
      → o ≢ aborted
      → o ≢ returned (ok tt)
      → o' ≢ success
      → Filled Complete success v (o', w)
      → Rolled Complete v (o, truncate w (len v))
  unfolding truncate
  truncated-Rolled Complete v w o o' success h n q q' t =
      let back = ap (λ u. take (len v) u.items) t.left ∙ take-append v.items t.made in
      record {
        fits = let size = ap (λ u. u.capacity) t.left in rw (back, size) h;
        no_abort = n;
        all = λ e. absurd (q e);
        nothing = λ _. back;
        succeeds = λ ys c. absurd (q' (t.succeeds ys c));
      }

  pub Filled-Rolled :
      {A : Type ℓ} {E' : Type ℓ} (Complete : List T → Type ℓ) (v w : Vec T) (success : Ended A)
      → Filled Complete success v (success, w)
      → Rolled {E = E'} Complete v (returned (ok tt), w)
  Filled-Rolled Complete v w success t = record {
    fits = t.fits;
    no_abort = returned_apart (ok tt);
    all = λ e. (t.made, t.complete refl, ap (λ x. x.items) t.left);
    nothing = λ e. absurd (e refl);
    succeeds = λ _ _. refl;
  }

  pub guarded-Rolled :
      {E E' : Type ℓ} (Complete : List T → Type ℓ) (v w : Vec T) (f : E → E')
      (o : Ended (Result (Unit {ℓ}) E))
      → IsValid v
      → Filled Complete (returned (ok tt)) v (o, w)
      → Rolled Complete v (guarded (len v) (map_error f (o, w)))
  unfolding guarded
  guarded-Rolled Complete v w f (returned (ok tt)) h t =
      Filled-Rolled Complete v w (returned (ok tt)) t
  guarded-Rolled Complete v w f (returned (err x)) h t =
      truncated-Rolled Complete v w (returned (err (f x))) (returned (err x)) (returned (ok tt)) h
        (returned_apart (err (f x))) (err_apart (f x) tt) (err_apart x tt) t
  guarded-Rolled Complete v w f unwound h t =
      truncated-Rolled Complete v w unwound unwound (returned (ok tt)) h unwound_apart
        (unwound_returned (ok tt)) (unwound_returned (ok tt)) t
  guarded-Rolled Complete v w f aborted h t = absurd (t.no_abort refl)

  pub Rolled-capacity :
      {E : Type ℓ} (Complete : List T → Type ℓ) (v : Vec T) (c : ℕ)
      (r : Ended (Result (Unit {ℓ}) E) × Vec T)
      → Rolled Complete (record v { capacity = c }) r
      → Rolled Complete v r
  Rolled-capacity Complete v c r t = record {
    fits = t.fits;
    no_abort = t.no_abort;
    all = t.all;
    nothing = t.nothing;
    succeeds = t.succeeds;
  }

  -- The reservation of `n` elements was refused, and nothing changed; or all or nothing was pushed.
  abbrev pub AllOrNothing :
      {R E : Type ℓ}
      → Growth R
      → ℕ
      → (R → E)
      → (List T → Type ℓ)
      → Vec T
      → Ended (Result (Unit {ℓ}) E) × Vec T
      → Type ℓ
  AllOrNothing {R = R} g n f Complete v r =
      ((e : R) × (try_reserve g v n ≡ (err e, v)) × (r ≡ (returned (err (f e)), v)))
      ⊎ Rolled Complete v r
