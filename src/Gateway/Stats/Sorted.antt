-- ===== src/Gateway/Stats/Sorted.antt =====
-- The insertion sort of the histograms' bounds: sortFloats of internal/dashboard/dashboard.go.
use ratelimit_gateway.Base.{
  ◌+◌, ◌≡◌, refl, ◌∙◌, Bool, true, false, List, [], ◌∷◌, if◌then◌else◌, count, arith, Bool-cases,
  inl, inr,
}
use ratelimit_gateway.Number.{Number}
use ratelimit_gateway.Number.Laws.{IsOrdered}
use ratelimit_gateway.Gateway.Stats.Latency.{sink, sort_from, reverse_onto, sort_floats}

count-reverse_onto {ℓ} :
    {A : Type ℓ} (p : A → Bool) (done xs : List A)
    → count p (reverse_onto done xs) ≡ count p xs + count p done
count-reverse_onto p done [] = omega arith
count-reverse_onto p done (x ∷ xs) = omega (arith, count-reverse_onto p (x ∷ done) xs)

module _ {ℓ} {N : Type ℓ} ⦃num : Number N⦄ where
  -- No number is less than the one before it, the first one not less than the given one.
  abbrev IsRising : N → List N → Type 0
  IsRising a [] = Unit
  IsRising a (x ∷ xs) = (num.lt x a ≡ false) × IsRising x xs

  abbrev pub IsSorted : List N → Type 0
  IsSorted [] = Unit
  IsSorted (x ∷ xs) = IsRising x xs

  abbrev IsFalling : N → List N → Type 0
  IsFalling a [] = Unit
  IsFalling a (x ∷ xs) = (num.lt a x ≡ false) × IsFalling x xs

  abbrev IsReversed : List N → Type 0
  IsReversed [] = Unit
  IsReversed (x ∷ xs) = IsFalling x xs

  count-sink :
      (p : N → Bool) (x : N) (done : List N)
      → count p (sink x done) ≡ (if p x then 1 else 0) + count p done
  count-sink p x [] = refl
  count-sink p x (y ∷ ys) = elim (Bool-cases (num.lt x y)) [
    | inl less ↦ rw less (omega (arith, count-sink p x ys))
    | inr done ↦ rw done refl
  ]

  count-sort_from :
      (p : N → Bool) (done xs : List N) → count p (sort_from done xs) ≡ count p done + count p xs
  count-sort_from p done [] = omega arith
  count-sort_from p done (x ∷ xs) =
      omega (arith, count-sort_from p (sink x done) xs, count-sink p x done)

  module _ (ordered : IsOrdered N) where
    lt-not_lt : (a b : N) → num.lt a b ≡ true → num.lt b a ≡ false
    lt-not_lt a b less = let h = ordered.lt-not_le a b less in ground arith

    sink-IsFalling :
        (a x : N) (done : List N)
        → num.lt a x ≡ false
        → IsFalling a done
        → IsFalling a (sink x done)
    sink-IsFalling a x [] below h = (below, tt)
    sink-IsFalling a x (y ∷ ys) below (h, hs) = elim (Bool-cases (num.lt x y)) [
      | inl less ↦ rw less (h, sink-IsFalling y x ys (lt-not_lt x y less) hs)
      | inr done ↦ rw done (below, (done, hs))
    ]

    sink-IsReversed : (x : N) (done : List N) → IsReversed done → IsReversed (sink x done)
    sink-IsReversed x [] h = tt
    sink-IsReversed x (y ∷ ys) h = elim (Bool-cases (num.lt x y)) [
      | inl less ↦ rw less (sink-IsFalling y x ys (lt-not_lt x y less) h)
      | inr done ↦ rw done (done, h)
    ]

    sort_from-IsReversed : (done xs : List N) → IsReversed done → IsReversed (sort_from done xs)
    sort_from-IsReversed done [] h = h
    sort_from-IsReversed done (x ∷ xs) h =
        sort_from-IsReversed (sink x done) xs (sink-IsReversed x done h)

  reverse_onto-IsSorted :
      (x : N) (done xs : List N)
      → IsRising x done
      → IsFalling x xs
      → IsSorted (reverse_onto (x ∷ done) xs)
  reverse_onto-IsSorted x done [] rising falling = rising
  reverse_onto-IsSorted x done (y ∷ ys) rising (h, falling) =
      reverse_onto-IsSorted y (x ∷ done) ys (h, rising) falling

  reversed-IsSorted : (xs : List N) → IsReversed xs → IsSorted (reverse_onto [] xs)
  reversed-IsSorted [] h = tt
  reversed-IsSorted (x ∷ xs) h = reverse_onto-IsSorted x [] xs tt h

  -- The sort leaves no number that is less than the one before it, and keeps all of them: as many
  -- as before meet any test. The numbers have the laws of `Number.Laws`.
  pub sort_floats-IsSorted :
      (ordered : IsOrdered N) (values : List N) (p : N → Bool)
      → IsSorted (sort_floats values) × (count p (sort_floats values) ≡ count p values)
  unfolding sort_floats
  sort_floats-IsSorted ordered values p = (
    reversed-IsSorted (sort_from [] values) (sort_from-IsReversed ordered [] values tt),
    count-reverse_onto p [] (sort_from [] values) ∙ omega (arith, count-sort_from p [] values),
  )
