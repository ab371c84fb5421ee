-- ===== src/Base/Lists.antt =====
-- Lists measured by native numbers, under the library's names, and the end of a list.
use Prim.Native.Nat.{ℕ, zero, suc, ◌+◌, ◌-◌, ◌≤◌, ◌<◌}
use mathlib.Core.Path.{◌≡◌, refl, sym, ap, ◌∙◌}
use mathlib.Core.Bool.{Bool, true, false, ◌||◌}
use mathlib.Core.Option.{Option, none, some}
use mathlib.Core.List.{List, [], ◌∷◌, ◌++◌, map, tail}
use mathlib.Core.Logic.{◌⊎◌, inl, inr}
use native.Mathlib.Omega.{arith}
use ratelimit_gateway.Base.Tests.{
  ltb, if◌then◌else◌, lt→ltb, le→ltb-false, Bool-cases, ltb→lt, tests,
}

module _ {ℓ} {A : Type ℓ} where
  abbrev pub length : List A → ℕ
  length [] = 0
  length (x ∷ xs) = suc (length xs)

  abbrev pub drop : ℕ → List A → List A
  drop zero xs = xs
  drop (suc n) [] = []
  drop (suc n) (x ∷ xs) = drop n xs

  abbrev pub get_elem? : List A → ℕ → Option A
  get_elem? [] i = none
  get_elem? (x ∷ xs) zero = some x
  get_elem? (x ∷ xs) (suc i) = get_elem? xs i

  abbrev pub All {κ} : (A → Type κ) → List A → Type κ
  All P [] = Unit
  All P (x ∷ xs) = P x × All P xs

  abbrev pub take : ℕ → List A → List A
  take zero rest = []
  take (suc n) [] = []
  take (suc n) (x ∷ rest) = x ∷ take n rest

  -- `xs.some(p)`.
  abbrev pub any : (A → Bool) → List A → Bool
  any p [] = false
  any p (x ∷ xs) = p x || any p xs

  -- `xs.filter(p)`.
  abbrev pub filter : (A → Bool) → List A → List A
  filter p [] = []
  filter p (x ∷ xs) = let rest = filter p xs in if p x then x ∷ rest else rest

  -- The number of elements that pass a test.
  abbrev pub count : (A → Bool) → List A → ℕ
  count p [] = 0
  count p (x ∷ xs) = (if p x then 1 else 0) + count p xs

  pub length-append : (xs ys : List A) → length (xs ++ ys) ≡ length xs + length ys
  length-append [] ys = omega arith
  length-append (x ∷ xs) ys = omega (arith, length-append xs ys)

  pub count-append : (p : A → Bool) (xs ys : List A) → count p (xs ++ ys) ≡ count p xs + count p ys
  count-append p [] ys = omega arith
  count-append p (x ∷ xs) ys = omega (arith, count-append p xs ys)

  pub filter-append :
      (p : A → Bool) (xs ys : List A) → filter p (xs ++ ys) ≡ filter p xs ++ filter p ys
  filter-append p [] ys = refl
  filter-append p (x ∷ xs) ys = elim (Bool-cases (p x)) [
    | inl kept ↦ rw kept (ap (◌∷◌ x) (filter-append p xs ys))
    | inr lost ↦ rw lost (filter-append p xs ys)
  ]

  pub length-filter : (p : A → Bool) (xs : List A) → length (filter p xs) ≡ count p xs
  length-filter p [] = refl
  length-filter p (x ∷ xs) = ground (arith, length-filter p xs)

  -- A second filter that asks for less of what is left.
  pub filter-filter :
      (p q : A → Bool) (xs : List A)
      → ((x : A) → q x ≡ true → p x ≡ true)
      → filter q (filter p xs) ≡ filter q xs
  filter-filter p q [] h = refl
  filter-filter p q (x ∷ xs) h = elim (Bool-cases (p x)) [
    | inl kept ↦ rw kept (ground (arith, filter-filter p q xs h))
    | inr lost ↦ rw lost (ground (arith, filter-filter p q xs h, h x))
  ]

  pub filter_none : (p : A → Bool) (xs : List A) → All (λ x. p x ≡ false) xs → filter p xs ≡ []
  filter_none p [] hs = refl
  filter_none p (x ∷ xs) (h, hs) = rw h (filter_none p xs hs)

  pub All-filter {κ} :
      (P : A → Type κ) (p : A → Bool) (xs : List A) → All P xs → All P (filter p xs)
  All-filter P p [] hs = hs
  All-filter P p (x ∷ xs) (h, hs) = elim (Bool-cases (p x)) [
    | inl kept ↦ rw kept (h, All-filter P p xs hs)
    | inr lost ↦ rw lost (All-filter P p xs hs)
  ]

  pub All-imp {κ μ} :
      (P : A → Type κ) (Q : A → Type μ) (xs : List A) → ((x : A) → P x → Q x) → All P xs → All Q xs
  All-imp P Q [] f hs = tt
  All-imp P Q (x ∷ xs) f (h, hs) = (f x h, All-imp P Q xs f hs)

  pub All-each {κ} : (P : A → Type κ) → ((x : A) → P x) → (xs : List A) → All P xs
  All-each P f [] = tt
  All-each P f (x ∷ xs) = (f x, All-each P f xs)

  -- A count of fewer elements.
  pub count-le :
      (p q : A → Bool) (xs : List A)
      → All (λ x. p x ≡ true → q x ≡ true) xs
      → count p xs ≤ count q xs
  count-le p q [] hs = omega arith
  count-le p q (x ∷ xs) (h, hs) = ground (arith, count-le p q xs hs)

  pub count-le_sum :
      (p q r : A → Bool) (xs : List A)
      → ((x : A) → p x ≡ true → (q x ≡ true) ⊎ (r x ≡ true))
      → count p xs ≤ count q xs + count r xs
  count-le_sum p q r [] h = omega arith
  count-le_sum p q r (x ∷ xs) h = ground (arith, count-le_sum p q r xs h, h x)

  pub count-le-length : (p : A → Bool) (xs : List A) → count p xs ≤ length xs
  count-le-length p [] = omega arith
  count-le-length p (x ∷ xs) = ground (arith, count-le-length p xs)

  pub All-append {κ} : (P : A → Type κ) (xs ys : List A) → All P xs → All P ys → All P (xs ++ ys)
  All-append P [] ys h k = k
  All-append P (x ∷ xs) ys (p, h) k = (p, All-append P xs ys h k)

  pub All-tail {κ} : (P : A → Type κ) (xs : List A) → All P xs → All P (tail xs)
  All-tail P [] h = h
  All-tail P (x ∷ xs) (p, h) = h

  pub take_of_length-le : (n : ℕ) (xs : List A) → length xs ≤ n → take n xs ≡ xs
  take_of_length-le zero [] _ = refl
  take_of_length-le (suc n) [] _ = refl
  take_of_length-le zero (first ∷ rest) short = absurd (omega arith)
  take_of_length-le (suc n) (first ∷ rest) short =
      ap (◌∷◌ first) (take_of_length-le n rest (omega arith))

  pub take-take-suc : (n : ℕ) (xs : List A) → take n (take (suc n) xs) ≡ take n xs
  take-take-suc zero xs = refl
  take-take-suc (suc n) [] = refl
  take-take-suc (suc n) (x ∷ xs) = ap (◌∷◌ x) (take-take-suc n xs)

  pub length-drop : (n : ℕ) (xs : List A) → length (drop n xs) ≡ length xs - n
  length-drop zero xs = omega arith
  length-drop (suc n) [] = omega arith
  length-drop (suc n) (x ∷ xs) = omega (arith, length-drop n xs)

  pub drop-append : (n : ℕ) (xs ys : List A) → n ≤ length xs → drop n (xs ++ ys) ≡ drop n xs ++ ys
  drop-append zero xs ys h = refl
  drop-append (suc n) [] ys h = absurd (omega arith)
  drop-append (suc n) (x ∷ xs) ys h = drop-append n xs ys (omega arith)

  pub tail-drop : (n : ℕ) (xs : List A) → tail (drop n xs) ≡ drop (suc n) xs
  tail-drop zero [] = refl
  tail-drop zero (x ∷ xs) = refl
  tail-drop (suc n) [] = refl
  tail-drop (suc n) (x ∷ xs) = tail-drop n xs

  pub All-drop {κ} : (P : A → Type κ) (n : ℕ) (xs : List A) → All P xs → All P (drop n xs)
  All-drop P zero xs h = h
  All-drop P (suc n) [] h = h
  All-drop P (suc n) (x ∷ xs) (p, h) = All-drop P n xs h

  -- The last `n` elements, or all of a shorter list.
  abbrev pub last_n : ℕ → List A → List A
  last_n n xs = drop (length xs - n) xs

  -- `xs.push(x); if (xs.length > n) xs.shift();`
  abbrev pub push_bounded : ℕ → List A → A → List A
  push_bounded n xs x = let ys = xs ++ x ∷ [] in if ltb n (length ys) then tail ys else ys

  -- A push past the bound drops the oldest element; one within it drops none.
  push_bounded_full :
      (n : ℕ) (xs : List A) (x : A)
      → n ≤ length xs
      → push_bounded n (last_n n xs) x ≡ drop (suc (length xs - n)) (xs ++ x ∷ [])
  push_bounded_full n xs x h =
      let k = length xs - n in
      let fit : n < length (drop k xs ++ x ∷ []) =
        omega (arith, length-append (drop k xs) (x ∷ []), length-drop k xs) in
      rw (lt→ltb _ _ fit, ← drop-append k xs (x ∷ []) (omega arith)) (tail-drop k (xs ++ x ∷ []))

  push_bounded_short :
      (n : ℕ) (xs : List A) (x : A) → length xs < n → push_bounded n (last_n n xs) x ≡ xs ++ x ∷ []
  push_bounded_short n xs x h =
      let none_dropped : length xs - n ≡ 0 = omega arith in
      rw
        (
          none_dropped,
          le→ltb-false n (length (xs ++ x ∷ [])) (omega (arith, length-append xs (x ∷ []))),
        )
        refl

  -- Pushing with a bound keeps the last `n` of everything that was pushed.
  pub push_bounded-last_n :
      (n : ℕ) (xs : List A) (x : A) → push_bounded n (last_n n xs) x ≡ last_n n (xs ++ x ∷ [])
  push_bounded-last_n n xs x =
      let longer = length-append xs (x ∷ []) in
      elim (Bool-cases (ltb (length xs) n)) [
        | inl short ↦
            let e : length (xs ++ x ∷ []) - n ≡ 0 = omega tests in
            rw e (push_bounded_short n xs x (ltb→lt _ _ short))
        | inr full ↦
            let e : length (xs ++ x ∷ []) - n ≡ suc (length xs - n) = omega tests in
            rw e (push_bounded_full n xs x (omega tests))
      ]

  pub last_n_of_length-le : (n : ℕ) (xs : List A) → length xs ≤ n → last_n n xs ≡ xs
  last_n_of_length-le n xs h = let e : length xs - n ≡ 0 = omega arith in rw e refl

  pub length-last_n-le : (n : ℕ) (xs : List A) → length (last_n n xs) ≤ n
  length-last_n-le n xs = omega (arith, length-drop (length xs - n) xs)

  -- The last `n` of a list that grew are those of its last `n` with the new element.
  pub last_n-concat :
      (n : ℕ) (xs : List A) (x : A) → last_n n (last_n n xs ++ x ∷ []) ≡ last_n n (xs ++ x ∷ [])
  last_n-concat n xs x =
      let kept = last_n n xs in
      sym (push_bounded-last_n n kept x)
      ∙ ap (λ ys. push_bounded n ys x) (last_n_of_length-le n kept (length-last_n-le n xs))
      ∙ push_bounded-last_n n xs x

pub take-map {ℓ κ} :
    {A : Type ℓ} {B : Type κ} (n : ℕ) (f : A → B) (xs : List A)
    → take n (map f xs) ≡ map f (take n xs)
take-map zero f xs = refl
take-map (suc n) f [] = refl
take-map (suc n) f (x ∷ xs) = ap (◌∷◌ (f x)) (take-map n f xs)
