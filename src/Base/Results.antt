-- ===== src/Base/Results.antt =====
-- Results of fallible code.
use mathlib.Core.Path.{◌≡◌, refl}
use mathlib.Core.Bool.{Bool, true, false, ◌&&◌}

pub data Outcome {ℓ κ} (E : Type κ) (A : Type ℓ) : Type (ℓ ⊔ κ) where
  ok : A → Outcome E A
  err : E → Outcome E A

infixl 5 ◌>>=◌
abbrev pub ◌>>=◌ {ℓ κ μ} :
    {E : Type μ} {A : Type ℓ} {B : Type κ} → Outcome E A → (A → Outcome E B) → Outcome E B
ok a >>= f = f a
err e >>= f = err e

abbrev pub is_ok {ℓ κ} : {E : Type κ} {A : Type ℓ} → Outcome E A → Bool
is_ok (ok a) = true
is_ok (err e) = false

module _ {ℓ κ μ} {E : Type μ} {A : Type ℓ} {B : Type κ} where
  pub is_ok->>= :
      (o : Outcome E A) (f : A → Outcome E B) (b : Bool)
      → ((a : A) → is_ok (f a) ≡ b)
      → is_ok (o >>= f) ≡ (is_ok o && b)
  is_ok->>= (ok a) f b h = h a
  is_ok->>= (err e) f b h = refl

  pub is_ok->>=_ok : (o : Outcome E A) (f : A → B) → is_ok (o >>= λ a. ok (f a)) ≡ is_ok o
  is_ok->>=_ok (ok a) f = refl
  is_ok->>=_ok (err e) f = refl

-- A predicate of the result, if there is one.
abbrev pub Holds {ℓ μ ν} : {E : Type μ} {A : Type ℓ} → (A → Type ν) → Outcome E A → Type ν
Holds P (ok a) = P a
Holds P (err e) = Unit

module _ {ℓ κ μ ν ξ} {E : Type μ} {A : Type ℓ} {B : Type κ} where
  pub Holds->>= :
      (Q : A → Type ν) (P : B → Type ξ) (o : Outcome E A) (f : A → Outcome E B)
      → Holds Q o
      → ((a : A) → Q a → Holds P (f a))
      → Holds P (o >>= f)
  Holds->>= Q P (ok a) f h k = k a h
  Holds->>= Q P (err e) f h k = tt

abbrev pub IsAny {ℓ} : {A : Type ℓ} → A → Type 0
IsAny a = Unit

pub Holds-IsAny {ℓ μ} : {E : Type μ} {A : Type ℓ} (o : Outcome E A) → Holds IsAny o
Holds-IsAny (ok a) = tt
Holds-IsAny (err e) = tt

-- A predicate of the result, or one of the error.
abbrev pub Tells {ℓ μ ν} :
    {E : Type μ} {A : Type ℓ} → (A → Type ν) → (E → Type ν) → Outcome E A → Type ν
Tells P Q (ok a) = P a
Tells P Q (err e) = Q e

module _ {ℓ κ μ} {E : Type μ} {A : Type ℓ} {B : Type κ} where
  pub Tells->>= :
      (R : A → Type 0) (P : B → Type 0) (Q : E → Type 0) (o : Outcome E A) (f : A → Outcome E B)
      → Tells R Q o
      → ((a : A) → R a → Tells P Q (f a))
      → Tells P Q (o >>= f)
  Tells->>= R P Q (ok a) f h k = k a h
  Tells->>= R P Q (err e) f h k = h
