-- ===== src/Number/Laws.antt =====
-- What the theorems use of doubles. NaN is the number that is not equal to itself; a law that
-- could meet it, or an infinity, asks for finite operands.
use ratelimit_gateway.Base.{ℕ, ◌-◌, ◌≤◌, ◌≡◌, true, false, ltb, ◌==◌}
use ratelimit_gateway.Number.{Number, le}

pub record IsOrdered {ℓ} (N : Type ℓ) ⦃num : Number N⦄ : Type ℓ where
  pub eq_nat : (n : ℕ) → num.eq (num.nat n) (num.nat n) ≡ true
  pub half_pos : num.lt (num.nat 0) (num.div (num.nat 1) (num.nat 2)) ≡ true
  pub lt_le_trans : (a b c : N) → num.lt a b ≡ true → le b c ≡ true → num.lt a c ≡ true
  pub le_lt_trans : (a b c : N) → le a b ≡ true → num.lt b c ≡ true → num.lt a c ≡ true
  pub lt-not_le : (a b : N) → num.lt a b ≡ true → le b a ≡ false
  -- A difference of finite numbers is never NaN.
  pub sub_eq :
      (a b : N)
      → num.is_finite a ≡ true
      → num.is_finite b ≡ true
      → num.eq (num.sub a b) (num.sub a b) ≡ true
  -- A difference of finite numbers that are not negative does not overflow.
  pub sub_finite :
      (a b : N)
      → num.is_finite a ≡ true
      → num.is_finite b ≡ true
      → le (num.nat 0) a ≡ true
      → le (num.nat 0) b ≡ true
      → num.is_finite (num.sub a b) ≡ true
  pub sub_nonpos :
      (a b : N)
      → num.is_finite a ≡ true
      → num.is_finite b ≡ true
      → le a b ≡ true
      → le (num.sub a b) (num.nat 0) ≡ true
  pub div_nonneg :
      (a b : N)
      → le (num.nat 0) a ≡ true
      → num.is_finite b ≡ true
      → num.lt (num.nat 0) b ≡ true
      → le (num.nat 0) (num.div a b) ≡ true

-- What the theorems on the token bucket use of doubles.
pub record IsArithmetic {ℓ} (N : Type ℓ) ⦃num : Number N⦄ : Type ℓ where
  pub le_trans : (a b c : N) → le a b ≡ true → le b c ≡ true → le a c ≡ true
  pub lt_le : (a b : N) → num.lt a b ≡ true → le a b ≡ true
  pub finite_le : (a : N) → num.is_finite a ≡ true → le a a ≡ true
  pub zero_le : le (num.nat 0) (num.nat 0) ≡ true
  -- Of two numbers that compare with zero one is the lesser.
  pub not_lt :
      (a b : N)
      → le (num.nat 0) a ≡ true
      → le (num.nat 0) b ≡ true
      → num.lt a b ≡ false
      → le b a ≡ true
  pub add_nonneg :
      (a b : N)
      → le (num.nat 0) a ≡ true
      → le (num.nat 0) b ≡ true
      → le (num.nat 0) (num.add a b) ≡ true
  pub add_le :
      (a b : N) → le (num.nat 0) a ≡ true → num.is_finite b ≡ true → le b (num.add a b) ≡ true
  pub mul_nonneg :
      (a b : N)
      → le (num.nat 0) a ≡ true
      → num.is_finite b ≡ true
      → num.lt (num.nat 0) b ≡ true
      → le (num.nat 0) (num.mul a b) ≡ true
  pub div_nonneg :
      (a b : N)
      → le (num.nat 0) a ≡ true
      → num.is_finite b ≡ true
      → num.lt (num.nat 0) b ≡ true
      → le (num.nat 0) (num.div a b) ≡ true
  pub thousand : (num.is_finite (num.nat 1000) ≡ true) × (num.lt (num.nat 0) (num.nat 1000) ≡ true)
  -- Taking no more than there is, and not less than nothing.
  pub sub_le :
      (a b : N)
      → le (num.nat 0) b ≡ true
      → le b a ≡ true
      → num.is_finite b ≡ true
      → (le (num.nat 0) (num.sub a b) ≡ true) × (le (num.sub a b) a ≡ true)
  pub one : (num.is_finite (num.nat 1) ≡ true) × (le (num.nat 0) (num.nat 1) ≡ true)
  pub floor_le :
      (a : N)
      → le (num.nat 0) a ≡ true
      → (le (num.nat 0) (num.floor a) ≡ true) × (le (num.floor a) a ≡ true)
  pub ceil_nonneg : (a : N) → le (num.nat 0) a ≡ true → le (num.nat 0) (num.ceil a) ≡ true

-- Doubles hold the whole numbers up to 2 ^ 53 exactly.
abbrev pub max_exact : ℕ
max_exact = 9_007_199_254_740_992

pub record IsExact {ℓ} (N : Type ℓ) ⦃num : Number N⦄ : Type ℓ where
  pub finite_nat : (n : ℕ) → n ≤ max_exact → num.is_finite (num.nat n) ≡ true
  pub lt_nat : (a b : ℕ) → a ≤ max_exact → b ≤ max_exact → num.lt (num.nat a) (num.nat b) ≡ ltb a b
  pub eq_nat : (a b : ℕ) → a ≤ max_exact → b ≤ max_exact → num.eq (num.nat a) (num.nat b) ≡ (a == b)
  pub sub_nat :
      (a b : ℕ) → a ≤ max_exact → b ≤ a → num.sub (num.nat a) (num.nat b) ≡ num.nat (a - b)
  pub floor_nat : (n : ℕ) → n ≤ max_exact → num.floor (num.nat n) ≡ num.nat n
  pub sub_self : (a : N) → num.is_finite a ≡ true → num.sub a a ≡ num.nat 0
  pub add_zero : (n : ℕ) → num.add (num.nat n) (num.nat 0) ≡ num.nat n
  pub div_zero : num.div (num.nat 0) (num.nat 1000) ≡ num.nat 0
  pub mul_zero :
      (a : N)
      → num.is_finite a ≡ true
      → num.lt (num.nat 0) a ≡ true
      → num.mul (num.nat 0) a ≡ num.nat 0
