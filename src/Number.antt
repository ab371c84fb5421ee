-- ===== src/Number.antt =====
-- JavaScript's numbers: the operations on them that the pages' scripts use. The scripts compute
-- with doubles, so the type of numbers and its operations are a parameter of the development.
-- The laws that a theorem needs of them are those of IEEE doubles, in `Number.Laws`.
pub mod Laws
pub mod Fixed
use ratelimit_gateway.Base.{ℕ, String, Bool, not, ◌||◌, if◌then◌else◌}

pub record Number {ℓ} (N : Type ℓ) : Type ℓ where
  -- An integer literal.
  pub nat : ℕ → N
  pub add : N → N → N
  pub sub : N → N → N
  pub mul : N → N → N
  pub div : N → N → N
  -- `a % b`.
  pub rem : N → N → N
  -- `a < b` and `a === b`, both false at NaN.
  pub lt : N → N → Bool
  pub eq : N → N → Bool
  pub floor : N → N
  pub ceil : N → N
  pub round : N → N
  pub is_finite : N → Bool
  -- `String(n)`, `n.toFixed(d)` and `Number(s)`.
  pub text : N → String
  pub fixed : ℕ → N → String
  pub of_text : String → N

module _ {ℓ} {N : Type ℓ} ⦃num : Number N⦄ where
  open num use {lt, eq}

  -- `a <= b`.
  abbrev pub le : N → N → Bool
  le a b = lt a b || eq a b

  abbrev pub is_nan : N → Bool
  is_nan a = not (eq a a)

  -- `!a`: zero and NaN are the numbers that count as false.
  abbrev pub is_falsy : N → Bool
  is_falsy a = eq a (num.nat 0) || is_nan a

  -- `Math.max` and `Math.min`.
  abbrev pub max : N → N → N
  max a b = if is_nan a then a else if is_nan b then b else if lt a b then b else a

  abbrev pub min : N → N → N
  min a b = if is_nan a then a else if is_nan b then b else if lt b a then b else a
