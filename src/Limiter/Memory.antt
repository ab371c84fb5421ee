-- ===== src/Limiter/Memory.antt =====
-- Stores in memory that behave as Redis is documented to, on which the scripts run: a slot for
-- each key.
pub mod Sets
pub mod Counts
pub mod Buckets
use text.Mathlib.TextEquality.{eq_iff}
use ratelimit_gateway.Base.{
  ℕ, ◌+◌, ◌≤◌, ◌<◌, Option, none, some, ◌≡◌, ◌≢◌, refl, sym, Bool-cases, inl, inr, String, Bool,
  true, false, if◌then◌else◌, str_eq, arith,
}
use ratelimit_gateway.Limiter.Store.{lives}

abbrev pub put {ℓ} : {A : Type ℓ} → String → A → (String → A) → String → A
put key slot s other = if str_eq key other then slot else s other

pub str_eq_self : (key : String) → str_eq key key ≡ true
str_eq_self key = let h = (eq_iff key key).1 refl in ground arith

pub str_eq-ne : (key other : String) → other ≢ key → str_eq key other ≡ false
str_eq-ne key other ne = elim (Bool-cases (str_eq key other)) [
  | inl equal ↦ absurd (ne (sym ((eq_iff key other).0 equal)))
  | inr different ↦ different
]

pub put-same {ℓ} :
    {A : Type ℓ} (key : String) (slot : A) (s : String → A) → put key slot s key ≡ slot
put-same key slot s = rw (str_eq_self key) refl

pub put-other {ℓ} :
    {A : Type ℓ} (key other : String) (slot : A) (s : String → A)
    → other ≢ key
    → put key slot s other ≡ s other
put-other key other slot s ne = rw (str_eq-ne key other ne) refl

pub lives-earlier :
    (deadline : Option ℕ) (at t : ℕ) → at ≤ t → lives deadline t ≡ true → lives deadline at ≡ true
lives-earlier none at t h alive = refl
lives-earlier (some e) at t h alive = ground arith

pub lives-told : (at ms : ℕ) → 0 < ms → lives (some (at + ms)) at ≡ true
lives-told at ms h = ground arith
