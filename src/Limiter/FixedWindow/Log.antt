-- ===== src/Limiter/FixedWindow/Log.antt =====
-- What internal/limiter/scripts/fixed_window.lua promises, without a store: the earlier requests of
-- the same window decide.
use native.Mathlib.Nat.{lt-div-mul-add, div-mul-le_self, le-div_iff_mul-le, div-lt_iff_lt-mul}
use ratelimit_gateway.Base.{
  ℕ, ◌+◌, ◌*◌, ◌/◌, ◌≤◌, ◌<◌, ◌≡◌, ap, Bool, true, List, [], ◌∷◌, ltb, ◌==◌, ◌-◌, ◌⊎◌, ==_iff,
  count-le_sum, count, arith, Bool-cases, inl, inr,
}
use ratelimit_gateway.Limiter.SlidingWindow.Log.{is_within, admitted}

-- The time belongs to the window of this number.
abbrev pub in_window : ℕ → ℕ → ℕ → Bool
in_window window index t = t / window == index

abbrev pub earlier_of : ℕ → List ℕ → ℕ → ℕ
earlier_of window earlier now = count (in_window window (now / window)) earlier

-- The decisions on requests at these times, after earlier ones.
abbrev pub fixed_decisions : ℕ → ℕ → List ℕ → List ℕ → List Bool
fixed_decisions window limit earlier [] = []
fixed_decisions window limit earlier (t ∷ ts) =
    ltb (earlier_of window earlier t) limit ∷ fixed_decisions window limit (t ∷ earlier) ts

-- Times of one window are less than its length apart.
pub same_window : (window t now : ℕ) → 0 < window → t / window ≡ now / window → t < now + window
same_window window t now wide same = omega (
  arith,
  lt-div-mul-add {a = t} {b = window} wide,
  div-mul-le_self now window,
  ap (λ n. n * window) same,
)

-- Of one window no more requests are admitted than the earlier ones leave room for.
count_in-fixed_decisions :
    (window limit index : ℕ) (ts earlier : List ℕ)
    → count (in_window window index) (admitted ts (fixed_decisions window limit earlier ts))
      ≤ limit - count (in_window window index) earlier
count_in-fixed_decisions window limit index [] earlier = omega arith
count_in-fixed_decisions window limit index (t ∷ ts) earlier =
    let fewer = count_in-fixed_decisions window limit index ts (t ∷ earlier) in
    elim (Bool-cases (t / window == index)) [
      | inl here ↦
          let e : t / window ≡ index = (==_iff (t / window) index).0 here in
          let n : earlier_of window earlier t ≡ count (in_window window index) earlier =
            ap (λ i. count (in_window window i) earlier) e in
          ground arith
      | inr there ↦ ground arith
    ]

index_within :
    (window start a : ℕ)
    → 0 < window
    → is_within window start a ≡ true
    → (in_window window (start / window) a ≡ true)
      ⊎ (in_window window (start / window + 1) a ≡ true)
index_within window start a wide within =
    let low : start / window ≤ a / window =
      (le-div_iff_mul-le {k = window} {x = start / window} {y = a} wide).1
        (let h = div-mul-le_self start window in ground arith) in
    let high : a / window < start / window + 2 =
      (div-lt_iff_lt-mul {k = window} {x = a} {y = start / window + 2} wide).1
        (let h = lt-div-mul-add {a = start} {b = window} wide in ground arith) in
    ground arith

-- In any stretch of time as long as the window, the fixed window admits at most twice the limit.
pub fixed_decisions-bound :
    (window limit start : ℕ) (ts : List ℕ)
    → 0 < window
    → count (is_within window start) (admitted ts (fixed_decisions window limit [] ts)) ≤ 2 * limit
fixed_decisions-bound window limit start ts wide =
    let times = admitted ts (fixed_decisions window limit [] ts) in
    omega (
      arith,
      count-le_sum (is_within window start) (in_window window (start / window))
          (in_window window (start / window + 1)) times (λ a. index_within window start a wide),
      count_in-fixed_decisions window limit (start / window) ts [],
      count_in-fixed_decisions window limit (start / window + 1) ts [],
    )
