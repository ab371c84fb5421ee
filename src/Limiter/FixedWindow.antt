-- ===== src/Limiter/FixedWindow.antt =====
-- internal/limiter/scripts/fixed_window.lua. Below 2 ^ 53 the quotient that `math.floor` takes is
-- that of the natural numbers.
pub mod Log
pub mod Invariant
pub mod Refinement
use ratelimit_gateway.Base.{
  ℕ, ◌+◌, ◌-◌, ◌*◌, ◌/◌, ◌≡◌, String, List, [], ◌∷◌, if◌then◌else◌, ltb, ◌==◌, template,
}
use ratelimit_gateway.Limiter.{Reply}
use ratelimit_gateway.Limiter.Store.{Counters}

-- The first argument is the text of a number in Lua's `..`,
-- exact for whole numbers below 10 ^ 14.
abbrev pub window_key : (ℕ → String) → String → ℕ → String
window_key text_of prefix index = template (prefix ∷ ":" ∷ text_of index ∷ [])

module _ {ℓ} {S : Type ℓ} ⦃counters : Counters S⦄ (text_of : ℕ → String) where
  open counters use {incr, pexpire}

  unfoldable pub fixed_window : String → ℕ → ℕ → ℕ → S → Reply × S
  fixed_window prefix now window limit s =
      let window_index = now / window in
      let key = window_key text_of prefix window_index in
      let (count, counted) = incr key now s in
      let changed = if count == 1 then pexpire key window now counted else counted in
      let reset_after = (window_index + 1) * window - now in
      (
        record {
          allowed = if ltb limit count then 0 else 1;
          remaining = limit - count;
          retry_after_ms = if ltb limit count then reset_after else 0;
          reset_after_ms = reset_after;
        },
        changed,
      )

  -- The answers to requests of one caller at these times.
  unfoldable pub fixed_replies : String → ℕ → ℕ → List ℕ → S → List Reply
  fixed_replies prefix window limit [] s = []
  fixed_replies prefix window limit (t ∷ ts) s =
      let (reply, after) = fixed_window prefix t window limit s in
      reply ∷ fixed_replies prefix window limit ts after
