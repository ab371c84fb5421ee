-- ===== src/Limiter/SlidingWindow.antt =====
-- internal/limiter/scripts/sliding_window.lua. Times are whole milliseconds, so `math.ceil` changes
-- nothing.
pub mod Log
pub mod Room
pub mod Invariant
pub mod Refinement
pub mod Retry
pub mod Isolation
use ratelimit_gateway.Base.{
  ℕ, ◌+◌, ◌-◌, ◌≡◌, String, Option, none, some, List, [], ◌∷◌, if◌then◌else◌, ltb, ◌==◌,
}
use ratelimit_gateway.Limiter.{Reply}
use ratelimit_gateway.Limiter.Store.{SortedSets}

-- `now_ms - window_ms`, and `none` when it is negative.
abbrev pub cutoff_of : ℕ → ℕ → Option ℕ
cutoff_of now window = if ltb now window then none else some (now - window)

-- `oldest[2]` is nil for an empty set.
abbrev pub reset_of : ℕ → ℕ → Option ℕ → ℕ
reset_of now window none = 0
reset_of now window (some oldest) = oldest + window - now

module _ {ℓ} {S : Type ℓ} ⦃sets : SortedSets S⦄ where
  open sets use {zremrangebyscore, zcard, zadd, zrange_first, pexpire}

  -- The entry of an admitted request is added.
  abbrev pub admit : String → ℕ → ℕ → String → ℕ → S → S
  admit key now limit member counted s = if ltb counted limit then zadd key now member now s else s

  unfoldable pub sliding_window : String → ℕ → ℕ → ℕ → String → S → Reply × S
  sliding_window key now window limit member s =
      let trimmed = zremrangebyscore key (cutoff_of now window) now s in
      let counted = zcard key now trimmed in
      let allowed = if ltb counted limit then 1 else 0 in
      let count = if ltb counted limit then counted + 1 else counted in
      let changed = admit key now limit member counted trimmed in
      let reset_after = reset_of now window (zrange_first key now changed) in
      (
        record {
          allowed = allowed;
          remaining = limit - count;
          retry_after_ms = if allowed == 0 then reset_after else 0;
          reset_after_ms = reset_after;
        },
        pexpire key (window + 1000) now changed,
      )

  -- The answers to requests of one caller, by their times and members.
  unfoldable pub replies : String → ℕ → ℕ → List (ℕ × String) → S → List Reply
  replies key window limit [] s = []
  replies key window limit (c ∷ cs) s =
      let (reply, after) = sliding_window key c.0 window limit c.1 s in
      reply ∷ replies key window limit cs after

  -- The store after such requests.
  unfoldable pub store_after : String → ℕ → ℕ → List (ℕ × String) → S → S
  store_after key window limit [] s = s
  store_after key window limit (c ∷ cs) s =
      store_after key window limit cs (sliding_window key c.0 window limit c.1 s).1
