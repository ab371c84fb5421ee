-- ===== src/Integration/Retry.antt =====
-- The seconds of Retry-After, from the script of the sliding window to the caller:
-- internal/limiter/scripts/sliding_window.lua with internal/middleware/ratelimit.go.
use Prim.Native.Nat.{max}
use ratelimit_gateway.Base.{
  ℕ, ◌+◌, ◌*◌, ◌≤◌, ◌<◌, ◌≡◌, ◌∙◌, String, false, some, List, [], map, ◌==◌, decimal, arith,
}
use ratelimit_gateway.Http.{Response}
use ratelimit_gateway.Limiter.{Reply}
use ratelimit_gateway.Limiter.Store.{SortedSets, IsSortedSets}
use ratelimit_gateway.Limiter.SlidingWindow.{sliding_window, store_after}
use ratelimit_gateway.Limiter.SlidingWindow.Log.{IsAscending}
use ratelimit_gateway.Limiter.SlidingWindow.Room.{last_of}
use ratelimit_gateway.Limiter.SlidingWindow.Refinement.{IsFresh, use_member}
use ratelimit_gateway.Limiter.SlidingWindow.Retry.{used_after, retry_exact}
use ratelimit_gateway.Gateway.Middleware.{Decision, RateLimit, whole_seconds, apply_decision}

-- What `Allow` of redis.go makes of a reply.
abbrev pub gateway_decision : ℕ → Reply → Decision
gateway_decision limit reply = record {
  allowed = reply.allowed == 1;
  limit = limit;
  remaining = reply.remaining;
  retry_after = reply.retry_after_ms;
  reset_after = reply.reset_after_ms;
}

-- The seconds that a refusal with this time to wait tells.
abbrev pub told_seconds : ℕ → ℕ
told_seconds retry_after_ms = max 1 (whole_seconds retry_after_ms)

module _ {ℓ} {S : Type ℓ} ⦃sets : SortedSets S⦄ (laws : IsSortedSets S) (key : String)
    (window limit : ℕ) (positive : 0 < limit) (tier : String) (upstream : Response)
    (rl : RateLimit) where
  -- From a store that does not have the key, after any requests at times that do not fall and with
  -- new members, for a limit and a window above zero: a refusal tells its time to wait in whole
  -- seconds, rounded and at least one; when that is less than the time, the caller who waits just
  -- these seconds, with no request between, is refused again.
  pub told_seconds-refused :
      (cs : List (ℕ × String)) (s : S) (now : ℕ) (member next_member : String)
      → ((t : ℕ) → laws.entries key t s ≡ [])
      → IsAscending 0 (map (λ c. c.0) cs)
      → last_of 0 (map (λ c. c.0) cs) ≤ now
      → IsFresh (λ member. false) cs
      → used_after (λ member. false) cs member ≡ false
      → use_member (used_after (λ member. false) cs) member next_member ≡ false
      → 0 < window
      → ((sliding_window key now window limit member (store_after key window limit cs s)).0.allowed
          == 1)
        ≡ false
      → told_seconds
            (sliding_window key now window limit member
              (store_after key window limit cs s)).0.retry_after_ms
          * 1000
        < (sliding_window key now window limit member
            (store_after key window limit cs s)).0.retry_after_ms
      → let (reply, after) =
          sliding_window key now window limit member (store_after key window limit cs s) in
        let seconds = told_seconds reply.retry_after_ms in
        ((apply_decision tier upstream (gateway_decision limit reply) rl).0.header "Retry-After"
          ≡ some (decimal seconds))
        × (((sliding_window key (now + seconds * 1000) window limit next_member after).0.allowed
              == 1)
            ≡ false)
  unfolding apply_decision
  told_seconds-refused cs s now member next_member absent ascending later fresh new next_new wide
        refused short =
      let (reply, after) =
        sliding_window key now window limit member (store_after key window limit cs s) in
      (
        rw refused (ground arith),
        retry_exact laws key window limit positive cs s now
              (told_seconds reply.retry_after_ms * 1000) member next_member absent ascending later
              fresh new next_new wide refused
            ∙ ground arith,
      )
