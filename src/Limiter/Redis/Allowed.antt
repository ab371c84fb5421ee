-- ===== src/Limiter/Redis/Allowed.antt =====
-- `Allow` of internal/limiter/redis.go over the script of the sliding window.
use ratelimit_gateway.Base.{
  ℕ, ◌*◌, ◌∙◌, ◌≤◌, ◌<◌, ◌≡◌, refl, ap, String, Bool, false, Option, some, List, [], ◌∷◌, map,
  Outcome, ok, err, count, ◌==◌, arith,
}
use ratelimit_gateway.Number.{Number}
use ratelimit_gateway.Limiter.{Reply}
use ratelimit_gateway.Limiter.Store.{SortedSets, IsSortedSets}
use ratelimit_gateway.Limiter.SlidingWindow as Script
use ratelimit_gateway.Limiter.SlidingWindow.{replies}
use ratelimit_gateway.Limiter.SlidingWindow.Log.{IsAscending, decisions, is_within, admitted}
use ratelimit_gateway.Limiter.SlidingWindow.Refinement.{IsFresh, replies-log, replies-bound}
use ratelimit_gateway.Limiter.Redis.{
  pos, Quota, Decision, Error, Value, integer, RedisLimiter, sliding_window, Args, sliding_args,
  redis_key, window_ms, allow, allow_all,
}

-- A script's numbers come back as integers.
abbrev pub values_of : Reply → List Value
values_of r =
    integer (pos r.allowed)
    ∷ integer (pos r.remaining)
    ∷ integer (pos r.retry_after_ms)
    ∷ integer (pos r.reset_after_ms)
    ∷ []

abbrev pub decision_of : ℕ → Reply → Decision
decision_of limit r = record {
  allowed = r.allowed == 1;
  limit = limit;
  remaining = pos r.remaining;
  retry_after_ms = pos r.retry_after_ms;
  reset_after_ms = pos r.reset_after_ms;
}

-- The decision is that the request may proceed.
abbrev pub is_allowed : Outcome Error Decision → Bool
is_allowed (ok d) = d.allowed
is_allowed (err e) = false

abbrev pub sliding_limiter : String → RedisLimiter
sliding_limiter prefix = record { alg = sliding_window; prefix = prefix }

-- A window of whole milliseconds reaches the script as it is.
pub window_ms-whole : (ms : ℕ) (q : Quota) → q.window ≡ ms * 1_000_000 → window_ms q ≡ ms
window_ms-whole ms q whole = omega arith

pub window_positive : (ms window : ℕ) → 0 < ms → window ≡ ms * 1_000_000 → 0 < window
window_positive ms window some_ms whole = omega arith

module _ {κ ℓ} {N : Type κ} ⦃num : Number N⦄ {S : Type ℓ} ⦃sets : SortedSets S⦄
    (run : String → Args N → S → Option (List Value) × S) where
  -- Redis runs the script of the sliding window.
  abbrev pub IsSliding : Type ℓ
  IsSliding =
      (key : String) (now window limit : ℕ) (member : String) (s : S)
      → let (reply, after) = Script.sliding_window key now window limit member s in
        run key (sliding_args now window limit member) s ≡ (some (values_of reply), after)

  module _ (runs : IsSliding) (prefix key : String) (q : Quota) (some_limit : 0 < q.limit)
      (some_window : 0 < q.window) where
    pub allow-sliding_window :
        (now : ℕ) (member : String) (s : S)
        → let (reply, after) =
            Script.sliding_window
              (redis_key (sliding_limiter prefix) key)
              now
              (window_ms q)
              q.limit
              member
              s in
          allow run (sliding_limiter prefix) now (some member) key q s
          ≡ (ok (decision_of q.limit reply), after)
    unfolding allow
    allow-sliding_window now member s =
        let l : (q.limit == 0) ≡ false = ground arith in
        let w : (q.window == 0) ≡ false = ground arith in
        rw (l, w, runs (redis_key (sliding_limiter prefix) key) now (window_ms q) q.limit member s)
          refl

    allow_all-replies :
        (cs : List (ℕ × String)) (s : S)
        → map is_allowed (allow_all run (sliding_limiter prefix) key q cs s)
          ≡ map
              (λ r. r.allowed == 1)
              (replies (redis_key (sliding_limiter prefix) key) (window_ms q) q.limit cs s)
    unfolding allow_all replies
    allow_all-replies [] s = refl
    allow_all-replies (c ∷ cs) s =
        let (reply, after) =
          Script.sliding_window (redis_key (sliding_limiter prefix) key) c.0 (window_ms q) q.limit
            c.1 s in
        rw (allow-sliding_window c.0 c.1 s)
          (ap (◌∷◌ (reply.allowed == 1)) (allow_all-replies cs after))

  module _ (runs : IsSliding) (prefix key : String) (q : Quota) (some_limit : 0 < q.limit) (ms : ℕ)
      (some_ms : 0 < ms) (whole : q.window ≡ ms * 1_000_000) where
    -- For a quota with a limit and a window of whole milliseconds, at least one, on a store that
    -- does not have the key, and for calls at times that do not fall and with new members: `Allow`
    -- with the sliding window admits exactly the calls that have fewer than `limit` admitted ones
    -- in the window that ends with them, and in any stretch of time as long as the window,
    -- wherever it begins, no more than the limit.
    pub allow_all-log :
        (laws : IsSortedSets S) (cs : List (ℕ × String)) (s : S) (start : ℕ)
        → ((t : ℕ) → laws.entries (redis_key (sliding_limiter prefix) key) t s ≡ [])
        → IsAscending 0 (map (λ c. c.0) cs)
        → IsFresh (λ member. false) cs
        → let times = map (λ c. c.0) cs in
          let allowed = map is_allowed (allow_all run (sliding_limiter prefix) key q cs s) in
          (allowed ≡ decisions ms q.limit [] times)
          × (count (is_within ms start) (admitted times allowed) ≤ q.limit)
    allow_all-log laws cs s start absent ascending fresh =
        let name = redis_key (sliding_limiter prefix) key in
        let told =
          allow_all-replies runs prefix key q some_limit (window_positive ms q.window some_ms whole)
            cs s
          ∙ ap (λ w. map (λ r. r.allowed == 1) (replies name w q.limit cs s))
              (window_ms-whole ms q whole) in
        rw told (
          replies-log laws name ms q.limit some_limit cs s absent ascending fresh,
          replies-bound laws name ms q.limit some_limit cs s start absent ascending fresh,
        )
