-- ===== src/Examples/Limiter.antt =====
-- The limiter on the stores in memory.
use ratelimit_gateway.Base.{
  ℕ, zero, prepend, suc, ◌+◌, ◌*◌, ◌≤◌, ◌<◌, ◌≡◌, refl, ap, sym, ◌∙◌, String, true, false, Option,
  none, some, List, [], ◌∷◌, map, count, All, leb, ◌==◌, arith, decimal,
}
use ratelimit_gateway.Http.{Response}
use ratelimit_gateway.Number.Fixed.{Fixed, pos, fixed_number, Fixed-IsArithmetic, Fixed-IsExact}
use ratelimit_gateway.Limiter.Memory.Sets.{
  SetSlot, no_sets, entries-no_sets, memory_sets, memory_sets-IsSortedSets,
}
use ratelimit_gateway.Limiter.Memory.Counts.{
  no_counts, value-no_counts, memory_counters, memory_counters-IsCounters,
}
use ratelimit_gateway.Limiter.Memory.Buckets.{no_hashes, bucket_store, bucket_store-IsHashes}
use ratelimit_gateway.Limiter.SlidingWindow as Script
use ratelimit_gateway.Limiter.SlidingWindow.{store_after}
use ratelimit_gateway.Limiter.SlidingWindow.Log.{decisions, is_within, admitted}
use ratelimit_gateway.Limiter.SlidingWindow.Retry.{retry_exact}
use ratelimit_gateway.Limiter.FixedWindow.{fixed_replies}
use ratelimit_gateway.Limiter.FixedWindow.Log.{fixed_decisions}
use ratelimit_gateway.Limiter.FixedWindow.Refinement.{fixed_replies-log}
use ratelimit_gateway.Limiter.TokenBucket.{bucket_replies}
use ratelimit_gateway.Limiter.TokenBucket.Bounds.{IsWithin, bucket_replies-IsWithin}
use ratelimit_gateway.Limiter.TokenBucket.Burst.{same_calls, countdown, bucket_replies-countdown}
use ratelimit_gateway.Limiter.Redis.{Quota, Value, Args, sliding_window, allow_all}
use ratelimit_gateway.Limiter.Redis.Allowed.{values_of, is_allowed, allow_all-log}
use ratelimit_gateway.Gateway.Middleware.{RateLimit, apply_decision}
use ratelimit_gateway.Gateway.Breaker.{new_breaker}
use ratelimit_gateway.Integration.Retry.{gateway_decision, told_seconds, told_seconds-refused}

abbrev number : ℕ → Fixed
number n = pos (n * 1000)

-- A server that runs the sliding window only.
abbrev server : String → Args Fixed → (String → SetSlot) → Option (List Value) × (String → SetSlot)
server key (Args.sliding_args now window limit member) s =
    let (reply, after) = Script.sliding_window key now window limit member s in
    (some (values_of reply), after)
server key args s = (none, s)

abbrev quota : Quota
quota = record { limit = 2; window = 1_000_000_000; burst = 0 }

abbrev calls : List (ℕ × String)
calls = (0, "a") ∷ (400, "b") ∷ (500, "c") ∷ (1000, "d") ∷ []

allow_all-log_example :
    (map is_allowed
        (allow_all server (record { alg = sliding_window; prefix = "rl" }) "t" quota calls no_sets)
      ≡ decisions 1000 2 [] (0 ∷ 400 ∷ 500 ∷ 1000 ∷ []))
    × (count (is_within 1000 100) (
          admitted (0 ∷ 400 ∷ 500 ∷ 1000 ∷ []) (
            map is_allowed (
              allow_all server
                (record { alg = sliding_window; prefix = "rl" })
                "t"
                quota
                calls
                no_sets)))
        ≤ 2)
allow_all-log_example =
    allow_all-log server (λ key now window limit member s. refl) "rl" "t" quota (omega arith) 1000
      (omega arith) refl memory_sets-IsSortedSets calls no_sets 100
      (entries-no_sets "rl:sliding_window:t")
      (omega arith, (omega arith, (omega arith, (omega arith, tt))))
      (refl, (refl, (refl, (refl, tt))))

abbrev after_two : String → SetSlot
after_two = store_after "k" 1000 2 ((0, "a") ∷ (400, "b") ∷ []) no_sets

refused_c : ((Script.sliding_window "k" 500 1000 2 "c" after_two).0.allowed == 1) ≡ false
unfolding store_after Script.sliding_window
refused_c = refl

retry_exact_example :
    let (reply, after) = Script.sliding_window "k" 500 1000 2 "c" after_two in
    ((Script.sliding_window "k" (500 + 500) 1000 2 "d" after).0.allowed == 1)
    ≡ leb reply.retry_after_ms 500
retry_exact_example =
    retry_exact memory_sets-IsSortedSets "k" 1000 2 (omega arith) ((0, "a") ∷ (400, "b") ∷ [])
      no_sets 500 500 "c" "d" (entries-no_sets "k") (omega arith, (omega arith, tt)) (omega arith)
      (refl, (refl, tt)) refl refl (omega arith) refused_c

abbrev response : Response
response = record { status = 200; header = λ name. none }

abbrev middleware : RateLimit
middleware = record {
  fail_open = true;
  breaker = new_breaker 3 100 2;
  breaker_gauge = none;
  decisions = [];
  errors = [];
}

abbrev after_slow : String → SetSlot
after_slow = store_after "k" 2000 2 ((0, "a") ∷ (400, "b") ∷ []) no_sets

refused_slow : ((Script.sliding_window "k" 700 2000 2 "c" after_slow).0.allowed == 1) ≡ false
unfolding store_after Script.sliding_window
refused_slow = refl

short_slow :
    let (reply, after) = Script.sliding_window "k" 700 2000 2 "c" after_slow in
    told_seconds reply.retry_after_ms * 1000 < reply.retry_after_ms
unfolding store_after Script.sliding_window
short_slow = omega arith

-- Refused with 1300 milliseconds to wait, of which one second is told.
told_seconds-refused_example :
    let (reply, after) = Script.sliding_window "k" 700 2000 2 "c" after_slow in
    let seconds = told_seconds reply.retry_after_ms in
    ((apply_decision "free" response (gateway_decision 2 reply) middleware).0.header "Retry-After"
      ≡ some (decimal seconds))
    × (((Script.sliding_window "k" (700 + seconds * 1000) 2000 2 "d" after).0.allowed == 1) ≡ false)
told_seconds-refused_example =
    told_seconds-refused memory_sets-IsSortedSets "k" 2000 2 (omega arith) "free" response
      middleware ((0, "a") ∷ (400, "b") ∷ []) no_sets 700 "c" "d" (entries-no_sets "k")
      (omega arith, (omega arith, tt)) (omega arith) (refl, (refl, tt)) refl refl (omega arith)
      refused_slow short_slow

abbrev strokes : ℕ → String
strokes zero = ""
strokes (suc n) = prepend "1" (strokes n)

abbrev size : String → ℕ
size String.[] = 0
size (String.◌∷◌ c s) = suc (size s)

size-strokes : (n : ℕ) → size (strokes n) ≡ n
size-strokes zero = refl
size-strokes (suc n) = ap suc (size-strokes n)

strokes_differ : (i j : ℕ) → i < 2000 → j < 2000 → strokes i ≡ strokes j → i ≡ j
strokes_differ i j small_i small_j e = sym (size-strokes i) ∙ ap size e ∙ size-strokes j

fixed_replies-log_example :
    (map
        (λ r. r.allowed == 1)
        (fixed_replies strokes "k" 1000 2 (0 ∷ 400 ∷ 500 ∷ 1000 ∷ []) no_counts)
      ≡ fixed_decisions 1000 2 [] (0 ∷ 400 ∷ 500 ∷ 1000 ∷ []))
    × (count (is_within 1000 300) (
          admitted (0 ∷ 400 ∷ 500 ∷ 1000 ∷ []) (
            map
              (λ r. r.allowed == 1)
              (fixed_replies strokes "k" 1000 2 (0 ∷ 400 ∷ 500 ∷ 1000 ∷ []) no_counts)))
        ≤ 2 * 2)
fixed_replies-log_example =
    fixed_replies-log memory_counters-IsCounters strokes 2000 strokes_differ "k" 1000 (omega arith)
      2 (0 ∷ 400 ∷ 500 ∷ 1000 ∷ []) no_counts 300 value-no_counts
      (omega arith, (omega arith, (omega arith, (omega arith, tt))))
      (omega arith, (omega arith, (omega arith, (omega arith, tt))))

bucket_replies-IsWithin_example :
    All
      (λ r. IsWithin Fixed-IsArithmetic (number 2) (number 3) refl refl refl refl r.remaining)
      (bucket_replies "k"
        (number 2)
        (number 3)
        ((0, number 100) ∷ (5, number 50) ∷ (9, number 900) ∷ [])
        no_hashes)
bucket_replies-IsWithin_example =
    bucket_replies-IsWithin Fixed-IsArithmetic (number 2) (number 3) refl refl refl refl
      bucket_store-IsHashes "k" ((0, number 100) ∷ (5, number 50) ∷ (9, number 900) ∷ []) no_hashes
      (λ t. refl) (omega arith, (omega arith, (omega arith, tt)))

bucket_replies-countdown_example :
    map
      (λ r. (r.allowed, r.remaining))
      (bucket_replies "k" (number 2) (fixed_number.nat 3) (same_calls 5 10 (number 100)) no_hashes)
    ≡ countdown 3 5
bucket_replies-countdown_example =
    bucket_replies-countdown Fixed-IsArithmetic Fixed-IsExact (number 2) (number 100) 3 refl refl
      refl (omega arith) bucket_store-IsHashes "k" 10 5 no_hashes refl
