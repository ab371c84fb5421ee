-- ===== src/Integration/Degraded.antt =====
-- The console at a gateway that cannot decide.
use ratelimit_gateway.Base.{ℕ, ◌≡◌, refl, String, false, Option, none, arith}
use ratelimit_gateway.Number.{Number}
use ratelimit_gateway.Http.{Response}
use ratelimit_gateway.Gateway.Middleware.{
  Decision, RateLimit, serve_upstream, apply_failure_policy, wrap,
}
use ratelimit_gateway.Gateway.Middleware.Outcomes.{IsUndecided}
use ratelimit_gateway.Console.Result.{number_or_null, result_of}
use ratelimit_gateway.Console.Meter.{Meter, update_meter}
use ratelimit_gateway.Console.Log.{dot_of, detail_of}

module _ (now ended : ℕ) (tier : String) (upstream : Response) (rl : RateLimit) where
  -- The answer to a request that was not decided has no limit.
  undecided-limit :
      (verdict : Option Decision)
      → IsUndecided now verdict rl
      → upstream.header "X-RateLimit-Limit" ≡ none
      → (wrap now ended tier verdict upstream rl).0.header "X-RateLimit-Limit" ≡ none
  unfolding wrap apply_failure_policy serve_upstream
  undecided-limit verdict undecided no_limit = ground arith

  module _ {ℓ} {N : Type ℓ} ⦃num : Number N⦄ where
    undecided_result-limit :
        (verdict : Option Decision) (elapsed : N)
        → IsUndecided now verdict rl
        → upstream.header "X-RateLimit-Limit" ≡ none
        → (result_of (wrap now ended tier verdict upstream rl).0 elapsed).limit ≡ none
    unfolding result_of number_or_null
    undecided_result-limit verdict elapsed undecided no_limit =
        rw (undecided-limit verdict undecided no_limit) refl

    -- The console's meter never shows that the quota is not enforced: whenever the limiter does not
    -- decide, the gateway's answer carries no limit, and without one `updateMeter` returns before it
    -- looks at the degradation, so the meter and its status stay as they were.
    pub update_meter-undecided :
        (verdict : Option Decision) (elapsed clock : N) (meter : Meter N)
        → IsUndecided now verdict rl
        → upstream.header "X-RateLimit-Limit" ≡ none
        → update_meter clock (result_of (wrap now ended tier verdict upstream rl).0 elapsed) meter
          ≡ meter
    unfolding update_meter
    update_meter-undecided verdict elapsed clock meter undecided no_limit =
        rw (undecided_result-limit verdict elapsed undecided no_limit, update_meter) refl

    -- Under the closed policy the gateway refuses such a request with 503; the console's dot then
    -- says that the request failed, and its log that it was allowed.
    pub detail_of-undecided :
        (verdict : Option Decision) (elapsed : N)
        → IsUndecided now verdict rl
        → rl.fail_open ≡ false
        → let result = result_of (wrap now ended tier verdict upstream rl).0 elapsed in
          (result.status ≡ 503)
          × ((dot_of result).title ≡ "request failed")
          × (detail_of result ≡ "allowed")
    unfolding wrap apply_failure_policy result_of detail_of dot_of
    detail_of-undecided verdict elapsed undecided closed = ground arith
