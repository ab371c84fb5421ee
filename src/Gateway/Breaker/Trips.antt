-- ===== src/Gateway/Breaker/Trips.antt =====
-- When the breaker trips, and what it then lets through.
use ratelimit_gateway.Base.{
  ℕ, ◌+◌, ◌<◌, ◌≡◌, refl, ap, ◌∙◌, false, List, [], ◌∷◌, ◌++◌, map, length, All, arith,
}
use ratelimit_gateway.Gateway.Breaker.{
  closed, open_state, Breaker, trip, allow, failure, Call, failure_call, run_call, run_calls,
}
use ratelimit_gateway.Gateway.Breaker.Bounds.{admitted, admitted-cons}

-- Failed calls that end at the given times.
abbrev pub failures_at : List ℕ → List (Call × ℕ)
failures_at = map (λ now. (failure_call, now))

pub failure_below :
    (now : ℕ) (b : Breaker)
    → b.state ≡ closed
    → b.failures + 1 < b.threshold
    → run_call (failure_call, now) b ≡ record b { failures = b.failures + 1 }
unfolding run_call failure trip
failure_below now b h below = ground arith

pub failure_last :
    (now : ℕ) (b : Breaker)
    → b.state ≡ closed
    → b.failures + 1 ≡ b.threshold
    → run_call (failure_call, now) b
      ≡ record b { state = open_state; failures = b.threshold; probes = 0; opened_at = now }
unfolding run_call failure trip
failure_last now b h last = ground arith

-- A closed breaker trips with the failure that reaches the threshold, at the time of that failure,
-- and no earlier failure changes anything but the count.
pub failures_trip :
    (earlier : List ℕ) (last : ℕ) (b : Breaker)
    → b.state ≡ closed
    → b.failures + (length earlier + 1) ≡ b.threshold
    → (run_calls (failures_at earlier) b ≡ record b { failures = b.failures + length earlier })
      × (run_calls (failures_at (earlier ++ last ∷ [])) b
          ≡ record b { state = open_state; failures = b.threshold; probes = 0; opened_at = last })
unfolding run_calls
failures_trip [] last b h e = (ground arith, failure_last last b h (omega arith))
failures_trip (t ∷ ts) last b h e =
    let counted : Breaker = record b { failures = b.failures + 1 } in
    let step : run_call (failure_call, t) b ≡ counted = failure_below t b h (omega arith) in
    let (before, after) = failures_trip ts last counted h (omega arith) in
    (
      ap (run_calls (failures_at ts)) step
          ∙ before
          ∙ ap (λ n. record b { failures = n }) (omega arith),
      ap (run_calls (failures_at (ts ++ last ∷ []))) step ∙ after,
    )

pub open_refuses :
    (now : ℕ) (b : Breaker)
    → b.state ≡ open_state
    → now < b.opened_at + b.cooldown
    → allow now b ≡ (false, b)
unfolding allow
open_refuses now b h early = ground arith

-- An open breaker lets no call through before its cooldown is over.
pub admitted_open :
    (times : List ℕ) (b : Breaker)
    → b.state ≡ open_state
    → All (λ now. now < b.opened_at + b.cooldown) times
    → admitted times b ≡ 0
unfolding admitted
admitted_open [] b h early = refl
admitted_open (now ∷ times) b h (e, es) =
    admitted-cons now times b b false (open_refuses now b h e) ∙ admitted_open times b h es

-- After the failures that reach the threshold no call passes until the cooldown has gone by since
-- the last of them.
pub admitted-failures :
    (earlier : List ℕ) (last : ℕ) (times : List ℕ) (b : Breaker)
    → b.state ≡ closed
    → b.failures + (length earlier + 1) ≡ b.threshold
    → All (λ now. now < last + b.cooldown) times
    → admitted times (run_calls (failures_at (earlier ++ last ∷ [])) b) ≡ 0
admitted-failures earlier last times b h e early =
    let tripped : Breaker = record b {
      state = open_state;
      failures = b.threshold;
      probes = 0;
      opened_at = last;
    } in
    ap (admitted times) (failures_trip earlier last b h e).1
    ∙ admitted_open times tripped refl early
