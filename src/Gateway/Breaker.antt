-- ===== src/Gateway/Breaker.antt =====
-- The circuit breaker: internal/breaker/breaker.go. Every method holds the mutex, so each is one
-- step. Times and durations are numbers of one unit.
pub mod Bounds
pub mod Trips
use ratelimit_gateway.Base.{
  ℕ, zero, suc, ◌+◌, ◌≤◌, ◌<◌, ◌≡◌, Bool, true, false, List, [], ◌∷◌, if◌then◌else◌, ltb, leb,
}

pub data State : Type 0 where
  closed open_state half_open : State

pub record Breaker : Type 0 where
  pub state : State
  pub failures : ℕ
  pub probes : ℕ
  pub opened_at : ℕ
  pub threshold : ℕ
  pub cooldown : ℕ
  pub max_probes : ℕ

-- `New(threshold, cooldown, WithMaxProbes(n))`; the option ignores an n of zero.
unfoldable pub new_breaker : ℕ → ℕ → ℕ → Breaker
new_breaker threshold cooldown n = record {
  state = closed;
  failures = 0;
  probes = 0;
  opened_at = 0;
  threshold = if ltb threshold 1 then 1 else threshold;
  cooldown = cooldown;
  max_probes = if ltb 0 n then n else 1;
}

unfoldable pub trip : ℕ → Breaker → Breaker
trip now b = record b { state = open_state; opened_at = now; probes = 0 }

-- The half-open part of `Allow`: a limited number of probes.
unfoldable pub admit_probe : Breaker → Bool × Breaker
admit_probe b =
    if leb b.max_probes b.probes then (false, b) else (true, record b { probes = b.probes + 1 })

abbrev pub allow_in : State → ℕ → Breaker → Bool × Breaker
allow_in closed now b = (true, b)
allow_in half_open now b = admit_probe b
allow_in open_state now b =
    if ltb now (b.opened_at + b.cooldown)
    then (false, b)
    else admit_probe (record b { state = half_open; probes = 0 })

unfoldable pub allow : ℕ → Breaker → Bool × Breaker
allow now b = allow_in b.state now b

abbrev pub success_in : State → Breaker → Breaker
success_in half_open b = record b { state = closed; failures = 0; probes = 0 }
success_in closed b = record b { failures = 0 }
success_in open_state b = b

unfoldable pub success : Breaker → Breaker
success b = success_in b.state b

abbrev pub failure_in : State → ℕ → Breaker → Breaker
failure_in half_open now b = trip now b
failure_in closed now b =
    let counted : Breaker = record b { failures = b.failures + 1 } in
    if leb b.threshold counted.failures then trip now counted else counted
failure_in open_state now b = b

unfoldable pub failure : ℕ → Breaker → Breaker
failure now b = failure_in b.state now b

-- `State()`, for the metrics and the dashboard.
abbrev pub reported_in : State → ℕ → Breaker → State
reported_in open_state now b = if leb (b.opened_at + b.cooldown) now then half_open else open_state
reported_in closed now b = closed
reported_in half_open now b = half_open

unfoldable pub reported_state : ℕ → Breaker → State
reported_state now b = reported_in b.state now b

-- One call of a method at a time, by any of the requests.
pub data Call : Type 0 where
  allow_call success_call failure_call : Call

unfoldable pub run_call : Call × ℕ → Breaker → Breaker
run_call (allow_call, now) b = (allow now b).1
run_call (success_call, now) b = success b
run_call (failure_call, now) b = failure now b

unfoldable pub run_calls : List (Call × ℕ) → Breaker → Breaker
run_calls [] b = b
run_calls (c ∷ cs) b = run_calls cs (run_call c b)
