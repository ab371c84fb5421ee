-- ===== src/Gateway/Breaker/Bounds.antt =====
-- The bounds of the breaker's counters, and of what it lets through: breaker.go.
use ratelimit_gateway.Base.{
  ℕ, ◌+◌, ◌-◌, ◌≤◌, ◌<◌, ◌≡◌, refl, Bool, true, false, List, [], ◌∷◌, if◌then◌else◌, ltb, min,
  arith, length, Bool-cases, inl, inr, tests, ltb→lt, ltb-false→le, ap,
}
use ratelimit_gateway.Gateway.Breaker.{
  State, closed, open_state, half_open, Breaker, new_breaker, trip, admit_probe, allow, success,
  failure, Call, allow_call, success_call, failure_call, run_call, run_calls,
}

abbrev pub IsBelowThreshold : State → Breaker → Type 0
IsBelowThreshold closed b = b.failures < b.threshold
IsBelowThreshold _ b = Unit

-- A closed breaker has not reached its threshold, and no more probes run than are allowed.
pub record IsValid (b : Breaker) : Type 0 where
  pub below : IsBelowThreshold b.state b
  pub limited : b.probes ≤ b.max_probes
  pub some_threshold : 1 ≤ b.threshold
  pub some_probe : 1 ≤ b.max_probes

new_breaker-IsValid : (threshold cooldown n : ℕ) → IsValid (new_breaker threshold cooldown n)
unfolding new_breaker
new_breaker-IsValid threshold cooldown n = ground arith

run_call-IsValid : (c : Call × ℕ) (b : Breaker) → IsValid b → IsValid (run_call c b)
unfolding run_call allow success failure trip admit_probe
run_call-IsValid (allow_call, now) b v = ground arith
run_call-IsValid (success_call, now) b v = ground arith
run_call-IsValid (failure_call, now) b v = ground arith

run_calls-IsValid : (cs : List (Call × ℕ)) (b : Breaker) → IsValid b → IsValid (run_calls cs b)
unfolding run_calls
run_calls-IsValid [] b v = v
run_calls-IsValid (c ∷ cs) b v = run_calls-IsValid cs (run_call c b) (run_call-IsValid c b v)

-- Whatever calls are made of a new breaker, in whatever order and at whatever times: while it is
-- closed its failures are below the threshold, and it never counts more probes than its limit.
pub run_calls-new_breaker-IsValid :
    (threshold cooldown n : ℕ) (cs : List (Call × ℕ))
    → IsValid (run_calls cs (new_breaker threshold cooldown n))
run_calls-new_breaker-IsValid threshold cooldown n cs =
    run_calls-IsValid cs (new_breaker threshold cooldown n)
      (new_breaker-IsValid threshold cooldown n)

-- The calls of `Allow` at the given times that pass.
unfoldable pub admitted : List ℕ → Breaker → ℕ
admitted [] b = 0
admitted (now ∷ times) b =
    let rest = admitted times (allow now b).1 in if (allow now b).0 then 1 + rest else rest

-- One call in front of others.
pub admitted-cons :
    (now : ℕ) (times : List ℕ) (b c : Breaker) (passed : Bool)
    → allow now b ≡ (passed, c)
    → admitted (now ∷ times) b ≡ (if passed then 1 + admitted times c else admitted times c)
unfolding admitted
admitted-cons now times b c passed e =
    ap (λ r. if r.0 then 1 + admitted times r.1 else admitted times r.1) e

probe_refused :
    (now : ℕ) (b : Breaker)
    → b.state ≡ half_open
    → b.max_probes ≤ b.probes
    → allow now b ≡ (false, b)
unfolding allow admit_probe
probe_refused now b h full = ground arith

probe_admitted :
    (now : ℕ) (b : Breaker)
    → b.state ≡ half_open
    → b.probes < b.max_probes
    → allow now b ≡ (true, record b { probes = b.probes + 1 })
unfolding allow admit_probe
probe_admitted now b h room = ground arith

admitted_half_open :
    (times : List ℕ) (b : Breaker)
    → b.state ≡ half_open
    → b.probes ≤ b.max_probes
    → admitted times b ≡ min (length times) (b.max_probes - b.probes)
unfolding admitted
admitted_half_open [] b h v = omega arith
admitted_half_open (now ∷ times) b h v =
    let again : Breaker = record b { probes = b.probes + 1 } in
    elim (Bool-cases (ltb b.probes b.max_probes)) [
      | inl room ↦ omega (
        tests,
        admitted-cons now times b again true (probe_admitted now b h (ltb→lt _ _ room)),
        admitted_half_open times again h (omega tests),
      )
      | inr full ↦ omega (
        tests,
        admitted-cons now times b b false (probe_refused now b h (ltb-false→le _ _ full)),
        admitted_half_open times b h v,
      )
    ]

probe_started :
    (now : ℕ) (b : Breaker)
    → b.state ≡ open_state
    → b.opened_at + b.cooldown ≤ now
    → 1 ≤ b.max_probes
    → allow now b ≡ (true, record b { state = half_open; probes = 1 })
unfolding allow admit_probe
probe_started now b h late some_probe = ground arith

-- An open breaker whose cooldown is over when the first of some calls comes lets as many of them
-- through as there are probes, however many there are and whenever the others come, as long as no
-- call has reported its outcome.
pub admitted_recovering :
    (now : ℕ) (times : List ℕ) (b : Breaker)
    → IsValid b
    → b.state ≡ open_state
    → b.opened_at + b.cooldown ≤ now
    → admitted (now ∷ times) b ≡ min (length (now ∷ times)) b.max_probes
admitted_recovering now times b v h late =
    let probing : Breaker = record b { state = half_open; probes = 1 } in
    omega (
      arith,
      admitted-cons now times b probing true (probe_started now b h late v.some_probe),
      admitted_half_open times probing refl v.some_probe,
    )
