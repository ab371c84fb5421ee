-- ===== src/Gateway/Simulate.antt =====
-- `handleSimulate` of internal/dashboard/dashboard.go: a burst against the real limiter. The
-- limiter is a parameter: what `Allow` answers for the simulator's key, with its state.
pub mod Counts
use ratelimit_gateway.Base.{
  ℕ, zero, suc, ◌+◌, String, Bool, true, Option, none, some, List, [], ◌∷◌, ◌++◌, if◌then◌else◌,
  ltb, template,
}

-- `maxSimulationRequests`.
abbrev pub max_simulation_requests : ℕ
max_simulation_requests = 500

-- What the handler reads of a `limiter.Decision`; `remaining` and `retry_after_ms` are not
-- negative.
pub record Decision : Type 0 where
  pub allowed : Bool
  pub remaining : ℕ
  pub retry_after_ms : ℕ

-- `simulateResult`.
pub record SimulateResult : Type 0 where
  pub index : ℕ
  pub allowed : Bool
  pub remaining : ℕ
  pub retry_after_ms : ℕ

-- The counts and the results of `simulateResponse`.
pub record Tally : Type 0 where
  pub allowed : ℕ
  pub throttled : ℕ
  pub results : List SimulateResult

-- What the loop changes: the limiter, and the decisions given to the recorder.
pub record World {ℓ} (S : Type ℓ) : Type ℓ where
  pub limiter : S
  pub recorded : List Bool

pub data Answer : Type 0 where
  bad_request : String → Answer
  unavailable : Answer
  simulated : Tally → Answer

-- The body of the request, and what the resolver knows of the tier; `count` is a Go int, and what
-- is below one counts as one.
pub data Request : Type 0 where
  malformed : Request
  burst : String → Bool → ℕ → Request

abbrev pub clamp_count : ℕ → ℕ
clamp_count count =
    let least = if ltb count 1 then 1 else count in
    if ltb max_simulation_requests least then max_simulation_requests else least

-- One round: the decision is counted, recorded and appended.
abbrev pub tally_decision : ℕ → Decision → Tally → Tally
tally_decision i d t = record {
  allowed = if d.allowed then t.allowed + 1 else t.allowed;
  throttled = if d.allowed then t.throttled else t.throttled + 1;
  results =
      t.results
      ++ (record {
        index = i + 1;
        allowed = d.allowed;
        remaining = d.remaining;
        retry_after_ms = d.retry_after_ms;
      }
          ∷ []);
}

abbrev pub empty_tally : Tally
empty_tally = record { allowed = 0; throttled = 0; results = [] }

abbrev pub answer_of : Option Tally → Answer
answer_of none = unavailable
answer_of (some t) = simulated t

module _ {ℓ} {S : Type ℓ} (allow : S → Option Decision × S) where
  -- The loop from the i-th request on, with some to go; an error of the limiter ends it.
  unfoldable pub simulate_from : ℕ → ℕ → Tally → World S → Option Tally × World S
  simulate_from i zero t w = (some t, w)
  simulate_from i (suc left) t w = elim (allow w.limiter).0 [
    | none ↦ (none, record w { limiter = (allow w.limiter).1 })
    | some d ↦
        simulate_from (i + 1) left (tally_decision i d t)
          (record { limiter = (allow w.limiter).1; recorded = w.recorded ++ d.allowed ∷ [] })
  ]

  unfoldable pub handle_simulate : Request → World S → Answer × World S
  handle_simulate malformed w = (bad_request "invalid request body", w)
  handle_simulate (burst tier known count) w =
      let run = simulate_from 0 (clamp_count count) empty_tally w in
      if known
      then (answer_of run.0, run.1)
      else (bad_request (template ("unknown tier " ∷ tier ∷ [])), w)
