-- ===== src/Dashboard/Simulator.antt =====
-- The burst simulator: `renderSimulation` and `runSimulation` of app.js. A dot is its
-- interpolated parts; the fixed markup around them is left out.
pub mod Note
use Prim.Native.Nat.{min}
use ratelimit_gateway.Base.{
  ℕ, ◌+◌, ◌*◌, String, Bool, true, false, not, Option, none, some, List, [], ◌∷◌, if◌then◌else◌,
  str_eq, template,
}
use mathlib.Core.Option
use ratelimit_gateway.Number.{Number}

-- One result of the answer of `/api/simulate`, and the answer.
pub record SimulateResult {ℓ} (N : Type ℓ) : Type ℓ where
  pub index : N
  pub allowed : Bool
  pub remaining : N
  pub retry_after_ms : N

pub record SimulateResponse {ℓ} (N : Type ℓ) : Type ℓ where
  pub tier : String
  pub allowed : N
  pub throttled : N
  pub duration_ms : N
  pub results : List (SimulateResult N)

pub record Dot : Type 0 where
  pub rejected : Bool
  pub delay : String
  pub title : String

-- The part of the page that the simulator writes.
pub record Simulator : Type 0 where
  pub summary_hidden : Bool
  pub allowed : String
  pub throttled : String
  pub duration : String
  pub dots : List Dot
  pub note : String
  pub run_disabled : Bool
  pub run_label : String

-- How the request of `runSimulation` ends: no connection or no JSON, an error status with the
-- `error` of its body, or the simulation.
pub data SimulateReply {ℓ} (N : Type ℓ) : Type ℓ where
  unreachable : SimulateReply N
  refused : Option String → SimulateReply N
  simulated : SimulateResponse N → SimulateReply N

-- The body of the request.
pub record SimulateRequest {ℓ} (N : Type ℓ) : Type ℓ where
  pub tier : String
  pub count : N

module _ {ℓ} {N : Type ℓ} where
  -- `results.findIndex((r) => !r.allowed)`, and `none` for -1.
  unfoldable pub first_rejected : List (SimulateResult N) → Option ℕ
  first_rejected [] = none
  first_rejected (r ∷ rs) =
      let later = Option.map (λ i. i + 1) (first_rejected rs) in if r.allowed then later else some 0

-- What `runSimulation` does before it waits.
unfoldable pub start_simulation : Simulator → Simulator
start_simulation page = record page { run_disabled = true; run_label = "Sending…" }

-- Its `finally` block.
abbrev pub restore : Simulator → Simulator
restore page = record page { run_disabled = false; run_label = "Send burst" }

-- `body.error || "Simulation failed."`.
abbrev pub error_text : Option String → String
error_text none = "Simulation failed."
error_text (some s) = if str_eq s "" then "Simulation failed." else s

module _ {ℓ} {N : Type ℓ} ⦃num : Number N⦄ where
  open num use {nat, text, fixed, of_text}

  unfoldable pub sim_dot : ℕ → SimulateResult N → Dot
  sim_dot i r = record {
    rejected = not r.allowed;
    delay = template (text (nat (min (i * 6) 600)) ∷ "ms" ∷ []);
    title =
        if r.allowed
        then template ("#" ∷ text r.index ∷ " allowed · " ∷ text r.remaining ∷ " remaining" ∷ [])
        else template
            ("#" ∷ text r.index ∷ " throttled · retry in " ∷ text r.retry_after_ms ∷ "ms" ∷ []);
  }

  unfoldable pub sim_dots : ℕ → List (SimulateResult N) → List Dot
  sim_dots i [] = []
  sim_dots i (r ∷ rs) = sim_dot i r ∷ sim_dots (i + 1) rs

  unfoldable pub sim_note : SimulateResponse N → Option ℕ → String
  sim_note result none =
      template
        ("All " ∷ text result.allowed ∷ " requests fit inside the " ∷ result.tier ∷ " quota." ∷ [])
  sim_note result (some first) = template (
      "Request #"
      ∷ text (nat (first + 1))
      ∷ " was the first rejected — the "
      ∷ result.tier
      ∷ " tier's burst was exhausted there."
      ∷ [])

  unfoldable pub render_simulation : SimulateResponse N → Simulator → Simulator
  render_simulation result page = record page {
    summary_hidden = false;
    allowed = text result.allowed;
    throttled = text result.throttled;
    duration = fixed 1 result.duration_ms;
    dots = sim_dots 0 result.results;
    note = sim_note result (first_rejected result.results);
  }

  -- What is sent: the selected tier and the slider's value.
  unfoldable pub simulate_request : String → String → SimulateRequest N
  simulate_request tier count = record { tier = tier; count = of_text count }

  -- What `runSimulation` does once the answer is there. After a simulation it also polls, which is
  -- a step of its own.
  unfoldable pub finish_simulation : SimulateReply N → Simulator → Simulator
  finish_simulation unreachable page =
      restore (record page { note = "Could not reach the gateway." })
  finish_simulation (refused error) page = restore (record page { note = error_text error })
  finish_simulation (simulated result) page = restore (render_simulation result page)
