-- ===== src/LoadTest.antt =====
-- The load test: scripts/loadtest.js. The runs of k6 are left out: an iteration is one call of
-- `throughput` or `throttling` with the response that its request got.
pub mod Answers
use ratelimit_gateway.Base.{
  ℕ, ◌+◌, String, Bool, true, false, not, ◌&&◌, ◌||◌, Option, none, some, List, [], ◌∷◌, ◌++◌,
  if◌then◌else◌, ◌==◌, str_eq, template,
}
use ratelimit_gateway.Number.{Number}

-- `__ENV`, with `none` for a variable that is not set.
pub record Env : Type 0 where
  pub gateway : Option String
  pub rate : Option String
  pub duration : Option String

-- `value || fallback`: the empty text counts as false.
abbrev pub env_or : String → Option String → String
env_or fallback none = fallback
env_or fallback (some value) = if str_eq value "" then fallback else value

abbrev pub base_of : Env → String
base_of env = env_or "http://localhost:8080" env.gateway

abbrev pub duration_of : Env → String
duration_of env = env_or "30s" env.duration

pub record Scenario {ℓ} (N : Type ℓ) : Type ℓ where
  pub executor : String
  pub rate : N
  pub time_unit : String
  pub duration : String
  pub pre_allocated_vus : ℕ
  pub max_vus : ℕ
  pub exec : String
  pub start_time : Option String
  pub scenario_tag : String

pub record Options {ℓ} (N : Type ℓ) : Type ℓ where
  pub throughput_scenario : Scenario N
  pub throttling_scenario : Scenario N
  pub thresholds : List (String × List String)

-- The counters, the trend, and the checks with whether each passed.
pub record Metrics {ℓ} (N : Type ℓ) : Type ℓ where
  pub allowed : ℕ
  pub throttled : ℕ
  pub degraded : ℕ
  pub latency : List N
  pub checks : List (String × Bool)

-- A response of `http.get`; `none` is undefined.
pub record HttpResponse {ℓ} (N : Type ℓ) : Type ℓ where
  pub status : ℕ
  pub headers : String → Option String
  pub duration : N

pub record HttpRequest : Type 0 where
  pub url : String
  pub api_key : String
  pub scenario_tag : String

abbrev pub is_defined : Option String → Bool
is_defined none = false
is_defined (some value) = true

abbrev pub is_text : String → Option String → Bool
is_text text none = false
is_text text (some value) = str_eq value text

abbrev pub throughput_request : Env → HttpRequest
throughput_request env = record {
  url = template (base_of env ∷ "/get" ∷ []);
  api_key = "demo-internal-key";
  scenario_tag = "throughput";
}

abbrev pub throttling_request : Env → HttpRequest
throttling_request env = record {
  url = template (base_of env ∷ "/get" ∷ []);
  api_key = "demo-free-key";
  scenario_tag = "throttling";
}

module _ {ℓ} {N : Type ℓ} ⦃num : Number N⦄ where
  open num use {nat, of_text}

  abbrev pub rate_of : Env → N
  rate_of env = elim env.rate [
    | none ↦ nat 2000
    | some value ↦ if str_eq value "" then nat 2000 else of_text value
  ]

  abbrev pub options : Env → Options N
  options env = record {
    throughput_scenario = record {
      executor = "constant-arrival-rate";
      rate = rate_of env;
      time_unit = "1s";
      duration = duration_of env;
      pre_allocated_vus = 200;
      max_vus = 2000;
      exec = "throughput";
      start_time = none;
      scenario_tag = "throughput";
    };
    throttling_scenario = record {
      executor = "constant-arrival-rate";
      rate = nat 500;
      time_unit = "1s";
      duration = "10s";
      pre_allocated_vus = 50;
      max_vus = 500;
      exec = "throttling";
      start_time = some (duration_of env);
      scenario_tag = "throttling";
    };
    thresholds =
        ("http_req_duration{scenario:throughput}", "p(95)<25" ∷ "p(99)<50" ∷ [])
        ∷ ("http_req_failed{scenario:throughput}", "rate<0.01" ∷ [])
        ∷ [];
  }

  -- The first two counters.
  abbrev pub count_status : HttpResponse N → Metrics N → Metrics N
  count_status res m = record m {
    allowed = if res.status == 200 then m.allowed + 1 else m.allowed;
    throttled = if res.status == 429 then m.throttled + 1 else m.throttled;
  }

  unfoldable pub throughput : HttpResponse N → Metrics N → Metrics N
  throughput res m =
      let counted = count_status res (record m { latency = m.latency ++ res.duration ∷ [] }) in
      record counted {
        degraded =
            if is_text "true" (res.headers "X-Ratelimit-Degraded")
            then counted.degraded + 1
            else counted.degraded;
        checks =
            counted.checks
            ++ ("admitted under quota", res.status == 200)
              ∷ ("quota headers present", is_defined (res.headers "X-Ratelimit-Limit"))
              ∷ [];
      }

  unfoldable pub throttling : HttpResponse N → Metrics N → Metrics N
  throttling res m =
      let counted = count_status res m in
      record counted {
        checks =
            counted.checks
            ++ ("answered 200 or 429", res.status == 200 || res.status == 429)
              ∷ (
                "rejection carries Retry-After",
                not (res.status == 429) || is_defined (res.headers "Retry-After"),
              )
              ∷ [];
      }
