-- ===== src/Server/Config.antt =====
-- The settings: internal/config/config.go. `net/url` and the parser of durations are parameters, and
-- so is the environment; a duration is a number of nanoseconds.
pub mod Console
pub mod Loaded
use Prim.Native.Char.{code}
use Prim.Native.String
use ratelimit_gateway.Base.{
  String, Bool, true, false, ◌||◌, Option, none, some, if◌then◌else◌, str_eq, Outcome, ok, err,
  ◌>>=◌, prepend, cut_prefix, ◌==◌,
}
use ratelimit_gateway.Limiter.Redis.{ℤ, pos, Algorithm, algorithm_of, parse_int}
use ratelimit_gateway.Gateway.Tenant.{split_host_port}

-- What the code reads of a `url.URL`.
pub record Url : Type 0 where
  pub scheme : String
  pub host : String

pub record Config : Type 0 where
  pub listen_addr : String
  pub metrics_addr : String
  pub upstream_url : Url
  pub redis_addr : String
  pub redis_password : String
  pub redis_pool_size : ℤ
  pub algorithm : Algorithm
  pub tenants_path : String
  pub fail_open : Bool
  pub limiter_timeout : ℤ
  pub breaker_thresh : ℤ
  pub breaker_cooldown : ℤ
  pub trust_xff : Bool
  pub shutdown_timeout : ℤ
  pub console_path : String
  pub console_probe_path : String
  pub public_dashboard_port : String

-- The kinds of a value, by the words of the error messages, and the text that is refused: a variable
-- of `envInt`, `envBool` or `envDuration`, the URL, or the algorithm.
pub data Kind : Type 0 where
  an_integer a_boolean a_duration : Kind

pub data ConfigError : Type 0 where
  not_a : Kind → String → String → ConfigError
  bad_upstream needs_scheme_and_host bad_algorithm : String → ConfigError

-- `os.LookupEnv`.
abbrev pub Environment : Type 0
Environment = String → Option String

abbrev pub getenv : Environment → String → String
getenv e key = elim (e key) [ none ↦ "" | some v ↦ v ]

abbrev pub env : Environment → String → String → String
env e key fallback = let v = getenv e key in if str_eq v "" then fallback else v

abbrev pub parsed {ℓ} : {A : Type ℓ} → ConfigError → Option A → Outcome ConfigError A
parsed error none = err error
parsed error (some a) = ok a

-- The common shape of `envInt`, `envBool` and `envDuration`.
unfoldable pub env_as {ℓ} :
    {A : Type ℓ} → Kind → (String → Option A) → Environment → String → A → Outcome ConfigError A
env_as kind parse e key fallback =
    let v = getenv e key in if str_eq v "" then ok fallback else parsed (not_a kind key v) (parse v)

-- `strconv.ParseBool`.
abbrev pub parse_bool : String → Option Bool
parse_bool t =
    if str_eq t "1"
      || str_eq t "t"
      || str_eq t "T"
      || str_eq t "TRUE"
      || str_eq t "true"
      || str_eq t "True"
    then some true
    else if str_eq t "0"
        || str_eq t "f"
        || str_eq t "F"
        || str_eq t "FALSE"
        || str_eq t "false"
        || str_eq t "False"
    then some false
    else none

-- `strings.HasSuffix(s, "/")`.
abbrev pub ends_with_slash : String → Bool
ends_with_slash String.[] = false
ends_with_slash (String.◌∷◌ c String.[]) = code c == b'/'
ends_with_slash (String.◌∷◌ c (String.◌∷◌ d s)) = ends_with_slash (String.◌∷◌ d s)

abbrev pub starts_with_slash : String → Bool
starts_with_slash String.[] = false
starts_with_slash (String.◌∷◌ c s) = code c == b'/'

-- The path of the console, from the text of its variable.
abbrev pub mounted : String → String
mounted raw =
    let rooted = if starts_with_slash raw then raw else prepend "/" raw in
    if ends_with_slash rooted then rooted else prepend rooted "/"

-- The variable of the console's path is set, and empty.
abbrev pub is_disabled : Environment → Bool
is_disabled e = elim (e "GATEWAY_CONSOLE_PATH") [ none ↦ false | some raw ↦ str_eq raw "" ]

unfoldable pub console_path_of : Environment → String
console_path_of e =
    let path = if is_disabled e then "" else env e "GATEWAY_CONSOLE_PATH" "/__gateway/" in
    if str_eq path "" then "" else mounted path

abbrev pub trim_colon : String → Option String → String
trim_colon addr none = addr
trim_colon addr (some port) = port

-- `portOf`.
unfoldable pub port_of : String → String
port_of addr = elim (split_host_port addr) [
  | none ↦ trim_colon addr (cut_prefix ":" addr)
  | some both ↦ both.1
]

abbrev pub checked_url : String → Url → Outcome ConfigError Url
checked_url raw url =
    if str_eq url.scheme "" || str_eq url.host "" then err (needs_scheme_and_host raw) else ok url

abbrev pub upstream_of : (String → Option Url) → Environment → Outcome ConfigError Url
upstream_of parse_url e =
    let raw = env e "GATEWAY_UPSTREAM_URL" "http://localhost:8081" in
    parsed (bad_upstream raw) (parse_url raw) >>= λ url. checked_url raw url

abbrev pub algorithm_from : Environment → Outcome ConfigError Algorithm
algorithm_from e =
    let name = env e "GATEWAY_ALGORITHM" "token_bucket" in
    parsed (bad_algorithm name) (algorithm_of name)

module _ (parse_url : String → Option Url) (parse_duration : String → Option ℤ) where
  unfoldable pub load : Environment → Outcome ConfigError Config
  load e = upstream_of parse_url e >>= λ upstream. algorithm_from e >>= λ algorithm.
      env_as an_integer parse_int e "REDIS_POOL_SIZE" (pos 128) >>= λ pool_size.
      env_as an_integer parse_int e "GATEWAY_BREAKER_THRESHOLD" (pos 5) >>= λ threshold.
      env_as a_boolean parse_bool e "GATEWAY_FAIL_OPEN" true >>= λ fail_open.
      env_as a_boolean parse_bool e "GATEWAY_TRUST_FORWARDED_FOR" false >>= λ trust.
      env_as a_duration parse_duration e "GATEWAY_LIMITER_TIMEOUT" (pos 50_000_000) >>= λ timeout.
      env_as a_duration parse_duration e "GATEWAY_BREAKER_COOLDOWN" (pos 5_000_000_000)
      >>= λ cooldown. ok (record {
        listen_addr = env e "GATEWAY_LISTEN_ADDR" ":8080";
        metrics_addr = env e "GATEWAY_METRICS_ADDR" ":9090";
        upstream_url = upstream;
        redis_addr = env e "REDIS_ADDR" "localhost:6379";
        redis_password = getenv e "REDIS_PASSWORD";
        redis_pool_size = pool_size;
        algorithm = algorithm;
        tenants_path = env e "GATEWAY_TENANTS_PATH" "tenants.json";
        fail_open = fail_open;
        limiter_timeout = timeout;
        breaker_thresh = threshold;
        breaker_cooldown = cooldown;
        trust_xff = trust;
        shutdown_timeout = pos 15_000_000_000;
        console_path = console_path_of e;
        console_probe_path = env e "GATEWAY_CONSOLE_PROBE_PATH" "/get";
        public_dashboard_port =
            env e "GATEWAY_PUBLIC_DASHBOARD_PORT" (port_of (env e "GATEWAY_METRICS_ADDR" ":9090"));
      })
