-- ===== src/Server/Startup.antt =====
-- The start of the gateway in `run` of cmd/gateway/main.go: what it serves with, or why it does not
-- start. The file of the tenants, and the patterns that the multiplexer takes beside its others, are
-- parameters. Here the breaker's times are nanoseconds.
pub mod Started
pub mod Limited
use ratelimit_gateway.Base.{
  ℕ, String, Bool, true, Option, some, none, List, if◌then◌else◌, str_eq, Outcome, ok, err, ◌>>=◌,
}
use ratelimit_gateway.Number.{Number}
use ratelimit_gateway.Limiter.Redis.{ℤ, RedisLimiter, Args, Value}
use ratelimit_gateway.Gateway.Tenant as Tenant
use ratelimit_gateway.Gateway.Tenant.{Resolver, FileFormat, LoadError}
use ratelimit_gateway.Server.Config as Settings
use ratelimit_gateway.Server.Config.{Url, Config, ConfigError, Environment}
use ratelimit_gateway.Server.Pipeline.{Running, magnitude, new_rate_limit}
use ratelimit_gateway.Server.Routes.{Answer, Visit, serve_visits}

-- What `run` returns, or the panic of the multiplexer at a pattern that it does not take.
pub data StartError : Type 0 where
  bad_config : ConfigError → StartError
  bad_tenants : LoadError → StartError
  bad_pattern : String → StartError

abbrev pub caused_by {ℓ κ μ} :
    {A : Type ℓ} {D : Type κ} {E : Type μ} → (D → E) → Outcome D A → Outcome E A
caused_by f (ok a) = ok a
caused_by f (err e) = err (f e)

pub record Gateway {ℓ} (S : Type ℓ) : Type ℓ where
  pub cfg : Config
  pub resolver : Resolver
  pub limiter : RedisLimiter
  pub running : Running S

-- `limiter.New` with the algorithm of the configuration, and `NewRateLimit`.
abbrev pub new_limiter : Config → RedisLimiter
new_limiter cfg = record { alg = cfg.algorithm; prefix = "rl" }

-- A threshold or a cooldown below zero has the effect of zero.
unfoldable pub gateway_of {ℓ} : {S : Type ℓ} → Config → Resolver → S → Gateway S
gateway_of cfg resolver store = record {
  cfg = cfg;
  resolver = resolver;
  limiter = new_limiter cfg;
  running = record {
    rl =
        new_rate_limit cfg.fail_open (magnitude cfg.breaker_thresh)
          (magnitude cfg.breaker_cooldown);
    store = store;
  };
}

module _ (parse_url : String → Option Url) (parse_duration : String → Option ℤ)
    (file : String → Option FileFormat) (takes_pattern : String → Bool) where
  -- The pattern of the console, if there is one.
  abbrev pub mount_console : String → Outcome StartError (Option String)
  mount_console path =
      if str_eq path ""
      then ok none
      else if takes_pattern path
      then ok (some path)
      else err (bad_pattern path)

  unfoldable pub start {ℓ} : {S : Type ℓ} → Environment → S → Outcome StartError (Gateway S)
  start e store = caused_by bad_config (Settings.load parse_url parse_duration e) >>= λ cfg.
      caused_by bad_tenants (Tenant.load cfg.trust_xff (file cfg.tenants_path)) >>= λ resolver.
      mount_console cfg.console_path >>= λ mounted. ok (gateway_of cfg resolver store)

-- What the proxy's listener makes of some visits.
abbrev pub listen {κ ℓ} :
    {N : Type κ} ⦃num : Number N⦄ {S : Type ℓ}
    → (String → Args N → S → Option (List Value) × S)
    → Gateway S
    → List Visit
    → List Answer × Running S
listen run gateway visits =
    serve_visits run gateway.cfg gateway.resolver gateway.limiter visits gateway.running
